-- ===== src/Mls/State.antt =====
-- The group state, and its persistence: `getLocalGroupState`, `saveLocalGroupState` and
-- `clearLocalGroupState`. Each method of the manager runs to its end before the next begins.
use text.Mathlib.TextLemmas.{append_cancel_left}
use Prim.Native.String.{◌++◌}
use genchat.Base.{
  ℕ, String, ◌≡◌, refl, ap, sym, ◌∙◌, ◌↔◌, true, false, Option, none, some, List, [], arith, ◌==◌,
  eq_iff, eq_refl, if◌then◌else◌, lookup, insert, remove, lookup-insert, lookup-remove,
}
use genchat.WebStorage.{WebStorage, Read, threw, absent, found, read, try_write, try_erase}

pub record Member : Type 0 where
  pub leaf_index : ℕ
  pub user_id : String
  pub public_key_hex : String

pub record GroupState : Type 0 where
  pub group_id : String
  pub epoch : ℕ
  pub my_leaf_index : ℕ
  pub epoch_secret_hex : String
  pub members : List Member
  pub updated_at : ℕ

-- The static maps of the class, and `localStorage`.
pub record Manager : Type 0 where
  pub group_cache : List (String × GroupState)
  pub app_key_cache : List (String × List ℕ)
  pub storage : WebStorage GroupState

abbrev pub storage_key : String → String
storage_key channel = "genchat_mls_group_" ++ channel

-- A stored state is put into the cache.
abbrev restore : String → Manager → Read GroupState → Manager × Option GroupState
restore channel m threw = (m, none)
restore channel m absent = (m, none)
restore channel m (found st) = (record m { group_cache = insert channel st m.group_cache }, some st)

unfoldable pub get_local_group_state : String → Manager → Manager × Option GroupState
get_local_group_state channel m = elim (lookup channel m.group_cache) [
  | some st ↦ (m, some st)
  | none ↦ restore channel m (read (storage_key channel) m.storage)
]

unfoldable pub save_local_group_state : GroupState → Manager → Manager
save_local_group_state st m = record m {
  group_cache = insert st.group_id st m.group_cache;
  storage = try_write (storage_key st.group_id) st m.storage;
}

unfoldable pub clear_local_group_state : String → Manager → Manager
clear_local_group_state channel m = record m {
  group_cache = remove channel m.group_cache;
  storage = try_erase (storage_key channel) m.storage;
}

-- The state that the manager knows of a channel.
abbrev pub group_of : String → Manager → Option GroupState
group_of channel m = (get_local_group_state channel m).1

-- A page load: the static maps are empty, `localStorage` stays.
abbrev pub reload : Manager → Manager
reload m = record m { group_cache = []; app_key_cache = [] }

storage_key_iff : (a b : String) → ((storage_key a == storage_key b) ≡ true) ↔ (a ≡ b)
storage_key_iff a b = (
  λ h. append_cancel_left "genchat_mls_group_" a b ((eq_iff _ _).0 h),
  λ e. (eq_iff _ _).1 (ap storage_key e),
)

read-try_write :
    (k j : String) (t : GroupState) (s : WebStorage GroupState)
    → (k == j) ≡ false
    → read j (try_write k t s) ≡ read j s
unfolding read try_write
read-try_write k j t s h = ground (arith, lookup-insert k j (some t) s.items)

-- What is saved is what the manager then knows of that group; of other groups it knows what it did.
pub group_of-save :
    (st : GroupState) (channel : String) (m : Manager)
    → group_of channel (save_local_group_state st m)
      ≡ (if st.group_id == channel then some st else group_of channel m)
unfolding get_local_group_state save_local_group_state
group_of-save st channel m = ground (
  arith,
  lookup-insert st.group_id channel st m.group_cache,
  eq_iff st.group_id channel,
  storage_key_iff st.group_id channel,
  read-try_write (storage_key st.group_id) (storage_key channel) st m.storage,
)

-- A saved state that the storage accepts is known again after a page load.
pub group_of-reload-save :
    (st : GroupState) (m : Manager)
    → m.storage.available ≡ true
    → m.storage.accepts m.storage.items (storage_key st.group_id) st ≡ true
    → group_of st.group_id (reload (save_local_group_state st m)) ≡ some st
unfolding get_local_group_state save_local_group_state lookup try_write read
group_of-reload-save st m a b = ground (
  arith,
  lookup-insert (storage_key st.group_id) (storage_key st.group_id) (some st) m.storage.items,
  eq_refl (storage_key st.group_id),
)

-- A cleared group is unknown, also after a page load, if the storage can be reached.
group_of-clear :
    (channel : String) (m : Manager)
    → m.storage.available ≡ true
    → (group_of channel (clear_local_group_state channel m) ≡ none)
      × (group_of channel (reload (clear_local_group_state channel m)) ≡ none)
unfolding get_local_group_state clear_local_group_state lookup try_erase read
group_of-clear channel m a = (
  ground (
    arith,
    lookup-remove channel channel m.group_cache,
    lookup-remove (storage_key channel) (storage_key channel) m.storage.items,
    eq_refl channel,
    eq_refl (storage_key channel),
  ),
  ground (
    arith,
    lookup-remove (storage_key channel) (storage_key channel) m.storage.items,
    eq_refl (storage_key channel),
  ),
)

-- Looking a group up does not change what is known of it.
pub group_of-get :
    (channel : String) (m : Manager)
    → group_of channel (get_local_group_state channel m).0 ≡ group_of channel m
unfolding get_local_group_state
group_of-get channel m = known (lookup channel m.group_cache) refl
  where
    stored : Read GroupState
    stored = read (storage_key channel) m.storage

    seen :
        (r : Read GroupState)
        → read (storage_key channel) m.storage ≡ r
        → lookup channel m.group_cache ≡ none
        → group_of channel (restore channel m r).0 ≡ (restore channel m r).1
    seen threw e f = ground arith
    seen absent e f = ground arith
    seen (found st) e f =
        ground (arith, lookup-insert channel channel st m.group_cache, eq_refl channel)

    known :
        (o : Option GroupState)
        → lookup channel m.group_cache ≡ o
        → group_of channel (get_local_group_state channel m).0 ≡ group_of channel m
    known none e =
        let missed : get_local_group_state channel m ≡ restore channel m stored =
          rw (e, get_local_group_state) in
        ap (λ r. group_of channel r.0) missed
        ∙ seen stored refl e
        ∙ sym (ap (λ (r : Manager × Option GroupState). r.1) missed)
    known (some st) e = rw (e, get_local_group_state)

pub app_key_cache-get :
    (channel : String) (m : Manager)
    → (get_local_group_state channel m).0.app_key_cache ≡ m.app_key_cache
unfolding get_local_group_state
app_key_cache-get channel m = ground arith
