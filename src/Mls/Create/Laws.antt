-- ===== src/Mls/Create/Laws.antt =====
-- What an invited user takes from the Welcome of a new group.
use Prim.Native.String.{◌++◌}
use mathlib.Core.Option.{some-injective}
use mathlib.Core.Bool.{true≢false}
use genchat.Base.{
  ℕ, String, ◌≡◌, refl, sym, ap, ◌∙◌, true, false, Option, none, some, List, [], ◌∷◌, arith, ◌==◌,
  map, In, inl, inr, ◌⊎◌, ◌≢◌, ◌<◌, length, eq_iff, Bool-cases, not,
}
use genchat.Codec.Hex.{codes, bytes_to_hex, hex_to_bytes, hex_to_bytes-bytes_to_hex}
use genchat.Mls.Platform.{Platform, Lawful, IsBytes}
use genchat.Mls.State.{Member, GroupState, Manager, group_of}
use genchat.Mls.Commit.{WelcomeEnvelope, resolved, truthy}
use genchat.Mls.Commit.Converge.{SameGroup, group_of-save_self}
use genchat.Mls.Welcome.{welcome, unwrap, welcome_secret, joined, join_group}
use genchat.Mls.Create.{
  KeyPackage, Draw, channel, member_packages, tree_members, is_real_key, wrapped, create_welcome,
  create_request, created, create_group,
}

-- The text of one byte or more is not empty.
truthy-bytes_to_hex : (b : ℕ) (bs : List ℕ) → truthy (bytes_to_hex (b ∷ bs)) ≡ true
unfolding bytes_to_hex
truthy-bytes_to_hex b bs = elim (Bool-cases (bytes_to_hex (b ∷ bs) == "")) [
  | inl e ↦
      let q : codes (bytes_to_hex (b ∷ bs)) ≡ [] = ap codes ((eq_iff _ _).0 e) in
      absurd (ground (arith, q))
  | inr e ↦ ap not e
]

In-map : {A B : Type 0} (f : A → B) (a : A) (xs : List A) → In a xs → In (f a) (map f xs)
In-map f a [] h = absurd h
In-map f a (x ∷ xs) (inl e) = inl (ap f e)
In-map f a (x ∷ xs) (inr h) = inr (In-map f a xs h)

module _ (p : Platform) (lawful : Lawful p) (creator uid : String) (members : List Member)
    (pkg : KeyPackage) (d : Draw) (secret : List ℕ) where
  module _ (q : ℕ) (qs : List ℕ) (k : ℕ) (ks : List ℕ) (e : ℕ) (es shared : List ℕ)
      (private_bytes : IsBytes (q ∷ qs)) (public_bytes : IsBytes (k ∷ ks))
      (ephemeral_bytes : IsBytes (e ∷ es)) (iv_bytes : IsBytes d.iv)
      (owns : p.public_of (q ∷ qs) ≡ k ∷ ks) (drawn : p.public_of d.ephemeral ≡ e ∷ es)
      (published : pkg.public_key_hex ≡ bytes_to_hex (k ∷ ks))
      (real : is_real_key pkg.public_key_hex ≡ true)
      (agreed : p.ecdh d.ephemeral (k ∷ ks) ≡ some shared) where
    wrapped-real :
        wrapped p uid pkg secret d
        ≡ (bytes_to_hex (e ∷ es), p.btoa (p.encrypt shared d.iv secret), p.btoa d.iv)
    unfolding wrapped
    wrapped-real =
        rw (real, published, hex_to_bytes-bytes_to_hex k ks public_bytes, agreed, drawn) refl

    shared_back : p.ecdh (q ∷ qs) (e ∷ es) ≡ some shared
    shared_back =
        ap (p.ecdh (q ∷ qs)) (sym drawn)
        ∙ lawful.ecdh_agree (q ∷ qs) d.ephemeral
        ∙ ap (p.ecdh d.ephemeral) owns
        ∙ agreed

    welcome_secret-create :
        welcome_secret p
          (create_welcome p creator members secret d uid pkg)
          (some (bytes_to_hex (q ∷ qs)))
        ≡ some secret
    unfolding welcome_secret unwrap create_welcome
    welcome_secret-create = rw (
      wrapped-real,
      truthy-bytes_to_hex e es,
      truthy-bytes_to_hex q qs,
      hex_to_bytes-bytes_to_hex q qs private_bytes,
      hex_to_bytes-bytes_to_hex e es ephemeral_bytes,
      shared_back,
      lawful.atob-btoa d.iv iv_bytes,
      lawful.atob-btoa (p.encrypt shared d.iv secret) (lawful.encrypt_bytes shared d.iv secret),
      lawful.decrypt-encrypt shared d.iv secret,
    )

-- An invited user whose published key is the public key of a private key, where the agreement of the key drawn
-- for its Welcome with it succeeds, and who takes the Welcome of the new group with that private
-- key, holds the epoch, secret and members that the creator has saved. Keys and vectors are bytes,
-- the keys at least one, and the platform's operations are lawful.
pub join_group-create_group :
    (p : Platform) (lawful : Lawful p) (fetched : String → Option KeyPackage) (uids : List String)
    (creator uid raw_id : String) (secret : List ℕ) (draws : String → Draw) (now later : ℕ)
    (m n : Manager) (pkg : KeyPackage) (q : ℕ) (qs : List ℕ) (k : ℕ) (ks : List ℕ) (e : ℕ)
    (es shared : List ℕ)
    → IsBytes (q ∷ qs)
    → IsBytes (k ∷ ks)
    → IsBytes (e ∷ es)
    → IsBytes (draws uid).iv
    → p.public_of (q ∷ qs) ≡ k ∷ ks
    → p.public_of (draws uid).ephemeral ≡ e ∷ es
    → pkg.public_key_hex ≡ bytes_to_hex (k ∷ ks)
    → is_real_key pkg.public_key_hex ≡ true
    → p.ecdh (draws uid).ephemeral (k ∷ ks) ≡ some shared
    → In (uid, pkg) (member_packages fetched creator uids [])
    → let (request, m', outcome) =
        create_group p fetched uids creator secret draws (channel raw_id) now m in
      (w : WelcomeEnvelope) × (s t : GroupState) × In (uid, w) request.welcomes
      × (outcome ≡ resolved (some ("chan_" ++ raw_id, s)))
      × (group_of ("chan_" ++ raw_id) m' ≡ some s)
      × ((join_group p ("chan_" ++ raw_id) uid (some (bytes_to_hex (q ∷ qs))) (welcome w) later n).1
          ≡ some t)
      × SameGroup s t
unfolding create_group create_request join_group
join_group-create_group p lawful fetched uids creator uid raw_id secret draws now later m n pkg q qs
      k ks e es shared bq bk be bi owns drawn published real agreed found =
    (
      w,
      s,
      joined p ("chan_" ++ raw_id) uid w secret later,
      In-map
          (λ x. (
            x.0,
            create_welcome p creator (tree_members creator packages) secret (draws x.0) x.0 x.1,
          ))
          (uid, pkg) packages found,
      refl,
      group_of-save_self s ("chan_" ++ raw_id) m (unfold created in refl),
      rw
          (welcome_secret-create p lawful creator uid (tree_members creator packages) pkg
            (draws uid) secret q qs k ks e es shared bq bk be bi owns drawn published real agreed)
          refl,
      unfold created joined create_welcome in
          record { epoch = refl; secret = refl; members = refl },
    )
  where
    packages : List (String × KeyPackage)
    packages = member_packages fetched creator uids []

    w : WelcomeEnvelope
    w = create_welcome p creator (tree_members creator packages) secret (draws uid) uid pkg

    s : GroupState
    s = created p raw_id creator packages secret now

-- A text in hexadecimal digits belongs to one list of bytes.
bytes_to_hex-injective :
    (a : ℕ) (xs bs : List ℕ)
    → IsBytes (a ∷ xs)
    → IsBytes bs
    → bytes_to_hex bs ≡ bytes_to_hex (a ∷ xs)
    → bs ≡ a ∷ xs
bytes_to_hex-injective a xs [] ha hb e = absurd (go (Bool-cases (bytes_to_hex (a ∷ xs) == "")))
  where
    empty : bytes_to_hex [] ≡ ""
    empty = unfold bytes_to_hex in refl

    go : (bytes_to_hex (a ∷ xs) == "") ≡ true ⊎ (bytes_to_hex (a ∷ xs) == "") ≡ false → ⊥
    go (inl q) = true≢false (sym (truthy-bytes_to_hex a xs) ∙ ap not q)
    go (inr q) = true≢false (sym ((eq_iff _ _).1 (sym e ∙ empty)) ∙ q)
bytes_to_hex-injective a xs (b ∷ bs) ha hb e = some-injective _ _ (
    sym (hex_to_bytes-bytes_to_hex b bs hb) ∙ ap hex_to_bytes e ∙ hex_to_bytes-bytes_to_hex a xs ha)

-- The Welcome for an invited user whose published key is a placeholder or empty opens to the encrypted secret,
-- not to the secret: whatever private key the user has, the state that `joinGroup` saves has as its
-- secret the ciphertext of the secret under a key derived from the user's name and published key, and
-- that is another one than the secret of the group. The secret is of bytes, at least one, what AES-GCM
-- encrypts it to is longer than it, by its tag, and the platform's operations are lawful.
pub join_group-placeholder :
    (p : Platform) (lawful : Lawful p) (creator uid id : String) (members : List Member)
    (pkg : KeyPackage) (d : Draw) (b : ℕ) (bs : List ℕ) (priv_hex : Option String) (now : ℕ)
    (n : Manager)
    → IsBytes (b ∷ bs)
    → ((k iv : List ℕ) → length (b ∷ bs) < length (p.encrypt k iv (b ∷ bs)))
    → is_real_key pkg.public_key_hex ≡ false
    → let key =
        p.derive_key
          (p.encode ("mls_welcome_key_" ++ (uid ++ ("_" ++ pkg.public_key_hex))))
          "welcome_salt"
          "epoch_secret_wrap" in
      (t : GroupState) × ((join_group p id uid priv_hex
          (welcome (create_welcome p creator members (b ∷ bs) d uid pkg))
          now
          n).1
        ≡ some t)
      × (t.epoch_secret_hex ≡ bytes_to_hex (p.encrypt key d.iv (b ∷ bs)))
      × (t.epoch_secret_hex ≢ bytes_to_hex (b ∷ bs))
unfolding join_group
join_group-placeholder p lawful creator uid id members pkg d b bs priv_hex now n bytes longer fake =
    (
      joined p id uid w (p.encrypt key d.iv secret) now,
      rw (opens priv_hex) refl,
      unfold joined in refl,
      unfold joined in
          λ e.
            let q = bytes_to_hex-injective b bs _ bytes (lawful.encrypt_bytes key d.iv secret) e in
            omega (arith, longer key d.iv, ap length q),
    )
  where
    secret : List ℕ
    secret = b ∷ bs

    w : WelcomeEnvelope
    w = create_welcome p creator members secret d uid pkg

    key : List ℕ
    key =
        p.derive_key (p.encode ("mls_welcome_key_" ++ (uid ++ ("_" ++ pkg.public_key_hex))))
          "welcome_salt" "epoch_secret_wrap"

    wrapped-fake :
        wrapped p uid pkg secret d ≡ ("", p.btoa (p.encrypt key d.iv secret), p.btoa d.iv)
    wrapped-fake = unfold wrapped in rw fake refl

    opens : (o : Option String) → welcome_secret p w o ≡ some (p.encrypt key d.iv secret)
    opens none =
        unfold welcome_secret create_welcome in
        rw (
          wrapped-fake,
          lawful.atob-btoa (p.encrypt key d.iv secret) (lawful.encrypt_bytes key d.iv secret),
        )
    opens (some h) =
        unfold welcome_secret create_welcome in
        rw (
          wrapped-fake,
          lawful.atob-btoa (p.encrypt key d.iv secret) (lawful.encrypt_bytes key d.iv secret),
        )
