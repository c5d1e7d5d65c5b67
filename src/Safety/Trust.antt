-- ===== src/Safety/Trust.antt =====
-- The trust store: `getTrustRecord`, `setVerified`, `revokeVerification` and `getVerifiedPeerIds`. All
-- records are one value of `localStorage`.
use genchat.Base.{
  ℕ, String, ◌==◌, ◌≡◌, refl, ap, ◌∙◌, Bool, true, false, not, ◌&&◌, Option, none, some, List, [],
  arith, if◌then◌else◌, filter, map, lookup, insert, lookup-insert, eq_refl,
}
use genchat.WebStorage.{WebStorage, found, read, try_write}

pub record TrustRecord : Type 0 where
  pub peer_id : String
  pub safety_number : String
  pub is_verified : Bool
  pub verified_at : Option ℕ
  pub has_changed : Bool
  pub previous_safety_number : Option String

abbrev pub TrustStore : Type 0
TrustStore = WebStorage (List (String × TrustRecord))

abbrev pub contacts_key : String
contacts_key = "genchat_verified_contacts_v1"

unfoldable pub get_all_records : TrustStore → List (String × TrustRecord)
get_all_records s = elim (read contacts_key s) [ found records ↦ records | _ ↦ [] ]

unfoldable pub save_all_records : List (String × TrustRecord) → TrustStore → TrustStore
save_all_records records s = try_write contacts_key records s

-- What is reported of a contact whose record, if there is one, is this.
abbrev report : String → String → Option TrustRecord → TrustRecord
report peer number none = record {
  peer_id = peer;
  safety_number = number;
  is_verified = false;
  verified_at = none;
  has_changed = false;
  previous_safety_number = none;
}
report peer number (some r) =
    let changed = r.is_verified && not (r.safety_number == number) in
    record {
      peer_id = peer;
      safety_number = number;
      is_verified = if changed then false else r.is_verified;
      verified_at = r.verified_at;
      has_changed = changed;
      previous_safety_number = if changed then some r.safety_number else none;
    }

unfoldable pub get_trust_record : String → String → TrustStore → TrustRecord
get_trust_record peer number s = report peer number (lookup peer (get_all_records s))

abbrev verified_record : String → String → ℕ → TrustRecord
verified_record peer number now = record {
  peer_id = peer;
  safety_number = number;
  is_verified = true;
  verified_at = some now;
  has_changed = false;
  previous_safety_number = none;
}

unfoldable pub set_verified : String → String → ℕ → TrustStore → TrustStore
unfolding get_all_records save_all_records
set_verified peer number now s =
    save_all_records (insert peer (verified_record peer number now) (get_all_records s)) s

unfoldable pub revoke_verification : String → TrustStore → TrustStore
unfolding get_all_records save_all_records
revoke_verification peer s = elim (lookup peer (get_all_records s)) [
  | none ↦ s
  | some r ↦
      save_all_records
        (insert peer (record r { is_verified = false; has_changed = false; verified_at = none })
          (get_all_records s))
        s
]

unfoldable pub get_verified_peer_ids : TrustStore → List String
unfolding get_all_records
get_verified_peer_ids s = map (λ e. e.0) (filter (λ e. e.1.is_verified) (get_all_records s))

get-save :
    (records : List (String × TrustRecord)) (s : TrustStore)
    → s.available ≡ true
    → s.accepts s.items contacts_key records ≡ true
    → get_all_records (save_all_records records s) ≡ records
unfolding get_all_records save_all_records read try_write
get-save records s a b =
    ground
      (arith, lookup-insert contacts_key contacts_key (some records) s.items, eq_refl contacts_key)

module _ (s : TrustStore) (available : s.available ≡ true)
    (accepts : (records : List (String × TrustRecord))
      → s.accepts s.items contacts_key records ≡ true) where
  lookup-set_verified :
      (peer number j : String) (now : ℕ)
      → lookup j (get_all_records (set_verified peer number now s)) ≡ (
          if peer == j
          then some (verified_record peer number now)
          else lookup j (get_all_records s))
  unfolding set_verified
  lookup-set_verified peer number j now =
      ap (lookup j) (get-save _ s available (accepts _))
      ∙ lookup-insert peer j (verified_record peer number now) (get_all_records s)

  -- After a contact was verified with a safety number, if the storage can be reached and accepts every
  -- write, the contact is trusted exactly with that number; another number is reported as a
  -- change, with the verified number as the previous one. The reports of other contacts stay.
  pub get_trust_record-set_verified :
      (peer number current other : String) (now : ℕ)
      → (peer == other) ≡ false
      → let s' = set_verified peer number now s in
        let r = get_trust_record peer current s' in
        (r.is_verified ≡ (number == current))
        × (r.has_changed ≡ not (number == current))
        × (r.previous_safety_number ≡ (if number == current then none else some number))
        × (get_trust_record other current s' ≡ get_trust_record other current s)
  unfolding get_trust_record
  get_trust_record-set_verified peer number current other now apart = (
    ap (λ o. (report peer current o).is_verified) mine ∙ ground arith,
    ap (λ o. (report peer current o).has_changed) mine ∙ ground arith,
    ap (λ o. (report peer current o).previous_safety_number) mine ∙ ground arith,
    ap (report other current) (lookup-set_verified peer number other now ∙ rw apart refl),
  )
    where
      mine :
          lookup peer (get_all_records (set_verified peer number now s))
          ≡ some (verified_record peer number now)
      mine = lookup-set_verified peer number peer now ∙ rw (eq_refl peer) refl

  -- After a revocation, if the storage can be reached and accepts every write, the contact is not trusted
  -- with any number, and no number is reported as a change.
  pub get_trust_record-revoke :
      (peer current : String)
      → let r = get_trust_record peer current (revoke_verification peer s) in
        (r.is_verified ≡ false) × (r.has_changed ≡ false) × (r.previous_safety_number ≡ none)
  unfolding get_trust_record revoke_verification
  get_trust_record-revoke peer current = revoked (lookup peer (get_all_records s)) refl
    where
      revoked :
          (o : Option TrustRecord)
          → lookup peer (get_all_records s) ≡ o
          → let r = get_trust_record peer current (revoke_verification peer s) in
            (r.is_verified ≡ false) × (r.has_changed ≡ false) × (r.previous_safety_number ≡ none)
      revoked none e = rw (e, revoke_verification) (rw e (refl, refl, refl))
      revoked (some r) e =
          let q : lookup peer (get_all_records (revoke_verification peer s))
              ≡ some (record r { is_verified = false; has_changed = false; verified_at = none }) =
            rw (e, revoke_verification)
              (ap (lookup peer) (get-save _ s available (accepts _))
                ∙ lookup-insert peer peer _ (get_all_records s)
                ∙ rw (eq_refl peer) refl) in
          rw q (refl, refl, refl)
