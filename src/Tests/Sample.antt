-- ===== src/Tests/Sample.antt =====
-- A platform that computes, and two members of one group.
use mathlib.Core.Option
use genchat.Base.{
  ℕ, zero, suc, ◌+◌, ◌%◌, String, ◌≡◌, refl, ap, ◌∙◌, some, List, [], ◌∷◌, nat_eq, if◌then◌else◌,
  arith, true,
}
use Prim.Native.String.{◌++◌}
use genchat.WebStorage.{WebStorage}
use genchat.Codec.Hex.{bytes_to_hex, hex_to_bytes, codes, hex_to_bytes-bytes_to_hex}
use genchat.Mls.Platform.{Platform, Lawful, IsBytes}
use genchat.Mls.State.{Member, GroupState, Manager}
use genchat.Mls.Commit.{Call}
use genchat.Mls.Commit.Converge.{SameGroup}

abbrev total : List ℕ → ℕ
total [] = 0
total (x ∷ xs) = x + total xs

abbrev ones : ℕ → List ℕ → List ℕ
ones zero bs = 0 ∷ bs
ones (suc n) bs = 1 ∷ ones n bs

abbrev unary : List ℕ → List ℕ
unary [] = []
unary (n ∷ ns) = ones n (unary ns)

abbrev counted : ℕ → List ℕ → List ℕ
counted n [] = []
counted n (zero ∷ bs) = n ∷ counted 0 bs
counted n (suc _ ∷ bs) = counted (n + 1) bs

abbrev letters : List ℕ → String
letters [] = ""
letters (b ∷ bs) = (if nat_eq b 104 then "h" else if nat_eq b 105 then "i" else "?") ++ letters bs

abbrev rest : List ℕ → List ℕ
rest [] = []
rest (x ∷ xs) = xs

abbrev pub sample : Platform
sample = record {
  derive_bits = λ s salt info. (total s + total (codes info)) % 256 ∷ [];
  derive_key = λ s salt info. (total s + total (codes salt)) % 256 ∷ [];
  encrypt = λ k iv t. unary t;
  decrypt = λ k iv t. some (counted 0 t);
  public_of = λ k. k;
  ecdh = λ a b. some ((total a + total b) % 256 ∷ []);
  digest = λ bs. total bs % 256 ∷ [];
  encode = codes;
  decode = letters;
  btoa = λ bs. bytes_to_hex (0 ∷ bs);
  atob = λ s. Option.map rest (hex_to_bytes s);
}

counted-ones : (n k : ℕ) (bs : List ℕ) → counted k (ones n bs) ≡ (k + n) ∷ counted 0 bs
counted-ones zero k bs = ap (λ m. m ∷ counted 0 bs) (omega arith)
counted-ones (suc n) k bs = counted-ones n (k + 1) bs ∙ ap (λ m. m ∷ counted 0 bs) (omega arith)

counted-unary : (t : List ℕ) → counted 0 (unary t) ≡ t
counted-unary [] = refl
counted-unary (n ∷ t) =
    counted-ones n 0 (unary t)
    ∙ ap (λ m. m ∷ counted 0 (unary t)) (omega arith)
    ∙ ap (λ r. n ∷ r) (counted-unary t)

ones-IsBytes : (n : ℕ) (bs : List ℕ) → IsBytes bs → IsBytes (ones n bs)
ones-IsBytes zero bs h = (omega arith, h)
ones-IsBytes (suc n) bs h = (omega arith, ones-IsBytes n bs h)

unary-IsBytes : (t : List ℕ) → IsBytes (unary t)
unary-IsBytes [] = tt
unary-IsBytes (n ∷ t) = ones-IsBytes n (unary t) (unary-IsBytes t)

pub sample-Lawful : Lawful sample
sample-Lawful = record {
  decrypt-encrypt = λ k iv t. ap some (counted-unary t);
  encrypt_bytes = λ k iv t. unary-IsBytes t;
  ecdh_agree = λ a b. ap (λ n. some (n % 256 ∷ [])) (omega arith);
  derived-ne-nil = λ s salt info e. cc;
  derived_bytes = λ s salt info. (omega arith, tt);
  atob-btoa = λ bs h. rw (hex_to_bytes-bytes_to_hex 0 bs (omega arith, h)) refl;
}

abbrev pub ann : Member
ann = record { leaf_index = 0; user_id = "ann"; public_key_hex = "0a" }

abbrev pub bob : Member
bob = record { leaf_index = 1; user_id = "bob"; public_key_hex = "0b" }

abbrev pub group : GroupState
group = record {
  group_id = "c";
  epoch = 4;
  my_leaf_index = 0;
  epoch_secret_hex = bytes_to_hex (7 ∷ []);
  members = ann ∷ bob ∷ [];
  updated_at = 0;
}

abbrev pub group_of_bob : GroupState
group_of_bob = record group { my_leaf_index = 1 }

abbrev pub empty_storage : WebStorage GroupState
empty_storage = record { items = []; available = true; accepts = λ _ _ _. true }

abbrev pub manager : Manager
manager = record { group_cache = ("c", group) ∷ []; app_key_cache = []; storage = empty_storage }

abbrev pub manager_of_bob : Manager
manager_of_bob = record manager { group_cache = ("c", group_of_bob) ∷ [] }

abbrev pub newcomer : Manager
newcomer = record manager { group_cache = [] }

abbrev pub call : Call
call = record { access_token = "token"; has_socket = true; now = 100 }

pub same_group : SameGroup group group_of_bob
same_group = record { epoch = refl; secret = refl; members = refl }
