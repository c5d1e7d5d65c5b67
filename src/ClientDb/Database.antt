-- ===== src/ClientDb/Database.antt =====
-- packages/client-db/src/database.ts (`LocalCollection`, `LocalDatabase`) with the models Message and
-- Channel. A record is an object that callers keep and change: a collection has its objects, by number,
-- and the map from ids to them.
use genchat.Base.{
  ℕ, zero, suc, String, ◌==◌, Option, none, some, List, [], ◌∷◌, ◌++◌, if◌then◌else◌, Bool, length,
  lookup, insert,
}

pub data Status : Type 0 where
  pending sent delivered read failed : Status

pub data MessageType : Type 0 where
  text_message media_message call_message : MessageType

pub record Message : Type 0 where
  pub id : String
  pub channel_id : String
  pub sender_id : String
  pub client_msg_id : String
  pub sequence_num : Option ℕ
  pub text : String
  pub status : Status
  pub message_type : MessageType
  pub created_at : ℕ

pub record Channel : Type 0 where
  pub id : String
  pub last_message_at : Option ℕ
  pub unread_count : ℕ

pub record Collection (T : Type 0) : Type 0 where
  pub objects : List T
  pub items : List (String × ℕ)

pub record Database : Type 0 where
  pub channels : Collection Channel
  pub messages : Collection Message

abbrev pub object : {T : Type 0} → ℕ → List T → Option T
object n [] = none
object zero (x ∷ xs) = some x
object (suc n) (x ∷ xs) = object n xs

-- `update` of a record: its object is changed where it is.
abbrev pub modify : {T : Type 0} → ℕ → (T → T) → List T → List T
modify n f [] = []
modify zero f (x ∷ xs) = f x ∷ xs
modify (suc n) f (x ∷ xs) = x ∷ modify n f xs

abbrev pub find : {T : Type 0} → String → Collection T → Option ℕ
find id c = lookup id c.items

abbrev values : {T : Type 0} → List T → List (String × ℕ) → List (ℕ × T)
values os [] = []
values os ((key, n) ∷ is) = elim (object n os) [
  | none ↦ values os is
  | some o ↦ (n, o) ∷ values os is
]

abbrev matching : {T : Type 0} → (T → Bool) → List (ℕ × T) → List ℕ
matching p [] = []
matching p ((n, o) ∷ os) = if p o then n ∷ matching p os else matching p os

-- The objects that pass a test, in the order of the map.
unfoldable pub query : {T : Type 0} → (T → Bool) → Collection T → List ℕ
query p c = matching p (values c.objects c.items)

abbrev pub final_id : String → String → String
final_id id default = if id == "" then default else id

-- `create` on the messages, with the random default id and the record that the builder makes of a
-- new one: the collection, and the object made.
unfoldable pub create_message : String → Message → Collection Message → Collection Message × ℕ
create_message default built c =
    let id = final_id built.id default in
    (
      record {
        objects = c.objects ++ ((record built { id = id }) ∷ []);
        items = insert id (length c.objects) c.items;
      },
      length c.objects,
    )
