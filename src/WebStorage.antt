-- ===== src/WebStorage.antt =====
-- `localStorage` as the client uses it: text keys, values written by `JSON.stringify` and read back by
-- `JSON.parse`. A value is kept as what it parses to; `none` is a text that `JSON.parse` refuses.
-- Reading and writing may throw: storage can be unavailable, and a write can exceed the quota.
use genchat.Base.{
  String, ◌≡◌, Bool, ◌&&◌, Option, none, some, List, arith, ◌==◌, if◌then◌else◌, lookup, insert,
  remove, lookup-insert, lookup-remove,
}

pub record WebStorage (T : Type 0) : Type 0 where
  pub items : List (String × Option T)
  pub available : Bool
  pub accepts : List (String × Option T) → String → T → Bool

-- What `JSON.parse(localStorage.getItem(key))` gives; `threw` is an exception of either call.
pub data Read (T : Type 0) : Type 0 where
  threw : Read T
  absent : Read T
  found : T → Read T

module _ {T : Type 0} where
  abbrev pub parsed : Option (Option T) → Read T
  parsed none = absent
  parsed (some none) = threw
  parsed (some (some t)) = found t

  unfoldable pub read : String → WebStorage T → Read T
  read key s = if s.available then parsed (lookup key s.items) else threw

  -- `none` is the exception of `setItem`.
  unfoldable pub write : String → T → WebStorage T → Option (WebStorage T)
  write key t s =
      if s.available && s.accepts s.items key t
      then some (record s { items = insert key (some t) s.items })
      else none

  -- A write whose exception is swallowed.
  unfoldable pub try_write : String → T → WebStorage T → WebStorage T
  unfolding write
  try_write key t s = elim (write key t s) [ none ↦ s | some s' ↦ s' ]

  -- `removeItem`, its exception swallowed.
  unfoldable pub try_erase : String → WebStorage T → WebStorage T
  try_erase key s = if s.available then record s { items = remove key s.items } else s

  -- A write that the storage accepts is read back, and touches no other key.
  pub read-write :
      (k j : String) (t : T) (s s' : WebStorage T)
      → write k t s ≡ some s'
      → read j s' ≡ (if k == j then found t else read j s)
  unfolding read write
  read-write k j t s s' h = ground (arith, lookup-insert k j (some t) s.items)

  pub read-try_erase :
      (k j : String) (s : WebStorage T)
      → read j (try_erase k s) ≡ (if s.available && (k == j) then absent else read j s)
  unfolding read try_erase
  read-try_erase k j s = ground (arith, lookup-remove k j s.items)
