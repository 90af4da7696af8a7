-- ===== src/Cursor.antt =====
-- src/Cursor.{h,cpp}: a position in a collection. Its mutex keeps one call from another; each call is
-- one step here.
use anu_db.Base.{Bool, false, [], Option, none, some, Bytes, codes, lookup, if◌then◌else◌}
use anu_db.Status
use anu_db.Status.{Status}
use anu_db.Exec.{Result, returns, raises, crashes, Try, gives, throws}
use anu_db.Json.{Json}
use anu_db.RocksDb.{RocksDb}
use anu_db.Engine.{Engine}
use anu_db.Document.{Document, from_msgpack}

pub record Cursor (R : RocksDb) : Type 0 where
  pub iterator : Option R.Iterator
  pub is_valid : Bool

module _ ⦃R : RocksDb⦄ where
  abbrev pub at_iterator : R.Iterator → Cursor R
  at_iterator i = record { iterator = some i; is_valid = R.valid i }

  open_cursor : Option R.Handle → Engine R → Cursor R
  open_cursor none e = record { iterator = none; is_valid = false }
  open_cursor (some h) e = at_iterator (R.seek_to_first (R.new_iterator e.world h))

  unfoldable pub create_cursor : Bytes → Engine R → Cursor R
  unfolding open_cursor
  create_cursor name e = open_cursor (lookup name e.column_families) e

  -- A call that moves the iterator, if there is one.
  abbrev moved : Option R.Iterator → (R.Iterator → R.Iterator) → Cursor R → Cursor R
  moved none move c = c
  moved (some i) move c = at_iterator (move i)

  unfoldable pub next : Cursor R → Cursor R
  next c = if c.is_valid then moved c.iterator R.next c else c

  unfoldable pub seek : Bytes → Cursor R → Cursor R
  seek id c = moved c.iterator (λ i. R.seek i id) c

  unfoldable pub reset : Cursor R → Cursor R
  reset c = moved c.iterator R.seek_to_first c

  key_of : Option R.Iterator → Bytes
  key_of none = []
  key_of (some i) = R.key i

  unfoldable pub current_id : Cursor R → Bytes
  unfolding key_of
  current_id c = if c.is_valid then key_of c.iterator else []

module _ ⦃R : RocksDb⦄ ⦃J : Json⦄ where
  decoded : Try (Document J) → Result (Status × Document J)
  decoded (gives d) = returns (Status.ok, d)
  decoded (throws m) = raises m

  value_of : Option R.Iterator → Result (Status × Document J)
  unfolding decoded
  value_of none = crashes
  value_of (some i) = decoded (from_msgpack (R.value i))

  -- `*doc` stays as it was unless a value is decoded.
  unfoldable pub current : Cursor R → Document J → Result (Status × Document J)
  unfolding value_of
  current c doc =
      if c.is_valid
      then value_of c.iterator
      else returns (Status.invalid_argument (codes "Invalid cursor position"), doc)
