-- ===== src/Collection/Documents/Edits.antt =====
-- A collection as a map from identifiers to serialized documents: the calls that change documents, and
-- what they do to the map.
use anu_db.Base.{
  Bool, true, false, List, [], ◌∷◌, Option, none, some, Bytes, codes, if◌then◌else◌, ◌==◌, bytes_eq,
}
use anu_db.Status.{Status, is_ok}
use anu_db.Exec.{Exec, Result, Try, returns, raises, crashes, stops, gives, throws, pure, ◌>>=◌}
use anu_db.Json.{Json}
use anu_db.RocksDb.{RocksDb}
use anu_db.Engine.{Engine}
use anu_db.Document.{Document, to_msgpack, from_msgpack, set_value}
use anu_db.Document.Update.{apply_update}
use anu_db.Collection.{Chance}
use anu_db.Collection.Documents.{
  create_document, delete_document, update_document, updated, identified,
}

-- A call of a client.
pub data Edit (J : Json) : Type 0 where
  create : Chance → Document J → Edit J
  delete : Bytes → Edit J
  -- The last argument is whether a document that is not there is made.
  update : Chance → Bytes → J.Value → Bool → Edit J

abbrev pub Contents : Type 0
Contents = Bytes → Option Bytes

-- The map with another value at one identifier.
abbrev pub assign : Bytes → Option Bytes → Contents → Contents
assign id v m j = if j == id then v else m j

module _ ⦃R : RocksDb⦄ ⦃J : Json⦄ (name : Bytes) where
  abbrev pub perform : Edit J → Exec (Engine R) Status
  perform (create chance doc) = create_document name chance doc >>= λ (status, stored). pure status
  perform (delete id) = delete_document ⦃J = J⦄ name id
  perform (update chance id change upsert) = update_document name chance id change upsert

  -- The calls in turn, up to one that fails, and whether none did.
  unfoldable pub run : List (Edit J) → Exec (Engine R) Bool
  run [] = pure true
  run (x ∷ xs) = perform x >>= λ status. if is_ok status then run xs else pure false

  -- The same calls on a map. A document is stored under its identifier, or one made from the time,
  -- with the field "_id".
  abbrev pub stored_in : Try (Document J) → Contents → Contents
  stored_in (gives d) m = assign d.id (some (to_msgpack d)) m
  stored_in (throws e) m = m

  abbrev pub stored_as : Chance → Result (Document J) → Contents → Contents
  stored_as chance (returns d) m = stored_in (identified name chance d) m
  stored_as chance (raises e) m = m
  stored_as chance crashes m = m
  stored_as chance stops m = m

  -- A document under an update, and a new one with its identifier alone.
  abbrev pub changed : J.Value → Document J → Result (Document J)
  changed change d = updated name (apply_update change d.data_value) d

  abbrev pub changed_read : Chance → J.Value → Try (Document J) → Contents → Contents
  changed_read chance change (gives d) m = stored_as chance (changed change d) m
  changed_read chance change (throws e) m = m

  abbrev pub new_with_id : Bytes → Try (Document J)
  new_with_id id =
      set_value (codes "_id") (J.string_value id)
        (record { id = id; data_value = J.object_value [] })

  abbrev pub changed_at : Chance → Bytes → J.Value → Bool → Option Bytes → Contents → Contents
  changed_at chance id change upsert none m =
      if upsert then changed_read chance change (new_with_id id) m else m
  changed_at chance id change upsert (some v) m = changed_read chance change (from_msgpack v) m

  abbrev pub edited : Edit J → Contents → Contents
  edited (create chance doc) m = stored_in (identified name chance doc) m
  edited (delete id) m = assign id none m
  edited (update chance id change upsert) m = changed_at chance id change upsert (m id) m

  unfoldable pub replay : List (Edit J) → Contents → Contents
  replay [] m = m
  replay (x ∷ xs) m = replay xs (edited x m)
