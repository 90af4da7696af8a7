-- ===== src/Collection/Documents/Rereading.antt =====
-- readDocument after createDocument.
use anu_db.Base.{◌≡◌, ◌⊎◌, true, Bytes, bytes_eq}
use anu_db.Status
use anu_db.Status.{Status, is_ok}
use anu_db.Exec.{returns}
use anu_db.Json.{Json}
use anu_db.Json.Contract
use anu_db.RocksDb.{RocksDb}
use anu_db.RocksDb.Contract.{IsLawful}
use anu_db.Engine.{Engine}
use anu_db.Engine.Tables.{IsConsistent}
use anu_db.Document.{Document}
use anu_db.Collection.{Chance}
use anu_db.Collection.Documents.{create_document, read_document}
use anu_db.Collection.Documents.Storing.{create_document_stores, read_document-to_msgpack}

-- After a createDocument that returns OK, over a consistent engine, readDocument of the identifier
-- that the document has then returns OK and that document, its value as MessagePack keeps it, or an
-- error of RocksDB and the old output.
pub read_document-create_document :
    ⦃R : RocksDb⦄ ⦃J : Json⦄ (L : IsLawful R) (LJ : Contract.IsLawful J) (name : Bytes)
    (chance : Chance) (doc d old : Document J) (s : Status) (e e' : Engine R)
    → IsConsistent L e
    → create_document name chance doc e ≡ (returns (s, d), e')
    → is_ok s ≡ true
    → (read_document name d.id old e'
        ≡ (Status.ok, record d { data_value = LJ.reread d.data_value }))
      ⊎ ((m : Bytes) × (read_document name d.id old e' ≡ (Status.io_error m, old)))
read_document-create_document L LJ name chance doc d old s e e' c r o =
    let (c', stored, _) = create_document_stores L name chance doc d s e e' c r o in
    read_document-to_msgpack L name LJ d.id d old e' c' stored
