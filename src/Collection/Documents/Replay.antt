-- ===== src/Collection/Documents/Replay.antt =====
-- A collection as a map from identifiers to serialized documents: what sequences of calls do to it.
use anu_db.Base.{
  ◌≡◌, refl, inl, inr, true, false, List, [], ◌∷◌, Bytes, if◌then◌else◌, bytes_eq, arith,
  Bool-cases,
}
use anu_db.Status.{Status, is_ok}
use anu_db.Exec.{Result, returns, raises, crashes, stops, pure, and_then}
use anu_db.Json.{Json}
use anu_db.RocksDb.{RocksDb}
use anu_db.RocksDb.Contract.{IsLawful}
use anu_db.Engine.{Engine}
use anu_db.Engine.Tables.{IsConsistent}
use anu_db.Engine.Entries.{entry}
use anu_db.Collection.Documents.Indexing.{Succeeds}
use anu_db.Collection.Documents.Edits.{
  Edit, create, delete, update, Contents, perform, edited, run, replay,
}
use anu_db.Collection.Documents.Holding.{
  contents, Holds, after_create-Holds, delete-Holds, update-Holds,
}

module _ ⦃R : RocksDb⦄ ⦃J : Json⦄ (L : IsLawful R) (name : Bytes) where
  perform-Holds :
      (m : Contents) (x : Edit J) (e : Engine R)
      → Holds L name m e
      → Succeeds (perform name x e)
      → Holds L name (edited name x m) (perform name x e).1
  perform-Holds m (create chance doc) e h s = after_create-Holds L name m chance doc e h s
  perform-Holds m (delete id) e h s = delete-Holds L name m id e h s
  perform-Holds m (update chance id change upsert) e h s =
      update-Holds L name m chance id change upsert e h s

  run-Holds :
      (m : Contents) (xs : List (Edit J)) (e : Engine R)
      → Holds L name m e
      → (run name xs e).0 ≡ returns true
      → Holds L name (replay name xs m) (run name xs e).1
  unfolding run replay
  run-Holds m [] e h r = h
  run-Holds m (x ∷ xs) e h r =
      go (perform name x e) refl (λ e'. run-Holds (edited name x m) xs e') r
    where
      go :
          (p : Result Status × Engine R)
          → perform name x e ≡ p
          → ((e' : Engine R)
              → Holds L name (edited name x m) e'
              → (run name xs e').0 ≡ returns true
              → Holds L name (replay name xs (edited name x m)) (run name xs e').1)
          → (and_then p (λ status. if is_ok status then run name xs else pure false)).0
            ≡ returns true
          → Holds L name
              (replay name xs (edited name x m))
              (and_then p (λ status. if is_ok status then run name xs else pure false)).1
      go (returns t, e') q rest r' = elim (Bool-cases (is_ok t)) [
        | inl good ↦
            let h' : Holds L name (edited name x m) e' =
              rw q at (perform-Holds m x e h (t, rw q, good)) in
            rw good (rest e' h' (rw good at r'))
        | inr bad ↦ absurd (let r2 = rw bad at r' in ground arith)
      ]
      go (raises x', e') q rest r' = absurd (ground arith)
      go (crashes, e') q rest r' = absurd (ground arith)
      go (stops, e') q rest r' = absurd (ground arith)

  -- A collection refines a map from identifiers to serialized documents: over a consistent engine,
  -- after any sequence of createDocument, updateDocument and deleteDocument calls that all return
  -- OK, the engine is consistent and the collection holds what the same calls make of its contents
  -- before, and nothing else.
  pub run_refines :
      (xs : List (Edit J)) (e : Engine R)
      → IsConsistent L e
      → (run name xs e).0 ≡ returns true
      → IsConsistent L (run name xs e).1
        × ((j : Bytes) → entry L name j (run name xs e).1 ≡ replay name xs (contents L name e) j)
  run_refines xs e c r = run-Holds (contents L name e) xs e (c, λ j. refl) r
