-- ===== src/Document/Paths/Passing.antt =====
-- What a dotted $set does where some tokens of the path lead nowhere: it passes over them.
use anu_db.Base.{◌≡◌, refl, List, [], ◌∷◌, some, Bytes}
use anu_db.Exec.{Try, gives, throws}
use anu_db.Json.{Json}
use anu_db.Json.Contract.{IsLawful}
use anu_db.Document.Paths.{Turn, element, member, nowhere, turn, set_path}
use anu_db.Document.Paths.Nested.{read_path, read_path-set_path}

module _ ⦃J : Json⦄ where
  abbrev onto : Bytes → Bytes × List Bytes → Bytes × List Bytes
  onto t (u, us) = (t, u ∷ us)

  -- The path without the tokens that lead nowhere; its last token stays.
  unfoldable pub passed : Bytes → List Bytes → J.Value → Bytes × List Bytes
  passed t [] v = (t, [])
  passed t (u ∷ us) v = elim (turn t v) [
    | throws e ↦ (t, u ∷ us)
    | gives (element i c) ↦ onto t (passed u us c)
    | gives (member c) ↦ onto t (passed u us c)
    | gives nowhere ↦ passed u us v
  ]

  set_path-passed :
      (t : Bytes) (ts : List Bytes) (x v : J.Value)
      → set_path t ts x v ≡ set_path (passed t ts v).0 (passed t ts v).1 x v
  unfolding set_path passed
  set_path-passed t [] x v = refl
  set_path-passed t (u ∷ us) x v = go (turn t v) refl (set_path-passed u us x)
    where
      go :
          (r : Try (Turn J.Value))
          → turn t v ≡ r
          → ((c : J.Value) → set_path u us x c ≡ set_path (passed u us c).0 (passed u us c).1 x c)
          → set_path t (u ∷ us) x v ≡ set_path (passed t (u ∷ us) v).0 (passed t (u ∷ us) v).1 x v
      go (throws e) q ih = rw (q, passed) (rw (set_path, q) refl)
      go (gives nowhere) q ih = rw (q, passed) (ih v)
      go (gives (member c)) q ih = rw (q, passed) (rw (set_path, q, ih c) refl)
      go (gives (element i c)) q ih = rw (q, passed) (rw (set_path, q, ih c) refl)

module _ ⦃J : Json⦄ (L : IsLawful J) where
  -- A dotted $set passes over the tokens that lead nowhere: where something stands at the end of
  -- the path that is left without them, it succeeds, and the value stands at the end of that path
  -- then.
  pub set_path_passes_over :
      (t : Bytes) (ts : List Bytes) (x old v : J.Value)
      → read_path (passed t ts v).0 (passed t ts v).1 v ≡ some old
      → (w : J.Value) × (set_path t ts x v ≡ gives w)
        × (read_path (passed t ts v).0 (passed t ts v).1 w ≡ some x)
  set_path_passes_over t ts x old v e =
      let (w, s, r) = read_path-set_path L (passed t ts v).0 (passed t ts v).1 x old v e in
      (w, rw (set_path-passed t ts x v) s, r)
