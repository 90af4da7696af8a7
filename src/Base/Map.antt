-- ===== src/Base/Map.antt =====
-- Maps as association lists with at most one entry for each key, and sorted sets of strings.
use mathlib.Core.Path.{◌≡◌, refl}
use mathlib.Core.Bool.{true}
use mathlib.Core.Option.{Option, none, some}
use mathlib.Core.List.{List, [], ◌∷◌, map}
use native.Mathlib.Omega.{arith}
use anu_db.Base.Tests.{if◌then◌else◌, ◌==◌, contains}
use anu_db.Base.Text.{Bytes, before, bytes_eq}
use anu_db.Base.Order.{before_total}

abbrev pub Dict {ℓ} : Type ℓ → Type ℓ
Dict V = List (Bytes × V)

module _ {ℓ} {V : Type ℓ} where
  -- m.find(k); `none` is m.end().
  unfoldable pub lookup : Bytes → Dict V → Option V
  lookup k [] = none
  lookup k ((j, v) ∷ m) = if k == j then some v else lookup k m

  -- m[k] = v
  unfoldable pub insert : Bytes → V → Dict V → Dict V
  insert k v [] = (k, v) ∷ []
  insert k v ((j, w) ∷ m) = let rest = insert k v m in if k == j then (k, v) ∷ m else (j, w) ∷ rest

  -- m.erase(k)
  unfoldable pub erase : Bytes → Dict V → Dict V
  erase k [] = []
  erase k ((j, w) ∷ m) = let rest = erase k m in if k == j then rest else (j, w) ∷ rest

  unfoldable pub keys : Dict V → List Bytes
  keys = map (λ (k, _). k)

  pub lookup-cons :
      (k j : Bytes) (v : V) (m : Dict V)
      → lookup k ((j, v) ∷ m) ≡ (if k == j then some v else lookup k m)
  unfolding lookup
  lookup-cons k j v m = refl

  pub lookup-insert :
      (k j : Bytes) (v : V) (m : Dict V)
      → lookup j (insert k v m) ≡ (if j == k then some v else lookup j m)
  unfolding lookup insert
  lookup-insert k j v [] = refl
  lookup-insert k j v ((i, w) ∷ m) = ground (arith, lookup-insert k j v m)

  pub lookup-erase :
      (k j : Bytes) (m : Dict V) → lookup j (erase k m) ≡ (if j == k then none else lookup j m)
  unfolding lookup erase
  lookup-erase k j [] = ground arith
  lookup-erase k j ((i, w) ∷ m) = ground (arith, lookup-erase k j m)

-- std::set<std::string>: in the order of the strings, each once.
unfoldable pub set_insert : Bytes → List Bytes → List Bytes
set_insert a [] = a ∷ []
set_insert a (x ∷ xs) =
    let rest = set_insert a xs in
    if before a x then a ∷ x ∷ xs else if before x a then x ∷ rest else x ∷ xs

pub contains-set_insert :
    (a b : Bytes) (xs : List Bytes)
    → contains (set_insert a xs) b ≡ (if b == a then true else contains xs b)
unfolding set_insert
contains-set_insert a b [] = ground arith
contains-set_insert a b (x ∷ xs) = ground (arith, contains-set_insert a b xs, before_total a x)
