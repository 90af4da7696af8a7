-- ===== src/Collection/Find/Meeting.antt =====
-- src/Collection.cpp: which identifiers findDocument returns.
use anu_db.Base.{
  ℕ, ◌≡◌, refl, ◌∙◌, Bool, true, false, ◌&&◌, ◌||◌, List, [], ◌∷◌, ◌++◌, Bytes, contains, bytes_eq,
  ◌==◌, reverse, reverse-append, map-append, All, arith, Bool-cases, inl, inr, codes,
}
use anu_db.Exec.{returns, gives}
use anu_db.Json.{Json}
use anu_db.RocksDb.{RocksDb}
use anu_db.RocksDb.Table.{Entry}
use anu_db.RocksDb.Contract.{IsLawful}
use anu_db.Engine.{Engine}
use anu_db.Engine.Scan.Loops.{values}
use anu_db.Collection.Find.{find_document, and_with, or_with, is_nil}
use anu_db.Collection.Find.Sets.{contains-and_with, contains-or_with}
use anu_db.Collection.Find.Queries.{
  Condition, Query, single, every, any, ordered, matches, meets, Answerable, AsksForAll, flat,
  all_of, any_of, is_given, index_table, joined, answer, answers, in_order,
}
use anu_db.Collection.Find.Answers.{find_document_lem}

contains-append :
    (xs ys : List Bytes) (x : Bytes) → contains (xs ++ ys) x ≡ (contains xs x || contains ys x)
contains-append [] ys x = refl
contains-append (y ∷ xs) ys x = ground (arith, contains-append xs ys x)

contains-values-reverse :
    (es : List Entry) (x : Bytes) → contains (values (reverse es)) x ≡ contains (values es) x
contains-values-reverse [] x = refl
contains-values-reverse ((k, v) ∷ es) x =
    rw (reverse-append ((k, v) ∷ []) es, map-append)
      (contains-append (values (reverse es)) (v ∷ []) x
        ∙ ground (arith, contains-values-reverse es x))

contains-in_order :
    (d : Bytes) (es : List Entry) (x : Bytes) → contains (in_order d es) x ≡ contains (values es) x
contains-in_order d es x = elim (Bool-cases (d == codes "asc")) [
  | inl asc ↦ rw asc refl
  | inr desc ↦ rw desc (contains-values-reverse es x)
]

-- A set that has an identifier is not empty.
contains-nil : (set : List Bytes) (w : Bytes) → contains set w ≡ true → is_nil set ≡ false
contains-nil [] w h = absurd (ground arith)
contains-nil (y ∷ ys) w h = refl

module _ ⦃R : RocksDb⦄ (L : IsLawful R) (name : Bytes) (fuel : ℕ) (e : Engine R) (x : Bytes) where
  abbrev matched : Bytes → Condition → Bool
  matched y c = contains (matches L name e c) y

  contains-joined-or :
      (cs : List Condition) (set : List Bytes)
      → contains (joined L name e or_with set cs) x ≡ (any_of (matched x) cs || contains set x)
  contains-joined-or [] set = refl
  contains-joined-or (c ∷ cs) set = ground (
    arith,
    contains-joined-or cs (or_with set (matches L name e c)),
    contains-or_with set (matches L name e c) x,
  )

  -- Where an identifier meets all the conditions, no intersection on the way is empty.
  contains-joined-and :
      (cs : List Condition) (set : List Bytes) (w : Bytes)
      → contains set w ≡ true
      → all_of (matched w) cs ≡ true
      → contains (joined L name e and_with set cs) x ≡ (contains set x && all_of (matched x) cs)
  contains-joined-and [] set w h a = ground arith
  contains-joined-and (c ∷ cs) set w h a = ground (
    arith,
    contains-joined-and cs (and_with set (matches L name e c)) w,
    contains-and_with set (matches L name e c) x,
    contains-and_with set (matches L name e c) w,
    contains-nil set w h,
  )

  contains-answer :
      (q : Query) → Answerable L name e fuel q → contains (answer L name e q) x ≡ meets L name e x q
  contains-answer (single c) s = refl
  contains-answer (every css) (s, (w, m)) = go (flat css) w m
    where
      go :
          (cs : List Condition) (w : Bytes)
          → (is_given cs && all_of (matched w) cs) ≡ true
          → contains (joined L name e and_with [] cs) x ≡ (is_given cs && all_of (matched x) cs)
      go [] w m = refl
      go (c ∷ cs) w m = ground (
        arith,
        contains-joined-and cs (and_with [] (matches L name e c)) w,
        contains-and_with [] (matches L name e c) x,
        contains-and_with [] (matches L name e c) w,
      )
  contains-answer (any css) s = contains-joined-or (flat css) [] ∙ ground arith
  contains-answer (ordered field direction) s =
      contains-in_order direction (index_table L name e field) x

  contains-answers :
      (qs : List Query)
      → All (Answerable L name e fuel) qs
      → contains (answers L name e qs) x ≡ any_of (meets L name e x) qs
  contains-answers [] s = refl
  contains-answers (q ∷ qs) s =
      contains-append (answer L name e q) (answers L name e qs) x
      ∙ rw (contains-answer q s.0, contains-answers qs s.1) refl

module _ ⦃R : RocksDb⦄ ⦃J : Json⦄ (L : IsLawful R) (name : Bytes) (fuel : ℕ) (e : Engine R) where
  -- For a filter whose members ask for queries, where every field has a live index that is listed,
  -- fits the fuel and has the mark in its keys, and where some identifier meets all the conditions
  -- of each $and, findDocument returns, leaves the engine, and returns an identifier exactly if it
  -- meets one of the queries.
  pub find_document-meets :
      (filter : J.Value) (os : List (Bytes × J.Value)) (qs : List Query)
      → J.items filter ≡ gives os
      → AsksForAll os qs
      → All (Answerable L name e fuel) qs
      → (ids : List Bytes) × (find_document name fuel filter e ≡ (returns ids, e))
        × ((x : Bytes) → contains ids x ≡ any_of (meets L name e x) qs)
  find_document-meets filter os qs i a s = (
    answers L name e qs,
    find_document_lem L name fuel e filter os qs i a s,
    λ x. contains-answers L name fuel e x qs s,
  )
