-- ===== src/Collection/Find/Answers.antt =====
-- src/Collection.cpp: what findDocument returns for a filter whose fields are indexed.
use anu_db.Base.{
  ℕ, ◌≡◌, refl, ◌∙◌, ap, List, [], ◌∷◌, ◌++◌, some, Bytes, Bytes-discrete, ℕ_discrete, bytes_eq,
  All, All-append_inv, append_assoc, append-nil,
}
use anu_db.Status
use anu_db.Status.{Status}
use anu_db.Exec.{Result, returns, gives}
use anu_db.Json.{Json, Kind}
use anu_db.RocksDb.{RocksDb}
use anu_db.RocksDb.Contract.{IsLawful}
use anu_db.Engine.{Engine}
use anu_db.Engine.Names.{get_index_names}
use anu_db.Engine.Scan.Fetch.{
  fetch_for_equal_lem, fetch_for_greater_lem, fetch_for_lesser_lem, fetch_by_order_lem,
}
use anu_db.Collection.{index_cf_name, mark}
use anu_db.Collection.Find.{
  find_using_eq, find_using_gt, find_using_lt, find_condition, conditions, conditions_of, find_by,
  until_zero, find_combined, find_ordered, find_operator, find_operators, find_document, and_with,
  or_with,
}
use anu_db.Collection.Find.Queries.{
  Comparison, equal, greater, lesser, Condition, Query, single, every, any, ordered, matches,
  index_table, Serves, Answerable, Asks, AsksEach, AsksItems, AsksFor, AsksForAll, flat,
  operator_of, joined, answer, answers, in_order,
}

module _ ⦃R : RocksDb⦄ ⦃J : Json⦄ (L : IsLawful R) (name : Bytes) (fuel : ℕ) (e : Engine R) where
  abbrev indexes : List Bytes
  indexes = get_index_names name e

  -- The three comparisons, each after the identifiers so far.
  module _ (op : Bytes) (ops : J.Value) (c : Condition) (a : Asks (op, ops) c)
      (s : Serves L name e fuel c.field) where
    abbrev found_after : List Bytes → Result (Status × List Bytes) × Engine R
    found_after ids = (returns (Status.ok, ids ++ matches L name e c), e)

    find_using_eq_lem :
        (ids : List Bytes)
        → c.comparison ≡ equal
        → find_using_eq name fuel ops indexes ids e ≡ found_after ids
    unfolding find_using_eq
    find_using_eq_lem ids k =
        let fetched =
          fetch_for_equal_lem L e (index_cf_name name c.field) s.handle s.found s.live fuel s.enough
            (c.value ++ mark) ids in
        rw (a.first, a.parsed, s.listed, fetched, k, s.found)

    find_using_gt_lem :
        (ids : List Bytes)
        → c.comparison ≡ greater
        → find_using_gt name fuel ops ids e ≡ found_after ids
    unfolding find_using_gt
    find_using_gt_lem ids k =
        let fetched =
          fetch_for_greater_lem L e (index_cf_name name c.field) s.handle s.found s.live fuel
            s.enough (c.value ++ mark) ids in
        rw (a.first, a.parsed, rw k at a.taken, fetched, k, s.found)

    find_using_lt_lem :
        (ids : List Bytes)
        → c.comparison ≡ lesser
        → find_using_lt name fuel ops ids e ≡ found_after ids
    unfolding find_using_lt
    find_using_lt_lem ids k =
        let fetched =
          fetch_for_lesser_lem L e (index_cf_name name c.field) s.handle s.found s.live fuel
            s.enough (c.value ++ mark) ids s.marked in
        rw (a.first, a.parsed, rw k at a.taken, fetched, k, s.found)

    -- One condition under $and or $or.
    find_condition_lem : find_condition name fuel indexes (op, ops) e ≡ found_after []
    unfolding find_condition find_by until_zero bytes_eq Bytes-discrete ℕ_discrete
    find_condition_lem = go c.comparison refl a.operator
      where
        go :
            (k : Comparison)
            → c.comparison ≡ k
            → op ≡ operator_of k
            → find_condition name fuel indexes (op, ops) e ≡ found_after []
        go equal k o = rw o (find_using_eq_lem [] k)
        go greater k o = rw o (find_using_gt_lem [] k)
        go lesser k o = rw o (find_using_lt_lem [] k)

  joined-append :
      (combine : List Bytes → List Bytes → List Bytes) (set : List Bytes) (cs ds : List Condition)
      → joined L name e combine set (cs ++ ds)
        ≡ joined L name e combine (joined L name e combine set cs) ds
  joined-append combine set [] ds = refl
  joined-append combine set (c ∷ cs) ds =
      joined-append combine (combine set (matches L name e c)) cs ds

  module _ (combine : List Bytes → List Bytes → List Bytes) where
    conditions_lem :
        (os : List (Bytes × J.Value)) (cs : List Condition) (set : List Bytes)
        → AsksEach os cs
        → All (λ c. Serves L name e fuel c.field) cs
        → conditions name fuel combine indexes os set e
          ≡ (returns (some (joined L name e combine set cs)), e)
    unfolding conditions
    conditions_lem [] [] set a s = refl
    conditions_lem [] (c ∷ cs) set a s = elim a [ ]
    conditions_lem (o ∷ os) [] set a s = elim a [ ]
    conditions_lem ((op, ops) ∷ os) (c ∷ cs) set a s =
        rw (find_condition_lem op ops c a.0 s.0)
          (conditions_lem os cs (combine set (matches L name e c)) a.1 s.1)

    conditions_of_lem :
        (vs : List J.Value) (css : List (List Condition)) (set : List Bytes)
        → AsksItems vs css
        → All (λ c. Serves L name e fuel c.field) (flat css)
        → conditions_of name fuel combine indexes vs set e
          ≡ (returns (some (joined L name e combine set (flat css))), e)
    unfolding conditions_of
    conditions_of_lem [] [] set a s = refl
    conditions_of_lem [] (cs ∷ css) set a s = elim a [ ]
    conditions_of_lem (v ∷ vs) [] set a s = elim a [ ]
    conditions_of_lem (v ∷ vs) (cs ∷ css) set (os, i, each, rest) s =
        let (s1, s2) = All-append_inv (λ c. Serves L name e fuel c.field) cs (flat css) s in
        rw (i, conditions_lem os cs set each s1, joined-append combine set cs (flat css))
          (conditions_of_lem vs css (joined L name e combine set cs) rest s2)

    find_combined_lem :
        (ops : J.Value) (css : List (List Condition)) (ids : List Bytes)
        → J.kind ops ≡ Kind.array
        → AsksItems (J.elements ops) css
        → All (λ c. Serves L name e fuel c.field) (flat css)
        → find_combined name fuel combine indexes ops ids e
          ≡ (returns (some (ids ++ joined L name e combine [] (flat css))), e)
    unfolding find_combined
    find_combined_lem ops css ids k a s =
        rw (k, find_combined) (rw (conditions_of_lem (J.elements ops) css [] a s))

  find_ordered_lem :
      (ops x : J.Value) (field direction : Bytes) (ids : List Bytes)
      → J.first_item ops ≡ gives (some (field, x))
      → J.get_string x ≡ gives direction
      → Serves L name e fuel field
      → find_ordered name fuel ops ids e
        ≡ (returns (Status.ok, ids ++ in_order direction (index_table L name e field)), e)
  unfolding find_ordered
  find_ordered_lem ops x field direction ids first got s =
      let fetched =
        fetch_by_order_lem L e (index_cf_name name field) s.handle s.found s.live fuel s.enough
          direction ids in
      rw (first, got, fetched, s.found)

  find_operator_lem :
      (op : Bytes) (ops : J.Value) (q : Query) (ids : List Bytes)
      → AsksFor (op, ops) q
      → Answerable L name e fuel q
      → find_operator name fuel indexes (op, ops) ids e
        ≡ (returns (some (ids ++ answer L name e q)), e)
  unfolding find_operator bytes_eq Bytes-discrete ℕ_discrete
  find_operator_lem op ops (single c) ids a s = go c.comparison refl a.operator
    where
      go :
          (k : Comparison)
          → c.comparison ≡ k
          → op ≡ operator_of k
          → find_operator name fuel indexes (op, ops) ids e
            ≡ (returns (some (ids ++ matches L name e c)), e)
      go equal k o = rw (o, find_using_eq_lem op ops c a s ids k)
      go greater k o = rw (o, find_using_gt_lem op ops c a s ids k)
      go lesser k o = rw (o, find_using_lt_lem op ops c a s ids k)
  find_operator_lem op ops (every css) ids (o, k, a) (s, _) =
      rw o (find_combined_lem and_with ops css ids k a s)
  find_operator_lem op ops (any css) ids (o, k, a) s =
      rw o (find_combined_lem or_with ops css ids k a s)
  find_operator_lem op ops (ordered field direction) ids (o, x, first, got) s =
      rw (o, find_ordered_lem ops x field direction ids first got s)

  find_operators_lem :
      (os : List (Bytes × J.Value)) (qs : List Query) (ids : List Bytes)
      → AsksForAll os qs
      → All (Answerable L name e fuel) qs
      → find_operators name fuel indexes os ids e ≡ (returns (ids ++ answers L name e qs), e)
  unfolding find_operators
  find_operators_lem [] [] ids a s = rw append-nil
  find_operators_lem [] (q ∷ qs) ids a s = elim a [ ]
  find_operators_lem (o ∷ os) [] ids a s = elim a [ ]
  find_operators_lem ((op, ops) ∷ os) (q ∷ qs) ids a s =
      rw (find_operator_lem op ops q ids a.0 s.0) (
        find_operators_lem os qs (ids ++ answer L name e q) a.1 s.1
        ∙ ap (λ l. (returns l, e)) (append_assoc ids (answer L name e q) (answers L name e qs)))

  pub find_document_lem :
      (filter : J.Value) (os : List (Bytes × J.Value)) (qs : List Query)
      → J.items filter ≡ gives os
      → AsksForAll os qs
      → All (Answerable L name e fuel) qs
      → find_document name fuel filter e ≡ (returns (answers L name e qs), e)
  unfolding find_document
  find_document_lem filter os qs i a s = rw i (find_operators_lem os qs [] a s)
