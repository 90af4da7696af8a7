-- ===== src/Collection/Import/Contents.antt =====
-- src/Collection.cpp: what the loop of importFromJsonFile makes of a collection.
use anu_db.Base.{
  ℕ, ◌+◌, ◌≤◌, ◌≡◌, refl, ap, ◌⊎◌, inl, inr, List, [], ◌∷◌, ◌++◌, Option, none, some, Bytes, codes,
  length, arith, Bool-cases, subst,
}
use anu_db.Status.{Status, is_ok}
use anu_db.Exec.{
  Result, returns, raises, crashes, stops, and_then, pure, Try, gives, throws, and_then-returns,
  lift-returns,
}
use anu_db.Json.{Json, Kind}
use anu_db.RocksDb.{RocksDb}
use anu_db.RocksDb.Contract.{IsLawful}
use anu_db.Engine.{Engine}
use anu_db.Engine.Tables.{IsConsistent}
use anu_db.Engine.Entries.{entry}
use anu_db.Document.{Document}
use anu_db.Collection.{Chance}
use anu_db.Collection.Documents.{create_document}
use anu_db.Collection.Documents.Edits.{Edit, create, Contents, edited, perform, replay}
use anu_db.Collection.Documents.Holding.{contents, Holds, after_create-Holds}
use anu_db.Collection.Import.{
  Counts, to_string, item_id, import_object, import_item, import_items, counted, failure,
}

module _ ⦃J : Json⦄ where
  abbrev text_or_empty : Try Bytes → Bytes
  text_or_empty (gives s) = s
  text_or_empty (throws m) = []

  -- The identifier of the item at this place of the array.
  abbrev id_of : ℕ → Option J.Value → Bytes
  id_of n none = codes "doc_" ++ to_string n
  id_of n (some x) = text_or_empty (J.get_string x)

  -- The calls of createDocument for the items of an array.
  abbrev pub creations : (ℕ → Chance) → ℕ → List J.Value → List (Edit J)
  creations chance n [] = []
  creations chance n (item ∷ items) =
      create (chance n) (record { id = id_of n (J.find item (codes "_id")); data_value = item })
      ∷ creations chance (n + 1) items

module _ ⦃R : RocksDb⦄ ⦃J : Json⦄ (L : IsLawful R) (name : Bytes) (chance : ℕ → Chance) where
  abbrev place : Counts → ℕ
  place c = c.successes + c.failures

  -- The call for one item.
  abbrev creation : ℕ → J.Value → Edit J
  creation n item =
      create (chance n) (record { id = id_of n (J.find item (codes "_id")); data_value = item })

  item_id-returns :
      (o : Option J.Value) (c : Counts) (id : Bytes) (e e' : Engine R)
      → item_id name o c e ≡ (returns id, e')
      → (id ≡ id_of (place c) o) × (e ≡ e')
  unfolding item_id
  item_id-returns none c id e e' r = (ground (arith, r), ground (arith, r))
  item_id-returns (some x) c id e e' r =
      let (g, e_is) = lift-returns (J.get_string x) id e e' r in (rw g, e_is)

  -- The call for one item was made, and its status counted.
  abbrev Made : J.Value → Counts → Counts → Engine R → Engine R → Type 0
  Made item c c' e e' =
      (s : Status) × (perform name (creation (place c) item) e ≡ (returns s, e'))
      × (c' ≡ counted s c)

  counted_call :
      (p : Result (Status × Document J) × Engine R) (c c' : Counts) (e' : Engine R)
      → and_then p (λ (s, d). pure (counted s c)) ≡ (returns c', e')
      → (s : Status) × (and_then p (λ (s, d). pure s) ≡ (returns s, e')) × (c' ≡ counted s c)
  counted_call (returns (t, d), e2) c c' e' r =
      let end : e2 ≡ e' = ap (λ p. p.1) r in (t, ap (λ x. (returns t, x)) end, ground (arith, r))
  counted_call (raises m, e2) c c' e' r = absurd (ground arith)
  counted_call (crashes, e2) c c' e' r = absurd (ground arith)
  counted_call (stops, e2) c c' e' r = absurd (ground arith)

  Made-id :
      (item : J.Value) (c c' : Counts) (e e1 e' : Engine R) (id : Bytes)
      → id ≡ id_of (place c) (J.find item (codes "_id"))
      → e ≡ e1
      → and_then
          (create_document name (chance (place c)) (record { id = id; data_value = item }) e1)
          (λ (s, d). pure (counted s c))
        ≡ (returns c', e')
      → Made item c c' e e'
  Made-id item c c' e e1 e' id id_is e_is r =
      counted_call
        (create_document name (chance (place c))
          (record { id = id_of (place c) (J.find item (codes "_id")); data_value = item }) e)
        c c' e' (rw (id_is, ← e_is) at r)

  import_object-Made :
      (item : J.Value) (c c' : Counts) (e e' : Engine R)
      → import_object name chance c item e ≡ (returns c', e')
      → Made item c c' e e'
  unfolding import_object
  import_object-Made item c c' e e' r =
      let (id, e1, got, rest) =
        and_then-returns (item_id name (J.find item (codes "_id")) c e) _ c' e' r in
      let (id_is, e_is) = item_id-returns (J.find item (codes "_id")) c id e e1 got in
      Made-id item c c' e e1 e' id id_is e_is rest

  -- An item that is no object is a failure.
  import_item_cases :
      (item : J.Value) (c c' : Counts) (e e' : Engine R)
      → import_item name chance c item e ≡ (returns c', e')
      → Made item c c' e e' ⊎ (c' ≡ failure c)
  unfolding import_item
  import_item_cases item c c' e e' r = go (J.kind item) refl
    where
      go : (k : Kind) → J.kind item ≡ k → Made item c c' e e' ⊎ (c' ≡ failure c)
      go Kind.object q = inl (import_object-Made item c c' e e' (rw (q, import_item) at r))
      go Kind.null q = inr (let r' = rw (q, import_item) at r in ground (arith, r'))
      go Kind.array q = inr (let r' = rw (q, import_item) at r in ground (arith, r'))
      go Kind.string q = inr (let r' = rw (q, import_item) at r in ground (arith, r'))
      go Kind.boolean q = inr (let r' = rw (q, import_item) at r in ground (arith, r'))
      go Kind.number_integer q = inr (let r' = rw (q, import_item) at r in ground (arith, r'))
      go Kind.number_float q = inr (let r' = rw (q, import_item) at r in ground (arith, r'))
      go Kind.other q = inr (let r' = rw (q, import_item) at r in ground (arith, r'))

  failures_grow :
      (items : List J.Value) (c c' : Counts) (e e' : Engine R)
      → import_items name chance items c e ≡ (returns c', e')
      → c.failures ≤ c'.failures
  unfolding import_items
  failures_grow [] c c' e e' r = let c_is : c ≡ c' = ground (arith, r) in rw c_is (omega arith)
  failures_grow (item ∷ items) c c' e e' r =
      let (c1, e1, one, rest) = and_then-returns (import_item name chance c item e) _ c' e' r in
      let grow = failures_grow items c1 c' e1 e' rest in
      elim (import_item_cases item c c1 e e1 one) [
        | inl (s, _, c_is) ↦ ground (arith, ap (λ c. c.failures) c_is)
        | inr c_is ↦ omega (arith, ap (λ (c : Counts). c.failures) c_is)
      ]

  -- A call that was counted as no failure stored the item.
  item-Holds :
      (m : Contents) (item : J.Value) (c c1 : Counts) (e e1 : Engine R)
      → Holds L name m e
      → Made item c c1 e e1 ⊎ (c1 ≡ failure c)
      → c1.failures ≤ c.failures
      → Holds L name (edited name (creation (place c) item) m) e1
        × (c1.successes ≡ c.successes + 1)
        × (c1.failures ≡ c.failures)
  item-Holds m item c c1 e e1 h (inr c_is) f =
      absurd (omega (arith, ap (λ (c : Counts). c.failures) c_is))
  item-Holds m item c c1 e e1 h (inl (s, made, c_is)) f = elim (Bool-cases (is_ok s)) [
    | inl good ↦
        let held =
          after_create-Holds L name m (chance (place c))
            (record { id = id_of (place c) (J.find item (codes "_id")); data_value = item }) e h
            (s, ap (λ p. p.0) made, good) in
        let counts_is : c1 ≡ record c { successes = c.successes + 1 } = rw good at c_is in
        (
          subst (λ e2. Holds L name (edited name (creation (place c) item) m) e2)
              (ap (λ p. p.1) made) held,
          ap (λ c. c.successes) counts_is,
          ap (λ c. c.failures) counts_is,
        )
    | inr bad ↦
        let counts_is : c1 ≡ failure c = rw bad at c_is in
        absurd (omega (arith, ap (λ (c : Counts). c.failures) counts_is))
  ]

  items-Hold :
      (m : Contents) (items : List J.Value) (c c' : Counts) (e e' : Engine R)
      → Holds L name m e
      → import_items name chance items c e ≡ (returns c', e')
      → c'.failures ≤ c.failures
      → Holds L name (replay name (creations chance (place c) items) m) e'
        × (c'.successes ≡ c.successes + length items)
  unfolding import_items replay
  items-Hold m [] c c' e e' h r f =
      let c_is : c ≡ c' = ground (arith, r) in
      (
        subst (Holds L name m) (ap (λ p. p.1) r) h,
        omega (arith, ap (λ (c : Counts). c.successes) c_is),
      )
  items-Hold m (item ∷ items) c c' e e' h r f =
      let (c1, e1, one, rest) = and_then-returns (import_item name chance c item e) _ c' e' r in
      let grow = failures_grow items c1 c' e1 e' rest in
      let (h1, more, same) =
        item-Holds m item c c1 e e1 h (import_item_cases item c c1 e e1 one) (omega arith) in
      let (h2, all) =
        items-Hold (edited name (creation (place c) item) m) items c1 c' e1 e' h1 rest
          (omega arith) in
      let next : place c1 ≡ place c + 1 = omega arith in (rw next at h2, omega arith)

  -- Over a consistent engine, where the loop of importFromJsonFile returns and counts no failure,
  -- it counts every item of the array as a success, leaves the engine consistent, and leaves in the
  -- collection what createDocument of each item in turn makes of its contents before, each under
  -- its "_id" or under "doc_" and its place.
  pub import_items_lem :
      (items : List J.Value) (c : Counts) (e e' : Engine R)
      → IsConsistent L e
      → import_items name chance items (record { successes = 0; failures = 0 }) e ≡ (returns c, e')
      → c.failures ≡ 0
      → (c.successes ≡ length items)
        × IsConsistent L e'
        × ((j : Bytes)
            → entry L name j e' ≡ replay name (creations chance 0 items) (contents L name e) j)
  import_items_lem items c e e' k r f =
      let ((k', held), all) =
        items-Hold (contents L name e) items (record { successes = 0; failures = 0 }) c e e'
          (k, λ j. refl) r (omega arith) in
      (omega arith, k', held)
