-- ===== src/Collection/Find/Queries.antt =====
-- What the filters of findDocument ask for, and which identifiers meet a query, in the tables of the
-- indexes.
use anu_db.Base.{
  ℕ, ◌<◌, ◌≡◌, Bool, true, false, ◌&&◌, ◌||◌, List, [], ◌∷◌, ◌++◌, some, Bytes, codes, contains,
  bytes_eq, lookup, length, reverse, All, if◌then◌else◌, ◌==◌,
}
use anu_db.Exec.{gives}
use anu_db.Json.{Json, Kind}
use anu_db.RocksDb.{RocksDb}
use anu_db.RocksDb.Table.{Entry}
use anu_db.RocksDb.Table.Ranges.{with_prefix, past_prefix, before_key}
use anu_db.RocksDb.Contract.{IsLawful}
use anu_db.Engine.{Engine}
use anu_db.Engine.Names.{get_index_names}
use anu_db.Engine.Scan.Loops.{values, Marked}
use anu_db.Engine.Tables.{table_of, entries_of}
use anu_db.Collection.{index_cf_name, parse_value, mark}
use anu_db.Collection.Find.{is_empty_text, and_with, or_with}

pub data Comparison : Type 0 where
  equal greater lesser : Comparison

abbrev pub operator_of : Comparison → Bytes
operator_of equal = codes "$eq"
operator_of greater = codes "$gt"
operator_of lesser = codes "$lt"

-- One comparison of an indexed field with a value, as the text that its key starts with.
pub record Condition : Type 0 where
  pub comparison : Comparison
  pub field : Bytes
  pub value : Bytes

-- A member of a filter. An $and and an $or hold an array of objects of conditions.
pub data Query : Type 0 where
  single : Condition → Query
  every : List (List Condition) → Query
  any : List (List Condition) → Query
  ordered : Bytes → Bytes → Query

-- A table's identifiers that a comparison selects, in the order in which they are found.
abbrev pub selected : Comparison → Bytes → List Entry → List Bytes
selected equal p t = values (with_prefix p t)
selected greater p t = values (past_prefix p t)
selected lesser p t = values (reverse (before_key p t))

module _ {ℓ} {A : Type ℓ} where
  abbrev pub all_of : (A → Bool) → List A → Bool
  all_of p [] = true
  all_of p (x ∷ xs) = p x && all_of p xs

  abbrev pub any_of : (A → Bool) → List A → Bool
  any_of p [] = false
  any_of p (x ∷ xs) = p x || any_of p xs

  abbrev pub flat : List (List A) → List A
  flat [] = []
  flat (xs ∷ xss) = xs ++ flat xss

  abbrev pub is_given : List A → Bool
  is_given [] = false
  is_given (x ∷ xs) = true

-- The identifiers of $orderBy.
abbrev pub in_order : Bytes → List Entry → List Bytes
in_order direction t = values (if direction == codes "asc" then t else reverse t)

module _ ⦃R : RocksDb⦄ (L : IsLawful R) (name : Bytes) (e : Engine R) where
  -- The table of an index of the collection.
  abbrev pub index_table : Bytes → List Entry
  index_table field = entries_of (table_of L (index_cf_name name field) e)

  abbrev pub matches : Condition → List Bytes
  matches c = selected c.comparison (c.value ++ mark) (index_table c.field)

  -- Whether an identifier is asked for. An $and without conditions asks for none.
  abbrev pub meets : Bytes → Query → Bool
  meets x (single c) = contains (matches c) x
  meets x (every css) = is_given (flat css) && all_of (λ c. contains (matches c) x) (flat css)
  meets x (any css) = any_of (λ c. contains (matches c) x) (flat css)
  meets x (ordered field direction) = contains (values (index_table field)) x

  -- The identifiers that $and or $or makes of the conditions, from a set.
  abbrev pub joined :
      (List Bytes → List Bytes → List Bytes) → List Bytes → List Condition → List Bytes
  joined combine set [] = set
  joined combine set (c ∷ cs) = joined combine (combine set (matches c)) cs

  -- The identifiers that a member of the filter adds.
  abbrev pub answer : Query → List Bytes
  answer (single c) = matches c
  answer (every css) = joined and_with [] (flat css)
  answer (any css) = joined or_with [] (flat css)
  answer (ordered field direction) = in_order direction (index_table field)

  abbrev pub answers : List Query → List Bytes
  answers [] = []
  answers (q ∷ qs) = answer q ++ answers qs

  -- The field has an index that fits the fuel, with the mark in its keys.
  pub record Serves (fuel : ℕ) (field : Bytes) : Type 0 where
    pub listed : contains (get_index_names name e) field ≡ true
    pub handle : R.Handle
    pub found : lookup (index_cf_name name field) e.column_families ≡ some handle
    pub live : L.Live e.world handle
    pub enough : length (L.contents e.world handle) < fuel
    pub marked : Marked (L.contents e.world handle)

  -- Every field of a query has an index, and some identifier meets all the conditions of an $and.
  abbrev pub Answerable : ℕ → Query → Type 0
  Answerable fuel (single c) = Serves fuel c.field
  Answerable fuel (every css) =
      All (λ c. Serves fuel c.field) (flat css) × ((x : Bytes) × (meets x (every css) ≡ true))
  Answerable fuel (any css) = All (λ c. Serves fuel c.field) (flat css)
  Answerable fuel (ordered field direction) = Serves fuel field

-- $gt and $lt refuse a value whose text is empty.
abbrev pub refuses : Comparison → Bytes → Bool
refuses equal v = false
refuses greater v = is_empty_text v
refuses lesser v = is_empty_text v

module _ ⦃J : Json⦄ where
  -- A member of a filter or of a condition's object, read as a condition.
  pub record Asks (o : Bytes × J.Value) (c : Condition) : Type 0 where
    pub operator : o.0 ≡ operator_of c.comparison
    pub operand : J.Value
    pub first : J.first_item o.1 ≡ gives (some (c.field, operand))
    pub parsed : parse_value operand ≡ gives c.value
    pub taken : refuses c.comparison c.value ≡ false

  abbrev pub AsksEach : List (Bytes × J.Value) → List Condition → Type 0
  AsksEach [] [] = Unit
  AsksEach (o ∷ os) (c ∷ cs) = Asks o c × AsksEach os cs
  AsksEach _ _ = ⊥

  abbrev pub AsksItems : List J.Value → List (List Condition) → Type 0
  AsksItems [] [] = Unit
  AsksItems (v ∷ vs) (cs ∷ css) =
      (os : List (Bytes × J.Value)) × (J.items v ≡ gives os) × AsksEach os cs × AsksItems vs css
  AsksItems _ _ = ⊥

  -- A member of a filter, read as a query.
  abbrev pub AsksFor : Bytes × J.Value → Query → Type 0
  AsksFor o (single c) = Asks o c
  AsksFor o (every css) =
      (o.0 ≡ codes "$and") × (J.kind o.1 ≡ Kind.array) × AsksItems (J.elements o.1) css
  AsksFor o (any css) =
      (o.0 ≡ codes "$or") × (J.kind o.1 ≡ Kind.array) × AsksItems (J.elements o.1) css
  AsksFor o (ordered field direction) =
      (o.0 ≡ codes "$orderBy")
      × (x : J.Value) × (J.first_item o.1 ≡ gives (some (field, x)))
      × (J.get_string x ≡ gives direction)

  abbrev pub AsksForAll : List (Bytes × J.Value) → List Query → Type 0
  AsksForAll [] [] = Unit
  AsksForAll (o ∷ os) (q ∷ qs) = AsksFor o q × AsksForAll os qs
  AsksForAll _ _ = ⊥
