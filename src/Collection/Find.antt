-- ===== src/Collection/Find.antt =====
-- src/Collection.cpp: findDocument and the functions of its comparison operators. The sets of the code
-- are unordered; here they are kept sorted.
pub mod Sets
pub mod Queries
pub mod Answers
pub mod Meeting
pub mod Indexed
use anu_db.Base.{
  ℕ, Bool, true, false, List, [], ◌∷◌, ◌++◌, Option, none, some, Bytes, codes, if◌then◌else◌, ◌==◌,
  bytes_eq, contains, set_insert, keep_if, not, eqb,
}
use anu_db.Status
use anu_db.Status.{Status, is_ok}
use anu_db.Exec.{Exec, ◌>>=◌, pure, gets, lift, ask, or_crash}
use anu_db.Json.{Json, Kind}
use anu_db.RocksDb.{RocksDb}
use anu_db.Engine.{Engine}
use anu_db.Engine.Names.{get_index_names}
use anu_db.Engine.Scan.{fetch_for_equal, fetch_for_greater, fetch_for_lesser, fetch_by_order}
use anu_db.Collection.{index_cf_name, parse_value, mark}

abbrev pub is_nil : List Bytes → Bool
is_nil [] = true
is_nil (x ∷ xs) = false

abbrev is_empty_text : Bytes → Bool
is_empty_text [] = true
is_empty_text (c ∷ s) = false

-- set.insert(ids.begin(), ids.end())
insert_all : List Bytes → List Bytes → List Bytes
insert_all [] set = set
insert_all (a ∷ as_) set = insert_all as_ (set_insert a set)

set_erase : Bytes → List Bytes → List Bytes
set_erase a = keep_if (λ x. not (x == a))

-- for (docId : docIds) if (set.count(docId) == 0) set.erase(docId);
erase_missing : List Bytes → List Bytes → List Bytes
unfolding set_erase
erase_missing [] set = set
erase_missing (a ∷ as_) set = erase_missing as_ (if contains set a then set else set_erase a set)

-- for (it : tmpDoc1) if (tmpDoc2.count(*it) == 0) set.erase(*it);
erase_outside : List Bytes → List Bytes → List Bytes → List Bytes
unfolding set_erase
erase_outside [] tmp2 set = set
erase_outside (a ∷ tmp1) tmp2 set =
    erase_outside tmp1 tmp2 (if contains tmp2 a then set else set_erase a set)

-- How $and takes in the identifiers of one more condition.
unfoldable pub and_with : List Bytes → List Bytes → List Bytes
unfolding insert_all erase_missing erase_outside
and_with set ids =
    if is_nil set
    then insert_all ids set
    else (let set' = erase_missing ids set in erase_outside set' (insert_all ids []) set')

-- How $or does; both branches of the code insert.
unfoldable pub or_with : List Bytes → List Bytes → List Bytes
unfolding insert_all
or_with set ids = if is_nil set then insert_all ids set else insert_all ids set

unparsed : Status
unparsed = Status.invalid_argument (codes "Unable to parse value of operator..")

-- std::string(key.data()): the bytes before the first zero.
until_zero : Bytes → Bytes
until_zero [] = []
until_zero (c ∷ s) = let rest = until_zero s in if eqb c 0 then [] else c ∷ rest

module _ ⦃R : RocksDb⦄ ⦃J : Json⦄ (name : Bytes) (fuel : ℕ) where
  abbrev Found : Type 0
  Found = Exec (Engine R) (Status × List Bytes)

  find_using_eq : J.Value → List Bytes → List Bytes → Found
  find_using_eq ops indexes ids = do
    first ← lift (J.first_item ops)
    (key, x) ← or_crash first
    value ← lift (parse_value x)
    if contains indexes key
        then ask (fetch_for_equal fuel (index_cf_name name key) (value ++ mark) ids)
        else pure (
          Status.invalid_argument
              (codes "Specified key is not indexed, please create index for " ++ key),
          ids,
        )

  find_using_lt : J.Value → List Bytes → Found
  unfolding unparsed
  find_using_lt ops ids = do
    first ← lift (J.first_item ops)
    (key, x) ← or_crash first
    value ← lift (parse_value x)
    if is_empty_text value
        then pure (unparsed, ids)
        else ask (fetch_for_lesser fuel (index_cf_name name key) (value ++ mark) ids)

  find_using_gt : J.Value → List Bytes → Found
  unfolding unparsed
  find_using_gt ops ids = do
    first ← lift (J.first_item ops)
    (key, x) ← or_crash first
    value ← lift (parse_value x)
    if is_empty_text value
        then pure (unparsed, ids)
        else ask (fetch_for_greater fuel (index_cf_name name key) (value ++ mark) ids)

  -- A condition with its operator.
  find_by : Bytes → List Bytes → J.Value → Found
  unfolding find_using_eq find_using_gt find_using_lt
  find_by op indexes ops =
      if op == codes "$eq"
      then find_using_eq ops indexes []
      else if op == codes "$gt"
      then find_using_gt ops []
      else if op == codes "$lt"
      then find_using_lt ops []
      else pure (Status.invalid_argument (codes "Not supported operator is passed"), [])

  -- One condition under $and or $or, on a vector of its own. The operator is the key up to its first
  -- zero byte.
  find_condition : List Bytes → Bytes × J.Value → Found
  unfolding find_by until_zero
  find_condition indexes (key, ops) = find_by (until_zero key) indexes ops

  -- The loops over the conditions; `none` is `return {}` after an error.
  conditions :
      (List Bytes → List Bytes → List Bytes)
      → List Bytes
      → List (Bytes × J.Value)
      → List Bytes
      → Exec (Engine R) (Option (List Bytes))
  unfolding find_condition
  conditions combine indexes [] set = pure (some set)
  conditions combine indexes (c ∷ cs) set = do
    (status, ids) ← find_condition indexes c
    let rest = conditions combine indexes cs (combine set ids)
    if is_ok status then rest else pure none

  conditions_of :
      (List Bytes → List Bytes → List Bytes)
      → List Bytes
      → List J.Value
      → List Bytes
      → Exec (Engine R) (Option (List Bytes))
  unfolding conditions
  conditions_of combine indexes [] set = pure (some set)
  conditions_of combine indexes (item ∷ items) set = do
    fields ← lift (J.items item)
    result ← conditions combine indexes fields set
    elim result [ none ↦ pure none | some set' ↦ conditions_of combine indexes items set' ]

  abbrev appended : List Bytes → Option (List Bytes) → Option (List Bytes)
  appended ids none = none
  appended ids (some set) = some (ids ++ set)

  find_combined :
      (List Bytes → List Bytes → List Bytes)
      → List Bytes
      → J.Value
      → List Bytes
      → Exec (Engine R) (Option (List Bytes))
  unfolding conditions_of
  find_combined combine indexes ops ids = elim (J.kind ops) [
    | Kind.array ↦
        conditions_of combine indexes (J.elements ops) [] >>= λ set. pure (appended ids set)
    | _ ↦ pure (some ids)
  ]

  -- A value that is no string throws; the family's name is made of the key.
  find_ordered : J.Value → List Bytes → Found
  find_ordered ops ids = do
    first ← lift (J.first_item ops)
    (key, x) ← or_crash first
    value ← lift (J.get_string x)
    ask (fetch_by_order fuel (index_cf_name name key) value ids)

  -- An error of a single comparison is only printed; the identifiers so far are kept.
  abbrev kept : Found → Exec (Engine R) (Option (List Bytes))
  kept m = m >>= λ found. pure (some found.1)

  find_operator : List Bytes → Bytes × J.Value → List Bytes → Exec (Engine R) (Option (List Bytes))
  unfolding find_using_eq find_using_gt find_using_lt find_combined and_with or_with find_ordered
  find_operator indexes (op, ops) ids =
      if op == codes "$eq"
      then kept (find_using_eq ops indexes ids)
      else if op == codes "$gt"
      then kept (find_using_gt ops ids)
      else if op == codes "$lt"
      then kept (find_using_lt ops ids)
      else if op == codes "$and"
      then find_combined and_with indexes ops ids
      else if op == codes "$or"
      then find_combined or_with indexes ops ids
      else if op == codes "$orderBy"
      then kept (find_ordered ops ids)
      else pure (some ids)

  find_operators : List Bytes → List (Bytes × J.Value) → List Bytes → Exec (Engine R) (List Bytes)
  unfolding find_operator
  find_operators indexes [] ids = pure ids
  find_operators indexes (o ∷ os) ids = do
    result ← find_operator indexes o ids
    elim result [ none ↦ pure [] | some ids' ↦ find_operators indexes os ids' ]

  unfoldable pub find_document : J.Value → Exec (Engine R) (List Bytes)
  unfolding find_operators
  find_document filter = do
    indexes ← gets (get_index_names name)
    ops ← lift (J.items filter)
    find_operators indexes ops []
