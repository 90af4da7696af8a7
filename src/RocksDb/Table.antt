-- ===== src/RocksDb/Table.antt =====
-- Sorted tables of entries, and writes into them.
pub mod Ranges
pub mod Lookups
pub mod Sortedness
use anu_db.Base.{◌≡◌, Bool, true, false, List, [], ◌∷◌, Bytes, before, if◌then◌else◌, All}

abbrev pub Entry : Type 0
Entry = Bytes × Bytes

-- Each key lies before those that follow it.
abbrev pub Sorted : List Entry → Type 0
Sorted [] = Unit
Sorted ((k, v) ∷ es) = All (λ e. before k e.0 ≡ true) es × Sorted es

abbrev pub is_empty : List Entry → Bool
is_empty [] = true
is_empty (e ∷ es) = false

unfoldable pub put_entry : Bytes → Bytes → List Entry → List Entry
put_entry k v [] = (k, v) ∷ []
put_entry k v ((j, w) ∷ es) =
    let rest = put_entry k v es in
    if before k j then (k, v) ∷ (j, w) ∷ es else if before j k then (j, w) ∷ rest else (k, v) ∷ es

unfoldable pub delete_entry : Bytes → List Entry → List Entry
delete_entry k [] = []
delete_entry k ((j, w) ∷ es) =
    let rest = delete_entry k es in
    if before k j then (j, w) ∷ es else if before j k then (j, w) ∷ rest else es
