-- ===== src/Collection/Find/Sets.antt =====
-- How $and and $or take in the identifiers of one more condition.
use anu_db.Base.{
  ◌≡◌, refl, ◌∙◌, true, false, ◌&&◌, List, [], ◌∷◌, Bytes, if◌then◌else◌, ◌==◌, bytes_eq, contains,
  set_insert, contains-set_insert, keep_if, arith,
}
use anu_db.Collection.Find.{
  insert_all, set_erase, erase_missing, erase_outside, and_with, or_with, is_nil,
}

contains-insert_all :
    (ids set : List Bytes) (x : Bytes)
    → contains (insert_all ids set) x ≡ (if contains ids x then true else contains set x)
unfolding insert_all
contains-insert_all [] set x = refl
contains-insert_all (a ∷ as_) set x =
    contains-insert_all as_ (set_insert a set) x ∙ ground (arith, contains-set_insert a x set)

contains-set_erase :
    (a x : Bytes) (set : List Bytes)
    → contains (set_erase a set) x ≡ (if x == a then false else contains set x)
unfolding set_erase keep_if
contains-set_erase a x [] = ground arith
contains-set_erase a x (y ∷ ys) = ground (arith, contains-set_erase a x ys)

-- Erasing what is not there changes nothing.
contains-erase_missing :
    (ids set : List Bytes) (x : Bytes) → contains (erase_missing ids set) x ≡ contains set x
unfolding erase_missing
contains-erase_missing [] set x = refl
contains-erase_missing (a ∷ as_) set x =
    contains-erase_missing as_ (if contains set a then set else set_erase a set) x
    ∙ ground (arith, contains-set_erase a x set)

contains-erase_outside :
    (tmp1 tmp2 set : List Bytes) (x : Bytes)
    → contains (erase_outside tmp1 tmp2 set) x
      ≡ (if contains tmp1 x then contains tmp2 x && contains set x else contains set x)
unfolding erase_outside
contains-erase_outside [] tmp2 set x = refl
contains-erase_outside (a ∷ as_) tmp2 set x =
    contains-erase_outside as_ tmp2 (if contains tmp2 a then set else set_erase a set) x
    ∙ ground (arith, contains-set_erase a x set)

-- A first condition of $and, or one after an empty set, gives its own identifiers; any other leaves
-- those of the set that it has too.
pub contains-and_with :
    (set ids : List Bytes) (x : Bytes)
    → contains (and_with set ids) x
      ≡ (if is_nil set then contains ids x else contains set x && contains ids x)
unfolding and_with
contains-and_with [] ids x = contains-insert_all ids [] x ∙ ground arith
contains-and_with (y ∷ ys) ids x =
    contains-erase_outside (erase_missing ids (y ∷ ys)) (insert_all ids [])
      (erase_missing ids (y ∷ ys)) x
    ∙ ground (arith, contains-erase_missing ids (y ∷ ys) x, contains-insert_all ids [] x)

-- A condition of $or adds its identifiers to the set.
pub contains-or_with :
    (set ids : List Bytes) (x : Bytes)
    → contains (or_with set ids) x ≡ (if contains ids x then true else contains set x)
unfolding or_with
contains-or_with [] ids x = contains-insert_all ids [] x
contains-or_with (y ∷ ys) ids x = contains-insert_all ids (y ∷ ys) x
