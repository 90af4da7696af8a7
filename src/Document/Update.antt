-- ===== src/Document/Update.antt =====
-- src/Document.cpp: applyUpdate. The state is `data_`, which keeps what was done before a throw.
pub mod Fields
use anu_db.Base.{
  Bool, true, false, not, List, [], ◌∷◌, Option, none, some, Bytes, codes, if◌then◌else◌, keep_if,
  ◌==◌, bytes_eq,
}
use anu_db.Exec.{Exec, Try, gives, throws, ◌>>?◌, ◌>>=◌, ◌>>◌, pure, lift, replace, for_each}
use anu_db.Json.{Json, Kind}
use anu_db.Document.Paths.{has_dot, set_dotted, unset_dotted, is_kind_array}

module _ ⦃J : Json⦄ where
  set_one : Bytes × J.Value → J.Value → Try J.Value
  unfolding has_dot set_dotted
  set_one (key, x) v = if has_dot key then set_dotted key x v else J.set_member v key x

  unset_one : Bytes × J.Value → J.Value → Try J.Value
  unfolding has_dot unset_dotted
  unset_one (key, x) v = if has_dot key then unset_dotted key v else J.erase_member v key

  -- A missing field is set, an array grows, and any other value becomes an array of two.
  push_at : Option J.Value → Bytes → J.Value → J.Value → Try J.Value
  push_at none key x v = J.set_member v key x
  push_at (some old) key x v =
      if is_kind_array (J.kind old)
      then (J.push_back old x >>? λ grown. J.set_member v key grown)
      else J.set_member v key (J.array_value (old ∷ x ∷ []))

  push_one : Bytes × J.Value → J.Value → Try J.Value
  unfolding push_at
  push_one (key, x) v = push_at (J.find v key) key x v

  -- An array loses the equal items. Another value is erased if it is equal, and else overwritten.
  pull_at : Option J.Value → Bytes → J.Value → J.Value → Try J.Value
  pull_at none key x v = gives v
  pull_at (some old) key x v =
      if is_kind_array (J.kind old)
      then J.set_member v key
          (J.array_value (keep_if (λ item. not (J.equals item x)) (J.elements old)))
      else if J.equals old x
      then J.erase_member v key
      else J.set_member v key x

  pull_one : Bytes × J.Value → J.Value → Try J.Value
  unfolding pull_at
  pull_one (key, x) v = pull_at (J.find v key) key x v

  -- The loop of one operator over its fields.
  each_field : (Bytes × J.Value → J.Value → Try J.Value) → J.Value → Exec J.Value Unit
  each_field one ops = do fields ← lift (J.items ops); for_each fields (λ f. replace (one f))

  -- An unknown operator is passed over.
  unfoldable pub apply_operator : Bytes × J.Value → Exec J.Value Unit
  unfolding each_field set_one unset_one push_one pull_one
  apply_operator (op, ops) =
      if op == codes "$set"
      then each_field set_one ops
      else if op == codes "$unset"
      then each_field unset_one ops
      else if op == codes "$push"
      then each_field push_one ops
      else if op == codes "$pull"
      then each_field pull_one ops
      else pure tt

  unfoldable pub apply_update : J.Value → Exec J.Value Unit
  unfolding apply_operator
  apply_update update = do ops ← lift (J.items update); for_each ops apply_operator
