-- ===== src/Document/Update/Fields.antt =====
-- What applyUpdate makes of each field of an object, if no key of $set and $unset has a dot.
use anu_db.Base.{
  ◌≡◌, refl, false, not, List, [], ◌∷◌, Option, none, some, Bytes, codes, if◌then◌else◌, keep_if,
  ◌==◌, bytes_eq, All, arith, Bool-cases, inl, inr,
}
use anu_db.Exec.{returns, Try, gives, throws, replace, for_each}
use anu_db.Json.{Json, Kind}
use anu_db.Json.Contract.{IsLawful}
use anu_db.Document.Paths.{has_dot, is_kind_array}
use anu_db.Document.Update.{
  set_one, unset_one, push_at, push_one, pull_at, pull_one, each_field, apply_operator,
  apply_update,
}

module _ ⦃J : Json⦄ where
  abbrev Effect : Type 0
  Effect = J.Value → Option J.Value → Option J.Value

  -- The value that push_back() makes.
  abbrev grown : Try J.Value → J.Value
  grown (gives v) = v
  grown (throws e) = J.null_value

  -- The four operators on one field, from its old value to its new one.
  abbrev pub set_effect : J.Value → Option J.Value → Option J.Value
  set_effect x old = some x

  abbrev pub unset_effect : J.Value → Option J.Value → Option J.Value
  unset_effect x old = none

  abbrev pub push_effect : J.Value → Option J.Value → Option J.Value
  push_effect x none = some x
  push_effect x (some old) =
      if is_kind_array (J.kind old)
      then some (grown (J.push_back old x))
      else some (J.array_value (old ∷ x ∷ []))

  abbrev pub pull_effect : J.Value → Option J.Value → Option J.Value
  pull_effect x none = none
  pull_effect x (some old) =
      if is_kind_array (J.kind old)
      then some (J.array_value (keep_if (λ item. not (J.equals item x)) (J.elements old)))
      else if J.equals old x
      then none
      else some x

  abbrev pub no_effect : J.Value → Option J.Value → Option J.Value
  no_effect x old = old

  abbrev pub effect_of : Bytes → J.Value → Option J.Value → Option J.Value
  effect_of op =
      if op == codes "$set"
      then set_effect
      else if op == codes "$unset"
      then unset_effect
      else if op == codes "$push"
      then push_effect
      else if op == codes "$pull"
      then pull_effect
      else no_effect

  -- One field after the fields of an operator, in turn.
  abbrev pub after_fields :
      (J.Value → Option J.Value → Option J.Value)
      → List (Bytes × J.Value)
      → Bytes
      → Option J.Value
      → Option J.Value
  after_fields effect [] j old = old
  after_fields effect ((k, x) ∷ fs) j old =
      after_fields effect fs j (if j == k then effect x old else old)

  abbrev Plain : List (Bytes × J.Value) → Type 0
  Plain = All (λ f. has_dot f.0 ≡ false)

  -- A step that changes its own field by an effect, and no other.
  abbrev Acts : (Bytes × J.Value → J.Value → Try J.Value) → Effect → Type 0
  Acts one effect =
      (k : Bytes) (x v : J.Value)
      → has_dot k ≡ false
      → J.kind v ≡ Kind.object
      → (w : J.Value) × (one (k, x) v ≡ gives w)
        × (J.kind w ≡ Kind.object)
        × ((j : Bytes) → J.find w j ≡ (if j == k then effect x (J.find v j) else J.find v j))

  -- Such steps in turn.
  loop-Acts :
      (one : Bytes × J.Value → J.Value → Try J.Value)
      (effect : J.Value → Option J.Value → Option J.Value)
      → Acts one effect
      → (fs : List (Bytes × J.Value)) (v : J.Value) → Plain fs
      → J.kind v ≡ Kind.object
      → (w : J.Value) × (for_each fs (λ f. replace (one f)) v ≡ (returns tt, w))
        × (J.kind w ≡ Kind.object)
        × ((j : Bytes) → J.find w j ≡ after_fields effect fs j (J.find v j))
  unfolding for_each
  loop-Acts one effect acts [] v p o = (v, refl, o, λ j. refl)
  loop-Acts one effect acts ((k, x) ∷ fs) v p o =
      let (w, e, o', f) = acts k x v p.0 o in
      let (u, e', o'', f') = loop-Acts one effect acts fs w p.1 o' in
      (u, rw e e', o'', λ j. rw (f', f j))

module _ ⦃J : Json⦄ (L : IsLawful J) where
  -- Setting one member is such a step.
  set_member_acts :
      (k : Bytes) (x v : J.Value)
      → J.kind v ≡ Kind.object
      → (w : J.Value) × (J.set_member v k x ≡ gives w)
        × (J.kind w ≡ Kind.object)
        × ((j : Bytes) → J.find w j ≡ (if j == k then some x else J.find v j))
  set_member_acts k x v o =
      let (w, e) = L.set_member_object v k x o in
      (w, e, L.kind-set_member v k x w e, λ j. L.find-set_member v k j x w e)

  set_one-Acts : Acts set_one set_effect
  unfolding set_one
  set_one-Acts k x v d o = rw d (set_member_acts k x v o)

  unset_one-Acts : Acts unset_one unset_effect
  unfolding unset_one
  unset_one-Acts k x v d o = rw d (
      let (w, e) = L.erase_member_object v k o in
      (w, e, L.kind-erase_member v k w e, λ j. L.find-erase_member v k j w e))

  -- Setting the member to what an effect makes of it.
  set_effect_acts :
      (effect : J.Value → Option J.Value → Option J.Value) (k : Bytes) (x y v : J.Value)
      → J.kind v ≡ Kind.object
      → effect x (J.find v k) ≡ some y
      → (w : J.Value) × (J.set_member v k y ≡ gives w)
        × (J.kind w ≡ Kind.object)
        × ((j : Bytes) → J.find w j ≡ (if j == k then effect x (J.find v j) else J.find v j))
  set_effect_acts effect k x y v o e =
      let (w, e', o', f) = set_member_acts k y v o in (w, e', o', λ j. ground (arith, f j))

  push_one-Acts : Acts push_one push_effect
  unfolding push_one
  push_one-Acts k x v d o = go (J.find v k) refl
    where
      go :
          (old : Option J.Value)
          → J.find v k ≡ old
          → (w : J.Value) × (push_at old k x v ≡ gives w)
            × (J.kind w ≡ Kind.object)
            × ((j : Bytes)
                → J.find w j ≡ (if j == k then push_effect x (J.find v j) else J.find v j))
      go none e = set_effect_acts push_effect k x x v o (rw e)
      go (some old) e = elim (Bool-cases (is_kind_array (J.kind old))) [
        | inl arr ↦
            let (g, pushed) = L.push_back_array old x (ground arith) in
            rw (arr, pushed) (set_effect_acts push_effect k x g v o (rw (e, arr, pushed)))
        | inr other ↦
            rw other
              (set_effect_acts push_effect k x (J.array_value (old ∷ x ∷ [])) v o (rw (e, other)))
      ]

  pull_one-Acts : Acts pull_one pull_effect
  unfolding pull_one
  pull_one-Acts k x v d o = go (J.find v k) refl
    where
      go :
          (old : Option J.Value)
          → J.find v k ≡ old
          → (w : J.Value) × (pull_at old k x v ≡ gives w)
            × (J.kind w ≡ Kind.object)
            × ((j : Bytes)
                → J.find w j ≡ (if j == k then pull_effect x (J.find v j) else J.find v j))
      go none e = (v, refl, o, λ j. ground arith)
      go (some old) e = elim (Bool-cases (is_kind_array (J.kind old))) [
        | inl arr ↦ rw arr (set_effect_acts pull_effect k x _ v o (rw (e, arr)))
        | inr other ↦ elim (Bool-cases (J.equals old x)) [
          | inl same ↦
              rw (other, same)
                (let (w, e') = L.erase_member_object v k o in
                  (
                    w,
                    e',
                    L.kind-erase_member v k w e',
                    λ j. ground (arith, L.find-erase_member v k j w e'),
                  ))
          | inr differ ↦
              rw (other, differ) (set_effect_acts pull_effect k x x v o (rw (e, other, differ)))
        ]
      ]

  each_field-Acts :
      (one : Bytes × J.Value → J.Value → Try J.Value)
      (effect : J.Value → Option J.Value → Option J.Value)
      → Acts one effect
      → (ops : J.Value) (fs : List (Bytes × J.Value)) (v : J.Value) → J.items ops ≡ gives fs
      → Plain fs
      → J.kind v ≡ Kind.object
      → (w : J.Value) × (each_field one ops v ≡ (returns tt, w))
        × (J.kind w ≡ Kind.object)
        × ((j : Bytes) → J.find w j ≡ after_fields effect fs j (J.find v j))
  unfolding each_field
  each_field-Acts one effect acts ops fs v r p o = rw r (loop-Acts one effect acts fs v p o)

  after_no_effect :
      (fs : List (Bytes × J.Value)) (j : Bytes) (old : Option J.Value)
      → old ≡ after_fields no_effect fs j old
  after_no_effect [] j old = refl
  after_no_effect ((k, x) ∷ fs) j old = elim (Bool-cases (j == k)) [
    | inl e ↦ rw e (after_no_effect fs j old)
    | inr e ↦ rw e (after_no_effect fs j old)
  ]

  apply_operator_acts :
      (op : Bytes) (ops : J.Value) (fs : List (Bytes × J.Value)) (v : J.Value)
      → J.items ops ≡ gives fs
      → Plain fs
      → J.kind v ≡ Kind.object
      → (w : J.Value) × (apply_operator (op, ops) v ≡ (returns tt, w))
        × (J.kind w ≡ Kind.object)
        × ((j : Bytes) → J.find w j ≡ after_fields (effect_of op) fs j (J.find v j))
  unfolding apply_operator
  apply_operator_acts op ops fs v r p o = elim (Bool-cases (op == codes "$set")) [
    | inl a ↦ rw a (each_field-Acts set_one set_effect set_one-Acts ops fs v r p o)
    | inr a ↦ elim (Bool-cases (op == codes "$unset")) [
      | inl b ↦ rw (a, b) (each_field-Acts unset_one unset_effect unset_one-Acts ops fs v r p o)
      | inr b ↦ elim (Bool-cases (op == codes "$push")) [
        | inl c ↦ rw (a, b, c) (each_field-Acts push_one push_effect push_one-Acts ops fs v r p o)
        | inr c ↦ elim (Bool-cases (op == codes "$pull")) [
          | inl d ↦
              rw (a, b, c, d) (each_field-Acts pull_one pull_effect pull_one-Acts ops fs v r p o)
          | inr d ↦ rw (a, b, c, d) (v, refl, o, λ j. after_no_effect fs j (J.find v j))
        ]
      ]
    ]
  ]

module _ ⦃J : Json⦄ where
  -- The operators of an update with their fields read.
  abbrev pub Reads : List (Bytes × J.Value) → List (Bytes × List (Bytes × J.Value)) → Type 0
  Reads [] [] = Unit
  Reads [] (r ∷ rs) = ⊥
  Reads (o ∷ os) [] = ⊥
  Reads ((op, ops) ∷ os) ((op', fs) ∷ rs) =
      (op ≡ op') × (J.items ops ≡ gives fs) × Plain fs × Reads os rs

  abbrev pub after_update :
      List (Bytes × List (Bytes × J.Value)) → Bytes → Option J.Value → Option J.Value
  after_update [] j old = old
  after_update ((op, fs) ∷ rs) j old = after_update rs j (after_fields (effect_of op) fs j old)

module _ ⦃J : Json⦄ (L : IsLawful J) where
  operators_act :
      (os : List (Bytes × J.Value)) (rs : List (Bytes × List (Bytes × J.Value))) (v : J.Value)
      → Reads os rs
      → J.kind v ≡ Kind.object
      → (w : J.Value) × (for_each os apply_operator v ≡ (returns tt, w))
        × (J.kind w ≡ Kind.object)
        × ((j : Bytes) → J.find w j ≡ after_update rs j (J.find v j))
  unfolding for_each
  operators_act [] [] v r o = (v, refl, o, λ j. refl)
  operators_act [] (r' ∷ rs) v r o = absurd r
  operators_act (o' ∷ os) [] v r o = absurd r
  operators_act ((op, ops) ∷ os) ((op', fs) ∷ rs) v (same, r, p, rest) o =
      let (w, e, o', f) = apply_operator_acts L op ops fs v r p o in
      let (u, e', o'', f') = operators_act os rs w rest o' in
      (u, rw e e', o'', λ j. rw (← same, f', f j))

  -- On an object, applyUpdate with an update whose operators hold objects with undotted keys ends
  -- normally in an object, in which each field is what $set, $unset, $push and $pull make of it in
  -- turn, and every field that no operator names is as before.
  pub apply_update-after_update :
      (update v : J.Value) (os : List (Bytes × J.Value))
      (rs : List (Bytes × List (Bytes × J.Value)))
      → J.items update ≡ gives os
      → Reads os rs
      → J.kind v ≡ Kind.object
      → (w : J.Value) × (apply_update update v ≡ (returns tt, w))
        × (J.kind w ≡ Kind.object)
        × ((j : Bytes) → J.find w j ≡ after_update rs j (J.find v j))
  unfolding apply_update
  apply_update-after_update update v os rs e r o = rw e (operators_act os rs v r o)
