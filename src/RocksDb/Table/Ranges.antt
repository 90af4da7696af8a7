-- ===== src/RocksDb/Table/Ranges.antt =====
-- In a sorted table the scans of a range are filters: the entries with a prefix, those past it, and
-- those before a key.
use anu_db.Base.{
  ◌≡◌, refl, ap, ◌⊎◌, inl, inr, true, false, not, ◌&&◌, List, [], ◌∷◌, ◌++◌, Bytes, before,
  starts_with, if◌then◌else◌, All, keep_if, drop_while, take_while, reverse, arith, before_trans,
  before_asymm, before_total, before-starts_with, starts_with_between, Bool-cases, append-nil,
  reverse-append, starts_with-append, All-reverse,
}
use anu_db.RocksDb.Table.{Entry, Sorted}

-- The entries whose key starts with `p`; those at or after `p` without it; those before `p`.
abbrev pub with_prefix : Bytes → List Entry → List Entry
with_prefix p = keep_if (λ e. starts_with e.0 p)

abbrev pub past_prefix : Bytes → List Entry → List Entry
past_prefix p = keep_if (λ e. not (before e.0 p) && not (starts_with e.0 p))

abbrev pub before_key : Bytes → List Entry → List Entry
before_key p = keep_if (λ e. before e.0 p)

starts_with_self : (p : Bytes) → starts_with p p ≡ true
starts_with_self p = rw (append-nil p) at (starts_with-append p [])

module _ (p : Bytes) where
  -- Past a key that is not before `p` no key is.
  not_before_rest :
      (k : Bytes) (es : List Entry)
      → before k p ≡ false
      → All (λ e. before k e.0 ≡ true) es
      → drop_while (λ e. before e.0 p) es ≡ es
  unfolding drop_while
  not_before_rest k [] h a = refl
  not_before_rest k ((j, v) ∷ es) h a = ground (arith, before_trans k j p, a.0)

  -- Past a key at or after `p` that lacks the prefix, no key has it.
  with_prefix_rest :
      (k : Bytes) (es : List Entry)
      → before k p ≡ false
      → starts_with k p ≡ false
      → All (λ e. before k e.0 ≡ true) es
      → with_prefix p es ≡ []
  unfolding keep_if
  with_prefix_rest k [] h n a = refl
  with_prefix_rest k ((j, v) ∷ es) h n a =
      ground (arith, starts_with_between k j p h a.0, with_prefix_rest k es h n a.1)

  take_with_prefix :
      (es : List Entry)
      → Sorted es
      → All (λ e. before e.0 p ≡ false) es
      → take_while (λ e. starts_with e.0 p) es ≡ with_prefix p es
  unfolding take_while keep_if
  take_with_prefix [] s a = refl
  take_with_prefix ((k, v) ∷ es) s a = ground (
    arith,
    take_with_prefix es s.1 a.1,
    λ (n : starts_with k p ≡ false). with_prefix_rest k es a.0 n s.0,
  )

  All-not_before :
      (k : Bytes) (es : List Entry)
      → before k p ≡ false
      → All (λ e. before k e.0 ≡ true) es
      → All (λ e. before e.0 p ≡ false) es
  All-not_before k [] h a = tt
  All-not_before k ((j, v) ∷ es) h a =
      (ground (arith, before_trans k j p a.0), All-not_before k es h a.1)

  -- Without the prefix at `k`, everything from `k` on is past it.
  past_prefix_rest :
      (k : Bytes) (es : List Entry)
      → before k p ≡ false
      → starts_with k p ≡ false
      → All (λ e. before k e.0 ≡ true) es
      → past_prefix p es ≡ es
  unfolding keep_if
  past_prefix_rest k [] h n a = refl
  past_prefix_rest k ((j, v) ∷ es) h n a = ground (
    arith,
    before_trans k j p a.0,
    starts_with_between k j p h a.0,
    past_prefix_rest k es h n a.1,
  )

  drop_with_prefix :
      (es : List Entry)
      → Sorted es
      → All (λ e. before e.0 p ≡ false) es
      → drop_while (λ e. starts_with e.0 p) es ≡ past_prefix p es
  unfolding drop_while keep_if
  drop_with_prefix [] s a = refl
  drop_with_prefix ((k, v) ∷ es) s a = ground (
    arith,
    drop_with_prefix es s.1 a.1,
    λ (n : starts_with k p ≡ false). past_prefix_rest k es a.0 n s.0,
  )

  -- Seek(p), then forward while the key starts with `p`: the entries with the prefix.
  pub take-drop-with_prefix :
      (es : List Entry)
      → Sorted es
      → take_while (λ e. starts_with e.0 p) (drop_while (λ e. before e.0 p) es) ≡ with_prefix p es
  unfolding drop_while keep_if
  take-drop-with_prefix [] s = unfold take_while in refl
  take-drop-with_prefix ((k, v) ∷ es) s = elim (Bool-cases (before k p)) [
    | inl lt ↦ rw lt (ground (arith, take-drop-with_prefix es s.1, before-starts_with k p))
    | inr ge ↦ rw ge (take_with_prefix ((k, v) ∷ es) s (ge, All-not_before k es ge s.0))
  ]

  -- Seek(p), then on past the keys that start with `p`: the entries past the prefix.
  pub drop-drop-past_prefix :
      (es : List Entry)
      → Sorted es
      → drop_while (λ e. starts_with e.0 p) (drop_while (λ e. before e.0 p) es) ≡ past_prefix p es
  unfolding drop_while keep_if
  drop-drop-past_prefix [] s = refl
  drop-drop-past_prefix ((k, v) ∷ es) s = elim (Bool-cases (before k p)) [
    | inl lt ↦ rw lt (drop-drop-past_prefix es s.1)
    | inr ge ↦ ground (arith, drop_with_prefix ((k, v) ∷ es) s (ge, All-not_before k es ge s.0))
  ]

  -- The entry at `p` itself, if there is one.
  at_key : List Entry → List Entry
  at_key = keep_if (λ e. not (before e.0 p) && not (before p e.0))

  not-before_keep :
      (es : List Entry)
      → All (λ e. before p e.0 ≡ true) es
      → (before_key p es ≡ []) × (at_key es ≡ []) × (take_while (λ e. not (before p e.0)) es ≡ [])
  unfolding keep_if take_while at_key
  not-before_keep [] a = (refl, refl, refl)
  not-before_keep ((k, v) ∷ es) a = ground (arith, before_asymm p k a.0, not-before_keep es a.1)

  All-after :
      (k : Bytes) (es : List Entry)
      → before k p ≡ false
      → All (λ e. before k e.0 ≡ true) es
      → All (λ e. before p e.0 ≡ true) es
  All-after k [] h a = tt
  All-after k ((j, v) ∷ es) h a = (
    elim (Bool-cases (before p k)) [
      | inl lt ↦ before_trans p k j lt a.0
      | inr ge ↦ rw (← before_total k p h ge) a.0
    ],
    All-after k es h a.1,
  )

  -- SeekForPrev(p) stands on the last of these.
  take_up_to :
      (es : List Entry)
      → Sorted es
      → take_while (λ e. not (before p e.0)) es ≡ before_key p es ++ at_key es
  unfolding keep_if take_while at_key
  take_up_to [] s = refl
  take_up_to ((k, v) ∷ es) s = elim (Bool-cases (before k p)) [
    | inl lt ↦ rw lt (ground (arith, take_up_to es s.1, before_asymm k p lt))
    | inr ge ↦ let (a, b, c) = not-before_keep es (All-after k es ge s.0) in ground (arith, a, b, c)
  ]

  at_key_cases :
      (es : List Entry) → Sorted es → (at_key es ≡ []) ⊎ ((v : Bytes) × (at_key es ≡ (p, v) ∷ []))
  unfolding keep_if at_key
  at_key_cases [] s = inl refl
  at_key_cases ((k, v) ∷ es) s = elim (Bool-cases (before k p)) [
    | inl lt ↦ rw (lt) (at_key_cases es s.1)
    | inr ge ↦ elim (Bool-cases (before p k)) [
      | inl gt ↦ rw (ge, gt) (at_key_cases es s.1)
      | inr le ↦
          let (_, b, _) = not-before_keep es (All-after k es ge s.0) in
          inr (v, ground (arith, b, before_total k p ge le))
    ]
  ]

  -- `if (Valid() && key().starts_with(prefix)) Prev();`
  abbrev pub step_off : List Entry → List Entry
  step_off [] = []
  step_off ((k, v) ∷ es) = if starts_with k p then es else (k, v) ∷ es

  before_key-All : (es : List Entry) → All (λ e. before e.0 p ≡ true) (before_key p es)
  unfolding keep_if
  before_key-All [] = tt
  before_key-All ((k, v) ∷ es) = elim (Bool-cases (before k p)) [
    | inl lt ↦ rw lt (lt, before_key-All es)
    | inr ge ↦ rw ge (before_key-All es)
  ]

  step_off-before : (es : List Entry) → All (λ e. before e.0 p ≡ true) es → step_off es ≡ es
  step_off-before [] a = refl
  step_off-before ((k, v) ∷ es) a = ground (arith, before-starts_with k p)

  step_off_up_to :
      (es at : List Entry)
      → All (λ e. before e.0 p ≡ true) es
      → (at ≡ []) ⊎ ((v : Bytes) × (at ≡ (p, v) ∷ []))
      → step_off (reverse (es ++ at)) ≡ reverse es
  step_off_up_to es at a (inl e) =
      rw (e, append-nil)
        (step_off-before (reverse es) (All-reverse (λ e. before e.0 p ≡ true) es a))
  step_off_up_to es at a (inr (v, e)) = rw (e, reverse-append) (rw (starts_with_self p))

  -- SeekForPrev(p), then back, but not at a key that starts with `p`: the entries before `p`.
  pub step_off-before_key :
      (es : List Entry)
      → Sorted es
      → step_off (reverse (take_while (λ e. not (before p e.0)) es)) ≡ reverse (before_key p es)
  step_off-before_key es s =
      rw (take_up_to es s) (step_off_up_to _ _ (before_key-All es) (at_key_cases es s))

  -- A sorted table is its part before `p`, its part with the prefix and its part past it, in turn.
  split_at_prefix_rest :
      (es : List Entry)
      → Sorted es
      → All (λ e. before e.0 p ≡ false) es
      → with_prefix p es ++ past_prefix p es ≡ es
  unfolding keep_if
  split_at_prefix_rest [] s a = refl
  split_at_prefix_rest ((k, v) ∷ es) s a = elim (Bool-cases (starts_with k p)) [
    | inl hit ↦ rw (hit, a.0) (ap (◌∷◌ (k, v)) (split_at_prefix_rest es s.1 a.1))
    | inr miss ↦
        rw (miss, a.0, with_prefix_rest k es a.0 miss s.0, past_prefix_rest k es a.0 miss s.0)
  ]

  not_prefix : (k : Bytes) → before k p ≡ true → starts_with k p ≡ false
  not_prefix k lt = ground (arith, before-starts_with k p)

  before_key_none : (es : List Entry) → All (λ e. before e.0 p ≡ false) es → before_key p es ≡ []
  unfolding keep_if
  before_key_none [] a = refl
  before_key_none ((k, v) ∷ es) a = rw a.0 (before_key_none es a.1)

  pub split_at_prefix :
      (es : List Entry) → Sorted es → before_key p es ++ (with_prefix p es ++ past_prefix p es) ≡ es
  unfolding keep_if
  split_at_prefix [] s = refl
  split_at_prefix ((k, v) ∷ es) s = elim (Bool-cases (before k p)) [
    | inl lt ↦ rw (lt, not_prefix k lt) (ap (◌∷◌ (k, v)) (split_at_prefix es s.1))
    | inr ge ↦
        let a : All (λ e. before e.0 p ≡ false) ((k, v) ∷ es) = (ge, All-not_before k es ge s.0) in
        (rw (before_key_none ((k, v) ∷ es) a) (split_at_prefix_rest ((k, v) ∷ es) s a))
  ]
