-- ===== src/Document/Paths/Apart.antt =====
-- What a dotted $unset does where the path exists: to the end of the path, and to every path that parts
-- from it.
use anu_db.Base.{
  ℕ, ◌≡◌, ◌≢◌, refl, ◌∙◌, sym, false, List, [], ◌∷◌, none, some, Bytes, ◌==◌, bytes_eq,
  get_elem?-set_other, arith, eq_self, Option-cases, inl, inr,
}
use anu_db.Exec.{Try, gives, throws}
use anu_db.Json.{Json, Kind}
use anu_db.Json.Contract.{IsLawful}
use anu_db.Document.Paths.{Turn, element, member, nowhere, turn, unset_path}
use anu_db.Document.Paths.Nested.{
  read_path, turn_element, turn_element_of, turn-set_member, turn-set_element,
}

module _ ⦃J : Json⦄ where
  -- The paths part in a value: at different keys of an object or different elements of an array, or
  -- further down.
  pub data Parts : Bytes → List Bytes → Bytes → List Bytes → J.Value → Type 0 where
    keys :
        {t u : Bytes} {ts us : List Bytes} {v : J.Value}
        → J.kind v ≡ Kind.object
        → (u == t) ≡ false
        → Parts t ts u us v
    elements :
        {t u : Bytes} {ts us : List Bytes} {i j : ℕ} {c d v : J.Value}
        → turn t v ≡ gives (element i c)
        → turn u v ≡ gives (element j d)
        → i ≢ j
        → Parts t ts u us v
    in_member :
        {t t' u' : Bytes} {ts us : List Bytes} {c v : J.Value}
        → turn t v ≡ gives (member c)
        → Parts t' ts u' us c
        → Parts t (t' ∷ ts) t (u' ∷ us) v
    in_element :
        {t u t' u' : Bytes} {ts us : List Bytes} {i : ℕ} {c v : J.Value}
        → turn t v ≡ gives (element i c)
        → turn u v ≡ gives (element i c)
        → Parts t' ts u' us c
        → Parts t (t' ∷ ts) u (u' ∷ us) v

  -- A path of two objects that agree at its first key.
  turn_same :
      (u : Bytes) (v w : J.Value)
      → J.kind v ≡ Kind.object
      → J.kind w ≡ Kind.object
      → J.find w u ≡ J.find v u
      → turn u w ≡ turn u v
  unfolding turn
  turn_same u v w k l f = ground arith

  read_path_same :
      (u : Bytes) (us : List Bytes) (v w : J.Value)
      → J.kind v ≡ Kind.object
      → J.kind w ≡ Kind.object
      → J.find w u ≡ J.find v u
      → read_path u us w ≡ read_path u us v
  unfolding read_path
  read_path_same u [] v w k l f = f
  read_path_same u (u' ∷ us) v w k l f = rw (read_path, turn_same u v w k l f) refl

module _ ⦃J : Json⦄ (L : IsLawful J) where
  find_array : (u : Bytes) (v : J.Value) → J.kind v ≡ Kind.array → J.find v u ≡ none
  find_array u v k = elim (Option-cases (J.find v u)) [
    | inl f ↦ f
    | inr (x, f) ↦ absurd (let a : Kind.array ≡ Kind.object = sym k ∙ L.find_object v u x f in cc)
  ]

  -- A path into another element of an array.
  read_path-set_element :
      (u : Bytes) (us : List Bytes) (v c d : J.Value) (i j : ℕ)
      → turn u v ≡ gives (element j d)
      → i ≢ j
      → read_path u us (J.set_element v i c) ≡ read_path u us v
  unfolding read_path
  read_path-set_element u us v c d i j q n = go us
    where
      k : J.kind v ≡ Kind.array
      k = (turn_element u v d j q).0

      turned : turn u (J.set_element v i c) ≡ gives (element j d)
      turned =
          let (_, digits, index, f) = turn_element u v d j q in
          turn_element_of u _ d j (L.kind-set_element v i c k) digits index
            (rw (L.elements-set_element v i c k) (get_elem?-set_other (J.elements v) i j c n ∙ f))

      go : (us : List Bytes) → read_path u us (J.set_element v i c) ≡ read_path u us v
      go [] = find_array u _ (L.kind-set_element v i c k) ∙ sym (find_array u v k)
      go (u' ∷ us) = rw (read_path, turned, q) refl

  -- Where a path exists, it is gone then, and a path into another member or element is as before.
  abbrev Removed : Bytes → List Bytes → J.Value → J.Value → Type 0
  Removed t ts v w =
      (unset_path t ts v ≡ gives w)
      × (read_path t ts w ≡ none)
      × ((u : Bytes) (us : List Bytes)
          → J.kind v ≡ Kind.object
          → (u == t) ≡ false
          → read_path u us w ≡ read_path u us v)
      × ((u : Bytes) (us : List Bytes) (i j : ℕ) (c d : J.Value)
          → turn t v ≡ gives (element i c)
          → turn u v ≡ gives (element j d)
          → i ≢ j
          → read_path u us w ≡ read_path u us v)

  removed :
      (t : Bytes) (ts : List Bytes) (old v : J.Value)
      → read_path t ts v ≡ some old
      → (w : J.Value) × Removed t ts v w
  unfolding read_path unset_path
  removed t [] old v e =
      let k = L.find_object v t old e in
      let (w, s) = L.erase_member_object v t k in
      (
        w,
        (
          rw e s,
          L.find-erase_member v t t w s ∙ rw (eq_self t),
          λ u us k' d.
              read_path_same u us v w k (L.kind-erase_member v t w s)
                (L.find-erase_member v t u w s ∙ rw d),
          λ u us i j c d p q n.
              absurd (let a : Kind.array ≡ Kind.object = sym (turn_element t v c i p).0 ∙ k in cc),
        ),
      )
  removed t (t' ∷ ts) old v e = go (turn t v) refl e (λ c h. removed t' ts old c h)
    where
      go :
          (r : Try (Turn J.Value))
          → turn t v ≡ r
          → (elim r [
            | throws e ↦ none
            | gives (element i child) ↦ read_path t' ts child
            | gives (member child) ↦ read_path t' ts child
            | gives nowhere ↦ none
          ])
            ≡ some old
          → ((c : J.Value) → read_path t' ts c ≡ some old → (w : J.Value) × Removed t' ts c w)
          → (w : J.Value) × Removed t (t' ∷ ts) v w
      go (throws m) q h ih = cc
      go (gives nowhere) q h ih = cc
      go (gives (member c)) q h ih =
          let (c', (s, r, _, _)) = ih c h in
          let (w, m, q') = turn-set_member L t v c c' q in
          (
            w,
            (
              rw (q, s) m,
              rw (q', read_path) r,
              λ u us k d.
                  read_path_same u us v w k (L.kind-set_member v t c' w m)
                    (L.find-set_member v t u c' w m ∙ rw d),
              λ u us i j x d p p' n.
                  absurd (
                    let f : gives (element i x) ≡ gives (member c) = sym p ∙ q in
                    ground (arith, f)),
            ),
          )
      go (gives (element i c)) q h ih =
          let (c', (s, r, _, _)) = ih c h in
          (
            J.set_element v i c',
            (
              rw (q, s),
              rw (turn-set_element L t v c c' i q, read_path) r,
              λ u us k d.
                  absurd
                    (let a : Kind.array ≡ Kind.object = sym (turn_element t v c i q).0 ∙ k in cc),
              λ u us i' j x d p p' n.
                  let f : gives (element i' x) ≡ gives (element i c) = sym p ∙ q in
                  let same : i' ≡ i = ground (arith, f) in
                  read_path-set_element u us v c' d i j p' (λ g. n (same ∙ g)),
            ),
          )

  -- A dotted $unset along a path that exists to its end succeeds, nothing stands at the end of the
  -- path then, and what stands at the end of any path that parts from it, at another key of an
  -- object or another element of an array, is as before.
  pub read_path-unset_path :
      (t : Bytes) (ts : List Bytes) (u : Bytes) (us : List Bytes) (old v : J.Value)
      → read_path t ts v ≡ some old
      → Parts t ts u us v
      → (w : J.Value) × (unset_path t ts v ≡ gives w)
        × (read_path t ts w ≡ none)
        × (read_path u us w ≡ read_path u us v)
  unfolding read_path unset_path
  read_path-unset_path t ts u us old v e (keys k d) =
      let (w, (s, r, members, _)) = removed t ts old v e in (w, s, r, members u us k d)
  read_path-unset_path t ts u us old v e (elements {i = i} {j = j} {c = c} {d = d} p q n) =
      let (w, (s, r, _, others)) = removed t ts old v e in (w, s, r, others u us i j c d p q n)
  read_path-unset_path t (t' ∷ ts) u (u' ∷ us) old v e (in_member {c = c} q p) =
      let (c', s, r, f) = read_path-unset_path t' ts u' us old c (rw (read_path, q) at e) p in
      let (w, m, q') = turn-set_member L t v c c' q in
      (w, rw (q, s) m, rw (q', read_path) r, rw (q', q, read_path) f)
  read_path-unset_path t (t' ∷ ts) u (u' ∷ us) old v e (in_element {i = i} {c = c} q p' p) =
      let (c', s, r, f) = read_path-unset_path t' ts u' us old c (rw (read_path, q) at e) p in
      (
        J.set_element v i c',
        rw (q, s),
        rw (turn-set_element L t v c c' i q, read_path) r,
        rw (turn-set_element L u v c c' i p', p', read_path) f,
      )
