-- ===== src/Document/Paths/Nested.antt =====
-- What stands at the end of a path, and what a dotted $set does where the path exists.
use anu_db.Base.{
  ℕ, ◌≡◌, refl, ◌∙◌, true, List, [], ◌∷◌, Option, none, some, Bytes, get_elem?, get_elem?-set_self,
  arith, bytes_eq, eq_self,
}
use anu_db.Exec.{Try, gives, throws}
use anu_db.Json.{Json, Kind}
use anu_db.Json.Contract.{IsLawful}
use anu_db.Document.Paths.{Turn, element, member, nowhere, turn, all_digits, stoi, set_path}

module _ ⦃J : Json⦄ where
  -- What stands at the end of a path that exists at every token.
  unfoldable pub read_path : Bytes → List Bytes → J.Value → Option J.Value
  read_path token [] v = J.find v token
  read_path token (t ∷ ts) v = elim (turn token v) [
    | throws e ↦ none
    | gives (element i child) ↦ read_path t ts child
    | gives (member child) ↦ read_path t ts child
    | gives nowhere ↦ none
  ]

  -- A turn into a member or an element says what the value is.
  pub turn_member :
      (t : Bytes) (v c : J.Value)
      → turn t v ≡ gives (member c)
      → (J.kind v ≡ Kind.object) × (J.find v t ≡ some c)
  unfolding turn
  turn_member t v c e = ground arith

  pub turn_element :
      (t : Bytes) (v c : J.Value) (i : ℕ)
      → turn t v ≡ gives (element i c)
      → (J.kind v ≡ Kind.array)
        × (all_digits t ≡ true)
        × (stoi t ≡ gives i)
        × (get_elem? (J.elements v) i ≡ some c)
  unfolding turn
  turn_element t v c i e = ground arith

  pub turn_member_of :
      (t : Bytes) (v c : J.Value)
      → J.kind v ≡ Kind.object
      → J.find v t ≡ some c
      → turn t v ≡ gives (member c)
  unfolding turn
  turn_member_of t v c k f = ground arith

  pub turn_element_of :
      (t : Bytes) (v c : J.Value) (i : ℕ)
      → J.kind v ≡ Kind.array
      → all_digits t ≡ true
      → stoi t ≡ gives i
      → get_elem? (J.elements v) i ≡ some c
      → turn t v ≡ gives (element i c)
  unfolding turn
  turn_element_of t v c i k d s f = ground arith

module _ ⦃J : Json⦄ (L : IsLawful J) where
  -- A value put back where a turn led is where the turn leads again.
  pub turn-set_member :
      (t : Bytes) (v c c' : J.Value)
      → turn t v ≡ gives (member c)
      → (w : J.Value) × (J.set_member v t c' ≡ gives w) × (turn t w ≡ gives (member c'))
  turn-set_member t v c c' q =
      let (w, s) = L.set_member_object v t c' (turn_member t v c q).0 in
      (
        w,
        s,
        turn_member_of t w c' (L.kind-set_member v t c' w s)
            (L.find-set_member v t t c' w s ∙ rw (eq_self t)),
      )

  pub turn-set_element :
      (t : Bytes) (v c c' : J.Value) (i : ℕ)
      → turn t v ≡ gives (element i c)
      → turn t (J.set_element v i c') ≡ gives (element i c')
  turn-set_element t v c c' i q =
      let (k, d, s, f) = turn_element t v c i q in
      turn_element_of t _ c' i (L.kind-set_element v i c' k) d s
        (rw (L.elements-set_element v i c' k) (get_elem?-set_self (J.elements v) i c' c f))

  -- A dotted $set along a path that exists to its end succeeds, and the value stands at the end of
  -- the path then.
  pub read_path-set_path :
      (t : Bytes) (ts : List Bytes) (x old v : J.Value)
      → read_path t ts v ≡ some old
      → (w : J.Value) × (set_path t ts x v ≡ gives w) × (read_path t ts w ≡ some x)
  unfolding read_path set_path
  read_path-set_path t [] x old v e =
      let (w, s) = L.set_member_object v t x (L.find_object v t old e) in
      (w, rw e s, L.find-set_member v t t x w s ∙ rw (eq_self t))
  read_path-set_path t (u ∷ us) x old v e =
      go (turn t v) refl e (λ c h. read_path-set_path u us x old c h)
    where
      go :
          (r : Try (Turn J.Value))
          → turn t v ≡ r
          → (elim r [
            | throws e ↦ none
            | gives (element i child) ↦ read_path u us child
            | gives (member child) ↦ read_path u us child
            | gives nowhere ↦ none
          ])
            ≡ some old
          → ((c : J.Value)
              → read_path u us c ≡ some old
              → (w : J.Value) × (set_path u us x c ≡ gives w) × (read_path u us w ≡ some x))
          → (w : J.Value) × (set_path t (u ∷ us) x v ≡ gives w) × (read_path t (u ∷ us) w ≡ some x)
      go (throws m) q h ih = cc
      go (gives nowhere) q h ih = cc
      go (gives (member c)) q h ih =
          let (c', s, r) = ih c h in
          let (w, m, q') = turn-set_member t v c c' q in (w, rw (q, s) m, rw (q', read_path) r)
      go (gives (element i c)) q h ih =
          let (c', s, r) = ih c h in
          (J.set_element v i c', rw (q, s), rw (turn-set_element t v c c' i q, read_path) r)
