-- ===== src/Document/Paths.antt =====
-- src/Document.cpp: the dotted keys of $set and $unset.
pub mod Nested
pub mod Apart
pub mod Passing
use anu_db.Base.{
  ℕ, zero, suc, ◌+◌, ◌-◌, ◌*◌, ◌^◌, Bool, true, false, ◌&&◌, ◌||◌, List, [], ◌∷◌, ◌++◌, Option,
  none, some, Bytes, codes, length, get_elem?, eqb, leb, ltb, if◌then◌else◌,
}
use anu_db.Exec.{Try, gives, throws, ◌>>?◌}
use anu_db.Json.{Json, Kind}

-- key.find('.') != std::string::npos
unfoldable pub has_dot : Bytes → Bool
has_dot [] = false
has_dot (c ∷ s) = eqb c b'.' || has_dot s

abbrev last_token : Bytes → List Bytes
last_token [] = []
last_token (c ∷ s) = (c ∷ s) ∷ []

-- std::getline(ss, token, '.') until it fails: nothing follows a dot at the end.
getline_tokens : Bytes → Bytes → List Bytes
getline_tokens token [] = last_token token
getline_tokens token (c ∷ s) =
    let done = token ∷ getline_tokens [] s in
    let more = getline_tokens (token ++ c ∷ []) s in if eqb c b'.' then done else more

unfoldable pub tokens_of : Bytes → List Bytes
unfolding getline_tokens
tokens_of key = getline_tokens [] key

-- std::all_of(token.begin(), token.end(), ::isdigit)
pub all_digits : Bytes → Bool
all_digits [] = true
all_digits (c ∷ s) = (leb b'0' c && leb c b'9') && all_digits s

decimal : ℕ → Bytes → ℕ
decimal n [] = n
decimal n (c ∷ s) = decimal (n * 10 + (c - b'0')) s

-- std::stoi on digits: an empty string and a number past INT_MAX throw.
pub stoi : Bytes → Try ℕ
unfolding decimal
stoi [] = throws (codes "stoi")
stoi (c ∷ s) =
    if ltb (decimal 0 (c ∷ s)) (2 ^ 31) then gives (decimal 0 (c ∷ s)) else throws (codes "stoi")

abbrev pub is_kind_array : Kind → Bool
is_kind_array k = elim k [ Kind.array ↦ true | _ ↦ false ]

abbrev is_kind_object : Kind → Bool
is_kind_object k = elim k [ Kind.object ↦ true | _ ↦ false ]

-- Where a token leads from the current value: into an element, into a member, or nowhere.
pub data Turn (V : Type 0) : Type 0 where
  element : ℕ → V → Turn V
  member : V → Turn V
  nowhere : Turn V

abbrev element_at : {V : Type 0} → List V → ℕ → Turn V
element_at vs i = elim (get_elem? vs i) [ none ↦ nowhere | some x ↦ element i x ]

abbrev member_at : {V : Type 0} → Option V → Turn V
member_at none = nowhere
member_at (some x) = member x

module _ ⦃J : Json⦄ where
  unfoldable pub turn : Bytes → J.Value → Try (Turn J.Value)
  unfolding all_digits stoi
  turn token current =
      let index = stoi token >>? λ i. gives (element_at (J.elements current) i) in
      let field =
        if is_kind_object (J.kind current) then member_at (J.find current token) else nowhere in
      if all_digits token && is_kind_array (J.kind current) then index else gives field

  -- `if (current->find(last) != current->end()) (*current)[last] = x;`
  set_last : Option J.Value → Bytes → J.Value → J.Value → Try J.Value
  set_last none last x current = gives current
  set_last (some old) last x current = J.set_member current last x

  -- A token that leads nowhere is passed over, and the walk goes on from the same value.
  unfoldable pub set_path : Bytes → List Bytes → J.Value → J.Value → Try J.Value
  unfolding set_last turn
  set_path token [] x current = set_last (J.find current token) token x current
  set_path token (t ∷ ts) x current = turn token current >>? elim [
    | element i child ↦ set_path t ts x child >>? λ child'. gives (J.set_element current i child')
    | member child ↦ set_path t ts x child >>? λ child'. J.set_member current token child'
    | nowhere ↦ set_path t ts x current
  ]

  erase_last : Option J.Value → Bytes → J.Value → Try J.Value
  erase_last none last current = gives current
  erase_last (some old) last current = J.erase_member current last

  -- Here a token that leads nowhere ends the walk, and nothing is erased.
  unfoldable pub unset_path : Bytes → List Bytes → J.Value → Try J.Value
  unfolding erase_last turn
  unset_path token [] current = erase_last (J.find current token) token current
  unset_path token (t ∷ ts) current = turn token current >>? elim [
    | element i child ↦ unset_path t ts child >>? λ child'. gives (J.set_element current i child')
    | member child ↦ unset_path t ts child >>? λ child'. J.set_member current token child'
    | nowhere ↦ gives current
  ]

  -- A key with a dot has at least one token.
  abbrev set_tokens : List Bytes → J.Value → J.Value → Try J.Value
  set_tokens [] x current = gives current
  set_tokens (t ∷ ts) x current = set_path t ts x current

  abbrev unset_tokens : List Bytes → J.Value → Try J.Value
  unset_tokens [] current = gives current
  unset_tokens (t ∷ ts) current = unset_path t ts current

  unfoldable pub set_dotted : Bytes → J.Value → J.Value → Try J.Value
  unfolding set_path
  set_dotted key x v = set_tokens (tokens_of key) x v

  unfoldable pub unset_dotted : Bytes → J.Value → Try J.Value
  unfolding unset_path
  unset_dotted key v = unset_tokens (tokens_of key) v
