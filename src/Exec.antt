-- ===== src/Exec.antt =====
-- How a C++ function ends, and a monad for functions that change a state and may end early.
use anu_db.Base.{
  arith, ◌≡◌, refl, ◌⊎◌, inl, inr, Option, none, some, List, [], ◌∷◌, Bytes, if◌then◌else◌,
}
use anu_db.Status.{Status, is_ok}

-- `returns`: a value. `raises`: an exception with its what(). `crashes`: a null pointer or the end
-- iterator is dereferenced, which C++ leaves undefined. `stops`: the fuel of a loop ran out.
pub data Result {ℓ} (A : Type ℓ) : Type ℓ where
  returns : A → Result A
  raises : Bytes → Result A
  crashes : Result A
  stops : Result A

-- A call of a library that may throw.
pub data Try {ℓ} (A : Type ℓ) : Type ℓ where
  gives : A → Try A
  throws : Bytes → Try A

abbrev pub Exec : Type 0 → Type 0 → Type 0
Exec S A = S → Result A × S

abbrev pub and_then : {S A B : Type 0} → Result A × S → (A → Exec S B) → Result B × S
and_then (returns a, s) f = f a s
and_then (raises e, s) f = (raises e, s)
and_then (crashes, s) f = (crashes, s)
and_then (stops, s) f = (stops, s)

infixl 5 ◌>>=◌ ◌>>◌
abbrev pub ◌>>=◌ : {S A B : Type 0} → Exec S A → (A → Exec S B) → Exec S B
◌>>=◌ m f s = and_then (m s) f

abbrev pub ◌>>◌ : {S B : Type 0} → Exec S (Unit {0}) → Exec S B → Exec S B
m >> k = m >>= λ _. k

abbrev pub pure : {S A : Type 0} → A → Exec S A
pure a s = (returns a, s)

abbrev pub crash : {S A : Type 0} → Exec S A
crash s = (crashes, s)

abbrev pub lift : {S A : Type 0} → Try A → Exec S A
lift (gives a) s = (returns a, s)
lift (throws e) s = (raises e, s)

abbrev pub from_result : {S A : Type 0} → Result A → Exec S A
from_result r s = (r, s)

abbrev pub gets : {S A : Type 0} → (S → A) → Exec S A
gets f s = (returns (f s), s)

-- `if (!status.ok()) return status;`
abbrev pub unless_error : {S : Type 0} → Exec S Status → Exec S Status → Exec S Status
unless_error m k = m >>= λ status. if is_ok status then k else pure status

abbrev caught : {S A : Type 0} → Result A × S → (Bytes → Exec S A) → Result A × S
caught (returns a, s) f = (returns a, s)
caught (raises e, s) f = f e s
caught (crashes, s) f = (crashes, s)
caught (stops, s) f = (stops, s)

-- try { m } catch (const std::exception& e) { f }
abbrev pub try_catch : {S A : Type 0} → Exec S A → (Bytes → Exec S A) → Exec S A
try_catch m f s = caught (m s) f

-- A loop over a collection.
unfoldable pub for_each : {S A : Type 0} → List A → (A → Exec S (Unit {0})) → Exec S (Unit {0})
for_each [] f = pure tt
for_each (x ∷ xs) f = f x >> for_each xs f

infixl 5 ◌>>?◌
abbrev pub ◌>>?◌ : {A B : Type 0} → Try A → (A → Try B) → Try B
gives a >>? f = f a
throws e >>? f = throws e

-- A call of a library that replaces the state, or throws and leaves it.
abbrev replaced : {S : Type 0} → Try S → Exec S (Unit {0})
replaced (gives s') s = (returns tt, s')
replaced (throws e) s = (raises e, s)

abbrev pub replace : {S : Type 0} → (S → Try S) → Exec S (Unit {0})
replace f s = replaced (f s) s

-- A question to the state that may end early.
abbrev pub ask : {S A : Type 0} → (S → Result A) → Exec S A
ask f s = (f s, s)

-- The end iterator is not to be dereferenced.
abbrev pub or_crash : {S A : Type 0} → Option A → Exec S A
or_crash none s = (crashes, s)
or_crash (some a) s = (returns a, s)

-- Case lemmas that keep the equation.
pub Try-cases {ℓ} :
    {A : Type ℓ} (t : Try A) → ((a : A) × (t ≡ gives a)) ⊎ ((m : Bytes) × (t ≡ throws m))
Try-cases (gives a) = inl (a, refl)
Try-cases (throws m) = inr (m, refl)

-- What a sequence of two calls that returned went through.
pub and_then-returns :
    {S A B : Type 0} (p : Result A × S) (f : A → Exec S B) (b : B) (s' : S)
    → and_then p f ≡ (returns b, s')
    → (a : A) × (s1 : S) × (p ≡ (returns a, s1)) × (f a s1 ≡ (returns b, s'))
and_then-returns (returns a, s1) f b s' r = (a, s1, refl, r)
and_then-returns (raises e, s1) f b s' r = absurd (ground arith)
and_then-returns (crashes, s1) f b s' r = absurd (ground arith)
and_then-returns (stops, s1) f b s' r = absurd (ground arith)

-- A call of a library that returned gave its value and left the state.
pub lift-returns :
    {S A : Type 0} (t : Try A) (a : A) (s s' : S)
    → lift t s ≡ (returns a, s')
    → (t ≡ gives a) × (s ≡ s')
lift-returns (gives x) a s s' r = (ground arith, ground arith)
lift-returns (throws m) a s s' r = absurd (ground arith)
