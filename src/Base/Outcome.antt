-- ===== src/Base/Outcome.antt =====
-- Code that may throw, and loops that run on fuel. A state passes through the calls.
use mathlib.Core.Path.{◌≡◌, refl}
use mathlib.Core.Bool.{Bool, true, false}

-- `thrown` is a C++ exception that leaves the function; `stuck` is a loop that used up its fuel.
pub data Outcome {ℓ} (A : Type ℓ) : Type ℓ where
  done : A → Outcome A
  thrown : Outcome A
  stuck : Outcome A

-- A computation on a state, as a coroutine or a method that changes its object.
abbrev pub M : Type 0 → Type 0 → Type 0
M S A = S → Outcome (A × S)

abbrev pub pure : {S A : Type 0} → A → M S A
pure a s = done (a, s)

abbrev pub throw : {S A : Type 0} → M S A
throw s = thrown

abbrev pub after {ℓ κ} : {A : Type ℓ} {B : Type κ} → Outcome A → (A → Outcome B) → Outcome B
after (done a) f = f a
after thrown f = thrown
after stuck f = stuck

infixl 5 ◌>>=◌ ◌>>◌
abbrev pub ◌>>=◌ : {S A B : Type 0} → M S A → (A → M S B) → M S B
◌>>=◌ m f s = after (m s) (λ r. f r.0 r.1)

abbrev pub ◌>>◌ : {S B : Type 0} → M S (Unit {0}) → M S B → M S B
m >> k = m >>= λ _. k

abbrev pub get : {S : Type 0} → M S S
get s = done (s, s)

abbrev pub modify : {S : Type 0} → (S → S) → M S (Unit {0})
modify f s = done (tt, f s)

abbrev pub is_stuck {ℓ} : {A : Type ℓ} → Outcome A → Bool
is_stuck stuck = true
is_stuck (done a) = false
is_stuck thrown = false

-- A computation without a state, within one that has a state.
abbrev pub lift : {S A : Type 0} → Outcome A → M S A
lift o s = after o (λ a. done (a, s))

-- A call that returns was made after one that returned.
pub after-done {ℓ κ} :
    {A : Type ℓ} {B : Type κ} (o : Outcome A) (f : A → Outcome B) (b : B)
    → after o f ≡ done b
    → (a : A) × (o ≡ done a) × (f a ≡ done b)
after-done (done a) f b e = (a, refl, e)
after-done thrown f b e = absurd (cc e)
after-done stuck f b e = absurd (cc e)

pub same_state {ℓ κ} :
    {A : Type ℓ} {S : Type κ} {a b : A} {s s' : S} (o : Outcome (A × S))
    → o ≡ done (a, s)
    → o ≡ done (b, s')
    → s ≡ s'
same_state o e e' = cc (e, e')

pub done-injective {ℓ} : {A : Type ℓ} {a b : A} → done a ≡ done b → a ≡ b
done-injective e = cc e

pub after-after {ℓ κ μ} :
    {A : Type ℓ} {B : Type κ} {D : Type μ} (o : Outcome A) (f : A → Outcome B) (g : B → Outcome D)
    → after (after o f) g ≡ after o (λ a. after (f a) g)
after-after (done a) f g = refl
after-after thrown f g = refl
after-after stuck f g = refl
