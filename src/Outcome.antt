-- ===== src/Outcome.antt =====
-- How a call of the server's C code ends: it returns a value, the process ends through Assert,
-- ASSERT, FatalError or exit(), or the C code's behaviour is undefined (a read through a null
-- pointer, a function that falls off its end).
pub mod Loops
use mathlib.Core.Path.{◌≡◌, refl, ap, sym, ◌∙◌, subst}
use mathlib.Core.Logic.{◌≢◌, ◌⊎◌, inl, inr}
use myyima.Prelude.{
  Bool, true, false, if◌then◌else◌, ℕ, List, Option, none, some, leb, length, Bool-cases,
}

pub data Outcome {ℓ} (A : Type ℓ) : Type ℓ where
  ok : A → Outcome A
  aborted : Outcome A
  undefined : Outcome A

infixl 5 ◌>>=◌
abbrev pub ◌>>=◌ {ℓ κ} : {A : Type ℓ} {B : Type κ} → Outcome A → (A → Outcome B) → Outcome B
ok a >>= f = f a
aborted >>= f = aborted
undefined >>= f = undefined

-- A bind that returns has returned from both of its parts.
module _ {ℓ κ} {A : Type ℓ} {B : Type κ} where
  pub >>=-eq-ok :
      (m : Outcome A) (f : A → Outcome B) {b : B}
      → (m >>= f) ≡ ok b
      → (a : A) × (m ≡ ok a) × (f a ≡ ok b)
  >>=-eq-ok undefined f h = cc
  >>=-eq-ok aborted f h = cc
  >>=-eq-ok (ok a) f h = (a, refl, h)

module _ {ℓ} {A : Type ℓ} where
  abbrev returned : Outcome A → A → A
  returned undefined d = d
  returned aborted d = d
  returned (ok a) d = a

  pub ok-injective : {a b : A} → ok a ≡ ok b → a ≡ b
  ok-injective {a} h = ap (λ m. returned m a) h

  -- A property of one result holds of an equal one.
  pub of_ok {κ} : {a b : A} {m : Outcome A} (P : A → Type κ) → m ≡ ok a → m ≡ ok b → P a → P b
  of_ok P e h p = subst P (ok-injective (sym e ∙ h)) p

  pub aborted≢ok : {a : A} → aborted ≢ ok a
  aborted≢ok h = cc

  pub undefined≢ok : {a : A} → undefined ≢ ok a
  undefined≢ok h = cc

  pub undefined≢aborted : ◌≢◌ {A = Outcome A} undefined aborted
  undefined≢aborted h = cc

  -- What comes before an undefined step is passed over, or undefined itself.
  pub >>=-undefined {κ} :
      {B : Type κ} (m : Outcome A) → m ≢ aborted → ◌>>=◌ {B = B} m (λ a. undefined) ≡ undefined
  >>=-undefined undefined h = refl
  >>=-undefined aborted h = absurd (h refl)
  >>=-undefined (ok a) h = refl

  -- Behind a test that ends the process.
  pub guard-eq-ok :
      (b : Bool) (m : Outcome A) {a : A}
      → (if b then m else aborted) ≡ ok a
      → (b ≡ true) × (m ≡ ok a)
  guard-eq-ok true m h = (refl, h)
  guard-eq-ok false m h = absurd (aborted≢ok h)

  pub unless-eq-ok :
      (b : Bool) (m : Outcome A) {a : A}
      → (if b then aborted else m) ≡ ok a
      → (b ≡ false) × (m ≡ ok a)
  unless-eq-ok false m h = (refl, h)
  unless-eq-ok true m h = absurd (aborted≢ok h)

  -- The outcome of a choice.
  pub choice-eq-ok :
      (b : Bool) (m n : Outcome A) {a : A}
      → (if b then m else n) ≡ ok a
      → ((b ≡ true) × (m ≡ ok a)) ⊎ ((b ≡ false) × (n ≡ ok a))
  choice-eq-ok true m n h = inl (refl, h)
  choice-eq-ok false m n h = inr (refl, h)

-- A value that must be there, and otherwise is read through NULL.
abbrev pub deref {ℓ} : {A : Type ℓ} → Option A → Outcome A
deref none = undefined
deref (some a) = ok a

-- A text that is copied into a buffer of `n` bytes.
abbrev pub fits : ℕ → List ℕ → Outcome (List ℕ)
fits n s = if leb n (length s) then undefined else ok s

pub fits-eq-ok : (n : ℕ) (s t : List ℕ) → fits n s ≡ ok t → s ≡ t
fits-eq-ok n s t h = elim (Bool-cases (leb n (length s))) [
  | inl e ↦ absurd (undefined≢ok (rw e at h))
  | inr e ↦ ok-injective (rw e at h)
]
