-- ===== src/Outcome/Loops.antt =====
-- A loop of C as steps, run on fuel.
use myyima.Prelude.{ℕ, zero, suc, ◌<◌, ◌≡◌, ◌≢◌, refl, arith}
use myyima.Outcome.{Outcome, ok, aborted, undefined, ◌>>=◌}

-- What a round of the loop does: another one follows, or the loop has ended, or the function that
-- it stands in returns an error. `starved` is for a loop inside the round that has run out of fuel.
pub data Next {ℓ} (S : Type ℓ) : Type ℓ where
  again : S → Next S
  stop : S → Next S
  give_up : Next S
  starved : Next S

pub data Ended {ℓ} (S : Type ℓ) : Type ℓ where
  ended : S → Ended S
  gave_up : Ended S
  no_fuel : Ended S

module _ {ℓ} {S : Type ℓ} where
  abbrev pub go_on : (S → Outcome (Ended S)) → Next S → Outcome (Ended S)
  go_on f (again s) = f s
  go_on f (stop s) = ok (ended s)
  go_on f give_up = ok gave_up
  go_on f starved = ok no_fuel

  unfoldable pub loop : (S → Outcome (Next S)) → ℕ → S → Outcome (Ended S)
  loop step zero s = ok no_fuel
  loop step (suc k) s = step s >>= λ n. go_on (loop step k) n

  -- A round that goes on makes a number smaller, and no loop inside it has run out of fuel.
  abbrev pub Shrinks : (S → ℕ) → S → Next S → Type 0
  Shrinks size s (again s') = size s' < size s
  Shrinks size s (stop s') = Unit {0}
  Shrinks size s give_up = Unit {0}
  Shrinks size s starved = Path ℕ 0 1

  next-ends :
      (f : S → Outcome (Ended S)) (size : S → ℕ) (s : S) (o : Outcome (Next S))
      → ((n : Next S) → o ≡ ok n → Shrinks size s n)
      → ((s' : S) → size s' < size s → f s' ≢ ok no_fuel)
      → (o >>= λ n. go_on f n) ≢ ok no_fuel
  next-ends f size s undefined less more h = cc
  next-ends f size s aborted less more h = cc
  next-ends f size s (ok (again s')) less more h = more s' (less (again s') refl) h
  next-ends f size s (ok (stop s')) less more h = cc
  next-ends f size s (ok give_up) less more h = cc
  next-ends f size s (ok starved) less more h = cc (less starved refl)

  -- A loop whose rounds make a number smaller ends, if it has more fuel than that number at its
  -- start.
  pub loop-ends :
      (step : S → Outcome (Next S)) (size : S → ℕ)
      → ((s : S) (n : Next S) → step s ≡ ok n → Shrinks size s n)
      → (k : ℕ) (s : S) → size s < k
      → loop step k s ≢ ok no_fuel
  unfolding loop
  loop-ends step size less zero s h = elim h [ ]
  loop-ends step size less (suc k) s h =
      next-ends (loop step k) size s (step s) (less s)
        (λ s' small. loop-ends step size less k s' (omega arith))
