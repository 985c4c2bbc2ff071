-- ===== src/Clock.antt =====
-- The clock of the scheduler: SCH_SYSMOND/OS.cc. What gettimeofday answers is an argument, `none`
-- where it fails. A 64-bit number of microseconds does not run out, so the times have no bounds.
mod Tests
use myyima.Prelude.{ℕ, ◌+◌, ◌*◌, ◌-◌, ◌/◌, ◌%◌, ◌≤◌, ◌≡◌, refl, ap, Option, none, some, arith}
use myyima.Prelude.Int.{ℤ, pos, pos_part, neg_part, sub_ℕ, ◌+ℤ◌, ◌-ℤ◌, int_laws}
use myyima.Outcome.{Outcome, ok, aborted, ◌>>=◌}

-- struct timeval
pub record TimeVal : Type 0 where
  pub sec : ℕ
  pub usec : ℕ

pub record Clock : Type 0 where
  pub msec_since_1900 : ℤ
  pub initial_msec : ℤ

abbrev pub new_clock : Clock
new_clock = record { msec_since_1900 = pos 0; initial_msec = pos 0 }

-- ASSERT(theErr == 0)
abbrev pub checked : Option TimeVal → Outcome TimeVal
checked none = aborted
checked (some t) = ok t

-- A thousand times `a`.
unfoldable pub thousand : ℤ → ℤ
thousand a = sub_ℕ (pos_part a * 1000) (neg_part a * 1000)

thousand_parts :
    (a : ℤ) → pos_part (thousand a) + neg_part a * 1000 ≡ neg_part (thousand a) + pos_part a * 1000
unfolding thousand
thousand_parts a = ground arith

unfoldable pub milliseconds : Option TimeVal → Clock → Outcome ℤ
milliseconds reading c = do
  t ← checked reading
  ok (pos (t.sec * 1000 + t.usec / 1000) -ℤ c.initial_msec)

unfoldable pub microseconds : Option TimeVal → Clock → Outcome ℤ
microseconds reading c = do
  t ← checked reading
  ok (pos (t.sec * 1000000 + t.usec) -ℤ thousand c.initial_msec)

-- Initialize; `second` is what gettimeofday answers inside Milliseconds.
unfoldable pub initialize : Option TimeVal → Option TimeVal → Clock → Outcome Clock
unfolding milliseconds
initialize first second c = do
  t ← checked first
  let c₁ = record c { msec_since_1900 = pos ((24 * 60 * 60 * (70 * 365 + 17) + t.sec) * 1000) }
  m ← milliseconds second c₁
  ok (record c₁ { initial_msec = m })

abbrev pub in_microseconds : TimeVal → ℕ
in_microseconds t = t.sec * 1000000 + t.usec

-- At one reading of the clock Microseconds is a thousand times what Milliseconds is, and the
-- microseconds of the reading beyond its last millisecond; both abort where the reading fails.
pub microseconds-milliseconds :
    (reading : Option TimeVal) (c : Clock)
    → microseconds reading c ≡ (
        checked reading >>= λ t.
        milliseconds reading c >>= λ m. ok (thousand m +ℤ pos (t.usec % 1000)))
unfolding microseconds milliseconds
microseconds-milliseconds none c = refl
microseconds-milliseconds (some t) c = ap ok (omega (int_laws, thousand_parts))

-- Once Initialize has set up a new clock, with the reading `t` in Milliseconds, Microseconds at a
-- later reading is the time since `t`, and the microseconds of `t` beyond its last millisecond: it
-- is off by less than a millisecond.
pub microseconds-initialize :
    (first t later : TimeVal)
    → in_microseconds t ≤ in_microseconds later
    → (initialize (some first) (some t) new_clock >>= microseconds (some later))
      ≡ ok (pos (in_microseconds later - in_microseconds t + t.usec % 1000))
unfolding initialize microseconds milliseconds
microseconds-initialize first t later le = ap ok (omega (int_laws, thousand_parts, le))
