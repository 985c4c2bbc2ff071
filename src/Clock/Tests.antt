-- ===== src/Clock/Tests.antt =====
-- A clock that is set up and read.
use myyima.Prelude.{◌≡◌, refl, none, some, arith, ◌%◌}
use myyima.Prelude.Int.{pos, ◌+ℤ◌, ◌-ℤ◌}
use myyima.Outcome.{ok, aborted, ◌>>=◌}
use myyima.Clock.{
  TimeVal, Clock, new_clock, checked, thousand, milliseconds, microseconds, initialize,
  microseconds-milliseconds, microseconds-initialize,
}

abbrev set_up : TimeVal
set_up = record { sec = 12; usec = 345678 }

abbrev later : TimeVal
later = record { sec = 13; usec = 1 }

abbrev running : Clock
running = record { msec_since_1900 = pos 2209000012000; initial_msec = pos 12345 }

reads_milliseconds : milliseconds (some later) running ≡ ok (pos 655)
unfolding milliseconds ◌-ℤ◌
reads_milliseconds = refl

reads_microseconds : microseconds (some later) running ≡ ok (pos 655001)
unfolding microseconds thousand ◌-ℤ◌
reads_microseconds = refl

fails : microseconds none running ≡ aborted
unfolding microseconds
fails = refl

microseconds-milliseconds_example : microseconds (some later) running ≡ (
    checked (some later) >>= λ t.
    milliseconds (some later) running >>= λ m. ok (thousand m +ℤ pos (t.usec % 1000)))
microseconds-milliseconds_example = microseconds-milliseconds (some later) running

microseconds-initialize_example :
    (initialize (some set_up) (some set_up) new_clock >>= microseconds (some later))
    ≡ ok (pos 655001)
microseconds-initialize_example = microseconds-initialize set_up set_up later (omega arith)
