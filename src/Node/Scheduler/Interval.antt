-- ===== src/Node/Scheduler/Interval.antt =====
-- How long the scheduler sleeps: calculateMinInterval of scheduler_sysmon.cc against the test by
-- which play_session sends a packet.
use myyima.Prelude.{ℕ, ◌≡◌, Bool, false, Option, none, some, ◌&&◌, if◌then◌else◌, count}
use myyima.Prelude.Int.{ℤ, ◌-ℤ◌, ◌≤ℤ◌, ltb_ℤ, leb_ℤ}
use myyima.Node.Session.{Session, Node, is_playing}
use myyima.Node.Scheduler.{is_due, send_out_time, not_below_zero}

-- `t` is not after the time of a session that plays.
abbrev IsBound : ℤ → Session → Type 0
IsBound t s = (if is_playing s.current_session_state then t else send_out_time s) ≤ℤ send_out_time s

abbrev BelowBest : ℤ → Option ℤ → Type 0
BelowBest t none = Unit {0}
BelowBest t (some b) = t ≤ℤ b

-- A session that plays and whose time is `t`.
abbrev is_at : ℤ → Session → Bool
is_at t s =
    is_playing s.current_session_state && (leb_ℤ t (send_out_time s) && leb_ℤ (send_out_time s) t)

abbrev pub plays : Session → Bool
plays s = is_playing s.current_session_state

-- The sessions that play whose packet play_session sends, if it comes to them at the time `now`.
abbrev pub due : ℤ → Session → Bool
due now s = plays s && is_due now s

abbrev pub due_sessions : ℤ → Node → ℕ
due_sessions now n = count (due now) n.session_list

-- A session that plays and whose last packet left after its last PLAY or RESUME.
abbrev pub IsCurrent : Session → Type 0
IsCurrent s = (plays s && ltb_ℤ s.previous_rtp_pkt_sent_out_time s.start_play_time) ≡ false

-- The time that the scheduler sleeps, up to the time `m`.
abbrev sleep : ℤ → ℤ → ℤ
sleep now m = not_below_zero (m -ℤ now)
