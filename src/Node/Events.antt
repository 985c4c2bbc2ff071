-- ===== src/Node/Events.antt =====
-- What can happen to the shared state of a node, in any order: the threads of scheduler_sysmon.cc
-- interleave at these events. Where a handler changes a session's state and then, without a lock
-- over both, numOfPlayingSession, the two are events of their own. The second half of a turn of
-- play_session is two events: it looks at the state and writes the session later, under
-- curSessionState_mutex, which of the other threads TEARDOWN alone takes.
use myyima.Prelude.{◌≡◌, ℕ, Bool, true, Option, none, some, List, [], if◌then◌else◌}
use myyima.Prelude.Int.{ℤ}
use myyima.Outcome.{Outcome, ok}
use myyima.Messages.{NextRtpPktInfo, SysmonDMsg, FlibMsg}
use myyima.Flib.Cache.{Memory}
use myyima.Node.Session.{
  is_playing, Session, Node, Effect, find_session_node, put_session, settle_more, settle_less,
}
use myyima.Node.Receive.{sys_mon_recv}
use myyima.Node.Respond.{run_sysmond_rsp}
use myyima.Node.Scheduler.{Sent, sent, send_packet, finished, with_packet, pass_session}

-- A request on a socket; an answer of the file library; the scheduler with a session: the first
-- half of a turn, the look at its state in the second half, what Flib_getNextPacket gave it, and the
-- end of its visit; an update of numOfPlayingSession that a handler has left.
pub data Event : Type 0 where
  request : (blank : Session) (random : ℕ) (now : ℤ) (fd : ℕ) → SysmonDMsg → Event
  answer : (now : ℤ) → FlibMsg → Event
  send : (refusals : ℕ) (now after : ℤ) → Memory → (id : ℕ) → Event
  look : (id : ℕ) → Event
  fetch : (delivery : ℤ → ℕ → ℤ) → Option NextRtpPktInfo → Event
  pass : (id : ℕ) → Event
  more less : Event

-- The node after the first half of a turn.
abbrev pub apply_sent : ℕ → Node → Sent → Node × List Effect
apply_sent id n (sent mem seq s es) = (record (put_session id s n) { cmd_seq_no = seq }, es)
apply_sent id n _ = (n, [])

-- The session after the second half of a turn.
abbrev pub fetched : (ℤ → ℕ → ℤ) → Option NextRtpPktInfo → Session → Session
fetched delivery none s = finished s
fetched delivery (some pkt) s = with_packet delivery pkt s

-- The second look at the session's state in a turn: unless it plays the turn ends.
unfoldable pub looked : ℕ → Node → Node
looked id n = elim (find_session_node id n) [
  | none ↦ n
  | some s ↦ if is_playing s.current_session_state then record n { fetching = some id } else n
]

-- After Flib_getNextPacket the session is written without another look.
unfoldable pub fetch_end : ℕ → (ℤ → ℕ → ℤ) → Option NextRtpPktInfo → Node → Node
fetch_end id delivery got n = elim (find_session_node id n) [
  | none ↦ n
  | some s ↦ put_session id (fetched delivery got s) n
]

unfoldable pub step : Node → Event → Outcome (Node × List Effect)
step n (request blank random now fd m) = sys_mon_recv blank random now fd m n
step n (answer now m) = run_sysmond_rsp now m n
step n (send refusals now after mem id) = elim (find_session_node id n) [
  | none ↦ ok (n, [])
  | some s ↦ ok (apply_sent id n (send_packet refusals now after mem n.cmd_seq_no s))
]
step n (look id) = ok (looked id n, [])
step n (fetch delivery got) = ok (
  elim n.fetching [ none ↦ n | some id ↦ fetch_end id delivery got (record n { fetching = none }) ],
  [],
)
step n (pass id) = ok (pass_session id n, [])
step n more = ok (settle_more n, [])
step n less = ok (settle_less n, [])

-- The states that events lead to from `start`, if each of them is one that `allowed` lets pass.
pub data Reach (allowed : Node → Event → Bool) (start : Node) : Node → Type 0 where
  at_start : Reach allowed start start
  later :
      {n n' : Node} {es : List Effect} (e : Event)
      → Reach allowed start n
      → allowed n e ≡ true
      → step n e ≡ ok (n', es)
      → Reach allowed start n'
