-- ===== src/Node/Count.antt =====
-- The counter numOfPlayingSession of scheduler_sysmon.cc against the list of sessions: a session
-- counts from the answer to its PLAY until it pauses or is torn down, also after its movie's end.
pub mod Handlers
pub mod Runs
pub mod Race
use myyima.Prelude.{
  ℕ, suc, ◌+◌, ◌≡◌, refl, ap, Bool, true, false, Option, none, some, List, [], ◌∷◌, not, arith,
  if◌then◌else◌, total, total-replace_first, total-remove_first, Option-cases, inl, inr,
}
use myyima.Prelude.Int.{
  ℤ, pos, pos_part, neg_part, ◌+ℤ◌, ◌-ℤ◌, int_laws, +ℤ_parts, -ℤ_parts, eq_of_parts,
}
use myyima.Outcome.{Outcome, ok, ok-injective, of_ok}
use myyima.Messages.{
  Name, NptRange, MovInfo, FlibError, NextRtpPktInfo, SysmonDMsg, SysmonDinfo, FlibMsg, FlibInfo,
  setup_req, pause_req, teardown_req, flib_play_resp, flib_teardown_resp,
}
use myyima.Node.Session.{
  SessionState, is_playing, init, ready, playing, teardown, finish, Session, Node, Effect, has_id,
  find_session_node, put_session, one_more_playing, one_less_playing,
}
use myyima.Node.Receive.{
  sys_mon_recv, recv_options, recv_describe, recv_setup, recv_play, recv_pause, recv_resume,
  recv_teardown,
}
use myyima.Node.Respond.{run_sysmond_rsp, rsp_npt_range, rsp_play, rsp_teardown}
use myyima.Node.Scheduler.{Sent, send_packet, pass_session}
use myyima.Node.Events.{Event, request, answer, send, fetch, pass, step, Reach, at_start, later}

-- A session that plays, or has played to the end.
abbrev pub is_served : SessionState → Bool
is_served SessionState.playing = true
is_served SessionState.finish = true
is_served _ = false

abbrev pub served : Session → ℕ
served s = if is_served s.current_session_state then 1 else 0

-- How many there are.
abbrev pub served_sessions : Node → ℕ
served_sessions n = total served n.session_list

-- With the updates that are owed, the counter is right.
pub record IsCounted (n : Node) : Type 0 where
  pub counted : n.num_of_playing_session +ℤ pos n.owed_more ≡ pos (served_sessions n + n.owed_less)

-- No thread owes an update.
pub record IsSettled (n : Node) : Type 0 where
  pub no_more : n.owed_more ≡ 0
  pub no_less : n.owed_less ≡ 0

-- The same, for `omega`.
abbrev pub Parts : Node → Type 0
Parts n =
    pos_part n.num_of_playing_session + n.owed_more
    ≡ neg_part n.num_of_playing_session + served_sessions n + n.owed_less

pub parts : (n : Node) → IsCounted n → Parts n
parts n v =
    let e = v.counted in
    omega (arith, ap pos_part e, ap neg_part e, +ℤ_parts n.num_of_playing_session (pos n.owed_more))

pub of_parts : (n : Node) → Parts n → IsCounted n
of_parts n h = record {
  counted =
      eq_of_parts (n.num_of_playing_session +ℤ pos n.owed_more)
        (pos (served_sessions n + n.owed_less))
        (omega (arith, h, +ℤ_parts n.num_of_playing_session (pos n.owed_more)));
}

pub settled_count :
    (n : Node) → IsCounted n → IsSettled n → n.num_of_playing_session ≡ pos (served_sessions n)
settled_count n v s =
    eq_of_parts n.num_of_playing_session (pos (served_sessions n))
      (omega (arith, parts n v, s.no_more, s.no_less))

-- Whether the session `id` is served; a session that is not there is not.
abbrev pub serves : ℕ → Node → Bool
serves id n = elim (find_session_node id n) [
  | none ↦ false
  | some s ↦ is_served s.current_session_state
]

abbrev pub is_finish : SessionState → Bool
is_finish SessionState.finish = true
is_finish _ = false

abbrev pub finishes : ℕ → Node → Bool
finishes id n = elim (find_session_node id n) [
  | none ↦ false
  | some s ↦ is_finish s.current_session_state
]

-- The requests that a client sends in the order of the protocol: no SETUP of a session that plays,
-- PAUSE only of one that does, no TEARDOWN of one whose movie has ended.
abbrev pub expected_request : Node → SysmonDinfo → Bool
expected_request n (setup_req id rtp rtcp) = not (serves id n)
expected_request n (pause_req id) = serves id n
expected_request n (teardown_req id crash) = not (finishes id n)
expected_request n _ = true

-- The answers of the file library to a PLAY of a session that does not play yet, and to a TEARDOWN
-- of one that has stopped.
abbrev pub expected_answer : Node → ℕ → FlibInfo → Bool
expected_answer n id (flib_play_resp pkt) = not (serves id n)
expected_answer n id flib_teardown_resp = not (serves id n)
expected_answer n id _ = true

-- The session that play_session has looked at still plays when it is written.
abbrev pub plays_still : Option Session → Bool
plays_still none = true
plays_still (some s) = is_playing s.current_session_state

abbrev pub expected_fetch : Node → Option ℕ → Bool
expected_fetch n none = true
expected_fetch n (some id) = plays_still (find_session_node id n)

abbrev pub is_expected : Node → Event → Bool
is_expected n (request blank random now fd m) = expected_request n m.u
is_expected n (answer now m) = expected_answer n m.cmd_seq_no m.u
is_expected n (fetch delivery got) = expected_fetch n n.fetching
is_expected n _ = true

pub served-put_session :
    (id : ℕ) (s s' : Session) (n : Node)
    → find_session_node id n ≡ some s
    → served_sessions (put_session id s' n) + served s ≡ served_sessions n + served s'
served-put_session id s s' n e = total-replace_first served (has_id id) s' s n.session_list e
