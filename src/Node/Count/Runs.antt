-- ===== src/Node/Count/Runs.antt =====
-- The counter numOfPlayingSession over whole runs of a node, whatever the order of its threads.
use myyima.Prelude.{ℕ, suc, ◌≡◌, refl, false, some, List, [], ◌∷◌, arith}
use myyima.Prelude.Int.{pos}
use myyima.Outcome.{ok}
use myyima.Messages.{flib_teardown_req}
use myyima.Node.Session.{
  init, finish, Session, Node, Effect, to_flib, find_session_node, put_session,
}
use myyima.Node.Receive.{recv_teardown, flib_request}
use myyima.Node.Scheduler.{blocks_if_no_playing_session}
use myyima.Node.Count.{served_sessions, IsCounted, IsSettled, settled_count, served-put_session}

-- From a right count, with no update owed, a TEARDOWN of a session whose movie has ended takes it
-- from those that the count stands for, but leaves numOfPlayingSession one too high; so
-- blockIfNoPlayingSession does not block after it, also when no session is left that plays.
pub recv_teardown_overcounts :
    (n : Node) (id crash : ℕ) (s : Session)
    → IsCounted n
    → IsSettled n
    → find_session_node id n ≡ some s
    → s.current_session_state ≡ finish
    → (n' : Node) × (es : List Effect) × (recv_teardown id crash n ≡ ok (n', es))
      × (served_sessions n ≡ suc (served_sessions n'))
      × (n'.num_of_playing_session ≡ pos (suc (served_sessions n')))
      × (blocks_if_no_playing_session n' ≡ false)
unfolding recv_teardown blocks_if_no_playing_session
recv_teardown_overcounts n id crash s v settled e f =
    let s' = record s { crash_flg = crash; current_session_state = init } in
    (
      put_session id s' n,
      to_flib (flib_request id (flib_teardown_req id s.movie_end_handling_flg)) ∷ [],
      rw (e, recv_teardown) (rw f refl),
      ground (arith, f, served-put_session id s s' n e),
      ground (arith, settled_count n v settled, f, served-put_session id s s' n e),
      ground (arith, settled_count n v settled, f, served-put_session id s s' n e),
    )
