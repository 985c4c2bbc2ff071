-- ===== src/Node/Count/Race.antt =====
-- PAUSE of scheduler_sysmon.cc against the end of a movie in play_session: PAUSE does not take
-- curSessionState_mutex.
use myyima.Prelude.{
  ℕ, ◌≡◌, refl, Bool, true, none, some, [], ◌∷◌, arith, find_first-replace_first, find_first-some,
}
use myyima.Prelude.Int.{ℤ, pos, ◌+ℤ◌, +ℤ_parts, -ℤ_parts, eq_of_parts}
use myyima.Outcome.{ok}
use myyima.Messages.{sysmond_ok, pause_req, pause_resp}
use myyima.Node.Session.{
  ready, playing, is_playing, Session, Node, to_rtsps, has_id, find_session_node, put_session,
  owe_one_less, one_less_playing, settle_less,
}
use myyima.Node.Receive.{sys_mon_recv, recv_pause, response}
use myyima.Node.Scheduler.{finished}
use myyima.Node.Events.{
  Event, request, look, fetch, less, looked, fetch_end, step, Reach, at_start, later,
}
use myyima.Node.Count.{IsCounted, IsSettled, settled_count, served_sessions, served-put_session}

-- Any event may happen.
abbrev pub anything : Node → Event → Bool
anything n e = true

module _ (n : Node) (id : ℕ) (s : Session) (e : find_session_node id n ≡ some s) where
  abbrev pub paused : Session
  paused = record s { current_session_state = ready }

  abbrev looked_at : Node
  looked_at = record n { fetching = some id }

  abbrev owing : Node
  owing = owe_one_less (put_session id paused looked_at)

  abbrev settled : Node
  settled = one_less_playing (put_session id paused looked_at)

  abbrev pub ended : Node
  ended = put_session id (finished paused) (record settled { fetching = none })

  found_again : find_session_node id settled ≡ some paused
  found_again =
      find_first-replace_first (has_id id) paused s n.session_list e
        (find_first-some (has_id id) s n.session_list e)

  look_runs : is_playing s.current_session_state ≡ true → step n (look id) ≡ ok (looked_at, [])
  unfolding step looked
  look_runs p = ground (arith, e, p)

  abbrev pause : Event
  pause = request s 0 (pos 0) 0 (record { cmd_error = sysmond_ok; u = pause_req id })

  pause_runs :
      step looked_at pause
      ≡ ok (owing, to_rtsps s.rtsps_fd (response (pause_resp s.session_id)) ∷ [])
  unfolding step sys_mon_recv recv_pause
  pause_runs = ground (arith, e)

  less_runs : step owing less ≡ ok (settled, [])
  unfolding step settle_less
  less_runs = refl

  fetch_runs : (delivery : ℤ → ℕ → ℤ) → step settled (fetch delivery none) ≡ ok (ended, [])
  unfolding step fetch_end
  fetch_runs delivery = ground (arith, found_again)

  -- The run: play_session looks at the session, which plays; PAUSE; the end of the movie.
  run : (delivery : ℤ → ℕ → ℤ) → is_playing s.current_session_state ≡ true → Reach anything n ended
  run delivery p =
      later {n = settled} (fetch delivery none)
        (later {n = owing} less
          (later {n = looked_at} pause (later {n = n} (look id) at_start refl (look_runs p)) refl
            pause_runs)
          refl less_runs)
        refl (fetch_runs delivery)

  -- From a right count, with no update owed, for a session in the list that plays: there is a run in
  -- which a PAUSE comes between the look of play_session at the session's state and the end of its
  -- movie, and after which no update is owed, the session has finished, and numOfPlayingSession is
  -- one too low.
  pub fetch_after_pause :
      IsCounted n
      → IsSettled n
      → s.current_session_state ≡ playing
      → (n' : Node) × Reach anything n n'
        × IsSettled n'
        × (find_session_node id n' ≡ some (finished paused))
        × (n'.num_of_playing_session +ℤ pos 1 ≡ pos (served_sessions n'))
  fetch_after_pause v w p = (
    ended,
    run (λ start ts. start) (rw p refl),
    record { no_more = w.no_more; no_less = w.no_less },
    find_first-replace_first (has_id id) (finished paused) paused settled.session_list found_again
        (find_first-some (has_id id) s n.session_list e),
    eq_of_parts (ended.num_of_playing_session +ℤ pos 1) (pos (served_sessions ended)) (
        ground (
          arith,
          p,
          settled_count n v w,
          served-put_session id s paused n e,
          served-put_session id paused (finished paused) settled found_again,
          +ℤ_parts ended.num_of_playing_session (pos 1),
          -ℤ_parts n.num_of_playing_session (pos 1),
        )),
  )
