-- ===== src/Node/Count/Handlers.antt =====
-- Each handler of the node keeps the counter numOfPlayingSession right, if what it handles comes in
-- the order of the protocol.
use myyima.Prelude.{ℕ, ◌≡◌, true, false, List, not, arith, Option-cases, inl, inr}
use myyima.Prelude.Int.{ℤ, pos, -ℤ_parts}
use myyima.Outcome.{ok}
use myyima.Messages.{Name, NptRange, MovInfo, FlibError, NextRtpPktInfo}
use myyima.Node.Session.{init, ready, playing, teardown, Session, Node, Effect, find_session_node}
use myyima.Node.Receive.{
  recv_describe, recv_setup, recv_play, recv_pause, recv_resume, recv_teardown,
}
use myyima.Node.Respond.{rsp_npt_range, rsp_play, rsp_teardown}
use myyima.Node.Count.{IsCounted, serves, finishes, served-put_session, parts, of_parts}
use myyima.Node.Respond.{at_packet}
use myyima.Node.Receive.{max_advanced_time}

module _ (n : Node) (v : IsCounted n) where
  pub recv_setup-IsCounted :
      (fd id rtp rtcp : ℕ) (n' : Node) (es : List Effect)
      → not (serves id n) ≡ true
      → recv_setup fd id rtp rtcp n ≡ ok (n', es)
      → IsCounted n'
  unfolding recv_setup
  recv_setup-IsCounted fd id rtp rtcp n' es a h = elim (Option-cases (find_session_node id n)) [
    | inl e ↦ absurd (cc (rw (e, recv_setup) at h))
    | inr (s, e) ↦
        let s' = record s {
          client_rtp_port = rtp;
          client_rtcp_port = rtcp;
          current_session_state = ready;
        } in
        of_parts n' (ground (arith, h, e, a, parts n v, served-put_session id s s' n e))
  ]

  pub recv_play-IsCounted :
      (now : ℤ) (id : ℕ) (range : NptRange) (n' : Node) (es : List Effect)
      → recv_play now id range n ≡ ok (n', es)
      → IsCounted n'
  unfolding recv_play
  recv_play-IsCounted now id range n' es h = elim (Option-cases (find_session_node id n)) [
    | inl e ↦ absurd (cc (rw (e, recv_play) at h))
    | inr (s, e) ↦
        let s' = record s {
          start_play_time = now;
          max_advanced_time = max_advanced_time;
          movie_end_handling_flg = false;
        } in
        of_parts n' (ground (arith, h, e, parts n v, served-put_session id s s' n e))
  ]

  pub recv_pause-IsCounted :
      (id : ℕ) (n' : Node) (es : List Effect)
      → serves id n ≡ true
      → recv_pause id n ≡ ok (n', es)
      → IsCounted n'
  unfolding recv_pause
  recv_pause-IsCounted id n' es a h = elim (Option-cases (find_session_node id n)) [
    | inl e ↦ absurd (cc (rw (e, recv_pause) at h))
    | inr (s, e) ↦
        let s' = record s { current_session_state = ready } in
        of_parts n' (ground (arith, h, e, a, parts n v, served-put_session id s s' n e))
  ]

  pub recv_resume-IsCounted :
      (now : ℤ) (id : ℕ) (n' : Node) (es : List Effect)
      → recv_resume now id n ≡ ok (n', es)
      → IsCounted n'
  unfolding recv_resume
  recv_resume-IsCounted now id n' es h = elim (Option-cases (find_session_node id n)) [
    | inl e ↦ absurd (cc (rw (e, recv_resume) at h))
    | inr (s, e) ↦
        let s' = record s {
          current_session_state = playing;
          start_play_time = now;
          max_advanced_time = pos 0;
        } in
        of_parts n' (ground (arith, h, e, parts n v, served-put_session id s s' n e))
  ]

  pub rsp_npt_range-IsCounted :
      (id : ℕ) (e' : FlibError) (range : NptRange) (info : MovInfo) (n' : Node) (es : List Effect)
      → rsp_npt_range id e' range info n ≡ ok (n', es)
      → IsCounted n'
  unfolding rsp_npt_range
  rsp_npt_range-IsCounted id e' range info n' es h = elim (Option-cases (find_session_node id n)) [
    | inl e ↦ absurd (cc (rw (e, rsp_npt_range) at h))
    | inr (s, e) ↦
        let s' = record s { mov_info = info } in
        of_parts n' (ground (arith, h, e, parts n v, served-put_session id s s' n e))
  ]

  pub rsp_play-IsCounted :
      (now : ℤ) (id : ℕ) (e' : FlibError) (pkt : NextRtpPktInfo) (n' : Node) (es : List Effect)
      → not (serves id n) ≡ true
      → rsp_play now id e' pkt n ≡ ok (n', es)
      → IsCounted n'
  unfolding rsp_play
  rsp_play-IsCounted now id e' pkt n' es a h = elim (Option-cases (find_session_node id n)) [
    | inl e ↦ absurd (cc (rw (e, rsp_play) at h))
    | inr (s, e) ↦
        let s' = at_packet now pkt s in
        of_parts n' (ground (arith, h, e, a, parts n v, served-put_session id s s' n e))
  ]

  pub rsp_teardown-IsCounted :
      (id : ℕ) (e' : FlibError) (n' : Node) (es : List Effect)
      → not (serves id n) ≡ true
      → rsp_teardown id e' n ≡ ok (n', es)
      → IsCounted n'
  unfolding rsp_teardown
  rsp_teardown-IsCounted id e' n' es a h = elim (Option-cases (find_session_node id n)) [
    | inl e ↦ absurd (cc (rw (e, rsp_teardown) at h))
    | inr (s, e) ↦
        let s' = record s { current_session_state = teardown } in
        of_parts n' (ground (arith, h, e, a, parts n v, served-put_session id s s' n e))
  ]

  pub recv_teardown-IsCounted :
      (id crash : ℕ) (n' : Node) (es : List Effect)
      → not (finishes id n) ≡ true
      → recv_teardown id crash n ≡ ok (n', es)
      → IsCounted n'
  unfolding recv_teardown
  recv_teardown-IsCounted id crash n' es a h = elim (Option-cases (find_session_node id n)) [
    | inl e ↦ of_parts n' (ground (arith, rw (e, recv_teardown) at h, parts n v))
    | inr (s, e) ↦
        let s' = record s { crash_flg = crash; current_session_state = init } in
        of_parts n' (
          ground (
            arith,
            h,
            e,
            a,
            -ℤ_parts n.num_of_playing_session (pos 1),
            parts n v,
            served-put_session id s s' n e,
          ))
  ]

  pub recv_describe-IsCounted :
      (blank : Session) (random fd id : ℕ) (movie : Name) (addr : ℕ) (n' : Node) (es : List Effect)
      → recv_describe blank random fd id movie addr n ≡ ok (n', es)
      → IsCounted n'
  unfolding recv_describe
  recv_describe-IsCounted blank random fd id movie addr n' es h =
      of_parts n' (ground (arith, h, parts n v))
