-- ===== src/Node/Ids/Handlers.antt =====
-- Each handler of a node keeps the ids of the sessions, or puts a new one in front.
use myyima.Prelude.{ℕ, ◌≡◌, refl, false, List, arith, Option-cases, inl, inr}
use myyima.Prelude.Int.{ℤ, pos}
use myyima.Outcome.{ok}
use myyima.Messages.{Name, NptRange}
use myyima.Node.Session.{Session, Node, Effect, find_session_node}
use myyima.Node.Receive.{
  recv_describe, recv_setup, recv_play, recv_pause, recv_resume, recv_teardown,
}
use myyima.Node.Respond.{rsp_npt_range, rsp_play, rsp_teardown}
use myyima.Node.Session.{init, ready, playing, teardown}
use myyima.Node.Receive.{max_advanced_time}
use myyima.Node.Respond.{at_packet}
use myyima.Messages.{MovInfo, FlibError, NextRtpPktInfo}
use myyima.Node.Ids.{ids, ids-replace_first, count-find_first, Changes}

module _ (n n' : Node) (es : List Effect) where
  pub describe-Changes :
      (blank : Session) (random fd id : ℕ) (movie : Name) (addr : ℕ)
      → recv_describe blank random fd id movie addr n ≡ ok (n', es)
      → Changes n n'
  unfolding recv_describe
  describe-Changes blank random fd id movie addr h = elim (Option-cases (find_session_node id n)) [
    | inl e ↦ inr (inl (id, count-find_first id n.session_list e, ground (arith, e, h)))
    | inr (s, e) ↦ inl (ground (arith, e, h))
  ]

  pub recv_setup-ids :
      (fd id rtp rtcp : ℕ)
      → recv_setup fd id rtp rtcp n ≡ ok (n', es)
      → ids n'.session_list ≡ ids n.session_list
  unfolding recv_setup
  recv_setup-ids fd id rtp rtcp h = elim (Option-cases (find_session_node id n)) [
    | inl e ↦ absurd (cc (rw (e, recv_setup) at h))
    | inr (s, e) ↦
        let s' = record s {
          client_rtp_port = rtp;
          client_rtcp_port = rtcp;
          current_session_state = ready;
        } in
        ground (arith, e, h, ids-replace_first id s s' n.session_list e refl)
  ]

  pub recv_play-ids :
      (now : ℤ) (id : ℕ) (range : NptRange)
      → recv_play now id range n ≡ ok (n', es)
      → ids n'.session_list ≡ ids n.session_list
  unfolding recv_play
  recv_play-ids now id range h = elim (Option-cases (find_session_node id n)) [
    | inl e ↦ absurd (cc (rw (e, recv_play) at h))
    | inr (s, e) ↦
        let s' = record s {
          start_play_time = now;
          max_advanced_time = max_advanced_time;
          movie_end_handling_flg = false;
        } in
        ground (arith, e, h, ids-replace_first id s s' n.session_list e refl)
  ]

  pub recv_pause-ids :
      (id : ℕ) → recv_pause id n ≡ ok (n', es) → ids n'.session_list ≡ ids n.session_list
  unfolding recv_pause
  recv_pause-ids id h = elim (Option-cases (find_session_node id n)) [
    | inl e ↦ absurd (cc (rw (e, recv_pause) at h))
    | inr (s, e) ↦
        let s' = record s { current_session_state = ready } in
        ground (arith, e, h, ids-replace_first id s s' n.session_list e refl)
  ]

  pub recv_resume-ids :
      (now : ℤ) (id : ℕ)
      → recv_resume now id n ≡ ok (n', es)
      → ids n'.session_list ≡ ids n.session_list
  unfolding recv_resume
  recv_resume-ids now id h = elim (Option-cases (find_session_node id n)) [
    | inl e ↦ absurd (cc (rw (e, recv_resume) at h))
    | inr (s, e) ↦
        let s' = record s {
          current_session_state = playing;
          start_play_time = now;
          max_advanced_time = pos 0;
        } in
        ground (arith, e, h, ids-replace_first id s s' n.session_list e refl)
  ]

  pub recv_teardown-ids :
      (id crash : ℕ)
      → recv_teardown id crash n ≡ ok (n', es)
      → ids n'.session_list ≡ ids n.session_list
  unfolding recv_teardown
  recv_teardown-ids id crash h = elim (Option-cases (find_session_node id n)) [
    | inl e ↦ ground (arith, rw (e, recv_teardown) at h)
    | inr (s, e) ↦
        let s' = record s { crash_flg = crash; current_session_state = init } in
        ground (arith, e, h, ids-replace_first id s s' n.session_list e refl)
  ]

  pub rsp_npt_range-ids :
      (id : ℕ) (e' : FlibError) (range : NptRange) (info : MovInfo)
      → rsp_npt_range id e' range info n ≡ ok (n', es)
      → ids n'.session_list ≡ ids n.session_list
  unfolding rsp_npt_range
  rsp_npt_range-ids id e' range info h = elim (Option-cases (find_session_node id n)) [
    | inl e ↦ absurd (cc (rw (e, rsp_npt_range) at h))
    | inr (s, e) ↦
        let s' = record s { mov_info = info } in
        ground (arith, e, h, ids-replace_first id s s' n.session_list e refl)
  ]

  pub rsp_play-ids :
      (now : ℤ) (id : ℕ) (e' : FlibError) (pkt : NextRtpPktInfo)
      → rsp_play now id e' pkt n ≡ ok (n', es)
      → ids n'.session_list ≡ ids n.session_list
  unfolding rsp_play
  rsp_play-ids now id e' pkt h = elim (Option-cases (find_session_node id n)) [
    | inl e ↦ absurd (cc (rw (e, rsp_play) at h))
    | inr (s, e) ↦
        let s' = at_packet now pkt s in
        ground (arith, e, h, ids-replace_first id s s' n.session_list e refl)
  ]

  pub rsp_teardown-ids :
      (id : ℕ) (e' : FlibError)
      → rsp_teardown id e' n ≡ ok (n', es)
      → ids n'.session_list ≡ ids n.session_list
  unfolding rsp_teardown
  rsp_teardown-ids id e' h = elim (Option-cases (find_session_node id n)) [
    | inl e ↦ absurd (cc (rw (e, rsp_teardown) at h))
    | inr (s, e) ↦
        let s' = record s { current_session_state = teardown } in
        ground (arith, e, h, ids-replace_first id s s' n.session_list e refl)
  ]
