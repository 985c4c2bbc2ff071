-- ===== src/Node/Respond.antt =====
-- The answers of the file library: SysMonD_rsp::run_sysMonD_rsp of scheduler_sysmon.cc.
use myyima.Prelude.{ℕ, none, some, List, [], ◌∷◌, ◌==◌, if◌then◌else◌}
use myyima.Prelude.Int.{ℤ}
use myyima.Outcome.{Outcome, ok, aborted}
use myyima.Messages.{
  NptRange, MovInfo, SysmonDerror, sysmond_ok, sysmond_fail, describe_resp, play_resp,
  teardown_resp, NextRtpPktInfo, FlibMsg, FlibError, flib_ok, flib_fail, get_npt_range_resp,
  flib_play_resp, flib_teardown_resp,
}
use myyima.Node.Session.{
  playing, teardown, Session, Node, Effect, to_rtsps, find_session_node, put_session, owe_one_more,
}

-- (SysmonDerror) of a FLIBerror: the two enumerations have the same order.
abbrev pub to_sysmon_error : FlibError → SysmonDerror
to_sysmon_error flib_ok = sysmond_ok
to_sysmon_error flib_fail = sysmond_fail

-- FLIB_GET_NPT_RANGE_RESP
unfoldable pub rsp_npt_range :
    ℕ → FlibError → NptRange → MovInfo → Node → Outcome (Node × List Effect)
rsp_npt_range id e range info n = elim (find_session_node id n) [
  | none ↦ aborted
  | some s ↦ ok (
    record (put_session id (record s { mov_info = info }) n) { rsp_npt_range = range },
    to_rtsps s.rtsps_fd (record {
      cmd_error = to_sysmon_error e;
      u = describe_resp s.session_id range info.duration_in_seconds;
    })
        ∷ [],
  )
]

-- The session with the packet that the file library has handed out.
abbrev pub at_packet : ℤ → NextRtpPktInfo → Session → Session
at_packet now pkt s = record s {
  next_rtp_pkt_p = pkt.next_rtp_pkt_p;
  next_rtp_pkt_seq_no = pkt.next_rtp_pkt_seq_no;
  next_rtp_pkt_size = pkt.next_rtp_pkt_size;
  last_rtp_pkt_of_block_flg = pkt.last_pkt_flg;
  block_ptr = pkt.block_ptr;
  next_rtp_pkt_sent_out_time = now;
  current_session_state = playing;
}

-- FLIB_PLAY_RESP, up to the update of the number of sessions. The range in the response is not set: it is the one that the same buffer had
-- for the last FLIB_GET_NPT_RANGE_RESP.
unfoldable pub rsp_play : ℤ → ℕ → FlibError → NextRtpPktInfo → Node → Outcome (Node × List Effect)
rsp_play now id e pkt n = elim (find_session_node id n) [
  | none ↦ aborted
  | some s ↦ ok (
    owe_one_more (put_session id (at_packet now pkt s) n),
    to_rtsps s.rtsps_fd (record {
      cmd_error = to_sysmon_error e;
      u = play_resp s.session_id n.rsp_npt_range pkt.next_rtp_pkt_seq_no pkt.next_rtp_pkt_timestamp;
    })
        ∷ [],
  )
]

-- FLIB_TEARDOWN_RESP: a client that is gone gets no response.
unfoldable pub rsp_teardown : ℕ → FlibError → Node → Outcome (Node × List Effect)
rsp_teardown id e n = elim (find_session_node id n) [
  | none ↦ aborted
  | some s ↦ ok (
    put_session id (record s { current_session_state = teardown }) n,
    if s.crash_flg == 1
        then []
        else to_rtsps s.rtsps_fd
            (record { cmd_error = to_sysmon_error e; u = teardown_resp s.session_id })
          ∷ [],
  )
]

-- One round of run_sysMonD_rsp. The field cmdSeqNo holds the session id.
unfoldable pub run_sysmond_rsp : ℤ → FlibMsg → Node → Outcome (Node × List Effect)
unfolding rsp_npt_range rsp_play rsp_teardown
run_sysmond_rsp now m n = elim m.u [
  | get_npt_range_resp range info ↦ rsp_npt_range m.cmd_seq_no m.cmd_error range info n
  | flib_play_resp pkt ↦ rsp_play now m.cmd_seq_no m.cmd_error pkt n
  | flib_teardown_resp ↦ rsp_teardown m.cmd_seq_no m.cmd_error n
  | _ ↦ ok (n, [])
]
