-- ===== src/Node/Receive.antt =====
-- The requests of the RTSP server: SysMonD_w::sysMon_recv of scheduler_sysmon.cc, one function for
-- each case of its switch. `fd` is the socket that a request came from and `now` the clock.
use myyima.Prelude.{
  ℕ, ◌+◌, ◌^◌, ◌%◌, Bool, true, false, none, some, List, [], ◌∷◌, take, ◌||◌, ◌==◌, if◌then◌else◌,
}
use myyima.Prelude.Int.{ℤ, pos}
use myyima.Outcome.{Outcome, ok, aborted, undefined}
use myyima.Messages.{
  Name, null, NptRange, SysmonDinfo, FlibInfo, SysmonDMsg, sysmond_ok, options_req, options_resp,
  describe_req, setup_req, setup_resp, play_req, pause_req, pause_resp, resume_req, resume_resp,
  teardown_req, FlibMsg, flib_ok, get_npt_range_req, flib_play_req, flib_teardown_req,
}
use myyima.Node.Session.{
  init, ready, playing, is_playing, is_ready, Session, Node, Effect, to_rtsps, to_flib,
  find_session_node, put_session, owe_one_more, owe_one_less, one_less_playing, no_port, no_number,
  no_time,
}
use myyima.Node.Rtp.{ntohl}

-- MAX_MOVIE_NAME_LEN, MAX_ADVANCED_TIME, BASE_PORT_NUMBER, SERVER_RTP_PORT_NO and SERVER_RTCP_PORT_NO
abbrev pub max_movie_name_len : ℕ
max_movie_name_len = 256

abbrev pub max_advanced_time : ℤ
max_advanced_time = pos 100000

abbrev pub base_port_number : ℕ
base_port_number = 50000

abbrev pub server_rtp_port_no : ℕ
server_rtp_port_no = base_port_number + 3

abbrev pub server_rtcp_port_no : ℕ
server_rtcp_port_no = base_port_number + 4

-- isANewSessionID
abbrev pub is_a_new_session_id : ℕ → Node → Bool
is_a_new_session_id id n = elim (find_session_node id n) [ none ↦ true | some s ↦ false ]

-- A message for the file library. What stands in its field cmdError is not set, and not read.
abbrev pub flib_request : ℕ → FlibInfo → FlibMsg
flib_request id u = record { cmd_seq_no = id; cmd_error = flib_ok; u = u }

abbrev pub response : SysmonDinfo → SysmonDMsg
response u = record { cmd_error = sysmond_ok; u = u }

-- SYSMOND_RTSP_OPTIONS_REQ
unfoldable pub recv_options : ℕ → ℕ → Node → Outcome (Node × List Effect)
recv_options fd id n = ok (n, to_rtsps fd (response (options_resp id)) ∷ [])

-- The session that SYSMOND_RTSP_DESCRIBE_REQ makes. `blank` is what stands in the local variable
-- sessionObj, and `random` what rand() returns.
abbrev pub new_session : Session → ℕ → ℕ → ℕ → Name → ℕ → Session
new_session blank random fd id movie addr = record blank {
  session_id = id;
  rtsps_fd = fd;
  mov_name = take max_movie_name_len movie;
  client_rtp_port = no_port;
  client_rtcp_port = no_port;
  client_ip_addr = ntohl addr;
  current_session_state = init;
  next_rtp_pkt_p = null;
  next_rtp_pkt_seq_no = no_number;
  next_rtp_pkt_size = no_number;
  next_rtp_pkt_sent_out_time = no_time;
  last_rtp_pkt_of_block_flg = false;
  movie_end_handling_flg = false;
  block_ptr = null;
  start_play_time = no_time;
  previous_rtp_pkt_seq_no = no_number;
  previous_rtp_pkt_sent_out_time = no_time;
  ssrc = random % 2 ^ 32;
}

-- SYSMOND_RTSP_DESCRIBE_REQ: a new session is put in front, and the file library is asked; for a
-- session that is there nothing happens.
unfoldable pub recv_describe : Session → ℕ → ℕ → ℕ → Name → ℕ → Node → Outcome (Node × List Effect)
recv_describe blank random fd id movie addr n =
    if is_a_new_session_id id n
    then ok (
      record n { session_list = new_session blank random fd id movie addr ∷ n.session_list },
      to_flib (flib_request id (get_npt_range_req (take max_movie_name_len movie))) ∷ [],
    )
    else ok (n, [])

-- SYSMOND_RTSP_SETUP_REQ
unfoldable pub recv_setup : ℕ → ℕ → ℕ → ℕ → Node → Outcome (Node × List Effect)
recv_setup fd id rtp rtcp n = elim (find_session_node id n) [
  | none ↦ aborted
  | some s ↦
      if s.rtsps_fd == fd
      then ok (
        put_session id
            (record s {
              client_rtp_port = rtp;
              client_rtcp_port = rtcp;
              current_session_state = ready;
            })
            n,
        to_rtsps fd
              (response (setup_resp s.session_id server_rtp_port_no server_rtcp_port_no s.ssrc))
            ∷ [],
      )
      else aborted
]

-- SYSMOND_RTSP_PLAY_REQ. Without a session it writes through the end of the list.
unfoldable pub recv_play : ℤ → ℕ → NptRange → Node → Outcome (Node × List Effect)
recv_play now id range n = elim (find_session_node id n) [
  | none ↦ undefined
  | some s ↦ ok (
    put_session id
        (record s {
          start_play_time = now;
          max_advanced_time = max_advanced_time;
          movie_end_handling_flg = false;
        })
        n,
    to_flib (flib_request id (flib_play_req id (take max_movie_name_len s.mov_name) range)) ∷ [],
  )
]

-- SYSMOND_RTSP_PAUSE_REQ, up to the update of the number of sessions, which falls whatever the
-- session was doing.
unfoldable pub recv_pause : ℕ → Node → Outcome (Node × List Effect)
recv_pause id n = elim (find_session_node id n) [
  | none ↦ undefined
  | some s ↦ ok (
    owe_one_less (put_session id (record s { current_session_state = ready }) n),
    to_rtsps s.rtsps_fd (response (pause_resp s.session_id)) ∷ [],
  )
]

-- SYSMOND_RTSP_RESUME_REQ, up to the update of the number of sessions.
unfoldable pub recv_resume : ℤ → ℕ → Node → Outcome (Node × List Effect)
recv_resume now id n = elim (find_session_node id n) [
  | none ↦ undefined
  | some s ↦
      let s' = record s {
        current_session_state = playing;
        start_play_time = now;
        max_advanced_time = pos 0;
      } in
      let n' = put_session id s' n in
      if is_ready s.current_session_state || is_playing s.current_session_state
      then ok (
        if is_ready s.current_session_state then owe_one_more n' else n',
        to_rtsps s.rtsps_fd (response (resume_resp s.session_id)) ∷ [],
      )
      else aborted
]

-- SYSMOND_RTSP_TEARDOWN_REQ, which holds curSessionState_mutex over the update and the change of the
-- state.
unfoldable pub recv_teardown : ℕ → ℕ → Node → Outcome (Node × List Effect)
recv_teardown id crash n = elim (find_session_node id n) [
  | none ↦ ok (n, [])
  | some s ↦
      let n' = put_session id (record s { crash_flg = crash; current_session_state = init }) n in
      ok (
        if is_playing s.current_session_state then one_less_playing n' else n',
        to_flib (flib_request id (flib_teardown_req id s.movie_end_handling_flg)) ∷ [],
      )
]

-- sysMon_recv, for a message that has arrived whole.
unfoldable pub sys_mon_recv : Session → ℕ → ℤ → ℕ → SysmonDMsg → Node → Outcome (Node × List Effect)
unfolding recv_options recv_describe recv_setup recv_play recv_pause recv_resume recv_teardown
sys_mon_recv blank random now fd m n = elim m.u [
  | options_req id ↦ recv_options fd id n
  | describe_req id movie addr ↦ recv_describe blank random fd id movie addr n
  | setup_req id rtp rtcp ↦ recv_setup fd id rtp rtcp n
  | play_req id range ↦ recv_play now id range n
  | pause_req id ↦ recv_pause id n
  | resume_req id ↦ recv_resume now id n
  | teardown_req id crash ↦ recv_teardown id crash n
  | _ ↦ aborted
]
