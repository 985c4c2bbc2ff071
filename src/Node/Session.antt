-- ===== src/Node/Session.antt =====
-- The list of sessions of scheduler_sysmon.cc, and what the threads of a node share.
use myyima.Prelude.{ℕ, zero, suc, Bool, Option, List, true, false, ◌==◌, find_first, replace_first}
use myyima.Prelude.Int.{ℤ, pos, negsuc, ◌+ℤ◌, ◌-ℤ◌}
use myyima.Messages.{Name, Ptr, NptRange, MovInfo, SysmonDMsg, FlibMsg}

pub data SessionState : Type 0 where
  init ready playing teardown finish : SessionState

abbrev pub is_playing : SessionState → Bool
is_playing SessionState.playing = true
is_playing _ = false

abbrev pub is_ready : SessionState → Bool
is_ready SessionState.ready = true
is_ready _ = false

abbrev pub is_teardown : SessionState → Bool
is_teardown SessionState.teardown = true
is_teardown _ = false

-- struct Session_T, without the fields that no operation reads.
pub record Session : Type 0 where
  pub session_id : ℕ
  pub rtsps_fd : ℕ
  pub mov_name : Name
  pub client_rtp_port : ℕ
  pub client_rtcp_port : ℕ
  pub client_ip_addr : ℕ
  pub current_session_state : SessionState
  pub mov_info : MovInfo
  pub next_rtp_pkt_p : Ptr
  pub next_rtp_pkt_seq_no : ℕ
  pub next_rtp_pkt_size : ℕ
  pub next_rtp_pkt_sent_out_time : ℤ
  pub next_rtp_pkt_time_stamp : ℕ
  pub crash_flg : ℕ
  pub last_rtp_pkt_of_block_flg : Bool
  pub movie_end_handling_flg : Bool
  pub block_ptr : Ptr
  pub start_play_time : ℤ
  pub max_advanced_time : ℤ
  pub previous_rtp_pkt_seq_no : ℕ
  pub previous_rtp_pkt_sent_out_time : ℤ
  pub ssrc : ℕ

-- What the threads share. `rsp_npt_range` is the range that stands in the message buffer of
-- run_sysMonD_rsp. PAUSE, RESUME and the answer to PLAY change a session's state first, and
-- numOfPlayingSession after that, with no lock over both: `owed_more` and `owed_less` say how many
-- increments and decrements threads have still to do. `fetching` is the session whose state
-- play_session has looked at, under its curSessionState_mutex, before Flib_getNextPacket.
pub record Node : Type 0 where
  pub session_list : List Session
  pub num_of_playing_session : ℤ
  pub owed_more : ℕ
  pub owed_less : ℕ
  pub fetching : Option ℕ
  pub cmd_seq_no : ℕ
  pub rsp_npt_range : NptRange

-- What an operation sends: a message to the RTSP server behind a socket, a message to the file
-- library, or an RTP packet to an address and a port.
pub data Effect : Type 0 where
  to_rtsps : ℕ → SysmonDMsg → Effect
  to_flib : FlibMsg → Effect
  to_client : ℕ → ℕ → List ℕ → Effect

abbrev pub has_id : ℕ → Session → Bool
has_id id s = s.session_id == id

-- findSessionNode; `none` is the end of the list.
abbrev pub find_session_node : ℕ → Node → Option Session
find_session_node id n = find_first (has_id id) n.session_list

-- Writes through the iterator that findSessionNode returned.
abbrev pub put_session : ℕ → Session → Node → Node
put_session id s n = record n { session_list = replace_first (has_id id) s n.session_list }

-- `*numOfPlayingSession_p` plus or minus one.
abbrev pub one_more_playing : Node → Node
one_more_playing n = record n { num_of_playing_session = n.num_of_playing_session +ℤ pos 1 }

abbrev pub one_less_playing : Node → Node
one_less_playing n = record n { num_of_playing_session = n.num_of_playing_session -ℤ pos 1 }

abbrev pub owe_one_more : Node → Node
owe_one_more n = record n { owed_more = suc n.owed_more }

abbrev pub owe_one_less : Node → Node
owe_one_less n = record n { owed_less = suc n.owed_less }

-- A thread does what it owes.
unfoldable pub settle_more : Node → Node
settle_more n = elim n.owed_more [
  | zero ↦ n
  | suc k ↦ one_more_playing (record n { owed_more = k })
]

unfoldable pub settle_less : Node → Node
settle_less n = elim n.owed_less [
  | zero ↦ n
  | suc k ↦ one_less_playing (record n { owed_less = k })
]

-- (UInt16)-1, (UInt32)-1 and -1.
abbrev pub no_port : ℕ
no_port = 65535

abbrev pub no_number : ℕ
no_number = 4294967295

abbrev pub no_time : ℤ
no_time = negsuc 0
