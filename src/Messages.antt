-- ===== src/Messages.antt =====
-- The messages between the server's modules: Server/sysinclude/Yima_module_interfaces.h and the
-- types of Server/sysinclude/OSDefines.h. A C union with its tag is one data type; a `char` array
-- that holds a name is the list of its bytes before the terminating zero.
use Prim.Native.Nat.{ℕ, ◌-◌, ◌^◌}
use mathlib.Core.Bool.{Bool}
use mathlib.Core.List.{List}

abbrev pub Name : Type 0
Name = List ℕ

-- A C `float`, as its bit pattern: the code modelled here copies floats and does not compute with
-- them.
abbrev pub FloatBits : Type 0
FloatBits = ℕ

-- The address of a byte in memory; `NULL` is 0.
abbrev pub Ptr : Type 0
Ptr = ℕ

abbrev pub null : Ptr
null = 0

-- The int -5, when it is converted to a UInt64 session id.
abbrev pub na_sid : ℕ
na_sid = 2 ^ 64 - 5

pub record NptRange : Type 0 where
  pub start_location : FloatBits
  pub stop_location : FloatBits

pub record MovInfo : Type 0 where
  pub duration_in_seconds : FloatBits
  pub movie_size_in_bytes : ℕ
  pub timestamp_step_per_pkt : ℕ

pub data SysmonDerror : Type 0 where
  sysmond_ok sysmond_fail : SysmonDerror

-- SysmonDcode together with the member of the union `u` that goes with it. A session id stands
-- first in each.
pub data SysmonDinfo : Type 0 where
  options_resp options_req : (session_id : ℕ) → SysmonDinfo
  describe_req : (session_id : ℕ) (movie_name : Name) (remote_addr : ℕ) → SysmonDinfo
  describe_resp : (session_id : ℕ) (npt_range : NptRange) (duration : FloatBits) → SysmonDinfo
  setup_req : (session_id : ℕ) (client_rtp_port client_rtcp_port : ℕ) → SysmonDinfo
  setup_resp : (session_id : ℕ) (server_rtp_port server_rtcp_port ssrc : ℕ) → SysmonDinfo
  play_req : (session_id : ℕ) (npt_range : NptRange) → SysmonDinfo
  play_resp :
      (session_id : ℕ) (npt_range : NptRange) (next_rtp_seqno next_rtp_timestamp : ℕ) → SysmonDinfo
  pause_req pause_resp resume_req resume_resp : (session_id : ℕ) → SysmonDinfo
  teardown_req : (session_id : ℕ) (crash_flg : ℕ) → SysmonDinfo
  teardown_resp : (session_id : ℕ) → SysmonDinfo
  exit_req : SysmonDinfo

pub record SysmonDMsg : Type 0 where
  pub cmd_error : SysmonDerror
  pub u : SysmonDinfo

pub data FlibError : Type 0 where
  flib_ok flib_fail : FlibError

pub record NextRtpPktInfo : Type 0 where
  pub next_rtp_pkt_p : Ptr
  pub next_rtp_pkt_seq_no : ℕ
  pub next_rtp_pkt_size : ℕ
  pub next_rtp_pkt_timestamp : ℕ
  pub last_pkt_flg : Bool
  pub block_ptr : Ptr

-- FLIBcode together with its member of the union `u`.
pub data FlibInfo : Type 0 where
  get_npt_range_req : (movie_name : Name) → FlibInfo
  get_npt_range_resp : (npt_range : NptRange) (mov_info : MovInfo) → FlibInfo
  flib_play_req : (session_id : ℕ) (movie_name : Name) (npt_range : NptRange) → FlibInfo
  flib_play_resp : (next_pkt : NextRtpPktInfo) → FlibInfo
  flib_teardown_req : (session_id : ℕ) (mov_end_flg : Bool) → FlibInfo
  flib_teardown_resp : FlibInfo
  last_pkt_of_block : (session_id : ℕ) (block_ptr : Ptr) → FlibInfo

pub record FlibMsg : Type 0 where
  pub cmd_seq_no : ℕ
  pub cmd_error : FlibError
  pub u : FlibInfo
