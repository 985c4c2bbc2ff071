-- ===== src/Node/Tests.antt =====
-- A node with a session or two.
use myyima.Prelude.{
  ℕ, suc, ◌%◌, ◌≡◌, refl, false, none, some, List, [], ◌∷◌, arith, if◌then◌else◌, replicate,
}
use myyima.Prelude.Int.{pos, ◌+ℤ◌}
use myyima.Outcome.{ok}
use myyima.Messages.{
  Name, null, NextRtpPktInfo, sysmond_ok, describe_req, FlibMsg, flib_ok, get_npt_range_req,
  flib_play_req, flib_play_resp,
}
use myyima.Flib.Cache.{Memory, local_read_block, cached, bump}
use myyima.Flib.Names.{atoi, get_block_num, block_name, decimal}
use myyima.Flib.Retrieve.{
  sprintf, get_num_packets, get_movie_details, get_start_block_name, get_next_block_name,
}
use myyima.Flib.Interface.{
  Flib, flib_play, flib_get_next_packet, seq_num_at, time_stamp_at, more_in_block, packet_of,
}
use myyima.Flib.Interface.Balance.{IsBalanced}
use myyima.Flib.Sample.{
  disk, heap, whole, cache as sample_cache, playing as sample, playing_twice, playing-IsBalanced,
  no_memory-IsMalloc, session, second,
}
use myyima.Node.Session.{
  SessionState, init, ready, finish, Session, Node, Effect, to_flib, find_session_node,
}
use myyima.Node.Rtp.{send_out, ntohl, v_at, p_at, x_at, cc_at, m_at, pt_at}
use myyima.Node.Rtp.Wire.{IsMemory, IsHeader, in_header, send_out-IsHeader}
use myyima.Node.Receive.{sys_mon_recv, recv_describe, recv_teardown, new_session}
use myyima.Node.Respond.{at_packet}
use myyima.Node.Scheduler.{blocks_if_no_playing_session, finished}
use myyima.Node.Play.{Turn, Playing, release, set_state}
use myyima.Node.Files.{flib_main}
use myyima.Node.Files.Balance.{answer_to, IsFirstPacket, flib_main-IsBalanced}
use myyima.Node.Events.{Event, request, step, Reach, at_start, later}
use myyima.Node.Count.{IsSettled, of_parts, served_sessions, is_expected}
use myyima.Node.Count.Race.{anything, paused, fetch_after_pause}
use myyima.Node.Count.Runs.{recv_teardown_overcounts}
use myyima.Node.Ids.{AreDistinct, ids}
use myyima.Node.Ids.Runs.{Reach-AreDistinct}

abbrev movie : Name
movie = b'm' ∷ []

abbrev blank : Session
blank = record {
  session_id = 7;
  rtsps_fd = 4;
  mov_name = movie;
  client_rtp_port = 6000;
  client_rtcp_port = 6001;
  client_ip_addr = 9;
  current_session_state = init;
  mov_info = record {
    duration_in_seconds = 5;
    movie_size_in_bytes = 30;
    timestamp_step_per_pkt = 3750;
  };
  next_rtp_pkt_p = 1000;
  next_rtp_pkt_seq_no = 1;
  next_rtp_pkt_size = 10;
  next_rtp_pkt_sent_out_time = pos 500;
  next_rtp_pkt_time_stamp = 0;
  crash_flg = 0;
  last_rtp_pkt_of_block_flg = false;
  movie_end_handling_flg = false;
  block_ptr = null;
  start_play_time = pos 100;
  max_advanced_time = pos 50;
  previous_rtp_pkt_seq_no = 0;
  previous_rtp_pkt_sent_out_time = pos 90;
  ssrc = 3;
}

abbrev quiet : Node
quiet = record {
  session_list = [];
  num_of_playing_session = pos 0;
  owed_more = 0;
  owed_less = 0;
  fetching = none;
  cmd_seq_no = 0;
  rsp_npt_range = record { start_location = 0; stop_location = 0 };
}

-- A client asks for a movie.
abbrev described : Node
described = record quiet { session_list = new_session blank 3 4 7 movie 9 ∷ [] }

abbrev describe : Event
describe =
    request blank 3 (pos 1000) 4 (record { cmd_error = sysmond_ok; u = describe_req 7 movie 9 })

describe_runs :
    step quiet describe
    ≡ ok (
      described,
      to_flib (record { cmd_seq_no = 7; cmd_error = flib_ok; u = get_npt_range_req movie }) ∷ [],
    )
unfolding step sys_mon_recv recv_describe ntohl
describe_runs = refl

described-Reach : Reach is_expected quiet described
described-Reach = later describe at_start refl describe_runs

-- It sets the session up, and plays it.
abbrev set_up : Session
set_up = record (new_session blank 3 4 7 movie 9) {
  client_rtp_port = 6000;
  client_rtcp_port = 6001;
  current_session_state = ready;
}

abbrev asked_to_play : Session
asked_to_play = record set_up {
  start_play_time = pos 2000;
  max_advanced_time = pos 100000;
  movie_end_handling_flg = false;
}

abbrev first_packet : NextRtpPktInfo
first_packet = record {
  next_rtp_pkt_p = 1000;
  next_rtp_pkt_seq_no = 1;
  next_rtp_pkt_size = 10;
  next_rtp_pkt_timestamp = 0;
  last_pkt_flg = false;
  block_ptr = null;
}

abbrev holding : Session → Node
holding s = record quiet { session_list = s ∷ [] }

-- The answer to its PLAY has set the state, and not yet the counter.
abbrev owing : Node
owing = record (holding (at_packet (pos 3000) first_packet asked_to_play)) { owed_more = 1 }

abbrev counted : Node
counted = record owing { num_of_playing_session = pos 1; owed_more = 0 }

Reach-AreDistinct_example : AreDistinct (ids described.session_list)
Reach-AreDistinct_example = Reach-AreDistinct is_expected quiet described tt described-Reach

-- A session whose movie has ended.
abbrev ended : Node
ended = record quiet {
  session_list = record blank { current_session_state = finish } ∷ [];
  num_of_playing_session = pos 1;
}

recv_teardown_overcounts_example :
    (n' : Node) × (es : List Effect) × (recv_teardown 7 0 ended ≡ ok (n', es))
    × (served_sessions ended ≡ suc (served_sessions n'))
    × (n'.num_of_playing_session ≡ pos (suc (served_sessions n')))
    × (blocks_if_no_playing_session n' ≡ false)
recv_teardown_overcounts_example =
    recv_teardown_overcounts ended 7 0 (record blank { current_session_state = finish })
      (of_parts ended refl) (record { no_more = refl; no_less = refl }) refl refl

-- A session whose last packet left at 150, and whose next one is due from 450 on.
abbrev at_play : Session
at_play = record blank {
  current_session_state = SessionState.playing;
  previous_rtp_pkt_sent_out_time = pos 150;
}

abbrev busy : Node
busy = record quiet { session_list = at_play ∷ []; num_of_playing_session = pos 1 }

fetch_after_pause_example :
    (n' : Node) × Reach anything busy n'
    × IsSettled n'
    × (find_session_node 7 n' ≡ some (finished (paused busy 7 at_play refl)))
    × (n'.num_of_playing_session +ℤ pos 1 ≡ pos (served_sessions n'))
fetch_after_pause_example =
    fetch_after_pause busy 7 at_play refl (of_parts busy refl)
      (record { no_more = refl; no_less = refl }) refl

abbrev mem : Memory
mem a = a % 256

mem-IsMemory : IsMemory mem
mem-IsMemory a = omega arith

send_out-IsHeader_example :
    IsHeader
      (send_out 0 1000 3 mem)
      1000
      (v_at mem 1000)
      (p_at mem 1000)
      (x_at mem 1000)
      (cc_at mem 1000)
      (m_at mem 1000)
      (pt_at mem 1000)
      (seq_num_at mem 1000)
      (time_stamp_at mem 1000)
      3
    × ((a : ℕ)
        → (if in_header 1000 a then 0 else send_out 0 1000 3 mem a)
          ≡ (if in_header 1000 a then 0 else mem a))
send_out-IsHeader_example = send_out-IsHeader mem 1000 3 mem-IsMemory (omega arith)

-- Another session is to play the movie: it shares the block.
abbrev play_msg : FlibMsg
play_msg = record { cmd_seq_no = 8; cmd_error = flib_ok; u = flib_play_req 8 movie whole }

abbrev handed : Flib
handed = record playing_twice {
  sessions = record second { current_packet_index = 1 } ∷ session ∷ [];
}

abbrev handed_packet : NextRtpPktInfo
handed_packet = packet_of sample_cache.memory second 10

play_runs :
    flib_main heap disk play_msg sample ≡ ok (handed, answer_to 8 (flib_play_resp handed_packet))
unfolding flib_main flib_play local_read_block cached get_num_packets get_movie_details
    get_block_num atoi get_start_block_name get_next_block_name block_name decimal sprintf bump
    flib_get_next_packet
play_runs = refl

flib_main-IsBalanced_example :
    IsBalanced [] handed
    × ((pkt : NextRtpPktInfo) × (answer_to 8 (flib_play_resp handed_packet)
          ≡ answer_to 8 (flib_play_resp pkt))
        × IsFirstPacket disk movie handed pkt)
unfolding more_in_block
flib_main-IsBalanced_example =
    flib_main-IsBalanced heap disk play_msg [] sample handed
      (answer_to 8 (flib_play_resp handed_packet)) no_memory-IsMalloc playing-IsBalanced tt
      play_runs

-- The scheduler plays the session of the sample, of which two packets are left, while another
-- thread pauses and resumes it and a release of another session is worked on.
abbrev at_work : Playing
at_work = record {
  flib = sample;
  cmd_seq_no = 0;
  session = record blank { current_session_state = SessionState.playing };
  effects = [];
}

abbrev turns : List Turn
turns = replicate 3 (record {
  now = pos 200;
  after = pos 201;
  refusals = 0;
  before = set_state SessionState.ready ∷ set_state SessionState.playing ∷ release 9 1000 ∷ [];
  between = [];
})
