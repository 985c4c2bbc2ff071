-- ===== src/Node/Scheduler.antt =====
-- The scheduler: Scheduler::play_session, calculateMinInterval and run_scheduler of
-- scheduler_sysmon.cc. A turn of the loop of play_session is `send_packet`, then `fetch_packet`;
-- between the two, other threads may have changed the session.
pub mod Interval
use myyima.Prelude.{
  ℕ, zero, suc, ◌+◌, ◌%◌, ◌^◌, Bool, true, false, Option, none, some, List, [], ◌∷◌, ◌++◌, not,
  ◌==◌, if◌then◌else◌, remove_first,
}
use myyima.Prelude.Int.{ℤ, pos, ◌+ℤ◌, ◌-ℤ◌, ltb_ℤ, leb_ℤ}
use myyima.Outcome.{Outcome, ok, aborted, ◌>>=◌}
use myyima.Messages.{null, NextRtpPktInfo, FlibMsg, flib_ok, last_pkt_of_block}
use myyima.Flib.Retrieve.{Disk}
use myyima.Flib.Cache.{Memory}
use myyima.Flib.Interface.{Flib, flib_get_next_packet}
use myyima.Node.Session.{
  SessionState, playing, finish, is_playing, is_teardown, Session, Node, Effect, to_flib, to_client,
  find_session_node, has_id,
}
use myyima.Node.Rtp.{send_out, bytes_at}

-- When the next packet of the session is to be played.
abbrev pub play_out_time : Session → ℤ
play_out_time s =
    if ltb_ℤ s.previous_rtp_pkt_sent_out_time s.start_play_time
    then s.start_play_time
    else s.next_rtp_pkt_sent_out_time

-- `theRelativePacketTime <= maxAdvancedTime` at the time `now`.
abbrev pub is_due : ℤ → Session → Bool
is_due now s = leb_ℤ (play_out_time s -ℤ now) s.max_advanced_time

-- The message FLIB_LAST_PKT_OF_BLOCK. The field cmdError is not set, and not read.
abbrev pub last_pkt_msg : ℕ → Session → FlibMsg
last_pkt_msg seq s = record {
  cmd_seq_no = seq;
  cmd_error = flib_ok;
  u = last_pkt_of_block s.session_id s.block_ptr;
}

-- What happens to the packet, or why the loop ends.
pub data Sent : Type 0 where
  not_playing no_packet not_due : Sent
  sent : Memory → (cmd_seq_no : ℕ) → Session → List Effect → Sent

-- The memory after the packet has left, and the packet.
abbrev pub packet_effect : Memory → Session → Effect
packet_effect mem s =
    to_client s.client_ip_addr s.client_rtp_port (bytes_at mem s.next_rtp_pkt_p s.next_rtp_pkt_size)

-- The first half of a turn. `now` and `after` are the two readings of the clock, and sendto would
-- block `refusals` times.
unfoldable pub send_packet : ℕ → ℤ → ℤ → Memory → ℕ → Session → Sent
send_packet refusals now after mem seq s =
    if not (is_playing s.current_session_state)
    then not_playing
    else if s.next_rtp_pkt_p == null
    then no_packet
    else if is_due now s
    then (let mem' = send_out refusals s.next_rtp_pkt_p s.ssrc mem in
        let s' = record s {
          previous_rtp_pkt_seq_no = s.next_rtp_pkt_seq_no;
          previous_rtp_pkt_sent_out_time = after;
        } in
        let seq' = (seq + 1) % 2 ^ 32 in
        if s.last_rtp_pkt_of_block_flg
        then sent mem' seq' s' (packet_effect mem' s ∷ to_flib (last_pkt_msg seq' s) ∷ [])
        else sent mem' seq s' (packet_effect mem' s ∷ []))
    else not_due

-- The session with its next packet. `delivery` is what the source computes with C doubles:
-- startPlayTime + timestamp * (100.0 / 9), as a SInt64.
abbrev pub with_packet : (ℤ → ℕ → ℤ) → NextRtpPktInfo → Session → Session
with_packet delivery pkt s = record s {
  next_rtp_pkt_p = pkt.next_rtp_pkt_p;
  next_rtp_pkt_seq_no = pkt.next_rtp_pkt_seq_no;
  next_rtp_pkt_size = pkt.next_rtp_pkt_size;
  next_rtp_pkt_time_stamp = pkt.next_rtp_pkt_timestamp;
  last_rtp_pkt_of_block_flg = pkt.last_pkt_flg;
  block_ptr = pkt.block_ptr;
  next_rtp_pkt_sent_out_time = delivery s.start_play_time pkt.next_rtp_pkt_timestamp;
}

-- The session after the end of its movie.
abbrev pub finished : Session → Session
finished s = record s { current_session_state = finish; movie_end_handling_flg = true }

-- What Flib_getNextPacket does to the session, and whether the loop goes on.
abbrev pub take_packet :
    (ℤ → ℕ → ℤ) → Session → Flib × Option NextRtpPktInfo → Outcome (Flib × Session × Bool)
take_packet delivery s (f, none) = ok (f, finished s, false)
take_packet delivery s (f, some pkt) = ok (f, with_packet delivery pkt s, true)

-- The second half of a turn, with the session as it is then.
unfoldable pub fetch_packet : (ℤ → ℕ → ℤ) → Disk → Flib → Session → Outcome (Flib × Session × Bool)
fetch_packet delivery d f s =
    if not (is_playing s.current_session_state)
    then ok (f, s, false)
    else flib_get_next_packet d s.session_id f >>= take_packet delivery s

-- The loop of calculateMinInterval: the least time seen so far, if any.
abbrev pub send_out_time : Session → ℤ
send_out_time s = s.next_rtp_pkt_sent_out_time -ℤ s.max_advanced_time

abbrev pub lesser : Option ℤ → ℤ → ℤ
lesser none t = t
lesser (some m) t = if ltb_ℤ t m then t else m

pub min_send_out_time : Option ℤ → List Session → Option ℤ
min_send_out_time best [] = best
min_send_out_time best (s ∷ ss) =
    let here = min_send_out_time (some (lesser best (send_out_time s))) ss in
    let skip = min_send_out_time best ss in
    if is_playing s.current_session_state then here else skip

abbrev pub or_zero : Option ℤ → ℤ
or_zero none = pos 0
or_zero (some t) = t

abbrev pub not_below_zero : ℤ → ℤ
not_below_zero t = if ltb_ℤ t (pos 0) then pos 0 else t

-- calculateMinInterval. The counter is looked at once for each session in the list.
unfoldable pub calculate_min_interval : ℤ → Node → Outcome ℤ
unfolding min_send_out_time
calculate_min_interval now n = elim n.session_list [
  | [] ↦ ok (not_below_zero (pos 0 -ℤ now))
  | s ∷ ss ↦
      if ltb_ℤ n.num_of_playing_session (pos 0)
      then aborted
      else if leb_ℤ n.num_of_playing_session (pos 0)
      then ok (pos 0)
      else ok (not_below_zero (or_zero (min_send_out_time none (s ∷ ss)) -ℤ now))
]

-- blockIfNoPlayingSession: whether the scheduler waits for its condition variable.
unfoldable pub blocks_if_no_playing_session : Node → Bool
blocks_if_no_playing_session n = leb_ℤ n.num_of_playing_session (pos 0)

-- run_scheduler passes a session: one that is torn down leaves the list.
unfoldable pub pass_session : ℕ → Node → Node
pass_session id n = elim (find_session_node id n) [
  | none ↦ n
  | some s ↦
      if is_teardown s.current_session_state
      then record n { session_list = remove_first (has_id id) n.session_list }
      else n
]
