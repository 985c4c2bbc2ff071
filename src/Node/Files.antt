-- ===== src/Node/Files.antt =====
-- The thread of the file library: MP4Flib::FLib_main of scheduler_sysmon.cc.
pub mod Balance
use myyima.Prelude.{ℕ, Bool, Option, none, some}
use myyima.Outcome.{Outcome, ok, undefined, ◌>>=◌}
use myyima.Messages.{
  Name, Ptr, NptRange, NextRtpPktInfo, FlibMsg, flib_ok, get_npt_range_req, get_npt_range_resp,
  flib_play_req, flib_play_resp, flib_teardown_req, flib_teardown_resp, last_pkt_of_block,
}
use myyima.Flib.Retrieve.{Disk}
use myyima.Flib.Interface.{
  Flib, Heap, flib_play, flib_get_next_packet, flib_tear_down, flib_last_pkt_of_block,
  flib_get_npt_range,
}

-- FLIB_GET_NPT_RANGE_REQ: the result of Flib_get_npt_range is dropped.
unfoldable pub main_npt_range : Disk → ℕ → Name → Flib → Outcome (Flib × Option FlibMsg)
main_npt_range d seq movie f = do
  (range, info, e) ← flib_get_npt_range d movie
  ok (f, some (record { cmd_seq_no = seq; cmd_error = flib_ok; u = get_npt_range_resp range info }))

-- The answer to FLIB_PLAY_REQ. Without a packet its fields are not set.
abbrev pub play_answer : ℕ → Flib × Option NextRtpPktInfo → Outcome (Flib × Option FlibMsg)
play_answer seq (f, none) = undefined
play_answer seq (f, some pkt) =
    ok (f, some (record { cmd_seq_no = seq; cmd_error = flib_ok; u = flib_play_resp pkt }))

-- FLIB_PLAY_REQ
unfoldable pub main_play :
    Heap → Disk → ℕ → ℕ → Name → NptRange → Flib → Outcome (Flib × Option FlibMsg)
main_play h d seq id movie range f =
    flib_play h d id movie range f >>= λ f₁. flib_get_next_packet d id f₁ >>= play_answer seq

-- FLIB_TEARDOWN_REQ
unfoldable pub main_teardown : ℕ → ℕ → Bool → Flib → Outcome (Flib × Option FlibMsg)
main_teardown seq id movie_end f = do
  (f₁, found) ← flib_tear_down id movie_end f
  ok (f₁, some (record { cmd_seq_no = seq; cmd_error = flib_ok; u = flib_teardown_resp }))

-- FLIB_LAST_PKT_OF_BLOCK has no answer.
unfoldable pub main_last_pkt : Heap → Disk → ℕ → Ptr → Flib → Outcome (Flib × Option FlibMsg)
main_last_pkt h d id block f = do (f₁, found) ← flib_last_pkt_of_block h d id block f; ok (f₁, none)

-- One round of FLib_main, with the answer that it sends.
unfoldable pub flib_main : Heap → Disk → FlibMsg → Flib → Outcome (Flib × Option FlibMsg)
unfolding main_npt_range main_play main_teardown main_last_pkt
flib_main h d m f = elim m.u [
  | get_npt_range_req movie ↦ main_npt_range d m.cmd_seq_no movie f
  | flib_play_req id movie range ↦ main_play h d m.cmd_seq_no id movie range f
  | flib_teardown_req id movie_end ↦ main_teardown m.cmd_seq_no id movie_end f
  | last_pkt_of_block id block ↦ main_last_pkt h d id block f
  | _ ↦ ok (f, none)
]
