-- ===== src/Flib/Interface.antt =====
-- The operations of the file library: the Flib_ functions of Server/FLIB/interface.c over the
-- lists `sessions` and `usedBlocks`. `Heap` is what malloc answers: the block regions, and what
-- happens to stand in the memory of a new struct sessionInfo, if it gets that memory.
pub mod Balance
pub mod Opening
pub mod Play
pub mod Packets
pub mod Ending
use myyima.Prelude.{
  ℕ, suc, ◌+◌, ◌-◌, ◌*◌, ◌%◌, Bool, true, false, Option, none, some, List, [], ◌∷◌, ltb, ◌==◌,
  if◌then◌else◌, take, total, get_elem?, find_first, replace_first, remove_first,
}
use myyima.Outcome.{Outcome, ok, aborted, undefined, ◌>>=◌}
use myyima.Messages.{
  Name, Ptr, null, NptRange, MovInfo, NextRtpPktInfo, FlibError, flib_ok, flib_fail,
}
use myyima.Flib.Retrieve.{
  Disk, PackInfo, strncpy, get_movie_details, get_start_block_name, get_next_block_name,
  get_num_packets, num_pkts,
}
use myyima.Flib.Cache.{Cache, Memory, Malloc, local_read_block, release_used_block, or_old}

-- struct sessionInfo
pub record SessionInfo : Type 0 where
  pub session_id : ℕ
  pub movie_name : Name
  pub next_block_name : Name
  pub block_ptr : Ptr
  pub num_of_packets : ℕ
  pub pkt_lens : List ℕ
  pub next_block_ptr : Ptr
  pub next_block_num_of_packets : ℕ
  pub current_packet_index : ℕ

pub record Flib : Type 0 where
  pub cache : Cache
  pub sessions : List SessionInfo

pub record Heap : Type 0 where
  pub malloc : Malloc
  pub new_session : Option SessionInfo

abbrev pub has_id : ℕ → SessionInfo → Bool
has_id id s = s.session_id == id

-- The loop over `sessions` that each operation starts with.
abbrev pub find_session : ℕ → Flib → Option SessionInfo
find_session id f = find_first (has_id id) f.sessions

-- Writes through the pointer that the loop stopped at.
abbrev pub put_session : ℕ → SessionInfo → Flib → Flib
put_session id s f = record f { sessions = replace_first (has_id id) s f.sessions }

-- A new session goes in front of the list; without memory for it, exit(0).
abbrev pub attach : ℕ → Flib → Option SessionInfo → Outcome (Flib × SessionInfo)
attach id f none = aborted
attach id f (some blank) =
    let s = record blank { session_id = id } in ok (record f { sessions = s ∷ f.sessions }, s)

-- Flib_play, first part: the session is found and gives its blocks back, or it is made.
unfoldable pub open_session : Heap → ℕ → Flib → Outcome (Flib × SessionInfo)
open_session h id f = elim (find_session id f) [
  | some s ↦ do
    (c₁, found₁) ← release_used_block s.block_ptr f.cache
    (c₂, found₂) ← release_used_block s.next_block_ptr c₁
    let s' = record s { block_ptr = null; next_block_ptr = null }
    ok (put_session id s' (record f { cache = c₂ }), s')
  | none ↦ attach id f h.new_session
]

-- The session with the block after its first, that localReadBlock has returned.
abbrev pub ahead : ℕ → Flib → SessionInfo → Name → Cache × Ptr × PackInfo → Outcome Flib
ahead id f s n (c, p, info) = ok (
    put_session id
      (record s {
        next_block_name = strncpy n;
        next_block_ptr = p;
        next_block_num_of_packets = info.numpkts;
      })
      (record f { cache = c }))

-- The block after the first one, by the name that getNextBlockName has written.
unfoldable pub read_ahead : Heap → Disk → ℕ → Name → Flib → SessionInfo → Option Name → Outcome Flib
read_ahead h d id movie f s none = undefined
read_ahead h d id movie f s (some []) =
    ok (put_session id (record s { next_block_ptr = null; next_block_name = [] }) f)
read_ahead h d id movie f s (some (ch ∷ chs)) =
    local_read_block h.malloc d f.cache movie (ch ∷ chs)
      (record { numpkts = s.next_block_num_of_packets; lens = none })
    >>= ahead id f s (ch ∷ chs)

-- Flib_play, last part: the block after `block` is read in advance.
unfoldable pub prefetch : Heap → Disk → ℕ → Name → Name → Flib → SessionInfo → Outcome Flib
unfolding read_ahead
prefetch h d id movie block f s = get_next_block_name d movie block >>= read_ahead h d id movie f s

abbrev pub lens_of : List ℕ → Option (List ℕ) → List ℕ
lens_of old none = old
lens_of old (some ls) = ls

-- The session at its first block.
abbrev pub at_first_block : SessionInfo → Ptr → PackInfo → SessionInfo
at_first_block s p info = record s {
  block_ptr = p;
  num_of_packets = info.numpkts;
  pkt_lens = lens_of s.pkt_lens info.lens;
  current_packet_index = 0;
}

abbrev pub started : ℕ → Flib → SessionInfo → Cache × Ptr × PackInfo → Outcome (Flib × SessionInfo)
started id f s (c, p, info) =
    ok (put_session id (at_first_block s p info) (record f { cache = c }), at_first_block s p info)

-- Flib_play, middle part: the first block.
unfoldable pub first_block :
    Heap → Disk → ℕ → Name → Name → Flib → SessionInfo → Outcome (Flib × SessionInfo)
first_block h d id movie block f s =
    local_read_block h.malloc d f.cache movie block
      (record { numpkts = s.num_of_packets; lens = some s.pkt_lens })
    >>= started id f s

-- The two blocks, by the name that getStartBlockName has written. A name that it has not written
-- is whatever was on the stack.
unfoldable pub play_from : Heap → Disk → ℕ → Name → Flib → SessionInfo → Option Name → Outcome Flib
unfolding first_block prefetch
play_from h d id movie f s none = undefined
play_from h d id movie f s (some block) =
    first_block h d id movie block f s >>= λ (f₁, s₁). prefetch h d id movie block f₁ s₁

-- The fields that Flib_play sets before it reads a block.
abbrev pub named : ℕ → Name → SessionInfo → SessionInfo
named id movie s = record s {
  session_id = id;
  next_block_num_of_packets = 0;
  movie_name = strncpy movie;
}

-- Flib_play. It returns TRUE whenever it returns.
unfoldable pub flib_play : Heap → Disk → ℕ → Name → NptRange → Flib → Outcome Flib
unfolding open_session play_from
flib_play h d id movie range f = do
  (f₁, s₁) ← open_session h id f
  start ← get_start_block_name d movie range.start_location
  play_from h d id movie (put_session id (named id movie s₁) f₁) (named id movie s₁) start

-- Bit fields of an rtp_header in memory, in the byte order of the machine (least byte first).
abbrev pub seq_num_at : Memory → Ptr → ℕ
seq_num_at mem p = mem (p + 2) + 256 * mem (p + 3)

abbrev pub time_stamp_at : Memory → Ptr → ℕ
time_stamp_at mem p =
    mem (p + 4) + 256 * mem (p + 5) + 256 * 256 * mem (p + 6) + 256 * 256 * 256 * mem (p + 7)

-- `for (i = 0; i < current->currentPacketIndex; i++) offset += current->pkt_lens_in_a_block[i]`
abbrev pub packet_offset : SessionInfo → ℕ
packet_offset s = total (λ n. n) (take s.current_packet_index s.pkt_lens)

-- Whether the session's current packet is followed by another one of its block.
unfoldable pub more_in_block : SessionInfo → Bool
more_in_block s = ltb (s.current_packet_index % num_pkts + 1) s.num_of_packets

-- The session's current packet, of `len` bytes.
abbrev pub packet_of : Memory → SessionInfo → ℕ → NextRtpPktInfo
packet_of mem s len =
    let p = s.block_ptr + packet_offset s in
    record {
      next_rtp_pkt_p = p;
      next_rtp_pkt_seq_no = seq_num_at mem p;
      next_rtp_pkt_size = len;
      next_rtp_pkt_timestamp = time_stamp_at mem p;
      last_pkt_flg = if more_in_block s then false else true;
      block_ptr = if more_in_block s then null else s.block_ptr;
    }

-- The packet that the session is at; reading its length past the array is undefined.
unfoldable pub packet_at : Memory → SessionInfo → Outcome NextRtpPktInfo
packet_at mem s = elim (get_elem? s.pkt_lens s.current_packet_index) [
  | none ↦ undefined
  | some len ↦ ok (packet_of mem s len)
]

abbrev pub pack_info : SessionInfo → PackInfo
pack_info s = record { numpkts = s.num_of_packets; lens = some s.pkt_lens }

-- The session at the block that was read in advance, with what getNumPackets_PackSize has written.
abbrev pub at_next_block : SessionInfo → Option PackInfo → SessionInfo
at_next_block s info = record s {
  block_ptr = s.next_block_ptr;
  next_block_ptr = null;
  num_of_packets = (or_old (pack_info s) info).numpkts;
  pkt_lens = lens_of s.pkt_lens (or_old (pack_info s) info).lens;
  current_packet_index = 0;
}

-- The session after its current packet.
unfoldable pub advance : Disk → SessionInfo → Outcome SessionInfo
advance d s =
    if more_in_block s
    then ok (record s { current_packet_index = suc s.current_packet_index })
    else (do
      info ← get_num_packets d s.movie_name s.next_block_name (pack_info s)
      ok (at_next_block s info))

-- Flib_getNextPacket with the session that the loop found.
unfoldable pub next_packet : Disk → ℕ → Flib → SessionInfo → Outcome (Flib × Option NextRtpPktInfo)
next_packet d id f s = do
  pkt ← packet_at f.cache.memory s
  s' ← advance d s
  ok (put_session id s' f, some pkt)

-- Flib_getNextPacket: `none` where it returns 0, without a packet.
unfoldable pub flib_get_next_packet : Disk → ℕ → Flib → Outcome (Flib × Option NextRtpPktInfo)
unfolding next_packet packet_at advance more_in_block
flib_get_next_packet d id f = elim (find_session id f) [
  | none ↦ ok (f, none)
  | some s ↦ if s.block_ptr == null then ok (f, none) else next_packet d id f s
]

-- Flib_tear_down, with its result 0 or 1 as a Boolean.
unfoldable pub flib_tear_down : ℕ → Bool → Flib → Outcome (Flib × Bool)
flib_tear_down id movie_end f = elim (find_session id f) [
  | none ↦ ok (f, false)
  | some s ↦
      let left = remove_first (has_id id) f.sessions in
      if movie_end then ok (record f { sessions = left }, true) else (do
        (c₁, found₁) ← release_used_block s.block_ptr f.cache
        (c₂, found₂) ← release_used_block s.next_block_ptr c₁
        ok (record { cache = c₂; sessions = left }, true))
]

-- The session with the next block that localReadBlock has returned.
abbrev pub read_in : ℕ → Flib → SessionInfo → Name → Cache × Ptr × PackInfo → Outcome Flib
read_in id f s n (c, p, info) = ok (
    put_session id
      (record s {
        next_block_name = n;
        next_block_ptr = p;
        next_block_num_of_packets = info.numpkts;
      })
      (record f { cache = c }))

-- Flib_lastpktofBlock with the name of the next block: an empty one, or a block to read.
unfoldable pub read_next : Heap → Disk → ℕ → Flib → SessionInfo → Name → Outcome Flib
read_next h d id f s [] = ok (
    put_session id
      (record s { next_block_name = []; next_block_ptr = null; next_block_num_of_packets = 0 }) f)
read_next h d id f s (ch ∷ chs) =
    local_read_block h.malloc d f.cache s.movie_name (ch ∷ chs)
      (record { numpkts = s.next_block_num_of_packets; lens = none })
    >>= read_in id f s (ch ∷ chs)

-- The buffer after getNextBlockName, which leaves it as it was when the movie is gone.
abbrev pub written : Name → Option Name → Name
written old none = old
written old (some n) = n

-- Flib_lastpktofBlock
unfoldable pub flib_last_pkt_of_block : Heap → Disk → ℕ → Ptr → Flib → Outcome (Flib × Bool)
unfolding read_next
flib_last_pkt_of_block h d id block f = elim (find_session id f) [
  | none ↦ ok (f, false)
  | some s ↦ do
    next ← get_next_block_name d s.movie_name s.next_block_name
    f₁ ← read_next h d id f s (written s.next_block_name next)
    (c, found) ← release_used_block block f₁.cache
    ok (record f₁ { cache = c }, found)
]

-- Flib_get_npt_range: exit(0) for a movie that is not there. A duration is 0 if its bits are, but
-- for the sign.
unfoldable pub flib_get_npt_range : Disk → Name → Outcome (NptRange × MovInfo × FlibError)
flib_get_npt_range d movie = elim (get_movie_details d movie) [
  | none ↦ aborted
  | some m ↦ ok (
    record { start_location = 0; stop_location = m.time },
    record {
      duration_in_seconds = m.time;
      movie_size_in_bytes = m.size;
      timestamp_step_per_pkt = 3750;
    },
    if m.time % 2147483648 == 0 then flib_fail else flib_ok,
  )
]
