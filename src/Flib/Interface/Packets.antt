-- ===== src/Flib/Interface/Packets.antt =====
-- The packets of a block, as Flib_getNextPacket of interface.c walks them.
use myyima.Prelude.{
  if◌then◌else◌, ℕ, zero, suc, ◌+◌, ◌≤◌, ◌<◌, ◌≡◌, ◌↔◌, refl, true, false, some, List, [], ◌∷◌,
  arith, ltb, total, take, get_elem?, length,
}
use myyima.Outcome.{ok}
use myyima.Messages.{NextRtpPktInfo, null}
use myyima.Flib.Retrieve.{Disk, num_pkts}
use myyima.Flib.Cache.{Memory}
use myyima.Flib.Interface.{SessionInfo, packet_at, packet_of, advance, more_in_block}

-- A session in the middle of a block: its packet is one of the block's, and its table of lengths
-- reaches that far.
pub record InBlock (s : SessionInfo) : Type 0 where
  pub inside : s.current_packet_index < s.num_of_packets
  pub fits : s.num_of_packets ≤ num_pkts
  pub known : s.num_of_packets ≤ length s.pkt_lens

get_elem?-lt : (xs : List ℕ) (i : ℕ) → i < length xs → (n : ℕ) × (get_elem? xs i ≡ some n)
get_elem?-lt [] i h = elim h [ ]
get_elem?-lt (x ∷ xs) zero h = (x, refl)
get_elem?-lt (x ∷ xs) (suc i) h = get_elem?-lt xs i (omega arith)

total-take-suc :
    (xs : List ℕ) (i n : ℕ)
    → get_elem? xs i ≡ some n
    → total (λ k. k) (take (suc i) xs) ≡ total (λ k. k) (take i xs) + n
total-take-suc [] i n h = cc
total-take-suc (x ∷ xs) zero n h = ground arith
total-take-suc (x ∷ xs) (suc i) n h = omega (arith, total-take-suc xs i n h)

more_lem :
    (s : SessionInfo)
    → InBlock s
    → more_in_block s ≡ ltb (suc s.current_packet_index) s.num_of_packets
unfolding more_in_block
more_lem s v = ground arith

-- In the middle of a block there is always a packet to hand out. It is flagged as the last one
-- exactly when it is the last one of the block, and then it names the block for its release.
pub packet_at-InBlock :
    (mem : Memory) (s : SessionInfo)
    → InBlock s
    → (pkt : NextRtpPktInfo) × (packet_at mem s ≡ ok pkt)
      × (pkt.last_pkt_flg ≡ true ↔ suc s.current_packet_index ≡ s.num_of_packets)
      × (pkt.block_ptr ≡ (if pkt.last_pkt_flg then s.block_ptr else null))
unfolding packet_at
packet_at-InBlock mem s v =
    let (len, e) =
      get_elem?-lt s.pkt_lens s.current_packet_index (omega (arith, v.inside, v.known)) in
    (
      packet_of mem s len,
      rw (e, packet_at) refl,
      (λ h. ground (arith, more_lem s v, h, v.inside), λ h. ground (arith, more_lem s v, h)),
      ground arith,
    )

-- The packets of a block follow one another in memory without a gap: while the block lasts, a
-- session that advances is still in the block, and its new packet starts where the one before it
-- ends.
pub advance-InBlock :
    (d : Disk) (mem : Memory) (s : SessionInfo) (pkt : NextRtpPktInfo)
    → InBlock s
    → packet_at mem s ≡ ok pkt
    → pkt.last_pkt_flg ≡ false
    → (s' : SessionInfo) × (advance d s ≡ ok s')
      × InBlock s'
      × (next : NextRtpPktInfo) × (packet_at mem s' ≡ ok next)
      × (next.next_rtp_pkt_p ≡ pkt.next_rtp_pkt_p + pkt.next_rtp_pkt_size)
unfolding packet_at advance
advance-InBlock d mem s pkt v h f =
    let i = s.current_packet_index in
    let (len, e) = get_elem?-lt s.pkt_lens i (omega (arith, v.inside, v.known)) in
    let more : more_in_block s ≡ true = ground (arith, h, f) in
    let s' = record s { current_packet_index = suc i } in
    let v' : InBlock s' = record {
      inside = ground (arith, more_lem s v, more);
      fits = v.fits;
      known = v.known;
    } in
    let (len', e') = get_elem?-lt s.pkt_lens (suc i) (omega (arith, v'.inside, v.known)) in
    (
      s',
      rw more,
      v',
      packet_of mem s' len',
      rw (e', packet_at) refl,
      ground (arith, h, e, total-take-suc s.pkt_lens i len e),
    )
