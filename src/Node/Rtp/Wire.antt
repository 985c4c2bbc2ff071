-- ===== src/Node/Rtp/Wire.antt =====
-- What SendOutThisRTPpacket of scheduler_sysmon.cc puts on the wire, against the layout of an RTP
-- header: V, P, X and CC in the first byte, M and PT in the second, then the sequence number, the
-- time stamp and the SSRC, each with its most significant byte first.
use Prim.Native.Nat.{bit_and, bit_or}
use myyima.Prelude.{
  ℕ, zero, suc, ◌+◌, ◌*◌, ◌/◌, ◌%◌, ◌^◌, ◌<◌, ◌≡◌, refl, arith, Bool, true, false, ltb, leb, ◌&&◌,
  if◌then◌else◌, ap, ◌∙◌,
}
use myyima.Prelude.BitOr.{doubled, bit_or-doubled}
use myyima.Messages.{Ptr}
use myyima.Flib.Cache.{Memory}
use myyima.Flib.Interface.{seq_num_at, time_stamp_at}
use myyima.Node.Rtp.{
  shl, ntohl, v_at, p_at, x_at, cc_at, m_at, pt_at, first_word, byte_of, store_header,
  convert_header, send_out,
}

-- A memory holds bytes.
abbrev pub IsMemory : Memory → Type 0
IsMemory mem = (a : Ptr) → mem a < 256

-- The two bits of V, through the mask and again without it.
version_lem :
    (v : ℕ) → v < 4 → bit_or (bit_or 0 (bit_and (shl v 30) 0xc0000000)) (shl v 30) ≡ v * 2 ^ 30
version_lem zero h = refl
version_lem (suc zero) h = refl
version_lem (suc (suc zero)) h = refl
version_lem (suc (suc (suc zero))) h = refl
version_lem (suc (suc (suc (suc v)))) h = absurd (omega arith)

-- One more field below the others.
field_lem :
    (k q r : ℕ)
    → r < doubled k 1
    → (acc x : ℕ) → acc ≡ doubled k q
    → x ≡ r
    → bit_or acc x ≡ doubled k q + r
field_lem k q r small acc x e f = rw (e, f) (bit_or-doubled k q r small)

module _ (mem : Memory) (v : IsMemory mem) (p : Ptr) where
  first_word_lem :
      first_word mem p
      ≡ v_at mem p * 2 ^ 30
        + p_at mem p * 2 ^ 29
        + x_at mem p * 2 ^ 28
        + cc_at mem p * 2 ^ 24
        + m_at mem p * 2 ^ 23
        + pt_at mem p * 2 ^ 16
        + seq_num_at mem p
  unfolding first_word
  first_word_lem =
      let V = v_at mem p in
      let P = p_at mem p in
      let X = x_at mem p in
      let C = cc_at mem p in
      let M = m_at mem p in
      let T = pt_at mem p in
      let a₀ = version_lem V (omega arith) in
      let a₁ =
        field_lem 30 V (P * 2 ^ 29) (omega arith) _ (shl P 29) (a₀ ∙ omega arith) (omega arith) in
      let a₂ =
        field_lem 29 (2 * V + P) (X * 2 ^ 28) (omega arith) _ (shl X 28) (a₁ ∙ omega arith)
          (omega arith) in
      let a₃ =
        field_lem 28 (4 * V + 2 * P + X) (C * 2 ^ 24) (omega arith) _ (shl C 24) (a₂ ∙ omega arith)
          (omega arith) in
      let a₄ =
        field_lem 24 (64 * V + 32 * P + 16 * X + C) (M * 2 ^ 23) (omega arith) _ (shl M 23)
          (a₃ ∙ omega arith) (omega arith) in
      let a₅ =
        field_lem 23 (128 * V + 64 * P + 32 * X + 2 * C + M) (T * 2 ^ 16) (omega arith) _ (shl T 16)
          (a₄ ∙ omega arith) (omega arith) in
      let a₆ =
        field_lem 16 (16384 * V + 8192 * P + 4096 * X + 256 * C + 128 * M + T) (seq_num_at mem p)
          (omega (arith, v (p + 2), v (p + 3))) _ (seq_num_at mem p) (a₅ ∙ omega arith) refl in
      a₆ ∙ omega arith

-- The twelve bytes from the address `p` on are the header with these fields, in the order of the
-- network.
pub record IsHeader (mem : Memory) (p : Ptr) (v pad x cc m pt seq timestamp ssrc : ℕ) : Type 0 where
  pub flags : mem p ≡ v * 64 + pad * 32 + x * 16 + cc
  pub kind : mem (p + 1) ≡ m * 128 + pt
  pub seq_high : mem (p + 2) ≡ seq / 256
  pub seq_low : mem (p + 3) ≡ seq % 256
  pub time_0 : mem (p + 4) ≡ timestamp / 2 ^ 24
  pub time_1 : mem (p + 5) ≡ timestamp / 2 ^ 16 % 256
  pub time_2 : mem (p + 6) ≡ timestamp / 2 ^ 8 % 256
  pub time_3 : mem (p + 7) ≡ timestamp % 256
  pub source_0 : mem (p + 8) ≡ ssrc / 2 ^ 24
  pub source_1 : mem (p + 9) ≡ ssrc / 2 ^ 16 % 256
  pub source_2 : mem (p + 10) ≡ ssrc / 2 ^ 8 % 256
  pub source_3 : mem (p + 11) ≡ ssrc % 256

-- The bytes that a write of three words leaves.
module _ (p w₀ w₁ w₂ : ℕ) (mem : Memory) where
  stored_first : (k : ℕ) → k < 4 → store_header p w₀ w₁ w₂ mem (p + k) ≡ byte_of w₀ k
  unfolding store_header
  stored_first k h =
      let c₀ : ltb (p + k) p ≡ false = ground arith in
      let c₁ : ltb (p + k) (p + 4) ≡ true = ground (arith, h) in
      rw (c₀, c₁) (ap (byte_of w₀) (omega arith))

  stored_second : (k : ℕ) → k < 4 → store_header p w₀ w₁ w₂ mem (p + (4 + k)) ≡ byte_of w₁ k
  unfolding store_header
  stored_second k h =
      let c₀ : ltb (p + (4 + k)) p ≡ false = ground arith in
      let c₁ : ltb (p + (4 + k)) (p + 4) ≡ false = ground arith in
      let c₂ : ltb (p + (4 + k)) (p + 8) ≡ true = ground (arith, h) in
      rw (c₀, c₁, c₂) (ap (byte_of w₁) (omega arith))

  stored_third : (k : ℕ) → k < 4 → store_header p w₀ w₁ w₂ mem (p + (8 + k)) ≡ byte_of w₂ k
  unfolding store_header
  stored_third k h =
      let c₀ : ltb (p + (8 + k)) p ≡ false = ground arith in
      let c₁ : ltb (p + (8 + k)) (p + 4) ≡ false = ground arith in
      let c₂ : ltb (p + (8 + k)) (p + 8) ≡ false = ground arith in
      let c₃ : ltb (p + (8 + k)) (p + 12) ≡ true = ground (arith, h) in
      rw (c₀, c₁, c₂, c₃) (ap (byte_of w₂) (omega arith))

-- The addresses of the header.
abbrev pub in_header : Ptr → Ptr → Bool
in_header p a = leb p a && ltb a (p + 12)

-- A packet that sendto takes at once leaves with an RTP header in the order of the network, which
-- has the fields that stood in memory, and the session's SSRC; the memory outside the
-- header stays as it was.
pub send_out-IsHeader :
    (mem : Memory) (p ssrc : ℕ)
    → IsMemory mem
    → ssrc < 2 ^ 32
    → IsHeader
        (send_out 0 p ssrc mem)
        p
        (v_at mem p)
        (p_at mem p)
        (x_at mem p)
        (cc_at mem p)
        (m_at mem p)
        (pt_at mem p)
        (seq_num_at mem p)
        (time_stamp_at mem p)
        ssrc
      × ((a : Ptr)
          → (if in_header p a then 0 else send_out 0 p ssrc mem a)
            ≡ (if in_header p a then 0 else mem a))
unfolding send_out convert_header ntohl store_header
send_out-IsHeader mem p ssrc v small =
    let w = first_word mem p in
    let ts = time_stamp_at mem p in
    let e = first_word_lem mem v p in
    let b₀ = v p in
    let b₁ = v (p + 1) in
    let b₂ = v (p + 2) in
    let b₃ = v (p + 3) in
    let b₄ = v (p + 4) in
    let b₅ = v (p + 5) in
    let b₆ = v (p + 6) in
    let b₇ = v (p + 7) in
    let one = stored_first p (ntohl w) (ntohl ts) (ntohl ssrc) mem in
    let two = stored_second p (ntohl w) (ntohl ts) (ntohl ssrc) mem in
    let three = stored_third p (ntohl w) (ntohl ts) (ntohl ssrc) mem in
    (
      record {
        flags =
            ap (store_header p (ntohl w) (ntohl ts) (ntohl ssrc) mem) (omega arith)
            ∙ one 0 (omega arith)
            ∙ omega (arith, e, b₀, b₁, b₂, b₃);
        kind = one 1 (omega arith) ∙ omega (arith, e, b₀, b₁, b₂, b₃);
        seq_high = one 2 (omega arith) ∙ omega (arith, e, b₀, b₁, b₂, b₃);
        seq_low = one 3 (omega arith) ∙ omega (arith, e, b₀, b₁, b₂, b₃);
        time_0 = two 0 (omega arith) ∙ omega (arith, b₄, b₅, b₆, b₇);
        time_1 = two 1 (omega arith) ∙ omega (arith, b₄, b₅, b₆, b₇);
        time_2 = two 2 (omega arith) ∙ omega (arith, b₄, b₅, b₆, b₇);
        time_3 = two 3 (omega arith) ∙ omega (arith, b₄, b₅, b₆, b₇);
        source_0 = three 0 (omega arith) ∙ omega (arith, small);
        source_1 = three 1 (omega arith) ∙ omega (arith, small);
        source_2 = three 2 (omega arith) ∙ omega (arith, small);
        source_3 = three 3 (omega arith) ∙ omega (arith, small);
      },
      λ a. ground arith,
    )
