-- ===== src/Node/Rtp.antt =====
-- The header of an RTP packet, as SendOutThisRTPpacket of scheduler_sysmon.cc rewrites it in place:
-- from the bit fields that the compiler lays out (least bits first) to the order of the network.
pub mod Wire
use Prim.Native.Nat.{bit_and, bit_or}
use myyima.Prelude.{
  ℕ, zero, suc, ◌+◌, ◌-◌, ◌*◌, ◌/◌, ◌%◌, ◌^◌, List, [], ◌∷◌, ltb, leb, ◌==◌, ◌&&◌, if◌then◌else◌,
}
use myyima.Messages.{Ptr}
use myyima.Flib.Cache.{Memory}
use myyima.Flib.Interface.{seq_num_at, time_stamp_at}

-- Shifts of an unsigned int.
abbrev pub shl : ℕ → ℕ → ℕ
shl x k = x * 2 ^ k % 2 ^ 32

-- htonl and ntohl on a little-endian machine: the bytes of a word in the other order.
unfoldable pub ntohl : ℕ → ℕ
ntohl x = x % 256 * 2 ^ 24 + x / 256 % 256 * 2 ^ 16 + x / 65536 % 256 * 2 ^ 8 + x / 16777216 % 256

-- The fields of the rtp_header at an address; its SSRC is not read.
abbrev pub v_at : Memory → Ptr → ℕ
v_at mem p = mem p % 4

abbrev pub p_at : Memory → Ptr → ℕ
p_at mem p = mem p / 4 % 2

abbrev pub x_at : Memory → Ptr → ℕ
x_at mem p = mem p / 8 % 2

abbrev pub cc_at : Memory → Ptr → ℕ
cc_at mem p = mem p / 16 % 16

abbrev pub m_at : Memory → Ptr → ℕ
m_at mem p = mem (p + 1) % 2

abbrev pub pt_at : Memory → Ptr → ℕ
pt_at mem p = mem (p + 1) / 2 % 128

-- `testblock[0]` before ntohl. V is put in twice, the first time through a mask.
unfoldable pub first_word : Memory → Ptr → ℕ
first_word mem p =
    bit_or
      (bit_or
        (bit_or
          (bit_or
            (bit_or
              (bit_or
                (bit_or (bit_or 0 (bit_and (shl (v_at mem p) 30) 0xc0000000)) (shl (v_at mem p) 30))
                (shl (p_at mem p) 29))
              (shl (x_at mem p) 28))
            (shl (cc_at mem p) 24))
          (shl (m_at mem p) 23))
        (shl (pt_at mem p) 16))
      (seq_num_at mem p)

-- A word in memory, least byte first.
abbrev pub byte_of : ℕ → ℕ → ℕ
byte_of w k = w / 256 ^ k % 256

-- memcpy(header, testblock, 12)
unfoldable pub store_header : Ptr → ℕ → ℕ → ℕ → Memory → Memory
store_header p w₀ w₁ w₂ mem a =
    if ltb a p
    then mem a
    else if ltb a (p + 4)
    then byte_of w₀ (a - p)
    else if ltb a (p + 8)
    then byte_of w₁ (a - p - 4)
    else if ltb a (p + 12)
    then byte_of w₂ (a - p - 8)
    else mem a

-- One conversion of the header in the buffer.
unfoldable pub convert_header : Ptr → ℕ → Memory → Memory
unfolding store_header first_word ntohl
convert_header p ssrc mem =
    store_header p (ntohl (first_word mem p)) (ntohl (time_stamp_at mem p)) (ntohl ssrc) mem

-- The `len` bytes from the address `p` on.
pub bytes_at : Memory → Ptr → ℕ → List ℕ
bytes_at mem p zero = []
bytes_at mem p (suc n) = mem p ∷ bytes_at mem (p + 1) n

-- The loop of SendOutThisRTPpacket: it converts the header again each time that sendto would
-- block, here `refusals` times.
unfoldable pub send_out : ℕ → Ptr → ℕ → Memory → Memory
unfolding convert_header
send_out zero p ssrc mem = convert_header p ssrc mem
send_out (suc refusals) p ssrc mem = send_out refusals p ssrc (convert_header p ssrc mem)
