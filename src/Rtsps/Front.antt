-- ===== src/Rtsps/Front.antt =====
-- The session ids of the RTSP front end: Server/RTSPS/rtsps_front.c. A client is named by a text of
-- SID_LEN digits; the messages inside the server carry it as a 64-bit number.
pub mod States
pub mod Connections
pub mod Requests
pub mod Responses
pub mod Run
pub mod Sids
mod Tests
use myyima.Prelude.{ℕ, zero, suc, ◌+◌, ◌-◌, ◌*◌, ◌%◌, ◌^◌, List, get_or}
use myyima.Messages.{Name}

-- SID_LEN
abbrev pub sid_len : ℕ
sid_len = 19

-- (UInt64)(c - '0'), for a character below 128.
abbrev pub digit : ℕ → ℕ
digit c = (c + (2 ^ 64 - b'0')) % 2 ^ 64

-- The loop of ConvertSID with `n` rounds to go: the next character is the one at SID_LEN-1-i, and
-- both variables wrap around at 64 bits.
unfoldable pub convert_loop : Name → ℕ → ℕ → ℕ → ℕ
convert_loop sid zero temp int_sid = int_sid
convert_loop sid (suc n) temp int_sid =
    convert_loop sid n (temp * 10 % 2 ^ 64) ((int_sid + temp * digit (get_or sid n 0)) % 2 ^ 64)

-- ConvertSID
unfoldable pub convert_sid : Name → ℕ
unfolding convert_loop
convert_sid sid = convert_loop sid sid_len 1 0
