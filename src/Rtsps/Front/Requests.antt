-- ===== src/Rtsps/Front/Requests.antt =====
-- ConvertRequest of Server/RTSPS/rtsps_front.c: from the text of a client to the message for the
-- back end, with what it notes in the connection.
pub mod Sent
use myyima.Prelude.{
  ℕ, ◌+◌, ◌-◌, ◌%◌, ◌^◌, Option, none, some, ◌||◌, leb, if◌then◌else◌, drop, length,
}
use myyima.Prelude.Int.{ℤ, pos_part, neg_part}
pub use myyima.Outcome.{deref, fits}
use myyima.Outcome.{Outcome, ok, undefined, ◌>>=◌}
use myyima.Messages.{
  Name, FloatBits, SysmonDMsg, SysmonDinfo, sysmond_ok, options_req, describe_req, setup_req,
  play_req, pause_req, resume_req, teardown_req,
}
use myyima.Flib.Names.{name_eq, after_last}
use myyima.Text.{codes, until, strtok, strcasestr}
use myyima.Text.Numbers.{atoi_int}
use myyima.Rtsps.Front.{convert_sid}
use myyima.Rtsps.Front.States.{
  options_cmd, describe_cmd, setup_cmd, rtsp_cmd, play_cmd, pause_cmd, teardown_cmd,
}
use myyima.Rtsps.Front.Connections.{Connection}

abbrev crlf : Name
crlf = codes "\r\n"

-- An int that is stored in a UInt16.
abbrev pub to_uint16 : ℤ → ℕ
to_uint16 n = (pos_part n + (2 ^ 32 - neg_part n)) % 2 ^ 16

-- From strcasestr(portinfo, key) to the first of `ds`, in `output[100]`.
unfoldable pub field_of : Name → Name → Name → Outcome Name
field_of key ds text = do
  found ← deref (strcasestr key text)
  fits 100 (drop (length key) (until ds found))

-- The two numbers of "client_port=".
unfoldable pub client_ports : Name → Outcome (ℤ × ℤ)
unfolding field_of
client_ports text = do
  output ← field_of (codes "client_port=") crlf text
  (rtp, rest) ← deref (strtok (codes "-") output)
  (rtcp, rest') ← deref (strtok (codes "-") rest)
  p ← atoi_int rtp
  q ← atoi_int rtcp
  ok (p, q)

abbrev pub Converted : Type 0
Converted = Outcome (Option SysmonDMsg × Connection)

-- cnvmessage with a new type and a new member of its union.
abbrev pub made : SysmonDinfo → Connection → Converted
made u c = ok (some (record { cmd_error = sysmond_ok; u = u }), c)

-- `rest` is what strtok goes on with; `buf` has 40 bytes.
unfoldable pub convert_describe : Name → Connection → Converted
convert_describe rest c = do
  (word, rest') ← deref (strtok (codes " ") rest)
  url ← fits 40 word
  name ← deref (after_last b'/' url)
  made (describe_req (convert_sid c.sid) name c.addr)
      (record c { movie_url = url; movie_name = name })

unfoldable pub convert_setup : Name → Connection → Converted
unfolding client_ports
convert_setup text c = do
  (p, q) ← client_ports text
  made (setup_req (convert_sid c.sid) (to_uint16 p) (to_uint16 q))
      (record c { client_rtp_port = p; client_rtcp_port = q })

-- A PLAY without a start is a RESUME.
unfoldable pub convert_play : (Name → FloatBits) → Name → Connection → Converted
unfolding field_of
convert_play atof text c = do
  output ← field_of (codes "npt=") (codes "-") text
  made
      (if leb 1 (length output)
        then play_req (convert_sid c.sid)
            (record { start_location = atof output; stop_location = c.movie_duration })
        else resume_req (convert_sid c.sid))
      c

unfoldable pub convert_teardown : Name → Connection → Converted
convert_teardown rest c = do
  (word, rest') ← deref (strtok (codes " ") rest)
  buf ← fits 40 word
  made (teardown_req (convert_sid c.sid) (if name_eq buf (codes "QUIT") then 1 else 0)) c

-- ConvertRequest: `m` is the message as it was before, which an unknown command leaves.
unfoldable pub convert_request :
    (Name → FloatBits) → Name → Option SysmonDMsg → Connection → Converted
unfolding convert_describe convert_setup convert_play convert_teardown
convert_request atof text m c = do
  (word, rest) ← deref (strtok (codes " ") text)
  command ← fits 10 word
  if name_eq command options_cmd
      then made (options_req (convert_sid c.sid)) c
      else if name_eq command describe_cmd
      then convert_describe rest c
      else if name_eq command setup_cmd || name_eq command rtsp_cmd
      then convert_setup text c
      else if name_eq command play_cmd
      then convert_play atof text c
      else if name_eq command pause_cmd
      then made (pause_req (convert_sid c.sid)) c
      else if name_eq command teardown_cmd
      then convert_teardown rest c
      else ok (m, c)
