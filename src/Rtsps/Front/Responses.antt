-- ===== src/Rtsps/Front/Responses.antt =====
-- ConvertResponse of Server/RTSPS/rtsps_front.c: the text for the client, and what is noted in the
-- connection. What the code asks of the host is a parameter, and so is the printing of floats.
use myyima.Prelude.{
  ℕ, ◌+◌, ◌-◌, Option, none, some, List, [], ◌∷◌, ◌++◌, map, leb, ltb, ◌||◌, if◌then◌else◌,
  get_elem?, take, drop, length,
}
use myyima.Outcome.{Outcome, ok, undefined, fits, ◌>>=◌}
use myyima.Messages.{
  Name, FloatBits, NptRange, SysmonDerror, SysmonDMsg, SysmonDinfo, options_resp, describe_resp,
  setup_resp, play_resp, pause_resp, resume_resp, teardown_resp,
}
use myyima.Text.{codes, concat}
use myyima.Flib.Names.{decimal}
use myyima.Text.Numbers.{show_int, int_of_word}
use myyima.Rtsps.Front.Connections.{Connection}

-- `mytime` is what strftime prints, `server_addr` the address of the host as inet_ntoa prints it,
-- `show_f` and `show_5f` print `%f` and `%.5f`, `stray_f` is what `%f` prints for the int 0,
-- `sdp_file` the lines that getline reads, each with the byte at its end.
pub record Host : Type 0 where
  pub mytime : Name
  pub tv_sec : ℕ
  pub server_addr : Name
  pub inet_ntoa : ℕ → Name
  pub atof : Name → FloatBits
  pub show_f : FloatBits → Name
  pub show_5f : FloatBits → Name
  pub stray_f : Name
  pub sdp_file : Name → Option (List Name)

abbrev status : SysmonDerror → Name → Name → Name
status SysmonDerror.sysmond_ok good bad = good
status SysmonDerror.sysmond_fail good bad = bad

-- A line of the file with CR LF in place of its last byte.
abbrev with_crlf : Name → Name
with_crlf [] = []
with_crlf (b ∷ []) = 13 ∷ 10 ∷ []
with_crlf (b ∷ d ∷ s) = b ∷ with_crlf (d ∷ s)

abbrev line_at : ℕ → List Name → Name
line_at k ls = elim (get_elem? ls k) [ none ↦ [] | some l ↦ with_crlf l ]

-- sdpMsg
unfoldable pub sdp_text : Host → ℕ → NptRange → FloatBits → Connection → List Name → Name
sdp_text host id range duration c ls = concat (
    codes "v=0\r\no=YimaServer "
    ∷ decimal id
    ∷ codes " "
    ∷ show_int (int_of_word host.tv_sec)
    ∷ codes " IN IP4 "
    ∷ host.inet_ntoa c.addr
    ∷ codes "\r\ns=/"
    ∷ c.movie_name
    ∷ codes "\r\nu=http:///\r\ne=admin@\r\nc=IN IP4 0.0.0.0\r\n"
    ∷ line_at 0 ls
    ∷ codes "t="
    ∷ host.show_f range.start_location
    ∷ codes " "
    ∷ host.stray_f
    ∷ codes "\r\na=control:*\r\n"
    ∷ line_at 1 ls
    ∷ codes "a=range:npt=0- "
    ∷ host.show_5f duration
    ∷ codes "\r\n"
    ∷ line_at 3 ls
    ∷ line_at 4 ls
    ∷ codes "a=3GPP-Adaptation-Support:1\r\n"
    ∷ map with_crlf (drop 5 ls))

-- sdpfile; it has 200 bytes, and a name of less than four wraps around.
unfoldable pub sdp_name : Connection → Outcome Name
sdp_name c =
    if ltb (length c.movie_name) 4 || leb 200 (length c.movie_name + 4)
    then undefined
    else ok (take (length c.movie_name - 4) c.movie_name ++ codes "_sdp.txt")

-- The description of the movie, in `sdpMsg[1000]`; a file that is not there is read through NULL.
unfoldable pub sdp_msg : Host → ℕ → NptRange → FloatBits → Connection → Outcome Name
unfolding sdp_text sdp_name
sdp_msg host id range duration c = do
  name ← sdp_name c
  sdp ← elim (host.sdp_file name) [
    | none ↦ undefined
    | some ls ↦ ok (sdp_text host id range duration c ls)
  ]
  if leb 1000 (length sdp) then undefined else ok sdp

unfoldable pub describe_text :
    Host → SysmonDerror → ℕ → NptRange → FloatBits → Connection → Outcome Name
unfolding sdp_msg
describe_text host e id range duration c = do
  sdp ← sdp_msg host id range duration c
  ok (
      concat (
        status e (codes "RTSP/1.0 200 OK\r\n") (codes "RTSP/1.0 FAIL\r\n")
        ∷ codes "Server: YimaPE\r\n"
        ∷ codes "Cseq: "
        ∷ show_int c.cseq
        ∷ codes "\r\n"
        ∷ codes "Last-Modified: Mon, 29 Mar 2010 08:09:42 GMT\r\nCache-Control: must-revalidate\r\n"
        ∷ codes "Content-length: "
        ∷ decimal (length sdp)
        ∷ codes "\r\nDate: "
        ∷ host.mytime
        ∷ codes "\r\nExpires: "
        ∷ host.mytime
        ∷ codes
            "\r\nContent-Type: application/sdp\r\nx-Accept-Retransmit: our-retransmit\r\nx-Accept-Dynamic-Rate: 1\r\nContent-Base: "
        ∷ c.movie_url
        ∷ codes "/\r\n\r\n"
        ∷ sdp
        ∷ []))

-- `stmpCseq`, into which the number is printed, has 10 bytes.
unfoldable pub options_text : SysmonDerror → Connection → Outcome Name
options_text SysmonDerror.sysmond_fail c = ok (codes "RTSP/1.0 FAIL\r\n")
options_text SysmonDerror.sysmond_ok c = do
  shown ← fits 10 (show_int c.cseq)
  ok (
      concat (
        codes "RTSP/1.0 200 OK\r\nServer: YimaPE\r\nCseq: "
        ∷ shown
        ∷ codes "\r\nPublic: DESCRIBE, SETUP, TEARDOWN, PLAY\r\n\r\n"
        ∷ []))

-- The id in `SID` ends at the zero byte that pads it.
unfoldable pub setup_text : Host → SysmonDerror → ℕ → ℕ → ℕ → Connection → Name
setup_text host e rtp rtcp ssrc c = concat (
    codes "RTSP/1.0 "
    ∷ status e (codes "200 OK\r\n") (codes "FAIL\r\n")
    ∷ codes "Server: YimaPE\r\n"
    ∷ codes "Cseq: "
    ∷ show_int c.cseq
    ∷ codes "\r\n"
    ∷ codes "Last-Modified: Mon, 29 Mar 2010 08:09:42 GMT\r\nCache-Control: must-revalidate\r\n"
    ∷ codes "Session: "
    ∷ c.sid
    ∷ codes "\r\nDate: "
    ∷ host.mytime
    ∷ codes "\r\nExpires: "
    ∷ host.mytime
    ∷ codes "\r\nTransport: RTP/AVP;unicast;source="
    ∷ host.server_addr
    ∷ codes ";client_port="
    ∷ show_int c.client_rtp_port
    ∷ codes "-"
    ∷ show_int c.client_rtcp_port
    ∷ codes ";server_port="
    ∷ decimal rtp
    ∷ codes "-"
    ∷ decimal rtcp
    ∷ codes ";ssrc="
    ∷ show_int (int_of_word ssrc)
    ∷ codes "\r\n"
    ∷ codes
        "x-Transport-Options: late-tolerance=1.400000\r\nx-Retransmit: our-retransmit\r\nx-Dynamic-Rate: 1;rtt=15\r\n\r\n"
    ∷ [])

unfoldable pub play_text : Host → SysmonDerror → NptRange → ℕ → Connection → Name
play_text host e range seqno c = concat (
    codes "RTSP/1.0 "
    ∷ status e (codes " 200 OK\r\n") (codes "FAIL\r\n")
    ∷ codes "Server: YimaPE\r\n"
    ∷ codes "Cseq: "
    ∷ show_int c.cseq
    ∷ codes "\r\n"
    ∷ codes "Session: "
    ∷ c.sid
    ∷ codes "\r\nRange: npt="
    ∷ host.show_5f range.start_location
    ∷ codes "-"
    ∷ host.show_5f range.stop_location
    ∷ codes "\r\nRTP-Info: url="
    ∷ c.movie_url
    ∷ codes "/trackID=65537;seq="
    ∷ show_int (int_of_word seqno)
    ∷ codes ";rtptime=3750\r\n\r\n"
    ∷ [])

unfoldable pub pause_text : SysmonDerror → Name
pause_text e = codes "RTSP/1.0 " ++ status e (codes " 200 OK\r\n") (codes "FAIL\r\n")

unfoldable pub resume_text : SysmonDerror → Name
resume_text e = codes "RTSP/1.0 " ++ status e (codes "200 OK\r\n") (codes "FAIL\r\n")

unfoldable pub teardown_text : SysmonDerror → Connection → Name
teardown_text e c = concat (
    codes "RTSP/1.0 "
    ∷ status e (codes "200 OK\r\n") (codes "FAIL\r\n")
    ∷ codes "Cseq: "
    ∷ show_int c.cseq
    ∷ codes "\r\n"
    ∷ codes "Session: "
    ∷ c.sid
    ∷ codes "\r\nConnection: Close"
    ∷ [])

-- The text that ConvertResponse makes.
unfoldable pub response_text : Host → SysmonDMsg → Connection → Outcome Name
unfolding describe_text options_text setup_text play_text pause_text resume_text teardown_text
response_text host m c = elim m.u [
  | options_resp id ↦ options_text m.cmd_error c
  | describe_resp id range duration ↦ describe_text host m.cmd_error id range duration c
  | setup_resp id rtp rtcp ssrc ↦ ok (setup_text host m.cmd_error rtp rtcp ssrc c)
  | play_resp id range seqno timestamp ↦ ok (play_text host m.cmd_error range seqno c)
  | pause_resp id ↦ ok (pause_text m.cmd_error)
  | resume_resp id ↦ ok (resume_text m.cmd_error)
  | teardown_resp id ↦ ok (teardown_text m.cmd_error c)
  | _ ↦ ok []
]

-- What ConvertResponse notes.
abbrev pub noted : SysmonDinfo → Connection → Connection
noted (describe_resp id range duration) c = record c { movie_duration = duration }
noted (setup_resp id rtp rtcp ssrc) c = record c { ssrc = int_of_word ssrc }
noted _ c = c
