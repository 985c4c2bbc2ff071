-- ===== src/Rtsps/Front/Run.antt =====
-- RunFrontend of Server/RTSPS/rtsps_front.c, one function for each branch of its loop. A failing
-- `accept` or `send` ends the process in the source and is left out here, and a client takes all
-- that is sent to it.
pub mod Accepts
pub mod Events
pub mod Replies
use myyima.Prelude.{
  ℕ, Bool, true, false, Option, none, some, List, [], ◌∷◌, ◌==◌, leb, if◌then◌else◌, drop, length,
  find_index,
}
use myyima.Prelude.Int.{ℤ}
use myyima.Outcome.{Outcome, ok, aborted, undefined, ◌>>=◌}
use myyima.Messages.{
  Name, SysmonDinfo, SysmonDMsg, na_sid, options_resp, describe_resp, setup_resp, play_resp,
  pause_resp, resume_resp, teardown_resp,
}
use myyima.Text.{codes, concat, until, strcasestr}
use myyima.Text.Numbers.{atoi_int, show_int}
use myyima.Rtsps.Back.{get_sid_response}
use myyima.Rtsps.Front.States.{
  FrontState, na, set_param, next_state, options_cmd, describe_cmd, setup_cmd, play_cmd, pause_cmd,
  teardown_cmd,
}
use myyima.Rtsps.Front.Connections.{
  Connection, Frontend, cleared, entry, put, find_empty_entry, find_entry, is_socket, new_client,
}
use myyima.Rtsps.Front.Requests.{deref, fits, convert_request}
use myyima.Rtsps.Front.Responses.{Host, response_text, noted}

-- What is sent: a message over the link to the back end, a text to the client on a socket.
pub data FrontEffect : Type 0 where
  to_backend : SysmonDMsg → FrontEffect
  to_client : ℤ → Name → FrontEffect

abbrev pub Done : Type 0
Done = Outcome (Frontend × List FrontEffect)

-- The branch for the listener: a client on the socket `newfd`, with the address `a`, for which
-- GenerateSID drew `s`.
unfoldable pub new_connection : Name → ℕ → ℕ → Frontend → Outcome Frontend
new_connection s newfd a f = elim (find_empty_entry f.conntable) [
  | none ↦ aborted
  | some i ↦ ok (put i (new_client s newfd a (entry i f)) f)
]

-- What ConvertResponse writes to `command`, for the messages that have a session id.
abbrev pub response_command : SysmonDinfo → Name
response_command (options_resp s) = options_cmd
response_command (describe_resp s range duration) = describe_cmd
response_command (setup_resp s rtp rtcp ssrc) = setup_cmd
response_command (pause_resp s) = pause_cmd
response_command (teardown_resp s) = teardown_cmd
response_command _ = play_cmd

-- The response goes out, and the client's next state is entered.
unfoldable pub answered : Host → SysmonDMsg → ℕ → Frontend → Done
unfolding response_text next_state
answered host m i f =
    let c = entry i f in
    if c.pending
    then (response_text host m c >>= λ text. next_state c.state (response_command m.u) >>= λ s.
        ok
          (put i (record (noted m.u c) { pending = false; state = s }) f, to_client c.fd text ∷ []))
    else aborted

-- The branch for the link, with a message that is not SYSMOND_RTSP_EXIT_REQ.
unfoldable pub on_response : Host → SysmonDMsg → Frontend → Done
unfolding answered get_sid_response
on_response host m f =
    if get_sid_response m.u == na_sid
    then aborted
    else elim (find_entry (get_sid_response m.u) f.conntable) [
      | none ↦ ok (f, [])
      | some i ↦ answered host m i f
    ]

abbrev pub cseq_key : Name
cseq_key = codes "cseq:"

-- The number after "cseq:", from `output[100]`; 0 without one.
unfoldable pub cseq_of : Name → Outcome ℤ
unfolding atoi_int
cseq_of text = elim (strcasestr cseq_key text) [
  | none ↦ atoi_int []
  | some found ↦ (fits 100 (drop 5 (until (codes "\r\n") found)) >>= λ output. atoi_int output)
]

unfoldable pub set_parameter_text : Connection → Name
set_parameter_text c = concat (
    codes "RTSP/1.0 200 OK\r\nServer: YimaPE\r\nCseq: "
    ∷ show_int c.cseq
    ∷ codes "\r\nSession: "
    ∷ c.sid
    ∷ codes "\r\n\r\n"
    ∷ [])

-- The message goes out as it stands; before the first one it holds no value.
unfoldable pub send_request : Host → Name → ℕ → Connection → Frontend → Done
unfolding convert_request
send_request host text i c f = convert_request host.atof text f.cnvmessage c >>= λ r.
    deref r.0 >>= λ m.
    ok (record (put i (record r.1 { pending = true }) f) { cnvmessage = r.0 }, to_backend m ∷ [])

-- What a command that leads to the state `s` is answered with. `na` ends the process;
-- SET_PARAMETER is answered at once.
unfoldable pub take_request : Host → Name → ℕ → Connection → FrontState → Frontend → Done
unfolding send_request set_parameter_text
take_request host text i c FrontState.na f = aborted
take_request host text i c FrontState.set_param f =
    ok (put i c f, to_client c.fd (set_parameter_text c) ∷ [])
take_request host text i c _ f = send_request host text i c f

-- A request for the connection `i`; `command` has ten bytes.
unfoldable pub accept_request : Host → Name → ℕ → Frontend → Done
unfolding take_request cseq_of next_state
accept_request host text i f = fits 10 (until (codes " ") text) >>= λ command. cseq_of text >>= λ n.
    let c = record (entry i f) { cseq = n } in
    next_state c.state command >>= λ s. take_request host text i c s f

-- The branch for data from the client on the socket `fd`; `buf` has 2048 bytes, and a zero is
-- written after the data.
unfoldable pub on_request : Host → ℕ → Name → Frontend → Done
unfolding accept_request
on_request host fd text f = fits 2048 text >>= λ buf. elim (find_index (is_socket fd) f.conntable) [
  | none ↦ aborted
  | some i ↦ accept_request host buf i f
]

-- The branch for a client that has gone: ConvertRequest gets a text of its own.
unfoldable pub on_close : Host → ℕ → Frontend → Done
unfolding convert_request
on_close host fd f = elim (find_index (is_socket fd) f.conntable) [
  | none ↦ aborted
  | some i ↦
      (convert_request host.atof (codes "teardown QUIT RTSP/1.0\r\n") f.cnvmessage (entry i f)
        >>= λ r. deref r.0 >>= λ m.
            ok (record (put i (cleared r.1) f) { cnvmessage = r.0 }, to_backend m ∷ []))
]
