-- ===== src/Rtsps/Tests.antt =====
-- A client that connects, asks for the options, and gets its answer.
use myyima.Prelude.{
  ◌≡◌, ◌++◌, refl, none, some, [], ◌∷◌, true, false, arith, replicate, All-replicate,
}
use myyima.Prelude.Int.{pos}
use myyima.Outcome.{ok}
use myyima.Messages.{Name, SysmonDMsg, sysmond_ok, options_req, options_resp, setup_req}
use myyima.Flib.Names.{decimal}
use myyima.Text.{codes}
use myyima.Text.Numbers.{atoi_int}
use myyima.Rtsps.Back.{
  Backend, to_link, to_node, unused, is_crash, on_link, on_node, get_sid_request, get_sid_response,
  send_to_nodes,
}
use myyima.Rtsps.Back.Table.{IsBackend, unused-IsEntry}
use myyima.Rtsps.Front.{convert_sid, convert_loop}
use myyima.Rtsps.Front.Sids.{IsSid, IsDigit}
use myyima.Rtsps.Front.States.{init, next_state}
use myyima.Rtsps.Front.Connections.{
  initiate_frontend, Connection, Frontend, no_connection, new_client, entry, put, find_entry,
}
use myyima.Rtsps.Front.Connections.Entries.{answer}
use myyima.Rtsps.Front.Requests.{made, convert_setup, convert_request}
use myyima.Rtsps.Front.Responses.{Host, response_text, options_text}
use myyima.Rtsps.Front.Run.{
  new_connection, on_request, to_backend, to_client, cseq_of, send_request, take_request,
  accept_request, on_response,
}
use myyima.Rtsps.Front.Run.Events.{IsFrontend, at_start, connects, requests, Reach-IsFrontend}
use myyima.Rtsps.Front.Run.Accepts.{Waits, accept_request-names}
use myyima.Rtsps.Front.Run.Replies.{succeeded, cseq_of-response_text, convert_setup-decimal}
use myyima.Rtsps.RoundTrip.{on_response-accept_request}

abbrev host : Host
host = record {
  mytime = codes "Mon, 29 Mar 2010 08:09:42  GMT";
  tv_sec = 1269850182;
  server_addr = codes "10.0.0.1";
  inet_ntoa = λ a. codes "10.0.0.2";
  atof = λ s. 0;
  show_f = λ x. codes "0.000000";
  show_5f = λ x. codes "0.00000";
  stray_f = codes "0.000000";
  sdp_file = λ n. none;
}

abbrev zeros : Name
zeros = replicate 19 b'0'

zeros-IsSid : IsSid zeros
zeros-IsSid = record {
  size = refl;
  digits = All-replicate IsDigit 19 b'0' (record { above = omega arith; below = omega arith });
}

abbrev client : Connection
client = new_client zeros 7 1 no_connection

abbrev one_client : Frontend
one_client = record { conntable = client ∷ []; cnvmessage = none }

abbrev question : Name
question = codes "OPTIONS * RTSP/1.0\r\nCSeq: 2\r\n\r\n"

abbrev request : SysmonDMsg
request = record { cmd_error = sysmond_ok; u = options_req 0 }

abbrev asked : Frontend
asked = record {
  conntable = record client { cseq = pos 2; pending = true } ∷ [];
  cnvmessage = some request;
}

abbrev response : SysmonDMsg
response = succeeded (options_resp 0)

abbrev reply : Name
reply =
    codes
      "RTSP/1.0 200 OK\r\nServer: YimaPE\r\nCseq: 2\r\nPublic: DESCRIBE, SETUP, TEARDOWN, PLAY\r\n\r\n"

asks : accept_request host question 0 one_client ≡ ok (asked, to_backend request ∷ [])
unfolding accept_request take_request send_request convert_request cseq_of atoi_int next_state
    convert_sid convert_loop
asks = refl

makes_reply : response_text host response (entry 0 asked) ≡ ok reply
unfolding response_text options_text decimal
makes_reply = refl

abbrev idle : Backend
idle = record { reqtable = unused ∷ []; numnodes = 1 }

abbrev busy : Backend
busy = record { reqtable = record { sid = 0; pending = 1; valid = true } ∷ []; numnodes = 1 }

idle-IsBackend : IsBackend idle
idle-IsBackend = record { some_node = omega arith; entries = (unused-IsEntry 1, tt) }

takes_over : on_link idle request ≡ ok (busy, to_node 0 request ∷ [])
unfolding on_link is_crash get_sid_request send_to_nodes
takes_over = refl

found_0 : find_entry (convert_sid zeros) one_client.conntable ≡ some 0
unfolding convert_sid convert_loop
found_0 = refl

no_crash : is_crash request.u ≡ false
unfolding is_crash
no_crash = refl

same_session : get_sid_response response.u ≡ convert_sid zeros
unfolding get_sid_response convert_sid convert_loop
same_session = refl

stays_init : next_state init (codes "OPTIONS") ≡ ok init
unfolding next_state
stays_init = refl

accept_request-names_example :
    (get_sid_request request.u ≡ convert_sid zeros) × Waits 0 one_client request asked
accept_request-names_example = accept_request-names host question 0 one_client asked request asks

on_response-accept_request_example :
    (on_node busy response ≡ ok (idle, to_link response ∷ []))
    × (on_response host response asked
        ≡ ok (put 0 (answer response init (entry 0 asked)) asked, to_client (pos 7) reply ∷ []))
on_response-accept_request_example =
    on_response-accept_request host question reply 0 one_client asked idle busy request response
      (to_node 0 request ∷ []) init zeros-IsSid found_0 asks idle-IsBackend refl no_crash refl
      takes_over same_session makes_reply stays_init

cseq_of-response_text_example : cseq_of reply ≡ ok (pos 2)
cseq_of-response_text_example =
    cseq_of-response_text host (record client { pending = true }) 2 (omega arith) (options_resp 0)
      reply refl makes_reply

abbrev ports : Name
ports = codes "client_port=6970-6971\r\n\r\n"

convert_setup-decimal_example :
    convert_setup (codes "SETUP * RTSP/1.0\r\nTransport: RTP/AVP;unicast;" ++ ports) client
    ≡ made
        (setup_req (convert_sid zeros) 6970 6971)
        (record client { client_rtp_port = pos 6970; client_rtcp_port = pos 6971 })
unfolding decimal
convert_setup-decimal_example =
    convert_setup-decimal (codes "SETUP * RTSP/1.0\r\nTransport: RTP/AVP;unicast;" ++ ports)
      (codes "\n\r\n") client 6970 6971 (omega arith) (omega arith) refl

abbrev connected : Frontend
connected = put 0 client initiate_frontend

abbrev connected_asked : Frontend
connected_asked =
    record (put 0 (record client { cseq = pos 2; pending = true }) initiate_frontend) {
      cnvmessage = some request;
    }

no_such_session : find_entry (convert_sid zeros) initiate_frontend.conntable ≡ none
unfolding convert_sid convert_loop
no_such_session = refl

connects_first : new_connection zeros 7 1 initiate_frontend ≡ ok connected
unfolding new_connection convert_sid convert_loop
connects_first = refl

asks_first : on_request host 7 question connected ≡ ok (connected_asked, to_backend request ∷ [])
unfolding on_request accept_request take_request send_request convert_request cseq_of atoi_int
    next_state convert_sid convert_loop
asks_first = refl

Reach-IsFrontend_example : IsFrontend connected_asked
Reach-IsFrontend_example = Reach-IsFrontend connected_asked (
    requests host 7 question (to_backend request ∷ [])
      (connects zeros 7 1 at_start no_such_session refl connects_first) asks_first)
