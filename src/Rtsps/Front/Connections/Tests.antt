-- ===== src/Rtsps/Front/Connections/Tests.antt =====
-- Two clients of the front end, one of which has played.
use myyima.Prelude.{ℕ, ◌≡◌, ◌≢◌, refl, none, some, List, [], ◌∷◌, true, false}
use myyima.Prelude.Int.{pos}
use myyima.Outcome.{ok, undefined, aborted}
use myyima.Messages.{Name, SysmonDMsg, sysmond_ok, teardown_resp}
use myyima.Text.{codes}
use myyima.Flib.Names.{decimal}
use myyima.Rtsps.Back.{get_sid_response}
use myyima.Rtsps.Front.{convert_sid, convert_loop}
use myyima.Rtsps.Front.States.{play, terminate, next_state}
use myyima.Rtsps.Front.Connections.{
  Connection, Frontend, no_connection, new_client, find_entry, find_empty_entry, put,
}
use myyima.Rtsps.Front.Responses.{Host, response_text, teardown_text}
use myyima.Rtsps.Front.Run.{
  FrontEffect, to_client, new_connection, on_response, on_request, answered, accept_request,
}
use myyima.Rtsps.Front.Connections.Entries.{
  find_entry-new_connection, accept_request-teardown, on_response-on_response,
}

abbrev host : Host
host = record {
  mytime = codes "Mon, 29 Mar 2010 08:09:42  GMT";
  tv_sec = 1269850182;
  server_addr = codes "10.0.0.1";
  inet_ntoa = λ a. codes "10.0.0.2";
  atof = λ s. 0;
  show_f = λ x. codes "0.000000";
  show_5f = λ x. codes "0.00000";
  stray_f = codes "0.000000";
  sdp_file = λ n. none;
}

-- Zeros and a final seven.
abbrev sid_7 : Name
sid_7 = codes "0000000000000000007"

abbrev playing_client : Connection
playing_client = record no_connection {
  sid = codes "0000000000000000003";
  int_sid = 3;
  fd = pos 8;
  state = play;
  pending = true;
  valid = true;
  cseq = pos 5;
}

abbrev one_playing : Frontend
one_playing = record {
  conntable = no_connection ∷ playing_client ∷ no_connection ∷ [];
  cnvmessage = none;
}

abbrev one_gone : Frontend
one_gone = put 1 (record playing_client { state = terminate; pending = false }) one_playing

abbrev gone_msg : SysmonDMsg
gone_msg = record { cmd_error = sysmond_ok; u = teardown_resp 3 }

abbrev with_7 : Frontend
with_7 = put 0 (new_client sid_7 9 1 no_connection) one_playing

abbrev bye : List FrontEffect
bye =
    to_client (pos 8)
      (codes "RTSP/1.0 200 OK\r\nCseq: 5\r\nSession: 0000000000000000003\r\nConnection: Close")
    ∷ []

sid_7_is_free : find_entry (convert_sid sid_7) one_playing.conntable ≡ none
unfolding convert_sid convert_loop
sid_7_is_free = refl

connects : new_connection sid_7 9 1 one_playing ≡ ok with_7
unfolding new_connection
connects = refl

tears_down : on_response host gone_msg one_playing ≡ ok (one_gone, bye)
unfolding on_response answered next_state get_sid_response response_text teardown_text decimal
tears_down = refl

-- The word does not fit in ten bytes.
set_parameter_overflows :
    on_request host 8 (codes "SET_PARAMETER rtsp://h/m.mp4 RTSP/1.0\r\n\r\n") one_playing
    ≡ undefined
unfolding on_request accept_request
set_parameter_overflows = refl

find_entry-new_connection_example :
    ((i : ℕ) × (find_empty_entry one_playing.conntable ≡ some i)
      × (find_entry (convert_sid sid_7) with_7.conntable ≡ some i))
    × ((id : ℕ)
        → id ≢ convert_sid sid_7
        → find_entry id with_7.conntable ≡ find_entry id one_playing.conntable)
find_entry-new_connection_example =
    find_entry-new_connection sid_7 9 1 one_playing with_7 sid_7_is_free connects

found_3 : find_entry (get_sid_response gone_msg.u) one_playing.conntable ≡ some 1
unfolding get_sid_response
found_3 = refl

on_response-on_response_example : on_response host gone_msg one_gone ≡ aborted
on_response-on_response_example =
    on_response-on_response host host gone_msg gone_msg 1 one_playing one_gone bye found_3 refl
      tears_down

accept_request-teardown_example :
    accept_request host (codes "SETUP * RTSP/1.0\r\n") 1 one_gone ≡ undefined
accept_request-teardown_example =
    accept_request-teardown host host gone_msg 3 1 one_playing one_gone bye
      (codes "SETUP * RTSP/1.0\r\n") refl refl tears_down
