-- ===== src/Rtsps/Front/Connections.antt =====
-- The table of connections of Server/RTSPS/rtsps_front.c, and what RunFrontend keeps between its
-- rounds.
pub mod Entries
mod Tests
use myyima.Prelude.{
  ℕ, Bool, true, false, Option, none, some, List, [], ◌&&◌, ◌==◌, get_or, set, replicate,
  find_index, not,
}
use myyima.Prelude.Int.{ℤ, pos, negsuc}
use myyima.Messages.{Name, FloatBits, SysmonDMsg, na_sid}
use myyima.Rtsps.Back.{max_num_clients}
use myyima.Rtsps.Front.{convert_sid, sid_len}
use myyima.Rtsps.Front.States.{FrontState, init, terminate}

-- struct connection
pub record Connection : Type 0 where
  pub sid : Name
  pub int_sid : ℕ
  pub fd : ℤ
  pub state : FrontState
  pub pending : Bool
  pub valid : Bool
  pub addr : ℕ
  pub movie_url : Name
  pub movie_name : Name
  pub cseq : ℤ
  pub client_rtp_port : ℤ
  pub client_rtcp_port : ℤ
  pub movie_duration : FloatBits
  pub ssrc : ℤ

-- What InitiateFrontend writes into an entry, and the branch for a client that has gone; NA is -5.
abbrev pub cleared : Connection → Connection
cleared c = record c {
  sid = replicate sid_len 0;
  int_sid = na_sid;
  fd = negsuc 4;
  state = terminate;
  pending = false;
  valid = false;
}

-- An entry at the start, in static memory.
abbrev pub no_connection : Connection
no_connection = cleared (record {
  sid = [];
  int_sid = 0;
  fd = pos 0;
  state = terminate;
  pending = false;
  valid = false;
  addr = 0;
  movie_url = [];
  movie_name = [];
  cseq = pos 0;
  client_rtp_port = pos 0;
  client_rtcp_port = pos 0;
  movie_duration = 0;
  ssrc = pos 0;
})

-- What RunFrontend keeps: the table, and the message that was last made for the back end; `none`
-- as long as there was none.
pub record Frontend : Type 0 where
  pub conntable : List Connection
  pub cnvmessage : Option SysmonDMsg

abbrev pub initiate_frontend : Frontend
initiate_frontend = record {
  conntable = replicate max_num_clients no_connection;
  cnvmessage = none;
}

abbrev pub entry : ℕ → Frontend → Connection
entry i f = get_or f.conntable i no_connection

abbrev pub put : ℕ → Connection → Frontend → Frontend
put i c f = record f { conntable = set f.conntable i c }

-- FindEmptyEntry
abbrev pub find_empty_entry : List Connection → Option ℕ
find_empty_entry = find_index (λ c. not c.valid)

abbrev pub is_session : ℕ → Connection → Bool
is_session id c = c.valid && c.int_sid == id

-- FindEntry
abbrev pub find_entry : ℕ → List Connection → Option ℕ
find_entry id = find_index (is_session id)

-- The scan for the socket that data came from.
abbrev pub is_socket : ℕ → Connection → Bool
is_socket i c = elim c.fd [ pos k ↦ k == i | negsuc k ↦ false ]

-- A new client on the socket `newfd` with the address `a`, in the entry `c`; `s` is the id that
-- GenerateSID drew.
abbrev pub new_client : Name → ℕ → ℕ → Connection → Connection
new_client s newfd a c = record c {
  sid = s;
  int_sid = convert_sid s;
  fd = pos newfd;
  state = init;
  pending = false;
  valid = true;
  addr = a;
}
