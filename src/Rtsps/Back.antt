-- ===== src/Rtsps/Back.antt =====
-- The RTSP back end: Server/RTSPS/rtsps_back.c. It passes each request of the front end on to
-- every node, and the last node's response back. A message that arrives is one call of `step`;
-- what the code sends is returned in order. A failing `send` or `recv` ends the process in the
-- source and is left out here.
pub mod Table
pub mod Refinement
pub mod History
mod Tests
use myyima.Prelude.{
  ℕ, ◌+◌, ◌-◌, Bool, true, false, not, ◌&&◌, Option, none, some, List, [], ◌∷◌, ltb, ◌==◌,
  if◌then◌else◌, get_or, set, replicate, find_index,
}
use Prim.Native.Nat.{zero, suc}
use myyima.Outcome.{Outcome, ok, aborted, ◌>>=◌}
use myyima.Messages.{
  SysmonDinfo, SysmonDMsg, na_sid, options_resp, options_req, describe_req, describe_resp,
  setup_req, setup_resp, play_req, play_resp, pause_req, pause_resp, resume_req, resume_resp,
  teardown_req, teardown_resp, exit_req,
}

pub record RequestInfo : Type 0 where
  pub sid : ℕ
  pub pending : ℕ
  pub valid : Bool

-- MAXNUMCLIENTS
abbrev pub max_num_clients : ℕ
max_num_clients = 100

abbrev pub unused : RequestInfo
unused = record { sid = na_sid; pending = 0; valid = false }

pub record Backend : Type 0 where
  pub reqtable : List RequestInfo
  pub numnodes : ℕ

-- The tables as InitiateBackend leaves them: one node, no request.
unfoldable pub initiate_backend : Backend
initiate_backend = record { reqtable = replicate max_num_clients unused; numnodes = 1 }

-- GetSID_Request. The default NA is the session id 2^64 - 5.
unfoldable pub get_sid_request : SysmonDinfo → ℕ
get_sid_request (options_req s) = s
get_sid_request (describe_req s name addr) = s
get_sid_request (setup_req s rtp rtcp) = s
get_sid_request (play_req s range) = s
get_sid_request (resume_req s) = s
get_sid_request (pause_req s) = s
get_sid_request (teardown_req s crash) = s
get_sid_request _ = na_sid

-- GetSID_Response
unfoldable pub get_sid_response : SysmonDinfo → ℕ
get_sid_response (describe_resp s range duration) = s
get_sid_response (options_resp s) = s
get_sid_response (setup_resp s rtp rtcp ssrc) = s
get_sid_response (play_resp s range seqno timestamp) = s
get_sid_response (resume_resp s) = s
get_sid_response (pause_resp s) = s
get_sid_response (teardown_resp s) = s
get_sid_response _ = na_sid

abbrev pub is_free : RequestInfo → Bool
is_free r = not r.valid

abbrev pub waits_for : ℕ → RequestInfo → Bool
waits_for sid r = r.valid && r.sid == sid

-- FindFreeEntry. The result NA is `none`.
abbrev pub find_free_entry : List RequestInfo → Option ℕ
find_free_entry = find_index is_free

-- FindRequest
abbrev pub find_request : ℕ → List RequestInfo → Option ℕ
find_request sid = find_index (waits_for sid)

-- What is sent, to one node or over the link to the front end.
pub data Output : Type 0 where
  to_node : ℕ → SysmonDMsg → Output
  to_link : SysmonDMsg → Output

-- `for (j = 0; j < numnodes; j++) send(nodes[j], …)`, from the node `j` on.
unfoldable pub send_to_nodes : ℕ → ℕ → SysmonDMsg → List Output
send_to_nodes j zero m = []
send_to_nodes j (suc n) m = to_node j m ∷ send_to_nodes (j + 1) n m

-- The local `flag`: a teardown for a client that is gone wants no response.
unfoldable pub is_crash : SysmonDinfo → Bool
is_crash (teardown_req s crash) = crash == 1
is_crash _ = false

-- A message on `link_b`.
unfoldable pub on_link : Backend → SysmonDMsg → Outcome (Backend × List Output)
on_link b m = elim (find_free_entry b.reqtable) [
  | none ↦ aborted
  | some i ↦ ok (
    if is_crash m.u then b else record b {
      reqtable =
          set b.reqtable i
            (record { sid = get_sid_request m.u; pending = b.numnodes; valid = true });
    },
    send_to_nodes 0 b.numnodes m,
  )
]

-- The response `m` for the entry `i`.
respond : Backend → SysmonDMsg → ℕ → Backend × List Output
respond b m i =
    let r = get_or b.reqtable i unused in
    if ltb 1 r.pending
    then (record b { reqtable = set b.reqtable i (record r { pending = r.pending - 1 }) }, [])
    else (record b { reqtable = set b.reqtable i unused }, to_link m ∷ [])

-- A message from a node, other than SYSMOND_RTSP_EXIT_REQ.
unfoldable pub on_node : Backend → SysmonDMsg → Outcome (Backend × List Output)
unfolding respond
on_node b m =
    if get_sid_response m.u == na_sid
    then aborted
    else elim (find_request (get_sid_response m.u) b.reqtable) [
      | none ↦ aborted
      | some i ↦ ok (respond b m i)
    ]

-- One round of the main loop of RunBackend: a message from the link, or from a node. After an
-- exit request the back end passes it on, closes its sockets and returns.
pub data Input : Type 0 where
  from_link from_node : SysmonDMsg → Input

pub data Next : Type 0 where
  running : Backend → Next
  terminated : Next

unfoldable pub is_exit : SysmonDinfo → Bool
is_exit exit_req = true
is_exit _ = false

unfoldable pub step : Backend → Input → Outcome (Next × List Output)
step b (from_link m) = do (b', out) ← on_link b m; ok (running b', out)
step b (from_node m) =
    if is_exit m.u
    then ok (terminated, to_link m ∷ [])
    else do (b', out) ← on_node b m; ok (running b', out)
