-- ===== src/Rtsps/Back/Tests.antt =====
-- The back end on a few messages.
use myyima.Prelude.{◌≡◌, ◌↔◌, refl, true, List, [], ◌∷◌, arith, replicate, count}
use myyima.Outcome.{ok, aborted}
use myyima.Messages.{SysmonDMsg, sysmond_ok, options_req, options_resp}
use myyima.Rtsps.Back.{
  Backend, to_link, to_node, running, Input, from_link, from_node, initiate_backend, on_link,
  on_node, step, is_free, unused, send_to_nodes, get_sid_request, get_sid_response, is_crash,
  is_exit,
}
use myyima.Rtsps.Back.Table.{IsBackend, initiate_backend-IsBackend, due}
use myyima.Rtsps.Back.Refinement.{
  LinkPost, NodePost, on_link-LinkPost, on_node-NodePost, on_node-aborted, on_node-on_link,
  on_link-aborted,
}
use myyima.Rtsps.Back.History.{Accounts, run, run-Accounts}

abbrev request : SysmonDMsg
request = record { cmd_error = sysmond_ok; u = options_req 42 }

abbrev response : SysmonDMsg
response = record { cmd_error = sysmond_ok; u = options_resp 42 }

abbrev asked_once : Backend
asked_once = record {
  reqtable = record { sid = 42; pending = 1; valid = true } ∷ replicate 99 unused;
  numnodes = 1;
}

asked_once_runs : on_link initiate_backend request ≡ ok (asked_once, to_node 0 request ∷ [])
unfolding on_link initiate_backend get_sid_request is_crash send_to_nodes
asked_once_runs = refl

on_link-LinkPost_example : LinkPost initiate_backend request (asked_once, to_node 0 request ∷ [])
on_link-LinkPost_example =
    on_link-LinkPost initiate_backend request (asked_once, to_node 0 request ∷ [])
      initiate_backend-IsBackend asked_once_runs

nothing_due : due (get_sid_request request.u) initiate_backend ≡ 0
unfolding initiate_backend
nothing_due = refl

one_node : initiate_backend.numnodes ≡ 1
unfolding initiate_backend
one_node = refl

request_sid : get_sid_request request.u ≡ 42
unfolding get_sid_request
request_sid = refl

response_sid : get_sid_response response.u ≡ 42
unfolding get_sid_response
response_sid = refl

on_node-on_link_example : on_node asked_once response ≡ ok (initiate_backend, to_link response ∷ [])
unfolding get_sid_request get_sid_response is_crash
on_node-on_link_example =
    on_node-on_link initiate_backend asked_once request response (to_node 0 request ∷ [])
      initiate_backend-IsBackend one_node refl refl (λ e. omega (arith, e)) nothing_due
      asked_once_runs

asked_once-IsBackend : IsBackend asked_once
asked_once-IsBackend =
    (on_link-LinkPost initiate_backend request (asked_once, to_node 0 request ∷ [])
      initiate_backend-IsBackend asked_once_runs).0

answered_once : on_node asked_once response ≡ ok (initiate_backend, to_link response ∷ [])
unfolding on_node initiate_backend get_sid_response
answered_once = refl

on_node-NodePost_example : NodePost asked_once response (initiate_backend, to_link response ∷ [])
on_node-NodePost_example =
    on_node-NodePost asked_once response (initiate_backend, to_link response ∷ [])
      asked_once-IsBackend answered_once

on_node-aborted_example :
    on_node initiate_backend response ≡ aborted
    ↔ due (get_sid_response response.u) initiate_backend ≡ 0
on_node-aborted_example =
    on_node-aborted initiate_backend response initiate_backend-IsBackend
      (λ e. omega (arith, e, response_sid))

on_link-aborted_example :
    on_link asked_once request ≡ aborted ↔ count is_free asked_once.reqtable ≡ 0
on_link-aborted_example = on_link-aborted asked_once request

abbrev exchange : List Input
exchange = from_link request ∷ from_node response ∷ []

exchange_runs :
    run initiate_backend exchange
    ≡ ok (running initiate_backend, to_node 0 request ∷ to_link response ∷ [])
unfolding run step on_link on_node initiate_backend get_sid_request get_sid_response is_crash
    is_exit send_to_nodes
exchange_runs = refl

run-Accounts_example :
    Accounts initiate_backend initiate_backend exchange (to_node 0 request ∷ to_link response ∷ [])
run-Accounts_example =
    run-Accounts initiate_backend initiate_backend exchange
      (to_node 0 request ∷ to_link response ∷ []) initiate_backend-IsBackend exchange_runs
