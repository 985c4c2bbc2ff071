-- ===== src/Rtsps/RoundTrip.antt =====
-- The RTSP front end and back end together: Server/RTSPS/rtsps_front.c over the link to
-- Server/RTSPS/rtsps_back.c and back.
use myyima.Prelude.{
  ℕ, ◌≡◌, ◌≢◌, refl, sym, ◌∙◌, ap, subst, true, false, some, List, [], ◌∷◌, arith, ◌&&◌, ◌==◌,
  get_or-set, find_index-some,
}
use myyima.Outcome.{ok}
use myyima.Messages.{Name, SysmonDMsg, na_sid}
use myyima.Rtsps.Back.{Backend, Output, to_link, is_crash, on_link, on_node, get_sid_response}
use myyima.Rtsps.Back.Table.{IsBackend, due}
use myyima.Rtsps.Back.Refinement.{on_node-on_link}
use myyima.Rtsps.Front.{convert_sid}
use myyima.Rtsps.Front.Sids.{IsSid, convert_sid-lt}
use myyima.Rtsps.Front.States.{FrontState, next_state}
use myyima.Rtsps.Front.Connections.{
  Connection, Frontend, no_connection, entry, put, find_entry, is_session,
}
use myyima.Rtsps.Front.Connections.Entries.{answer, find_index-set_alike, on_response_accepts}
use myyima.Rtsps.Front.Requests.Sent.{identity}
use myyima.Rtsps.Front.Responses.{Host, response_text}
use myyima.Rtsps.Front.Run.{to_backend, to_client, accept_request, on_response, response_command}
use myyima.Rtsps.Front.Run.Accepts.{Waits, accept_request-names}

not_na : (id : ℕ) → id ≢ na_sid → (id == na_sid) ≡ false
not_na id h = ground (arith, h)

-- What the front end has noted while it waits.
module _ (id i : ℕ) (f f' : Frontend) (m : SysmonDMsg) (found : find_entry id f.conntable ≡ some i)
    (w : Waits i f m f') where
  abbrev waiting : Connection
  waiting = record w.0 { pending = true }

  entry-waits : entry i f' ≡ waiting
  entry-waits = rw w.2 (
      get_or-set f.conntable i waiting no_connection
        (find_index-some (is_session id) f.conntable i no_connection found).0)

  find_entry-waits : find_entry id f'.conntable ≡ some i
  find_entry-waits = rw w.2 (
      find_index-set_alike (is_session id) f.conntable i waiting no_connection
        (ap (λ d. d.0 && d.1 == id) w.1)
      ∙ found)

-- From the request of a client to the answer it gets, with one node. The client `i` has an id of
-- SID_LEN digits under which FindEntry finds it; its request has been accepted and sent over the
-- link as `m`, which is no teardown for a client that is gone; no response to the session is due in
-- the back end, which takes `m` over as well. Then any response of the node to the session passes
-- the back end, whose table is as it was before, and, if its text can be made and NextState has a
-- case for it, reaches that client, who is no longer pending and has entered the state that
-- NextState gives.
pub on_response-accept_request :
    (host : Host) (text reply : Name) (i : ℕ) (f f' : Frontend) (b b' : Backend) (m m' : SysmonDMsg)
    (out : List Output) (s : FrontState)
    → IsSid (entry i f).sid
    → find_entry (convert_sid (entry i f).sid) f.conntable ≡ some i
    → accept_request host text i f ≡ ok (f', to_backend m ∷ [])
    → IsBackend b
    → b.numnodes ≡ 1
    → is_crash m.u ≡ false
    → due (convert_sid (entry i f).sid) b ≡ 0
    → on_link b m ≡ ok (b', out)
    → get_sid_response m'.u ≡ convert_sid (entry i f).sid
    → response_text host m' (entry i f') ≡ ok reply
    → next_state (entry i f).state (response_command m'.u) ≡ ok s
    → (on_node b' m' ≡ ok (b, to_link m' ∷ []))
      × (on_response host m' f'
          ≡ ok (put i (answer m' s (entry i f')) f', to_client (entry i f).fd reply ∷ []))
on_response-accept_request host text reply i f f' b b' m m' out s is_sid found sends v one stays
      none_due takes same made next =
    let id = convert_sid (entry i f).sid in
    let ne = (convert_sid-lt (entry i f).sid is_sid).1 in
    let (names, w) = accept_request-names host text i f f' m sends in
    let at = entry-waits id i f f' m found w in
    let kept : identity (entry i f') ≡ identity (entry i f) = rw at w.1 in
    let there = find_entry-waits id i f f' m found w in
    let pends : (entry i f').pending ≡ true = rw at refl in
    let next' : next_state (entry i f').state (response_command m'.u) ≡ ok s =
      subst (λ x. next_state x (response_command m'.u) ≡ ok s) (sym (ap (λ d. d.3) kept)) next in
    (
      on_node-on_link b b' m m' out v one stays (same ∙ sym names) (λ q. ne (sym names ∙ q))
          (rw names none_due) takes,
      subst
          (λ k.
            on_response host m' f'
            ≡ ok (put i (answer m' s (entry i f')) f', to_client k reply ∷ []))
          (ap (λ d. d.2) kept)
          (on_response_accepts host m' i f' reply s (rw same (not_na id ne)) (rw same there) pends
            made next'),
    )
