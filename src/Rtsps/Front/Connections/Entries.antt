-- ===== src/Rtsps/Front/Connections/Entries.antt =====
-- What the branches of RunFrontend (Server/RTSPS/rtsps_front.c) do to the connections: which entry
-- FindEntry finds after a client has connected, and what a response leaves.
use myyima.Prelude.{
  ℕ, zero, suc, ◌≡◌, ◌≢◌, ==_refl, refl, sym, ◌∙◌, Bool, true, false, none, some, List, [], ◌∷◌,
  arith, ◌==◌, get_or, set, find_index, find_index-some, find_index-set, find_index-none,
  get_or-set, Option-cases, Bool-cases, inl, inr, not, leb, length, drop, ap,
}
use myyima.Outcome.{
  ok, aborted, undefined, of_ok, >>=-eq-ok, aborted≢ok, undefined≢aborted, >>=-undefined,
  guard-eq-ok, unless-eq-ok, ok-injective,
}
use myyima.Messages.{
  Name, SysmonDinfo, SysmonDMsg, na_sid, teardown_resp, describe_resp, setup_resp,
}
use myyima.Text.{codes, until, strcasestr}
use myyima.Text.Numbers.{atoi_int≢aborted}
use myyima.Rtsps.Back.{get_sid_response}
use myyima.Rtsps.Front.{convert_sid}
use myyima.Rtsps.Front.States.{FrontState, next_state, teardown_cmd}
use myyima.Rtsps.Front.Connections.{
  Connection, Frontend, no_connection, entry, put, find_entry, find_empty_entry, is_session,
  new_client,
}
use myyima.Rtsps.Front.Responses.{Host, response_text, noted}
use myyima.Rtsps.Front.Run.{
  FrontEffect, to_client, new_connection, response_command, answered, on_response, cseq_of,
  cseq_key, accept_request,
}

-- A write that replaces an entry by one that passes the test alike is not seen by the scan.
pub find_index-set_alike {ℓ} :
    {A : Type ℓ} (p : A → Bool) (xs : List A) (i : ℕ) (v d : A)
    → p v ≡ p (get_or xs i d)
    → find_index p (set xs i v) ≡ find_index p xs
find_index-set_alike p [] i v d e = refl
find_index-set_alike p (x ∷ xs) zero v d e = rw e refl
find_index-set_alike p (x ∷ xs) (suc i) v d e = rw (find_index-set_alike p xs i v d e) refl

not_session : (id : ℕ) (c : Connection) → not c.valid ≡ true → is_session id c ≡ false
not_session id c h = ground arith

-- When GenerateSID has drawn an id that no valid entry has, and the table is not full, FindEntry
-- finds the new client under its id, in the entry that FindEmptyEntry chose, and finds every other
-- id where it found it before.
pub find_entry-new_connection :
    (s : Name) (newfd a : ℕ) (f f' : Frontend)
    → find_entry (convert_sid s) f.conntable ≡ none
    → new_connection s newfd a f ≡ ok f'
    → ((i : ℕ) × (find_empty_entry f.conntable ≡ some i)
        × (find_entry (convert_sid s) f'.conntable ≡ some i))
      × ((id : ℕ) → id ≢ convert_sid s → find_entry id f'.conntable ≡ find_entry id f.conntable)
unfolding new_connection
find_entry-new_connection s newfd a f f' fresh h =
    let t = f.conntable in
    elim (Option-cases (find_empty_entry t)) [
      | inl e ↦ absurd (aborted≢ok (sym (rw (new_connection, e) refl) ∙ h))
      | inr (i, e) ↦
          let (size, free) = find_index-some (λ c. not c.valid) t i no_connection e in
          let new = new_client s newfd a (entry i f) in
          of_ok {a = put i new f}
            (λ x.
              ((j : ℕ) × (find_empty_entry t ≡ some j)
                × (find_entry (convert_sid s) x.conntable ≡ some j))
              × ((id : ℕ) → id ≢ convert_sid s → find_entry id x.conntable ≡ find_entry id t))
            (rw (new_connection, e) refl) h
            (
              (
                i,
                e,
                find_index-set (is_session (convert_sid s)) t i new
                    ((find_index-none (is_session (convert_sid s)) t).0 fresh) size
                    (==_refl (convert_sid s)),
              ),
              λ id ne.
                  find_index-set_alike (is_session id) t i new no_connection
                    (ground (arith, ne, not_session id (entry i f) free)),
            )
    ]

-- A state that NextState has no case for.
abbrev IsFinal : FrontState → Type 0
IsFinal s = (c : Name) → next_state s c ≡ undefined

next_state-IsFinal : (s s' : FrontState) → next_state s teardown_cmd ≡ ok s' → IsFinal s'
unfolding next_state
next_state-IsFinal FrontState.init s' h = of_ok IsFinal refl h (λ c. refl)
next_state-IsFinal FrontState.start s' h = of_ok IsFinal refl h (λ c. refl)
next_state-IsFinal FrontState.ready s' h = of_ok IsFinal refl h (λ c. refl)
next_state-IsFinal FrontState.play s' h = of_ok IsFinal refl h (λ c. refl)
next_state-IsFinal FrontState.pause s' h = of_ok IsFinal refl h (λ c. refl)
next_state-IsFinal _ s' h = cc

cseq_of≢aborted : (text : Name) → cseq_of text ≢ aborted
unfolding cseq_of
cseq_of≢aborted text h = elim (Option-cases (strcasestr cseq_key text)) [
  | inl e ↦ atoi_int≢aborted [] (sym (rw (cseq_of, e) refl) ∙ h)
  | inr (found, e) ↦
      let output = drop 5 (until (codes "\r\n") found) in
      elim (Bool-cases (leb 100 (length output))) [
        | inl l ↦ undefined≢aborted (sym (rw (cseq_of, e, l) refl) ∙ h)
        | inr l ↦ atoi_int≢aborted output (sym (rw (cseq_of, e, l) refl) ∙ h)
      ]
]

accept_request-IsFinal :
    (host : Host) (text : Name) (i : ℕ) (f : Frontend)
    → IsFinal (entry i f).state
    → accept_request host text i f ≡ undefined
unfolding accept_request
accept_request-IsFinal host text i f final =
    let command = until (codes " ") text in
    elim (Bool-cases (leb 10 (length command))) [
      | inl e ↦ rw (accept_request, e) refl
      | inr e ↦
          rw (accept_request, e, final command)
            (>>=-undefined (cseq_of text) (cseq_of≢aborted text))
    ]

-- What `answered` leaves: the entry was pending, and it is written with a state that NextState
-- gave.
abbrev pub answer : SysmonDMsg → FrontState → Connection → Connection
answer m s c = record (noted m.u c) { pending = false; state = s }

pub answered_lem :
    (host : Host) (m : SysmonDMsg) (i : ℕ) (f f' : Frontend) (es : List FrontEffect)
    → answered host m i f ≡ ok (f', es)
    → (s : FrontState) × (text : Name) × ((entry i f).pending ≡ true)
      × (next_state (entry i f).state (response_command m.u) ≡ ok s)
      × (f' ≡ put i (answer m s (entry i f)) f)
      × (es ≡ to_client (entry i f).fd text ∷ [])
unfolding answered
answered_lem host m i f f' es h =
    let c = entry i f in
    let (pends, h₁) = guard-eq-ok c.pending _ h in
    let (text, made, h₂) = >>=-eq-ok (response_text host m c) _ h₁ in
    let (s, next, h₃) = >>=-eq-ok (next_state c.state (response_command m.u)) _ h₂ in
    let same = ok-injective h₃ in
    (s, text, pends, next, sym (ap (λ r. r.0) same), sym (ap (λ r. r.1) same))

-- A response that is accepted: its client was pending, and is entered as answered; or no client
-- has the session and nothing happens.
pub on_response_lem :
    (host : Host) (m : SysmonDMsg) (i : ℕ) (f f' : Frontend) (es : List FrontEffect)
    → find_entry (get_sid_response m.u) f.conntable ≡ some i
    → on_response host m f ≡ ok (f', es)
    → answered host m i f ≡ ok (f', es)
unfolding on_response
on_response_lem host m i f f' es e h =
    let (named, k) = unless-eq-ok (get_sid_response m.u == na_sid) _ h in rw e at k

is_session-noted :
    (u : SysmonDinfo) (c : Connection) (id : ℕ) → is_session id (noted u c) ≡ is_session id c
is_session-noted (describe_resp s range d) c id = refl
is_session-noted (setup_resp s p q r) c id = refl
is_session-noted _ c id = refl

-- The entry is still found by its id after it has been answered.
find_entry-answer :
    (id i : ℕ) (m : SysmonDMsg) (s : FrontState) (f : Frontend)
    → find_entry id (put i (answer m s (entry i f)) f).conntable ≡ find_entry id f.conntable
find_entry-answer id i m s f =
    find_index-set_alike (is_session id) f.conntable i (answer m s (entry i f)) no_connection
      (is_session-noted m.u (entry i f) id)

entry-answer :
    (id i : ℕ) (m : SysmonDMsg) (s : FrontState) (f : Frontend)
    → find_entry id f.conntable ≡ some i
    → entry i (put i (answer m s (entry i f)) f) ≡ answer m s (entry i f)
entry-answer id i m s f e =
    get_or-set f.conntable i (answer m s (entry i f)) no_connection
      (find_index-some (is_session id) f.conntable i no_connection e).0

on_response_refused :
    (host : Host) (m : SysmonDMsg) (i : ℕ) (f : Frontend)
    → find_entry (get_sid_response m.u) f.conntable ≡ some i
    → (entry i f).pending ≡ false
    → on_response host m f ≡ aborted
unfolding on_response answered
on_response_refused host m i f e idle = elim (Bool-cases (get_sid_response m.u == na_sid)) [
  | inl n ↦ rw (on_response, n) refl
  | inr n ↦ rw (on_response, n, e, answered, idle) refl
]

pub on_response_accepts :
    (host : Host) (m : SysmonDMsg) (i : ℕ) (f : Frontend) (text : Name) (s : FrontState)
    → (get_sid_response m.u == na_sid) ≡ false
    → find_entry (get_sid_response m.u) f.conntable ≡ some i
    → (entry i f).pending ≡ true
    → response_text host m (entry i f) ≡ ok text
    → next_state (entry i f).state (response_command m.u) ≡ ok s
    → on_response host m f
      ≡ ok (put i (answer m s (entry i f)) f, to_client (entry i f).fd text ∷ [])
unfolding on_response answered
on_response_accepts host m i f text s n e pends made next =
    rw (on_response, n, e, answered, pends, made, next) refl

-- A second response to a session that has sent no request in between ends the process, whatever
-- the two responses are.
pub on_response-on_response :
    (host host' : Host) (m m' : SysmonDMsg) (i : ℕ) (f f' : Frontend) (es : List FrontEffect)
    → find_entry (get_sid_response m.u) f.conntable ≡ some i
    → get_sid_response m'.u ≡ get_sid_response m.u
    → on_response host m f ≡ ok (f', es)
    → on_response host' m' f' ≡ aborted
on_response-on_response host host' m m' i f f' es e same h =
    let (s, text, pends, next, left, sends) =
      answered_lem host m i f f' es (on_response_lem host m i f f' es e h) in
    let id = get_sid_response m.u in
    on_response_refused host' m' i f' (rw (same, left) (find_entry-answer id i m s f ∙ e))
      (rw left (ap (λ c. c.pending) (entry-answer id i m s f e)))

-- After the response to a TEARDOWN, whatever state it found its client in, the next request of
-- that client makes NextState fall off its end, or a text in it is too long before that: the entry
-- stays valid in a state that has no case.
pub accept_request-teardown :
    (host host' : Host) (m : SysmonDMsg) (id i : ℕ) (f f' : Frontend) (es : List FrontEffect)
    (text : Name)
    → m.u ≡ teardown_resp id
    → find_entry id f.conntable ≡ some i
    → on_response host m f ≡ ok (f', es)
    → accept_request host' text i f' ≡ undefined
unfolding accept_request get_sid_response
accept_request-teardown host host' m id i f f' es text u e h =
    let found : find_entry (get_sid_response m.u) f.conntable ≡ some i = rw u e in
    let (s, text', pends, next, left, sends) =
      answered_lem host m i f f' es (on_response_lem host m i f f' es found h) in
    let final : IsFinal s = next_state-IsFinal (entry i f).state s (rw u at next) in
    let state : IsFinal (entry i f').state = rw (left, entry-answer id i m s f e) final in
    accept_request-IsFinal host' text i f' state
