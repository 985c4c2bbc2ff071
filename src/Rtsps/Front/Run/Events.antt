-- ===== src/Rtsps/Front/Run/Events.antt =====
-- Any sequence of events at the front end of Server/RTSPS/rtsps_front.c: no two connections have
-- the same session or the same socket.
use myyima.Prelude.{
  ℕ, zero, suc, ◌≤◌, ◌<◌, ◌≡◌, ◌≢◌, refl, sym, ◌∙◌, ap, subst, Bool, true, false, not, ◌&&◌, ◌==◌,
  ==_iff, Option, none, List, [], ◌∷◌, arith, if◌then◌else◌, All, All-set, All-get_or,
  All-replicate, count, total-set, total-replicate, find_index, find_index-none, find_index-some,
  get_or, set, length, Option-cases, Bool-cases, inl, inr, ◌⊎◌,
}
use myyima.Prelude.Int.{pos, negsuc}
use myyima.Outcome.{
  ok, ◌>>=◌, >>=-eq-ok, ok-injective, unless-eq-ok, of_ok, aborted≢ok, undefined≢ok,
}
use myyima.Messages.{Name, SysmonDMsg, SysmonDinfo, na_sid, describe_resp, setup_resp}
use myyima.Rtsps.Back.{get_sid_response}
use myyima.Rtsps.Front.Connections.Entries.{answer, answered_lem, on_response_lem}
use myyima.Rtsps.Front.Requests.Sent.{
  identity, is_known, next_state-unknown, convert_request-IsFor, fits-eq-ok,
}
use myyima.Rtsps.Front.Requests.{deref, fits, convert_request}
use myyima.Rtsps.Front.Responses.{Host, noted}
use myyima.Text.{codes, until}
use myyima.Rtsps.Front.{convert_sid}
use myyima.Rtsps.Front.States.{FrontState, na, set_param, next_state}
use myyima.Rtsps.Front.Connections.{
  Connection, Frontend, no_connection, cleared, new_client, entry, put, find_entry,
  find_empty_entry, is_session, is_socket, initiate_frontend,
}
use myyima.Rtsps.Front.Run.{
  FrontEffect, to_backend, new_connection, on_response, on_close, on_request, send_request,
  take_request, accept_request, cseq_of,
}

-- An entry that is not in use has no socket and does not wait.
pub record IsEntry (c : Connection) : Type 0 where
  pub no_socket : c.valid ≡ false → c.fd ≡ negsuc 4
  pub idle : c.valid ≡ false → c.pending ≡ false

pub record IsFrontend (f : Frontend) : Type 0 where
  pub sessions : (id : ℕ) → count (is_session id) f.conntable ≤ 1
  pub sockets : (fd : ℕ) → count (is_socket fd) f.conntable ≤ 1
  pub entries : All IsEntry f.conntable

-- A write that does not add to a count.
count-set_less {ℓ} :
    {A : Type ℓ} (p : A → Bool) (xs : List A) (i : ℕ) (v d : A)
    → (p v ≡ p (get_or xs i d)) ⊎ (p v ≡ false)
    → count p (set xs i v) ≤ count p xs
count-set_less p [] i v d e = omega arith
count-set_less p (x ∷ xs) zero v d e = elim e [
  | inl q ↦ rw q (omega arith)
  | inr q ↦ rw q (omega arith)
]
count-set_less p (x ∷ xs) (suc i) v d e = omega (arith, count-set_less p xs i v d e)

put-IsFrontend :
    (f : Frontend) (i : ℕ) (c : Connection)
    → ((id : ℕ) → (is_session id c ≡ is_session id (entry i f)) ⊎ (is_session id c ≡ false))
    → ((fd : ℕ) → (is_socket fd c ≡ is_socket fd (entry i f)) ⊎ (is_socket fd c ≡ false))
    → IsEntry c
    → IsFrontend f
    → IsFrontend (put i c f)
put-IsFrontend f i c ids fds e v = record {
  sessions = λ id.
      omega (
        arith,
        v.sessions id,
        count-set_less (is_session id) f.conntable i c no_connection (ids id),
      );
  sockets = λ fd.
      omega
        (arith, v.sockets fd, count-set_less (is_socket fd) f.conntable i c no_connection (fds fd));
  entries = All-set IsEntry f.conntable i c e v.entries;
}

-- An entry with an id that stands nowhere is written over one that was not in use.
count-set_new {ℓ} :
    {A : Type ℓ} (p : A → Bool) (xs : List A) (i : ℕ) (v d : A)
    → i < length xs
    → (p v ≡ false) ⊎ (count p xs ≡ 0)
    → count p xs ≤ 1
    → p (get_or xs i d) ≡ false
    → count p (set xs i v) ≤ 1
count-set_new p xs i v d small e at_most free =
    let sum = total-set (λ x. if p x then 1 else 0) xs i v d small in
    elim e [ inl q ↦ ground (arith, sum, q, free, at_most) | inr q ↦ ground (arith, sum, q, free) ]

no_connection-IsEntry : (c : Connection) → IsEntry (cleared c)
no_connection-IsEntry c = record { no_socket = λ _. refl; idle = λ _. refl }

initiate_frontend-IsFrontend : IsFrontend initiate_frontend
initiate_frontend-IsFrontend = record {
  sessions = λ id.
      omega (arith, total-replicate (λ c. if is_session id c then 1 else 0) 100 no_connection refl);
  sockets = λ fd.
      omega (arith, total-replicate (λ c. if is_socket fd c then 1 else 0) 100 no_connection refl);
  entries = All-replicate IsEntry 100 no_connection (no_connection-IsEntry no_connection);
}

new_connection-IsFrontend :
    (s : Name) (newfd a : ℕ) (f f' : Frontend)
    → find_entry (convert_sid s) f.conntable ≡ none
    → find_index (is_socket newfd) f.conntable ≡ none
    → new_connection s newfd a f ≡ ok f'
    → IsFrontend f
    → IsFrontend f'
unfolding new_connection
new_connection-IsFrontend s newfd a f f' fresh free h v =
    elim (Option-cases (find_empty_entry f.conntable)) [
      | inl e ↦ absurd (aborted≢ok (sym (rw (new_connection, e) refl) ∙ h))
      | inr (i, e) ↦
          let t = f.conntable in
          let (size, unused) = find_index-some (λ c. not c.valid) t i no_connection e in
          let c = entry i f in
          let off : c.valid ≡ false = ground (arith, unused) in
          let old = All-get_or IsEntry t i no_connection size v.entries in
          of_ok {a = put i (new_client s newfd a c) f} IsFrontend (rw (new_connection, e) refl) h
            (record {
              sessions = λ id.
                  count-set_new (is_session id) t i (new_client s newfd a c) no_connection size
                    (elim (Bool-cases (convert_sid s == id)) [
                      | inl q ↦ inr (
                          subst (λ x. count (is_session x) t ≡ 0) ((==_iff (convert_sid s) id).0 q)
                            ((find_index-none (is_session (convert_sid s)) t).0 fresh))
                      | inr q ↦ inl q
                    ])
                    (v.sessions id) (ground (arith, off));
              sockets = λ fd.
                  count-set_new (is_socket fd) t i (new_client s newfd a c) no_connection size
                    (elim (Bool-cases (newfd == fd)) [
                      | inl q ↦ inr (
                          subst (λ x. count (is_socket x) t ≡ 0) ((==_iff newfd fd).0 q)
                            ((find_index-none (is_socket newfd) t).0 free))
                      | inr q ↦ inl q
                    ])
                    (v.sockets fd)
                    (ap (λ k. elim k [ pos n ↦ n == fd | negsuc n ↦ false ]) (old.no_socket off));
              entries =
                  All-set IsEntry t i (new_client s newfd a c)
                    (record { no_socket = λ q. cc; idle = λ q. refl }) v.entries;
            })
    ]

false≢true : false ≢ true
false≢true h = cc

-- An entry that is found by its socket is in use.
in_use : (fd : ℕ) (c : Connection) → IsEntry c → is_socket fd c ≡ true → c.valid ≡ true
in_use fd c v e = elim (Bool-cases c.valid) [
  | inl k ↦ k
  | inr k ↦ absurd (
      false≢true
        (sym (ap (λ k. elim k [ pos n ↦ n == fd | negsuc n ↦ false ]) (v.no_socket k)) ∙ e))
]

identity-noted : (u : SysmonDinfo) (c : Connection) → identity (noted u c) ≡ identity c
identity-noted (describe_resp s range d) c = refl
identity-noted (setup_resp s p q r) c = refl
identity-noted _ c = refl

put_alike :
    (f : Frontend) (i : ℕ) (c : Connection)
    → c.valid ≡ (entry i f).valid
    → c.int_sid ≡ (entry i f).int_sid
    → c.fd ≡ (entry i f).fd
    → IsEntry c
    → IsFrontend f
    → IsFrontend (put i c f)
put_alike f i c v n d =
    put-IsFrontend f i c
      (λ id. inl (ap (λ x. x && c.int_sid == id) v ∙ ap (λ x. (entry i f).valid && x == id) n))
      (λ fd. inl (ap (λ k. elim k [ pos n ↦ n == fd | negsuc n ↦ false ]) d))

on_response-IsFrontend :
    (host : Host) (m : SysmonDMsg) (f f' : Frontend) (es : List FrontEffect)
    → on_response host m f ≡ ok (f', es)
    → IsFrontend f
    → IsFrontend f'
unfolding on_response
on_response-IsFrontend host m f f' es h v =
    elim (Option-cases (find_entry (get_sid_response m.u) f.conntable)) [
      | inl e ↦
          let (named, k) = unless-eq-ok (get_sid_response m.u == na_sid) _ h in
          subst IsFrontend (ap (λ r. r.0) (ok-injective (rw e at k))) v
      | inr (i, e) ↦
          let (s, text, pends, next, left, sends) =
            answered_lem host m i f f' es (on_response_lem host m i f f' es e h) in
          let c = entry i f in
          let old =
            All-get_or IsEntry f.conntable i no_connection
              (find_index-some (is_session (get_sid_response m.u)) f.conntable i no_connection e).0
              v.entries in
          let same = identity-noted m.u c in
          subst IsFrontend (sym left) (
            put_alike f i (answer m s c) (ap (λ d. d.0) same) (ap (λ d. d.1) same)
              (ap (λ d. d.2) same)
              (record {
                no_socket = λ q. ap (λ d. d.2) same ∙ old.no_socket (sym (ap (λ d. d.0) same) ∙ q);
                idle = λ q. refl;
              })
              v)
    ]

with_message :
    (f : Frontend) (o : Option SysmonDMsg) → IsFrontend f → IsFrontend (record f { cnvmessage = o })
with_message f o v = record { sessions = v.sessions; sockets = v.sockets; entries = v.entries }

on_close-IsFrontend :
    (host : Host) (fd : ℕ) (f f' : Frontend) (es : List FrontEffect)
    → on_close host fd f ≡ ok (f', es)
    → IsFrontend f
    → IsFrontend f'
unfolding on_close convert_request
on_close-IsFrontend host fd f f' es h v =
    elim (Option-cases (find_index (is_socket fd) f.conntable)) [
      | inl e ↦ absurd (aborted≢ok (sym (rw (on_close, e) refl) ∙ h))
      | inr (i, e) ↦
          let gone = record (put i (cleared (entry i f)) f) { cnvmessage = f.cnvmessage } in
          let k : (deref f.cnvmessage >>= λ m. ok (gone, to_backend m ∷ [])) ≡ ok (f', es) =
            rw (on_close, e) at h in
          let (m, at, h₂) = >>=-eq-ok (deref f.cnvmessage) (λ m. ok (gone, to_backend m ∷ [])) k in
          subst IsFrontend (ap (λ x. x.0) (ok-injective h₂)) (
            with_message (put i (cleared (entry i f)) f) f.cnvmessage (
              put-IsFrontend f i (cleared (entry i f)) (λ id. inr refl) (λ k. inr refl)
                (no_connection-IsEntry (entry i f)) v))
    ]

-- What an accepted request leaves of the table: at most the entry `i` is written, and it keeps its
-- identity.
abbrev Touches : ℕ → Frontend → Frontend → Type 0
Touches i f f' =
    (c : Connection) × (o : Option SysmonDMsg) × (identity c ≡ identity (entry i f))
    × (f' ≡ record (put i c f) { cnvmessage = o })

-- The states with a request for the back end.
abbrev is_sent : FrontState → Bool
is_sent FrontState.na = false
is_sent FrontState.set_param = false
is_sent _ = true

module _ (host : Host) (text : Name) (i : ℕ) (f f' : Frontend) (es : List FrontEffect) where
  send_request-Touches :
      (c : Connection)
      → identity c ≡ identity (entry i f)
      → is_known (until (codes " ") text) ≡ true
      → send_request host text i c f ≡ ok (f', es)
      → Touches i f f'
  unfolding send_request
  send_request-Touches c same k h =
      let (r, converted, h₁) = >>=-eq-ok (convert_request host.atof text f.cnvmessage c) _ h in
      let (msg, is_msg, names, kept) =
        convert_request-IsFor host.atof text f.cnvmessage c r k converted in
      let (m, at, h₂) = >>=-eq-ok (deref r.0) _ h₁ in
      (record r.1 { pending = true }, r.0, kept ∙ same, sym (ap (λ x. x.0) (ok-injective h₂)))

  take_request-Touches :
      (c : Connection) (s : FrontState)
      → identity c ≡ identity (entry i f)
      → (is_known (until (codes " ") text) ≡ true) ⊎ (s ≡ na) ⊎ (s ≡ set_param)
      → take_request host text i c s f ≡ ok (f', es)
      → Touches i f f'
  unfolding take_request
  take_request-Touches c FrontState.na same k h = absurd (aborted≢ok h)
  take_request-Touches c FrontState.set_param same k h =
      (c, f.cnvmessage, same, sym (ap (λ x. x.0) (ok-injective h)))
  take_request-Touches c s same (inl k) h = send_request-Touches c same k h
  take_request-Touches c s same (inr (inl q)) h = absurd (false≢true (sym (ap is_sent q)))
  take_request-Touches c s same (inr (inr q)) h = absurd (false≢true (sym (ap is_sent q)))

  accept_request-Touches : accept_request host text i f ≡ ok (f', es) → Touches i f f'
  unfolding accept_request
  accept_request-Touches h =
      let (command, copied, h₁) = >>=-eq-ok (fits 10 (until (codes " ") text)) _ h in
      let (n, _, h₂) = >>=-eq-ok (cseq_of text) _ h₁ in
      let c = record (entry i f) { cseq = n } in
      let (s, next, h₃) = >>=-eq-ok (next_state c.state command) _ h₂ in
      let first = fits-eq-ok 10 (until (codes " ") text) command copied in
      take_request-Touches c s refl
        (elim (Bool-cases (is_known command)) [
          | inl k ↦ inl (ap is_known first ∙ k)
          | inr k ↦ elim (next_state-unknown c.state command k) [
            | inl e ↦ inr (inl (ok-injective (sym next ∙ e)))
            | inr (inl e) ↦ inr (inr (ok-injective (sym next ∙ e)))
            | inr (inr e) ↦ absurd (undefined≢ok (sym e ∙ next))
          ]
        ])
        h₃

on_request-IsFrontend :
    (host : Host) (fd : ℕ) (text : Name) (f f' : Frontend) (es : List FrontEffect)
    → on_request host fd text f ≡ ok (f', es)
    → IsFrontend f
    → IsFrontend f'
unfolding on_request
on_request-IsFrontend host fd text f f' es h v =
    let (buf, copied, h₁) = >>=-eq-ok (fits 2048 text) _ h in
    elim (Option-cases (find_index (is_socket fd) f.conntable)) [
      | inl e ↦ absurd (aborted≢ok (rw e at h₁))
      | inr (i, e) ↦
          let (c, o, same, left) = accept_request-Touches host buf i f f' es (rw e at h₁) in
          let (size, at) = find_index-some (is_socket fd) f.conntable i no_connection e in
          let used =
            in_use fd (entry i f) (All-get_or IsEntry f.conntable i no_connection size v.entries)
              at in
          let on : c.valid ≡ true = ap (λ d. d.0) same ∙ used in
          subst IsFrontend (sym left) (
            with_message (put i c f) o (
              put_alike f i c (ap (λ d. d.0) same) (ap (λ d. d.1) same) (ap (λ d. d.2) same)
                (record {
                  no_socket = λ q. absurd (false≢true (sym q ∙ on));
                  idle = λ q. absurd (false≢true (sym q ∙ on));
                })
                v))
    ]

-- The states of RunFrontend. A new client gets a socket that no entry holds, as the operating
-- system gives it, and an id that no valid entry has, as random ids mostly are.
pub data Reach : Frontend → Type 0 where
  at_start : Reach initiate_frontend
  connects :
      {f₀ f' : Frontend} (s : Name) (newfd a : ℕ)
      → Reach f₀
      → find_entry (convert_sid s) f₀.conntable ≡ none
      → find_index (is_socket newfd) f₀.conntable ≡ none
      → new_connection s newfd a f₀ ≡ ok f'
      → Reach f'
  requests :
      {f₀ f' : Frontend} (host : Host) (fd : ℕ) (text : Name) (es : List FrontEffect)
      → Reach f₀
      → on_request host fd text f₀ ≡ ok (f', es)
      → Reach f'
  answers :
      {f₀ f' : Frontend} (host : Host) (m : SysmonDMsg) (es : List FrontEffect)
      → Reach f₀
      → on_response host m f₀ ≡ ok (f', es)
      → Reach f'
  leaves :
      {f₀ f' : Frontend} (host : Host) (fd : ℕ) (es : List FrontEffect)
      → Reach f₀
      → on_close host fd f₀ ≡ ok (f', es)
      → Reach f'

-- In every state that RunFrontend reaches by clients that connect, ask, and leave and by responses
-- of the back end, in any order, as long as each new client has an id and a socket of its own: no
-- two connections are found by the same id or by the same socket, and an entry that is not in use
-- has no socket and does not wait.
pub Reach-IsFrontend : (f : Frontend) → Reach f → IsFrontend f
Reach-IsFrontend f at_start = initiate_frontend-IsFrontend
Reach-IsFrontend f (connects {f₀} s newfd a r fresh free h) =
    new_connection-IsFrontend s newfd a f₀ f fresh free h (Reach-IsFrontend f₀ r)
Reach-IsFrontend f (requests {f₀} host fd text es r h) =
    on_request-IsFrontend host fd text f₀ f es h (Reach-IsFrontend f₀ r)
Reach-IsFrontend f (answers {f₀} host m es r h) =
    on_response-IsFrontend host m f₀ f es h (Reach-IsFrontend f₀ r)
Reach-IsFrontend f (leaves {f₀} host fd es r h) =
    on_close-IsFrontend host fd f₀ f es h (Reach-IsFrontend f₀ r)
