-- ===== src/Rtsps/Front/Run/Accepts.antt =====
-- What RunFrontend of Server/RTSPS/rtsps_front.c has done when it has sent a client's request on.
use myyima.Prelude.{
  ℕ, ◌≡◌, ◌≢◌, refl, sym, ◌∙◌, ap, subst, true, Option, none, some, List, [], ◌∷◌, inl, inr,
  Bool-cases,
}
use myyima.Outcome.{Outcome, ok, ◌>>=◌, >>=-eq-ok, ok-injective, aborted≢ok, undefined≢ok}
use myyima.Messages.{Name, SysmonDMsg}
use myyima.Text.{codes, until}
use myyima.Rtsps.Back.{get_sid_request}
use myyima.Rtsps.Front.{convert_sid}
use myyima.Rtsps.Front.States.{FrontState, na, set_param, next_state}
use myyima.Rtsps.Front.Connections.{Connection, Frontend, entry, put}
use myyima.Rtsps.Front.Requests.{deref, fits, convert_request}
use myyima.Rtsps.Front.Requests.Sent.{
  identity, is_known, next_state-unknown, convert_request-IsFor, fits-eq-ok,
}
use myyima.Rtsps.Front.Responses.{Host}
use myyima.Rtsps.Front.Run.{
  FrontEffect, to_backend, cseq_of, send_request, take_request, accept_request,
}

-- The entry is found as before and pending, all others are untouched, and the message `m` is kept.
abbrev pub Waits : ℕ → Frontend → SysmonDMsg → Frontend → Type 0
Waits i f m f' =
    (c : Connection) × (identity c ≡ identity (entry i f))
    × (f' ≡ record (put i (record c { pending = true }) f) { cnvmessage = some m })

abbrev first_message : List FrontEffect → SysmonDMsg → SysmonDMsg
first_message (to_backend m ∷ es) n = m
first_message _ n = n

abbrev some_or {ℓ} : {A : Type ℓ} → Option A → A → A
some_or none d = d
some_or (some a) d = a

module _ (host : Host) (text : Name) (i : ℕ) (f f' : Frontend) (m : SysmonDMsg) where
  abbrev sent : Frontend × List FrontEffect
  sent = (f', to_backend m ∷ [])

  refuses_na : (c : Connection) → take_request host text i c na f ≢ ok sent
  unfolding take_request
  refuses_na c h = aborted≢ok h

  refuses_set_param : (c : Connection) → take_request host text i c set_param f ≢ ok sent
  unfolding take_request
  refuses_set_param c h = cc

  at_state :
      (c : Connection) (s s' : FrontState) {o : Outcome FrontState}
      → o ≡ ok s
      → o ≡ ok s'
      → take_request host text i c s f ≡ ok sent
      → take_request host text i c s' f ≡ ok sent
  at_state c s s' next e h =
      subst (λ x. take_request host text i c x f ≡ ok sent) (ok-injective (sym next ∙ e)) h

  take_request_lem :
      (c : Connection) (s : FrontState)
      → take_request host text i c s f ≡ ok sent
      → send_request host text i c f ≡ ok sent
  unfolding take_request
  take_request_lem c FrontState.na h = absurd (aborted≢ok h)
  take_request_lem c FrontState.set_param h = cc
  take_request_lem c _ h = h

  after_convert :
      (o : Option SysmonDMsg) (c : Connection)
      → (deref o >>= λ m.
          ok (record (put i (record c { pending = true }) f) { cnvmessage = o }, to_backend m ∷ []))
        ≡ ok sent
      → (o ≡ some m) × (f' ≡ record (put i (record c { pending = true }) f) { cnvmessage = some m })
  after_convert none c h = absurd (undefined≢ok h)
  after_convert (some n) c h =
      let same = ok-injective h in
      let one : n ≡ m = ap (λ r. first_message r.1 n) same in
      (
        ap some one,
        sym (ap (λ r. r.0) same)
            ∙ ap (λ x. record (put i (record c { pending = true }) f) { cnvmessage = some x }) one,
      )

  send_request_lem :
      (c : Connection)
      → identity c ≡ identity (entry i f)
      → is_known (until (codes " ") text) ≡ true
      → send_request host text i c f ≡ ok sent
      → (get_sid_request m.u ≡ convert_sid (entry i f).sid) × Waits i f m f'
  unfolding send_request
  send_request_lem c same k h =
      let ((o, c'), converted, h₁) =
        >>=-eq-ok (convert_request host.atof text f.cnvmessage c) _ h in
      let (msg, is_msg, names, kept) =
        convert_request-IsFor host.atof text f.cnvmessage c (o, c') k converted in
      let (is_m, left) = after_convert o c' h₁ in
      let one : m ≡ msg = ap (λ x. some_or x m) (sym is_m ∙ is_msg) in
      (rw one (names ∙ ap (λ d. convert_sid d.4) same), (c', kept ∙ same, left))

  -- A request that RunFrontend sends on to the back end: the message names the session of the
  -- client, whatever the client wrote, and the client's entry, found as before, is pending.
  pub accept_request-names :
      accept_request host text i f ≡ ok sent
      → (get_sid_request m.u ≡ convert_sid (entry i f).sid) × Waits i f m f'
  unfolding accept_request
  accept_request-names h =
      let (command, copied, h₁) = >>=-eq-ok (fits 10 (until (codes " ") text)) _ h in
      let (n, _, h₂) = >>=-eq-ok (cseq_of text) _ h₁ in
      let c = record (entry i f) { cseq = n } in
      let (s, next, h₃) = >>=-eq-ok (next_state c.state command) _ h₂ in
      let first = fits-eq-ok 10 (until (codes " ") text) command copied in
      elim (Bool-cases (is_known command)) [
        | inl k ↦ send_request_lem c refl (ap is_known first ∙ k) (take_request_lem c s h₃)
        | inr k ↦ elim (next_state-unknown c.state command k) [
          | inl e ↦ absurd (refuses_na c (at_state c s na next e h₃))
          | inr (inl e) ↦ absurd (refuses_set_param c (at_state c s set_param next e h₃))
          | inr (inr e) ↦ absurd (undefined≢ok (sym e ∙ next))
        ]
      ]
