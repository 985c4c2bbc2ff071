-- ===== src/Rtsps/Front/Requests/Sent.antt =====
-- What ConvertRequest of Server/RTSPS/rtsps_front.c sends: a message that names the session of the
-- client.
use myyima.Prelude.{
  ℕ, ◌≡◌, ◌≢◌, refl, sym, ◌∙◌, ap, Bool, true, false, ◌||◌, Option, none, some, [], ◌∷◌, ◌⊎◌, inl,
  inr, arith, if◌then◌else◌, Bool-cases, leb, length,
}
use myyima.Prelude.Int.{ℤ}
use myyima.Outcome.{choice-eq-ok, ok, undefined, >>=-eq-ok, ok-injective, of_ok, undefined≢ok}
use myyima.Messages.{
  Name, FloatBits, SysmonDMsg, SysmonDinfo, NptRange, sysmond_ok, options_req, describe_req,
  setup_req, play_req, pause_req, resume_req,
}
use myyima.Flib.Names.{name_eq, after_last}
use myyima.Text.{codes, until, has, strtok}
use myyima.Rtsps.Back.{get_sid_request}
use myyima.Rtsps.Front.{convert_sid}
use myyima.Rtsps.Front.States.{
  FrontState, na, set_param, next_state, options_cmd, describe_cmd, setup_cmd, rtsp_cmd, play_cmd,
  pause_cmd, teardown_cmd, set_parameter_cmd,
}
use myyima.Rtsps.Front.Connections.{Connection}
use myyima.Rtsps.Front.Requests.{
  deref, fits, made, field_of, client_ports, convert_describe, convert_setup, convert_play,
  convert_teardown, convert_request, to_uint16,
}

-- The fields by which an entry is found, and its state.
abbrev pub identity : Connection → Bool × ℕ × ℤ × FrontState × Name
identity c = (c.valid, c.int_sid, c.fd, c.state, c.sid)

-- A message that names the client's session, and a connection that is found as before.
abbrev pub IsFor : Connection → Option SysmonDMsg × Connection → Type 0
IsFor c r =
    (m : SysmonDMsg) × (r.0 ≡ some m)
    × (get_sid_request m.u ≡ convert_sid c.sid)
    × (identity r.1 ≡ identity c)

made-IsFor :
    (u : SysmonDinfo) (c c' : Connection) (r : Option SysmonDMsg × Connection)
    → get_sid_request u ≡ convert_sid c.sid
    → identity c' ≡ identity c
    → made u c' ≡ ok r
    → IsFor c r
made-IsFor u c c' r names same h =
    of_ok (IsFor c) refl h (record { cmd_error = sysmond_ok; u = u }, refl, names, same)

play_or_resume :
    (b : Bool) (id : ℕ) (range : NptRange)
    → get_sid_request (if b then play_req id range else resume_req id) ≡ id
unfolding get_sid_request
play_or_resume true id range = refl
play_or_resume false id range = refl

module _ (c : Connection) (r : Option SysmonDMsg × Connection) where
  convert_describe-IsFor : (rest : Name) → convert_describe rest c ≡ ok r → IsFor c r
  unfolding convert_describe get_sid_request
  convert_describe-IsFor rest h =
      let ((word, rest'), _, h₁) = >>=-eq-ok (deref (strtok (codes " ") rest)) _ h in
      let (url, _, h₂) = >>=-eq-ok (fits 40 word) _ h₁ in
      let (name, _, h₃) = >>=-eq-ok (deref (after_last b'/' url)) _ h₂ in
      made-IsFor (describe_req (convert_sid c.sid) name c.addr) c
        (record c { movie_url = url; movie_name = name }) r refl refl h₃

  convert_setup-IsFor : (text : Name) → convert_setup text c ≡ ok r → IsFor c r
  unfolding convert_setup get_sid_request
  convert_setup-IsFor text h =
      let ((p, q), _, h₁) = >>=-eq-ok (client_ports text) _ h in
      made-IsFor (setup_req (convert_sid c.sid) (to_uint16 p) (to_uint16 q)) c
        (record c { client_rtp_port = p; client_rtcp_port = q }) r refl refl h₁

  convert_play-IsFor :
      (atof : Name → FloatBits) (text : Name) → convert_play atof text c ≡ ok r → IsFor c r
  unfolding convert_play get_sid_request
  convert_play-IsFor atof text h =
      let (output, _, h₁) = >>=-eq-ok (field_of (codes "npt=") (codes "-") text) _ h in
      made-IsFor _ c c r
        (play_or_resume (leb 1 (length output)) (convert_sid c.sid)
          (record { start_location = atof output; stop_location = c.movie_duration }))
        refl h₁

  convert_teardown-IsFor : (rest : Name) → convert_teardown rest c ≡ ok r → IsFor c r
  unfolding convert_teardown get_sid_request
  convert_teardown-IsFor rest h =
      let ((word, rest'), _, h₁) = >>=-eq-ok (deref (strtok (codes " ") rest)) _ h in
      let (buf, _, h₂) = >>=-eq-ok (fits 40 word) _ h₁ in made-IsFor _ c c r refl refl h₂

-- The commands that ConvertRequest has a case for.
abbrev pub is_known : Name → Bool
is_known w =
    name_eq w options_cmd
    || name_eq w describe_cmd
    || (name_eq w setup_cmd || name_eq w rtsp_cmd)
    || name_eq w play_cmd
    || name_eq w pause_cmd
    || name_eq w teardown_cmd

pub next_state-unknown :
    (s : FrontState) (w : Name)
    → is_known w ≡ false
    → (next_state s w ≡ ok na) ⊎ (next_state s w ≡ ok set_param) ⊎ (next_state s w ≡ undefined)
unfolding next_state
next_state-unknown FrontState.init w h = inl (ground (arith, h))
next_state-unknown FrontState.start w h = inl (ground (arith, h))
next_state-unknown FrontState.ready w h = elim (Bool-cases (name_eq w set_parameter_cmd)) [
  | inl e ↦ inr (inl (ground (arith, h, e)))
  | inr e ↦ inl (ground (arith, h, e))
]
next_state-unknown FrontState.play w h = elim (Bool-cases (name_eq w set_parameter_cmd)) [
  | inl e ↦ inr (inl (ground (arith, h, e)))
  | inr e ↦ inl (ground (arith, h, e))
]
next_state-unknown FrontState.pause w h = elim (Bool-cases (name_eq w set_parameter_cmd)) [
  | inl e ↦ inr (inl (ground (arith, h, e)))
  | inr e ↦ inl (ground (arith, h, e))
]
next_state-unknown _ w h = inr (inr refl)

false≢true : false ≢ true
false≢true h = cc

deref-eq-ok {ℓ} : {A : Type ℓ} (o : Option A) (a : A) → deref o ≡ ok a → o ≡ some a
deref-eq-ok none a h = cc
deref-eq-ok (some b) a h = ap some (ok-injective h)

pub fits-eq-ok : (n : ℕ) (s t : Name) → fits n s ≡ ok t → s ≡ t
fits-eq-ok n s t h = elim (Bool-cases (leb n (length s))) [
  | inl e ↦ absurd (undefined≢ok (rw e at h))
  | inr e ↦ ok-injective (rw e at h)
]

abbrev first_of : Option (Name × Name) → Name
first_of none = []
first_of (some r) = r.0

-- A known command is not empty, so no space stands in front of it.
strtok-until :
    (text : Name)
    → is_known (until (codes " ") text) ≡ true
    → first_of (strtok (codes " ") text) ≡ until (codes " ") text
strtok-until [] k = cc
strtok-until (c ∷ cs) k = elim (Bool-cases (has (codes " ") c)) [
  | inl e ↦ absurd (false≢true (rw e at k))
  | inr e ↦ rw e (rw e refl)
]

-- What ConvertRequest makes of a text whose first word is a command that it knows.
pub convert_request-IsFor :
    (atof : Name → FloatBits) (text : Name) (m : Option SysmonDMsg) (c : Connection)
    (r : Option SysmonDMsg × Connection)
    → is_known (until (codes " ") text) ≡ true
    → convert_request atof text m c ≡ ok r
    → IsFor c r
unfolding convert_request get_sid_request
convert_request-IsFor atof text m c r k h =
    let ((word, rest), at, h₁) = >>=-eq-ok (deref (strtok (codes " ") text)) _ h in
    let (command, copied, h₂) = >>=-eq-ok (fits 10 word) _ h₁ in
    let same : command ≡ until (codes " ") text =
      sym (fits-eq-ok 10 word command copied)
      ∙ sym (ap first_of (deref-eq-ok (strtok (codes " ") text) (word, rest) at))
      ∙ strtok-until text k in
    elim (choice-eq-ok (name_eq command options_cmd) _ _ h₂) [
      | inl (_, q) ↦ made-IsFor (options_req (convert_sid c.sid)) c c r refl refl q
      | inr (n₁, q₁) ↦ elim (choice-eq-ok (name_eq command describe_cmd) _ _ q₁) [
        | inl (_, q) ↦ convert_describe-IsFor c r rest q
        | inr (n₂, q₂) ↦
            elim (choice-eq-ok (name_eq command setup_cmd || name_eq command rtsp_cmd) _ _ q₂) [
              | inl (_, q) ↦ convert_setup-IsFor c r text q
              | inr (n₃, q₃) ↦ elim (choice-eq-ok (name_eq command play_cmd) _ _ q₃) [
                | inl (_, q) ↦ convert_play-IsFor c r atof text q
                | inr (n₄, q₄) ↦ elim (choice-eq-ok (name_eq command pause_cmd) _ _ q₄) [
                  | inl (_, q) ↦ made-IsFor (pause_req (convert_sid c.sid)) c c r refl refl q
                  | inr (n₅, q₅) ↦ elim (choice-eq-ok (name_eq command teardown_cmd) _ _ q₅) [
                    | inl (_, q) ↦ convert_teardown-IsFor c r rest q
                    | inr (n₆, q₆) ↦
                        absurd (
                          false≢true
                            (sym (rw (n₁, n₂, n₃, n₄, n₅, n₆) refl) ∙ ap is_known same ∙ k))
                  ]
                ]
              ]
            ]
      ]
    ]
