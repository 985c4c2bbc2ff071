-- ===== src/Rtsps/Front/Run/Replies.antt =====
-- The texts of the RTSP front end (Server/RTSPS/rtsps_front.c) read back: the Cseq of a request in
-- its response, and the ports of a SETUP.
use myyima.Prelude.{
  ℕ, ◌≡◌, ◌<◌, ◌^◌, refl, ◌∙◌, ap, Bool, true, false, some, ◌∷◌, ◌++◌, arith, length, length-append,
  leb, suc,
}
use myyima.Prelude.Int.{pos}
use myyima.Outcome.{Outcome, ok, of_ok, >>=-eq-ok, fits, fits-eq-ok}
use myyima.Messages.{
  Name, SysmonDMsg, SysmonDinfo, sysmond_ok, options_resp, describe_resp, setup_resp, play_resp,
  teardown_resp, setup_req,
}
use myyima.Flib.Names.{decimal}
use myyima.Text.{codes, until, has, strcasestr}
use myyima.Text.Numbers.{
  IsDigit, decimal-AreDigits, length-decimal, atoi_int-decimal, atoi_int-space, until-AreDigits,
  until-append, strtok-delimited, strtok_end, decimal-IsCons,
}
use myyima.Rtsps.Front.Connections.{Connection}
use myyima.Rtsps.Front.{convert_sid}
use myyima.Rtsps.Front.Requests.{client_ports, field_of, convert_setup, made, to_uint16}
use myyima.Rtsps.Front.Responses.{
  Host, response_text, options_text, setup_text, play_text, teardown_text, describe_text, sdp_msg,
}
use myyima.Rtsps.Front.Run.{cseq_of, cseq_key}

-- The responses with a Cseq.
abbrev pub carries_cseq : SysmonDinfo → Bool
carries_cseq (options_resp id) = true
carries_cseq (describe_resp id range duration) = true
carries_cseq (setup_resp id rtp rtcp ssrc) = true
carries_cseq (play_resp id range seqno timestamp) = true
carries_cseq (teardown_resp id) = true
carries_cseq _ = false

digit_not_line_end : (d : ℕ) → IsDigit d → has (codes "\r\n") d ≡ false
digit_not_line_end d h = ground (arith, h.above)

-- The scan has come to a Cseq as the responses print it.
cseq_of-found :
    (text : Name) (n : ℕ) (rest : Name)
    → n < 2 ^ 31
    → strcasestr cseq_key text ≡ some (codes "Cseq: " ++ (decimal n ++ 13 ∷ rest))
    → cseq_of text ≡ ok (pos n)
unfolding cseq_of
cseq_of-found text n rest small found =
    let read =
      until-AreDigits (codes "\r\n") (decimal n) 13 rest (decimal-AreDigits n) digit_not_line_end
        refl in
    let short : leb 100 (suc (length (decimal n))) ≡ false =
      ground (arith, length-decimal n 9 (omega arith)) in
    rw (cseq_of, found, read, short) (atoi_int-space (decimal n) ∙ atoi_int-decimal n small)

abbrev pub succeeded : SysmonDinfo → SysmonDMsg
succeeded u = record { cmd_error = sysmond_ok; u = u }

module _ (host : Host) (c : Connection) (n : ℕ) (small : n < 2 ^ 31) where
  -- The connection with the number.
  abbrev numbered : Connection
  numbered = record c { cseq = pos n }

  found_in :
      (text t : Name) (rest : Name)
      → ◌≡◌ {A = Outcome Name} (ok t) (ok text)
      → strcasestr cseq_key t ≡ some (codes "Cseq: " ++ (decimal n ++ 13 ∷ rest))
      → cseq_of text ≡ ok (pos n)
  found_in text t rest h e =
      of_ok (λ x. cseq_of x ≡ ok (pos n)) refl h (cseq_of-found t n rest small e)

  -- Each response of success, but to PAUSE and to RESUME, whose text can be made, answers with the
  -- number of the client's last request: when the connection keeps the Cseq `n`, not negative and
  -- small enough for an int, the front end's own scan for "cseq:" finds `n` in the text. The text
  -- for OPTIONS can be made only if `n` has less than 10 digits.
  pub cseq_of-response_text :
      (u : SysmonDinfo) (text : Name)
      → carries_cseq u ≡ true
      → response_text host (succeeded u) numbered ≡ ok text
      → cseq_of text ≡ ok (pos n)
  unfolding response_text options_text setup_text play_text teardown_text describe_text
  cseq_of-response_text (options_resp id) text k h =
      let (shown, fitting, h₁) = >>=-eq-ok (fits 10 (decimal n)) _ h in
      found_in text _ _ (rw (← fits-eq-ok 10 (decimal n) shown fitting) at h₁) refl
  cseq_of-response_text (setup_resp id rtp rtcp ssrc) text k h = found_in text _ _ h refl
  cseq_of-response_text (play_resp id range seqno timestamp) text k h = found_in text _ _ h refl
  cseq_of-response_text (teardown_resp id) text k h = found_in text _ _ h refl
  cseq_of-response_text (describe_resp id range duration) text k h =
      let (sdp, made, h₁) = >>=-eq-ok (sdp_msg host id range duration numbered) _ h in
      found_in text _ _ h₁ refl
  cseq_of-response_text _ text k h = cc

digit_not_dash : (d : ℕ) → IsDigit d → has (codes "-") d ≡ false
digit_not_dash d h = ground (arith, h.above)

-- The text up to the CR.
until_ports :
    (rest : Name) (p q : ℕ)
    → until (codes "\r\n") (decimal p ++ b'-' ∷ (decimal q ++ 13 ∷ rest))
      ≡ decimal p ++ b'-' ∷ decimal q
until_ports rest p q =
    until-append (codes "\r\n") digit_not_line_end (decimal p) (b'-' ∷ (decimal q ++ 13 ∷ rest))
      (decimal-AreDigits p)
    ∙ ap (λ s. decimal p ++ b'-' ∷ s)
        (until-AreDigits (codes "\r\n") (decimal q) 13 rest (decimal-AreDigits q) digit_not_line_end
          refl)

client_ports-decimal :
    (text rest : Name) (p q : ℕ)
    → p < 2 ^ 16
    → q < 2 ^ 16
    → strcasestr (codes "client_port=") text
      ≡ some (codes "client_port=" ++ (decimal p ++ b'-' ∷ (decimal q ++ 13 ∷ rest)))
    → client_ports text ≡ ok (pos p, pos q)
unfolding client_ports field_of
client_ports-decimal text rest p q hp hq found =
    let line = decimal p ++ b'-' ∷ decimal q in
    let short : leb 100 (length line) ≡ false = ground (
      arith,
      length-append (decimal p) (b'-' ∷ decimal q),
      length-decimal p 4 (omega arith),
      length-decimal q 4 (omega arith),
    ) in
    let first =
      strtok-delimited (codes "-") digit_not_dash (decimal p) b'-' (decimal q) (decimal-IsCons p)
        (decimal-AreDigits p) refl in
    let second =
      strtok_end (codes "-") digit_not_dash (decimal q) (decimal-IsCons q) (decimal-AreDigits q) in
    rw
      (
        client_ports,
        field_of,
        found,
        until_ports rest p q,
        short,
        first,
        second,
        atoi_int-decimal p (omega arith),
        atoi_int-decimal q (omega arith),
      )
      refl

to_uint16-small : (p : ℕ) → p < 2 ^ 16 → to_uint16 (pos p) ≡ p
to_uint16-small p h = ground arith

-- A SETUP in which "client_port=" first stands in front of two ports `p` and `q`, printed in decimal
-- with a `-` between them and a CR behind: the message for the back end and the connection get
-- `p` and `q`.
pub convert_setup-decimal :
    (text rest : Name) (c : Connection) (p q : ℕ)
    → p < 2 ^ 16
    → q < 2 ^ 16
    → strcasestr (codes "client_port=") text
      ≡ some (codes "client_port=" ++ (decimal p ++ b'-' ∷ (decimal q ++ 13 ∷ rest)))
    → convert_setup text c
      ≡ made
          (setup_req (convert_sid c.sid) p q)
          (record c { client_rtp_port = pos p; client_rtcp_port = pos q })
unfolding convert_setup
convert_setup-decimal text rest c p q hp hq found =
    rw (convert_setup, client_ports-decimal text rest p q hp hq found)
      (rw (to_uint16-small p hp, to_uint16-small q hq) refl)
