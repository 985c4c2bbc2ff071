-- ===== src/Node/Ids/Runs.antt =====
-- The ids of the sessions over whole runs of a node.
use myyima.Prelude.{
  ℕ, ◌≡◌, refl, subst, Bool, Option, none, some, List, arith, Option-cases, Bool-cases, inl, inr,
}
use myyima.Prelude.Int.{ℤ}
use myyima.Outcome.{ok, ok-injective}
use myyima.Messages.{
  SysmonDMsg, SysmonDinfo, FlibMsg, FlibInfo, options_req, describe_req, setup_req, play_req,
  pause_req, resume_req, teardown_req, get_npt_range_resp, flib_play_resp, flib_teardown_resp,
}
use myyima.Node.Session.{
  Session, Node, Effect, is_teardown, find_session_node, settle_more, settle_less,
}
use myyima.Node.Receive.{sys_mon_recv, recv_options}
use myyima.Node.Respond.{run_sysmond_rsp}
use myyima.Node.Scheduler.{Sent, sent, send_packet, pass_session}
use myyima.Node.Events.{
  Event, request, answer, send, look, fetch, pass, looked, fetch_end, more, less, apply_sent,
  fetched, step, Reach, at_start, later,
}
use myyima.Messages.{NextRtpPktInfo}
use myyima.Flib.Cache.{Memory}
use myyima.Node.Ids.{AreDistinct, ids, ids-replace_first, Changes, Changes-AreDistinct}
use myyima.Node.Ids.Handlers.{
  describe-Changes, recv_setup-ids, recv_play-ids, recv_pause-ids, recv_resume-ids,
  recv_teardown-ids, rsp_npt_range-ids, rsp_play-ids, rsp_teardown-ids,
}

request-Changes :
    (n n' : Node) (blank : Session) (random : ℕ) (now : ℤ) (fd : ℕ) (m : SysmonDMsg)
    (u : SysmonDinfo) (es : List Effect)
    → m.u ≡ u
    → sys_mon_recv blank random now fd m n ≡ ok (n', es)
    → Changes n n'
unfolding sys_mon_recv recv_options
request-Changes n n' blank random now fd m (options_req id) es e h = inl (ground (arith, rw e at h))
request-Changes n n' blank random now fd m (describe_req id movie addr) es e h =
    describe-Changes n n' es blank random fd id movie addr (rw e at h)
request-Changes n n' blank random now fd m (setup_req id rtp rtcp) es e h =
    inl (recv_setup-ids n n' es fd id rtp rtcp (rw e at h))
request-Changes n n' blank random now fd m (play_req id range) es e h =
    inl (recv_play-ids n n' es now id range (rw e at h))
request-Changes n n' blank random now fd m (pause_req id) es e h =
    inl (recv_pause-ids n n' es id (rw e at h))
request-Changes n n' blank random now fd m (resume_req id) es e h =
    inl (recv_resume-ids n n' es now id (rw e at h))
request-Changes n n' blank random now fd m (teardown_req id crash) es e h =
    inl (recv_teardown-ids n n' es id crash (rw e at h))
request-Changes n n' blank random now fd m _ es e h = absurd (cc (rw e at h))

answer-Changes :
    (n n' : Node) (now : ℤ) (m : FlibMsg) (u : FlibInfo) (es : List Effect)
    → m.u ≡ u
    → run_sysmond_rsp now m n ≡ ok (n', es)
    → Changes n n'
unfolding run_sysmond_rsp
answer-Changes n n' now m (get_npt_range_resp range info) es e h =
    inl (rsp_npt_range-ids n n' es m.cmd_seq_no m.cmd_error range info (rw e at h))
answer-Changes n n' now m (flib_play_resp pkt) es e h =
    inl (rsp_play-ids n n' es now m.cmd_seq_no m.cmd_error pkt (rw e at h))
answer-Changes n n' now m flib_teardown_resp es e h =
    inl (rsp_teardown-ids n n' es m.cmd_seq_no m.cmd_error (rw e at h))
answer-Changes n n' now m _ es e h = inl (ground (arith, rw e at h))

send_packet-id :
    (refusals : ℕ) (now after : ℤ) (mem mem' : Memory) (seq seq' : ℕ) (s s' : Session)
    (es : List Effect)
    → send_packet refusals now after mem seq s ≡ sent mem' seq' s' es
    → s'.session_id ≡ s.session_id
unfolding send_packet
send_packet-id refusals now after mem mem' seq seq' s s' es h = ground (arith, h)

apply_sent-Changes :
    (n : Node) (id refusals : ℕ) (now after : ℤ) (mem : Memory) (s : Session) (r : Sent)
    → find_session_node id n ≡ some s
    → send_packet refusals now after mem n.cmd_seq_no s ≡ r
    → Changes n (apply_sent id n r).0
apply_sent-Changes n id refusals now after mem s (sent mem' seq' s' es) e h = inl (
    ids-replace_first id s s' n.session_list e
      (send_packet-id refusals now after mem mem' n.cmd_seq_no seq' s s' es h))
apply_sent-Changes n id refusals now after mem s _ e h = inl refl

fetched-id :
    (delivery : ℤ → ℕ → ℤ) (got : Option NextRtpPktInfo) (s : Session)
    → (fetched delivery got s).session_id ≡ s.session_id
fetched-id delivery none s = refl
fetched-id delivery (some pkt) s = refl

pass-Changes : (n : Node) (id : ℕ) → Changes n (pass_session id n)
unfolding pass_session
pass-Changes n id = elim (Option-cases (find_session_node id n)) [
  | inl e ↦ rw (e, pass_session) (inl refl)
  | inr (s, e) ↦ elim (Bool-cases (is_teardown s.current_session_state)) [
    | inl t ↦ rw (e, pass_session) (rw t (inr (inr (id, refl))))
    | inr t ↦ rw (e, pass_session) (rw t (inl refl))
  ]
]

looked-ids : (n : Node) (id : ℕ) → ids (looked id n).session_list ≡ ids n.session_list
unfolding looked
looked-ids n id = ground arith

fetch_end-ids :
    (n : Node) (id : ℕ) (delivery : ℤ → ℕ → ℤ) (got : Option NextRtpPktInfo)
    → ids (fetch_end id delivery got n).session_list ≡ ids n.session_list
unfolding fetch_end
fetch_end-ids n id delivery got = elim (Option-cases (find_session_node id n)) [
  | inl e ↦ rw (e, fetch_end) refl
  | inr (s, e) ↦
      rw (e, fetch_end)
        (ids-replace_first id s (fetched delivery got s) n.session_list e
          (fetched-id delivery got s))
]

settle_more-ids : (n : Node) → ids (settle_more n).session_list ≡ ids n.session_list
unfolding settle_more
settle_more-ids n = ground arith

settle_less-ids : (n : Node) → ids (settle_less n).session_list ≡ ids n.session_list
unfolding settle_less
settle_less-ids n = ground arith

-- The node that a step returns.
returned : (n : Node) {r₀ r : Node × List Effect} → Changes n r₀.0 → ok r₀ ≡ ok r → Changes n r.0
returned n v h = subst (λ (r : Node × List Effect). Changes n r.0) (ok-injective h) v

step-Changes : (n n' : Node) (e : Event) (es : List Effect) → step n e ≡ ok (n', es) → Changes n n'
unfolding step
step-Changes n n' (request blank random now fd m) es h =
    request-Changes n n' blank random now fd m m.u es refl h
step-Changes n n' (answer now m) es h = answer-Changes n n' now m m.u es refl h
step-Changes n n' (send refusals now after mem id) es h =
    elim (Option-cases (find_session_node id n)) [
      | inl e ↦ returned n (inl refl) (rw (e, step) at h)
      | inr (s, e) ↦
          returned n (apply_sent-Changes n id refusals now after mem s _ e refl) (rw (e, step) at h)
    ]
step-Changes n n' (look id) es h = returned n (inl (looked-ids n id)) h
step-Changes n n' (fetch delivery got) es h = elim (Option-cases n.fetching) [
  | inl e ↦ returned n (inl refl) (rw (e, step) at h)
  | inr (id, e) ↦
      returned n (inl (fetch_end-ids (record n { fetching = none }) id delivery got))
        (rw (e, step) at h)
]
step-Changes n n' (pass id) es h = returned n (pass-Changes n id) h
step-Changes n n' more es h = returned n (inl (settle_more-ids n)) h
step-Changes n n' less es h = returned n (inl (settle_less-ids n)) h

-- Whatever events happen on a node, in whatever order: from a list of sessions without two that
-- have the same id, no list with two such sessions is reached.
pub Reach-AreDistinct :
    (allowed : Node → Event → Bool) (start n : Node)
    → AreDistinct (ids start.session_list)
    → Reach allowed start n
    → AreDistinct (ids n.session_list)
Reach-AreDistinct allowed start n v at_start = v
Reach-AreDistinct allowed start n v (later {n = before} {es = es} e r a h) =
    Changes-AreDistinct before n (step-Changes before n e es h)
      (Reach-AreDistinct allowed start before v r)
