-- ===== src/Node/Ids.antt =====
-- The ids in the list of sessions of scheduler_sysmon.cc: whatever happens on a node, no two
-- sessions have the same one, so that findSessionNode finds the session that is meant.
pub mod Handlers
pub mod Runs
use myyima.Prelude.{
  ℕ, ◌+◌, ◌≡◌, ◌⊎◌, refl, ap, subst, sym, ◌∙◌, Bool, true, false, Option, none, some, List, [], ◌∷◌,
  map, arith, ◌==◌, if◌then◌else◌, count, find_first, replace_first, remove_first, Option-cases,
  Bool-cases, inl, inr, ==_iff,
}
use myyima.Prelude.Int.{ℤ, pos}
use myyima.Outcome.{Outcome, ok, ok-injective}
use myyima.Messages.{
  Name, NptRange, SysmonDMsg, SysmonDinfo, FlibMsg, FlibInfo, options_req, describe_req, setup_req,
  play_req, pause_req, resume_req, teardown_req, get_npt_range_resp, flib_play_resp,
  flib_teardown_resp,
}
use myyima.Node.Session.{
  Session, Node, Effect, has_id, is_playing, is_teardown, find_session_node, put_session,
}
use myyima.Node.Receive.{
  sys_mon_recv, recv_options, recv_describe, recv_setup, recv_play, recv_pause, recv_resume,
  recv_teardown,
}
use myyima.Node.Respond.{run_sysmond_rsp, rsp_npt_range, rsp_play, rsp_teardown}
use myyima.Node.Scheduler.{Sent, sent, send_packet, pass_session}
use myyima.Node.Events.{
  Event, request, answer, send, fetch, pass, apply_sent, fetched, step, Reach, at_start, later,
}

-- No id stands twice.
abbrev pub AreDistinct : List ℕ → Type 0
AreDistinct [] = Unit {0}
AreDistinct (x ∷ xs) = (count (λ y. y == x) xs ≡ 0) × AreDistinct xs

abbrev pub ids : List Session → List ℕ
ids = map (λ s. s.session_id)

pub ids-replace_first :
    (id : ℕ) (s s' : Session) (ss : List Session)
    → find_first (has_id id) ss ≡ some s
    → s'.session_id ≡ s.session_id
    → ids (replace_first (has_id id) s' ss) ≡ ids ss
ids-replace_first id s s' [] e same = cc
ids-replace_first id s s' (x ∷ ss) e same = ground (arith, e, same, ids-replace_first id s s' ss)

count-remove_first :
    (id x : ℕ) (ss : List Session)
    → count (λ y. y == x) (ids ss) ≡ 0
    → count (λ y. y == x) (ids (remove_first (has_id id) ss)) ≡ 0
count-remove_first id x [] h = refl
count-remove_first id x (s ∷ ss) h = ground (arith, h, count-remove_first id x ss)

remove_first-AreDistinct :
    (id : ℕ) (ss : List Session)
    → AreDistinct (ids ss)
    → AreDistinct (ids (remove_first (has_id id) ss))
remove_first-AreDistinct id [] v = tt
remove_first-AreDistinct id (s ∷ ss) (c, v) = elim (Bool-cases (has_id id s)) [
  | inl e ↦ rw e v
  | inr e ↦ rw e (count-remove_first id s.session_id ss c, remove_first-AreDistinct id ss v)
]

-- A search that fails: the id stands nowhere.
pub count-find_first :
    (id : ℕ) (ss : List Session)
    → find_first (has_id id) ss ≡ none
    → count (λ y. y == id) (ids ss) ≡ 0
count-find_first id [] h = refl
count-find_first id (s ∷ ss) h = ground (arith, h, count-find_first id ss)

-- What an operation may do to the ids: nothing, or put a new one in front, or take one out.
abbrev pub Changes : Node → Node → Type 0
Changes n n' =
    (ids n'.session_list ≡ ids n.session_list)
    ⊎ ((id : ℕ) × (count (λ y. y == id) (ids n.session_list) ≡ 0)
        × (ids n'.session_list ≡ id ∷ ids n.session_list))
    ⊎ ((id : ℕ) × (n'.session_list ≡ remove_first (has_id id) n.session_list))

pub Changes-AreDistinct :
    (n n' : Node)
    → Changes n n'
    → AreDistinct (ids n.session_list)
    → AreDistinct (ids n'.session_list)
Changes-AreDistinct n n' (inl e) v = subst AreDistinct (sym e) v
Changes-AreDistinct n n' (inr (inl (id, new, e))) v = subst AreDistinct (sym e) (new, v)
Changes-AreDistinct n n' (inr (inr (id, e))) v =
    subst (λ ss. AreDistinct (ids ss)) (sym e) (remove_first-AreDistinct id n.session_list v)
