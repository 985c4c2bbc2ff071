-- ===== src/Rtsps/Back/History.antt =====
-- Whole runs of RunBackend in rtsps_back.c: the responses that go to the front end, over any
-- sequence of messages.
use myyima.Prelude.{
  ℕ, zero, suc, ◌+◌, ◌≡◌, refl, ◌∙◌, subst, not, ◌&&◌, List, [], ◌∷◌, ◌++◌, arith, ◌==◌,
  if◌then◌else◌, total, total-append,
}
use myyima.Outcome.{Outcome, ok, ◌>>=◌, >>=-eq-ok, ok-injective}
use myyima.Messages.{SysmonDMsg}
use myyima.Rtsps.Back.{
  Backend, Output, to_link, to_node, Input, from_link, from_node, Next, running, terminated,
  is_crash, get_sid_request, get_sid_response, step, send_to_nodes,
}
use myyima.Rtsps.Back.Table.{IsBackend, due}
use myyima.Rtsps.Back.Refinement.{LinkPost, NodePost, on_link-LinkPost, on_node-NodePost, in_use}

-- A round of the loop, and then the rest of it, unless the back end has returned.
abbrev continue_with :
    (Backend → Outcome (Next × List Output)) → Next × List Output → Outcome (Next × List Output)
continue_with rest (terminated, out) = ok (terminated, out)
continue_with rest (running b, out) = do (last, more) ← rest b; ok (last, out ++ more)

-- The main loop on the messages `ins`; it returns when a node sends an exit request.
unfoldable pub run : Backend → List Input → Outcome (Next × List Output)
run b [] = ok (running b, [])
run b (i ∷ ins) = step b i >>= continue_with (λ b'. run b' ins)

-- Requests that want a response, and those of one session.
abbrev pub wants : Input → ℕ
wants (from_link m) = if is_crash m.u then 0 else 1
wants (from_node m) = 0

abbrev pub asks : ℕ → ℕ → Input → ℕ
asks n s (from_link m) = if not (is_crash m.u) && get_sid_request m.u == s then n else 0
asks n s (from_node m) = 0

abbrev pub answers : ℕ → Input → ℕ
answers s (from_link m) = 0
answers s (from_node m) = if get_sid_response m.u == s then 1 else 0

abbrev pub forwards : Output → ℕ
forwards (to_node j m) = 0
forwards (to_link m) = 1

-- What one or more messages do to the ledger of a backend with `n` nodes.
pub record Accounts (b b' : Backend) (ins : List Input) (out : List Output) : Type 0 where
  pub valid : IsBackend b'
  pub nodes : b'.numnodes ≡ b.numnodes
  pub owed : (s : ℕ) → total (answers s) ins + due s b' ≡ due s b + total (asks b.numnodes s) ins
  pub passed_on : total forwards out + in_use b' ≡ in_use b + total wants ins

forwards-send_to_nodes : (j n : ℕ) (m : SysmonDMsg) → total forwards (send_to_nodes j n m) ≡ 0
unfolding send_to_nodes
forwards-send_to_nodes j zero m = refl
forwards-send_to_nodes j (suc n) m = omega (arith, forwards-send_to_nodes (j + 1) n m)

of_LinkPost :
    (b b' : Backend) (m : SysmonDMsg) (out : List Output)
    → LinkPost b m (b', out)
    → Accounts b b' (from_link m ∷ []) out
of_LinkPost b b' m out p = record {
  valid = p.0;
  nodes = p.1;
  owed = λ s. ground (arith, p.3 s);
  passed_on = ground (arith, p.2, p.4, forwards-send_to_nodes 0 b.numnodes m);
}

of_NodePost :
    (b b' : Backend) (m : SysmonDMsg) (out : List Output)
    → NodePost b m (b', out)
    → Accounts b b' (from_node m ∷ []) out
of_NodePost b b' m out p = record {
  valid = p.0;
  nodes = p.1;
  owed = λ s. ground (arith, p.2 s);
  passed_on = ground (arith, p.3);
}

step-Accounts :
    (b b' : Backend) (i : Input) (out : List Output)
    → IsBackend b
    → step b i ≡ ok (running b', out)
    → Accounts b b' (i ∷ []) out
unfolding step
step-Accounts b b' (from_link m) out v h =
    of_LinkPost b b' m out (on_link-LinkPost b m (b', out) v (ground arith))
step-Accounts b b' (from_node m) out v h =
    of_NodePost b b' m out (on_node-NodePost b m (b', out) v (ground arith))

Accounts-trans :
    (b c d : Backend) (i : Input) (ins : List Input) (out more : List Output)
    → Accounts b c (i ∷ []) out
    → Accounts c d ins more
    → Accounts b d (i ∷ ins) (out ++ more)
Accounts-trans b c d i ins out more p q = record {
  valid = q.valid;
  nodes = q.nodes ∙ p.nodes;
  owed = λ s. omega (
    arith,
    p.owed s,
    subst (λ n. total (answers s) ins + due s d ≡ due s c + total (asks n s) ins) p.nodes
        (q.owed s),
  );
  passed_on = omega (arith, p.passed_on, q.passed_on, total-append forwards out more);
}

abbrev Reached : Backend → List Input → Next → List Output → Type 0
Reached b ins (running b') out = Accounts b b' ins out
Reached b ins terminated out = Unit

continue_with-Reached :
    (b : Backend) (i : Input) (ins : List Input) (rest : Backend → Outcome (Next × List Output))
    → IsBackend b
    → ((c : Backend) (r : Next × List Output) → IsBackend c → rest c ≡ ok r → Reached c ins r.0 r.1)
    → (n r : Next × List Output) → step b i ≡ ok n
    → continue_with rest n ≡ ok r
    → Reached b (i ∷ ins) r.0 r.1
continue_with-Reached b i ins rest v ih (terminated, out) (terminated, o) e f = tt
continue_with-Reached b i ins rest v ih (terminated, out) (running d, o) e f = cc
continue_with-Reached b i ins rest v ih (running c, out) (terminated, o) e f = tt
continue_with-Reached b i ins rest v ih (running c, out) (running d, o) e f =
    let first = step-Accounts b c i out v e in
    let ((last, more), g, k) = >>=-eq-ok (rest c) _ f in
    let q : Accounts c d ins more = ih c (running d, more) first.valid (ground arith) in
    subst (Accounts b d (i ∷ ins)) (ground arith) (Accounts-trans b c d i ins out more first q)

run-Reached :
    (b : Backend) (ins : List Input) (r : Next × List Output)
    → IsBackend b
    → run b ins ≡ ok r
    → Reached b ins r.0 r.1
unfolding run
run-Reached b [] r v h =
    subst (λ (r : Next × List Output). Reached b [] r.0 r.1) (ok-injective h)
      (record { valid = v; nodes = refl; owed = λ s. omega arith; passed_on = omega arith })
run-Reached b (i ∷ ins) r v h =
    let (n, e, f) = >>=-eq-ok (step b i) (continue_with (λ b'. run b' ins)) h in
    continue_with-Reached b i ins (λ b'. run b' ins) v (λ c r. run-Reached c ins r) n r e f

-- From a well-formed table, for any messages of which none aborts or ends the run: for each
-- session the responses received and those still due are the ones due at the start and one for
-- each node and request; and the responses passed on to the front end, with the entries still in
-- use, are the entries in use at the start and one for each request that wants a response.
pub run-Accounts :
    (b b' : Backend) (ins : List Input) (out : List Output)
    → IsBackend b
    → run b ins ≡ ok (running b', out)
    → Accounts b b' ins out
run-Accounts b b' ins out v h = run-Reached b ins (running b', out) v h
