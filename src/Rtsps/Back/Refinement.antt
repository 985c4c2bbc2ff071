-- ===== src/Rtsps/Back/Refinement.antt =====
-- What the table of rtsps_back.c stands for: for each session, the number of responses that the
-- nodes still owe to it.
use myyima.Prelude.{
  ℕ, suc, ◌+◌, ◌-◌, ◌<◌, ◌≡◌, ◌≢◌, ◌↔◌, ◌⊎◌, inl, inr, refl, true, false, not, ◌&&◌, List, [], ◌∷◌,
  none, some, arith, ltb, ◌==◌, if◌then◌else◌, get_or, set, total, total-set, All, ==_iff, ==_refl,
  sym, ◌∙◌, subst, find_index-set, get_or-set, set-set-get_or, count, length, find_index-some,
  find_index-none, Option-cases, Bool-cases,
}
use myyima.Outcome.{ok, aborted, of_ok}
use myyima.Messages.{SysmonDMsg, na_sid}
use myyima.Rtsps.Back.{
  RequestInfo, unused, Backend, Output, to_link, waits_for, is_free, is_crash, find_free_entry,
  find_request, get_sid_request, get_sid_response, send_to_nodes, on_link, on_node, respond,
}
use myyima.Rtsps.Back.Table.{
  IsEntry, IsBackend, entry_due, due, get_or-IsEntry, set-IsBackend, unused-IsEntry,
}

-- The entry that a request takes.
abbrev taken : Backend → SysmonDMsg → RequestInfo
taken b m = record { sid = get_sid_request m.u; pending = b.numnodes; valid = true }

abbrev after_link : Backend → SysmonDMsg → ℕ → Backend
after_link b m i = if is_crash m.u then b else record b { reqtable = set b.reqtable i (taken b m) }

abbrev used_weight : RequestInfo → ℕ
used_weight r = if r.valid then 1 else 0

-- How many entries are in use.
abbrev pub in_use : Backend → ℕ
in_use b = total used_weight b.reqtable

-- The responses that the request `m` makes due to the session `s`.
abbrev pub asked : Backend → SysmonDMsg → ℕ → ℕ
asked b m s = if not (is_crash m.u) && get_sid_request m.u == s then b.numnodes else 0

on_link_lem :
    (b : Backend) (m : SysmonDMsg) (i : ℕ)
    → find_free_entry b.reqtable ≡ some i
    → on_link b m ≡ ok (after_link b m i, send_to_nodes 0 b.numnodes m)
unfolding on_link
on_link_lem b m i e = rw (e, on_link)

-- A request is refused exactly when all entries are in use.
pub on_link-aborted :
    (b : Backend) (m : SysmonDMsg) → on_link b m ≡ aborted ↔ count is_free b.reqtable ≡ 0
unfolding on_link
on_link-aborted b m = elim (Option-cases (find_free_entry b.reqtable)) [
  | inl e ↦ (λ h. (find_index-none is_free b.reqtable).0 e, λ h. rw (e, on_link))
  | inr (i, e) ↦ (
    λ h. ground (arith, h, on_link_lem b m i e),
    λ h. ground (arith, (find_index-none is_free b.reqtable).1 h),
  )
]

-- What the scan for a free entry found.
free_entry :
    (b : Backend) (i : ℕ)
    → IsBackend b
    → find_free_entry b.reqtable ≡ some i
    → (i < length b.reqtable) × (get_or b.reqtable i unused ≡ unused)
free_entry b i v e =
    let found = find_index-some is_free b.reqtable i unused e in
    (found.0, ground (arith, get_or-IsEntry b v i found.0, found.1))

taken-IsEntry : (b : Backend) (m : SysmonDMsg) → IsBackend b → IsEntry b.numnodes (taken b m)
taken-IsEntry b m v = record {
  waiting = λ _. v.some_node;
  bounded = λ _. omega arith;
  blank = λ h. cc;
}

-- What an accepted request changes.
abbrev pub LinkPost : Backend → SysmonDMsg → Backend × List Output → Type 0
LinkPost b m (b', out) =
    IsBackend b'
    × (b'.numnodes ≡ b.numnodes)
    × (out ≡ send_to_nodes 0 b.numnodes m)
    × ((s : ℕ) → due s b' ≡ due s b + asked b m s)
    × (in_use b' ≡ in_use b + (if is_crash m.u then 0 else 1))

after_link-LinkPost :
    (b : Backend) (m : SysmonDMsg) (i : ℕ)
    → IsBackend b
    → find_free_entry b.reqtable ≡ some i
    → LinkPost b m (after_link b m i, send_to_nodes 0 b.numnodes m)
after_link-LinkPost b m i v e = elim (Bool-cases (is_crash m.u)) [
  | inl c ↦ rw c (v, refl, refl, λ s. omega arith, omega arith)
  | inr c ↦ rw c (
    set-IsBackend b v i (taken b m) (taken-IsEntry b m v),
    refl,
    refl,
    λ s.
        ground (arith, free_entry b i v e, total-set (entry_due s) b.reqtable i (taken b m) unused),
    ground (arith, free_entry b i v e, total-set used_weight b.reqtable i (taken b m) unused),
  )
]

-- From a well-formed table an accepted request leaves a well-formed one, goes to each node, and
-- makes one response of each node due to its session, unless it is a teardown for a client that is
-- gone; it changes what is due to no other session.
pub on_link-LinkPost :
    (b : Backend) (m : SysmonDMsg) (r : Backend × List Output)
    → IsBackend b
    → on_link b m ≡ ok r
    → LinkPost b m r
on_link-LinkPost b m r v h = elim (Option-cases (find_free_entry b.reqtable)) [
  | inl e ↦ absurd (cc ((on_link-aborted b m).1 ((find_index-none is_free b.reqtable).0 e)))
  | inr (i, e) ↦ of_ok (LinkPost b m) (on_link_lem b m i e) h (after_link-LinkPost b m i v e)
]

-- What an accepted response of a node changes.
abbrev pub NodePost : Backend → SysmonDMsg → Backend × List Output → Type 0
NodePost b m (b', out) =
    IsBackend b'
    × (b'.numnodes ≡ b.numnodes)
    × ((s : ℕ) → due s b ≡ due s b' + (if get_sid_response m.u == s then 1 else 0))
    × (((out ≡ []) × (in_use b' ≡ in_use b))
        ⊎ ((out ≡ to_link m ∷ []) × (in_use b ≡ suc (in_use b'))))

-- What the scan for a request found.
request_entry :
    (b : Backend) (sid i : ℕ)
    → find_request sid b.reqtable ≡ some i
    → (i < length b.reqtable)
      × ((get_or b.reqtable i unused).valid ≡ true)
      × ((get_or b.reqtable i unused).sid ≡ sid)
request_entry b sid i e =
    let found = find_index-some (waits_for sid) b.reqtable i unused e in
    (found.0, ground (arith, found.1), ground (arith, found.1))

respond-NodePost :
    (b : Backend) (m : SysmonDMsg) (i : ℕ)
    → IsBackend b
    → find_request (get_sid_response m.u) b.reqtable ≡ some i
    → NodePost b m (respond b m i)
unfolding respond
respond-NodePost b m i v e =
    let r = get_or b.reqtable i unused in
    let (small, used, mine) = request_entry b (get_sid_response m.u) i e in
    let ok_entry = get_or-IsEntry b v i small in
    let less = record r { pending = r.pending - 1 } in
    elim (Bool-cases (ltb 1 r.pending)) [
      | inl c ↦ rw c (
        set-IsBackend b v i less (record {
          waiting = λ _. ground arith;
          bounded = λ _. ground (arith, ok_entry.bounded used);
          blank = λ f. ground arith;
        }),
        refl,
        λ s. ground (arith, used, mine, total-set (entry_due s) b.reqtable i less unused),
        inl (refl, ground (arith, used, total-set used_weight b.reqtable i less unused)),
      )
      | inr c ↦ rw c (
        set-IsBackend b v i unused (unused-IsEntry b.numnodes),
        refl,
        λ s. ground (
          arith,
          used,
          mine,
          ok_entry.waiting used,
          total-set (entry_due s) b.reqtable i unused unused,
        ),
        inr (refl, ground (arith, used, total-set used_weight b.reqtable i unused unused)),
      )
    ]

-- A session to which something is due has an entry, and the other way round.
due_count :
    (n s : ℕ) (xs : List RequestInfo)
    → All (IsEntry n) xs
    → total (entry_due s) xs ≡ 0 ↔ count (waits_for s) xs ≡ 0
due_count n s [] v = (λ _. refl, λ _. refl)
due_count n s (x ∷ xs) (v, vs) =
    let ih = due_count n s xs vs in
    (λ h. ground (arith, ih.0, v.waiting), λ h. ground (arith, ih.1))

on_node_lem :
    (b : Backend) (m : SysmonDMsg) (i : ℕ)
    → get_sid_response m.u ≢ na_sid
    → find_request (get_sid_response m.u) b.reqtable ≡ some i
    → on_node b m ≡ ok (respond b m i)
unfolding on_node
on_node_lem b m i ne e = elim (Bool-cases (get_sid_response m.u == na_sid)) [
  | inl h ↦ absurd (ne ((==_iff _ _).0 h))
  | inr h ↦ rw h (rw (e, on_node))
]

on_node-missing :
    (b : Backend) (m : SysmonDMsg)
    → find_request (get_sid_response m.u) b.reqtable ≡ none
    → on_node b m ≡ aborted
unfolding on_node
on_node-missing b m e = elim (Bool-cases (get_sid_response m.u == na_sid)) [
  | inl h ↦ rw h
  | inr h ↦ rw h (rw (e, on_node))
]

-- From a well-formed table, a response that names a session is refused exactly when no response is
-- due to that session.
pub on_node-aborted :
    (b : Backend) (m : SysmonDMsg)
    → IsBackend b
    → get_sid_response m.u ≢ na_sid
    → on_node b m ≡ aborted ↔ due (get_sid_response m.u) b ≡ 0
unfolding on_node
on_node-aborted b m v ne =
    let sid = get_sid_response m.u in
    let counted = due_count b.numnodes sid b.reqtable v.entries in
    elim (Option-cases (find_request sid b.reqtable)) [
      | inl e ↦ (
        λ _. counted.1 ((find_index-none (waits_for sid) b.reqtable).0 e),
        λ _. on_node-missing b m e,
      )
      | inr (i, e) ↦ (
        λ h. ground (arith, h, on_node_lem b m i ne e),
        λ h. ground (arith, (find_index-none (waits_for sid) b.reqtable).1 (counted.0 h)),
      )
    ]

-- From a well-formed table an accepted response of a node leaves a well-formed one. What is due to
-- its session falls by one, and what is due to another session stays. The response is passed on
-- exactly when it frees an entry.
pub on_node-NodePost :
    (b : Backend) (m : SysmonDMsg) (r : Backend × List Output)
    → IsBackend b
    → on_node b m ≡ ok r
    → NodePost b m r
unfolding on_node
on_node-NodePost b m r v h = elim (Bool-cases (get_sid_response m.u == na_sid)) [
  | inl e ↦ absurd (ground (arith, h, e))
  | inr e ↦ elim (Option-cases (find_request (get_sid_response m.u) b.reqtable)) [
    | inl f ↦ absurd (ground (arith, h, on_node-missing b m f))
    | inr (i, f) ↦
        of_ok (NodePost b m) (on_node_lem b m i (λ q. ground arith) f) h
          (respond-NodePost b m i v f)
  ]
]

-- The response to a request that took the entry `i`.
answered :
    (b : Backend) (m m' : SysmonDMsg) (i : ℕ)
    → IsBackend b
    → b.numnodes ≡ 1
    → is_crash m.u ≡ false
    → get_sid_response m'.u ≡ get_sid_request m.u
    → get_sid_request m.u ≢ na_sid
    → due (get_sid_request m.u) b ≡ 0
    → find_free_entry b.reqtable ≡ some i
    → on_node (after_link b m i) m' ≡ ok (b, to_link m' ∷ [])
unfolding respond
answered b m m' i v one stays same ne none_due e =
    let sid = get_sid_request m.u in
    let (small, blank) = free_entry b i v e in
    let found : find_request sid (set b.reqtable i (taken b m)) ≡ some i =
      find_index-set (waits_for sid) b.reqtable i (taken b m)
        ((due_count b.numnodes sid b.reqtable v.entries).0 none_due) small (==_refl sid) in
    let b' = record b { reqtable = set b.reqtable i (taken b m) } in
    let restored : set (set b.reqtable i (taken b m)) i unused ≡ b.reqtable =
      subst (λ u. set (set b.reqtable i (taken b m)) i u ≡ b.reqtable) blank
        (set-set-get_or b.reqtable i (taken b m) unused) in
    rw stays (
      on_node_lem b' m' i (λ q. ne (sym same ∙ q)) (rw same found)
      ∙ rw (get_or-set b.reqtable i (taken b m) unused small, one) (ground (arith, restored)))

-- With one node, for a session that has an id and nothing due: a request that is accepted, and is
-- no teardown for a client that is gone, and then the response to that session leave the table as
-- it was, and the response goes to the front end, whatever else is in the table.
pub on_node-on_link :
    (b b' : Backend) (m m' : SysmonDMsg) (out : List Output)
    → IsBackend b
    → b.numnodes ≡ 1
    → is_crash m.u ≡ false
    → get_sid_response m'.u ≡ get_sid_request m.u
    → get_sid_request m.u ≢ na_sid
    → due (get_sid_request m.u) b ≡ 0
    → on_link b m ≡ ok (b', out)
    → on_node b' m' ≡ ok (b, to_link m' ∷ [])
on_node-on_link b b' m m' out v one stays same ne none_due h =
    elim (Option-cases (find_free_entry b.reqtable)) [
      | inl e ↦ absurd (cc ((on_link-aborted b m).1 ((find_index-none is_free b.reqtable).0 e)))
      | inr (i, e) ↦
          of_ok (λ (r : Backend × List Output). on_node r.0 m' ≡ ok (b, to_link m' ∷ []))
            (on_link_lem b m i e) h (answered b m m' i v one stays same ne none_due e)
    ]
