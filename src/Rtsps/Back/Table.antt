-- ===== src/Rtsps/Back/Table.antt =====
-- The request table of rtsps_back.c: its well-formed entries, and what a write to one entry does
-- to the number of responses that are still due.
use myyima.Prelude.{
  ℕ, ◌≤◌, ◌<◌, ◌≡◌, refl, true, false, arith, if◌then◌else◌, get_or, set, total, All, All-set,
  All-get_or, All-replicate, length,
}
use myyima.Rtsps.Back.{RequestInfo, unused, Backend, initiate_backend, waits_for}

-- An entry in use waits for one node at least and for each at most; any other is as
-- InitiateBackend wrote it.
pub record IsEntry (n : ℕ) (r : RequestInfo) : Type 0 where
  pub waiting : r.valid ≡ true → 1 ≤ r.pending
  pub bounded : r.valid ≡ true → r.pending ≤ n
  pub blank : r.valid ≡ false → r ≡ unused

pub record IsBackend (b : Backend) : Type 0 where
  pub some_node : 1 ≤ b.numnodes
  pub entries : All (IsEntry b.numnodes) b.reqtable

pub unused-IsEntry : (n : ℕ) → IsEntry n unused
unused-IsEntry n = record { waiting = λ h. cc; bounded = λ h. cc; blank = λ _. refl }

pub initiate_backend-IsBackend : IsBackend initiate_backend
unfolding initiate_backend
initiate_backend-IsBackend = record {
  some_node = omega arith;
  entries = All-replicate (IsEntry 1) 100 unused (unused-IsEntry 1);
}

-- The responses that one entry still waits for, if it is for the session `s`.
abbrev pub entry_due : ℕ → RequestInfo → ℕ
entry_due s r = if waits_for s r then r.pending else 0

-- The responses that the nodes still owe to the session `s`.
abbrev pub due : ℕ → Backend → ℕ
due s b = total (entry_due s) b.reqtable

module _ (b : Backend) (v : IsBackend b) where
  -- What is known of the entry that a scan found.
  pub get_or-IsEntry :
      (i : ℕ) → i < length b.reqtable → IsEntry b.numnodes (get_or b.reqtable i unused)
  get_or-IsEntry i h = All-get_or (IsEntry b.numnodes) b.reqtable i unused h v.entries

  pub set-IsBackend :
      (i : ℕ) (r : RequestInfo)
      → IsEntry b.numnodes r
      → IsBackend (record b { reqtable = set b.reqtable i r })
  set-IsBackend i r h = record {
    some_node = v.some_node;
    entries = All-set (IsEntry b.numnodes) b.reqtable i r h v.entries;
  }
