-- ===== src/Flib/Cache.antt =====
-- The cache of block files: localReadBlock and releaseUsedBlock of Server/FLIB/interface.c, and
-- its list `usedBlocks` in the order of its links.
pub mod Counts
pub mod Calls
pub mod Places
use myyima.Prelude.{
  ℕ, suc, ◌+◌, ◌-◌, ◌*◌, ◌≡◌, ◌≢◌, Bool, ◌&&◌, Option, none, some, List, [], ◌∷◌, ◌++◌, ltb, leb,
  ◌==◌, if◌then◌else◌, length, get_or, map, count,
}
use myyima.Outcome.{Outcome, ok, aborted, ◌>>=◌}
use myyima.Messages.{Name, Ptr, null}
use myyima.Flib.Names.{name_eq}
use myyima.Flib.Retrieve.{Disk, PackInfo, strncpy, get_num_packets, read_block}

-- struct usedBlock
pub record UsedBlock : Type 0 where
  pub counter : ℕ
  pub block_name : Name
  pub block_ptr : Ptr
  pub number_of_packets : ℕ

-- The addresses of the block data that malloc has given out and nobody has freed.
abbrev pub live : List UsedBlock → List Ptr
live = map (λ u. u.block_ptr)

-- malloc answers by what is live: NULL, or the address of a region that overlaps none of them.
abbrev pub Malloc : Type 0
Malloc = List Ptr → Ptr

abbrev pub IsMalloc : Malloc → Type 0
IsMalloc malloc = (ps : List Ptr) → malloc ps ≢ null → count (λ p. p == malloc ps) ps ≡ 0

-- The entry that the first loop of localReadBlock stops at.
unfoldable pub cached : Name → List UsedBlock → Option UsedBlock
cached n [] = none
cached n (u ∷ us) = if name_eq u.block_name n then some u else cached n us

-- `curPtr->counter++` at that entry.
unfoldable pub bump : Name → List UsedBlock → List UsedBlock
bump n [] = []
bump n (u ∷ us) =
    if name_eq u.block_name n then record u { counter = suc u.counter } ∷ us else u ∷ bump n us

-- The bytes of memory, by address.
abbrev pub Memory : Type 0
Memory = Ptr → ℕ

-- What read() leaves in memory: `bytes` from the address `p` on.
unfoldable pub store_bytes : Ptr → List ℕ → Memory → Memory
store_bytes p bytes mem a =
    if leb p a && ltb a (p + length bytes) then get_or bytes (a - p) 0 else mem a

pub record Cache : Type 0 where
  pub used_blocks : List UsedBlock
  pub memory : Memory

-- The block `u` is in the cache: it is shared if the number of packets agrees, and else exit(0).
abbrev pub shared : Cache → Name → UsedBlock → PackInfo → Outcome (Cache × Ptr × PackInfo)
shared c block u new =
    if new.numpkts == u.number_of_packets
    then ok (record c { used_blocks = bump block c.used_blocks }, u.block_ptr, new)
    else aborted

abbrev pub or_old : PackInfo → Option PackInfo → PackInfo
or_old old none = old
or_old old (some new) = new

unfoldable pub share_block :
    Disk → Cache → Name → Name → PackInfo → UsedBlock → Outcome (Cache × Ptr × PackInfo)
share_block d c movie block old u = do
  info ← get_num_packets d movie block old
  shared c block u (or_old old info)

-- The cache with a block at `p` that was read just now, and what localReadBlock returns.
abbrev pub fetched : Cache → Name → Ptr → PackInfo × List ℕ → Cache × Ptr × PackInfo
fetched c block p (new, bytes) = (
  record {
    used_blocks =
        c.used_blocks
        ++ record {
          counter = 1;
          block_name = strncpy block;
          block_ptr = p;
          number_of_packets = new.numpkts;
        }
          ∷ [];
    memory = store_bytes p bytes c.memory;
  },
  p,
  new,
)

-- A block is not in the cache: it is read, and appended. With no memory, exit(0).
unfoldable pub fetch_block :
    Malloc → Disk → Cache → Name → Name → PackInfo → Outcome (Cache × Ptr × PackInfo)
fetch_block malloc d c movie block old =
    let p = malloc (live c.used_blocks) in
    if p == null then aborted else (do r ← read_block d movie block old; ok (fetched c block p r))

-- localReadBlock. The address `malloc` gives for the data stands for both of its calls of malloc:
-- each of them, failing, ends the process.
unfoldable pub local_read_block :
    Malloc → Disk → Cache → Name → Name → PackInfo → Outcome (Cache × Ptr × PackInfo)
unfolding share_block fetch_block
local_read_block malloc d c movie block old = elim (cached block c.used_blocks) [
  | some u ↦ share_block d c movie block old u
  | none ↦ fetch_block malloc d c movie block old
]

-- The loop of releaseUsedBlock: whether the block was found, and the list that is left. The entry
-- is unlinked and freed with its last user.
unfoldable pub unlink : Ptr → List UsedBlock → Outcome (List UsedBlock × Bool)
unlink p [] = ok ([], Bool.false)
unlink p (u ∷ us) =
    let rest = unlink p us in
    if u.block_ptr == p
    then (if u.counter == 0
        then aborted
        else ok
            (if u.counter == 1 then us else record u { counter = u.counter - 1 } ∷ us, Bool.true))
    else do (us', found) ← rest; ok (u ∷ us', found)

-- releaseUsedBlock
unfoldable pub release_used_block : Ptr → Cache → Outcome (Cache × Bool)
unfolding unlink
release_used_block p c =
    if p == null
    then ok (c, Bool.true)
    else do (us, found) ← unlink p c.used_blocks; ok (record c { used_blocks = us }, found)
