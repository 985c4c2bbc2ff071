-- ===== src/Flib/Cache/Calls.antt =====
-- What localReadBlock and releaseUsedBlock of interface.c do to the users of each block.
use myyima.Prelude.{
  ◌+◌, ◌≤◌, ◌<◌, ◌≡◌, ◌≢◌, refl, true, none, some, List, [], ◌∷◌, ◌++◌, arith, ◌==◌, if◌then◌else◌,
  count, length, Bool-cases, Option-cases, inl, inr, subst, total-append, take-length,
}
use myyima.Outcome.{ok, ok-injective, >>=-eq-ok}
use myyima.Messages.{Name, Ptr, null}
use myyima.Flib.Names.{name_eq_comm}
use myyima.Flib.Retrieve.{Disk, PackInfo, get_num_packets, read_block, block_name_size, strncpy}
use myyima.Flib.Cache.{
  UsedBlock, Cache, Malloc, IsMalloc, cached, bump, live, share_block, fetch_block,
  local_read_block, release_used_block, fetched, shared, or_old,
}
use myyima.Flib.Cache.Counts.{
  is_at, users, users_of, AreBlocks, bump-AreBlocks, users-bump, unlink_lem,
}

-- One more user for the block at `p`, and no other change in the counts.
pub record Gains (c c' : Cache) (p : Ptr) : Type 0 where
  pub at : p ≢ null
  pub blocks : AreBlocks c'.used_blocks
  pub one_more : (q : Ptr) → users q c'.used_blocks ≡ users q c.used_blocks + is_at q p

cached-AreBlocks :
    (n : Name) (us : List UsedBlock) (u : UsedBlock)
    → AreBlocks us
    → cached n us ≡ some u
    → u.block_ptr ≢ null
unfolding cached
cached-AreBlocks n [] u v h = cc
cached-AreBlocks n (x ∷ us) u (b, v) h = ground (arith, cached-AreBlocks n us u v, b.at)

-- A block that is appended keeps the entries apart.
live-append :
    (q : Ptr) (us : List UsedBlock) (u : UsedBlock)
    → count (λ r. r == q) (live (us ++ u ∷ []))
      ≡ count (λ r. r == q) (live us) + (if u.block_ptr == q then 1 else 0)
live-append q [] u = omega arith
live-append q (x ∷ us) u = omega (arith, live-append q us u)

cached-append :
    (n : Name) (us : List UsedBlock) (u : UsedBlock)
    → cached n us ≡ none
    → cached n (us ++ u ∷ []) ≡ cached n (u ∷ [])
unfolding cached
cached-append n [] u h = refl
cached-append n (x ∷ us) u h = ground (arith, cached-append n us u)

append-AreBlocks :
    (us : List UsedBlock) (u : UsedBlock)
    → AreBlocks us
    → u.block_ptr ≢ null
    → 1 ≤ u.counter
    → count (λ r. r == u.block_ptr) (live us) ≡ 0
    → cached u.block_name us ≡ none
    → AreBlocks (us ++ u ∷ [])
unfolding cached
append-AreBlocks [] u v at one apart new =
    (record { at = at; counted = one; own_ptr = refl; own_name = refl }, tt)
append-AreBlocks (x ∷ us) u (b, v) at one apart new = (
  record {
    at = b.at;
    counted = b.counted;
    own_ptr = ground (arith, live-append x.block_ptr us u, b.own_ptr);
    own_name =
        ground (
          arith,
          cached-append x.block_name us u b.own_name,
          name_eq_comm u.block_name x.block_name,
        );
  },
  append-AreBlocks us u v at one (ground arith) (ground arith),
)

fetch_block-Gains :
    (malloc : Malloc) (d : Disk) (c : Cache) (movie block : Name) (old : PackInfo)
    (r : Cache × Ptr × PackInfo)
    → IsMalloc malloc
    → AreBlocks c.used_blocks
    → length block < block_name_size
    → cached block c.used_blocks ≡ none
    → fetch_block malloc d c movie block old ≡ ok r
    → Gains c r.0 r.1
unfolding fetch_block
fetch_block-Gains malloc d c movie block old r m v short new h =
    let p = malloc (live c.used_blocks) in
    elim (Bool-cases (p == null)) [
      | inl e ↦ absurd (ground (arith, h, e))
      | inr e ↦
          let ((info, bytes), f, g) =
            >>=-eq-ok (read_block d movie block old) (λ x. ok (fetched c block p x)) (rw e at h) in
          let u : UsedBlock = record {
            counter = 1;
            block_name = strncpy block;
            block_ptr = p;
            number_of_packets = info.numpkts;
          } in
          let named : strncpy block ≡ block = take-length block_name_size block short in
          let at : p ≢ null = λ q. ground arith in
          subst (λ (r : Cache × Ptr × PackInfo). Gains c r.0 r.1) (ok-injective g)
            (record {
              at = at;
              blocks =
                  append-AreBlocks c.used_blocks u v at (omega arith) (m (live c.used_blocks) at)
                    (rw named new);
              one_more = λ q. ground (arith, total-append (users_of q) c.used_blocks (u ∷ []), e);
            })
    ]

share_block-Gains :
    (d : Disk) (c : Cache) (movie block : Name) (old : PackInfo) (u : UsedBlock)
    (r : Cache × Ptr × PackInfo)
    → AreBlocks c.used_blocks
    → cached block c.used_blocks ≡ some u
    → share_block d c movie block old u ≡ ok r
    → Gains c r.0 r.1
unfolding share_block
share_block-Gains d c movie block old u r v e h =
    let gained : Gains c (record c { used_blocks = bump block c.used_blocks }) u.block_ptr =
      record {
        at = cached-AreBlocks block c.used_blocks u v e;
        blocks = bump-AreBlocks block c.used_blocks v;
        one_more = λ q. ground (
          arith,
          users-bump block c.used_blocks u q e,
          cached-AreBlocks block c.used_blocks u v e,
        );
      } in
    let (info, f, g) =
      >>=-eq-ok (get_num_packets d movie block old) (λ i. shared c block u (or_old old i)) h in
    elim (Bool-cases ((or_old old info).numpkts == u.number_of_packets)) [
      | inl k ↦
          subst (λ (r : Cache × Ptr × PackInfo). Gains c r.0 r.1) (ok-injective (rw k at g)) gained
      | inr k ↦ absurd (ground (arith, g, k))
    ]

-- With a name that fits into the buffer and a well-formed cache, a call of localReadBlock that
-- returns has counted its caller: the block that it returns has one user more, whether it was
-- shared or read, and no other block gains or loses one.
pub local_read_block-Gains :
    (malloc : Malloc) (d : Disk) (c : Cache) (movie block : Name) (old : PackInfo)
    (r : Cache × Ptr × PackInfo)
    → IsMalloc malloc
    → AreBlocks c.used_blocks
    → length block < block_name_size
    → local_read_block malloc d c movie block old ≡ ok r
    → Gains c r.0 r.1
unfolding local_read_block
local_read_block-Gains malloc d c movie block old r m v short h =
    elim (Option-cases (cached block c.used_blocks)) [
      | inl e ↦
          fetch_block-Gains malloc d c movie block old r m v short e (rw (e, local_read_block) at h)
      | inr (u, e) ↦ share_block-Gains d c movie block old u r v e (rw (e, local_read_block) at h)
    ]

-- One user less for the block at `p`; nothing, for NULL.
pub record Loses (c c' : Cache) (p : Ptr) : Type 0 where
  pub returns : release_used_block p c ≡ ok (c', true)
  pub blocks : AreBlocks c'.used_blocks
  pub one_less : (q : Ptr) → users q c.used_blocks ≡ users q c'.used_blocks + is_at q p

-- From a well-formed cache, releasing NULL succeeds and changes no count; releasing a block that
-- has a user succeeds and takes one user off that block, and none off another.
pub release_used_block-Loses :
    (p : Ptr) (c : Cache)
    → AreBlocks c.used_blocks
    → (p ≢ null → 1 ≤ users p c.used_blocks)
    → (c' : Cache) × Loses c c' p
unfolding release_used_block
release_used_block-Loses p c v h = elim (Bool-cases (p == null)) [
  | inl e ↦ (c, record { returns = rw e; blocks = v; one_less = λ q. ground arith })
  | inr e ↦
      let (left, r) = unlink_lem p c.used_blocks v (h (λ q. ground arith)) in
      (
        record c { used_blocks = left },
        record {
          returns = rw e (rw r.returns);
          blocks = r.blocks;
          one_less = λ q. ground (arith, r.one_less q);
        },
      )
]
