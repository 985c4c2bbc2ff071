-- ===== src/Flib/Cache/Places.antt =====
-- Where localReadBlock of interface.c leaves blocks: a block that is read or shared is found under
-- its name, and what was in the cache before stays where it is.
use myyima.Prelude.{
  ◌<◌, ◌≡◌, refl, none, some, Option, List, [], ◌∷◌, ◌++◌, arith, ◌==◌, length, Bool-cases,
  Option-cases, inl, inr, subst, take-length,
}
use myyima.Outcome.{ok, ok-injective, >>=-eq-ok}
use myyima.Messages.{Name, Ptr, null}
use myyima.Flib.Names.{name_eq_refl}
use myyima.Flib.Retrieve.{Disk, PackInfo, get_num_packets, read_block, block_name_size, strncpy}
use myyima.Flib.Cache.{
  UsedBlock, Cache, Malloc, cached, bump, live, share_block, fetch_block, local_read_block, fetched,
  shared, or_old,
}

-- The address of the block with a name.
abbrev pub block_at : Name → List UsedBlock → Option Ptr
block_at n us = elim (cached n us) [ none ↦ none | some u ↦ some u.block_ptr ]

block_at-bump : (n m : Name) (us : List UsedBlock) → block_at n (bump m us) ≡ block_at n us
unfolding bump cached
block_at-bump n m [] = refl
block_at-bump n m (u ∷ us) = ground (arith, block_at-bump n m us)

block_at-append :
    (n : Name) (us : List UsedBlock) (u : UsedBlock) (p : Ptr)
    → block_at n us ≡ some p
    → block_at n (us ++ u ∷ []) ≡ some p
unfolding cached
block_at-append n [] u p h = cc
block_at-append n (x ∷ us) u p h = ground (arith, block_at-append n us u p)

block_at-append_self :
    (us : List UsedBlock) (u : UsedBlock)
    → cached u.block_name us ≡ none
    → block_at u.block_name (us ++ u ∷ []) ≡ some u.block_ptr
unfolding cached
block_at-append_self [] u h = ground (arith, name_eq_refl u.block_name)
block_at-append_self (x ∷ us) u h = ground (arith, block_at-append_self us u)

-- The block `block` is at `p`, and the others are where they were.
pub record Places (block : Name) (c c' : Cache) (p : Ptr) : Type 0 where
  pub here : block_at block c'.used_blocks ≡ some p
  pub kept :
      (n : Name) (q : Ptr) → block_at n c.used_blocks ≡ some q → block_at n c'.used_blocks ≡ some q

fetch_block-Places :
    (malloc : Malloc) (d : Disk) (c : Cache) (movie block : Name) (old : PackInfo)
    (r : Cache × Ptr × PackInfo)
    → length block < block_name_size
    → cached block c.used_blocks ≡ none
    → fetch_block malloc d c movie block old ≡ ok r
    → Places block c r.0 r.1
unfolding fetch_block
fetch_block-Places malloc d c movie block old r short new h =
    let p = malloc (live c.used_blocks) in
    elim (Bool-cases (p == null)) [
      | inl e ↦ absurd (ground (arith, h, e))
      | inr e ↦
          let ((info, bytes), f, g) =
            >>=-eq-ok (read_block d movie block old) (λ x. ok (fetched c block p x)) (rw e at h) in
          let u : UsedBlock = record {
            counter = 1;
            block_name = strncpy block;
            block_ptr = p;
            number_of_packets = info.numpkts;
          } in
          let named : strncpy block ≡ block = take-length block_name_size block short in
          subst (λ (r : Cache × Ptr × PackInfo). Places block c r.0 r.1) (ok-injective g)
            (record {
              here =
                  subst (λ n. block_at n (c.used_blocks ++ u ∷ []) ≡ some p) named
                    (block_at-append_self c.used_blocks u (rw named new));
              kept = λ n q k. block_at-append n c.used_blocks u q k;
            })
    ]

share_block-Places :
    (d : Disk) (c : Cache) (movie block : Name) (old : PackInfo) (u : UsedBlock)
    (r : Cache × Ptr × PackInfo)
    → cached block c.used_blocks ≡ some u
    → share_block d c movie block old u ≡ ok r
    → Places block c r.0 r.1
unfolding share_block
share_block-Places d c movie block old u r e h =
    let placed : Places block c (record c { used_blocks = bump block c.used_blocks }) u.block_ptr =
      record {
        here = rw (block_at-bump block block c.used_blocks) (rw (e, block_at) refl);
        kept = λ n q k. rw (block_at-bump n block c.used_blocks) k;
      } in
    let (info, f, g) =
      >>=-eq-ok (get_num_packets d movie block old) (λ i. shared c block u (or_old old i)) h in
    elim (Bool-cases ((or_old old info).numpkts == u.number_of_packets)) [
      | inl k ↦
          subst (λ (r : Cache × Ptr × PackInfo). Places block c r.0 r.1) (ok-injective (rw k at g))
            placed
      | inr k ↦ absurd (ground (arith, g, k))
    ]

pub local_read_block-Places :
    (malloc : Malloc) (d : Disk) (c : Cache) (movie block : Name) (old : PackInfo)
    (r : Cache × Ptr × PackInfo)
    → length block < block_name_size
    → local_read_block malloc d c movie block old ≡ ok r
    → Places block c r.0 r.1
unfolding local_read_block
local_read_block-Places malloc d c movie block old r short h =
    elim (Option-cases (cached block c.used_blocks)) [
      | inl e ↦
          fetch_block-Places malloc d c movie block old r short e (rw (e, local_read_block) at h)
      | inr (u, e) ↦ share_block-Places d c movie block old u r e (rw (e, local_read_block) at h)
    ]
