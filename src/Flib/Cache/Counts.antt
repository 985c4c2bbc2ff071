-- ===== src/Flib/Cache/Counts.antt =====
-- The reference counts of the block cache in interface.c.
use myyima.Prelude.{
  ℕ, ◌+◌, ◌-◌, ◌≤◌, ◌≡◌, ◌≢◌, refl, true, none, some, List, [], ◌∷◌, arith, ◌==◌, if◌then◌else◌,
  total, count, ==_iff, Bool-cases, inl, inr,
}
use myyima.Outcome.{ok}
use myyima.Messages.{Name, Ptr, null}
use myyima.Flib.Names.{name_eq}
use myyima.Flib.Cache.{UsedBlock, cached, bump, unlink, live}

-- The users that the cache counts for the block at `p`; none for a block that is not there.
abbrev pub users_of : Ptr → UsedBlock → ℕ
users_of p u = if u.block_ptr == p then u.counter else 0

abbrev pub users : Ptr → List UsedBlock → ℕ
users p = total (users_of p)

-- One, if `q` is a pointer to the block at `p`; NULL points to no block.
abbrev pub is_at : Ptr → Ptr → ℕ
is_at p q = if q == null then 0 else if q == p then 1 else 0

-- Each cached block has an address and a name of its own, and at least one user.
pub record IsBlock (us : List UsedBlock) (u : UsedBlock) : Type 0 where
  pub at : u.block_ptr ≢ null
  pub counted : 1 ≤ u.counter
  pub own_ptr : count (λ p. p == u.block_ptr) (live us) ≡ 0
  pub own_name : cached u.block_name us ≡ none

abbrev pub AreBlocks : List UsedBlock → Type 0
AreBlocks [] = Unit {0}
AreBlocks (u ∷ us) = IsBlock us u × AreBlocks us

-- A block whose address is not live has no users.
users-not_live :
    (p : Ptr) (us : List UsedBlock) → count (λ q. q == p) (live us) ≡ 0 → users p us ≡ 0
users-not_live p [] h = refl
users-not_live p (u ∷ us) h = ground (arith, users-not_live p us)

live-bump : (n : Name) (us : List UsedBlock) → live (bump n us) ≡ live us
unfolding bump
live-bump n [] = refl
live-bump n (u ∷ us) = ground (arith, live-bump n us)

cached-bump : (n m : Name) (us : List UsedBlock) → cached m us ≡ none → cached m (bump n us) ≡ none
unfolding bump cached
cached-bump n m [] h = refl
cached-bump n m (u ∷ us) h = ground (arith, cached-bump n m us)

pub bump-AreBlocks : (n : Name) (us : List UsedBlock) → AreBlocks us → AreBlocks (bump n us)
unfolding bump
bump-AreBlocks n [] v = tt
bump-AreBlocks n (u ∷ us) (b, v) = elim (Bool-cases (name_eq u.block_name n)) [
  | inl e ↦
      rw e
        (record { at = b.at; counted = omega arith; own_ptr = b.own_ptr; own_name = b.own_name }, v)
  | inr e ↦ rw e (
    record {
      at = b.at;
      counted = b.counted;
      own_ptr = rw (live-bump n us) b.own_ptr;
      own_name = cached-bump n u.block_name us b.own_name;
    },
    bump-AreBlocks n us v,
  )
]

-- Sharing a cached block adds one to its users, and to no other block's.
pub users-bump :
    (n : Name) (us : List UsedBlock) (u : UsedBlock) (p : Ptr)
    → cached n us ≡ some u
    → users p (bump n us) ≡ users p us + (if u.block_ptr == p then 1 else 0)
unfolding bump cached
users-bump n [] u p h = cc
users-bump n (x ∷ us) u p h = ground (arith, users-bump n us u p)

-- What is left when one user of the block at `p` has gone.
pub record Unlinked (p : Ptr) (us left : List UsedBlock) : Type 0 where
  pub returns : unlink p us ≡ ok (left, true)
  pub blocks : AreBlocks left
  pub one_less : (q : Ptr) → users q us ≡ users q left + (if p == q then 1 else 0)
  pub ptrs : (q : Ptr) → count (λ r. r == q) (live us) ≡ 0 → count (λ r. r == q) (live left) ≡ 0
  pub names : (n : Name) → cached n us ≡ none → cached n left ≡ none

unlink_head :
    (p : Ptr) (u : UsedBlock) (us : List UsedBlock)
    → IsBlock us u
    → AreBlocks us
    → u.block_ptr ≡ p
    → (left : List UsedBlock) × Unlinked p (u ∷ us) left
unfolding unlink cached
unlink_head p u us b v e = elim (Bool-cases (u.counter == 1)) [
  | inl c ↦ (
    us,
    record {
      returns = ground (arith, b.counted);
      blocks = v;
      one_less = λ q. ground (arith, users-not_live p us);
      ptrs = λ q h. ground arith;
      names = λ n h. ground arith;
    },
  )
  | inr c ↦ (
    record u { counter = u.counter - 1 } ∷ us,
    record {
      returns = ground (arith, b.counted);
      blocks = (
        record { at = b.at; counted = ground arith; own_ptr = b.own_ptr; own_name = b.own_name },
        v,
      );
      one_less = λ q. ground arith;
      ptrs = λ q h. h;
      names = λ n h. ground arith;
    },
  )
]

unlink_tail :
    (p : Ptr) (u : UsedBlock) (us left : List UsedBlock)
    → IsBlock us u
    → u.block_ptr ≢ p
    → Unlinked p us left
    → Unlinked p (u ∷ us) (u ∷ left)
unfolding unlink cached
unlink_tail p u us left b ne r = record {
  returns = ground (arith, r.returns);
  blocks = (
    record {
      at = b.at;
      counted = b.counted;
      own_ptr = r.ptrs u.block_ptr b.own_ptr;
      own_name = r.names u.block_name b.own_name;
    },
    r.blocks,
  );
  one_less = λ q. ground (arith, r.one_less q);
  ptrs = λ q h. ground (arith, r.ptrs q);
  names = λ n h. ground (arith, r.names n);
}

-- Releasing a block that has a user takes one user off it, and none off any other block.
pub unlink_lem :
    (p : Ptr) (us : List UsedBlock)
    → AreBlocks us
    → 1 ≤ users p us
    → (left : List UsedBlock) × Unlinked p us left
unlink_lem p [] v h = absurd (omega arith)
unlink_lem p (u ∷ us) (b, v) h = elim (Bool-cases (u.block_ptr == p)) [
  | inl e ↦ unlink_head p u us b v ((==_iff _ _).0 e)
  | inr e ↦
      let (left, r) = unlink_lem p us v (ground arith) in
      (u ∷ left, unlink_tail p u us left b (λ q. ground arith) r)
]
