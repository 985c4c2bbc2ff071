-- ===== src/Flib/Interface/Opening.antt =====
-- The first part of Flib_play of interface.c: the session is at hand, and its old blocks are given
-- back. While it reads new ones, its pointers stand for users that are said apart.
use myyima.Prelude.{
  ℕ, ◌+◌, ◌<◌, ◌≡◌, ◌≢◌, refl, none, some, List, arith, total, Option, Option-cases, inl, inr,
  subst, sym, ◌∙◌, length, find_first-replace_first, find_first-some, ==_iff,
}
use myyima.Outcome.{ok, ok-injective}
use myyima.Messages.{Name, Ptr, null}
use myyima.Flib.Retrieve.{Disk, PackInfo, block_name_size}
use myyima.Flib.Cache.{Cache, IsMalloc, local_read_block}
use myyima.Flib.Cache.Counts.{is_at, users, AreBlocks}
use myyima.Flib.Cache.Calls.{local_read_block-Gains}
use myyima.Flib.Interface.{
  SessionInfo, Flib, Heap, has_id, find_session, put_session, open_session, attach,
}
use myyima.Flib.Interface.Balance.{IsBalanced, holds, held, held-put_session, give_back}

-- In the middle of Flib_play: the session `s` has the id, and the counts are right if its pointers
-- stand for `k` users, whatever they are.
pub record IsOpen (id : ℕ) (s : SessionInfo) (k : Ptr → ℕ) (flight : List Ptr) (f : Flib)
    : Type 0 where
  pub found : find_session id f ≡ some s
  pub mine : s.session_id ≡ id
  pub blocks : AreBlocks f.cache.used_blocks
  pub counts :
      (p : Ptr)
      → users p f.cache.used_blocks + holds p s ≡ held p f.sessions + total (is_at p) flight + k p

find_session-put_session :
    (id : ℕ) (s s' : SessionInfo) (f : Flib)
    → find_session id f ≡ some s
    → s'.session_id ≡ id
    → find_session id (put_session id s' f) ≡ some s'
find_session-put_session id s s' f e same =
    find_first-replace_first (has_id id) s' s f.sessions e (ground (arith, same))

-- The session may change in any way, as long as it keeps its id.
pub put_session-IsOpen :
    (id : ℕ) (s s' : SessionInfo) (k : Ptr → ℕ) (flight : List Ptr) (f : Flib)
    → IsOpen id s k flight f
    → s'.session_id ≡ id
    → IsOpen id s' k flight (put_session id s' f)
put_session-IsOpen id s s' k flight f v same = record {
  found = find_session-put_session id s s' f v.found same;
  mine = same;
  blocks = v.blocks;
  counts = λ p. omega (arith, v.counts p, held-put_session id s s' f p v.found);
}

-- A block that is read for the session counts for one of its pointers more.
pub read-IsOpen :
    (hp : Heap) (d : Disk) (movie block : Name) (old : PackInfo) (id : ℕ) (s : SessionInfo)
    (k k' : Ptr → ℕ) (flight : List Ptr) (f : Flib) (r : Cache × Ptr × PackInfo)
    → IsMalloc hp.malloc
    → length block < block_name_size
    → IsOpen id s k flight f
    → local_read_block hp.malloc d f.cache movie block old ≡ ok r
    → ((p : Ptr) → k' p ≡ k p + is_at p r.1)
    → (r.1 ≢ null) × IsOpen id s k' flight (record f { cache = r.0 })
read-IsOpen hp d movie block old id s k k' flight f r m short v h more =
    let g = local_read_block-Gains hp.malloc d f.cache movie block old r m v.blocks short h in
    (
      g.at,
      record {
        found = v.found;
        mine = v.mine;
        blocks = g.blocks;
        counts = λ p. omega (arith, v.counts p, g.one_more p, more p);
      },
    )

-- A session that is found has given its blocks back.
reopen_session-IsOpen :
    (hp : Heap) (id : ℕ) (flight : List Ptr) (f : Flib) (s : SessionInfo)
    → IsBalanced flight f
    → find_session id f ≡ some s
    → (r : Flib × SessionInfo) × (open_session hp id f ≡ ok r) × IsOpen id r.1 (λ _. 0) flight r.0
unfolding open_session
reopen_session-IsOpen hp id flight f s v e =
    let (c₁, c₂, l) = give_back id s flight f v e in
    let s' = record s { block_ptr = null; next_block_ptr = null } in
    let own : s.session_id ≡ id = (==_iff _ _).0 (find_first-some (has_id id) s f.sessions e) in
    (
      (put_session id s' (record f { cache = c₂ }), s'),
      rw (e, open_session) (rw (l.first, l.second)),
      record {
        found = find_session-put_session id s s' f e own;
        mine = own;
        blocks = l.blocks;
        counts = λ p. omega (arith, v.counts p, l.users_less p, held-put_session id s s' f p e);
      },
    )

attach-IsOpen :
    (id : ℕ) (flight : List Ptr) (f : Flib) (new : Option SessionInfo) (r : Flib × SessionInfo)
    → IsBalanced flight f
    → attach id f new ≡ ok r
    → IsOpen id r.1 (λ _. 0) flight r.0
attach-IsOpen id flight f none r v h = cc
attach-IsOpen id flight f (some blank) r v h =
    subst (λ (r : Flib × SessionInfo). IsOpen id r.1 (λ _. 0) flight r.0) (ok-injective h)
      (record {
        found = ground arith;
        mine = refl;
        blocks = v.blocks;
        counts = λ p. omega (arith, v.counts p);
      })

-- The session is at hand, and none of its pointers counts.
pub open_session-IsOpen :
    (hp : Heap) (id : ℕ) (flight : List Ptr) (f : Flib) (r : Flib × SessionInfo)
    → IsBalanced flight f
    → open_session hp id f ≡ ok r
    → IsOpen id r.1 (λ _. 0) flight r.0
unfolding open_session
open_session-IsOpen hp id flight f r v h = elim (Option-cases (find_session id f)) [
  | inl e ↦ attach-IsOpen id flight f hp.new_session r v (rw (e, open_session) at h)
  | inr (s, e) ↦
      let (r', k, w) = reopen_session-IsOpen hp id flight f s v e in
      subst (λ (r : Flib × SessionInfo). IsOpen id r.1 (λ _. 0) flight r.0)
        (ok-injective (sym k ∙ h)) w
]
