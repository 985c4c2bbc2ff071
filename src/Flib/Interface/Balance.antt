-- ===== src/Flib/Interface/Balance.antt =====
-- The users that the cache of interface.c counts, against the pointers that are held: by the
-- sessions, and by blocks in flight, which a session has left and whose release
-- FLIB_LAST_PKT_OF_BLOCK is still to ask for.
use myyima.Prelude.{
  ℕ, ◌+◌, ◌≤◌, ◌<◌, ◌≡◌, ◌≢◌, ◌⊎◌, refl, Bool, true, false, Option, none, some, List, sym, ap, ◌∙◌,
  [], ◌∷◌, arith, ◌==◌, if◌then◌else◌, total, Bool-cases, Option-cases, inl, inr,
  total-replace_first, total-remove_first, remove_first, subst, length,
}
use myyima.Outcome.{ok, ok-injective, ◌>>=◌, >>=-eq-ok}
use myyima.Messages.{Name, Ptr, null, NextRtpPktInfo}
use myyima.Flib.Retrieve.{
  Disk, PackInfo, block_name_size, get_next_block_name, get_num_packets, get_next_block_name-short,
}
use myyima.Flib.Cache.{Cache, Memory, IsMalloc, local_read_block, release_used_block}
use myyima.Flib.Cache.Counts.{is_at, users, AreBlocks}
use myyima.Flib.Cache.Calls.{local_read_block-Gains, release_used_block-Loses}
use myyima.Flib.Interface.{
  SessionInfo, Flib, Heap, has_id, find_session, put_session, packet_at, advance, read_in,
  next_packet, at_next_block, pack_info, more_in_block, flib_get_next_packet, flib_tear_down,
  flib_last_pkt_of_block, read_next, written,
}

-- The pointers to the block at `p` that a session holds.
abbrev pub holds : Ptr → SessionInfo → ℕ
holds p s = is_at p s.block_ptr + is_at p s.next_block_ptr

abbrev pub held : Ptr → List SessionInfo → ℕ
held p = total (holds p)

-- Each block has the users that it should have: one for each pointer of a session, and one for
-- each release in flight.
pub record IsBalanced (flight : List Ptr) (f : Flib) : Type 0 where
  pub blocks : AreBlocks f.cache.used_blocks
  pub counts : (p : Ptr) → users p f.cache.used_blocks ≡ held p f.sessions + total (is_at p) flight

pub held-put_session :
    (id : ℕ) (s s' : SessionInfo) (f : Flib) (p : Ptr)
    → find_session id f ≡ some s
    → held p (put_session id s' f).sessions + holds p s ≡ held p f.sessions + holds p s'
held-put_session id s s' f p e = total-replace_first (holds p) (has_id id) s' s f.sessions e

-- A session that is found holds its pointers.
holds-le_held :
    (id : ℕ) (s : SessionInfo) (f : Flib) (p : Ptr)
    → find_session id f ≡ some s
    → holds p s ≤ held p f.sessions
holds-le_held id s f p e = omega (arith, total-remove_first (holds p) (has_id id) s f.sessions e)

-- A session that is found can give its two blocks back, and then nothing of what it held is
-- counted.
pub record Released (s : SessionInfo) (c c₁ c₂ : Cache) : Type 0 where
  pub first : release_used_block s.block_ptr c ≡ ok (c₁, true)
  pub second : release_used_block s.next_block_ptr c₁ ≡ ok (c₂, true)
  pub blocks : AreBlocks c₂.used_blocks
  pub users_less : (p : Ptr) → users p c.used_blocks ≡ users p c₂.used_blocks + holds p s

pub give_back :
    (id : ℕ) (s : SessionInfo) (flight : List Ptr) (f : Flib)
    → IsBalanced flight f
    → find_session id f ≡ some s
    → (c₁ c₂ : Cache) × Released s f.cache c₁ c₂
give_back id s flight f v e =
    let mine = λ (p : Ptr). holds-le_held id s f p e in
    let (c₁, l₁) =
      release_used_block-Loses s.block_ptr f.cache v.blocks
        (λ ne. ground (arith, ne, mine s.block_ptr, v.counts s.block_ptr)) in
    let (c₂, l₂) = release_used_block-Loses s.next_block_ptr c₁ l₁.blocks (λ ne. ground (
      arith,
      ne,
      mine s.next_block_ptr,
      v.counts s.next_block_ptr,
      l₁.one_less s.next_block_ptr,
    )) in
    (
      c₁,
      c₂,
      record {
        first = l₁.returns;
        second = l₂.returns;
        blocks = l₂.blocks;
        users_less = λ p. omega (arith, l₁.one_less p, l₂.one_less p);
      },
    )

-- From right counts, Flib_tear_down of a session in the list, with MovieEndFlg FALSE, returns,
-- takes the session out of the list, and keeps the counts right: what it held is released, and
-- nothing else is.
pub flib_tear_down-IsBalanced :
    (id : ℕ) (s : SessionInfo) (flight : List Ptr) (f : Flib)
    → IsBalanced flight f
    → find_session id f ≡ some s
    → (f' : Flib) × (flib_tear_down id false f ≡ ok (f', true))
      × IsBalanced flight f'
      × (f'.sessions ≡ remove_first (has_id id) f.sessions)
unfolding flib_tear_down
flib_tear_down-IsBalanced id s flight f v e =
    let (c₁, c₂, l) = give_back id s flight f v e in
    (
      record { cache = c₂; sessions = remove_first (has_id id) f.sessions },
      rw (e, flib_tear_down) (rw (l.first, l.second)),
      record {
        blocks = l.blocks;
        counts = λ p. omega (
          arith,
          v.counts p,
          l.users_less p,
          total-remove_first (holds p) (has_id id) s f.sessions e,
        );
      },
      refl,
    )

-- What Flib_getNextPacket does to the pointers of the session.
advance-holds :
    (d : Disk) (s s' : SessionInfo) (p : Ptr)
    → advance d s ≡ ok s'
    → holds p s ≡ holds p s' + (if more_in_block s then 0 else is_at p s.block_ptr)
unfolding advance
advance-holds d s s' p h = elim (Bool-cases (more_in_block s)) [
  | inl c ↦ rw c (subst (λ t. holds p s ≡ holds p t + 0) (ok-injective (rw c at h)) (omega arith))
  | inr c ↦
      let (info, e, g) =
        >>=-eq-ok (get_num_packets d s.movie_name s.next_block_name (pack_info s))
          (λ i. ok (at_next_block s i)) (rw c at h) in
      rw c
        (subst (λ t. holds p s ≡ holds p t + is_at p s.block_ptr) (ok-injective g) (ground arith))
]

packet_at-flag :
    (mem : Memory) (s : SessionInfo) (pkt : NextRtpPktInfo)
    → packet_at mem s ≡ ok pkt
    → ((more_in_block s ≡ true) × (pkt.last_pkt_flg ≡ false))
      ⊎ ((more_in_block s ≡ false) × (pkt.last_pkt_flg ≡ true) × (pkt.block_ptr ≡ s.block_ptr))
unfolding packet_at
packet_at-flag mem s pkt h = ground arith

-- The releases in flight after a packet: for the last packet of a block, the scheduler will ask
-- for the release of that block.
abbrev pub in_flight : NextRtpPktInfo → List Ptr → List Ptr
in_flight pkt flight = if pkt.last_pkt_flg then pkt.block_ptr ∷ flight else flight

next_packet-IsBalanced :
    (d : Disk) (id : ℕ) (flight : List Ptr) (f f' : Flib) (s : SessionInfo) (pkt : NextRtpPktInfo)
    → IsBalanced flight f
    → find_session id f ≡ some s
    → next_packet d id f s ≡ ok (f', some pkt)
    → IsBalanced (in_flight pkt flight) f'
unfolding next_packet
next_packet-IsBalanced d id flight f f' s pkt v e h =
    let (pkt', k, g) =
      >>=-eq-ok (packet_at f.cache.memory s)
        (λ p. advance d s >>= λ s'. ok (put_session id s' f, some p)) h in
    let (s', a, r) = >>=-eq-ok (advance d s) (λ s'. ok (put_session id s' f, some pkt')) g in
    let same : pkt' ≡ pkt = ground (arith, r) in
    let flag = packet_at-flag f.cache.memory s pkt (k ∙ ap ok same) in
    let put : put_session id s' f ≡ f' =
      ap (λ (x : Flib × Option NextRtpPktInfo). x.0) (ok-injective r) in
    subst (IsBalanced (in_flight pkt flight)) put (record {
      blocks = v.blocks;
      counts = λ p.
          ground
            (arith, flag, v.counts p, advance-holds d s s' p a, held-put_session id s s' f p e);
    })

-- From right counts, a call of Flib_getNextPacket that hands out a packet keeps them right: the
-- last packet of a block puts that block in flight.
pub flib_get_next_packet-IsBalanced :
    (d : Disk) (id : ℕ) (flight : List Ptr) (f f' : Flib) (pkt : NextRtpPktInfo)
    → IsBalanced flight f
    → flib_get_next_packet d id f ≡ ok (f', some pkt)
    → IsBalanced (in_flight pkt flight) f'
unfolding flib_get_next_packet
flib_get_next_packet-IsBalanced d id flight f f' pkt v h = elim (Option-cases (find_session id f)) [
  | inl e ↦ absurd (cc (rw (e, flib_get_next_packet) at h))
  | inr (s, e) ↦ elim (Bool-cases (s.block_ptr == null)) [
    | inl n ↦ absurd (cc (rw n at (rw (e, flib_get_next_packet) at h)))
    | inr n ↦
        next_packet-IsBalanced d id flight f f' s pkt v e
          (rw n at (rw (e, flib_get_next_packet) at h))
  ]
]

-- What getNextBlockName writes fits into the buffer.
written-short :
    (d : Disk) (s : SessionInfo) (next : Option Name)
    → length s.next_block_name < block_name_size
    → get_next_block_name d s.movie_name s.next_block_name ≡ ok next
    → length (written s.next_block_name next) < block_name_size
written-short d s none short h = short
written-short d s (some n) short h = get_next_block_name-short d s.movie_name s.next_block_name n h

-- The next block of a session that holds none.
read_next-IsBalanced :
    (hp : Heap) (d : Disk) (id : ℕ) (flight : List Ptr) (f f' : Flib) (s : SessionInfo) (n : Name)
    → IsMalloc hp.malloc
    → IsBalanced flight f
    → find_session id f ≡ some s
    → s.next_block_ptr ≡ null
    → length n < block_name_size
    → read_next hp d id f s n ≡ ok f'
    → IsBalanced flight f'
unfolding read_next
read_next-IsBalanced hp d id flight f f' s [] m v e empty short h =
    subst (IsBalanced flight) (ok-injective h) (record {
      blocks = v.blocks;
      counts = λ p. ground (
        arith,
        v.counts p,
        held-put_session id s
            (record s {
              next_block_name = [];
              next_block_ptr = null;
              next_block_num_of_packets = 0;
            })
            f p e,
      );
    })
read_next-IsBalanced hp d id flight f f' s (ch ∷ chs) m v e empty short h =
    let old : PackInfo = record { numpkts = s.next_block_num_of_packets; lens = none } in
    let ((c, p, info), k, g) =
      >>=-eq-ok (local_read_block hp.malloc d f.cache s.movie_name (ch ∷ chs) old)
        (read_in id f s (ch ∷ chs)) h in
    let gained =
      local_read_block-Gains hp.malloc d f.cache s.movie_name (ch ∷ chs) old (c, p, info) m v.blocks
        short k in
    let s' = record s {
      next_block_name = ch ∷ chs;
      next_block_ptr = p;
      next_block_num_of_packets = info.numpkts;
    } in
    subst (IsBalanced flight) (ok-injective g) (record {
      blocks = gained.blocks;
      counts = λ q. ground (arith, v.counts q, gained.one_more q, held-put_session id s s' f q e);
    })

-- From right counts, Flib_lastpktofBlock, for a session that holds no next block and a block in
-- flight: when it returns, it has released the block, and the counts are right again without it.
-- The names in the session's buffers have to be shorter than the buffers.
pub flib_last_pkt_of_block-IsBalanced :
    (hp : Heap) (d : Disk) (id : ℕ) (block : Ptr) (flight : List Ptr) (f f' : Flib)
    (s : SessionInfo) (found : Bool)
    → IsMalloc hp.malloc
    → IsBalanced (block ∷ flight) f
    → find_session id f ≡ some s
    → s.next_block_ptr ≡ null
    → block ≢ null
    → length s.next_block_name < block_name_size
    → flib_last_pkt_of_block hp d id block f ≡ ok (f', found)
    → IsBalanced flight f' × (found ≡ true)
unfolding flib_last_pkt_of_block
flib_last_pkt_of_block-IsBalanced hp d id block flight f f' s found m v e empty ne short h =
    let (next, k, g) =
      >>=-eq-ok (get_next_block_name d s.movie_name s.next_block_name)
        (λ next. read_next hp d id f s (written s.next_block_name next) >>= λ f₁.
          release_used_block block f₁.cache >>= λ (c, found). ok (record f₁ { cache = c }, found))
        (rw (e, flib_last_pkt_of_block) at h) in
    let (f₁, k₁, g₁) =
      >>=-eq-ok (read_next hp d id f s (written s.next_block_name next))
        (λ f₁.
          release_used_block block f₁.cache >>= λ (c, found). ok (record f₁ { cache = c }, found))
        g in
    let v₁ =
      read_next-IsBalanced hp d id (block ∷ flight) f f₁ s (written s.next_block_name next) m v e
        empty (written-short d s next short k) k₁ in
    let (c, l) =
      release_used_block-Loses block f₁.cache v₁.blocks
        (λ _. ground (arith, v₁.counts block, ne)) in
    let left : IsBalanced flight (record f₁ { cache = c }) = record {
      blocks = l.blocks;
      counts = λ p. omega (arith, v₁.counts p, l.one_less p);
    } in
    let same = ok-injective (rw l.returns at g₁) in
    (
      subst (IsBalanced flight) (ap (λ (x : Flib × Bool). x.0) same) left,
      sym (ap (λ (x : Flib × Bool). x.1) same),
    )
