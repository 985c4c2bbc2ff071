-- ===== src/Flib/Interface/Play.antt =====
-- Flib_play of interface.c: the blocks of a session that starts to play, or starts again.
use myyima.Prelude.{
  ℕ, ◌+◌, ◌<◌, ◌≡◌, ◌≢◌, refl, none, some, List, [], ◌∷◌, arith, Option, Option-cases, inl, inr,
  subst, ap, ◌∙◌, length,
}
use myyima.Outcome.{ok, ok-injective, ◌>>=◌, >>=-eq-ok}
use myyima.Messages.{Name, NptRange, Ptr, null}
use myyima.Flib.Retrieve.{
  Disk, PackInfo, block_name_size, strncpy, get_start_block_name, get_start_block_name-short,
  get_next_block_name, get_next_block_name-short, Movie, get_movie_details,
  get_start_block_name-some,
}
use myyima.Flib.Names.{block_name}
use myyima.Flib.Cache.{IsMalloc, local_read_block}
use myyima.Flib.Cache.Counts.{is_at}
use myyima.Flib.Cache.Places.{block_at, local_read_block-Places}
use myyima.Flib.Interface.{
  SessionInfo, Flib, Heap, find_session, put_session, open_session, first_block, prefetch,
  flib_play, ahead, read_ahead, at_first_block, started, play_from, named,
}
use myyima.Flib.Interface.Balance.{IsBalanced, holds}
use myyima.Flib.Interface.Opening.{IsOpen, put_session-IsOpen, read-IsOpen, open_session-IsOpen}

-- A session that plays `movie` from its first packet: it is at the start of the block `block`, and
-- the cache has that block.
pub record IsStarted (id : ℕ) (movie block : Name) (f : Flib) (s : SessionInfo) : Type 0 where
  pub found : find_session id f ≡ some s
  pub of_movie : s.movie_name ≡ movie
  pub at_start : s.current_packet_index ≡ 0
  pub has_block : s.block_ptr ≢ null
  pub in_cache : block_at block f.cache.used_blocks ≡ some s.block_ptr

-- The counts are right, and the session has started.
abbrev Plays : ℕ → Name → Name → List Ptr → Flib → Type 0
Plays id movie block flight f =
    IsBalanced flight f × (s : SessionInfo) × IsStarted id movie block f s

-- The session takes the block that was read in advance, or none.
finish-IsBalanced :
    (id : ℕ) (first : Name) (s s' : SessionInfo) (k : Ptr → ℕ) (flight : List Ptr) (f : Flib)
    → IsOpen id s k flight f
    → s'.session_id ≡ id
    → s'.block_ptr ≢ null
    → s'.current_packet_index ≡ 0
    → block_at first f.cache.used_blocks ≡ some s'.block_ptr
    → ((p : Ptr) → k p ≡ holds p s')
    → Plays id s'.movie_name first flight (put_session id s' f)
finish-IsBalanced id first s s' k flight f v own block start placed same =
    let w = put_session-IsOpen id s s' k flight f v own in
    (
      record { blocks = w.blocks; counts = λ p. omega (arith, w.counts p, same p) },
      s',
      record {
        found = w.found;
        of_movie = refl;
        at_start = start;
        has_block = block;
        in_cache = placed;
      },
    )

read_ahead-IsBalanced :
    (hp : Heap) (d : Disk) (id : ℕ) (movie first : Name) (flight : List Ptr) (f f' : Flib)
    (s : SessionInfo) (next : Option Name)
    → IsMalloc hp.malloc
    → IsOpen id s (λ p. is_at p s.block_ptr) flight f
    → s.block_ptr ≢ null
    → s.current_packet_index ≡ 0
    → block_at first f.cache.used_blocks ≡ some s.block_ptr
    → ((n : Name) → next ≡ some n → length n < block_name_size)
    → read_ahead hp d id movie f s next ≡ ok f'
    → Plays id s.movie_name first flight f'
unfolding read_ahead
read_ahead-IsBalanced hp d id movie first flight f f' s none m v block start placed short h = cc
read_ahead-IsBalanced hp d id movie first flight f f' s (some []) m v block start placed short h =
    subst (Plays id s.movie_name first flight) (ok-injective h) (
      finish-IsBalanced id first s (record s { next_block_ptr = null; next_block_name = [] })
        (λ p. is_at p s.block_ptr) flight f v v.mine block start placed (λ p. omega arith))
read_ahead-IsBalanced hp d id movie first flight f f' s (some (ch ∷ chs)) m v block start placed
      short h =
    let old : PackInfo = record { numpkts = s.next_block_num_of_packets; lens = none } in
    let ((c, p, info), k, g) =
      >>=-eq-ok (local_read_block hp.malloc d f.cache movie (ch ∷ chs) old)
        (ahead id f s (ch ∷ chs)) h in
    let (at, w) =
      read-IsOpen hp d movie (ch ∷ chs) old id s (λ q. is_at q s.block_ptr)
        (λ q. is_at q s.block_ptr + is_at q p) flight f (c, p, info) m (short (ch ∷ chs) refl) v k
        (λ q. refl) in
    let l =
      local_read_block-Places hp.malloc d f.cache movie (ch ∷ chs) old (c, p, info)
        (short (ch ∷ chs) refl) k in
    subst (Plays id s.movie_name first flight) (ok-injective g) (
      finish-IsBalanced id first s
        (record s {
          next_block_name = strncpy (ch ∷ chs);
          next_block_ptr = p;
          next_block_num_of_packets = info.numpkts;
        })
        (λ q. is_at q s.block_ptr + is_at q p) flight (record f { cache = c }) w v.mine block start
        (l.kept first s.block_ptr placed) (λ q. refl))

-- The session at its first block, whose pointer counts now.
pub record HasFirst (id : ℕ) (movie block : Name) (flight : List Ptr) (f : Flib) (s : SessionInfo)
    : Type 0 where
  pub opened : IsOpen id s (λ p. is_at p s.block_ptr) flight f
  pub at : s.block_ptr ≢ null
  pub start : s.current_packet_index ≡ 0
  pub of_movie : s.movie_name ≡ movie
  pub placed : block_at block f.cache.used_blocks ≡ some s.block_ptr

first_block-HasFirst :
    (hp : Heap) (d : Disk) (id : ℕ) (movie block : Name) (flight : List Ptr) (f : Flib)
    (s : SessionInfo) (r : Flib × SessionInfo)
    → IsMalloc hp.malloc
    → IsOpen id s (λ p. 0) flight f
    → length block < block_name_size
    → first_block hp d id movie block f s ≡ ok r
    → HasFirst id s.movie_name block flight r.0 r.1
unfolding first_block
first_block-HasFirst hp d id movie block flight f s r m v short h =
    let old : PackInfo = record { numpkts = s.num_of_packets; lens = some s.pkt_lens } in
    let ((c, p, info), k, g) =
      >>=-eq-ok (local_read_block hp.malloc d f.cache movie block old) (started id f s) h in
    let (at, w) =
      read-IsOpen hp d movie block old id s (λ q. 0) (λ q. is_at q p) flight f (c, p, info) m short
        v k (λ q. omega arith) in
    let l = local_read_block-Places hp.malloc d f.cache movie block old (c, p, info) short k in
    subst (λ (r : Flib × SessionInfo). HasFirst id s.movie_name block flight r.0 r.1)
      (ok-injective g)
      (record {
        opened =
            put_session-IsOpen id s (at_first_block s p info) (λ q. is_at q p) flight
              (record f { cache = c }) w v.mine;
        at = at;
        start = refl;
        of_movie = refl;
        placed = l.here;
      })

-- The first block, and the one after it.
play_from-IsBalanced :
    (hp : Heap) (d : Disk) (id : ℕ) (movie block : Name) (flight : List Ptr) (f f' : Flib)
    (s : SessionInfo)
    → IsMalloc hp.malloc
    → IsOpen id s (λ p. 0) flight f
    → length block < block_name_size
    → play_from hp d id movie f s (some block) ≡ ok f'
    → Plays id s.movie_name block flight f'
unfolding play_from prefetch
play_from-IsBalanced hp d id movie block flight f f' s m v short h =
    let ((f₁, s₁), k, g) =
      >>=-eq-ok (first_block hp d id movie block f s)
        (λ (f₁, s₁). prefetch hp d id movie block f₁ s₁) h in
    let w = first_block-HasFirst hp d id movie block flight f s (f₁, s₁) m v short k in
    let (next, k₂, g₂) =
      >>=-eq-ok (get_next_block_name d movie block) (read_ahead hp d id movie f₁ s₁) g in
    subst (λ n. Plays id n block flight f') w.of_movie
      (read_ahead-IsBalanced hp d id movie block flight f₁ f' s₁ next m w.opened w.at w.start
        w.placed (λ n e. get_next_block_name-short d movie block n (k₂ ∙ ap ok e)) g₂)

-- Flib_play, from right counts, with a malloc that gives out no memory twice, for a session that is
-- new or that plays already: when it returns, the counts are right, that is, what the session held
-- before is released and the blocks that it holds now are counted; the movie that was asked for is
-- in the table; and the session is at packet 0 of the block with number 1 of that movie, which the
-- cache has at the session's block pointer.
pub flib_play-IsBalanced :
    (hp : Heap) (d : Disk) (id : ℕ) (movie : Name) (range : NptRange) (flight : List Ptr)
    (f f' : Flib)
    → IsMalloc hp.malloc
    → IsBalanced flight f
    → flib_play hp d id movie range f ≡ ok f'
    → IsBalanced flight f'
      × (m : Movie) × (get_movie_details d movie ≡ some m)
      × (s : SessionInfo) × IsStarted id (strncpy movie) (block_name d.directory m.name 1) f' s
unfolding flib_play play_from
flib_play-IsBalanced hp d id movie range flight f f' m v h =
    let ((f₁, s₁), e, h₁) =
      >>=-eq-ok (open_session hp id f)
        (λ (f₁, s₁). get_start_block_name d movie range.start_location >>= λ start.
          play_from hp d id movie (put_session id (named id movie s₁) f₁) (named id movie s₁) start)
        h in
    let w = open_session-IsOpen hp id flight f (f₁, s₁) v e in
    let w₂ = put_session-IsOpen id s₁ (named id movie s₁) (λ p. 0) flight f₁ w refl in
    let (start, k, g) =
      >>=-eq-ok (get_start_block_name d movie range.start_location)
        (play_from hp d id movie (put_session id (named id movie s₁) f₁) (named id movie s₁)) h₁ in
    elim (Option-cases start) [
      | inl none_written ↦ absurd (cc (rw none_written at g))
      | inr (block, written) ↦
          let (film, listed, named_so) =
            get_start_block_name-some d movie range.start_location block (k ∙ ap ok written) in
          let (balanced, s, t) =
            play_from-IsBalanced hp d id movie block flight (put_session id (named id movie s₁) f₁)
              f' (named id movie s₁) m w₂
              (get_start_block_name-short d movie range.start_location block (k ∙ ap ok written))
              (rw written at g) in
          (balanced, film, listed, s, subst (λ n. IsStarted id (strncpy movie) n f' s) named_so t)
    ]
