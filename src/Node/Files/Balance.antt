-- ===== src/Node/Files/Balance.antt =====
-- The users of each block while the thread of the file library works on its messages: FLib_main of
-- scheduler_sysmon.cc over the operations of FLIB/interface.c.
use myyima.Prelude.{
  ℕ, ◌<◌, ◌≡◌, ◌≢◌, refl, sym, ap, ◌∙◌, subst, false, Option, none, some, List, ◌∷◌, length,
  Option-cases, Bool-cases, inl, inr, ==_iff, ◌==◌, remove_first, remove_first-none, arith,
}
use myyima.Outcome.{ok, ok-injective, ◌>>=◌, >>=-eq-ok}
use myyima.Messages.{
  Name, Ptr, null, NptRange, NextRtpPktInfo, FlibMsg, FlibInfo, flib_ok, get_npt_range_req,
  get_npt_range_resp, flib_play_req, flib_play_resp, flib_teardown_req, flib_teardown_resp,
  last_pkt_of_block, MovInfo, FlibError,
}
use myyima.Flib.Names.{block_name}
use myyima.Flib.Retrieve.{Disk, Movie, block_name_size, strncpy, get_movie_details}
use myyima.Flib.Cache.{IsMalloc, Memory}
use myyima.Flib.Cache.Places.{block_at}
use myyima.Flib.Interface.{
  SessionInfo, Flib, Heap, has_id, find_session, flib_play, flib_get_next_packet, flib_tear_down,
  flib_last_pkt_of_block, flib_get_npt_range, next_packet, packet_at, advance, put_session,
}
use myyima.Flib.Interface.Balance.{
  IsBalanced, in_flight, flib_tear_down-IsBalanced, flib_get_next_packet-IsBalanced,
  flib_last_pkt_of_block-IsBalanced,
}
use myyima.Flib.Interface.Play.{IsStarted, flib_play-IsBalanced}
use myyima.Node.Files.{
  flib_main, main_npt_range, main_play, main_teardown, main_last_pkt, play_answer,
}

-- The releases in flight while a message waits: FLIB_LAST_PKT_OF_BLOCK stands for one.
abbrev pub asked_for : FlibInfo → List Ptr → List Ptr
asked_for (last_pkt_of_block id block) flight = block ∷ flight
asked_for _ flight = flight

-- The releases in flight once the answer has been sent: a packet that is the last of its block
-- stands for one.
abbrev pub handed_out : Option FlibMsg → List Ptr → List Ptr
handed_out none flight = flight
handed_out (some a) flight = elim a.u [ flib_play_resp pkt ↦ in_flight pkt flight | _ ↦ flight ]

-- The messages that keep the counts: no TEARDOWN at the end of a movie, and a release only for a
-- session that is there and holds no next block, with a name that fits into its buffer.
abbrev pub CanHandle : Flib → FlibInfo → Type 0
CanHandle f (flib_teardown_req id movie_end) = movie_end ≡ false
CanHandle f (last_pkt_of_block id block) =
    (s : SessionInfo) × (find_session id f ≡ some s)
    × (s.next_block_ptr ≡ null)
    × (block ≢ null)
    × (length s.next_block_name < block_name_size)
CanHandle f _ = Unit {0}

-- The answer of the thread: the number of the request, and no error.
abbrev pub answer_to : ℕ → FlibInfo → Option FlibMsg
answer_to seq u = some (record { cmd_seq_no = seq; cmd_error = flib_ok; u = u })

-- A packet at the start of block 1 of `movie`, where the cache has it.
pub record IsFirstPacket (d : Disk) (movie : Name) (f : Flib) (pkt : NextRtpPktInfo) : Type 0 where
  pub film : Movie
  pub listed : get_movie_details d movie ≡ some film
  pub at_block :
      block_at (block_name d.directory film.name 1) f.cache.used_blocks ≡ some pkt.next_rtp_pkt_p

-- What each message is answered with, and what it does to the sessions.
abbrev pub Answers : Disk → ℕ → FlibInfo → Flib → Flib → Option FlibMsg → Type 0
Answers d seq (get_npt_range_req movie) f f' a =
    (f' ≡ f)
    × (range : NptRange) × (info : MovInfo) × (e : FlibError) × (flib_get_npt_range d movie
        ≡ ok (range, info, e))
    × (a ≡ answer_to seq (get_npt_range_resp range info))
Answers d seq (flib_play_req id movie range) f f' a =
    (pkt : NextRtpPktInfo) × (a ≡ answer_to seq (flib_play_resp pkt)) × IsFirstPacket d movie f' pkt
Answers d seq (flib_teardown_req id movie_end) f f' a =
    (a ≡ answer_to seq flib_teardown_resp) × (f'.sessions ≡ remove_first (has_id id) f.sessions)
Answers d seq (last_pkt_of_block id block) f f' a = a ≡ none
Answers d seq _ f f' a = (f' ≡ f) × (a ≡ none)

-- What a message leaves behind.
abbrev pub Handled : Disk → ℕ → FlibInfo → List Ptr → Flib → Flib × Option FlibMsg → Type 0
Handled d seq u flight f (f', a) = IsBalanced (handed_out a flight) f' × Answers d seq u f f' a

-- The packet of a session that has just started.
packet_at-start :
    (mem : Memory) (s : SessionInfo) (pkt : NextRtpPktInfo)
    → s.current_packet_index ≡ 0
    → packet_at mem s ≡ ok pkt
    → pkt.next_rtp_pkt_p ≡ s.block_ptr
unfolding packet_at
packet_at-start mem s pkt start h = ground (arith, h, start)

next_packet-start :
    (d : Disk) (id : ℕ) (f : Flib) (s : SessionInfo) (got : Flib × Option NextRtpPktInfo)
    → s.current_packet_index ≡ 0
    → next_packet d id f s ≡ ok got
    → (pkt : NextRtpPktInfo) × (got ≡ (got.0, some pkt))
      × (got.0.cache ≡ f.cache)
      × (pkt.next_rtp_pkt_p ≡ s.block_ptr)
unfolding next_packet
next_packet-start d id f s got start h =
    let (pkt', k, g) =
      >>=-eq-ok (packet_at f.cache.memory s)
        (λ p. advance d s >>= λ s'. ok (put_session id s' f, some p)) h in
    let (s', a, r) = >>=-eq-ok (advance d s) (λ s'. ok (put_session id s' f, some pkt')) g in
    subst
      (λ (x : Flib × Option NextRtpPktInfo).
        (p : NextRtpPktInfo) × (x ≡ (x.0, some p))
        × (x.0.cache ≡ f.cache)
        × (p.next_rtp_pkt_p ≡ s.block_ptr))
      (ok-injective r) (pkt', refl, refl, packet_at-start f.cache.memory s pkt' start k)

-- A session that has just started hands out its first packet.
flib_get_next_packet-start :
    (d : Disk) (id : ℕ) (movie block : Name) (f : Flib) (s : SessionInfo)
    (got : Flib × Option NextRtpPktInfo)
    → IsStarted id movie block f s
    → flib_get_next_packet d id f ≡ ok got
    → (pkt : NextRtpPktInfo) × (got ≡ (got.0, some pkt))
      × (got.0.cache ≡ f.cache)
      × (pkt.next_rtp_pkt_p ≡ s.block_ptr)
unfolding flib_get_next_packet
flib_get_next_packet-start d id movie block f s got t h = elim (Bool-cases (s.block_ptr == null)) [
  | inl e ↦ absurd (t.has_block ((==_iff _ _).0 e))
  | inr e ↦
      next_packet-start d id f s got t.at_start (rw e at (rw (t.found, flib_get_next_packet) at h))
]

main_play-Handled :
    (hp : Heap) (d : Disk) (seq id : ℕ) (movie : Name) (range : NptRange) (flight : List Ptr)
    (f : Flib) (r : Flib × Option FlibMsg)
    → IsMalloc hp.malloc
    → IsBalanced flight f
    → main_play hp d seq id movie range f ≡ ok r
    → Handled d seq (flib_play_req id movie range) flight f r
unfolding main_play
main_play-Handled hp d seq id movie range flight f r m v h =
    let (f₁, k, g) =
      >>=-eq-ok (flib_play hp d id movie range f)
        (λ f₁. flib_get_next_packet d id f₁ >>= play_answer seq) h in
    let (got, k₁, g₁) = >>=-eq-ok (flib_get_next_packet d id f₁) (play_answer seq) g in
    let (w, film, listed, s, t) = flib_play-IsBalanced hp d id movie range flight f f₁ m v k in
    let (pkt, given, same, at) =
      flib_get_next_packet-start d id (strncpy movie) (block_name d.directory film.name 1) f₁ s got
        t k₁ in
    let first : IsFirstPacket d movie got.0 pkt = record {
      film = film;
      listed = listed;
      at_block = ground (arith, t.in_cache, same, at);
    } in
    subst (Handled d seq (flib_play_req id movie range) flight f) (ok-injective (rw given at g₁)) (
      flib_get_next_packet-IsBalanced d id flight f₁ got.0 pkt w (k₁ ∙ ap ok given),
      (pkt, refl, first),
    )

main_teardown-Handled :
    (d : Disk) (seq id : ℕ) (flight : List Ptr) (f : Flib) (r : Flib × Option FlibMsg)
    → IsBalanced flight f
    → main_teardown seq id false f ≡ ok r
    → Handled d seq (flib_teardown_req id false) flight f r
unfolding main_teardown flib_tear_down
main_teardown-Handled d seq id flight f r v h = elim (Option-cases (find_session id f)) [
  | inl e ↦
      subst (Handled d seq (flib_teardown_req id false) flight f)
        (ok-injective (rw (e, flib_tear_down) at h))
        (v, (refl, sym (remove_first-none (has_id id) f.sessions e)))
  | inr (s, e) ↦
      let (f', k, w, same) = flib_tear_down-IsBalanced id s flight f v e in
      subst (Handled d seq (flib_teardown_req id false) flight f)
        (ok-injective (rw (k, main_teardown) at h)) (w, (refl, same))
]

main_last_pkt-Handled :
    (hp : Heap) (d : Disk) (seq id : ℕ) (block : Ptr) (flight : List Ptr) (f : Flib)
    (r : Flib × Option FlibMsg)
    → IsMalloc hp.malloc
    → IsBalanced (block ∷ flight) f
    → CanHandle f (last_pkt_of_block id block)
    → main_last_pkt hp d id block f ≡ ok r
    → Handled d seq (last_pkt_of_block id block) flight f r
unfolding main_last_pkt
main_last_pkt-Handled hp d seq id block flight f r m v (s, e, empty, ne, short) h =
    let ((f₁, found), k, g) =
      >>=-eq-ok (flib_last_pkt_of_block hp d id block f) (λ (f₁, found). ok (f₁, none)) h in
    subst (Handled d seq (last_pkt_of_block id block) flight f) (ok-injective g) (
      (flib_last_pkt_of_block-IsBalanced hp d id block flight f f₁ s found m v e empty ne short
          k).0,
      refl,
    )

main_npt_range-Handled :
    (d : Disk) (seq : ℕ) (movie : Name) (flight : List Ptr) (f : Flib) (r : Flib × Option FlibMsg)
    → IsBalanced flight f
    → main_npt_range d seq movie f ≡ ok r
    → Handled d seq (get_npt_range_req movie) flight f r
unfolding main_npt_range
main_npt_range-Handled d seq movie flight f r v h =
    let ((range, info, e), k, g) =
      >>=-eq-ok (flib_get_npt_range d movie)
        (λ (range, info, e). ok (
          f,
          some
              (record { cmd_seq_no = seq; cmd_error = flib_ok; u = get_npt_range_resp range info }),
        ))
        h in
    subst (Handled d seq (get_npt_range_req movie) flight f) (ok-injective g)
      (v, (refl, range, info, e, k, refl))

handle :
    (hp : Heap) (d : Disk) (m : FlibMsg) (u : FlibInfo) (flight : List Ptr) (f : Flib)
    (r : Flib × Option FlibMsg)
    → m.u ≡ u
    → IsMalloc hp.malloc
    → IsBalanced (asked_for u flight) f
    → CanHandle f u
    → flib_main hp d m f ≡ ok r
    → Handled d m.cmd_seq_no u flight f r
unfolding flib_main
handle hp d m (get_npt_range_req movie) flight f r e a v c h =
    main_npt_range-Handled d m.cmd_seq_no movie flight f r v (rw e at h)
handle hp d m (flib_play_req id movie range) flight f r e a v c h =
    main_play-Handled hp d m.cmd_seq_no id movie range flight f r a v (rw e at h)
handle hp d m (flib_teardown_req id movie_end) flight f r e a v c h =
    subst (λ b. Handled d m.cmd_seq_no (flib_teardown_req id b) flight f r) (sym c)
      (main_teardown-Handled d m.cmd_seq_no id flight f r v (rw c at (rw e at h)))
handle hp d m (last_pkt_of_block id block) flight f r e a v c h =
    main_last_pkt-Handled hp d m.cmd_seq_no id block flight f r a v c (rw e at h)
handle hp d m u flight f r e a v c h =
    subst (Handled d m.cmd_seq_no u flight f) (ok-injective (rw e at h)) (v, (refl, refl))

-- A message that the thread of the file library works on to the end, from right counts and with a
-- malloc that gives out no memory twice, keeps the users of each block equal to the pointers that
-- are held, and is answered: FLIB_GET_NPT_RANGE_REQ with what Flib_get_npt_range says, and nothing
-- changes; FLIB_PLAY_REQ with a packet, at the address where the cache has block 1 of the movie,
-- and if it is the last packet of that block the block is in flight; FLIB_TEARDOWN_REQ takes its
-- session out of the list, and what that held is released; FLIB_LAST_PKT_OF_BLOCK takes its block
-- out of flight, without an answer. A TEARDOWN at the end of a movie is left out, and a release for
-- a session that is gone, that has its next block already, or whose name of the next block does not
-- fit into the buffer.
pub flib_main-IsBalanced :
    (hp : Heap) (d : Disk) (m : FlibMsg) (flight : List Ptr) (f f' : Flib) (a : Option FlibMsg)
    → IsMalloc hp.malloc
    → IsBalanced (asked_for m.u flight) f
    → CanHandle f m.u
    → flib_main hp d m f ≡ ok (f', a)
    → IsBalanced (handed_out a flight) f' × Answers d m.cmd_seq_no m.u f f' a
flib_main-IsBalanced hp d m flight f f' a al v c h =
    handle hp d m m.u flight f (f', a) refl al v c h
