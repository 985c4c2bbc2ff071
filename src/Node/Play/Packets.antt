-- ===== src/Node/Play/Packets.antt =====
-- How many packets the file library has left for a session: Flib_getNextPacket takes one away, and
-- Flib_lastpktofBlock adds a block at most.
use myyima.Prelude.{
  ℕ, suc, ◌+◌, ◌-◌, ◌≤◌, ◌<◌, ◌≡◌, ◌≢◌, refl, ap, subst, Bool, false, true, Option, none, some, [],
  ◌∷◌, arith, ◌==◌, if◌then◌else◌, Bool-cases, Option-cases, inl, inr, find_first-replace_first,
  find_first-replace_first_ne, find_first-some, ==_iff, ◌∙◌, sym, find_first,
}
use myyima.Outcome.{ok, ok-injective, ◌>>=◌, >>=-eq-ok}
use myyima.Messages.{Name, Ptr, null, NextRtpPktInfo}
use myyima.Flib.Retrieve.{
  Disk, PackInfo, num_pkts, get_num_packets, count_of_block, get_next_block_name,
}
use myyima.Flib.Cache.{local_read_block, release_used_block}
use myyima.Flib.Interface.{
  SessionInfo, Flib, Heap, has_id, find_session, put_session, packet_at, more_in_block, advance,
  at_next_block, pack_info, next_packet, flib_get_next_packet, flib_last_pkt_of_block, read_next,
  read_in, written,
}

-- The packets that are left of the current block: one at least.
abbrev left_in_block : SessionInfo → ℕ
left_in_block s = if more_in_block s then s.num_of_packets - s.current_packet_index else 1

-- The packets that are left for a session: of its current block, and at most NUMPKTS of the next.
abbrev pub packets_left : SessionInfo → ℕ
packets_left s =
    if s.block_ptr == null
    then 0
    else left_in_block s + (if s.next_block_ptr == null then 0 else num_pkts)

-- Counts and positions that stay inside the tables of the source.
pub record IsInTable (s : SessionInfo) : Type 0 where
  pub counts : s.num_of_packets ≤ num_pkts
  pub here : s.current_packet_index < num_pkts

-- What getNumPackets_PackSize says is at most NUMPKTS.
get_num_packets-le :
    (d : Disk) (movie block : Name) (old : PackInfo) (info : PackInfo)
    → get_num_packets d movie block old ≡ ok (some info)
    → info.numpkts ≤ num_pkts
unfolding get_num_packets count_of_block
get_num_packets-le d movie block old info h = ground (arith, h)

-- A session that has moved on by a packet.
abbrev Advanced : SessionInfo → SessionInfo → Type 0
Advanced s t = IsInTable t × (packets_left t < packets_left s) × (t.session_id ≡ s.session_id)

-- The session at the next packet of its block.
step_inside :
    (s : SessionInfo)
    → IsInTable s
    → s.block_ptr ≢ null
    → more_in_block s ≡ true
    → Advanced s (record s { current_packet_index = suc s.current_packet_index })
unfolding more_in_block
step_inside s v at c = (
  record { counts = v.counts; here = ground (arith, c, v.here, v.counts) },
  ground (arith, c, v.here, v.counts, at),
  refl,
)

-- The session at its next block.
at_next_block-IsInTable :
    (d : Disk) (s : SessionInfo) (info : Option PackInfo)
    → IsInTable s
    → s.block_ptr ≢ null
    → more_in_block s ≡ false
    → get_num_packets d s.movie_name s.next_block_name (pack_info s) ≡ ok info
    → Advanced s (at_next_block s info)
unfolding more_in_block
at_next_block-IsInTable d s none v at last h =
    (record { counts = v.counts; here = omega arith }, ground (arith, v.counts, at, last), refl)
at_next_block-IsInTable d s (some info) v at last h =
    let few = get_num_packets-le d s.movie_name s.next_block_name (pack_info s) info h in
    (record { counts = few; here = omega arith }, ground (arith, few, at, last), refl)

advance-IsInTable :
    (d : Disk) (s s' : SessionInfo)
    → IsInTable s
    → s.block_ptr ≢ null
    → advance d s ≡ ok s'
    → Advanced s s'
unfolding advance
advance-IsInTable d s s' v at h = elim (Bool-cases (more_in_block s)) [
  | inl c ↦ subst (Advanced s) (ok-injective (rw c at h)) (step_inside s v at c)
  | inr c ↦
      let (info, e, g) =
        >>=-eq-ok (get_num_packets d s.movie_name s.next_block_name (pack_info s))
          (λ i. ok (at_next_block s i)) (rw c at h) in
      subst (Advanced s) (ok-injective g) (at_next_block-IsInTable d s info v at c e)
]

-- The file library has a session with the id, at most `n` packets are left for it.
pub record HasPackets (id n : ℕ) (f : Flib) : Type 0 where
  pub info : SessionInfo
  pub found : find_session id f ≡ some info
  pub in_table : IsInTable info
  pub few : packets_left info ≤ n

-- A packet is handed out only while some are left, and then there is one less.
pub fetch-HasPackets :
    (d : Disk) (id n : ℕ) (f f' : Flib) (pkt : NextRtpPktInfo)
    → HasPackets id n f
    → flib_get_next_packet d id f ≡ ok (f', some pkt)
    → (m : ℕ) × (n ≡ suc m) × HasPackets id m f'
unfolding flib_get_next_packet next_packet
fetch-HasPackets d id n f f' pkt v h = elim (Bool-cases (v.info.block_ptr == null)) [
  | inl e ↦ absurd (cc (rw e at (rw (v.found, flib_get_next_packet) at h)))
  | inr e ↦
      let s = v.info in
      let (pkt', k, g) =
        >>=-eq-ok (packet_at f.cache.memory s)
          (λ p. advance d s >>= λ s'. ok (put_session id s' f, some p))
          (rw e at (rw (v.found, flib_get_next_packet) at h)) in
      let (s', a, r) = >>=-eq-ok (advance d s) (λ s'. ok (put_session id s' f, some pkt')) g in
      let at : s.block_ptr ≢ null = λ q. ground (arith, q, e) in
      let (w, less, kept) = advance-IsInTable d s s' v.in_table at a in
      let own = (==_iff _ _).0 (find_first-some (has_id id) s f.sessions v.found) in
      (
        n - 1,
        omega (arith, less, v.few),
        subst (HasPackets id (n - 1))
            (ap (λ (x : Flib × Option NextRtpPktInfo). x.0) (ok-injective r))
            (record {
              info = s';
              found =
                  find_first-replace_first (has_id id) s' s f.sessions v.found
                    (ground (arith, own, kept));
              in_table = w;
              few = omega (arith, less, v.few);
            }),
      )
]

-- A session that has another next block, and is where it was.
pub record IsRefilled (s t : SessionInfo) : Type 0 where
  pub own : t.session_id ≡ s.session_id
  pub block : t.block_ptr ≡ s.block_ptr
  pub count : t.num_of_packets ≡ s.num_of_packets
  pub here : t.current_packet_index ≡ s.current_packet_index

IsRefilled-le :
    (s t : SessionInfo)
    → IsInTable s
    → IsRefilled s t
    → IsInTable t × (packets_left t ≤ packets_left s + num_pkts)
unfolding more_in_block
IsRefilled-le s t v r = (
  record { counts = omega (arith, v.counts, r.count); here = omega (arith, v.here, r.here) },
  ground (arith, r.block, r.count, r.here),
)

read_next-IsRefilled :
    (hp : Heap) (d : Disk) (id : ℕ) (f f' : Flib) (s : SessionInfo) (n : Name)
    → read_next hp d id f s n ≡ ok f'
    → (t : SessionInfo) × IsRefilled s t × (f'.sessions ≡ (put_session id t f).sessions)
unfolding read_next
read_next-IsRefilled hp d id f f' s [] h = (
  record s { next_block_name = []; next_block_ptr = null; next_block_num_of_packets = 0 },
  record { own = refl; block = refl; count = refl; here = refl },
  ap (λ (x : Flib). x.sessions) (sym (ok-injective h)),
)
read_next-IsRefilled hp d id f f' s (ch ∷ chs) h =
    let old : PackInfo = record { numpkts = s.next_block_num_of_packets; lens = none } in
    let ((c, p, info), k, g) =
      >>=-eq-ok (local_read_block hp.malloc d f.cache s.movie_name (ch ∷ chs) old)
        (read_in id f s (ch ∷ chs)) h in
    (
      record s {
        next_block_name = ch ∷ chs;
        next_block_ptr = p;
        next_block_num_of_packets = info.numpkts;
      },
      record { own = refl; block = refl; count = refl; here = refl },
      ap (λ (x : Flib). x.sessions) (sym (ok-injective g)),
    )

-- Flib_lastpktofBlock of a session that is found.
flib_last_pkt_of_block-IsRefilled :
    (hp : Heap) (d : Disk) (id : ℕ) (block : Ptr) (f : Flib) (r : Flib × Bool) (s : SessionInfo)
    → find_session id f ≡ some s
    → flib_last_pkt_of_block hp d id block f ≡ ok r
    → (t : SessionInfo) × IsRefilled s t × (r.0.sessions ≡ (put_session id t f).sessions)
unfolding flib_last_pkt_of_block
flib_last_pkt_of_block-IsRefilled hp d id block f r s e h =
    let after = λ (f₁ : Flib).
      release_used_block block f₁.cache >>= λ (c, found). ok (record f₁ { cache = c }, found) in
    let (next, k, g) =
      >>=-eq-ok (get_next_block_name d s.movie_name s.next_block_name)
        (λ next. read_next hp d id f s (written s.next_block_name next) >>= after)
        (rw (e, flib_last_pkt_of_block) at h) in
    let (f₁, k₁, g₁) = >>=-eq-ok (read_next hp d id f s (written s.next_block_name next)) after g in
    let ((c, found), k₂, g₂) =
      >>=-eq-ok (release_used_block block f₁.cache)
        (λ (c, found). ok (record f₁ { cache = c }, found)) g₁ in
    let (t, same, put) = read_next-IsRefilled hp d id f f₁ s (written s.next_block_name next) k₁ in
    (t, same, ap (λ (x : Flib × Bool). x.0.sessions) (sym (ok-injective g₂)) ∙ put)

abbrev or_else : SessionInfo → Option SessionInfo → SessionInfo
or_else s none = s
or_else s (some t) = t

found_same :
    {n : ℕ} (id id' : ℕ) (s : SessionInfo) (f : Flib)
    → find_session id' f ≡ some s
    → id' ≡ id
    → (v : HasPackets id n f) → s ≡ v.info
found_same id id' s f e one v = ap (or_else s) (sym e ∙ (ap (λ j. find_session j f) one ∙ v.found))

-- A release for a session adds a block to it at most, and nothing to another session.
pub release-HasPackets :
    (hp : Heap) (d : Disk) (id n id' : ℕ) (block : Ptr) (f : Flib) (r : Flib × Bool)
    → HasPackets id n f
    → flib_last_pkt_of_block hp d id' block f ≡ ok r
    → HasPackets id (n + (if id' == id then num_pkts else 0)) r.0
unfolding flib_last_pkt_of_block
release-HasPackets hp d id n id' block f r v h = elim (Option-cases (find_session id' f)) [
  | inl e ↦
      subst (λ (r : Flib × Bool). HasPackets id (n + (if id' == id then num_pkts else 0)) r.0)
        (ok-injective (rw (e, flib_last_pkt_of_block) at h))
        (record {
          info = v.info;
          found = v.found;
          in_table = v.in_table;
          few = omega (arith, v.few);
        })
  | inr (s, e) ↦
      let (t, same, put) = flib_last_pkt_of_block-IsRefilled hp d id' block f r s e h in
      let own = (==_iff _ _).0 (find_first-some (has_id id') s f.sessions e) in
      elim (Bool-cases (id' == id)) [
        | inl q ↦
            let one : id' ≡ id = (==_iff _ _).0 q in
            let it : s ≡ v.info = found_same id id' s f e one v in
            let (w, le) = IsRefilled-le v.info t v.in_table (subst (λ x. IsRefilled x t) it same) in
            record {
              info = t;
              found =
                  ap (find_first (has_id id)) put
                  ∙ subst (λ j. find_first (has_id id) (put_session j t f).sessions ≡ some t)
                      (sym one)
                      (find_first-replace_first (has_id id) t v.info f.sessions v.found
                        (ground (arith, own, same.own, one)));
              in_table = w;
              few = rw q (omega (arith, le, v.few));
            }
        | inr q ↦ record {
          info = v.info;
          found =
              ap (find_first (has_id id)) put
              ∙ find_first-replace_first_ne (has_id id') (has_id id) t s f.sessions e
                  (ground (arith, own, q)) (ground (arith, own, same.own, q))
              ∙ v.found;
          in_table = v.in_table;
          few = omega (arith, v.few);
        }
      ]
]
