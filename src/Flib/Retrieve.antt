-- ===== src/Flib/Retrieve.antt =====
-- The movies and their block files: Server/FLIB/retrieve.c. The table of movies that InitMovies
-- builds is a field of `Disk`, and so is what the operating system answers: the contents of a
-- file, and the order of two C floats. A buffer that would overflow is an undefined outcome.
use myyima.Prelude.{
  ℕ, ◌+◌, ◌*◌, Bool, Option, none, some, List, [], ◌++◌, ltb, ◌==◌, if◌then◌else◌, length, take,
  drop, ◌<◌, ◌≡◌, arith, get_elem?, ◌∷◌, Option-cases, inl, inr,
}
use myyima.Outcome.{Outcome, ok, undefined, ◌>>=◌}
use myyima.Messages.{Name, FloatBits}
use myyima.Flib.Names.{name_eq, get_block_num, block_name}

-- BLOCKNAMESIZE, NUMPKTS and MAX_PKTSIZE
abbrev pub block_name_size : ℕ
block_name_size = 256

abbrev pub num_pkts : ℕ
num_pkts = 500

abbrev pub max_pkt_size : ℕ
max_pkt_size = 1450

pub record BlockDtl : Type 0 where
  pub n_packets : ℕ
  pub packet_lens : List ℕ

pub record Movie : Type 0 where
  pub name : Name
  pub size : ℕ
  pub time : FloatBits
  pub num_blocks : ℕ
  pub block_dtl : List BlockDtl

pub record Disk : Type 0 where
  pub directory : Name
  pub movies : List Movie
  pub contents : Name → Option (List ℕ)
  pub float_gt : FloatBits → FloatBits → Bool

-- getMovieDetails
pub find_movie : Name → List Movie → Option Movie
find_movie n [] = none
find_movie n (m ∷ ms) = if name_eq m.name n then some m else find_movie n ms

unfoldable pub get_movie_details : Disk → Name → Option Movie
unfolding find_movie
get_movie_details d n = find_movie n d.movies

-- sprintf into a buffer of BLOCKNAMESIZE characters.
unfoldable pub sprintf : Name → Outcome Name
sprintf n = if ltb (length n) block_name_size then ok n else undefined

-- strncpy of BLOCKNAMESIZE characters. A name in a buffer of that size is shorter.
abbrev pub strncpy : Name → Name
strncpy = take block_name_size

-- getStartBlockName: `none` where it returns -1 and leaves the buffer as it was.
unfoldable pub get_start_block_name : Disk → Name → FloatBits → Outcome (Option Name)
unfolding sprintf
get_start_block_name d movie start = elim (get_movie_details d movie) [
  | none ↦ ok none
  | some m ↦
      if d.float_gt start m.time
      then ok none
      else do n ← sprintf (block_name d.directory m.name 1); ok (some n)
]

-- Whether fopen(…, "r") succeeds.
abbrev pub exists_file : Disk → Name → Bool
exists_file d n = elim (d.contents n) [ none ↦ Bool.false | some bytes ↦ Bool.true ]

-- getNextBlockName: `none` where it leaves the buffer as it was, for a movie that is not there; an
-- empty name where there is no next block.
unfoldable pub get_next_block_name : Disk → Name → Name → Outcome (Option Name)
unfolding sprintf
get_next_block_name d movie block = elim (get_movie_details d movie) [
  | none ↦ ok none
  | some m ↦ do
    n ← sprintf (block_name d.directory m.name (get_block_num block + 1))
    ok (some (if exists_file d n then n else []))
]

-- A name that is written fits into its buffer.
pub get_next_block_name-short :
    (d : Disk) (movie block n : Name)
    → get_next_block_name d movie block ≡ ok (some n)
    → length n < block_name_size
unfolding get_next_block_name
get_next_block_name-short d movie block n h = ground arith

pub get_start_block_name-short :
    (d : Disk) (movie : Name) (start : FloatBits) (n : Name)
    → get_start_block_name d movie start ≡ ok (some n)
    → length n < block_name_size
unfolding get_start_block_name
get_start_block_name-short d movie start n h = ground arith

-- The name that getStartBlockName writes is that of block 1 of the movie.
pub get_start_block_name-some :
    (d : Disk) (movie : Name) (start : FloatBits) (n : Name)
    → get_start_block_name d movie start ≡ ok (some n)
    → (m : Movie) × (get_movie_details d movie ≡ some m) × (n ≡ block_name d.directory m.name 1)
unfolding get_start_block_name
get_start_block_name-some d movie start n h = elim (Option-cases (get_movie_details d movie)) [
  | inl e ↦ absurd (cc (rw (e, get_start_block_name) at h))
  | inr (m, e) ↦ (m, e, ground (arith, rw (e, get_start_block_name) at h))
]

-- What the callers pass by reference: `*numpkts`, and the array of lengths unless it is NULL.
pub record PackInfo : Type 0 where
  pub numpkts : ℕ
  pub lens : Option (List ℕ)

-- `for (i = 0; i < n; i++) to[i] = from[i]` on arrays of NUMPKTS numbers.
abbrev pub copy_lens : ℕ → List ℕ → List ℕ → List ℕ
copy_lens n from to = take n from ++ drop n to

-- The array after the copy; one that has no room is overrun.
abbrev pub copied : BlockDtl → Option (List ℕ) → Outcome (Option (List ℕ))
copied b none = ok none
copied b (some to) =
    if ltb num_pkts b.n_packets
    then undefined
    else ok (some (copy_lens b.n_packets b.packet_lens to))

-- What is left in `*numpkts`: the assignments of the block's own count are overwritten by 500.
unfoldable pub count_of_block : ℕ → ℕ
count_of_block k = if k == 0 then 0 else num_pkts

-- getNumPackets_PackSize: `none` where it returns -1 and changes nothing.
unfoldable pub get_num_packets : Disk → Name → Name → PackInfo → Outcome (Option PackInfo)
unfolding count_of_block
get_num_packets d movie block old = elim (get_movie_details d movie) [
  | none ↦ ok none
  | some m ↦ elim (get_elem? m.block_dtl (get_block_num block)) [
    | none ↦ undefined
    | some b ↦ do
      lens ← copied b old.lens
      ok (some (record { numpkts = count_of_block (get_block_num block); lens = lens }))
  ]
]

-- readBlock, with the bytes that it puts into the buffer: none, if the file cannot be read.
unfoldable pub read_block : Disk → Name → Name → PackInfo → Outcome (PackInfo × List ℕ)
unfolding get_num_packets
read_block d movie block old = do
  info ← get_num_packets d movie block old
  elim info [
    | none ↦ ok (old, [])
    | some new ↦ elim (d.contents block) [
      | none ↦ ok (new, [])
      | some bytes ↦
          if ltb (max_pkt_size * num_pkts) (length bytes) then undefined else ok (new, bytes)
    ]
  ]
