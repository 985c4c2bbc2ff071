-- ===== src/Flib/Config.antt =====
-- Reading the configuration: InitDisks, InitMovies and InitFileSystem of Server/FLIB/retrieve.c, and
-- Flib_init of Server/FLIB/interface.c. The loops run on fuel.
pub mod Ends
pub mod Entries
pub mod Written
mod Tests
use myyima.Prelude.{
  ℕ, zero, suc, ◌+◌, Bool, true, false, Option, none, some, List, [], ◌∷◌, ◌++◌, leb, if◌then◌else◌,
  set, get_or, drop, length,
}
use myyima.Prelude.Int.{ℤ, pos, negsuc, pos_part}
use myyima.Outcome.{Outcome, ok, aborted, undefined, ◌>>=◌, deref, fits}
use myyima.Outcome.Loops.{Next, again, stop, give_up, starved, Ended, ended, gave_up, no_fuel, loop}
use myyima.Messages.{Name, FloatBits}
use myyima.Text.{codes, strtok}
use myyima.Text.Numbers.{atoi_int, skip_space}
use myyima.Text.Scan.{Stream, line_end, scan_key, scan_word, scan_ull, scan_int, skip_line}
use myyima.Flib.Names.{name_eq}
use myyima.Flib.Retrieve.{BlockDtl, Movie, Disk, block_name_size, num_pkts, strncpy}

-- What the code asks of its host: the files, the order of two C floats, `%f` behind its spaces, and
-- the memory that malloc finds for the movie with a number, with what happens to stand there.
pub record Host : Type 0 where
  pub contents : Name → Option Name
  pub float_gt : FloatBits → FloatBits → Bool
  pub scan_float : Name → Option (FloatBits × Name)
  pub new_movie : ℕ → Option Movie

abbrev pub config_file : Name
config_file = codes "../Server/config"

abbrev pub default_directory : Name
default_directory = codes "/home/bseo/YimaPE_v1.1/Streams/BLOCKS/"

abbrev pub disk_key : Name
disk_key = codes "Disk"

abbrev pub movie_key : Name
movie_key = codes "Movie"

abbrev pub at_end : Stream
at_end = record { rest = []; eof = true }

-- The value of `Disk`, in `directory`.
unfoldable pub read_directory : Stream → Outcome (Next (Stream × Name))
unfolding scan_key
read_directory s = elim (scan_key s.rest) [
  | none ↦ aborted
  | some (value, s') ↦ (fits block_name_size value >>= λ directory. ok (again (s', directory)))
]

-- A round of `while (!feof(cfgfile))` in InitDisks.
unfoldable pub disks_round : Stream × Name → Outcome (Next (Stream × Name))
unfolding read_directory
disks_round (s, directory) =
    let one_line = elim (scan_key s.rest) as (λ _. Outcome (Next (Stream × Name))) [
      | none ↦ ok (again (at_end, directory))
      | some (word, s') ↦
          (fits block_name_size word >>= λ key.
          if name_eq key disk_key
          then read_directory s'
          else ok (again (skip_line 255 s'.rest, directory)))
    ] in
    if s.eof then ok (stop (s, directory)) else one_line

-- The directory, if the file set one.
abbrev pub or_default : Name → Name
or_default [] = strncpy default_directory
or_default (c ∷ cs) = c ∷ cs

abbrev pub map_ended {ℓ κ} : {A : Type ℓ} {B : Type κ} → (A → B) → Ended A → Ended B
map_ended f (ended a) = ended (f a)
map_ended f gave_up = gave_up
map_ended f no_fuel = no_fuel

-- A file from its start.
abbrev pub opened : Name → Stream
opened text = record { rest = text; eof = false }

abbrev pub fuel_for : Name → ℕ
fuel_for text = suc (suc (length text))

-- InitDisks; it gives up where it returns -1.
unfoldable pub init_disks : Host → Outcome (Ended Name)
unfolding disks_round loop
init_disks host = elim (host.contents config_file) [
  | none ↦ ok gave_up
  | some text ↦
      (loop disks_round (fuel_for text) (opened text, []) >>= λ r.
      ok (map_ended (λ (s, directory). or_default directory) r))
]

-- A length of a packet, from a token in `temp_packet_offset[6]`. One below zero is left out here.
unfoldable pub packet_len : Name → Outcome ℕ
unfolding atoi_int
packet_len token =
    fits 6 token >>= λ text. atoi_int text >>= λ n. elim n [ pos l ↦ ok l | negsuc l ↦ undefined ]

-- The first `n` lengths of a text like `23,33,205`.
pub packet_lens : ℕ → Name → Outcome (List ℕ)
unfolding packet_len
packet_lens zero text = ok []
packet_lens (suc n) text = do
  (token, rest) ← deref (strtok (codes ",") text)
  l ← packet_len token
  ls ← packet_lens n rest
  ok (l ∷ ls)

-- How many lengths are read for `n` packets: one at least.
abbrev pub len_count : ℕ → ℕ
len_count zero = 1
len_count (suc n) = suc n

abbrev pub no_block : BlockDtl
no_block = record { n_packets = 0; packet_lens = [] }

-- The block `b`, which has `n` packets. A number of packets below zero, which is only compared with
-- others, is kept as 0.
unfoldable pub add_block : ℕ → ℕ → Name → Movie → Outcome Movie
unfolding packet_lens
add_block b n lens_text m =
    if leb num_pkts b
    then undefined
    else if leb (suc num_pkts) (len_count n)
    then undefined
    else (packet_lens (len_count n) lens_text >>= λ lens.
        let old = get_or m.block_dtl b no_block in
        let new : BlockDtl = record {
          n_packets = n;
          packet_lens = lens ++ drop (len_count n) old.packet_lens;
        } in
        ok (record m { num_blocks = m.num_blocks + 1; block_dtl = set m.block_dtl b new }))

-- The body of the loop over the metadata, after "%d %d %s\n" with `packetsizedata[3000]`.
unfoldable pub store_block : ℤ → ℤ → Name → Movie → Outcome Movie
unfolding add_block
store_block (negsuc b) n lens_text m = undefined
store_block (pos b) n lens_text m =
    fits 3000 lens_text >>= λ sizes. add_block b (pos_part n) sizes m

-- A round of the loop over the metadata: "%d %d %s\n", until it does not fit.
unfoldable pub meta_round : Name × Movie → Outcome (Next (Name × Movie))
unfolding store_block
meta_round (text, m) = do
  first ← scan_int text
  elim first [
    | none ↦ ok (stop (text, m))
    | some (b, r₁) ↦ do
      second ← scan_int r₁
      elim second [
        | none ↦ ok (stop (text, m))
        | some (n, r₂) ↦ elim (scan_word r₂) [
          | none ↦ ok (stop (text, m))
          | some (lens_text, r₃) ↦ do
            m' ← store_block b n lens_text m
            ok (again ((line_end r₃).rest, m'))
        ]
      ]
  ]

-- The metadata of a movie, from a file that must be there.
unfoldable pub read_meta : Host → Movie → Outcome (Ended Movie)
unfolding meta_round loop
read_meta host m = do
  file ← fits block_name_size (m.name ++ codes "_blk_meta.txt")
  text ← deref (host.contents file)
  r ← loop meta_round (fuel_for text) (text, m)
  ok (map_ended (λ (rest, m'). m') r)

-- What follows `Movie`: "%s %llu %f\n".
unfoldable pub scan_movie : Host → Name → Outcome (Option (Name × ℕ × FloatBits × Stream))
scan_movie host text = elim (scan_word text) [
  | none ↦ ok none
  | some (word, r₁) ↦
      (fits block_name_size word >>= λ name. elim (scan_ull r₁) [
        | none ↦ ok none
        | some (size, r₂) ↦ elim (host.scan_float (skip_space r₂)) [
          | none ↦ ok none
          | some (duration, r₃) ↦ ok (some (name, size, duration, line_end r₃))
        ]
      ])
]

-- The new struct movie; without memory the process ends.
unfoldable pub new_movie : Host → ℕ → Name → ℕ → FloatBits → Outcome (Ended Movie)
unfolding read_meta
new_movie host i name size duration = elim (host.new_movie i) [
  | none ↦ aborted
  | some m ↦ read_meta host (record m { name = strncpy name; size = size; time = duration })
]

-- The movie is put at the end of the list.
abbrev pub appended : Stream → List Movie → Ended Movie → Next (Stream × List Movie)
appended s movies (ended m) = again (s, movies ++ m ∷ [])
appended s movies gave_up = give_up
appended s movies no_fuel = starved

unfoldable pub add_movie : Host → Stream → List Movie → Outcome (Next (Stream × List Movie))
unfolding scan_movie new_movie
add_movie host s movies = scan_movie host s.rest >>= λ line. elim line [
  | none ↦ ok give_up
  | some (name, size, duration, s') ↦
      (new_movie host (length movies) name size duration >>= λ r. ok (appended s' movies r))
]

-- A round of `while (!feof(cfgfile))` in InitMovies.
unfoldable pub movies_round : Host → Stream × List Movie → Outcome (Next (Stream × List Movie))
unfolding add_movie scan_key
movies_round host (s, movies) =
    let one_line = elim (scan_key s.rest) as (λ _. Outcome (Next (Stream × List Movie))) [
      | none ↦ ok (again (at_end, movies))
      | some (word, s') ↦
          (fits block_name_size word >>= λ key.
          if name_eq key movie_key
          then add_movie host s' movies
          else ok (again (skip_line 255 s'.rest, movies)))
    ] in
    if s.eof then ok (stop (s, movies)) else one_line

-- InitMovies
unfoldable pub init_movies : Host → Outcome (Ended (List Movie))
unfolding movies_round loop
init_movies host = elim (host.contents config_file) [
  | none ↦ ok gave_up
  | some text ↦
      (loop (movies_round host) (fuel_for text) (opened text, []) >>= λ r.
      ok (map_ended (λ (s, movies). movies) r))
]

-- What the other functions of the file read.
abbrev pub disk_of : Host → Name → List Movie → Disk
disk_of host directory movies = record {
  directory = directory;
  movies = movies;
  contents = host.contents;
  float_gt = host.float_gt;
}

-- InitFileSystem, after InitDisks.
abbrev pub after_disks : Host → Ended Name → Outcome (Ended Disk)
after_disks host (ended directory) =
    init_movies host >>= λ r. ok (map_ended (disk_of host directory) r)
after_disks host gave_up = ok gave_up
after_disks host no_fuel = ok no_fuel

-- InitFileSystem
unfoldable pub init_file_system : Host → Outcome (Ended Disk)
unfolding init_disks init_movies
init_file_system host = init_disks host >>= after_disks host

abbrev pub exit_on_error : Ended Disk → Outcome (Ended Disk)
exit_on_error (ended d) = ok (ended d)
exit_on_error gave_up = aborted
exit_on_error no_fuel = ok no_fuel

-- Flib_init: an error ends the process.
unfoldable pub flib_init : Host → Outcome (Ended Disk)
unfolding init_file_system
flib_init host = init_file_system host >>= exit_on_error
