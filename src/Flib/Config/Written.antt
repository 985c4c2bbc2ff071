-- ===== src/Flib/Config/Written.antt =====
-- A configuration file (Server/FLIB/retrieve.c) that was put together from a directory and entries
-- for movies, and what Flib_init finds in it.
use myyima.Prelude.{
  ℕ, zero, suc, ◌<◌, ◌≡◌, refl, ◌∙◌, ap, some, List, [], ◌∷◌, ◌++◌, arith, length, All,
}
use myyima.Outcome.{ok, ◌>>=◌}
use myyima.Outcome.Loops.{again, ended, loop, go_on}
use myyima.Messages.{Name}
use myyima.Text.Scan.{line_end, scan_key}
use myyima.Text.Scan.Words.{IsWord, skip_space-IsWord, is_empty-IsWord, scan_key-IsWord}
use myyima.Flib.Retrieve.{Movie}
use myyima.Flib.Config.{
  Host, config_file, at_end, opened, or_default, fuel_for, disk_of, read_directory, disks_round,
  init_disks, movies_round, init_movies, init_file_system, flib_init,
}
use myyima.Flib.Config.Entries.{
  Entry, movie_lines, config_of, IsDirectory, IsEntry, Made, small-fits, skip_line-directory,
  length-config_of, loop-disks_round, loop-movies_round,
}

or_default-IsWord : (d : Name) → IsWord d → or_default d ≡ d
or_default-IsWord [] v = absurd (v.some_byte refl)
or_default-IsWord (c ∷ cs) v = refl

module _ (host : Host) where
  after_directory :
      (k : ℕ) (es : List Entry) (d : Name)
      → All (IsEntry host) es
      → length es < k
      → loop disks_round (suc k) (line_end (10 ∷ movie_lines es), d) ≡ ok (ended (at_end, d))
  unfolding loop disks_round
  after_directory k [] d vs h = refl
  after_directory k (e ∷ es) d vs h = loop-disks_round host k (e ∷ es) d vs h

  after_disk_line :
      (k : ℕ) (es : List Entry) (ms : List Movie)
      → All (IsEntry host) es
      → Made host 0 es ms
      → length es < k
      → loop (movies_round host) (suc k) (opened (movie_lines es), []) ≡ ok (ended (at_end, ms))
  unfolding loop movies_round scan_key
  after_disk_line zero es ms vs made h = absurd (omega (arith, h))
  after_disk_line (suc k) [] [] vs made h = refl
  after_disk_line (suc k) [] (m ∷ ms) vs made h = cc
  after_disk_line (suc k) (e ∷ es) ms vs made h =
      loop-movies_round host (suc k) (e ∷ es) [] ms vs made (omega (arith, h))

  module _ (directory : Name) (v : IsDirectory directory) (es : List Entry)
      (vs : All (IsEntry host) es) where
    read_directory-config_of :
        read_directory (opened (directory ++ 10 ∷ movie_lines es))
        ≡ ok (again (line_end (10 ∷ movie_lines es), directory))
    unfolding read_directory
    read_directory-config_of =
        rw
          (
            read_directory,
            scan_key-IsWord directory 10 (movie_lines es) v.one_word refl,
            small-fits directory (omega (arith, v.small)),
          )
          refl

    first_disks_round :
        disks_round (opened (config_of directory es), [])
        ≡ ok (again (line_end (10 ∷ movie_lines es), directory))
    unfolding disks_round scan_key
    first_disks_round =
        rw
          (
            disks_round,
            skip_space-IsWord directory (10 ∷ movie_lines es) v.one_word,
            is_empty-IsWord directory (10 ∷ movie_lines es) v.one_word,
            read_directory-config_of,
          )
          refl

    first_movies_round :
        movies_round host (opened (config_of directory es), [])
        ≡ ok (again (opened (movie_lines es), []))
    unfolding movies_round scan_key
    first_movies_round =
        rw
          (
            movies_round,
            skip_space-IsWord directory (10 ∷ movie_lines es) v.one_word,
            skip_line-directory directory (movie_lines es) v,
          )
          refl

    init_disks-config_of :
        host.contents config_file ≡ some (config_of directory es)
        → init_disks host ≡ ok (ended directory)
    unfolding init_disks loop
    init_disks-config_of h =
        let text = config_of directory es in
        let run : loop disks_round (fuel_for text) (opened text, [])
            ≡ ok (ended (at_end, directory)) =
          ap (λ o. o >>= λ n. go_on (loop disks_round (suc (length text))) n) first_disks_round
          ∙ after_directory (length text) es directory vs (length-config_of directory es) in
        rw (init_disks, h, run, or_default-IsWord directory v.one_word) refl

    init_movies-config_of :
        (ms : List Movie)
        → host.contents config_file ≡ some (config_of directory es)
        → Made host 0 es ms
        → init_movies host ≡ ok (ended ms)
    unfolding init_movies loop
    init_movies-config_of ms h made =
        let text = config_of directory es in
        let run : loop (movies_round host) (fuel_for text) (opened text, [])
            ≡ ok (ended (at_end, ms)) =
          ap (λ o. o >>= λ n. go_on (loop (movies_round host) (suc (length text))) n)
            first_movies_round
          ∙ after_disk_line (length text) es ms vs made (length-config_of directory es) in
        rw (init_movies, h, run) refl

-- Flib_init reads back a configuration file that was put together from a directory and entries for
-- movies: a `Disk` line, then a `Movie` line and a line with name, size and time for each entry. The
-- state of the file library is that directory with the movies that the host makes of the entries,
-- in their order. The directory and the texts of an entry are words whose lines are shorter than
-- 255 bytes, a size fits into 64 bits, `%f` reads each time, and each movie can be made.
pub flib_init-config_of :
    (host : Host) (directory : Name) (es : List Entry) (ms : List Movie)
    → host.contents config_file ≡ some (config_of directory es)
    → IsDirectory directory
    → All (IsEntry host) es
    → Made host 0 es ms
    → flib_init host ≡ ok (ended (disk_of host directory ms))
unfolding flib_init init_file_system
flib_init-config_of host directory es ms h v vs made =
    rw
      (
        flib_init,
        init_file_system,
        init_disks-config_of host directory v es vs h,
        init_movies-config_of host directory v es vs ms h made,
      )
      refl
