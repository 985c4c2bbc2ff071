-- ===== src/Flib/Config/Entries.antt =====
-- A configuration file (Server/FLIB/retrieve.c) that is put together from a directory and entries
-- for movies, and what the rounds of InitDisks and InitMovies do with an entry.
use myyima.Prelude.{
  ℕ, zero, suc, ◌+◌, ◌-◌, ◌<◌, ◌^◌, ◌≡◌, refl, sym, ◌∙◌, ap, some, List, [], ◌∷◌, ◌++◌, arith,
  length, All, length-append,
}
use mathlib.Core.List.{append-nil, append_assoc}
use myyima.Outcome.{ok, ◌>>=◌, fits}
use myyima.Outcome.Loops.{again, ended, loop, go_on}
use myyima.Messages.{Name, FloatBits}
use myyima.Text.Scan.{line_end, scan_key, skip_line}
use myyima.Text.Scan.Words.{
  IsWord, plain-IsLine, skip_space-IsWord, scan_word-IsWord, skip_line-append, decimal-IsWord,
  scan_ull-decimal,
}
use myyima.Flib.Names.{decimal}
use myyima.Flib.Retrieve.{Movie}
use myyima.Flib.Config.{
  Host, disk_key, movie_key, at_end, opened, disks_round, scan_movie, new_movie, add_movie,
  movies_round,
}

-- An entry for a movie: its name and size, and a text for its time.
pub record Entry : Type 0 where
  pub name : Name
  pub size : ℕ
  pub time_text : Name
  pub time : FloatBits

abbrev pub entry_line : Entry → Name → Name
entry_line e rest = e.name ++ b' ' ∷ (decimal e.size ++ b' ' ∷ (e.time_text ++ 10 ∷ rest))

abbrev pub movie_lines : List Entry → Name
movie_lines [] = []
movie_lines (e ∷ es) = movie_key ++ 10 ∷ entry_line e (movie_lines es)

abbrev pub config_of : Name → List Entry → Name
config_of directory es = disk_key ++ 10 ∷ (directory ++ 10 ∷ movie_lines es)

-- The text is one word, and its line fits into a buffer of 256 bytes.
pub record IsDirectory (directory : Name) : Type 0 where
  pub one_word : IsWord directory
  pub small : length directory < 255

-- The same of an entry; its size fits into 64 bits and `%f` reads its time.
pub record IsEntry (host : Host) (e : Entry) : Type 0 where
  pub name_word : IsWord e.name
  pub size_fits : e.size < 2 ^ 64
  pub time_word : IsWord e.time_text
  pub time_read :
      (rest : Name) → host.scan_float (e.time_text ++ 10 ∷ rest) ≡ some (e.time, 10 ∷ rest)
  pub line_fits : length e.name + length (decimal e.size) + length e.time_text + 2 < 255

-- The movies that the host makes of the entries, from the number `i` on.
abbrev pub Made : Host → ℕ → List Entry → List Movie → Type 0
Made host i [] [] = Unit {0}
Made host i [] (m ∷ ms) = Path ℕ 0 1
Made host i (e ∷ es) [] = Path ℕ 0 1
Made host i (e ∷ es) (m ∷ ms) =
    (new_movie host i e.name e.size e.time ≡ ok (ended m)) × Made host (suc i) es ms

pub small-fits : (s : Name) → length s < 256 → fits 256 s ≡ ok s
small-fits s h = ground arith

pub skip_line-directory :
    (s rest : Name) → IsDirectory s → skip_line 255 (s ++ 10 ∷ rest) ≡ opened rest
skip_line-directory s rest v =
    skip_line-append s (10 ∷ rest) 255 (suc (254 - length s)) (plain-IsLine s v.one_word.plain)
      (omega (arith, v.small))

length-entry_line : (e : Entry) (rest : Name) → length rest < length (entry_line e rest)
length-entry_line e rest = omega (
  arith,
  length-append e.name (b' ' ∷ (decimal e.size ++ b' ' ∷ (e.time_text ++ 10 ∷ rest))),
  length-append (decimal e.size) (b' ' ∷ (e.time_text ++ 10 ∷ rest)),
  length-append e.time_text (10 ∷ rest),
)

length-movie_lines : (es : List Entry) → length es < suc (length (movie_lines es))
length-movie_lines [] = omega arith
length-movie_lines (e ∷ es) =
    omega (arith, length-movie_lines es, length-entry_line e (movie_lines es))

pub length-config_of :
    (directory : Name) (es : List Entry) → length es < length (config_of directory es)
length-config_of directory es =
    omega (arith, length-movie_lines es, length-append directory (10 ∷ movie_lines es))

module _ (host : Host) where
  skip_line-entry_line :
      (e : Entry) (rest : Name) → IsEntry host e → skip_line 255 (entry_line e rest) ≡ opened rest
  skip_line-entry_line e rest v =
      let k₁ = 254 - length e.name in
      let k₂ = k₁ - length (decimal e.size) - 1 in
      let k₃ = k₂ - length e.time_text - 1 in
      skip_line-append e.name (b' ' ∷ (decimal e.size ++ b' ' ∷ (e.time_text ++ 10 ∷ rest))) 255
        (suc k₁) (plain-IsLine e.name v.name_word.plain) (omega (arith, v.line_fits))
      ∙ skip_line-append (decimal e.size) (b' ' ∷ (e.time_text ++ 10 ∷ rest)) k₁ (suc k₂)
          (plain-IsLine (decimal e.size) (decimal-IsWord e.size).plain) (omega (arith, v.line_fits))
      ∙ skip_line-append e.time_text (10 ∷ rest) k₂ (suc k₃)
          (plain-IsLine e.time_text v.time_word.plain) (omega (arith, v.line_fits))

  -- InitDisks passes over the entries.
  disks_round-entry :
      (e : Entry) (es : List Entry) (d : Name)
      → IsEntry host e
      → disks_round (opened (movie_lines (e ∷ es)), d) ≡ ok (again (opened (movie_lines es), d))
  unfolding disks_round scan_key
  disks_round-entry e es d v =
      rw
        (
          disks_round,
          skip_space-IsWord e.name
              (b' ' ∷ (decimal e.size ++ b' ' ∷ (e.time_text ++ 10 ∷ movie_lines es))) v.name_word,
          skip_line-entry_line e (movie_lines es) v,
        )
        refl

  pub loop-disks_round :
      (k : ℕ) (es : List Entry) (d : Name)
      → All (IsEntry host) es
      → length es < k
      → loop disks_round (suc k) (opened (movie_lines es), d) ≡ ok (ended (at_end, d))
  unfolding loop disks_round scan_key
  loop-disks_round zero es d vs h = absurd (omega (arith, h))
  loop-disks_round (suc k) [] d vs h = refl
  loop-disks_round (suc k) (e ∷ es) d (v, vs) h =
      ap (λ o. o >>= λ n. go_on (loop disks_round (suc k)) n) (disks_round-entry e es d v)
      ∙ loop-disks_round k es d vs (omega (arith, h))

  -- InitMovies makes a movie of each.
  scan_movie-entry :
      (e : Entry) (es : List Entry)
      → IsEntry host e
      → scan_movie host (entry_line e (movie_lines es))
        ≡ ok (some (e.name, e.size, e.time, line_end (10 ∷ movie_lines es)))
  unfolding scan_movie
  scan_movie-entry e es v =
      rw
        (
          scan_movie,
          scan_word-IsWord e.name (b' ')
              (decimal e.size ++ b' ' ∷ (e.time_text ++ 10 ∷ movie_lines es)) v.name_word refl,
          small-fits e.name (omega (arith, v.line_fits)),
          scan_ull-decimal e.size (b' ') (e.time_text ++ 10 ∷ movie_lines es) v.size_fits refl,
          skip_space-IsWord e.time_text (10 ∷ movie_lines es) v.time_word,
          v.time_read (movie_lines es),
        )
        refl

  movies_round-entry :
      (e : Entry) (es : List Entry) (m : Movie) (ms : List Movie)
      → IsEntry host e
      → new_movie host (length ms) e.name e.size e.time ≡ ok (ended m)
      → movies_round host (opened (movie_lines (e ∷ es)), ms)
        ≡ ok (again (line_end (10 ∷ movie_lines es), ms ++ m ∷ []))
  unfolding movies_round add_movie scan_key
  movies_round-entry e es m ms v made =
      rw
        (
          movies_round,
          skip_space-IsWord e.name
              (b' ' ∷ (decimal e.size ++ b' ' ∷ (e.time_text ++ 10 ∷ movie_lines es))) v.name_word,
          scan_movie-entry e es v,
          made,
        )
        refl

  pub loop-movies_round :
      (k : ℕ) (es : List Entry) (before ms : List Movie)
      → All (IsEntry host) es
      → Made host (length before) es ms
      → length es < suc k
      → loop (movies_round host) (suc k) (line_end (10 ∷ movie_lines es), before)
        ≡ ok (ended (at_end, before ++ ms))
  unfolding loop movies_round
  loop-movies_round k [] before [] vs made h =
      ap (λ ms. ok (ended (at_end, ms))) (sym (append-nil before))
  loop-movies_round k [] before (m ∷ ms) vs made h = cc
  loop-movies_round k (e ∷ es) before [] vs made h = cc
  loop-movies_round zero (e ∷ es) before (m ∷ ms) vs made h = absurd (omega (arith, h))
  loop-movies_round (suc k) (e ∷ es) before (m ∷ ms) (v, vs) (made, more) h =
      let count : length (before ++ m ∷ []) ≡ suc (length before) =
        length-append before (m ∷ []) ∙ omega arith in
      ap (λ o. o >>= λ n. go_on (loop (movies_round host) (suc k)) n)
        (movies_round-entry e es m before v made)
      ∙ loop-movies_round k es (before ++ m ∷ []) ms vs (rw count more) (omega (arith, h))
      ∙ ap (λ l. ok (ended (at_end, l))) (append_assoc before (m ∷ []) ms)
