-- ===== src/Text/Scan.antt =====
-- What the server uses of fscanf and fgets, on the bytes of a file that are still to be read.
pub mod Lengths
pub mod Words
use myyima.Prelude.{
  ℕ, zero, suc, ◌+◌, ◌-◌, ◌%◌, ◌^◌, Bool, true, false, Option, none, some, List, [], ◌∷◌, leb, ltb,
  ◌==◌, if◌then◌else◌,
}
use myyima.Prelude.Int.{ℤ, pos, ◌-ℤ◌}
use myyima.Outcome.{Outcome, ok, undefined, ◌>>=◌}
use myyima.Messages.{Name}
use myyima.Flib.Names.{atoi_from, is_digit}
use myyima.Text.Numbers.{is_space, skip_space}

-- A file that is being read: what is left, and whether a read has met its end (feof).
pub record Stream : Type 0 where
  pub rest : Name
  pub eof : Bool

abbrev pub is_empty : Name → Bool
is_empty [] = true
is_empty (c ∷ cs) = false

-- `%s`: the bytes up to the next space, and those from there on.
abbrev pub word : Name → Name
word [] = []
word (c ∷ cs) = if is_space c then [] else c ∷ word cs

abbrev pub after_word : Name → Name
after_word [] = []
after_word (c ∷ cs) = if is_space c then c ∷ cs else after_word cs

-- `%s` behind spaces; `none` where there is only space left.
abbrev pub scan_word : Name → Option (Name × Name)
scan_word s = elim (skip_space s) [ [] ↦ none | c ∷ cs ↦ some (word (c ∷ cs), after_word (c ∷ cs)) ]

-- The `\n` at the end of a format skips all space, and meets the end of the file if nothing else
-- is left.
abbrev pub line_end : Name → Stream
line_end s = record { rest = skip_space s; eof = is_empty (skip_space s) }

-- fscanf(f, "%s\n", w)
unfoldable pub scan_key : Name → Option (Name × Stream)
scan_key s = elim (scan_word s) [ none ↦ none | some r ↦ some (r.0, line_end r.1) ]

abbrev pub after_digits : Name → Name
after_digits [] = []
after_digits (c ∷ cs) = if is_digit c then after_digits cs else c ∷ cs

-- Digits, of which there must be one.
abbrev pub scan_digits : Name → Option (ℕ × Name)
scan_digits [] = none
scan_digits (c ∷ cs) =
    if is_digit c then some (atoi_from 0 (c ∷ cs), after_digits (c ∷ cs)) else none

-- A number with its sign: whether it is negative, its digits, and what follows.
abbrev pub with_sign : Bool → Option (ℕ × Name) → Option (Bool × ℕ × Name)
with_sign minus none = none
with_sign minus (some r) = some (minus, r.0, r.1)

abbrev pub sign_and_digits : Name → Option (Bool × ℕ × Name)
sign_and_digits [] = none
sign_and_digits (c ∷ cs) =
    if c == b'-'
    then with_sign true (scan_digits cs)
    else if c == b'+'
    then with_sign false (scan_digits cs)
    else with_sign false (scan_digits (c ∷ cs))

-- `%llu`: as strtoull, the largest number in place of a larger one.
abbrev to_ull : Bool → ℕ → ℕ
to_ull minus n =
    let small = if ltb n (2 ^ 64) then n else 2 ^ 64 - 1 in
    if minus then (2 ^ 64 - small) % 2 ^ 64 else small

unfoldable pub scan_ull : Name → Option (ℕ × Name)
unfolding atoi_from
scan_ull s = elim (sign_and_digits (skip_space s)) [
  | none ↦ none
  | some (minus, n, rest) ↦ some (to_ull minus n, rest)
]

-- `%d`: a number that an int does not hold is undefined.
unfoldable pub scan_int : Name → Outcome (Option (ℤ × Name))
unfolding atoi_from ◌-ℤ◌
scan_int s = elim (sign_and_digits (skip_space s)) [
  | none ↦ ok none
  | some (minus, n, rest) ↦
      if leb (2 ^ 31) n
      then undefined
      else ok (some (if minus then pos 0 -ℤ pos n else pos n, rest))
]

-- fgets(line, n + 1, f): what is left after at most `n` bytes of a line.
abbrev pub skip_line : ℕ → Name → Stream
skip_line zero s = record { rest = s; eof = false }
skip_line (suc n) [] = record { rest = []; eof = true }
skip_line (suc n) (c ∷ cs) = if c == 10 then record { rest = cs; eof = false } else skip_line n cs
