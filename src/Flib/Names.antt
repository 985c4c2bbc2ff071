-- ===== src/Flib/Names.antt =====
-- The names of block files, as Server/FLIB/retrieve.c builds and reads them: directory, movie,
-- `_` and the block's number in decimal.
use myyima.Prelude.{
  ℕ, zero, suc, ◌+◌, ◌-◌, ◌*◌, ◌/◌, ◌%◌, ◌<◌, ◌≡◌, refl, Bool, true, false, ◌&&◌, Option, none,
  some, [], ◌∷◌, ◌++◌, arith, ltb, leb, ◌==◌, if◌then◌else◌, ◌∙◌, Bool-cases, inl, inr,
}
use myyima.Messages.{Name}

-- strcmp(a, b) == 0
abbrev pub name_eq : Name → Name → Bool
name_eq [] [] = true
name_eq [] (d ∷ ds) = false
name_eq (c ∷ cs) [] = false
name_eq (c ∷ cs) (d ∷ ds) = c == d && name_eq cs ds

pub name_eq_refl : (n : Name) → name_eq n n ≡ true
name_eq_refl [] = refl
name_eq_refl (c ∷ cs) = ground (arith, name_eq_refl cs)

pub name_eq→≡ : (a b : Name) → name_eq a b ≡ true → a ≡ b
name_eq→≡ [] [] h = refl
name_eq→≡ [] (d ∷ ds) h = cc
name_eq→≡ (c ∷ cs) [] h = cc
name_eq→≡ (c ∷ cs) (d ∷ ds) h = ground (arith, name_eq→≡ cs ds)

-- strrchr(s, c) + 1
pub after_last : ℕ → Name → Option Name
after_last c [] = none
after_last c (d ∷ ds) = elim (after_last c ds) [
  | some r ↦ some r
  | none ↦ if d == c then some ds else none
]

abbrev pub is_digit : ℕ → Bool
is_digit c = leb b'0' c && leb c b'9'

-- The digits of atoi, with the value of those before.
unfoldable pub atoi_from : ℕ → Name → ℕ
atoi_from acc [] = acc
atoi_from acc (c ∷ cs) = if is_digit c then atoi_from (acc * 10 + (c - b'0')) cs else acc

-- atoi, of a text that has no sign and no space in front, as after the `_` of a block's name.
unfoldable pub atoi : Name → ℕ
unfolding atoi_from
atoi = atoi_from 0

-- The digits of `n`, in front of `rest`; fuel above `n` is enough.
unfoldable pub decimal_from : ℕ → ℕ → Name → Name
decimal_from zero n rest = rest
decimal_from (suc f) n rest =
    let more = decimal_from f (n / 10) ((b'0' + n % 10) ∷ rest) in
    if ltb n 10 then (b'0' + n) ∷ rest else more

-- What sprintf writes for `%d`.
unfoldable pub decimal : ℕ → Name
unfolding decimal_from
decimal n = decimal_from (suc n) n []

atoi_from-decimal_from :
    (f n : ℕ) (rest : Name) → n < f → atoi_from 0 (decimal_from f n rest) ≡ atoi_from n rest
unfolding atoi_from decimal_from
atoi_from-decimal_from zero n rest h = elim h [ ]
atoi_from-decimal_from (suc f) n rest h = elim (Bool-cases (ltb n 10)) [
  | inl c ↦ rw c (ground arith)
  | inr c ↦
      rw c
        (atoi_from-decimal_from f (n / 10) ((b'0' + n % 10) ∷ rest) (ground arith) ∙ ground arith)
]

-- A number that is printed is read back.
pub atoi-decimal : (n : ℕ) → atoi (decimal n) ≡ n
unfolding atoi decimal
atoi-decimal n = atoi_from-decimal_from (suc n) n [] (omega arith)

pub atoi_from-decimal : (n : ℕ) → atoi_from 0 (decimal n) ≡ n
unfolding atoi decimal
atoi_from-decimal n = atoi-decimal n

-- getBlockNum
unfoldable pub get_block_num : Name → ℕ
unfolding after_last
get_block_num n = elim (after_last b'_' n) [ none ↦ 0 | some r ↦ atoi r ]

-- What getNextBlockName prints: "%s%s_%d".
unfoldable pub block_name : Name → Name → ℕ → Name
block_name directory movie k = directory ++ (movie ++ b'_' ∷ decimal k)

after_last-append :
    (c : ℕ) (xs ys r : Name) → after_last c ys ≡ some r → after_last c (xs ++ ys) ≡ some r
unfolding after_last
after_last-append c [] ys r h = h
after_last-append c (x ∷ xs) ys r h = ground (arith, after_last-append c xs ys r h)

-- Among the digits of a number there is no `_`.
after_last-decimal_from :
    (f n : ℕ) (rest : Name)
    → after_last b'_' rest ≡ none
    → after_last b'_' (decimal_from f n rest) ≡ none
unfolding after_last decimal_from
after_last-decimal_from zero n rest h = h
after_last-decimal_from (suc f) n rest h = elim (Bool-cases (ltb n 10)) [
  | inl c ↦ rw (c, h, after_last) (ground arith)
  | inr c ↦ rw c (
      after_last-decimal_from f (n / 10) ((b'0' + n % 10) ∷ rest)
        (rw (h, after_last) (ground arith)))
]

-- The number of a block is read back from the name that is made for it, whatever characters the
-- directory and the movie have.
pub get_block_num-block_name :
    (directory movie : Name) (k : ℕ) → get_block_num (block_name directory movie k) ≡ k
unfolding get_block_num block_name decimal
get_block_num-block_name directory movie k =
    rw
      (
        after_last-append b'_' directory (movie ++ b'_' ∷ decimal k) (decimal k) (
            after_last-append b'_' movie (b'_' ∷ decimal k) (decimal k)
              (rw (after_last-decimal_from (suc k) k [] refl, after_last) refl)),
        get_block_num,
      )
      (atoi-decimal k)

pub name_eq_comm : (a b : Name) → name_eq a b ≡ name_eq b a
name_eq_comm [] [] = refl
name_eq_comm [] (d ∷ ds) = refl
name_eq_comm (c ∷ cs) [] = refl
name_eq_comm (c ∷ cs) (d ∷ ds) = ground (arith, name_eq_comm cs ds)
