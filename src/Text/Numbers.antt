-- ===== src/Text/Numbers.antt =====
-- Numbers in texts: atoi with its spaces and its sign, `%d`, and that what is printed is read back.
use myyima.Prelude.{
  ℕ, zero, suc, ◌+◌, ◌/◌, ◌%◌, ◌<◌, ◌≤◌, ◌^◌, ◌≡◌, refl, ◌∙◌, Bool, true, false, ◌&&◌, ◌||◌, [],
  ◌∷◌, ◌++◌, arith, ltb, leb, ◌==◌, if◌then◌else◌, Bool-cases, inl, inr, ap, ◌≢◌, All, length,
}
use myyima.Prelude.Int.{ℤ, pos, negsuc, ◌-ℤ◌}
use myyima.Outcome.{Outcome, ok, aborted, undefined}
use myyima.Messages.{Name}
use mathlib.Core.Option.{some}
use myyima.Text.{strtok, until, beyond, has}
use myyima.Flib.Names.{atoi_from, decimal, decimal_from, atoi_from-decimal}

-- isspace
abbrev pub is_space : ℕ → Bool
is_space c = c == b' ' || leb 9 c && leb c 13

-- An int holds the value; otherwise atoi is undefined.
abbrev positive : ℕ → Outcome ℤ
positive n = if ltb n (2 ^ 31) then ok (pos n) else undefined

abbrev negative : ℕ → Outcome ℤ
negative n = if leb n (2 ^ 31) then ok (pos 0 -ℤ pos n) else undefined

abbrev signed : Name → Outcome ℤ
signed [] = ok (pos 0)
signed (c ∷ cs) =
    if c == b'-'
    then negative (atoi_from 0 cs)
    else if c == b'+'
    then positive (atoi_from 0 cs)
    else positive (atoi_from 0 (c ∷ cs))

abbrev pub skip_space : Name → Name
skip_space [] = []
skip_space (c ∷ cs) = if is_space c then skip_space cs else c ∷ cs

-- atoi of any text.
unfoldable pub atoi_int : Name → Outcome ℤ
unfolding atoi_from ◌-ℤ◌
atoi_int s = signed (skip_space s)

-- `%d`
abbrev pub show_int : ℤ → Name
show_int (pos n) = decimal n
show_int (negsuc n) = b'-' ∷ decimal (suc n)

-- A 32-bit word that is printed by `%d`.
abbrev pub int_of_word : ℕ → ℤ
int_of_word n = if ltb n (2 ^ 31) then pos n else pos n -ℤ pos (2 ^ 32)

-- atoi does not end the process.
positive≢aborted : (n : ℕ) → positive n ≢ aborted
positive≢aborted n h = ground arith

negative≢aborted : (n : ℕ) → negative n ≢ aborted
negative≢aborted n h = ground arith

signed≢aborted : (s : Name) → signed s ≢ aborted
signed≢aborted [] h = cc
signed≢aborted (c ∷ cs) h = elim (Bool-cases (c == b'-')) [
  | inl e ↦ negative≢aborted (atoi_from 0 cs) (rw e at h)
  | inr e ↦ elim (Bool-cases (c == b'+')) [
    | inl p ↦ positive≢aborted (atoi_from 0 cs) (rw (e, p) at h)
    | inr p ↦ positive≢aborted (atoi_from 0 (c ∷ cs)) (rw (e, p) at h)
  ]
]

pub atoi_int≢aborted : (s : Name) → atoi_int s ≢ aborted
unfolding atoi_int
atoi_int≢aborted s = signed≢aborted (skip_space s)

-- The digits that `%d` prints.
pub record IsDigit (c : ℕ) : Type 0 where
  pub above : b'0' ≤ c
  pub below : c ≤ b'9'

decimal_from-AreDigits :
    (f n : ℕ) (rest : Name) → All IsDigit rest → All IsDigit (decimal_from f n rest)
unfolding decimal_from
decimal_from-AreDigits zero n rest h = h
decimal_from-AreDigits (suc f) n rest h = elim (Bool-cases (ltb n 10)) [
  | inl c ↦ rw c (record { above = omega arith; below = ground arith }, h)
  | inr c ↦ rw c (
      decimal_from-AreDigits f (n / 10) ((b'0' + n % 10) ∷ rest)
        (record { above = omega arith; below = omega arith }, h))
]

pub decimal-AreDigits : (n : ℕ) → All IsDigit (decimal n)
unfolding decimal
decimal-AreDigits n = decimal_from-AreDigits (suc n) n [] tt

length-decimal_from :
    (f n k : ℕ) (rest : Name)
    → n < 10 ^ suc k
    → length (decimal_from f n rest) ≤ suc k + length rest
unfolding decimal_from
length-decimal_from zero n k rest h = omega arith
length-decimal_from (suc f) n zero rest h = elim (Bool-cases (ltb n 10)) [
  | inl c ↦ rw c (omega arith)
  | inr c ↦ ground arith
]
length-decimal_from (suc f) n (suc k) rest h = elim (Bool-cases (ltb n 10)) [
  | inl c ↦ rw c (omega arith)
  | inr c ↦
      rw c (omega (arith, length-decimal_from f (n / 10) k ((b'0' + n % 10) ∷ rest) (omega arith)))
]

pub length-decimal : (n k : ℕ) → n < 10 ^ suc k → length (decimal n) ≤ suc k
unfolding decimal
length-decimal n k h = omega (arith, length-decimal_from (suc n) n k [] h)

atoi_int-AreDigits : (s : Name) → All IsDigit s → atoi_int s ≡ positive (atoi_from 0 s)
unfolding atoi_int
atoi_int-AreDigits [] h = refl
atoi_int-AreDigits (c ∷ cs) (h, hs) =
    let plain : is_space c ≡ false = ground (arith, h.above, h.below) in
    let no_minus : (c == b'-') ≡ false = ground (arith, h.above) in
    let no_plus : (c == b'+') ≡ false = ground (arith, h.above) in
    rw (plain, no_minus, no_plus) refl

-- What `%d` prints, with a space in front or not, atoi reads back.
pub atoi_int-decimal : (n : ℕ) → n < 2 ^ 31 → atoi_int (decimal n) ≡ ok (pos n)
atoi_int-decimal n h =
    atoi_int-AreDigits (decimal n) (decimal-AreDigits n) ∙ rw (atoi_from-decimal n) (ground arith)

pub atoi_int-space : (s : Name) → atoi_int (b' ' ∷ s) ≡ atoi_int s
unfolding atoi_int
atoi_int-space s = refl

pub until-AreDigits :
    (ds : Name) (s : Name) (c : ℕ) (rest : Name)
    → All IsDigit s
    → ((d : ℕ) → IsDigit d → has ds d ≡ false)
    → has ds c ≡ true
    → until ds (s ++ c ∷ rest) ≡ s
until-AreDigits ds [] c rest h k e = rw e refl
until-AreDigits ds (d ∷ s) c rest (h, hs) k e =
    rw (k d h) (ap (◌∷◌ d) (until-AreDigits ds s c rest hs k e))

pub beyond-AreDigits :
    (ds : Name) (s : Name) (c : ℕ) (rest : Name)
    → All IsDigit s
    → ((d : ℕ) → IsDigit d → has ds d ≡ false)
    → has ds c ≡ true
    → beyond ds (s ++ c ∷ rest) ≡ rest
beyond-AreDigits ds [] c rest h k e = rw e refl
beyond-AreDigits ds (d ∷ s) c rest (h, hs) k e = rw (k d h) (beyond-AreDigits ds s c rest hs k e)

module _ (ds : Name) (plain : (d : ℕ) → IsDigit d → has ds d ≡ false) where
  pub until-append : (s t : Name) → All IsDigit s → until ds (s ++ t) ≡ s ++ until ds t
  until-append [] t h = refl
  until-append (d ∷ s) t (h, hs) = rw (plain d h) (ap (◌∷◌ d) (until-append s t hs))

  until_end : (s : Name) → All IsDigit s → until ds s ≡ s
  until_end [] h = refl
  until_end (d ∷ s) (h, hs) = rw (plain d h) (ap (◌∷◌ d) (until_end s hs))

  beyond_end : (s : Name) → All IsDigit s → beyond ds s ≡ []
  beyond_end [] h = refl
  beyond_end (d ∷ s) (h, hs) = rw (plain d h) (beyond_end s hs)

  -- strtok on a number, with a delimiter behind it or at the end.
  pub strtok-delimited :
      (s : Name) (c : ℕ) (rest : Name)
      → s ≢ []
      → All IsDigit s
      → has ds c ≡ true
      → strtok ds (s ++ c ∷ rest) ≡ some (s, rest)
  strtok-delimited [] c rest ne h e = absurd (ne refl)
  strtok-delimited (d ∷ s) c rest ne (h, hs) e = rw (plain d h) (
      rw
        (until-AreDigits ds s c rest hs plain e, beyond-AreDigits ds s c rest hs plain e, plain d h)
        refl)

  pub strtok_end : (s : Name) → s ≢ [] → All IsDigit s → strtok ds s ≡ some (s, [])
  strtok_end [] ne h = absurd (ne refl)
  strtok_end (d ∷ s) ne (h, hs) =
      rw (plain d h) (rw (until_end s hs, beyond_end s hs, plain d h) refl)

cons≢nil : {c : ℕ} {cs : Name} → c ∷ cs ≢ []
cons≢nil h = cc

decimal_from-IsCons : (f n c : ℕ) (rest : Name) → decimal_from f n (c ∷ rest) ≢ []
unfolding decimal_from
decimal_from-IsCons zero n c rest h = cc
decimal_from-IsCons (suc f) n c rest h = elim (Bool-cases (ltb n 10)) [
  | inl e ↦ absurd (cons≢nil (rw e at h))
  | inr e ↦ decimal_from-IsCons f (n / 10) (b'0' + n % 10) (c ∷ rest) (rw e at h)
]

pub decimal-IsCons : (n : ℕ) → decimal n ≢ []
unfolding decimal decimal_from
decimal-IsCons n h = elim (Bool-cases (ltb n 10)) [
  | inl e ↦ absurd (cons≢nil (rw e at h))
  | inr e ↦ decimal_from-IsCons n (n / 10) (b'0' + n % 10) [] (rw e at h)
]
