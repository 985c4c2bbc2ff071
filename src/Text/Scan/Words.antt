-- ===== src/Text/Scan/Words.antt =====
-- Words and lines read back: what Text/Scan finds in a text that was put together from them.
use myyima.Prelude.{
  ℕ, suc, ◌+◌, ◌<◌, ◌≡◌, ◌≢◌, refl, ◌∙◌, ap, true, false, some, [], ◌∷◌, ◌++◌, arith, length, All,
  ◌==◌, ◌^◌, ltb, ◌*◌, ◌-◌,
}
use myyima.Messages.{Name}
use myyima.Flib.Names.{atoi_from, decimal, is_digit, atoi_from-decimal}
use myyima.Text.Numbers.{is_space, skip_space, IsDigit, decimal-AreDigits, decimal-IsCons}
use myyima.Text.Scan.{
  line_end, word, after_word, scan_word, scan_key, after_digits, scan_ull, skip_line, is_empty,
}

-- A text without spaces that is not empty.
pub record IsWord (w : Name) : Type 0 where
  pub some_byte : w ≢ []
  pub plain : All (λ c. is_space c ≡ false) w

-- A text on one line.
abbrev pub IsLine : Name → Type 0
IsLine = All (λ c. (c == 10) ≡ false)

pub plain-IsLine : (w : Name) → All (λ c. is_space c ≡ false) w → IsLine w
plain-IsLine [] h = tt
plain-IsLine (c ∷ cs) (h, hs) = (ground (arith, h), plain-IsLine cs hs)

pub skip_space-IsWord : (w t : Name) → IsWord w → skip_space (w ++ t) ≡ w ++ t
skip_space-IsWord [] t v = absurd (v.some_byte refl)
skip_space-IsWord (c ∷ cs) t v = rw v.plain.0 refl

pub is_empty-IsWord : (w t : Name) → IsWord w → is_empty (w ++ t) ≡ false
is_empty-IsWord [] t v = absurd (v.some_byte refl)
is_empty-IsWord (c ∷ cs) t v = refl

word-append :
    (w : Name) (c : ℕ) (t : Name)
    → All (λ c. is_space c ≡ false) w
    → is_space c ≡ true
    → word (w ++ c ∷ t) ≡ w
word-append [] c t h e = rw e refl
word-append (d ∷ ds) c t (h, hs) e = rw h (ap (◌∷◌ d) (word-append ds c t hs e))

after_word-append :
    (w : Name) (c : ℕ) (t : Name)
    → All (λ c. is_space c ≡ false) w
    → is_space c ≡ true
    → after_word (w ++ c ∷ t) ≡ c ∷ t
after_word-append [] c t h e = rw e refl
after_word-append (d ∷ ds) c t (h, hs) e = rw h (after_word-append ds c t hs e)

pub scan_word-IsWord :
    (w : Name) (c : ℕ) (t : Name)
    → IsWord w
    → is_space c ≡ true
    → scan_word (w ++ c ∷ t) ≡ some (w, c ∷ t)
scan_word-IsWord [] c t v e = absurd (v.some_byte refl)
scan_word-IsWord (d ∷ ds) c t v e =
    rw
      (
        scan_word,
        v.plain.0,
        word-append ds c t v.plain.1 e,
        after_word-append ds c t v.plain.1 e,
        v.plain.0,
      )
      refl

pub scan_key-IsWord :
    (w : Name) (c : ℕ) (t : Name)
    → IsWord w
    → is_space c ≡ true
    → scan_key (w ++ c ∷ t) ≡ some (w, line_end (c ∷ t))
unfolding scan_key
scan_key-IsWord w c t v e = rw (scan_key, scan_word-IsWord w c t v e) refl

-- A line that fits is read to its end.
pub skip_line-append :
    (s t : Name) (n k : ℕ) → IsLine s → n ≡ length s + k → skip_line n (s ++ t) ≡ skip_line k t
skip_line-append [] t n k h e = ap (λ m. skip_line m t) (e ∙ omega arith)
skip_line-append (c ∷ cs) t n k (h, hs) e =
    let more : n ≡ suc (length cs + k) = e ∙ omega arith in
    rw (more, h) (skip_line-append cs t (length cs + k) k hs refl)

-- Digits.
pub digits-plain : (s : Name) → All IsDigit s → All (λ c. is_space c ≡ false) s
digits-plain [] h = tt
digits-plain (c ∷ cs) (h, hs) = (ground (arith, h.above, h.below), digits-plain cs hs)

after_digits-append :
    (s : Name) (c : ℕ) (t : Name)
    → All IsDigit s
    → is_digit c ≡ false
    → after_digits (s ++ c ∷ t) ≡ c ∷ t
after_digits-append [] c t h e = rw e refl
after_digits-append (d ∷ ds) c t (h, hs) e =
    let yes : is_digit d ≡ true = ground (arith, h.above, h.below) in
    rw yes (after_digits-append ds c t hs e)

atoi_from-append :
    (s : Name) (a c : ℕ) (t : Name)
    → is_digit c ≡ false
    → All IsDigit s
    → atoi_from a (s ++ c ∷ t) ≡ atoi_from a s
unfolding atoi_from
atoi_from-append [] a c t e h = rw e refl
atoi_from-append (d ∷ ds) a c t e (h, hs) =
    let yes : is_digit d ≡ true = ground (arith, h.above, h.below) in
    rw yes (atoi_from-append ds (a * 10 + (d - b'0')) c t e hs)

pub decimal-IsWord : (n : ℕ) → IsWord (decimal n)
decimal-IsWord n = record {
  some_byte = decimal-IsCons n;
  plain = digits-plain (decimal n) (decimal-AreDigits n);
}

scan_ull-digits :
    (s : Name) (c : ℕ) (t : Name)
    → s ≢ []
    → All IsDigit s
    → is_digit c ≡ false
    → atoi_from 0 s < 2 ^ 64
    → scan_ull (b' ' ∷ (s ++ c ∷ t)) ≡ some (atoi_from 0 s, c ∷ t)
unfolding scan_ull atoi_from
scan_ull-digits [] c t ne h e small = absurd (ne refl)
scan_ull-digits (d ∷ ds) c t ne (h, hs) e small =
    let yes : is_digit d ≡ true = ground (arith, h.above, h.below) in
    let no_space : is_space d ≡ false = ground (arith, h.above, h.below) in
    let no_minus : (d == b'-') ≡ false = ground (arith, h.above) in
    let no_plus : (d == b'+') ≡ false = ground (arith, h.above) in
    let n = atoi_from (0 * 10 + (d - b'0')) ds in
    let small' : n < 2 ^ 64 = rw yes at small in
    let fits : ltb n (2 ^ 64) ≡ true = ground (arith, small') in
    rw
      (
        scan_ull,
        no_space,
        no_minus,
        no_plus,
        yes,
        atoi_from-append ds (0 * 10 + (d - b'0')) c t e hs,
        after_digits-append ds c t hs e,
        fits,
      )
      refl

-- A number behind a space, as `%d` prints it.
pub scan_ull-decimal :
    (n c : ℕ) (t : Name)
    → n < 2 ^ 64
    → is_digit c ≡ false
    → scan_ull (b' ' ∷ (decimal n ++ c ∷ t)) ≡ some (n, c ∷ t)
scan_ull-decimal n c t small e =
    scan_ull-digits (decimal n) c t (decimal-IsCons n) (decimal-AreDigits n) e
      (rw (atoi_from-decimal n) small)
    ∙ ap (λ k. some (k, c ∷ t)) (atoi_from-decimal n)
