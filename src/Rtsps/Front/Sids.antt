-- ===== src/Rtsps/Front/Sids.antt =====
-- ConvertSID of rtsps_front.c, on the texts that GenerateSID makes.
use native.Mathlib.Nat.{mul-le-mul_left}
use myyima.Prelude.{
  ℕ, zero, suc, ◌+◌, ◌-◌, ◌*◌, ◌%◌, ◌^◌, ◌≤◌, ◌<◌, ◌≡◌, ◌≢◌, refl, sym, ◌∙◌, [], ◌∷◌, arith, get_or,
  All, All-get_or, length, Bool-cases, inl, inr, subst, ◌==◌, ==_iff,
}
use myyima.Messages.{Name, na_sid}
use myyima.Rtsps.Front.{sid_len, digit, convert_loop, convert_sid}

-- A character from `0` to `9`.
pub record IsDigit (c : ℕ) : Type 0 where
  pub above : b'0' ≤ c
  pub below : c ≤ b'9'

-- The texts of GenerateSID: SID_LEN digits.
pub record IsSid (sid : Name) : Type 0 where
  pub size : length sid ≡ sid_len
  pub digits : All IsDigit sid

-- The number that the first `n` digits write in decimal.
pub value_of : Name → ℕ → ℕ
value_of sid zero = 0
value_of sid (suc n) = value_of sid n * 10 + (get_or sid n 0 - b'0')

ten_to : ℕ → ℕ
ten_to zero = 1
ten_to (suc n) = ten_to n * 10

ten_to-pos : (n : ℕ) → 1 ≤ ten_to n
unfolding ten_to
ten_to-pos zero = omega arith
ten_to-pos (suc n) = omega (arith, ten_to-pos n)

module _ (sid : Name) (v : IsSid sid) where
  digit_lem :
      (n : ℕ)
      → n < sid_len
      → (digit (get_or sid n 0) ≡ get_or sid n 0 - b'0') × (get_or sid n 0 - b'0' ≤ 9)
  digit_lem n h =
      let d = All-get_or IsDigit sid n 0 (omega (arith, v.size)) v.digits in
      (omega (arith, d.above, d.below), omega (arith, d.below))

  -- No round of the loop wraps around.
  convert_loop_lem :
      (n temp int_sid : ℕ)
      → n ≤ sid_len
      → temp * ten_to n ≡ 10 ^ sid_len
      → int_sid < temp
      → convert_loop sid n temp int_sid ≡ int_sid + temp * value_of sid n
  unfolding convert_loop value_of ten_to
  convert_loop_lem zero temp int_sid small e less = omega arith
  convert_loop_lem (suc n) temp int_sid small e less =
      let (same, nine) = digit_lem n small in
      let q : temp * 10 * ten_to n ≡ 10 ^ sid_len = omega (arith, e) in
      let r : temp * 10 ≤ 10 ^ sid_len =
        omega (arith, q, mul-le-mul_left (temp * 10) (ten_to-pos n)) in
      let d = get_or sid n 0 - b'0' in
      let p : temp * d ≤ temp * 9 = mul-le-mul_left temp nine in
      let next : (int_sid + temp * digit (get_or sid n 0)) % 2 ^ 64 ≡ int_sid + temp * d =
        rw same (omega (arith, p, r, less)) in
      let wide : temp * 10 % 2 ^ 64 ≡ temp * 10 = omega (arith, r) in
      rw (next, wide)
        (convert_loop_lem n (temp * 10) (int_sid + temp * d) (omega (arith, small)) q
            (omega (arith, p, less))
          ∙ omega arith)

  -- ConvertSID reads a text of digits as a decimal number, without overflow.
  pub convert_sid_lem : convert_sid sid ≡ value_of sid sid_len
  unfolding convert_sid ten_to
  convert_sid_lem = convert_loop_lem sid_len 1 0 (omega arith) refl (omega arith) ∙ omega arith

  value_of-lt : (n : ℕ) → n ≤ sid_len → value_of sid n < ten_to n
  unfolding value_of ten_to
  value_of-lt zero h = omega arith
  value_of-lt (suc n) h = omega (arith, value_of-lt n (omega (arith, h)), (digit_lem n h).1)

-- ConvertSID of a text of SID_LEN digits is below 10 to the 19th, and so is never the number that
-- stands for NA.
pub convert_sid-lt :
    (sid : Name) → IsSid sid → (convert_sid sid < 10 ^ 19) × (convert_sid sid ≢ na_sid)
unfolding ten_to
convert_sid-lt sid v =
    let l = value_of-lt sid v sid_len (omega arith) in
    (omega (arith, convert_sid_lem sid v, l), λ e. omega (arith, e, convert_sid_lem sid v, l))

-- Texts that write the same number agree on each digit.
digits_agree :
    (s t : Name) (n : ℕ)
    → IsSid s
    → IsSid t
    → n ≤ sid_len
    → value_of s n ≡ value_of t n
    → (i : ℕ) → i < n
    → get_or s i 0 ≡ get_or t i 0
unfolding value_of
digits_agree s t zero v w h e i less = absurd (omega (arith, less))
digits_agree s t (suc n) v w h e i less =
    let a = All-get_or IsDigit s n 0 (omega (arith, v.size)) v.digits in
    let b = All-get_or IsDigit t n 0 (omega (arith, w.size)) w.digits in
    elim (Bool-cases (i == n)) [
      | inl q ↦
          subst (λ i. get_or s i 0 ≡ get_or t i 0) (sym ((==_iff i n).0 q))
            (omega (arith, e, a.above, a.below, b.above, b.below))
      | inr q ↦
          digits_agree s t n v w (omega (arith, h))
            (omega (arith, e, a.above, a.below, b.above, b.below)) i (ground (arith, q, less))
    ]

-- Lists of one length that agree at each index are the same.
get_or-ext :
    (s t : Name)
    → length s ≡ length t
    → ((i : ℕ) → i < length s → get_or s i 0 ≡ get_or t i 0)
    → s ≡ t
get_or-ext [] [] h f = refl
get_or-ext [] (y ∷ t) h f = absurd (omega (arith, h))
get_or-ext (x ∷ s) [] h f = absurd (omega (arith, h))
get_or-ext (x ∷ s) (y ∷ t) h f =
    let same = get_or-ext s t (omega (arith, h)) (λ i less. f (suc i) (omega (arith, less))) in
    cc (f zero (omega arith), same)

-- ConvertSID keeps ids apart: two texts of SID_LEN digits with the same number are the same text.
pub convert_sid-injective : (s t : Name) → IsSid s → IsSid t → convert_sid s ≡ convert_sid t → s ≡ t
convert_sid-injective s t v w e = get_or-ext s t (v.size ∙ sym w.size) (λ i less.
    digits_agree s t sid_len v w (omega arith) (sym (convert_sid_lem s v) ∙ e ∙ convert_sid_lem t w)
      i (omega (arith, less, v.size)))
