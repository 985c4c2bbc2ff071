-- ===== src/Text/Scan/Lengths.antt =====
-- What is left of a text after a piece of it has been read (Text/Scan) is shorter.
use myyima.Prelude.{
  ℕ, zero, suc, ◌<◌, ◌≤◌, ◌≡◌, ◌≢◌, ap, Bool, true, false, none, some, [], ◌∷◌, arith, length,
  Bool-cases, Option-cases, inl, inr, leb, ◌^◌, ◌==◌,
}
use myyima.Prelude.Int.{ℤ}
use myyima.Outcome.{ok, ok-injective, choice-eq-ok}
use myyima.Messages.{Name}
use myyima.Flib.Names.{is_digit}
use myyima.Text.Numbers.{is_space, skip_space}
use myyima.Text.Scan.{
  Stream, line_end, word, after_word, scan_word, scan_key, after_digits, scan_digits, with_sign,
  sign_and_digits, scan_int, scan_ull, skip_line,
}

pub length-skip_space : (s : Name) → length (skip_space s) ≤ length s
length-skip_space [] = omega arith
length-skip_space (c ∷ cs) = elim (Bool-cases (is_space c)) [
  | inl e ↦ rw e (omega (arith, length-skip_space cs))
  | inr e ↦ rw e (omega arith)
]

pub length-after_word : (s : Name) → length (after_word s) ≤ length s
length-after_word [] = omega arith
length-after_word (c ∷ cs) = elim (Bool-cases (is_space c)) [
  | inl e ↦ rw e (omega arith)
  | inr e ↦ rw e (omega (arith, length-after_word cs))
]

pub length-after_digits : (s : Name) → length (after_digits s) ≤ length s
length-after_digits [] = omega arith
length-after_digits (c ∷ cs) = elim (Bool-cases (is_digit c)) [
  | inl e ↦ rw e (omega (arith, length-after_digits cs))
  | inr e ↦ rw e (omega arith)
]

pub length-skip_line : (n : ℕ) (s : Name) → length (skip_line n s).rest ≤ length s
length-skip_line zero s = omega arith
length-skip_line (suc n) [] = omega arith
length-skip_line (suc n) (c ∷ cs) = elim (Bool-cases (c == 10)) [
  | inl e ↦ rw e (omega arith)
  | inr e ↦ rw e (omega (arith, length-skip_line n cs))
]

pub none≢some {ℓ} : {A : Type ℓ} {a : A} → none ≢ some a
none≢some h = cc

pub some-injective {ℓ} : {A : Type ℓ} {a b : A} → some a ≡ some b → a ≡ b
some-injective {a} h = ap (λ o. elim o [ none ↦ a | some x ↦ x ]) h

pub scan_word-less : (s w r : Name) → scan_word s ≡ some (w, r) → length r < length s
scan_word-less [] w r h = cc
scan_word-less (c ∷ cs) w r h = elim (Bool-cases (is_space c)) [
  | inl e ↦ omega (arith, scan_word-less cs w r (rw (scan_word, e) at h))
  | inr e ↦
      let left : after_word (c ∷ cs) ≡ r =
        ap (λ x. x.1) (some-injective (rw (scan_word, e) at h)) in
      rw (← left) (rw e (omega (arith, length-after_word cs)))
]

pub scan_key-less :
    (s w : Name) (s' : Stream) → scan_key s ≡ some (w, s') → length s'.rest < length s
unfolding scan_key
scan_key-less s w s' h = elim (Option-cases (scan_word s)) [
  | inl e ↦ absurd (none≢some (rw (scan_key, e) at h))
  | inr ((word, r), e) ↦
      let left : line_end r ≡ s' = ap (λ x. x.1) (some-injective (rw (scan_key, e) at h)) in
      rw (← left) (omega (arith, scan_word-less s word r e, length-skip_space r))
]

pub scan_digits-less :
    (s : Name) (n : ℕ) (r : Name) → scan_digits s ≡ some (n, r) → length r < length s
scan_digits-less [] n r h = cc
scan_digits-less (c ∷ cs) n r h = elim (Bool-cases (is_digit c)) [
  | inl e ↦
      let left : after_digits cs ≡ r = ap (λ x. x.1) (some-injective (rw e at h)) in
      rw (← left) (omega (arith, length-after_digits cs))
  | inr e ↦ absurd (none≢some (rw e at h))
]

with_sign-less :
    (minus b : Bool) (s : Name) (n : ℕ) (r : Name)
    → with_sign minus (scan_digits s) ≡ some (b, n, r)
    → length r < length s
with_sign-less minus b s n r h = elim (Option-cases (scan_digits s)) [
  | inl e ↦ absurd (none≢some (rw e at h))
  | inr ((k, q), e) ↦
      let left : q ≡ r = ap (λ x. x.2) (some-injective (rw e at h)) in
      rw (← left) (scan_digits-less s k q e)
]

pub sign_and_digits-less :
    (s : Name) (b : Bool) (n : ℕ) (r : Name)
    → sign_and_digits s ≡ some (b, n, r)
    → length r < length s
sign_and_digits-less [] b n r h = cc
sign_and_digits-less (c ∷ cs) b n r h = elim (Bool-cases (c == b'-')) [
  | inl e ↦ omega (arith, with_sign-less true b cs n r (rw e at h))
  | inr e ↦ elim (Bool-cases (c == b'+')) [
    | inl p ↦ omega (arith, with_sign-less false b cs n r (rw (e, p) at h))
    | inr p ↦ with_sign-less false b (c ∷ cs) n r (rw (e, p) at h)
  ]
]

pub scan_int-less :
    (s : Name) (k : ℤ) (r : Name) → scan_int s ≡ ok (some (k, r)) → length r < length s
unfolding scan_int
scan_int-less s k r h = elim (Option-cases (sign_and_digits (skip_space s))) [
  | inl e ↦ absurd (none≢some (ok-injective (rw (scan_int, e) at h)))
  | inr ((minus, n, q), e) ↦ elim (choice-eq-ok (leb (2 ^ 31) n) _ _ (rw (scan_int, e) at h)) [
    | inl (_, k) ↦ cc
    | inr (_, k) ↦
        let left : q ≡ r = ap (λ x. x.1) (some-injective (ok-injective k)) in
        rw (← left)
          (omega (arith, sign_and_digits-less (skip_space s) minus n q e, length-skip_space s))
  ]
]

pub scan_ull-less : (s : Name) (k : ℕ) (r : Name) → scan_ull s ≡ some (k, r) → length r < length s
unfolding scan_ull
scan_ull-less s k r h = elim (Option-cases (sign_and_digits (skip_space s))) [
  | inl e ↦ absurd (none≢some (rw (scan_ull, e) at h))
  | inr ((minus, n, q), e) ↦
      let left : q ≡ r = ap (λ x. x.1) (some-injective (rw (scan_ull, e) at h)) in
      rw (← left)
        (omega (arith, sign_and_digits-less (skip_space s) minus n q e, length-skip_space s))
]
