-- ===== src/Prelude/Lists.antt =====
-- Lists measured and indexed by native numbers, and the table scan that the C loops make.
use Prim.Native.Nat.{ℕ, zero, suc, ◌+◌, ◌<◌}
use mathlib.Core.Path.{◌≡◌, refl, ap}
use mathlib.Core.Logic.{◌≢◌, ◌↔◌}
use mathlib.Core.Bool.{Bool, true, false}
use mathlib.Core.List.{List, [], ◌∷◌, ◌++◌}
use mathlib.Core.Option
use mathlib.Core.Option.{Option, none, some}
use native.Mathlib.Omega.{arith}
use myyima.Prelude.Tests.{if◌then◌else◌, Option-cases}

module _ {ℓ} {A : Type ℓ} where
  abbrev pub length : List A → ℕ
  length [] = 0
  length (x ∷ xs) = suc (length xs)

  abbrev pub get_elem? : List A → ℕ → Option A
  get_elem? [] i = none
  get_elem? (x ∷ xs) zero = some x
  get_elem? (x ∷ xs) (suc i) = get_elem? xs i

  abbrev pub get_or : List A → ℕ → A → A
  get_or [] i d = d
  get_or (x ∷ xs) zero d = x
  get_or (x ∷ xs) (suc i) d = get_or xs i d

  -- A write out of bounds changes nothing.
  abbrev pub set : List A → ℕ → A → List A
  set [] i v = []
  set (x ∷ xs) zero v = v ∷ xs
  set (x ∷ xs) (suc i) v = x ∷ set xs i v

  abbrev pub take : ℕ → List A → List A
  take zero xs = []
  take (suc n) [] = []
  take (suc n) (x ∷ xs) = x ∷ take n xs

  abbrev pub drop : ℕ → List A → List A
  drop zero xs = xs
  drop (suc n) [] = []
  drop (suc n) (x ∷ xs) = drop n xs

  abbrev pub replicate : ℕ → A → List A
  replicate zero a = []
  replicate (suc n) a = a ∷ replicate n a

  -- The sum of the entries' weights.
  abbrev pub total : (A → ℕ) → List A → ℕ
  total w [] = 0
  total w (x ∷ xs) = w x + total w xs

  -- How many entries pass a test.
  abbrev pub count : (A → Bool) → List A → ℕ
  count p = total (λ x. if p x then 1 else 0)

  abbrev pub All {κ} : (A → Type κ) → List A → Type κ
  All P [] = Unit
  All P (x ∷ xs) = P x × All P xs

  -- The first index whose entry passes the test: `for (i = 0; i < n; i++) if (p(t[i])) return i`.
  abbrev pub find_index : (A → Bool) → List A → Option ℕ
  find_index p [] = none
  find_index p (x ∷ xs) = if p x then some 0 else Option.map suc (find_index p xs)

-- The first entry of a linked list that passes a test: found, rewritten, unlinked.
module _ {ℓ} {A : Type ℓ} where
  abbrev pub find_first : (A → Bool) → List A → Option A
  find_first p [] = none
  find_first p (x ∷ xs) = if p x then some x else find_first p xs

  abbrev pub replace_first : (A → Bool) → A → List A → List A
  replace_first p y [] = []
  replace_first p y (x ∷ xs) = if p x then y ∷ xs else x ∷ replace_first p y xs

  abbrev pub remove_first : (A → Bool) → List A → List A
  remove_first p [] = []
  remove_first p (x ∷ xs) = if p x then xs else x ∷ remove_first p xs

  pub find_first-some : (p : A → Bool) (x : A) (xs : List A) → find_first p xs ≡ some x → p x ≡ true
  find_first-some p x [] h = cc
  find_first-some p x (z ∷ xs) h = ground (arith, find_first-some p x xs)

  pub find_first-replace_first :
      (p : A → Bool) (y x : A) (xs : List A)
      → find_first p xs ≡ some x
      → p y ≡ true
      → find_first p (replace_first p y xs) ≡ some y
  find_first-replace_first p y x [] h e = cc
  find_first-replace_first p y x (z ∷ xs) h e = ground (arith, find_first-replace_first p y x xs, e)

  -- Another search is not affected, if it passes by both the old entry and the new one.
  pub find_first-replace_first_ne :
      (p q : A → Bool) (y x : A) (xs : List A)
      → find_first p xs ≡ some x
      → q x ≡ false
      → q y ≡ false
      → find_first q (replace_first p y xs) ≡ find_first q xs
  find_first-replace_first_ne p q y x [] h e k = cc
  find_first-replace_first_ne p q y x (z ∷ xs) h e k =
      ground (arith, e, k, find_first-replace_first_ne p q y x xs)

  pub remove_first-none :
      (p : A → Bool) (xs : List A) → find_first p xs ≡ none → remove_first p xs ≡ xs
  remove_first-none p [] h = refl
  remove_first-none p (z ∷ xs) h = ground (arith, remove_first-none p xs)

  pub total-replace_first :
      (w : A → ℕ) (p : A → Bool) (y x : A) (xs : List A)
      → find_first p xs ≡ some x
      → total w (replace_first p y xs) + w x ≡ total w xs + w y
  total-replace_first w p y x [] h = cc
  total-replace_first w p y x (z ∷ xs) h = ground (arith, total-replace_first w p y x xs)

  pub total-remove_first :
      (w : A → ℕ) (p : A → Bool) (x : A) (xs : List A)
      → find_first p xs ≡ some x
      → total w (remove_first p xs) + w x ≡ total w xs
  total-remove_first w p x [] h = cc
  total-remove_first w p x (z ∷ xs) h = ground (arith, total-remove_first w p x xs)

module _ {ℓ} {A : Type ℓ} where
  pub length-append : (xs ys : List A) → length (xs ++ ys) ≡ length xs + length ys
  length-append [] ys = omega arith
  length-append (x ∷ xs) ys = omega (arith, length-append xs ys)

  pub take-length : (n : ℕ) (xs : List A) → length xs < n → take n xs ≡ xs
  take-length zero xs h = elim h [ ]
  take-length (suc n) [] h = refl
  take-length (suc n) (x ∷ xs) h = ap (◌∷◌ x) (take-length n xs (omega arith))

  pub length-set : (xs : List A) (i : ℕ) (v : A) → length (set xs i v) ≡ length xs
  length-set [] i v = refl
  length-set (x ∷ xs) zero v = refl
  length-set (x ∷ xs) (suc i) v = ap suc (length-set xs i v)

  pub length-replicate : (n : ℕ) (a : A) → length (replicate n a) ≡ n
  length-replicate zero a = refl
  length-replicate (suc n) a = ap suc (length-replicate n a)

  pub get_elem?-set_self :
      (xs : List A) (i : ℕ) (v : A) → i < length xs → get_elem? (set xs i v) i ≡ some v
  get_elem?-set_self [] i v h = elim h [ ]
  get_elem?-set_self (x ∷ xs) zero v h = refl
  get_elem?-set_self (x ∷ xs) (suc i) v h = get_elem?-set_self xs i v (omega arith)

  pub get_elem?-set_ne :
      (xs : List A) (i j : ℕ) (v : A) → i ≢ j → get_elem? (set xs i v) j ≡ get_elem? xs j
  get_elem?-set_ne [] i j v h = refl
  get_elem?-set_ne (x ∷ xs) zero zero v h = absurd (h refl)
  get_elem?-set_ne (x ∷ xs) zero (suc j) v h = refl
  get_elem?-set_ne (x ∷ xs) (suc i) zero v h = refl
  get_elem?-set_ne (x ∷ xs) (suc i) (suc j) v h = get_elem?-set_ne xs i j v (λ e. h (ap suc e))

  pub get_or-set : (xs : List A) (i : ℕ) (v d : A) → i < length xs → get_or (set xs i v) i d ≡ v
  get_or-set [] i v d h = elim h [ ]
  get_or-set (x ∷ xs) zero v d h = refl
  get_or-set (x ∷ xs) (suc i) v d h = get_or-set xs i v d (omega arith)

  -- Writing an entry's old value back restores the table.
  pub set-set-get_or : (xs : List A) (i : ℕ) (v d : A) → set (set xs i v) i (get_or xs i d) ≡ xs
  set-set-get_or [] i v d = refl
  set-set-get_or (x ∷ xs) zero v d = refl
  set-set-get_or (x ∷ xs) (suc i) v d = ap (◌∷◌ x) (set-set-get_or xs i v d)

  pub total-append : (w : A → ℕ) (xs ys : List A) → total w (xs ++ ys) ≡ total w xs + total w ys
  total-append w [] ys = omega arith
  total-append w (x ∷ xs) ys = omega (arith, total-append w xs ys)

  pub total-set :
      (w : A → ℕ) (xs : List A) (i : ℕ) (v d : A)
      → i < length xs
      → total w (set xs i v) + w (get_or xs i d) ≡ total w xs + w v
  total-set w [] i v d h = elim h [ ]
  total-set w (x ∷ xs) zero v d h = omega arith
  total-set w (x ∷ xs) (suc i) v d h = omega (arith, total-set w xs i v d (omega arith))

  pub total-replicate : (w : A → ℕ) (n : ℕ) (x : A) → w x ≡ 0 → total w (replicate n x) ≡ 0
  total-replicate w zero x h = refl
  total-replicate w (suc n) x h = omega (arith, total-replicate w n x h)

  pub All-set {κ} :
      (P : A → Type κ) (xs : List A) (i : ℕ) (v : A) → P v → All P xs → All P (set xs i v)
  All-set P [] i v h k = k
  All-set P (x ∷ xs) zero v h k = (h, k.1)
  All-set P (x ∷ xs) (suc i) v h k = (k.0, All-set P xs i v h k.1)

  pub All-get_or {κ} :
      (P : A → Type κ) (xs : List A) (i : ℕ) (d : A) → i < length xs → All P xs → P (get_or xs i d)
  All-get_or P [] i d h k = elim h [ ]
  All-get_or P (x ∷ xs) zero d h k = k.0
  All-get_or P (x ∷ xs) (suc i) d h k = All-get_or P xs i d (omega arith) k.1

  pub All-replicate {κ} : (P : A → Type κ) (n : ℕ) (x : A) → P x → All P (replicate n x)
  All-replicate P zero x h = tt
  All-replicate P (suc n) x h = (h, All-replicate P n x h)

  -- A scan that stops at `i` found an entry that passes.
  pub find_index-some :
      (p : A → Bool) (xs : List A) (i : ℕ) (d : A)
      → find_index p xs ≡ some i
      → (i < length xs) × (p (get_or xs i d) ≡ true)
  find_index-some p [] i d h = cc
  find_index-some p (x ∷ xs) zero d h = ground (arith, Option-cases (find_index p xs))
  find_index-some p (x ∷ xs) (suc i) d h = ground (arith, find_index-some p xs i d)

  -- It runs to the end exactly when no entry passes.
  pub find_index-none : (p : A → Bool) (xs : List A) → find_index p xs ≡ none ↔ count p xs ≡ 0
  find_index-none p [] = (λ _. refl, λ _. refl)
  find_index-none p (x ∷ xs) =
      let ih = find_index-none p xs in (λ h. ground (arith, ih.0), λ h. ground (arith, ih.1))

  -- An entry that passes, written into a table where none does, is the one that a scan finds.
  pub find_index-set :
      (p : A → Bool) (xs : List A) (i : ℕ) (v : A)
      → count p xs ≡ 0
      → i < length xs
      → p v ≡ true
      → find_index p (set xs i v) ≡ some i
  find_index-set p [] i v c h e = elim h [ ]
  find_index-set p (x ∷ xs) zero v c h e = rw e
  find_index-set p (x ∷ xs) (suc i) v c h e = ground (arith, find_index-set p xs i v)
