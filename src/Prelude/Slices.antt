-- ===== src/Prelude/Slices.antt =====
-- `take` and `drop` of one another and of sums.
use Prim.Native.Nat.{ℕ, zero, suc, ◌+◌, ◌≤◌, min}
use mathlib.Core.Path.{◌≡◌, refl, sym, ap, ◌∙◌}
use mathlib.Core.List.{List, [], ◌∷◌, ◌++◌, reverse, reverse-cons}
use native.Mathlib.Omega.{arith}
use nlplatform.Prelude.Lists.{length, take, drop, length-append}

module _ {ℓ} {A : Type ℓ} where
  pub take-all : (n : ℕ) (xs : List A) → length xs ≤ n → take n xs ≡ xs
  take-all zero [] h = refl
  take-all zero (x ∷ xs) h = absurd (omega arith)
  take-all (suc n) [] h = refl
  take-all (suc n) (x ∷ xs) h = ap (◌∷◌ x) (take-all n xs (omega arith))

  pub take-take : (n m : ℕ) (xs : List A) → take n (take m xs) ≡ take (min n m) xs
  take-take zero m xs = ap (λ k. take k xs) (zero_min m)
    where
      zero_min : (m : ℕ) → 0 ≡ min 0 m
      zero_min m = omega arith
  take-take (suc n) zero xs = ap (λ k. take k xs) (min_zero n)
    where
      min_zero : (n : ℕ) → 0 ≡ min (suc n) 0
      min_zero n = omega arith
  take-take (suc n) (suc m) [] = sym (take-all (min (suc n) (suc m)) [] (omega arith))
  take-take (suc n) (suc m) (x ∷ xs) =
      ap (◌∷◌ x) (take-take n m xs) ∙ ap (λ k. take k (x ∷ xs)) (suc_min n m)
    where
      suc_min : (n m : ℕ) → suc (min n m) ≡ min (suc n) (suc m)
      suc_min n m = omega arith

  -- What is cut off behind does not show in front.
  pub take-append-take :
      (n m : ℕ) (xs ys : List A) → n ≤ length xs + m → take n (xs ++ take m ys) ≡ take n (xs ++ ys)
  take-append-take n m [] ys h = take-take n m ys ∙ ap (λ k. take k ys) (omega arith)
  take-append-take zero m (x ∷ xs) ys h = refl
  take-append-take (suc n) m (x ∷ xs) ys h = ap (◌∷◌ x) (take-append-take n m xs ys (omega arith))

  pub take-drop-take :
      (n m k : ℕ) (xs : List A) → m + n ≤ k → take n (drop m (take k xs)) ≡ take n (drop m xs)
  take-drop-take n zero k xs h = take-take n k xs ∙ ap (λ j. take j xs) (omega arith)
  take-drop-take n (suc m) zero xs h = absurd (omega arith)
  take-drop-take n (suc m) (suc k) [] h = refl
  take-drop-take n (suc m) (suc k) (x ∷ xs) h = take-drop-take n m k xs (omega arith)

  pub drop-append : (n : ℕ) (xs ys : List A) → drop (length xs + n) (xs ++ ys) ≡ drop n ys
  drop-append n [] ys = ap (λ k. drop k ys) (omega arith)
  drop-append n (x ∷ xs) ys =
      ap (λ k. drop k (x ∷ xs ++ ys)) (carry (length xs) n) ∙ drop-append n xs ys
    where
      carry : (k n : ℕ) → suc k + n ≡ suc (k + n)
      carry k n = omega arith

  pub length-reverse : (xs : List A) → length (reverse xs) ≡ length xs
  length-reverse [] = refl
  length-reverse (x ∷ xs) =
      omega (
        arith,
        ap length (reverse-cons x xs),
        length-append (reverse xs) (x ∷ []),
        length-reverse xs,
      )

  drop_nil : (n : ℕ) → drop {A = A} n [] ≡ []
  drop_nil zero = refl
  drop_nil (suc n) = refl

  take_nil : (n : ℕ) → take {A = A} n [] ≡ []
  take_nil zero = refl
  take_nil (suc n) = refl

  pub drop-drop : (m n : ℕ) (xs : List A) → drop m (drop n xs) ≡ drop (n + m) xs
  drop-drop m zero xs = ap (λ k. drop k xs) (zero_add m)
    where
      zero_add : (m : ℕ) → m ≡ 0 + m
      zero_add m = omega arith
  drop-drop m (suc n) [] = drop_nil m ∙ sym (drop_nil (suc n + m))
  drop-drop m (suc n) (x ∷ xs) = drop-drop m n xs ∙ ap (λ k. drop k (x ∷ xs)) (suc_add n m)
    where
      suc_add : (n m : ℕ) → suc (n + m) ≡ suc n + m
      suc_add n m = omega arith

  pub take_add : (m n : ℕ) (xs : List A) → take (m + n) xs ≡ take m xs ++ take n (drop m xs)
  take_add zero n xs = ap (λ k. take k xs) (zero_add n)
    where
      zero_add : (n : ℕ) → 0 + n ≡ n
      zero_add n = omega arith
  take_add (suc m) n [] = take_nil (suc m + n) ∙ sym (take_nil n)
  take_add (suc m) n (x ∷ xs) =
      ap (λ k. take k (x ∷ xs)) (suc_add m n) ∙ ap (◌∷◌ x) (take_add m n xs)
    where
      suc_add : (m n : ℕ) → suc m + n ≡ suc (m + n)
      suc_add m n = omega arith
