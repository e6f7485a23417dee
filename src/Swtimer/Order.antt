-- ===== src/Swtimer/Order.antt =====
-- The place that src/nlswtimer.c gives a timer in a chain: behind those with an earlier or the same
-- delay, so that timers of one delay run in the order of their starts.
use mathlib.Core.List.{filter}
use native.Mathlib.Decide.{dec_le, dec_lt}
use nlplatform.Prelude.{
  ℕ, ◌≤◌, ◌<◌, ◌≡◌, refl, inl, inr, List, [], ◌∷◌, ◌++◌, arith, ltb, ltb→lt, Bool-cases, All,
  All-map,
}
use nlplatform.Swtimer.{insert_sorted}
use nlplatform.Swtimer.Lists.{Sorted}

none_kept :
    (f : ℕ → ℕ) (k : ℕ) (xs : List ℕ)
    → All (λ y. k < f y) xs
    → (filter (λ y. dec_le (f y) k) xs ≡ []) × (filter (λ y. dec_lt k (f y)) xs ≡ xs)
none_kept f k [] h = (refl, refl)
none_kept f k (x ∷ xs) h = ground (arith, none_kept f k xs h.1)

-- In a sorted chain, `insert_sorted` puts the timer between those that are due no later, in their
-- order, and those that are due later, in theirs.
insert_sorted-eq :
    (f : ℕ → ℕ) (t : ℕ) (xs : List ℕ)
    → Sorted f xs
    → insert_sorted f t xs
      ≡ filter (λ y. dec_le (f y) (f t)) xs ++ t ∷ filter (λ y. dec_lt (f t) (f y)) xs
unfolding insert_sorted
insert_sorted-eq f t [] s = refl
insert_sorted-eq f t (x ∷ xs) s = elim (Bool-cases (ltb (f t) (f x))) [
  | inl e ↦
      let later : All (λ y. f t < f y) (x ∷ xs) = (ltb→lt _ _ e, above xs s.0 (ltb→lt _ _ e)) in
      ground (arith, none_kept f (f t) (x ∷ xs) later)
  | inr e ↦ ground (arith, insert_sorted-eq f t xs s.1)
]
  where
    above : (ys : List ℕ) → All (λ y. f x ≤ f y) ys → f t < f x → All (λ y. f t < f y) ys
    above ys h lt = All-map (λ y. f x ≤ f y) (λ y. f t < f y) (λ y le. omega arith) ys h
