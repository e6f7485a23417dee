-- ===== src/Swtimer/Lists.antt =====
-- The walks over a chain of timers in src/nlswtimer.c: order, membership, and what each walk keeps.
use nlplatform.Prelude.{
  ℕ, ◌+◌, ◌≤◌, ◌<◌, ◌≡◌, refl, subst, inl, inr, true, false, List, [], ◌∷◌, ◌++◌, arith, ltb, ◌==◌,
  if◌then◌else◌, ==_iff, ltb→lt, ltb_false→le, Bool-cases, All, All-append, length, update,
}
use nlplatform.Swtimer.{timer_in_list, insert_sorted, remove_from_list, cut_after, zero_delays}

-- In the order of their delays.
abbrev pub Sorted : (ℕ → ℕ) → List ℕ → Type 0
Sorted f [] = Unit
Sorted f (x ∷ xs) = All (λ y. f x ≤ f y) xs × Sorted f xs

-- No timer stands twice in the chain.
abbrev pub Distinct : List ℕ → Type 0
Distinct [] = Unit
Distinct (x ∷ xs) = (timer_in_list x xs ≡ false) × Distinct xs

-- Not in the chain.
abbrev pub Outside : List ℕ → ℕ → Type 0
Outside xs t = timer_in_list t xs ≡ false

module _ (P : ℕ → Type 0) where
  pub All-get : (t : ℕ) (xs : List ℕ) → All P xs → timer_in_list t xs ≡ true → P t
  unfolding timer_in_list
  All-get t [] h m = cc
  All-get t (x ∷ xs) h m = elim (Bool-cases (x == t)) [
    | inl e ↦ subst P ((==_iff x t).0 e) h.0
    | inr e ↦ All-get t xs h.1 (rw e at m)
  ]

  pub All-insert : (f : ℕ → ℕ) (t : ℕ) (xs : List ℕ) → P t → All P xs → All P (insert_sorted f t xs)
  unfolding insert_sorted
  All-insert f t [] p h = (p, tt)
  All-insert f t (x ∷ xs) p h = elim (Bool-cases (ltb (f t) (f x))) [
    | inl e ↦ rw e (p, h)
    | inr e ↦ rw e (h.0, All-insert f t xs p h.1)
  ]

  pub All-remove : (t : ℕ) (xs : List ℕ) → All P xs → All P (remove_from_list t xs).1
  unfolding remove_from_list
  All-remove t [] h = tt
  All-remove t (x ∷ xs) h = elim (Bool-cases (x == t)) [
    | inl e ↦ rw e h.1
    | inr e ↦ rw e (h.0, All-remove t xs h.1)
  ]

  pub All-cut : (t : ℕ) (xs : List ℕ) → All P xs → All P (cut_after t xs)
  unfolding cut_after
  All-cut t [] h = tt
  All-cut t (x ∷ xs) h = elim (Bool-cases (x == t)) [
    | inl e ↦ rw e (h.0, tt)
    | inr e ↦ rw e (h.0, All-cut t xs h.1)
  ]

-- Membership after each walk.
pub in_list-insert :
    (f : ℕ → ℕ) (t q : ℕ) (xs : List ℕ)
    → timer_in_list q (insert_sorted f t xs) ≡ (if t == q then true else timer_in_list q xs)
unfolding timer_in_list insert_sorted
in_list-insert f t q [] = refl
in_list-insert f t q (x ∷ xs) = ground (arith, in_list-insert f t q xs)

pub length-insert :
    (f : ℕ → ℕ) (t : ℕ) (xs : List ℕ) → length (insert_sorted f t xs) ≡ length xs + 1
unfolding insert_sorted
length-insert f t [] = omega arith
length-insert f t (x ∷ xs) = ground (arith, length-insert f t xs)

pub remove-found : (t : ℕ) (xs : List ℕ) → (remove_from_list t xs).0 ≡ timer_in_list t xs
unfolding timer_in_list remove_from_list
remove-found t [] = refl
remove-found t (x ∷ xs) = ground (arith, remove-found t xs)

pub in_list-remove :
    (t q : ℕ) (xs : List ℕ)
    → Distinct xs
    → timer_in_list q (remove_from_list t xs).1 ≡ (if t == q then false else timer_in_list q xs)
unfolding timer_in_list remove_from_list
in_list-remove t q [] d = ground arith
in_list-remove t q (x ∷ xs) d = ground (arith, in_list-remove t q xs d.1)

pub remove-absent :
    (t : ℕ) (xs : List ℕ) → timer_in_list t xs ≡ false → (remove_from_list t xs).1 ≡ xs
unfolding timer_in_list remove_from_list
remove-absent t [] h = refl
remove-absent t (x ∷ xs) h = ground (arith, remove-absent t xs)

pub Outside-remove : (t q : ℕ) (xs : List ℕ) → Outside xs q → Outside (remove_from_list t xs).1 q
unfolding timer_in_list remove_from_list
Outside-remove t q [] h = refl
Outside-remove t q (x ∷ xs) h = ground (arith, Outside-remove t q xs)

pub Outside-cut : (t q : ℕ) (xs : List ℕ) → Outside xs q → Outside (cut_after t xs) q
unfolding timer_in_list cut_after
Outside-cut t q [] h = refl
Outside-cut t q (x ∷ xs) h = ground (arith, Outside-cut t q xs)

-- What the order and the distinctness need.
pub insert-Sorted :
    (f : ℕ → ℕ) (t : ℕ) (xs : List ℕ) → Sorted f xs → Sorted f (insert_sorted f t xs)
unfolding insert_sorted
insert-Sorted f t [] h = (tt, tt)
insert-Sorted f t (x ∷ xs) h = elim (Bool-cases (ltb (f t) (f x))) [
  | inl e ↦ rw e ((omega (arith, ltb→lt _ _ e), above xs h.0 (ltb→lt _ _ e)), h)
  | inr e ↦
      rw e (All-insert (λ y. f x ≤ f y) f t xs (ltb_false→le _ _ e) h.0, insert-Sorted f t xs h.1)
]
  where
    above : (ys : List ℕ) → All (λ y. f x ≤ f y) ys → f t < f x → All (λ y. f t ≤ f y) ys
    above [] a lt = tt
    above (y ∷ ys) a lt = (omega arith, above ys a.1 lt)

pub remove-Sorted :
    (f : ℕ → ℕ) (t : ℕ) (xs : List ℕ) → Sorted f xs → Sorted f (remove_from_list t xs).1
unfolding remove_from_list
remove-Sorted f t [] h = tt
remove-Sorted f t (x ∷ xs) h = elim (Bool-cases (x == t)) [
  | inl e ↦ rw e h.1
  | inr e ↦ rw e (All-remove (λ y. f x ≤ f y) t xs h.0, remove-Sorted f t xs h.1)
]

pub cut-Sorted : (f : ℕ → ℕ) (t : ℕ) (xs : List ℕ) → Sorted f xs → Sorted f (cut_after t xs)
unfolding cut_after
cut-Sorted f t [] h = tt
cut-Sorted f t (x ∷ xs) h = elim (Bool-cases (x == t)) [
  | inl e ↦ rw e (tt, tt)
  | inr e ↦ rw e (All-cut (λ y. f x ≤ f y) t xs h.0, cut-Sorted f t xs h.1)
]

pub insert-Distinct :
    (f : ℕ → ℕ) (t : ℕ) (xs : List ℕ) → Outside xs t → Distinct xs → Distinct (insert_sorted f t xs)
unfolding insert_sorted timer_in_list
insert-Distinct f t [] h d = (refl, tt)
insert-Distinct f t (x ∷ xs) h d = ground (arith, insert-Distinct f t xs, in_list-insert f t x xs)

pub remove-Distinct : (t : ℕ) (xs : List ℕ) → Distinct xs → Distinct (remove_from_list t xs).1
unfolding remove_from_list
remove-Distinct t [] d = tt
remove-Distinct t (x ∷ xs) d = elim (Bool-cases (x == t)) [
  | inl e ↦ rw e d.1
  | inr e ↦ rw e (Outside-remove t x xs d.0, remove-Distinct t xs d.1)
]

pub cut-Distinct : (t : ℕ) (xs : List ℕ) → Distinct xs → Distinct (cut_after t xs)
unfolding cut_after timer_in_list
cut-Distinct t [] d = tt
cut-Distinct t (x ∷ xs) d = elim (Bool-cases (x == t)) [
  | inl e ↦ rw e (refl, tt)
  | inr e ↦ rw e (Outside-cut t x xs d.0, cut-Distinct t xs d.1)
]

-- A chain does not see what is stored elsewhere.
pub All-congr :
    (P : ℕ → Type 0) (f g : ℕ → ℕ) (xs : List ℕ)
    → All (λ y. f y ≡ g y) xs
    → All (λ y. P (f y)) xs
    → All (λ y. P (g y)) xs
All-congr P f g [] e h = tt
All-congr P f g (x ∷ xs) e h = (subst P e.0 h.0, All-congr P f g xs e.1 h.1)

pub Sorted-congr : (f g : ℕ → ℕ) (xs : List ℕ) → All (λ y. f y ≡ g y) xs → Sorted f xs → Sorted g xs
Sorted-congr f g [] e h = tt
Sorted-congr f g (x ∷ xs) e h =
    (rw (← e.0) (All-congr (λ n. f x ≤ n) f g xs e.1 h.0), Sorted-congr f g xs e.1 h.1)

pub update-Outside :
    (f : ℕ → ℕ) (t v : ℕ) (xs : List ℕ) → Outside xs t → All (λ y. f y ≡ update f t v y) xs
unfolding timer_in_list
update-Outside f t v [] h = tt
update-Outside f t v (x ∷ xs) h = (ground arith, update-Outside f t v xs (ground arith))

-- At the wrap the delays of the chain are zero, and those of the others are kept.
pub zero_delays-eq :
    (xs : List ℕ) (f : ℕ → ℕ) (q : ℕ) → zero_delays xs f q ≡ (if timer_in_list q xs then 0 else f q)
unfolding zero_delays timer_in_list
zero_delays-eq [] f q = refl
zero_delays-eq (x ∷ xs) f q = ground (arith, zero_delays-eq xs (update f x 0) q)

pub in_list-append :
    (q : ℕ) (xs ys : List ℕ)
    → timer_in_list q (xs ++ ys) ≡ (if timer_in_list q xs then true else timer_in_list q ys)
unfolding timer_in_list
in_list-append q [] ys = refl
in_list-append q (x ∷ xs) ys = ground (arith, in_list-append q xs ys)

pub Distinct-append :
    (xs ys : List ℕ) → Distinct xs → Distinct ys → All (Outside ys) xs → Distinct (xs ++ ys)
unfolding timer_in_list
Distinct-append [] ys d e o = e
Distinct-append (x ∷ xs) ys d e o =
    (rw (in_list-append x xs ys, d.0) o.0, Distinct-append xs ys d.1 e o.1)

pub Sorted-append :
    (f : ℕ → ℕ) (xs ys : List ℕ)
    → Sorted f xs
    → Sorted f ys
    → All (λ x. All (λ y. f x ≤ f y) ys) xs
    → Sorted f (xs ++ ys)
Sorted-append f [] ys h k o = k
Sorted-append f (x ∷ xs) ys h k o =
    (All-append (λ y. f x ≤ f y) xs ys h.0 o.0, Sorted-append f xs ys h.1 k o.1)

pub All-Outside-insert :
    (f : ℕ → ℕ) (t : ℕ) (xs ys : List ℕ)
    → Outside xs t
    → All (Outside ys) xs
    → All (Outside (insert_sorted f t ys)) xs
unfolding timer_in_list
All-Outside-insert f t [] ys h o = tt
All-Outside-insert f t (x ∷ xs) ys h o =
    (rw (in_list-insert f t x ys) (ground arith), All-Outside-insert f t xs ys (ground arith) o.1)

pub All-Outside-nil : (xs : List ℕ) → All (Outside []) xs
unfolding timer_in_list
All-Outside-nil [] = tt
All-Outside-nil (x ∷ xs) = (refl, All-Outside-nil xs)
