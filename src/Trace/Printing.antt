-- ===== src/Trace/Printing.antt =====
-- `nltrace_print` of src/nltrace.c: the events that have ended, from the head of the queue on.
use nlplatform.Prelude.{
  ◌%◌, u32_mod, if_cases, ℕ, zero, suc, ◌+◌, ◌≤◌, ◌<◌, ◌≡◌, refl, sym, ap, subst, ◌∙◌, inl, inr,
  false, List, [], ◌∷◌, map, length, arith, ◌==◌, if◌then◌else◌, All, update, update_self,
  update_ne, ==_iff, eqb_refl, Bool-cases, done,
}
use nlplatform.Trace.{Trace, Line, invalid, line, print_loop, print}
use nlplatform.Trace.Queue.{Away, first, Distinct, IsQueue}
use nlplatform.Trace.Removing.{named_others, remove-IsQueue}
use nlplatform.Trace.Starting.{entry_done}

-- The events up to the first that has not ended, and the others.
abbrev pub ended : Trace → List ℕ → List ℕ
ended tr [] = []
ended tr (x ∷ xs) = let rest = ended tr xs in if tr.end_us x == 0 then [] else x ∷ rest

abbrev pub pending : Trace → List ℕ → List ℕ
pending tr [] = []
pending tr (x ∷ xs) = let rest = pending tr xs in if tr.end_us x == 0 then x ∷ xs else rest

-- What an event holds but its links.
abbrev pub fields : Trace → ℕ → ℕ × ℕ × ℕ × ℕ
fields tr x = (tr.task_name x, tr.name x, tr.start_us x, tr.end_us x)

-- A line tells the names and the start of the event, and from the start on it takes the time to the
-- end, on a clock of 32 bits.
abbrev pub Tells : Trace → ℕ → Line → Type 0
Tells tr x l =
    (l.task_name ≡ tr.task_name x)
    × (l.name ≡ tr.name x)
    × (l.start_us ≡ tr.start_us x)
    × (l.elapsed_us < u32_mod)
    × ((l.start_us + l.elapsed_us) % u32_mod ≡ tr.end_us x % u32_mod)

abbrev pub AllTold : Trace → List ℕ → List Line → Type 0
AllTold tr [] [] = Unit
AllTold tr [] (l ∷ ls) = ⊥
AllTold tr (x ∷ xs) [] = ⊥
AllTold tr (x ∷ xs) (l ∷ ls) = Tells tr x l × AllTold tr xs ls

module _ (max_events : ℕ) where
  -- The entries in use among the first `n`.
  abbrev in_use : (names : ℕ → ℕ) → ℕ → ℕ
  in_use names zero = 0
  in_use names (suc n) = (if names n == 0 then 0 else 1) + in_use names n

  in_use-le : (names : ℕ → ℕ) (n : ℕ) → in_use names n ≤ n
  in_use-le names zero = omega arith
  in_use-le names (suc n) = elim (Bool-cases (names n == 0)) [
    | inl e ↦ rw e (omega (arith, in_use-le names n))
    | inr e ↦ rw e (omega (arith, in_use-le names n))
  ]

  -- A name that is cleared beyond, and one that is cleared below.
  in_use-beyond : (names : ℕ → ℕ) (x n : ℕ) → n ≤ x → in_use (update names x 0) n ≡ in_use names n
  in_use-beyond names x zero h = refl
  in_use-beyond names x (suc n) h =
      rw (update_ne names x n 0 (apart n h), in_use-beyond names x n (omega (arith, h))) refl
    where
      apart : (n : ℕ) → suc n ≤ x → (x == n) ≡ false
      apart n h = ground arith

  in_use-clear :
      (names : ℕ → ℕ) (x n : ℕ)
      → x < n
      → 0 < names x
      → in_use (update names x 0) n + 1 ≡ in_use names n
  in_use-clear names x zero h pos = absurd (omega (arith, h))
  in_use-clear names x (suc n) h pos = elim (Bool-cases (x == n)) [
    | inl e ↦
        subst (λ m. in_use (update names x 0) (suc m) + 1 ≡ in_use names (suc m)) ((==_iff x n).0 e)
          at_x
    | inr e ↦ rw (update_ne names x n 0 e) (omega (arith, in_use-clear names x n (below n h e) pos))
  ]
    where
      used : (m : ℕ) → 0 < m → (m == 0) ≡ false
      used m h = ground arith

      at_x : in_use (update names x 0) (suc x) + 1 ≡ in_use names (suc x)
      at_x =
          rw (update_self names x 0, in_use-beyond names x x (omega arith), used (names x) pos)
            (omega arith)

      below : (n : ℕ) → x < suc n → (x == n) ≡ false → x < n
      below n h e = ground arith

  -- There are no more events than entries in use.
  length-in_use :
      (names : ℕ → ℕ) (n : ℕ) (xs : List ℕ)
      → Distinct xs
      → All (λ x. x < n) xs
      → All (λ x. 0 < names x) xs
      → length xs ≤ in_use names n
  length-in_use names n [] d b h = omega arith
  length-in_use names n (x ∷ xs) d b h = omega (
    arith,
    in_use-clear names x n b.0 h.0,
    length-in_use (update names x 0) n xs d.1 b.1 (named_others names x xs d.0 h.1),
  )

  -- Taking the head out does not change what is printed of the others.
  module _ (tr tr' : Trace) (x : ℕ) (tasks : tr'.task_name ≡ tr.task_name)
      (names : tr'.name ≡ update tr.name x 0) (starts : tr'.start_us ≡ update tr.start_us x 0)
      (ends : tr'.end_us ≡ update tr.end_us x 0) where
    same_end : (y : ℕ) → (x == y) ≡ false → tr'.end_us y ≡ tr.end_us y
    same_end y a = ap (λ f. f y) ends ∙ update_ne tr.end_us x y 0 a

    same_line : (y : ℕ) → (x == y) ≡ false → line max_events tr' y ≡ line max_events tr y
    unfolding line
    same_line y a =
        rw
          (
            tasks,
            ap (λ f. f y) names,
            ap (λ f. f y) starts,
            same_end y a,
            update_ne tr.name x y 0 a,
            update_ne tr.start_us x y 0 a,
          )
          refl

    same_field : (y : ℕ) → (x == y) ≡ false → fields tr' y ≡ fields tr y
    same_field y a =
        rw
          (
            tasks,
            ap (λ f. f y) names,
            ap (λ f. f y) starts,
            same_end y a,
            update_ne tr.name x y 0 a,
            update_ne tr.start_us x y 0 a,
          )
          refl

    same_fields : (xs : List ℕ) → Away x xs → map (fields tr') xs ≡ map (fields tr) xs
    same_fields [] a = refl
    same_fields (y ∷ ys) a = rw (same_field y a.0, same_fields ys a.1) refl

    same :
        (xs : List ℕ)
        → Away x xs
        → (map (line max_events tr') (ended tr' xs) ≡ map (line max_events tr) (ended tr xs))
          × (pending tr' xs ≡ pending tr xs)
          × (map (fields tr') (pending tr xs) ≡ map (fields tr) (pending tr xs))
    same [] a = (refl, refl, refl)
    same (y ∷ ys) a =
        let (lines, rest, kept) = same ys a.1 in
        elim (Bool-cases (tr.end_us y == 0)) [
          | inl e ↦ rw (same_end y a.0, e) (refl, refl, same_fields (y ∷ ys) a)
          | inr e ↦ rw (same_end y a.0, e) (rw (same_line y a.0, lines) refl, rest, kept)
        ]

  -- What printing comes to.
  abbrev pub PrintedLines : Trace → List ℕ → List Line × Trace → Type 0
  PrintedLines tr xs (lines, tr') =
      (lines ≡ map (line max_events tr) (ended tr xs))
      × IsQueue max_events tr' (pending tr xs)
      × (map (fields tr') (pending tr xs) ≡ map (fields tr) (pending tr xs))

  print_loop_lem :
      (fuel : ℕ) (tr : Trace) (xs : List ℕ)
      → IsQueue max_events tr xs
      → length xs < fuel
      → (out : List Line × Trace) × (print_loop max_events fuel (first max_events xs) tr ≡ done out)
        × PrintedLines tr xs out
  unfolding print_loop
  print_loop_lem zero tr xs q h = absurd (omega (arith, h))
  print_loop_lem (suc fuel) tr [] q h =
      (([], tr), rw (eqb_refl (invalid max_events), print_loop) refl, (refl, q, refl))
  print_loop_lem (suc fuel) tr (x ∷ xs) q h = elim (Bool-cases (tr.end_us x == 0)) [
    | inl e ↦ (
      ([], tr),
      rw (valid x q.in_table.0, entry_done max_events x q.in_table.0, e, print_loop) refl,
      rw e (refl, q, refl),
    )
    | inr e ↦
        let (tr', removed, q', tasks, names, starts, ends) = remove-IsQueue max_events tr x xs q in
        let (lines, rest, kept) = same tr tr' x tasks names starts ends xs q.distinct.0 in
        let ((ls, tr''), printed, (p, q'', keeps)) =
          print_loop_lem fuel tr' xs q' (omega (arith, h)) in
        (
          (line max_events tr x ∷ ls, tr''),
          rw
              (
                valid x q.in_table.0,
                entry_done max_events x q.in_table.0,
                e,
                removed,
                printed,
                print_loop,
              )
              refl,
          rw e (
            ap (λ l. line max_events tr x ∷ l) (p ∙ lines),
            subst (λ zs. IsQueue max_events tr'' zs) rest q'',
            subst (λ zs. map (fields tr'') zs ≡ map (fields tr') zs) rest keeps ∙ kept,
          ),
        )
  ]
    where
      valid : (y : ℕ) → y < max_events → (y == max_events + 1) ≡ false
      valid y h = ground arith

  pub print_lem :
      (tr : Trace) (xs : List ℕ)
      → IsQueue max_events tr xs
      → (out : List Line × Trace) × (print max_events tr ≡ done out) × PrintedLines tr xs out
  unfolding print
  print_lem tr xs q =
      let (out, returned, printed) = print_loop_lem (max_events + 1) tr xs q (
        omega (
          arith,
          length-in_use tr.name max_events xs q.distinct q.in_table q.named,
          in_use-le tr.name max_events,
        )) in
      (out, ap (λ i. print_loop max_events (max_events + 1) i tr) q.head ∙ returned, printed)

  AllTold-line :
      (tr : Trace) (xs : List ℕ)
      → All (λ x. tr.start_us x < u32_mod) xs
      → AllTold tr xs (map (line max_events tr) xs)
  unfolding line
  AllTold-line tr [] h = tt
  AllTold-line tr (x ∷ xs) h =
      ((refl, refl, refl, omega arith, omega (arith, h.0)), AllTold-line tr xs h.1)

  All-ended : (P : ℕ → Type 0) (tr : Trace) (xs : List ℕ) → All P xs → All P (ended tr xs)
  All-ended P tr [] h = tt
  All-ended P tr (x ∷ xs) h =
      if_cases (All P) (tr.end_us x == 0) [] (x ∷ ended tr xs) (λ e. tt)
        (h.0, All-ended P tr xs h.1)

  -- What printing comes to.
  abbrev pub Printed : Trace → List ℕ → List Line × Trace → Type 0
  Printed tr xs (lines, tr') =
      AllTold tr (ended tr xs) lines
      × IsQueue max_events tr' (pending tr xs)
      × (map (fields tr') (pending tr xs) ≡ map (fields tr) (pending tr xs))

  -- `nltrace_print` on a table that holds a queue of events returns. It prints the events up to the
  -- first that has not ended, in the order of the queue, each with its names, its start, and the time
  -- that leads from the start to the end on a clock of 32 bits, where the starts are of 32 bits, and
  -- takes them out. The others stay in the queue with their names, starts and ends.
  pub print-Printed :
      (tr : Trace) (xs : List ℕ)
      → IsQueue max_events tr xs
      → All (λ x. tr.start_us x < u32_mod) xs
      → (out : List Line × Trace) × (print max_events tr ≡ done out) × Printed tr xs out
  print-Printed tr xs q starts =
      let (out, returned, (lines, queue, kept)) = print_lem tr xs q in
      let told =
        AllTold-line tr (ended tr xs) (All-ended (λ x. tr.start_us x < u32_mod) tr xs starts) in
      (out, returned, (subst (AllTold tr (ended tr xs)) (sym lines) told, queue, kept))
