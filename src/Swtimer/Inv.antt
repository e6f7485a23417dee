-- ===== src/Swtimer/Inv.antt =====
-- The invariant of the two chains of src/nlswtimer.c, and that starting, cancelling and
-- initialising timers keep it.
use nlplatform.Prelude.{
  ℕ, ◌+◌, ◌≤◌, ◌<◌, ◌≡◌, refl, inl, inr, false, List, [], ◌∷◌, arith, ltb, leb, if◌then◌else◌,
  ltb→lt, ltb_false→le, Bool-cases, eqb_refl, subst, All, All-map, length, update, u32_mod, Ensures,
}
use nlplatform.Swtimer.{
  Timers, timer_is_active, insert_sorted, link_timer, insert_locked, remove_from_list, cut_after,
  cancel, init,
}
use nlplatform.Swtimer.Lists.{
  Sorted, Distinct, Outside, All-insert, All-remove, All-cut, insert-Sorted, remove-Sorted,
  cut-Sorted, insert-Distinct, remove-Distinct, cut-Distinct, All-congr, Sorted-congr,
  update-Outside, All-Outside-insert, Outside-remove, Outside-cut,
}

-- Both chains are in the order of their delays, and no timer is linked twice. What waits for the
-- wrap of the tick count has a delay that the count has passed.
pub record IsValid (s : Timers) : Type 0 where
  pub sorted : Sorted s.delay s.timer_list
  pub late_sorted : Sorted s.delay s.overflow_list
  pub distinct : Distinct s.timer_list
  pub late_distinct : Distinct s.overflow_list
  pub disjoint : All (Outside s.overflow_list) s.timer_list
  pub fits : All (λ p. s.delay p < u32_mod) s.timer_list
  pub late : All (λ p. s.delay p ≤ s.tick_count) s.overflow_list
  pub tick_fits : s.tick_count < u32_mod

pub not_active :
    (t : ℕ) (s : Timers)
    → timer_is_active t s ≡ false
    → Outside s.timer_list t × Outside s.overflow_list t
unfolding timer_is_active
not_active t s h = ground arith

-- The number of timers of a chain that are due.
unfoldable pub due : ℕ → (ℕ → ℕ) → List ℕ → ℕ
due now f [] = 0
due now f (x ∷ xs) = (if leb (f x) now then 1 else 0) + due now f xs

pub due-le-length : (now : ℕ) (f : ℕ → ℕ) (xs : List ℕ) → due now f xs ≤ length xs
unfolding due
due-le-length now f [] = omega arith
due-le-length now f (x ∷ xs) = ground (arith, due-le-length now f xs)

pub due-insert :
    (now : ℕ) (f : ℕ → ℕ) (t : ℕ) (xs : List ℕ)
    → now < f t
    → due now f (insert_sorted f t xs) ≡ due now f xs
unfolding due insert_sorted
due-insert now f t [] h = ground arith
due-insert now f t (x ∷ xs) h = ground (arith, due-insert now f t xs)

pub due-remove :
    (now : ℕ) (f : ℕ → ℕ) (t : ℕ) (xs : List ℕ) → due now f (remove_from_list t xs).1 ≤ due now f xs
unfolding due remove_from_list
due-remove now f t [] = omega arith
due-remove now f t (x ∷ xs) = ground (arith, due-remove now f t xs)

pub due-cut :
    (now : ℕ) (f : ℕ → ℕ) (t : ℕ) (xs : List ℕ) → due now f (cut_after t xs) ≤ due now f xs
unfolding due cut_after
due-cut now f t [] = omega arith
due-cut now f t (x ∷ xs) = ground (arith, due-cut now f t xs)

pub due-congr :
    (now : ℕ) (f g : ℕ → ℕ) (xs : List ℕ) → All (λ y. f y ≡ g y) xs → due now g xs ≡ due now f xs
unfolding due
due-congr now f g [] e = refl
due-congr now f g (x ∷ xs) e = rw (e.0, due-congr now f g xs e.1)

-- What every operation on the timers keeps between two ticks: it makes no timer due.
pub record Keeps (s s' : Timers) : Type 0 where
  pub valid : IsValid s'
  pub same_tick : s'.tick_count ≡ s.tick_count
  pub due_le : due s.tick_count s'.delay s'.timer_list ≤ due s.tick_count s.delay s.timer_list

pub Keeps-refl : (s : Timers) → IsValid s → Keeps s s
Keeps-refl s v = record { valid = v; same_tick = refl; due_le = omega arith }

pub Keeps-trans : (s t u : Timers) → Keeps s t → Keeps t u → Keeps s u
Keeps-trans s t u h k = record {
  valid = k.valid;
  same_tick = omega (arith, h.same_tick, k.same_tick);
  due_le = omega (
    arith,
    h.due_le,
    subst (λ n. due n u.delay u.timer_list ≤ due n t.delay t.timer_list) h.same_tick k.due_le,
  );
}

-- The two ways to link a timer that is in no chain, with its new delay.
module _ (t d : ℕ) (s : Timers) (v : IsValid s) (h : d < u32_mod) where
  delay' : ℕ → ℕ
  delay' = update s.delay t d

  link_now :
      Outside s.timer_list t
      → Outside s.overflow_list t
      → s.tick_count < d
      → Keeps s (record s { delay = delay'; timer_list = insert_sorted delay' t s.timer_list })
  unfolding delay'
  link_now o p lt = record {
    valid = record {
      sorted =
          insert-Sorted delay' t s.timer_list
            (Sorted-congr s.delay delay' s.timer_list same v.sorted);
      late_sorted = Sorted-congr s.delay delay' s.overflow_list same_late v.late_sorted;
      distinct = insert-Distinct delay' t s.timer_list o v.distinct;
      late_distinct = v.late_distinct;
      disjoint = All-insert (Outside s.overflow_list) delay' t s.timer_list p v.disjoint;
      fits =
          All-insert (λ y. delay' y < u32_mod) delay' t s.timer_list (ground arith)
            (All-congr (λ n. n < u32_mod) s.delay delay' s.timer_list same v.fits);
      late = All-congr (λ n. n ≤ s.tick_count) s.delay delay' s.overflow_list same_late v.late;
      tick_fits = v.tick_fits;
    };
    same_tick = refl;
    due_le = omega (
      arith,
      due-insert s.tick_count delay' t s.timer_list (ground arith),
      due-congr s.tick_count s.delay delay' s.timer_list same,
    );
  }
    where
      same : All (λ y. s.delay y ≡ delay' y) s.timer_list
      same = update-Outside s.delay t d s.timer_list o

      same_late : All (λ y. s.delay y ≡ delay' y) s.overflow_list
      same_late = update-Outside s.delay t d s.overflow_list p

  link_late :
      Outside s.timer_list t
      → Outside s.overflow_list t
      → d ≤ s.tick_count
      → Keeps s
          (record s { delay = delay'; overflow_list = insert_sorted delay' t s.overflow_list })
  unfolding delay'
  link_late o p le = record {
    valid = record {
      sorted = Sorted-congr s.delay delay' s.timer_list same v.sorted;
      late_sorted =
          insert-Sorted delay' t s.overflow_list
            (Sorted-congr s.delay delay' s.overflow_list same_late v.late_sorted);
      distinct = v.distinct;
      late_distinct = insert-Distinct delay' t s.overflow_list p v.late_distinct;
      disjoint = All-Outside-insert delay' t s.timer_list s.overflow_list o v.disjoint;
      fits = All-congr (λ n. n < u32_mod) s.delay delay' s.timer_list same v.fits;
      late =
          All-insert (λ y. delay' y ≤ s.tick_count) delay' t s.overflow_list (ground arith)
            (All-congr (λ n. n ≤ s.tick_count) s.delay delay' s.overflow_list same_late v.late);
      tick_fits = v.tick_fits;
    };
    same_tick = refl;
    due_le = omega (arith, due-congr s.tick_count s.delay delay' s.timer_list same);
  }
    where
      same : All (λ y. s.delay y ≡ delay' y) s.timer_list
      same = update-Outside s.delay t d s.timer_list o

      same_late : All (λ y. s.delay y ≡ delay' y) s.overflow_list
      same_late = update-Outside s.delay t d s.overflow_list p

  pub link-Keeps :
      timer_is_active t s ≡ false → Keeps s (link_timer t (record s { delay = update s.delay t d }))
  unfolding link_timer delay'
  link-Keeps a = elim (Bool-cases (ltb s.tick_count d)) [
    | inl e ↦ rw (eqb_refl t, e) (link_now o.0 o.1 (ltb→lt _ _ e))
    | inr e ↦ rw (eqb_refl t, e) (link_late o.0 o.1 (ltb_false→le _ _ e))
  ]
    where
      o : Outside s.timer_list t × Outside s.overflow_list t
      o = not_active t s a

pub insert_locked-Keeps :
    (t delay_in_ticks : ℕ) (s : Timers)
    → IsValid s
    → Ensures (Keeps s) (insert_locked t delay_in_ticks s)
unfolding insert_locked
insert_locked-Keeps t n s v = elim (Bool-cases (timer_is_active t s)) [
  | inl e ↦ rw e tt
  | inr e ↦ rw e (link-Keeps t _ s v (omega arith) e)
]

remove_now-Keeps :
    (t : ℕ) (s : Timers)
    → IsValid s
    → Keeps s (record s { timer_list = (remove_from_list t s.timer_list).1 })
remove_now-Keeps t s v = record {
  valid = record {
    sorted = remove-Sorted s.delay t s.timer_list v.sorted;
    late_sorted = v.late_sorted;
    distinct = remove-Distinct t s.timer_list v.distinct;
    late_distinct = v.late_distinct;
    disjoint = All-remove (Outside s.overflow_list) t s.timer_list v.disjoint;
    fits = All-remove (λ p. s.delay p < u32_mod) t s.timer_list v.fits;
    late = v.late;
    tick_fits = v.tick_fits;
  };
  same_tick = refl;
  due_le = due-remove s.tick_count s.delay t s.timer_list;
}

remove_late-Keeps :
    (t : ℕ) (s : Timers)
    → IsValid s
    → Keeps s (record s { overflow_list = (remove_from_list t s.overflow_list).1 })
remove_late-Keeps t s v = record {
  valid = record {
    sorted = v.sorted;
    late_sorted = remove-Sorted s.delay t s.overflow_list v.late_sorted;
    distinct = v.distinct;
    late_distinct = remove-Distinct t s.overflow_list v.late_distinct;
    disjoint =
        All-map (Outside s.overflow_list) (Outside (remove_from_list t s.overflow_list).1)
          (λ p. Outside-remove t p s.overflow_list) s.timer_list v.disjoint;
    fits = v.fits;
    late = All-remove (λ p. s.delay p ≤ s.tick_count) t s.overflow_list v.late;
    tick_fits = v.tick_fits;
  };
  same_tick = refl;
  due_le = omega arith;
}

pub cancel-Keeps : (t : ℕ) (s : Timers) → IsValid s → Keeps s (cancel t s).1
unfolding cancel
cancel-Keeps t s v = elim (Bool-cases (remove_from_list t s.timer_list).0) [
  | inl e ↦ rw e (remove_now-Keeps t s v)
  | inr e ↦ rw e (Keeps-trans s _ _ now (remove_late-Keeps t _ now.valid))
]
  where
    now : Keeps s (record s { timer_list = (remove_from_list t s.timer_list).1 })
    now = remove_now-Keeps t s v

pub init-Keeps : (t func arg : ℕ) (s : Timers) → IsValid s → Keeps s (init t func arg s)
unfolding init
init-Keeps t func arg s v = record {
  valid = record {
    sorted = cut-Sorted s.delay t s.timer_list v.sorted;
    late_sorted = cut-Sorted s.delay t s.overflow_list v.late_sorted;
    distinct = cut-Distinct t s.timer_list v.distinct;
    late_distinct = cut-Distinct t s.overflow_list v.late_distinct;
    disjoint =
        All-map (Outside s.overflow_list) (Outside (cut_after t s.overflow_list))
          (λ p. Outside-cut t p s.overflow_list) _
          (All-cut (Outside s.overflow_list) t s.timer_list v.disjoint);
    fits = All-cut (λ p. s.delay p < u32_mod) t s.timer_list v.fits;
    late = All-cut (λ p. s.delay p ≤ s.tick_count) t s.overflow_list v.late;
    tick_fits = v.tick_fits;
  };
  same_tick = refl;
  due_le = due-cut s.tick_count s.delay t s.timer_list;
}
