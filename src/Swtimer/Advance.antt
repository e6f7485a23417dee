-- ===== src/Swtimer/Advance.antt =====
-- The first part of the tick handler of src/nlswtimer.c: the tick count moves on, and at its wrap
-- the two chains become one.
use nlplatform.Prelude.{
  ℕ, suc, ◌+◌, ◌≤◌, ◌<◌, ◌≡◌, sym, ap, inl, inr, true, false, List, [], ◌∷◌, ◌++◌, arith, subst,
  ltb, ltb→lt, ltb_false→le, Bool-cases, eqb_refl, All, All-map, All-append, length, u32_mod,
  u64_mod, ◌%◌, add32, Ensures, Ensures-map, List-cases,
}
use nlplatform.Swtimer.{
  Timers, Platform, timer_in_list, timer_is_active, merge_lists, zero_delays, advance_tick,
  ns_per_tick, fire, run_expired, rtos_tick_handler,
}
use nlplatform.Swtimer.Lists.{
  Sorted, Outside, All-get, All-congr, Sorted-congr, zero_delays-eq, Distinct-append, Sorted-append,
  All-Outside-nil,
}
use nlplatform.Swtimer.Inv.{IsValid, Keeps, due-le-length}
use nlplatform.Swtimer.Tick.{Settled, run_expired_inv, fire-Keeps, popped-IsValid}
use nlplatform.Swtimer.View.{remaining}

Outside-sym : (xs ys : List ℕ) → All (Outside ys) xs → All (Outside xs) ys
unfolding timer_in_list
Outside-sym xs [] h = tt
Outside-sym xs (y ∷ ys) h =
    (first, Outside-sym xs ys (All-map (Outside (y ∷ ys)) (Outside ys) (λ p o. ground arith) xs h))
  where
    first : Outside xs y
    first = elim (Bool-cases (timer_in_list y xs)) [
      | inl m ↦ absurd (ground (arith, All-get (Outside (y ∷ ys)) y xs h m))
      | inr m ↦ m
    ]

zero_in :
    (f : ℕ → ℕ) (xs ys : List ℕ)
    → All (λ y. timer_in_list y ys ≡ true) xs
    → All (λ y. zero_delays ys f y ≡ 0) xs
zero_in f [] ys h = tt
zero_in f (x ∷ xs) ys h = (rw (zero_delays-eq ys f x, h.0), zero_in f xs ys h.1)

zero_out :
    (f : ℕ → ℕ) (xs ys : List ℕ) → All (Outside xs) ys → All (λ y. f y ≡ zero_delays xs f y) ys
zero_out f xs [] h = tt
zero_out f xs (y ∷ ys) h = (rw (zero_delays-eq xs f y, h.0), zero_out f xs ys h.1)

All-members : (xs : List ℕ) → All (λ y. timer_in_list y xs ≡ true) xs
unfolding timer_in_list
All-members [] = tt
All-members (x ∷ xs) = (
  rw (eqb_refl x),
  All-map (λ y. timer_in_list y xs ≡ true) (λ y. timer_in_list y (x ∷ xs) ≡ true)
      (λ y h. ground arith) xs (All-members xs),
)

-- Equal delays are in order.
zero-Sorted : (g : ℕ → ℕ) (xs : List ℕ) → All (λ y. g y ≡ 0) xs → Sorted g xs
zero-Sorted g [] h = tt
zero-Sorted g (x ∷ xs) h = (
  All-map (λ y. g y ≡ 0) (λ y. g x ≤ g y) (λ y e. omega (arith, h.0)) xs h.1,
  zero-Sorted g xs h.1,
)

pub tick-advance :
    (platform : Platform) (s : Timers) → (advance_tick platform s).tick_count ≡ add32 s.tick_count 1
unfolding advance_tick merge_lists
tick-advance platform s = ground arith

module _ (s : Timers) (v : IsValid s) where
  merged : ℕ → ℕ
  merged = zero_delays s.timer_list s.delay

  main_zero : All (λ y. merged y ≡ 0) s.timer_list
  unfolding merged
  main_zero = zero_in s.delay s.timer_list s.timer_list (All-members s.timer_list)

  late_same : All (λ y. s.delay y ≡ merged y) s.overflow_list
  unfolding merged
  late_same =
      zero_out s.delay s.timer_list s.overflow_list
        (Outside-sym s.timer_list s.overflow_list v.disjoint)

  merge_lists-IsValid :
      (tick ns : ℕ)
      → tick < u32_mod
      → IsValid (merge_lists (record s { tick_count = tick; system_time_ns = ns }))
  unfolding merge_lists merged
  merge_lists-IsValid tick ns h = record {
    sorted =
        Sorted-append merged s.timer_list s.overflow_list
          (zero-Sorted merged s.timer_list main_zero)
          (Sorted-congr s.delay merged s.overflow_list late_same v.late_sorted)
          (All-map (λ x. merged x ≡ 0) (λ x. All (λ y. merged x ≤ merged y) s.overflow_list)
            (λ x e. above x e s.overflow_list) s.timer_list main_zero);
    late_sorted = tt;
    distinct = Distinct-append s.timer_list s.overflow_list v.distinct v.late_distinct v.disjoint;
    late_distinct = tt;
    disjoint = All-Outside-nil (s.timer_list ++ s.overflow_list);
    fits =
        All-append (λ p. merged p < u32_mod) s.timer_list s.overflow_list
          (All-map (λ x. merged x ≡ 0) (λ x. merged x < u32_mod) (λ x e. omega arith) s.timer_list
            main_zero)
          (All-congr (λ n. n < u32_mod) s.delay merged s.overflow_list late_same
            (All-map (λ p. s.delay p ≤ s.tick_count) (λ p. s.delay p < u32_mod)
              (λ p le. omega (arith, v.tick_fits)) s.overflow_list v.late));
    late = tt;
    tick_fits = h;
  }
    where
      above : (x : ℕ) → merged x ≡ 0 → (ys : List ℕ) → All (λ y. merged x ≤ merged y) ys
      above x e [] = tt
      above x e (y ∷ ys) = (omega arith, above x e ys)

  module _ (platform : Platform) where
    pub advance_tick-IsValid : IsValid (advance_tick platform s)
    unfolding advance_tick
    advance_tick-IsValid = elim (Bool-cases (ltb (add32 s.tick_count 1) s.tick_count)) [
      | inl e ↦ rw e (merge_lists-IsValid _ _ (omega arith))
      | inr e ↦ rw e (record {
        sorted = v.sorted;
        late_sorted = v.late_sorted;
        distinct = v.distinct;
        late_distinct = v.late_distinct;
        disjoint = v.disjoint;
        fits = v.fits;
        late =
            All-map (λ p. s.delay p ≤ s.tick_count) (λ p. s.delay p ≤ add32 s.tick_count 1)
              (λ p le. omega (arith, ltb_false→le _ _ e)) s.overflow_list v.late;
        tick_fits = omega arith;
      })
    ]

    -- What each call of a due timer's function keeps, the tick handler keeps.
    pub tick_inv :
        (J : Timers → Type 0)
        → ((u : Timers) (t : ℕ) (rest : List ℕ)
            → IsValid u
            → u.tick_count ≡ add32 s.tick_count 1
            → u.timer_list ≡ t ∷ rest
            → u.delay t ≤ add32 s.tick_count 1
            → J u
            → Ensures J (fire platform t (record u { timer_list = rest })))
        → J (advance_tick platform s)
        → Ensures (λ s'. Settled (add32 s.tick_count 1) s' × J s') (rtos_tick_handler platform s)
    unfolding rtos_tick_handler
    tick_inv J keep j =
        subst
          (λ n.
            Ensures (λ s'. Settled (add32 s.tick_count 1) s' × J s')
              (run_expired platform (suc (length (advance_tick platform s).timer_list)) n
                (advance_tick platform s)))
          (sym (tick-advance platform s))
          (run_expired_inv platform J (add32 s.tick_count 1) keep
            (suc (length (advance_tick platform s).timer_list)) (advance_tick platform s)
            advance_tick-IsValid (tick-advance platform s)
            (omega (
              arith,
              due-le-length (add32 s.tick_count 1) (advance_tick platform s).delay
                  (advance_tick platform s).timer_list,
            ))
            j)

    -- From valid chains the tick handler comes to an end, whatever the timer functions do. Unless
    -- one of its restarts or calls stops at an assertion, both chains are valid again, the tick
    -- count has moved on by one, modulo 2 ^ 32, and no timer of the current list is due.
    pub rtos_tick_handler-Settled :
        Ensures (Settled (add32 s.tick_count 1)) (rtos_tick_handler platform s)
    rtos_tick_handler-Settled =
        Ensures-map (λ s'. Settled (add32 s.tick_count 1) s' × Unit {0})
          (Settled (add32 s.tick_count 1)) (rtos_tick_handler platform s) (λ s' h. h.0)
          (tick_inv (λ s'. Unit {0})
            (λ u t rest v e l d j.
              Ensures-map (Keeps _) (λ x. Unit {0}) _ (λ x k. tt)
                (fire-Keeps platform t _ (popped-IsValid u t rest l v)))
            tt)

-- No timer of the current list is due, as every tick handler leaves it.
abbrev pub IsPunctual : Timers → Type 0
IsPunctual s = All (λ p. s.tick_count < s.delay p) s.timer_list

-- At the last tick before the wrap nothing can be in the current list.
empty_at_wrap :
    (s : Timers)
    → IsValid s
    → IsPunctual s
    → add32 s.tick_count 1 < s.tick_count
    → s.timer_list ≡ []
empty_at_wrap s v n h = elim (List-cases s.timer_list) [
  | inl e ↦ e
  | inr (t, rest, e) ↦
      let f : All (λ p. s.delay p < u32_mod) (t ∷ rest) =
        subst (All (λ p. s.delay p < u32_mod)) e v.fits in
      let g : All (λ p. s.tick_count < s.delay p) (t ∷ rest) =
        subst (All (λ p. s.tick_count < s.delay p)) e n in
      absurd (omega (arith, f.0, g.0, v.tick_fits))
]

-- The next tick before the wrap, and at it.
module _ (platform : Platform) (s : Timers) where
  next_ns : ℕ
  next_ns = (s.system_time_ns + ns_per_tick platform) % u64_mod

  advance_within :
      ltb (add32 s.tick_count 1) s.tick_count ≡ false
      → advance_tick platform s
        ≡ record s { tick_count = add32 s.tick_count 1; system_time_ns = next_ns }
  unfolding advance_tick next_ns
  advance_within e = rw e

  advance_wraps :
      ltb (add32 s.tick_count 1) s.tick_count ≡ true
      → s.timer_list ≡ []
      → advance_tick platform s ≡ record s {
        timer_list = s.overflow_list;
        overflow_list = [];
        tick_count = add32 s.tick_count 1;
        system_time_ns = next_ns;
      }
  unfolding advance_tick merge_lists zero_delays next_ns
  advance_wraps e l = ground arith

module _ (platform : Platform) (s : Timers) (v : IsValid s) (n : IsPunctual s) (p : ℕ) where
  -- From valid chains with no timer due, the next tick brings every active timer one tick nearer,
  -- also when the tick count wraps and the two chains are merged.
  pub remaining-advance :
      timer_is_active p s ≡ true → remaining p (advance_tick platform s) + 1 ≡ remaining p s
  unfolding remaining timer_is_active timer_in_list
  remaining-advance a = elim (Bool-cases (ltb (add32 s.tick_count 1) s.tick_count)) [
    | inl e ↦
        let l : s.timer_list ≡ [] = empty_at_wrap s v n (ltb→lt _ _ e) in
        rw (advance_wraps platform s e l)
          (ground (arith, ltb→lt _ _ e, v.tick_fits, ap (timer_in_list p) l))
    | inr e ↦ rw (advance_within platform s e) (
        ground (
          arith,
          ltb_false→le _ _ e,
          v.tick_fits,
          All-get (λ q. s.tick_count < s.delay q) p s.timer_list n,
        ))
  ]

  pub active-advance : timer_is_active p (advance_tick platform s) ≡ timer_is_active p s
  unfolding timer_is_active timer_in_list
  active-advance = elim (Bool-cases (ltb (add32 s.tick_count 1) s.tick_count)) [
    | inl e ↦
        let l : s.timer_list ≡ [] = empty_at_wrap s v n (ltb→lt _ _ e) in
        rw (advance_wraps platform s e l) (ground (arith, ap (timer_in_list p) l))
    | inr e ↦ rw (advance_within platform s e)
  ]
