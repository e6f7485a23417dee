-- ===== src/Swtimer/View.antt =====
-- What a client of src/nlswtimer.c sees of a timer: whether it is active, and in how many ticks it
-- is due. Starting a timer sets both; the calls on other timers leave both alone.
use nlplatform.Prelude.{
  ℕ, ◌+◌, ◌-◌, ◌<◌, ◌≡◌, ◌≢◌, refl, ◌∙◌, inl, inr, true, false, arith, ◌==◌, if◌then◌else◌,
  Bool-cases, update, u32_mod, add32, max, done, assert_failed, Ensures, ◌⊎◌,
}
use nlplatform.Swtimer.{
  Timers, Platform, timer_in_list, timer_is_active, link_timer, insert_locked, cancel, start,
}
use nlplatform.Swtimer.Lists.{Outside, in_list-insert, in_list-remove, remove-found, All-get}
use nlplatform.Swtimer.Inv.{IsValid}

-- The ticks until an active timer is due; the count of one in the overflow list goes past the wrap.
unfoldable pub remaining : ℕ → Timers → ℕ
remaining p s =
    if timer_in_list p s.timer_list
    then s.delay p - s.tick_count
    else s.delay p + u32_mod - s.tick_count

pub main_not_late :
    (t : ℕ) (s : Timers)
    → IsValid s
    → timer_in_list t s.timer_list ≡ true
    → timer_in_list t s.overflow_list ≡ false
main_not_late t s v = All-get (Outside s.overflow_list) t s.timer_list v.disjoint

-- Nothing about this timer differs.
pub record SameTimer (p : ℕ) (s s' : Timers) : Type 0 where
  pub main_same : timer_in_list p s'.timer_list ≡ timer_in_list p s.timer_list
  pub late_same : timer_in_list p s'.overflow_list ≡ timer_in_list p s.overflow_list
  pub delay_same : s'.delay p ≡ s.delay p
  pub tick_same : s'.tick_count ≡ s.tick_count

pub SameTimer-refl : (p : ℕ) (s : Timers) → SameTimer p s s
SameTimer-refl p s = record {
  main_same = refl;
  late_same = refl;
  delay_same = refl;
  tick_same = refl;
}

pub SameTimer-trans : (p : ℕ) (s t u : Timers) → SameTimer p s t → SameTimer p t u → SameTimer p s u
SameTimer-trans p s t u h k = ground arith

pub SameTimer-view :
    (p : ℕ) (s s' : Timers)
    → SameTimer p s s'
    → (timer_is_active p s' ≡ timer_is_active p s) × (remaining p s' ≡ remaining p s)
unfolding timer_is_active remaining
SameTimer-view p s s' h = ground arith

pub link-SameTimer :
    (t d p : ℕ) (s : Timers)
    → (t == p) ≡ false
    → SameTimer p s (link_timer t (record s { delay = update s.delay t d }))
unfolding link_timer
link-SameTimer t d p s ne = ground (
  arith,
  in_list-insert (update s.delay t d) t p s.timer_list,
  in_list-insert (update s.delay t d) t p s.overflow_list,
)

pub insert_locked-SameTimer :
    (t n p : ℕ) (s : Timers) → (t == p) ≡ false → Ensures (SameTimer p s) (insert_locked t n s)
unfolding insert_locked
insert_locked-SameTimer t n p s ne = elim (Bool-cases (timer_is_active t s)) [
  | inl e ↦ rw e tt
  | inr e ↦ rw e (link-SameTimer t _ p s ne)
]

pub cancel-SameTimer :
    (t p : ℕ) (s : Timers) → IsValid s → (t == p) ≡ false → SameTimer p s (cancel t s).1
unfolding cancel
cancel-SameTimer t p s v ne = ground (
  arith,
  in_list-remove t p s.timer_list v.distinct,
  in_list-remove t p s.overflow_list v.late_distinct,
)

-- A timer that is linked is active, and due after the delay.
link-view :
    (t n : ℕ) (s : Timers)
    → IsValid s
    → timer_is_active t s ≡ false
    → 0 < n
    → n < u32_mod
    → let s' = link_timer t (record s { delay = update s.delay t (add32 s.tick_count n) }) in
      (timer_is_active t s' ≡ true) × (remaining t s' ≡ n)
unfolding link_timer timer_is_active remaining
link-view t n s v a pos lt = ground (
  arith,
  v.tick_fits,
  in_list-insert (update s.delay t (add32 s.tick_count n)) t t s.timer_list,
  in_list-insert (update s.delay t (add32 s.tick_count n)) t t s.overflow_list,
)

pub insert_locked-view :
    (t n : ℕ) (s : Timers)
    → IsValid s
    → timer_is_active t s ≡ false
    → n < u32_mod
    → Ensures
        (λ s'. (timer_is_active t s' ≡ true) × (remaining t s' ≡ max 1 n))
        (insert_locked t n s)
unfolding insert_locked
insert_locked-view t n s v a lt =
    let ticks = if n == 0 then 1 else n in
    let view = link-view t ticks s v a (ground arith) (ground arith) in
    let same : ticks ≡ max 1 n = ground arith in rw a (view.0, view.1 ∙ same)

-- What a start does to the timer and to all others.
pub record Started (t ticks : ℕ) (s s' : Timers) : Type 0 where
  pub active : timer_is_active t s' ≡ true
  pub due_in : remaining t s' ≡ ticks
  pub others :
      (p : ℕ)
      → (t == p) ≡ false
      → (timer_is_active p s' ≡ timer_is_active p s) × (remaining p s' ≡ remaining p s)

module _ (platform : Platform) (t delay_ms : ℕ) (s : Timers) where
  ticks : ℕ
  ticks = let n = platform.ms_to_delay_native delay_ms in if n == 0 then 1 else n

  -- `nl_swtimer_start` on valid chains, of a timer with a function that is not active, for a delay
  -- within 32 bits of ticks, returns. The timer is then active and due in the requested number of
  -- ticks, at least one; no other timer changes.
  pub start_lem :
      IsValid s
      → s.func t ≢ 0
      → timer_is_active t s ≡ false
      → platform.ms_to_delay_native delay_ms < u32_mod
      → (s' : Timers) × (start platform t delay_ms s ≡ done s')
        × Started t (max 1 (platform.ms_to_delay_native delay_ms)) s s'
  unfolding start insert_locked ticks
  start_lem v f a h = (
    link_timer t (record s { delay = update s.delay t (add32 s.tick_count ticks) }),
    ground arith,
    record {
      active = view.0;
      due_in = view.1 ∙ at_least_one;
      others = λ p ne. SameTimer-view p s _ (link-SameTimer t _ p s ne);
    },
  )
    where
      at_least_one : ticks ≡ max 1 (platform.ms_to_delay_native delay_ms)
      at_least_one = ground arith

      view :
          let s' =
            link_timer t (record s { delay = update s.delay t (add32 s.tick_count ticks) }) in
          (timer_is_active t s' ≡ true) × (remaining t s' ≡ ticks)
      view = link-view t ticks s v a (ground arith) (ground arith)

  -- `nl_swtimer_start` stops at an assertion if the timer has no function or is active already.
  start-assert_failed :
      (s.func t ≡ 0) ⊎ (timer_is_active t s ≡ true) → start platform t delay_ms s ≡ assert_failed
  unfolding start insert_locked
  start-assert_failed h = ground arith

-- `nl_swtimer_cancel` on valid chains returns whether the timer was active. After it the timer is
-- not active, and no other timer has changed.
pub cancel_lem :
    (t : ℕ) (s : Timers)
    → IsValid s
    → ((cancel t s).0 ≡ timer_is_active t s)
      × (timer_is_active t (cancel t s).1 ≡ false)
      × ((p : ℕ) → (t == p) ≡ false → SameTimer p s (cancel t s).1)
unfolding cancel timer_is_active
cancel_lem t s v = (
  ground (arith, remove-found t s.timer_list, remove-found t s.overflow_list),
  ground (
    arith,
    remove-found t s.timer_list,
    in_list-remove t t s.timer_list v.distinct,
    in_list-remove t t s.overflow_list v.late_distinct,
    main_not_late t s v,
  ),
  λ p. cancel-SameTimer t p s v,
)
