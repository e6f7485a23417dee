-- ===== src/Swtimer/Sleep.antt =====
-- The two sleep hooks of src/nlswtimer.c: how long the RTOS may sleep, and the tick count after it.
use nlplatform.Prelude.{
  ℕ, ◌+◌, ◌-◌, ◌*◌, ◌%◌, ◌≤◌, ◌<◌, ◌≡◌, refl, inl, inr, Bool, true, false, List, [], ◌∷◌, arith,
  subst, ltb, leb, if◌then◌else◌, ltb→lt, ltb_false→le, le→leb, Bool-cases, All, All-map, done,
  u32_mod, u64_mod, add32, sub32,
}
use nlplatform.Swtimer.{Timers, Platform, idle_time, pre_sleep, post_sleep, ns_per_tick}
use nlplatform.Swtimer.Lists.{Sorted}
use nlplatform.Swtimer.Inv.{IsValid}

-- What `nl_swtimer_pre_sleep` promises with the result `(ready, idle)`.
abbrev pub Idles : (expected : ℕ) → Timers → Bool × ℕ → Type 0
Idles expected s (true, idle) =
    (idle ≤ expected) × All (λ p. s.tick_count + idle ≤ s.delay p) s.timer_list
Idles expected s (false, idle) =
    (idle ≡ expected)
    × ((t : ℕ) × (rest : List ℕ) × (s.timer_list ≡ t ∷ rest) × (s.delay t ≤ s.tick_count))

idle_time-Idles :
    (expected : ℕ) (s : Timers) (xs : List ℕ)
    → s.timer_list ≡ xs
    → IsValid s
    → Idles expected s (idle_time s.delay s.tick_count expected xs)
unfolding idle_time
idle_time-Idles expected s [] e v = (omega arith, rw e tt)
idle_time-Idles expected s (p ∷ ps) e v = elim (Bool-cases (ltb s.tick_count (s.delay p))) [
  | inl h ↦ rw h (ground arith, rw e (first h, rest h))
  | inr h ↦ rw h (refl, (p, ps, e, ltb_false→le _ _ h))
]
  where
    idle : ℕ
    idle =
        if ltb (sub32 (s.delay p) s.tick_count) expected
        then sub32 (s.delay p) s.tick_count
        else expected

    fits : s.delay p < u32_mod
    fits = (subst (All (λ q. s.delay q < u32_mod)) e v.fits).0

    first : ltb s.tick_count (s.delay p) ≡ true → s.tick_count + idle ≤ s.delay p
    first h = ground (arith, ltb→lt _ _ h, fits, v.tick_fits)

    rest : ltb s.tick_count (s.delay p) ≡ true → All (λ q. s.tick_count + idle ≤ s.delay q) ps
    rest h =
        All-map (λ q. s.delay p ≤ s.delay q) (λ q. s.tick_count + idle ≤ s.delay q)
          (λ q le. omega (arith, first h)) ps (subst (Sorted s.delay) e v.sorted).0

pre_sleep_inv :
    (rtos_ticks expected : ℕ) (s : Timers) {ready : Bool} {idle before : ℕ}
    → pre_sleep rtos_ticks expected s ≡ done (ready, idle, before)
    → (idle_time s.delay s.tick_count expected s.timer_list ≡ (ready, idle)) × (before ≡ rtos_ticks)
unfolding pre_sleep
pre_sleep_inv rtos_ticks expected s e = ground arith

-- `nl_swtimer_pre_sleep` on valid chains, with the scheduler's tick count at most three behind this
-- module's, returns. If it allows the sleep, the time to sleep is at most what was expected and
-- ends at the delay of each timer in the current list or before; the timers in the overflow list,
-- which wait for the tick count to wrap, do not limit it. If it refuses, the first timer of the
-- current list is due already and the expected time is left as it was. The tick count for the
-- wake-up is the scheduler's.
pub pre_sleep-Idles :
    (rtos_ticks expected : ℕ) (s : Timers)
    → IsValid s
    → rtos_ticks ≤ s.tick_count
    → s.tick_count ≤ rtos_ticks + 3
    → (ready : Bool) × (idle : ℕ) × (pre_sleep rtos_ticks expected s
        ≡ done (ready, idle, rtos_ticks))
      × Idles expected s (ready, idle)
unfolding pre_sleep
pre_sleep-Idles rtos_ticks expected s v le near =
    let idle = idle_time s.delay s.tick_count expected s.timer_list in
    let behind : leb (sub32 s.tick_count rtos_ticks) 3 ≡ true =
      le→leb _ _ (omega (arith, v.tick_fits)) in
    (
      idle.0,
      idle.1,
      rw (le→leb _ _ le, behind) refl,
      idle_time-Idles expected s s.timer_list refl v,
    )

-- Whatever it returns is such a promise.
pre_sleep_promise :
    (rtos_ticks expected : ℕ) (s : Timers) {ready : Bool} {idle before : ℕ}
    → IsValid s
    → pre_sleep rtos_ticks expected s ≡ done (ready, idle, before)
    → Idles expected s (ready, idle) × (before ≡ rtos_ticks)
pre_sleep_promise rtos_ticks expected s v e =
    let (idles, same) = pre_sleep_inv rtos_ticks expected s e in
    (subst (Idles expected s) idles (idle_time-Idles expected s s.timer_list refl v), same)

-- On valid chains, `nl_swtimer_post_sleep` after a sleep that `nl_swtimer_pre_sleep` allowed and
-- that was no longer than it said, if the tick count does not wrap in it: it returns, the chains
-- are valid, the tick count has moved on by the length of the sleep, and it is past no timer's
-- delay in the current list.
pub post_sleep_lem :
    (platform : Platform) (rtos_ticks expected idle after : ℕ) (s : Timers)
    → IsValid s
    → pre_sleep rtos_ticks expected s ≡ done (true, idle, rtos_ticks)
    → rtos_ticks ≤ after
    → after - rtos_ticks ≤ idle
    → s.tick_count + (after - rtos_ticks) < u32_mod
    → (s' : Timers) × (post_sleep platform rtos_ticks after s ≡ done s')
      × IsValid s'
      × (s'.tick_count ≡ s.tick_count + (after - rtos_ticks))
      × All (λ p. s'.tick_count ≤ s'.delay p) s'.timer_list
unfolding post_sleep
post_sleep_lem platform rtos_ticks expected idle after s v e le short fits = (
  record s {
    tick_count = add32 s.tick_count (sub32 after rtos_ticks);
    system_time_ns = (s.system_time_ns + sub32 after rtos_ticks * ns_per_tick platform) % u64_mod;
  },
  rw (le→leb _ _ le),
  record {
    sorted = v.sorted;
    late_sorted = v.late_sorted;
    distinct = v.distinct;
    late_distinct = v.late_distinct;
    disjoint = v.disjoint;
    fits = v.fits;
    late =
        All-map (λ p. s.delay p ≤ s.tick_count)
          (λ p. s.delay p ≤ add32 s.tick_count (sub32 after rtos_ticks))
          (λ p h. omega (arith, slept)) s.overflow_list v.late;
    tick_fits = omega arith;
  },
  slept,
  All-map (λ p. s.tick_count + idle ≤ s.delay p)
      (λ p. add32 s.tick_count (sub32 after rtos_ticks) ≤ s.delay p) (λ p h. omega (arith, slept))
      s.timer_list (pre_sleep_promise rtos_ticks expected s v e).0.1,
)
  where
    slept : add32 s.tick_count (sub32 after rtos_ticks) ≡ s.tick_count + (after - rtos_ticks)
    slept = omega arith
