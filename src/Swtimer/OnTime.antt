-- ===== src/Swtimer/OnTime.antt =====
-- When the tick handler of src/nlswtimer.c calls a timer function: after as many ticks as the
-- timer was started with, and never earlier.
use nlplatform.Prelude.{
  ℕ, zero, suc, ◌+◌, ◌-◌, ◌≤◌, ◌<◌, ◌≡◌, ◌≢◌, sym, ap, ◌∙◌, inl, inr, true, false, List, ◌∷◌, arith,
  subst, ◌==◌, ==_iff, Bool-cases, All, u32_mod, add32, sub32, max, ◌⊎◌, Run, done, ◌>>=◌, Ensures,
  Ensures-bind, Ensures-map, Ensures-and,
}
use nlplatform.Swtimer.{
  Timers, Platform, timer_in_list, timer_is_active, perform, fire, restart, advance_tick,
  rtos_tick_handler,
}
use nlplatform.Swtimer.Lists.{Distinct, All-get}
use nlplatform.Swtimer.Spare.{LeavesAlone, perform-SameTimer, fire_other}
use nlplatform.Swtimer.Inv.{IsValid, Keeps}
use nlplatform.Swtimer.View.{
  remaining, SameTimer, SameTimer-view, main_not_late, insert_locked-view,
}
use nlplatform.Swtimer.Tick.{Settled, perform-Keeps, popped-IsValid}
use nlplatform.Swtimer.Advance.{
  IsPunctual, advance_tick-IsValid, remaining-advance, active-advance, tick-advance, tick_inv,
}

-- A timer with `n` ticks to go.
abbrev pub Waits : ℕ → ℕ → Timers → Type 0
Waits p n s = (timer_is_active p s ≡ true) × (remaining p s ≡ n)

-- The first timer of the chain, and due: nothing remains.
head_due :
    (p t n : ℕ) (rest : List ℕ) (s : Timers)
    → s.timer_list ≡ t ∷ rest
    → s.delay t ≤ s.tick_count
    → 0 < n
    → Waits p n s
    → (t == p) ≡ false
unfolding remaining timer_in_list
head_due p t n rest s l d pos w = ground (arith, ap (timer_in_list p) l)

module _ (platform : Platform) (p : ℕ) (alone : LeavesAlone platform p) (s : Timers) (v : IsValid s)
    (n : IsPunctual s) where
  -- A tick before a timer is due brings it one tick nearer, and its function is not called.
  pub tick-Waits :
      (k : ℕ)
      → Waits p (suc (suc k)) s
      → Ensures
          (λ s'. Settled (add32 s.tick_count 1) s' × Waits p (suc k) s')
          (rtos_tick_handler platform s)
  tick-Waits k w =
      tick_inv s v platform (Waits p (suc k))
        (λ u t rest uv e l d j.
          Ensures-map (SameTimer p u) (Waits p (suc k)) _
            (λ s' same. ground (arith, SameTimer-view p u s' same))
            (fire_other platform p t rest u uv alone l
              (head_due p t (suc k) rest u l (omega arith) (omega arith) j)))
        (ground (arith, active-advance platform s v n p, remaining-advance platform s v n p))

-- What the restart delay `r` asks for: nothing, or `r` milliseconds less a tick.
abbrev pub Restarted : Platform → ℕ → ℕ → Timers → Type 0
Restarted platform p r s =
    ((r ≡ 0) × (timer_is_active p s ≡ false))
    ⊎ ((r ≢ 0) × Waits p (max 1 (platform.ms_to_delay_native r - 1)) s)

-- The timer's function returns the restart delay `r`.
abbrev pub Returns : Platform → ℕ → ℕ → Type 0
Returns platform p r = (func arg : ℕ) (s : Timers) → (platform.call func p arg s).1 ≡ r

-- In the current chain alone, and due at this tick.
abbrev Pending : ℕ → ℕ → Timers → Type 0
Pending p now s =
    (timer_in_list p s.timer_list ≡ true)
    × (timer_in_list p s.overflow_list ≡ false)
    × (s.delay p ≤ now)

zero-Pending :
    (p : ℕ) (s : Timers)
    → IsValid s
    → timer_is_active p s ≡ true
    → remaining p s ≡ 0
    → Pending p s.tick_count s
unfolding timer_is_active remaining
zero-Pending p s v a z = ground (arith, v.tick_fits, main_not_late p s v)

popped_inactive :
    (p : ℕ) (rest : List ℕ) (u : Timers)
    → IsValid u
    → u.timer_list ≡ p ∷ rest
    → timer_is_active p (record u { timer_list = rest }) ≡ false
unfolding timer_is_active timer_in_list
popped_inactive p rest u v l =
    let apart : Distinct (p ∷ rest) = subst Distinct l v.distinct in
    ground (arith, apart.0, main_not_late p u v, ap (timer_in_list p) l)

module _ (platform : Platform) (p r : ℕ) (alone : LeavesAlone platform p)
    (returns : Returns platform p r)
    (fits : r ≢ 0
      → (0 < platform.ms_to_delay_native r) × (platform.ms_to_delay_native r < u32_mod)) where
  restart-Restarted :
      (s : Timers)
      → IsValid s
      → timer_is_active p s ≡ false
      → Ensures (Restarted platform p r) (restart platform p r s)
  unfolding restart
  restart-Restarted s v a = elim (Bool-cases (r == 0)) [
    | inl e ↦ rw e (inl ((==_iff r 0).0 e, a))
    | inr e ↦ rw e (
        Ensures-map (Waits p (max 1 (sub32 (platform.ms_to_delay_native r) 1)))
          (Restarted platform p r) _ (λ s' w. inr (asked e, (w.0, w.1 ∙ less e)))
          (insert_locked-view p (sub32 (platform.ms_to_delay_native r) 1) s v a (omega arith)))
  ]
    where
      asked : (r == 0) ≡ false → r ≢ 0
      asked e = ground arith

      less :
          (r == 0) ≡ false
          → max 1 (sub32 (platform.ms_to_delay_native r) 1)
            ≡ max 1 (platform.ms_to_delay_native r - 1)
      less e = omega (arith, fits (asked e))

  -- Its own function is called with the timer in no chain.
  fire_self :
      (s : Timers)
      → IsValid s
      → timer_is_active p s ≡ false
      → Ensures (Restarted platform p r) (fire platform p s)
  unfolding fire
  fire_self s v a =
      Ensures-bind (λ s'. SameTimer p s s' × Keeps s s') (Restarted platform p r)
        (perform platform (platform.call (s.func p) p (s.arg p) s).0 s)
        (restart platform p (platform.call (s.func p) p (s.arg p) s).1)
        (Ensures-and (SameTimer p s) (Keeps s) _
          (perform-SameTimer platform p _ s v (alone (s.func p) p (s.arg p) s))
          (perform-Keeps platform _ s v))
        λ s' k.
          rw (returns (s.func p) (s.arg p) s)
            (restart-Restarted s' k.1.valid ((SameTimer-view p s s' k.0).0 ∙ a))

  keep :
      (now : ℕ) (u : Timers) (t : ℕ) (rest : List ℕ)
      → IsValid u
      → u.tick_count ≡ now
      → u.timer_list ≡ t ∷ rest
      → u.delay t ≤ now
      → Pending p now u ⊎ Restarted platform p r u
      → Ensures
          (λ s'. Pending p now s' ⊎ Restarted platform p r s')
          (fire platform t (record u { timer_list = rest }))
  keep now u t rest v e l d j = elim (Bool-cases (t == p)) [
    | inl same ↦
        subst
          (λ q.
            u.timer_list ≡ q ∷ rest
            → Ensures (λ s'. Pending p now s' ⊎ Restarted platform p r s')
                (fire platform q (record u { timer_list = rest })))
          (sym ((==_iff t p).0 same))
          (λ l'.
            Ensures-map (Restarted platform p r)
              (λ s'. Pending p now s' ⊎ Restarted platform p r s') _ (λ s' w. inr w)
              (fire_self (record u { timer_list = rest }) (popped-IsValid u p rest l' v)
                (popped_inactive p rest u v l')))
          l
    | inr ne ↦
        Ensures-map (SameTimer p u) (λ s'. Pending p now s' ⊎ Restarted platform p r s') _
          (λ s' same. ground (arith, SameTimer-view p u s' same))
          (fire_other platform p t rest u v alone l ne)
  ]

  -- A timer with one tick to go has its function called by the tick handler: then it is inactive,
  -- or waits for the restart that the function asked for.
  pub tick-Restarted :
      (s : Timers)
      → IsValid s
      → IsPunctual s
      → Waits p 1 s
      → Ensures
          (λ s'. Settled (add32 s.tick_count 1) s' × Restarted platform p r s')
          (rtos_tick_handler platform s)
  tick-Restarted s v n w =
      Ensures-map
        (λ s'.
          Settled (add32 s.tick_count 1) s'
          × (Pending p (add32 s.tick_count 1) s' ⊎ Restarted platform p r s'))
        (λ s'. Settled (add32 s.tick_count 1) s' × Restarted platform p r s')
        (rtos_tick_handler platform s) (λ s' h. (h.0, called s' h.0 h.1))
        (tick_inv s v platform
          (λ s'. Pending p (add32 s.tick_count 1) s' ⊎ Restarted platform p r s')
          (λ u t rest. keep (add32 s.tick_count 1) u t rest) (inl due_now))
    where
      due_now : Pending p (add32 s.tick_count 1) (advance_tick platform s)
      due_now =
          subst (λ k. Pending p k (advance_tick platform s)) (tick-advance platform s)
            (zero-Pending p (advance_tick platform s) (advance_tick-IsValid s v platform)
              (active-advance platform s v n p ∙ w.0)
              (omega (arith, remaining-advance platform s v n p w.0, w.1)))

      called :
          (s' : Timers)
          → Settled (add32 s.tick_count 1) s'
          → Pending p (add32 s.tick_count 1) s' ⊎ Restarted platform p r s'
          → Restarted platform p r s'
      called s' settled (inl j) = absurd (
          omega (
            arith,
            j.2,
            All-get (λ q. add32 s.tick_count 1 < s'.delay q) p s'.timer_list settled.none_due j.0,
          ))
      called s' settled (inr done') = done'

-- The tick handler, called so many times.
unfoldable pub ticks : Platform → ℕ → Timers → Run Timers
ticks platform zero s = done s
ticks platform (suc k) s = rtos_tick_handler platform s >>= ticks platform k

Settled-IsPunctual : (now : ℕ) (s : Timers) → Settled now s → IsPunctual s
Settled-IsPunctual now s h =
    subst (λ k. All (λ q. k < s.delay q) s.timer_list) (sym h.same_tick) h.none_due

-- Let no timer function meddle with a timer. From valid chains with no timer due, if the timer has
-- `k + j` ticks to go, `j` of them at least one, then after `k` ticks it still waits and has `j` to
-- go: it is never called early. The chains are valid then, and no timer is due. A tick handler may
-- stop at an assertion.
pub ticks-Waits :
    (platform : Platform) (p : ℕ)
    → LeavesAlone platform p
    → (k j : ℕ) (s : Timers) → IsValid s
    → IsPunctual s
    → Waits p (k + suc j) s
    → Ensures (λ s'. IsValid s' × IsPunctual s' × Waits p (suc j) s') (ticks platform k s)
unfolding ticks
ticks-Waits platform p alone zero j s v n w = (v, n, (w.0, omega (arith, w.1)))
ticks-Waits platform p alone (suc k) j s v n w =
    Ensures-bind (λ s'. Settled (add32 s.tick_count 1) s' × Waits p (suc (k + j)) s')
      (λ s'. IsValid s' × IsPunctual s' × Waits p (suc j) s') (rtos_tick_handler platform s)
      (ticks platform k) (tick-Waits platform p alone s v n (k + j) (w.0, omega (arith, w.1)))
      λ s' h.
        ticks-Waits platform p alone k j s' h.0.valid (Settled-IsPunctual _ s' h.0)
          (h.1.0, omega (arith, h.1.1))

-- Let no timer function meddle with a timer, and let its own function ask for the restart delay
-- `r`, which is 0 or at least one tick and within 32 bits. From valid chains with no timer due, if
-- the timer has `k + 1` ticks to go, then after exactly these it is inactive if `r` is 0, and else
-- waits for the restart: `r` milliseconds less a tick, at least one. A tick handler may stop at an
-- assertion.
pub ticks-Restarted :
    (platform : Platform) (p r : ℕ)
    → LeavesAlone platform p
    → Returns platform p r
    → (r ≢ 0 → (0 < platform.ms_to_delay_native r) × (platform.ms_to_delay_native r < u32_mod))
    → (k : ℕ) (s : Timers) → IsValid s
    → IsPunctual s
    → Waits p (k + 1) s
    → Ensures (Restarted platform p r) (ticks platform k s >>= rtos_tick_handler platform)
ticks-Restarted platform p r alone returns fits k s v n w =
    Ensures-bind (λ s'. IsValid s' × IsPunctual s' × Waits p 1 s') (Restarted platform p r)
      (ticks platform k s) (rtos_tick_handler platform) (ticks-Waits platform p alone k 0 s v n w)
      λ s' h.
        Ensures-map (λ u. Settled (add32 s'.tick_count 1) u × Restarted platform p r u)
          (Restarted platform p r) (rtos_tick_handler platform s') (λ u x. x.1)
          (tick-Restarted platform p r alone returns fits s' h.0 h.1 h.2)
