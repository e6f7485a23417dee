-- ===== src/Swtimer/Spare.antt =====
-- The timer functions of src/nlswtimer.c that make no call on a given timer: running them leaves
-- that timer as it is.
use nlplatform.Prelude.{
  ℕ, ◌≡◌, refl, ap, inl, inr, false, List, [], ◌∷◌, arith, ◌==◌, Bool-cases, All, sub32, Ensures,
  Ensures-bind, Ensures-map, Ensures-and,
}
use nlplatform.Swtimer.{
  Timers, Platform, Action, start_timer, cancel_timer, init_timer, timer_in_list, start, act,
  perform, fire, restart,
}
use nlplatform.Swtimer.Inv.{IsValid, Keeps}
use nlplatform.Swtimer.View.{
  SameTimer, SameTimer-refl, SameTimer-trans, insert_locked-SameTimer, cancel-SameTimer,
}
use nlplatform.Swtimer.Tick.{act-Keeps, popped-IsValid}

-- The call is on another timer, and links no chain anew.
abbrev pub Spares : ℕ → Action → Type 0
Spares p (start_timer t delay_ms) = (t == p) ≡ false
Spares p (cancel_timer t) = (t == p) ≡ false
Spares p (init_timer t func arg) = ⊥

-- No timer function meddles with this timer; its own may ask for a restart.
abbrev pub LeavesAlone : Platform → ℕ → Type 0
LeavesAlone platform p =
    (func t arg : ℕ) (s : Timers) → All (Spares p) (platform.call func t arg s).0

module _ (platform : Platform) (p : ℕ) where
  act-SameTimer :
      (a : Action) (s : Timers)
      → IsValid s
      → Spares p a
      → Ensures (SameTimer p s) (act platform a s)
  unfolding act start
  act-SameTimer (start_timer t n) s v ne = elim (Bool-cases (s.func t == 0)) [
    | inl e ↦ rw e tt
    | inr e ↦ rw e (insert_locked-SameTimer t (platform.ms_to_delay_native n) p s ne)
  ]
  act-SameTimer (cancel_timer t) s v ne = cancel-SameTimer t p s v ne
  act-SameTimer (init_timer t f a) s v ne = absurd ne

  pub perform-SameTimer :
      (actions : List Action) (s : Timers)
      → IsValid s
      → All (Spares p) actions
      → Ensures (SameTimer p s) (perform platform actions s)
  unfolding perform
  perform-SameTimer [] s v h = SameTimer-refl p s
  perform-SameTimer (a ∷ rest) s v h =
      Ensures-bind (λ s'. SameTimer p s s' × Keeps s s') (SameTimer p s) (act platform a s)
        (perform platform rest)
        (Ensures-and (SameTimer p s) (Keeps s) (act platform a s) (act-SameTimer a s v h.0)
          (act-Keeps platform a s v))
        λ s' k.
          Ensures-map (SameTimer p s') (SameTimer p s) (perform platform rest s')
            (λ u. SameTimer-trans p s s' u k.0) (perform-SameTimer rest s' k.1.valid h.1)

  restart-SameTimer :
      (t n : ℕ) (s : Timers) → (t == p) ≡ false → Ensures (SameTimer p s) (restart platform t n s)
  unfolding restart
  restart-SameTimer t n s ne = elim (Bool-cases (n == 0)) [
    | inl e ↦ rw e (SameTimer-refl p s)
    | inr e ↦ rw e (insert_locked-SameTimer t (sub32 (platform.ms_to_delay_native n) 1) p s ne)
  ]

  -- The function of another timer leaves this one as it is.
  fire-SameTimer :
      (t : ℕ) (s : Timers)
      → IsValid s
      → LeavesAlone platform p
      → (t == p) ≡ false
      → Ensures (SameTimer p s) (fire platform t s)
  unfolding fire
  fire-SameTimer t s v alone ne =
      Ensures-bind (SameTimer p s) (SameTimer p s)
        (perform platform (platform.call (s.func t) t (s.arg t) s).0 s)
        (restart platform t (platform.call (s.func t) t (s.arg t) s).1)
        (perform-SameTimer _ s v (alone (s.func t) t (s.arg t) s))
        λ s' k.
          Ensures-map (SameTimer p s') (SameTimer p s) _ (λ u. SameTimer-trans p s s' u k)
            (restart-SameTimer t _ s' ne)

  popped-SameTimer :
      (t : ℕ) (rest : List ℕ) (s : Timers)
      → s.timer_list ≡ t ∷ rest
      → (t == p) ≡ false
      → SameTimer p s (record s { timer_list = rest })
  unfolding timer_in_list
  popped-SameTimer t rest s l ne = record {
    main_same = ground (arith, ap (timer_in_list p) l);
    late_same = refl;
    delay_same = refl;
    tick_same = refl;
  }

  -- A timer that is not due yet sees nothing of the call of one that is.
  pub fire_other :
      (t : ℕ) (rest : List ℕ) (s : Timers)
      → IsValid s
      → LeavesAlone platform p
      → s.timer_list ≡ t ∷ rest
      → (t == p) ≡ false
      → Ensures (SameTimer p s) (fire platform t (record s { timer_list = rest }))
  fire_other t rest s v alone l ne =
      Ensures-map (SameTimer p (record s { timer_list = rest })) (SameTimer p s)
        (fire platform t (record s { timer_list = rest }))
        (λ u.
          SameTimer-trans p s (record s { timer_list = rest }) u (popped-SameTimer t rest s l ne))
        (fire-SameTimer t (record s { timer_list = rest }) (popped-IsValid s t rest l v) alone ne)
