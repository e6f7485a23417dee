-- ===== src/Swtimer/Tick.antt =====
-- The tick handler of src/nlswtimer.c: it ends whatever the timer functions do, it keeps the
-- chains valid, and it leaves no timer due.
use nlplatform.Prelude.{
  ℕ, zero, suc, ◌≤◌, ◌<◌, ◌≡◌, ◌∙◌, inl, inr, true, false, List, [], ◌∷◌, arith, subst, leb, ◌==◌,
  leb_false→lt, Bool-cases, All, All-map, sub32, done, ◌>>=◌, Ensures, Ensures-bind, Ensures-map,
  Ensures-and, leb→le, List-cases,
}
use nlplatform.Swtimer.{
  Timers, Platform, Action, start_timer, cancel_timer, init_timer, start, act, perform, fire,
  restart, run_expired,
}
use nlplatform.Swtimer.Lists.{Sorted}
use nlplatform.Swtimer.Inv.{
  IsValid, Keeps, Keeps-refl, Keeps-trans, insert_locked-Keeps, cancel-Keeps, init-Keeps, due,
}

-- What the loop leaves: valid chains, at the same tick, and no timer due.
pub record Settled (now : ℕ) (s : Timers) : Type 0 where
  pub valid : IsValid s
  pub same_tick : s.tick_count ≡ now
  pub none_due : All (λ p. now < s.delay p) s.timer_list

-- The chain without its first timer.
pub popped-IsValid :
    (s : Timers) (t : ℕ) (rest : List ℕ)
    → s.timer_list ≡ t ∷ rest
    → IsValid s
    → IsValid (record s { timer_list = rest })
popped-IsValid s t rest l v =
    let w : IsValid (record s { timer_list = t ∷ rest }) =
      subst (λ xs. IsValid (record s { timer_list = xs })) l v in
    record {
      sorted = w.sorted.1;
      late_sorted = v.late_sorted;
      distinct = w.distinct.1;
      late_distinct = v.late_distinct;
      disjoint = w.disjoint.1;
      fits = w.fits.1;
      late = v.late;
      tick_fits = v.tick_fits;
    }

-- In a sorted chain nothing is due once the first timer is not.
not_due_behind :
    (f : ℕ → ℕ) (now : ℕ) (xs : List ℕ)
    → (t : ℕ) (rest : List ℕ) → xs ≡ t ∷ rest
    → now < f t
    → Sorted f xs
    → All (λ p. now < f p) xs
not_due_behind f now xs t rest l lt s =
    let h : Sorted f (t ∷ rest) = subst (Sorted f) l s in
    rw l (lt, All-map (λ p. f t ≤ f p) (λ p. now < f p) (λ p le. omega arith) rest h.0)

due-popped :
    (now : ℕ) (s : Timers) (t : ℕ) (rest : List ℕ) (s' : Timers) {n : ℕ}
    → s.timer_list ≡ t ∷ rest
    → s.tick_count ≡ now
    → leb (s.delay t) now ≡ true
    → Keeps (record s { timer_list = rest }) s'
    → due now s.delay s.timer_list < suc n
    → due now s'.delay s'.timer_list < n
unfolding due
due-popped now s t rest s' l e d k h =
    let le : due now s'.delay s'.timer_list ≤ due now s.delay rest =
      subst (λ n. due n s'.delay s'.timer_list ≤ due n s.delay rest) e k.due_le in
    let more : due now s.delay s.timer_list ≡ suc (due now s.delay rest) = ground arith in
    omega arith

module _ (platform : Platform) where
  pub start-Keeps :
      (t delay_ms : ℕ) (s : Timers) → IsValid s → Ensures (Keeps s) (start platform t delay_ms s)
  unfolding start
  start-Keeps t n s v = elim (Bool-cases (s.func t == 0)) [
    | inl e ↦ rw e tt
    | inr e ↦ rw e (insert_locked-Keeps t (platform.ms_to_delay_native n) s v)
  ]

  pub act-Keeps : (a : Action) (s : Timers) → IsValid s → Ensures (Keeps s) (act platform a s)
  unfolding act
  act-Keeps (start_timer t n) s v = start-Keeps t n s v
  act-Keeps (cancel_timer t) s v = cancel-Keeps t s v
  act-Keeps (init_timer t f a) s v = init-Keeps t f a s v

  -- Any sequence of calls of start, cancel and init, on valid chains, stops at an assertion or
  -- leaves the chains valid at the same tick, and no more timers due than before.
  pub perform-Keeps :
      (actions : List Action) (s : Timers)
      → IsValid s
      → Ensures (Keeps s) (perform platform actions s)
  unfolding perform
  perform-Keeps [] s v = Keeps-refl s v
  perform-Keeps (a ∷ rest) s v =
      Ensures-bind (Keeps s) (Keeps s) (act platform a s) (perform platform rest) (act-Keeps a s v)
        λ s' k.
          Ensures-map (Keeps s') (Keeps s) (perform platform rest s') (λ u. Keeps-trans s s' u k)
            (perform-Keeps rest s' k.valid)

  restart-Keeps : (t n : ℕ) (s : Timers) → IsValid s → Ensures (Keeps s) (restart platform t n s)
  unfolding restart
  restart-Keeps t n s v = elim (Bool-cases (n == 0)) [
    | inl e ↦ rw e (Keeps-refl s v)
    | inr e ↦ rw e (insert_locked-Keeps t (sub32 (platform.ms_to_delay_native n) 1) s v)
  ]

  pub fire-Keeps : (t : ℕ) (s : Timers) → IsValid s → Ensures (Keeps s) (fire platform t s)
  unfolding fire
  fire-Keeps t s v =
      Ensures-bind (Keeps s) (Keeps s) (perform platform result.0 s) (restart platform t result.1)
        (perform-Keeps result.0 s v)
        λ s' k.
          Ensures-map (Keeps s') (Keeps s) (restart platform t result.1 s')
            (λ u. Keeps-trans s s' u k) (restart-Keeps t result.1 s' k.valid)
    where
      result : List Action × ℕ
      result = platform.call (s.func t) t (s.arg t) s

  -- The three ways of one round.
  module _ (fuel now : ℕ) (s : Timers) where
    round_empty : s.timer_list ≡ [] → run_expired platform (suc fuel) now s ≡ done s
    unfolding run_expired
    round_empty l = ground arith

    round_due :
        (t : ℕ) (rest : List ℕ)
        → s.timer_list ≡ t ∷ rest
        → leb (s.delay t) now ≡ true
        → run_expired platform (suc fuel) now s
          ≡ (fire platform t (record s { timer_list = rest }) >>= run_expired platform fuel now)
    unfolding run_expired
    round_due t rest l d = ground arith

    round_not_due :
        (t : ℕ) (rest : List ℕ)
        → s.timer_list ≡ t ∷ rest
        → leb (s.delay t) now ≡ false
        → run_expired platform (suc fuel) now s ≡ done s
    unfolding run_expired
    round_not_due t rest l d = ground arith

  -- The loop with fuel for every timer that is due: it ends, it settles the timers, and it keeps
  -- what each call of a due timer's function keeps.
  pub run_expired_inv :
      (J : Timers → Type 0) (now : ℕ)
      → ((s : Timers) (t : ℕ) (rest : List ℕ)
          → IsValid s
          → s.tick_count ≡ now
          → s.timer_list ≡ t ∷ rest
          → s.delay t ≤ now
          → J s
          → Ensures J (fire platform t (record s { timer_list = rest })))
      → (fuel : ℕ) (s : Timers) → IsValid s
      → s.tick_count ≡ now
      → due now s.delay s.timer_list < fuel
      → J s
      → Ensures (λ s'. Settled now s' × J s') (run_expired platform fuel now s)
  run_expired_inv J now keep zero s v e h j = absurd (omega arith)
  run_expired_inv J now keep (suc fuel) s v e h j = elim (List-cases s.timer_list) [
    | inl l ↦
        rw (round_empty fuel now s l) (record { valid = v; same_tick = e; none_due = rw l tt }, j)
    | inr (t, rest, l) ↦ elim (Bool-cases (leb (s.delay t) now)) [
      | inl d ↦ rw (round_due fuel now s t rest l d) (
          Ensures-bind (λ s'. Keeps (record s { timer_list = rest }) s' × J s')
            (λ s'. Settled now s' × J s') (fire platform t (record s { timer_list = rest }))
            (run_expired platform fuel now)
            (Ensures-and (Keeps (record s { timer_list = rest })) J
              (fire platform t (record s { timer_list = rest }))
              (fire-Keeps t (record s { timer_list = rest }) (popped-IsValid s t rest l v))
              (keep s t rest v e l (leb→le _ _ d) j))
            λ s' k.
              run_expired_inv J now keep fuel s' k.0.valid (k.0.same_tick ∙ e)
                (due-popped now s t rest s' l e d k.0 h) k.1)
      | inr d ↦ rw (round_not_due fuel now s t rest l d) (
        record {
          valid = v;
          same_tick = e;
          none_due = not_due_behind s.delay now s.timer_list t rest l (leb_false→lt _ _ d) v.sorted;
        },
        j,
      )
    ]
  ]
