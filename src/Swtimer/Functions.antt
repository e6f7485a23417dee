-- ===== src/Swtimer/Functions.antt =====
-- What starting and cancelling do to the timer functions of src/nlswtimer.c.
use nlplatform.Prelude.{
  ℕ, Bool, ◌≡◌, refl, inl, inr, ◌==◌, Bool-cases, if_cases, update, add32, if◌then◌else◌, Ensures,
}
use nlplatform.Swtimer.{Timers, Platform, timer_is_active, link_timer, insert_locked, start, cancel}

pub cancel-func : (t : ℕ) (s : Timers) → (cancel t s).1.func ≡ s.func
unfolding cancel
cancel-func t s = if_cases (λ (r : Bool × Timers). r.1.func ≡ s.func) _ _ _ (λ h. refl) refl

link_timer-func : (t : ℕ) (s : Timers) → (link_timer t s).func ≡ s.func
unfolding link_timer
link_timer-func t s = if_cases (λ (r : Timers). r.func ≡ s.func) _ _ _ (λ h. refl) refl

insert_locked-func : (t n : ℕ) (s : Timers) → Ensures (λ s'. s'.func ≡ s.func) (insert_locked t n s)
unfolding insert_locked
insert_locked-func t n s = elim (Bool-cases (timer_is_active t s)) [
  | inl e ↦ rw e tt
  | inr e ↦ rw e (
      link_timer-func t
        (record s { delay = update s.delay t (add32 s.tick_count (if n == 0 then 1 else n)) }))
]

pub start-func :
    (platform : Platform) (t n : ℕ) (s : Timers)
    → Ensures (λ s'. s'.func ≡ s.func) (start platform t n s)
unfolding start
start-func platform t n s = elim (Bool-cases (s.func t == 0)) [
  | inl e ↦ rw e tt
  | inr e ↦ rw e (insert_locked-func t (platform.ms_to_delay_native n) s)
]
