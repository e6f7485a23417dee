-- ===== src/Swtimer/Tests.antt =====
-- Tests of the software timers, and the theorems at concrete inputs.
use nlplatform.Prelude.{
  ℕ, ◌+◌, ◌≤◌, ◌≡◌, refl, Bool, false, [], ◌∷◌, arith, if◌then◌else◌, ◌==◌, All, update, done,
  ◌>>=◌, Ensures,
}
use nlplatform.Swtimer.{
  Timers, start_timer, cancel_timer, Platform, timer_is_active, timer_in_list, pre_sleep,
  post_sleep, idle_time, start, cancel, perform, insert_sorted, rtos_tick_handler, advance_tick,
}
use nlplatform.Swtimer.Inv.{IsValid, Keeps}
use nlplatform.Swtimer.Tick.{Settled, perform-Keeps}
use nlplatform.Swtimer.Advance.{IsPunctual, rtos_tick_handler-Settled, remaining-advance}
use nlplatform.Swtimer.View.{remaining, Started, start_lem, SameTimer, cancel_lem}
use nlplatform.Swtimer.OnTime.{Waits, Restarted, ticks, ticks-Waits, ticks-Restarted}
use nlplatform.Swtimer.Sleep.{Idles, pre_sleep-Idles, post_sleep_lem}

-- A tick each millisecond; the timer 16 asks for a restart after ten, any other for none.
abbrev board : Platform
board = record {
  tick_rate_hz = 1000;
  ms_to_delay_native = λ ms. ms + 1;
  call = λ func t arg s. ([], if t == 16 then 10 else 0);
}

-- Two timers in the current list, one after the wrap, and one (64) that is not started.
abbrev running : Timers
running = record {
  func = λ p. 5;
  arg = λ p. 0;
  delay = update (update (update (λ p. 0) 16 5) 32 9) 48 2;
  timer_list = 16 ∷ 32 ∷ [];
  overflow_list = 48 ∷ [];
  tick_count = 3;
  system_time_ns = 3_000_000;
}

running-IsValid : IsValid running
unfolding timer_in_list
running-IsValid = record {
  sorted = omega arith;
  late_sorted = omega arith;
  distinct = (refl, (refl, tt));
  late_distinct = (refl, tt);
  disjoint = (refl, (refl, tt));
  fits = omega arith;
  late = omega arith;
  tick_fits = omega arith;
}

running-IsPunctual : IsPunctual running
running-IsPunctual = omega arith

-- Two ticks later the first timer has run, and waits for ten more ticks.
two_ticks :
    ticks board 2 running
    ≡ done (record running {
      delay = update running.delay 16 15;
      timer_list = 32 ∷ 16 ∷ [];
      tick_count = 5;
      system_time_ns = 5_000_000;
    })
unfolding ticks rtos_tick_handler
two_ticks = refl

-- The same delay goes behind; the list order is that of the starts.
same_delay :
    (s : Timers)
    → s ≡ running
    → insert_sorted (update s.delay 64 5) 64 s.timer_list ≡ 16 ∷ 64 ∷ 32 ∷ []
unfolding insert_sorted
same_delay s e = rw e

rtos_tick_handler-Settled_example : Ensures (Settled 4) (rtos_tick_handler board running)
rtos_tick_handler-Settled_example = rtos_tick_handler-Settled running running-IsValid board

ticks-Waits_example :
    Ensures (λ s'. IsValid s' × IsPunctual s' × Waits 32 2 s') (ticks board 4 running)
unfolding timer_is_active timer_in_list remaining
ticks-Waits_example =
    ticks-Waits board 32 (λ f t a s. tt) 4 1 running running-IsValid running-IsPunctual (refl, refl)

ticks-Restarted_example :
    Ensures (Restarted board 16 10) (ticks board 1 running >>= rtos_tick_handler board)
unfolding timer_is_active timer_in_list remaining
ticks-Restarted_example =
    ticks-Restarted board 16 10 (λ f t a s. tt) (λ f a s. refl) (λ n. omega arith) 1 running
      running-IsValid running-IsPunctual (refl, refl)

start_lem_example : (s' : Timers) × (start board 64 19 running ≡ done s') × Started 64 20 running s'
unfolding timer_is_active timer_in_list
start_lem_example =
    start_lem board 64 19 running running-IsValid (λ e. omega arith) refl (omega arith)

cancel_lem_example :
    ((cancel 48 running).0 ≡ timer_is_active 48 running)
    × (timer_is_active 48 (cancel 48 running).1 ≡ false)
    × ((p : ℕ) → (48 == p) ≡ false → SameTimer p running (cancel 48 running).1)
cancel_lem_example = cancel_lem 48 running running-IsValid

perform-Keeps_example :
    Ensures
      (Keeps running)
      (perform board (cancel_timer 16 ∷ start_timer 64 7 ∷ start_timer 16 0 ∷ []) running)
perform-Keeps_example = perform-Keeps board _ running running-IsValid

-- The last tick before the wrap.
abbrev at_wrap : Timers
at_wrap = record running { timer_list = []; overflow_list = 48 ∷ []; tick_count = 0xffff_ffff }

at_wrap-IsValid : IsValid at_wrap
unfolding timer_in_list
at_wrap-IsValid = record {
  sorted = tt;
  late_sorted = omega arith;
  distinct = tt;
  late_distinct = (refl, tt);
  disjoint = tt;
  fits = tt;
  late = omega arith;
  tick_fits = omega arith;
}

remaining-advance_example : remaining 48 (advance_tick board at_wrap) + 1 ≡ remaining 48 at_wrap
unfolding timer_is_active timer_in_list
remaining-advance_example = remaining-advance board at_wrap at_wrap-IsValid tt 48 refl

pre_sleep-Idles_example :
    (ready : Bool) × (idle : ℕ) × (pre_sleep 1 100 running ≡ done (ready, idle, 1))
    × Idles 100 running (ready, idle)
pre_sleep-Idles_example = pre_sleep-Idles 1 100 running running-IsValid (omega arith) (omega arith)

post_sleep_lem_example :
    (s' : Timers) × (post_sleep board 1 3 running ≡ done s')
    × IsValid s'
    × (s'.tick_count ≡ 5)
    × All (λ p. s'.tick_count ≤ s'.delay p) s'.timer_list
unfolding pre_sleep idle_time
post_sleep_lem_example =
    post_sleep_lem board 1 100 2 3 running running-IsValid refl (omega arith) (omega arith)
      (omega arith)
