-- ===== src/Swtimer.antt =====
-- src/nlswtimer.c: software timers on the RTOS tick. `Timers` is its static state: one map for
-- each field of `nl_swtimer_entry_t`, by the entry's address (0 is NULL), and for the two chains
-- the addresses along their `next` fields. Each function runs with interrupts disabled, so it is
-- one step.
pub mod Lists
pub mod Inv
pub mod Tick
pub mod View
pub mod Functions
pub mod Advance
pub mod Spare
pub mod OnTime
pub mod Sleep
pub mod Order
mod Tests
use nlplatform.Prelude.{
  ℕ, zero, suc, ◌+◌, ◌*◌, ◌/◌, ◌%◌, Bool, true, false, not, ◌||◌, List, [], ◌∷◌, ◌++◌, ltb, leb,
  ◌==◌, if◌then◌else◌, Run, done, out_of_fuel, ◌>>=◌, ◌>>◌, check, add32, sub32, u64_mod, update,
  length,
}

pub record Timers : Type 0 where
  pub func : ℕ → ℕ
  pub arg : ℕ → ℕ
  pub delay : ℕ → ℕ
  pub timer_list : List ℕ
  pub overflow_list : List ℕ
  pub tick_count : ℕ
  pub system_time_ns : ℕ

-- What a timer function may do to the timers.
pub data Action : Type 0 where
  start_timer : (t delay_ms : ℕ) → Action
  cancel_timer : (t : ℕ) → Action
  init_timer : (t func arg : ℕ) → Action

-- The platform's and the product's part: `configTICK_RATE_HZ`, `nl_time_ms_to_delay_time_native`,
-- and the timer functions. Called with its address, the timer's and its argument, a timer function
-- makes its calls of this module in order and returns the restart delay. For the address 0 `call`
-- stands for whatever the platform makes of a jump to NULL.
pub record Platform : Type 0 where
  pub tick_rate_hz : ℕ
  pub ms_to_delay_native : ℕ → ℕ
  pub call : ℕ → ℕ → ℕ → Timers → List Action × ℕ

unfoldable pub timer_in_list : ℕ → List ℕ → Bool
timer_in_list t [] = false
timer_in_list t (p ∷ ps) = if p == t then true else timer_in_list t ps

pub timer_is_active : ℕ → Timers → Bool
timer_is_active t s = timer_in_list t s.timer_list || timer_in_list t s.overflow_list

-- The sleep is cut to the first timer's delay; it is refused if that timer is already due.
pub idle_time : (ℕ → ℕ) → ℕ → ℕ → List ℕ → Bool × ℕ
idle_time delay now expected [] = (true, expected)
idle_time delay now expected (p ∷ ps) =
    if ltb now (delay p)
    then (true, if ltb (sub32 (delay p) now) expected then sub32 (delay p) now else expected)
    else (false, expected)

-- Returns the result, `*xExpectedIdleTime` and `*before_sleep_tick_count`. `rtos_ticks` is what
-- `xTaskGetTickCount()` returns.
pub pre_sleep : (rtos_ticks expected : ℕ) → Timers → Run (Bool × ℕ × ℕ)
pre_sleep rtos_ticks expected s = do
  let idle = idle_time s.delay s.tick_count expected s.timer_list
  check (leb rtos_ticks s.tick_count)
  check (leb (sub32 s.tick_count rtos_ticks) 3)
  done (idle.0, idle.1, rtos_ticks)

-- `next` becomes NULL: a chain that holds the timer ends there.
pub cut_after : ℕ → List ℕ → List ℕ
cut_after t [] = []
cut_after t (p ∷ ps) = let rest = cut_after t ps in if p == t then p ∷ [] else p ∷ rest

pub init : (t func arg : ℕ) → Timers → Timers
unfolding cut_after
init t func arg s = record s {
  func = update s.func t func;
  arg = update s.arg t arg;
  timer_list = cut_after t s.timer_list;
  overflow_list = cut_after t s.overflow_list;
}

-- The walk to the first timer with a later delay, and the link before it.
pub insert_sorted : (ℕ → ℕ) → ℕ → List ℕ → List ℕ
insert_sorted delay t [] = t ∷ []
insert_sorted delay t (p ∷ ps) =
    if ltb (delay t) (delay p) then t ∷ p ∷ ps else p ∷ insert_sorted delay t ps

pub link_timer : ℕ → Timers → Timers
unfolding insert_sorted
link_timer t s =
    if ltb s.tick_count (s.delay t)
    then record s { timer_list = insert_sorted s.delay t s.timer_list }
    else record s { overflow_list = insert_sorted s.delay t s.overflow_list }

pub insert_locked : (t delay_in_ticks : ℕ) → Timers → Run Timers
unfolding timer_is_active timer_in_list link_timer
insert_locked t delay_in_ticks s = do
  check (not (timer_is_active t s))
  let ticks = if delay_in_ticks == 0 then 1 else delay_in_ticks
  done (link_timer t (record s { delay = update s.delay t (add32 s.tick_count ticks) }))

pub remove_from_list : ℕ → List ℕ → Bool × List ℕ
remove_from_list t [] = (false, [])
remove_from_list t (p ∷ ps) =
    let rest = remove_from_list t ps in if p == t then (true, ps) else (rest.0, p ∷ rest.1)

pub cancel : ℕ → Timers → Bool × Timers
unfolding remove_from_list
cancel t s =
    let (removed, timers) = remove_from_list t s.timer_list in
    if removed
    then (true, record s { timer_list = timers })
    else (let (late, overflow) = remove_from_list t s.overflow_list in
        (late, record s { timer_list = timers; overflow_list = overflow }))

-- Delays of zero for all timers of a chain, at the wrap of the tick count.
pub zero_delays : List ℕ → (ℕ → ℕ) → ℕ → ℕ
zero_delays [] delay = delay
zero_delays (p ∷ ps) delay = zero_delays ps (update delay p 0)

pub merge_lists : Timers → Timers
unfolding zero_delays
merge_lists s = record s {
  delay = zero_delays s.timer_list s.delay;
  timer_list = s.timer_list ++ s.overflow_list;
  overflow_list = [];
}

module _ (platform : Platform) where
  open platform use {tick_rate_hz, ms_to_delay_native, call}

  pub ns_per_tick : ℕ
  ns_per_tick = 1_000_000_000 / tick_rate_hz

  pub post_sleep : (before after : ℕ) → Timers → Run Timers
  unfolding ns_per_tick
  post_sleep before after s = do
    check (leb before after)
    let slept = sub32 after before
    done (record s {
      tick_count = add32 s.tick_count slept;
      system_time_ns = (s.system_time_ns + slept * ns_per_tick) % u64_mod;
    })

  pub start : (t delay_ms : ℕ) → Timers → Run Timers
  unfolding insert_locked
  start t delay_ms s = do
    check (not (s.func t == 0))
    insert_locked t (ms_to_delay_native delay_ms) s

  pub act : Action → Timers → Run Timers
  unfolding start cancel init
  act (start_timer t delay_ms) s = start t delay_ms s
  act (cancel_timer t) s = done (cancel t s).1
  act (init_timer t func arg) s = done (init t func arg s)

  pub perform : List Action → Timers → Run Timers
  perform [] s = done s
  perform (a ∷ rest) s = act a s >>= perform rest

  -- The restart that a timer function's result asks for. Since it is aligned on the tick interrupt,
  -- it is one tick shorter than a start.
  pub restart : (t new_delay : ℕ) → Timers → Run Timers
  unfolding insert_locked
  restart t new_delay s =
      if new_delay == 0 then done s else insert_locked t (sub32 (ms_to_delay_native new_delay) 1) s

  pub fire : ℕ → Timers → Run Timers
  unfolding perform restart
  fire t s = do
    let result = call (s.func t) t (s.arg t) s
    s' ← perform result.0 s
    restart t result.1 s'

  -- The loop of the tick handler, with fuel.
  pub run_expired : (fuel now : ℕ) → Timers → Run Timers
  run_expired zero now s = out_of_fuel
  run_expired (suc fuel) now s = elim s.timer_list [
    | [] ↦ done s
    | t ∷ rest ↦ elim (leb (s.delay t) now) [
      | true ↦ fire t (record s { timer_list = rest }) >>= λ s'. run_expired fuel now s'
      | false ↦ done s
    ]
  ]

  pub advance_tick : Timers → Timers
  unfolding merge_lists ns_per_tick
  advance_tick s =
      let s' = record s {
        tick_count = add32 s.tick_count 1;
        system_time_ns = (s.system_time_ns + ns_per_tick) % u64_mod;
      } in
      if ltb s'.tick_count s.tick_count then merge_lists s' else s'

  -- The fuel covers every timer that can be due.
  pub rtos_tick_handler : Timers → Run Timers
  unfolding advance_tick run_expired fire
  rtos_tick_handler s =
      let s' = advance_tick s in run_expired (suc (length s'.timer_list)) s'.tick_count s'
