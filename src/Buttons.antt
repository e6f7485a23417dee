-- ===== src/Buttons.antt =====
-- src/nlgpio_button.c: buttons on GPIOs. `Buttons` is `s_button_states`, one map for each field, by
-- the button, in the build that debounces; the timers in it are those of src/nlswtimer.c, where
-- `timer_of` is the address of a button's timer. A callback is a report in a list.
pub mod Debounce
mod Tests
use nlplatform.Prelude.{
  ℕ, zero, suc, ◌+◌, ◌*◌, Bool, true, false, not, ◌||◌, ◌&&◌, List, [], ◌∷◌, ◌==◌, if◌then◌else◌,
  update, Run, done, ◌>>=◌, ℤ, pos, is_zero,
}
use nlplatform.Swtimer.{Timers, Platform}
use nlplatform.Swtimer

-- `nlgpio_button_config_t`. A callback is its address, 0 for NULL.
pub record Config : Type 0 where
  pub gpio : ℕ
  pub gpio_irq_flags : ℕ
  pub low_is_button_down : Bool
  pub callback : ℕ
  pub callback_context : ℕ

-- A call of a callback.
pub record Report : Type 0 where
  pub callback : ℕ
  pub button_id : ℕ
  pub button_down : Bool
  pub context : ℕ

pub record Buttons : Type 0 where
  pub raw_button : ℕ → Bool
  pub debounced_button : ℕ → Bool
  pub prev_debounced_button : ℕ → Bool
  pub was_down : ℕ → Bool
  pub timers : Timers

pub report : Config → ℕ → Bool → Report
report config button_id button_down = record {
  callback = config.callback;
  button_id = button_id;
  button_down = button_down;
  context = config.callback_context;
}

-- The test `new != old`.
pub differ : Bool → Bool → Bool
differ true old = not old
differ false old = old

-- `config` is `nlgpio_button_config_table`; `value` is what `nlgpio_get_value` returns for a GPIO.
module _ (config : ℕ → Config) where
  pub is_down : (value : ℕ → ℕ) → ℕ → Bool
  is_down value button_id =
      let is_high = not (value (config button_id).gpio == 0) in
      if (config button_id).low_is_button_down then not is_high else is_high

  -- Returns the restart delay, that is none, with the state. It runs when the timer expires.
  pub debounce_handler : ℕ → Buttons → List Report × Buttons
  unfolding report differ
  debounce_handler button_id b =
      let old = b.debounced_button button_id in
      let new = b.raw_button button_id in
      let b' : Buttons = record b {
        prev_debounced_button = update b.prev_debounced_button button_id old;
        debounced_button = update b.debounced_button button_id new;
      } in
      (if differ new old then report (config button_id) button_id new ∷ [] else [], b')

  module _ (platform : Platform) (timer_of : ℕ → ℕ) (interval_ms : ℕ) where
    pub isr : (value : ℕ → ℕ) → ℕ → Buttons → Run Buttons
    unfolding is_down
    isr value button_id b = do
      timers ←
          Swtimer.start platform (timer_of button_id) interval_ms
            (Swtimer.cancel (timer_of button_id) b.timers).1
      done (record b {
        was_down = update b.was_down button_id true;
        raw_button = update b.raw_button button_id (is_down value button_id);
        timers = timers;
      })

  -- `irq_request` is `nlgpio_irq_request`'s result for a GPIO, flags and a button; `handler` is the
  -- address of the timer function.
  module _ (irq_request : (gpio flags button_id : ℕ) → ℤ) (timer_of : ℕ → ℕ) (handler : ℕ) where
    -- One button's part of `init`.
    pub set_up : (value : ℕ → ℕ) → ℕ → Buttons → ℤ × Buttons
    unfolding is_down
    set_up value i b = (
      irq_request (config i).gpio (config i).gpio_irq_flags i,
      record b {
        timers = Swtimer.init (timer_of i) handler i b.timers;
        debounced_button = update b.debounced_button i (is_down value i);
        prev_debounced_button = update b.prev_debounced_button i (is_down value i);
      },
    )

    -- The buttons from `i` on, `n` of them.
    pub init_from : (value : ℕ → ℕ) → (n i : ℕ) → Buttons → ℤ × Buttons
    unfolding set_up
    init_from value zero i b = (pos 0, b)
    init_from value (suc n) i b = elim ((config i).callback == 0) [
      | true ↦ init_from value n (i + 1) b
      | false ↦
          let (status, b') = set_up value i b in
          elim (is_zero status) [ true ↦ init_from value n (i + 1) b' | false ↦ (status, b') ]
    ]

    -- `num_buttons` is `NL_NUM_GPIO_BUTTONS`.
    pub init : (num_buttons : ℕ) → (value : ℕ → ℕ) → Buttons → ℤ × Buttons
    unfolding init_from
    init num_buttons value b = init_from value num_buttons 0 b

  -- The interrupt in the build that does not debounce.
  pub isr_direct : (value : ℕ → ℕ) → ℕ → (was_down : ℕ → Bool) → List Report × (ℕ → Bool)
  unfolding is_down report
  isr_direct value button_id was_down = (
    report (config button_id) button_id (is_down value button_id) ∷ [],
    update was_down button_id true,
  )

  -- The build with simulated buttons: what is simulated, and whether a button was down.
  pub simulate_state :
      ℕ → (button_down : Bool) → (ℕ → Bool) × (ℕ → Bool) → List Report × (ℕ → Bool) × (ℕ → Bool)
  unfolding report
  simulate_state button_id button_down (simulated_state, was_down) = (
    if (config button_id).callback == 0
        then []
        else report (config button_id) button_id button_down ∷ [],
    update simulated_state button_id button_down,
    if button_down then update was_down button_id true else was_down,
  )
