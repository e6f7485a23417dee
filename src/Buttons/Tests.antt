-- ===== src/Buttons/Tests.antt =====
-- Tests of the buttons, and the theorems at concrete inputs.
use nlplatform.Prelude.{ℕ, ◌*◌, ◌≡◌, refl, true, false, List, [], ◌∷◌, arith, done}
use nlplatform.Swtimer.{Platform, timer_in_list}
use nlplatform.Swtimer.Inv.{IsValid}
use nlplatform.Buttons.{Config, Buttons, Report, isr}
use nlplatform.Buttons.Debounce.{
  Event, edge, settle, run, Alternates, Restarted, isr-Restarted, run-Alternates,
}

abbrev board : Platform
board = record { tick_rate_hz = 1000; ms_to_delay_native = λ ms. ms; call = λ f t a s. ([], 0) }

-- A button on each GPIO, which is down when the GPIO is low.
abbrev low_buttons : ℕ → Config
low_buttons i = record {
  gpio = i;
  gpio_irq_flags = 3;
  low_is_button_down = true;
  callback = 100;
  callback_context = i;
}

abbrev timer_of : ℕ → ℕ
timer_of i = 16 * i

-- The timer of button 1 is running.
abbrev idle : Buttons
idle = record {
  raw_button = λ i. false;
  debounced_button = λ i. false;
  prev_debounced_button = λ i. false;
  was_down = λ i. false;
  timers = record {
    func = λ t. 1;
    arg = λ t. 0;
    delay = λ t. 9;
    timer_list = 16 ∷ 32 ∷ [];
    overflow_list = [];
    tick_count = 4;
    system_time_ns = 0;
  };
}

idle-IsValid : IsValid idle.timers
unfolding timer_in_list
idle-IsValid = record {
  sorted = omega arith;
  late_sorted = tt;
  distinct = (refl, (refl, tt));
  late_distinct = tt;
  disjoint = (refl, (refl, tt));
  fits = (omega arith, (omega arith, tt));
  late = tt;
  tick_fits = omega arith;
}

isr-Restarted_example :
    (b' : Buttons) × (isr low_buttons board timer_of 24 (λ g. 0) 1 idle ≡ done b')
    × Restarted low_buttons board timer_of 24 1 (λ g. 0) idle b'
isr-Restarted_example =
    isr-Restarted low_buttons board timer_of 24 1 (omega arith) (λ g. 0) idle idle-IsValid
      (λ e. omega (arith, e))

-- A press that bounces, and the release.
abbrev press : List Event
press = edge (λ g. 0) ∷ edge (λ g. 1) ∷ edge (λ g. 0) ∷ settle ∷ edge (λ g. 1) ∷ settle ∷ []

run-Alternates_example :
    (out : List Report × Buttons) × (run low_buttons board timer_of 24 1 press idle ≡ done out)
    × Alternates false out.0 (out.1.debounced_button 1)
run-Alternates_example =
    run-Alternates low_buttons board timer_of 24 1 (omega arith) press idle idle-IsValid
      (λ e. omega (arith, e))
