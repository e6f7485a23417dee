-- ===== src/Buttons/Debounce.antt =====
-- The debouncing of src/nlgpio_button.c: one button through interrupts and expiries of its timer.
use nlplatform.Prelude.{
  ℕ, ◌<◌, ◌≡◌, ◌≢◌, refl, sym, ap, subst, ◌∙◌, Bool, true, false, not, List, [], ◌∷◌, ◌++◌, ◌==◌,
  max, if◌then◌else◌, update, update_self, Run, done, ◌>>=◌, u32_mod, Ensures,
}
use nlplatform.Swtimer.{Platform, timer_is_active, cancel}
use nlplatform.Swtimer.Inv.{IsValid, Keeps, cancel-Keeps}
use nlplatform.Swtimer.Functions.{cancel-func, start-func}
use nlplatform.Swtimer.Tick.{start-Keeps}
use nlplatform.Swtimer.View.{remaining, start_lem, cancel_lem, SameTimer-view}
use nlplatform.Buttons.{Config, Buttons, Report, is_down, debounce_handler, isr, differ, report}

-- What a report says changes from one report to the next, from `old` before the first to `new`.
abbrev pub Alternates : (old : Bool) → List Report → (new : Bool) → Type 0
Alternates old [] new = new ≡ old
Alternates old (r ∷ rs) new = (r.button_down ≡ not old) × Alternates (not old) rs new

Alternates-append :
    (old mid new : Bool) (rs rs' : List Report)
    → Alternates old rs mid
    → Alternates mid rs' new
    → Alternates old (rs ++ rs') new
Alternates-append old mid new [] rs' h k = subst (λ b. Alternates b rs' new) h k
Alternates-append old mid new (r ∷ rs) rs' h k =
    (h.0, Alternates-append (not old) mid new rs rs' h.1 k)

-- An interrupt, with the values of the GPIOs, and the expiry of the timer.
pub data Event : Type 0 where
  edge : (value : ℕ → ℕ) → Event
  settle : Event

reported-Alternates :
    (config : Config) (button_id : ℕ) (new old : Bool)
    → Alternates old (if differ new old then report config button_id new ∷ [] else []) new
unfolding differ report
reported-Alternates config button_id true true = refl
reported-Alternates config button_id true false = (refl, refl)
reported-Alternates config button_id false true = (refl, refl)
reported-Alternates config button_id false false = refl

module _ (config : ℕ → Config) (platform : Platform) (timer_of : ℕ → ℕ) (interval_ms : ℕ)
    (button_id : ℕ) where
  -- One button's events in order, with all that is reported.
  abbrev pub run : List Event → Buttons → Run (List Report × Buttons)
  run [] b = done ([], b)
  run (edge value ∷ es) b = isr config platform timer_of interval_ms value button_id b >>= run es
  run (settle ∷ es) b = do
    let handled = debounce_handler config button_id b
    (reports, b') ← run es handled.1
    done (handled.0 ++ reports, b')

  handler-Alternates :
      (b : Buttons)
      → let (reports, b') = debounce_handler config button_id b in
        Alternates (b.debounced_button button_id) reports (b'.debounced_button button_id)
        × (b'.timers ≡ b.timers)
  unfolding debounce_handler
  handler-Alternates b =
      let new = b.raw_button button_id in
      let old = b.debounced_button button_id in
      (
        subst (Alternates old (debounce_handler config button_id b).0)
            (sym (update_self b.debounced_button button_id new))
            (reported-Alternates (config button_id) button_id new old),
        refl,
      )

  -- What an interrupt does.
  pub record Restarted (value : ℕ → ℕ) (b b' : Buttons) : Type 0 where
    pub raw : b'.raw_button button_id ≡ is_down config value button_id
    pub down : b'.was_down button_id ≡ true
    pub kept : b'.debounced_button ≡ b.debounced_button
    pub active : timer_is_active (timer_of button_id) b'.timers ≡ true
    pub due_in :
        remaining (timer_of button_id) b'.timers ≡ max 1 (platform.ms_to_delay_native interval_ms)
    pub others :
        (p : ℕ)
        → (timer_of button_id == p) ≡ false
        → (timer_is_active p b'.timers ≡ timer_is_active p b.timers)
          × (remaining p b'.timers ≡ remaining p b.timers)
    pub valid : IsValid b'.timers
    pub funcs : b'.timers.func ≡ b.timers.func

  module _ (fits : platform.ms_to_delay_native interval_ms < u32_mod) where
    -- The interrupt of a button whose timer has a function, on valid chains and with an interval
    -- within 32 bits of ticks, returns: no assertion of the timers fails, whether or not the timer
    -- was running. The button counts as having been down, its raw state is that of its GPIO, the
    -- debounced one is what it was, its timer is due after the interval and all other timers
    -- are what they were.
    pub isr-Restarted :
        (value : ℕ → ℕ) (b : Buttons)
        → IsValid b.timers
        → b.timers.func (timer_of button_id) ≢ 0
        → (b' : Buttons) × (isr config platform timer_of interval_ms value button_id b ≡ done b')
          × Restarted value b b'
    unfolding isr
    isr-Restarted value b v f =
        let t = timer_of button_id in
        let s = (cancel t b.timers).1 in
        let (_, stopped, same) = cancel_lem t b.timers v in
        let keeps = cancel-Keeps t b.timers v in
        let (s', started, view) =
          start_lem platform t interval_ms s keeps.valid
            (λ e. f (ap (λ g. g t) (sym (cancel-func t b.timers)) ∙ e)) stopped fits in
        let k : Ensures (Keeps s) (done s') =
          subst (Ensures (Keeps s)) started (start-Keeps platform t interval_ms s keeps.valid) in
        let g : Ensures (λ u. u.func ≡ s.func) (done s') =
          subst (Ensures (λ u. u.func ≡ s.func)) started (start-func platform t interval_ms s) in
        (
          record b {
            was_down = update b.was_down button_id true;
            raw_button = update b.raw_button button_id (is_down config value button_id);
            timers = s';
          },
          rw started refl,
          record {
            raw = update_self b.raw_button button_id (is_down config value button_id);
            down = update_self b.was_down button_id true;
            kept = refl;
            active = view.active;
            due_in = view.due_in;
            others = λ p ne.
                let (a1, r1) = view.others p ne in
                let (a2, r2) = SameTimer-view p b.timers s (same p ne) in (a1 ∙ a2, r1 ∙ r2);
            valid = k.valid;
            funcs = g ∙ cancel-func t b.timers;
          },
        )

    -- Any interrupts of a button whose timer has a function, and expiries of its timer, on valid
    -- chains and with an interval within 32 bits of ticks, return. The states that are reported
    -- alternate, the first one differs from the debounced state before, and the last one is the debounced
    -- state at the end; if nothing is reported, that state is what it was.
    pub run-Alternates :
        (es : List Event) (b : Buttons)
        → IsValid b.timers
        → b.timers.func (timer_of button_id) ≢ 0
        → (out : List Report × Buttons) × (run es b ≡ done out)
          × Alternates (b.debounced_button button_id) out.0 (out.1.debounced_button button_id)
    run-Alternates [] b v f = (([], b), refl, refl)
    run-Alternates (edge value ∷ es) b v f =
        let (b1, returned, h) = isr-Restarted value b v f in
        let (out, others, alternate) =
          run-Alternates es b1 h.valid
            (λ e. f (ap (λ g. g (timer_of button_id)) (sym h.funcs) ∙ e)) in
        (
          out,
          rw (returned, others) refl,
          subst (λ g. Alternates (g button_id) out.0 (out.1.debounced_button button_id)) h.kept
              alternate,
        )
    run-Alternates (settle ∷ es) b v f =
        let b1 = (debounce_handler config button_id b).1 in
        let (alternate, same) = handler-Alternates b in
        let (out, others, later) =
          run-Alternates es b1 (subst IsValid (sym same) v)
            (λ e. f (ap (λ s. s.func (timer_of button_id)) (sym same) ∙ e)) in
        (
          ((debounce_handler config button_id b).0 ++ out.0, out.1),
          rw others refl,
          Alternates-append (b.debounced_button button_id) (b1.debounced_button button_id)
              (out.1.debounced_button button_id) (debounce_handler config button_id b).0 out.0
              alternate later,
        )
