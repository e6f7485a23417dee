-- ===== src/Trace/Ending.antt =====
-- `nltrace_event_end` of src/nltrace.c with the index of no entry.
use nlplatform.Prelude.{
  ℕ, ◌+◌, ◌≡◌, ◌↔◌, refl, sym, arith, ap, update, ◌>>◌, ◌∙◌, Bool, true, false, ◌&&◌, ltb, ◌==◌,
  if◌then◌else◌, Run, done, out_of_bounds,
}
use nlplatform.Trace.{Trace, invalid, entry, event_end}

-- The two tests of the index, the one of the code and the one of the access.
abbrev tested : (on valid inside : Bool) → (tr' tr : Trace) → Run Trace
tested on valid inside tr' tr =
    if on && valid then (if inside then done tt else out_of_bounds) >> done tr' else done tr

tested_lem :
    (valid inside : Bool) (tr' tr : Trace)
    → tested true valid inside tr' tr ≡ out_of_bounds
    → (valid ≡ true) × (inside ≡ false)
tested_lem true true tr' tr h = absurd (cc h)
tested_lem true false tr' tr h = (refl, refl)
tested_lem false inside tr' tr h = absurd (cc h)

module _ (max_events : ℕ) where
  -- While tracing is enabled, `nltrace_event_end` accesses the table out of bounds exactly when the
  -- index is `NL_TRACE_MAX_EVENTS`, which the test against `INVALID_INDEX` lets pass.
  pub event_end-out_of_bounds :
      (elapsed : ℕ → ℕ) (id nm : ℕ) (tr : Trace)
      → tr.is_enabled ≡ true
      → (event_end max_events elapsed id nm tr ≡ out_of_bounds) ↔ (id ≡ max_events)
  unfolding event_end entry
  event_end-out_of_bounds elapsed id nm tr on =
      let tr' =
        if (tr.name id == nm) && (tr.end_us id == 0)
        then record tr { end_us = update tr.end_us id (elapsed tr.timer_id) }
        else tr in
      let valid = ltb id (invalid max_events) in
      let inside = ltb id max_events in
      (
        λ h.
            let (v, i) =
              tested_lem valid inside tr' tr
                (ap (λ b. tested b valid inside tr' tr) (sym on) ∙ h) in
            between id v i,
        λ h.
            ap (λ b. tested b valid inside tr' tr) on
            ∙ ap (λ b. tested true b inside tr' tr) (next id h)
            ∙ ap (λ b. tested true true b tr' tr) (outside id h),
      )
    where
      between :
          (id : ℕ) → ltb id (max_events + 1) ≡ true → ltb id max_events ≡ false → id ≡ max_events
      between id h k = ground arith

      next : (id : ℕ) → id ≡ max_events → ltb id (max_events + 1) ≡ true
      next id h = ground arith

      outside : (id : ℕ) → id ≡ max_events → ltb id max_events ≡ false
      outside id h = ground arith
