-- ===== src/Trace/Tests.antt =====
-- Tests of the trace, and the theorems at concrete inputs.
use nlplatform.Prelude.{
  ℕ, ◌≡◌, ◌↔◌, refl, true, false, List, [], ◌∷◌, arith, update, update_ne, done, out_of_bounds,
  ◌>>=◌,
}
use nlplatform.Trace.{Trace, Line, init, event_start_with_taskname, event_end, print}
use nlplatform.Trace.Queue.{IsQueue, eqb_sym}
use nlplatform.Trace.Starting.{Started, event_start-Started}
use nlplatform.Trace.Printing.{Printed, print-Printed}
use nlplatform.Trace.Ending.{event_end-out_of_bounds}
use nlplatform.Trace.Calls.{Call, turn, start, finish, flush, calls, calls-IsQueue}

-- A table of four, where entry 2 holds an event from 10 to 30.
abbrev one_event : Trace
one_event = record {
  task_name = update (λ _. 0) 2 8;
  name = update (λ _. 0) 2 9;
  start_us = update (λ _. 0) 2 10;
  end_us = update (λ _. 0) 2 30;
  next_ind = λ _. 5;
  prev_ind = λ _. 5;
  head_ind = 2;
  tail_ind = 2;
  is_enabled = true;
  timer_id = 1;
}

one_event-IsQueue : IsQueue 4 one_event (2 ∷ [])
one_event-IsQueue = record {
  chain = (refl, refl, tt);
  head = refl;
  tail = refl;
  distinct = (tt, tt);
  in_table = (omega arith, tt);
  named = (omega arith, tt);
  free = λ j below away. (
    update_ne (λ _. 0) 2 j 9 (eqb_sym j 2 away.0),
    refl,
    refl,
    update_ne (λ _. 0) 2 j 30 (eqb_sym j 2 away.0),
  );
}

event_start-Started_example :
    (out : ℕ × Trace) × (event_start_with_taskname 4 (λ _. 40) 7 6 one_event ≡ done out)
    × Started 4 7 6 40 one_event (2 ∷ []) out
event_start-Started_example =
    event_start-Started 4 (λ _. 40) 7 6 one_event (2 ∷ []) one_event-IsQueue refl (omega arith)

print-Printed_example :
    (out : List Line × Trace) × (print 4 one_event ≡ done out) × Printed 4 one_event (2 ∷ []) out
print-Printed_example = print-Printed 4 one_event (2 ∷ []) one_event-IsQueue (omega arith, tt)

event_end-out_of_bounds_example :
    (event_end 4 (λ _. 40) 4 9 one_event ≡ out_of_bounds) ↔ ◌≡◌ {A = ℕ} 4 4
event_end-out_of_bounds_example = event_end-out_of_bounds 4 (λ _. 40) 4 9 one_event refl

-- Memory that no call has set up.
abbrev garbage : Trace
garbage = record {
  task_name = λ i. i;
  name = λ i. i;
  start_us = λ i. i;
  end_us = λ i. i;
  next_ind = λ i. i;
  prev_ind = λ i. i;
  head_ind = 0;
  tail_ind = 0;
  is_enabled = false;
  timer_id = 0;
}

-- Two events, of which the second ends first, are printed once the first has ended.
abbrev some_calls : List Call
some_calls =
    turn true
    ∷ start (λ _. 10) 9 8
    ∷ start (λ _. 20) 7 8
    ∷ finish (λ _. 30) 1 7
    ∷ flush
    ∷ finish (λ _. 40) 0 9
    ∷ flush
    ∷ start (λ _. 50) 5 8
    ∷ []

calls-IsQueue_example :
    (tr' : Trace) × (xs : List ℕ) × ((init 4 1 garbage >>= calls 4 some_calls) ≡ done tr')
    × IsQueue 4 tr' xs
calls-IsQueue_example = calls-IsQueue 4 1 garbage some_calls refl (
  tt,
  (
    omega arith,
    (
      omega arith,
      (
        (λ e. omega (arith, e), omega arith),
        (tt, ((λ e. omega (arith, e), omega arith), (tt, (omega arith, tt)))),
      ),
    ),
  ),
)
