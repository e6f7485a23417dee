-- ===== src/Trace.antt =====
-- src/nltrace.c: the events that are traced, in the order they started, as a doubly linked list in a
-- table. `Trace` is `s_trace` with `s_trace_enable` and `s_trace_timer_id`, one map for each field
-- of `nltrace_event_t`, by the index in the table. A name is its address, 0 for NULL, and `elapsed`
-- is `nltimer_elapsed`. The functions run with interrupts disabled, so each is one step.
pub mod Queue
pub mod Starting
pub mod Removing
pub mod Printing
pub mod Clearing
pub mod Ending
pub mod Calls
mod Tests
use nlplatform.Prelude.{
  ℕ, zero, suc, ◌+◌, Bool, true, false, not, ◌&&◌, List, [], ◌∷◌, ltb, ◌==◌, if◌then◌else◌, sub32,
  update, Run, done, out_of_bounds, out_of_fuel, ◌>>=◌, ◌>>◌, check,
}

pub record Trace : Type 0 where
  pub task_name : ℕ → ℕ
  pub name : ℕ → ℕ
  pub start_us : ℕ → ℕ
  pub end_us : ℕ → ℕ
  pub next_ind : ℕ → ℕ
  pub prev_ind : ℕ → ℕ
  pub head_ind : ℕ
  pub tail_ind : ℕ
  pub is_enabled : Bool
  pub timer_id : ℕ

-- A line of the log: the names, the start, and the time from the start to the end.
pub record Line : Type 0 where
  pub task_name : ℕ
  pub name : ℕ
  pub start_us : ℕ
  pub elapsed_us : ℕ

pub enable : Bool → Trace → Trace
enable is_on tr = record tr { is_enabled = is_on }

-- `max_events` is `NL_TRACE_MAX_EVENTS`.
module _ (max_events : ℕ) where
  -- `INVALID_INDEX`
  abbrev pub invalid : ℕ
  invalid = max_events + 1

  -- An access to the table.
  unfoldable pub entry : ℕ → Run (Unit {0})
  entry ind = if ltb ind max_events then done tt else out_of_bounds

  -- The first free index from `i` on, among the next `n`.
  unfoldable pub alloc_from : (names : ℕ → ℕ) → (n i : ℕ) → ℕ
  alloc_from names zero i = invalid
  alloc_from names (suc n) i = if names i == 0 then i else alloc_from names n (i + 1)

  unfoldable pub alloc_index : Trace → ℕ
  alloc_index tr = alloc_from tr.name max_events 0

  unfoldable pub insert : ℕ → Trace → Run Trace
  insert ind tr =
      if (tr.head_ind == invalid) && (tr.tail_ind == invalid)
      then done (record tr { head_ind = ind; tail_ind = ind })
      else (do
        entry ind
        entry tr.tail_ind
        done (record tr {
          prev_ind = update tr.prev_ind ind tr.tail_ind;
          next_ind = update (update tr.next_ind tr.tail_ind ind) ind invalid;
          tail_ind = ind;
        }))

  -- The neighbours of an event linked to each other.
  unfoldable pub unlink : (next prev : ℕ) → Trace → Run Trace
  unlink next prev tr =
      if next == invalid
      then (if prev == invalid
          then done (record tr { head_ind = invalid; tail_ind = invalid })
          else entry prev
            >> done (record tr { tail_ind = prev; next_ind = update tr.next_ind prev invalid }))
      else (if prev == invalid
          then entry next
            >> done (record tr { head_ind = next; prev_ind = update tr.prev_ind next invalid })
          else entry prev
            >> entry next
            >> done (record tr {
              next_ind = update tr.next_ind prev next;
              prev_ind = update tr.prev_ind next prev;
            }))

  -- The fields of a free entry.
  unfoldable pub clear : ℕ → Trace → Trace
  clear ind tr = record tr {
    name = update tr.name ind 0;
    start_us = update tr.start_us ind 0;
    end_us = update tr.end_us ind 0;
    next_ind = update tr.next_ind ind invalid;
    prev_ind = update tr.prev_ind ind invalid;
  }

  -- Returns the next index.
  unfoldable pub remove : ℕ → Trace → Run (ℕ × Trace)
  remove ind tr = do
    entry ind
    let next = tr.next_ind ind
    tr' ← unlink next (tr.prev_ind ind) tr
    done (next, clear ind tr')

  unfoldable pub line : Trace → ℕ → Line
  line tr ind = record {
    task_name = tr.task_name ind;
    name = tr.name ind;
    start_us = tr.start_us ind;
    elapsed_us = sub32 (tr.end_us ind) (tr.start_us ind);
  }

  unfoldable pub print_loop : (fuel ind : ℕ) → Trace → Run (List Line × Trace)
  print_loop zero ind tr = out_of_fuel
  print_loop (suc fuel) ind tr = elim (ind == invalid) [
    | true ↦ done ([], tr)
    | false ↦ entry ind >> elim (tr.end_us ind == 0) [
      | true ↦ done ([], tr)
      | false ↦ do
        (next, tr') ← remove ind tr
        (lines, tr'') ← print_loop fuel next tr'
        done (line tr ind ∷ lines, tr'')
    ]
  ]

  -- A round takes an event out of the table.
  unfoldable pub print : Trace → Run (List Line × Trace)
  print tr = print_loop (max_events + 1) tr.head_ind tr

  clear_from : (n i : ℕ) → Trace → Trace
  clear_from zero i tr = tr
  clear_from (suc n) i tr = clear_from n (i + 1) (clear i tr)

  pub init : (timer_id : ℕ) → Trace → Run Trace
  unfolding clear_from
  init timer_id tr =
      check (not tr.is_enabled)
      >> done (
          clear_from max_events 0
            (record tr { head_ind = invalid; tail_ind = invalid; timer_id = timer_id }))

  module _ (elapsed : ℕ → ℕ) where
    -- Returns the index, or that there is none.
    unfoldable pub event_start_with_taskname : (name task_name : ℕ) → Trace → Run (ℕ × Trace)
    event_start_with_taskname name task_name tr =
        if tr.is_enabled
        then (let ind = alloc_index tr in
            if ind == invalid then done (ind, tr) else (do
              entry ind
              tr' ← insert ind (record tr {
                task_name = update tr.task_name ind task_name;
                name = update tr.name ind name;
                start_us = update tr.start_us ind (elapsed tr.timer_id);
              })
              done (ind, tr')))
        else done (invalid, tr)

    -- `isr_name` is the literal, `current_name` what the RTOS says.
    pub event_start :
        (in_interrupt : Bool) → (isr_name current_name name : ℕ) → Trace → Run (ℕ × Trace)
    event_start in_interrupt isr_name current_name name =
        event_start_with_taskname name (if in_interrupt then isr_name else current_name)

    pub event_end : (id name : ℕ) → Trace → Run Trace
    event_end id name tr =
        if tr.is_enabled && ltb id invalid
        then (do
          entry id
          done (
              if (tr.name id == name) && (tr.end_us id == 0)
              then record tr { end_us = update tr.end_us id (elapsed tr.timer_id) }
              else tr))
        else done tr
