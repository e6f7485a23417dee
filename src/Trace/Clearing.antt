-- ===== src/Trace/Clearing.antt =====
-- `nltrace_init` of src/nltrace.c and the table that it clears.
use nlplatform.Prelude.{
  ℕ, zero, suc, ◌+◌, ◌<◌, ◌≡◌, refl, ap, ◌∙◌, false, not, [], arith, ◌==◌, done, ◌>>◌, check,
}
use nlplatform.Trace.{Trace, invalid, clear, clear_from, init}
use nlplatform.Trace.Queue.{none, IsQueue}
use nlplatform.Trace.Removing.{cleared}

-- A free entry's fields.
abbrev Free : (max_events : ℕ) → Trace → ℕ → Type 0
Free max_events tr j =
    (tr.name j ≡ 0)
    × (tr.next_ind j ≡ none max_events)
    × (tr.prev_ind j ≡ none max_events)
    × (tr.end_us j ≡ 0)

module _ (max_events : ℕ) where
  Free-clear :
      (tr : Trace) (i j : ℕ)
      → ((i == j) ≡ false → Free max_events tr j)
      → Free max_events (clear max_events i tr) j
  unfolding clear
  Free-clear tr i j h = (
    cleared tr.name i j 0 (λ ne. (h ne).0),
    cleared tr.next_ind i j (invalid max_events) (λ ne. (h ne).1),
    cleared tr.prev_ind i j (invalid max_events) (λ ne. (h ne).2),
    cleared tr.end_us i j 0 (λ ne. (h ne).3),
  )

  -- The loop leaves the head, the tail and the switch alone, and frees its entries.
  clear_from_lem :
      (n i : ℕ) (tr : Trace)
      → let tr' = clear_from max_events n i tr in
        (tr'.head_ind ≡ tr.head_ind)
        × (tr'.tail_ind ≡ tr.tail_ind)
        × (tr'.is_enabled ≡ tr.is_enabled)
        × ((j : ℕ) → (j < i → Free max_events tr j) → j < i + n → Free max_events tr' j)
  unfolding clear_from clear
  clear_from_lem zero i tr = (refl, refl, refl, λ j h k. h (omega (arith, k)))
  clear_from_lem (suc n) i tr =
      let (hd, tl, on, free) = clear_from_lem n (i + 1) (clear max_events i tr) in
      (
        hd,
        tl,
        on,
        λ j h k.
            free j (λ below. Free-clear tr i j (λ ne. h (apart j below ne))) (omega (arith, k)),
      )
    where
      apart : (j : ℕ) → j < i + 1 → (i == j) ≡ false → j < i
      apart j h ne = ground arith

  -- `nltrace_init` while tracing is disabled returns an empty queue, whatever the memory held.
  pub init-IsQueue :
      (timer_id : ℕ) (tr : Trace)
      → tr.is_enabled ≡ false
      → (tr' : Trace) × (init max_events timer_id tr ≡ done tr')
        × IsQueue max_events tr' []
        × (tr'.is_enabled ≡ false)
  unfolding init
  init-IsQueue timer_id tr off =
      let (hd, tl, on, free) = clear_from_lem max_events 0 (record tr {
        head_ind = invalid max_events;
        tail_ind = invalid max_events;
        timer_id = timer_id;
      }) in
      (
        clear_from max_events max_events 0 (record tr {
          head_ind = invalid max_events;
          tail_ind = invalid max_events;
          timer_id = timer_id;
        }),
        ap
            (λ b.
              check (not b)
              >> done (
                  clear_from max_events max_events 0 (record tr {
                    head_ind = invalid max_events;
                    tail_ind = invalid max_events;
                    timer_id = timer_id;
                  })))
            off,
        record {
          chain = tt;
          head = hd;
          tail = tl;
          distinct = tt;
          in_table = tt;
          named = tt;
          free = λ j below away. free j (λ h. absurd (omega (arith, h))) (omega (arith, below));
        },
        on ∙ off,
      )
