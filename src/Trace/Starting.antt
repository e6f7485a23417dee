-- ===== src/Trace/Starting.antt =====
-- The start of an event in src/nltrace.c.
use nlplatform.Prelude.{
  ℕ, zero, suc, ◌+◌, ◌≤◌, ◌<◌, ◌≡◌, ◌⊎◌, refl, sym, ap, subst, ◌∙◌, inl, inr, true, false, List, [],
  ◌∷◌, ◌++◌, arith, ◌==◌, lt→ltb, All, All-append, All-map, update, update_self, update_ne, ==_iff,
  if_true, eqb_refl, Bool-cases, done,
}
use nlplatform.Trace.{
  Trace, invalid, entry, alloc_from, alloc_index, insert, event_start_with_taskname,
}
use nlplatform.Trace.Queue.{
  none, Away, Away-last, Away-snoc, All-last, eqb_sym, Distinct-snoc, last, last-snoc, Chain-snoc,
  IsQueue,
}

module _ (max_events : ℕ) where
  -- The search finds a free index, or there is none.
  alloc_from_lem :
      (names : ℕ → ℕ) (n i : ℕ)
      → let ind = alloc_from max_events names n i in
        ((i ≤ ind) × (ind < i + n) × (names ind ≡ 0))
        ⊎ ((ind ≡ invalid max_events) × ((j : ℕ) → i ≤ j → j < i + n → 0 < names j))
  unfolding alloc_from
  alloc_from_lem names zero i = inr (refl, λ j h k. absurd (omega arith))
  alloc_from_lem names (suc n) i = elim (Bool-cases (names i == 0)) [
    | inl e ↦ rw e (inl (omega arith, omega arith, (==_iff (names i) 0).0 e))
    | inr e ↦ rw e (elim (alloc_from_lem names n (i + 1)) [
      | inl (a, b, c) ↦ inl (omega (arith, a), omega (arith, b), c)
      | inr (a, b) ↦ inr (a, λ j h k. later j h k e b)
    ])
  ]
    where
      above : (a b : ℕ) → a ≤ b → (a == b) ≡ false → a + 1 ≤ b
      above a b h ne = ground arith

      positive : (n : ℕ) → (n == 0) ≡ false → 0 < n
      positive n h = ground arith

      later :
          (j : ℕ)
          → i ≤ j
          → j < i + suc n
          → (names i == 0) ≡ false
          → ((j : ℕ) → i + 1 ≤ j → j < i + 1 + n → 0 < names j)
          → 0 < names j
      later j h k e b = elim (Bool-cases (i == j)) [
        | inl eq ↦ subst (λ m. 0 < names m) ((==_iff i j).0 eq) (positive (names i) e)
        | inr ne ↦ b j (above i j h ne) (omega (arith, k))
      ]

  -- A free entry is not in the queue.
  free-Away :
      (tr : Trace) (i : ℕ) (xs : List ℕ) → tr.name i ≡ 0 → All (λ x. 0 < tr.name x) xs → Away i xs
  free-Away tr i [] z h = tt
  free-Away tr i (x ∷ xs) z h = (apart, free-Away tr i xs z h.1)
    where
      clash : (n : ℕ) → 0 < n → n ≡ 0 → ⊥
      clash n h k = omega (arith, h, k)

      apart : (i == x) ≡ false
      apart = elim (Bool-cases (i == x)) [
        | inl e ↦ absurd (clash (tr.name x) h.0 (subst (λ m. tr.name m ≡ 0) ((==_iff i x).0 e) z))
        | inr e ↦ e
      ]

  pub entry_done : (i : ℕ) → i < max_events → entry max_events i ≡ done tt
  unfolding entry
  entry_done i h = rw (lt→ltb i max_events h) refl

  -- What `insert` does to the queue.
  insert-IsQueue :
      (tr : Trace) (i nm : ℕ) (tasks starts : ℕ → ℕ) (xs : List ℕ)
      → IsQueue max_events tr xs
      → i < max_events
      → tr.name i ≡ 0
      → 0 < nm
      → let tr1 : Trace = record tr {
        task_name = tasks;
        name = update tr.name i nm;
        start_us = starts;
      } in
        (tr' : Trace) × (insert max_events i tr1 ≡ done tr')
        × IsQueue max_events tr' (xs ++ (i ∷ []))
        × (tr'.name ≡ update tr.name i nm)
        × (tr'.task_name ≡ tasks)
        × (tr'.start_us ≡ starts)
        × (tr'.end_us ≡ tr.end_us)
  unfolding insert
  insert-IsQueue tr i nm tasks starts [] q lt z pos =
      let (_, nx, px, _) = q.free i lt tt in
      (
        record tr {
          task_name = tasks;
          name = update tr.name i nm;
          start_us = starts;
          head_ind = i;
          tail_ind = i;
        },
        rw (q.head, q.tail, eqb_refl (invalid max_events)) refl,
        record {
          chain = (px, nx, tt);
          head = refl;
          tail = refl;
          distinct = (tt, tt);
          in_table = (lt, tt);
          named = (subst (λ n. 0 < n) (sym (update_self tr.name i nm)) pos, tt);
          free = λ j below away.
              let (nm0, nx0, px0, e0) = q.free j below tt in
              (update_ne tr.name i j nm (eqb_sym j i away.0) ∙ nm0, nx0, px0, e0);
        },
        refl,
        refl,
        refl,
        refl,
      )
  insert-IsQueue tr i nm tasks starts (x ∷ rest) q lt z pos =
      let xs = x ∷ rest in
      let away = free-Away tr i xs z q.named in
      let t = last x rest in
      let t_lt : t < max_events = All-last (λ y. y < max_events) x rest q.in_table.0 q.in_table.1 in
      (
        record tr {
          task_name = tasks;
          name = update tr.name i nm;
          start_us = starts;
          prev_ind = update tr.prev_ind i t;
          next_ind = update (update tr.next_ind t i) i (invalid max_events);
          tail_ind = i;
        },
        rw (q.head, q.tail, in_table_valid x q.in_table.0, entry_done i lt, entry_done t t_lt) refl,
        record {
          chain =
              Chain-snoc max_events tr.next_ind tr.prev_ind (none max_events) i xs q.distinct away
                (All-map (λ y. y < max_events) (λ y. (none max_events == y) ≡ false) valid xs
                  q.in_table)
                q.chain;
          head = q.head;
          tail = sym (last-snoc i x rest);
          distinct = Distinct-snoc i xs q.distinct away;
          in_table = All-append (λ y. y < max_events) xs (i ∷ []) q.in_table (lt, tt);
          named =
              All-append (λ y. 0 < update tr.name i nm y) xs (i ∷ [])
                (All-map (λ y. 0 < tr.name y) (λ y. 0 < update tr.name i nm y) named' xs q.named)
                (subst (λ n. 0 < n) (sym (update_self tr.name i nm)) pos, tt);
          free = λ j below outside.
              let (away_j, ne) = Away-snoc j i xs outside in
              let (nm0, nx0, px0, e0) = q.free j below away_j in
              let ne' = eqb_sym j i ne in
              (
                update_ne tr.name i j nm ne' ∙ nm0,
                update_ne (update tr.next_ind t i) i j (invalid max_events) ne'
                    ∙ update_ne tr.next_ind t j i
                        (eqb_sym j t (Away-last j x rest away_j.0 away_j.1))
                    ∙ nx0,
                update_ne tr.prev_ind i j t ne' ∙ px0,
                e0,
              );
        },
        refl,
        refl,
        refl,
        refl,
      )
    where
      in_table_valid : (x : ℕ) → x < max_events → (x == max_events + 1) ≡ false
      in_table_valid x h = ground arith

      valid : (y : ℕ) → y < max_events → (max_events + 1 == y) ≡ false
      valid y h = ground arith

      named' : (y : ℕ) → 0 < tr.name y → 0 < update tr.name i nm y
      named' y h = ground arith

  -- What the start of an event comes to.
  abbrev pub Started : (nm task now : ℕ) → Trace → List ℕ → ℕ × Trace → Type 0
  Started nm task now tr xs (i, tr') =
      ((i ≡ invalid max_events) × (tr' ≡ tr) × ((j : ℕ) → j < max_events → 0 < tr.name j))
      ⊎ ((i < max_events)
          × IsQueue max_events tr' (xs ++ (i ∷ []))
          × (tr'.name i ≡ nm)
          × (tr'.task_name i ≡ task)
          × (tr'.start_us i ≡ now)
          × (tr'.end_us i ≡ 0))

  -- When tracing is enabled and the table holds a queue of events, `nltrace_event_start_with_taskname`
  -- with a name returns. Either no entry of the table is free, and it returns `INVALID_INDEX` and
  -- changes nothing; or it returns the index of an entry that now stands at the end of the queue,
  -- behind the events that were there, with the names, the time of the start and no end.
  pub event_start-Started :
      (elapsed : ℕ → ℕ) (nm task : ℕ) (tr : Trace) (xs : List ℕ)
      → IsQueue max_events tr xs
      → tr.is_enabled ≡ true
      → 0 < nm
      → (out : ℕ × Trace) × (event_start_with_taskname max_events elapsed nm task tr ≡ done out)
        × Started nm task (elapsed tr.timer_id) tr xs out
  unfolding event_start_with_taskname alloc_index
  event_start-Started elapsed nm task tr xs q on pos =
      let i = alloc_from max_events tr.name max_events 0 in
      elim (alloc_from_lem tr.name max_events 0) [
        | inr (none_free, used) ↦ (
          (i, tr),
          if_true _ _ on ∙ rw (none_free, eqb_refl (invalid max_events)) refl,
          inl (none_free, refl, λ j h. used j (omega arith) (omega (arith, h))),
        )
        | inl (_, lt, z) ↦
            let below : i < max_events = omega (arith, lt) in
            let (tr', returned, queue, nms, tasks, starts, ends) =
              insert-IsQueue tr i nm (update tr.task_name i task)
                (update tr.start_us i (elapsed tr.timer_id)) xs q below z pos in
            let away = free-Away tr i xs z q.named in
            (
              (i, tr'),
              if_true _ _ on ∙ rw (not_invalid i below, entry_done i below, returned) refl,
              inr (
                below,
                queue,
                ap (λ f. f i) nms ∙ update_self tr.name i nm,
                ap (λ f. f i) tasks ∙ update_self tr.task_name i task,
                ap (λ f. f i) starts ∙ update_self tr.start_us i (elapsed tr.timer_id),
                ap (λ f. f i) ends ∙ (q.free i below away).3,
              ),
            )
      ]
    where
      not_invalid : (i : ℕ) → i < max_events → (i == max_events + 1) ≡ false
      not_invalid i h = ground arith
