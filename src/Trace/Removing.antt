-- ===== src/Trace/Removing.antt =====
-- `nltrace_remove_locked` of src/nltrace.c at the head of the queue.
use nlplatform.Prelude.{
  ℕ, ◌+◌, ◌<◌, ◌≡◌, refl, sym, subst, ◌∙◌, inl, inr, false, List, [], ◌∷◌, arith, ◌==◌, All, update,
  update_ne, eqb_refl, Bool-cases, done,
}
use nlplatform.Trace.{Trace, invalid, clear, unlink, remove}
use nlplatform.Trace.Queue.{
  none, Away, first, Chain-relink, Chain-next, Chain-prev, eqb_sym, IsQueue,
}
use nlplatform.Trace.Starting.{entry_done}

-- A field of a free entry.
pub cleared : (f : ℕ → ℕ) (x j v : ℕ) → ((x == j) ≡ false → f j ≡ v) → update f x v j ≡ v
cleared f x j v h = elim (Bool-cases (x == j)) [
  | inl e ↦ rw e refl
  | inr e ↦ update_ne f x j v e ∙ h e
]

-- The names of the other events stay.
pub named_others :
    (names : ℕ → ℕ) (x : ℕ) (xs : List ℕ)
    → Away x xs
    → All (λ y. 0 < names y) xs
    → All (λ y. 0 < update names x 0 y) xs
named_others names x [] a h = tt
named_others names x (y ∷ ys) a h =
    (subst (λ n. 0 < n) (sym (update_ne names x y 0 a.0)) h.0, named_others names x ys a.1 h.1)

module _ (max_events : ℕ) where
  -- What taking the head out of the queue does.
  pub remove-IsQueue :
      (tr : Trace) (x : ℕ) (xs : List ℕ)
      → IsQueue max_events tr (x ∷ xs)
      → (tr' : Trace) × (remove max_events x tr ≡ done (first max_events xs, tr'))
        × IsQueue max_events tr' xs
        × (tr'.task_name ≡ tr.task_name)
        × (tr'.name ≡ update tr.name x 0)
        × (tr'.start_us ≡ update tr.start_us x 0)
        × (tr'.end_us ≡ update tr.end_us x 0)
  unfolding remove unlink clear
  remove-IsQueue tr x [] q = (
    clear max_events x (record tr { head_ind = invalid max_events; tail_ind = invalid max_events }),
    rw (entry_done max_events x q.in_table.0, q.chain.0, q.chain.1, eqb_refl (invalid max_events))
        refl,
    record {
      chain = tt;
      head = refl;
      tail = refl;
      distinct = tt;
      in_table = tt;
      named = tt;
      free = λ j below away.
          let free = q.free j below in
          (
            cleared tr.name x j 0 (λ ne. (free (eqb_sym x j ne, away)).0),
            cleared tr.next_ind x j (invalid max_events) (λ ne. (free (eqb_sym x j ne, away)).1),
            cleared tr.prev_ind x j (invalid max_events) (λ ne. (free (eqb_sym x j ne, away)).2),
            cleared tr.end_us x j 0 (λ ne. (free (eqb_sym x j ne, away)).3),
          );
    },
    refl,
    refl,
    refl,
    refl,
  )
  remove-IsQueue tr x (y ∷ ys) q = (
    clear max_events x
        (record tr { head_ind = y; prev_ind = update tr.prev_ind y (invalid max_events) }),
    rw
        (
          entry_done max_events x q.in_table.0,
          q.chain.0,
          q.chain.1,
          eqb_refl (invalid max_events),
          valid y q.in_table.1.0,
          entry_done max_events y q.in_table.1.0,
        )
        refl,
    record {
      chain =
          Chain-next max_events tr.next_ind
            (update (update tr.prev_ind y (none max_events)) x (none max_events)) (none max_events)
            x (none max_events) (y ∷ ys) q.distinct.0
            (Chain-prev max_events tr.next_ind (update tr.prev_ind y (none max_events))
              (none max_events) x (none max_events) (y ∷ ys) q.distinct.0
              (Chain-relink max_events tr.next_ind tr.prev_ind x (none max_events) y ys
                q.distinct.1.0 q.chain.2));
      head = refl;
      tail = q.tail;
      distinct = q.distinct.1;
      in_table = q.in_table.1;
      named = named_others tr.name x (y ∷ ys) q.distinct.0 q.named.1;
      free = λ j below away.
          let free = q.free j below in
          (
            cleared tr.name x j 0 (λ ne. (free (eqb_sym x j ne, away)).0),
            cleared tr.next_ind x j (invalid max_events) (λ ne. (free (eqb_sym x j ne, away)).1),
            cleared (update tr.prev_ind y (invalid max_events)) x j (invalid max_events) (λ ne.
                update_ne tr.prev_ind y j (invalid max_events) (eqb_sym j y away.0)
                ∙ (free (eqb_sym x j ne, away)).2),
            cleared tr.end_us x j 0 (λ ne. (free (eqb_sym x j ne, away)).3),
          );
    },
    refl,
    refl,
    refl,
    refl,
  )
    where
      valid : (y : ℕ) → y < max_events → (y == max_events + 1) ≡ false
      valid y h = ground arith
