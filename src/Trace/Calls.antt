-- ===== src/Trace/Calls.antt =====
-- The calls of src/nltrace.c in any order, from `nltrace_init` on.
use nlplatform.Prelude.{
  ℕ, ◌+◌, ◌<◌, ◌≡◌, ◌≢◌, refl, sym, ap, subst, ◌∙◌, inl, inr, Bool, true, false, ◌&&◌, List, [],
  ◌∷◌, ◌++◌, arith, ◌==◌, ltb, if◌then◌else◌, if_false, if_cases, All, update, update_ne, ==_iff,
  Bool-cases, Run, done, ◌>>=◌,
}
use nlplatform.Trace.{Trace, invalid, init, enable, event_start_with_taskname, event_end, print}
use nlplatform.Trace.Queue.{IsQueue}
use nlplatform.Trace.Starting.{entry_done, event_start-Started}
use nlplatform.Trace.Clearing.{init-IsQueue}
use nlplatform.Trace.Printing.{pending, print_lem}

-- A call with the clock that it reads. `nltrace_print` gives its lines to the log.
pub data Call : Type 0 where
  turn : (is_on : Bool) → Call
  start : (elapsed : ℕ → ℕ) (name task_name : ℕ) → Call
  finish : (elapsed : ℕ → ℕ) (id name : ℕ) → Call
  flush : Call

-- Events have names, and none is ended by the index after the table's last.
abbrev pub IsProper : (max_events : ℕ) → Call → Type 0
IsProper max_events (turn is_on) = Unit
IsProper max_events (start elapsed name task_name) = 0 < name
IsProper max_events (finish elapsed id name) = (id ≢ max_events) × (0 < name)
IsProper max_events flush = Unit

module _ (max_events : ℕ) where
  abbrev pub call : Call → Trace → Run Trace
  call (turn is_on) tr = done (enable is_on tr)
  call (start elapsed name task_name) tr = do
    (ind, tr') ← event_start_with_taskname max_events elapsed name task_name tr
    done tr'
  call (finish elapsed id name) tr = event_end max_events elapsed id name tr
  call flush tr = do (lines, tr') ← print max_events tr; done tr'

  abbrev pub calls : List Call → Trace → Run Trace
  calls [] tr = done tr
  calls (c ∷ cs) tr = do tr' ← call c tr; calls cs tr'

  -- The end of an event changes no more than the time of its end.
  event_end_lem :
      (elapsed : ℕ → ℕ) (id nm : ℕ) (tr : Trace) (xs : List ℕ)
      → IsQueue max_events tr xs
      → id ≢ max_events
      → 0 < nm
      → (tr' : Trace) × (event_end max_events elapsed id nm tr ≡ done tr')
        × IsQueue max_events tr' xs
  unfolding event_end
  event_end_lem elapsed id nm tr xs q ne pos =
      let ended_tr = record tr { end_us = update tr.end_us id (elapsed tr.timer_id) } in
      let tr1 = if (tr.name id == nm) && (tr.end_us id == 0) then ended_tr else tr in
      if_cases (λ r. (tr' : Trace) × (r ≡ done tr') × IsQueue max_events tr' xs)
        (tr.is_enabled && ltb id (invalid max_events)) _ _
        (λ h. (
          tr1,
          ap (λ (r : Run (Unit {0})). r >>= λ _. done tr1)
              (entry_done max_events id
                (below id (and_right tr.is_enabled (ltb id (invalid max_events)) h) ne)),
          if_cases (λ tr'. IsQueue max_events tr' xs) ((tr.name id == nm) && (tr.end_us id == 0)) _
              _
              (λ same. record {
                chain = q.chain;
                head = q.head;
                tail = q.tail;
                distinct = q.distinct;
                in_table = q.in_table;
                named = q.named;
                free = λ j lt away.
                    let (nm0, nx0, px0, e0) = q.free j lt away in
                    (
                      nm0,
                      nx0,
                      px0,
                      update_ne tr.end_us id j (elapsed tr.timer_id)
                            (other j nm0 (and_left (tr.name id == nm) (tr.end_us id == 0) same))
                          ∙ e0,
                    );
              })
              q,
        ))
        (tr, refl, q)
    where
      and_left : (a b : Bool) → (a && b) ≡ true → a ≡ true
      and_left true b h = refl
      and_left false b h = h

      and_right : (a b : Bool) → (a && b) ≡ true → b ≡ true
      and_right true b h = h
      and_right false true h = refl
      and_right false false h = h

      below : (id : ℕ) → ltb id (max_events + 1) ≡ true → id ≢ max_events → id < max_events
      below id h ne = ground arith

      named : (n : ℕ) → n ≡ 0 → (n == nm) ≡ true → ⊥
      named n z h = ground arith

      other : (j : ℕ) → tr.name j ≡ 0 → (tr.name id == nm) ≡ true → (id == j) ≡ false
      other j z h = elim (Bool-cases (id == j)) [
        | inl e ↦ absurd (named (tr.name id) (ap tr.name ((==_iff id j).0 e) ∙ z) h)
        | inr e ↦ e
      ]

  call_lem :
      (c : Call) (tr : Trace) (xs : List ℕ)
      → IsQueue max_events tr xs
      → IsProper max_events c
      → (tr' : Trace) × (xs' : List ℕ) × (call c tr ≡ done tr') × IsQueue max_events tr' xs'
  unfolding enable event_start_with_taskname
  call_lem (turn is_on) tr xs q p = (
    enable is_on tr,
    xs,
    refl,
    record {
      chain = q.chain;
      head = q.head;
      tail = q.tail;
      distinct = q.distinct;
      in_table = q.in_table;
      named = q.named;
      free = q.free;
    },
  )
  call_lem (start elapsed nm task) tr xs q p = elim (Bool-cases tr.is_enabled) [
    | inl on ↦
        let ((i, tr'), returned, started) =
          event_start-Started max_events elapsed nm task tr xs q on p in
        elim started [
          | inl (_, same, _) ↦
              (tr', xs, rw returned refl, subst (λ t. IsQueue max_events t xs) (sym same) q)
          | inr (_, queue, _, _, _, _) ↦ (tr', xs ++ (i ∷ []), rw returned refl, queue)
        ]
    | inr off ↦ (tr, xs, ap (λ (r : Run (ℕ × Trace)). r >>= λ p. done p.1) (if_false _ _ off), q)
  ]
  call_lem (finish elapsed id nm) tr xs q p =
      let (tr', returned, queue) = event_end_lem elapsed id nm tr xs q p.0 p.1 in
      (tr', xs, returned, queue)
  call_lem flush tr xs q p =
      let ((lines, tr'), returned, (_, queue, _)) = print_lem max_events tr xs q in
      (tr', pending tr xs, rw returned refl, queue)

  calls_lem :
      (cs : List Call) (tr : Trace) (xs : List ℕ)
      → IsQueue max_events tr xs
      → All (IsProper max_events) cs
      → (tr' : Trace) × (xs' : List ℕ) × (calls cs tr ≡ done tr') × IsQueue max_events tr' xs'
  calls_lem [] tr xs q ps = (tr, xs, refl, q)
  calls_lem (c ∷ cs) tr xs q ps =
      let (tr1, xs1, first_call, q1) = call_lem c tr xs q ps.0 in
      let (tr2, xs2, others, q2) = calls_lem cs tr1 xs1 q1 ps.1 in
      (tr2, xs2, rw (first_call, others) refl, q2)

  -- After `nltrace_init` with tracing disabled, any calls of the trace return, where each event that is
  -- started or ended has a name and none is ended by the index `NL_TRACE_MAX_EVENTS`: no access is outside
  -- the table, no loop goes on for ever, and the links of the table form one queue of distinct events
  -- from head to tail, with all other entries free.
  pub calls-IsQueue :
      (timer_id : ℕ) (tr : Trace) (cs : List Call)
      → tr.is_enabled ≡ false
      → All (IsProper max_events) cs
      → (tr' : Trace) × (xs : List ℕ) × ((init max_events timer_id tr >>= calls cs) ≡ done tr')
        × IsQueue max_events tr' xs
  calls-IsQueue timer_id tr cs off ps =
      let (tr1, started, q, _) = init-IsQueue max_events timer_id tr off in
      let (tr2, xs, returned, q') = calls_lem cs tr1 [] q ps in (tr2, xs, rw started returned, q')
