-- ===== src/Profile/Intervals.antt =====
-- The totals that src/nlprofile.c reports over intervals.
use nlplatform.Prelude.{
  ℕ, zero, suc, ◌+◌, ◌≤◌, ◌<◌, ◌≡◌, refl, ◌∙◌, inl, inr, true, false, arith, ◌==◌, Bool-cases,
  if◌then◌else◌, add32, sub32, u32_mod, update, update_self, update_ne, ==_iff, subst, ap, ap₂,
}
use nlplatform.Profile.{
  Profile, start, stop, start_new_interval, visit, calculate_from, calculate_totals,
}

-- The total of an item that is brought up to a time.
abbrev pub total_at : ℕ → ℕ → Profile → ℕ
total_at now p s =
    if s.enabled p then add32 (s.total_times p) (sub32 now (s.enable_times p)) else s.total_times p

-- The item has been brought up to the time, and the buffer has its total.
abbrev pub BroughtUp : ℕ → ℕ → Profile → (ℕ → ℕ) × Profile → Type 0
BroughtUp now p s out =
    (out.0 p ≡ total_at now p s)
    × (out.1.total_times p ≡ total_at now p s)
    × (out.1.enabled p ≡ s.enabled p)
    × (s.enabled p ≡ true → out.1.enable_times p ≡ now)

-- What the rest of the loop does not reach.
abbrev Untouched : ℕ → (ℕ → ℕ) → Profile → (ℕ → ℕ) × Profile → Type 0
Untouched p buf s out =
    (out.0 p ≡ buf p)
    × (out.1.total_times p ≡ s.total_times p)
    × (out.1.enabled p ≡ s.enabled p)
    × (out.1.enable_times p ≡ s.enable_times p)

calculate_from-Untouched :
    (now n i p : ℕ) (buf : ℕ → ℕ) (s : Profile)
    → p < i
    → Untouched p buf s (calculate_from now n i buf s)
unfolding calculate_from visit
calculate_from-Untouched now zero i p buf s h = (refl, refl, refl, refl)
calculate_from-Untouched now (suc n) i p buf s h =
    let s' = visit now i s in
    let rest =
      calculate_from-Untouched now n (i + 1) p (update buf i (s'.total_times i)) s' (omega arith) in
    ground (arith, rest)

visit_self :
    (now i : ℕ) (s : Profile)
    → ((visit now i s).total_times i ≡ total_at now i s)
      × ((visit now i s).enabled i ≡ s.enabled i)
      × (s.enabled i ≡ true → (visit now i s).enable_times i ≡ now)
unfolding visit
visit_self now i s = elim (Bool-cases (s.enabled i)) [
  | inl e ↦ rw e (update_self s.total_times i _, e, λ on. update_self s.enable_times i now)
  | inr e ↦ rw e (refl, e, λ on. ground arith)
]

-- What is the same at another item.
visit_other :
    (now i p : ℕ) (s : Profile)
    → (i == p) ≡ false
    → ((visit now i s).total_times p ≡ s.total_times p)
      × ((visit now i s).enabled p ≡ s.enabled p)
      × ((visit now i s).enable_times p ≡ s.enable_times p)
unfolding visit
visit_other now i p s h = elim (Bool-cases (s.enabled i)) [
  | inl e ↦ rw e (update_ne s.total_times i p _ h, refl, update_ne s.enable_times i p now h)
  | inr e ↦ rw e (refl, refl, refl)
]

total_same :
    (now i p : ℕ) (s : Profile)
    → (i == p) ≡ false
    → total_at now p (visit now i s) ≡ total_at now p s
total_same now i p s h = let other = visit_other now i p s h in rw (other.0, other.1, other.2) refl

calculate_from-BroughtUp :
    (now n i p : ℕ) (buf : ℕ → ℕ) (s : Profile)
    → i ≤ p
    → p < i + n
    → BroughtUp now p s (calculate_from now n i buf s)
unfolding calculate_from
calculate_from-BroughtUp now zero i p buf s l h = absurd (omega arith)
calculate_from-BroughtUp now (suc n) i p buf s l h = elim (Bool-cases (i == p)) [
  | inl e ↦
      let rest = calculate_from-Untouched now n (i + 1) i buf' s' (omega arith) in
      let at_i : BroughtUp now i s (calculate_from now n (i + 1) buf' s') = (
        rest.0 ∙ update_self buf i (s'.total_times i) ∙ visited.0,
        rest.1 ∙ visited.0,
        rest.2 ∙ visited.1,
        λ on. rest.3 ∙ visited.2 on,
      ) in
      subst (λ k. BroughtUp now k s (calculate_from now n (i + 1) buf' s')) ((==_iff i p).0 e) at_i
  | inr e ↦
      let other = visit_other now i p s e in
      let rest = calculate_from-BroughtUp now n (i + 1) p buf' s' (ground arith) (omega arith) in
      let same = total_same now i p s e in
      (rest.0 ∙ same, rest.1 ∙ same, rest.2 ∙ other.1, λ on. rest.3 (other.1 ∙ on))
]
  where
    s' : Profile
    s' = visit now i s

    buf' : ℕ → ℕ
    buf' = update buf i (s'.total_times i)

    visited :
        ((visit now i s).total_times i ≡ total_at now i s)
        × ((visit now i s).enabled i ≡ s.enabled i)
        × (s.enabled i ≡ true → (visit now i s).enable_times i ≡ now)
    visited = visit_self now i s

-- `nl_profile_interval_calculate_totals` reports for every tracked item its total, with the time
-- since it was enabled if it is enabled, modulo 2 ^ 32. The item keeps that total, stays enabled or
-- not, and an enabled one counts as enabled from the expiry on.
calculate_totals-BroughtUp :
    (num_items interval_expiry p : ℕ) (buf : ℕ → ℕ) (s : Profile)
    → p < num_items
    → BroughtUp interval_expiry p s (calculate_totals num_items interval_expiry buf s)
unfolding calculate_totals
calculate_totals-BroughtUp num_items interval_expiry p buf s h =
    calculate_from-BroughtUp interval_expiry num_items 0 p buf s (omega arith) (omega arith)

start_item :
    (invalid now p : ℕ) (s : Profile)
    → (p == invalid) ≡ false
    → ((start invalid now p s).enabled p ≡ true)
      × ((start invalid now p s).enable_times p ≡ now)
      × ((start invalid now p s).total_times p ≡ s.total_times p)
unfolding start
start_item invalid now p s h =
    rw h (update_self s.enabled p true, update_self s.enable_times p now, refl)

stop_item :
    (invalid now p : ℕ) (s : Profile)
    → (p == invalid) ≡ false
    → s.enabled p ≡ true
    → (stop invalid now p s).total_times p ≡ add32 (s.total_times p) (sub32 now (s.enable_times p))
unfolding stop
stop_item invalid now p s h on = rw (h, on) (update_self s.total_times p _)

-- No time is lost between intervals: an item is started, an interval ends and its totals are taken,
-- a new one begins, and the item is stopped. What the first interval reports for it over its total
-- before, and its total in the second, make together the time from the start to the stop, modulo
-- 2 ^ 32. The three times are of 32 bits, and the total before is 0.
pub intervals-add :
    (num_items invalid started expiry stopped p : ℕ) (buf : ℕ → ℕ) (s : Profile)
    → p < num_items
    → (p == invalid) ≡ false
    → s.total_times p ≡ 0
    → started < u32_mod
    → expiry < u32_mod
    → stopped < u32_mod
    → let report = calculate_totals num_items expiry buf (start invalid started p s) in
      let s' = stop invalid stopped p (start_new_interval report.1) in
      add32 (report.0 p) (s'.total_times p) ≡ sub32 stopped started
unfolding start_new_interval
intervals-add num_items invalid started expiry stopped p buf s h valid none hs he ht =
    let s1 = start invalid started p s in
    let item = start_item invalid started p s valid in
    let report = calculate_totals num_items expiry buf s1 in
    let up = calculate_totals-BroughtUp num_items expiry p buf s1 h in
    let on : report.1.enabled p ≡ true = up.2 ∙ item.0 in
    let first : report.0 p ≡ add32 0 (sub32 expiry started) =
      up.0 ∙ rw (item.0, item.1, item.2, none) refl in
    let second : (stop invalid stopped p (start_new_interval report.1)).total_times p
        ≡ add32 0 (sub32 stopped expiry) =
      stop_item invalid stopped p (start_new_interval report.1) valid on
      ∙ ap (λ k. add32 0 (sub32 stopped k)) (up.3 item.0) in
    ap₂ add32 first second ∙ omega (arith, hs, he, ht)
