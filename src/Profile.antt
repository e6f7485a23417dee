-- ===== src/Profile.antt =====
-- src/nlprofile.c: how long each tracked item was enabled in an interval. Times are `uint32_t`; an
-- array is a function of the index. The statistics of tasks and queues are not modelled.
pub mod Intervals
mod Tests
use nlplatform.Prelude.{
  ℕ, zero, suc, ◌+◌, Bool, true, false, not, ◌&&◌, ◌==◌, if◌then◌else◌, add32, sub32, update,
}

pub record Profile : Type 0 where
  pub enable_times : ℕ → ℕ
  pub total_times : ℕ → ℕ
  pub enabled : ℕ → Bool

-- `invalid` is `NL_PROFILE_T_INVALID`, and `now` what `nl_profile_get_current_time` returns.
pub start : (invalid now profile_index : ℕ) → Profile → Profile
start invalid now profile_index s =
    if not (profile_index == invalid)
    then record s {
      enable_times = update s.enable_times profile_index now;
      enabled = update s.enabled profile_index true;
    }
    else s

pub stop : (invalid now profile_index : ℕ) → Profile → Profile
stop invalid now profile_index s =
    if not (profile_index == invalid) && s.enabled profile_index
    then record s {
      total_times =
          update s.total_times profile_index
            (add32 (s.total_times profile_index) (sub32 now (s.enable_times profile_index)));
      enabled = update s.enabled profile_index false;
    }
    else s

-- What the product does then is its own.
pub start_new_interval : Profile → Profile
start_new_interval s = record s { total_times = λ p. 0 }

pub visit : (interval_expiry i : ℕ) → Profile → Profile
visit interval_expiry i s =
    if s.enabled i
    then record s {
      total_times =
          update s.total_times i
            (add32 (s.total_times i) (sub32 interval_expiry (s.enable_times i)));
      enable_times = update s.enable_times i interval_expiry;
    }
    else s

-- The `n` items from `i` on, with `profile_buffer`.
pub calculate_from : (interval_expiry n i : ℕ) → (ℕ → ℕ) → Profile → (ℕ → ℕ) × Profile
unfolding visit
calculate_from interval_expiry zero i profile_buffer s = (profile_buffer, s)
calculate_from interval_expiry (suc n) i profile_buffer s =
    let s' = visit interval_expiry i s in
    calculate_from interval_expiry n (i + 1) (update profile_buffer i (s'.total_times i)) s'

pub calculate_totals : (num_items interval_expiry : ℕ) → (ℕ → ℕ) → Profile → (ℕ → ℕ) × Profile
unfolding calculate_from
calculate_totals num_items interval_expiry profile_buffer s =
    calculate_from interval_expiry num_items 0 profile_buffer s
