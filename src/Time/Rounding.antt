-- ===== src/Time/Rounding.antt =====
-- How exact the conversion of src/nltime.c is.
use nlplatform.Prelude.{ℕ, ◌+◌, ◌*◌, ◌/◌, ◌≤◌, ◌<◌, arith, u64_mod}
use nlplatform.Time.{get_system_ms}

-- For every time of 64 bits the milliseconds are the time divided by a million, rounded: they are
-- ahead by half a millisecond at most, and behind by half a millisecond, ten nanoseconds and a
-- billionth of the time at most.
pub get_system_ms-rounds :
    (sys_time : ℕ)
    → sys_time < u64_mod
    → (get_system_ms sys_time * 1_000_000 ≤ sys_time + 500_000)
      × (sys_time ≤ get_system_ms sys_time * 1_000_000 + 500_010 + sys_time / 1_000_000_000)
unfolding get_system_ms
get_system_ms-rounds sys_time h = (omega arith, omega arith)
