-- ===== src/Time.antt =====
-- src/nltime.c: the system time in milliseconds and in microseconds, from that of the software
-- timers in nanoseconds. The sums and products are of 64 bits.
pub mod Rounding
mod Tests
use nlplatform.Prelude.{ℕ, ◌+◌, ◌*◌, ◌/◌, ◌%◌, ◌^◌, u64_mod}

-- A millionth in Q49.
abbrev pub millionth : ℕ
millionth = 0x218D_EF41

pub get_system_ms : (sys_time : ℕ) → ℕ
get_system_ms sys_time =
    let upper = (sys_time / 2 ^ 32 * millionth) % u64_mod in
    let lower = (sys_time % 2 ^ 32 * millionth) % u64_mod in
    let sum = (upper + lower / 2 ^ 32) % u64_mod in (sum + 2 ^ 16) % u64_mod / 2 ^ 17

pub get_system_us : (sys_time : ℕ) → ℕ
unfolding get_system_ms
get_system_us sys_time = get_system_ms sys_time * 1000
