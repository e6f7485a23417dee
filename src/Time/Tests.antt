-- ===== src/Time/Tests.antt =====
-- Tests of the system time, and the theorem at a concrete input.
use nlplatform.Prelude.{◌+◌, ◌*◌, ◌/◌, ◌≤◌, ◌≡◌, refl, arith}
use nlplatform.Time.{get_system_ms}
use nlplatform.Time.Rounding.{get_system_ms-rounds}

an_hour : get_system_ms 3_600_000_400_000 ≡ 3_600_000
unfolding get_system_ms
an_hour = refl

get_system_ms-rounds_example :
    (get_system_ms 3_600_000_400_000 * 1_000_000 ≤ 3_600_000_900_000)
    × (3_600_000_400_000
        ≤ get_system_ms 3_600_000_400_000 * 1_000_000 + 500_010 + 3_600_000_400_000 / 1_000_000_000)
get_system_ms-rounds_example = get_system_ms-rounds 3_600_000_400_000 (omega arith)
