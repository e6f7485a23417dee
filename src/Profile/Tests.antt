-- ===== src/Profile/Tests.antt =====
-- Tests of the profile, and the theorems at concrete inputs.
use nlplatform.Prelude.{◌≡◌, refl, false, arith, add32}
use nlplatform.Profile.{Profile, start, stop, start_new_interval, calculate_totals}
use nlplatform.Profile.Intervals.{intervals-add}

abbrev idle : Profile
idle = record { enable_times = λ p. 0; total_times = λ p. 0; enabled = λ p. false }

-- Enabled from 10 to 25, with the end of the interval at 18.
eight_of_fifteen : (calculate_totals 3 18 (λ p. 0) (start 9 10 1 idle)).0 1 ≡ 8
unfolding calculate_totals start
eight_of_fifteen = refl

-- The clock wraps between the start and the expiry.
intervals-add_example :
    let report = calculate_totals 3 18 (λ p. 0) (start 9 0xffff_fff0 1 idle) in
    add32 (report.0 1) ((stop 9 25 1 (start_new_interval report.1)).total_times 1) ≡ 41
intervals-add_example =
    intervals-add 3 9 0xffff_fff0 18 25 1 (λ p. 0) idle (omega arith) refl refl (omega arith)
      (omega arith) (omega arith)
