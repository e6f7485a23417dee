-- ===== src/ResetInfo.antt =====
-- src/nlreset_info.c: why the system was last reset, in RAM that a reset keeps. This file has what
-- both builds share and the build with dedicated RAM; TempRam has the one with overlaid RAM and
-- flash. A description that is NULL is `none`.
pub mod TempRam
pub mod Nested
pub mod Saved
mod Tests
use nlplatform.Prelude.{
  ℕ, zero, suc, ◌-◌, Bool, true, false, not, ◌&&◌, ◌||◌, Option, none, some, List, [], ◌∷◌, ltb,
  leb, ◌==◌, if◌then◌else◌, ℤ, pos, neg, is_zero,
}

-- `metadata` is the registers, the names and the backtraces that the fault handlers fill in.
pub record FaultInfo : Type 0 where
  pub reason : ℕ
  pub description : List ℕ
  pub metadata : List ℕ

pub record ResetInfo : Type 0 where
  pub magic : ℕ
  pub reset_reason : ℕ
  pub fault_info : FaultInfo

abbrev pub reset_info_magic : ℕ
reset_info_magic = 0x1234_abcd

-- `NL_RESET_REASON_UNKNOWN` and so on.
abbrev pub reason_unknown : ℕ
reason_unknown = 1

abbrev pub reason_count : ℕ
reason_count = 5

abbrev pub first_fault : ℕ
first_fault = reason_count

abbrev pub last_fault : ℕ
last_fault = 8

abbrev pub is_valid_reset_reason : ℕ → Bool
is_valid_reset_reason reason = ltb reason reason_count

abbrev pub is_valid_fault_reason : ℕ → Bool
is_valid_fault_reason reason = leb first_fault reason && leb reason last_fault

-- `strncpy(dst, src, n)`: what `dst` then holds.
abbrev pub strncpy : (n : ℕ) → List ℕ → List ℕ
strncpy zero src = []
strncpy (suc n) [] = 0 ∷ strncpy n []
strncpy (suc n) (c ∷ cs) = c ∷ strncpy n cs

abbrev pub describe : (size : ℕ) → Option (List ℕ) → FaultInfo → FaultInfo
describe size none info = info
describe size (some text) info = record info { description = strncpy size text }

-- The bytes of the structure become 0.
abbrev zeros : List ℕ → List ℕ
zeros [] = []
zeros (x ∷ xs) = 0 ∷ zeros xs

pub clear_saved_fault : ResetInfo → ResetInfo
clear_saved_fault s = record s {
  fault_info = record {
    reason = reason_unknown;
    description = zeros s.fault_info.description;
    metadata = zeros s.fault_info.metadata;
  };
}

-- The linker can replace `nlplatform_reset_info_init_done`; `init_done` is what it does.
pub init : (init_done : ResetInfo → ResetInfo) → ResetInfo → ResetInfo
unfolding clear_saved_fault
init init_done s =
    let s' =
      if not (s.magic == reset_info_magic)
      then clear_saved_fault (record s { reset_reason = reason_unknown })
      else s in
    init_done (record s' { magic = 0 })

module _ (description_length : ℕ) where
  pub set :
      (reset_reason : ℕ) → Option (List ℕ) → (override_fault_reason : Bool) → ResetInfo → ResetInfo
  set reset_reason description override_fault_reason s =
      let s' = record s { magic = reset_info_magic; reset_reason = reset_reason } in
      if is_valid_fault_reason reset_reason
        && ((s.fault_info.reason == reason_unknown) || override_fault_reason)
      then record s' {
        fault_info =
            describe description_length description (record s.fault_info { reason = reset_reason });
      }
      else s'

  pub prepare_reset : (reset_reason : ℕ) → Option (List ℕ) → ResetInfo → ResetInfo
  unfolding set
  prepare_reset reset_reason description s =
      if not (s.magic == reset_info_magic) then set reset_reason description false s else s

  pub prepare_reset_bootloader : (reset_reason : ℕ) → Option (List ℕ) → ResetInfo → ResetInfo
  unfolding set
  prepare_reset_bootloader reset_reason description s =
      if not (s.magic == reset_info_magic) || is_valid_fault_reason reset_reason
      then set reset_reason description true s
      else s

-- The result, what `*saved_fault_info` then holds, and the state.
pub get_saved_fault : FaultInfo → ResetInfo → (ℤ × FaultInfo) × ResetInfo
unfolding clear_saved_fault
get_saved_fault saved s =
    let (retval, saved') : ℤ × FaultInfo =
      if is_valid_fault_reason s.fault_info.reason then (pos 0, s.fault_info) else (neg 1, saved) in
    if is_zero retval && not (is_valid_fault_reason saved'.reason)
    then ((neg 1, saved'), clear_saved_fault s)
    else ((retval, saved'), s)

pub get_reset_reason : ResetInfo → ℕ
get_reset_reason s =
    if (s.magic == reset_info_magic)
      && (is_valid_reset_reason s.reset_reason || is_valid_fault_reason s.reset_reason)
    then s.reset_reason
    else reason_unknown
