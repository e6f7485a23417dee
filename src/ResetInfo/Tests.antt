-- ===== src/ResetInfo/Tests.antt =====
-- Tests of the reset information, and the theorems at concrete inputs.
use nlplatform.Prelude.{◌≡◌, refl, ◌⊎◌, inr, Bool, true, false, some, none, [], ◌∷◌, pos, neg, done}
use nlplatform.Flash.{Device}
use nlplatform.ResetInfo.{
  FaultInfo, ResetInfo, init, prepare_reset_bootloader, get_saved_fault, get_reset_reason,
  reset_info_magic,
}
use nlplatform.ResetInfo.Nested.{prepare_all, bootloader-saved}
use nlplatform.ResetInfo.Saved.{lives, fault-saved, lives-saved}
use nlplatform.ResetInfo.TempRam
use nlplatform.ResetInfo.TempRam.{Store}
use nlplatform.ResetInfo.TempRam.Kept.{init-flash_kept}

abbrev empty : FaultInfo
empty = record { reason = 1; description = 0 ∷ 0 ∷ 0 ∷ []; metadata = 7 ∷ [] }

abbrev started : ResetInfo
started = record { magic = 0; reset_reason = 2; fault_info = empty }

-- An assertion that failed in an earlier run is saved, and this one was asked to stop.
abbrev stopped : ResetInfo
stopped = record {
  magic = reset_info_magic;
  reset_reason = 2;
  fault_info = record empty { reason = 6; description = 97 ∷ 98 ∷ 0 ∷ [] };
}

bootloader-saved_example :
    let s' = prepare_reset_bootloader 3 7 (some (99 ∷ [])) stopped in
    (get_reset_reason s' ≡ 7)
    × (get_saved_fault empty s'
        ≡ ((pos 0, record { reason = 7; description = 99 ∷ 0 ∷ 0 ∷ []; metadata = 7 ∷ [] }), s'))
bootloader-saved_example = bootloader-saved 3 7 (some (99 ∷ [])) stopped empty refl

fault-saved_example :
    let s' = prepare_all 3 ((6, some (97 ∷ [])) ∷ (8, none) ∷ []) started in
    (get_reset_reason s' ≡ 6)
    × ((get_saved_fault empty (init (λ s. s) s')).0
        ≡ (pos 0, record { reason = 6; description = 97 ∷ 0 ∷ 0 ∷ []; metadata = 7 ∷ [] }))
fault-saved_example =
    fault-saved (λ s. s) 3 6 (97 ∷ []) ((8, none) ∷ []) started empty (λ s. refl) refl refl refl

lives-saved_example :
    (get_saved_fault empty (lives (λ s. s) 3 ((2, none) ∷ (7, none) ∷ []) stopped)).0
    ≡ (pos 0, stopped.fault_info)
lives-saved_example =
    lives-saved (λ s. s) 3 ((2, none) ∷ (7, none) ∷ []) stopped empty (λ s. refl) refl refl

-- The rest of the system is the environment's flag: is a fault saved?
abbrev no_device : Device Bool
no_device = record {
  init = none;
  request = none;
  release = none;
  flush = none;
  read_id = none;
  get_info = none;
  erase = none;
  read = none;
  write = none;
}

abbrev flag_store : Store Bool
flag_store = record {
  hw = record { device = λ id. no_device; call = λ func context w. (pos 0, w) };
  ctxs = λ id. record { lock = 0; unlock = 0; lock_ctx = 0 };
  external = 1;
  location = 0;
  size = 4096;
  info_size = 8;
  encode = λ info. [];
  decode = λ bytes. empty;
  env_get = λ len w. ((elim w [ true ↦ pos 1 | false ↦ neg 2 ], len), w);
  env_set = λ w. (pos 0, true);
  env_delete = λ w. false;
  suspend_all = λ w. w;
  init_done = λ s. s;
}

init-flash_kept_example :
    (out : ResetInfo × Bool) × (TempRam.init flag_store (record stopped { reset_reason = 6 }) true
      ≡ done out)
    × ((out.1 ≡ true) ⊎ (out.1 ≡ true))
init-flash_kept_example =
    init-flash_kept flag_store (record stopped { reset_reason = 6 }) true (inr refl)
