-- ===== src/ResetInfo/TempRam.antt =====
-- src/nlreset_info.c in the build with BUILD_FEATURE_RESET_INFO_IN_TEMP_RAM: the fault is kept in
-- flash, and the environment says that one is there. Without the DEBUG output.
pub mod Kept
use nlplatform.Prelude.{
  ℕ, Bool, true, false, not, ◌&&◌, ◌||◌, Option, List, ◌==◌, if◌then◌else◌, Run, done, ◌>>=◌, ℤ,
  pos, neg, is_negative, is_zero,
}
use nlplatform.Flash
use nlplatform.Flash.{FlashCtx, Hardware}
use nlplatform.ResetInfo.{
  FaultInfo, ResetInfo, reset_info_magic, reason_unknown, is_valid_fault_reason, describe,
}

-- The product's part: the flash, the place for the fault, how the structure lies in memory, and the
-- environment's entry. `env_get` takes and gives the length.
pub record Store (World : Type 0) : Type 0 where
  pub hw : Hardware World
  pub ctxs : ℕ → FlashCtx
  pub external : ℕ
  pub location : ℕ
  pub size : ℕ
  pub info_size : ℕ
  pub encode : FaultInfo → List ℕ
  pub decode : List ℕ → FaultInfo
  pub env_get : ℕ → World → (ℤ × ℕ) × World
  pub env_set : World → ℤ × World
  pub env_delete : World → World
  pub suspend_all : World → World
  pub init_done : ResetInfo → ResetInfo

module _ {World : Type 0} (store : Store World) where
  -- The three steps, each after the one before has succeeded.
  pub write_fault : (retlen : ℕ) → FaultInfo → World → Run (ℤ × World)
  write_fault retlen info w =
      Flash.erase store.hw store.ctxs store.external store.location store.size retlen 0 w
      >>= λ erased.
          if is_negative erased.0.0
          then done (erased.0.0, erased.1)
          else (Flash.write store.hw store.ctxs store.external store.location store.info_size
                erased.0.1 (store.encode info) 0 erased.1
              >>= λ written.
                  if is_negative written.0.0
                  then done (written.0.0, written.1)
                  else done (store.env_set written.1))

  pub save_fault_to_flash : ResetInfo → World → Run ((ℤ × ResetInfo) × World)
  unfolding write_fault
  save_fault_to_flash s w =
      let ((retval, retlen), w') = store.env_get 1 w in
      if not (is_negative retval)
      then done ((retval, s), w')
      else (let s' = record s { fault_info = record s.fault_info { reason = s.reset_reason } } in
          write_fault retlen s'.fault_info w' >>= λ out. done ((out.0, s'), out.1))

  pub init : ResetInfo → World → Run (ResetInfo × World)
  unfolding save_fault_to_flash
  init s w =
      let s' =
        if not (s.magic == reset_info_magic)
        then record s {
          reset_reason = reason_unknown;
          fault_info = record s.fault_info { reason = reason_unknown };
        }
        else s in
      let saved : Run (ResetInfo × World) =
        if (s'.magic == reset_info_magic) && is_valid_fault_reason s'.reset_reason
        then (save_fault_to_flash s' w >>= λ out. done (out.0.1, out.1))
        else done (s', w) in
      saved >>= λ out. done (store.init_done (record out.0 { magic = 0 }), out.1)

  pub clear_saved_fault : World → World
  clear_saved_fault w = store.env_delete w

  pub get_saved_fault : FaultInfo → World → Run ((ℤ × FaultInfo) × World)
  unfolding clear_saved_fault
  get_saved_fault saved w =
      let ((found, retlen), w') = store.env_get 1 w in
      let loaded : Run ((ℤ × FaultInfo) × World) =
        if not (is_negative found)
        then (Flash.read store.hw store.ctxs store.external store.location store.info_size retlen
              (store.encode saved) 0 w'
            >>= λ out. done ((out.0.0, store.decode out.0.1.1), out.1))
        else done ((neg 1, saved), w') in
      loaded >>= λ out.
      if is_zero out.0.0 && not (is_valid_fault_reason out.0.1.reason)
      then done ((neg 1, out.0.1), clear_saved_fault out.1)
      else done out

module _ (description_length : ℕ) where
  pub set : (reset_reason : ℕ) → Option (List ℕ) → ResetInfo → ResetInfo
  set reset_reason description s =
      let s' = record s { magic = reset_info_magic; reset_reason = reset_reason } in
      if is_valid_fault_reason reset_reason
      then record s' {
        fault_info =
            describe description_length description
              (record s.fault_info { reason = reason_unknown });
      }
      else s'

  pub prepare_reset :
      {World : Type 0}
      → Store World
      → (reset_reason : ℕ) → Option (List ℕ)
      → ResetInfo
      → World
      → ResetInfo × World
  unfolding set
  prepare_reset store reset_reason description s w = (
    if not (s.magic == reset_info_magic) then set reset_reason description s else s,
    store.suspend_all w,
  )

  pub prepare_reset_bootloader : (reset_reason : ℕ) → Option (List ℕ) → ResetInfo → ResetInfo
  unfolding set
  prepare_reset_bootloader reset_reason description s =
      if not (s.magic == reset_info_magic) || is_valid_fault_reason reset_reason
      then set reset_reason description s
      else s
