-- ===== src/ResetInfo/TempRam/Kept.antt =====
-- When the start of the system leaves the flash alone, in the build of src/nlreset_info.c with
-- overlaid RAM.
use nlplatform.Prelude.{
  ◌≡◌, refl, ◌⊎◌, inl, inr, Bool, true, false, ◌&&◌, arith, ◌==◌, Bool-cases, done, is_negative,
}
use nlplatform.ResetInfo.{ResetInfo, reset_info_magic, reason_unknown, is_valid_fault_reason}
use nlplatform.ResetInfo.TempRam
use nlplatform.ResetInfo.TempRam.{Store, save_fault_to_flash}

settle : {P : Type 0} (a b : Bool) → ((a && b) ≡ false) ⊎ P → a ≡ true → b ≡ true → P
settle a b (inr p) x y = p
settle a b (inl h) x y = absurd (ground arith)

module _ {World : Type 0} (store : Store World) where
  save-dirty :
      (s : ResetInfo) (w : World)
      → is_negative (store.env_get 1 w).0.0 ≡ false
      → save_fault_to_flash store s w ≡ done (((store.env_get 1 w).0.0, s), (store.env_get 1 w).1)
  unfolding save_fault_to_flash
  save-dirty s w h = rw h refl

  -- `nl_reset_info_init` returns and writes nothing to the flash and to the environment, when no
  -- fault was recorded by a reset, and when the environment says that a fault is saved already: all
  -- that it does to the rest of the system then is to ask the environment.
  pub init-flash_kept :
      (s : ResetInfo) (w : World)
      → (((s.magic == reset_info_magic) && is_valid_fault_reason s.reset_reason) ≡ false)
        ⊎ (is_negative (store.env_get 1 w).0.0 ≡ false)
      → (out : ResetInfo × World) × (TempRam.init store s w ≡ done out)
        × ((out.1 ≡ w) ⊎ (out.1 ≡ (store.env_get 1 w).1))
  unfolding TempRam.init
  init-flash_kept s w h = elim (Bool-cases (s.magic == reset_info_magic)) [
    | inr e ↦ (
      (
        store.init_done (record s {
          magic = 0;
          reset_reason = reason_unknown;
          fault_info = record s.fault_info { reason = reason_unknown };
        }),
        w,
      ),
      rw (e, e) refl,
      inl refl,
    )
    | inl e ↦ elim (Bool-cases (is_valid_fault_reason s.reset_reason)) [
      | inr v ↦ ((store.init_done (record s { magic = 0 }), w), rw (e, e, v) refl, inl refl)
      | inl v ↦ (
        (store.init_done (record s { magic = 0 }), (store.env_get 1 w).1),
        rw (e, e, v, save-dirty s w (settle _ _ h e v)) refl,
        inr refl,
      )
    ]
  ]
