-- ===== src/Flash/Tests.antt =====
-- Tests of the flash access, and the theorems at concrete inputs.
use mathlib.Core.Option.{some-injective}
use nlplatform.Prelude.{
  subst, ℕ, suc, ◌-◌, ◌≡◌, refl, some, none, List, [], ◌∷◌, arith, ◌==◌, take, drop, if◌then◌else◌,
  done, out_of_bounds, Ensures, WhenDone, ℤ, pos, neg,
}
use nlplatform.Flash.{
  FlashCtx, FlashInfo, Device, Hardware, under_lock, lock, unlock, flush, read_id, get_info, read,
  write, erase,
}
use nlplatform.Flash.Locks.{Counts, DeviceKeeps, operations-depth}
use nlplatform.Flash.Errors.{Succeeds, read-Succeeds, lock_failed-erase}

-- The lock's count, and the bytes of the flash.
abbrev Chip : Type 0
Chip = ℕ × List ℕ

abbrev chip_info : FlashInfo
chip_info = record { base_addr = 0; size = 8; erase_size = 4; fast_erase_size = 4; write_size = 1 }

abbrev chip_read : (from len retlen : ℕ) → List ℕ → ℕ → Chip → (ℤ × (ℕ × List ℕ)) × Chip
chip_read from len retlen buf callback w = ((pos 0, (len, take len (drop from w.1))), w)

abbrev chip_device : Device Chip
chip_device = record {
  init = none;
  request = none;
  release = none;
  flush = some (λ w. (pos 0, w));
  read_id = none;
  get_info = some (λ w. (some chip_info, w));
  erase = some (λ from len retlen callback w. ((pos 0, len), w));
  read = some chip_read;
  write = some (λ to len retlen buf callback w. ((pos 0, len), w));
}

-- The function 1 locks, 2 unlocks, and any other fails.
abbrev chip_call : ℕ → ℕ → Chip → ℤ × Chip
chip_call func context w =
    if func == 1
    then (pos 0, (suc w.0, w.1))
    else (if func == 2 then (pos 0, (w.0 - 1, w.1)) else (neg 5, w))

abbrev chip_hw : Hardware Chip
chip_hw = record { device = λ id. chip_device; call = chip_call }

-- The device 0 has a lock that works, the others one that fails.
abbrev chip_ctxs : ℕ → FlashCtx
chip_ctxs id =
    if id == 0
    then record { lock = 1; unlock = 2; lock_ctx = 0 }
    else record { lock = 3; unlock = 2; lock_ctx = 0 }

abbrev depth : Chip → ℕ
depth w = w.0

abbrev chip : Chip
chip = (0, 10 ∷ 11 ∷ 12 ∷ 13 ∷ [])

read_two : read chip_hw chip_ctxs 0 1 2 0 [] 0 chip ≡ done ((pos 0, (2, 11 ∷ 12 ∷ [])), chip)
unfolding read under_lock lock unlock
read_two = refl

chip-Counts : Counts chip_hw chip_ctxs 0 depth
chip-Counts = record {
  paired = refl;
  locked = λ w h. refl;
  lock_failed = λ w h. ground arith;
  unlocked = λ w. refl;
}

chip-DeviceKeeps : DeviceKeeps chip_device depth
chip-DeviceKeeps = record {
  request_keeps = λ f e w. ground arith;
  release_keeps = λ f e w. ground arith;
  flush_keeps = λ f e w. subst (λ g. (g w).1.0 ≡ w.0) (some-injective _ _ e) refl;
  get_info_keeps = λ f e w. subst (λ g. (g w).1.0 ≡ w.0) (some-injective _ _ e) refl;
  read_id_keeps = λ f e buf n w. ground arith;
  erase_keeps = λ f e from len retlen callback w.
      subst (λ g. (g from len retlen callback w).1.0 ≡ w.0) (some-injective _ _ e) refl;
  read_keeps = λ f e from len retlen buf callback w.
      subst (λ g. (g from len retlen buf callback w).1.0 ≡ w.0) (some-injective _ _ e) refl;
  write_keeps = λ f e to len retlen buf callback w.
      subst (λ g. (g to len retlen buf callback w).1.0 ≡ w.0) (some-injective _ _ e) refl;
}

operations-depth_example :
    (depth (flush chip_hw chip_ctxs 0 chip).1 ≡ 0)
    × ((buf : List ℕ) (n : ℕ) → depth (read_id chip_hw chip_ctxs 0 buf n chip).1 ≡ 0)
    × Ensures (λ out. depth out.1 ≡ 0) (get_info chip_hw chip_ctxs 0 chip)
    × ((from len retlen : ℕ) (buf : List ℕ) (callback : ℕ)
        → Ensures
            (λ out. depth out.1 ≡ 0)
            (read chip_hw chip_ctxs 0 from len retlen buf callback chip))
    × ((to len retlen : ℕ) (buf : List ℕ) (callback : ℕ)
        → Ensures
            (λ out. depth out.1 ≡ 0)
            (write chip_hw chip_ctxs 0 to len retlen buf callback chip))
    × ((from len retlen callback : ℕ)
        → WhenDone
            (λ out. depth out.1 ≡ 0)
            (erase chip_hw chip_ctxs 0 from len retlen callback chip))
operations-depth_example =
    operations-depth chip_hw chip_ctxs 0 depth chip-Counts chip-DeviceKeeps chip

read-Succeeds_example :
    (out : (ℤ × (ℕ × List ℕ)) × Chip) × (read chip_hw chip_ctxs 0 1 2 0 [] 0 chip ≡ done out)
    × Succeeds chip_hw chip_ctxs 0 (chip_read 1 2 0 [] 0) chip out
read-Succeeds_example = read-Succeeds chip_hw chip_ctxs 0 chip_read refl 1 2 0 [] 0 chip

lock_failed-erase_example :
    (read chip_hw chip_ctxs 1 4 4 0 [] 0 chip ≡ done ((neg 5, (0, [])), chip))
    × (write chip_hw chip_ctxs 1 4 4 0 [] 0 chip ≡ done ((neg 5, 0), chip))
    × (erase chip_hw chip_ctxs 1 4 4 0 0 chip ≡ out_of_bounds)
unfolding lock
lock_failed-erase_example =
    lock_failed-erase chip_hw chip_ctxs 1 chip_read _ _ _ refl refl refl refl 4 4 0 [] 0 chip refl
