-- ===== src/Flash.antt =====
-- src/nlflash.c: access to the flash devices under their locks. `FlashCtx` is an entry of
-- `s_flash_ctxs`; a function pointer is a number, 0 for NULL, and an optional entry of the device
-- table is an Option. What a lock or a device does to the rest of the system is a step on `World`.
pub mod Locks
pub mod Errors
pub mod Storage
mod Tests
use nlplatform.Prelude.{
  ℕ, zero, suc, ◌+◌, ◌%◌, Bool, true, false, not, ◌&&◌, Option, none, some, List, ◌==◌,
  if◌then◌else◌, Run, done, assert_failed, out_of_bounds, ◌>>=◌, ◌>>◌, check, update, ℤ, pos,
  is_negative, is_zero,
}

pub record FlashCtx : Type 0 where
  pub lock : ℕ
  pub unlock : ℕ
  pub lock_ctx : ℕ

pub record FlashInfo : Type 0 where
  pub base_addr : ℕ
  pub size : ℕ
  pub erase_size : ℕ
  pub fast_erase_size : ℕ
  pub write_size : ℕ

-- An entry of the device table. `*retlen` and the buffers come in as they are and go out as the
-- device leaves them.
pub record Device (World : Type 0) : Type 0 where
  pub init : Option (World → ℤ × World)
  pub request : Option (World → ℤ × World)
  pub release : Option (World → ℤ × World)
  pub flush : Option (World → ℤ × World)
  pub read_id : Option (List ℕ → ℕ → World → (ℤ × List ℕ) × World)
  pub get_info : Option (World → Option FlashInfo × World)
  pub erase : Option ((from len retlen callback : ℕ) → World → (ℤ × ℕ) × World)
  pub read :
      Option ((from len retlen : ℕ) → List ℕ → (callback : ℕ) → World → (ℤ × (ℕ × List ℕ)) × World)
  pub write : Option ((to len retlen : ℕ) → List ℕ → (callback : ℕ) → World → (ℤ × ℕ) × World)

-- The product's part: `g_flash_device_table`, and what the lock functions do with their context.
pub record Hardware (World : Type 0) : Type 0 where
  pub device : ℕ → Device World
  pub call : (func context : ℕ) → World → ℤ × World

pub set_lock : (flash_id lock unlock lock_ctx : ℕ) → (ℕ → FlashCtx) → ℕ → FlashCtx
set_lock flash_id lock unlock lock_ctx ctxs =
    update ctxs flash_id (record { lock = lock; unlock = unlock; lock_ctx = lock_ctx })

module _ {World : Type 0} (hw : Hardware World) (ctxs : ℕ → FlashCtx) where
  unfoldable pub lock : (flash_id : ℕ) → World → ℤ × World
  lock flash_id w =
      let ctx = ctxs flash_id in
      if not (ctx.lock == 0) then hw.call ctx.lock ctx.lock_ctx w else (pos 0, w)

  unfoldable pub unlock : (flash_id : ℕ) → World → ℤ × World
  unlock flash_id w =
      let ctx = ctxs flash_id in
      if not (ctx.unlock == 0) then hw.call ctx.unlock ctx.lock_ctx w else (pos 0, w)

  -- The devices from `i` on, `n` of them.
  init_from : (n i : ℕ) → World → Run World
  init_from zero i w = done w
  init_from (suc n) i w = do
    w' ← elim (hw.device i).init [
      | none ↦ done w
      | some f ↦ let (err, w') = f w in check (is_zero err) >> done w'
    ]
    init_from n (i + 1) w'

  pub init : (num_flash_ids : ℕ) → World → Run World
  unfolding init_from
  init num_flash_ids w = init_from num_flash_ids 0 w

  pub request : (flash_id : ℕ) → World → ℤ × World
  request flash_id w =
      let (retval, w') = lock flash_id w in
      if not (is_negative retval)
      then elim (hw.device flash_id).request [ none ↦ (retval, w') | some f ↦ f w' ]
      else (retval, w')

  pub release : (flash_id : ℕ) → World → ℤ × World
  release flash_id w =
      let (retval, w') : ℤ × World = elim (hw.device flash_id).release [
        | none ↦ (pos 0, w)
        | some f ↦ f w
      ] in
      let (lock_retval, w'') = unlock flash_id w' in
      (if is_negative lock_retval && not (is_negative retval) then lock_retval else retval, w'')

  -- What flush, read_id, erase, read and write have in common: the lock, the operation with its
  -- outputs beside its result, the unlock, and the result of the first that failed.
  pub under_lock :
      {X : Type 0} (flash_id : ℕ) → (World → (ℤ × X) × World) → X → World → (ℤ × X) × World
  under_lock flash_id op x w =
      let (lock_retval, w') = lock flash_id w in
      if is_negative lock_retval
      then ((lock_retval, x), w')
      else (let ((retval, y), w'') = op w' in
          let (unlock_retval, w''') = unlock flash_id w'' in
          (
            (
              if is_negative unlock_retval && not (is_negative retval)
                  then unlock_retval
                  else retval,
              y,
            ),
            w''',
          ))

  pub without_output : (World → ℤ × World) → World → (ℤ × Unit {0}) × World
  without_output f w = let (retval, w') = f w in ((retval, tt), w')

  pub flush : (flash_id : ℕ) → World → ℤ × World
  unfolding without_output
  flush flash_id w = elim (hw.device flash_id).flush [
    | none ↦ (pos 0, w)
    | some f ↦ let (out, w') = under_lock flash_id (without_output f) tt w in (out.0, w')
  ]

  pub read_id :
      (flash_id : ℕ) → (id_buf : List ℕ) → (id_buf_size : ℕ) → World → (ℤ × List ℕ) × World
  read_id flash_id id_buf id_buf_size w = elim (hw.device flash_id).read_id [
    | none ↦ ((pos 0, id_buf), w)
    | some f ↦ under_lock flash_id (f id_buf id_buf_size) id_buf w
  ]

  -- NULL is `none`.
  pub get_info : (flash_id : ℕ) → World → Run (Option FlashInfo × World)
  get_info flash_id w = elim (hw.device flash_id).get_info [
    | none ↦ assert_failed
    | some f ↦
        let (lock_retval, w') = lock flash_id w in
        if is_negative lock_retval
        then done (none, w')
        else (let (info, w'') = f w' in
            let (unlock_retval, w''') = unlock flash_id w'' in
            done (if is_negative unlock_retval then none else info, w'''))
  ]

  -- A device's `erase_size` is not 0. The test reads through what `get_info` returns.
  pub erase_alignment_is_ok : (flash_id start len : ℕ) → World → Run (Bool × World)
  erase_alignment_is_ok flash_id start len w = get_info flash_id w >>= λ found. elim found.0 [
    | none ↦ out_of_bounds
    | some info ↦ done ((start % info.erase_size == 0) && (len % info.erase_size == 0), found.1)
  ]

  pub erase : (flash_id from len retlen callback : ℕ) → World → Run ((ℤ × ℕ) × World)
  erase flash_id from len retlen callback w = elim (hw.device flash_id).erase [
    | none ↦ assert_failed
    | some f ↦ erase_alignment_is_ok flash_id from len w >>= λ ok.
        check ok.0 >> done (under_lock flash_id (f from len retlen callback) retlen ok.1)
  ]

  pub read :
      (flash_id from len retlen : ℕ)
      → (buf : List ℕ) → (callback : ℕ) → World
      → Run ((ℤ × (ℕ × List ℕ)) × World)
  read flash_id from len retlen buf callback w = elim (hw.device flash_id).read [
    | none ↦ assert_failed
    | some f ↦ done (under_lock flash_id (f from len retlen buf callback) (retlen, buf) w)
  ]

  pub write :
      (flash_id to len retlen : ℕ) → (buf : List ℕ) → (callback : ℕ) → World → Run ((ℤ × ℕ) × World)
  write flash_id to len retlen buf callback w = elim (hw.device flash_id).write [
    | none ↦ assert_failed
    | some f ↦ done (under_lock flash_id (f to len retlen buf callback) retlen w)
  ]
