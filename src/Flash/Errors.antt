-- ===== src/Flash/Errors.antt =====
-- The results of src/nlflash.c: which failures the caller sees.
use nlplatform.Prelude.{
  ℕ, ◌≡◌, refl, ap, inl, inr, true, false, some, none, List, arith, Bool-cases, done, out_of_bounds,
  ℤ, is_negative, ◌↔◌,
}
use nlplatform.Flash.{
  FlashCtx, Hardware, lock, unlock, under_lock, get_info, erase_alignment_is_ok, erase, read, write,
}

module _ {World : Type 0} (hw : Hardware World) (ctxs : ℕ → FlashCtx) (flash_id : ℕ) where
  -- What `under_lock` gives: it succeeds exactly if the lock, the operation and the unlock do, and
  -- its outputs and its result are then the operation's.
  abbrev pub Succeeds : {X : Type 0} → (World → (ℤ × X) × World) → World → (ℤ × X) × World → Type 0
  Succeeds op w out =
      let locked = lock hw ctxs flash_id w in
      let ran = op locked.1 in
      ((is_negative out.0.0 ≡ false) ↔ (
        (is_negative locked.0 ≡ false)
        × (is_negative ran.0.0 ≡ false)
        × (is_negative (unlock hw ctxs flash_id ran.1).0 ≡ false)))
      × (is_negative out.0.0 ≡ false → out.0 ≡ ran.0)

  under_lock-Succeeds :
      {X : Type 0} (op : World → (ℤ × X) × World) (x : X) (w : World)
      → Succeeds op w (under_lock hw ctxs flash_id op x w)
  unfolding under_lock
  under_lock-Succeeds op x w = elim (Bool-cases (is_negative (lock hw ctxs flash_id w).0)) [
    | inl e ↦ rw e ((λ h. ground arith, λ h. ground arith), λ h. ground arith)
    | inr e ↦ rw e (elim (Bool-cases (is_negative (op (lock hw ctxs flash_id w).1).0.0)) [
      | inl n ↦ rw n ((λ h. ground arith, λ h. ground arith), λ h. ground arith)
      | inr n ↦
          rw n
            (elim (Bool-cases
              (is_negative (unlock hw ctxs flash_id (op (lock hw ctxs flash_id w).1).1).0)) [
                | inl u ↦ rw u ((λ h. ground arith, λ h. ground arith), λ h. ground arith)
                | inr u ↦ rw u ((λ h. (refl, refl, refl), λ h. n), λ h. refl)
              ])
    ])
  ]

  get_info_null :
      (i : _) (w : World)
      → (hw.device flash_id).get_info ≡ some i
      → is_negative (lock hw ctxs flash_id w).0 ≡ true
      → get_info hw ctxs flash_id w ≡ done (none, (lock hw ctxs flash_id w).1)
  unfolding get_info
  get_info_null i w gi e = rw (gi, e, get_info) refl

  -- With a device that reads, `nlflash_read` returns: it succeeds exactly if the lock, the device
  -- and the unlock do, and the result, the count and the buffer are then the device's.
  pub read-Succeeds :
      (f : _)
      → (hw.device flash_id).read ≡ some f
      → (from len retlen : ℕ) (buf : List ℕ) (callback : ℕ) (w : World)
      → (out : (ℤ × (ℕ × List ℕ)) × World) × (read hw ctxs flash_id from len retlen buf callback w
          ≡ done out)
        × Succeeds (f from len retlen buf callback) w out
  unfolding read
  read-Succeeds f e from len retlen buf callback w = (
    under_lock hw ctxs flash_id (f from len retlen buf callback) (retlen, buf) w,
    rw (e, read) refl,
    under_lock-Succeeds (f from len retlen buf callback) (retlen, buf) w,
  )

  -- When the lock fails, `nlflash_read` and `nlflash_write` of a device that has them return its
  -- error and leave the device, the count and the buffer alone; but `nlflash_erase`, of a device
  -- that has it and `get_info`, reads through NULL in the test of the alignment.
  pub lock_failed-erase :
      (f : _) (g : _) (h : _) (i : _)
      → (hw.device flash_id).read ≡ some f
      → (hw.device flash_id).write ≡ some g
      → (hw.device flash_id).erase ≡ some h
      → (hw.device flash_id).get_info ≡ some i
      → (address len retlen : ℕ) (buf : List ℕ) (callback : ℕ) (w : World)
      → is_negative (lock hw ctxs flash_id w).0 ≡ true
      → let (err, w') = lock hw ctxs flash_id w in
        (read hw ctxs flash_id address len retlen buf callback w ≡ done ((err, (retlen, buf)), w'))
        × (write hw ctxs flash_id address len retlen buf callback w ≡ done ((err, retlen), w'))
        × (erase hw ctxs flash_id address len retlen callback w ≡ out_of_bounds)
  unfolding read write erase erase_alignment_is_ok under_lock
  lock_failed-erase f g h i rd wr er gi address len retlen buf callback w e = (
    rw (rd, e, read) refl,
    rw (wr, e, write) refl,
    rw (er, get_info_null i w gi e, erase, erase_alignment_is_ok) refl,
  )

  under_lock_done :
      {X : Type 0} (op : World → (ℤ × X) × World) (x : X) (w : World)
      → is_negative (lock hw ctxs flash_id w).0 ≡ false
      → let ran = op (lock hw ctxs flash_id w).1 in
        is_negative (unlock hw ctxs flash_id ran.1).0 ≡ false
        → under_lock hw ctxs flash_id op x w ≡ (ran.0, (unlock hw ctxs flash_id ran.1).1)
  unfolding under_lock
  under_lock_done op x w l u = rw (l, u) refl

  pub read_done :
      (f : _)
      → (hw.device flash_id).read ≡ some f
      → (from len retlen : ℕ) (buf : List ℕ) (callback : ℕ) (w : World)
      → is_negative (lock hw ctxs flash_id w).0 ≡ false
      → let ran = f from len retlen buf callback (lock hw ctxs flash_id w).1 in
        is_negative (unlock hw ctxs flash_id ran.1).0 ≡ false
        → read hw ctxs flash_id from len retlen buf callback w
          ≡ done (ran.0, (unlock hw ctxs flash_id ran.1).1)
  unfolding read
  read_done f e from len retlen buf callback w l u =
      rw (e, read) (ap done (under_lock_done (f from len retlen buf callback) (retlen, buf) w l u))

  pub write_done :
      (f : _)
      → (hw.device flash_id).write ≡ some f
      → (to len retlen : ℕ) (buf : List ℕ) (callback : ℕ) (w : World)
      → is_negative (lock hw ctxs flash_id w).0 ≡ false
      → let ran = f to len retlen buf callback (lock hw ctxs flash_id w).1 in
        is_negative (unlock hw ctxs flash_id ran.1).0 ≡ false
        → write hw ctxs flash_id to len retlen buf callback w
          ≡ done (ran.0, (unlock hw ctxs flash_id ran.1).1)
  unfolding write
  write_done f e to len retlen buf callback w l u =
      rw (e, write) (ap done (under_lock_done (f to len retlen buf callback) retlen w l u))
