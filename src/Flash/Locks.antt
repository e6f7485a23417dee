-- ===== src/Flash/Locks.antt =====
-- The locks of src/nlflash.c: every operation that takes a device's lock releases it, and a device
-- is only used while its lock is held.
use nlplatform.Prelude.{
  ℕ, suc, ◌-◌, ◌≡◌, refl, sym, ◌+◌, if◌then◌else◌, ◌∙◌, inl, inr, true, false, Option, some, List,
  arith, ◌==◌, Bool-cases, Option-cases, WhenDone, WhenDone-bind, Ensures-WhenDone, Ensures, ℤ,
  is_negative,
}
use nlplatform.Flash.{
  FlashCtx, Device, Hardware, lock, unlock, under_lock, flush, without_output, read_id, get_info,
  erase, read, write, request, release, erase_alignment_is_ok,
}

-- The operation, if the device has it, leaves the lock alone.
abbrev pub LeavesLock {ℓ} :
    {World : Type 0} {X : Type ℓ} → (World → ℕ) → Option (World → X × World) → Type ℓ
LeavesLock {World = World} {X = X} depth o =
    (f : World → X × World) → o ≡ some f → (w : World) → depth (f w).1 ≡ depth w

-- The operations that a device has leave the lock alone.
pub record DeviceKeeps {World : Type 0} (device : Device World) (depth : World → ℕ) : Type 0 where
  pub request_keeps : LeavesLock depth device.request
  pub release_keeps : LeavesLock depth device.release
  pub flush_keeps : LeavesLock depth device.flush
  pub get_info_keeps : LeavesLock depth device.get_info
  pub read_id_keeps :
      (f : _)
      → device.read_id ≡ some f
      → (buf : List ℕ) (n : ℕ) (w : World) → depth (f buf n w).1 ≡ depth w
  pub erase_keeps :
      (f : _)
      → device.erase ≡ some f
      → (from len retlen callback : ℕ) (w : World)
      → depth (f from len retlen callback w).1 ≡ depth w
  pub read_keeps :
      (f : _)
      → device.read ≡ some f
      → (from len retlen : ℕ) (buf : List ℕ) (callback : ℕ) (w : World)
      → depth (f from len retlen buf callback w).1 ≡ depth w
  pub write_keeps :
      (f : _)
      → device.write ≡ some f
      → (to len retlen : ℕ) (buf : List ℕ) (callback : ℕ) (w : World)
      → depth (f to len retlen buf callback w).1 ≡ depth w

-- `depth` counts the calls of a device's lock function that succeeded less the calls of its unlock
-- function, whether or not these succeeded. Either both functions are registered or neither is.
pub record Counts {World : Type 0} (hw : Hardware World) (ctxs : ℕ → FlashCtx) (flash_id : ℕ)
    (depth : World → ℕ) : Type 0 where
  pub paired : ((ctxs flash_id).lock == 0) ≡ ((ctxs flash_id).unlock == 0)
  pub locked :
      (w : World)
      → is_negative (hw.call (ctxs flash_id).lock (ctxs flash_id).lock_ctx w).0 ≡ false
      → depth (hw.call (ctxs flash_id).lock (ctxs flash_id).lock_ctx w).1 ≡ suc (depth w)
  pub lock_failed :
      (w : World)
      → is_negative (hw.call (ctxs flash_id).lock (ctxs flash_id).lock_ctx w).0 ≡ true
      → depth (hw.call (ctxs flash_id).lock (ctxs flash_id).lock_ctx w).1 ≡ depth w
  pub unlocked :
      (w : World)
      → depth (hw.call (ctxs flash_id).unlock (ctxs flash_id).lock_ctx w).1 ≡ depth w - 1

-- What a lock that is taken adds to the count.
abbrev pub held : (ℕ → FlashCtx) → ℕ → ℕ
held ctxs flash_id = if (ctxs flash_id).lock == 0 then 0 else 1

module _ {World : Type 0} (hw : Hardware World) (ctxs : ℕ → FlashCtx) (flash_id : ℕ)
    (depth : World → ℕ) (counts : Counts hw ctxs flash_id depth) where
  lock-failed :
      (w : World)
      → is_negative (lock hw ctxs flash_id w).0 ≡ true
      → depth (lock hw ctxs flash_id w).1 ≡ depth w
  unfolding lock
  lock-failed w = elim (Bool-cases ((ctxs flash_id).lock == 0)) [
    | inl e ↦ rw e (λ h. refl)
    | inr e ↦ rw e (counts.lock_failed w)
  ]

  lock-held :
      (w : World)
      → is_negative (lock hw ctxs flash_id w).0 ≡ false
      → depth (lock hw ctxs flash_id w).1 ≡ depth w + held ctxs flash_id
  unfolding lock
  lock-held w = elim (Bool-cases ((ctxs flash_id).lock == 0)) [
    | inl e ↦ rw e (λ h. omega arith)
    | inr e ↦ rw e (λ h. omega (arith, counts.locked w h))
  ]

  unlock-held : (w : World) → depth (unlock hw ctxs flash_id w).1 ≡ depth w - held ctxs flash_id
  unfolding unlock
  unlock-held w = elim (Bool-cases ((ctxs flash_id).lock == 0)) [
    | inl e ↦ rw (sym counts.paired, e) (omega arith)
    | inr e ↦ rw (sym counts.paired, e) (counts.unlocked w)
  ]

  under_lock-depth :
      {X : Type 0} (op : World → (ℤ × X) × World) (x : X)
      → ((w : World) → depth (op w).1 ≡ depth w)
      → (w : World) → depth (under_lock hw ctxs flash_id op x w).1 ≡ depth w
  unfolding under_lock
  under_lock-depth op x keeps w = elim (Bool-cases (is_negative (lock hw ctxs flash_id w).0)) [
    | inl e ↦ rw e (lock-failed w e)
    | inr e ↦ rw e (
        omega (
          arith,
          unlock-held (op (lock hw ctxs flash_id w).1).1,
          keeps (lock hw ctxs flash_id w).1,
          lock-held w e,
        ))
  ]

  get_info-depth :
      LeavesLock depth (hw.device flash_id).get_info
      → (w : World) → Ensures (λ out. depth out.1 ≡ depth w) (get_info hw ctxs flash_id w)
  unfolding get_info
  get_info-depth keeps w = elim (Option-cases (hw.device flash_id).get_info) [
    | inl e ↦ rw (e, Ensures, get_info) tt
    | inr (f, e) ↦
        rw (e, Ensures, get_info)
          (elim (Bool-cases (is_negative (lock hw ctxs flash_id w).0)) [
            | inl n ↦ rw n (lock-failed w n)
            | inr n ↦ rw n (
                omega (
                  arith,
                  unlock-held (f (lock hw ctxs flash_id w).1).1,
                  keeps f e (lock hw ctxs flash_id w).1,
                  lock-held w n,
                ))
          ])
  ]

  alignment-depth :
      LeavesLock depth (hw.device flash_id).get_info
      → (start len : ℕ) (w : World)
      → WhenDone (λ ok. depth ok.1 ≡ depth w) (erase_alignment_is_ok hw ctxs flash_id start len w)
  unfolding erase_alignment_is_ok
  alignment-depth keeps start len w =
      WhenDone-bind (λ out. depth out.1 ≡ depth w) (λ ok. depth ok.1 ≡ depth w)
        (get_info hw ctxs flash_id w) _
        (Ensures-WhenDone (λ out. depth out.1 ≡ depth w) (get_info hw ctxs flash_id w)
          (get_info-depth keeps w))
        λ found h. elim (Option-cases found.0) [
          | inl e ↦ rw (e, WhenDone) tt
          | inr (info, e) ↦ rw (e, WhenDone) h
        ]

  module _ (keeps : DeviceKeeps (hw.device flash_id) depth) where
    flush-depth : (w : World) → depth (flush hw ctxs flash_id w).1 ≡ depth w
    unfolding flush
    flush-depth w = elim (Option-cases (hw.device flash_id).flush) [
      | inl e ↦ rw (e, flush) refl
      | inr (f, e) ↦
          rw (e, flush) (under_lock-depth _ tt (unfold without_output in keeps.flush_keeps f e) w)
    ]

    read_id-depth :
        (buf : List ℕ) (n : ℕ) (w : World) → depth (read_id hw ctxs flash_id buf n w).1 ≡ depth w
    unfolding read_id
    read_id-depth buf n w = elim (Option-cases (hw.device flash_id).read_id) [
      | inl e ↦ rw (e, read_id) refl
      | inr (f, e) ↦ rw (e, read_id) (under_lock-depth _ buf (keeps.read_id_keeps f e buf n) w)
    ]

    read-depth :
        (from len retlen : ℕ) (buf : List ℕ) (callback : ℕ) (w : World)
        → Ensures
            (λ out. depth out.1 ≡ depth w)
            (read hw ctxs flash_id from len retlen buf callback w)
    unfolding read
    read-depth from len retlen buf callback w = elim (Option-cases (hw.device flash_id).read) [
      | inl e ↦ rw (e, Ensures, read) tt
      | inr (f, e) ↦
          rw (e, Ensures, read)
            (under_lock-depth _ _ (keeps.read_keeps f e from len retlen buf callback) w)
    ]

    write-depth :
        (to len retlen : ℕ) (buf : List ℕ) (callback : ℕ) (w : World)
        → Ensures
            (λ out. depth out.1 ≡ depth w)
            (write hw ctxs flash_id to len retlen buf callback w)
    unfolding write
    write-depth to len retlen buf callback w = elim (Option-cases (hw.device flash_id).write) [
      | inl e ↦ rw (e, Ensures, write) tt
      | inr (f, e) ↦
          rw (e, Ensures, write)
            (under_lock-depth _ _ (keeps.write_keeps f e to len retlen buf callback) w)
    ]

    erase-depth :
        (from len retlen callback : ℕ) (w : World)
        → WhenDone
            (λ out. depth out.1 ≡ depth w)
            (erase hw ctxs flash_id from len retlen callback w)
    unfolding erase
    erase-depth from len retlen callback w = elim (Option-cases (hw.device flash_id).erase) [
      | inl e ↦ rw (e, WhenDone, erase) tt
      | inr (f, e) ↦
          rw (e, WhenDone, erase)
            (WhenDone-bind (λ ok. depth ok.1 ≡ depth w) (λ out. depth out.1 ≡ depth w)
              (erase_alignment_is_ok hw ctxs flash_id from len w) _
              (alignment-depth keeps.get_info_keeps from len w)
              λ ok h. elim (Bool-cases ok.0) [
                | inl b ↦
                    rw (b, WhenDone)
                      (under_lock-depth _ retlen (keeps.erase_keeps f e from len retlen callback)
                          ok.1
                        ∙ h)
                | inr b ↦ rw (b, WhenDone) tt
              ])
    ]

    request-held :
        (w : World)
        → is_negative (lock hw ctxs flash_id w).0 ≡ false
        → depth (request hw ctxs flash_id w).1 ≡ depth w + held ctxs flash_id
    unfolding request
    request-held w h = elim (Option-cases (hw.device flash_id).request) [
      | inl e ↦ rw (h, e, request) (lock-held w h)
      | inr (f, e) ↦ rw (h, e, request) (keeps.request_keeps f e _ ∙ lock-held w h)
    ]

    release-held : (w : World) → depth (release hw ctxs flash_id w).1 ≡ depth w - held ctxs flash_id
    unfolding release
    release-held w = elim (Option-cases (hw.device flash_id).release) [
      | inl e ↦ rw (e, release) (unlock-held w)
      | inr (f, e) ↦ rw (e, release) (omega (arith, unlock-held (f w).1, keeps.release_keeps f e w))
    ]

    -- Each operation that takes the lock of a device calls the unlock function once for each call of
    -- the lock function that succeeded, and does not call it where the lock failed, whatever the
    -- device returns and whether or not the unlock, which is not called again, succeeds. An assertion
    -- may stop an operation; `nlflash_erase` may also stop at the read through NULL that a lock or
    -- unlock failing in its alignment test leads to, and the lock is then not considered. The
    -- device's own operations are taken to make no such calls, and the two functions to be
    -- registered both or neither.
    pub operations-depth :
        (w : World)
        → (depth (flush hw ctxs flash_id w).1 ≡ depth w)
          × ((buf : List ℕ) (n : ℕ) → depth (read_id hw ctxs flash_id buf n w).1 ≡ depth w)
          × Ensures (λ out. depth out.1 ≡ depth w) (get_info hw ctxs flash_id w)
          × ((from len retlen : ℕ) (buf : List ℕ) (callback : ℕ)
              → Ensures
                  (λ out. depth out.1 ≡ depth w)
                  (read hw ctxs flash_id from len retlen buf callback w))
          × ((to len retlen : ℕ) (buf : List ℕ) (callback : ℕ)
              → Ensures
                  (λ out. depth out.1 ≡ depth w)
                  (write hw ctxs flash_id to len retlen buf callback w))
          × ((from len retlen callback : ℕ)
              → WhenDone
                  (λ out. depth out.1 ≡ depth w)
                  (erase hw ctxs flash_id from len retlen callback w))
    operations-depth w = (
      flush-depth w,
      λ buf n. read_id-depth buf n w,
      get_info-depth keeps.get_info_keeps w,
      λ from len retlen buf callback. read-depth from len retlen buf callback w,
      λ to len retlen buf callback. write-depth to len retlen buf callback w,
      λ from len retlen callback. erase-depth from len retlen callback w,
    )

    -- `nlflash_request` holds the lock once more unless the lock fails, also when the device
    -- refuses the request; `nlflash_release` then leaves the lock held as often as before, whatever
    -- fails in it.
    request-release-depth :
        (w : World)
        → is_negative (lock hw ctxs flash_id w).0 ≡ false
        → (depth (request hw ctxs flash_id w).1 ≡ depth w + held ctxs flash_id)
          × (depth (release hw ctxs flash_id (request hw ctxs flash_id w).1).1 ≡ depth w)
    request-release-depth w h = (
      request-held w h,
      omega (arith, release-held (request hw ctxs flash_id w).1, request-held w h),
    )
