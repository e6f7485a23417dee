-- ===== src/Flash/Storage.antt =====
-- What a client of src/nlflash.c relies on for a device that works: its locks succeed, it reads what
-- its memory holds, and it writes inside the range that it is given.
use nlplatform.Prelude.{
  ℕ, ◌+◌, ◌≤◌, ◌≡◌, sym, ap, ◌∙◌, subst, false, List, some, take, drop, length, done, ℤ, pos,
  is_negative,
}
use nlplatform.Flash.{FlashCtx, Hardware, lock, unlock, read, write}
use nlplatform.Flash.Errors.{read_done, write_done}

-- The bytes of the device's memory are `memory`.
pub record Storage {World : Type 0} (hw : Hardware World) (ctxs : ℕ → FlashCtx) (flash_id : ℕ)
    (memory : World → List ℕ) : Type 0 where
  pub lock_ok : (w : World) → is_negative (lock hw ctxs flash_id w).0 ≡ false
  pub lock_same : (w : World) → memory (lock hw ctxs flash_id w).1 ≡ memory w
  pub unlock_ok : (w : World) → is_negative (unlock hw ctxs flash_id w).0 ≡ false
  pub unlock_same : (w : World) → memory (unlock hw ctxs flash_id w).1 ≡ memory w
  pub reader : ℕ → ℕ → ℕ → List ℕ → ℕ → World → (ℤ × (ℕ × List ℕ)) × World
  pub has_reader : (hw.device flash_id).read ≡ some reader
  pub reads :
      (from len retlen : ℕ) (buf : List ℕ) (callback : ℕ) (w : World)
      → from + len ≤ length (memory w)
      → (reader from len retlen buf callback w).0 ≡ (pos 0, (len, take len (drop from (memory w))))
  pub reader_same :
      (from len retlen : ℕ) (buf : List ℕ) (callback : ℕ) (w : World)
      → memory (reader from len retlen buf callback w).1 ≡ memory w
  pub writer : ℕ → ℕ → ℕ → List ℕ → ℕ → World → (ℤ × ℕ) × World
  pub has_writer : (hw.device flash_id).write ≡ some writer
  pub writes :
      (to len retlen : ℕ) (buf : List ℕ) (callback : ℕ) (w : World)
      → to + len ≤ length (memory w)
      → (writer to len retlen buf callback w).0.1 ≤ len
  pub before_same :
      (to len retlen : ℕ) (buf : List ℕ) (callback : ℕ) (w : World)
      → take to (memory (writer to len retlen buf callback w).1) ≡ take to (memory w)
  pub behind_same :
      (to len retlen : ℕ) (buf : List ℕ) (callback : ℕ) (w : World)
      → drop (to + len) (memory (writer to len retlen buf callback w).1)
        ≡ drop (to + len) (memory w)

module _ {World : Type 0} (hw : Hardware World) (ctxs : ℕ → FlashCtx) (flash_id : ℕ)
    (memory : World → List ℕ) (storage : Storage hw ctxs flash_id memory) where
  pub read_lem :
      (from len retlen : ℕ) (buf : List ℕ) (callback : ℕ) (w : World)
      → from + len ≤ length (memory w)
      → (w' : World) × (read hw ctxs flash_id from len retlen buf callback w
          ≡ done ((pos 0, (len, take len (drop from (memory w)))), w'))
        × (memory w' ≡ memory w)
  read_lem from len retlen buf callback w fits =
      let w1 = (lock hw ctxs flash_id w).1 in
      let ran = storage.reader from len retlen buf callback w1 in
      let fits' : from + len ≤ length (memory w1) =
        subst (λ m. from + len ≤ length m) (sym (storage.lock_same w)) fits in
      (
        (unlock hw ctxs flash_id ran.1).1,
        read_done hw ctxs flash_id storage.reader storage.has_reader from len retlen buf callback w
              (storage.lock_ok w) (storage.unlock_ok ran.1)
            ∙ ap (λ r. done (r, (unlock hw ctxs flash_id ran.1).1))
                (storage.reads from len retlen buf callback w1 fits'
                  ∙ ap (λ m. (pos 0, (len, take len (drop from m)))) (storage.lock_same w)),
        storage.unlock_same ran.1
            ∙ storage.reader_same from len retlen buf callback w1
            ∙ storage.lock_same w,
      )

  pub write_lem :
      (to len retlen : ℕ) (buf : List ℕ) (callback : ℕ) (w : World)
      → to + len ≤ length (memory w)
      → (out : (ℤ × ℕ) × World) × (write hw ctxs flash_id to len retlen buf callback w ≡ done out)
        × (out.0.1 ≤ len)
        × (take to (memory out.1) ≡ take to (memory w))
        × (drop (to + len) (memory out.1) ≡ drop (to + len) (memory w))
  write_lem to len retlen buf callback w fits =
      let w1 = (lock hw ctxs flash_id w).1 in
      let ran = storage.writer to len retlen buf callback w1 in
      (
        (ran.0, (unlock hw ctxs flash_id ran.1).1),
        write_done hw ctxs flash_id storage.writer storage.has_writer to len retlen buf callback w
            (storage.lock_ok w) (storage.unlock_ok ran.1),
        storage.writes to len retlen buf callback w1
            (subst (λ m. to + len ≤ length m) (sym (storage.lock_same w)) fits),
        ap (take to) (storage.unlock_same ran.1)
            ∙ storage.before_same to len retlen buf callback w1
            ∙ ap (take to) (storage.lock_same w),
        ap (drop (to + len)) (storage.unlock_same ran.1)
            ∙ storage.behind_same to len retlen buf callback w1
            ∙ ap (drop (to + len)) (storage.lock_same w),
      )
