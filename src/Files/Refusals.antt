-- ===== src/Files/Refusals.antt =====
-- Which calls of src/nlfs.c are refused, and what state a file is left in.
use nlplatform.Prelude.{
  ℕ, ◌≡◌, ◌⊎◌, refl, inl, inr, true, false, List, ◌==◌, Bool-cases, same_string, same_string_refl,
  done, ℤ, pos, neg, is_negative,
}
use nlplatform.Flash
use nlplatform.Flash.{FlashCtx}
use nlplatform.Files.{
  read_only, write_only, installed, alternate, File, Product, get_partition_id, get_partition_type,
  get_image_partition, stored_image, opened, init_main, file_init, erase_to_write, open_cb, close,
}

module _ {World : Type 0} (product : Product World) (ctxs : ℕ → FlashCtx) where
  -- A file that was open for reading stays open after `nlfs_close` returns 0, so that a second
  -- close is not refused. For one that was open for writing the result is that of the flush: if
  -- that is an error the file is left as it is, and open; otherwise it is closed, and a second close
  -- is refused.
  pub close-is_open :
      (file : File) (w : World)
      → file.is_open ≡ true
      → let out = close product ctxs file w in
        (file.mode ≡ read_only → out ≡ ((pos 0, file), w))
        × (file.mode ≡ write_only
            → (out.0.0 ≡ (Flash.flush product.hw ctxs file.chip_id w).0)
              × (((is_negative out.0.0 ≡ true) × (out.0.1 ≡ file))
                  ⊎ ((is_negative out.0.0 ≡ false)
                      × (out.0.1 ≡ record file { is_open = false })
                      × ((u : World)
                          → close product ctxs out.0.1 u ≡ ((neg product.einval, out.0.1), u)))))
  unfolding close
  close-is_open file w is_open = (
    λ mode. rw (is_open, mode) refl,
    λ mode.
        rw (is_open, mode)
          (elim (Bool-cases (is_negative (Flash.flush product.hw ctxs file.chip_id w).0)) [
            | inl e ↦ rw e (refl, inl (refl, refl))
            | inr e ↦ rw e (refl, inr (refl, refl, λ u. refl))
          ]),
  )

  -- Opening a main partition that is marked read-only for writing, as the installed one and as no
  -- FAT file, is refused, and nothing is erased, where the partition is not that of the image. But
  -- the file is left open for writing at the start of that partition: what `nlfs_write_cb` asks of a
  -- file, it has.
  pub open_cb-read_only :
      (fid context callback : ℕ) (file : File) (w : World)
      → (get_partition_type fid == 2) ≡ false
      → (get_partition_id fid == get_partition_id product.image) ≡ false
      → (product.partitions (get_partition_id fid)).is_read_only ≡ true
      → let partition = product.partitions (get_partition_id fid) in
        (file' : File) × (open_cb product ctxs fid write_only installed file false context callback
            w
          ≡ done ((neg product.einval, file'), w))
        × (file'.is_open ≡ true)
        × (file'.mode ≡ write_only)
        × (file'.is_fat ≡ false)
        × (file'.current_pos ≡ 0)
        × (file'.offset ≡ partition.offset)
        × (file'.len ≡ partition.size)
  unfolding open_cb file_init init_main opened erase_to_write
  open_cb-read_only fid context callback file w main no_image marked =
      let partition = product.partitions (get_partition_id fid) in
      (
        record (opened product ctxs fid write_only false context file) {
          offset = partition.offset;
          len = partition.size;
        },
        rw (main, no_image, marked) refl,
        refl,
        refl,
        refl,
        refl,
        refl,
        refl,
      )

  -- When the environment names one of the two images, and their names differ, the installed image
  -- is that one and the alternate image is the other.
  get_image_partition-names :
      (name : List ℕ) (err : ℤ) (w w' : World)
      → product.get_current_image w ≡ ((err, name), w')
      → is_negative err ≡ false
      → same_string product.image_value_0 product.image_value_1 ≡ false
      → same_string product.image_value_1 product.image_value_0 ≡ false
      → let image_0 = get_partition_id product.image_0 in
        let image_1 = get_partition_id product.image_1 in
        (name ≡ product.image_value_0
          → (get_image_partition product ctxs installed w ≡ (image_0, w'))
            × (get_image_partition product ctxs alternate w ≡ (image_1, w')))
        × (name ≡ product.image_value_1
            → (get_image_partition product ctxs installed w ≡ (image_1, w'))
              × (get_image_partition product ctxs alternate w ≡ (image_0, w')))
  unfolding get_image_partition stored_image
  get_image_partition-names name err w w' found ok differ differ' = (
    λ e. (
      rw (found, ok, e, same_string_refl product.image_value_0, differ) refl,
      rw (found, ok, e, same_string_refl product.image_value_0) refl,
    ),
    λ e. (
      rw (found, ok, e, same_string_refl product.image_value_1, differ') refl,
      rw (found, ok, e, same_string_refl product.image_value_1, differ') refl,
    ),
  )
