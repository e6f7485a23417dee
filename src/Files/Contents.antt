-- ===== src/Files/Contents.antt =====
-- Reading and writing a file of src/nlfs.c as a range of a device's memory.
use nlplatform.Prelude.{
  ℕ, ◌+◌, ◌-◌, ◌≤◌, ◌<◌, ◌≡◌, refl, sym, ap, ◌∙◌, true, false, List, arith, min, take, drop, length,
  u32_mod, add32, drop-drop, take-drop-take, done,
}
use nlplatform.Flash.{FlashCtx}
use nlplatform.Flash.Storage.{Storage, read_lem, write_lem}
use nlplatform.Files.{File, Product, Transfer, read_only, write_only, read_cb, write_cb, within}

-- The bytes of the file.
abbrev pub content : File → List ℕ → List ℕ
content file memory = take file.len (drop file.offset memory)

-- A file whose range is in the memory, with its position inside.
pub record Placed (file : File) (memory : List ℕ) : Type 0 where
  pub pos_in : file.current_pos ≤ file.len
  pub in_memory : file.offset + file.len ≤ length memory
  pub addressable : length memory < u32_mod

-- The bytes that a transfer moves.
abbrev pub moved : File → ℕ → ℕ
moved file bytes = min bytes (file.len - file.current_pos)

within_lem :
    (file : File) (memory : List ℕ) (bytes : ℕ)
    → Placed file memory
    → file.current_pos + bytes < u32_mod
    → within file bytes ≡ moved file bytes
unfolding within
within_lem file memory bytes p h = ground (arith, p.pos_in, p.in_memory, p.addressable)

module _ {World : Type 0} (product : Product World) (ctxs : ℕ → FlashCtx) (memory : World → List ℕ)
    (file : File) (storage : Storage product.hw ctxs file.chip_id memory) where
  -- `nlfs_read_cb` on a working device, of an open file for reading that is no FAT file and lies
  -- in the memory with its position inside, returns: the count is what was asked for or what is
  -- left of the file, if that is less; the buffer holds the file's bytes from the position on; the
  -- position moves on by the count; the memory stays. The position and the bytes asked for make no
  -- more than 32 bits.
  pub read_cb-content :
      (buf : List ℕ) (bytes callback : ℕ) (w : World)
      → Placed file (memory w)
      → file.is_open ≡ true
      → file.mode ≡ read_only
      → file.is_fat ≡ false
      → file.current_pos + bytes < u32_mod
      → let n = moved file bytes in
        (w' : World) × (read_cb product ctxs file buf bytes callback w
          ≡ done (record {
            count = n;
            buf = take n (drop file.current_pos (content file (memory w)));
            file = record file { current_pos = file.current_pos + n };
            world = w';
          }))
        × (memory w' ≡ memory w)
  unfolding read_cb
  read_cb-content buf bytes callback w p is_open mode fat small =
      let n = moved file bytes in
      let (w', did, same) =
        read_lem product.hw ctxs file.chip_id memory storage (file.offset + file.current_pos) n 0
          buf callback w (omega (arith, p.pos_in, p.in_memory)) in
      (
        w',
        rw (is_open, mode, fat, within_lem file (memory w) bytes p small, start, did, slice, ends)
            refl,
        same,
      )
    where
      slice :
          take (moved file bytes) (drop (file.offset + file.current_pos) (memory w))
          ≡ take (moved file bytes) (drop file.current_pos (content file (memory w)))
      slice = sym (
          take-drop-take (moved file bytes) file.current_pos file.len (drop file.offset (memory w))
            (omega (arith, p.pos_in))
          ∙ ap (take (moved file bytes)) (drop-drop file.current_pos file.offset (memory w)))

      ends : add32 file.current_pos (moved file bytes) ≡ file.current_pos + moved file bytes
      ends = omega (arith, p.pos_in, p.in_memory, p.addressable)

      start : add32 file.offset file.current_pos ≡ file.offset + file.current_pos
      start = omega (arith, p.pos_in, p.in_memory, p.addressable)

  -- `nlfs_write_cb` on a working device, of an open file for writing that is no FAT file and lies in
  -- the memory with its position inside, returns: the count is at most what was asked for and what
  -- is left of the file; the position moves on by the count; the memory before the position, and
  -- behind what was asked for or the end of the file, stays. The position and the bytes asked for
  -- make no more than 32 bits.
  pub write_cb-content :
      (buf : List ℕ) (bytes callback : ℕ) (w : World)
      → Placed file (memory w)
      → file.is_open ≡ true
      → file.mode ≡ write_only
      → file.is_fat ≡ false
      → file.current_pos + bytes < u32_mod
      → (t : Transfer World) × (write_cb product ctxs file buf bytes callback w ≡ done t)
        × (t.count ≤ moved file bytes)
        × (t.file ≡ record file { current_pos = file.current_pos + t.count })
        × (take (file.offset + file.current_pos) (memory t.world)
            ≡ take (file.offset + file.current_pos) (memory w))
        × (drop (file.offset + file.current_pos + moved file bytes) (memory t.world)
            ≡ drop (file.offset + file.current_pos + moved file bytes) (memory w))
  unfolding write_cb
  write_cb-content buf bytes callback w p is_open mode fat small =
      let n = moved file bytes in
      let (out, did, le, before, behind) =
        write_lem product.hw ctxs file.chip_id memory storage (file.offset + file.current_pos) n 0
          buf callback w (omega (arith, p.pos_in, p.in_memory)) in
      (
        record {
          count = out.0.1;
          buf = buf;
          file = record file { current_pos = add32 file.current_pos out.0.1 };
          world = out.1;
        },
        rw (is_open, mode, fat, within_lem file (memory w) bytes p small, start, did) refl,
        le,
        ap (λ k. record file { current_pos = k })
            (omega (arith, le, p.pos_in, p.in_memory, p.addressable)),
        before,
        behind,
      )
    where
      start : add32 file.offset file.current_pos ≡ file.offset + file.current_pos
      start = omega (arith, p.pos_in, p.in_memory, p.addressable)
