-- ===== src/Files/Tests.antt =====
-- Tests of the files, and the theorems at concrete inputs.
use nlplatform.Prelude.{
  ℕ, zero, suc, ◌+◌, ◌≤◌, ◌<◌, ◌≡◌, refl, ap, ◌⊎◌, true, false, some, none, List, [], ◌∷◌, ◌++◌,
  arith, ◌==◌, take, drop, if◌then◌else◌, done, ℤ, pos, neg, is_negative,
}
use nlplatform.Flash.{FlashCtx, Device, Hardware, lock, unlock}
use nlplatform.Flash.Storage.{Storage}
use nlplatform.Files.{
  read_only, write_only, installed, current, File, Product, Transfer, read_cb, write_cb, open_cb,
  close, seek, target,
}
use nlplatform.Files.Contents.{Placed, read_cb-content, write_cb-content}
use nlplatform.Files.Access.{place, seek-read_cb, read_cb-read_cb}
use nlplatform.Files.Refusals.{close-is_open, open_cb-read_only}

-- `len` bytes of the buffer over those of the memory from `to` on.
overwrite : (to len : ℕ) → (buf memory : List ℕ) → List ℕ
overwrite (suc to) len buf [] = []
overwrite (suc to) len buf (x ∷ xs) = x ∷ overwrite to len buf xs
overwrite zero zero buf xs = xs
overwrite zero (suc len) [] xs = xs
overwrite zero (suc len) (b ∷ bs) [] = []
overwrite zero (suc len) (b ∷ bs) (x ∷ xs) = b ∷ overwrite zero len bs xs

take-overwrite : (to len : ℕ) (buf xs : List ℕ) → take to (overwrite to len buf xs) ≡ take to xs
unfolding overwrite
take-overwrite zero len buf xs = refl
take-overwrite (suc to) len buf [] = refl
take-overwrite (suc to) len buf (x ∷ xs) = ap (◌∷◌ x) (take-overwrite to len buf xs)

drop-overwrite_0 : (len : ℕ) (buf xs : List ℕ) → drop len (overwrite zero len buf xs) ≡ drop len xs
unfolding overwrite
drop-overwrite_0 zero buf xs = refl
drop-overwrite_0 (suc len) [] xs = refl
drop-overwrite_0 (suc len) (b ∷ bs) [] = refl
drop-overwrite_0 (suc len) (b ∷ bs) (x ∷ xs) = drop-overwrite_0 len bs xs

drop-overwrite :
    (to len : ℕ) (buf xs : List ℕ) → drop (to + len) (overwrite to len buf xs) ≡ drop (to + len) xs
unfolding overwrite
drop-overwrite zero len buf xs = rw (zero_add len) (drop-overwrite_0 len buf xs)
  where
    zero_add : (n : ℕ) → 0 + n ≡ n
    zero_add n = omega arith
drop-overwrite (suc to) len buf [] = refl
drop-overwrite (suc to) len buf (x ∷ xs) = rw (suc_add to len) (drop-overwrite to len buf xs)
  where
    suc_add : (a b : ℕ) → suc a + b ≡ suc (a + b)
    suc_add a b = omega arith

-- The rest of the system is the memory, and there are no locks.
chip_read : (from len retlen : ℕ) → List ℕ → ℕ → List ℕ → (ℤ × (ℕ × List ℕ)) × List ℕ
chip_read from len retlen buf callback w = ((pos 0, (len, take len (drop from w))), w)

chip_write : (to len retlen : ℕ) → List ℕ → ℕ → List ℕ → (ℤ × ℕ) × List ℕ
chip_write to len retlen buf callback w = ((pos 0, len), overwrite to len buf w)

abbrev chip_device : Device (List ℕ)
chip_device = record {
  init = none;
  request = none;
  release = none;
  flush = none;
  read_id = none;
  get_info = none;
  erase = none;
  read = some chip_read;
  write = some chip_write;
}

abbrev chip_hw : Hardware (List ℕ)
chip_hw = record { device = λ id. chip_device; call = λ func context w. (neg 5, w) }

abbrev no_locks : ℕ → FlashCtx
no_locks id = record { lock = 0; unlock = 0; lock_ctx = 0 }

abbrev memory : List ℕ → List ℕ
memory w = w

chip-Storage : (id : ℕ) → Storage chip_hw no_locks id memory
unfolding lock unlock chip_read chip_write
chip-Storage id = record {
  lock_ok = λ w. refl;
  lock_same = λ w. refl;
  unlock_ok = λ w. refl;
  unlock_same = λ w. refl;
  reader = chip_read;
  has_reader = refl;
  reads = λ from len retlen buf callback w h. refl;
  reader_same = λ from len retlen buf callback w. refl;
  writer = chip_write;
  has_writer = refl;
  writes = λ to len retlen buf callback w h. omega arith;
  before_same = λ to len retlen buf callback w. take-overwrite to len buf w;
  behind_same = λ to len retlen buf callback w. drop-overwrite to len buf w;
}

-- The partition 2 is read-only, the others are three bytes from the second on.
abbrev board : Product (List ℕ)
board = record {
  hw = chip_hw;
  internal = 0;
  external = 1;
  partitions = λ id.
      if id == 2
      then record { offset = 0; size = 2; is_read_only = true }
      else record { offset = 1; size = 3; is_read_only = false };
  image = 5;
  image_0 = 6;
  image_1 = 7;
  image_value_0 = 48 ∷ [];
  image_value_1 = 49 ∷ [];
  get_current_image = λ w. ((pos 1, 49 ∷ []), w);
  set_current_image = λ name w. w;
  sub_partition_name = λ id. [];
  crc_request = λ w. w;
  crc_release = λ w. w;
  crc32_append = λ crc bytes. crc;
  crc_seed = 0;
  find_section = λ read calc seed header_offset name w.
      done ((neg 1, record { header_offset = 0; size = 0; offset = 0 }), w);
  einval = 22;
  eio = 5;
  uninitialised = 0;
}

abbrev bytes : List ℕ
bytes = 10 ∷ 11 ∷ 12 ∷ 13 ∷ 14 ∷ []

abbrev closed : File
closed = record {
  offset = 0;
  current_pos = 0;
  len = 0;
  context = 0;
  part_id = 0;
  part_type = 0;
  chip_id = 0;
  mode = read_only;
  is_open = false;
  is_fat = false;
}

abbrev reading : File
reading = record closed { offset = 1; current_pos = 1; len = 3; part_id = 1; is_open = true }

abbrev writing : File
writing = record reading { mode = write_only }

reading-Placed : Placed reading bytes
reading-Placed = record { pos_in = omega arith; in_memory = omega arith; addressable = omega arith }

writing-Placed : Placed writing bytes
writing-Placed = record { pos_in = omega arith; in_memory = omega arith; addressable = omega arith }

open_one :
    open_cb board no_locks 1 read_only installed closed false 0 0 bytes
    ≡ done ((pos 0, record reading { current_pos = 0 }), bytes)
unfolding open_cb
open_one = refl

read_cb-content_example :
    (w' : List ℕ) × (read_cb board no_locks reading [] 9 0 bytes
      ≡ done (record {
        count = 2;
        buf = 12 ∷ 13 ∷ [];
        file = record reading { current_pos = 3 };
        world = w';
      }))
    × (w' ≡ bytes)
read_cb-content_example =
    read_cb-content board no_locks memory reading (chip-Storage 0) [] 9 0 bytes reading-Placed refl
      refl refl (omega arith)

write_cb-content_example :
    (t : Transfer (List ℕ)) × (write_cb board no_locks writing (7 ∷ 8 ∷ 9 ∷ []) 3 0 bytes ≡ done t)
    × (t.count ≤ 2)
    × (t.file ≡ record writing { current_pos = 1 + t.count })
    × (take 2 t.world ≡ 10 ∷ 11 ∷ [])
    × (drop 4 t.world ≡ 14 ∷ [])
write_cb-content_example =
    write_cb-content board no_locks memory writing (chip-Storage 0) (7 ∷ 8 ∷ 9 ∷ []) 3 0 bytes
      writing-Placed refl refl refl (omega arith)

seek-read_cb_example :
    let at = place reading 1 current in
    let sought = seek board no_locks reading 1 current in
    ((3 ≤ at) × (sought ≡ (neg 22, reading)))
    ⊎ ((at < 3)
        × (sought.0 ≡ pos 0)
        × ((w' : List ℕ) × (read_cb board no_locks sought.1 [] 5 0 bytes
              ≡ done (record {
                count = 1;
                buf = 13 ∷ [];
                file = record reading { current_pos = 3 };
                world = w';
              }))))
unfolding target
seek-read_cb_example =
    seek-read_cb board no_locks memory reading (chip-Storage 0) 1 current [] 5 0 bytes
      reading-Placed refl refl refl (omega arith)

read_cb-read_cb_example :
    (t u v : Transfer (List ℕ)) × (read_cb board no_locks reading [] 1 0 bytes ≡ done t)
    × (read_cb board no_locks t.file [] 4 0 t.world ≡ done u)
    × (read_cb board no_locks reading [] 5 0 bytes ≡ done v)
    × (v.buf ≡ t.buf ++ u.buf)
    × (v.file ≡ u.file)
    × (v.count ≡ t.count + u.count)
read_cb-read_cb_example =
    read_cb-read_cb board no_locks memory reading (chip-Storage 0) [] [] 1 4 0 bytes reading-Placed
      refl refl refl (omega arith)

close-is_open_example :
    let out = close board no_locks writing bytes in
    (writing.mode ≡ read_only → out ≡ ((pos 0, writing), bytes))
    × (writing.mode ≡ write_only
        → (out.0.0 ≡ (nlplatform.Flash.flush board.hw no_locks writing.chip_id bytes).0)
          × (((is_negative out.0.0 ≡ true) × (out.0.1 ≡ writing))
              ⊎ ((is_negative out.0.0 ≡ false)
                  × (out.0.1 ≡ record writing { is_open = false })
                  × ((u : List ℕ) → close board no_locks out.0.1 u ≡ ((neg 22, out.0.1), u)))))
close-is_open_example = close-is_open board no_locks writing bytes refl

open_cb-read_only_example :
    (file' : File) × (open_cb board no_locks 2 write_only installed closed false 0 0 bytes
      ≡ done ((neg 22, file'), bytes))
    × (file'.is_open ≡ true)
    × (file'.mode ≡ write_only)
    × (file'.is_fat ≡ false)
    × (file'.current_pos ≡ 0)
    × (file'.offset ≡ 0)
    × (file'.len ≡ 2)
open_cb-read_only_example = open_cb-read_only board no_locks 2 0 0 closed bytes refl refl refl
