-- ===== src/Files.antt =====
-- src/nlfs.c and include/nlfs.h: files on flash partitions, in the build without FAT files. A `File`
-- is an `nlfs_file_t`; a callback is a number, 0 for NULL.
pub mod Contents
pub mod Refusals
pub mod Access
mod Tests
use nlplatform.Prelude.{
  ℕ, ◌*◌, ◌/◌, ◌%◌, Bool, true, false, not, ◌&&◌, ◌||◌, List, ltb, leb, ◌==◌, if◌then◌else◌, Run,
  done, ◌>>=◌, add32, sub32, same_string, ℤ, pos, neg, is_negative,
}
use nlplatform.Flash
use nlplatform.Flash.{FlashCtx, Hardware}

pub data Mode : Type 0 where
  read_only : Mode
  write_only : Mode

pub data Origin : Type 0 where
  beginning : Origin
  current : Origin

pub data Location : Type 0 where
  image0 : Location
  image1 : Location
  installed : Location
  alternate : Location

abbrev pub is_read_only : Mode → Bool
is_read_only read_only = true
is_read_only write_only = false

abbrev pub is_installed : Location → Bool
is_installed image0 = false
is_installed image1 = false
is_installed installed = true
is_installed alternate = false

pub record File : Type 0 where
  pub offset : ℕ
  pub current_pos : ℕ
  pub len : ℕ
  pub context : ℕ
  pub part_id : ℕ
  pub part_type : ℕ
  pub chip_id : ℕ
  pub mode : Mode
  pub is_open : Bool
  pub is_fat : Bool

pub record Partition : Type 0 where
  pub offset : ℕ
  pub size : ℕ
  pub is_read_only : Bool

-- `GET_PARTITION_ID` and `GET_PARTITION_TYPE`
abbrev pub get_partition_id : ℕ → ℕ
get_partition_id fid = fid % 64

abbrev pub get_partition_type : ℕ → ℕ
get_partition_type fid = fid / 64 % 4

abbrev pub partition_type_int : ℕ
partition_type_int = 0

abbrev pub partition_type_ext_sub : ℕ
partition_type_ext_sub = 2

-- What the ELF loader finds: its header's offset, the section's size and its offset.
pub record Section : Type 0 where
  pub header_offset : ℕ
  pub size : ℕ
  pub offset : ℕ

-- The product's tables and constants, the environment's string, the ELF loader on a function that
-- reads the image and one that sums it up, the locks of the CRC unit, and the value of a count that
-- is not initialised.
pub record Product (World : Type 0) : Type 0 where
  pub hw : Hardware World
  pub internal : ℕ
  pub external : ℕ
  pub partitions : ℕ → Partition
  pub image : ℕ
  pub image_0 : ℕ
  pub image_1 : ℕ
  pub image_value_0 : List ℕ
  pub image_value_1 : List ℕ
  pub get_current_image : World → (ℤ × List ℕ) × World
  pub set_current_image : List ℕ → World → World
  pub sub_partition_name : ℕ → List ℕ
  pub crc_request : World → World
  pub crc_release : World → World
  pub crc32_append : ℕ → List ℕ → ℕ
  pub crc_seed : ℕ
  pub find_section :
      ((from len : ℕ) → List ℕ → World → Run ((ℤ × List ℕ) × World))
      → (ℕ → List ℕ → ℕ)
      → (seed header_offset : ℕ) → List ℕ
      → World
      → Run ((ℤ × Section) × World)
  pub einval : ℕ
  pub eio : ℕ
  pub uninitialised : ℕ

-- What a transfer returns: the count, the buffer, the file and the rest of the system.
pub record Transfer (World : Type 0) : Type 0 where
  pub count : ℕ
  pub buf : List ℕ
  pub file : File
  pub world : World

-- How many of the bytes are within the file.
pub within : File → ℕ → ℕ
within file bytes =
    if ltb file.len (add32 file.current_pos bytes) then sub32 file.len file.current_pos else bytes

pub target : File → ℕ → Origin → ℕ
target file offset beginning = offset
target file offset current = add32 file.current_pos offset

module _ {World : Type 0} (product : Product World) (ctxs : ℕ → FlashCtx) where
  open product use {hw, einval}

  pub read_file : (from len : ℕ) → List ℕ → World → Run ((ℤ × List ℕ) × World)
  read_file from len buf w =
      Flash.read hw ctxs product.external from len product.uninitialised buf 0 w >>= λ out.
      done ((out.0.0, out.0.1.1), out.1)

  -- The image that the environment names, or the other one. Without the name it is set to the first.
  pub stored_image : (loc : Location) → World → ℕ × World
  stored_image loc w =
      let ((error, name), w') = product.get_current_image w in
      if not (is_negative error)
      then (if (same_string name product.image_value_0 && not (is_installed loc))
            || (same_string name product.image_value_1 && is_installed loc)
          then (get_partition_id product.image_1, w')
          else (get_partition_id product.image_0, w'))
      else (get_partition_id product.image_0, product.set_current_image product.image_value_0 w')

  pub get_image_partition : Location → World → ℕ × World
  unfolding stored_image
  get_image_partition image0 w = (get_partition_id product.image_0, w)
  get_image_partition image1 w = (get_partition_id product.image_1, w)
  get_image_partition installed w = stored_image installed w
  get_image_partition alternate w = stored_image alternate w

  -- A file with the fields that are set first.
  pub opened : (fid : ℕ) → Mode → (is_fat : Bool) → (context : ℕ) → File → File
  opened fid mode is_fat context file = record file {
    current_pos = 0;
    part_id = get_partition_id fid;
    part_type = get_partition_type fid;
    chip_id =
        if get_partition_type fid == partition_type_int then product.internal else product.external;
    mode = mode;
    is_open = true;
    context = context;
    is_fat = is_fat;
  }

  pub init_main : Location → File → World → (ℤ × File) × World
  unfolding get_image_partition
  init_main loc file w =
      if not (file.part_id == get_partition_id product.image)
      then (let partition = product.partitions file.part_id in
          ((pos 0, record file { offset = partition.offset; len = partition.size }), w))
      else (let (part_id, w') = get_image_partition loc w in
          let partition = product.partitions part_id in
          (
            (
              pos 0,
              record file { part_id = part_id; offset = partition.offset; len = partition.size },
            ),
            w',
          ))

  pub init_sub : Location → File → World → Run ((ℤ × File) × World)
  unfolding get_image_partition read_file
  init_sub loc file w =
      let (part_id, w1) = get_image_partition loc w in
      let image_offset = (product.partitions part_id).offset in
      if file.is_fat
      then done ((neg einval, file), w1)
      else (let (requested, w2) = Flash.request hw ctxs product.external w1 in
          product.find_section read_file product.crc32_append product.crc_seed image_offset
            (product.sub_partition_name file.part_id) (product.crc_request w2)
          >>= λ found.
              let section = found.0.1 in
              let (released, w4) =
                Flash.release hw ctxs product.external (product.crc_release found.1) in
              done (
                if is_negative found.0.0 then ((found.0.0, file), w4) else (
                  (
                    found.0.0,
                    record file {
                      len = section.size;
                      offset = add32 section.header_offset section.offset;
                    },
                  ),
                  w4,
                )))

  pub file_init :
      (fid : ℕ)
      → Mode
      → Location
      → (is_fat : Bool) → (context : ℕ) → File
      → World
      → Run ((ℤ × File) × World)
  unfolding opened init_main init_sub
  file_init fid mode loc is_fat context file w =
      let file' = opened fid mode is_fat context file in
      if not (file'.part_type == partition_type_ext_sub)
      then done (init_main loc file' w)
      else init_sub loc file' w

  -- The erase of a partition that is opened for writing.
  pub erase_to_write : (callback : ℕ) → Mode → File → ℤ → World → Run ((ℤ × File) × World)
  erase_to_write callback read_only file retval w = done ((retval, file), w)
  erase_to_write callback write_only file retval w =
      if not (product.partitions file.part_id).is_read_only
      then (Flash.erase hw ctxs file.chip_id file.offset file.len product.uninitialised callback w
          >>= λ out. done (
            (
              if not (is_negative out.0.0) && not (out.0.1 == file.len)
                  then neg product.eio
                  else out.0.0,
              file,
            ),
            out.1,
          ))
      else done ((neg einval, file), w)

  pub open_cb :
      (fid : ℕ)
      → Mode
      → Location
      → File
      → (is_fat : Bool) → (context callback : ℕ) → World
      → Run ((ℤ × File) × World)
  unfolding file_init erase_to_write
  open_cb fid mode loc file is_fat context callback w =
      if not (is_read_only mode) && (get_partition_type fid == partition_type_ext_sub)
      then done ((neg einval, file), w)
      else if not (is_installed loc)
          && not (get_partition_type fid == partition_type_ext_sub)
          && not (get_partition_id fid == get_partition_id product.image)
      then done ((neg einval, file), w)
      else (file_init fid mode loc is_fat context file w >>= λ out.
          if is_negative out.0.0
          then done out
          else erase_to_write callback mode out.0.1 out.0.0 out.1)

  -- The result is a `size_t`, so the error becomes a large count.
  pub read_cb : File → List ℕ → (bytes callback : ℕ) → World → Run (Transfer World)
  unfolding within
  read_cb file buf bytes callback w =
      let refused : Transfer World = record {
        count = sub32 0 einval;
        buf = buf;
        file = file;
        world = w;
      } in
      if not file.is_open || not (is_read_only file.mode)
      then done refused
      else if file.is_fat
      then done refused
      else (Flash.read hw ctxs file.chip_id (add32 file.offset file.current_pos) (within file bytes)
            0 buf callback w
          >>= λ out.
              let (retval, (retlen, buf')) = out.0 in
              done (record {
                count = retlen;
                buf = buf';
                file =
                    if not (is_negative retval)
                    then record file { current_pos = add32 file.current_pos retlen }
                    else file;
                world = out.1;
              }))

  pub write_cb : File → List ℕ → (bytes callback : ℕ) → World → Run (Transfer World)
  unfolding within
  write_cb file buf bytes callback w =
      if not file.is_open || is_read_only file.mode || file.is_fat
      then done (record { count = 0; buf = buf; file = file; world = w })
      else (Flash.write hw ctxs file.chip_id (add32 file.offset file.current_pos)
            (within file bytes) 0 buf callback w
          >>= λ out. done (record {
            count = out.0.1;
            buf = buf;
            file = record file { current_pos = add32 file.current_pos out.0.1 };
            world = out.1;
          }))

  pub close : File → World → (ℤ × File) × World
  close file w =
      if not file.is_open
      then ((neg einval, file), w)
      else if is_read_only file.mode
      then ((pos 0, file), w)
      else (let (retval, w') = Flash.flush hw ctxs file.chip_id w in
          (
            (retval, if not (is_negative retval) then record file { is_open = false } else file),
            w',
          ))

  pub seek : File → (offset : ℕ) → Origin → ℤ × File
  unfolding target
  seek file offset origin =
      if not file.is_open || not (is_read_only file.mode) || file.is_fat
      then (neg einval, file)
      else if leb file.len (target file offset origin)
      then (neg einval, file)
      else (pos 0, record file { current_pos = target file offset origin })

  -- The second component is what `*offset` then holds.
  pub get_pos : File → (offset : ℕ) → ℤ × ℕ
  get_pos file offset = if not file.is_open then (neg einval, offset) else (pos 0, file.current_pos)

  pub get_len : File → (len : ℕ) → ℤ × ℕ
  get_len file len =
      if not file.is_open || not (is_read_only file.mode)
      then (neg einval, len)
      else (pos 0, file.len)
