-- ===== src/RamConsole.antt =====
-- src/nlram_console.c: the console log in persistent RAM. `Console` is `s_ram_console` together with
-- `s_ram_console_cb_ctx`; `buf` is the RAM from the start of the buffer on, and a function pointer is
-- a number, 0 for NULL. Each function runs with interrupts disabled or before they matter.
pub mod Ring
pub mod Logs
pub mod Write
pub mod Resize
pub mod Saved
pub mod Preserve
pub mod Boot
mod Tests
use nlplatform.Prelude.{
  ℕ, zero, suc, Bool, true, false, not, List, [], ◌∷◌, ◌++◌, ltb, leb, ◌==◌, if◌then◌else◌, Run,
  done, out_of_bounds, out_of_fuel, ◌>>=◌, add32, sub32, length, take, drop, copy_in, copy_out,
}

pub record Console : Type 0 where
  pub magic : ℕ
  pub write_index : ℕ
  pub bytes_written : ℕ
  pub last_write_index : ℕ
  pub last_bytes_written : ℕ
  pub buf_size : ℕ
  pub enabled : Bool
  pub buf : List ℕ
  pub callback_watermark : ℕ
  pub callback_bytes_written : ℕ
  pub callback : ℕ

abbrev pub ram_console_magic : ℕ
ram_console_magic = 0xabed_face

-- `RAM_CONSOLE_BUF_SIZE` is the product's.
pub init_ram_console : (ram_console_buf_size : ℕ) → Console → Console
init_ram_console size c = record c {
  magic = ram_console_magic;
  last_bytes_written = 0;
  last_write_index = 0;
  bytes_written = 0;
  write_index = 0;
  callback_watermark = 0;
  callback_bytes_written = 0;
  callback = 0;
  buf_size = size;
}

pub register_callback : (callback watermark : ℕ) → Console → Console
register_callback callback watermark c = record c {
  callback_watermark = watermark;
  callback_bytes_written = 0;
  callback = callback;
}

pub init_bootloader : (ram_console_buf_size : ℕ) → Console → Console
unfolding init_ram_console
init_bootloader size c =
    if not (c.magic == ram_console_magic)
    then record (init_ram_console size c) { enabled = true }
    else record c {
      last_bytes_written = c.bytes_written;
      last_write_index = c.write_index;
      bytes_written = 0;
      enabled = true;
    }

-- How much of the two logs fits the new buffer and the scratch buffer.
pub bytes_to_preserve : (size scratch_size : ℕ) → Console → ℕ
bytes_to_preserve size scratch_size c =
    let total = add32 c.last_bytes_written c.bytes_written in
    let fitting = if ltb size total then size else total in
    if ltb scratch_size fitting then scratch_size else fitting

pub start_index : (n : ℕ) → Console → ℕ
start_index n c =
    let start = sub32 c.write_index n in
    if ltb c.buf_size start then add32 start c.buf_size else start

-- `n` bytes of the old buffer from `start` on, in one chunk or in two.
pub copy_chunks : (start n : ℕ) → Console → Run (List ℕ)
copy_chunks start n c =
    let until_end = sub32 c.buf_size start in
    if ltb n until_end
    then copy_out c.buf start n
    else (copy_out c.buf start until_end >>= λ upper.
        copy_out c.buf 0 (sub32 n until_end) >>= λ lower. done (upper ++ lower))

-- The scratch buffer has room for `scratch_size` bytes.
pub copy_to_scratch : (scratch_size n : ℕ) → Console → Run (List ℕ)
copy_to_scratch scratch_size n c = copy_chunks (start_index n c) n c >>= λ scratch.
    if ltb scratch_size (length scratch) then out_of_bounds else done scratch

-- The indices and counts once the preserved bytes stand at the start of the buffer.
pub preserved : (size n : ℕ) → List ℕ → Console → Console
preserved size n buf c =
    let write_index = if n == size then 0 else n in
    let bytes = if ltb n c.bytes_written then n else c.bytes_written in
    let rest = sub32 n bytes in
    let last = if ltb rest c.last_bytes_written then rest else c.last_bytes_written in
    let last_index = sub32 write_index bytes in
    record c {
      buf_size = size;
      buf = buf;
      write_index = write_index;
      bytes_written = bytes;
      last_bytes_written = if ltb 0 last then last else 0;
      last_write_index =
          if ltb 0 last
          then (if ltb size last_index then add32 last_index size else last_index)
          else 0;
    }

pub resize : (size scratch_size : ℕ) → Console → Run Console
resize size scratch_size c =
    let n = bytes_to_preserve size scratch_size c in
    if ltb 0 n
    then (copy_to_scratch scratch_size n c >>= λ scratch.
        copy_in c.buf 0 scratch >>= λ buf. done (preserved size n buf c))
    else done (init_ram_console size c)

pub init : (ram_console_buf_size scratch_size : ℕ) → Console → Run Console
init size scratch_size c = do
  c' ←
      if not (c.magic == ram_console_magic)
      then done (init_ram_console size c)
      else if not (c.buf_size == size)
      then resize size scratch_size c
      else done c
  done (record c' { enabled = false })

pub enable : Console → Console
enable c = record c { enabled = true }

pub disable : Console → Console
disable c = record c { enabled = false }

-- The `while` loop of the write, with fuel. `size` is the local copy of `buf_size`.
pub write_loop : (fuel size : ℕ) → List ℕ → Console → Run Console
write_loop zero size bytes c = out_of_fuel
write_loop (suc fuel) size [] c = done c
write_loop (suc fuel) size (x ∷ bytes) c =
    let before_wrap = sub32 size c.write_index in
    let n = if ltb (length (x ∷ bytes)) before_wrap then length (x ∷ bytes) else before_wrap in
    copy_in c.buf c.write_index (take n (x ∷ bytes)) >>= λ buf.
    let index = add32 c.write_index n in
    write_loop fuel size (drop n (x ∷ bytes))
      (record c { buf = buf; write_index = if leb size index then 0 else index })

-- The counts after a write of `len` bytes.
pub count_written : (size len : ℕ) → Console → Console
count_written size len c =
    let total = add32 c.bytes_written len in
    let bytes = if ltb size total then size else total in
    let non_current = sub32 size bytes in
    record c {
      bytes_written = bytes;
      last_bytes_written =
          if ltb non_current c.last_bytes_written then non_current else c.last_bytes_written;
    }

-- `call` runs the registered callback.
pub notify : (call : ℕ → Console → Console) (len : ℕ) → Console → Console
notify call len c =
    let bytes = add32 c.callback_bytes_written len in
    if c.callback == 0
    then c
    else (if leb c.callback_watermark bytes
        then record (call c.callback (record c { callback_bytes_written = bytes })) {
          callback_bytes_written = 0;
        }
        else record c { callback_bytes_written = bytes })

pub write : (call : ℕ → Console → Console) → List ℕ → Console → Run Console
write call bytes c =
    if c.enabled
    then (write_loop (suc (length bytes)) c.buf_size bytes c >>= λ c'.
        done (notify call (length bytes) (count_written c.buf_size (length bytes) c')))
    else done c
