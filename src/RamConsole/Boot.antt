-- ===== src/RamConsole/Boot.antt =====
-- The start of a boot in src/nlram_console.c: the log of the run before becomes the previous log, or
-- RAM that holds no console becomes an empty one.
use mathlib.Core.List.{reverse, append-nil}
use nlplatform.Prelude.{
  ℕ, ◌^◌, ◌≤◌, ◌<◌, ◌≡◌, ◌≢◌, refl, ap, ◌∙◌, List, ◌++◌, take, Bool, true, false, [], arith, length,
  done, ==_iff, ◌==◌,
}
use nlplatform.RamConsole.{
  Console, ram_console_magic, init_ram_console, init_bootloader, init, write,
}
use nlplatform.RamConsole.Saved.{saved_log}
use nlplatform.RamConsole.Write.{Quiet, write_kept}
use nlplatform.RamConsole.Logs.{IsValid, current_log, previous_log}

-- RAM with room for a buffer of the product's size.
pub record Room (size : ℕ) (c : Console) : Type 0 where
  pub some_bytes : 0 < size
  pub small : size < 2 ^ 31
  pub in_ram : size ≤ length c.buf

-- An empty console of the product's size.
abbrev IsFresh : ℕ → Console → Type 0
IsFresh size c = IsValid c × (c.buf_size ≡ size) × (current_log c ≡ []) × (previous_log c ≡ [])

-- `nl_ram_console_init_bootloader` on a valid console with the magic number: the current log
-- becomes the previous one, which is found from `last_write_index` as it is behind the new one, an
-- empty log is begun behind it, and the console is valid and enabled.
pub init_bootloader_lem :
    (size : ℕ) (c : Console)
    → IsValid c
    → c.magic ≡ ram_console_magic
    → let c' = init_bootloader size c in
      IsValid c'
      × (current_log c' ≡ [])
      × (previous_log c' ≡ current_log c)
      × (saved_log c' ≡ current_log c)
      × (c'.enabled ≡ true)
unfolding init_bootloader current_log previous_log saved_log
init_bootloader_lem size c v magic = rw ((==_iff c.magic ram_console_magic).1 magic) (
  record {
    index_in = v.index_in;
    in_ram = v.in_ram;
    small = v.small;
    logs_fit = omega (arith, v.logs_fit);
  },
  refl,
  refl,
  refl,
  refl,
)

-- Without the magic number, whatever the RAM held but with room in it for the buffer, both kinds of
-- initialisation leave a valid console with two empty logs: the bootloader's one is enabled, the
-- application's disabled.
init-IsFresh :
    (size scratch_size : ℕ) (c : Console)
    → Room size c
    → c.magic ≢ ram_console_magic
    → IsFresh size (init_bootloader size c)
      × ((init_bootloader size c).enabled ≡ true)
      × ((c' : Console) × (init size scratch_size c ≡ done c')
          × IsFresh size c'
          × (c'.enabled ≡ false))
unfolding init_bootloader init init_ram_console current_log previous_log
init-IsFresh size scratch_size c room magic =
    let missing : (c.magic == ram_console_magic) ≡ false = ground arith in
    let valid : IsValid (init_ram_console size c) = record {
      index_in = room.some_bytes;
      in_ram = room.in_ram;
      small = room.small;
      logs_fit = omega arith;
    } in
    let fresh : IsFresh size (record (init_ram_console size c) { enabled = false }) =
      (of_valid valid, refl, refl, refl) in
    rw missing (
      (of_valid valid, refl, refl, refl),
      refl,
      (record (init_ram_console size c) { enabled = false }, refl, fresh, refl),
    )
  where
    of_valid :
        {b : Bool}
        → IsValid (init_ram_console size c)
        → IsValid (record (init_ram_console size c) { enabled = b })
    of_valid w = record {
      index_in = w.index_in;
      in_ram = w.in_ram;
      small = w.small;
      logs_fit = w.logs_fit;
    }

init_bootloader-magic :
    (size : ℕ) (c : Console)
    → c.magic ≢ ram_console_magic
    → (init_bootloader size c).magic ≡ ram_console_magic
unfolding init_bootloader init_ram_console
init_bootloader-magic size c magic =
    let missing : (c.magic == ram_console_magic) ≡ false = ground arith in rw missing refl

-- A log survives the restart. RAM that holds no console but has room for the buffer is initialised
-- by `nl_ram_console_init_bootloader`; a write of less than 2 ^ 31 bytes after it, with a callback
-- that leaves the console as it is, returns. The next `nl_ram_console_init_bootloader` then finds
-- the console, which is valid and enabled: the log of the run before, found from `last_write_index`,
-- is all the bytes that were written, newest first, cut to the size of the buffer, and the current
-- log is empty.
pub log_survives :
    (size : ℕ) (call : ℕ → Console → Console) (bytes : List ℕ) (c : Console)
    → Room size c
    → c.magic ≢ ram_console_magic
    → Quiet call
    → length bytes < 2 ^ 31
    → (c' : Console) × (write call bytes (init_bootloader size c) ≡ done c')
      × (let next = init_bootloader size c' in
          IsValid next
          × (saved_log next ≡ take size (reverse bytes))
          × (current_log next ≡ [])
          × (next.enabled ≡ true))
log_survives size call bytes c room magic quiet short =
    let ((valid, sized, empty, _), on, _) = init-IsFresh size 0 c room magic in
    let first = init_bootloader size c in
    let (c', returned, valid', current, _, magic', _) =
      write_kept call bytes first quiet valid on short in
    let (valid'', none_current, _, saved, on'') =
      init_bootloader_lem size c' valid' (magic' ∙ init_bootloader-magic size c magic) in
    (
      c',
      returned,
      (
        valid'',
        saved
            ∙ current
            ∙ ap (λ k. take k (reverse bytes ++ current_log first)) sized
            ∙ ap (λ xs. take size (reverse bytes ++ xs)) empty
            ∙ ap (take size) (append-nil (reverse bytes)),
        none_current,
        on'',
      ),
    )
