-- ===== src/RamConsole/Tests.antt =====
-- Tests of the RAM console, and the theorems at concrete inputs.
use nlplatform.Prelude.{ℕ, ◌-◌, ◌≡◌, refl, true, false, [], ◌∷◌, arith, take, done, store, copy_in}
use nlplatform.RamConsole.{
  Console, ram_console_magic, init_bootloader, init, write, write_loop, count_written, notify,
}
use nlplatform.RamConsole.Ring.{recent}
use nlplatform.RamConsole.Logs.{IsValid, current_log, previous_log}
use nlplatform.RamConsole.Write.{write_lem}
use nlplatform.RamConsole.Preserve.{init_resized}
use nlplatform.RamConsole.Saved.{saved_log}
use nlplatform.RamConsole.Boot.{init_bootloader_lem, log_survives}

abbrev no_calls : ℕ → Console → Console
no_calls f c = c

-- Four of six bytes are in use; the previous log is 1 and 2, the current one 3 and 4.
abbrev half_full : Console
half_full = record {
  magic = ram_console_magic;
  write_index = 1;
  bytes_written = 2;
  last_write_index = 5;
  last_bytes_written = 2;
  buf_size = 6;
  enabled = true;
  buf = 4 ∷ 0 ∷ 0 ∷ 1 ∷ 2 ∷ 3 ∷ 0 ∷ 0 ∷ [];
  callback_watermark = 0;
  callback_bytes_written = 0;
  callback = 0;
}

half_full-IsValid : IsValid half_full
half_full-IsValid = omega arith

half_full_logs : (current_log half_full ≡ 4 ∷ 3 ∷ []) × (previous_log half_full ≡ 2 ∷ 1 ∷ [])
unfolding current_log previous_log recent
half_full_logs = (refl, refl)

-- RAM that holds no console.
abbrev garbage : Console
garbage = record half_full { magic = 7; write_index = 99 }

-- Three bytes push out the oldest of the previous log.
write_runs :
    write no_calls (5 ∷ 6 ∷ 7 ∷ []) half_full
    ≡ done (record half_full {
      write_index = 4;
      bytes_written = 5;
      last_bytes_written = 1;
      buf = 4 ∷ 5 ∷ 6 ∷ 7 ∷ 2 ∷ 3 ∷ 0 ∷ 0 ∷ [];
    })
unfolding write write_loop count_written notify copy_in store
write_runs = refl

write_lem_example :
    (c' : Console) × (write no_calls (5 ∷ 6 ∷ 7 ∷ []) half_full ≡ done c')
    × IsValid c'
    × (current_log c' ≡ 7 ∷ 6 ∷ 5 ∷ 4 ∷ 3 ∷ [])
    × (previous_log c' ≡ take (6 - c'.bytes_written) (2 ∷ 1 ∷ []))
unfolding current_log previous_log recent
write_lem_example =
    write_lem no_calls (5 ∷ 6 ∷ 7 ∷ []) half_full (λ f c. refl) half_full-IsValid refl (omega arith)

-- The buffer shrinks to three bytes: of the previous log the newest is left.
init_resized_example :
    (c' : Console) × (init 3 16 half_full ≡ done c')
    × IsValid c'
    × (c'.buf_size ≡ 3)
    × (c'.enabled ≡ false)
    × (current_log c' ≡ 4 ∷ 3 ∷ [])
    × (previous_log c' ≡ take (3 - c'.bytes_written) (2 ∷ 1 ∷ []))
    × (saved_log c' ≡ take (3 - c'.bytes_written) (2 ∷ 1 ∷ []))
unfolding current_log previous_log recent
init_resized_example =
    init_resized 3 16 half_full half_full-IsValid refl (λ e. omega arith) (omega arith)
      (omega arith) (omega arith)

init_bootloader_lem_example :
    let c' = init_bootloader 6 half_full in
    IsValid c'
    × (current_log c' ≡ [])
    × (previous_log c' ≡ 4 ∷ 3 ∷ [])
    × (saved_log c' ≡ 4 ∷ 3 ∷ [])
    × (c'.enabled ≡ true)
unfolding current_log recent
init_bootloader_lem_example = init_bootloader_lem 6 half_full half_full-IsValid refl

-- Seven bytes for a buffer of six.
log_survives_example :
    (c' : Console) × (write no_calls (1 ∷ 2 ∷ 3 ∷ 4 ∷ 5 ∷ 6 ∷ 7 ∷ []) (init_bootloader 6 garbage)
      ≡ done c')
    × (let next = init_bootloader 6 c' in
        IsValid next
        × (saved_log next ≡ 7 ∷ 6 ∷ 5 ∷ 4 ∷ 3 ∷ 2 ∷ [])
        × (current_log next ≡ [])
        × (next.enabled ≡ true))
log_survives_example =
    log_survives 6 no_calls (1 ∷ 2 ∷ 3 ∷ 4 ∷ 5 ∷ 6 ∷ 7 ∷ []) garbage (omega arith)
      (λ e. omega arith) (λ f c. refl) (omega arith)
