-- ===== src/RamConsole/Preserve.antt =====
-- What `nl_ram_console_init` of src/nlram_console.c leaves of the two logs when the size of the
-- buffer has changed.
use mathlib.Core.List.{reverse, reverse-reverse, append-nil}
use nlplatform.Prelude.{
  ℕ, ◌^◌, ◌+◌, ◌-◌, ◌≤◌, ◌<◌, ◌≡◌, ◌≢◌, refl, sym, ap, ◌∙◌, inl, inr, false, List, ◌++◌, arith, ltb,
  leb, ◌==◌, if◌then◌else◌, Bool-cases, length, length-reverse, take, drop, store, copy_in,
  copy_in_done, length-store, min, take-take, take-append-take, take-all, take-drop-take, leb→le,
  leb_false→lt, ltb→lt, ltb_false→le, Run, done, ◌>>=◌,
}
use nlplatform.RamConsole.{
  Console, ram_console_magic, init_ram_console, bytes_to_preserve, copy_to_scratch, preserved,
  resize, init,
}
use nlplatform.RamConsole.Logs.{IsValid, ring, current_log, previous_log}
use nlplatform.RamConsole.Ring.{
  recent, length-recent, take-recent, put_all, put_all-store, history, history-put_all,
}
use nlplatform.RamConsole.Resize.{copy_to_scratch_lem}
use nlplatform.RamConsole.Saved.{saved_log, IsBehind, recent-IsBehind}

-- Two buffers with the same newest `n` bytes, and the counts cut to `n`.
logs_cut :
    (b l n : ℕ) (old new : List ℕ)
    → take n new ≡ take n old
    → let b' = min b n in
      (take b' new ≡ take n (take b old))
      × (take (min l (n - b')) (drop b' new) ≡ take (n - b') (take l (drop b old)))
logs_cut b l n old new same = (current, previous)
  where
    b' : ℕ
    b' = min b n

    l' : ℕ
    l' = min l (n - b')

    current : take b' new ≡ take n (take b old)
    current =
        ap (λ k. take k new) (omega arith)
        ∙ sym (take-take b' n new)
        ∙ ap (take b') same
        ∙ take-take b' n old
        ∙ ap (λ k. take k old) (omega arith)
        ∙ sym (take-take n b old)

    behind : take l' (drop b' new) ≡ take l' (drop b' old)
    behind =
        sym (take-drop-take l' b' n new (omega arith))
        ∙ ap (λ xs. take l' (drop b' xs)) same
        ∙ take-drop-take l' b' n old (omega arith)

    previous : take l' (drop b' new) ≡ take (n - b') (take l (drop b old))
    previous = elim (Bool-cases (leb b n)) [
      | inl e ↦
          let le : b ≤ n = leb→le _ _ e in
          let all : b' ≡ b = omega arith in
          let swap : l' ≡ min (n - b') l = omega arith in
          behind
          ∙ ap (λ k. take l' (drop k old)) all
          ∙ ap (λ k. take k (drop b old)) swap
          ∙ sym (take-take (n - b') l (drop b old))
      | inr e ↦
          let lt : n < b = leb_false→lt _ _ e in
          let none_kept : l' ≡ 0 = omega arith in
          let no_room : n - b' ≡ 0 = omega arith in
          ap (λ k. take k (drop b' new)) none_kept
          ∙ sym (ap (λ k. take k (take l (drop b old))) no_room)
    ]

module _ (c : Console) (v : IsValid c) (size n : ℕ) (pos : 0 < n)
    (in_logs : n ≤ c.bytes_written + c.last_bytes_written) (fits : n ≤ size)
    (in_ram : size ≤ length c.buf) (small : size < 2 ^ 31) where
  newest : List ℕ
  newest = recent c.buf c.buf_size c.write_index n

  c' : Console
  c' = preserved size n (store c.buf 0 (reverse newest)) c

  length-newest : length (reverse newest) ≡ n
  unfolding newest
  length-newest = length-reverse newest ∙ length-recent c.buf c.buf_size c.write_index n

  ring-preserved : take n (ring c') ≡ take n (ring c)
  unfolding c' preserved newest
  ring-preserved =
      ap (λ s. take n (history size s)) (sym stored)
      ∙ ap (take n) (history-put_all size (reverse newest) (c.buf, 0) (omega arith, in_ram))
      ∙ ap (λ ys. take n (take size (ys ++ untouched))) (reverse-reverse newest)
      ∙ take-take n size (newest ++ untouched)
      ∙ ap (λ k. take k (newest ++ untouched)) cut
      ∙ sym (
          take-append-take n 0 newest untouched
            (omega (arith, length-recent c.buf c.buf_size c.write_index n)))
      ∙ ap (take n) (append-nil newest)
      ∙ take-all n newest (omega (arith, length-recent c.buf c.buf_size c.write_index n))
      ∙ sym (take-recent c.buf c.buf_size c.write_index n c.buf_size (omega (arith, v.logs_fit)))
    where
      untouched : List ℕ
      untouched = history size (c.buf, 0)

      index :
          (if leb size (0 + length (reverse newest)) then 0 else 0 + length (reverse newest))
          ≡ (if n == size then 0 else n)
      index = ground (arith, length-newest)

      cut : min n size ≡ n
      cut = omega arith

      stored :
          put_all size (reverse newest) (c.buf, 0)
          ≡ (store c.buf 0 (reverse newest), if n == size then 0 else n)
      stored =
          put_all-store (reverse newest) c.buf size 0 (omega arith) (omega (arith, length-newest))
          ∙ ap (λ k. (store c.buf 0 (reverse newest), k)) index

  IsValid-preserved : IsValid c'
  unfolding c' preserved
  IsValid-preserved = record {
    index_in = ground arith;
    in_ram = omega (arith, length-store (reverse newest) c.buf 0);
    small = small;
    logs_fit = ground (arith, v.logs_fit, v.small);
  }

  counts :
      (c'.bytes_written ≡ min c.bytes_written n)
      × (c'.last_bytes_written ≡ min c.last_bytes_written (n - min c.bytes_written n))
  unfolding c' preserved
  counts = ground (arith, v.logs_fit, v.small)

  current-preserved : current_log c' ≡ take n (current_log c)
  unfolding current_log c' preserved
  current-preserved =
      ap (λ k. take k (ring c')) counts.0
      ∙ (logs_cut c.bytes_written c.last_bytes_written n (ring c) (ring c') ring-preserved).0

  previous-preserved : previous_log c' ≡ take (n - c'.bytes_written) (previous_log c)
  unfolding previous_log
  previous-preserved =
      ap (λ k. take k (drop c'.bytes_written (ring c'))) counts.1
      ∙ ap (λ k. take (min c.last_bytes_written (n - min c.bytes_written n)) (drop k (ring c')))
          counts.0
      ∙ (logs_cut c.bytes_written c.last_bytes_written n (ring c) (ring c') ring-preserved).1
      ∙ ap (λ k. take (n - k) (previous_log c)) (sym counts.0)

  is_behind :
      0 < c'.last_bytes_written → IsBehind size c'.write_index c'.bytes_written c'.last_write_index
  unfolding IsBehind c' preserved
  is_behind h = elim (Bool-cases (n == size)) [
    | inl e ↦ elim (Bool-cases (min c.bytes_written n == 0)) [
      | inl z ↦ inl (ground (arith, v.logs_fit, v.small))
      | inr z ↦ inr (ground (arith, v.logs_fit, v.small))
    ]
    | inr e ↦ inl (ground (arith, v.logs_fit, v.small))
  ]

  saved-preserved : saved_log c' ≡ previous_log c'
  unfolding saved_log previous_log c' preserved
  saved-preserved = elim (Bool-cases (ltb 0 c'.last_bytes_written)) [
    | inl e ↦
        recent-IsBehind c'.buf size c'.write_index c'.bytes_written c'.last_bytes_written
          c'.last_write_index (omega arith) IsValid-preserved.logs_fit (is_behind (ltb→lt _ _ e))
    | inr e ↦
        let none_left : c'.last_bytes_written ≡ 0 = omega (arith, ltb_false→le _ _ e) in
        ap (λ k. take k (history size (c'.buf, c'.last_write_index))) none_left
        ∙ sym (ap (λ k. take k (drop c'.bytes_written (ring c'))) none_left)
  ]

  copied :
      (scratch_size : ℕ)
      → n ≤ scratch_size
      → (copy_to_scratch scratch_size n c >>= λ scratch.
          copy_in c.buf 0 scratch >>= λ buf. done (preserved size n buf c))
        ≡ done c'
  unfolding c' newest
  copied scratch_size room =
      ap (λ r. r >>= λ scratch. copy_in c.buf 0 scratch >>= λ buf. done (preserved size n buf c))
        (copy_to_scratch_lem c v n pos (omega (arith, v.logs_fit)) scratch_size room)
      ∙ ap (λ r. r >>= λ buf. done (preserved size n buf c))
          (copy_in_done c.buf (reverse newest) 0 (omega (arith, length-newest)))

-- What is preserved for good: the result of the conversion.
abbrev Converted : (size n : ℕ) → (c c' : Console) → Type 0
Converted size n c c' =
    IsValid c'
    × (c'.buf_size ≡ size)
    × (current_log c' ≡ take n (current_log c))
    × (previous_log c' ≡ take (n - c'.bytes_written) (previous_log c))
    × (saved_log c' ≡ take (n - c'.bytes_written) (previous_log c))

bytes_to_preserve-min :
    (size scratch_size : ℕ) (c : Console)
    → IsValid c
    → bytes_to_preserve size scratch_size c
      ≡ min scratch_size (min size (c.bytes_written + c.last_bytes_written))
unfolding bytes_to_preserve
bytes_to_preserve-min size scratch_size c v = ground (arith, v.logs_fit, v.small)

resize_lem :
    (size scratch_size : ℕ) (c : Console)
    → IsValid c
    → 0 < size
    → size < 2 ^ 31
    → size ≤ length c.buf
    → (c' : Console) × (resize size scratch_size c ≡ done c')
      × Converted size (bytes_to_preserve size scratch_size c) c c'
unfolding resize c' preserved init_ram_console current_log previous_log saved_log
resize_lem size scratch_size c v pos small in_ram = elim (Bool-cases (ltb 0 n)) [
  | inl e ↦
      let some_left : 0 < n = ltb→lt _ _ e in
      let in_logs : n ≤ c.bytes_written + c.last_bytes_written = omega (arith, least) in
      let fits : n ≤ size = omega (arith, least) in
      (
        c' c v size n some_left in_logs fits in_ram small,
        ap (λ b. if b then move else done (init_ram_console size c)) e
            ∙ copied c v size n some_left in_logs fits in_ram small scratch_size
                (omega (arith, least)),
        (
          IsValid-preserved c v size n some_left in_logs fits in_ram small,
          refl,
          current-preserved c v size n some_left in_logs fits in_ram small,
          previous-preserved c v size n some_left in_logs fits in_ram small,
          saved-preserved c v size n some_left in_logs fits in_ram small
              ∙ previous-preserved c v size n some_left in_logs fits in_ram small,
        ),
      )
  | inr e ↦
      let none_left : n ≡ 0 = omega (arith, ltb_false→le _ _ e) in
      (
        init_ram_console size c,
        ap (λ b. if b then move else done (init_ram_console size c)) e,
        (
          record { index_in = pos; in_ram = in_ram; small = small; logs_fit = omega arith },
          refl,
          ap (λ k. take k (current_log c)) (sym none_left),
          ap (λ k. take (k - 0) (previous_log c)) (sym none_left),
          ap (λ k. take (k - 0) (previous_log c)) (sym none_left),
        ),
      )
]
  where
    n : ℕ
    n = bytes_to_preserve size scratch_size c

    least : n ≡ min scratch_size (min size (c.bytes_written + c.last_bytes_written))
    least = bytes_to_preserve-min size scratch_size c v

    move : Run Console
    move = copy_to_scratch scratch_size n c >>= λ scratch.
        copy_in c.buf 0 scratch >>= λ buf. done (preserved size n buf c)

init-resize :
    (size scratch_size : ℕ) (c : Console)
    → c.magic ≡ ram_console_magic
    → c.buf_size ≢ size
    → init size scratch_size c
      ≡ (resize size scratch_size c >>= λ c'. done (record c' { enabled = false }))
unfolding init
init-resize size scratch_size c magic other = ground arith

-- `nl_ram_console_init` on a valid console with the magic number, for a buffer of another size that
-- is between 0 and 2 ^ 31 and within the RAM, returns and touches no memory outside the old buffer,
-- the new one and the scratch buffer. The current log keeps its newest bytes, as many as fit the
-- new size and the scratch buffer; the previous log keeps its newest bytes, as many as then still
-- fit, and it is found from `last_write_index` as it is behind the current one. The console is valid
-- for the new size, and disabled.
pub init_resized :
    (size scratch_size : ℕ) (c : Console)
    → IsValid c
    → c.magic ≡ ram_console_magic
    → c.buf_size ≢ size
    → 0 < size
    → size < 2 ^ 31
    → size ≤ length c.buf
    → let n = min scratch_size (min size (c.bytes_written + c.last_bytes_written)) in
      (c' : Console) × (init size scratch_size c ≡ done c')
      × IsValid c'
      × (c'.buf_size ≡ size)
      × (c'.enabled ≡ false)
      × (current_log c' ≡ take n (current_log c))
      × (previous_log c' ≡ take (n - c'.bytes_written) (previous_log c))
      × (saved_log c' ≡ take (n - c'.bytes_written) (previous_log c))
unfolding current_log previous_log saved_log
init_resized size scratch_size c v magic other pos small in_ram =
    let (d, moved, (valid, sized, current, previous, saved)) =
      resize_lem size scratch_size c v pos small in_ram in
    let least = bytes_to_preserve-min size scratch_size c v in
    (
      record d { enabled = false },
      init-resize size scratch_size c magic other ∙ ap (λ r. r >>= turned_off) moved,
      record {
        index_in = valid.index_in;
        in_ram = valid.in_ram;
        small = valid.small;
        logs_fit = valid.logs_fit;
      },
      sized,
      refl,
      current ∙ ap (λ k. take k (current_log c)) least,
      previous ∙ ap (λ k. take (k - d.bytes_written) (previous_log c)) least,
      saved ∙ ap (λ k. take (k - d.bytes_written) (previous_log c)) least,
    )
  where
    turned_off : Console → Run Console
    turned_off d = done (record d { enabled = false })
