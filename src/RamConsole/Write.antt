-- ===== src/RamConsole/Write.antt =====
-- `nl_ram_console_write` of src/nlram_console.c against the circular buffer written byte by byte.
use mathlib.Core.List.{reverse}
use nlplatform.Prelude.{
  ℕ, zero, suc, ◌^◌, ◌+◌, ◌-◌, ◌≤◌, ◌<◌, ◌≡◌, refl, sym, ap, ◌∙◌, inl, inr, true, List, [], ◌∷◌,
  ◌++◌, arith, ltb, leb, ◌==◌, if◌then◌else◌, Bool-cases, length, length-reverse, take, drop, store,
  copy_in_done, length-store, length-take, length-drop, take-append-drop, add32, sub32, min, Run,
  done, ◌>>=◌,
}
use nlplatform.RamConsole.{Console, write_loop, count_written, notify, write}
use nlplatform.RamConsole.Logs.{IsValid, ring, current_log, previous_log, logs_after}
use nlplatform.RamConsole.Ring.{
  put_all, put_all-append, put_all-store, put_all-Fits, Fits, history-put_all,
}

-- Which bytes the loop writes, and where.
unfoldable pub written : (size : ℕ) → List ℕ → Console → Console
written size bytes c =
    let s = put_all size bytes (c.buf, c.write_index) in record c { buf = s.0; write_index = s.1 }

chunk :
    (size n : ℕ) (bytes : List ℕ) (c : Console)
    → c.write_index < size
    → n ≤ length bytes
    → c.write_index + n ≤ size
    → size < 2 ^ 31
    → written size bytes c
      ≡ written size (drop n bytes) (record c {
        buf = store c.buf c.write_index (take n bytes);
        write_index = if leb size (add32 c.write_index n) then 0 else add32 c.write_index n;
      })
unfolding written
chunk size n bytes c hi hn h small =
    ap (λ (s : List ℕ × ℕ). record c { buf = s.0; write_index = s.1 })
      (ap (λ ys. put_all size ys (c.buf, c.write_index)) (sym (take-append-drop n bytes))
        ∙ put_all-append size (take n bytes) (drop n bytes) (c.buf, c.write_index)
        ∙ ap (put_all size (drop n bytes)) (stored ∙ ap index plain))
  where
    index : ℕ → List ℕ × ℕ
    index j = (store c.buf c.write_index (take n bytes), if leb size j then 0 else j)

    whole : length (take n bytes) ≡ n
    whole = omega (arith, length-take n bytes)

    stored :
        put_all size (take n bytes) (c.buf, c.write_index)
        ≡ index (c.write_index + length (take n bytes))
    stored =
        put_all-store (take n bytes) c.buf size c.write_index hi
          (omega (arith, length-take n bytes))

    plain : c.write_index + length (take n bytes) ≡ add32 c.write_index n
    plain = omega (arith, whole)

-- The loop of the write, on a buffer of less than 2 ^ 31 bytes within the RAM and with an index
-- inside it, does chunk by chunk what writing byte by byte does. It stays within the RAM, and more
-- fuel than there are bytes is enough.
write_loop-written :
    (fuel size : ℕ) (bytes : List ℕ) (c : Console)
    → c.write_index < size
    → size ≤ length c.buf
    → size < 2 ^ 31
    → length bytes < fuel
    → write_loop fuel size bytes c ≡ done (written size bytes c)
unfolding write_loop
write_loop-written zero size bytes c hi hs small h = absurd (omega arith)
write_loop-written (suc fuel) size [] c hi hs small h = unfold written put_all in refl
write_loop-written (suc fuel) size (x ∷ bytes) c hi hs small h =
    rw (copy_in_done c.buf (take n (x ∷ bytes)) c.write_index (omega (arith, bounds, whole))) (
      write_loop-written fuel size (drop n (x ∷ bytes)) c' (ground (arith, bounds))
        (omega (arith, length-store (take n (x ∷ bytes)) c.buf c.write_index)) small
        (omega (arith, length-drop n (x ∷ bytes), bounds))
      ∙ ap done (sym (chunk size n (x ∷ bytes) c hi bounds.0 bounds.1 small)))
  where
    before_wrap : ℕ
    before_wrap = sub32 size c.write_index

    n : ℕ
    n = if ltb (length (x ∷ bytes)) before_wrap then length (x ∷ bytes) else before_wrap

    bounds : (n ≤ suc (length bytes)) × (c.write_index + n ≤ size) × (0 < n)
    bounds = ground arith

    whole : length (take n (x ∷ bytes)) ≡ n
    whole = omega (arith, length-take n (x ∷ bytes), bounds)

    c' : Console
    c' = record c {
      buf = store c.buf c.write_index (take n (x ∷ bytes));
      write_index = if leb size (add32 c.write_index n) then 0 else add32 c.write_index n;
    }

-- The counts after the bytes.
counted-IsValid :
    (len : ℕ) (c : Console) → IsValid c → len < 2 ^ 31 → IsValid (count_written c.buf_size len c)
unfolding count_written
counted-IsValid len c v h = ground arith

written-IsValid : (bytes : List ℕ) (c : Console) → IsValid c → IsValid (written c.buf_size bytes c)
unfolding written
written-IsValid bytes c v =
    let fits : Fits c.buf_size (put_all c.buf_size bytes (c.buf, c.write_index)) =
      put_all-Fits c.buf_size bytes (c.buf, c.write_index) (v.index_in, v.in_ram) in
    record { index_in = fits.0; in_ram = fits.1; small = v.small; logs_fit = v.logs_fit }

-- The callback leaves the console as it is.
abbrev pub Quiet : (ℕ → Console → Console) → Type 0
Quiet call = (f : ℕ) (c : Console) → call f c ≡ c

notify-same :
    (call : ℕ → Console → Console) (len : ℕ) (c : Console)
    → Quiet call
    → (n : ℕ) × (notify call len c ≡ record c { callback_bytes_written = n })
unfolding notify
notify-same call len c q = elim (Bool-cases (c.callback == 0)) [
  | inl e ↦ (c.callback_bytes_written, rw e)
  | inr e ↦ elim (Bool-cases (leb c.callback_watermark (add32 c.callback_bytes_written len))) [
    | inl w ↦ (0, rw (e, w, q))
    | inr w ↦ (add32 c.callback_bytes_written len, rw (e, w))
  ]
]

-- The console after the bytes and their count.
module _ (bytes : List ℕ) (c : Console) (v : IsValid c) (short : length bytes < 2 ^ 31) where
  counted : Console
  counted = count_written c.buf_size (length bytes) (written c.buf_size bytes c)

  b' : ℕ
  b' = min c.buf_size (c.bytes_written + length (reverse bytes))

  ring-counted : ring counted ≡ take c.buf_size (reverse bytes ++ ring c)
  unfolding counted count_written written
  ring-counted = history-put_all c.buf_size bytes (c.buf, c.write_index) (v.index_in, v.in_ram)

  bytes-counted : counted.bytes_written ≡ b'
  unfolding counted count_written written b'
  bytes-counted = ground (arith, length-reverse bytes)

  last-counted : counted.last_bytes_written ≡ min (c.buf_size - b') c.last_bytes_written
  unfolding counted count_written written b'
  last-counted = ground (arith, length-reverse bytes)

  current-counted : current_log counted ≡ take c.buf_size (reverse bytes ++ current_log c)
  unfolding current_log b'
  current-counted =
      ap (λ k. take k (ring counted)) bytes-counted
      ∙ ap (take b') ring-counted
      ∙ (logs_after c.buf_size c.bytes_written c.last_bytes_written (reverse bytes) (ring c)
          v.logs_fit).0

  previous-counted :
      previous_log counted ≡ take (c.buf_size - counted.bytes_written) (previous_log c)
  unfolding previous_log b'
  previous-counted =
      ap (λ k. take k (drop counted.bytes_written (ring counted))) last-counted
      ∙ ap (λ k. take (min (c.buf_size - b') c.last_bytes_written) (drop k (ring counted)))
          bytes-counted
      ∙ ap (λ xs. take (min (c.buf_size - b') c.last_bytes_written) (drop b' xs)) ring-counted
      ∙ (logs_after c.buf_size c.bytes_written c.last_bytes_written (reverse bytes) (ring c)
          v.logs_fit).1
      ∙ ap (λ k. take (c.buf_size - k) (previous_log c)) (sym bytes-counted)

  IsValid-counted : IsValid counted
  unfolding counted written
  IsValid-counted =
      counted-IsValid (length bytes) (written c.buf_size bytes c) (written-IsValid bytes c v) short

-- The write with what it leaves alone.
pub write_kept :
    (call : ℕ → Console → Console) (bytes : List ℕ) (c : Console)
    → Quiet call
    → IsValid c
    → c.enabled ≡ true
    → length bytes < 2 ^ 31
    → (c' : Console) × (write call bytes c ≡ done c')
      × IsValid c'
      × (current_log c' ≡ take c.buf_size (reverse bytes ++ current_log c))
      × (previous_log c' ≡ take (c.buf_size - c'.bytes_written) (previous_log c))
      × (c'.magic ≡ c.magic)
      × (c'.buf_size ≡ c.buf_size)
unfolding write current_log previous_log counted count_written written
write_kept call bytes c quiet v on short =
    let (n, same) = notify-same call (length bytes) (counted bytes c v short) quiet in
    (
      record (counted bytes c v short) { callback_bytes_written = n },
      ap (λ b. if b then (write_loop (suc (length bytes)) c.buf_size bytes c >>= rest) else done c)
            on
          ∙ ap (λ m. m >>= rest)
              (write_loop-written (suc (length bytes)) c.buf_size bytes c v.index_in v.in_ram
                v.small (omega arith))
          ∙ ap done same,
      record {
        index_in = valid.index_in;
        in_ram = valid.in_ram;
        small = valid.small;
        logs_fit = valid.logs_fit;
      },
      current-counted bytes c v short,
      previous-counted bytes c v short,
      refl,
      refl,
    )
  where
    rest : Console → Run Console
    rest c' = done (notify call (length bytes) (count_written c.buf_size (length bytes) c'))

    valid : IsValid (counted bytes c v short)
    valid = IsValid-counted bytes c v short

-- `nl_ram_console_write` of less than 2 ^ 31 bytes on a valid and enabled console, with a callback
-- that leaves the console as it is, returns and touches no memory outside the buffer. The current
-- log is then the new bytes before the old ones, newest first, cut to the size of the buffer; the
-- previous log keeps its newest bytes, as many as there is room for. The console stays valid.
pub write_lem :
    (call : ℕ → Console → Console) (bytes : List ℕ) (c : Console)
    → Quiet call
    → IsValid c
    → c.enabled ≡ true
    → length bytes < 2 ^ 31
    → (c' : Console) × (write call bytes c ≡ done c')
      × IsValid c'
      × (current_log c' ≡ take c.buf_size (reverse bytes ++ current_log c))
      × (previous_log c' ≡ take (c.buf_size - c'.bytes_written) (previous_log c))
write_lem call bytes c quiet v on short =
    let (c', returned, valid, current, previous, _, _) = write_kept call bytes c quiet v on short in
    (c', returned, valid, current, previous)
