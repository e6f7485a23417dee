-- ===== src/RamConsole/Logs.antt =====
-- The two logs that the buffer of src/nlram_console.c holds, and what new bytes leave of them.
use nlplatform.Prelude.{
  ℕ, ◌^◌, ◌+◌, ◌-◌, ◌≤◌, ◌<◌, ◌≡◌, sym, ap, ◌∙◌, inl, inr, List, ◌++◌, arith, leb, Bool-cases,
  length, take, drop, length-take, min, take-take, take-append-take, take-all, take-drop-take,
  drop-append, length-append, leb→le, leb_false→lt,
}
use nlplatform.RamConsole.{Console}
use nlplatform.RamConsole.Ring.{history}

-- The index is within the buffer, the buffer within the RAM, and the two logs within the buffer. The
-- size leaves room for the sums and differences of indices.
pub record IsValid (c : Console) : Type 0 where
  pub index_in : c.write_index < c.buf_size
  pub in_ram : c.buf_size ≤ length c.buf
  pub small : c.buf_size < 2 ^ 31
  pub logs_fit : c.bytes_written + c.last_bytes_written ≤ c.buf_size

-- The current log and that of the previous run, the newest byte first.
abbrev pub ring : Console → List ℕ
ring c = history c.buf_size (c.buf, c.write_index)

unfoldable pub current_log : Console → List ℕ
current_log c = take c.bytes_written (ring c)

unfoldable pub previous_log : Console → List ℕ
previous_log c = take c.last_bytes_written (drop c.bytes_written (ring c))

-- The current log takes the bytes, and gives up its oldest past the size; the previous log keeps
-- what room is left.
pub logs_after :
    (size b l : ℕ) (new old : List ℕ)
    → b + l ≤ size
    → let kept = take size (new ++ take b old) in
      let b' = min size (b + length new) in
      let l' = min (size - b') l in
      (take b' (take size (new ++ old)) ≡ kept)
      × (take l' (drop b' (take size (new ++ old))) ≡ take (size - b') (take l (drop b old)))
logs_after size b l new old h = (current, previous)
  where
    b' : ℕ
    b' = min size (b + length new)

    l' : ℕ
    l' = min (size - b') l

    mixed : List ℕ
    mixed = new ++ take b old

    short : length mixed ≤ b + length new
    short = omega (arith, length-append new (take b old), length-take b old)

    current : take b' (take size (new ++ old)) ≡ take size mixed
    current =
        take-take b' size (new ++ old)
        ∙ ap (λ k. take k (new ++ old)) (omega arith)
        ∙ sym (take-append-take b' b new old (omega arith))
        ∙ sym (take-take size (b + length new) mixed)
        ∙ ap (take size) (take-all (b + length new) mixed short)

    roomy :
        b + length new ≤ size
        → take l' (drop b' (take size (new ++ old))) ≡ take (size - b') (take l (drop b old))
    roomy r =
        take-drop-take l' b' size (new ++ old) (omega arith)
        ∙ ap (λ k. take l' (drop k (new ++ old))) (omega arith)
        ∙ ap (take l') (drop-append b new old)
        ∙ sym (take-take (size - b') l (drop b old))

    full :
        size < b + length new
        → take l' (drop b' (take size (new ++ old))) ≡ take (size - b') (take l (drop b old))
    full r =
        let none_kept : l' ≡ 0 = omega arith in
        let no_room : size - b' ≡ 0 = omega arith in
        ap (λ k. take k (drop b' (take size (new ++ old)))) none_kept
        ∙ sym (ap (λ k. take k (take l (drop b old))) no_room)

    previous : take l' (drop b' (take size (new ++ old))) ≡ take (size - b') (take l (drop b old))
    previous = elim (Bool-cases (leb (b + length new) size)) [
      | inl e ↦ roomy (leb→le _ _ e)
      | inr e ↦ full (leb_false→lt _ _ e)
    ]
