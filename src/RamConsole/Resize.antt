-- ===== src/RamConsole/Resize.antt =====
-- `nl_ram_console_init` of src/nlram_console.c after a change of the buffer's size: the logs go
-- through a scratch buffer to the start of the new buffer.
use mathlib.Core.List.{reverse, reverse-cons, reverse-append}
use nlplatform.Prelude.{
  ℕ, zero, suc, ◌+◌, ◌-◌, ◌≤◌, ◌<◌, ◌≡◌, refl, sym, ap, ap₂, ◌∙◌, inl, inr, true, false, List, [],
  ◌∷◌, ◌++◌, arith, ltb, leb, if◌then◌else◌, Bool-cases, length, get_or, take, drop, copy_out,
  copy_out_done, sub32, leb→le, leb_false→lt, Run, done, out_of_bounds, if_false, length-reverse,
  ◌>>=◌,
}
use nlplatform.RamConsole.{Console, start_index, copy_chunks, copy_to_scratch}
use nlplatform.RamConsole.Logs.{IsValid}
use nlplatform.RamConsole.Ring.{prev, recent, length-recent}

-- One byte more at the end of a slice.
slice-suc :
    (buf : List ℕ) (i n : ℕ)
    → i + n < length buf
    → take (suc n) (drop i buf) ≡ take n (drop i buf) ++ get_or buf (i + n) 0 ∷ []
slice-suc [] i n h = absurd (omega arith)
slice-suc (x ∷ buf) zero zero h = refl
slice-suc (x ∷ buf) zero (suc n) h = ap (◌∷◌ x) (
    slice-suc buf zero n (omega arith)
    ∙ ap (λ k. take n buf ++ get_or (x ∷ buf) k 0 ∷ []) (zero_suc n))
  where
    zero_suc : (n : ℕ) → suc (0 + n) ≡ 0 + suc n
    zero_suc n = omega arith
slice-suc (x ∷ buf) (suc i) n h =
    slice-suc buf i n (omega arith)
    ∙ ap (λ k. take n (drop i buf) ++ get_or (x ∷ buf) k 0 ∷ []) (suc_add i n)
  where
    suc_add : (i n : ℕ) → suc (i + n) ≡ suc i + n
    suc_add i n = omega arith

-- A slice that does not go round the end, read backwards from its end.
slice-recent :
    (buf : List ℕ) (size i n : ℕ)
    → i + n ≤ size
    → size ≤ length buf
    → take n (drop i buf) ≡ reverse (recent buf size (i + n) n)
unfolding recent
slice-recent buf size i zero h hs = refl
slice-recent buf size i (suc n) h hs =
    slice-suc buf i n (omega arith)
    ∙ ap (λ ys. ys ++ get_or buf (i + n) 0 ∷ []) (slice-recent buf size i n (omega arith) hs)
    ∙ sym (reverse-cons (get_or buf (i + n) 0) (recent buf size (i + n) n))
    ∙ ap (λ k. reverse (get_or buf k 0 ∷ recent buf size k n)) back
  where
    back : i + n ≡ prev size (i + suc n)
    back = ground arith

-- Back to index 0, and on from the end.
recent-append :
    (buf : List ℕ) (size i m : ℕ)
    → recent buf size i (i + m) ≡ recent buf size i i ++ recent buf size 0 m
unfolding recent
recent-append buf size zero m = ap (recent buf size 0) (omega arith)
recent-append buf size (suc i) m =
    ap (recent buf size (suc i)) (suc_add i m)
    ∙ ap (λ k. get_or buf k 0 ∷ recent buf size k (i + m)) (back i)
    ∙ ap (◌∷◌ (get_or buf i 0)) (recent-append buf size i m)
    ∙ sym (ap (λ k. get_or buf k 0 ∷ (recent buf size k i ++ recent buf size 0 m)) (back i))
  where
    suc_add : (i m : ℕ) → suc i + m ≡ suc (i + m)
    suc_add i m = omega arith

    back : (i : ℕ) → prev size (suc i) ≡ i
    back i = ground arith

pub recent-end :
    (buf : List ℕ) (size m : ℕ) → 0 < size → recent buf size size m ≡ recent buf size 0 m
unfolding recent
recent-end buf size zero h = refl
recent-end buf size (suc m) h = ap (λ k. get_or buf k 0 ∷ recent buf size k m) (ground arith)

-- The scratch buffer holds the last `n` bytes before the write index, in the order of writing.
module _ (c : Console) (v : IsValid c) (n : ℕ) (pos : 0 < n) (le : n ≤ c.buf_size) where
  abbrev newest : List ℕ
  newest = recent c.buf c.buf_size c.write_index n

  copied_in_one : n ≤ c.write_index → copy_chunks (start_index n c) n c ≡ done (reverse newest)
  unfolding copy_chunks start_index
  copied_in_one h =
      ap (λ start. copy_chunks start n c) start
      ∙ ap (λ b. if b then copy_out c.buf (c.write_index - n) n else rest) whole
      ∙ copy_out_done c.buf (c.write_index - n) n (omega (arith, v.index_in, v.in_ram))
      ∙ ap done (
          slice-recent c.buf c.buf_size (c.write_index - n) n (omega (arith, v.index_in)) v.in_ram
          ∙ ap (λ k. reverse (recent c.buf c.buf_size k n)) (omega arith))
    where
      start : start_index n c ≡ c.write_index - n
      start = ground (arith, v.index_in, v.small)

      rest : Run (List ℕ)
      rest = copy_out c.buf (c.write_index - n) (sub32 c.buf_size (c.write_index - n)) >>= λ upper.
          copy_out c.buf 0 (sub32 n (sub32 c.buf_size (c.write_index - n))) >>= λ lower.
          done (upper ++ lower)

      whole : ltb n (sub32 c.buf_size (c.write_index - n)) ≡ true
      whole = ground (arith, v.index_in, v.small)

  copied_in_two : c.write_index < n → copy_chunks (start_index n c) n c ≡ done (reverse newest)
  unfolding copy_chunks start_index
  copied_in_two h =
      ap (λ start. copy_chunks start n c) start
      ∙ ap (λ b. if b then copy_out c.buf a n else halves (sub32 c.buf_size a)) split
      ∙ ap halves until_end
      ∙ ap (λ r. r >>= from_upper (n - c.write_index))
          (copy_out_done c.buf a (n - c.write_index) (omega (arith, v.in_ram)))
      ∙ ap (λ k. copy_out c.buf 0 k >>= λ lower. done (upper ++ lower)) lower_size
      ∙ ap (λ r. r >>= λ lower. done (upper ++ lower))
          (copy_out_done c.buf 0 c.write_index (omega (arith, v.index_in, v.in_ram)))
      ∙ ap done joined
    where
      a : ℕ
      a = c.write_index + c.buf_size - n

      from_upper : ℕ → List ℕ → Run (List ℕ)
      from_upper u upper = copy_out c.buf 0 (sub32 n u) >>= λ lower. done (upper ++ lower)

      halves : ℕ → Run (List ℕ)
      halves u = copy_out c.buf a u >>= from_upper u

      upper : List ℕ
      upper = take (n - c.write_index) (drop a c.buf)

      start : start_index n c ≡ a
      start = ground (arith, v.index_in, v.small)

      split : ltb n (sub32 c.buf_size a) ≡ false
      split = ground (arith, v.index_in, v.small)

      until_end : sub32 c.buf_size a ≡ n - c.write_index
      until_end = omega (arith, v.index_in, v.small)

      lower_size : sub32 n (n - c.write_index) ≡ c.write_index
      lower_size = omega (arith, v.index_in, v.small)

      from_end : upper ≡ reverse (recent c.buf c.buf_size 0 (n - c.write_index))
      from_end =
          slice-recent c.buf c.buf_size a (n - c.write_index) (omega arith) v.in_ram
          ∙ ap (λ k. reverse (recent c.buf c.buf_size k (n - c.write_index))) (omega arith)
          ∙ ap reverse (recent-end c.buf c.buf_size (n - c.write_index) (omega (arith, v.index_in)))

      from_start :
          take c.write_index (drop 0 c.buf)
          ≡ reverse (recent c.buf c.buf_size c.write_index c.write_index)
      from_start =
          slice-recent c.buf c.buf_size 0 c.write_index (omega (arith, v.index_in)) v.in_ram
          ∙ ap (λ k. reverse (recent c.buf c.buf_size k c.write_index)) (omega arith)

      joined : upper ++ take c.write_index (drop 0 c.buf) ≡ reverse newest
      joined =
          ap₂ ◌++◌ from_end from_start
          ∙ sym (
              reverse-append (recent c.buf c.buf_size c.write_index c.write_index)
                (recent c.buf c.buf_size 0 (n - c.write_index)))
          ∙ ap reverse (sym (recent-append c.buf c.buf_size c.write_index (n - c.write_index)))
          ∙ ap (λ k. reverse (recent c.buf c.buf_size c.write_index k)) (omega arith)

  copied_in_chunks : copy_chunks (start_index n c) n c ≡ done (reverse newest)
  copied_in_chunks = elim (Bool-cases (leb n c.write_index)) [
    | inl e ↦ copied_in_one (leb→le _ _ e)
    | inr e ↦ copied_in_two (leb_false→lt _ _ e)
  ]

  pub copy_to_scratch_lem :
      (scratch_size : ℕ)
      → n ≤ scratch_size
      → copy_to_scratch scratch_size n c ≡ done (reverse newest)
  unfolding copy_to_scratch
  copy_to_scratch_lem scratch_size room =
      ap
        (λ r. r >>= λ scratch.
          if ltb scratch_size (length scratch) then out_of_bounds else done scratch)
        copied_in_chunks
      ∙ if_false _ _ (
          roomy (length (reverse newest)) (
            omega
              (arith, room, length-reverse newest, length-recent c.buf c.buf_size c.write_index n)))
    where
      roomy : (k : ℕ) → k ≤ scratch_size → ltb scratch_size k ≡ false
      roomy k h = ground arith
