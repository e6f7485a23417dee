-- ===== src/RamConsole/Saved.antt =====
-- The log of the previous run as a client of src/nlram_console.c finds it, by `last_write_index`.
use nlplatform.Prelude.{
  ℕ, zero, suc, ◌+◌, ◌-◌, ◌≤◌, ◌<◌, ◌≡◌, ◌⊎◌, sym, ap, ◌∙◌, inl, inr, List, arith, take, drop,
}
use nlplatform.RamConsole.{Console}
use nlplatform.RamConsole.Ring.{prev, recent, take-recent, history}
use nlplatform.RamConsole.Resize.{recent-end}

-- The `last_bytes_written` bytes before `last_write_index`, the newest first.
unfoldable pub saved_log : Console → List ℕ
saved_log c = take c.last_bytes_written (history c.buf_size (c.buf, c.last_write_index))

drop-recent :
    (buf : List ℕ) (size i b m : ℕ)
    → b ≤ i
    → drop b (recent buf size i (b + m)) ≡ recent buf size (i - b) m
unfolding recent
drop-recent buf size i zero m h =
    ap (recent buf size i) {y = m} (omega arith) ∙ ap (λ k. recent buf size k m) (omega arith)
drop-recent buf size zero (suc b) m h = absurd (omega arith)
drop-recent buf size (suc i) (suc b) m h =
    ap (λ k. drop (suc b) (recent buf size (suc i) k)) (suc_add b m)
    ∙ ap (λ k. drop b (recent buf size k (b + m))) (back i)
    ∙ drop-recent buf size i b m (omega arith)
    ∙ ap (λ k. recent buf size k m) (omega arith)
  where
    suc_add : (b m : ℕ) → suc b + m ≡ suc (b + m)
    suc_add b m = omega arith

    back : (i : ℕ) → prev size (suc i) ≡ i
    back i = ground arith

behind :
    (buf : List ℕ) (size i b l : ℕ)
    → b + l ≤ size
    → b ≤ i
    → take l (recent buf size (i - b) size) ≡ take l (drop b (recent buf size i size))
behind buf size i b l fits le =
    take-recent buf size (i - b) l size (omega arith)
    ∙ sym (take-recent buf size (i - b) l (size - b) (omega arith))
    ∙ ap (take l) (sym (drop-recent buf size i b (size - b) le))
    ∙ ap (λ k. take l (drop b (recent buf size i k))) (omega arith)

-- The index from which the bytes behind `b` newer ones are found, also round the end.
unfoldable pub IsBehind : (size i b last : ℕ) → Type 0
IsBehind size i b last = ((b ≤ i) × (last ≡ i - b)) ⊎ ((i ≡ 0) × (last ≡ size - b))

pub recent-IsBehind :
    (buf : List ℕ) (size i b l last : ℕ)
    → 0 < size
    → b + l ≤ size
    → IsBehind size i b last
    → take l (recent buf size last size) ≡ take l (drop b (recent buf size i size))
unfolding IsBehind
recent-IsBehind buf size i b l last pos fits (inl (le, e)) =
    ap (λ k. take l (recent buf size k size)) e ∙ behind buf size i b l fits le
recent-IsBehind buf size i b l last pos fits (inr (z, e)) =
    ap (λ k. take l (recent buf size k size)) e
    ∙ behind buf size size b l fits (omega (arith, fits))
    ∙ ap (λ xs. take l (drop b xs)) (recent-end buf size size pos)
    ∙ ap (λ k. take l (drop b (recent buf size k size))) (sym z)
