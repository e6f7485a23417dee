-- ===== src/RamConsole/Ring.antt =====
-- The circular buffer of src/nlram_console.c as a specification: one byte at a time, and the bytes
-- that it holds as a list, the newest first.
use mathlib.Core.List.{reverse, reverse-cons, append_assoc}
use nlplatform.Prelude.{
  ℕ, zero, suc, ◌+◌, ◌-◌, ◌≤◌, ◌<◌, ◌≡◌, ◌⊎◌, refl, sym, ap, ◌∙◌, inr, List, [], ◌∷◌, ◌++◌, arith,
  leb, ◌==◌, if◌then◌else◌, length, get_or, set, take, store, take-append-take, length-set,
  get_or-set_self, get_or-set_ne,
}

-- The index before one, round the end.
abbrev pub prev : (size i : ℕ) → ℕ
prev size i = if i == 0 then size - 1 else i - 1

abbrev pub next : (size i : ℕ) → ℕ
next size i = if suc i == size then 0 else suc i

-- The last `n` bytes written before index `i`, the newest first.
unfoldable pub recent : List ℕ → (size i n : ℕ) → List ℕ
recent buf size i zero = []
recent buf size i (suc n) = get_or buf (prev size i) 0 ∷ recent buf size (prev size i) n

pub length-recent : (buf : List ℕ) (size i n : ℕ) → length (recent buf size i n) ≡ n
unfolding recent
length-recent buf size i zero = refl
length-recent buf size i (suc n) = ap suc (length-recent buf size (prev size i) n)

pub take-recent :
    (buf : List ℕ) (size i m n : ℕ) → m ≤ n → take m (recent buf size i n) ≡ recent buf size i m
unfolding recent
take-recent buf size i zero n h = refl
take-recent buf size i (suc m) zero h = absurd (omega arith)
take-recent buf size i (suc m) (suc n) h =
    ap (◌∷◌ (get_or buf (prev size i) 0)) (take-recent buf size (prev size i) m n (omega arith))

-- A byte stored at `i` is not among the `n` before `j`, if those do not reach back to `i`.
pub recent-set :
    (buf : List ℕ) (size i x j n : ℕ)
    → i < size
    → j < size
    → ((i < j) × (i + n < j)) ⊎ ((j ≤ i) × (i + n < j + size))
    → recent (set buf i x) size j n ≡ recent buf size j n
unfolding recent
recent-set buf size i x j zero hi hj far = refl
recent-set buf size i x j (suc n) hi hj far =
    ground (arith, get_or-set_ne buf i (prev size j) x 0, recent-set buf size i x (prev size j) n)

-- One byte written to the buffer and index.
unfoldable pub put : (size x : ℕ) → List ℕ × ℕ → List ℕ × ℕ
put size x (buf, i) = (set buf i x, next size i)

unfoldable pub put_all : (size : ℕ) → List ℕ → List ℕ × ℕ → List ℕ × ℕ
put_all size [] s = s
put_all size (x ∷ xs) s = put_all size xs (put size x s)

pub put_all-append :
    (size : ℕ) (xs ys : List ℕ) (s : List ℕ × ℕ)
    → put_all size (xs ++ ys) s ≡ put_all size ys (put_all size xs s)
unfolding put_all
put_all-append size [] ys s = refl
put_all-append size (x ∷ xs) ys s = put_all-append size xs ys (put size x s)

pub recent-put :
    (buf : List ℕ) (size i x n : ℕ)
    → i < size
    → size ≤ length buf
    → n < size
    → recent (set buf i x) size (next size i) (suc n) ≡ x ∷ recent buf size i n
unfolding recent
recent-put buf size i x n hi hs hn =
    let back : prev size (next size i) ≡ i = ground arith in
    rw (
      back,
      get_or-set_self buf i x 0 (omega arith),
      recent-set buf size i x i n hi hi (inr (omega arith, omega arith)),
    )

-- A chunk that does not go round the end is stored at once.
pub put_all-store :
    (xs buf : List ℕ) (size i : ℕ)
    → i < size
    → i + length xs ≤ size
    → put_all size xs (buf, i)
      ≡ (store buf i xs, if leb size (i + length xs) then 0 else i + length xs)
unfolding put_all put store
put_all-store [] buf size i hi h = ground arith
put_all-store (x ∷ []) buf size i hi h = ground arith
put_all-store (x ∷ y ∷ xs) buf size i hi h =
    ground (arith, put_all-store (y ∷ xs) (set buf i x) size (suc i))

newest :
    (size x : ℕ) (buf : List ℕ) (i : ℕ)
    → i < size
    → size ≤ length buf
    → recent (set buf i x) size (next size i) size ≡ take size (x ∷ recent buf size i size)
newest zero x buf i hi hs = absurd (omega arith)
newest (suc m) x buf i hi hs =
    recent-put buf (suc m) i x m hi hs (omega arith)
    ∙ ap (◌∷◌ x) (sym (take-recent buf (suc m) i m (suc m) (omega arith)))

module _ (size : ℕ) where
  -- The buffer holds `size` bytes, and the index is within.
  abbrev pub Fits : List ℕ × ℕ → Type 0
  Fits (buf, i) = (i < size) × (size ≤ length buf)

  abbrev pub history : List ℕ × ℕ → List ℕ
  history (buf, i) = recent buf size i size

  pub put-Fits : (x : ℕ) (s : List ℕ × ℕ) → Fits s → Fits (put size x s)
  unfolding put
  put-Fits x (buf, i) h = ground (arith, length-set buf i x)

  pub history-put :
      (x : ℕ) (s : List ℕ × ℕ) → Fits s → history (put size x s) ≡ take size (x ∷ history s)
  unfolding put
  history-put x (buf, i) h = newest size x buf i h.0 h.1

  pub put_all-Fits : (xs : List ℕ) (s : List ℕ × ℕ) → Fits s → Fits (put_all size xs s)
  unfolding put_all
  put_all-Fits [] s h = h
  put_all-Fits (x ∷ xs) s h = put_all-Fits xs (put size x s) (put-Fits x s h)

  -- The buffer holds the last `size` bytes of all that was ever written.
  pub history-put_all :
      (xs : List ℕ) (s : List ℕ × ℕ)
      → Fits s
      → history (put_all size xs s) ≡ take size (reverse xs ++ history s)
  unfolding put_all
  history-put_all [] (buf, i) h = sym (take-recent buf size i size size (omega arith))
  history-put_all (x ∷ xs) s h =
      history-put_all xs (put size x s) (put-Fits x s h)
      ∙ ap (λ ys. take size (reverse xs ++ ys)) (history-put x s h)
      ∙ take-append-take size size (reverse xs) (x ∷ history s) (omega arith)
      ∙ rw (reverse-cons x xs, append_assoc)
