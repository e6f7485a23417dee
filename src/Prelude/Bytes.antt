-- ===== src/Prelude/Bytes.antt =====
-- Byte buffers: `memcpy` out of one and into one, with the access checked.
use Prim.Native.Nat.{ℕ, zero, suc, ◌+◌, ◌≤◌, ◌<◌}
use mathlib.Core.Path.{◌≡◌, refl, ap}
use mathlib.Core.Logic.{◌≢◌}
use mathlib.Core.List.{List, [], ◌∷◌}
use native.Mathlib.Omega.{arith}
use nlplatform.Prelude.Tests.{leb, if◌then◌else◌}
use nlplatform.Prelude.Lists.{length, get_or, take, drop}
use nlplatform.Prelude.Results.{Run, done, out_of_bounds}

-- A write out of range changes nothing here; the checked functions below exclude it.
abbrev pub set : List ℕ → ℕ → ℕ → List ℕ
set [] i v = []
set (x ∷ xs) zero v = v ∷ xs
set (x ∷ xs) (suc i) v = x ∷ set xs i v

-- Byte after byte from index `i` on.
unfoldable pub store : List ℕ → ℕ → List ℕ → List ℕ
store buf i [] = buf
store buf i (x ∷ xs) = store (set buf i x) (suc i) xs

-- `memcpy(&buf[i], xs, length of xs)`
unfoldable pub copy_in : List ℕ → ℕ → List ℕ → Run (List ℕ)
copy_in buf i xs = if leb (i + length xs) (length buf) then done (store buf i xs) else out_of_bounds

-- What `memcpy(dst, &buf[i], n)` puts into `dst`.
unfoldable pub copy_out : List ℕ → ℕ → ℕ → Run (List ℕ)
copy_out buf i n = if leb (i + n) (length buf) then done (take n (drop i buf)) else out_of_bounds

pub length-set : (xs : List ℕ) (i v : ℕ) → length (set xs i v) ≡ length xs
length-set [] i v = refl
length-set (x ∷ xs) zero v = refl
length-set (x ∷ xs) (suc i) v = ap suc (length-set xs i v)

pub get_or-set_self : (xs : List ℕ) (i v d : ℕ) → i < length xs → get_or (set xs i v) i d ≡ v
get_or-set_self [] i v d h = absurd (omega arith)
get_or-set_self (x ∷ xs) zero v d h = refl
get_or-set_self (x ∷ xs) (suc i) v d h = get_or-set_self xs i v d (omega arith)

pub get_or-set_ne : (xs : List ℕ) (i j v d : ℕ) → i ≢ j → get_or (set xs i v) j d ≡ get_or xs j d
get_or-set_ne [] i j v d h = refl
get_or-set_ne (x ∷ xs) zero zero v d h = absurd (h refl)
get_or-set_ne (x ∷ xs) zero (suc j) v d h = refl
get_or-set_ne (x ∷ xs) (suc i) zero v d h = refl
get_or-set_ne (x ∷ xs) (suc i) (suc j) v d h = get_or-set_ne xs i j v d (λ e. h (ap suc e))

pub length-store : (xs buf : List ℕ) (i : ℕ) → length (store buf i xs) ≡ length buf
unfolding store
length-store [] buf i = refl
length-store (x ∷ xs) buf i =
    omega (arith, length-store xs (set buf i x) (suc i), length-set buf i x)

pub copy_in_done :
    (buf xs : List ℕ) (i : ℕ)
    → i + length xs ≤ length buf
    → copy_in buf i xs ≡ done (store buf i xs)
unfolding copy_in
copy_in_done buf xs i h = ground arith

pub copy_out_done :
    (buf : List ℕ) (i n : ℕ) → i + n ≤ length buf → copy_out buf i n ≡ done (take n (drop i buf))
unfolding copy_out
copy_out_done buf i n h = ground arith
