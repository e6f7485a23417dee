-- ===== src/Prelude/Stores.antt =====
-- What a buffer holds after `memcpy` into it.
use Prim.Native.Nat.{ℕ, zero, suc, ◌+◌, ◌≤◌, ◌<◌}
use mathlib.Core.Path.{◌≡◌, refl, sym, ap, ◌∙◌}
use mathlib.Core.List.{List, [], ◌∷◌, ◌++◌}
use native.Mathlib.Omega.{arith}
use nlplatform.Prelude.Lists.{length, take, drop, length-drop}
use nlplatform.Prelude.Bytes.{set, store, length-set}

pub append_assoc {ℓ} : {A : Type ℓ} (xs ys zs : List A) → (xs ++ ys) ++ zs ≡ xs ++ (ys ++ zs)
append_assoc [] ys zs = refl
append_assoc (x ∷ xs) ys zs = ap (◌∷◌ x) (append_assoc xs ys zs)

pub append_nil {ℓ} : {A : Type ℓ} (xs : List A) → xs ++ [] ≡ xs
append_nil [] = refl
append_nil (x ∷ xs) = ap (◌∷◌ x) (append_nil xs)

zero_add : (n : ℕ) → 0 + n ≡ n
zero_add n = omega arith

suc_add : (m n : ℕ) → suc m + n ≡ suc (m + n)
suc_add m n = omega arith

take-set :
    (n v : ℕ) (page : List ℕ)
    → n < length page
    → take (suc n) (set page n v) ≡ take n page ++ (v ∷ [])
take-set n v [] h = absurd (omega arith)
take-set zero v (x ∷ page) h = refl
take-set (suc n) v (x ∷ page) h = ap (◌∷◌ x) (take-set n v page (omega arith))

drop-set : (m n v : ℕ) (page : List ℕ) → drop m (set page (m + n) v) ≡ set (drop m page) n v
drop-set zero n v page = ap (λ k. set page k v) (zero_add n)
drop-set (suc m) n v [] = refl
drop-set (suc m) n v (x ∷ page) =
    ap (λ k. drop (suc m) (set (x ∷ page) k v)) (suc_add m n) ∙ drop-set m n v page

-- From `m` on, up to the end of what was stored: what was there before, and what was stored.
pub take-drop-store :
    (m n : ℕ) (xs page : List ℕ)
    → m + n + length xs ≤ length page
    → take (n + length xs) (drop m (store page (m + n) xs)) ≡ take n (drop m page) ++ xs
unfolding store
take-drop-store m n [] page h =
    ap (λ k. take k (drop m page)) (omega arith) ∙ sym (append_nil (take n (drop m page)))
take-drop-store m n (x ∷ xs) page h =
    let page' = set page (m + n) x in
    ap (λ k. take k (drop m (store page' (suc (m + n)) xs))) (omega arith)
    ∙ ap (λ k. take (suc n + length xs) (drop m (store page' k xs))) (omega arith)
    ∙ take-drop-store m (suc n) xs page' (omega (arith, h, length-set page (m + n) x))
    ∙ ap (λ ys. take (suc n) ys ++ xs) (drop-set m n x page)
    ∙ ap (λ ys. ys ++ xs) (take-set n x (drop m page) (omega (arith, h, length-drop m page)))
    ∙ append_assoc (take n (drop m page)) (x ∷ []) xs
