-- ===== src/FlashSpi/Plan.antt =====
-- The geometry of a chip and how many sectors `nlflash_spi_erase` of src/nlflash_spi.c erases.
use Prim.Native.Nat.{◌∣◌}
use native.Mathlib.Nat
use nlplatform.Prelude.{
  ℕ, ◌+◌, ◌-◌, ◌*◌, ◌/◌, ◌%◌, ◌≤◌, ◌<◌, ◌≡◌, ◌⊎◌, refl, sym, subst, inl, inr, arith, ◌==◌,
  if◌then◌else◌, leb, leb→le, ==_iff, not, u32_mod, sub32, Bool-cases,
}
use nlplatform.FlashSpi.{Chip, Product}
use nlplatform.FlashSpi.Calls.{count_sectors}

-- What the driver relies on in a chip's header.
pub record IsRegular (chip : Chip) : Type 0 where
  pub erase_size_pos : 0 < chip.erase_size
  pub fast_erase_size_pos : 0 < chip.fast_erase_size
  pub erase_size_divides : chip.erase_size ∣ chip.fast_erase_size
  pub write_size_pos : 0 < chip.write_size
  pub size_fits : chip.size < u32_mod

sub32_small : (a b : ℕ) → b ≤ a → a < u32_mod → sub32 a (b % u32_mod) ≡ a - b
sub32_small a b h fits = omega arith

-- What is left from an address to the next multiple of `m`.
abbrev gap : (m addr : ℕ) → ℕ
gap m addr = if addr % m == 0 then 0 else m - addr % m

gap-lt : (m addr : ℕ) → 0 < m → gap m addr < m
gap-lt m addr h = ground arith

gap-divides : (m addr : ℕ) → 0 < m → m ∣ addr + gap m addr
gap-divides m addr h = elim (Bool-cases (addr % m == 0)) [
  | inl e ↦
      rw e (subst (λ n. m ∣ n) (omega arith) (Nat.dvd_of_mod-eq-zero m ((==_iff (addr % m) 0).0 e)))
  | inr e ↦ rw e (
      subst (λ n. m ∣ n) (omega (arith, Nat.mod-add-div' addr m, Nat.mod-lt addr h))
        (Nat.dvd-add m (Nat.dvd-mul_left m (addr / m)) (Nat.dvd_refl m)))
]

-- In units of `d`.
gap-units :
    (d m addr : ℕ)
    → d ∣ m
    → d ∣ addr
    → (if not (addr % m == 0) then (m - addr % m) / d else 0) * d ≡ gap m addr
gap-units d m addr dm da = elim (Bool-cases (addr % m == 0)) [
  | inl e ↦ rw e (Nat.zero-mul d)
  | inr e ↦ rw e (Nat.div-mul_cancel d (Nat.dvd-sub d dm ((Nat.dvd-mod_iff d dm).1 da)))
]

-- The big sectors and the end take up what the beginning leaves.
counts-add :
    (d m beg len : ℕ)
    → d ∣ m
    → d ∣ len
    → beg * d ≤ len
    → len < u32_mod
    → let len1 = sub32 len ((beg * d) % u32_mod) in
      let len2 = sub32 len1 ((len1 / m * m) % u32_mod) in
      beg * d + (len1 / m * m + len2 / d * d) ≡ len
counts-add d m beg len dm dl le fits =
    let len1 = sub32 len ((beg * d) % u32_mod) in
    let len2 = sub32 len1 ((len1 / m * m) % u32_mod) in
    let e1 : len1 ≡ len - beg * d = sub32_small len (beg * d) le fits in
    let below : len1 / m * m ≤ len1 = Nat.div-mul-le_self len1 m in
    let e2 : len2 ≡ len1 - len1 / m * m = sub32_small len1 (len1 / m * m) below (omega arith) in
    let d1 : d ∣ len1 = subst (λ n. d ∣ n) (sym e1) (Nat.dvd-sub d dl (Nat.dvd-mul_left d beg)) in
    let d2 : d ∣ len2 =
      subst (λ n. d ∣ n) (sym e2) (Nat.dvd-sub d d1 (Nat.dvd-mul_left_of_dvd d dm (len1 / m))) in
    omega (arith, e1, e2, below, le, Nat.div-mul_cancel d d2)

module _ (product : Product) (regular : IsRegular product.chip) where
  open product.chip use {erase_size, fast_erase_size}
  open regular use {erase_size_pos, fast_erase_size_pos, erase_size_divides}

  -- The counts cover the range, and the big sectors start where one starts.
  abbrev pub IsPlan : ℕ → ℕ → ℕ × ℕ × ℕ → Type 0
  IsPlan addr len (beg, sectors, end) =
      (beg * erase_size + (sectors * fast_erase_size + end * erase_size) ≡ len)
      × ((sectors ≡ 0) ⊎ (fast_erase_size ∣ addr + beg * erase_size))

  pub count_sectors-IsPlan :
      (addr len : ℕ)
      → erase_size ∣ addr
      → erase_size ∣ len
      → len < u32_mod
      → IsPlan addr len (count_sectors product addr len)
  unfolding count_sectors
  count_sectors-IsPlan addr len da dl fits =
      let left = addr % fast_erase_size in
      let beg = if not (left == 0) then (fast_erase_size - left) / erase_size else 0 in
      let g = gap fast_erase_size addr in
      let units = gap-units erase_size fast_erase_size addr erase_size_divides da in
      elim (Bool-cases (leb fast_erase_size len)) [
        | inl e ↦
            let le : beg * erase_size ≤ len =
              omega (arith, units, gap-lt fast_erase_size addr fast_erase_size_pos, leb→le _ _ e) in
            rw e (
              counts-add erase_size fast_erase_size beg len erase_size_divides dl le fits,
              inr (
                  subst (λ n. fast_erase_size ∣ addr + n) (sym units)
                    (gap-divides fast_erase_size addr fast_erase_size_pos)),
            )
        | inr e ↦ rw e (
          omega (
            arith,
            Nat.div-mul_cancel erase_size dl,
            Nat.zero-mul fast_erase_size,
            Nat.zero-mul erase_size,
          ),
          inl refl,
        )
      ]
