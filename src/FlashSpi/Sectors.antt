-- ===== src/FlashSpi/Sectors.antt =====
-- Rows of sectors, as `nlflash_spi_erase` of src/nlflash_spi.c erases them, and their commands.
use Prim.Native.Nat.{◌∣◌}
use native.Mathlib.Nat
use nlplatform.Prelude.{
  ℕ, zero, suc, ◌+◌, ◌*◌, ◌≡◌, ◌⊎◌, refl, sym, subst, inl, inr, Bool, true, false, List, [], ◌∷◌,
  ◌++◌, arith, if◌then◌else◌,
}
use nlplatform.FlashSpi.{Product, Event, command}
use nlplatform.FlashSpi.Plan.{IsRegular, IsPlan}

-- Whether it is a sub-sector, and its address.
abbrev pub Sector : Type 0
Sector = Bool × ℕ

module _ (product : Product) where
  abbrev pub sector_size : Bool → ℕ
  sector_size is_sub_sector =
      if is_sub_sector then product.chip.erase_size else product.chip.fast_erase_size

  abbrev pub erase_command : Sector → Event
  erase_command (is_sub_sector, addr) =
      command product (if is_sub_sector then product.chip.cmd_sse else product.chip.cmd_se) addr
        true [] 0 0

  -- The sectors follow each other from `addr` to `end`, each at a multiple of its size.
  unfoldable pub Covers : (addr end : ℕ) → List Sector → Type 0
  Covers addr end [] = addr ≡ end
  Covers addr end ((is_sub_sector, a) ∷ xs) =
      (a ≡ addr)
      × (sector_size is_sub_sector ∣ addr)
      × Covers (addr + sector_size is_sub_sector) end xs

  -- Their commands, sent in this order after what is in the log.
  unfoldable pub erased_in : List Sector → List Event → List Event
  erased_in [] log = log
  erased_in (x ∷ xs) log = erased_in xs (erase_command x ∷ log)

  -- One loop's sectors.
  unfoldable pub row : (is_sub_sector : Bool) → (num addr : ℕ) → List Sector
  row is_sub_sector zero addr = []
  row is_sub_sector (suc num) addr =
      (is_sub_sector, addr) ∷ row is_sub_sector num (addr + sector_size is_sub_sector)

  erased_in-append :
      (xs ys : List Sector) (log : List Event)
      → erased_in (xs ++ ys) log ≡ erased_in ys (erased_in xs log)
  unfolding erased_in
  erased_in-append [] ys log = refl
  erased_in-append (x ∷ xs) ys log = erased_in-append xs ys _

  Covers-row :
      (is_sub_sector : Bool) (num addr end : ℕ) (ys : List Sector)
      → (num ≡ 0) ⊎ (sector_size is_sub_sector ∣ addr)
      → Covers (addr + num * sector_size is_sub_sector) end ys
      → Covers addr end (row is_sub_sector num addr ++ ys)
  unfolding Covers row
  Covers-row b zero addr end ys h cov =
      subst (λ a. Covers a end ys) (omega (arith, Nat.zero-mul (sector_size b))) cov
  Covers-row b (suc num) addr end ys (inl z) cov = absurd (omega (arith, z))
  Covers-row b (suc num) addr end ys (inr d) cov = (
    refl,
    d,
    Covers-row b num (addr + sector_size b) end ys
        (inr (Nat.dvd-add (sector_size b) d (Nat.dvd_refl (sector_size b))))
        (subst (λ a. Covers a end ys) (omega (arith, Nat.suc-mul num (sector_size b))) cov),
  )

  -- The sectors of the three loops.
  pub rows : (addr : ℕ) → ℕ × ℕ × ℕ → List Sector
  rows addr (beg, sectors, end) =
      let addr1 = addr + beg * sector_size true in
      let addr2 = addr1 + sectors * sector_size false in
      row true beg addr ++ (row false sectors addr1 ++ (row true end addr2 ++ []))

  erased_in-rows :
      (addr beg sectors end : ℕ) (log : List Event)
      → let addr1 = addr + beg * sector_size true in
        let addr2 = addr1 + sectors * sector_size false in
        erased_in (rows addr (beg, sectors, end)) log
        ≡ erased_in
            (row true end addr2)
            (erased_in (row false sectors addr1) (erased_in (row true beg addr) log))
  unfolding rows erased_in
  erased_in-rows addr beg sectors end log =
      rw
        (
          erased_in-append (row true beg addr),
          erased_in-append (row false sectors (addr + beg * sector_size true)),
          erased_in-append
              (row true end (addr + beg * sector_size true + sectors * sector_size false)),
        )
        refl

  pub rows_logged :
      (addr beg sectors end a1 a2 : ℕ) (log l1 l2 : List Event)
      → a1 ≡ addr + beg * sector_size true
      → a2 ≡ a1 + sectors * sector_size false
      → l1 ≡ erased_in (row true beg addr) log
      → l2 ≡ erased_in (row false sectors a1) l1
      → erased_in (row true end a2) l2 ≡ erased_in (rows addr (beg, sectors, end)) log
  rows_logged addr beg sectors end a1 a2 log l1 l2 p q r t =
      rw (t, r, q, p) (sym (erased_in-rows addr beg sectors end log))

  pub Covers-rows :
      (regular : IsRegular product.chip) (addr len beg sectors end : ℕ)
      → product.chip.erase_size ∣ addr
      → IsPlan product regular addr len (beg, sectors, end)
      → Covers addr (addr + len) (rows addr (beg, sectors, end))
  unfolding rows Covers
  Covers-rows regular addr len beg sectors end d (total, big) =
      let small = sector_size true in
      let d1 : small ∣ addr + beg * small = Nat.dvd-add small d (Nat.dvd-mul_left small beg) in
      let d2 : small ∣ addr + beg * small + sectors * sector_size false =
        Nat.dvd-add small d1 (Nat.dvd-mul_left_of_dvd small regular.erase_size_divides sectors) in
      Covers-row true beg addr _ _ (inr d) (
        Covers-row false sectors _ _ _ big
          (Covers-row true end _ _ [] (inr d2) (omega (arith, total))))
