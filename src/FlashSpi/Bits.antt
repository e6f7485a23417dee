-- ===== src/FlashSpi/Bits.antt =====
-- The number that src/nlflash_spi.c makes of an address for the chip, with the bitwise or of a page
-- number and an offset, and how the chip reads it.
use Prim.Native.Nat.{bit_or, digits, bit_or-bitwise}
use native.Mathlib.Nat
use nlplatform.FlashSpi.{Product, device_address}
use nlplatform.Prelude.{
  ℕ, zero, suc, ◌+◌, ◌*◌, ◌/◌, ◌%◌, ◌^◌, ◌≤◌, ◌<◌, ◌≡◌, refl, sym, ap, ◌∙◌, max, arith, ap₂, Option,
  none, some, u32_mod,
}

-- The law for the lowest digit, from the definition that the native operation stands for.
abbrev or_digits : ℕ → ℕ → ℕ → ℕ
or_digits n a b = digits (λ b. b) max n a b

or_digits_fuel : (n m a b : ℕ) → a ≤ n → a ≤ m → or_digits n a b ≡ or_digits m a b
or_digits_fuel zero zero a b p q = refl
or_digits_fuel zero (suc m) zero b p q = refl
or_digits_fuel zero (suc m) (suc a) b p q = absurd (omega arith)
or_digits_fuel (suc n) zero zero b p q = refl
or_digits_fuel (suc n) zero (suc a) b p q = absurd (omega arith)
or_digits_fuel (suc n) (suc m) zero b p q = refl
or_digits_fuel (suc n) (suc m) (suc a) b p q =
    omega (arith, or_digits_fuel n m (suc a / 2) (b / 2) (omega arith) (omega arith))

zero-bit_or : (b : ℕ) → bit_or 0 b ≡ b
zero-bit_or b = bit_or-bitwise 0 b

bit_or_step : (a b : ℕ) → bit_or a b ≡ bit_or (a / 2) (b / 2) * 2 + max (a % 2) (b % 2)
bit_or_step zero b = omega (arith, zero-bit_or b, zero-bit_or (b / 2))
bit_or_step (suc a) b = omega (
  arith,
  bit_or-bitwise (suc a) b,
  bit_or-bitwise (suc a / 2) (b / 2),
  or_digits_fuel a (suc a / 2) (suc a / 2) (b / 2) (omega arith) (omega arith),
)

bit_or-zero_fuel : (n a : ℕ) → a ≤ n → bit_or a 0 ≡ a
bit_or-zero_fuel n zero h = refl
bit_or-zero_fuel zero (suc a) h = absurd (omega arith)
bit_or-zero_fuel (suc n) (suc a) h =
    omega (arith, bit_or_step (suc a) 0, bit_or-zero_fuel n (suc a / 2) (omega arith))

bit_or_double :
    (x p offset : ℕ)
    → x ≡ p * 2
    → bit_or p (offset / 2) ≡ p + offset / 2
    → bit_or x offset ≡ x + offset
bit_or_double x p offset e h =
    let half : x / 2 ≡ p = omega (arith, e) in
    let halves : bit_or (x / 2) (offset / 2) ≡ p + offset / 2 =
      ap (λ k. bit_or k (offset / 2)) half ∙ h in
    omega (arith, bit_or_step x offset, halves, e)

pub bit_or-add :
    (bits page offset : ℕ)
    → offset < 2 ^ bits
    → bit_or (page * 2 ^ bits) offset ≡ page * 2 ^ bits + offset
bit_or-add zero page offset h =
    ap (bit_or (page * 1)) {y = 0} (omega (arith, h))
    ∙ bit_or-zero_fuel (page * 1) (page * 1) (omega arith)
    ∙ omega (arith, h)
bit_or-add (suc bits) page offset h =
    bit_or_double (page * 2 ^ suc bits) (page * 2 ^ bits) offset
      (ap (λ k. page * k) (Nat.pow-suc 2 bits) ∙ sym (Nat.mul_assoc page (2 ^ bits) 2))
      (bit_or-add bits page (offset / 2) (omega (arith, h, Nat.pow-suc 2 bits)))

-- How the chip reads the number: as an address, or as the number of a page and an offset in it.
abbrev pub read_of : (page_offset_bits : Option ℕ) → (write_size number : ℕ) → ℕ
read_of page_offset_bits write_size number = elim page_offset_bits [
  | none ↦ number
  | some bits ↦ (number / 2 ^ bits) * write_size + number % 2 ^ bits
]

-- The end of the addresses that a number of three bytes reaches.
abbrev pub end_of : (page_offset_bits : Option ℕ) → (write_size : ℕ) → ℕ
end_of page_offset_bits write_size = elim page_offset_bits [
  | none ↦ 2 ^ 24
  | some bits ↦ (2 ^ 24 / 2 ^ bits) * write_size
]

-- A page has offsets, and they fit their bits.
abbrev pub PagesFit : (page_offset_bits : Option ℕ) → (write_size : ℕ) → Type 0
PagesFit none write_size = Unit
PagesFit (some bits) write_size = (0 < write_size) × (write_size ≤ 2 ^ bits)

abbrev number_of : (page_offset_bits : Option ℕ) → (write_size address : ℕ) → ℕ
number_of page_offset_bits write_size address = elim page_offset_bits [
  | none ↦ address
  | some bits ↦ bit_or (((address / write_size) * 2 ^ bits) % u32_mod) (address % write_size)
]

-- The parts of a number and an address are each other's.
parts :
    (m write_size address number : ℕ)
    → 0 < m
    → 0 < write_size
    → write_size ≤ m
    → number ≡ address / write_size * m + address % write_size
    → number / m * write_size + number % m ≡ address
parts m write_size address number pos ws_pos fits e =
    let page = address / write_size in
    let offset = address % write_size in
    let below : offset < m = omega (arith, fits, Nat.mod-lt address ws_pos) in
    let page_read : number / m ≡ page =
      ap (λ k. k / m) e
      ∙ Nat.mul-add-div_right pos page offset
      ∙ omega (arith, Nat.div-eq_of_lt below) in
    let offset_read : number % m ≡ offset =
      ap (λ k. k % m) e ∙ Nat.mul-add-mod_self_right page m offset ∙ Nat.mod-eq_of_lt below in
    ap₂ (λ p o. p * write_size + o) page_read offset_read ∙ Nat.div-add-mod' address write_size

number_of_lem :
    (page_offset_bits : Option ℕ) (write_size address : ℕ)
    → PagesFit page_offset_bits write_size
    → address < end_of page_offset_bits write_size
    → let number = number_of page_offset_bits write_size address in
      (number < 2 ^ 24) × (read_of page_offset_bits write_size number ≡ address)
number_of_lem none write_size address fits h = (h, refl)
number_of_lem (some bits) write_size address (pos, fits) h =
    let m = 2 ^ bits in
    let page = address / write_size in
    let offset = address % write_size in
    let pages = 2 ^ 24 / m in
    let m_pos : 0 < m = omega (arith, pos, fits) in
    let below : offset < m = omega (arith, fits, Nat.mod-lt address pos) in
    let few : page < pages = (Nat.div-lt_iff_lt-mul pos).1 h in
    let room : suc page * m ≤ 2 ^ 24 = (Nat.le-div_iff_mul-le m_pos).0 (omega (arith, few)) in
    let room' : page * m + m ≤ 2 ^ 24 = omega (arith, room, Nat.suc-mul page m) in
    let number = bit_or ((page * m) % u32_mod) offset in
    let e : number ≡ page * m + offset =
      ap (λ k. bit_or k offset) (Nat.mod-eq_of_lt (omega (arith, room')))
      ∙ bit_or-add bits page offset below in
    (omega (arith, e, room', below), parts m write_size address number m_pos pos fits e)

-- What the driver sends fits three bytes, and the chip reads it as the address.
pub device_address_lem :
    (product : Product) (address : ℕ)
    → let chip = product.chip in
      PagesFit chip.page_offset_bits chip.write_size
      → address < end_of chip.page_offset_bits chip.write_size
      → (device_address product address < 2 ^ 24)
        × (read_of chip.page_offset_bits chip.write_size (device_address product address) ≡ address)
unfolding device_address
device_address_lem product address =
    number_of_lem product.chip.page_offset_bits product.chip.write_size address
