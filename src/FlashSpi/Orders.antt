-- ===== src/FlashSpi/Orders.antt =====
-- What src/nlflash_spi.c tells the chip in a transfer: the command, the address with its most
-- significant byte first, and the data.
use nlplatform.Prelude.{
  ℕ, ◌+◌, ◌*◌, ◌/◌, ◌%◌, ◌≤◌, ◌<◌, ◌≡◌, refl, ap, sym, subst, Bool, true, false, List, [], ◌∷◌,
  ◌++◌, arith, if◌then◌else◌, All, All-append, length, take, length-take, ◌∙◌,
}
use nlplatform.FlashSpi.{
  Chip, Product, Xfer, tx, Event, bus_transfer, cmd_bytes, device_address, command,
}
use nlplatform.FlashSpi.Bits.{read_of, end_of, PagesFit, device_address_lem}
use nlplatform.FlashSpi.Log.{commands}
use nlplatform.FlashSpi.Plan.{IsRegular}
use nlplatform.FlashSpi.Sectors.{Sector, sector_size, erase_command, Covers, erased_in}
use nlplatform.FlashSpi.Pages.{Page, bytes_at, bytes_of, program, programmed, InPage, Programs}

-- The end of the addresses that three bytes reach, and how the chip reads the number in them.
abbrev pub address_end : Chip → ℕ
address_end chip = end_of chip.page_offset_bits chip.write_size

unfoldable pub read_address : Chip → ℕ → ℕ
read_address chip number = read_of chip.page_offset_bits chip.write_size number

-- On a chip with addresses of page and offset, the offsets fit their bits.
abbrev pub HasPages : Chip → Type 0
HasPages chip = PagesFit chip.page_offset_bits chip.write_size

-- A transfer of the command, three bytes that the chip reads as the address, and then the data.
abbrev pub IsOrder : Chip → (cmd address : ℕ) → (payload : List Xfer) → Event → Type 0
IsOrder chip cmd address payload e =
    (high mid low : ℕ) × (high < 256)
    × (mid < 256)
    × (low < 256)
    × (read_address chip (high * 65536 + mid * 256 + low) ≡ address)
    × (e ≡ bus_transfer (tx (cmd ∷ high ∷ mid ∷ low ∷ []) 0 ∷ payload))

-- Events in this order after what is in the log.
unfoldable pub sent : List Event → List Event → List Event
sent [] log = log
sent (e ∷ es) log = sent es (e ∷ log)

-- The addresses are ones that three bytes reach.
abbrev pub Reached : Chip → List (ℕ × ℕ) → Type 0
Reached chip bytes = All (λ b. b.0 < address_end chip) bytes

pub Reached-append :
    (chip : Chip) (xs ys : List (ℕ × ℕ))
    → Reached chip (xs ++ ys)
    → Reached chip xs × Reached chip ys
Reached-append chip [] ys h = (tt, h)
Reached-append chip (x ∷ xs) ys h = let (a, b) = Reached-append chip xs ys h.1 in ((h.0, a), b)

pub Reached-join :
    (chip : Chip) (xs ys : List (ℕ × ℕ))
    → Reached chip xs
    → Reached chip ys
    → Reached chip (xs ++ ys)
Reached-join chip xs ys h k = All-append (λ b. b.0 < address_end chip) xs ys h k

pub Reached-bytes_at :
    (chip : Chip) (addr : ℕ) (xs : List ℕ)
    → addr + length xs ≤ address_end chip
    → Reached chip (bytes_at addr xs)
unfolding bytes_at
Reached-bytes_at chip addr [] h = tt
Reached-bytes_at chip addr (x ∷ xs) h =
    (omega (arith, h), Reached-bytes_at chip (addr + 1) xs (omega (arith, h)))

pub Reached-take :
    (chip : Chip) (addr n : ℕ) (xs : List ℕ)
    → addr + n ≤ address_end chip
    → Reached chip (bytes_at addr (take n xs))
Reached-take chip addr n xs h =
    Reached-bytes_at chip addr (take n xs) (omega (arith, h, length-take n xs))

module _ (product : Product) where
  -- The events are orders to erase these sectors.
  abbrev pub ErasedBy : List Event → List Sector → Type 0
  ErasedBy [] [] = Unit
  ErasedBy [] (x ∷ xs) = ⊥
  ErasedBy (e ∷ es) [] = ⊥
  ErasedBy (e ∷ es) ((is_sub_sector, address) ∷ xs) =
      IsOrder product.chip (if is_sub_sector then product.chip.cmd_sse else product.chip.cmd_se)
        address [] e
      × ErasedBy es xs

  module _ (page_size : ℕ) where
    -- The events are orders to program these pages.
    abbrev pub ProgrammedBy : List Event → List Page → Type 0
    ProgrammedBy [] [] = Unit
    ProgrammedBy [] (p ∷ ps) = ⊥
    ProgrammedBy (e ∷ es) [] = ⊥
    ProgrammedBy (e ∷ es) ((address, xs) ∷ ps) =
        IsOrder product.chip product.chip.cmd_pp address (tx xs 0 ∷ []) e
        × InPage product page_size (address, xs)
        × ProgrammedBy es ps

    -- Between the two logs the chip was told to program these bytes, in this order, and was sent no
    -- other command with an address.
    abbrev pub Stores : List (ℕ × ℕ) → List Event → List Event → Type 0
    Stores bytes log log' =
        (es : List Event) × (ps : List Page) × ProgrammedBy es ps
        × (bytes_of ps ≡ bytes)
        × (commands log' ≡ sent es (commands log))

  module _ (pages : HasPages product.chip) where
    IsOrder-cmd_bytes :
        (cmd address : ℕ) (payload : List Xfer)
        → address < address_end product.chip
        → IsOrder product.chip cmd address payload
            (bus_transfer (tx (cmd_bytes cmd (device_address product address)) 0 ∷ payload))
    unfolding cmd_bytes read_address
    IsOrder-cmd_bytes cmd address payload h =
        let number = device_address product address in
        let (small, read) = device_address_lem product address pages h in
        let same : number / 65536 % 256 * 65536 + number / 256 % 256 * 256 + number % 256 ≡ number =
          omega (arith, small) in
        (
          number / 65536 % 256,
          number / 256 % 256,
          number % 256,
          omega arith,
          omega arith,
          omega arith,
          ap (read_of product.chip.page_offset_bits product.chip.write_size) same ∙ read,
          refl,
        )

    sector_size_pos : (regular : IsRegular product.chip) (b : Bool) → 0 < sector_size product b
    sector_size_pos regular true = regular.erase_size_pos
    sector_size_pos regular false = regular.fast_erase_size_pos

    Covers-le : (addr end : ℕ) (xs : List Sector) → Covers product addr end xs → addr ≤ end
    unfolding Covers
    Covers-le addr end [] cov = omega (arith, cov)
    Covers-le addr end ((b, a) ∷ xs) cov =
        omega (arith, Covers-le (addr + sector_size product b) end xs cov.2)

    -- Sectors that cover a range are erased by orders.
    pub orders_of_erase :
        (regular : IsRegular product.chip) (addr end : ℕ) (xs : List Sector) (log : List Event)
        → Covers product addr end xs
        → end ≤ address_end product.chip
        → (es : List Event) × ErasedBy es xs × (erased_in product xs log ≡ sent es log)
    unfolding Covers erased_in sent command
    orders_of_erase regular addr end [] log cov h = ([], tt, refl)
    orders_of_erase regular addr end ((b, a) ∷ xs) log cov h =
        let size = sector_size product b in
        let cmd = if b then product.chip.cmd_sse else product.chip.cmd_se in
        let le = Covers-le (addr + size) end xs cov.2 in
        let pos = sector_size_pos regular b in
        let (es, told, same) =
          orders_of_erase regular (addr + size) end xs (erase_command product (b, a) ∷ log) cov.2
            h in
        (
          erase_command product (b, a) ∷ es,
          (IsOrder-cmd_bytes cmd a [] (omega (arith, cov.0, le, pos, h)), told),
          same,
        )

    orders_of_program :
        (page_size : ℕ) (ps : List Page) (log : List Event)
        → All (InPage product page_size) ps
        → Reached product.chip (bytes_of ps)
        → (es : List Event) × ProgrammedBy page_size es ps
          × (programmed product ps log ≡ sent es log)
    unfolding bytes_of bytes_at programmed sent
    orders_of_program page_size [] log fit h = ([], tt, refl)
    orders_of_program page_size ((addr, []) ∷ ps) log fit h = absurd (omega (arith, fit.0.0))
    orders_of_program page_size ((addr, x ∷ xs) ∷ ps) log fit h =
        let (_, reached) = Reached-append product.chip (bytes_at (addr + 1) xs) (bytes_of ps) h.1 in
        let p : Page = (addr, x ∷ xs) in
        let (es, told, same) =
          orders_of_program page_size ps (program product p ∷ log) fit.1 reached in
        (
          program product p ∷ es,
          (IsOrder-cmd_bytes product.chip.cmd_pp addr (tx (x ∷ xs) 0 ∷ []) h.0, fit.0, told),
          same,
        )

    pub Stores-Programs :
        (page_size : ℕ) (bytes : List (ℕ × ℕ)) (log log' : List Event)
        → Programs product page_size bytes log log'
        → Reached product.chip bytes
        → Stores page_size bytes log log'
    Stores-Programs page_size bytes log log' (ps, fit, is, logged) h =
        let (es, told, same) =
          orders_of_program page_size ps (commands log) fit
            (subst (Reached product.chip) (sym is) h) in
        (es, ps, told, is, logged ∙ same)
