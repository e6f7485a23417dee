-- ===== src/FlashSpi/Erasing.antt =====
-- What `nlflash_spi_erase` of src/nlflash_spi.c sends.
use Prim.Native.Nat.{◌∣◌}
use native.Mathlib.Nat
use nlplatform.Prelude.{
  ℕ, zero, suc, ◌+◌, ◌*◌, ◌≤◌, ◌<◌, ◌≡◌, refl, ap, inl, inr, Bool, true, false, not, ◌&&◌, List, [],
  arith, ◌==◌, u32_mod, add32, Bool-cases, ℤ, is_negative, ◌∙◌, done,
}
use nlplatform.FlashSpi.{Product, Event, Bus, Spi, erase_sector, called_back, request}
use nlplatform.FlashSpi.Calls.{
  Erasing, after_sector, erase_sectors, erase_counted, erase_requested, erase,
}
use nlplatform.FlashSpi.Log.{
  commands, is_command, Quiet, Sent, call-Quiet, spi_cmd_address_data-Sent, polled-Sent,
}
use nlplatform.FlashSpi.Plan.{IsRegular, IsPlan, count_sectors-IsPlan}
use nlplatform.FlashSpi.Orders.{ErasedBy, sent, HasPages, address_end, orders_of_erase}
use nlplatform.FlashSpi.Requests.{while_requested_done, request-Counted}
use nlplatform.FlashSpi.Sectors.{
  Sector, sector_size, erase_command, Covers, erased_in, row, rows, rows_logged, Covers-rows,
}

module _ (product : Product) (bus : Bus) where
  erase_sector-Sent :
      (addr : ℕ) (is_sub_sector : Bool) (s : Spi)
      → let (retval, s') = erase_sector product bus addr is_sub_sector s in
        Sent product bus (erase_command product (is_sub_sector, addr)) s (is_negative retval) s'
  unfolding erase_sector
  erase_sector-Sent addr b s =
      polled-Sent product bus _ s _ _ _ _
        (spi_cmd_address_data-Sent product bus _ addr true [] 0 0 s)

  after_sector-Quiet :
      (callback : ℕ) (retval : ℤ) (s : Spi) → Quiet s (after_sector product bus callback retval s).1
  unfolding after_sector is_command
  after_sector-Quiet callback retval s = elim (Bool-cases (not (callback == 0))) [
    | inl e ↦ rw e (call-Quiet bus (called_back callback) s refl)
    | inr e ↦ rw e (refl, refl)
  ]

  -- What a loop of `num` sectors comes to: without an error it has sent them all.
  abbrev Looped : (is_sub_sector : Bool) → (num : ℕ) → Erasing → Spi → Erasing × Spi → Type 0
  Looped b num e s (e', s') =
      (s'.enable_ref ≡ s.enable_ref)
      × (is_negative e'.retval ≡ false
          → (commands s'.log ≡ erased_in product (row product b num e.addr) (commands s.log))
            × (e'.addr ≡ e.addr + num * sector_size product b)
            × (e'.retlen ≡ e.retlen + num * sector_size product b))

  erase_sectors-Looped :
      (b : Bool) (callback num : ℕ) (e : Erasing) (s : Spi)
      → e.addr + num * sector_size product b < u32_mod
      → e.retlen + num * sector_size product b < u32_mod
      → Looped b num e s (erase_sectors product bus b callback num e s)
  unfolding erase_sectors row erased_in
  erase_sectors-Looped b callback zero e s h k = (
    refl,
    λ f. (
      refl,
      omega (arith, Nat.zero-mul (sector_size product b)),
      omega (arith, Nat.zero-mul (sector_size product b)),
    ),
  )
  erase_sectors-Looped b callback (suc num) e s h k =
      let size = sector_size product b in
      let (retval, s1) = erase_sector product bus e.addr b s in
      let (called, s2) = after_sector product bus callback retval s1 in
      let sent = erase_sector-Sent e.addr b s in
      let q = after_sector-Quiet callback retval s1 in
      let step = Nat.suc-mul num size in
      let addr : add32 e.addr size ≡ e.addr + size = omega (arith, step, h) in
      let retlen : add32 e.retlen size ≡ e.retlen + size = omega (arith, step, k) in
      let rest =
        erase_sectors-Looped b callback num
          (record { retval = called; addr = e.addr + size; retlen = e.retlen + size }) s2
          (omega (arith, step, h)) (omega (arith, step, k)) in
      elim (Bool-cases (is_negative retval)) [
        | inl n ↦ rw (n, erase_sectors) (sent.1, λ f. cc)
        | inr n ↦
            rw (n, erase_sectors)
              (elim (Bool-cases (is_negative called)) [
                | inl m ↦ rw (m, erase_sectors) (q.1 ∙ sent.1, λ f. cc)
                | inr m ↦
                    rw (m, erase_sectors, addr, retlen)
                      (
                        rest.0 ∙ q.1 ∙ sent.1,
                        λ f.
                            let (log, to, total) = rest.1 f in
                            (
                              log
                                  ∙ ap (erased_in product (row product b num (e.addr + size)))
                                      (q.0 ∙ sent.0 n),
                              omega (arith, to, step),
                              omega (arith, total, step),
                            ),
                      )
              ])
      ]

  -- What the loops come to: without an error, the range is erased and counted.
  abbrev Erased : (addr len : ℕ) → Spi → (ℤ × ℕ) × Spi → Type 0
  Erased addr len s ((retval, retlen), s') =
      (s'.enable_ref ≡ s.enable_ref)
      × (is_negative retval ≡ false
          → (retlen ≡ len)
            × (xs : List Sector) × Covers product addr (addr + len) xs
            × (commands s'.log ≡ erased_in product xs (commands s.log)))

  module _ (regular : IsRegular product.chip) where
    open product.chip use {erase_size, fast_erase_size}

    erase_counted-Erased :
        (callback addr len beg sectors end : ℕ) (retval : ℤ) (s : Spi)
        → erase_size ∣ addr
        → addr + len < u32_mod
        → IsPlan product regular addr len (beg, sectors, end)
        → let e : Erasing = record { retval = retval; addr = addr; retlen = 0 } in
          let (e', s') = erase_counted product bus callback (beg, sectors, end) e s in
          Erased addr len s ((e'.retval, e'.retlen), s')
    unfolding erase_counted
    erase_counted-Erased callback addr len beg sectors end retval s d fits (total, big) =
        let e : Erasing = record { retval = retval; addr = addr; retlen = 0 } in
        let (e1, s1) = erase_sectors product bus true callback beg e s in
        let (e2, s2) = erase_sectors product bus false callback sectors e1 s1 in
        let (e3, s3) = erase_sectors product bus true callback end e2 s2 in
        let first =
          erase_sectors-Looped true callback beg e s (omega (arith, total, fits))
            (omega (arith, total, fits)) in
        elim (Bool-cases (is_negative e1.retval)) [
          | inl n ↦ rw (n, n) (first.0, λ f. cc)
          | inr n ↦
              let (log1, to1, total1) = first.1 n in
              let second =
                erase_sectors-Looped false callback sectors e1 s1 (omega (arith, total, fits, to1))
                  (omega (arith, total, fits, total1)) in
              rw n (elim (Bool-cases (is_negative e2.retval)) [
                | inl m ↦ rw (m, m) (second.0 ∙ first.0, λ f. cc)
                | inr m ↦
                    let (log2, to2, total2) = second.1 m in
                    let third =
                      erase_sectors-Looped true callback end e2 s2
                        (omega (arith, total, fits, to1, to2))
                        (omega (arith, total, fits, total1, total2)) in
                    rw m (
                      third.0 ∙ second.0 ∙ first.0,
                      λ f. (
                        omega (arith, total, (third.1 f).2, total1, total2),
                        rows product addr (beg, sectors, end),
                        Covers-rows product regular addr len beg sectors end d (total, big),
                        (third.1 f).0
                            ∙ rows_logged product addr beg sectors end e1.addr e2.addr
                                (commands s.log) (commands s1.log) (commands s2.log) to1 to2 log1
                                log2,
                      ),
                    )
              ])
        ]

    erase_requested-Erased :
        (addr len retlen callback : ℕ) (retval : ℤ) (s : Spi)
        → erase_size ∣ addr
        → erase_size ∣ len
        → addr + len ≤ product.chip.size
        → ((addr == 0) && (len == product.chip.size)) ≡ false
        → Erased addr len s (erase_requested product bus addr len retlen callback retval s)
    unfolding erase_requested
    erase_requested-Erased addr len retlen callback retval s da dl fits part =
        let below : addr + len < u32_mod = omega (arith, fits, regular.size_fits) in
        let plan = count_sectors-IsPlan product regular addr len da dl (omega (arith, below)) in
        rw part (erase_counted-Erased callback addr len _ _ _ retval s da below plan)

    -- A range of whole sub-sectors on the chip, but not the whole chip, with fewer than 255 users
    -- and a request that succeeds: `nlflash_spi_erase` returns and leaves the count of the users
    -- as it was. If its result is not an error, `*retlen` is the length, and the commands with an
    -- address that it sent are those to erase sub-sectors and sectors, by the number that the chip
    -- reads as their address, in three bytes with the most significant one first, that follow each
    -- other from the first address to the last, each at a multiple of its size. This is for a
    -- range that numbers of three bytes reach, as addresses or, on a chip with addresses of page
    -- and offset, as those. Where the chip has addresses of page and offset, its pages are not
    -- empty and their offsets fit the bits.
    pub erase-Covers :
        (pages : HasPages product.chip) (addr len retlen callback : ℕ) (s : Spi)
        → erase_size ∣ addr
        → erase_size ∣ len
        → addr + len ≤ product.chip.size
        → addr + len ≤ address_end product.chip
        → ((addr == 0) && (len == product.chip.size)) ≡ false
        → s.enable_ref < 255
        → is_negative (request product bus s).0 ≡ false
        → (out : (ℤ × ℕ) × Spi) × (erase product bus addr len retlen callback s ≡ done out)
          × (out.1.enable_ref ≡ s.enable_ref)
          × (is_negative out.0.0 ≡ false
              → (out.0.1 ≡ len)
                × (xs : List Sector) × (es : List Event) × Covers product addr (addr + len) xs
                × ErasedBy product es xs
                × (commands out.1.log ≡ sent es (commands s.log)))
    unfolding erase
    erase-Covers pages addr len retlen callback s da dl fits reached part few e =
        let (retval, s1) = request product bus s in
        let (keeps, erased) =
          erase_requested-Erased addr len retlen callback retval s1 da dl fits part in
        let op = erase_requested product bus addr len retlen callback in
        let (s', returned, ref, log) = while_requested_done product bus op retlen s few e keeps in
        (
          ((op retval s1).0, s'),
          returned,
          ref,
          λ f.
              let (total, xs, covers, logged) = erased f in
              let (es, told, same) =
                orders_of_erase product pages regular addr (addr + len) xs (commands s.log) covers
                  reached in
              (
                total,
                xs,
                es,
                covers,
                told,
                log ∙ logged ∙ ap (erased_in product xs) (request-Counted product bus s).0 ∙ same,
              ),
        )
