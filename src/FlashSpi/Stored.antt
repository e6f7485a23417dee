-- ===== src/FlashSpi/Stored.antt =====
-- What src/nlflash_spi.c with the buffer for a partial page tells the chip to program.
use nlplatform.Prelude.{
  ◌-◌, drop, ◌%◌, ℕ, ◌+◌, ◌*◌, ◌/◌, ◌%◌, ◌≤◌, ◌<◌, ◌≡◌, sym, subst, inl, inr, false, List, ◌++◌,
  arith, u32_mod, ℤ, is_negative, length, take, done,
}
use nlplatform.FlashSpi.{Product, Bus}
use nlplatform.FlashSpi.Cache.{Cached, flush, write}
use nlplatform.FlashSpi.Orders.{
  HasPages, address_end, Reached, Reached-take, Reached-join, Reached-append, Stores,
  Stores-Programs,
}
use nlplatform.FlashSpi.Pages.{bytes_at}
use nlplatform.FlashSpi.Through.{write-Appended, write_flushed}
use nlplatform.FlashSpi.Pending.{pending, IsCached}

module _ (page_size : ℕ) (page_pos : 0 < page_size) (product : Product) (bus : Bus)
    (rounddown : ℕ → ℕ → ℕ)
    (rounds : (a : ℕ) → rounddown a page_size ≡ a / page_size * page_size) where
  -- What waits is at addresses of three bytes, and so is the data.
  module _ (pages : HasPages product.chip) (addr len : ℕ) (buf : List ℕ) (c : Cached)
      (some_left : 0 < len) (enough : len ≤ length buf)
      (reach : addr + len + page_size ≤ address_end product.chip)
      (below : addr + len + page_size < u32_mod)
      (waits : c.write_loc + page_size ≤ address_end product.chip) (v : IsCached page_size c) where
    Reached-pending : Reached product.chip (pending page_size c)
    Reached-pending =
        let offset = c.write_loc % page_size in
        Reached-take product.chip c.write_loc (c.partial_page_index - offset)
          (drop offset c.partial_page)
          (elim v.filled [
            | inl z ↦ omega (arith, waits, z)
            | inr (lt, le) ↦ omega (arith, waits, le)
          ])

    Reached-all : Reached product.chip (pending page_size c ++ bytes_at addr (take len buf))
    Reached-all =
        Reached-join product.chip (pending page_size c) (bytes_at addr (take len buf))
          Reached-pending (Reached-take product.chip addr len buf (omega (arith, reach)))

    -- The bytes between what waited before and what waits after.
    abbrev pub Appends : List (ℕ × ℕ) → Cached → Type 0
    Appends added c' =
        (bytes : List (ℕ × ℕ)) × Stores product page_size bytes c.spi.log c'.spi.log
        × (bytes ++ pending page_size c' ≡ pending page_size c ++ added)

    -- With the buffer, for a page that is not empty and `ROUNDDOWN` to its size: when the buffer
    -- holds a part of one page at most, and the data and what waits stay a page below 2 ^ 32 and
    -- the end of the addresses that numbers of three bytes reach, `nlflash_spi_write` of some data
    -- returns and does not reach outside the buffer. If its result is not an error, all of the
    -- data is counted, the buffer holds a part of one page at most, and what it sent commands to
    -- program, by the number that the chip reads as the address, in three bytes with the most
    -- significant one first, and no page program over the end of a page, and then what waits in
    -- the buffer, are what waited before and then the data, each byte at its address. Where the
    -- chip has addresses of page and offset, its pages are not empty and their offsets fit the
    -- bits.
    pub write-Appends :
        (out : (ℤ × ℕ) × Cached) × (write product bus page_size rounddown addr len buf c ≡ done out)
        × (out.1.spi.enable_ref ≡ c.spi.enable_ref)
        × (is_negative out.0.0 ≡ false
            → (out.0.1 ≡ len)
              × IsCached page_size out.1
              × Appends (bytes_at addr (take len buf)) out.1)
    write-Appends =
        let (out, returned, keeps, wrote) =
          write-Appended page_size page_pos product bus rounddown rounds addr len buf c some_left
            enough below v in
        (
          out,
          returned,
          keeps,
          λ k.
              let (total, cached, (bytes, programs, splits)) = wrote k in
              let (reached, _) =
                Reached-append product.chip bytes (pending page_size out.1)
                  (subst (Reached product.chip) (sym splits) Reached-all) in
              (
                total,
                cached,
                (
                  bytes,
                  Stores-Programs product pages page_size bytes c.spi.log out.1.spi.log programs
                      reached,
                  splits,
                ),
              ),
        )

    -- With the buffer, for a page that is not empty and `ROUNDDOWN` to its size: when the buffer
    -- holds a part of one page at most, and the data and what waits stay a page below 2 ^ 32 and
    -- the end of the addresses that numbers of three bytes reach, `nlflash_spi_write` of some data
    -- returns, and when its result is not an error, `nlflash_spi_flush` after it returns. If that
    -- result is not an error either, the two sent commands to program what waited before and then
    -- the data, each byte at its address, by the number that the chip reads as the address, in
    -- three bytes with the most significant one first, no page program over the end of a page, and
    -- no other command with an address; nothing waits any more, and the count of the users is as
    -- it was. Where the chip has addresses of page and offset, its pages are not empty and their
    -- offsets fit the bits.
    pub write-flush-Programs :
        (out : (ℤ × ℕ) × Cached) × (write product bus page_size rounddown addr len buf c ≡ done out)
        × (is_negative out.0.0 ≡ false
            → (out' : ℤ × Cached) × (flush product bus page_size rounddown out.1 ≡ done out')
              × (out'.1.spi.enable_ref ≡ c.spi.enable_ref)
              × (is_negative out'.0 ≡ false
                  → Stores product page_size
                      (pending page_size c ++ bytes_at addr (take len buf))
                      c.spi.log
                      out'.1.spi.log
                    × (out'.1.partial_page_index ≡ 0)))
    write-flush-Programs =
        let (out, returned, wrote) =
          write_flushed page_size page_pos product bus rounddown rounds addr len buf c some_left
            enough below v in
        (
          out,
          returned,
          λ k.
              let (out', flushed, keeps, after) = wrote k in
              (
                out',
                flushed,
                keeps,
                λ k'.
                    let (programs, empty) = after k' in
                    (
                      Stores-Programs product pages page_size
                          (pending page_size c ++ bytes_at addr (take len buf)) c.spi.log
                          out'.1.spi.log programs Reached-all,
                      empty,
                    ),
              ),
        )
