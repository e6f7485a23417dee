-- ===== src/FlashSpi/Cache.antt =====
-- src/nlflash_spi.c with `FLASH_SPI_USE_PARTIAL_PAGE_BUFFER`: the start of a page waits in a buffer
-- until the page is full or `nlflash_spi_flush` is called. `page_size` is
-- `FLASH_EXTERNAL_WRITE_SIZE`, and `rounddown` the macro of nlutilities.h.
use nlplatform.Prelude.{
  ℕ, zero, suc, ◌+◌, ◌-◌, ◌%◌, min, Bool, true, false, not, ◌&&◌, List, [], ◌∷◌, leb, ltb, ◌==◌,
  if◌then◌else◌, add32, Run, done, out_of_fuel, ◌>>=◌, ℤ, pos, is_negative, take, drop, copy_in,
  copy_out,
}
use nlplatform.FlashSpi.{Product, Bus, Spi, write_internal}

-- `flash_spi_device`: what the bus sees, and the buffer.
pub record Cached : Type 0 where
  pub spi : Spi
  pub partial_page : List ℕ
  pub partial_page_index : ℕ
  pub write_loc : ℕ

-- `retval` and what is left of the data between two steps of `nlflash_spi_write`.
pub record Pending : Type 0 where
  pub retval : ℤ
  pub address : ℕ
  pub buffer : List ℕ
  pub length : ℕ
  pub written : ℕ

-- `memset(page, 0xff, sizeof(page))`
unfoldable pub erased : List ℕ → List ℕ
erased [] = []
erased (x ∷ xs) = 0xff ∷ erased xs

unfoldable pub init : Cached → ℤ × Cached
init c = (pos 0, record c { partial_page = erased c.partial_page })

-- The data past the first `stride` bytes.
unfoldable pub advance : ℕ → Pending → Pending
advance stride p = record p {
  address = add32 p.address stride;
  buffer = drop stride p.buffer;
  length = p.length - stride;
  written = add32 p.written stride;
}

unfoldable pub may_go_on : Pending → Bool
may_go_on p = not (is_negative p.retval) && ltb 0 p.length

module _ (product : Product) (bus : Bus) (page_size : ℕ) (rounddown : ℕ → ℕ → ℕ) where
  unfoldable pub flush : Cached → Run (ℤ × Cached)
  flush c =
      if c.partial_page_index == 0
      then done (pos 0, c)
      else (let offset = c.write_loc % page_size in
          let stride =
            if ltb offset c.partial_page_index then c.partial_page_index - offset else 0 in
          do
            cache ← copy_out c.partial_page offset stride
            let (retval, spi) = write_internal product bus c.write_loc stride cache c.spi
            done (
              retval,
              if is_negative retval then record c { spi = spi } else record {
                spi = spi;
                partial_page = erased c.partial_page;
                partial_page_index = 0;
                write_loc = 0;
              },
            ))

  -- Data that does not follow what is in the buffer: the buffer is flushed first.
  unfoldable pub acquire : Pending → Cached → Run (Pending × Cached)
  acquire p c =
      if ltb 0 p.length
        && not (p.address == add32 (rounddown c.write_loc page_size) c.partial_page_index)
      then (do
        (retval, c') ← flush c
        done (record p { retval = retval }, record c' { write_loc = p.address }))
      else done (p, c)

  -- Into the buffer at the place of the address in its page.
  unfoldable pub cache_data : (offset stride : ℕ) → Pending → Cached → Run (Pending × Cached)
  cache_data offset stride p c = do
    page ← copy_in c.partial_page offset (take stride p.buffer)
    done (advance stride p, record c { partial_page = page; partial_page_index = offset + stride })

  unfoldable pub flush_if_full : Pending → Cached → Run (Pending × Cached)
  flush_if_full p c =
      if c.partial_page_index == page_size
      then (do (retval, c') ← flush c; done (record p { retval = retval }, c'))
      else done (p, c)

  -- Data that starts within a page, and the page when it is full.
  unfoldable pub start_page : Pending → Cached → Run (Pending × Cached)
  start_page p c =
      let offset = p.address % page_size in
      let stride = min (page_size - offset) p.length in
      do
        (p', c') ← if ltb 0 offset then cache_data offset stride p c else done (p, c)
        flush_if_full p' c'

  -- The whole pages that are left; a page is never empty, so `length` rounds are enough.
  unfoldable pub full_pages : ℕ → Pending → Spi → Run (Pending × Spi)
  full_pages zero p s = if leb page_size p.length then out_of_fuel else done (p, s)
  full_pages (suc fuel) p s = elim (leb page_size p.length) [
    | false ↦ done (p, s)
    | true ↦
        let (retval, s') = write_internal product bus p.address page_size p.buffer s in
        elim (is_negative retval) [
          | true ↦ done (record p { retval = retval }, s')
          | false ↦ full_pages fuel (advance page_size (record p { retval = retval })) s'
        ]
  ]

  unfoldable pub write_through : Pending → Cached → Run (Pending × Cached)
  write_through p c = do
    (p', spi) ← full_pages p.length p c.spi
    done (p', record c { spi = spi; write_loc = p'.address })

  unfoldable pub cache_rest : Pending → Cached → Run (Pending × Cached)
  cache_rest p c = cache_data (p.address % page_size) p.length p c

  -- A step that is taken only while there is no error and data is left.
  unfoldable pub step_if_left :
      (Pending → Cached → Run (Pending × Cached)) → Pending × Cached → Run (Pending × Cached)
  step_if_left step (p, c) = if may_go_on p then step p c else done (p, c)

  -- The result, `*retlen`, and the buffer after it.
  unfoldable pub write : (addr len : ℕ) → (buf : List ℕ) → Cached → Run ((ℤ × ℕ) × Cached)
  write addr len buf c = do
    st1 ←
        acquire (record { retval = pos 0; address = addr; buffer = buf; length = len; written = 0 })
          c
    st2 ← step_if_left start_page st1
    st3 ← step_if_left write_through st2
    (p, c') ← step_if_left cache_rest st3
    done ((p.retval, p.written), c')
