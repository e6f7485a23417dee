-- ===== src/FlashSpi/Failing.antt =====
-- What src/nlflash_spi.c does when a request or a flush fails.
use nlplatform.Prelude.{
  ℕ, ◌<◌, ◌≡◌, refl, true, false, List, ◌==◌, lt→ltb, add32, ℤ, is_negative, done, assert_failed,
}
use nlplatform.FlashSpi.{Product, Bus, Spi, request}
use nlplatform.FlashSpi.Calls.{erase, read, write}
use nlplatform.FlashSpi.Cache.{Cached, Pending, acquire, step_if_left, may_go_on, flush}
use nlplatform.FlashSpi.Cache
use nlplatform.FlashSpi.Pending.{IsCached, flush-Flushed}
use nlplatform.FlashSpi.Requests.{while_requested_failed, request-Counted, release_unused}

module _ (product : Product) (bus : Bus) where
  -- When `nlflash_spi_request` fails, `nlflash_spi_erase`, `nlflash_spi_read` and
  -- `nlflash_spi_write` do not return its error: each stops at the assertion of
  -- `nlflash_spi_release`, since the failed request has set the count of the users to 0.
  pub request_failed-assert_failed :
      (addr len retlen callback : ℕ) (buf : List ℕ) (s : Spi)
      → is_negative (request product bus s).0 ≡ true
      → (erase product bus addr len retlen callback s ≡ assert_failed)
        × (read product bus addr len retlen buf callback s ≡ assert_failed)
        × (write product bus addr len retlen buf callback s ≡ assert_failed)
  unfolding erase read write
  request_failed-assert_failed addr len retlen callback buf s e = (
    while_requested_failed product bus _ _ s e,
    while_requested_failed product bus _ _ s e,
    rw
        (
          e,
          release_unused product bus (request product bus s).1
              ((request-Counted product bus s).2 e),
        )
        refl,
  )

  -- With the buffer, when data comes that does not follow what waits, and the flush of the buffer
  -- fails: `nlflash_spi_write` returns the error with nothing counted, but moves what waits. The
  -- bytes stay in the buffer, and the buffer now stands at the address of the new data.
  pub write-misplaced :
      (page_size : ℕ) (page_pos : 0 < page_size) (rounddown : ℕ → ℕ → ℕ) (addr len : ℕ)
      (buf : List ℕ) (c : Cached)
      → IsCached page_size c
      → 0 < len
      → (addr == add32 (rounddown c.write_loc page_size) c.partial_page_index) ≡ false
      → (out : ℤ × Cached) × (flush product bus page_size rounddown c ≡ done out)
        × (is_negative out.0 ≡ true
            → (c' : Cached) × (Cache.write product bus page_size rounddown addr len buf c
                ≡ done ((out.0, 0), c'))
              × (c'.partial_page ≡ c.partial_page)
              × (c'.partial_page_index ≡ c.partial_page_index)
              × (c'.write_loc ≡ addr))
  unfolding Cache.write acquire step_if_left may_go_on
  write-misplaced page_size page_pos rounddown addr len buf c v some_left apart =
      let (out, returned, (_, _, same)) =
        flush-Flushed page_size product bus rounddown page_pos c v in
      (
        out,
        returned,
        λ failed.
            let (page, index) = same failed in
            (
              record out.1 { write_loc = addr },
              rw (lt→ltb _ _ some_left, apart, returned, failed, failed, failed) refl,
              page,
              index,
              refl,
            ),
      )
