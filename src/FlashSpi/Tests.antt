-- ===== src/FlashSpi/Tests.antt =====
-- The driver of src/nlflash_spi.c with the chip of include/spi_flash/mx25u1635.h, on a bus where
-- every call succeeds and one where every call fails.
use native.Mathlib.Nat
use nlplatform.Prelude.{
  ℕ, ◌*◌, ◌/◌, ◌≡◌, refl, true, false, List, [], ◌∷◌, arith, ℤ, pos, neg, is_negative, is_zero,
  done, assert_failed, inr,
}
use nlplatform.FlashSpi.{
  Product, Event, Bus, Spi, cmd_bytes, device_address, request, perform, call, attempt, wake_chip,
  find_chip, check_chip_id, begin_transaction, end_transaction, read_register,
}
use nlplatform.FlashSpi.Calls.{erase, read, write}
use nlplatform.FlashSpi.Cache
use nlplatform.FlashSpi.Cache.{Cached, flush}
use nlplatform.FlashSpi.Chips.{mx25u1635, at45db041e}
use nlplatform.FlashSpi.Plan.{IsRegular}
use nlplatform.FlashSpi.Log.{commands}
use nlplatform.FlashSpi.Sectors.{Sector, Covers}
use nlplatform.FlashSpi.Orders.{HasPages, Stores, ErasedBy, sent}
use nlplatform.FlashSpi.Erasing.{erase-Covers}
use nlplatform.FlashSpi.Pages.{bytes_at}
use nlplatform.FlashSpi.Writing.{write-Programs}
use nlplatform.FlashSpi.Pending.{IsCached}
use nlplatform.FlashSpi.Stored.{Appends, write-Appends, write-flush-Programs}
use nlplatform.FlashSpi.Failing.{request_failed-assert_failed, write-misplaced}

abbrev product : Product
product = record {
  chip = mx25u1635;
  split_transactions = false;
  use_powerdown = false;
  hz = 8000000;
  number_request_attempts = 3;
  ebusy = 16;
  eio = 5;
  einval = 22;
}

-- The identity of the chip, whose first byte is also a status without the busy bit.
abbrev works : Bus
works _ = record { result = pos 0; received = 0xC2 ∷ 0x25 ∷ 0x35 ∷ [] }

abbrev fails : Bus
fails _ = record { result = neg 1; received = [] }

abbrev idle : Spi
idle = record { enable_ref = 0; log = [] }

regular : IsRegular mx25u1635
regular = record {
  erase_size_pos = omega arith;
  fast_erase_size_pos = omega arith;
  erase_size_divides = Nat.dvd_of_mod-eq-zero 4096 refl;
  write_size_pos = omega arith;
  size_fits = omega arith;
}

request_works : is_negative (request product works idle).0 ≡ false
unfolding request attempt wake_chip find_chip check_chip_id begin_transaction end_transaction
    read_register call perform
request_works = refl

request_fails : is_negative (request product fails idle).0 ≡ true
unfolding request attempt wake_chip call perform
request_fails = refl

-- From a sub-sector before a sector to one behind it.
erase-Covers_example :
    (out : (ℤ × ℕ) × Spi) × (erase product works 0xF000 0x12000 0 0 idle ≡ done out)
    × (out.1.enable_ref ≡ 0)
    × (is_negative out.0.0 ≡ false
        → (out.0.1 ≡ 0x12000)
          × (xs : List Sector) × (es : List Event) × Covers product 0xF000 0x21000 xs
          × ErasedBy product es xs
          × (commands out.1.log ≡ sent es (commands [])))
erase-Covers_example =
    erase-Covers product works regular tt 0xF000 0x12000 0 0 idle (Nat.dvd_of_mod-eq-zero 4096 refl)
      (Nat.dvd_of_mod-eq-zero 4096 refl) (omega arith) (omega arith) refl (omega arith)
      request_works

-- Two bytes of one page and one of the next.
write-Programs_example :
    (out : (ℤ × ℕ) × Spi) × (write product works 254 3 0 (7 ∷ 8 ∷ 9 ∷ []) 0 idle ≡ done out)
    × (out.1.enable_ref ≡ 0)
    × (is_zero out.0.0 ≡ true
        → (out.0.1 ≡ 3) × Stores product 256 ((254, 7) ∷ (255, 8) ∷ (256, 9) ∷ []) [] out.1.log)
unfolding bytes_at
write-Programs_example =
    write-Programs product works regular tt 254 3 0 0 (7 ∷ 8 ∷ 9 ∷ []) idle (omega arith)
      (omega arith) (omega arith) (omega arith) (omega arith) request_works

-- A page of four bytes, of which the second and the third wait.
abbrev waiting : Cached
waiting = record {
  spi = idle;
  partial_page = 0xff ∷ 5 ∷ 6 ∷ 0xff ∷ [];
  partial_page_index = 3;
  write_loc = 9;
}

abbrev round_down : ℕ → ℕ → ℕ
round_down a b = a / b * b

waiting-IsCached : IsCached 4 waiting
waiting-IsCached = record {
  room = omega arith;
  fits = omega arith;
  filled = inr (omega arith, omega arith);
}

write-Appends_example :
    (out : (ℤ × ℕ) × Cached) × (Cache.write product works 4 round_down 11 2 (7 ∷ 8 ∷ []) waiting
      ≡ done out)
    × (out.1.spi.enable_ref ≡ 0)
    × (is_negative out.0.0 ≡ false
        → (out.0.1 ≡ 2)
          × IsCached 4 out.1
          × Appends 4
              (omega arith)
              product
              works
              round_down
              (λ _. refl)
              tt
              11
              2
              (7 ∷ 8 ∷ [])
              waiting
              (omega arith)
              (omega arith)
              (omega arith)
              (omega arith)
              (omega arith)
              waiting-IsCached
              ((11, 7) ∷ (12, 8) ∷ [])
              out.1)
unfolding bytes_at
write-Appends_example =
    write-Appends 4 (omega arith) product works round_down (λ _. refl) tt 11 2 (7 ∷ 8 ∷ []) waiting
      (omega arith) (omega arith) (omega arith) (omega arith) (omega arith) waiting-IsCached

write-flush-Programs_example :
    (out : (ℤ × ℕ) × Cached) × (Cache.write product works 4 round_down 11 2 (7 ∷ 8 ∷ []) waiting
      ≡ done out)
    × (is_negative out.0.0 ≡ false
        → (out' : ℤ × Cached) × (flush product works 4 round_down out.1 ≡ done out')
          × (out'.1.spi.enable_ref ≡ 0)
          × (is_negative out'.0 ≡ false
              → Stores product 4 ((9, 5) ∷ (10, 6) ∷ (11, 7) ∷ (12, 8) ∷ []) [] out'.1.spi.log
                × (out'.1.partial_page_index ≡ 0)))
unfolding bytes_at
write-flush-Programs_example =
    write-flush-Programs 4 (omega arith) product works round_down (λ _. refl) tt 11 2 (7 ∷ 8 ∷ [])
      waiting (omega arith) (omega arith) (omega arith) (omega arith) (omega arith) waiting-IsCached

request_failed-assert_failed_example :
    (erase product fails 0x1000 0x1000 0 0 idle ≡ assert_failed)
    × (read product fails 0x1000 0x1000 0 [] 0 idle ≡ assert_failed)
    × (write product fails 0x1000 0x1000 0 [] 0 idle ≡ assert_failed)
request_failed-assert_failed_example =
    request_failed-assert_failed product fails 0x1000 0x1000 0 0 [] idle request_fails

write-misplaced_example :
    (out : ℤ × Cached) × (flush product fails 4 round_down waiting ≡ done out)
    × (is_negative out.0 ≡ true
        → (c' : Cached) × (Cache.write product fails 4 round_down 20 1 (7 ∷ []) waiting
            ≡ done ((out.0, 0), c'))
          × (c'.partial_page ≡ 0xff ∷ 5 ∷ 6 ∷ 0xff ∷ [])
          × (c'.partial_page_index ≡ 3)
          × (c'.write_loc ≡ 20))
write-misplaced_example =
    write-misplaced product fails 4 (omega arith) round_down 20 1 (7 ∷ []) waiting waiting-IsCached
      (omega arith) refl

-- The chip with addresses of page and offset: the second byte of its second page.
at45db041e-HasPages : HasPages at45db041e
at45db041e-HasPages = (omega arith, omega arith)

page_and_offset :
    cmd_bytes 2 (device_address (record product { chip = at45db041e }) 265) ≡ 2 ∷ 0 ∷ 2 ∷ 1 ∷ []
unfolding cmd_bytes device_address
page_and_offset = refl
