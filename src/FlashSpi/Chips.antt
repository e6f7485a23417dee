-- ===== src/FlashSpi/Chips.antt =====
-- The chips of include/spi_flash: of each header, the macros that src/nlflash_spi.c reads. A header
-- that does not say how often to check the chip's identity leaves it to the driver. n25q.h has no
-- `FLASH_SPI_WRITE_SIZE`, so the driver cannot be built with it, and it is left out.
use native.Mathlib.Nat
use nlplatform.Prelude.{none, some, refl, arith, List, [], ◌∷◌, All}
use nlplatform.FlashSpi.{Chip}
use nlplatform.FlashSpi.Plan.{IsRegular}

abbrev pub at45db041e : Chip
at45db041e = record {
  size = 540672;
  erase_size = 264;
  fast_erase_size = 67584;
  write_size = 264;
  read_id_size = 3;
  fast_read_dummy_cycles = 1;
  read_dummy_cycles = 0;
  read_freq_hz = 15000000;
  cmd_rdsr = 0xd7;
  busy_bit = 128;
  ready_value = 128;
  busy_value = 0;
  cmd_wren = none;
  cmd_dp = 0x79;
  cmd_rdp = 0xab;
  cmd_read = 0x1;
  cmd_fast_read = 0xb;
  cmd_pp = 0x2;
  cmd_sse = 0x81;
  cmd_se = 0x7c;
  cmd_be = 0xc7;
  cmd_be_addr = 0x94809a;
  cmd_rdid = 0x9f;
  manufactory_id = 0x1f;
  memory_type_id = 0x24;
  memory_density_id = 0x0;
  pp = record { delay_msec = 1; delay_loop_count = 5 };
  be = record { delay_msec = 500; delay_loop_count = 40 };
  se = record { delay_msec = 100; delay_loop_count = 20 };
  sse = record { delay_msec = 10; delay_loop_count = 5 };
  page_offset_bits = some 9;
  max_chip_id_check_count = 3;
}

abbrev pub gd25le16c : Chip
gd25le16c = record {
  size = 0x200000;
  erase_size = 4096;
  fast_erase_size = 0x10000;
  write_size = 256;
  read_id_size = 3;
  fast_read_dummy_cycles = 1;
  read_dummy_cycles = 0;
  read_freq_hz = 80000000;
  cmd_rdsr = 0x5;
  busy_bit = 1;
  ready_value = 0;
  busy_value = 1;
  cmd_wren = some 0x6;
  cmd_dp = 0xb9;
  cmd_rdp = 0xab;
  cmd_read = 0x3;
  cmd_fast_read = 0xb;
  cmd_pp = 0x2;
  cmd_sse = 0x20;
  cmd_se = 0xd8;
  cmd_be = 0xc7;
  cmd_be_addr = 0;
  cmd_rdid = 0x9f;
  manufactory_id = 0xc8;
  memory_type_id = 0x60;
  memory_density_id = 0x15;
  pp = record { delay_msec = 1; delay_loop_count = 4 };
  be = record { delay_msec = 500; delay_loop_count = 21 };
  se = record { delay_msec = 75; delay_loop_count = 15 };
  sse = record { delay_msec = 10; delay_loop_count = 35 };
  page_offset_bits = none;
  max_chip_id_check_count = 20;
}

abbrev pub mx25r1635 : Chip
mx25r1635 = record {
  size = 0x200000;
  erase_size = 4096;
  fast_erase_size = 0x10000;
  write_size = 256;
  read_id_size = 3;
  fast_read_dummy_cycles = 1;
  read_dummy_cycles = 0;
  read_freq_hz = 33000000;
  cmd_rdsr = 0x5;
  busy_bit = 1;
  ready_value = 0;
  busy_value = 1;
  cmd_wren = some 0x6;
  cmd_dp = 0xb9;
  cmd_rdp = 0xab;
  cmd_read = 0x3;
  cmd_fast_read = 0xb;
  cmd_pp = 0x2;
  cmd_sse = 0x20;
  cmd_se = 0xd8;
  cmd_be = 0xc7;
  cmd_be_addr = 0;
  cmd_rdid = 0x9f;
  manufactory_id = 0xc2;
  memory_type_id = 0x28;
  memory_density_id = 0x15;
  pp = record { delay_msec = 1; delay_loop_count = 10 };
  be = record { delay_msec = 500; delay_loop_count = 305 };
  se = record { delay_msec = 75; delay_loop_count = 45 };
  sse = record { delay_msec = 10; delay_loop_count = 65 };
  page_offset_bits = none;
  max_chip_id_check_count = 20;
}

abbrev pub mx25r3235 : Chip
mx25r3235 = record {
  size = 0x400000;
  erase_size = 4096;
  fast_erase_size = 0x10000;
  write_size = 256;
  read_id_size = 3;
  fast_read_dummy_cycles = 1;
  read_dummy_cycles = 0;
  read_freq_hz = 33000000;
  cmd_rdsr = 0x5;
  busy_bit = 1;
  ready_value = 0;
  busy_value = 1;
  cmd_wren = some 0x6;
  cmd_dp = 0xb9;
  cmd_rdp = 0x0;
  cmd_read = 0x3;
  cmd_fast_read = 0xb;
  cmd_pp = 0x2;
  cmd_sse = 0x20;
  cmd_se = 0xd8;
  cmd_be = 0xc7;
  cmd_be_addr = 0;
  cmd_rdid = 0x9f;
  manufactory_id = 0xc2;
  memory_type_id = 0x28;
  memory_density_id = 0x16;
  pp = record { delay_msec = 1; delay_loop_count = 12 };
  be = record { delay_msec = 1000; delay_loop_count = 125 };
  se = record { delay_msec = 75; delay_loop_count = 50 };
  sse = record { delay_msec = 10; delay_loop_count = 25 };
  page_offset_bits = none;
  max_chip_id_check_count = 20;
}

abbrev pub mx25r6435 : Chip
mx25r6435 = record {
  size = 0x800000;
  erase_size = 4096;
  fast_erase_size = 0x10000;
  write_size = 256;
  read_id_size = 3;
  fast_read_dummy_cycles = 1;
  read_dummy_cycles = 0;
  read_freq_hz = 33000000;
  cmd_rdsr = 0x5;
  busy_bit = 1;
  ready_value = 0;
  busy_value = 1;
  cmd_wren = some 0x6;
  cmd_dp = 0xb9;
  cmd_rdp = 0x0;
  cmd_read = 0x3;
  cmd_fast_read = 0xb;
  cmd_pp = 0x2;
  cmd_sse = 0x20;
  cmd_se = 0xd8;
  cmd_be = 0xc7;
  cmd_be_addr = 0;
  cmd_rdid = 0x9f;
  manufactory_id = 0xc2;
  memory_type_id = 0x28;
  memory_density_id = 0x17;
  pp = record { delay_msec = 1; delay_loop_count = 8 };
  be = record { delay_msec = 10000; delay_loop_count = 15 };
  se = record { delay_msec = 75; delay_loop_count = 50 };
  sse = record { delay_msec = 10; delay_loop_count = 30 };
  page_offset_bits = none;
  max_chip_id_check_count = 20;
}

abbrev pub mx25u1635 : Chip
mx25u1635 = record {
  size = 0x200000;
  erase_size = 4096;
  fast_erase_size = 0x10000;
  write_size = 256;
  read_id_size = 3;
  fast_read_dummy_cycles = 1;
  read_dummy_cycles = 0;
  read_freq_hz = 50000000;
  cmd_rdsr = 0x5;
  busy_bit = 1;
  ready_value = 0;
  busy_value = 1;
  cmd_wren = some 0x6;
  cmd_dp = 0xb9;
  cmd_rdp = 0xab;
  cmd_read = 0x3;
  cmd_fast_read = 0xb;
  cmd_pp = 0x2;
  cmd_sse = 0x20;
  cmd_se = 0xd8;
  cmd_be = 0xc7;
  cmd_be_addr = 0;
  cmd_rdid = 0x9f;
  manufactory_id = 0xc2;
  memory_type_id = 0x25;
  memory_density_id = 0x35;
  pp = record { delay_msec = 1; delay_loop_count = 2 };
  be = record { delay_msec = 500; delay_loop_count = 50 };
  se = record { delay_msec = 50; delay_loop_count = 50 };
  sse = record { delay_msec = 10; delay_loop_count = 25 };
  page_offset_bits = none;
  max_chip_id_check_count = 20;
}

abbrev pub mx25u3235 : Chip
mx25u3235 = record {
  size = 0x400000;
  erase_size = 4096;
  fast_erase_size = 0x10000;
  write_size = 256;
  read_id_size = 3;
  fast_read_dummy_cycles = 1;
  read_dummy_cycles = 0;
  read_freq_hz = 50000000;
  cmd_rdsr = 0x5;
  busy_bit = 1;
  ready_value = 0;
  busy_value = 1;
  cmd_wren = some 0x6;
  cmd_dp = 0xb9;
  cmd_rdp = 0xab;
  cmd_read = 0x3;
  cmd_fast_read = 0xb;
  cmd_pp = 0x2;
  cmd_sse = 0x20;
  cmd_se = 0xd8;
  cmd_be = 0xc7;
  cmd_be_addr = 0;
  cmd_rdid = 0x9f;
  manufactory_id = 0xc2;
  memory_type_id = 0x25;
  memory_density_id = 0x36;
  pp = record { delay_msec = 1; delay_loop_count = 4 };
  be = record { delay_msec = 1000; delay_loop_count = 70 };
  se = record { delay_msec = 50; delay_loop_count = 50 };
  sse = record { delay_msec = 10; delay_loop_count = 25 };
  page_offset_bits = none;
  max_chip_id_check_count = 20;
}

abbrev pub chips : List Chip
chips = at45db041e ∷ gd25le16c ∷ mx25r1635 ∷ mx25r3235 ∷ mx25r6435 ∷ mx25u1635 ∷ mx25u3235 ∷ []

-- What the driver relies on holds of each of them.
pub chips-IsRegular : All IsRegular chips
chips-IsRegular = (
  record {
    erase_size_pos = omega arith;
    fast_erase_size_pos = omega arith;
    erase_size_divides = Nat.dvd_of_mod-eq-zero at45db041e.erase_size refl;
    write_size_pos = omega arith;
    size_fits = omega arith;
  },
  (
    record {
      erase_size_pos = omega arith;
      fast_erase_size_pos = omega arith;
      erase_size_divides = Nat.dvd_of_mod-eq-zero gd25le16c.erase_size refl;
      write_size_pos = omega arith;
      size_fits = omega arith;
    },
    (
      record {
        erase_size_pos = omega arith;
        fast_erase_size_pos = omega arith;
        erase_size_divides = Nat.dvd_of_mod-eq-zero mx25r1635.erase_size refl;
        write_size_pos = omega arith;
        size_fits = omega arith;
      },
      (
        record {
          erase_size_pos = omega arith;
          fast_erase_size_pos = omega arith;
          erase_size_divides = Nat.dvd_of_mod-eq-zero mx25r3235.erase_size refl;
          write_size_pos = omega arith;
          size_fits = omega arith;
        },
        (
          record {
            erase_size_pos = omega arith;
            fast_erase_size_pos = omega arith;
            erase_size_divides = Nat.dvd_of_mod-eq-zero mx25r6435.erase_size refl;
            write_size_pos = omega arith;
            size_fits = omega arith;
          },
          (
            record {
              erase_size_pos = omega arith;
              fast_erase_size_pos = omega arith;
              erase_size_divides = Nat.dvd_of_mod-eq-zero mx25u1635.erase_size refl;
              write_size_pos = omega arith;
              size_fits = omega arith;
            },
            (
              record {
                erase_size_pos = omega arith;
                fast_erase_size_pos = omega arith;
                erase_size_divides = Nat.dvd_of_mod-eq-zero mx25u3235.erase_size refl;
                write_size_pos = omega arith;
                size_fits = omega arith;
              },
              tt,
            ),
          ),
        ),
      ),
    ),
  ),
)
