-- ===== src/FlashSpi/Calls.antt =====
-- src/nlflash_spi.c: what src/nlflash.c calls, without the buffer for a partial page. `*retlen` comes
-- in as it is and goes out as the driver leaves it, and `callback` is 0 for NULL.
use nlplatform.Prelude.{
  ℕ, zero, suc, ◌-◌, ◌*◌, ◌/◌, ◌%◌, Bool, true, false, not, ◌&&◌, none, some, List, [], ◌∷◌, leb,
  ltb, ◌==◌, if◌then◌else◌, u32_mod, add32, sub32, Run, done, out_of_fuel, ◌>>=◌, ℤ, neg,
  is_negative, is_zero, drop,
}
use nlplatform.FlashSpi.{
  Product, tx, bus_write, bus_transfer, bus_release, called_back, Bus, Spi, call, read_register,
  begin_transaction, request, release, flash_is_busy, spi_cmd_address_data, wait_until_not_busy,
  erase_sector, write_internal,
}

-- `g_flash_spi_info` less its name, by `nlflash_spi_get_info`.
pub record SpiInfo : Type 0 where
  pub base_addr : ℕ
  pub size : ℕ
  pub erase_size : ℕ
  pub fast_erase_size : ℕ
  pub write_size : ℕ

unfoldable pub get_info : Product → SpiInfo
get_info product = record {
  base_addr = 0;
  size = product.chip.size;
  erase_size = product.chip.erase_size;
  fast_erase_size = product.chip.fast_erase_size;
  write_size = product.chip.write_size;
}

-- `retval`, `addr` and `*retlen` between two sectors.
pub record Erasing : Type 0 where
  pub retval : ℤ
  pub addr : ℕ
  pub retlen : ℕ

-- `retval`, `addr`, `*retlen` and what is left of `len` and `buf` between two pages.
pub record Writing : Type 0 where
  pub retval : ℤ
  pub addr : ℕ
  pub retlen : ℕ
  pub len : ℕ
  pub buf : List ℕ

module _ (product : Product) where
  open product.chip use {erase_size, fast_erase_size}

  -- `num_sub_sectors_beg`, `num_sectors` and `num_sub_sectors_end`.
  unfoldable pub count_sectors : (addr len : ℕ) → ℕ × ℕ × ℕ
  count_sectors addr len =
      if leb fast_erase_size len
      then (let left_over = addr % fast_erase_size in
          let beg =
            if not (left_over == 0) then (fast_erase_size - left_over) / erase_size else 0 in
          let len1 = sub32 len ((beg * erase_size) % u32_mod) in
          let sectors = len1 / fast_erase_size in
          let len2 = sub32 len1 ((sectors * fast_erase_size) % u32_mod) in
          (beg, sectors, len2 / erase_size))
      else (len / erase_size, 0, 0)

module _ (product : Product) (bus : Bus) where
  open product use {chip, hz, einval}
  open chip use {
    size, erase_size, fast_erase_size, write_size, read_id_size, fast_read_dummy_cycles,
    read_dummy_cycles, read_freq_hz, cmd_wren, cmd_read, cmd_fast_read, cmd_be, cmd_be_addr,
    cmd_rdid, be,
  }

  -- An operation between `nlflash_spi_request` and `nlflash_spi_release`; when the request fails,
  -- its outputs stay as they are.
  unfoldable pub while_requested :
      {X : Type 0} → (ℤ → Spi → (ℤ × X) × Spi) → X → Spi → Run ((ℤ × X) × Spi)
  while_requested op x s =
      let (retval, s1) = request product bus s in
      let (out, s2) : (ℤ × _) × Spi =
        if is_negative retval then ((retval, x), s1) else op retval s1 in
      do (_, s3) ← release product bus s2; done (out, s3)

  -- The command to erase the whole chip. The code compiles only with one of `CMD_BE_ADDR` and
  -- `CMD_WREN`: a chip where the one is 0 and the other `none` stands for no build.
  unfoldable pub send_erase_chip : Spi → ℤ × Spi
  send_erase_chip s =
      if not (cmd_be_addr == 0)
      then (let ((retval, _), s') =
            spi_cmd_address_data product bus cmd_be cmd_be_addr true [] 0 0 s in
          (retval, s'))
      else elim cmd_wren [
        | none ↦ call bus (bus_transfer (tx (cmd_be ∷ []) 0 ∷ [])) s
        | some wren ↦
            let (retval, s') = call bus (bus_write (wren ∷ [])) s in
            if is_negative retval
            then (retval, s')
            else call bus (bus_transfer (tx (cmd_be ∷ []) 0 ∷ [])) s'
      ]

  unfoldable pub erase_chip : (retlen : ℕ) → Spi → (ℤ × ℕ) × Spi
  erase_chip retlen s =
      let (retval, s1) = send_erase_chip s in
      if is_negative retval
      then ((retval, retlen), s1)
      else (let (ready, s2) =
            wait_until_not_busy product bus be.delay_loop_count be.delay_msec s1 in
          ((ready, if is_negative ready then retlen else size), s2))

  -- `retval` after the callback that follows a sector.
  unfoldable pub after_sector : (callback : ℕ) → (retval : ℤ) → Spi → ℤ × Spi
  after_sector callback retval s =
      if not (callback == 0) then call bus (called_back callback) s else (retval, s)

  -- One of the loops of `nlflash_spi_erase`, with the sectors it has left.
  unfoldable pub erase_sectors :
      (is_sub_sector : Bool) → (callback num : ℕ) → Erasing → Spi → Erasing × Spi
  erase_sectors is_sub_sector callback zero e s = (e, s)
  erase_sectors is_sub_sector callback (suc num) e s =
      let step = if is_sub_sector then erase_size else fast_erase_size in
      let (retval, s1) = erase_sector product bus e.addr is_sub_sector s in
      elim (is_negative retval) [
        | true ↦ (record e { retval = retval }, s1)
        | false ↦
            let (called, s2) = after_sector callback retval s1 in
            let e' : Erasing = record {
              retval = called;
              addr = add32 e.addr step;
              retlen = add32 e.retlen step;
            } in
            elim (is_negative called) [
              | true ↦ (e', s2)
              | false ↦ erase_sectors is_sub_sector callback num e' s2
            ]
      ]

  -- The three loops, each left for good on an error.
  unfoldable pub erase_counted : (callback : ℕ) → ℕ × ℕ × ℕ → Erasing → Spi → Erasing × Spi
  erase_counted callback (beg, sectors, end) e s =
      let (e1, s1) = erase_sectors true callback beg e s in
      if is_negative e1.retval
      then (e1, s1)
      else (let (e2, s2) = erase_sectors false callback sectors e1 s1 in
          if is_negative e2.retval then (e2, s2) else erase_sectors true callback end e2 s2)

  unfoldable pub erase_requested :
      (addr len retlen callback : ℕ) → (retval : ℤ) → Spi → (ℤ × ℕ) × Spi
  erase_requested addr len retlen callback retval s =
      if (addr == 0) && (len == size)
      then erase_chip retlen s
      else (let (e, s') =
            erase_counted callback (count_sectors product addr len)
              (record { retval = retval; addr = addr; retlen = 0 }) s in
          ((e.retval, e.retlen), s'))

  unfoldable pub erase : (addr len retlen callback : ℕ) → Spi → Run ((ℤ × ℕ) × Spi)
  erase addr len retlen callback = while_requested (erase_requested addr len retlen callback) retlen

  unfoldable pub read_requested :
      (addr len : ℕ) → (buf : List ℕ) → (retval : ℤ) → Spi → (ℤ × (ℕ × List ℕ)) × Spi
  read_requested addr len buf _ s =
      let (cmd, dummy_bytes) : ℕ × ℕ =
        if ltb read_freq_hz hz
        then (cmd_fast_read, fast_read_dummy_cycles)
        else (cmd_read, read_dummy_cycles) in
      let ((retval, buf'), s') =
        spi_cmd_address_data product bus cmd addr false buf len dummy_bytes s in
      ((retval, (if is_negative retval then 0 else len, buf')), s')

  unfoldable pub read :
      (addr len retlen : ℕ) → (buf : List ℕ) → (callback : ℕ) → Spi → Run ((ℤ × (ℕ × List ℕ)) × Spi)
  read addr len retlen buf callback = while_requested (read_requested addr len buf) (0, buf)

  -- The whole pages; a page is never empty, so the loop ends within `len` rounds.
  unfoldable pub write_pages : ℕ → Writing → Spi → Run (Writing × Spi)
  write_pages zero w s = if leb write_size w.len then out_of_fuel else done (w, s)
  write_pages (suc fuel) w s = elim (leb write_size w.len) [
    | false ↦ done (w, s)
    | true ↦
        let (retval, s') = write_internal product bus w.addr write_size w.buf s in
        elim (is_negative retval) [
          | true ↦ done (record w { retval = retval }, s')
          | false ↦
              write_pages fuel
                (record {
                  retval = retval;
                  addr = add32 w.addr write_size;
                  retlen = add32 w.retlen write_size;
                  len = w.len - write_size;
                  buf = drop write_size w.buf;
                })
                s'
        ]
  ]

  unfoldable pub partial_page_size : Writing → ℕ
  partial_page_size w =
      let offset_in_page = w.addr % write_size in
      if ltb write_size (add32 offset_in_page w.len) then write_size - offset_in_page else w.len

  -- The first part of a page, or all of the data: the state after it, and whether to go on.
  unfoldable pub write_leading : Writing → Spi → (Bool × Writing) × Spi
  write_leading w s =
      if w.addr % write_size == 0
      then ((true, w), s)
      else (let part = partial_page_size w in
          let (retval, s') = write_internal product bus w.addr part w.buf s in
          if is_zero retval
          then (
            (
              not (part == w.len),
              record {
                retval = retval;
                addr = add32 w.addr part;
                retlen = add32 w.retlen part;
                len = w.len - part;
                buf = drop part w.buf;
              },
            ),
            s',
          )
          else ((false, record w { retval = retval }), s'))

  -- The last part of a page.
  unfoldable pub write_trailing : Writing → Spi → Writing × Spi
  write_trailing w s =
      if is_zero w.retval && ltb 0 w.len
      then (let (retval, s') = write_internal product bus w.addr w.len w.buf s in
          (
            record w {
              retval = retval;
              retlen = if is_zero retval then add32 w.retlen w.len else w.retlen;
            },
            s',
          ))
      else (w, s)

  unfoldable pub write_requested : Writing → Spi → Run (Writing × Spi)
  write_requested w s =
      let ((goes_on, w1), s1) = write_leading w s in
      if goes_on
      then (do (w2, s2) ← write_pages w1.len w1 s1; done (write_trailing w2 s2))
      else done (w1, s1)

  unfoldable pub write :
      (addr len retlen : ℕ) → (buf : List ℕ) → (callback : ℕ) → Spi → Run ((ℤ × ℕ) × Spi)
  write addr len retlen buf callback s =
      let (retval, s1) = request product bus s in
      let w : Writing = record { retval = retval; addr = addr; retlen = 0; len = len; buf = buf } in
      do
        (w', s2) ← if is_negative retval then done (w, s1) else write_requested w s1
        (_, s3) ← release product bus s2
        done ((w'.retval, w'.retlen), s3)

  unfoldable pub read_id_requested : (id_buf : List ℕ) → (retval : ℤ) → Spi → (ℤ × List ℕ) × Spi
  read_id_requested id_buf _ s =
      let (retval, s1) = flash_is_busy product bus s in
      if is_negative retval
      then ((retval, id_buf), s1)
      else (let (reply, s2) = read_register bus cmd_rdid read_id_size s1 in
          ((reply.result, reply.received), s2))

  -- With split transactions the result is that of the last release of the bus.
  unfoldable pub read_id : (id_buf : List ℕ) → (id_buf_size : ℕ) → Spi → Run ((ℤ × List ℕ) × Spi)
  read_id id_buf id_buf_size s =
      if ltb id_buf_size read_id_size
      then done ((neg einval, id_buf), s)
      else (let (retval, s1) = begin_transaction product bus s in
          if is_negative retval then done ((retval, id_buf), s1) else (do
            ((retval, id_buf'), s2) ← while_requested (read_id_requested id_buf) id_buf s1
            done (
                if product.split_transactions
                then (let (released, s3) = call bus bus_release s2 in ((released, id_buf'), s3))
                else ((retval, id_buf'), s2))))
