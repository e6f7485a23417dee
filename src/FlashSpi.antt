-- ===== src/FlashSpi.antt =====
-- src/nlflash_spi.c: the driver of an external flash chip on an SPI bus. The bus, the delays and
-- the callbacks are outside: what the driver does to them is an `Event`, all of them in order are
-- the log, and what comes back is a function of the log up to the event. The switches of the build
-- are fields of `Product`; the header that describes the chip is `Chip`.
pub mod Calls
pub mod Cache
pub mod Log
pub mod Requests
pub mod Plan
pub mod Sectors
pub mod Erasing
pub mod Pages
pub mod Bits
pub mod Orders
pub mod Writing
pub mod Pending
pub mod Caching
pub mod Appending
pub mod Filling
pub mod Through
pub mod Stored
pub mod Chips
pub mod Failing
mod Tests
use Prim.Native.Nat.{bit_and, bit_or}
use nlplatform.Prelude.{
  ℕ, zero, suc, ◌+◌, ◌-◌, ◌*◌, ◌/◌, ◌%◌, ◌^◌, Bool, true, false, not, ◌&&◌, ◌||◌, Option, none,
  some, List, [], ◌∷◌, ltb, ◌==◌, if◌then◌else◌, u32_mod, Run, done, ◌>>◌, check, ℤ, pos, neg,
  is_negative, is_zero, take, get_or,
}

-- How often to poll the status, and the time between two polls.
pub record Wait : Type 0 where
  pub delay_msec : ℕ
  pub delay_loop_count : ℕ

-- The macros of the chip's header that the driver reads, and `FLASH_SPI_SIZE` with them.
-- `page_offset_bits` is there where the header asks for addresses of page and offset; without
-- `CMD_BE_ADDR` the field is 0, and without `CMD_WREN` it is `none`.
pub record Chip : Type 0 where
  pub size : ℕ
  pub erase_size : ℕ
  pub fast_erase_size : ℕ
  pub write_size : ℕ
  pub read_id_size : ℕ
  pub fast_read_dummy_cycles : ℕ
  pub read_dummy_cycles : ℕ
  pub read_freq_hz : ℕ
  pub cmd_rdsr : ℕ
  pub busy_bit : ℕ
  pub ready_value : ℕ
  pub busy_value : ℕ
  pub cmd_wren : Option ℕ
  pub cmd_dp : ℕ
  pub cmd_rdp : ℕ
  pub cmd_read : ℕ
  pub cmd_fast_read : ℕ
  pub cmd_pp : ℕ
  pub cmd_sse : ℕ
  pub cmd_se : ℕ
  pub cmd_be : ℕ
  pub cmd_be_addr : ℕ
  pub cmd_rdid : ℕ
  pub manufactory_id : ℕ
  pub memory_type_id : ℕ
  pub memory_density_id : ℕ
  pub pp : Wait
  pub be : Wait
  pub se : Wait
  pub sse : Wait
  pub page_offset_bits : Option ℕ
  pub max_chip_id_check_count : ℕ

-- What the build of a product settles, and the numbers of `errno.h`.
pub record Product : Type 0 where
  pub chip : Chip
  pub split_transactions : Bool
  pub use_powerdown : Bool
  pub hz : ℕ
  pub number_request_attempts : ℕ
  pub ebusy : ℕ
  pub eio : ℕ
  pub einval : ℕ

-- A part of a transfer: bytes to send, with as many unspecified bytes behind them, or a number of
-- bytes to receive.
pub data Xfer : Type 0 where
  tx : List ℕ → ℕ → Xfer
  rx : ℕ → Xfer

pub data Event : Type 0 where
  bus_request bus_release slave_enable slave_disable : Event
  bus_write : List ℕ → Event
  bus_transfer : List Xfer → Event
  delay_ms : ℕ → Event
  called_back : ℕ → Event

-- The result of a call, and what a receive buffer holds after it.
pub record Reply : Type 0 where
  pub result : ℤ
  pub received : List ℕ

abbrev pub Bus : Type 0
Bus = List Event → Reply

-- `flash_spi_device`, and the log with the last event in front.
pub record Spi : Type 0 where
  pub enable_ref : ℕ
  pub log : List Event

module _ (bus : Bus) where
  unfoldable pub perform : Event → Spi → Reply × Spi
  perform e s = (bus (e ∷ s.log), record s { log = e ∷ s.log })

  -- A call of which only the result is used.
  unfoldable pub call : Event → Spi → ℤ × Spi
  unfolding perform
  call e s = let (reply, s') = perform e s in (reply.result, s')

  unfoldable pub read_register : (cmd num_bytes : ℕ) → Spi → Reply × Spi
  read_register cmd num_bytes s = perform (bus_transfer (tx (cmd ∷ []) 0 ∷ rx num_bytes ∷ [])) s

-- `cmd_buf`
unfoldable pub cmd_bytes : (cmd address : ℕ) → List ℕ
cmd_bytes cmd address =
    cmd ∷ (address / 2 ^ 16) % 2 ^ 8 ∷ (address / 2 ^ 8) % 2 ^ 8 ∷ address % 2 ^ 8 ∷ []

module _ (product : Product) where
  open product.chip use {write_size, page_offset_bits}

  -- The address as the chip reads it.
  unfoldable pub device_address : ℕ → ℕ
  device_address address = elim page_offset_bits [
    | none ↦ address
    | some bits ↦ bit_or (((address / write_size) * 2 ^ bits) % u32_mod) (address % write_size)
  ]

  -- The transfer that `spi_cmd_address_data` ends with.
  unfoldable pub command :
      (cmd address : ℕ) → (write : Bool) → (buf : List ℕ) → (len dummy_bytes : ℕ) → Event
  command cmd address write buf len dummy_bytes = bus_transfer (
      tx (cmd_bytes cmd (device_address address)) dummy_bytes
      ∷ (if len == 0 then [] else (if write then tx (take len buf) 0 else rx len) ∷ []))

module _ (product : Product) (bus : Bus) where
  open product use {chip, split_transactions, use_powerdown, number_request_attempts, ebusy, eio}
  open chip use {
    read_id_size, cmd_rdsr, busy_bit, ready_value, busy_value, cmd_wren, cmd_dp, cmd_rdp, cmd_pp,
    cmd_sse, cmd_se, cmd_rdid, manufactory_id, memory_type_id, memory_density_id, pp, se, sse,
    max_chip_id_check_count,
  }

  -- With split transactions the bus is requested for each of them only.
  unfoldable pub begin_transaction : Spi → ℤ × Spi
  begin_transaction s = if split_transactions then call bus bus_request s else (pos 0, s)

  unfoldable pub end_transaction : Spi → Spi
  end_transaction s = if split_transactions then (perform bus bus_release s).1 else s

  unfoldable pub check_chip_id : Spi → ℤ × Spi
  check_chip_id s =
      let (retval, s1) = begin_transaction s in
      if is_negative retval
      then (retval, s1)
      else (let (reply, s2) = read_register bus cmd_rdid read_id_size s1 in
          let id_buf = reply.received in
          (
            if is_negative reply.result
                then reply.result
                else (if not (get_or id_buf 0 0 == manufactory_id)
                      || (not (get_or id_buf 1 0 == memory_type_id)
                          || not (get_or id_buf 2 0 == memory_density_id))
                    then neg 1
                    else reply.result),
            end_transaction s2,
          ))

  -- The rounds of the `for` loop: whether one of them found the chip.
  unfoldable pub find_chip : ℕ → Spi → Bool × Spi
  find_chip zero s = (false, s)
  find_chip (suc rounds) s =
      let (retval, s') = check_chip_id s in
      elim (is_negative retval) [
        | true ↦ find_chip rounds (perform bus (delay_ms 1) s').1
        | false ↦ (true, s')
      ]

  -- The start of an attempt: the bus or the power, and the end of the chip's power down.
  unfoldable pub wake_chip : Spi → ℤ × Spi
  wake_chip s =
      let (retval, s') : ℤ × Spi =
        if split_transactions
        then (pos 0, (perform bus slave_enable s).1)
        else call bus bus_request s in
      if not (is_negative retval) && use_powerdown
      then call bus (bus_write (cmd_rdp ∷ [])) s'
      else (retval, s')

  unfoldable pub turn_off : Spi → Spi
  turn_off s = (perform bus (if split_transactions then slave_disable else bus_release) s).1

  unfoldable pub attempt : ℕ → Spi → ℤ × Spi
  attempt zero s = (neg 1, record s { enable_ref = 0 })
  attempt (suc attempts) s =
      let (retval, s1) = wake_chip s in
      elim (is_negative retval) [
        | true ↦ (retval, record s1 { enable_ref = 0 })
        | false ↦
            let (found, s2) = find_chip max_chip_id_check_count s1 in
            elim found [ true ↦ (pos 0, s2) | false ↦ attempt attempts (turn_off s2) ]
      ]

  unfoldable pub request : Spi → ℤ × Spi
  request s =
      let s' : Spi = record s { enable_ref = (s.enable_ref + 1) % 2 ^ 8 } in
      if ltb 1 s'.enable_ref then (pos 0, s') else attempt number_request_attempts s'

  -- The end of the last use.
  unfoldable pub power_down : Spi → Spi
  power_down s = turn_off (if use_powerdown then (perform bus (bus_write (cmd_dp ∷ [])) s).1 else s)

  unfoldable pub release : Spi → Run (ℤ × Spi)
  release s =
      check (ltb 0 s.enable_ref)
      >> (let s' : Spi = record s { enable_ref = s.enable_ref - 1 } in
          done (pos 0, if s'.enable_ref == 0 then power_down s' else s'))

  unfoldable pub flash_is_busy : Spi → ℤ × Spi
  flash_is_busy s =
      let (reply, s') = read_register bus cmd_rdsr 1 s in
      (
        if not (is_zero reply.result)
            then reply.result
            else (if bit_and (get_or reply.received 0 0) busy_bit == busy_value
                then neg ebusy
                else pos 0),
        s',
      )

  -- Before a command that writes: the result so far, or that of the enable command.
  unfoldable pub write_enable : (write : Bool) → (retval : ℤ) → Spi → ℤ × Spi
  write_enable write retval s = elim cmd_wren [
    | none ↦ (retval, s)
    | some wren ↦ if write then call bus (bus_write (wren ∷ [])) s else (retval, s)
  ]

  -- Between the request of the bus and its release: the result, and the buffer as it is left.
  unfoldable pub send_command :
      (cmd address : ℕ)
      → (write : Bool) → (buf : List ℕ) → (len dummy_bytes : ℕ) → Spi
      → (ℤ × List ℕ) × Spi
  send_command cmd address write buf len dummy_bytes s =
      let (busy, s1) = flash_is_busy s in
      if is_negative busy
      then ((busy, buf), s1)
      else (let (enabled, s2) = write_enable write busy s1 in
          if is_negative enabled
          then ((enabled, buf), s2)
          else (let (reply, s3) =
                perform bus (command product cmd address write buf len dummy_bytes) s2 in
              ((reply.result, if write || (len == 0) then buf else reply.received), s3)))

  unfoldable pub spi_cmd_address_data :
      (cmd address : ℕ)
      → (write : Bool) → (buf : List ℕ) → (len dummy_bytes : ℕ) → Spi
      → (ℤ × List ℕ) × Spi
  spi_cmd_address_data cmd address write buf len dummy_bytes s =
      let (retval, s1) = begin_transaction s in
      if is_negative retval
      then ((retval, buf), s1)
      else (let (out, s2) = send_command cmd address write buf len dummy_bytes s1 in
          (out, end_transaction s2))

  -- The body of the polling loop: the result, whether the loop is left at once, and, when it is
  -- not left because of the bus, the status. A failed request of the bus leaves it as well.
  unfoldable pub poll_status : (retry_delay_ms : ℕ) → Spi → (ℤ × Bool) × Spi
  poll_status retry_delay_ms s =
      let (retval, s1) = begin_transaction (perform bus (delay_ms retry_delay_ms) s).1 in
      if is_negative retval
      then ((retval, true), s1)
      else (let (reply, s2) = read_register bus cmd_rdsr 1 s1 in
          (
            (reply.result, bit_and (get_or reply.received 0 0) busy_bit == ready_value),
            end_transaction s2,
          ))

  -- The loop when `retry_cnt` polls are left; a count that has come to 0 is an error.
  unfoldable pub wait_loop : (retry_delay_ms retry_cnt : ℕ) → Spi → ℤ × Spi
  wait_loop retry_delay_ms zero s = (neg eio, s)
  wait_loop retry_delay_ms (suc retry_cnt) s =
      let ((retval, left), s') = poll_status retry_delay_ms s in
      elim (left || (is_negative retval && not (retry_cnt == 0))) [
        | true ↦ (retval, s')
        | false ↦ wait_loop retry_delay_ms retry_cnt s'
      ]

  -- A count of 0 at the start wraps after the first poll.
  unfoldable pub wait_until_not_busy : (retry_cnt retry_delay_ms : ℕ) → Spi → ℤ × Spi
  wait_until_not_busy zero retry_delay_ms s =
      let ((retval, left), s') = poll_status retry_delay_ms s in
      elim left [
        | true ↦ (neg eio, s')
        | false ↦ elim (is_negative retval) [
          | true ↦ (retval, s')
          | false ↦ wait_loop retry_delay_ms (u32_mod - 1) s'
        ]
      ]
  wait_until_not_busy (suc retry_cnt) retry_delay_ms s = wait_loop retry_delay_ms (suc retry_cnt) s

  unfoldable pub erase_sector : (addr : ℕ) → (is_sub_sector : Bool) → Spi → ℤ × Spi
  erase_sector addr is_sub_sector s =
      let cmd = if is_sub_sector then cmd_sse else cmd_se in
      let wait : Wait = if is_sub_sector then sse else se in
      let ((retval, _), s') = spi_cmd_address_data cmd addr true [] 0 0 s in
      if is_negative retval
      then (retval, s')
      else wait_until_not_busy wait.delay_loop_count wait.delay_msec s'

  unfoldable pub write_internal : (addr len : ℕ) → (buf : List ℕ) → Spi → ℤ × Spi
  write_internal addr len buf s =
      let ((retval, _), s') = spi_cmd_address_data cmd_pp addr true buf len 0 s in
      if is_negative retval
      then (retval, s')
      else wait_until_not_busy pp.delay_loop_count pp.delay_msec s'
