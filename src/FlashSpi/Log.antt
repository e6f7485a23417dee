-- ===== src/FlashSpi/Log.antt =====
-- The commands with an address in the log of src/nlflash_spi.c, and which of its functions send one.
use nlplatform.Prelude.{
  ℕ, zero, suc, ◌≡◌, refl, inl, inr, Bool, true, false, List, [], ◌∷◌, ◌==◌, if◌then◌else◌,
  Bool-cases, Option-cases, not, ◌&&◌, ◌||◌, length, ℤ, is_negative, ◌∙◌,
}
use nlplatform.FlashSpi.{
  Product, Xfer, tx, rx, Event, bus_transfer, bus_request, bus_release, bus_write, delay_ms, Bus,
  Spi, perform, call, read_register, begin_transaction, end_transaction, command, cmd_bytes,
  flash_is_busy, send_command, write_enable, spi_cmd_address_data, poll_status, wait_loop,
  wait_until_not_busy,
}

-- A transfer that starts with a command and an address.
unfoldable pub has_address : List Xfer → Bool
has_address [] = false
has_address (tx bs n ∷ xs) = length bs == 4
has_address (rx n ∷ xs) = false

unfoldable pub is_command : Event → Bool
unfolding has_address
is_command e = elim e [ bus_transfer xs ↦ has_address xs | _ ↦ false ]

-- The commands of a log, the last one in front.
unfoldable pub commands : List Event → List Event
commands [] = []
commands (e ∷ log) = if is_command e then e ∷ commands log else commands log

-- No command was sent, and the count of the requests is as it was.
abbrev pub Quiet : Spi → Spi → Type 0
Quiet s s' = (commands s'.log ≡ commands s.log) × (s'.enable_ref ≡ s.enable_ref)

pub Quiet-trans : (s t u : Spi) → Quiet s t → Quiet t u → Quiet s u
Quiet-trans s t u h k = (k.0 ∙ h.0, k.1 ∙ h.1)

module _ (bus : Bus) where
  pub perform-Quiet : (e : Event) (s : Spi) → is_command e ≡ false → Quiet s (perform bus e s).1
  unfolding perform commands
  perform-Quiet e s h = rw h (refl, refl)

  pub call-Quiet : (e : Event) (s : Spi) → is_command e ≡ false → Quiet s (call bus e s).1
  unfolding call
  call-Quiet e s h = perform-Quiet e s h

  pub read_register-Quiet : (cmd n : ℕ) (s : Spi) → Quiet s (read_register bus cmd n s).1
  unfolding read_register is_command has_address
  read_register-Quiet cmd n s = perform-Quiet _ s refl

module _ (product : Product) (bus : Bus) where
  pub begin_transaction-Quiet : (s : Spi) → Quiet s (begin_transaction product bus s).1
  unfolding begin_transaction is_command
  begin_transaction-Quiet s = elim (Bool-cases product.split_transactions) [
    | inl e ↦ rw e (call-Quiet bus bus_request s refl)
    | inr e ↦ rw e (refl, refl)
  ]

  pub end_transaction-Quiet : (s : Spi) → Quiet s (end_transaction product bus s)
  unfolding end_transaction is_command
  end_transaction-Quiet s = elim (Bool-cases product.split_transactions) [
    | inl e ↦ rw e (perform-Quiet bus bus_release s refl)
    | inr e ↦ rw e (refl, refl)
  ]

  pub flash_is_busy-Quiet : (s : Spi) → Quiet s (flash_is_busy product bus s).1
  unfolding flash_is_busy
  flash_is_busy-Quiet s = read_register-Quiet bus _ 1 s

  -- A command is sent if there is no error, and nothing else but the count of the requests is
  -- promised if there is one.
  abbrev pub Sent : Event → Spi → Bool → Spi → Type 0
  Sent e s failed s' =
      (failed ≡ false → commands s'.log ≡ e ∷ commands s.log) × (s'.enable_ref ≡ s.enable_ref)

  pub Sent-after :
      (e : Event) (s t u : Spi) (failed : Bool) → Quiet s t → Sent e t failed u → Sent e s failed u
  Sent-after e s t u failed q h = (λ f. h.0 f ∙ cc, h.1 ∙ q.1)

  pub Sent-before :
      (e : Event) (s t u : Spi) (failed : Bool) → Sent e s failed t → Quiet t u → Sent e s failed u
  Sent-before e s t u failed h q = (λ f. q.0 ∙ h.0 f, q.1 ∙ h.1)

  write_enable-Quiet :
      (write : Bool) (busy : ℤ) (s : Spi) → Quiet s (write_enable product bus write busy s).1
  unfolding write_enable is_command
  write_enable-Quiet write busy s = elim (Option-cases product.chip.cmd_wren) [
    | inl e ↦ rw (e, write_enable) (refl, refl)
    | inr (wren, e) ↦
        rw (e, write_enable)
          (elim (Bool-cases write) [
            | inl w ↦ rw w (call-Quiet bus (bus_write (wren ∷ [])) s refl)
            | inr w ↦ rw w (refl, refl)
          ])
  ]

  module _ (cmd address : ℕ) (write : Bool) (buf : List ℕ) (len dummy_bytes : ℕ) where
    command-is_command : is_command (command product cmd address write buf len dummy_bytes) ≡ true
    unfolding is_command has_address command cmd_bytes
    command-is_command = refl

    perform-Sent :
        (s : Spi)
        → (failed : Bool)
        → Sent
            (command product cmd address write buf len dummy_bytes)
            s
            failed
            (perform bus (command product cmd address write buf len dummy_bytes) s).1
    unfolding perform commands
    perform-Sent s failed = rw command-is_command (λ f. refl, refl)

    send_command-Sent :
        (s : Spi)
        → let (out, s') = send_command product bus cmd address write buf len dummy_bytes s in
          Sent (command product cmd address write buf len dummy_bytes) s (is_negative out.0) s'
    unfolding send_command
    send_command-Sent s =
        let (busy, s1) = flash_is_busy product bus s in
        let (enabled, s2) = write_enable product bus write busy s1 in
        let q1 = flash_is_busy-Quiet s in
        let q2 = write_enable-Quiet write busy s1 in
        elim (Bool-cases (is_negative busy)) [
          | inl e ↦ rw (e, e) (λ f. cc, q1.1)
          | inr e ↦ rw e (elim (Bool-cases (is_negative enabled)) [
            | inl e ↦ rw (e, e) (λ f. cc, q2.1 ∙ q1.1)
            | inr e ↦
                rw e (Sent-after _ s s1 _ _ q1 (Sent-after _ s1 s2 _ _ q2 (perform-Sent s2 _)))
          ])
        ]

    pub spi_cmd_address_data-Sent :
        (s : Spi)
        → let (out, s') =
            spi_cmd_address_data product bus cmd address write buf len dummy_bytes s in
          Sent (command product cmd address write buf len dummy_bytes) s (is_negative out.0) s'
    unfolding spi_cmd_address_data
    spi_cmd_address_data-Sent s =
        let (retval, s1) = begin_transaction product bus s in
        let q1 = begin_transaction-Quiet s in
        elim (Bool-cases (is_negative retval)) [
          | inl e ↦ rw (e, e) (λ f. cc, q1.1)
          | inr e ↦ rw e (
              Sent-after _ s s1 _ _ q1
                (Sent-before _ s1 _ _ _ (send_command-Sent s1) (end_transaction-Quiet _)))
        ]

  poll_status-Quiet : (delay : ℕ) (s : Spi) → Quiet s (poll_status product bus delay s).1
  unfolding poll_status is_command
  poll_status-Quiet delay s =
      let s1 = (perform bus (delay_ms delay) s).1 in
      let (retval, s2) = begin_transaction product bus s1 in
      let q2 =
        Quiet-trans s s1 s2 (perform-Quiet bus (delay_ms delay) s refl)
          (begin_transaction-Quiet s1) in
      elim (Bool-cases (is_negative retval)) [
        | inl e ↦ rw e q2
        | inr e ↦ rw e (
            Quiet-trans s s2 _ q2
              (Quiet-trans s2 _ _ (read_register-Quiet bus _ 1 s2) (end_transaction-Quiet _)))
      ]

  wait_loop-Quiet : (delay cnt : ℕ) (s : Spi) → Quiet s (wait_loop product bus delay cnt s).1
  unfolding wait_loop
  wait_loop-Quiet delay zero s = (refl, refl)
  wait_loop-Quiet delay (suc cnt) s =
      let (out, s') = poll_status product bus delay s in
      elim (Bool-cases (out.1 || (is_negative out.0 && not (cnt == 0)))) [
        | inl e ↦ rw (e, wait_loop) (poll_status-Quiet delay s)
        | inr e ↦
            rw (e, wait_loop)
              (Quiet-trans s s' _ (poll_status-Quiet delay s) (wait_loop-Quiet delay cnt s'))
      ]

  pub wait_until_not_busy-Quiet :
      (cnt delay : ℕ) (s : Spi) → Quiet s (wait_until_not_busy product bus cnt delay s).1
  unfolding wait_until_not_busy
  wait_until_not_busy-Quiet zero delay s =
      let (out, s') = poll_status product bus delay s in
      elim (Bool-cases out.1) [
        | inl e ↦ rw (e, wait_until_not_busy) (poll_status-Quiet delay s)
        | inr e ↦
            rw (e, wait_until_not_busy)
              (elim (Bool-cases (is_negative out.0)) [
                | inl n ↦ rw (n, wait_until_not_busy) (poll_status-Quiet delay s)
                | inr n ↦
                    rw (n, wait_until_not_busy)
                      (Quiet-trans s s' _ (poll_status-Quiet delay s) (wait_loop-Quiet delay _ s'))
              ])
      ]
  wait_until_not_busy-Quiet (suc cnt) delay s = wait_loop-Quiet delay (suc cnt) s

  -- A command and the wait for its end.
  pub polled-Sent :
      (e : Event) (s t : Spi) (retval : ℤ) (cnt delay : ℕ)
      → Sent e s (is_negative retval) t
      → let (out, u) : ℤ × Spi =
          if is_negative retval then (retval, t) else wait_until_not_busy product bus cnt delay t in
        Sent e s (is_negative out) u
  polled-Sent e s t retval cnt delay h = elim (Bool-cases (is_negative retval)) [
    | inl n ↦ rw (n, n) (λ f. cc, h.1)
    | inr n ↦ rw n (let q = wait_until_not_busy-Quiet cnt delay t in (λ f. q.0 ∙ h.0 n, q.1 ∙ h.1))
  ]
