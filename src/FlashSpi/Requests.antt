-- ===== src/FlashSpi/Requests.antt =====
-- The requests and releases of src/nlflash_spi.c: the count of the users of the chip, and the calls
-- that are not commands.
use nlplatform.Prelude.{
  ℕ, zero, suc, ◌+◌, ◌-◌, ◌%◌, ◌^◌, ◌<◌, ◌≡◌, refl, inl, inr, Bool, true, false, not, ◌&&◌, [], ◌∷◌,
  arith, ◌==◌, if◌then◌else◌, ltb, Bool-cases, lt→ltb, ℤ, pos, is_negative, ◌∙◌, done,
  assert_failed,
}
use nlplatform.FlashSpi.{
  Product, bus_request, bus_release, bus_write, slave_enable, slave_disable, delay_ms, Bus, Spi,
  perform, call, begin_transaction, check_chip_id, find_chip, wake_chip, turn_off, attempt,
  power_down, request, release,
}
use nlplatform.FlashSpi.Calls.{while_requested}
use nlplatform.FlashSpi.Log.{
  commands, is_command, Quiet, Quiet-trans, perform-Quiet, call-Quiet, read_register-Quiet,
  begin_transaction-Quiet, end_transaction-Quiet,
}

module _ (product : Product) (bus : Bus) where
  check_chip_id-Quiet : (s : Spi) → Quiet s (check_chip_id product bus s).1
  unfolding check_chip_id
  check_chip_id-Quiet s =
      let (retval, s1) = begin_transaction product bus s in
      let q1 = begin_transaction-Quiet product bus s in
      elim (Bool-cases (is_negative retval)) [
        | inl e ↦ rw e q1
        | inr e ↦ rw e (
            Quiet-trans s s1 _ q1 (
              Quiet-trans s1 _ _ (read_register-Quiet bus _ _ s1)
                (end_transaction-Quiet product bus _)))
      ]

  find_chip-Quiet : (rounds : ℕ) (s : Spi) → Quiet s (find_chip product bus rounds s).1
  unfolding find_chip is_command
  find_chip-Quiet zero s = (refl, refl)
  find_chip-Quiet (suc rounds) s =
      let (retval, s1) = check_chip_id product bus s in
      let q1 = check_chip_id-Quiet s in
      elim (Bool-cases (is_negative retval)) [
        | inl e ↦
            rw (e, find_chip)
              (Quiet-trans s s1 _ q1 (
                Quiet-trans s1 _ _ (perform-Quiet bus (delay_ms 1) s1 refl)
                  (find_chip-Quiet rounds _)))
        | inr e ↦ rw (e, find_chip) q1
      ]

  wake_chip-Quiet : (s : Spi) → Quiet s (wake_chip product bus s).1
  unfolding wake_chip is_command
  wake_chip-Quiet s = elim (Bool-cases product.split_transactions) [
    | inl e ↦ rw e (powered (pos 0) _ (perform-Quiet bus slave_enable s refl))
    | inr e ↦ rw e (powered (call bus bus_request s).0 _ (call-Quiet bus bus_request s refl))
  ]
    where
      powered :
          (retval : ℤ) (s' : Spi)
          → Quiet s s'
          → Quiet s
              (if not (is_negative retval) && product.use_powerdown
                then call bus (bus_write (product.chip.cmd_rdp ∷ [])) s'
                else (retval, s')).1
      powered retval s' q = elim (Bool-cases (not (is_negative retval) && product.use_powerdown)) [
        | inl e ↦ rw e (Quiet-trans s s' _ q (call-Quiet bus (bus_write _) s' refl))
        | inr e ↦ rw e q
      ]

  turn_off-Quiet : (s : Spi) → Quiet s (turn_off product bus s)
  unfolding turn_off is_command
  turn_off-Quiet s = elim (Bool-cases product.split_transactions) [
    | inl e ↦ rw e (perform-Quiet bus slave_disable s refl)
    | inr e ↦ rw e (perform-Quiet bus bus_release s refl)
  ]

  -- No command was sent; the count is `ref` if there is no error, and 0 if there is one.
  abbrev pub Counted : (ref : ℕ) → Spi → ℤ × Spi → Type 0
  Counted ref s (retval, s') =
      (commands s'.log ≡ commands s.log)
      × (is_negative retval ≡ false → s'.enable_ref ≡ ref)
      × (is_negative retval ≡ true → s'.enable_ref ≡ 0)

  attempt-Counted : (n : ℕ) (s : Spi) → Counted s.enable_ref s (attempt product bus n s)
  unfolding attempt
  attempt-Counted zero s = (refl, λ f. cc, λ f. refl)
  attempt-Counted (suc n) s =
      let (retval, s1) = wake_chip product bus s in
      let (found, s2) = find_chip product bus product.chip.max_chip_id_check_count s1 in
      let s3 = turn_off product bus s2 in
      let q1 = wake_chip-Quiet s in
      let q2 = Quiet-trans s s1 s2 q1 (find_chip-Quiet _ s1) in
      let q3 = Quiet-trans s s2 s3 q2 (turn_off-Quiet s2) in
      let (log, counted, failed) = attempt-Counted n s3 in
      elim (Bool-cases (is_negative retval)) [
        | inl e ↦ rw (e, attempt) (q1.0, λ f. cc, λ f. refl)
        | inr e ↦
            rw (e, attempt)
              (elim (Bool-cases found) [
                | inl g ↦ rw (g, attempt) (q2.0, λ f. q2.1, λ f. cc)
                | inr g ↦ rw (g, attempt) (log ∙ q3.0, λ f. counted f ∙ q3.1, failed)
              ])
      ]

  pub request-Counted : (s : Spi) → Counted ((s.enable_ref + 1) % 2 ^ 8) s (request product bus s)
  unfolding request
  request-Counted s =
      let ref = (s.enable_ref + 1) % 2 ^ 8 in
      elim (Bool-cases (ltb 1 ref)) [
        | inl e ↦ rw e (refl, λ f. refl, λ f. cc)
        | inr e ↦ rw e (attempt-Counted _ (record s { enable_ref = ref }))
      ]

  power_down-Quiet : (s : Spi) → Quiet s (power_down product bus s)
  unfolding power_down is_command
  power_down-Quiet s = by_use product.use_powerdown
    where
      woken : Spi
      woken = (perform bus (bus_write (product.chip.cmd_dp ∷ [])) s).1

      by_use : (used : Bool) → Quiet s (turn_off product bus (if used then woken else s))
      by_use true =
          Quiet-trans s woken _ (perform-Quiet bus (bus_write _) s refl) (turn_off-Quiet woken)
      by_use false = turn_off-Quiet s

  -- What a release comes to: one user less, and no command.
  abbrev pub Released : Spi → Spi → Type 0
  Released s s' =
      (release product bus s ≡ done (pos 0, s'))
      × (s'.enable_ref ≡ s.enable_ref - 1)
      × (commands s'.log ≡ commands s.log)

  pub release_done : (s : Spi) → 0 < s.enable_ref → (s' : Spi) × Released s s'
  unfolding release
  release_done s h =
      let s1 : Spi = record s { enable_ref = s.enable_ref - 1 } in
      let q = power_down-Quiet s1 in
      elim (Bool-cases (s1.enable_ref == 0)) [
        | inl e ↦ (power_down product bus s1, (rw (lt→ltb _ _ h, e) refl, q.1, q.0))
        | inr e ↦ (s1, (rw (lt→ltb _ _ h, e) refl, refl, refl))
      ]

  pub release_unused : (s : Spi) → s.enable_ref ≡ 0 → release product bus s ≡ assert_failed
  unfolding release
  release_unused s h = rw h refl

  -- An operation under a request. When the request succeeds, with fewer than 255 users before it,
  -- the operation runs after it, its outputs are returned, and the count is as before. When the
  -- request fails, the release at the end stops at its assertion.
  module _ {X : Type 0} (op : ℤ → Spi → (ℤ × X) × Spi) (x : X) (s : Spi) where
    pub while_requested_done :
        s.enable_ref < 255
        → (is_negative (request product bus s).0 ≡ false)
        → let ((retval, y), s2) = op (request product bus s).0 (request product bus s).1 in
          s2.enable_ref ≡ (request product bus s).1.enable_ref
          → (s' : Spi) × (while_requested product bus op x s ≡ done ((retval, y), s'))
            × (s'.enable_ref ≡ s.enable_ref)
            × (commands s'.log ≡ commands s2.log)
    unfolding while_requested
    while_requested_done few e keeps =
        let (retval, s1) = request product bus s in
        let counted = (request-Counted s).1 e in
        let (s', (released, ref, log)) =
          release_done (op retval s1).1 (omega (arith, keeps, counted)) in
        (s', rw (e, released) refl, omega (arith, ref, keeps, counted), log)

    pub while_requested_failed :
        is_negative (request product bus s).0 ≡ true
        → while_requested product bus op x s ≡ assert_failed
    unfolding while_requested
    while_requested_failed e =
        rw (e, release_unused (request product bus s).1 ((request-Counted s).2 e)) refl
