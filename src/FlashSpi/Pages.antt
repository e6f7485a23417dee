-- ===== src/FlashSpi/Pages.antt =====
-- The pages that src/nlflash_spi.c programs, in the log of the bus, and the bytes they hold.
use native.Mathlib.Nat
use nlplatform.Prelude.{
  ◌/◌, subst, u32_mod, add32, ℕ, suc, ◌+◌, ◌-◌, ◌%◌, ◌≤◌, ◌<◌, ◌≡◌, refl, sym, ap, ap₂, subst, true,
  false, List, [], ◌∷◌, ◌++◌, arith, ◌==◌, u32_mod, add32, is_negative, ◌∙◌, All, All-append,
  length, take, drop, take_add, append_assoc, append_nil, length-take,
}
use nlplatform.FlashSpi.{
  Product, tx, Event, bus_transfer, Bus, Spi, device_address, cmd_bytes, command, write_internal,
}
use nlplatform.FlashSpi.Log.{commands, spi_cmd_address_data-Sent, polled-Sent}

-- An address and the bytes for it.
abbrev pub Page : Type 0
Page = ℕ × List ℕ

-- Bytes and the addresses they are for.
unfoldable pub bytes_at : ℕ → List ℕ → List (ℕ × ℕ)
bytes_at addr [] = []
bytes_at addr (x ∷ xs) = (addr, x) ∷ bytes_at (addr + 1) xs

unfoldable pub bytes_of : List Page → List (ℕ × ℕ)
bytes_of [] = []
bytes_of ((addr, xs) ∷ ps) = bytes_at addr xs ++ bytes_of ps

pub bytes_at-append :
    (addr : ℕ) (xs ys : List ℕ)
    → bytes_at addr (xs ++ ys) ≡ bytes_at addr xs ++ bytes_at (addr + length xs) ys
unfolding bytes_at
bytes_at-append addr [] ys = ap (λ a. bytes_at a ys) (omega arith)
bytes_at-append addr (x ∷ xs) ys = ap (◌∷◌ (addr, x)) (
    bytes_at-append (addr + 1) xs ys
    ∙ ap (λ a. bytes_at (addr + 1) xs ++ bytes_at a ys) (omega arith))

pub bytes_at-none : (addr n : ℕ) (xs : List ℕ) → n ≡ 0 → bytes_at addr (take n xs) ≡ []
unfolding bytes_at
bytes_at-none addr n xs h = rw h refl

bytes_of-append : (ps qs : List Page) → bytes_of (ps ++ qs) ≡ bytes_of ps ++ bytes_of qs
unfolding bytes_of
bytes_of-append [] qs = refl
bytes_of-append ((addr, xs) ∷ ps) qs =
    ap (λ bs. bytes_at addr xs ++ bs) (bytes_of-append ps qs)
    ∙ sym (append_assoc (bytes_at addr xs) (bytes_of ps) (bytes_of qs))

-- The first `n` bytes of the data, and what is left after them.
pub bytes_at-split :
    (addr len n : ℕ) (buf : List ℕ)
    → n ≤ len
    → len ≤ length buf
    → addr + len < u32_mod
    → bytes_at addr (take n buf) ++ bytes_at (add32 addr n) (take (len - n) (drop n buf))
      ≡ bytes_at addr (take len buf)
bytes_at-split addr len n buf h k fits =
    ap (λ a. bytes_at addr (take n buf) ++ bytes_at a (take (len - n) (drop n buf)))
      (omega (arith, h, k, fits, length-take n buf))
    ∙ sym (bytes_at-append addr (take n buf) (take (len - n) (drop n buf)))
    ∙ ap (bytes_at addr) (sym (take_add n (len - n) buf) ∙ ap (λ m. take m buf) (omega (arith, h)))

-- The end of a page is the start of one.
pub page_end :
    (page_size addr n : ℕ)
    → addr % page_size + n ≡ page_size
    → addr + n < u32_mod
    → add32 addr n % page_size ≡ 0
page_end page_size addr n h k =
    subst (λ a. a % page_size ≡ 0)
      (omega
        (arith, h, k, Nat.mod-add-div' addr page_size, Nat.suc-mul (addr / page_size) page_size))
      (Nat.mul-mod_left (suc (addr / page_size)) page_size)

module _ (product : Product) where
  abbrev pub program : Page → Event
  program (addr, xs) =
      bus_transfer
        (tx (cmd_bytes product.chip.cmd_pp (device_address product addr)) 0 ∷ tx xs 0 ∷ [])

  command-program :
      (addr len : ℕ) (buf : List ℕ)
      → 0 < len
      → command product product.chip.cmd_pp addr true buf len 0 ≡ program (addr, take len buf)
  unfolding command
  command-program addr len buf h = rw (nonzero len h) refl
    where
      nonzero : (n : ℕ) → 0 < n → (n == 0) ≡ false
      nonzero n h = ground arith

  -- The pages programmed in this order after what is in the log.
  unfoldable pub programmed : List Page → List Event → List Event
  programmed [] log = log
  programmed (p ∷ ps) log = programmed ps (program p ∷ log)

  programmed-append :
      (ps qs : List Page) (log : List Event)
      → programmed (ps ++ qs) log ≡ programmed qs (programmed ps log)
  unfolding programmed
  programmed-append [] qs log = refl
  programmed-append (p ∷ ps) qs log = programmed-append ps qs _

  module _ (page_size : ℕ) where
    -- There are bytes, and they do not run over the end of the page they start in.
    abbrev pub InPage : Page → Type 0
    InPage (addr, xs) = (0 < length xs) × (addr % page_size + length xs ≤ page_size)

    -- Between the two logs these bytes, in this order, were programmed and nothing else was sent.
    abbrev pub Programs : List (ℕ × ℕ) → List Event → List Event → Type 0
    Programs bytes log log' =
        (ps : List Page) × All InPage ps
        × (bytes_of ps ≡ bytes)
        × (commands log' ≡ programmed ps (commands log))

    pub Programs-none :
        (log log' : List Event) → commands log' ≡ commands log → Programs [] log log'
    unfolding bytes_of programmed
    Programs-none log log' h = ([], tt, refl, h)

    pub Programs-empty :
        (addr len : ℕ) (buf : List ℕ) (log : List Event)
        → len ≡ 0
        → Programs (bytes_at addr (take len buf)) log log
    unfolding bytes_at bytes_of programmed
    Programs-empty addr len buf log h = rw h ([], tt, refl, refl)

    -- What is sent before and after, without an address, does not count.
    pub Programs-between :
        (bytes : List (ℕ × ℕ)) (log log1 log2 log' : List Event)
        → commands log1 ≡ commands log
        → Programs bytes log1 log2
        → commands log' ≡ commands log2
        → Programs bytes log log'
    Programs-between bytes log log1 log2 log' h (ps, fit, is, sent) k =
        (ps, fit, is, k ∙ sent ∙ ap (programmed ps) h)

    pub Programs-trans :
        (xs ys : List (ℕ × ℕ)) (log log' log'' : List Event)
        → Programs xs log log'
        → Programs ys log' log''
        → Programs (xs ++ ys) log log''
    Programs-trans xs ys log log' log'' (ps, fit, bytes, sent) (qs, fit', bytes', sent') = (
      ps ++ qs,
      All-append InPage ps qs fit fit',
      bytes_of-append ps qs ∙ ap₂ (◌++◌) bytes bytes',
      sent' ∙ ap (programmed qs) sent ∙ sym (programmed-append ps qs (commands log)),
    )

    -- One page.
    pub write_internal-Programs :
        (bus : Bus) (addr len : ℕ) (buf : List ℕ) (s : Spi)
        → 0 < len
        → len ≤ length buf
        → addr % page_size + len ≤ page_size
        → let (retval, s') = write_internal product bus addr len buf s in
          (s'.enable_ref ≡ s.enable_ref)
          × (is_negative retval ≡ false → Programs (bytes_at addr (take len buf)) s.log s'.log)
    unfolding write_internal bytes_of programmed
    write_internal-Programs bus addr len buf s pos enough fits =
        let sent =
          polled-Sent product bus _ s _ _ _ _
            (spi_cmd_address_data-Sent product bus _ addr true buf len 0 s) in
        (
          sent.1,
          λ f. (
            (addr, take len buf) ∷ [],
            (
              (
                omega (arith, pos, enough, length-take len buf),
                omega (arith, fits, length-take len buf),
              ),
              tt,
            ),
            append_nil _,
            sent.0 f ∙ ap (λ e. e ∷ commands s.log) (command-program addr len buf pos),
          ),
        )
