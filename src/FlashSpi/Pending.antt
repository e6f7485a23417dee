-- ===== src/FlashSpi/Pending.antt =====
-- The buffer for a partial page of src/nlflash_spi.c: what waits in it, and what its functions do to
-- what waits and what is programmed.
use nlplatform.Prelude.{
  true, ℕ, suc, ◌+◌, ◌-◌, ◌%◌, ◌≤◌, ◌<◌, ◌≡◌, ◌⊎◌, refl, sym, ap, subst, inl, inr, false, List, [],
  ◌∷◌, arith, ◌==◌, length-take, length-drop, lt→ltb, u32_mod, Bool-cases, ℤ, pos, is_negative, ◌∙◌,
  length, take, drop, length-drop, done, copy_out_done, take-take,
}
use nlplatform.FlashSpi.{Product, Bus, write_internal}
use nlplatform.FlashSpi.Cache.{Cached, Pending, erased, flush, advance}
use nlplatform.FlashSpi.Pages.{bytes_at, Programs, Programs-none, write_internal-Programs}

pub length-erased : (xs : List ℕ) → length (erased xs) ≡ length xs
unfolding erased
length-erased [] = refl
length-erased (x ∷ xs) = ap suc (length-erased xs)

-- What is left of the data.
abbrev pub rest : Pending → List (ℕ × ℕ)
rest p = bytes_at p.address (take p.length p.buffer)

module _ (page_size : ℕ) where
  -- The bytes that wait in the buffer, with their addresses.
  abbrev pub pending : Cached → List (ℕ × ℕ)
  pending c =
      let offset = c.write_loc % page_size in
      bytes_at c.write_loc (take (c.partial_page_index - offset) (drop offset c.partial_page))

  -- The buffer has room for a page, and what waits ends within the page that it starts in.
  pub record IsCached (c : Cached) : Type 0 where
    pub room : page_size ≤ length c.partial_page
    pub fits : c.write_loc + page_size < u32_mod
    pub filled :
        (c.partial_page_index ≡ 0)
        ⊎ ((c.write_loc % page_size < c.partial_page_index) × (c.partial_page_index ≤ page_size))

  pub record Fits (p : Pending) : Type 0 where
    pub enough : p.length ≤ length p.buffer
    pub ends : p.address + p.length + page_size < u32_mod
    pub counts : p.written + p.length < u32_mod

  pub advance-Fits : (n : ℕ) (p : Pending) → n ≤ p.length → Fits p → Fits (advance n p)
  unfolding advance
  advance-Fits n p h f = record {
    enough = omega (arith, h, f.enough, length-drop n p.buffer);
    ends = omega (arith, h, f.ends);
    counts = omega (arith, h, f.counts);
  }

  pub pending-none : (c : Cached) → c.partial_page_index ≡ 0 → pending c ≡ []
  unfolding bytes_at
  pending-none c h =
      ap (λ n. bytes_at c.write_loc (take n (drop (c.write_loc % page_size) c.partial_page)))
        {y = 0} (omega (arith, h))

  module _ (product : Product) (bus : Bus) (rounddown : ℕ → ℕ → ℕ) (page_pos : 0 < page_size) where
    -- What a flush comes to: without an error, what waited is programmed and nothing waits; with
    -- one, the buffer is as it was.
    abbrev pub Flushed : Cached → ℤ × Cached → Type 0
    Flushed c (retval, c') =
        (c'.spi.enable_ref ≡ c.spi.enable_ref)
        × (is_negative retval ≡ false
            → Programs product page_size (pending c) c.spi.log c'.spi.log
              × (c'.partial_page_index ≡ 0)
              × (length c'.partial_page ≡ length c.partial_page)
              × (c'.write_loc ≤ c.write_loc))
        × (is_negative retval ≡ true
            → (c'.partial_page ≡ c.partial_page) × (c'.partial_page_index ≡ c.partial_page_index))

    pub flush-Flushed :
        (c : Cached)
        → IsCached c
        → (out : ℤ × Cached) × (flush product bus page_size rounddown c ≡ done out) × Flushed c out
    unfolding flush
    flush-Flushed c v = elim v.filled [
      | inl z ↦ (
        (pos 0, c),
        rw z refl,
        (
          refl,
          λ k. (
            subst (λ b. Programs product page_size b c.spi.log c.spi.log) (sym (pending-none c z))
                (Programs-none product page_size c.spi.log c.spi.log refl),
            z,
            refl,
            omega arith,
          ),
          λ k. (refl, refl),
        ),
      )
      | inr (lt, le) ↦
          let offset = c.write_loc % page_size in
          let stride = c.partial_page_index - offset in
          let cache = take stride (drop offset c.partial_page) in
          let (retval, spi) = write_internal product bus c.write_loc stride cache c.spi in
          let copied = copy_out_done c.partial_page offset stride (omega (arith, lt, le, v.room)) in
          let (keeps, programs) =
            write_internal-Programs product page_size bus c.write_loc stride cache c.spi
              (omega (arith, lt))
              (omega (
                arith,
                lt,
                le,
                v.room,
                length-take stride (drop offset c.partial_page),
                length-drop offset c.partial_page,
              ))
              (omega (arith, lt, le)) in
          elim (Bool-cases (is_negative retval)) [
            | inl n ↦ (
              (retval, record c { spi = spi }),
              rw (not_empty _ _ lt, lt→ltb _ _ lt, copied, n) refl,
              (keeps, λ k. cc, λ k. (refl, refl)),
            )
            | inr n ↦ (
              (
                retval,
                record {
                  spi = spi;
                  partial_page = erased c.partial_page;
                  partial_page_index = 0;
                  write_loc = 0;
                },
              ),
              rw (not_empty _ _ lt, lt→ltb _ _ lt, copied, n) refl,
              (
                keeps,
                λ k. (
                  subst (λ b. Programs product page_size b c.spi.log spi.log)
                      (ap (bytes_at c.write_loc) (take_twice stride (drop offset c.partial_page)))
                      (programs n),
                  refl,
                  length-erased c.partial_page,
                  omega arith,
                ),
                λ k. cc,
              ),
            )
          ]
    ]
      where
        not_empty : (o i : ℕ) → o < i → (i == 0) ≡ false
        not_empty o i h = ground arith

        take_twice : (n : ℕ) (xs : List ℕ) → take n (take n xs) ≡ take n xs
        take_twice n xs = take-take n n xs ∙ ap (λ k. take k xs) (omega arith)
