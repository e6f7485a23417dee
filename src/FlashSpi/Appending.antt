-- ===== src/FlashSpi/Appending.antt =====
-- The first steps of `nlflash_spi_write` of src/nlflash_spi.c with its buffer: data that follows what
-- waits in the buffer is put behind it, and other data starts after a flush.
use native.Mathlib.Nat
use nlplatform.Prelude.{
  ℕ, ◌+◌, ◌-◌, ◌*◌, ◌/◌, ◌%◌, ◌≤◌, ◌<◌, ◌≡◌, ◌⊎◌, refl, sym, ap, inl, inr, true, false, arith, ◌==◌,
  lt→ltb, ==_iff, u32_mod, add32, Bool-cases, ◌∙◌, take, drop, done,
}
use nlplatform.FlashSpi.{Product, Bus}
use nlplatform.FlashSpi.Cache.{Cached, Pending, acquire}
use nlplatform.FlashSpi.Pages.{bytes_at, bytes_at-none}
use nlplatform.FlashSpi.Pending.{pending, pending-none, IsCached, Fits, flush-Flushed}
use nlplatform.FlashSpi.Caching.{Moved-refl, Moved-flush, Outcome}

module _ (page_size : ℕ) (page_pos : 0 < page_size) where
  -- What is in the buffer ends where the data starts, as far as it is within a page.
  pub record Follows (p : Pending) (c : Cached) : Type 0 where
    pub starts : c.write_loc % page_size ≤ p.address % page_size
    pub ends : c.write_loc + (p.address % page_size - c.write_loc % page_size) ≡ p.address
    pub waits :
        pending page_size c
        ≡ bytes_at c.write_loc (
            take
              (p.address % page_size - c.write_loc % page_size)
              (drop (c.write_loc % page_size) c.partial_page))

  -- What `acquire` sees to.
  abbrev pub Ready : Pending × Cached → Type 0
  Ready (p, c) =
      (0 < p.address % page_size → Follows p c)
      × (p.address % page_size ≡ 0
          → (c.partial_page_index ≡ 0) ⊎ (c.partial_page_index ≡ page_size))

  -- An empty buffer takes data from anywhere.
  pub Follows-empty :
      (p : Pending) (c : Cached) → c.partial_page_index ≡ 0 → c.write_loc ≡ p.address → Follows p c
  Follows-empty p c z e = record {
    starts = rw e (omega arith);
    ends = rw e (omega arith);
    waits = pending-none page_size c z ∙ sym (bytes_at-none c.write_loc _ _ (rw e (omega arith)));
  }

  module _ (rounddown : ℕ → ℕ → ℕ)
      (rounds : (a : ℕ) → rounddown a page_size ≡ a / page_size * page_size) where
    Ready-match :
        (p : Pending) (c : Cached)
        → IsCached page_size c
        → (p.address == add32 (rounddown c.write_loc page_size) c.partial_page_index) ≡ true
        → Ready (p, c)
    Ready-match p c v m =
        let base = c.write_loc / page_size * page_size in
        let sum : c.write_loc ≡ base + c.write_loc % page_size =
          omega (arith, Nat.div-add-mod' c.write_loc page_size) in
        let at : p.address ≡ base + c.partial_page_index =
          (==_iff p.address _).0 m
          ∙ ap (λ b. add32 b c.partial_page_index) (rounds c.write_loc)
          ∙ no_wrap base c.partial_page_index (omega (arith, sum, v.fits, v.filled)) in
        let behind : p.address % page_size ≡ c.partial_page_index % page_size =
          ap (λ a. a % page_size) at
          ∙ Nat.mul-add-mod_self_right (c.write_loc / page_size) page_size c.partial_page_index in
        elim v.filled [
          | inl z ↦
              let aligned : p.address % page_size ≡ 0 =
                behind ∙ ap (λ i. i % page_size) z ∙ Nat.zero-mod page_size in
              (λ h. absurd (omega (arith, h, aligned)), λ _. inl z)
          | inr (lt, le) ↦ elim (Bool-cases (c.partial_page_index == page_size)) [
            | inl full ↦
                let f = (==_iff c.partial_page_index page_size).0 full in
                let aligned : p.address % page_size ≡ 0 =
                  behind ∙ ap (λ i. i % page_size) f ∙ Nat.mod_self page_size in
                (λ h. absurd (omega (arith, h, aligned)), λ _. inr f)
            | inr part ↦
                let inside : p.address % page_size ≡ c.partial_page_index =
                  behind ∙ Nat.mod-eq_of_lt (less _ _ le part) in
                (
                  λ _. record {
                    starts = omega (arith, inside, lt);
                    ends = omega (arith, inside, lt, sum, at);
                    waits =
                        ap
                          (λ i. bytes_at c.write_loc (
                            take (i - c.write_loc % page_size)
                              (drop (c.write_loc % page_size) c.partial_page)))
                          (sym inside);
                  },
                  λ h. absurd (omega (arith, h, inside, lt)),
                )
          ]
        ]
      where
        no_wrap : (a b : ℕ) → a + b < u32_mod → add32 a b ≡ a + b
        no_wrap a b h = omega arith

        less : (a b : ℕ) → a ≤ b → (a == b) ≡ false → a < b
        less a b h k = ground arith

    module _ (product : Product) (bus : Bus) where
      pub acquire_lem :
          (p : Pending) (c : Cached)
          → Fits page_size p
          → IsCached page_size c
          → 0 < p.length
          → (st : Pending × Cached) × (acquire product bus page_size rounddown p c ≡ done st)
            × Outcome page_size page_pos product bus rounddown rounds Ready (p, c) st
      unfolding acquire
      acquire_lem p c f v some_left =
          let follows = p.address == add32 (rounddown c.write_loc page_size) c.partial_page_index in
          elim (Bool-cases follows) [
            | inl m ↦ (
              (p, c),
              rw (lt→ltb _ _ some_left, m) refl,
              (
                refl,
                λ k. (
                  Moved-refl page_size page_pos product bus rounddown rounds p c f v,
                  inr (Ready-match p c v m),
                ),
              ),
            )
            | inr m ↦
                let ((retval, c'), returned, flushed) =
                  flush-Flushed page_size product bus rounddown page_pos c v in
                (
                  (record p { retval = retval }, record c' { write_loc = p.address }),
                  rw (lt→ltb _ _ some_left, m, returned) refl,
                  (
                    flushed.0,
                    λ k. (
                      Moved-flush page_size page_pos product bus rounddown rounds p c retval c'
                          p.address f v (omega (arith, f.ends)) flushed k,
                      inr (λ _. Follows-empty _ _ (flushed.1 k).1 refl, λ _. inl (flushed.1 k).1),
                    ),
                  ),
                )
          ]
