-- ===== src/FlashSpi/Filling.antt =====
-- Data put into the buffer of src/nlflash_spi.c, and the page that is full then.
use native.Mathlib.Nat
use nlplatform.Prelude.{
  ℕ, ◌+◌, ◌-◌, ◌*◌, ◌/◌, ◌%◌, ◌≤◌, ◌<◌, ◌≡◌, ◌⊎◌, refl, sym, ap, inl, inr, false, [], ◌++◌, arith,
  ◌==◌, ltb, ltb→lt, ltb_false→le, ==_iff, Bool-cases, ◌∙◌, length, take, drop, length-drop,
  length-take, min, done, append_assoc, copy_in_done, store, length-store, take-drop-store,
}
use nlplatform.FlashSpi.{Product, Bus}
use nlplatform.FlashSpi.Cache.{Cached, Pending, advance, cache_data, flush_if_full, start_page}
use nlplatform.FlashSpi.Pages.{bytes_at, bytes_at-split, page_end, bytes_at-append, Programs-none}
use nlplatform.FlashSpi.Pending.{rest, pending, IsCached, Fits, advance-Fits, flush-Flushed}
use nlplatform.FlashSpi.Caching.{Moved, Moved-trans, Moved-refl, Moved-flush, Outcome, Does}
use nlplatform.FlashSpi.Appending.{Follows, Ready}

module _ (page_size : ℕ) (page_pos : 0 < page_size) where
  -- The state after `n` bytes are put behind what is in the buffer.
  abbrev pub cached_from : ℕ → Pending → Cached → Cached
  cached_from n p c = record c {
    partial_page = store c.partial_page (p.address % page_size) (take n p.buffer);
    partial_page_index = p.address % page_size + n;
  }

  pending-cached_from :
      (n : ℕ) (p : Pending) (c : Cached)
      → IsCached page_size c
      → Follows page_size page_pos p c
      → n ≤ length p.buffer
      → p.address % page_size + n ≤ page_size
      → pending page_size (cached_from n p c)
        ≡ pending page_size c ++ bytes_at p.address (take n p.buffer)
  pending-cached_from n p c v follows enough page =
      let o = c.write_loc % page_size in
      let off = p.address % page_size in
      let xs = take n p.buffer in
      let old = take (off - o) (drop o c.partial_page) in
      let size : length xs ≡ n = omega (arith, length-take n p.buffer, enough) in
      let slice : take (off - o + length xs) (drop o (store c.partial_page off xs)) ≡ old ++ xs =
        ap (λ i. take (off - o + length xs) (drop o (store c.partial_page i xs)))
          (omega (arith, follows.starts))
        ∙ take-drop-store o (off - o) xs c.partial_page
            (omega (arith, follows.starts, size, page, v.room)) in
      let behind : c.write_loc + length old ≡ p.address = omega (
        arith,
        follows.ends,
        follows.starts,
        length-take (off - o) (drop o c.partial_page),
        length-drop o c.partial_page,
        page,
        v.room,
      ) in
      ap (λ k. bytes_at c.write_loc (take k (drop o (store c.partial_page off xs))))
        (omega (arith, follows.starts, size))
      ∙ ap (bytes_at c.write_loc) slice
      ∙ bytes_at-append c.write_loc old xs
      ∙ ap (λ a. bytes_at c.write_loc old ++ bytes_at a xs) behind
      ∙ ap (λ b. b ++ bytes_at p.address xs) (sym follows.waits)

  module _ (product : Product) (bus : Bus) (rounddown : ℕ → ℕ → ℕ)
      (rounds : (a : ℕ) → rounddown a page_size ≡ a / page_size * page_size) where
    pub cache_data_lem :
        (n : ℕ) (p : Pending) (c : Cached)
        → Fits page_size p
        → IsCached page_size c
        → Follows page_size page_pos p c
        → 0 < n
        → n ≤ p.length
        → p.address % page_size + n ≤ page_size
        → (cache_data product bus page_size rounddown (p.address % page_size) n p c
            ≡ done (advance n p, cached_from n p c))
          × Moved page_size page_pos product bus rounddown rounds
              (p, c)
              (advance n p, cached_from n p c)
    unfolding cache_data advance
    cache_data_lem n p c f v follows some_bytes le page =
        let off = p.address % page_size in
        let xs = take n p.buffer in
        let size : length xs ≡ n = omega (arith, length-take n p.buffer, f.enough, le) in
        let enough : n ≤ length p.buffer = omega (arith, f.enough, le) in
        (
          rw (copy_in_done c.partial_page xs off (omega (arith, size, page, v.room))) refl,
          record {
            bytes = [];
            programs = Programs-none product page_size c.spi.log c.spi.log refl;
            splits =
                ap (λ b. b ++ rest (advance n p)) (pending-cached_from n p c v follows enough page)
                ∙ append_assoc (pending page_size c) (bytes_at p.address xs) (rest (advance n p))
                ∙ ap (λ b. pending page_size c ++ b)
                    (bytes_at-split p.address p.length n p.buffer le f.enough
                      (omega (arith, f.ends)));
            total = omega (arith, le, f.counts);
            fits = advance-Fits page_size n p le f;
            cached = record {
              room = omega (arith, v.room, length-store xs c.partial_page off);
              fits = v.fits;
              filled = inr (omega (arith, follows.starts, some_bytes), page);
            };
          },
        )

    -- Between pages: the buffer is empty, and the data starts a page.
    abbrev pub AtPage : Pending × Cached → Type 0
    AtPage (p, c) = (c.partial_page_index ≡ 0) × (p.address % page_size ≡ 0)

    flush_if_full_lem :
        (p : Pending) (c : Cached)
        → Fits page_size p
        → IsCached page_size c
        → (c.partial_page_index ≡ page_size → p.address % page_size ≡ 0)
        → ((c.partial_page_index == page_size) ≡ false → (p.length ≡ 0) ⊎ AtPage (p, c))
        → (st : Pending × Cached) × (flush_if_full product bus page_size rounddown p c ≡ done st)
          × Outcome page_size page_pos product bus rounddown rounds AtPage (p, c) st
    unfolding flush_if_full
    flush_if_full_lem p c f v full part = elim (Bool-cases (c.partial_page_index == page_size)) [
      | inr e ↦ (
        (p, c),
        rw e refl,
        (refl, λ k. (Moved-refl page_size page_pos product bus rounddown rounds p c f v, part e)),
      )
      | inl e ↦
          let ((retval, c'), returned, flushed) =
            flush-Flushed page_size product bus rounddown page_pos c v in
          (
            (record p { retval = retval }, c'),
            rw (e, returned) refl,
            (
              flushed.0,
              λ k.
                  let (_, empty, _, le) = flushed.1 k in
                  (
                    Moved-flush page_size page_pos product bus rounddown rounds p c retval c'
                        c'.write_loc f v (omega (arith, le, v.fits)) flushed k,
                    inr (empty, full ((==_iff c.partial_page_index page_size).0 e)),
                  ),
            ),
          )
    ]

    pub start_page_lem :
        Does page_size page_pos product bus rounddown rounds
          (Ready page_size page_pos)
          AtPage
          (start_page product bus page_size rounddown)
    unfolding start_page advance
    start_page_lem p c f v _ some_left (follows, aligned) =
        let off = p.address % page_size in
        let n = min (page_size - off) p.length in
        let lt : off < page_size = Nat.mod-lt p.address page_pos in
        elim (Bool-cases (ltb 0 off)) [
          | inr e ↦
              let z : off ≡ 0 = omega (arith, ltb_false→le _ _ e) in
              let (st, returned, out) =
                flush_if_full_lem p c f v (λ _. z)
                  (λ part. inr (not_full c.partial_page_index (aligned z) part, z)) in
              (st, rw e returned, out)
          | inl e ↦
              let (cached, moved) =
                cache_data_lem n p c f v (follows (ltb→lt _ _ e)) (omega (arith, lt, some_left))
                  (omega arith) (omega (arith, lt)) in
              let p1 = advance n p in
              let c1 = cached_from n p c in
              let (st, returned, (keeps, out)) =
                flush_if_full_lem p1 c1 moved.fits moved.cached
                  (λ h. page_end page_size p.address n h (omega (arith, f.ends)))
                  (λ part. inl (all_taken off p.length lt part)) in
              (
                st,
                rw (e, cached) returned,
                (
                  keeps,
                  λ k.
                      let (moved', next) = out k in
                      (
                        Moved-trans page_size page_pos product bus rounddown rounds (p, c) (p1, c1)
                            st moved moved',
                        next,
                      ),
                ),
              )
        ]
      where
        not_full : (i : ℕ) → (i ≡ 0) ⊎ (i ≡ page_size) → (i == page_size) ≡ false → i ≡ 0
        not_full i h k = ground arith

        all_taken :
            (off len : ℕ)
            → off < page_size
            → (off + min (page_size - off) len == page_size) ≡ false
            → len - min (page_size - off) len ≡ 0
        all_taken off len lt h = ground arith
