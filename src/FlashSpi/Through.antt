-- ===== src/FlashSpi/Through.antt =====
-- The whole pages of `nlflash_spi_write` of src/nlflash_spi.c with its buffer, what is left for the
-- buffer after them, and all of its steps together.
use native.Mathlib.Nat
use nlplatform.Prelude.{
  ◌%◌, ℕ, zero, suc, ◌+◌, ◌*◌, ◌/◌, ◌%◌, ◌≤◌, ◌<◌, ◌≡◌, refl, sym, ap, subst, inl, inr, false, List,
  ◌++◌, arith, leb, leb→le, leb_false→lt, u32_mod, add32, Bool-cases, ℤ, is_negative, ◌∙◌, length,
  take, done, append_nil, pos,
}
use nlplatform.FlashSpi.{Product, Bus, Spi, write_internal}
use nlplatform.FlashSpi.Cache.{
  Cached, Pending, flush, advance, start_page, full_pages, write_through, cache_rest, write,
}
use nlplatform.FlashSpi.Pages.{
  bytes_at, bytes_at-none, bytes_at-split, Programs, Programs-trans, write_internal-Programs,
}
use nlplatform.FlashSpi.Pending.{
  rest, pending, pending-none, IsCached, Fits, advance-Fits, flush-Flushed,
}
use nlplatform.FlashSpi.Caching.{Moved, Moved-trans, Moved-refl, Does, step_if_left-Outcome}
use nlplatform.FlashSpi.Appending.{Follows, Follows-empty, Ready, acquire_lem}
use nlplatform.FlashSpi.Filling.{AtPage, start_page_lem, cache_data_lem, cached_from}

lt→leb_false : (a b : ℕ) → b < a → leb a b ≡ false
lt→leb_false a b h = ground arith

module _ (page_size : ℕ) (page_pos : 0 < page_size) (product : Product) (bus : Bus)
    (rounddown : ℕ → ℕ → ℕ)
    (rounds : (a : ℕ) → rounddown a page_size ≡ a / page_size * page_size) where
  abbrev Move : (st st' : Pending × Cached) → Type 0
  Move = Moved page_size page_pos product bus rounddown rounds

  -- A whole page past an empty buffer.
  page-Move :
      (p : Pending) (c : Cached)
      → Fits page_size p
      → IsCached page_size c
      → AtPage page_size page_pos product bus rounddown rounds (p, c)
      → page_size ≤ p.length
      → let (retval, spi) = write_internal product bus p.address page_size p.buffer c.spi in
        (spi.enable_ref ≡ c.spi.enable_ref)
        × (is_negative retval ≡ false
            → Move
                (p, c)
                (advance page_size (record p { retval = retval }), record c { spi = spi }))
  unfolding advance
  page-Move p c f v (empty, aligned) le =
      let (keeps, programs) =
        write_internal-Programs product page_size bus p.address page_size p.buffer c.spi page_pos
          (omega (arith, le, f.enough)) (omega (arith, aligned)) in
      (
        keeps,
        λ k. record {
          bytes = bytes_at p.address (take page_size p.buffer);
          programs = programs k;
          splits =
              ap
                (λ b.
                  bytes_at p.address (take page_size p.buffer) ++ (b ++ rest (advance page_size p)))
                (pending-none page_size c empty)
              ∙ bytes_at-split p.address p.length page_size p.buffer le f.enough
                  (omega (arith, f.ends))
              ∙ ap (λ b. b ++ rest p) (sym (pending-none page_size c empty));
          total = omega (arith, le, f.counts);
          fits =
              advance-Fits page_size page_size _ le
                (record { enough = f.enough; ends = f.ends; counts = f.counts });
          cached = record { room = v.room; fits = v.fits; filled = v.filled };
        },
      )

  full_pages_lem :
      (fuel : ℕ) (p : Pending) (c : Cached)
      → p.length ≤ fuel
      → Fits page_size p
      → IsCached page_size c
      → AtPage page_size page_pos product bus rounddown rounds (p, c)
      → (out : Pending × Spi) × (full_pages product bus page_size rounddown fuel p c.spi ≡ done out)
        × ((out.1.enable_ref ≡ c.spi.enable_ref)
            × (is_negative out.0.retval ≡ false
                → Move (p, c) (out.0, record c { spi = out.1 })
                  × (out.0.length < page_size)
                  × (out.0.address % page_size ≡ 0)))
  unfolding full_pages advance
  full_pages_lem zero p c h f v at =
      let lt : p.length < page_size = omega (arith, h, page_pos) in
      (
        (p, c.spi),
        rw (lt→leb_false _ _ lt) refl,
        (refl, λ k. (Moved-refl page_size page_pos product bus rounddown rounds p c f v, lt, at.1)),
      )
  full_pages_lem (suc fuel) p c h f v at =
      let (retval, spi) = write_internal product bus p.address page_size p.buffer c.spi in
      elim (Bool-cases (leb page_size p.length)) [
        | inr e ↦ (
          (p, c.spi),
          rw (e, full_pages) refl,
          (
            refl,
            λ k. (
              Moved-refl page_size page_pos product bus rounddown rounds p c f v,
              leb_false→lt _ _ e,
              at.1,
            ),
          ),
        )
        | inl e ↦
            let (keeps, moves) = page-Move p c f v at (leb→le _ _ e) in
            elim (Bool-cases (is_negative retval)) [
              | inl n ↦ (
                (record p { retval = retval }, spi),
                rw (e, n, full_pages) refl,
                (keeps, λ k. cc),
              )
              | inr n ↦
                  let p1 = advance page_size (record p { retval = retval }) in
                  let c1 : Cached = record c { spi = spi } in
                  let moved = moves n in
                  let (out, returned, (ref, after)) =
                    full_pages_lem fuel p1 c1 (omega (arith, h, leb→le _ _ e, page_pos)) moved.fits
                      moved.cached
                      (at.0, next_page p.address at.1 (omega (arith, leb→le _ _ e, f.ends))) in
                  (
                    out,
                    rw (e, n, full_pages) returned,
                    (
                      ref ∙ keeps,
                      λ k.
                          let (moved', lt, aligned) = after k in
                          (
                            Moved-trans page_size page_pos product bus rounddown rounds (p, c)
                                (p1, c1) _ moved moved',
                            lt,
                            aligned,
                          ),
                    ),
                  )
            ]
      ]
    where
      next_page :
          (a : ℕ) → a % page_size ≡ 0 → a + page_size < u32_mod → add32 a page_size % page_size ≡ 0
      next_page a z h =
          subst (λ b. b % page_size ≡ 0) (omega (arith, h)) (Nat.add-mod_right a page_size ∙ z)

  -- After the whole pages: less than a page is left, and it goes to the start of the buffer.
  AtRest : Pending × Cached → Type 0
  AtRest (p, c) =
      Follows page_size page_pos p c × (p.address % page_size ≡ 0) × (p.length < page_size)

  write_through_lem :
      Does page_size page_pos product bus rounddown rounds
        (AtPage page_size page_pos product bus rounddown rounds)
        AtRest
        (write_through product bus page_size rounddown)
  unfolding write_through AtRest
  write_through_lem p c f v _ some_left at =
      let ((p', spi), returned, (keeps, h)) = full_pages_lem p.length p c (omega arith) f v at in
      let c' : Cached = record c { spi = spi; write_loc = p'.address } in
      (
        (p', c'),
        rw returned refl,
        (
          keeps,
          λ k.
              let (moved, lt, aligned) = h k in
              (
                relocated p c p' spi at.0 moved,
                inr (Follows-empty page_size page_pos p' c' at.0 refl, aligned, lt),
              ),
        ),
      )
    where
      -- An empty buffer can stand anywhere.
      relocated :
          (p : Pending) (c : Cached) (p' : Pending) (spi : Spi)
          → c.partial_page_index ≡ 0
          → Move (p, c) (p', record c { spi = spi })
          → Move (p, c) (p', record c { spi = spi; write_loc = p'.address })
      relocated p c p' spi z m = record {
        bytes = m.bytes;
        programs = m.programs;
        splits =
            ap (λ b. m.bytes ++ (b ++ rest p'))
              (pending-none page_size (record c { spi = spi; write_loc = p'.address }) z
                ∙ sym (pending-none page_size (record c { spi = spi }) z))
            ∙ m.splits;
        total = m.total;
        fits = m.fits;
        cached = record { room = m.cached.room; fits = omega (arith, m.fits.ends); filled = inl z };
      }

  -- Nothing is left.
  abbrev Never : Pending × Cached → Type 0
  Never _ = ⊥

  cache_rest_lem :
      Does page_size page_pos product bus rounddown rounds AtRest Never
        (cache_rest product bus page_size rounddown)
  unfolding cache_rest AtRest advance
  cache_rest_lem p c f v _ some_left (follows, aligned, lt) =
      let (returned, moved) =
        cache_data_lem page_size page_pos product bus rounddown rounds p.length p c f v follows
          some_left (omega arith) (omega (arith, aligned, lt)) in
      (
        (advance p.length p, cached_from page_size page_pos p.length p c),
        returned,
        (refl, λ k. (moved, inl (omega arith))),
      )

  abbrev BetweenPages : Pending × Cached → Type 0
  BetweenPages = AtPage page_size page_pos product bus rounddown rounds

  -- The bytes between what waited before and what waits after.
  abbrev pub Appended : Cached → List (ℕ × ℕ) → Cached → Type 0
  Appended c added c' =
      (bytes : List (ℕ × ℕ)) × Programs product page_size bytes c.spi.log c'.spi.log
      × (bytes ++ pending page_size c' ≡ pending page_size c ++ added)

  pub write-Appended :
      (addr len : ℕ) (buf : List ℕ) (c : Cached)
      → 0 < len
      → len ≤ length buf
      → addr + len + page_size < u32_mod
      → IsCached page_size c
      → (out : (ℤ × ℕ) × Cached) × (write product bus page_size rounddown addr len buf c ≡ done out)
        × (out.1.spi.enable_ref ≡ c.spi.enable_ref)
        × (is_negative out.0.0 ≡ false
            → (out.0.1 ≡ len)
              × IsCached page_size out.1
              × Appended c (bytes_at addr (take len buf)) out.1)
  unfolding write
  write-Appended addr len buf c some_left enough below v =
      let p : Pending = record {
        retval = pos 0;
        address = addr;
        buffer = buf;
        length = len;
        written = 0;
      } in
      let f : Fits page_size p = record {
        enough = enough;
        ends = below;
        counts = omega (arith, below);
      } in
      let (st1, r1, o1) =
        acquire_lem page_size page_pos rounddown rounds product bus p c f v some_left in
      let (st2, r2, o2) =
        step_if_left-Outcome page_size page_pos product bus rounddown rounds
          (Ready page_size page_pos) BetweenPages (start_page product bus page_size rounddown)
          (start_page_lem page_size page_pos product bus rounddown rounds) (p, c) st1 o1 in
      let (st3, r3, o3) =
        step_if_left-Outcome page_size page_pos product bus rounddown rounds BetweenPages AtRest
          (write_through product bus page_size rounddown) write_through_lem (p, c) st2 o2 in
      let (st4, r4, (keeps, o4)) =
        step_if_left-Outcome page_size page_pos product bus rounddown rounds AtRest Never
          (cache_rest product bus page_size rounddown) cache_rest_lem (p, c) st3 o3 in
      (
        ((st4.0.retval, st4.0.written), st4.1),
        rw (r1, r2, r3, r4) refl,
        keeps,
        λ k.
            let (moved, ends) = o4 k in
            let z : st4.0.length ≡ 0 = elim ends [ inl e ↦ e | inr b ↦ absurd b ] in
            (
              omega (arith, moved.total, z),
              moved.cached,
              (
                moved.bytes,
                moved.programs,
                sym (
                      ap (λ b. moved.bytes ++ b)
                        (ap (λ b. pending page_size st4.1 ++ b)
                            (bytes_at-none st4.0.address st4.0.length st4.0.buffer z)
                          ∙ append_nil (pending page_size st4.1)))
                    ∙ moved.splits,
              ),
            ),
      )

  pub write_flushed :
      (addr len : ℕ) (buf : List ℕ) (c : Cached)
      → 0 < len
      → len ≤ length buf
      → addr + len + page_size < u32_mod
      → IsCached page_size c
      → (out : (ℤ × ℕ) × Cached) × (write product bus page_size rounddown addr len buf c ≡ done out)
        × (is_negative out.0.0 ≡ false
            → (out' : ℤ × Cached) × (flush product bus page_size rounddown out.1 ≡ done out')
              × (out'.1.spi.enable_ref ≡ c.spi.enable_ref)
              × (is_negative out'.0 ≡ false
                  → Programs product page_size
                      (pending page_size c ++ bytes_at addr (take len buf))
                      c.spi.log
                      out'.1.spi.log
                    × (out'.1.partial_page_index ≡ 0)))
  write_flushed addr len buf c some_left enough below v =
      let (out, returned, keeps, wrote) = write-Appended addr len buf c some_left enough below v in
      (
        out,
        returned,
        λ k.
            let (_, cached, (bytes, programs, splits)) = wrote k in
            let (out', flushed, (keeps', after, _)) =
              flush-Flushed page_size product bus rounddown page_pos out.1 cached in
            (
              out',
              flushed,
              keeps' ∙ keeps,
              λ k'.
                  let (rest_programs, empty, _, _) = after k' in
                  (
                    subst (λ b. Programs product page_size b c.spi.log out'.1.spi.log) splits
                        (Programs-trans product page_size bytes (pending page_size out.1) c.spi.log
                          out.1.spi.log out'.1.spi.log programs rest_programs),
                    empty,
                  ),
            ),
      )
