-- ===== src/FlashSpi/Writing.antt =====
-- What `nlflash_spi_write` of src/nlflash_spi.c programs, without the buffer for a partial page.
use native.Mathlib.Nat
use nlplatform.Prelude.{
  ℕ, zero, suc, ◌+◌, ◌-◌, ◌%◌, ◌≤◌, ◌<◌, ◌≡◌, refl, ap, subst, inl, inr, Bool, true, false, not,
  List, [], ◌++◌, arith, ◌==◌, ltb, leb, leb→le, leb_false→lt, ltb→lt, ltb_false→le, ==_iff,
  u32_mod, add32, Bool-cases, ℤ, is_negative, is_zero, ◌∙◌, length, take, drop, length-drop,
  append_assoc, done,
}
use nlplatform.FlashSpi.{Product, Bus, Spi, write_internal, request}
use nlplatform.FlashSpi.Calls.{
  Writing, write_pages, partial_page_size, write_leading, write_trailing, write_requested, write,
}
use nlplatform.FlashSpi.Orders.{HasPages, address_end, Stores, Stores-Programs, Reached-take}
use nlplatform.FlashSpi.Pages.{
  Programs-empty, Programs-between, bytes_at, bytes_at-split, page_end, Programs, Programs-none,
  Programs-trans, write_internal-Programs,
}
use nlplatform.FlashSpi.Plan.{IsRegular}
use nlplatform.FlashSpi.Requests.{request-Counted, release_done}

-- What is left to write.
abbrev rest : Writing → List (ℕ × ℕ)
rest w = bytes_at w.addr (take w.len w.buf)

record Fits (w : Writing) : Type 0 where
  enough : w.len ≤ length w.buf
  ends : w.addr + w.len < u32_mod
  counts : w.retlen + w.len < u32_mod

-- The state past `n` bytes.
abbrev past : ℕ → ℤ → Writing → Writing
past n retval w = record {
  retval = retval;
  addr = add32 w.addr n;
  retlen = add32 w.retlen n;
  len = w.len - n;
  buf = drop n w.buf;
}

past-Fits : (n : ℕ) (retval : ℤ) (w : Writing) → n ≤ w.len → Fits w → Fits (past n retval w)
past-Fits n retval w h f = record {
  enough = omega (arith, h, f.enough, length-drop n w.buf);
  ends = omega (arith, h, f.ends);
  counts = omega (arith, h, f.counts);
}

lt→leb_false : (a b : ℕ) → b < a → leb a b ≡ false
lt→leb_false a b h = ground arith

true_not_false : (b : Bool) → b ≡ true → b ≡ false → ⊥
true_not_false b h k = cc

is_zero→not_negative : (r : ℤ) → is_zero r ≡ true → is_negative r ≡ false
is_zero→not_negative r h = ground arith

module _ (product : Product) (bus : Bus) (regular : IsRegular product.chip) where
  open product.chip use {write_size}

  -- From one state to the other, what is left is programmed but for what is left then.
  record Wrote (w : Writing) (s : Spi) (w' : Writing) (s' : Spi) : Type 0 where
    bytes : List (ℕ × ℕ)
    programs : Programs product write_size bytes s.log s'.log
    splits : bytes ++ rest w' ≡ rest w
    fits : Fits w'
    total : w'.retlen + w'.len ≡ w.retlen + w.len

  Wrote-refl : (w : Writing) (s : Spi) → Fits w → Wrote w s w s
  Wrote-refl w s f = record {
    bytes = [];
    programs = Programs-none product write_size s.log s.log refl;
    splits = refl;
    fits = f;
    total = refl;
  }

  Wrote-trans :
      (w : Writing) (s : Spi) (w' : Writing) (s' : Spi) (w'' : Writing) (s'' : Spi)
      → Wrote w s w' s'
      → Wrote w' s' w'' s''
      → Wrote w s w'' s''
  Wrote-trans w s w' s' w'' s'' h k = record {
    bytes = h.bytes ++ k.bytes;
    programs =
        Programs-trans product write_size h.bytes k.bytes s.log s'.log s''.log h.programs
          k.programs;
    splits = append_assoc h.bytes k.bytes (rest w'') ∙ ap (λ r. h.bytes ++ r) k.splits ∙ h.splits;
    fits = k.fits;
    total = omega (arith, h.total, k.total);
  }

  -- One page, or a part of one.
  step-Wrote :
      (n : ℕ) (w : Writing) (s : Spi)
      → Fits w
      → 0 < n
      → n ≤ w.len
      → w.addr % write_size + n ≤ write_size
      → let (retval, s') = write_internal product bus w.addr n w.buf s in
        (s'.enable_ref ≡ s.enable_ref)
        × (is_negative retval ≡ false → Wrote w s (past n retval w) s')
  step-Wrote n w s f pos le page =
      let (keeps, programs) =
        write_internal-Programs product write_size bus w.addr n w.buf s pos
          (omega (arith, le, f.enough)) page in
      (
        keeps,
        λ h. record {
          bytes = bytes_at w.addr (take n w.buf);
          programs = programs h;
          splits = bytes_at-split w.addr w.len n w.buf le f.enough f.ends;
          fits = past-Fits n _ w le f;
          total = omega (arith, le, f.counts);
        },
      )

  next_page :
      (w : Writing)
      → write_size ≤ w.len
      → Fits w
      → w.addr % write_size ≡ 0
      → add32 w.addr write_size % write_size ≡ 0
  next_page w le f z =
      subst (λ a. a % write_size ≡ 0) (omega (arith, le, f.ends))
        (Nat.add-mod_right w.addr write_size ∙ z)

  -- What the loop over the whole pages comes to.
  abbrev PagesDone : Writing → Spi → Writing × Spi → Type 0
  PagesDone w s (w', s') =
      (s'.enable_ref ≡ s.enable_ref)
      × (is_negative w'.retval ≡ false
          → Wrote w s w' s' × (w'.len < write_size) × (w'.addr % write_size ≡ 0))

  write_pages_lem :
      (fuel : ℕ) (w : Writing) (s : Spi)
      → w.len ≤ fuel
      → w.addr % write_size ≡ 0
      → Fits w
      → (out : Writing × Spi) × (write_pages product bus fuel w s ≡ done out) × PagesDone w s out
  unfolding write_pages
  write_pages_lem zero w s h z f =
      let e : leb write_size w.len ≡ false =
        lt→leb_false _ _ (omega (arith, h, regular.write_size_pos)) in
      ((w, s), rw e refl, (refl, λ n. (Wrote-refl w s f, leb_false→lt _ _ e, z)))
  write_pages_lem (suc fuel) w s h z f =
      let (retval, s') = write_internal product bus w.addr write_size w.buf s in
      elim (Bool-cases (leb write_size w.len)) [
        | inr e ↦ (
          (w, s),
          rw (e, write_pages) refl,
          (refl, λ n. (Wrote-refl w s f, leb_false→lt _ _ e, z)),
        )
        | inl e ↦
            let le = leb→le _ _ e in
            let (keeps, wrote) =
              step-Wrote write_size w s f regular.write_size_pos le (omega (arith, z)) in
            elim (Bool-cases (is_negative retval)) [
              | inl n ↦ (
                (record w { retval = retval }, s'),
                rw (e, n, write_pages) refl,
                (keeps, λ m. cc),
              )
              | inr n ↦
                  let w1 = past write_size retval w in
                  let (out, returned, (ref, after)) =
                    write_pages_lem fuel w1 s' (omega (arith, h, le, regular.write_size_pos))
                      (next_page w le f z) (past-Fits write_size retval w le f) in
                  (
                    out,
                    rw (e, n, write_pages) returned,
                    (
                      ref ∙ keeps,
                      λ m.
                          let (k, lt, al) = after m in
                          (Wrote-trans w s w1 s' _ _ (wrote n) k, lt, al),
                    ),
                  )
            ]
      ]

  -- The size of the first part: within its page, and up to the end of it if data is left.
  record IsPart (w : Writing) (n : ℕ) : Type 0 where
    some_bytes : 0 < n
    within : n ≤ w.len
    page : w.addr % write_size + n ≤ write_size
    to_the_end : (n == w.len) ≡ false → add32 w.addr n % write_size ≡ 0

  partial_page_size-IsPart :
      (w : Writing) → Fits w → 0 < w.len → IsPart w (partial_page_size product bus w)
  unfolding partial_page_size
  partial_page_size-IsPart w f pos =
      let offset = w.addr % write_size in
      let lt : offset < write_size = Nat.mod-lt w.addr regular.write_size_pos in
      let le : offset ≤ w.addr = Nat.mod-le w.addr write_size in
      let sum : add32 offset w.len ≡ offset + w.len = omega (arith, le, f.ends) in
      elim (Bool-cases (ltb write_size (add32 offset w.len))) [
        | inl e ↦
            let h : write_size < offset + w.len = omega (arith, ltb→lt _ _ e, sum) in
            rw e (record {
              some_bytes = omega (arith, lt);
              within = omega (arith, h);
              page = omega (arith, lt);
              to_the_end = λ _.
                  page_end write_size w.addr (write_size - offset) (omega (arith, lt))
                    (omega (arith, h, f.ends));
            })
        | inr e ↦ rw e (record {
          some_bytes = pos;
          within = omega arith;
          page = omega (arith, ltb_false→le _ _ e, sum);
          to_the_end = λ n. absurd (differs w.len n);
        })
      ]
    where
      differs : (n : ℕ) → (n == n) ≡ false → ⊥
      differs n h = ground arith

  -- What the first part comes to: the loop goes on at the start of a page, or all is written if the
  -- result is 0.
  abbrev LeadingDone : Writing → Spi → (Bool × Writing) × Spi → Type 0
  LeadingDone w s ((goes_on, w'), s') =
      (s'.enable_ref ≡ s.enable_ref)
      × (goes_on ≡ true → Wrote w s w' s' × (w'.addr % write_size ≡ 0))
      × (goes_on ≡ false → is_zero w'.retval ≡ true → Wrote w s w' s' × (w'.len ≡ 0))

  write_leading_lem :
      (w : Writing) (s : Spi) → Fits w → 0 < w.len → LeadingDone w s (write_leading product bus w s)
  unfolding write_leading
  write_leading_lem w s f pos =
      let n = partial_page_size product bus w in
      let part = partial_page_size-IsPart w f pos in
      let (retval, s') = write_internal product bus w.addr n w.buf s in
      let (keeps, wrote) = step-Wrote n w s f part.some_bytes part.within part.page in
      elim (Bool-cases (w.addr % write_size == 0)) [
        | inl e ↦ rw e (refl, λ g. (Wrote-refl w s f, (==_iff _ 0).0 e), λ g. cc)
        | inr e ↦ rw e (elim (Bool-cases (is_zero retval)) [
          | inr z ↦ rw z (keeps, λ g. cc, λ g k. absurd (true_not_false _ k z))
          | inl z ↦
              let k = wrote (is_zero→not_negative retval z) in
              rw z (
                keeps,
                λ g. (k, part.to_the_end (not_true _ g)),
                λ g h. (k, all_done n w.len (not_false _ g)),
              )
        ])
      ]
    where
      not_true : (b : Bool) → not b ≡ true → b ≡ false
      not_true b h = ground arith

      not_false : (b : Bool) → not b ≡ false → b ≡ true
      not_false b h = ground arith

      all_done : (n len : ℕ) → (n == len) ≡ true → len - n ≡ 0
      all_done n len h = ground arith

  -- The last part, when less than a page is left at the start of one.
  write_trailing_lem :
      (w : Writing) (s : Spi)
      → Fits w
      → w.len < write_size
      → w.addr % write_size ≡ 0
      → let (w', s') = write_trailing product bus w s in
        (s'.enable_ref ≡ s.enable_ref)
        × (is_zero w'.retval ≡ true
            → Programs product write_size (rest w) s.log s'.log
              × (w'.retlen ≡ w.retlen + w.len)
              × (is_zero w.retval ≡ true))
  unfolding write_trailing
  write_trailing_lem w s f lt z =
      let (retval, s') = write_internal product bus w.addr w.len w.buf s in
      elim (Bool-cases (is_zero w.retval)) [
        | inr e ↦ rw e (refl, λ k. cc)
        | inl e ↦ elim (Bool-cases (ltb 0 w.len)) [
          | inr l ↦
              let none_left : w.len ≡ 0 = omega (arith, ltb_false→le _ _ l) in
              rw (e, l)
                (
                  refl,
                  λ k. (
                    Programs-empty product write_size w.addr w.len w.buf s.log none_left,
                    omega (arith, none_left),
                    refl,
                  ),
                )
          | inl l ↦
              let (keeps, programs) =
                write_internal-Programs product write_size bus w.addr w.len w.buf s (ltb→lt _ _ l)
                  f.enough (omega (arith, z, lt)) in
              elim (Bool-cases (is_zero retval)) [
                | inr k ↦ rw (e, l, k) (keeps, λ g. cc)
                | inl k ↦
                    rw (e, l, k)
                      (
                        keeps,
                        λ g. (
                          programs (is_zero→not_negative retval k),
                          omega (arith, f.counts),
                          refl,
                        ),
                      )
              ]
        ]
      ]

  write_trailing_none :
      (w : Writing) (s : Spi) → is_zero w.retval ≡ false → write_trailing product bus w s ≡ (w, s)
  unfolding write_trailing
  write_trailing_none w s e = rw e refl

  -- The rest after what was written.
  then_rest :
      (w : Writing) (s : Spi) (w' : Writing) (s' s'' : Spi)
      → Wrote w s w' s'
      → Programs product write_size (rest w') s'.log s''.log
      → Programs product write_size (rest w) s.log s''.log
  then_rest w s w' s' s'' k p =
      subst (λ b. Programs product write_size b s.log s''.log) k.splits
        (Programs-trans product write_size k.bytes (rest w') s.log s'.log s''.log k.programs p)

  -- Between the request and the release.
  write_requested_lem :
      (w : Writing) (s : Spi)
      → Fits w
      → 0 < w.len
      → (out : Writing × Spi) × (write_requested product bus w s ≡ done out)
        × (out.1.enable_ref ≡ s.enable_ref)
        × (is_zero out.0.retval ≡ true
            → Programs product write_size (rest w) s.log out.1.log
              × (out.0.retlen ≡ w.retlen + w.len))
  unfolding write_requested
  write_requested_lem w s f pos =
      let ((goes_on, w1), s1) = write_leading product bus w s in
      let (keeps, first, last) = write_leading_lem w s f pos in
      elim (Bool-cases goes_on) [
        | inr e ↦ (
          (w1, s1),
          rw e refl,
          keeps,
          λ k.
              let (wrote, none_left) = last e k in
              (
                then_rest w s w1 s1 s1 wrote
                    (Programs-empty product write_size w1.addr w1.len w1.buf s1.log none_left),
                omega (arith, wrote.total, none_left),
              ),
        )
        | inl e ↦
            let (wrote, at_page) = first e in
            let ((w2, s2), returned, (ref, pages)) =
              write_pages_lem w1.len w1 s1 (omega arith) at_page wrote.fits in
            elim (Bool-cases (is_zero w2.retval)) [
              | inr z ↦ (
                (w2, s2),
                rw (e, returned, write_trailing_none w2 s2 z) refl,
                ref ∙ keeps,
                λ k. absurd (true_not_false _ k z),
              )
              | inl z ↦
                  let (more, lt, aligned) = pages (is_zero→not_negative _ z) in
                  let (same, ends) = write_trailing_lem w2 s2 more.fits lt aligned in
                  let s3 = (write_trailing product bus w2 s2).1 in
                  (
                    write_trailing product bus w2 s2,
                    rw (e, returned) refl,
                    same ∙ ref ∙ keeps,
                    λ k.
                        let (programs, total, _) = ends k in
                        (
                          then_rest w s w1 s1 s3 wrote (then_rest w1 s1 w2 s2 s3 more programs),
                          omega (arith, total, more.total, wrote.total),
                        ),
                  )
            ]
      ]

  -- Data for addresses on the chip, with fewer than 255 users and a request that succeeds:
  -- `nlflash_spi_write` returns and leaves the count of the users as it was. If its result is 0,
  -- `*retlen` is the length, and it sent commands to program all of the data in order, each byte
  -- at its address, by the number that the chip reads as the address, in three bytes with the most
  -- significant one first, with no page program that runs over the end of a page, and no other
  -- command with an address. This is for addresses that numbers of three bytes reach, as addresses
  -- or, on a chip with addresses of page and offset, as those. Where the chip has addresses of
  -- page and offset, its pages are not empty and their offsets fit the bits.
  pub write-Programs :
      (pages : HasPages product.chip) (addr len retlen callback : ℕ) (buf : List ℕ) (s : Spi)
      → 0 < len
      → len ≤ length buf
      → addr + len ≤ product.chip.size
      → addr + len ≤ address_end product.chip
      → s.enable_ref < 255
      → is_negative (request product bus s).0 ≡ false
      → (out : (ℤ × ℕ) × Spi) × (write product bus addr len retlen buf callback s ≡ done out)
        × (out.1.enable_ref ≡ s.enable_ref)
        × (is_zero out.0.0 ≡ true
            → (out.0.1 ≡ len)
              × Stores product write_size (bytes_at addr (take len buf)) s.log out.1.log)
  unfolding write
  write-Programs pages addr len retlen callback buf s pos le fits reached few e =
      let (retval, s1) = request product bus s in
      let (log, counted, _) = request-Counted product bus s in
      let w : Writing = record { retval = retval; addr = addr; retlen = 0; len = len; buf = buf } in
      let w_fits : Fits w = record {
        enough = le;
        ends = omega (arith, fits, regular.size_fits);
        counts = omega (arith, fits, regular.size_fits);
      } in
      let ((w', s2), returned, ref, wrote) = write_requested_lem w s1 w_fits pos in
      let (s3, (released, ref', log')) =
        release_done product bus s2 (omega (arith, ref, counted e)) in
      (
        ((w'.retval, w'.retlen), s3),
        rw (e, returned, released) refl,
        omega (arith, ref', ref, counted e),
        λ z. (
          omega (arith, (wrote z).1),
          Stores-Programs product pages write_size (rest w) s.log s3.log
              (Programs-between product write_size (rest w) s.log s1.log s2.log s3.log log
                (wrote z).0 log')
              (Reached-take product.chip addr len buf reached),
        ),
      )
