-- ===== src/FlashSpi/Caching.antt =====
-- `nlflash_spi_write` of src/nlflash_spi.c with its buffer for a partial page, step by step.
use nlplatform.Prelude.{
  u32_mod, [], ℕ, ◌+◌, ◌*◌, ◌/◌, ◌<◌, ◌≡◌, ◌⊎◌, refl, ap, inl, inr, Bool, true, false, List, [],
  ◌++◌, arith, ltb, ltb→lt, ltb_false→le, u32_mod, Bool-cases, ℤ, is_negative, ◌∙◌, Run, done,
  append_assoc,
}
use nlplatform.FlashSpi.{Product, Bus}
use nlplatform.FlashSpi.Cache.{Cached, Pending, may_go_on, step_if_left}
use nlplatform.FlashSpi.Pages.{Programs-none, Programs, Programs-none, Programs-trans}
use nlplatform.FlashSpi.Pending.{
  pending-none, Flushed, rest, pending, pending-none, IsCached, Fits, Flushed,
}

module _ (page_size : ℕ) (page_pos : 0 < page_size) (product : Product) (bus : Bus)
    (rounddown : ℕ → ℕ → ℕ)
    (rounds : (a : ℕ) → rounddown a page_size ≡ a / page_size * page_size) where
  abbrev pub left : Pending × Cached → List (ℕ × ℕ)
  left (p, c) = pending page_size c ++ rest p

  -- From one state to the other, what waits and what is left to write is programmed but for what
  -- waits and is left then.
  pub record Moved (st st' : Pending × Cached) : Type 0 where
    pub bytes : List (ℕ × ℕ)
    pub programs : Programs product page_size bytes st.1.spi.log st'.1.spi.log
    pub splits : bytes ++ left st' ≡ left st
    pub total : st'.0.written + st'.0.length ≡ st.0.written + st.0.length
    pub fits : Fits page_size st'.0
    pub cached : IsCached page_size st'.1

  pub Moved-refl :
      (p : Pending) (c : Cached) → Fits page_size p → IsCached page_size c → Moved (p, c) (p, c)
  Moved-refl p c f v = record {
    bytes = [];
    programs = Programs-none product page_size c.spi.log c.spi.log refl;
    splits = refl;
    total = refl;
    fits = f;
    cached = v;
  }

  -- What waited is programmed.
  pub Moved-flush :
      (p : Pending) (c : Cached) (retval : ℤ) (c' : Cached) (address : ℕ)
      → Fits page_size p
      → IsCached page_size c
      → address + page_size < u32_mod
      → Flushed page_size product bus rounddown page_pos c (retval, c')
      → is_negative retval ≡ false
      → Moved (p, c) (record p { retval = retval }, record c' { write_loc = address })
  Moved-flush p c retval c' address f v below flushed k =
      let (programs, empty, same, _) = flushed.1 k in
      let c'' : Cached = record c' { write_loc = address } in
      record {
        bytes = pending page_size c;
        programs = programs;
        splits = ap (λ b. pending page_size c ++ (b ++ rest p)) (pending-none page_size c'' empty);
        total = refl;
        fits = record { enough = f.enough; ends = f.ends; counts = f.counts };
        cached = record { room = omega (arith, same, v.room); fits = below; filled = inl empty };
      }

  pub Moved-trans : (st st' st'' : Pending × Cached) → Moved st st' → Moved st' st'' → Moved st st''
  Moved-trans st st' st'' h k = record {
    bytes = h.bytes ++ k.bytes;
    programs =
        Programs-trans product page_size h.bytes k.bytes st.1.spi.log st'.1.spi.log st''.1.spi.log
          h.programs k.programs;
    splits = append_assoc h.bytes k.bytes (left st'') ∙ ap (λ r. h.bytes ++ r) k.splits ∙ h.splits;
    total = omega (arith, h.total, k.total);
    fits = k.fits;
    cached = k.cached;
  }

  -- No error so far, and then: all data is taken, or the next step can be done.
  abbrev pub Outcome : (Pending × Cached → Type 0) → (st st' : Pending × Cached) → Type 0
  Outcome Q st st' =
      (st'.1.spi.enable_ref ≡ st.1.spi.enable_ref)
      × (is_negative st'.0.retval ≡ false → Moved st st' × ((st'.0.length ≡ 0) ⊎ Q st'))

  -- A step that does this from where the one before it ends.
  abbrev pub Does :
      (Pending × Cached → Type 0)
      → (Pending × Cached → Type 0)
      → (Pending → Cached → Run (Pending × Cached))
      → Type 0
  Does Q Q' step =
      (p : Pending) (c : Cached)
      → Fits page_size p
      → IsCached page_size c
      → is_negative p.retval ≡ false
      → 0 < p.length
      → Q (p, c)
      → (st : Pending × Cached) × (step p c ≡ done st) × Outcome Q' (p, c) st

  pub step_if_left-Outcome :
      (Q Q' : Pending × Cached → Type 0) (step : Pending → Cached → Run (Pending × Cached))
      → Does Q Q' step
      → (st st' : Pending × Cached) → Outcome Q st st'
      → (st'' : Pending × Cached) × (step_if_left product bus page_size rounddown step st'
          ≡ done st'')
        × Outcome Q' st st''
  unfolding step_if_left may_go_on
  step_if_left-Outcome Q Q' step does st (p, c) (keeps, h) =
      elim (Bool-cases (is_negative p.retval)) [
        | inl n ↦ ((p, c), rw n refl, (keeps, λ k. absurd (true_not_false _ n k)))
        | inr n ↦
            let (moved, next) = h n in
            elim next [
              | inl z ↦ ((p, c), rw (n, z) refl, (keeps, λ k. (moved, inl z)))
              | inr q ↦ elim (Bool-cases (ltb 0 p.length)) [
                | inr l ↦
                    let z : p.length ≡ 0 = omega (arith, ltb_false→le _ _ l) in
                    ((p, c), rw (n, l) refl, (keeps, λ k. (moved, inl z)))
                | inl l ↦
                    let (st'', returned, (keeps', h')) =
                      does p c moved.fits moved.cached n (ltb→lt _ _ l) q in
                    (
                      st'',
                      rw (n, l) returned,
                      (
                        keeps' ∙ keeps,
                        λ k.
                            let (moved', next') = h' k in
                            (Moved-trans st (p, c) st'' moved moved', next'),
                      ),
                    )
              ]
            ]
      ]
    where
      true_not_false : (b : Bool) → b ≡ true → b ≡ false → ⊥
      true_not_false b h k = cc
