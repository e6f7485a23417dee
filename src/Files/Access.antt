-- ===== src/Files/Access.antt =====
-- Seeking in a file of src/nlfs.c and reading it piece by piece.
use nlplatform.Prelude.{
  ℕ, ◌+◌, ◌-◌, ◌%◌, ◌≤◌, ◌<◌, ◌≡◌, refl, sym, ap, ◌∙◌, subst, ◌⊎◌, inl, inr, true, false, List,
  ◌++◌, arith, leb, leb→le, leb_false→lt, Bool-cases, min, take, drop, length, u32_mod, drop-drop,
  take_add, done, pos, neg,
}
use nlplatform.Flash.{FlashCtx}
use nlplatform.Flash.Storage.{Storage}
use nlplatform.Files.{
  File, Product, Transfer, Origin, beginning, current, read_only, seek, target, read_cb,
}
use nlplatform.Files.Contents.{content, moved, Placed, read_cb-content}

-- The place in the file that an offset stands for, by its origin.
abbrev pub place : File → ℕ → Origin → ℕ
place file offset beginning = offset
place file offset current = (file.current_pos + offset) % u32_mod

module _ {World : Type 0} (product : Product World) (ctxs : ℕ → FlashCtx) where
  -- `nlfs_seek` of such a file moves to the target, modulo 2 ^ 32
  -- from the position if that is the origin, when it is inside the file; otherwise it refuses and
  -- leaves the position.
  pub seek_lem :
      (file : File) (offset : ℕ) (origin : Origin)
      → file.is_open ≡ true
      → file.mode ≡ read_only
      → file.is_fat ≡ false
      → ((target file offset origin < file.len)
          × (seek product ctxs file offset origin
              ≡ (pos 0, record file { current_pos = target file offset origin })))
        ⊎ ((file.len ≤ target file offset origin)
            × (seek product ctxs file offset origin ≡ (neg product.einval, file)))
  unfolding seek
  seek_lem file offset origin is_open mode fat =
      elim (Bool-cases (leb file.len (target file offset origin))) [
        | inl e ↦ inr (leb→le _ _ e, rw (is_open, mode, fat, e) refl)
        | inr e ↦ inl (leb_false→lt _ _ e, rw (is_open, mode, fat, e) refl)
      ]

two_slices :
    (file : File) (m n : ℕ) (xs : List ℕ)
    → file.current_pos ≤ file.len
    → let file' = record file { current_pos = file.current_pos + moved file m } in
      take (moved file (m + n)) (drop file.current_pos xs)
      ≡ take (moved file m) (drop file.current_pos xs)
        ++ take (moved file' n) (drop file'.current_pos xs)
two_slices file m n xs h =
    let k = moved file m in
    let j = min n (file.len - (file.current_pos + k)) in
    let all : min (m + n) (file.len - file.current_pos) ≡ k + j = omega (arith, h) in
    ap (λ i. take i (drop file.current_pos xs)) all
    ∙ take_add k j (drop file.current_pos xs)
    ∙ ap (λ ys. take k (drop file.current_pos xs) ++ take j ys) (drop-drop k file.current_pos xs)

module _ {World : Type 0} (product : Product World) (ctxs : ℕ → FlashCtx) (memory : World → List ℕ)
    (file : File) (storage : Storage product.hw ctxs file.chip_id memory) where
  -- The seek is refused, or `at` is a place in the file and the read goes on from there.
  abbrev pub Sought :
      (buf : List ℕ) (bytes callback : ℕ) (w : World) (offset : ℕ) (origin : Origin) (at : ℕ)
      → Type 0
  Sought buf bytes callback w offset origin at =
      let sought = seek product ctxs file offset origin in
      ((file.len ≤ at) × (sought ≡ (neg product.einval, file)))
      ⊎ ((at < file.len)
          × (sought.0 ≡ pos 0)
          × ((w' : World) × (read_cb product ctxs sought.1 buf bytes callback w
                ≡ done (record {
                  count = min bytes (file.len - at);
                  buf = take (min bytes (file.len - at)) (drop at (content file (memory w)));
                  file = record file { current_pos = at + min bytes (file.len - at) };
                  world = w';
                }))))

  at_target :
      (offset : ℕ) (origin : Origin) (buf : List ℕ) (bytes callback : ℕ) (w : World)
      → Placed file (memory w)
      → file.is_open ≡ true
      → file.mode ≡ read_only
      → file.is_fat ≡ false
      → target file offset origin + bytes < u32_mod
      → Sought buf bytes callback w offset origin (target file offset origin)
  at_target offset origin buf bytes callback w p is_open mode fat small =
      elim (seek_lem product ctxs file offset origin is_open mode fat) [
        | inr (past, refused) ↦ inl (past, refused)
        | inl (inside, moves) ↦
            let sought = record file { current_pos = target file offset origin } in
            let (w', did, same) =
              read_cb-content product ctxs memory sought storage buf bytes callback w
                (record {
                  pos_in = omega (arith, inside);
                  in_memory = p.in_memory;
                  addressable = p.addressable;
                })
                is_open mode fat small in
            inr (inside, ap (λ r. r.0) moves, (w', rw moves did))
      ]

  -- On a working device, of an open file for reading that is no FAT file and lies in the memory:
  -- `nlfs_seek` to a place behind the file is refused and leaves the file; to any other it succeeds,
  -- and `nlfs_read_cb` then gives the file's bytes from that place on, as many as were asked for or
  -- as are left, and the position is behind them. A place counted from the position is taken modulo
  -- 2 ^ 32, and the place and the bytes asked for make no more than 32 bits.
  pub seek-read_cb :
      (offset : ℕ) (origin : Origin) (buf : List ℕ) (bytes callback : ℕ) (w : World)
      → Placed file (memory w)
      → file.is_open ≡ true
      → file.mode ≡ read_only
      → file.is_fat ≡ false
      → place file offset origin + bytes < u32_mod
      → Sought buf bytes callback w offset origin (place file offset origin)
  unfolding target
  seek-read_cb offset beginning buf bytes callback w p is_open mode fat small =
      at_target offset beginning buf bytes callback w p is_open mode fat small
  seek-read_cb offset current buf bytes callback w p is_open mode fat small =
      at_target offset current buf bytes callback w p is_open mode fat small

  -- On a working device, of an open file for reading that is no FAT file and lies in the memory with
  -- its position inside: two calls of `nlfs_read_cb` one after the other return and give together
  -- the bytes, the count and the file that one call for the sum gives. The position and the bytes
  -- make no more than 32 bits.
  pub read_cb-read_cb :
      (buf buf' : List ℕ) (m n callback : ℕ) (w : World)
      → Placed file (memory w)
      → file.is_open ≡ true
      → file.mode ≡ read_only
      → file.is_fat ≡ false
      → file.current_pos + m + n < u32_mod
      → (t u v : Transfer World) × (read_cb product ctxs file buf m callback w ≡ done t)
        × (read_cb product ctxs t.file buf' n callback t.world ≡ done u)
        × (read_cb product ctxs file buf (m + n) callback w ≡ done v)
        × (v.buf ≡ t.buf ++ u.buf)
        × (v.file ≡ u.file)
        × (v.count ≡ t.count + u.count)
  read_cb-read_cb buf buf' m n callback w p is_open mode fat small =
      let (w1, did, same) =
        read_cb-content product ctxs memory file storage buf m callback w p is_open mode fat
          (omega (arith, small)) in
      let file1 = record file { current_pos = file.current_pos + moved file m } in
      let (w2, did', same') =
        read_cb-content product ctxs memory file1 storage buf' n callback w1
          (record {
            pos_in = omega (arith, p.pos_in);
            in_memory = subst (λ b. file.offset + file.len ≤ length b) (sym same) p.in_memory;
            addressable = subst (λ b. length b < u32_mod) (sym same) p.addressable;
          })
          is_open mode fat (omega (arith, small)) in
      let (w3, did'', same'') =
        read_cb-content product ctxs memory file storage buf (m + n) callback w p is_open mode fat
          (omega (arith, small)) in
      (
        _,
        _,
        _,
        did,
        did',
        did'',
        two_slices file m n (content file (memory w)) p.pos_in
            ∙ ap
                (λ b.
                  take (moved file m) (drop file.current_pos (content file (memory w)))
                  ++ take (moved file1 n) (drop file1.current_pos (content file b)))
                (sym same),
        ap (λ k. record file { current_pos = k }) (omega (arith, p.pos_in)),
        omega (arith, p.pos_in),
      )
