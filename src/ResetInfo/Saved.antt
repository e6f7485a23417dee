-- ===== src/ResetInfo/Saved.antt =====
-- The fault that src/nlreset_info.c saves over the start of the system, in the build with dedicated
-- RAM.
use nlplatform.Prelude.{
  ℕ, ◌≡◌, refl, ap, ◌∙◌, true, false, inl, inr, Bool-cases, ==_iff, Option, some, List, [], ◌∷◌,
  arith, ◌==◌, pos,
}
use nlplatform.ResetInfo.{
  FaultInfo, ResetInfo, reset_info_magic, reason_unknown, is_valid_fault_reason, strncpy, init,
  prepare_reset, set, get_saved_fault, get_reset_reason,
}
use nlplatform.ResetInfo.Nested.{
  prepare_all, prepare_all-first, prepare_reset-magic, set-fault, recorded, get_saved_fault-valid,
  get_reset_reason-fault,
}

-- The hook leaves the information as it is, as the default one does.
abbrev pub Quiet : (ResetInfo → ResetInfo) → Type 0
Quiet init_done = (s : ResetInfo) → init_done s ≡ s

-- With the magic number, the start of the system only clears it.
init-kept :
    (init_done : ResetInfo → ResetInfo) (s : ResetInfo)
    → Quiet init_done
    → s.magic ≡ reset_info_magic
    → init init_done s ≡ record s { magic = 0 }
unfolding init
init-kept init_done s q h = rw ((==_iff s.magic reset_info_magic).1 h) (q (record s { magic = 0 }))

prepare_reset-fault :
    (size reason : ℕ) (text : List ℕ) (s : ResetInfo)
    → is_valid_fault_reason reason ≡ true
    → (s.magic == reset_info_magic) ≡ false
    → s.fault_info.reason ≡ reason_unknown
    → prepare_reset size reason (some text) s ≡ recorded size reason text s
unfolding prepare_reset
prepare_reset-fault size reason text s h m e =
    rw m (set-fault size reason text false s h (rw e refl))

-- A fault is there after the next start. From a state without a recorded reset and without a saved
-- fault, if `nl_reset_info_prepare_reset` is called for a fault with a description, and for anything
-- after it: the reason is the fault's; and after `nl_reset_info_init`, whose hook leaves the
-- information alone, `nl_reset_info_get_saved_fault` gives that fault, its description as far as it
-- fits, and returns 0.
pub fault-saved :
    (init_done : ResetInfo → ResetInfo) (size reason : ℕ) (text : List ℕ)
    (resets : List (ℕ × Option (List ℕ))) (s : ResetInfo) (saved : FaultInfo)
    → Quiet init_done
    → is_valid_fault_reason reason ≡ true
    → (s.magic == reset_info_magic) ≡ false
    → s.fault_info.reason ≡ reason_unknown
    → let s' = prepare_all size ((reason, some text) ∷ resets) s in
      (get_reset_reason s' ≡ reason)
      × ((get_saved_fault saved (init init_done s')).0
          ≡ (pos 0, record s.fault_info { reason = reason; description = strncpy size text }))
fault-saved init_done size reason text resets s saved q h m e =
    let all : prepare_all size ((reason, some text) ∷ resets) s ≡ recorded size reason text s =
      prepare_all-first size reason (some text) resets s
      ∙ prepare_reset-fault size reason text s h m e in
    (
      ap get_reset_reason all ∙ get_reset_reason-fault (recorded size reason text s) refl h,
      ap (λ u. (get_saved_fault saved (init init_done u)).0) all
          ∙ ap (λ u. (get_saved_fault saved u).0)
              (init-kept init_done (recorded size reason text s) q refl)
          ∙ ap (λ r. r.0)
              (get_saved_fault-valid saved (record (recorded size reason text s) { magic = 0 }) h),
    )

prepare_reset-kept :
    (size reason : ℕ) (text : Option (List ℕ)) (s : ResetInfo)
    → is_valid_fault_reason s.fault_info.reason ≡ true
    → (prepare_reset size reason text s).fault_info ≡ s.fault_info
unfolding prepare_reset set
prepare_reset-kept size reason text s h =
    let saved : (s.fault_info.reason == reason_unknown) ≡ false = ground arith in
    elim (Bool-cases (s.magic == reset_info_magic)) [
      | inl e ↦ rw e refl
      | inr e ↦
          rw (e, saved)
            (elim (Bool-cases (is_valid_fault_reason reason)) [
              | inl v ↦ rw v refl
              | inr v ↦ rw v refl
            ])
    ]

-- One life of the system: it starts, and ends in a reset.
unfoldable pub lives :
    (ResetInfo → ResetInfo) → ℕ → List (ℕ × Option (List ℕ)) → ResetInfo → ResetInfo
lives init_done size [] s = s
lives init_done size ((reason, text) ∷ resets) s =
    lives init_done size resets (prepare_reset size reason text (init init_done s))

-- A saved fault stays until it is cleared: however often the system starts and is reset by
-- `nl_reset_info_prepare_reset`, for whatever reason, `nl_reset_info_get_saved_fault` still gives
-- it. The state at first has the magic number, and the hook leaves the information alone.
pub lives-saved :
    (init_done : ResetInfo → ResetInfo) (size : ℕ) (resets : List (ℕ × Option (List ℕ)))
    (s : ResetInfo) (saved : FaultInfo)
    → Quiet init_done
    → s.magic ≡ reset_info_magic
    → is_valid_fault_reason s.fault_info.reason ≡ true
    → (get_saved_fault saved (lives init_done size resets s)).0 ≡ (pos 0, s.fault_info)
unfolding lives
lives-saved init_done size [] s saved q m h = ap (λ r. r.0) (get_saved_fault-valid saved s h)
lives-saved init_done size ((reason, text) ∷ resets) s saved q m h =
    let started : init init_done s ≡ record s { magic = 0 } = init-kept init_done s q m in
    let s' = prepare_reset size reason text (init init_done s) in
    let kept : s'.fault_info ≡ s.fault_info =
      ap (λ u. (prepare_reset size reason text u).fault_info) started
      ∙ prepare_reset-kept size reason text (record s { magic = 0 }) h in
    lives-saved init_done size resets s' saved q
      (prepare_reset-magic size reason text (init init_done s))
      (ap (λ i. is_valid_fault_reason i.reason) kept ∙ h)
    ∙ ap (λ i. (pos 0, i)) kept
