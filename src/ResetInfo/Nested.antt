-- ===== src/ResetInfo/Nested.antt =====
-- Resets that follow one another before the system has started again, in src/nlreset_info.c.
use nlplatform.Prelude.{
  ℕ, ◌≡◌, refl, ap, ◌∙◌, inl, inr, ◌||◌, not, Bool, Bool-cases, ==_iff, true, false, Option, none,
  some, List, [], ◌∷◌, arith, ◌==◌, pos,
}
use nlplatform.ResetInfo.{
  FaultInfo, ResetInfo, reset_info_magic, reason_unknown, is_valid_fault_reason,
  is_valid_reset_reason, strncpy, set, prepare_reset, prepare_reset_bootloader, get_saved_fault,
  get_reset_reason,
}

-- Calls of `nl_reset_info_prepare_reset`, in order.
unfoldable pub prepare_all : ℕ → List (ℕ × Option (List ℕ)) → ResetInfo → ResetInfo
prepare_all size [] s = s
prepare_all size ((reason, text) ∷ resets) s =
    prepare_all size resets (prepare_reset size reason text s)

prepare_reset-done :
    (size reason : ℕ) (text : Option (List ℕ)) (s : ResetInfo)
    → s.magic ≡ reset_info_magic
    → prepare_reset size reason text s ≡ s
unfolding prepare_reset
prepare_reset-done size reason text s h = rw ((==_iff s.magic reset_info_magic).1 h) refl

pub set-magic :
    (size reason : ℕ) (text : Option (List ℕ)) (override : Bool) (s : ResetInfo)
    → (set size reason text override s).magic ≡ reset_info_magic
unfolding set
set-magic size reason text override s = ground arith

pub prepare_reset-magic :
    (size reason : ℕ) (text : Option (List ℕ)) (s : ResetInfo)
    → (prepare_reset size reason text s).magic ≡ reset_info_magic
unfolding prepare_reset
prepare_reset-magic size reason text s = elim (Bool-cases (s.magic == reset_info_magic)) [
  | inl e ↦ rw e ((==_iff s.magic reset_info_magic).0 e)
  | inr e ↦ rw e (set-magic size reason text false s)
]

prepare_all-done :
    (size : ℕ) (resets : List (ℕ × Option (List ℕ))) (s : ResetInfo)
    → s.magic ≡ reset_info_magic
    → prepare_all size resets s ≡ s
unfolding prepare_all
prepare_all-done size [] s h = refl
prepare_all-done size ((reason, text) ∷ resets) s h =
    ap (prepare_all size resets) (prepare_reset-done size reason text s h)
    ∙ prepare_all-done size resets s h

-- The first reset counts: whatever calls of `nl_reset_info_prepare_reset` come after it, before the
-- system starts again, change nothing.
pub prepare_all-first :
    (size reason : ℕ) (text : Option (List ℕ)) (resets : List (ℕ × Option (List ℕ))) (s : ResetInfo)
    → prepare_all size ((reason, text) ∷ resets) s ≡ prepare_reset size reason text s
unfolding prepare_all
prepare_all-first size reason text resets s =
    prepare_all-done size resets (prepare_reset size reason text s)
      (prepare_reset-magic size reason text s)

-- The state with the fault recorded.
abbrev pub recorded : ℕ → ℕ → List ℕ → ResetInfo → ResetInfo
recorded size reason text s = record {
  magic = reset_info_magic;
  reset_reason = reason;
  fault_info = record s.fault_info { reason = reason; description = strncpy size text };
}

-- A fault that is set over what was saved, or when nothing was.
pub set-fault :
    (size reason : ℕ) (text : List ℕ) (override : Bool) (s : ResetInfo)
    → is_valid_fault_reason reason ≡ true
    → ((s.fault_info.reason == reason_unknown) || override) ≡ true
    → set size reason (some text) override s ≡ recorded size reason text s
unfolding set
set-fault size reason text override s h k = rw (h, k) refl

any : (b : Bool) → (b || true) ≡ true
any true = refl
any false = refl

pub get_saved_fault-valid :
    (saved : FaultInfo) (s : ResetInfo)
    → is_valid_fault_reason s.fault_info.reason ≡ true
    → get_saved_fault saved s ≡ ((pos 0, s.fault_info), s)
unfolding get_saved_fault
get_saved_fault-valid saved s h = rw (h, h) refl

pub get_reset_reason-fault :
    (s : ResetInfo)
    → s.magic ≡ reset_info_magic
    → is_valid_fault_reason s.reset_reason ≡ true
    → get_reset_reason s ≡ s.reset_reason
unfolding get_reset_reason
get_reset_reason-fault s m h =
    rw ((==_iff s.magic reset_info_magic).1 m, h, any (is_valid_reset_reason s.reset_reason)) refl

-- The description that is saved over an old one.
abbrev pub described : ℕ → Option (List ℕ) → List ℕ → List ℕ
described size none old = old
described size (some text) old = strncpy size text

-- A fault in the bootloader is recorded whatever was recorded before: its reason is the reset's and
-- the saved fault's, and a description that is given is the saved one, as far as it fits. Without one
-- the description stays what it was. The metadata stay.
pub bootloader-saved :
    (size reason : ℕ) (text : Option (List ℕ)) (s : ResetInfo) (saved : FaultInfo)
    → is_valid_fault_reason reason ≡ true
    → let s' = prepare_reset_bootloader size reason text s in
      (get_reset_reason s' ≡ reason)
      × (get_saved_fault saved s' ≡ (
        (
          pos 0,
          record s.fault_info {
            reason = reason;
            description = described size text s.fault_info.description;
          },
        ),
        s',
      ))
unfolding prepare_reset_bootloader set
bootloader-saved size reason none s saved h =
    rw (h, any (not (s.magic == reset_info_magic)), any (s.fault_info.reason == reason_unknown))
      (get_reset_reason-fault _ refl h, get_saved_fault-valid saved _ h)
bootloader-saved size reason (some text) s saved h =
    rw (h, any (not (s.magic == reset_info_magic)), any (s.fault_info.reason == reason_unknown))
      (
        get_reset_reason-fault (recorded size reason text s) refl h,
        get_saved_fault-valid saved (recorded size reason text s) h,
      )
