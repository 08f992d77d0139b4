-- ===== src/Parts/OrgSwitcher/Creating.antt =====
-- When the dialog lets its user create an organization.
use chis.Base.{
  String, ◌≡◌, refl, not, Option, none, some, [], ◌∷◌, arith, ◌&&◌, is_some, if◌then◌else◌,
  Bool-cases, inl, inr,
}
use chis.View.{clicks, clicks-append}
use chis.Parts.OrgSwitcher.{SwitcherState, submit, handle_create, dialog, error_line}

clicks-error_line : (e : Option String) → clicks (error_line e) ≡ []
unfolding error_line
clicks-error_line none = refl
clicks-error_line (some e) = ground arith

-- The dialog offers to create an organization exactly when it is open, no creation is under way, and
-- `handleCreate` would call the server.
pub clicks-dialog :
    (s : SwitcherState)
    → clicks (dialog s) ≡ (
        if s.dialog_open && (not s.is_creating && is_some (handle_create s).1)
        then submit ∷ []
        else [])
unfolding dialog handle_create
clicks-dialog s = elim (Bool-cases s.dialog_open) [
  | inl e ↦ rw e (simp (clicks-append, clicks-error_line) (ground arith))
  | inr e ↦ rw e refl
]
