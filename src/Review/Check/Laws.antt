-- ===== src/Review/Check/Laws.antt =====
-- What `Check.Validate` accepts.
use review.Base.{false, ◌≡◌, ◌≢◌, ◌↔◌, none, arith, []}
use review.Base.Text.{is_blank}
use review.Review.Check.{
  Check, CheckStatus, pending, running, satisfied, violated, unknown, not_applicable, other,
  validate_check,
}

-- A verdict rests on evidence, and the lack of one on a reason.
abbrev pub IsSupported : CheckStatus → Check → Type 0
IsSupported satisfied c = c.evidence_refs ≢ []
IsSupported violated c = c.evidence_refs ≢ []
IsSupported unknown c = is_blank c.status_reason ≡ false
IsSupported not_applicable c = is_blank c.status_reason ≡ false
IsSupported pending c = Unit {0}
IsSupported running c = Unit {0}
IsSupported (other s) c = ⊥

-- A check is accepted exactly if it is identified, says why it applies, and has evidence where it
-- is satisfied or violated and a reason where it is unknown or not applicable.
pub validate_check_iff :
    (c : Check)
    → (validate_check c ≡ none) ↔ (
        (is_blank c.id ≡ false)
        × (is_blank c.method_id ≡ false)
        × (is_blank c.scope ≡ false)
        × (is_blank c.applicability_reason ≡ false)
        × IsSupported c.status c)
unfolding validate_check
validate_check_iff c = (λ h. ground arith, λ h. ground arith)
