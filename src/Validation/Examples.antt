-- ===== src/Validation/Examples.antt =====
-- Runs of the wording of validation errors.
use integr8s_code.Base.{refl, ◌≡◌, [], ◌∷◌, codes, pos, decimal_text}
use integr8s_code.Formatters.{field_title, title_unit, to_lower}
use integr8s_code.Validation.{Issue, too_small, Report, key, first_issue}

abbrev short : Issue
short = too_small (codes "string") (pos 8)

abbrev short_report : Report
short_report = record {
  raised = short;
  path = key (codes "new_password") ∷ [];
  message = codes "Too small";
}

short_report-message :
    first_issue (short_report ∷ []) ≡ codes "New Password must be at least 8 characters"
unfolding first_issue decimal_text field_title title_unit to_lower
short_report-message = refl
