-- ===== src/Changes/Detection/Filters.antt =====
-- What `detect_change` of src/agentic_security/changes/detection.py reports.
use agentic_sec_blog_publish.Prelude.{
  String, ◌≡◌, refl, ◌∙◌, Bool, not, ◌&&◌, ◌||◌, ◌==◌, Bool-cases, List, [], inl, inr, is_empty,
  select, is_member, is_member-select, is_member-distinct_from, without_repeats, any-order_by,
  text_leb, ap, Result, ok, arith,
}
use agentic_sec_blog_publish.Models.Sources.{Snapshot}
use agentic_sec_blog_publish.Models.Changes.{StructuredDiff}
use agentic_sec_blog_publish.Changes.Detection.{
  Python, DetectionError, meaningful_lines, difference, compare_texts, detect_change,
}

is_member-difference :
    (py : Python) (line : String) (xs others : List String)
    → is_member line (difference py xs others) ≡ (is_member line xs && not (is_member line others))
is_member-difference py line xs others =
    any-order_by text_leb (λ l. l == line)
      (select (λ l. not (is_member l others)) (without_repeats xs))
    ∙ is_member-select line others (without_repeats xs)
    ∙ ap (λ b. b && not (is_member line others)) (is_member-distinct_from line [] xs)

-- When `detect_change` gives a diff, a line is among its added lines exactly when it is a
-- meaningful line of the new snapshot and none of the old one, and among its removed lines the
-- other way round; and the diff is a material candidate exactly when it adds or removes a line and
-- is neither cosmetic nor a paraphrase nor derivative.
pub detect_change-IsDifference :
    (py : Python) (old new : Snapshot) (diff_id : String) (derivative_only : Bool)
    (diff : StructuredDiff)
    → detect_change py old new diff_id derivative_only ≡ ok diff
    → ((line : String)
        → (is_member line diff.added ≡ (
            is_member line (meaningful_lines py new.normalized_text)
            && not (is_member line (meaningful_lines py old.normalized_text))))
          × (is_member line diff.removed ≡ (
              is_member line (meaningful_lines py old.normalized_text)
              && not (is_member line (meaningful_lines py new.normalized_text)))))
      × (diff.material_candidate ≡ (
          not (is_empty diff.added && is_empty diff.removed)
          && not (diff.cosmetic_only || (diff.paraphrase_only || derivative_only))))
unfolding detect_change compare_texts
detect_change-IsDifference py old new diff_id d diff h =
    elim (Bool-cases (old.source_id == new.source_id)) [
      | inl e ↦ rw (← ok_inj refl (rw e at h)) (
        (λ line. (
          is_member-difference py line (meaningful_lines py new.normalized_text)
              (meaningful_lines py old.normalized_text),
          is_member-difference py line (meaningful_lines py old.normalized_text)
              (meaningful_lines py new.normalized_text),
        )),
        ground arith,
      )
      | inr e ↦ absurd (ground arith)
    ]
  where
    ok_inj :
        {a b : StructuredDiff} {r : Result DetectionError StructuredDiff}
        → r ≡ ok a
        → r ≡ ok b
        → a ≡ b
    ok_inj k l = cc
