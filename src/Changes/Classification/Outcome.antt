-- ===== src/Changes/Classification/Outcome.antt =====
-- What `classify_diff` of src/agentic_security/changes/detection.py proposes, over all its branches.
use Prim.Native.String.{◌++◌ as append}
use agentic_sec_blog_publish.Prelude.{
  String, ◌≡◌, refl, Bool, true, false, not, ◌&&◌, Option, none, some, Option-cases, Bool-cases,
  List, [], ◌∷◌, inl, inr, is_empty, is_some, contains, contains_any, arith, if◌then◌else◌,
}
use agentic_sec_blog_publish.Models.Vocabulary.{
  EvidenceStatusChangeSubtype, architecture, risk, operations, agent_removal, capability_removal,
  not_material, evidence_status_change, evaluation, procurement,
}
use agentic_sec_blog_publish.Models.Changes.{StructuredDiff, is_not_material, is_evidence_status}
use agentic_sec_blog_publish.Changes.Classification.{
  subtype_text, Proposal, proposal, padded, Rule, rules, match_rules, capability_words, lowered,
  classify_text, classify_diff,
}

-- A material classification that is no evidence status change, with an impact.
abbrev pub is_substantive : Proposal → Bool
is_substantive p =
    not (is_not_material p.classification)
    && (not (is_evidence_status p.classification) && not (is_empty p.impacts))

abbrev rule_is_substantive : Rule → Bool
rule_is_substantive r =
    not (is_not_material r.classification)
    && (not (is_evidence_status r.classification) && not (is_empty r.impacts))

abbrev all_substantive : List Rule → Bool
all_substantive [] = true
all_substantive (r ∷ rs) = rule_is_substantive r && all_substantive rs

match_rules_lem :
    (rs : List Rule) (padded : String)
    → all_substantive rs ≡ true
    → is_substantive (match_rules rs padded) ≡ true
unfolding match_rules
match_rules_lem [] padded h = refl
match_rules_lem (r ∷ rs) padded h = ground (arith, match_rules_lem rs padded)

if-substantive :
    (b c : Bool) (p q r : Proposal)
    → is_substantive p ≡ true
    → is_substantive q ≡ true
    → is_substantive r ≡ true
    → is_substantive (if b then p else if c then q else r) ≡ true
if-substantive true c p q r hp hq hr = hp
if-substantive false true p q r hp hq hr = hq
if-substantive false false p q r hp hq hr = hr

abbrev proposed : Bool → Option EvidenceStatusChangeSubtype → Proposal → Proposal
proposed false o p = proposal not_material [] "Filtered deterministic non-material change."
proposed true none p = p
proposed true (some subtype) p =
    proposal evidence_status_change (evaluation ∷ procurement ∷ [])
      (append "Evidence establishment changed: " (append (subtype_text subtype) "."))

classify_diff-proposed :
    (lower : String → String) (diff : StructuredDiff)
    → classify_diff lower diff
      ≡ proposed diff.material_candidate diff.evidence_status_subtype (classify_text lower diff)
unfolding classify_diff
classify_diff-proposed lower diff = elim (Bool-cases diff.material_candidate) [
  | inl h ↦ elim (Option-cases diff.evidence_status_subtype) [
    | inl e ↦ rw (h, e) refl
    | inr (s, e) ↦ rw (h, e) refl
  ]
  | inr h ↦ rw h refl
]

module _ (lower : String → String) where
  classify_text_lem : (diff : StructuredDiff) → is_substantive (classify_text lower diff) ≡ true
  unfolding classify_text
  classify_text_lem diff =
      if-substantive
        (contains (lowered lower diff.removed) "agent"
          && not (contains (lowered lower diff.added) "agent"))
        (contains_any (lowered lower diff.removed) capability_words
          && not (contains_any (lowered lower diff.added) capability_words))
        (proposal agent_removal (architecture ∷ risk ∷ [])
          "Agent terminology was removed without a replacement.")
        (proposal capability_removal (operations ∷ risk ∷ [])
          "Capability language was removed without a replacement.")
        (match_rules rules (padded lower diff)) refl refl
        (match_rules_lem rules (padded lower diff) refl)

  substantive_outcome :
      (b : Bool) (o : Option EvidenceStatusChangeSubtype) (p : Proposal)
      → is_substantive p ≡ true
      → (is_not_material (proposed b o p).classification ≡ not b)
        × (is_empty (proposed b o p).impacts ≡ not b)
        × (is_evidence_status (proposed b o p).classification ≡ (b && is_some o))
  substantive_outcome true none p h = (ground arith, ground arith, ground arith)
  substantive_outcome true (some s) p h = (refl, refl, refl)
  substantive_outcome false o p h = (refl, refl, refl)

  -- Of every diff, the proposal is NOT_MATERIAL exactly when the diff is no material candidate, it
  -- names no decision impact exactly then, and it is EVIDENCE_STATUS_CHANGE exactly when the diff is
  -- a material candidate with an evidence-status subtype.
  pub classify_diff-Outcome :
      (diff : StructuredDiff)
      → (is_not_material (classify_diff lower diff).classification ≡ not diff.material_candidate)
        × (is_empty (classify_diff lower diff).impacts ≡ not diff.material_candidate)
        × (is_evidence_status (classify_diff lower diff).classification
            ≡ (diff.material_candidate && is_some diff.evidence_status_subtype))
  classify_diff-Outcome diff = rw (classify_diff-proposed lower diff) (
      substantive_outcome diff.material_candidate diff.evidence_status_subtype
        (classify_text lower diff) (classify_text_lem diff))
