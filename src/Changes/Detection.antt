-- ===== src/Changes/Detection.antt =====
-- `detect_change` and `_evidence_status_subtype` of src/agentic_security/changes/detection.py. What
-- they use of Python's texts, regular expressions, difflib and hashlib is the argument `py`.
pub mod Filters
use Prim.Native.String.{◌++◌ as append}
use agentic_sec_blog_publish.Prelude.{
  String, Bool, true, false, not, ◌&&◌, ◌||◌, ◌==◌, Option, none, some, List, [], ◌∷◌, ◌++◌,
  if◌then◌else◌, is_empty, select, contains_any, join, is_member, without_repeats, order_by,
  text_leb, Result, ok, err, ◌>>=◌, ◌>>◌, raise_if,
}
use agentic_sec_blog_publish.Models.Vocabulary.{
  EvidenceStatusChangeSubtype, independent_validation_added, evidence_maturity_changed,
  evidence_contradiction_added,
}
use agentic_sec_blog_publish.Models.Sources.{Snapshot}
use agentic_sec_blog_publish.Models.Changes.{StructuredDiff}

pub record Python : Type 0 where
  pub lower : String → String
  pub strip : String → String
  pub splitlines : String → List String
  pub replace : String → (old new : String) → String
  -- `_COSMETIC.match(line)`
  pub is_cosmetic : String → Bool
  -- `_TRACKING.sub("", value)`
  pub drop_tracking : String → String
  -- `re.sub(r"\b(the|a|an|…)\b", " ", value)`
  pub drop_small_words : String → String
  -- `re.findall(r"[a-z0-9]+", value)`
  pub words : String → List String
  -- `SequenceMatcher(None, a, b).ratio() >= 0.9`
  pub is_similar : String → String → Bool
  -- `hashlib.sha256(text.encode()).hexdigest()`
  pub sha256 : String → String
  -- `_INDEPENDENT_VALIDATION.search(text)` and `_NEGATED_INDEPENDENT_VALIDATION.search(text)`
  pub finds_validation : String → Bool
  pub finds_negated_validation : String → Bool

abbrev pub synonyms : List (String × String)
synonyms =
    ("performs", "perform")
    ∷ ("performed", "perform")
    ∷ ("triages", "triage")
    ∷ ("triaged", "triage")
    ∷ ("investigates", "investigate")
    ∷ ("automatically", "autonomous")
    ∷ ("generally available", "ga")
    ∷ ("general availability", "ga")
    ∷ ("human approval", "approval")
    ∷ ("requires approval", "approval")
    ∷ []

abbrev pub contradiction_terms : List String
contradiction_terms = "contradicting evidence" ∷ "contradiction added" ∷ "evidence conflict" ∷ []

abbrev pub maturity_terms : List String
maturity_terms =
    "evidence maturity" ∷ "maturity changed" ∷ "reproducibly evaluated" ∷ " e2 " ∷ " e3 " ∷ " e4 "
    ∷ " e5 " ∷ []

pub data DetectionError : Type 0 where
  different_source : DetectionError

module _ (py : Python) where
  pub replace_all : List (String × String) → String → String
  replace_all [] value = value
  replace_all ((phrase, replacement) ∷ rest) value =
      replace_all rest (py.replace value phrase replacement)

  -- `_semantic`
  unfoldable pub semantic : String → String
  unfolding replace_all
  semantic text = join " " (
      order_by text_leb
        (py.words (py.drop_small_words (py.drop_tracking (replace_all synonyms (py.lower text))))))

  keep_lines : List String → List String
  keep_lines [] = []
  keep_lines (line ∷ lines) =
      let rest = keep_lines lines in
      if not (py.strip line == "") && not (py.is_cosmetic line) then py.strip line ∷ rest else rest

  -- `_meaningful_lines`
  unfoldable pub meaningful_lines : String → List String
  unfolding keep_lines
  meaningful_lines text = keep_lines (py.splitlines text)

  -- `_evidence_status_subtype`
  unfoldable pub evidence_status_subtype :
      List String → List String → Option EvidenceStatusChangeSubtype
  evidence_status_subtype added removed =
      let added_text = py.lower (join " " added) in
      let all_text = append added_text (append " " (py.lower (join " " removed))) in
      if contains_any added_text contradiction_terms
      then some evidence_contradiction_added
      else if py.finds_validation added_text && not (py.finds_negated_validation added_text)
      then some independent_validation_added
      else if contains_any all_text maturity_terms
      then some evidence_maturity_changed
      else none

  -- `tuple(sorted(set(lines) - set(others)))`
  abbrev pub difference : List String → List String → List String
  difference lines others =
      order_by text_leb (select (λ line. not (is_member line others)) (without_repeats lines))

  -- The flags and the subtype, from the two normalized texts.
  pub record Comparison : Type 0 where
    pub added : List String
    pub removed : List String
    pub cosmetic_only : Bool
    pub paraphrase_only : Bool
    pub material : Bool

  unfoldable pub compare_texts : (old new : String) → (derivative_only : Bool) → Comparison
  unfolding meaningful_lines semantic
  compare_texts old new derivative_only =
      let old_lines = meaningful_lines old in
      let new_lines = meaningful_lines new in
      let added = difference new_lines old_lines in
      let removed = difference old_lines new_lines in
      let changed = not (is_empty added) || not (is_empty removed) in
      let cosmetic = old == new || not changed in
      let old_semantic = semantic (join "\n" old_lines) in
      let new_semantic = semantic (join "\n" new_lines) in
      let paraphrase =
        not cosmetic && (old_semantic == new_semantic || py.is_similar old_semantic new_semantic) in
      record {
        added = added;
        removed = removed;
        cosmetic_only = cosmetic;
        paraphrase_only = paraphrase;
        material = changed && not (cosmetic || (paraphrase || derivative_only));
      }

  unfoldable pub detect_change :
      (old new : Snapshot) (diff_id : String) (derivative_only : Bool)
      → Result DetectionError StructuredDiff
  unfolding compare_texts evidence_status_subtype
  detect_change old new diff_id derivative_only = do
    raise_if (not (old.source_id == new.source_id)) different_source
    let c = compare_texts old.normalized_text new.normalized_text derivative_only
    ok (record {
      id = diff_id;
      source_id = old.source_id;
      old_snapshot_id = old.id;
      new_snapshot_id = new.id;
      added = c.added;
      removed = c.removed;
      cosmetic_only = c.cosmetic_only;
      paraphrase_only = c.paraphrase_only;
      derivative_only = derivative_only;
      material_candidate = c.material;
      evidence_status_subtype =
          if c.material then evidence_status_subtype c.added c.removed else none;
      fingerprint =
          py.sha256 (join "\n" (old.sha256 ∷ new.sha256 ∷ (c.removed ++ ("--" ∷ []) ++ c.added)));
    })
