-- ===== src/Evidence/Anchors.antt =====
-- What an accepted anchor says of the snapshot.
use agentic_sec_blog_publish.Prelude.{
  ◌-◌, ◌≤◌, ◌<◌, ◌≡◌, subst, refl, sym, ap, inl, inr, ◌↔◌, String, true, false, eq_iff, eq_refl,
  Option, none, some, List, Option-cases, any, every, text_slice, text_length,
  text_length-text_slice, ok, arith,
}
use agentic_sec_blog_publish.Models.Sources.{Snapshot}
use agentic_sec_blog_publish.Models.Evidence.{Evidence, EvidenceAnchor, validate_shape, git_fields}
use agentic_sec_blog_publish.Evidence.{
  content_sha256, line_quote, same_option, validate_git, validate_evidence_anchor,
}

same_option-eq : (a b : Option String) → same_option a b ≡ true → a ≡ b
same_option-eq none none h = refl
same_option-eq none (some b) h = absurd (ground arith)
same_option-eq (some a) none h = absurd (ground arith)
same_option-eq (some a) (some b) h = ap (λ t. some t) (ground (arith, eq_iff a b))

module _ (hexdigest : String → String) (splitlines : String → List String) where
  -- The git provenance is absent from both, or the same in both, with the quote on the lines.
  pub data GitResolves (anchor : EvidenceAnchor) (snapshot : Snapshot) : Type 0 where
    without_repository :
        snapshot.repository ≡ none
        → any (λ b. b) (git_fields anchor) ≡ false
        → GitResolves anchor snapshot
    in_repository :
        (repository : String)
        → snapshot.repository ≡ some repository
        → every (λ b. b) (git_fields anchor) ≡ true
        → anchor.repository ≡ snapshot.repository
        → anchor.commit_sha ≡ snapshot.commit_sha
        → anchor.file_path ≡ snapshot.file_path
        → line_quote (splitlines snapshot.normalized_text) anchor.line_start anchor.line_end
          ≡ anchor.quote
        → GitResolves anchor snapshot

  pub record Resolves (anchor : EvidenceAnchor) (snapshot : Snapshot) : Type 0 where
    pub names_snapshot : anchor.snapshot_id ≡ snapshot.id
    pub snapshot_hash : snapshot.sha256 ≡ hexdigest snapshot.normalized_text
    pub anchor_hash : anchor.snapshot_sha256 ≡ hexdigest snapshot.normalized_text
    pub normalizer : anchor.normalizer_version ≡ snapshot.normalizer_version
    pub in_bounds : anchor.end_offset ≤ text_length snapshot.normalized_text
    pub resolves :
        text_slice anchor.start_offset anchor.end_offset snapshot.normalized_text ≡ anchor.quote
    pub git : GitResolves anchor snapshot

  validate_git-GitResolves :
      (anchor : EvidenceAnchor) (snapshot : Snapshot)
      → validate_git hexdigest splitlines anchor snapshot snapshot.repository ≡ ok tt
      → GitResolves anchor snapshot
  unfolding validate_git
  validate_git-GitResolves anchor snapshot h = elim (Option-cases snapshot.repository) [
    | inl e ↦ without_repository e (let k = rw e at h in ground (arith))
    | inr (repository, e) ↦
        let k = rw e at h in
        in_repository repository e (ground arith)
          (same_option-eq anchor.repository snapshot.repository (ground arith))
          (same_option-eq anchor.commit_sha snapshot.commit_sha (ground arith))
          (same_option-eq anchor.file_path snapshot.file_path (ground arith))
          (ground (
            arith,
            eq_iff
                (line_quote (splitlines snapshot.normalized_text) anchor.line_start anchor.line_end)
                anchor.quote,
          ))
  ]

  pub validate_evidence_anchor-Resolves :
      (evidence : Evidence) (snapshot : Snapshot)
      → validate_evidence_anchor hexdigest splitlines evidence snapshot ≡ ok tt
      → Resolves evidence.anchor snapshot
  unfolding validate_evidence_anchor content_sha256
  validate_evidence_anchor-Resolves evidence snapshot h =
      let quote =
        text_slice evidence.anchor.start_offset evidence.anchor.end_offset
          snapshot.normalized_text in
      record {
        names_snapshot = ground (arith, eq_iff evidence.anchor.snapshot_id snapshot.id);
        snapshot_hash = ground (arith, eq_iff snapshot.sha256 (hexdigest snapshot.normalized_text));
        anchor_hash =
            ground
              (arith, eq_iff evidence.anchor.snapshot_sha256 (hexdigest snapshot.normalized_text));
        normalizer =
            ground (arith, eq_iff evidence.anchor.normalizer_version snapshot.normalizer_version);
        in_bounds = ground arith;
        resolves = ground (arith, eq_iff quote evidence.anchor.quote);
        git = validate_git-GitResolves evidence.anchor snapshot (ground arith);
      }

  same_option_refl : (a : Option String) → same_option a a ≡ true
  same_option_refl none = refl
  same_option_refl (some a) = ground (arith, eq_refl a)

  same_option_iff : (a b : Option String) → (same_option a b ≡ true) ↔ (a ≡ b)
  same_option_iff a b =
      (same_option-eq a b, λ e. subst (λ c. same_option a c ≡ true) e (same_option_refl a))

  GitResolves-ok :
      (anchor : EvidenceAnchor) (snapshot : Snapshot)
      → GitResolves anchor snapshot
      → validate_git hexdigest splitlines anchor snapshot snapshot.repository ≡ ok tt
  unfolding validate_git
  GitResolves-ok anchor snapshot (without_repository e k) = rw e (ground arith)
  GitResolves-ok anchor snapshot (in_repository repository e k r c f q) =
      let line =
        line_quote (splitlines snapshot.normalized_text) anchor.line_start anchor.line_end in
      let step : validate_git hexdigest splitlines anchor snapshot (some repository) ≡ ok tt =
        ground (
          arith,
          same_option_iff anchor.repository snapshot.repository,
          same_option_iff anchor.commit_sha snapshot.commit_sha,
          same_option_iff anchor.file_path snapshot.file_path,
          eq_iff line anchor.quote,
        ) in
      subst (λ r. validate_git hexdigest splitlines anchor snapshot r ≡ ok tt) (sym e) step

  -- Evidence passes the check against a snapshot exactly when its anchor names that snapshot, both
  -- hashes are the digest of the snapshot's text, the normalizer versions agree, the offsets lie within
  -- the text and cut the quote out of it, and the git provenance is absent from both, or complete in
  -- the anchor, the same in both, and its lines join to the quote.
  pub validate_evidence_anchor_iff :
      (evidence : Evidence) (snapshot : Snapshot)
      → (validate_evidence_anchor hexdigest splitlines evidence snapshot ≡ ok tt)
        ↔ Resolves evidence.anchor snapshot
  unfolding validate_evidence_anchor content_sha256
  validate_evidence_anchor_iff evidence snapshot =
      let a = evidence.anchor in
      let hash = hexdigest snapshot.normalized_text in
      let quote = text_slice a.start_offset a.end_offset snapshot.normalized_text in
      (
        validate_evidence_anchor-Resolves evidence snapshot,
        λ r.
            let git = GitResolves-ok a snapshot r.git in
            ground (
              arith,
              eq_iff a.snapshot_id snapshot.id,
              eq_iff snapshot.sha256 hash,
              eq_iff a.snapshot_sha256 hash,
              eq_iff a.normalizer_version snapshot.normalizer_version,
              eq_iff quote a.quote,
              r.names_snapshot,
              r.snapshot_hash,
              r.anchor_hash,
              r.normalizer,
              r.in_bounds,
              r.resolves,
            ),
      )

  -- An anchor that is well formed and passes the check has a quote of as many characters as lie between
  -- its offsets, at least one.
  pub Resolves-quote_length :
      (evidence : Evidence) (snapshot : Snapshot)
      → validate_evidence_anchor hexdigest splitlines evidence snapshot ≡ ok tt
      → validate_shape evidence.anchor ≡ ok evidence.anchor
      → (text_length evidence.anchor.quote
          ≡ evidence.anchor.end_offset - evidence.anchor.start_offset)
        × (1 ≤ text_length evidence.anchor.quote)
  unfolding validate_shape
  Resolves-quote_length evidence snapshot h shape =
      let r = validate_evidence_anchor-Resolves evidence snapshot h in
      let a = evidence.anchor in
      let n : text_length a.quote ≡ a.end_offset - a.start_offset =
        rw (← r.resolves) (
          text_length-text_slice a.start_offset a.end_offset snapshot.normalized_text
            r.in_bounds) in
      let positive : a.start_offset < a.end_offset = ground arith in (n, omega arith)
