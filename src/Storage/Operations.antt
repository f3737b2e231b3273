-- ===== src/Storage/Operations.antt =====
-- Each operation of the repositories keeps the ledger sound.
use agentic_sec_blog_publish.Prelude.{
  ◌≡◌, ◌∙◌, if◌then◌else◌, refl, subst, ap, inl, inr, String, Bool, true, false, ◌==◌, eq_iff,
  Option, none, some, [], ◌∷◌, ◌++◌, append-nil, any, find, select, update_where, find-Memᴰ,
  select-append, Bool-cases, Option-cases, is_some, ok, arith,
}
use agentic_sec_blog_publish.Models.Sources.{Source, Snapshot}
use agentic_sec_blog_publish.Models.Evidence.{Evidence}
use agentic_sec_blog_publish.Models.Assertions.{LifecycleEvent}
use agentic_sec_blog_publish.Lifecycle.{
  entity_type, entity_id, both_or_neither, text_or, validate_transition,
}
use agentic_sec_blog_publish.Lifecycle.Chain.{IsChain-snoc}
use agentic_sec_blog_publish.Storage.{
  Library, Ledger, source_has, snapshot_has, check_evidence, entity_column, is_value, add_source,
  sync, add_snapshot, add_evidence, of_entity, history, append_lifecycle,
}
use agentic_sec_blog_publish.Storage.Sound.{
  IsSound, check_evidence-Sound, with_snapshot, with_evidence, with_sources,
}

module _ (lib : Library) where
  -- Of one entity's kind, the history is the same whatever the kind is called.
  history-kind :
      (type kind id : String) (l : Ledger)
      → (type == "system") ≡ (kind == "system")
      → history type id l ≡ history kind id l
  unfolding history
  history-kind type kind id l h =
      ap (λ b. select (λ x. is_value id (entity_column b x)) l.lifecycle_events) h

  own_kind :
      (system agent : Option String) (b : Bool) (id : String)
      → both_or_neither system agent ≡ false
      → is_value id (if b then system else agent) ≡ true
      → ((if is_some system then "system" else "agent") == "system") ≡ b
  own_kind none none b id h k = absurd (ground arith)
  own_kind (some s) (some a) b id h k = absurd (ground arith)
  own_kind (some s) none true id h k = refl
  own_kind (some s) none false id h k = absurd (ground arith)
  own_kind none (some a) true id h k = absurd (ground arith)
  own_kind none (some a) false id h k = refl

  own_text :
      (system agent : Option String) (b : Bool) (id : String)
      → both_or_neither system agent ≡ false
      → is_value id (if b then system else agent) ≡ true
      → text_or system (text_or agent "") ≡ id
  own_text none none b id h k = absurd (ground arith)
  own_text (some s) (some a) b id h k = absurd (ground arith)
  own_text (some s) none true id h k = ground (arith, eq_iff s id, eq_iff s "")
  own_text (some s) none false id h k = absurd (ground arith)
  own_text none (some a) true id h k = absurd (ground arith)
  own_text none (some a) false id h k = ground (arith, eq_iff a id, eq_iff a "")

  -- An event belongs to one history, its own.
  own_history :
      (type id : String) (e : LifecycleEvent) (l : Ledger)
      → both_or_neither e.system_id e.agent_id ≡ false
      → of_entity type id e ≡ true
      → history (entity_type e) (entity_id e) l ≡ history type id l
  own_history type id e l h k =
      let column : is_value id (if type == "system" then e.system_id else e.agent_id) ≡ true =
        elim (Bool-cases (type == "system")) [
          | inl q ↦ let j = rw q at k in rw q j
          | inr q ↦ let j = rw q at k in rw q j
        ] in
      let kind = own_kind e.system_id e.agent_id (type == "system") id h column in
      let same : entity_id e ≡ id =
        own_text e.system_id e.agent_id (type == "system") id h column in
      history-kind (entity_type e) type (entity_id e) l kind ∙ ap (λ i. history type i l) same

  with_event :
      (l : Ledger) (e : LifecycleEvent)
      → validate_transition (history (entity_type e) (entity_id e) l) e ≡ ok tt
      → both_or_neither e.system_id e.agent_id ≡ false
      → IsSound lib l
      → IsSound lib (record l { lifecycle_events = l.lifecycle_events ++ (e ∷ []) })
  unfolding history
  with_event l e v one h = record {
    evidence = h.evidence;
    reviews = h.reviews;
    reviewed_in_order = h.reviewed_in_order;
    changes = h.changes;
    histories = λ type id.
        rw (select-append (of_entity type id) l.lifecycle_events (e ∷ []))
          (elim (Bool-cases (of_entity type id e)) [
            | inr q ↦ rw (q, append-nil (history type id l)) (h.histories type id)
            | inl q ↦
                let own = own_history type id e l one q in
                rw q (
                  IsChain-snoc (history type id l) e (h.histories type id)
                    (subst (λ es. validate_transition es e ≡ ok tt) own v))
          ]);
  }

  pub add_source-IsSound :
      (s : Source) (l l2 : Ledger) → add_source s l ≡ ok l2 → IsSound lib l → IsSound lib l2
  unfolding add_source
  add_source-IsSound s l l2 h k =
      let same : record l { sources = l.sources ++ (s ∷ []) } ≡ l2 = ground arith in
      subst (IsSound lib) same (with_sources lib l (l.sources ++ (s ∷ [])) k)

  pub add_snapshot-IsSound :
      (s : Snapshot) (l l2 : Ledger) → add_snapshot s l ≡ ok l2 → IsSound lib l → IsSound lib l2
  unfolding add_snapshot
  add_snapshot-IsSound s l l2 h k =
      let same : record l { snapshots = l.snapshots ++ (s ∷ []) } ≡ l2 = ground arith in
      subst (IsSound lib) same (with_snapshot lib l s k)

  pub sync-IsSound :
      (s : Source) (l l2 : Ledger) → sync s l ≡ ok l2 → IsSound lib l → IsSound lib l2
  unfolding sync add_source
  sync-IsSound s l l2 h k = elim (Bool-cases (any (source_has s.id) l.sources)) [
    | inr q ↦
        let h' = rw q at h in
        let same : record l { sources = l.sources ++ (s ∷ []) } ≡ l2 = ground arith in
        subst (IsSound lib) same (with_sources lib l (l.sources ++ (s ∷ [])) k)
    | inl q ↦
        let h' = rw q at h in
        let rows = update_where (source_has s.id) (λ row. s) l.sources in
        let same : record l { sources = rows } ≡ l2 = ground arith in
        subst (IsSound lib) same (with_sources lib l rows k)
  ]

  pub add_evidence-IsSound :
      (e : Evidence) (l l2 : Ledger) → add_evidence lib e l ≡ ok l2 → IsSound lib l → IsSound lib l2
  unfolding add_evidence
  add_evidence-IsSound e l l2 h k = elim (Option-cases (find (source_has e.source_id) l.sources)) [
    | inl q ↦ absurd (let j = rw q at h in ground arith)
    | inr (source, q) ↦
        let h1 = rw q at h in
        elim (Option-cases (find (snapshot_has (e.anchor).snapshot_id) l.snapshots)) [
          | inl r ↦ absurd (let j = rw r at h1 in ground arith)
          | inr (snapshot, r) ↦
              let h2 = rw r at h1 in
              let checks : check_evidence lib e snapshot source ≡ ok tt = ground arith in
              let same : record l { evidence = l.evidence ++ (e ∷ []) } ≡ l2 = ground arith in
              subst (IsSound lib) same (
                with_evidence lib l e
                  (check_evidence-Sound lib e snapshot source l.snapshots checks
                    (find-Memᴰ (snapshot_has (e.anchor).snapshot_id) l.snapshots snapshot r))
                  k)
        ]
  ]

  pub append_lifecycle-IsSound :
      (e : LifecycleEvent) (l l2 : Ledger)
      → append_lifecycle e l ≡ ok l2
      → IsSound lib l
      → IsSound lib l2
  unfolding append_lifecycle
  append_lifecycle-IsSound e l l2 h k =
      let valid : validate_transition (history (entity_type e) (entity_id e) l) e ≡ ok tt =
        ground arith in
      let one : both_or_neither e.system_id e.agent_id ≡ false = ground arith in
      let same : record l { lifecycle_events = l.lifecycle_events ++ (e ∷ []) } ≡ l2 =
        ground arith in
      subst (IsSound lib) same (with_event l e valid one k)
