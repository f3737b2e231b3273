-- ===== src/Publishing/Projection/Atomic.antt =====
-- The directory of the target after an export.
use agentic_sec_blog_publish.Prelude.{
  ℕ, ◌≡◌, refl, inl, inr, String, false, Option, none, some, List, [], ◌∷◌, ◌++◌, Result, ok, err,
  Bool-cases, Result-cases,
}
use agentic_sec_blog_publish.Publishing.{PublicationManifest}
use agentic_sec_blog_publish.Publishing.Bundle.{File, Library, validate_publication_bundle}
use agentic_sec_blog_publish.Publishing.Projection.{
  LedgerData, Payload, writes_data, writes_manifest, moves_target, moves_stage, removes_backup,
  removes_stage, restores_backup, ExportError, Dirs, Step, Disk, manifest_of, recover, replace,
  export, move_target, move_stage, remove_backup, validate_target, validate_stage, ◌>>◌,
}

module _ (lib : Library) (disk : Disk) where
  -- How an export ends, from the bundle that was the target before.
  pub data Ends (old : Option (List File))
      : Result ExportError PublicationManifest × Dirs → Type 0 where
    -- It raised, and the target is what it was.
    kept :
        (e : ExportError) (dirs : Dirs)
        → dirs.target ≡ old
        → dirs.stage ≡ none
        → dirs.backup ≡ none
        → Ends old (err e, dirs)
    -- It raised when the target was already replaced by a valid bundle.
    replaced :
        (e : ExportError) (dirs : Dirs) (files : List File) (manifest : PublicationManifest)
        → dirs.target ≡ some files
        → validate_publication_bundle lib files ≡ ok manifest
        → dirs.stage ≡ none
        → Ends old (err e, dirs)
    exported :
        (manifest : PublicationManifest) (dirs : Dirs) (files : List File)
        → dirs.target ≡ some files
        → validate_publication_bundle lib files ≡ ok manifest
        → dirs.stage ≡ none
        → dirs.backup ≡ none
        → Ends old (ok manifest, dirs)

  module _ (cleans : disk.fails removes_stage ≡ false)
      (restores : disk.fails restores_backup ≡ false) where
    before_move :
        (old stage : Option (List File)) (e : ExportError)
        → Ends old (recover lib disk (err e, record { target = old; stage = stage; backup = none }))
    before_move old none e =
        kept e (record { target = old; stage = none; backup = none }) refl refl refl
    before_move old (some files) e =
        rw cleans (kept e (record { target = old; stage = none; backup = none }) refl refl refl)

    between_moves :
        (old stage : List File) (e : ExportError)
        → Ends (some old) (
            recover lib disk
              (err e, record { target = none; stage = some stage; backup = some old }))
    between_moves old stage e =
        rw (cleans, restores)
          (kept e (record { target = some old; stage = none; backup = none }) refl refl refl)

    after_move :
        (old : Option (List File)) (files left : List File) (e : ExportError)
        (manifest : PublicationManifest)
        → validate_publication_bundle lib files ≡ ok manifest
        → Ends old (
            recover lib disk
              (err e, record { target = some files; stage = none; backup = some left }))
    after_move old files left e manifest h =
        replaced e (record { target = some files; stage = none; backup = some left }) files manifest
          refl h refl

    -- The rest of the body, once the stage is valid.
    swap : Step PublicationManifest
    swap =
        move_target lib disk
        >> (move_stage lib disk >> (remove_backup lib disk >> validate_target lib disk))

    swap-Ends :
        (old : Option (List File)) (files : List File) (manifest : PublicationManifest)
        → validate_publication_bundle lib files ≡ ok manifest
        → Ends old
            (recover lib disk (swap (record { target = old; stage = some files; backup = none })))
    unfolding swap
    swap-Ends none files manifest h = elim (Bool-cases (disk.fails moves_stage)) [
      | inl e ↦ rw e (before_move none (some files) ExportError.os_error)
      | inr e ↦
          rw (e, h)
            (exported manifest (record { target = some files; stage = none; backup = none }) files
              refl h refl refl)
    ]
    swap-Ends (some old) files manifest h = elim (Bool-cases (disk.fails moves_target)) [
      | inl e ↦ rw e (before_move (some old) (some files) ExportError.os_error)
      | inr e ↦ elim (Bool-cases (disk.fails moves_stage)) [
        | inl s ↦ rw (e, s) (between_moves old files ExportError.os_error)
        | inr s ↦ elim (Bool-cases (disk.fails removes_backup)) [
          | inl b ↦
              rw (e, s, b)
                (after_move (some old) files disk.remains ExportError.os_error manifest h)
          | inr b ↦
              rw (e, s, b, h)
                (exported manifest (record { target = some files; stage = none; backup = none })
                  files refl h refl refl)
        ]
      ]
    ]

    staged-Ends :
        (old : Option (List File)) (files : List File)
        → Ends old (
            recover lib disk (
              (validate_stage lib disk >> swap)
                (record { target = old; stage = some files; backup = none })))
    unfolding swap
    staged-Ends old files = elim (Result-cases (validate_publication_bundle lib files)) [
      | inr (x, e) ↦ rw e (before_move old (some files) (ExportError.refused x))
      | inl (manifest, e) ↦ rw e (swap-Ends old files manifest e)
    ]

    -- When the stage can be removed and the backup be renamed back, then whatever else fails, an export
    -- that returns leaves the bundle of its manifest, valid, as the target and nothing beside it; and one
    -- that raises leaves no stage, and as the target what was there before or a valid bundle.
    pub export-Ends :
        (ledger : LedgerData) (payload : Payload) (version : String) (generated_at : ℕ)
        (old : Option (List File))
        → Ends old (
            export lib disk ledger payload version generated_at
              (record { target = old; stage = none; backup = none }))
    unfolding export replace swap
    export-Ends ledger payload version generated_at old =
        elim (Bool-cases (disk.fails writes_data)) [
          | inl e ↦ rw e (before_move old disk.written ExportError.os_error)
          | inr e ↦ elim (Bool-cases (disk.fails writes_manifest)) [
            | inl m ↦ rw (e, m) (before_move old disk.written ExportError.os_error)
            | inr m ↦
                let first : List File =
                  record { parts = "data" ∷ "ledger.json" ∷ []; raw = payload.dumped } ∷ [] in
                let manifest = manifest_of lib disk ledger payload version generated_at first in
                rw (e, m)
                  (staged-Ends old (
                    first
                    ++ (record { parts = "manifest.json" ∷ []; raw = disk.dump_manifest manifest }
                        ∷ [])))
          ]
        ]
