-- ===== src/Patch/Refused.antt =====
-- What a refused `apply_patch` of src-tauri/src/tools/patch.rs leaves on the disk.
use gpt_tools_mcp.Prelude.{
  String, Bool, true, false, ◌&&◌, ◌≡◌, ◌≢◌, refl, sym, ap, ◌∙◌, List, [], inl, inr,
}
use gpt_tools_mcp.Prelude.Assoc.{Distinct}
use gpt_tools_mcp.Prelude.Result.{Result-cases, inl_injective, inl-ne-inr}
use gpt_tools_mcp.Patch.{FilePatch}
use gpt_tools_mcp.Patch.Commit
use gpt_tools_mcp.Patch.Commit.{
  Files, Staged, FileSystem, CommitError, Disk, Committed, restore_backups, commit_staged_paths,
}
use gpt_tools_mcp.Patch.Written.{Restores, Reads}
use gpt_tools_mcp.Patch.Atomic.{commit_staged_paths_lem}
use gpt_tools_mcp.Patch.Restored.{restore_backups-commit}
use gpt_tools_mcp.Patch.Apply.{
  Calls, PatchError, context_lost, verify_staged, judged, verified, commit_staged, prepare,
  apply_files,
}
use gpt_tools_mcp.Patch.Outcome.{commit_staged-cases, prepare-stage_patches, stage_patches-get}

judged-restored :
    (fine valid : Bool) (fs : FileSystem) (staged b : Staged) (disk : Disk) (e : PatchError)
    → (judged fine valid fs staged b disk).1 ≡ inl e
    → e ≢ context_lost
    → (judged fine valid fs staged b disk).0.files ≡ restore_backups fs b disk.files
unfolding judged
judged-restored false valid fs staged b disk e h n = refl
judged-restored true false fs staged b disk e h n =
    absurd (n (sym (inl_injective context_lost e h)))
judged-restored true true fs staged b disk e h n = inl-ne-inr e staged (sym h)

verified-restored :
    (c : Calls) (staged : Staged) (files : Files) (e : PatchError)
    → Distinct staged
    → Restores c.file_system
    → Reads c.file_system
    → e ≢ context_lost
    → (after : Disk × Committed) → after ≡ commit_staged_paths c.file_system staged files
    → (verified c staged after).1 ≡ inl e
    → (q : String) → (verified c staged after).0.files q ≡ files q
unfolding verified
verified-restored c staged files e d r a n (disk, Commit.err x) s h q =
    let failed : (commit_staged_paths c.file_system staged files).1 ≡ Commit.err x =
      sym (ap (λ z. z.1) s) in
    ap (λ z. z.0.files q) s
    ∙ (commit_staged_paths_lem c.file_system staged files d).1 x r a failed q
verified-restored c staged files e d r a n (disk, Commit.ok b) s h q =
    let done : (commit_staged_paths c.file_system staged files).1 ≡ Commit.ok b =
      sym (ap (λ z. z.1) s) in
    let fine = c.valid_at_verification && verify_staged c disk.files staged in
    let back = judged-restored fine c.valid_at_end c.file_system staged b disk e h n in
    ap (λ f. f q) back
    ∙ ap (λ z. restore_backups c.file_system b z.0.files q) s
    ∙ restore_backups-commit c.file_system staged files b r a done q

commit_staged-restored :
    (c : Calls) (staged : Staged) (files : Files) (e : PatchError)
    → Distinct staged
    → Restores c.file_system
    → Reads c.file_system
    → e ≢ context_lost
    → (commit_staged c staged files).1 ≡ inl e
    → (q : String) → (commit_staged c staged files).0.files q ≡ files q
commit_staged-restored c staged files e d r a n h q = elim (commit_staged-cases c staged files) [
  | inl (x, k) ↦ ap (λ y. y.0.files q) k
  | inr k ↦
      let after = commit_staged_paths c.file_system staged files in
      ap (λ y. y.0.files q) k
      ∙ verified-restored c staged files e d r a n after refl (sym (ap (λ y. y.1) k) ∙ h) q
]

-- A patch that is refused, by the checks, the staging, the commit or the verification, leaves every
-- file as it was, if every file that is there can be read for its backup, and every backup can be
-- restored; only a context that is lost after the verification is reported with the files changed.
pub apply_files_refused :
    (c : Calls) (confirm : Bool) (patches : List FilePatch) (files : Files) (e : PatchError)
    → Restores c.file_system
    → Reads c.file_system
    → e ≢ context_lost
    → (apply_files c false confirm patches files).1 ≡ inl e
    → (q : String) → (apply_files c false confirm patches files).0.files q ≡ files q
unfolding apply_files
apply_files_refused c confirm patches files e r a n h q =
    elim (Result-cases (prepare c confirm patches files)) [
      | inl (x, p) ↦ rw (apply_files, p) refl
      | inr (staged, p) ↦
          let refused : (commit_staged c staged files).1 ≡ inl e =
            sym (rw (apply_files, p) refl) ∙ h in
          let staging = prepare-stage_patches c confirm patches files staged p in
          let (d, _) = stage_patches-get c files patches [] staged tt staging in
          rw (apply_files, p) (commit_staged-restored c staged files e d r a n refused q)
    ]
