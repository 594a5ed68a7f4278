-- ===== src/Patch/Restored.antt =====
-- The backups that a commit returns (src-tauri/src/tools/patch.rs): restoring them undoes it.
use gpt_tools_mcp.Prelude.{
  String, ◌≡◌, ◌∙◌, refl, subst, Bool, true, false, not, ◌||◌, List, [], ◌∷◌, none, some,
  if◌then◌else◌,
}
use gpt_tools_mcp.Prelude.Assoc.{get, insert, Distinct, Distinct-insert}
use gpt_tools_mcp.Patch.{Text}
use gpt_tools_mcp.Patch.Commit.{
  Files, put, Staged, FileSystem, Disk, CommitError, Committed, ok, err, restore_backups, undo,
  write_all, stage_all, commit_staged_paths, is_there, backup, no_parent, stage_failed,
  write_failed,
}
use gpt_tools_mcp.Patch.Written.{
  Restores, Undoable, Reads, Within, is_in, Undoable-put, Within-head, Within-tail,
  restore_backups-at,
}
use gpt_tools_mcp.Patch.Atomic.{Undoable-backup, Pending, Pending-backup, Pending-done}

-- The backups of a commit that succeeded give the texts of `before`.
pub record Undoes (before : Files) (after : Disk × Committed) (b : Staged) : Type 0 where
  pub distinct : Distinct b
  pub undoable : Undoable b before after.0.files

if_ok :
    (c : Bool) (before : Files) (more stopped : Disk × Committed) (e : CommitError) (b : Staged)
    → stopped.1 ≡ err e
    → (more.1 ≡ ok b → Undoes before more b)
    → (if c then more else stopped).1 ≡ ok b
    → Undoes before (if c then more else stopped) b
if_ok true before more stopped e b s m h = m h
if_ok false before more stopped e b s m h = absurd (cc)

unless_ok :
    (c : Bool) (before : Files) (more stopped : Disk × Committed) (e : CommitError) (b : Staged)
    → stopped.1 ≡ err e
    → (more.1 ≡ ok b → Undoes before more b)
    → (if not c then stopped else more).1 ≡ ok b
    → Undoes before (if not c then stopped else more) b
unless_ok true before more stopped e b s m h = m h
unless_ok false before more stopped e b s m h = absurd (cc)

write_all-Undoes :
    (fs : FileSystem) (b rest : Staged) (before now : Files) (b' : Staged)
    → Distinct b
    → Undoable b before now
    → Within rest b
    → (write_all fs b rest now).1 ≡ ok b'
    → Undoes before (write_all fs b rest now) b'
unfolding write_all
write_all-Undoes fs b [] before now b' d u w h =
    let same : b ≡ b' = cc in
    record {
      distinct = subst (λ s. Distinct s) same d;
      undoable = subst (λ s. Undoable s before now) same u;
    }
write_all-Undoes fs b ((p, some t) ∷ rest) before now b' d u w h =
    let u' = Undoable-put b before now p (some t) (Within-head p (some t) rest b w) u in
    let next =
      write_all-Undoes fs b rest before (put p (some t) now) b' d u'
        (Within-tail p (some t) rest b w) in
    if_ok (fs.replaces p) before _ (undo fs b now write_failed) write_failed b' refl next h
write_all-Undoes fs b ((p, none) ∷ rest) before now b' d u w h =
    let u' = Undoable-put b before now p none (Within-head p none rest b w) u in
    let next =
      write_all-Undoes fs b rest before (put p none now) b' d u' (Within-tail p none rest b w) in
    if_ok (not (is_there (now p)) || fs.removes p) before _ (undo fs b now write_failed)
      write_failed b' refl next h

stage_all-Undoes :
    (fs : FileSystem) (staged b todo : Staged) (temporary : List (String × Text)) (files : Files)
    (b' : Staged)
    → Reads fs
    → Distinct b
    → Undoable b files files
    → Pending staged b todo
    → (stage_all fs staged b todo temporary files).1 ≡ ok b'
    → Undoes files (stage_all fs staged b todo temporary files) b'
unfolding stage_all
stage_all-Undoes fs staged b [] temporary files b' a d u c h =
    write_all-Undoes fs b staged files files b' d u (Pending-done staged b c) h
stage_all-Undoes fs staged b ((p, none) ∷ todo) temporary files b' a d u c h =
    stage_all-Undoes fs staged (insert p (backup fs files p) b) todo temporary files b' a
      (Distinct-insert p (backup fs files p) b d) (Undoable-backup fs b files p a u)
      (Pending-backup staged b todo p none (backup fs files p) c) h
stage_all-Undoes fs staged b ((p, some t) ∷ todo) temporary files b' a d u c h =
    let old = backup fs files p in
    let b₁ = insert p old b in
    let next =
      stage_all-Undoes fs staged b₁ todo (insert p t temporary) files b' a
        (Distinct-insert p old b d) (Undoable-backup fs b files p a u)
        (Pending-backup staged b todo p (some t) old c) in
    let more = stage_all fs staged b₁ todo (insert p t temporary) files in
    let stopped = undo fs b₁ files stage_failed in
    unless_ok (fs.makes_parent p) files (if not (fs.writes_temporary p) then stopped else more)
      (record { files = files; temporary = temporary }, err no_parent) no_parent b' refl
      (unless_ok (fs.writes_temporary p) files more stopped stage_failed b' refl next) h

-- Restoring the backups of a commit that succeeded gives every file its text from before it.
pub restore_backups-commit :
    (fs : FileSystem) (staged : Staged) (files : Files) (b : Staged)
    → Restores fs
    → Reads fs
    → (commit_staged_paths fs staged files).1 ≡ ok b
    → (q : String) → restore_backups fs b (commit_staged_paths fs staged files).0.files q ≡ files q
unfolding commit_staged_paths
restore_backups-commit fs staged files b r a h q =
    let after = commit_staged_paths fs staged files in
    let v =
      stage_all-Undoes fs staged [] staged [] files b a tt (λ x. unfold get in refl)
        (λ x i. unfold is_in get in i) h in
    restore_backups-at fs b after.0.files r v.distinct q ∙ v.undoable q
