-- ===== src/Patch/Atomic.antt =====
-- The files after a commit of a patch (src-tauri/src/tools/patch.rs, `commit_staged_paths`): all of
-- the staged texts, or none.
use gpt_tools_mcp.Prelude.{
  String, ◌≡◌, inl, inr, refl, Bool, true, false, not, ◌||◌, List, [], ◌∷◌, Option, none, some,
  eq_iff, arith, Bool-cases, if◌then◌else◌,
}
use gpt_tools_mcp.Prelude.Assoc.{get, insert, get-insert, Distinct, Distinct-insert}
use gpt_tools_mcp.Patch.{Text}
use gpt_tools_mcp.Patch.Commit.{
  Files, put, Staged, FileSystem, Disk, CommitError, Committed, ok, err, write_all, stage_all,
  commit_staged_paths, is_there, backup, backup, no_parent, stage_failed,
}
use gpt_tools_mcp.Patch.Written.{
  staged_at, Restores, Undoable, Reads, is_in, Within, undo-files, write_all-err, write_all-ok,
}

pub Undoable-backup :
    (fs : FileSystem) (b : Staged) (files : Files) (p : String)
    → Reads fs
    → Undoable b files files
    → Undoable (insert p (backup fs files p) b) files files
Undoable-backup fs b files p r u q =
    ground (arith, r p, u q, eq_iff p q, get-insert p q (backup fs files p) b)

-- Every staged path has its backup, or is still to be staged.
abbrev pub Pending : Staged → Staged → Staged → Type 0
Pending staged b todo = (q : String) → is_in q staged ≡ true → (is_in q b || is_in q todo) ≡ true

pub Pending-backup :
    (staged b todo : Staged) (p : String) (t old : Option Text)
    → Pending staged b ((p, t) ∷ todo)
    → Pending staged (insert p old b) todo
unfolding is_in get
Pending-backup staged b todo p t old c q i = ground (arith, c q i, get-insert p q old b, eq_iff p q)

pub Pending-done : (staged b : Staged) → Pending staged b [] → Within staged b
unfolding is_in get
Pending-done staged b c q i = ground (arith, c q i)

three_err :
    (made wrote : Bool) (none_made undone more : Disk × Committed) (e : CommitError) (q : String)
    (before : Files)
    → none_made.0.files q ≡ before q
    → undone.0.files q ≡ before q
    → (more.1 ≡ err e → more.0.files q ≡ before q)
    → (if not made then none_made else if not wrote then undone else more).1 ≡ err e
    → (if not made then none_made else if not wrote then undone else more).0.files q ≡ before q
three_err false wrote none_made undone more e q before n u m h = n
three_err true false none_made undone more e q before n u m h = u
three_err true true none_made undone more e q before n u m h = m h

three_ok :
    (made wrote : Bool) (none_made undone more : Disk × Committed) (b : Staged) (q : String)
    (t : Option Text)
    → ((e : CommitError) × (none_made.1 ≡ err e))
    → ((e : CommitError) × (undone.1 ≡ err e))
    → (more.1 ≡ ok b → more.0.files q ≡ t)
    → (if not made then none_made else if not wrote then undone else more).1 ≡ ok b
    → (if not made then none_made else if not wrote then undone else more).0.files q ≡ t
three_ok false wrote none_made undone more b q t (e, n) u m h = absurd (cc)
three_ok true false none_made undone more b q t n (e, u) m h = absurd (cc)
three_ok true true none_made undone more b q t n u m h = m h

stage_all-err :
    (fs : FileSystem) (staged b todo : Staged) (temporary : List (String × Text)) (files : Files)
    (e : CommitError)
    → Restores fs
    → Reads fs
    → Distinct b
    → Undoable b files files
    → Pending staged b todo
    → (stage_all fs staged b todo temporary files).1 ≡ err e
    → (q : String) → (stage_all fs staged b todo temporary files).0.files q ≡ files q
unfolding stage_all
stage_all-err fs staged b [] temporary files e r a d u c h q =
    write_all-err fs b staged files files e r d u (Pending-done staged b c) h q
stage_all-err fs staged b ((p, none) ∷ todo) temporary files e r a d u c h q =
    stage_all-err fs staged (insert p (backup fs files p) b) todo temporary files e r a
      (Distinct-insert p (backup fs files p) b d) (Undoable-backup fs b files p a u)
      (Pending-backup staged b todo p none (backup fs files p) c) h q
stage_all-err fs staged b ((p, some t) ∷ todo) temporary files e r a d u c h q =
    let b' = insert p (backup fs files p) b in
    let d' = Distinct-insert p (backup fs files p) b d in
    let u' = Undoable-backup fs b files p a u in
    let next =
      stage_all-err fs staged b' todo (insert p t temporary) files e r a d' u'
        (Pending-backup staged b todo p (some t) (backup fs files p) c) in
    three_err (fs.makes_parent p) (fs.writes_temporary p) _ _ _ e q files refl
      (undo-files fs b' files files stage_failed r d' u' q) (λ k. next k q) h

stage_all-ok :
    (fs : FileSystem) (staged b todo : Staged) (temporary : List (String × Text)) (files : Files)
    (b' : Staged)
    → Distinct staged
    → (stage_all fs staged b todo temporary files).1 ≡ ok b'
    → (q : String)
    → (stage_all fs staged b todo temporary files).0.files q ≡ staged_at (get q staged) (files q)
unfolding stage_all
stage_all-ok fs staged b [] temporary files b' d h q = write_all-ok fs b staged files b' d h q
stage_all-ok fs staged b ((p, none) ∷ todo) temporary files b' d h q =
    stage_all-ok fs staged (insert p (backup fs files p) b) todo temporary files b' d h q
stage_all-ok fs staged b ((p, some t) ∷ todo) temporary files b' d h q =
    let next =
      stage_all-ok fs staged (insert p (backup fs files p) b) todo (insert p t temporary) files b'
        d in
    three_ok (fs.makes_parent p) (fs.writes_temporary p) _ _ _ b' q _ (no_parent, refl)
      (stage_failed, refl) (λ k. next k q) h

-- Every call that a commit makes before an error succeeds.
pub record Succeeds (fs : FileSystem) : Type 0 where
  pub makes_parent : (path : String) → fs.makes_parent path ≡ true
  pub writes_temporary : (path : String) → fs.writes_temporary path ≡ true
  pub replaces : (path : String) → fs.replaces path ≡ true
  pub removes : (path : String) → fs.removes path ≡ true

abbrev IsOk : Committed → Type 0
IsOk c = (b : Staged) × (c ≡ ok b)

write_all-IsOk :
    (fs : FileSystem) (b rest : Staged) (now : Files)
    → Succeeds fs
    → IsOk (write_all fs b rest now).1
unfolding write_all
write_all-IsOk fs b [] now v = (b, refl)
write_all-IsOk fs b ((p, some t) ∷ rest) now v =
    rw (v.replaces p) (write_all-IsOk fs b rest (put p (some t) now) v)
write_all-IsOk fs b ((p, none) ∷ rest) now v =
    let next = write_all-IsOk fs b rest (put p none now) v in
    elim (Bool-cases (is_there (now p))) [ inl y ↦ rw (y, v.removes p) next | inr n ↦ rw n next ]

stage_all-IsOk :
    (fs : FileSystem) (staged b todo : Staged) (temporary : List (String × Text)) (files : Files)
    → Succeeds fs
    → IsOk (stage_all fs staged b todo temporary files).1
unfolding stage_all
stage_all-IsOk fs staged b [] temporary files v = write_all-IsOk fs b staged files v
stage_all-IsOk fs staged b ((p, none) ∷ todo) temporary files v =
    stage_all-IsOk fs staged (insert p (backup fs files p) b) todo temporary files v
stage_all-IsOk fs staged b ((p, some t) ∷ todo) temporary files v =
    rw (v.makes_parent p, v.writes_temporary p)
      (stage_all-IsOk fs staged (insert p (backup fs files p) b) todo (insert p t temporary) files
        v)

-- A commit of staged files writes all of them or none: if it succeeds, every staged path has its
-- new text, or is gone, and every other file is as before; if it fails, and the calls that make
-- and restore the backups succeed, every file is as before; and it succeeds if all its calls do.
pub commit_staged_paths_lem :
    (fs : FileSystem) (staged : Staged) (files : Files)
    → Distinct staged
    → ((b : Staged)
        → (commit_staged_paths fs staged files).1 ≡ ok b
        → (q : String)
        → (commit_staged_paths fs staged files).0.files q ≡ staged_at (get q staged) (files q))
      × ((e : CommitError)
          → Restores fs
          → Reads fs
          → (commit_staged_paths fs staged files).1 ≡ err e
          → (q : String) → (commit_staged_paths fs staged files).0.files q ≡ files q)
      × (Succeeds fs → (b : Staged) × ((commit_staged_paths fs staged files).1 ≡ ok b))
unfolding commit_staged_paths
commit_staged_paths_lem fs staged files d = (
  λ b h q. stage_all-ok fs staged [] staged [] files b d h q,
  λ e r a h q.
      stage_all-err fs staged [] staged [] files e r a tt (λ x. unfold get in refl)
        (λ x i. unfold is_in get in i) h q,
  λ v. stage_all-IsOk fs staged [] staged [] files v,
)
