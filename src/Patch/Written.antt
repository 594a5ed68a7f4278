-- ===== src/Patch/Written.antt =====
-- The second loop of a commit and the restoring of backups (src-tauri/src/tools/patch.rs,
-- `commit_staged_paths_unchecked` and `restore_backups`).
use gpt_tools_mcp.Prelude.{
  String, ◌≡◌, refl, ◌∙◌, Bool, true, false, not, ◌||◌, [], ◌∷◌, Option, none, some, eq_iff, arith,
  if◌then◌else◌,
}
use gpt_tools_mcp.Prelude.Assoc.{get, Distinct}
use gpt_tools_mcp.Patch.{Text}
use gpt_tools_mcp.Patch.Commit.{
  Files, put, Staged, FileSystem, Disk, CommitError, Committed, ok, err, restore_backups, undo,
  write_all, is_there, write_failed,
}

-- What the staged texts say of a path, over what is there.
abbrev pub staged_at : Option (Option Text) → Option Text → Option Text
staged_at none there = there
staged_at (some text) there = text

-- Every call that restores a file succeeds.
abbrev pub Restores : FileSystem → Type 0
Restores fs = (path : String) → fs.restores path ≡ true

-- Restoring the backups gives the texts of `before`.
abbrev pub Undoable : Staged → Files → Files → Type 0
Undoable b before now = (q : String) → staged_at (get q b) (now q) ≡ before q

-- Every file that is there can be read.
abbrev pub Reads : FileSystem → Type 0
Reads fs = (path : String) → fs.reads path ≡ true

unfoldable pub is_in : String → Staged → Bool
unfolding get
is_in q b = elim (get q b) [ none ↦ false | some t ↦ true ]

abbrev pub Within : Staged → Staged → Type 0
Within a b = (q : String) → is_in q a ≡ true → is_in q b ≡ true

pub restore_backups-at :
    (fs : FileSystem) (b : Staged) (now : Files)
    → Restores fs
    → Distinct b
    → (q : String) → restore_backups fs b now q ≡ staged_at (get q b) (now q)
unfolding restore_backups get
restore_backups-at fs [] now r d q = refl
restore_backups-at fs ((p, t) ∷ b) now r d q =
    let rest = restore_backups-at fs b (if fs.restores p then put p t now else now) r d.1 q in
    ground (arith, r p, eq_iff p q, d.0, rest)

pub undo-files :
    (fs : FileSystem) (b : Staged) (before now : Files) (e : CommitError)
    → Restores fs
    → Distinct b
    → Undoable b before now
    → (q : String) → (undo fs b now e).0.files q ≡ before q
undo-files fs b before now e r d u q = restore_backups-at fs b now r d q ∙ u q

pub Undoable-put :
    (b : Staged) (before now : Files) (p : String) (t : Option Text)
    → is_in p b ≡ true
    → Undoable b before now
    → Undoable b before (put p t now)
unfolding is_in
Undoable-put b before now p t i u q = ground (arith, i, u q, eq_iff p q)

pub Within-head :
    (p : String) (t : Option Text) (rest b : Staged) → Within ((p, t) ∷ rest) b → is_in p b ≡ true
unfolding is_in get
Within-head p t rest b w = unfold is_in in w p (ground (arith, eq_iff p p))

pub Within-tail :
    (p : String) (t : Option Text) (rest b : Staged) → Within ((p, t) ∷ rest) b → Within rest b
unfolding is_in get
Within-tail p t rest b w q i = w q (ground (arith, i))

either_err :
    (c : Bool) (more undone : Disk × Committed) (e : CommitError) (q : String) (before : Files)
    → (more.1 ≡ err e → more.0.files q ≡ before q)
    → undone.0.files q ≡ before q
    → (if c then more else undone).1 ≡ err e
    → (if c then more else undone).0.files q ≡ before q
either_err true more undone e q before m u h = m h
either_err false more undone e q before m u h = u

pub write_all-err :
    (fs : FileSystem) (b rest : Staged) (before now : Files) (e : CommitError)
    → Restores fs
    → Distinct b
    → Undoable b before now
    → Within rest b
    → (write_all fs b rest now).1 ≡ err e
    → (q : String) → (write_all fs b rest now).0.files q ≡ before q
unfolding write_all
write_all-err fs b [] before now e r d u w h q = absurd (cc)
write_all-err fs b ((p, some t) ∷ rest) before now e r d u w h q =
    let next =
      write_all-err fs b rest before (put p (some t) now) e r d
        (Undoable-put b before now p (some t) (Within-head p (some t) rest b w) u)
        (Within-tail p (some t) rest b w) in
    let undone = undo-files fs b before now write_failed r d u q in
    either_err (fs.replaces p) _ _ e q before (λ k. next k q) undone h
write_all-err fs b ((p, none) ∷ rest) before now e r d u w h q =
    let next =
      write_all-err fs b rest before (put p none now) e r d
        (Undoable-put b before now p none (Within-head p none rest b w) u)
        (Within-tail p none rest b w) in
    let undone = undo-files fs b before now write_failed r d u q in
    either_err (not (is_there (now p)) || fs.removes p) _ _ e q before (λ k. next k q) undone h

either_ok :
    (c : Bool) (more : Disk × Committed) (fs : FileSystem) (b : Staged) (now : Files)
    (e : CommitError) (b' : Staged) (q : String) (t : Option Text)
    → (more.1 ≡ ok b' → more.0.files q ≡ t)
    → (if c then more else undo fs b now e).1 ≡ ok b'
    → (if c then more else undo fs b now e).0.files q ≡ t
either_ok true more fs b now e b' q t m h = m h
either_ok false more fs b now e b' q t m h = absurd (cc)

put-staged :
    (p q : String) (t : Option Text) (rest : Staged) (now : Files)
    → get p rest ≡ none
    → staged_at (get q rest) (put p t now q) ≡ staged_at (get q ((p, t) ∷ rest)) (now q)
unfolding get
put-staged p q t rest now h = ground (arith, eq_iff p q, h)

pub write_all-ok :
    (fs : FileSystem) (b rest : Staged) (now : Files) (b' : Staged)
    → Distinct rest
    → (write_all fs b rest now).1 ≡ ok b'
    → (q : String) → (write_all fs b rest now).0.files q ≡ staged_at (get q rest) (now q)
unfolding write_all
write_all-ok fs b [] now b' d h q = unfold get in refl
write_all-ok fs b ((p, some t) ∷ rest) now b' d h q =
    let next = write_all-ok fs b rest (put p (some t) now) b' d.1 in
    either_ok (fs.replaces p) _ fs b now write_failed b' q _
      (λ k. next k q ∙ put-staged p q (some t) rest now d.0) h
write_all-ok fs b ((p, none) ∷ rest) now b' d h q =
    let next = write_all-ok fs b rest (put p none now) b' d.1 in
    either_ok (not (is_there (now p)) || fs.removes p) _ fs b now write_failed b' q _
      (λ k. next k q ∙ put-staged p q none rest now d.0) h
