-- ===== src/Patch/Outcome.antt =====
-- What `apply_patch` of src-tauri/src/tools/patch.rs leaves on the disk.
use gpt_tools_mcp.Prelude.{
  String, Bool, true, false, ◌&&◌, ◌||◌, ◌≡◌, ◌⊎◌, refl, sym, ap, ◌∙◌, subst, List, [], ◌∷◌, Option,
  none, some, inl, inr, str_eq, eq_iff, if◌then◌else◌, Bool-cases, arith,
}
use gpt_tools_mcp.Prelude.Assoc.{get, insert, Distinct, get-insert, Distinct-insert}
use gpt_tools_mcp.Prelude.Result.{
  require, and_then, and_then-ok, ok_or, ok_or-ok, require-ok, Result-cases, inr_injective,
  inl-ne-inr,
}
use gpt_tools_mcp.Patch.{Text, FilePatch}
use gpt_tools_mcp.Patch.Commit
use gpt_tools_mcp.Patch.Commit.{
  Files, Staged, FileSystem, CommitError, Disk, Committed, restore_backups, commit_staged_paths,
}
use gpt_tools_mcp.Patch.Written.{staged_at}
use gpt_tools_mcp.Patch.Atomic.{commit_staged_paths_lem}
use gpt_tools_mcp.Patch.Apply.{
  Target, Calls, PatchResult, unresolved, not_found, context_lost, verification_failed,
  commit_failed, verify_staged, judged, new_text, stage_at, stage_patches, verified, check_staged,
  commit_staged, untouched, prepare, apply_files, invalid_context, PatchError,
}

-- The text that a patch gives to a path, if it is for that path and can be applied.
abbrev text_for : Calls → Files → FilePatch → String → Option Target → Option (Option Text)
unfolding new_text
text_for c files fp path none = none
text_for c files fp path (some target) =
    if str_eq target.path path
    then elim (new_text c files fp path) [ inl e ↦ none | inr text ↦ some text ]
    else none

abbrev or_earlier : Option (Option Text) → Option (Option Text) → Option (Option Text)
or_earlier none earlier = earlier
or_earlier (some text) earlier = some text

-- What the last patch for a path makes of the text that the file had before all patches.
unfoldable pub last_text : Calls → Files → List FilePatch → String → Option (Option Text)
unfolding text_for
last_text c files [] path = none
last_text c files (fp ∷ patches) path =
    or_earlier (last_text c files patches path) (text_for c files fp path (c.resolve fp.path))

-- One patch is staged at its target.
stage_one :
    (c : Calls) (files : Files) (fp : FilePatch) (staged next : Staged)
    → and_then (ok_or unresolved (c.resolve fp.path)) (stage_at c files fp staged) ≡ inr next
    → (target : Target) × (text : Option Text) × (c.resolve fp.path ≡ some target)
      × (new_text c files fp target.path ≡ inr text)
      × (next ≡ insert target.path text staged)
unfolding stage_at
stage_one c files fp staged next h =
    let (target, r, at) =
      and_then-ok (ok_or unresolved (c.resolve fp.path)) (stage_at c files fp staged) next h in
    let put_text : Option Text → PatchResult Staged =
      λ text. inr (insert target.path text staged) in
    let (_, made) =
      require-ok (fp.is_new_file || target.existed) not_found
        (and_then (new_text c files fp target.path) put_text) next at in
    let (text, t, same) = and_then-ok (new_text c files fp target.path) put_text next made in
    (
      target,
      text,
      ok_or-ok unresolved (c.resolve fp.path) target r,
      t,
      sym (inr_injective (insert target.path text staged) next same),
    )

get-stage_one :
    (c : Calls) (files : Files) (fp : FilePatch) (staged : Staged) (target : Target)
    (text : Option Text) (q : String)
    → new_text c files fp target.path ≡ inr text
    → get q (insert target.path text staged)
      ≡ or_earlier (text_for c files fp q (some target)) (get q staged)
unfolding text_for
get-stage_one c files fp staged target text q t = elim (Bool-cases (str_eq target.path q)) [
  | inl e ↦
      let same : target.path ≡ q = (eq_iff target.path q).0 e in
      let t' = subst (λ path. new_text c files fp path ≡ inr text) same t in
      rw (get-insert target.path q text staged, e, t') refl
  | inr n ↦ rw (get-insert target.path q text staged, n) refl
]

or_earlier_assoc :
    (a b d : Option (Option Text)) → or_earlier a (or_earlier b d) ≡ or_earlier (or_earlier a b) d
or_earlier_assoc none b d = refl
or_earlier_assoc (some text) b d = refl

-- The staged texts, and that no path stands twice.
pub stage_patches-get :
    (c : Calls) (files : Files) (patches : List FilePatch) (staged done : Staged)
    → Distinct staged
    → stage_patches c files patches staged ≡ inr done
    → Distinct done
      × ((q : String) → get q done ≡ or_earlier (last_text c files patches q) (get q staged))
unfolding stage_patches last_text
stage_patches-get c files [] staged done d h =
    let same = inr_injective staged done h in
    (subst (λ s. Distinct s) same d, λ q. sym (ap (λ s. get q s) same))
stage_patches-get c files (fp ∷ patches) staged done d h =
    let first = and_then (ok_or unresolved (c.resolve fp.path)) (stage_at c files fp staged) in
    let (next, f, rest) = and_then-ok first (stage_patches c files patches) done h in
    let (target, text, r, t, e) = stage_one c files fp staged next f in
    let d' = subst (λ s. Distinct s) (sym e) (Distinct-insert target.path text staged d) in
    let (dd, each) = stage_patches-get c files patches next done d' rest in
    (
      dd,
      λ q.
          let here = ap (λ s. get q s) e ∙ get-stage_one c files fp staged target text q t in
          let later = last_text c files patches q in
          each q
          ∙ ap (or_earlier later) here
          ∙ rw r (or_earlier_assoc later (text_for c files fp q (some target)) (get q staged)),
    )

judged-ok :
    (fine valid : Bool) (fs : FileSystem) (staged b : Staged) (disk : Disk) (done : Staged)
    → (judged fine valid fs staged b disk).1 ≡ inr done
    → (staged ≡ done) × ((judged fine valid fs staged b disk).0 ≡ disk)
unfolding judged
judged-ok false valid fs staged b disk done h = inl-ne-inr verification_failed done h
judged-ok true false fs staged b disk done h = inl-ne-inr context_lost done h
judged-ok true true fs staged b disk done h = (inr_injective staged done h, refl)

-- A success of the verification keeps what the commit wrote.
verified-ok :
    (c : Calls) (staged : Staged) (after : Disk × Committed) (done : Staged)
    → (verified c staged after).1 ≡ inr done
    → (staged ≡ done)
      × ((b : Staged) × (after.1 ≡ Commit.ok b))
      × ((verified c staged after).0 ≡ after.0)
unfolding verified
verified-ok c staged (disk, Commit.err e) done h = inl-ne-inr (commit_failed e) done h
verified-ok c staged (disk, Commit.ok b) done h =
    let fine = c.valid_at_verification && verify_staged c disk.files staged in
    let j = judged-ok fine c.valid_at_end c.file_system staged b disk done h in
    (j.0, (b, refl), j.1)

-- `commit_staged` refuses before it touches a file, or commits.
pub commit_staged-cases :
    (c : Calls) (staged : Staged) (files : Files)
    → ((e : PatchError) × (commit_staged c staged files ≡ (untouched files, inl e)))
      ⊎ (commit_staged c staged files
          ≡ verified c staged (commit_staged_paths c.file_system staged files))
unfolding commit_staged
commit_staged-cases c staged files =
    elim (Result-cases (
      and_then (check_staged c files staged)
        (λ u. require c.valid_at_commit invalid_context (inr u)))) [
          | inl (e, k) ↦ inl (e, rw (commit_staged, k) refl)
          | inr (u, k) ↦ inr (rw (commit_staged, k) refl)
        ]

pub prepare-stage_patches :
    (c : Calls) (confirm : Bool) (patches : List FilePatch) (files : Files) (staged : Staged)
    → prepare c confirm patches files ≡ inr staged
    → stage_patches c files patches [] ≡ inr staged
unfolding prepare
prepare-stage_patches c confirm patches files staged h = ground (arith, h)

commit_staged-get :
    (c : Calls) (staged : Staged) (files : Files) (done : Staged)
    → Distinct staged
    → (commit_staged c staged files).1 ≡ inr done
    → (q : String) → (commit_staged c staged files).0.files q ≡ staged_at (get q staged) (files q)
commit_staged-get c staged files done d h q = elim (commit_staged-cases c staged files) [
  | inl (e, k) ↦ inl-ne-inr e done (sym (ap (λ x. x.1) k) ∙ h)
  | inr k ↦
      let after = commit_staged_paths c.file_system staged files in
      let (_, (b, committed), same) = verified-ok c staged after done (sym (ap (λ x. x.1) k) ∙ h) in
      ap (λ x. x.0.files q) k
      ∙ ap (λ x. x.files q) same
      ∙ (commit_staged_paths_lem c.file_system staged files d).0 b committed q
]

or_earlier_none : (a : Option (Option Text)) (q : String) → or_earlier a (get q []) ≡ a
unfolding get
or_earlier_none none q = refl
or_earlier_none (some text) q = refl

-- A patch that is applied gives each path the text that the last of its patches for that path makes
-- of the text that was there before all of them, and changes no other file.
pub apply_files_lem :
    (c : Calls) (confirm : Bool) (patches : List FilePatch) (files : Files) (done : Staged)
    → (apply_files c false confirm patches files).1 ≡ inr done
    → (q : String)
    → (apply_files c false confirm patches files).0.files q
      ≡ staged_at (last_text c files patches q) (files q)
unfolding apply_files
apply_files_lem c confirm patches files done h q =
    elim (Result-cases (prepare c confirm patches files)) [
      | inl (e, p) ↦ inl-ne-inr e done (sym (rw (apply_files, p) refl) ∙ h)
      | inr (staged, p) ↦
          let h' : (commit_staged c staged files).1 ≡ inr done =
            sym (rw (apply_files, p) refl) ∙ h in
          let staging = prepare-stage_patches c confirm patches files staged p in
          let (d, each) = stage_patches-get c files patches [] staged tt staging in
          let now = each q ∙ or_earlier_none (last_text c files patches q) q in
          rw (apply_files, p)
            (commit_staged-get c staged files done d h' q ∙ ap (λ t. staged_at t (files q)) now)
    ]
