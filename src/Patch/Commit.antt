-- ===== src/Patch/Commit.antt =====
-- src-tauri/src/tools/patch.rs: `commit_staged_paths_unchecked`, `restore_backups` and the
-- verification after it, which write the files of a patch. The temporary file of a path has a fresh
-- UUID in its name, so it is no path of the workspace: the temporary files are kept apart, as the
-- texts that wait for their paths. A call of the file system that fails changes nothing.
use gpt_tools_mcp.Prelude.{
  String, Bool, true, false, not, ◌&&◌, ◌||◌, List, [], ◌∷◌, Option, none, some, str_eq,
  if◌then◌else◌,
}
use gpt_tools_mcp.Prelude.Assoc.{insert}
use gpt_tools_mcp.Patch.{Text}

-- The text of each file that is there.
abbrev pub Files : Type 0
Files = String → Option Text

abbrev pub put : String → Option Text → Files → Files
put path text files = λ q. if str_eq path q then text else files q

-- The map `staged`: the new text of a file, or `none` for a file to delete.
abbrev pub Staged : Type 0
Staged = List (String × Option Text)

-- Which calls of the file system succeed, by the path that they are for.
pub record FileSystem : Type 0 where
  pub reads : String → Bool
  pub makes_parent : String → Bool
  pub writes_temporary : String → Bool
  pub replaces : String → Bool
  pub removes : String → Bool
  pub restores : String → Bool

pub record Disk : Type 0 where
  pub files : Files
  pub temporary : List (String × Text)

pub data CommitError : Type 0 where
  no_parent stage_failed write_failed : CommitError

pub data Committed : Type 0 where
  ok : Staged → Committed
  err : CommitError → Committed

-- `restore_backups`; the result of each write is ignored.
unfoldable pub restore_backups : FileSystem → Staged → Files → Files
restore_backups fs [] files = files
restore_backups fs ((path, saved) ∷ rest) files =
    restore_backups fs rest (if fs.restores path then put path saved files else files)

-- `cleanup_temporary_files` and `restore_backups`, before an error.
abbrev pub undo : FileSystem → Staged → Files → CommitError → Disk × Committed
undo fs backups files e =
    (record { files = restore_backups fs backups files; temporary = [] }, err e)

abbrev pub is_there : Option Text → Bool
is_there none = false
is_there (some text) = true

-- The second loop of `commit_staged_paths_unchecked`.
unfoldable pub write_all : FileSystem → Staged → Staged → Files → Disk × Committed
unfolding restore_backups
write_all fs backups [] files = (record { files = files; temporary = [] }, ok backups)
write_all fs backups ((path, some text) ∷ rest) files =
    let more = write_all fs backups rest (put path (some text) files) in
    if fs.replaces path then more else undo fs backups files write_failed
write_all fs backups ((path, none) ∷ rest) files =
    let more = write_all fs backups rest (put path none files) in
    if not (is_there (files path)) || fs.removes path
    then more
    else undo fs backups files write_failed

-- `fs::read(&path).unwrap_or_default()` for a file that is there.
abbrev pub backup : FileSystem → Files → String → Option Text
backup fs files path = if is_there (files path) && not (fs.reads path) then some [] else files path

-- The first loop of `commit_staged_paths_unchecked`, with the backups and the temporary files so
-- far, and the second loop after it.
unfoldable pub stage_all :
    FileSystem → Staged → Staged → Staged → List (String × Text) → Files → Disk × Committed
unfolding write_all restore_backups
stage_all fs staged backups [] temporary files = write_all fs backups staged files
stage_all fs staged backups ((path, none) ∷ rest) temporary files =
    stage_all fs staged (insert path (backup fs files path) backups) rest temporary files
stage_all fs staged backups ((path, some text) ∷ rest) temporary files =
    let backups' = insert path (backup fs files path) backups in
    let more = stage_all fs staged backups' rest (insert path text temporary) files in
    if not (fs.makes_parent path)
    then (record { files = files; temporary = temporary }, err no_parent)
    else if not (fs.writes_temporary path)
    then undo fs backups' files stage_failed
    else more

-- `commit_staged_paths_unchecked`.
unfoldable pub commit_staged_paths : FileSystem → Staged → Files → Disk × Committed
unfolding stage_all
commit_staged_paths fs staged files = stage_all fs staged [] staged [] files
