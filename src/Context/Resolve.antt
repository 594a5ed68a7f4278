-- ===== src/Context/Resolve.antt =====
-- A path and its nearest existing directory (src-tauri/src/tools/execution_context.rs).
use gpt_tools_mcp.Prelude.{
  String, Bool, true, false, ◌||◌, List, [], ◌∷◌, Option, none, some, inl, inr, if◌then◌else◌,
}
use gpt_tools_mcp.Prelude.Result.{and_then, ok_or}
use gpt_tools_mcp.Context.{System, FileKind, symlink, not_found, ContextResult}

-- `is_symlink`.
abbrev pub is_link : FileKind → Bool
is_link symlink = true
is_link _ = false

-- `exists() || is_symlink()`.
abbrev pub is_present : System → String → Bool
is_present os path = os.exists path || is_link (os.file_kind path)

-- `Path::parent`, from the ancestors.
abbrev parent_of : List String → Option String
parent_of (path ∷ parent ∷ _) = some parent
parent_of _ = none

abbrev push_all : System → String → List String → String
push_all os path [] = path
push_all os path (name ∷ names) = push_all os (os.join path name) names

-- The loop over the ancestors of a path that does not exist, with the names it has passed.
unfoldable pub find_anchor : System → List String → List String → ContextResult (String × String)
find_anchor os names [] = inl not_found
find_anchor os names (cursor ∷ rest) = elim (is_present os cursor) [
  | true ↦
      and_then (ok_or not_found (os.canonicalize cursor))
        (λ anchor. inr (push_all os anchor names, anchor))
  | false ↦
      and_then (ok_or not_found (os.file_name cursor)) (λ name. find_anchor os (name ∷ names) rest)
]

-- `canonicalize_with_anchor`: the resolved path and the directory that it is in.
unfoldable pub canonicalize_with_anchor : System → String → ContextResult (String × String)
unfolding find_anchor
canonicalize_with_anchor os path =
    if is_present os path
    then and_then (ok_or not_found (os.canonicalize path)) (λ resolved.
      if os.is_dir resolved
      then inr (resolved, resolved)
      else and_then (ok_or not_found (parent_of (os.ancestors resolved)))
          (λ parent. inr (resolved, parent)))
    else find_anchor os [] (os.ancestors path)

unfoldable pub any_link : System → String → List String → Bool
any_link os cursor [] = false
any_link os cursor (name ∷ names) =
    let next = os.join cursor name in is_link (os.file_kind next) || any_link os next names

abbrev any_link_below : System → String → Option (List String) → Bool
unfolding any_link
any_link_below os root none = false
any_link_below os root (some names) = any_link os root names

-- `path_contains_symlink`.
unfoldable pub path_contains_symlink : System → String → String → Bool
unfolding any_link_below
path_contains_symlink os path lexical_root =
    any_link_below os lexical_root (os.components_below path lexical_root)
