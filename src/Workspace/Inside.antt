-- ===== src/Workspace/Inside.antt =====
-- Where the paths of a workspace lie (src-tauri/src/tools/workspace.rs).
use gpt_tools_mcp.Prelude.{
  String, true, false, ◌≡◌, ◌⊎◌, sym, subst, ap, inl, inr, Bool-cases, arith,
}
use gpt_tools_mcp.Prelude.Result.{Result-cases}
use gpt_tools_mcp.Context.{System, path_is_within}
use gpt_tools_mcp.Context.Resolve.{is_present}
use gpt_tools_mcp.Workspace.{
  Workspace, ResolvedPath, or_dot, reject_unsafe_text, reject_protected_write_path,
  ensure_inside_workspace, existing_inside, validate_base, resolve_existing_at, resolved_parent,
  parent_or, resolve_for_write,
}

existing_inside-within :
    (os : System) (ws : Workspace) (candidate : String) (r : ResolvedPath)
    → existing_inside os ws candidate ≡ inr r
    → (path_is_within os ws.active_root r.path ≡ true) × (r.existed ≡ true)
unfolding existing_inside ensure_inside_workspace
existing_inside-within os ws candidate r h = (ground (arith, h), ground (arith, h))

-- A path that `resolve_existing_at` gives lies in the active root.
pub resolve_existing_at-within :
    (os : System) (ws : Workspace) (base raw : String) (r : ResolvedPath)
    → resolve_existing_at os ws base raw ≡ inr r
    → path_is_within os ws.active_root r.path ≡ true
unfolding resolve_existing_at
resolve_existing_at-within os ws base raw r h = elim (Result-cases (validate_base os ws base)) [
  | inl (e, q) ↦ absurd (ground (arith, h, q))
  | inr (directory, q) ↦
      let candidate = os.join directory (os.native_separators (or_dot raw)) in
      let found : existing_inside os ws candidate ≡ inr r = ground (arith, h, q) in
      (existing_inside-within os ws candidate r found).0
]

target_inside :
    (os : System) (ws : Workspace) (raw : String) (r : ResolvedPath)
    → resolve_for_write os ws raw ≡ inr r
    → ((path_is_within os ws.active_root r.path ≡ true) × (r.existed ≡ true))
      ⊎ ((r.existed ≡ false)
          × ((directory : String) × (resolved_parent os ws
                  (parent_or ws.active_root (os.ancestors r.path))
                ≡ inr directory)
              × (path_is_within os ws.active_root directory ≡ true)))
unfolding resolve_for_write
target_inside os ws raw r h =
    let candidate = os.join ws.active_root (os.native_separators raw) in
    let parent = parent_or ws.active_root (os.ancestors candidate) in
    elim (Bool-cases (is_present os candidate)) [
      | inl y ↦
          let found : existing_inside os ws candidate ≡ inr r = ground (arith, h, y) in
          inl (existing_inside-within os ws candidate r found)
      | inr n ↦ elim (Result-cases (resolved_parent os ws parent)) [
        | inl (e, q) ↦ absurd (ground (arith, h, n, q))
        | inr (directory, q) ↦
            let made : record { path = candidate; existed = false } ≡ r = ground (arith, h, n, q) in
            let within : path_is_within os ws.active_root directory ≡ true =
              ground (arith, h, n, q) in
            let stands =
              subst
                (λ p.
                  resolved_parent os ws (parent_or ws.active_root (os.ancestors p)) ≡ inr directory)
                (ap (λ (x : ResolvedPath). x.path) made) q in
            inr (sym (ap (λ (x : ResolvedPath). x.existed) made), (directory, stands, within))
      ]
    ]

-- A path that `resolve_for_write` gives is there and lies in the active root, or is not there and
-- the directory that it is to stand in does; its text is safe and does not start with .git or
-- .github.
pub resolve_for_write_lem :
    (os : System) (ws : Workspace) (raw : String) (r : ResolvedPath)
    → resolve_for_write os ws raw ≡ inr r
    → (((path_is_within os ws.active_root r.path ≡ true) × (r.existed ≡ true))
        ⊎ ((r.existed ≡ false)
            × ((directory : String) × (resolved_parent os ws
                    (parent_or ws.active_root (os.ancestors r.path))
                  ≡ inr directory)
                × (path_is_within os ws.active_root directory ≡ true))))
      × (reject_unsafe_text os raw ≡ inr tt)
      × (reject_protected_write_path raw ≡ inr tt)
unfolding resolve_for_write
resolve_for_write_lem os ws raw r h =
    (target_inside os ws raw r h, ground (arith, h), ground (arith, h))
