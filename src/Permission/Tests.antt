-- ===== src/Permission/Tests.antt =====
-- Configurations as the repository's own tests read them (src-tauri/src/security/permission.rs).
use gpt_tools_mcp.Prelude.{◌≡◌, refl, true, false, none, some}
use gpt_tools_mcp.Permission.{
  ExecutionPolicy, ok, err, host_needs_full_access, host, strict, full_access, default, restricted,
  policy, from_config, intersect, is_restricted_word,
}
use gpt_tools_mcp.Permission.Lattice.{IsWithin, intersect_greatest}

abbrev host_policy : ExecutionPolicy
host_policy = policy host full_access true none

abbrev old_safe : ExecutionPolicy
old_safe = policy strict default false (some restricted)

reads_host : from_config "full_access" 1 host ≡ ok host_policy
unfolding from_config
reads_host = refl

refuses_old_host : from_config "full_access" 0 host ≡ err host_needs_full_access
unfolding from_config
refuses_old_host = refl

reads_safe : from_config "safe" 0 strict ≡ ok old_safe
unfolding from_config is_restricted_word
reads_safe = refl

intersect_greatest_example :
    IsWithin (intersect host_policy old_safe) host_policy
    × IsWithin (intersect host_policy old_safe) old_safe
    × (IsWithin old_safe host_policy
        → IsWithin old_safe old_safe
        → IsWithin old_safe (intersect host_policy old_safe))
intersect_greatest_example = intersect_greatest host_policy old_safe old_safe
