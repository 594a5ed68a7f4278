-- ===== src/Permission/Config.antt =====
-- Reading the permission configuration (src-tauri/src/security/permission.rs).
use gpt_tools_mcp.Prelude.{
  ℕ, String, ◌≡◌, ◌↔◌, ◌≢◌, ◌⊎◌, inl, inr, refl, true, false, none, some, arith, eq_iff,
}
use gpt_tools_mcp.Permission.{
  IsolationPolicy, ExecutionPolicy, ok, host, is_host, policy, default, full_access, restricted,
  trusted, dangerous, from_config, legacy_config_value, host_access, is_restricted_word,
  is_trusted_word, is_dangerous_word,
}

-- Host access is given exactly to an explicit `full_access` of version 1 with host isolation; any
-- other configuration with host isolation is refused.
pub from_config-host :
    (v : String) (version : ℕ) (isolation : IsolationPolicy) (p : ExecutionPolicy)
    → from_config v version isolation ≡ ok p
    → (host_access p ≡ true) ↔ ((isolation ≡ host) × (version ≡ 1) × (v ≡ "full_access"))
unfolding from_config host_access
from_config-host v version isolation p h = (
  λ k. ground (arith, eq_iff v "full_access", eq_iff v "default"),
  λ k. ground (arith, eq_iff v "full_access", eq_iff v "default", eq_iff "full_access" "default"),
)

-- The five ways in which a configuration is accepted.
from_config-cases :
    (v : String) (version : ℕ) (isolation : IsolationPolicy) (p : ExecutionPolicy)
    → from_config v version isolation ≡ ok p
    → ((version ≡ 1) × (p ≡ policy isolation full_access true none))
      ⊎ ((is_host isolation ≡ false)
          × (((version ≡ 1) × (p ≡ policy isolation default true none))
              ⊎ (((version ≡ 0) × (p ≡ policy isolation default false (some restricted)))
                  ⊎ (((version ≡ 0) × (p ≡ policy isolation default true (some trusted)))
                      ⊎ ((version ≡ 0)
                          × (p ≡ policy isolation full_access true (some dangerous)))))))
unfolding from_config
from_config-cases v version isolation p h =
    ground (arith, eq_iff v "full_access", eq_iff v "default", eq_iff "full_access" "default")

full_reread :
    (isolation : IsolationPolicy)
    → from_config "full_access" 1 isolation ≡ ok (policy isolation full_access true none)
unfolding from_config
full_reread isolation = ground (arith)

module _ (isolation : IsolationPolicy) (plain : is_host isolation ≡ false) where
  standard_reread : from_config "default" 1 isolation ≡ ok (policy isolation default true none)
  unfolding from_config
  standard_reread = rw plain refl

  restricted_reread :
      from_config "restricted" 0 isolation ≡ ok (policy isolation default false (some restricted))
  unfolding from_config is_restricted_word
  restricted_reread = rw plain refl

  trusted_reread :
      from_config "trusted" 0 isolation ≡ ok (policy isolation default true (some trusted))
  unfolding from_config is_restricted_word is_trusted_word
  trusted_reread = rw plain refl

  dangerous_reread :
      from_config "dangerous" 0 isolation ≡ ok (policy isolation full_access true (some dangerous))
  unfolding from_config is_restricted_word is_trusted_word is_dangerous_word
  dangerous_reread = rw plain refl

-- A stored policy is written back by a word that reads as the same policy, in its version.
pub from_config-legacy_config_value :
    (v : String) (version : ℕ) (isolation : IsolationPolicy) (p : ExecutionPolicy)
    → from_config v version isolation ≡ ok p
    → from_config (legacy_config_value p) version isolation ≡ ok p
unfolding legacy_config_value
from_config-legacy_config_value v version isolation p h =
    elim (from_config-cases v version isolation p h) [
      | inl (n, e) ↦ rw (n, e) (full_reread isolation)
      | inr (k, inl (n, e)) ↦ rw (n, e) (standard_reread isolation k)
      | inr (k, inr (inl (n, e))) ↦ rw (n, e) (restricted_reread isolation k)
      | inr (k, inr (inr (inl (n, e)))) ↦ rw (n, e) (trusted_reread isolation k)
      | inr (k, inr (inr (inr (n, e)))) ↦ rw (n, e) (dangerous_reread isolation k)
    ]

-- A configuration of version 0 keeps its old limits: it is never a policy without restrictions, and
-- the network is denied exactly to the restricted words.
pub from_config-legacy :
    (v : String) (isolation : IsolationPolicy) (p : ExecutionPolicy)
    → from_config v 0 isolation ≡ ok p
    → (p.legacy ≢ none)
      × (host_access p ≡ false)
      × ((p.network_allowed ≡ false) ↔ (is_restricted_word v ≡ true))
unfolding from_config host_access
from_config-legacy v isolation p h =
    (ground arith, ground arith, (λ k. ground arith, λ k. ground arith))
