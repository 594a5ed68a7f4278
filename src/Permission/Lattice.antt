-- ===== src/Permission/Lattice.antt =====
-- Combining execution policies (src-tauri/src/security/permission.rs): `intersect` is the meet of
-- the order "allows at most as much".
use gpt_tools_mcp.Prelude.{ℕ, ◌≤◌, ◌≡◌, refl, Bool, true, false, ◌&&◌, Option, none, some, arith}
use gpt_tools_mcp.Permission.{
  PermissionPreset, IsolationPolicy, LegacyRestrictions, ExecutionPolicy, default, full_access,
  strict, compatibility, host, restricted, trusted, dangerous, preset_rank, legacy_rank,
  restrictive_preset, restrictive_isolation, restrictive_legacy, intersect, host_access,
}

abbrev pub isolation_rank : IsolationPolicy → ℕ
isolation_rank strict = 0
isolation_rank compatibility = 1
isolation_rank host = 2

-- `a` allows at most what `b` allows, in each of the four dimensions.
pub record IsWithin (a b : ExecutionPolicy) : Type 0 where
  pub preset : preset_rank a.preset ≤ preset_rank b.preset
  pub isolation : isolation_rank a.isolation ≤ isolation_rank b.isolation
  pub network : a.network_allowed ≡ true → b.network_allowed ≡ true
  pub legacy : legacy_rank a.legacy ≤ legacy_rank b.legacy

-- `intersect a b` allows at most what `a` and what `b` allow, and it is the largest such policy.
pub intersect_greatest :
    (a b c : ExecutionPolicy)
    → IsWithin (intersect a b) a
      × IsWithin (intersect a b) b
      × (IsWithin c a → IsWithin c b → IsWithin c (intersect a b))
unfolding intersect
intersect_greatest a b c = (ground arith, ground arith, λ h k. ground arith)

restrictive_preset_assoc :
    (a b c : PermissionPreset)
    → restrictive_preset (restrictive_preset a b) c ≡ restrictive_preset a (restrictive_preset b c)
unfolding restrictive_preset
restrictive_preset_assoc default b c = ground arith
restrictive_preset_assoc full_access b c = ground arith

restrictive_isolation_assoc :
    (a b c : IsolationPolicy)
    → restrictive_isolation (restrictive_isolation a b) c
      ≡ restrictive_isolation a (restrictive_isolation b c)
unfolding restrictive_isolation
restrictive_isolation_assoc strict b c = ground arith
restrictive_isolation_assoc compatibility b c = ground arith
restrictive_isolation_assoc host b c = ground arith

restrictive_legacy_assoc :
    (a b c : Option LegacyRestrictions)
    → restrictive_legacy (restrictive_legacy a b) c ≡ restrictive_legacy a (restrictive_legacy b c)
unfolding restrictive_legacy
restrictive_legacy_assoc none b c = ground arith
restrictive_legacy_assoc (some restricted) b c = ground arith
restrictive_legacy_assoc (some trusted) b c = ground arith
restrictive_legacy_assoc (some dangerous) b c = ground arith

and_assoc : (a b c : Bool) → ((a && b) && c) ≡ (a && (b && c))
and_assoc true b c = refl
and_assoc false b c = refl

intersect_assoc :
    (a b c : ExecutionPolicy) → intersect (intersect a b) c ≡ intersect a (intersect b c)
unfolding intersect
intersect_assoc a b c = λ i. record {
  preset = restrictive_preset_assoc a.preset b.preset c.preset i;
  isolation = restrictive_isolation_assoc a.isolation b.isolation c.isolation i;
  network_allowed = and_assoc a.network_allowed b.network_allowed c.network_allowed i;
  legacy = restrictive_legacy_assoc a.legacy b.legacy c.legacy i;
}

-- Combining policies does not depend on the order, on the grouping or on repetition.
pub intersect_laws :
    (a b c : ExecutionPolicy)
    → (intersect a b ≡ intersect b a)
      × (intersect (intersect a b) c ≡ intersect a (intersect b c))
      × (intersect a a ≡ a)
unfolding intersect
intersect_laws a b c = (ground arith, intersect_assoc a b c, ground arith)

-- Host access survives the combination exactly when both policies have it.
pub host_access-intersect :
    (a b : ExecutionPolicy) → host_access (intersect a b) ≡ (host_access a && host_access b)
unfolding host_access intersect
host_access-intersect a b = ground arith
