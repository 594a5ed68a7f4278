-- ===== src/Approval/Cleanup.antt =====
-- Lemmas on the clean-up that every operation of the approval store begins with.

use gpt_tools_mcp.Prelude.{
  ℕ, ◌≤◌, String, ◌≡◌, refl, List, Option, none, some, arith, length, length-retain-le, length-map,
  retain, if◌then◌else◌,
}
use gpt_tools_mcp.Prelude.Assoc.{
  get, Distinct, get-retain-none, get-retain-some, get-map_values, map_values, Distinct-retain,
  Distinct-map_values,
}
use gpt_tools_mcp.Approval.{Record}
use gpt_tools_mcp.Approval.Store.{expire, is_kept, cleanup_locked}

pub Distinct-cleanup :
    (now : ℕ) (rs : List (String × Record)) → Distinct rs → Distinct (cleanup_locked now rs)
unfolding cleanup_locked
Distinct-cleanup now rs d =
    Distinct-retain (is_kept now) (map_values (expire now) rs)
      (Distinct-map_values (expire now) rs d)

-- What is left of a looked-up record by the clean-up.
abbrev pub after_cleanup : ℕ → Option Record → Option Record
after_cleanup now none = none
after_cleanup now (some r) = if is_kept now (expire now r) then some (expire now r) else none

pub get-cleanup :
    (now : ℕ) (id : String) (rs : List (String × Record))
    → Distinct rs
    → get id (cleanup_locked now rs) ≡ after_cleanup now (get id rs)
unfolding cleanup_locked
get-cleanup now id rs d = go (get id rs) refl
  where
    go :
        (o : Option Record)
        → get id rs ≡ o
        → get id (retain (λ e. is_kept now e.1) (map_values (expire now) rs)) ≡ after_cleanup now o
    go none e =
        get-retain-none (is_kept now) id (map_values (expire now) rs)
          (cc (get-map_values (expire now) id rs))
    go (some r) e =
        get-retain-some (is_kept now) id (expire now r) (map_values (expire now) rs)
          (Distinct-map_values (expire now) rs d) (cc (get-map_values (expire now) id rs))

pub length-cleanup-le :
    (now : ℕ) (rs : List (String × Record)) → length (cleanup_locked now rs) ≤ length rs
unfolding cleanup_locked
length-cleanup-le now rs = omega (
  arith,
  length-retain-le (λ (e : String × Record). is_kept now e.1) (map_values (expire now) rs),
  length-map (λ (e : String × Record). let x : String × Record = (e.0, expire now e.1) in x) rs,
)
