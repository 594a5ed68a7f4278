-- ===== src/Context/Forward.antt =====
-- What a locked worktree stays like (src-tauri/src/mcp/workspace_context.rs).
use gpt_tools_mcp.Prelude.{
  ℕ, ◌+◌, ◌<◌, ◌≤◌, ◌≡◌, refl, ap, ◌∙◌, subst, String, Bool, true, false, List, [], ◌∷◌, none, some,
  ◌⊎◌, str_eq, eq_iff, inl, inr, Bool-cases, Option-cases, arith,
}
use gpt_tools_mcp.Prelude.Result.{Result-cases}
use gpt_tools_mcp.Json.{Value}
use gpt_tools_mcp.Context.{System, GitIdentity, ContextResult, path_is_within, context_expired}
use gpt_tools_mcp.Context.Git.{is_ancestor}
use gpt_tools_mcp.Context.Pin.{
  PinOptions, WorkspaceContextPin, from_value, create_for_access, is_protected_branch, accept_head,
  observed, validate,
}

from_value-ttl :
    (args : Value) (o : PinOptions) → from_value args ≡ inr o → (300 ≤ o.ttl) × (o.ttl ≤ 28800)
unfolding from_value
from_value-ttl args o h = ground arith

-- The observations of successive validations; a refused one leaves the pin as it was.
abbrev or_unchanged : WorkspaceContextPin → ContextResult WorkspaceContextPin → WorkspaceContextPin
or_unchanged pin (inl e) = pin
or_unchanged pin (inr now) = now

unfoldable pub validations : List (System × ℕ) → WorkspaceContextPin → WorkspaceContextPin
unfolding validate
validations [] pin = pin
validations ((os, now) ∷ rest) pin = validations rest (or_unchanged pin (validate os now pin))

-- From one HEAD to another by steps that git called ancestry when each was made.
pub data IsForward (root : String) (from : String) : String → Type 0 where
  same : IsForward root from from
  moved :
      {middle : String} (os : System) (to : String)
      → IsForward root from middle
      → is_ancestor os root middle to ≡ inr true
      → IsForward root from to

-- What stays of a pin, and how its HEAD moved.
pub record Follows (pin after : WorkspaceContextPin) : Type 0 where
  pub host_access : after.host_access ≡ pin.host_access
  pub active_root : after.active_root ≡ pin.active_root
  pub git_dir : after.git_dir ≡ pin.git_dir
  pub git_common_dir : after.git_common_dir ≡ pin.git_common_dir
  pub branch : after.branch ≡ pin.branch
  pub initial_head : after.initial_head ≡ pin.initial_head
  pub expires_at : after.expires_at ≡ pin.expires_at
  pub head : IsForward pin.active_root pin.last_head after.last_head

Follows-refl : (pin : WorkspaceContextPin) → Follows pin pin
Follows-refl pin = record {
  host_access = refl;
  active_root = refl;
  git_dir = refl;
  git_common_dir = refl;
  branch = refl;
  initial_head = refl;
  expires_at = refl;
  head = same;
}

IsForward-trans :
    {root a b c : String} → IsForward root a b → IsForward root b c → IsForward root a c
IsForward-trans f same = f
IsForward-trans f (moved os to g h) = moved os to (IsForward-trans f g) h

Follows-trans : (p q r : WorkspaceContextPin) → Follows p q → Follows q r → Follows p r
Follows-trans p q r f g = record {
  host_access = g.host_access ∙ f.host_access;
  active_root = g.active_root ∙ f.active_root;
  git_dir = g.git_dir ∙ f.git_dir;
  git_common_dir = g.git_common_dir ∙ f.git_common_dir;
  branch = g.branch ∙ f.branch;
  initial_head = g.initial_head ∙ f.initial_head;
  expires_at = g.expires_at ∙ f.expires_at;
  head =
      IsForward-trans f.head
        (subst (λ root. IsForward root q.last_head r.last_head) f.active_root g.head);
}

accept_head-Follows :
    (os : System) (identity : GitIdentity) (pin after : WorkspaceContextPin)
    → pin.host_access ≡ false
    → accept_head os identity pin ≡ inr after
    → Follows pin after
unfolding accept_head
accept_head-Follows os identity pin after guest h =
    elim (Bool-cases (str_eq identity.head pin.last_head)) [
      | inl e ↦
          let done : pin ≡ after = ground (arith, guest, e, h) in
          subst (Follows pin) done (Follows-refl pin)
      | inr e ↦
          let asked : is_ancestor os pin.active_root pin.last_head identity.head ≡ inr true =
            ground (arith, guest, e, h) in
          let done : record pin { last_head = identity.head } ≡ after =
            ground (arith, guest, e, h) in
          subst (Follows pin) done (record {
            host_access = refl;
            active_root = refl;
            git_dir = refl;
            git_common_dir = refl;
            branch = refl;
            initial_head = refl;
            expires_at = refl;
            head = moved os identity.head same asked;
          })
    ]

-- A success of `validate` is one of its last step, before the expiry.
validate-ok :
    (os : System) (now : ℕ) (pin after : WorkspaceContextPin)
    → validate os now pin ≡ inr after
    → (now < pin.expires_at)
      × ((identity : GitIdentity) × (accept_head os identity pin ≡ inr after))
unfolding validate
validate-ok os now pin after h = elim (Result-cases (observed os pin)) [
  | inl (e, q) ↦ absurd (ground (arith, h, q))
  | inr (identity, q) ↦ (ground (arith, h), (identity, ground (arith, h, q)))
]

validate-Follows :
    (os : System) (now : ℕ) (pin : WorkspaceContextPin)
    → pin.host_access ≡ false
    → Follows pin (or_unchanged pin (validate os now pin))
validate-Follows os now pin guest = elim (Result-cases (validate os now pin)) [
  | inl (e, q) ↦ rw q (Follows-refl pin)
  | inr (after, q) ↦
      let (_, (identity, accepted)) = validate-ok os now pin after q in
      rw q (accept_head-Follows os identity pin after guest accepted)
]

-- Without host access, whatever validations are made, accepted or refused, the worktree, the branch
-- and the expiry of a pin stay, and its HEAD moves only forward from the one that was pinned.
pub validations-Follows :
    (seen : List (System × ℕ)) (pin : WorkspaceContextPin)
    → pin.host_access ≡ false
    → Follows pin (validations seen pin)
unfolding validations
validations-Follows [] pin guest = Follows-refl pin
validations-Follows ((os, now) ∷ seen) pin guest =
    let next = or_unchanged pin (validate os now pin) in
    let step = validate-Follows os now pin guest in
    Follows-trans pin next (validations seen next) step
      (validations-Follows seen next (step.host_access ∙ guest))

validate-expires_at :
    (os : System) (now : ℕ) (pin : WorkspaceContextPin)
    → (or_unchanged pin (validate os now pin)).expires_at ≡ pin.expires_at
unfolding validate accept_head
validate-expires_at os now pin = ground arith

validations-expires_at :
    (seen : List (System × ℕ)) (pin : WorkspaceContextPin)
    → (validations seen pin).expires_at ≡ pin.expires_at
unfolding validations
validations-expires_at [] pin = refl
validations-expires_at ((os, now) ∷ seen) pin =
    validations-expires_at seen (or_unchanged pin (validate os now pin))
    ∙ validate-expires_at os now pin

create-expires_at :
    (os : System) (now : ℕ) (root : String) (o : PinOptions) (source : String) (host : Bool)
    (pin : WorkspaceContextPin)
    → create_for_access os now root o source host ≡ inr pin
    → pin.expires_at ≡ now + o.ttl
unfolding create_for_access
create-expires_at os now root o source host pin h = ground (arith, h)

-- A pin made from any arguments is refused by `validate` 480 minutes after it was made, and is valid
-- for at least 5 minutes: its expiry lies between, whatever validations come before.
pub expires_within :
    (os : System) (now : ℕ) (args : Value) (root source : String) (host : Bool) (o : PinOptions)
    (pin : WorkspaceContextPin) (seen : List (System × ℕ)) (later_os : System) (later : ℕ)
    → from_value args ≡ inr o
    → create_for_access os now root o source host ≡ inr pin
    → now + 28800 ≤ later
    → (validate later_os later (validations seen pin) ≡ inl context_expired)
      × (now + 300 ≤ (validations seen pin).expires_at)
unfolding validate
expires_within os now args root source host o pin seen later_os later read made late =
    let ttl = from_value-ttl args o read in
    let born = create-expires_at os now root o source host pin made in
    let kept = validations-expires_at seen pin in
    (ground (arith, ttl, born, kept, late), omega (arith, ttl.0, born, kept))

-- A pin is made only on the top directory of a worktree inside the configured workspace, on the
-- expected branch if one is given, and, without host access, on main or master only if the caller
-- allows it and confirms it.
pub create_for_access_lem :
    (os : System) (now : ℕ) (root : String) (o : PinOptions) (source : String) (host : Bool)
    (pin : WorkspaceContextPin)
    → create_for_access os now root o source host ≡ inr pin
    → (path_is_within os pin.configured_root pin.active_root ≡ true)
      × (os.is_dir pin.active_root ≡ true)
      × ((o.expected_branch ≡ none) ⊎ (o.expected_branch ≡ some pin.branch))
      × ((host ≡ true)
          ⊎ ((is_protected_branch pin.branch ≡ false)
              ⊎ ((o.allow_protected_branch ≡ true) × (o.confirm ≡ true))))
      × (pin.initial_head ≡ pin.last_head)
unfolding create_for_access
create_for_access_lem os now root o source host pin h = (
  ground (arith, h),
  ground (arith, h),
  elim (Option-cases o.expected_branch) [
    | inl e ↦ inl e
    | inr (b, e) ↦
        let same : str_eq b pin.branch ≡ true = ground (arith, h, e) in
        inr (e ∙ ap some ((eq_iff b pin.branch).0 same))
  ],
  ground (arith, h),
  ground (arith, h),
)
