-- ===== src/Workflow/Policy/Clean.antt =====
-- What a specification must be for `Validate` to report nothing, check by check.
use paihuo.Prelude.{
  ℕ, ◌≡◌, ◌↔◌, refl, String, Bool, true, false, not, ◌&&◌, Option, none, some, List, [], ◌∷◌, ◌++◌,
  arith, All, length,
}
use paihuo.Prelude.Signed.{ℤ, pos, ◌≤ℤ◌, ltb_ℤ→le, le→ltb_ℤ}
use paihuo.Workflow.Spec.{Node, Spec, Code, Violation}
use paihuo.Workflow.Text.{is_blank, dangerous_action, invalid_reference}
use paihuo.Workflow.Policy.{
  adds, limit_checks, RoleCapabilities, Policy, report, outside, check_limits, check_capabilities,
  check_role, check_actions, check_refs,
}

pub append-nil : (xs ys : List Violation) → xs ++ ys ≡ [] → (xs ≡ []) × (ys ≡ [])
append-nil [] ys h = (refl, h)
append-nil (x ∷ xs) ys h = absurd (cc)

-- A row of tests reports nothing exactly if each reports nothing.
pub adds-nil : (vs : List (List Violation)) → adds vs ≡ [] → All (λ v. v ≡ []) vs
adds-nil [] h = tt
adds-nil (v ∷ vs) h = let (e, f) = append-nil v (adds vs) h in (e, adds-nil vs f)

pub nil-adds : (vs : List (List Violation)) → All (λ v. v ≡ []) vs → adds vs ≡ []
nil-adds [] h = refl
nil-adds (v ∷ vs) h = rw (h.0, nil-adds vs h.1)

pub report-nil : (test : Bool) (code : Code) (i : String) → report test code i ≡ [] → test ≡ false
report-nil test code i h = ground arith

pub nil-report : (test : Bool) (code : Code) (i : String) → test ≡ false → report test code i ≡ []
nil-report test code i h = rw h

abbrev pub Within : ℤ → ℤ → ℤ → Type 0
Within low high value = (low ≤ℤ value) × (value ≤ℤ high)

outside-Within : (low high value : ℤ) → outside low high value ≡ false → Within low high value
outside-Within low high value h =
    (ltb_ℤ→le value low (ground arith), ltb_ℤ→le high value (ground arith))

Within-outside : (low high value : ℤ) → Within low high value → outside low high value ≡ false
Within-outside low high value h = ground (arith, le→ltb_ℤ value low, le→ltb_ℤ high value)

-- The goal and the limits.
pub record LimitsOk (p : Policy) (spec : Spec) : Type 0 where
  pub goal : is_blank spec.goal ≡ false
  pub max_nodes : Within (pos 1) p.max_nodes spec.limits.max_nodes
  pub max_depth : Within (pos 1) p.max_depth spec.limits.max_depth
  pub max_concurrency : Within (pos 1) p.max_concurrency spec.limits.max_concurrency
  pub budget : Within (pos 0) p.max_budget spec.limits.budget
  pub nodes : Within (pos 1) p.max_nodes (pos (length spec.nodes))
  pub count : pos (length spec.nodes) ≤ℤ spec.limits.max_nodes

pub check_limits-Ok : (p : Policy) (spec : Spec) → check_limits p spec ≡ [] → LimitsOk p spec
unfolding check_limits
check_limits-Ok p spec h = let hs = adds-nil (limit_checks p spec) h in ground arith

pub Ok-check_limits : (p : Policy) (spec : Spec) → LimitsOk p spec → check_limits p spec ≡ []
unfolding check_limits
Ok-check_limits p spec h = nil-adds (limit_checks p spec) (ground arith)

-- The role of a node.
abbrev pub RoleOk : Node → Option (ℕ → RoleCapabilities) → Type 0
RoleOk n none = Unit
RoleOk n (some resolve) =
    ((resolve n.role.role_id).exists ≡ true)
    × ((resolve n.role.role_id).enabled ≡ true)
    × All (λ c. (resolve n.role.role_id).capabilities c ≡ true)
        ("batch" ∷ n.role.required_capabilities)

pub capabilities_iff :
    (i : String) (has : String → Bool) (cs : List String)
    → (check_capabilities i has cs ≡ []) ↔ All (λ c. has c ≡ true) cs
unfolding check_capabilities
capabilities_iff i has [] = (λ e. tt, λ u. refl)
capabilities_iff i has (c ∷ cs) =
    let ih = capabilities_iff i has cs in
    (
      λ e.
          let (f, g) =
            append-nil (report (not (has c)) Code.runtime_capability i)
              (check_capabilities i has cs) e in
          (ground arith, ih.0 g),
      λ (f, g). rw (f, ih.1 g),
    )

pub actions_iff :
    (n : Node) (xs : List String)
    → (check_actions n xs ≡ [])
      ↔ All (λ a. dangerous_action a ≡ true → n.approval_required ≡ true) xs
unfolding check_actions
actions_iff n [] = (λ e. tt, λ u. refl)
actions_iff n (x ∷ xs) =
    let ih = actions_iff n xs in
    (
      λ e.
          let (f, g) =
            append-nil
              (report (dangerous_action x && not n.approval_required) Code.approval_required n.id)
              (check_actions n xs) e in
          (λ d. ground arith, ih.0 g),
      λ (f, g). rw (
        nil-report (dangerous_action x && not n.approval_required) Code.approval_required n.id
            (ground arith),
        ih.1 g,
      ),
    )

pub refs_iff :
    (n : Node) (xs : List String)
    → (check_refs n xs ≡ []) ↔ All (λ r. invalid_reference r ≡ false) xs
unfolding check_refs
refs_iff n [] = (λ e. tt, λ u. refl)
refs_iff n (x ∷ xs) =
    let ih = refs_iff n xs in
    (
      λ e.
          let (f, g) =
            append-nil (report (invalid_reference x) Code.input_reference n.id) (check_refs n xs)
              e in
          (ground arith, ih.0 g),
      λ (f, g). rw (f, ih.1 g),
    )

pub role_iff :
    (n : Node) (resolve : Option (ℕ → RoleCapabilities))
    → (check_role n resolve ≡ []) ↔ RoleOk n resolve
unfolding check_role
role_iff n none = (λ e. tt, λ u. refl)
role_iff n (some resolve) =
    let role = resolve n.role.role_id in
    let caps = "batch" ∷ n.role.required_capabilities in
    (
      λ e. ground (arith, capabilities_iff n.id role.capabilities caps),
      λ (e, f, g). rw (e, f, (capabilities_iff n.id role.capabilities caps).1 g),
    )
