-- ===== src/Core/Permission/Inheritance.antt =====
-- What a sub-agent inherits of its parent's permission rules.
use visp.Base.{
  ◌≡◌, refl, inl, inr, ◌⊎◌, Bool, true, ◌&&◌, Option, none, some, List, [], ◌∷◌, ◌++◌, Text,
  text_eq_refl, any, filter, arith, Bool-cases, All-append, Any-mono, any→Any, Any-append_right,
  &&_iff, ◌≢◌, append-nil, Any-append_cases, Any, All, append_assoc,
}
use visp.Core.Permission.{
  PermissionRule, PermissionDecision, denied, is_deny, star, deny_all, is_deny_all, inherited,
  merge_permissions, fits, exact_message, wildcard_message, first_decision, check_permission,
}

abbrev pub IsDenied : PermissionDecision → Type 0
IsDenied d = (reason : Text) × (d ≡ denied reason)

abbrev Denies : Option PermissionDecision → Type 0
Denies o = (reason : Text) × (o ≡ some (denied reason))

module _ (test : PermissionRule → Bool) (message : PermissionRule → Text) where
  -- A deny rule in front never turns a denial into anything else.
  Denies-cons :
      (r : PermissionRule) (rest : List PermissionRule)
      → is_deny r ≡ true
      → Denies (first_decision test message rest)
      → Denies (first_decision test message (r ∷ rest))
  unfolding first_decision
  Denies-cons r rest d h = elim (Bool-cases (test r)) [
    | inl e ↦ (message r, rw e (ground arith))
    | inr e ↦ rw e h
  ]

  Denies-filter :
      (rules rest : List PermissionRule)
      → Denies (first_decision test message rest)
      → Denies (first_decision test message (filter is_deny rules ++ rest))
  Denies-filter [] rest h = h
  Denies-filter (r ∷ rules) rest h = elim (Bool-cases (is_deny r)) [
    | inl d ↦ rw d (Denies-cons r (filter is_deny rules ++ rest) d (Denies-filter rules rest h))
    | inr d ↦ rw d (Denies-filter rules rest h)
  ]

  -- Rules that only deny, one of which fits, decide against the call, whatever stands behind them.
  Denies-Any :
      (rules rest : List PermissionRule)
      → Any (λ r. (is_deny r && test r) ≡ true) rules
      → Denies (first_decision test message (filter is_deny rules ++ rest))
  unfolding first_decision
  Denies-Any [] rest h = absurd h
  Denies-Any (r ∷ rules) rest (inl h) =
      let (d, e) = (&&_iff (is_deny r) (test r)).0 h in
      rw (d, first_decision, e) (message r, ground arith)
  Denies-Any (r ∷ rules) rest (inr h) = elim (Bool-cases (is_deny r)) [
    | inl d ↦ rw d (Denies-cons r (filter is_deny rules ++ rest) d (Denies-Any rules rest h))
    | inr d ↦ rw d (Denies-Any rules rest h)
  ]

  -- Where every rule that fits denies, nothing is allowed.
  no_allow :
      (rules : List PermissionRule)
      → All (λ r. test r ≡ true → is_deny r ≡ true) rules
      → (first_decision test message rules ≡ none) ⊎ Denies (first_decision test message rules)
  unfolding first_decision
  no_allow [] h = inl refl
  no_allow (r ∷ rules) h = elim (Bool-cases (test r)) [
    | inl e ↦ inr (message r, ground (arith, h.0 e))
    | inr e ↦ rw e (no_allow rules h.1)
  ]

  decided :
      (rules : List PermissionRule)
      → Any (λ r. test r ≡ true) rules
      → first_decision test message rules ≢ none
  unfolding first_decision
  decided [] h = absurd h
  decided (r ∷ rules) (inl h) = ground arith
  decided (r ∷ rules) (inr h) = ground (arith, decided rules h)

check-exact :
    (name args_str : Text) (rules : List PermissionRule) (d : PermissionDecision)
    → first_decision (fits name args_str) (exact_message name) rules ≡ some d
    → check_permission name args_str rules ≡ d
unfolding check_permission
check-exact name args_str rules d e = rw (e, check_permission) refl

check-wildcard :
    (name args_str : Text) (rules : List PermissionRule) (d : PermissionDecision)
    → first_decision (fits name args_str) (exact_message name) rules ≡ none
    → first_decision (fits star args_str) (wildcard_message name) rules ≡ some d
    → check_permission name args_str rules ≡ d
unfolding check_permission
check-wildcard name args_str rules d e f = rw (e, check_permission, f) refl

merged-prefix :
    (ps pa sub : List PermissionRule)
    → (tail : List PermissionRule) × (merge_permissions ps pa sub
        ≡ filter is_deny ps ++ (filter is_deny pa ++ (sub ++ tail)))
unfolding merge_permissions
merged-prefix ps pa sub = elim (Bool-cases (any is_deny_all (inherited ps pa sub))) [
  | inl e ↦ ([], rw (e, append-nil) refl)
  | inr e ↦ (deny_all ∷ [], rw e (simp append_assoc))
]

-- A deny rule of the parent, of its session or of its agent, for the very tool and with a pattern that
-- fits the arguments, denies the call to the sub-agent, whatever rules the sub-agent has.
pub parent_deny_wins :
    (name args_str : Text) (ps pa sub : List PermissionRule)
    → Any (λ r. (is_deny r && fits name args_str r) ≡ true) (ps ++ pa)
    → IsDenied (check_permission name args_str (merge_permissions ps pa sub))
parent_deny_wins name args_str ps pa sub h =
    let (tail, e) = merged-prefix ps pa sub in
    let test = fits name args_str in
    let message = exact_message name in
    let (reason, d) : Denies (first_decision test message (merge_permissions ps pa sub)) =
      rw e (elim (Any-append_cases _ ps pa h) [
        | inl session ↦ Denies-Any test message ps (filter is_deny pa ++ (sub ++ tail)) session
        | inr agent ↦
            Denies-filter test message ps (filter is_deny pa ++ (sub ++ tail))
              (Denies-Any test message pa (sub ++ tail) agent)
      ]) in
    (reason, check-exact name args_str _ (denied reason) d)

-- The sub-agent allows nothing of its own that fits the call.
abbrev pub AllowsNothing : (PermissionRule → Bool) → List PermissionRule → Type 0
AllowsNothing test rules = All (λ r. test r ≡ true → is_deny r ≡ true) rules

AllowsNothing-filter :
    (test : PermissionRule → Bool) (rules : List PermissionRule)
    → AllowsNothing test (filter is_deny rules)
AllowsNothing-filter test [] = tt
AllowsNothing-filter test (r ∷ rules) = elim (Bool-cases (is_deny r)) [
  | inl d ↦ rw d ((λ _. d), AllowsNothing-filter test rules)
  | inr d ↦ rw d (AllowsNothing-filter test rules)
]

merged-AllowsNothing :
    (test : PermissionRule → Bool) (ps pa sub : List PermissionRule)
    → AllowsNothing test sub
    → AllowsNothing test (merge_permissions ps pa sub)
unfolding merge_permissions
merged-AllowsNothing test ps pa sub h =
    let P = λ (r : PermissionRule). test r ≡ true → is_deny r ≡ true in
    let all_of : AllowsNothing test (inherited ps pa sub) =
      All-append P (filter is_deny ps) (filter is_deny pa ++ sub) (AllowsNothing-filter test ps)
        (All-append P (filter is_deny pa) sub (AllowsNothing-filter test pa) h) in
    elim (Bool-cases (any is_deny_all (inherited ps pa sub))) [
      | inl e ↦ rw e all_of
      | inr e ↦ rw e (All-append P (inherited ps pa sub) (deny_all ∷ []) all_of ((λ _. refl), tt))
    ]

star-fits : (args_str : Text) → fits star args_str deny_all ≡ true
star-fits args_str = ground (arith, text_eq_refl star)

merged-deny_all :
    (args_str : Text) (ps pa sub : List PermissionRule)
    → Any (λ r. fits star args_str r ≡ true) (merge_permissions ps pa sub)
unfolding merge_permissions
merged-deny_all args_str ps pa sub = elim (Bool-cases (any is_deny_all (inherited ps pa sub))) [
  | inl e ↦ rw e (
      Any-mono (inherited ps pa sub) (λ r h. ground arith)
        (any→Any is_deny_all (inherited ps pa sub) e))
  | inr e ↦
      rw e (Any-append_right _ (inherited ps pa sub) (deny_all ∷ []) (inl (star-fits args_str)))
]

-- A sub-agent without a rule that allows the call, by name or by wildcard, is denied it: the merged
-- rules end in a denial of everything.
pub merge_permissions-IsDenied :
    (name args_str : Text) (ps pa sub : List PermissionRule)
    → AllowsNothing (fits name args_str) sub
    → AllowsNothing (fits star args_str) sub
    → IsDenied (check_permission name args_str (merge_permissions ps pa sub))
merge_permissions-IsDenied name args_str ps pa sub exact wild =
    let rules = merge_permissions ps pa sub in
    elim (no_allow (fits name args_str) (exact_message name) rules
      (merged-AllowsNothing (fits name args_str) ps pa sub exact)) [
        | inr (reason, e) ↦ (reason, check-exact name args_str rules (denied reason) e)
        | inl e ↦
            elim (no_allow (fits star args_str) (wildcard_message name) rules
              (merged-AllowsNothing (fits star args_str) ps pa sub wild)) [
                | inl undecided ↦ absurd (
                    decided (fits star args_str) (wildcard_message name) rules
                      (merged-deny_all args_str ps pa sub) undecided)
                | inr (reason, d) ↦ (reason, check-wildcard name args_str rules (denied reason) e d)
              ]
      ]
