-- ===== src/Core/Permission.antt =====
-- crates/visp-core/src/agent_definition.rs: the permission rules of agents, how those of a sub-agent
-- are merged with its parent's, and the check of a tool call. The arguments of a call are given as the
-- text that they serialise to.
pub mod Inheritance
use visp.Base.{
  Bool, true, false, ◌&&◌, ◌||◌, Option, none, some, List, [], ◌∷◌, ◌++◌, Text, codes, text_eq, any,
  filter, if◌then◌else◌,
}

pub data PermissionAction : Type 0 where
  allow deny : PermissionAction

pub record PermissionRule : Type 0 where
  pub permission : Text
  pub pattern : Text
  pub action : PermissionAction

pub data PermissionDecision : Type 0 where
  allowed : PermissionDecision
  denied : Text → PermissionDecision

abbrev pub is_deny : PermissionRule → Bool
is_deny r = elim r.action [ allow ↦ false | deny ↦ true ]

-- "*"
abbrev pub star : Text
star = codes "*"

abbrev pub deny_all : PermissionRule
deny_all = record { permission = star; pattern = star; action = deny }

abbrev pub is_deny_all : PermissionRule → Bool
is_deny_all r = text_eq r.permission star && text_eq r.pattern star && is_deny r

-- The rules before the fallback.
abbrev pub inherited :
    List PermissionRule → List PermissionRule → List PermissionRule → List PermissionRule
inherited parent_session parent_agent subagent =
    filter is_deny parent_session ++ (filter is_deny parent_agent ++ subagent)

unfoldable pub merge_permissions :
    (parent_session_permission parent_agent_permission subagent_permission : List PermissionRule)
    → List PermissionRule
merge_permissions parent_session parent_agent subagent =
    let result = inherited parent_session parent_agent subagent in
    if any is_deny_all result then result else result ++ deny_all ∷ []

-- `str::starts_with` and `str::contains`
unfoldable pub starts_with : Text → Text → Bool
starts_with s [] = true
starts_with [] (d ∷ t) = false
starts_with (c ∷ s) (d ∷ t) = text_eq (c ∷ []) (d ∷ []) && starts_with s t

unfoldable pub contains_text : Text → Text → Bool
unfolding starts_with
contains_text [] t = starts_with [] t
contains_text (c ∷ s) t = starts_with (c ∷ s) t || contains_text s t

-- A rule for the tool `key` whose pattern fits the arguments.
abbrev pub fits : Text → Text → PermissionRule → Bool
fits key args_str r =
    text_eq r.permission key && (text_eq r.pattern star || contains_text args_str r.pattern)

abbrev pub exact_message : Text → PermissionRule → Text
exact_message name r =
    codes "permission denied: tool '"
    ++ (name ++ (codes "' is blocked by rule '" ++ (r.permission ++ codes "'")))

abbrev pub wildcard_message : Text → PermissionRule → Text
wildcard_message name r =
    codes "permission denied: tool '" ++ (name ++ codes "' blocked by wildcard rule")

-- One round over the rules: the first that fits decides.
unfoldable pub first_decision :
    (PermissionRule → Bool)
    → (PermissionRule → Text)
    → List PermissionRule
    → Option PermissionDecision
first_decision test message [] = none
first_decision test message (r ∷ rules) =
    if test r
    then some (elim r.action [ allow ↦ allowed | deny ↦ denied (message r) ])
    else first_decision test message rules

unfoldable pub check_permission : Text → Text → List PermissionRule → PermissionDecision
unfolding first_decision
check_permission name args_str rules =
    elim (first_decision (fits name args_str) (exact_message name) rules) [
      | some d ↦ d
      | none ↦ elim (first_decision (fits star args_str) (wildcard_message name) rules) [
        | some d ↦ d
        | none ↦ allowed
      ]
    ]
