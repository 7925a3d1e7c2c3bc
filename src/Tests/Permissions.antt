-- ===== src/Tests/Permissions.antt =====
-- The permission rules of crates/visp-core/src/agent_definition.rs for a sub-agent that may edit.
use visp.Base.{◌≡◌, refl, inl, true, ◌&&◌, [], ◌∷◌, Text, codes, text_eq}
use visp.Core.Permission.{
  PermissionRule, allow, deny, star, fits, is_deny, check_permission, merge_permissions,
}
use visp.Core.Permission.Inheritance.{
  IsDenied, AllowsNothing, parent_deny_wins, merge_permissions-IsDenied,
}

abbrev bash : Text
bash = codes "bash"

abbrev edit : Text
edit = codes "edit"

abbrev no_bash : PermissionRule
no_bash = record { permission = bash; pattern = star; action = deny }

abbrev may_edit : PermissionRule
may_edit = record { permission = edit; pattern = star; action = allow }

abbrev may_bash : PermissionRule
may_bash = record { permission = bash; pattern = star; action = allow }

bash-fits : (is_deny no_bash && fits bash (codes "{}") no_bash) ≡ true
unfolding text_eq
bash-fits = refl

edit-AllowsNothing : AllowsNothing (fits bash (codes "{}")) (may_edit ∷ [])
unfolding text_eq
edit-AllowsNothing = ((λ h. cc), tt)

edit-AllowsNothing_wild : AllowsNothing (fits star (codes "{}")) (may_edit ∷ [])
unfolding text_eq
edit-AllowsNothing_wild = ((λ h. cc), tt)

parent_deny_wins_example :
    IsDenied
      (check_permission bash (codes "{}") (merge_permissions [] (no_bash ∷ []) (may_bash ∷ [])))
parent_deny_wins_example =
    parent_deny_wins bash (codes "{}") [] (no_bash ∷ []) (may_bash ∷ []) (inl bash-fits)

merge_permissions-IsDenied_example :
    IsDenied (check_permission bash (codes "{}") (merge_permissions [] [] (may_edit ∷ [])))
merge_permissions-IsDenied_example =
    merge_permissions-IsDenied bash (codes "{}") [] [] (may_edit ∷ []) edit-AllowsNothing
      edit-AllowsNothing_wild
