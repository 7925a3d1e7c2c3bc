-- ===== src/Hooks/Rules.antt =====
-- The decision part of crates/visp-hooks/src/dispatcher.rs: which rules an event fires, in which order.
-- `Regex` is a parameter: it compiles a pattern to a test of texts, or refuses it.
pub mod Sorted
use visp.Base.{
  ℕ, ◌≡◌, Bool, true, false, not, ◌&&◌, ◌||◌, Option, none, some, List, [], ◌∷◌, ◌++◌, map, Text,
  codes, text_eq, if◌then◌else◌, filter, any, leb, ltb, ◌==◌,
}

-- event.rs
pub data HookEventName : Type 0 where
  session_start user_prompt_submit agent_run_end subagent_stop stop stop_failure : HookEventName
  tool_call_requested pre_tool_use post_tool_use post_tool_use_failure : HookEventName
  permission_request permission_result session_end : HookEventName

-- `as_str`
unfoldable pub as_str : HookEventName → Text
as_str session_start = codes "SessionStart"
as_str user_prompt_submit = codes "UserPromptSubmit"
as_str agent_run_end = codes "AgentRunEnd"
as_str subagent_stop = codes "SubagentStop"
as_str stop = codes "Stop"
as_str stop_failure = codes "StopFailure"
as_str tool_call_requested = codes "ToolCallRequested"
as_str pre_tool_use = codes "PreToolUse"
as_str post_tool_use = codes "PostToolUse"
as_str post_tool_use_failure = codes "PostToolUseFailure"
as_str permission_request = codes "PermissionRequest"
as_str permission_result = codes "PermissionResult"
as_str session_end = codes "SessionEnd"

-- The derived equality, by the names, which are all different.
abbrev event_eq : HookEventName → HookEventName → Bool
event_eq a b = text_eq (as_str a) (as_str b)

pub data QueuePolicy : Type 0 where
  drop_new drop_old coalesce_latest : QueuePolicy

pub record DispatchInput : Type 0 where
  pub event : HookEventName
  pub tool_name : Option Text
  pub source : Option Text
  pub kind : Option Text
  pub payload : Option Text

-- An `i64`, by its sign.
pub data ℤ : Type 0 where
  pos negsuc : ℕ → ℤ

pub record DispatchRule : Type 0 where
  pub id : Text
  pub order : Option ℤ
  pub event : List HookEventName
  pub matcher : Option Text
  pub enabled : Bool
  pub on_full : QueuePolicy
  pub parallel : Bool
  pub cooldown_ms : ℕ

abbrev flatten_options : List (Option Text) → List Text
flatten_options [] = []
flatten_options (none ∷ os) = flatten_options os
flatten_options (some t ∷ os) = t ∷ flatten_options os

unfoldable pub match_targets : DispatchInput → List Text
match_targets input = flatten_options (input.tool_name ∷ input.source ∷ input.kind ∷ [])

unfoldable pub int_le : ℤ → ℤ → Bool
int_le (pos a) (pos b) = leb a b
int_le (pos a) (negsuc b) = false
int_le (negsuc a) (pos b) = true
int_le (negsuc a) (negsuc b) = leb b a

-- `Ord` of two strings, which is that of their code points.
unfoldable pub text_le : Text → Text → Bool
text_le [] t = true
text_le (c ∷ s) [] = false
text_le (c ∷ s) (d ∷ t) = ltb c d || (c == d && text_le s t)

unfoldable pub order_of : DispatchRule → ℤ
order_of rule = elim rule.order [ none ↦ pos 0 | some n ↦ n ]

-- `order_key(a).cmp(&order_key(b))` is not `Greater`.
unfoldable pub key_le : DispatchRule → DispatchRule → Bool
unfolding order_of
key_le a b =
    if int_le (order_of a) (order_of b)
    then (if int_le (order_of b) (order_of a) then text_le a.id b.id else true)
    else false

-- `sort_by`, which is stable.
unfoldable pub insert_sorted : DispatchRule → List DispatchRule → List DispatchRule
unfolding key_le
insert_sorted r [] = r ∷ []
insert_sorted r (x ∷ xs) = if key_le r x then r ∷ x ∷ xs else x ∷ insert_sorted r xs

unfoldable pub sort_rules : List DispatchRule → List DispatchRule
unfolding insert_sorted
sort_rules [] = []
sort_rules (r ∷ rs) = insert_sorted r (sort_rules rs)

pub data MatcherState : Type 0 where
  matches_all : MatcherState
  pattern_of : (Text → Bool) → MatcherState
  invalid : MatcherState

module _ (regex : Text → Option (Text → Bool)) where
  unfoldable pub matches : DispatchRule → DispatchInput → Bool
  unfolding match_targets
  matches rule input =
      if not rule.enabled || not (any (event_eq input.event) rule.event)
      then false
      else elim rule.matcher [
        | none ↦ true
        | some pattern ↦ elim (regex pattern) [
          | some is_match ↦ any is_match (match_targets input)
          | none ↦ false
        ]
      ]

  unfoldable pub select_matches : List DispatchRule → DispatchInput → List DispatchRule
  unfolding matches sort_rules
  select_matches rules input = sort_rules (filter (λ rule. matches rule input) rules)

  -- The matcher of `RuleRuntime::new`.
  unfoldable pub compiled : DispatchRule → MatcherState
  compiled spec = elim spec.matcher [
    | none ↦ matches_all
    | some pattern ↦ elim (regex pattern) [ some is_match ↦ pattern_of is_match | none ↦ invalid ]
  ]

-- `matched` of a rule with its compiled matcher.
unfoldable pub matched : DispatchRule → MatcherState → DispatchInput → Bool
unfolding match_targets
matched spec matcher input =
    if not spec.enabled || not (any (event_eq input.event) spec.event)
    then false
    else elim matcher [
      | matches_all ↦ true
      | invalid ↦ false
      | pattern_of is_match ↦ any is_match (match_targets input)
    ]
