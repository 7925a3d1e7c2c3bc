-- ===== src/Core/AgentLoop/Prompt.antt =====
-- `setup_iteration` of crates/visp-core/src/agent_loop.rs, with `PromptBuilder::build` of prompt.rs. The
-- rules, the date, the tool guide, the instruction on queries (a constant of prompt.rs) and the trimmer
-- (a trait object; Context models the default one) are inputs.
use visp.Base.{ℕ, ◌&&◌, some, List, [], ◌∷◌, ◌++◌, Text, codes, if◌then◌else◌, ltb, leb}
use visp.Core.Message.{Message, of_system}
use visp.Core.Session.{SessionStore, Session, Result, ok, err}
use visp.Core.ToolRegistry.{ToolDefinition, ToolRegistry, definitions}
use visp.Core.AgentLoop.Events.{max_iterations, internal}
use visp.Core.AgentLoop.Cleanup.{cleanup_orphan_tool_uses, retained}
use visp.Core.AgentLoop.Marker.{trim_start}
use visp.Core.AgentLoop.World.{Outside, Loop, Action, is_cancelled, fail, cancel, ToolRun}

pub record PromptInputs : Type 0 where
  pub instruction : Text
  pub rules : Text
  pub date : ℕ → Text
  pub working_dir : Text
  pub render_tool_guide : List ToolDefinition → Text
  pub max_context_tokens : ℕ
  pub max_tokens : ℕ
  pub trimmer : List Message → (max_ctx overhead output : ℕ) → List Message

abbrev pub instructions : Text → Text → Text → Text
instructions instruction [] [] = trim_start instruction
instructions instruction [] (r ∷ rules) =
    codes "## Instructions\n\n" ++ ((r ∷ rules) ++ instruction)
instructions instruction (c ∷ template) [] = (c ∷ template) ++ instruction
instructions instruction (c ∷ template) (r ∷ rules) =
    (c ∷ template) ++ (codes "\n\n## Instructions\n\n" ++ ((r ∷ rules) ++ instruction))

-- `PromptBuilder::build`, with a context limit
unfoldable pub build : PromptInputs → Text → List Message → Text → List Message
unfolding trim_start
build p template history date =
    let system_content =
      instructions p.instruction template p.rules
      ++ (codes "\n\n## Current Context\n\nDate: "
          ++ (date ++ (codes "\nWorking Directory: " ++ p.working_dir))) in
    let system_msg = of_system system_content in
    system_msg
    ∷ p.trimmer (retained history) p.max_context_tokens system_msg.estimated_tokens p.max_tokens

abbrev pub soft_limit_text : Text
soft_limit_text =
    codes
      "\n\n[System: You have reached the maximum number of iterations. Please immediately complete all remaining work in your next response. If all work is done, respond without making any tool calls.]"

abbrev pub enriched : PromptInputs → List ToolDefinition → ℕ → ℕ → Text → Text
enriched p tools soft_limit iteration template =
    let guided = template ++ p.render_tool_guide tools in
    if ltb 0 soft_limit && leb soft_limit iteration then guided ++ soft_limit_text else guided

-- `get_system_prompt`
abbrev pub template_of : {C : Type 0} → Result (Session C) → Result Text
template_of (ok session) = ok session.system_prompt_template
template_of (err e) = err e

-- `IterationContext`: what the provider is sent.
abbrev pub IterationContext : Type 0
IterationContext = List Message × List ToolDefinition

module _ {C S : Type 0} (st : SessionStore C S) (out : Outside C) (l : Loop C) (p : PromptInputs)
    (registry : ToolRegistry (ℕ → ToolRun)) where
  abbrev pub with_template : ℕ → Result Text → Action S IterationContext
  with_template iteration (err e) w =
      fail st out l internal (codes "Failed to get session: " ++ out.error_text e) w
  with_template iteration (ok template) w =
      let tools = definitions registry in
      let full = enriched p tools l.cfg.soft_limit iteration template in
      let messages = build p full w.history (p.date w.now) in
      (some (retained (cleanup_orphan_tool_uses messages), tools), w)

  unfoldable pub setup_iteration : ℕ → Action S IterationContext
  unfolding is_cancelled fail definitions build cleanup_orphan_tool_uses
  setup_iteration iteration w =
      if is_cancelled st out l w
      then cancel st out l w
      else if ltb l.cfg.hard_limit iteration
      then fail st out l max_iterations
          (codes "Agent loop reached hard limit (" ++ (out.decimal l.cfg.hard_limit ++ codes ")")) w
      else with_template iteration (template_of (st.get w.sm.store l.sid)) w
