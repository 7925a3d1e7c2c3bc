-- ===== src/Tests/Tools.antt =====
-- The registry of crates/visp-core/src/tool_registry.rs with a core tool and tools of an MCP server.
use visp.Base.{
  ◌≡◌, refl, inl, true, none, some, List, [], ◌∷◌, map, Text, codes, text_eq, text_eq→eq,
  if◌then◌else◌, contains, filter, All,
}
use visp.Core.ToolRegistry.{
  Tool, ToolRegistry, builtin, agent, done, ascii_lower, name_eq, register, register_mcp,
  seal_core_tools, get, names,
}
use visp.Agents.Orchestrator.Tools.{
  should_include, filter_tools_for_sub_agent, filter_tools_for_sub_agent_lem,
}
use visp.Core.ToolRegistry.Names.{IsUnique}
use visp.Core.ToolRegistry.Laws.{
  Call, registers_mcp, seals, removes, updates, run, run-IsUnique, seal_core_tools_protects,
}

abbrev tool_named : Text → Tool Text
tool_named name = record {
  name = name;
  description = codes "a tool";
  parameters = codes "{}";
  category = codes "core";
  tool_type = builtin;
  execute = λ args. args;
}

abbrev bash_tool : Tool Text
bash_tool = tool_named (codes "Bash")

abbrev one_tool : ToolRegistry Text
one_tool = record { tools = bash_tool ∷ []; core_tool_names = [] }

same_without_case : name_eq (codes "bash") (codes "Bash") ≡ true
unfolding name_eq text_eq
same_without_case = refl

abbrev lowered : Text → Text
lowered = map ascii_lower

lowered_same : (a b : Text) → name_eq a b ≡ true → lowered a ≡ lowered b
unfolding name_eq
lowered_same a b h = text_eq→eq (lowered a) (lowered b) h

abbrev some_calls : List (Call Text)
some_calls =
    seals
    ∷ registers_mcp (tool_named (codes "bash"))
    ∷ registers_mcp (tool_named (codes "search"))
    ∷ updates (codes "Bash") (tool_named (codes "bash"))
    ∷ removes (codes "search")
    ∷ []

run-IsUnique_example : IsUnique (run lowered one_tool some_calls).tools
run-IsUnique_example =
    run-IsUnique lowered one_tool some_calls (tt, tt)
      (tt, (tt, (tt, (same_without_case, (tt, tt)))))

-- The core tool is gone, its name is still taken.
abbrev later : ToolRegistry Text
later = record { tools = []; core_tool_names = codes "Bash" ∷ [] }

core_sealed : later.core_tool_names ≡ (seal_core_tools one_tool).core_tool_names
unfolding seal_core_tools contains
core_sealed = refl

seal_core_tools_protects_example :
    register_mcp lowered later (tool_named (codes "bash")) ≡ (done, later)
seal_core_tools_protects_example =
    seal_core_tools_protects lowered one_tool later bash_tool (tool_named (codes "bash"))
      lowered_same (inl refl) same_without_case core_sealed

-- The daemon has a plain tool and two agents; the sub-agent may call one of them.
abbrev agent_named : Text → Tool Text
agent_named name = record (tool_named name) { tool_type = agent }

abbrev daemon_tools : ToolRegistry Text
daemon_tools = record {
  tools = agent_named (codes "fixer") ∷ bash_tool ∷ agent_named (codes "explorer") ∷ [];
  core_tool_names = [];
}

daemon_tools-IsUnique : IsUnique daemon_tools.tools
unfolding name_eq text_eq
daemon_tools-IsUnique = ((refl, (refl, tt)), ((refl, tt), (tt, tt)))

filter_tools_for_sub_agent_lem_example :
    ((filter_tools_for_sub_agent daemon_tools (codes "explorer" ∷ [])).tools
      ≡ filter (should_include (codes "explorer" ∷ [])) daemon_tools.tools)
    × ((name : Text)
        → get (filter_tools_for_sub_agent daemon_tools (codes "explorer" ∷ [])) name
          ≡ elim (get daemon_tools name) [
            | none ↦ none
            | some t ↦ if should_include (codes "explorer" ∷ []) t then some t else none
          ])
    × All
        (λ (t : Tool Text). t.tool_type ≡ agent → contains (codes "explorer" ∷ []) t.name ≡ true)
        (filter_tools_for_sub_agent daemon_tools (codes "explorer" ∷ [])).tools
filter_tools_for_sub_agent_lem_example =
    filter_tools_for_sub_agent_lem daemon_tools (codes "explorer" ∷ []) daemon_tools-IsUnique

sub_agent_tools :
    map
      (λ (t : Tool Text). t.name)
      (filter_tools_for_sub_agent daemon_tools (codes "explorer" ∷ [])).tools
    ≡ codes "Bash" ∷ codes "explorer" ∷ []
unfolding filter_tools_for_sub_agent names register get name_eq text_eq contains
sub_agent_tools = refl
