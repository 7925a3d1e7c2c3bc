-- ===== src/Core/AgentLoop/Cleanup.antt =====
-- `cleanup_orphan_tool_uses` of crates/visp-core/src/agent.rs. Both passes go from the back to the
-- front. The first looks only at what follows a message, so it is the right fold of one step; the
-- second looks only at what stands before, which it has not changed yet, and carries it nearest first.
pub mod Answered
pub mod Results
pub mod Lost
use visp.Base.{
  ℕ, zero, suc, Bool, true, false, not, ◌&&◌, Option, none, some, List, [], ◌∷◌, Text, text_eq,
  if◌then◌else◌, any, filter, length,
}
use visp.Core.Message.{Message, Role, assistant, tool, user, role_eq, ToolCallRequest}

-- `tool_call_id.as_deref() == Some(id)`
abbrev pub has_id : Option Text → Text → Bool
has_id none id = false
has_id (some i) id = text_eq i id

abbrev pub answers_call : Message → ToolCallRequest → Bool
answers_call m c = role_eq m.role tool && has_id m.tool_call_id c.id

-- The messages that follow are the results of the calls, one for each in order.
abbrev pub all_have_results : List ToolCallRequest → List Message → Bool
all_have_results [] rest = true
all_have_results (c ∷ calls) [] = false
all_have_results (c ∷ calls) (m ∷ rest) = answers_call m c && all_have_results calls rest

abbrev pub mark_tool : Message → Message
mark_tool m = if role_eq m.role tool then record m { skip_context = true } else m

-- Of the next messages, as many as there were calls, those of the tools are skipped from now on.
abbrev pub mark_tools : ℕ → List Message → List Message
mark_tools zero rest = rest
mark_tools (suc n) [] = []
mark_tools (suc n) (m ∷ rest) = mark_tool m ∷ mark_tools n rest

-- The step of the first pass, on an assistant's message with calls.
abbrev pub check_calls : Message → List ToolCallRequest → List Message → List Message
check_calls m calls rest =
    if all_have_results calls rest
    then m ∷ rest
    else record m { tool_calls = none } ∷ mark_tools (length calls) rest

abbrev pub calls_of : Message → Option (List ToolCallRequest)
calls_of m = if role_eq m.role assistant then m.tool_calls else none

abbrev pub check_message : Option (List ToolCallRequest) → Message → List Message → List Message
check_message none m rest = m ∷ rest
check_message (some calls) m rest = check_calls m calls rest

unfoldable pub clear_orphan_calls : List Message → List Message
clear_orphan_calls [] = []
clear_orphan_calls (m ∷ ms) = check_message (calls_of m) m (clear_orphan_calls ms)

-- The nearest earlier assistant's message with calls, unless a user's message comes first, has the id;
-- `further` is the answer of the messages before it.
abbrev pub found_at : Option (List ToolCallRequest) → Role → Text → Bool → Bool
found_at (some calls) role call_id further =
    any (λ (c : ToolCallRequest). text_eq c.id call_id) calls
found_at none role call_id further = if role_eq role user then false else further

abbrev pub found_call : Text → List Message → Bool
found_call call_id [] = false
found_call call_id (m ∷ before) = found_at (calls_of m) m.role call_id (found_call call_id before)

abbrev pub id_of_tool : Message → Option Text
id_of_tool m = if role_eq m.role tool then m.tool_call_id else none

abbrev pub check_result : Option Text → List Message → Message → Message
check_result none before m = m
check_result (some call_id) before m =
    if found_call call_id before then m else record m { skip_context = true }

unfoldable pub skip_orphan_results : List Message → List Message → List Message
skip_orphan_results before [] = []
skip_orphan_results before (m ∷ ms) =
    check_result (id_of_tool m) before m ∷ skip_orphan_results (m ∷ before) ms

unfoldable pub cleanup_orphan_tool_uses : List Message → List Message
unfolding clear_orphan_calls skip_orphan_results
cleanup_orphan_tool_uses history = skip_orphan_results [] (clear_orphan_calls history)

-- `retain(|m| !m.skip_context)`
abbrev pub retained : List Message → List Message
retained = filter (λ (m : Message). not m.skip_context)
