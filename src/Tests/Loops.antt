-- ===== src/Tests/Loops.antt =====
-- The agent loop of crates/visp-core/src/agent_loop.rs over the in-memory store, with one session and a
-- provider that answers at once.
use visp.Base.{
  ℕ, zero, suc, ◌≤◌, ◌<◌, ◌≡◌, refl, true, false, none, some, List, [], ◌∷◌, ◌++◌, map, Text, codes,
  arith, All, text_eq,
}
use visp.Base.Dict.{lookup}
use visp.Core.Message.{Message, of_user, of_system, of_tool, of_tool_call, call_named}
use visp.Core.Session.{SessionStore, IsSessionStore}
use visp.Core.Session.InMemory.{Sessions, in_memory}
use visp.Core.Session.InMemory.Laws.{in_memory-IsSessionStore}
use visp.Core.Session.Manager.{SessionManager}
use visp.Core.Session.Manager.Runs.{creates, starts, run, new, run-IsValid}
use visp.Core.ToolRegistry.{ToolRegistry, ToolDefinition}
use visp.Core.AgentLoop.Events.{
  network, ProviderMetadata, chat_text_delta, chat_thinking_block, chat_done, chat_image_block,
  text_delta,
}
use visp.Core.AgentLoop.Cleanup.{cleanup_orphan_tool_uses, retained}
use visp.Core.AgentLoop.Cleanup.Answered.{IsAnswered}
use visp.Core.AgentLoop.Cleanup.Results.{IsServed, core_of, cleanup_orphan_tool_uses-IsAnswered}
use visp.Core.AgentLoop.Cleanup.Lost.{calls_id, answers_id, warned_round_lost}
use visp.Core.AgentLoop.World.{
  Outside, World, Loop, Item, event, Reply, streaming, refused, ToolRun, await, is_cancelled,
}
use visp.Core.AgentLoop.Retry.{call_llm_with_retry}
use visp.Core.AgentLoop.Retry.Attempts.{backoff, tried, IsRefused, Settles, call_llm_with_retry_lem}
use visp.Core.AgentLoop.Stream.{StreamOutput, nothing_collected, image_marker, on_event}
use visp.Core.AgentLoop.Stream.Shown.{Repeats, text_shown_twice}
use visp.Core.AgentLoop.DoomLoop.{Signature, watch_round}
use visp.Core.AgentLoop.DoomLoop.Repeats.{expected, watch_round_lem}
use visp.Core.AgentLoop.Prompt.{PromptInputs}
use visp.Core.AgentLoop.Task.{asking, ask_approval}
use visp.Core.AgentLoop.Task.Approval.{grants, ask_approval_lem}
use visp.Core.AgentLoop.Tools.{execute_tool_calls}
use visp.Core.AgentLoop.Tools.History.{Adds, execute_tool_calls-Adds}
use visp.Core.AgentLoop.Run.{run_agent_loop}
use visp.Core.AgentLoop.Run.Ends.{Finishes, run_agent_loop-Finishes}
use visp.Core.AgentLoop.Run.Limit.{ReturnsOrAsks, run_agent_loop-ReturnsOrAsks}

abbrev store : SessionStore Text (Sessions Text)
store = in_memory Text

abbrev laws : IsSessionStore store
laws = in_memory-IsSessionStore Text

abbrev template : Text → Text
template path = codes "work"

abbrev sid : Text
sid = codes "s"

abbrev started : SessionManager (Sessions Text)
started = run store template (new []) (creates sid (codes "p") 0 (codes "model") ∷ starts sid ∷ [])

nothing_stored : (k : Text) → store.find [] k ≡ none
unfolding lookup
nothing_stored k = refl

abbrev greeting : List Item
greeting = event (chat_text_delta (codes "hi")) ∷ event chat_done ∷ []

-- The first call of the provider fails.
abbrev provider : ℕ → List Message → List ToolDefinition → Reply
provider zero messages tools = refused (network (codes "down"))
provider (suc n) messages tools = streaming greeting

abbrev outside : Outside Text
outside = record {
  others = λ n. [];
  load_template = template;
  receives = λ n. true;
  chat_stream = provider;
  answer = λ n. none;
  approval = λ n. some none;
  requires_approval = λ name args. true;
  has_room = λ n. true;
  parse_json = λ s. some s;
  parse_error = λ s. [];
  format_args = λ s. s;
  thinking_of = λ s. some s;
  decimal = λ n. codes "7";
  error_text = λ e. [];
}

abbrev loop : Loop Text
loop = record {
  sid = sid;
  cancel_token = 0;
  has_global_tx = false;
  cfg = record {
    soft_limit = 1;
    hard_limit = 2;
    doom_loop_threshold = 2;
    llm_retry_attempts = 1;
    llm_retry_base_delay_ms = 1000;
  };
}

abbrev world : World (Sessions Text)
world = record { sm = started; history = []; now = 0; sent = []; forwarded = []; slept = [] }

abbrev told : World (Sessions Text)
told = record world { sent = text_delta (codes "hi") ∷ [] }

abbrev metadata : ProviderMetadata → Text
metadata m = m.model

abbrev prompt : PromptInputs
prompt = record {
  instruction = codes "ask";
  rules = [];
  date = λ n. codes "today";
  working_dir = codes "p";
  render_tool_guide = λ tools. [];
  max_context_tokens = 1000;
  max_tokens = 100;
  trimmer = λ history max_ctx overhead output. history;
}

abbrev registry : ToolRegistry (ℕ → ToolRun)
registry = record { tools = []; core_tool_names = [] }

abbrev question : Message
question = of_user (codes "hello")

run_agent_loop-Finishes_example :
    Finishes store laws outside loop metadata prompt registry
      (run_agent_loop store outside loop metadata prompt registry 3 question world)
run_agent_loop-Finishes_example =
    run_agent_loop-Finishes store outside loop metadata prompt registry 3 question world laws (
      run-IsValid store template [] (creates sid (codes "p") 0 (codes "model") ∷ starts sid ∷ [])
        laws nothing_stored)

run_agent_loop-ReturnsOrAsks_example :
    ReturnsOrAsks store outside loop metadata prompt registry 4 world
      (run_agent_loop store outside loop metadata prompt registry 7 question world)
run_agent_loop-ReturnsOrAsks_example =
    run_agent_loop-ReturnsOrAsks store outside loop metadata prompt registry 4 question world
      (omega arith)

other_name : calls_id (codes "b") (of_tool_call (call_named (codes "a") ∷ [])) ≡ false
unfolding text_eq
other_name = refl

abbrev orphaned : List Message
orphaned = question ∷ of_tool_call (call_named (codes "a") ∷ []) ∷ question ∷ []

cleanup_orphan_tool_uses-IsAnswered_example :
    IsAnswered (cleanup_orphan_tool_uses orphaned)
    × IsServed [] (cleanup_orphan_tool_uses orphaned)
    × (map core_of (cleanup_orphan_tool_uses orphaned) ≡ map core_of orphaned)
    × (cleanup_orphan_tool_uses (cleanup_orphan_tool_uses orphaned)
        ≡ cleanup_orphan_tool_uses orphaned)
cleanup_orphan_tool_uses-IsAnswered_example = cleanup_orphan_tool_uses-IsAnswered orphaned

warned_round_lost_example :
    All
      (λ (x : Message). (calls_id (codes "b") x ≡ false) × (answers_id (codes "b") x ≡ false))
      (retained (
        cleanup_orphan_tool_uses (
          (question ∷ of_tool_call (call_named (codes "a") ∷ []) ∷ [])
          ++ of_tool_call (call_named (codes "b") ∷ [])
            ∷ of_system (codes "stop")
            ∷ (of_tool (codes "ok") (codes "b") none ∷ []))))
warned_round_lost_example =
    warned_round_lost (question ∷ of_tool_call (call_named (codes "a") ∷ []) ∷ [])
      (of_tool (codes "ok") (codes "b") none ∷ []) (of_tool_call (call_named (codes "b") ∷ []))
      (of_system (codes "stop")) (codes "b") refl (refl, (other_name, tt)) (refl, tt)

call_llm_with_retry_lem_example :
    (r : Reply) × (w' : World (Sessions Text)) × (retries : ℕ) × (call_llm_with_retry store outside
        loop
        (question ∷ [])
        []
        2
        0
        world
      ≡ (some r, w'))
    × (retries ≤ 1)
    × ((i : ℕ)
        → i < retries
        → IsRefused store outside loop
            (question ∷ [])
            []
            (tried store outside loop (question ∷ []) [] 0 i world))
    × Settles store outside loop
        (question ∷ [])
        []
        retries
        (tried store outside loop (question ∷ []) [] 0 retries world)
        r
        w'
    × (w'.slept ≡ [] ++ backoff 1000 0 retries)
call_llm_with_retry_lem_example =
    call_llm_with_retry_lem store outside loop (question ∷ []) [] 2 world (omega arith)
      (omega arith)

abbrev thoughtful : List Item
thoughtful =
    event (chat_thinking_block (codes "a")) ∷ event (chat_thinking_block (codes "ab")) ∷ greeting

text_shown_twice_example :
    Repeats store outside loop [] (codes "hi") (image_marker (codes "x.png") none) (
      on_event store outside loop
        (chat_image_block (codes "x.png") (codes "image/png") none)
        (record nothing_collected { text_buffer = codes "hi" })
        told)
text_shown_twice_example =
    text_shown_twice store outside loop nothing_collected b'h' (codes "i") [] (codes "x.png")
      (codes "image/png") none told refl

abbrev bash_call : Signature
bash_call = (codes "bash", codes "{}") ∷ []

watch_round_lem_example :
    watch_round 2 (record { window = bash_call ∷ []; warned = false }) bash_call
    ≡ expected 2 false (bash_call ∷ bash_call ∷ [])
watch_round_lem_example =
    watch_round_lem 2 (record { window = bash_call ∷ []; warned = false }) (bash_call ∷ [])
      (codes "bash", codes "{}") [] (omega arith) refl

ask_approval_lem_example :
    (ask_approval store outside loop registry (call_named (codes "a")) world).0
    ≡ grants
        (is_cancelled store outside loop (
          await store outside loop
            (asking store outside loop registry (call_named (codes "a")) world)))
        (some none)
ask_approval_lem_example =
    ask_approval_lem store outside loop registry (call_named (codes "a")) world

abbrev two_calls : StreamOutput
two_calls = record nothing_collected {
  tool_calls = call_named (codes "a") ∷ call_named (codes "b") ∷ [];
}

execute_tool_calls-Adds_example : Adds store outside loop metadata registry [] two_calls (
    execute_tool_calls store outside loop metadata registry two_calls 0
      (record { window = []; warned = false })
      world)
execute_tool_calls-Adds_example =
    execute_tool_calls-Adds store outside loop metadata registry two_calls 0
      (record { window = []; warned = false }) world
