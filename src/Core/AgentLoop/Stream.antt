-- ===== src/Core/AgentLoop/Stream.antt =====
-- `collect_stream_events` of crates/visp-core/src/agent_loop.rs: the provider's stream, an item at a
-- time, into what one answer comes to. A cancel is looked for before each item.
pub mod Collects
pub mod Shown
use visp.Base.{
  ℕ, Bool, true, false, Option, none, some, List, [], ◌∷◌, ◌++◌, Text, codes, if◌then◌else◌,
}
use visp.Core.Message.{ToolCallRequest}
use visp.Core.Session.{SessionStore}
use visp.Core.AgentLoop.Events.{
  AgentEvent, LlmError, ChatEvent, chat_text_delta, chat_tool_call, chat_thinking_block,
  chat_usage_info, chat_usage_delta, chat_output_metadata, chat_image_block, chat_image_error,
  chat_done, ProviderMetadata, Usage, text_delta, thinking_delta, usage_delta, image_block,
  image_error, internal, llm_error_to_code,
}
use visp.Core.AgentLoop.Marker.{strip_prefix}
use visp.Core.AgentLoop.World.{
  Outside, Loop, World, Item, event, failing, Action, ◌>>=◌, await, is_cancelled, send_event, fail,
  cancel,
}

-- `StreamOutput`, and the baseline of the current thinking block.
pub record StreamOutput : Type 0 where
  pub text_buffer : Text
  pub thinking_blocks : List Text
  pub tool_calls : List ToolCallRequest
  pub usage : Usage
  pub cost : Option ℕ
  pub provider_metadata : Option ProviderMetadata
  pub thinking_baseline : Text

abbrev pub nothing_collected : StreamOutput
nothing_collected = record {
  text_buffer = [];
  thinking_blocks = [];
  tool_calls = [];
  usage = record {
    input_tokens = 0;
    output_tokens = 0;
    cache_creation_input_tokens = 0;
    cache_read_input_tokens = 0;
  };
  cost = none;
  provider_metadata = none;
  thinking_baseline = [];
}

-- The snapshot's tail behind the previous one, or the whole snapshot.
unfoldable pub thinking_increment : Text → Text → Text
unfolding strip_prefix
thinking_increment previous snapshot = elim (strip_prefix previous snapshot) [
  | some tail ↦ tail
  | none ↦ snapshot
]

abbrev pub image_marker : Text → Option Text → Text
image_marker path (some url) = codes "<image: | " ++ (url ++ codes ">")
image_marker path none = codes "<image: " ++ (path ++ codes ">")

abbrev pub or_empty : Option Text → Text
or_empty none = []
or_empty (some s) = s

module _ {C S : Type 0} (st : SessionStore C S) (out : Outside C) (l : Loop C) where
  abbrev pub give : StreamOutput → Action S StreamOutput
  give o w = (some o, w)

  -- A text that is empty is not sent.
  abbrev pub send_unless_empty : (Text → AgentEvent) → Text → Action S (Unit {0})
  send_unless_empty as_event [] w = (some tt, w)
  send_unless_empty as_event (c ∷ s) w = send_event st out l (as_event (c ∷ s)) w

  -- One event that is not `Done`.
  unfoldable pub on_event : ChatEvent → StreamOutput → Action S StreamOutput
  unfolding send_event thinking_increment
  on_event (chat_text_delta delta) o = do
    _ ← send_event st out l (text_delta delta)
    give (record o { text_buffer = o.text_buffer ++ delta })
  on_event (chat_image_block path mime_type remote_url) o = do
    _ ← send_unless_empty text_delta o.text_buffer
    _ ← send_event st out l (image_block path mime_type remote_url)
    give (record o { text_buffer = image_marker path remote_url })
  on_event (chat_image_error reason) o = do _ ← send_event st out l (image_error reason); give o
  on_event (chat_thinking_block block) o = do
    let snapshot = or_empty (out.thinking_of block)
    _ ← send_unless_empty thinking_delta (thinking_increment o.thinking_baseline snapshot)
    give (record o { thinking_blocks = block ∷ []; thinking_baseline = snapshot })
  on_event (chat_usage_info usage tool_calls cost) o =
      give (record o { usage = usage; cost = cost })
  on_event (chat_usage_delta usage) o = do _ ← send_event st out l (usage_delta usage); give o
  on_event (chat_tool_call call) o = give (record o { tool_calls = o.tool_calls ++ call ∷ [] })
  on_event (chat_output_metadata meta) o = give (record o { provider_metadata = some meta })
  on_event chat_done o = give o

  abbrev pub stream_ended : Action S StreamOutput
  stream_ended =
      fail st out l internal (
        codes
          "LLM stream ended unexpectedly — the response may be incomplete, check API connection")

  abbrev pub stream_failed : LlmError → Action S StreamOutput
  stream_failed e =
      let failure = llm_error_to_code out.decimal e in fail st out l failure.0 failure.1

  -- What is done with the next item; `rest` collects those behind it.
  abbrev pub on_item :
      Item → StreamOutput → (StreamOutput → Action S StreamOutput) → Action S StreamOutput
  on_item (failing e) o rest = stream_failed e
  on_item (event chat_done) o rest = give o
  on_item (event e) o rest = on_event e o >>= rest

  -- `select!`, with the cancel first.
  abbrev pub unless_cancelled : Action S StreamOutput → Action S StreamOutput
  unless_cancelled go w =
      let w' = await st out l w in if is_cancelled st out l w' then cancel st out l w' else go w'

  unfoldable pub collect_stream_events : List Item → StreamOutput → Action S StreamOutput
  unfolding on_event await is_cancelled fail llm_error_to_code
  collect_stream_events [] o = unless_cancelled stream_ended
  collect_stream_events (item ∷ items) o =
      unless_cancelled (on_item item o (collect_stream_events items))
