-- ===== src/Core/AgentLoop/Retry.antt =====
-- `call_llm_with_retry` of crates/visp-core/src/agent_loop.rs. The recursion is on fuel; Retry/Attempts
-- shows that one more than the allowed retries is enough.
pub mod Attempts
use visp.Base.{
  ℕ, zero, suc, ◌+◌, ◌*◌, ◌%◌, ◌^◌, Bool, true, false, not, ◌||◌, ◌&&◌, Option, none, some, List,
  [], ◌∷◌, ◌++◌, if◌then◌else◌, leb, ltb,
}
use visp.Core.Message.{Message}
use visp.Core.ToolRegistry.{ToolDefinition}
use visp.Core.Session.{SessionStore}
use visp.Core.AgentLoop.Events.{LlmError, network, rate_limit, api, cancelled}
use visp.Core.AgentLoop.World.{Outside, Loop, World, Reply, streaming, refused, await, is_cancelled}

abbrev pub is_retriable : LlmError → Bool
is_retriable (rate_limit _) = true
is_retriable (network _) = true
is_retriable (api status _) = leb 500 status && ltb status 600
is_retriable _ = false

-- `base * (1u64 << attempt)`; the release build wraps both.
abbrev pub retry_delay : ℕ → ℕ → ℕ
retry_delay base attempt = (base * 2 ^ (attempt % 64)) % 2 ^ 64

module _ {C S : Type 0} (st : SessionStore C S) (out : Outside C) (l : Loop C) where
  -- `sleep`, unless the token is cancelled meanwhile.
  abbrev pub sleep : ℕ → World S → World S
  sleep delay w = record (await st out l w) { slept = w.slept ++ delay ∷ [] }

  unfoldable pub call_llm_with_retry :
      List Message → List ToolDefinition → ℕ → ℕ → World S → Option Reply × World S
  unfolding await is_cancelled
  call_llm_with_retry messages tools zero attempt w = (none, w)
  call_llm_with_retry messages tools (suc fuel) attempt w =
      let called = await st out l w in
      let waited = sleep (retry_delay l.cfg.llm_retry_base_delay_ms attempt) called in
      let again = call_llm_with_retry messages tools fuel (suc attempt) waited in
      if is_cancelled st out l w
      then (some (refused cancelled), w)
      else elim (out.chat_stream w.now messages tools) [
        | streaming items ↦ (some (streaming items), called)
        | refused e ↦
            if not (is_retriable e) || leb l.cfg.llm_retry_attempts attempt
            then (some (refused e), called)
            else if is_cancelled st out l waited
            then (some (refused cancelled), waited)
            else again
      ]
