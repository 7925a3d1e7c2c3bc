-- ===== src/Core/AgentLoop/World.antt =====
-- What a run of the loop of crates/visp-core/src/agent_loop.rs works on, and what acts on it from
-- outside. Each await is a point where others act on the shared session manager: the n-th of them
-- finds the calls `others n` done. A cancel is such a call, of `cancel_agent`. What the loop receives
-- there is an input with the same number. A function whose `Err(())`, `None` or `true` makes the loop
-- return gives `none`.
pub mod Safe
pub mod Finished
use visp.Base.{
  ℕ, suc, Bool, true, false, ◌&&◌, Option, none, some, List, [], ◌∷◌, ◌++◌, Text, codes,
  if◌then◌else◌, any, ◌==◌,
}
use visp.Core.Message.{Message}
use visp.Core.ToolRegistry.{ToolDefinition, ToolRegistry}
use visp.Core.Session.{SessionStatus, completed, Result, ok, err, SessionError, SessionStore}
use visp.Core.Session.Manager.{SessionManager, finish_loop, append_message}
use visp.Core.Session.Manager.Runs.{Call, run}
use visp.Core.AgentLoop.Events.{
  LlmError, ChatEvent, AgentEvent, AgentMessage, AgentErrorCode, code_cancelled, error,
  event_to_msg, UserQueryResult,
}

-- An item of the provider's stream; the stream ends with the list.
pub data Item : Type 0 where
  event : ChatEvent → Item
  failing : LlmError → Item

pub data Reply : Type 0 where
  streaming : List Item → Reply
  refused : LlmError → Reply

-- `ToolResult`, and how the task of a tool ends.
pub record ToolResult : Type 0 where
  pub content : Text
  pub is_error : Bool

pub data ToolRun : Type 0 where
  returns : ToolResult → (duration_ms : ℕ) → ToolRun
  panics : (message : Text) → ToolRun

-- `AgentConfig`, the fields that the loop reads.
pub record AgentConfig : Type 0 where
  pub soft_limit : ℕ
  pub hard_limit : ℕ
  pub doom_loop_threshold : ℕ
  pub llm_retry_attempts : ℕ
  pub llm_retry_base_delay_ms : ℕ

-- What comes from outside. `chat_stream` is the provider, `answer` what a query's channel gives
-- (`none` when it closes), `approval` the same where the 120 seconds have not run out, and
-- `none` otherwise; `requires_approval` is the question that a tool answers of its arguments; `parse_json` gives the
-- canonical text of a JSON value and `parse_error` the error, `format_args` the text that shows a tool's arguments; `has_room` says
-- whether the orchestrator's channel takes a message at once; `thinking_of` the text at a block's key "thinking".
pub record Outside (C : Type 0) : Type 0 where
  pub others : ℕ → List (Call C)
  pub load_template : Text → Text
  pub receives : ℕ → Bool
  pub chat_stream : ℕ → List Message → List ToolDefinition → Reply
  pub answer : ℕ → Option UserQueryResult
  pub approval : ℕ → Option (Option UserQueryResult)
  pub requires_approval : Text → Text → Bool
  pub has_room : ℕ → Bool
  pub parse_json : Text → Option Text
  pub parse_error : Text → Text
  pub format_args : Text → Text
  pub thinking_of : Text → Option Text
  pub decimal : ℕ → Text
  pub error_text : SessionError → Text

-- `slept` are the delays waited for, `sent` the events that the receiver of `tx` has got.
pub record World (S : Type 0) : Type 0 where
  pub sm : SessionManager S
  pub history : List Message
  pub now : ℕ
  pub sent : List AgentEvent
  pub forwarded : List AgentMessage
  pub slept : List ℕ

-- The loop's own constants: its session and its token.
pub record Loop (C : Type 0) : Type 0 where
  pub sid : Text
  pub cancel_token : ℕ
  pub has_global_tx : Bool
  pub cfg : AgentConfig

abbrev pub Action : Type 0 → Type 0 → Type 0
Action S A = World S → Option A × World S

abbrev pub bound : {S A B : Type 0} → (A → Action S B) → Option A × World S → Option B × World S
bound f (none, w) = (none, w)
bound f (some a, w) = f a w

infixl 5 ◌>>=◌
abbrev pub ◌>>=◌ : {S A B : Type 0} → Action S A → (A → Action S B) → Action S B
(m >>= f) w = bound f (m w)

module _ {C S : Type 0} (st : SessionStore C S) (out : Outside C) (l : Loop C) where
  unfoldable pub await : World S → World S
  await w = record w { sm = run st out.load_template w.sm (out.others w.now); now = suc w.now }

  unfoldable pub is_cancelled : World S → Bool
  is_cancelled w = any (λ t. t == l.cancel_token) w.sm.cancelled

  -- `let _ = sm.finish_loop(sid, status)`
  unfoldable pub finish : SessionStatus → World S → World S
  finish status w = record w { sm = (finish_loop st w.sm l.sid status).1 }

  -- The send to the orchestrator is an await of its own.
  abbrev pub forward : Option AgentMessage → World S → World S
  forward none w = w
  forward (some msg) w =
      if l.has_global_tx then await (record w { forwarded = w.forwarded ++ msg ∷ [] }) else w

  -- `tx.send(event).await`: whether the receiver is still there, and what it has got.
  abbrev pub deliver : AgentEvent → World S → World S
  deliver e w = record w { sent = w.sent ++ e ∷ [] }

  -- `let _ = tx.send(event).await`
  unfoldable pub tell : AgentEvent → World S → World S
  unfolding await
  tell e w = let after = await w in if out.receives w.now then deliver e after else after

  -- `try_send`: a full channel drops the message.
  unfoldable pub try_forward : AgentMessage → World S → World S
  try_forward msg w =
      if l.has_global_tx && out.has_room w.now
      then record w { forwarded = w.forwarded ++ msg ∷ [] }
      else w

  abbrev stop : {A : Type 0} → Action S A
  stop w = (none, finish SessionStatus.error w)

  unfoldable pub send_event : AgentEvent → Action S (Unit {0})
  unfolding await finish event_to_msg
  send_event e w =
      let before = forward (event_to_msg e) w in
      let after = await before in
      if out.receives before.now
      then (some tt, deliver e after)
      else (none, finish SessionStatus.error after)

  -- `send_event(…).await?; let _ = sm.finish_loop(sid, Error); return Err(())`
  unfoldable pub fail : {A : Type 0} → AgentErrorCode → Text → Action S A
  unfolding finish
  fail code message = do _ ← send_event (error code message); stop

  -- The same with `let _ = send_event(…).await`: the loop is finished also where the send failed.
  unfoldable pub fail_anyway : {A : Type 0} → AgentErrorCode → Text → Action S A
  unfolding finish
  fail_anyway code message w = stop (send_event (error code message) w).1

  abbrev pub cancel : {A : Type 0} → Action S A
  cancel = fail code_cancelled (codes "agent cancelled")

  abbrev pub cancel_anyway : {A : Type 0} → Action S A
  cancel_anyway = fail_anyway code_cancelled (codes "agent cancelled")

  abbrev pub stored :
      (SessionError → Action S (Unit {0}))
      → World S
      → Result (Unit {0}) × SessionManager S
      → Option (Unit {0}) × World S
  stored on_error w (ok _, sm) = (some tt, record w { sm = sm })
  stored on_error w (err e, sm) = on_error e (record w { sm = sm })

  -- `sm.append_message(sid, message)`, and what is done where it fails.
  unfoldable pub store_message :
      Message → (SessionError → Action S (Unit {0})) → Action S (Unit {0})
  unfolding append_message
  store_message m on_error w = stored on_error w (append_message st w.sm l.sid m)

-- `ctx.history.push(message)`
abbrev pub push_history : {S : Type 0} → Message → Action S (Unit {0})
push_history m w = (some tt, record w { history = w.history ++ m ∷ [] })
