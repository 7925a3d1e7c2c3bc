-- ===== src/Lib.antt =====
-- A verification library of visp, a coding agent that runs as a daemon: a session keeps a conversation,
-- an agent loop sends it to a language model and runs the tools that the model calls, sub-agents work
-- under permission rules that they inherit, and hooks are run when something happens.
--
-- The parts and their files:
-- - Base: numbers tested by Booleans, lists, texts as lists of code points, `u32` arithmetic with its
--   wrap-around, and maps with unique keys as association lists.
-- - Core/Message: crates/visp-core/src/message.rs, the messages and the estimate of their tokens.
-- - Context: crates/visp-context/src/lib.rs, `DefaultContextTrimmer`, which cuts the conversation of a
--   session to the token budget before it is sent. Estimate holds the estimates, Turns
--   `find_head_end`, `find_tail_start` and `drop_old_turns`, KeepHeadTail `keep_head_and_tail`, Trim
--   `trim`. An index out of range, a panic in Rust, is `none`. `Context/Cost` is the plain sum that the
--   `u32` sums of the code are compared with; theorems that need the two to agree say so.
-- - Core/Permission: crates/visp-core/src/agent_definition.rs, `merge_permissions` for a sub-agent and
--   `check_permission` for a call of a tool. The arguments of a call are the text that they serialise
--   to.
-- - Core/Session: crates/visp-core/src/session.rs. Core/Session has the `SessionStore` trait as a record of
--   operations and the contract of a store; Core/Session/InMemory is `InMemorySessionStore` with the
--   proof that it keeps the contract; Core/Session/Manager is `SessionManager` over any store, which
--   starts, cancels and finishes the loops of sessions. A failed operation returns the error with the
--   state behind the call.
-- - Core/ToolRegistry: crates/visp-core/src/tool_registry.rs, the tools by names without case, core tools
--   and tools of MCP servers. `str::to_lowercase` is a parameter.
-- - Core/AgentLoop: crates/visp-core/src/agent_loop.rs, one run of an agent (`run_agent_loop`), with the
--   helpers of agent.rs that it calls and `PromptBuilder::build` of prompt.rs. Events has the events and
--   errors (provider.rs, error.rs); World the state of a run, the sends, and what comes from outside;
--   Cleanup `cleanup_orphan_tool_uses`; Marker the `[USER_QUERY]` marker; Retry `call_llm_with_retry`;
--   Stream `collect_stream_events`; Decide `handle_stream_result`; Prompt `setup_iteration`; DoomLoop, Task
--   and Tools `execute_tool_calls`; Run the loop. World/Safe has the rules by which an invariant of the
--   elementary steps holds of every function of the loop; World/Finished and Run/Limit use them.
-- - Core/TraceContext: crates/visp-core/src/trace_context.rs, the checks of a trace context and the parser
--   of the `traceparent` header.
-- - Agents/Active: crates/visp-agent/src/active_agent.rs, the running agents and the tree of their
--   parents. Agents/Orchestrator is crates/visp-agent/src/orchestrator.rs: Tools
--   `filter_tools_for_sub_agent`, Ending `handle_done` and `handle_agent_error` over the session manager
--   and the running agents, Cancel `cancel_agent`. Its functions that start and queue agents are not
--   modelled.
-- - Hooks: crates/visp-hooks/src/dispatcher.rs. Hooks/Rules has the match and the order of rules, with
--   `Regex` as a parameter; Hooks/Queue the bounded queue of a rule; Hooks/Worker the tasks of one rule
--   as a step relation, a task doing one thing at a time under the lock of the queue or on the flag
--   `worker_active`; Hooks/Executor the cooldown and the dispatch to all rules.
-- - Tests: the theorems at concrete inputs.
--
-- How they interact: the trimmer reads the messages that the session store keeps and that the manager
-- hands to a loop as `AgentLoopContext::history`; the loop works on the session manager, which others
-- change between its awaits by any of the manager's calls, a cancel among them; a session carries the permission rules that its tool
-- calls are checked against; the events of a loop are what the dispatcher queues.
--
-- Bounds and fuel: the call of the provider takes fuel for one call more than the retries allowed, and
-- the loop of an agent fuel for each round, which its hard limit bounds but for the rounds that ask the
-- user. `drop_loop` runs on fuel, one more than the number of messages, which is enough
-- since each round drops at least one message. `descend` and
-- `climb` of Agents/Active take fuel too, since a cycle of parents keeps them going; on a tree some
-- fuel is enough, and for `climb` one more than the depth. Token counts are numbers with `% 2 ^ 32` written out
-- where the code adds or multiplies `u32`, as a release build does.
--
-- Not modelled: the model providers, the network servers, the terminal interface, the database, the
-- code graph, configuration files and the processes of tools and hooks, which are I/O around these
-- parts. `SessionManager` methods are single steps here, though `start_loop` and `finish_loop` take the
-- lock of the store and the lock of the tokens one after the other. Uuids, clocks, prompt templates
-- and the configuration of the model are arguments. Of the loop, spans and logs are left out, the text of
-- `render_tool_guide` and the active rules are inputs, and the tasks of a round's tools run one after the
-- other; what they and others do to the sessions meanwhile is an input. A JSON value is its text.
pub mod Base
pub mod Core
pub mod Context
pub mod Agents
pub mod Hooks
pub mod Tests
