-- ===== src/Tests/Sessions.antt =====
-- The session manager of crates/visp-core/src/session.rs over the in-memory store, with one session.
use visp.Base.{
  ◌⊎◌, ◌<◌, ◌≡◌, ◌≢◌, refl, true, false, none, some, List, [], ◌∷◌, Text, codes, text_eq, All,
}
use visp.Base.Dict.{lookup, insert, contains_key, remove}
use visp.Core.Message.{of_user}
use visp.Core.Session.{Session, idle, ok, err, session_busy, SessionStore, IsSessionStore}
use visp.Core.Session.InMemory
use visp.Core.Session.InMemory.{Sessions, in_memory}
use visp.Core.Session.InMemory.Laws.{in_memory-IsSessionStore}
use visp.Core.Session.Manager.{
  SessionManager, AgentLoopContext, create, start_loop, finish_loop, cancel_agent,
  has_inflight_loop,
}
use visp.Core.Session.Manager.Invariant.{IsValid}
use visp.Core.Session.Manager.Runs.{Call, creates, starts, appends, step, run, new, run-IsValid}
use visp.Core.Session.Manager.Lifecycle.{start_loop_excludes, finish_loop_restarts}

abbrev store : SessionStore Text (Sessions Text)
store = in_memory Text

abbrev laws : IsSessionStore store
laws = in_memory-IsSessionStore Text

abbrev template : Text → Text
template path = codes "work"

abbrev first_call : Call Text
first_call = creates (codes "s") (codes "p") 0 (codes "model")

abbrev calls : List (Call Text)
calls = first_call ∷ starts (codes "s") ∷ appends (codes "s") (of_user (codes "hi")) ∷ []

nothing_stored : (k : Text) → store.find [] k ≡ none
unfolding lookup
nothing_stored k = refl

in_memory-IsSessionStore_example : IsSessionStore (in_memory Text)
in_memory-IsSessionStore_example = in_memory-IsSessionStore Text

calls-IsValid : (cs : List (Call Text)) → IsValid store (run store template (new []) cs)
calls-IsValid cs = run-IsValid store template [] cs laws nothing_stored

run-IsValid_example : IsValid store (run store template (new []) calls)
run-IsValid_example = run-IsValid store template [] calls laws nothing_stored

abbrev one_session : SessionManager (Sessions Text)
one_session = run store template (new []) (first_call ∷ [])

abbrev loop_context : AgentLoopContext Text
loop_context = record {
  session_id = codes "s";
  history = [];
  working_dir = codes "p";
  config = codes "model";
  cancel_token = 0;
  depth = 0;
  parent_session_id = codes "s";
}

abbrev one_running : SessionManager (Sessions Text)
one_running = (start_loop store one_session (codes "s")).1

loop_starts : start_loop store one_session (codes "s") ≡ (ok loop_context, one_running)
unfolding run step create start_loop insert lookup contains_key remove text_eq InMemory.create
    InMemory.get InMemory.update
loop_starts = refl

start_loop_excludes_example :
    (has_inflight_loop one_running (codes "s") ≡ true)
    × ((start_loop store one_running (codes "s")).0 ≡ err (session_busy (codes "s")))
    × ((start_loop store (cancel_agent one_running (codes "s")) (codes "s")).0
        ≡ err (session_busy (codes "s")))
    × ((k : Text)
        → (text_eq (codes "s") k ≡ true)
          ⊎ (store.find one_running.store k ≡ store.find one_session.store k))
start_loop_excludes_example =
    start_loop_excludes store one_session one_running (codes "s") loop_context laws
      (calls-IsValid (first_call ∷ [])) loop_starts

abbrev two_calls : List (Call Text)
two_calls = first_call ∷ starts (codes "s") ∷ []

abbrev in_flight : SessionManager (Sessions Text)
in_flight = run store template (new []) two_calls

token_held : lookup (codes "s") in_flight.running_tokens ≡ some 0
unfolding run step create start_loop insert lookup contains_key remove text_eq InMemory.create
    InMemory.get InMemory.update
token_held = refl

finish_loop_restarts_example :
    ((finish_loop store in_flight (codes "s") idle).0 ≡ ok tt)
    × (has_inflight_loop (finish_loop store in_flight (codes "s") idle).1 (codes "s") ≡ false)
    × ((x : Session Text) × (ctx : AgentLoopContext Text) × (store.find in_flight.store (codes "s")
          ≡ some x)
        × ((start_loop store (finish_loop store in_flight (codes "s") idle).1 (codes "s")).0
            ≡ ok ctx)
        × (ctx.history ≡ x.history)
        × (0 < ctx.cancel_token)
        × All (λ c. c ≢ ctx.cancel_token) in_flight.cancelled)
finish_loop_restarts_example =
    finish_loop_restarts store in_flight (codes "s") 0 laws (calls-IsValid two_calls) token_held
