-- ===== src/Core/Session/Manager/Runs.antt =====
-- The calls of the manager as steps, and the invariant along any run of them.
use visp.Base.{ℕ, ◌≡◌, none, List, [], ◌∷◌, Text}
use visp.Base.Dict.{lookup}
use visp.Core.Message.{Message}
use visp.Core.Session.{SessionStatus, SessionStore, IsSessionStore}
use visp.Core.Session.Manager.{
  SessionManager, SubSessionParams, cancel_agent, create, create_sub, delete, start_loop,
  finish_loop, append_message, update_config, append_system_prompt_template, add_approved_tool,
}
use visp.Core.Session.Manager.Invariant.{IsValid, cancel_agent-IsValid}
use visp.Core.Session.Manager.Starting.{start_loop-IsValid}
use visp.Core.Session.Manager.Preserves.{
  create_session-IsValid, create_sub-IsValid, delete-IsValid, finish_loop-IsValid,
  append_message-IsValid, update_config-IsValid, append_system_prompt_template-IsValid,
  add_approved_tool-IsValid,
}

-- The calls, with what they take from outside.
pub data Call (C : Type 0) : Type 0 where
  creates : (id project_path : Text) (now : ℕ) → C → Call C
  creates_sub : (fresh_id : Text) (now : ℕ) → SubSessionParams C → Call C
  deletes starts cancels : (id : Text) → Call C
  finishes : (id : Text) → SessionStatus → Call C
  appends : (id : Text) → Message → Call C
  configures : (id : Text) → C → Call C
  extends_prompt approves : (id text : Text) → Call C

module _ {C S : Type 0} (st : SessionStore C S) (load_template : Text → Text) where
  unfoldable pub step : SessionManager S → Call C → SessionManager S
  step m (creates id path now config) = (create st load_template m id path now config).1
  step m (creates_sub id now params) = (create_sub st load_template m id now params).1
  step m (deletes id) = (delete st m id).1
  step m (starts id) = (start_loop st m id).1
  step m (cancels id) = cancel_agent m id
  step m (finishes id status) = (finish_loop st m id status).1
  step m (appends id msg) = (append_message st m id msg).1
  step m (configures id config) = (update_config st m id config).1
  step m (extends_prompt id extra) = (append_system_prompt_template st m id extra).1
  step m (approves id tool) = (add_approved_tool st m id tool).1

  unfoldable pub run : SessionManager S → List (Call C) → SessionManager S
  run m [] = m
  run m (c ∷ cs) = run (step m c) cs

-- Over any store that keeps the contract, every call keeps the invariant, whether it succeeds or
-- fails: each session with a token in flight is stored and running, its token is not cancelled, and no
-- two sessions share a token.
pub step-IsValid :
    {C S : Type 0} (st : SessionStore C S) (load_template : Text → Text) (m : SessionManager S)
    (c : Call C)
    → IsSessionStore st
    → IsValid st m
    → IsValid st (step st load_template m c)
unfolding step
step-IsValid st load m (creates id path now config) laws v =
    create_session-IsValid st laws load m id path now config v
step-IsValid st load m (creates_sub id now params) laws v =
    create_sub-IsValid st laws load m id now params v
step-IsValid st load m (deletes id) laws v = delete-IsValid st laws m id v
step-IsValid st load m (starts id) laws v = start_loop-IsValid st laws m id v
step-IsValid st load m (cancels id) laws v = cancel_agent-IsValid st m id v
step-IsValid st load m (finishes id status) laws v = finish_loop-IsValid st laws m id status v
step-IsValid st load m (appends id msg) laws v = append_message-IsValid st laws m id msg v
step-IsValid st load m (configures id config) laws v = update_config-IsValid st laws m id config v
step-IsValid st load m (extends_prompt id extra) laws v =
    append_system_prompt_template-IsValid st laws m id extra v
step-IsValid st load m (approves id tool) laws v = add_approved_tool-IsValid st laws m id tool v

-- A manager over an empty store.
abbrev pub new : {S : Type 0} → S → SessionManager S
new s = record { store = s; running_tokens = []; next_token = 0; cancelled = [] }

IsValid-new :
    {C S : Type 0} (st : SessionStore C S) (s : S)
    → ((k : Text) → st.find s k ≡ none)
    → IsValid st (new s)
unfolding lookup
IsValid-new st s nothing = record {
  loops_run = λ id token e. absurd (cc e);
  own_ids = λ id x e. absurd (let n = nothing id in cc);
  fresh = λ id token e. absurd (cc e);
  live = λ id token e. tt;
  distinct = λ id other token e f. absurd (cc e);
  past = tt;
}

pub along-IsValid :
    {C S : Type 0} (st : SessionStore C S) (load_template : Text → Text) (m : SessionManager S)
    (calls : List (Call C))
    → IsSessionStore st
    → IsValid st m
    → IsValid st (run st load_template m calls)
unfolding run
along-IsValid st load m [] laws v = v
along-IsValid st load m (c ∷ cs) laws v =
    along-IsValid st load (step st load m c) cs laws (step-IsValid st load m c laws v)

-- After any sequence of calls on a new manager over an empty store that keeps the contract, each session
-- with a token in flight is stored and running, its token is not cancelled, and no two sessions share
-- a token.
pub run-IsValid :
    {C S : Type 0} (st : SessionStore C S) (load_template : Text → Text) (s : S)
    (calls : List (Call C))
    → IsSessionStore st
    → ((k : Text) → st.find s k ≡ none)
    → IsValid st (run st load_template (new s) calls)
run-IsValid st load s calls laws nothing =
    along-IsValid st load (new s) calls laws (IsValid-new st s nothing)
