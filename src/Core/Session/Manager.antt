-- ===== src/Core/Session/Manager.antt =====
-- `SessionManager`, over any session store. Each method runs as one step: the locks that it takes one
-- after the other are held by no other method in between. A cancellation token is a number; the tokens
-- that were cancelled are kept in a list. Fresh ids (`Uuid::new_v4`), the time and the prompt template
-- of a project (`load_system_prompt_template`) are arguments.
pub mod Invariant
pub mod Preserves
pub mod Starting
pub mod Runs
pub mod Lifecycle
use visp.Base.{
  ℕ, suc, ◌≡◌, Bool, true, false, ◌||◌, Option, none, some, List, [], ◌∷◌, ◌++◌, Text, codes,
  text_eq, contains, if◌then◌else◌,
}
use visp.Base.Dict.{Dict, lookup, insert, remove, contains_key}
use visp.Core.Message.{Message}
use visp.Core.Permission.{PermissionRule}
use visp.Core.Session.{
  SessionStatus, idle, running, is_idle, Session, SessionError, session_busy, Result, ok, err,
  SessionStore,
}

pub record SessionManager (S : Type 0) : Type 0 where
  pub store : S
  pub running_tokens : Dict ℕ
  pub next_token : ℕ
  pub cancelled : List ℕ

pub record SubSessionParams (LlmConfig : Type 0) : Type 0 where
  pub parent_id : Option Text
  pub agent_name : Text
  pub permission : List PermissionRule
  pub session_id : Option Text
  pub project_path : Text
  pub config : LlmConfig
  pub approved_tools : List Text

-- The fields of the loop's context that the manager fills; the trimmer, the sender and the permission
-- rules are those of the caller.
pub record AgentLoopContext (LlmConfig : Type 0) : Type 0 where
  pub session_id : Text
  pub history : List Message
  pub working_dir : Text
  pub config : LlmConfig
  pub cancel_token : ℕ
  pub depth : ℕ
  pub parent_session_id : Text

-- `remove(id)` on the running tokens, and `cancel` on what it returns.
unfoldable pub cancel_agent : {S : Type 0} → SessionManager S → Text → SessionManager S
cancel_agent m id = elim (lookup id m.running_tokens) [
  | none ↦ m
  | some token ↦ record m {
    running_tokens = remove id m.running_tokens;
    cancelled = token ∷ m.cancelled;
  }
]

unfoldable pub has_inflight_loop : {S : Type 0} → SessionManager S → Text → Bool
unfolding contains_key
has_inflight_loop m session_id = contains_key session_id m.running_tokens

module _ {C S : Type 0} (st : SessionStore C S) where
  -- A method's result and the manager behind it.
  abbrev pub Outcome : Type 0 → Type 0
  Outcome A = Result A × SessionManager S

  abbrev pub put_store : SessionManager S → Result S → Outcome (Unit {0})
  put_store m (ok s) = (ok tt, record m { store = s })
  put_store m (err e) = (err e, m)

  abbrev returning : {A B : Type 0} → A → Outcome B → Outcome A
  returning a (ok _, m) = (ok a, m)
  returning a (err e, m) = (err e, m)

  abbrev pub new_session : Text → Text → ℕ → C → Text → Session C
  new_session id project_path now config template = record {
    id = id;
    project_path = project_path;
    status = idle;
    created_at = now;
    created_at_unix = none;
    history = [];
    last_user_message = none;
    config = config;
    system_prompt_template = template;
    approved_tools = [];
    agent_name = codes "default";
    parent_id = none;
    permission = [];
  }

  unfoldable pub create :
      (load_template : Text → Text)
      → SessionManager S
      → (id project_path : Text) (now : ℕ) → C
      → Outcome (Session C)
  create load_template m id project_path now config =
      let session = new_session id project_path now config (load_template project_path) in
      returning session (put_store m (st.create m.store session))

  abbrev pub sub_session : (load_template : Text → Text) → Text → ℕ → SubSessionParams C → Session C
  sub_session load_template id now params = record {
    id = id;
    project_path = params.project_path;
    status = idle;
    created_at = now;
    created_at_unix = none;
    history = [];
    last_user_message = none;
    config = params.config;
    system_prompt_template =
        codes "You are agent \""
        ++ (params.agent_name
            ++ (codes "\" working on a project.\n\n" ++ load_template params.project_path));
    approved_tools = params.approved_tools;
    agent_name = params.agent_name;
    parent_id = params.parent_id;
    permission = params.permission;
  }

  create_new_sub :
      (load_template : Text → Text)
      → SessionManager S
      → Text
      → ℕ
      → SubSessionParams C
      → Outcome (Session C)
  create_new_sub load_template m id now params =
      let session = sub_session load_template id now params in
      returning session (put_store m (st.create m.store session))

  -- An existing session is used again; otherwise the id is the given one or the fresh one.
  unfoldable pub create_sub :
      (load_template : Text → Text)
      → SessionManager S
      → (fresh_id : Text) (now : ℕ) → SubSessionParams C
      → Outcome (Session C)
  unfolding create_new_sub
  create_sub load_template m fresh_id now params = elim params.session_id [
    | none ↦ create_new_sub load_template m fresh_id now params
    | some sid ↦ elim (st.get m.store sid) [
      | ok existing ↦ (ok existing, m)
      | err _ ↦ create_new_sub load_template m sid now params
    ]
  ]

  unfoldable pub delete : SessionManager S → Text → Outcome (Unit {0})
  unfolding cancel_agent
  delete m id = let m' = cancel_agent m id in put_store m' (st.delete m'.store id)

  abbrev context_of : Session C → Text → ℕ → AgentLoopContext C
  context_of session id token = record {
    session_id = id;
    history = session.history;
    working_dir = session.project_path;
    config = session.config;
    cancel_token = token;
    depth = 0;
    parent_session_id = elim session.parent_id [ none ↦ id | some p ↦ p ];
  }

  -- The part of `start_loop` behind the lookup; `m` has made the token already.
  start_session : SessionManager S → Text → ℕ → Session C → Outcome (AgentLoopContext C)
  start_session m id token session =
      if is_idle session.status
      then elim (st.update m.store (record session { status = running })) [
        | err e ↦ (err e, m)
        | ok s ↦ (
          ok (context_of session id token),
          record m { store = s; running_tokens = insert id token m.running_tokens },
        )
      ]
      else (err (session_busy id), m)

  unfoldable pub start_loop : SessionManager S → Text → Outcome (AgentLoopContext C)
  unfolding start_session
  start_loop m id =
      let token = m.next_token in
      let m' = record m { next_token = suc m.next_token } in
      elim (st.get m'.store id) [
        | err e ↦ (err e, m')
        | ok session ↦ start_session m' id token session
      ]

  -- A change of one session: it is read, changed and written back.
  unfoldable pub modify : SessionManager S → Text → (Session C → Session C) → Outcome (Unit {0})
  modify m id f = elim (st.get m.store id) [
    | err e ↦ (err e, m)
    | ok session ↦ put_store m (st.update m.store (f session))
  ]

  abbrev clear_token : Text → Outcome (Unit {0}) → Outcome (Unit {0})
  clear_token id (ok r, m) = (ok r, record m { running_tokens = remove id m.running_tokens })
  clear_token id (err e, m) = (err e, m)

  unfoldable pub finish_loop : SessionManager S → Text → SessionStatus → Outcome (Unit {0})
  unfolding modify
  finish_loop m id status =
      clear_token id (modify m id (λ session. record session { status = status }))

  unfoldable pub append_message : SessionManager S → Text → Message → Outcome (Unit {0})
  append_message m id msg = put_store m (st.append_message m.store id msg)

  unfoldable pub update_config : SessionManager S → Text → C → Outcome (Unit {0})
  unfolding modify
  update_config m id config = modify m id (λ session. record session { config = config })

  unfoldable pub append_system_prompt_template : SessionManager S → Text → Text → Outcome (Unit {0})
  unfolding modify
  append_system_prompt_template m id [] = (ok tt, m)
  append_system_prompt_template m id (c ∷ extra) = modify m id (λ session. record session {
    system_prompt_template = session.system_prompt_template ++ (codes "\n\n" ++ c ∷ extra);
  })

  unfoldable pub is_tool_approved : SessionManager S → Text → Text → Bool
  is_tool_approved m session_id tool_name = elim (st.get m.store session_id) [
    | ok session ↦ contains session.approved_tools tool_name
    | err _ ↦ false
  ]

  -- `HashSet::insert`
  unfoldable pub add_approved_tool : SessionManager S → Text → Text → Outcome (Unit {0})
  unfolding modify
  add_approved_tool m session_id tool_name = modify m session_id (λ session. record session {
    approved_tools =
        if contains session.approved_tools tool_name
        then session.approved_tools
        else tool_name ∷ session.approved_tools;
  })
