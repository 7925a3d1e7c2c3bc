-- ===== src/Core/Session/InMemory.antt =====
-- `InMemorySessionStore`: a map from ids to sessions, which keeps the promises of a session store.
pub mod Laws
use mathlib.Core.List.{reverse}
use visp.Base.{
  ℕ, ◌≡◌, refl, inl, inr, Bool, true, false, Option, none, some, List, [], ◌∷◌, ◌++◌, map, Text,
  codes, text_eq, text_eq_refl, text_eq_iff, length, take, filter, find, ltb, if◌then◌else◌, arith,
  Option-cases,
}
use visp.Base.Dict.{
  Dict, lookup, insert, remove, contains_key, values, lookup-insert, lookup-remove,
}
use visp.Core.Message.{Role, Message, role_eq}
use visp.Core.Session.{
  Session, SessionError, not_found, already_exists, Result, ok, err, ok_or, ◌>>=◌, SessionStore,
}

abbrev pub Sessions : Type 0 → Type 0
Sessions LlmConfig = Dict (Session LlmConfig)

-- The text of the latest User message, cut to 80 characters.
unfoldable pub last_user_text : List Message → Option Text
last_user_text history = elim (find (λ (m : Message). role_eq m.role Role.user) (reverse history)) [
  | none ↦ none
  | some m ↦
      some (if ltb 80 (length m.content) then take 80 m.content ++ codes "..." else m.content)
]

module _ {LlmConfig : Type 0} where
  unfoldable pub create : Sessions LlmConfig → Session LlmConfig → Result (Sessions LlmConfig)
  unfolding contains_key
  create s x = if contains_key x.id s then err (already_exists x.id) else ok (insert x.id x s)

  unfoldable pub get : Sessions LlmConfig → Text → Result (Session LlmConfig)
  get s id = ok_or (lookup id s) (not_found id)

  abbrev with_last_user_message : Session LlmConfig → Session LlmConfig
  with_last_user_message x = record x { last_user_message = last_user_text x.history }

  unfoldable pub list : Sessions LlmConfig → List (Session LlmConfig)
  unfolding values last_user_text
  list s = map with_last_user_message (values s)

  unfoldable pub delete : Sessions LlmConfig → Text → Result (Sessions LlmConfig)
  delete s id = do x ← ok_or (lookup id s) (not_found id); ok (remove id s)

  unfoldable pub update : Sessions LlmConfig → Session LlmConfig → Result (Sessions LlmConfig)
  unfolding contains_key
  update s x = if contains_key x.id s then ok (insert x.id x s) else err (not_found x.id)

  unfoldable pub get_messages : Sessions LlmConfig → Text → Result (List Message)
  get_messages s id = do x ← ok_or (lookup id s) (not_found id); ok x.history

  unfoldable pub get_system_prompt : Sessions LlmConfig → Text → Result Text
  get_system_prompt s id = do x ← ok_or (lookup id s) (not_found id); ok x.system_prompt_template

  unfoldable pub append_message : Sessions LlmConfig → Text → Message → Result (Sessions LlmConfig)
  append_message s id m = do
    x ← ok_or (lookup id s) (not_found id)
    ok (insert id (record x { history = x.history ++ m ∷ [] }) s)

  -- `path_eq` is the equality of `PathBuf`, which goes by the components of the paths.
  unfoldable pub list_by_project :
      (path_eq : Text → Text → Bool) → Sessions LlmConfig → Text → List (Session LlmConfig)
  unfolding values last_user_text
  list_by_project path_eq s target =
      map with_last_user_message (filter (λ x. path_eq x.project_path target) (values s))

  abbrev is_child : Text → Session LlmConfig → Bool
  is_child parent_id x = elim x.parent_id [ none ↦ false | some p ↦ text_eq p parent_id ]

  unfoldable pub list_child_sessions : Sessions LlmConfig → Text → List (Session LlmConfig)
  unfolding values
  list_child_sessions s parent_id = filter (is_child parent_id) (values s)

abbrev pub in_memory : (LlmConfig : Type 0) → SessionStore LlmConfig (Sessions LlmConfig)
in_memory LlmConfig = record {
  find = λ s id. lookup id s;
  create = create;
  get = get;
  delete = delete;
  update = update;
  append_message = append_message;
}
