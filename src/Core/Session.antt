-- ===== src/Core/Session.antt =====
-- crates/visp-core/src/session.rs: the sessions, their errors, and what a store of them promises.
-- Paths and strings are texts, instants and Unix times numbers; the configuration of the model
-- (`LlmConfig`) is only passed on, so its type is a parameter.
pub mod InMemory
pub mod Manager
use visp.Base.{
  ℕ, ◌≡◌, Bool, true, false, Option, none, some, List, [], ◌∷◌, ◌++◌, Text, text_eq, if◌then◌else◌,
}
use visp.Core.Message.{Message}
use visp.Core.Permission.{PermissionRule}

pub data SessionStatus : Type 0 where
  idle running completed error : SessionStatus

abbrev pub is_idle : SessionStatus → Bool
is_idle s = elim s [ idle ↦ true | _ ↦ false ]

pub record Session (LlmConfig : Type 0) : Type 0 where
  pub id : Text
  pub project_path : Text
  pub status : SessionStatus
  pub created_at : ℕ
  pub created_at_unix : Option ℕ
  pub history : List Message
  pub last_user_message : Option Text
  pub config : LlmConfig
  pub system_prompt_template : Text
  pub approved_tools : List Text
  pub agent_name : Text
  pub parent_id : Option Text
  pub permission : List PermissionRule

-- crates/visp-core/src/error.rs
pub data SessionError : Type 0 where
  not_found already_exists not_running : Text → SessionError
  session_busy : (session_id : Text) → SessionError
  protocol_error : (message : Text) → SessionError
  other : Text → SessionError

pub data Result {ℓ} (A : Type ℓ) : Type ℓ where
  ok : A → Result A
  err : SessionError → Result A

infixl 5 ◌>>=◌
abbrev pub ◌>>=◌ {ℓ κ} : {A : Type ℓ} {B : Type κ} → Result A → (A → Result B) → Result B
ok a >>= f = f a
err e >>= f = err e

abbrev pub ok_or {ℓ} : {A : Type ℓ} → Option A → SessionError → Result A
ok_or none e = err e
ok_or (some a) e = ok a

-- `SessionStore`: the operations that the manager calls, over a state `S`, and the sessions that the
-- state shows to `find`. An operation that fails leaves the state as it was.
pub record SessionStore (LlmConfig S : Type 0) : Type 0 where
  pub find : S → Text → Option (Session LlmConfig)
  pub create : S → Session LlmConfig → Result S
  pub get : S → Text → Result (Session LlmConfig)
  pub delete : S → Text → Result S
  pub update : S → Session LlmConfig → Result S
  pub append_message : S → Text → Message → Result S

-- The store changes to one that shows `o` at `id`, and elsewhere what it showed.
abbrev pub Shows :
    {LlmConfig S : Type 0}
    → SessionStore LlmConfig S
    → S
    → Text
    → Option (Session LlmConfig)
    → Result S
    → Type 0
Shows {S = S} st s id o r =
    (s' : S) × (r ≡ ok s') × ((k : Text) → st.find s' k ≡ (if text_eq id k then o else st.find s k))

-- The contract of a store: what each operation does on each of its branches.
pub record IsSessionStore {LlmConfig S : Type 0} (st : SessionStore LlmConfig S) : Type 0 where
  pub get_lem : (s : S) (id : Text) → st.get s id ≡ ok_or (st.find s id) (not_found id)
  pub create_new :
      (s : S) (x : Session LlmConfig)
      → st.find s x.id ≡ none
      → Shows st s x.id (some x) (st.create s x)
  pub create_taken :
      (s : S) (x y : Session LlmConfig)
      → st.find s x.id ≡ some y
      → st.create s x ≡ err (already_exists x.id)
  pub update_known :
      (s : S) (x y : Session LlmConfig)
      → st.find s x.id ≡ some y
      → Shows st s x.id (some x) (st.update s x)
  pub update_unknown :
      (s : S) (x : Session LlmConfig) → st.find s x.id ≡ none → st.update s x ≡ err (not_found x.id)
  pub delete_known :
      (s : S) (id : Text) (y : Session LlmConfig)
      → st.find s id ≡ some y
      → Shows st s id none (st.delete s id)
  pub delete_unknown :
      (s : S) (id : Text) → st.find s id ≡ none → st.delete s id ≡ err (not_found id)
  pub append_known :
      (s : S) (id : Text) (m : Message) (y : Session LlmConfig)
      → st.find s id ≡ some y
      → Shows st s id (some (record y { history = y.history ++ m ∷ [] })) (st.append_message s id m)
  pub append_unknown :
      (s : S) (id : Text) (m : Message)
      → st.find s id ≡ none
      → st.append_message s id m ≡ err (not_found id)
