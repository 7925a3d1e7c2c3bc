-- ===== src/Core/Session/InMemory/Laws.antt =====
-- The map of `InMemorySessionStore` keeps the promises of a session store.
use visp.Base.{◌≡◌, refl, none, some, [], ◌∷◌, ◌++◌, Text, text_eq, if◌then◌else◌}
use visp.Base.Dict.{lookup, insert, remove, contains_key, lookup-insert, lookup-remove}
use visp.Core.Message.{Message}
use visp.Core.Session.{Session, not_found, already_exists, ok, err, ok_or, IsSessionStore}
use visp.Core.Session.InMemory.{Sessions, create, get, delete, update, append_message, in_memory}

module _ {LlmConfig : Type 0} (s : Sessions LlmConfig) where
  get_lem : (id : Text) → get s id ≡ ok_or (lookup id s) (not_found id)
  unfolding get
  get_lem id = refl

  create_new :
      (x : Session LlmConfig)
      → lookup x.id s ≡ none
      → (s' : Sessions LlmConfig) × (create s x ≡ ok s')
        × ((k : Text) → lookup k s' ≡ (if text_eq x.id k then some x else lookup k s))
  unfolding create
  create_new x e = (insert x.id x s, rw (e, contains_key) refl, λ k. lookup-insert x.id k x s)

  create_taken :
      (x y : Session LlmConfig) → lookup x.id s ≡ some y → create s x ≡ err (already_exists x.id)
  unfolding create
  create_taken x y e = rw (e, contains_key) refl

  update_known :
      (x y : Session LlmConfig)
      → lookup x.id s ≡ some y
      → (s' : Sessions LlmConfig) × (update s x ≡ ok s')
        × ((k : Text) → lookup k s' ≡ (if text_eq x.id k then some x else lookup k s))
  unfolding update
  update_known x y e = (insert x.id x s, rw (e, contains_key) refl, λ k. lookup-insert x.id k x s)

  update_unknown :
      (x : Session LlmConfig) → lookup x.id s ≡ none → update s x ≡ err (not_found x.id)
  unfolding update
  update_unknown x e = rw (e, contains_key) refl

  delete_known :
      (id : Text) (y : Session LlmConfig)
      → lookup id s ≡ some y
      → (s' : Sessions LlmConfig) × (delete s id ≡ ok s')
        × ((k : Text) → lookup k s' ≡ (if text_eq id k then none else lookup k s))
  unfolding delete
  delete_known id y e = (remove id s, rw e refl, λ k. lookup-remove id k s)

  delete_unknown : (id : Text) → lookup id s ≡ none → delete s id ≡ err (not_found id)
  unfolding delete
  delete_unknown id e = rw e refl

  append_known :
      (id : Text) (m : Message) (y : Session LlmConfig)
      → lookup id s ≡ some y
      → (s' : Sessions LlmConfig) × (append_message s id m ≡ ok s')
        × ((k : Text)
            → lookup k s' ≡ (
                if text_eq id k
                then some (record y { history = y.history ++ m ∷ [] })
                else lookup k s))
  unfolding append_message
  append_known id m y e =
      let y' = record y { history = y.history ++ m ∷ [] } in
      (insert id y' s, rw e refl, λ k. lookup-insert id k y' s)

  append_unknown :
      (id : Text) (m : Message) → lookup id s ≡ none → append_message s id m ≡ err (not_found id)
  unfolding append_message
  append_unknown id m e = rw e refl

-- The in-memory store implements the contract of a session store: its operations, seen through the
-- lookup of a session by its id, do what the contract says of each of them, errors included.
pub in_memory-IsSessionStore : (LlmConfig : Type 0) → IsSessionStore (in_memory LlmConfig)
in_memory-IsSessionStore LlmConfig = record {
  get_lem = get_lem;
  create_new = create_new;
  create_taken = create_taken;
  update_known = update_known;
  update_unknown = update_unknown;
  delete_known = delete_known;
  delete_unknown = delete_unknown;
  append_known = append_known;
  append_unknown = append_unknown;
}
