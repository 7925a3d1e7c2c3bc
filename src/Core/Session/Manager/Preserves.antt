-- ===== src/Core/Session/Manager/Preserves.antt =====
-- Each method of the manager keeps the invariant, on each of its branches.
use visp.Base.{
  ℕ, ◌≡◌, refl, sym, ◌∙◌, ap, ◌⊎◌, inl, inr, none, some, [], ◌∷◌, ◌++◌, Text, text_eq, text_eq_refl,
  if◌then◌else◌, Option-cases, some_inj,
}
use visp.Base.Dict.{lookup, remove, lookup-remove}
use visp.Core.Message.{Message}
use visp.Core.Session.{
  SessionStatus, idle, Session, ok, err, SessionStore, IsSessionStore, not_found,
}
use visp.Core.Session.Manager.{
  SessionManager, SubSessionParams, cancel_agent, Outcome, returning, put_store, new_session,
  sub_session, create, create_new_sub, create_sub, delete, modify, finish_loop, append_message,
  update_config, append_system_prompt_template, add_approved_tool,
}
use visp.Core.Session.Manager.Invariant.{
  IsValid, IsValid-write, IsValid-drop, IsValid-remove, cancel_agent-IsValid,
}

cancelled_free :
    {S : Type 0} (m : SessionManager S) (id : Text)
    → lookup id (cancel_agent m id).running_tokens ≡ none
unfolding cancel_agent
cancelled_free m id = elim (Option-cases (lookup id m.running_tokens)) [
  | inl e ↦ rw (e, cancel_agent) e
  | inr (t, e) ↦
      rw (e, cancel_agent) (rw (lookup-remove id id m.running_tokens, text_eq_refl id) refl)
]

module _ {C S : Type 0} (st : SessionStore C S) (laws : IsSessionStore st) where
  -- A change of a stored session that keeps its id fails on an unknown session, and otherwise writes it.
  pub modify-cases :
      (m : SessionManager S) (id : Text) (f : Session C → Session C)
      → ((x : Session C) → (f x).id ≡ x.id)
      → IsValid st m
      → ((st.find m.store id ≡ none) × (modify st m id f ≡ (err (not_found id), m)))
        ⊎ ((x : Session C) × (s : S) × (st.find m.store id ≡ some x)
            × (modify st m id f ≡ (ok tt, record m { store = s }))
            × ((k : Text) → st.find s k ≡ (if text_eq id k then some (f x) else st.find m.store k)))
  unfolding modify
  modify-cases m id f keeps v = elim (Option-cases (st.find m.store id)) [
    | inl e ↦ inl (e, rw (laws.get_lem m.store id, modify, e) refl)
    | inr (x, e) ↦
        let same : (f x).id ≡ id = keeps x ∙ v.own_ids id x e in
        let found : st.find m.store (f x).id ≡ some x = rw same e in
        let (s, eq, shows) = laws.update_known m.store (f x) x found in
        inr (
          x,
          s,
          e,
          rw (laws.get_lem m.store id, modify, e, eq) refl,
          λ k.
              shows k
              ∙ ap (λ (j : Text). if text_eq j k then some (f x) else st.find m.store k) same,
        )
  ]

  same_status :
      (m : SessionManager S) (id : Text) (x y : Session C)
      → st.find m.store id ≡ some x
      → st.find m.store id ≡ some y
      → x.status ≡ y.status
  same_status m id x y e f =
      let xy : some x ≡ some y = sym e ∙ f in ap (λ (z : Session C). z.status) (some_inj xy)

  -- The same where the session runs on, if it ran.
  pub modify-IsValid :
      (m : SessionManager S) (id : Text) (f : Session C → Session C)
      → ((x : Session C) → (f x).id ≡ x.id)
      → ((x : Session C) → (f x).status ≡ x.status)
      → IsValid st m
      → IsValid st (modify st m id f).1
  modify-IsValid m id f keeps stays v = elim (modify-cases m id f keeps v) [
    | inl (_, eq) ↦ rw eq v
    | inr (x, s, e, eq, shows) ↦ rw eq (
        IsValid-write st m id (f x) s shows (keeps x ∙ v.own_ids id x e)
          (elim (Option-cases (lookup id m.running_tokens)) [
            | inl free ↦ inl free
            | inr (t, held) ↦
                let (y, e', r) = v.loops_run id t held in
                inr (stays x ∙ same_status m id x y e e' ∙ r)
          ])
          v)
  ]

  pub finish_loop-IsValid :
      (m : SessionManager S) (id : Text) (status : SessionStatus)
      → IsValid st m
      → IsValid st (finish_loop st m id status).1
  unfolding finish_loop
  finish_loop-IsValid m id status v =
      elim (modify-cases m id (λ x. record x { status = status }) (λ x. refl) v) [
        | inl (_, eq) ↦ rw eq v
        | inr (x, s, e, eq, shows) ↦ rw eq (
            IsValid-write st (record m { running_tokens = remove id m.running_tokens }) id
              (record x { status = status }) s shows (v.own_ids id x e)
              (inl (rw (lookup-remove id id m.running_tokens, text_eq_refl id) refl))
              (IsValid-remove st m id v))
      ]

  pub no_loop :
      (m : SessionManager S) (id : Text)
      → IsValid st m
      → st.find m.store id ≡ none
      → lookup id m.running_tokens ≡ none
  no_loop m id v e = elim (Option-cases (lookup id m.running_tokens)) [
    | inl free ↦ free
    | inr (t, held) ↦ absurd (let (y, e', r) = v.loops_run id t held in cc)
  ]

  -- A new session is stored under an id that no session has, so no loop of it runs.
  pub create-IsValid :
      (m : SessionManager S) (y : Session C)
      → y.status ≡ idle
      → IsValid st m
      → IsValid st (put_store st m (st.create m.store y)).1
  create-IsValid m y i v = elim (Option-cases (st.find m.store y.id)) [
    | inr (x, e) ↦ rw (laws.create_taken m.store y x e) v
    | inl e ↦
        let (s, eq, shows) = laws.create_new m.store y e in
        rw eq (IsValid-write st m y.id y s shows refl (inl (no_loop m y.id v e)) v)
  ]

  returning-manager : {A B : Type 0} (a : A) (o : Outcome st B) → (returning st a o).1 ≡ o.1
  returning-manager a (ok b, m) = refl
  returning-manager a (err e, m) = refl

  create_new_sub-IsValid :
      (load_template : Text → Text) (m : SessionManager S) (id : Text) (now : ℕ)
      (params : SubSessionParams C)
      → IsValid st m
      → IsValid st (create_new_sub st load_template m id now params).1
  unfolding create_new_sub
  create_new_sub-IsValid load_template m id now params v =
      rw (returning-manager _ _)
        (create-IsValid m (sub_session st load_template id now params) refl v)

  pub create_sub-IsValid :
      (load_template : Text → Text) (m : SessionManager S) (fresh_id : Text) (now : ℕ)
      (params : SubSessionParams C)
      → IsValid st m
      → IsValid st (create_sub st load_template m fresh_id now params).1
  unfolding create_sub
  create_sub-IsValid load_template m fresh_id now params v = elim (Option-cases params.session_id) [
    | inl e ↦ rw (e, create_sub) (create_new_sub-IsValid load_template m fresh_id now params v)
    | inr (sid, e) ↦ elim (Option-cases (st.find m.store sid)) [
      | inl f ↦
          rw (e, create_sub, laws.get_lem m.store sid, f)
            (create_new_sub-IsValid load_template m sid now params v)
      | inr (x, f) ↦ rw (e, create_sub, laws.get_lem m.store sid, f) v
    ]
  ]

  pub delete-IsValid :
      (m : SessionManager S) (id : Text) → IsValid st m → IsValid st (delete st m id).1
  unfolding delete
  delete-IsValid m id v =
      let w = cancel_agent-IsValid st m id v in
      let m' = cancel_agent m id in
      elim (Option-cases (st.find m'.store id)) [
        | inl e ↦ rw (laws.delete_unknown m'.store id e) w
        | inr (x, e) ↦
            let (s, eq, shows) = laws.delete_known m'.store id x e in
            rw eq (IsValid-drop st m' id s shows (cancelled_free m id) w)
      ]

  pub append_message-IsValid :
      (m : SessionManager S) (id : Text) (msg : Message)
      → IsValid st m
      → IsValid st (append_message st m id msg).1
  unfolding append_message
  append_message-IsValid m id msg v = elim (Option-cases (st.find m.store id)) [
    | inl e ↦ rw (laws.append_unknown m.store id msg e) v
    | inr (x, e) ↦
        let (s, eq, shows) = laws.append_known m.store id msg x e in
        rw eq (
          IsValid-write st m id (record x { history = x.history ++ msg ∷ [] }) s shows
            (v.own_ids id x e)
            (elim (Option-cases (lookup id m.running_tokens)) [
              | inl free ↦ inl free
              | inr (t, held) ↦
                  let (y, e', r) = v.loops_run id t held in inr (same_status m id x y e e' ∙ r)
            ])
            v)
  ]

  pub create_session-IsValid :
      (load_template : Text → Text) (m : SessionManager S) (id project_path : Text) (now : ℕ)
      (config : C)
      → IsValid st m
      → IsValid st (create st load_template m id project_path now config).1
  unfolding create
  create_session-IsValid load_template m id project_path now config v = rw (returning-manager _ _) (
      create-IsValid m (new_session st id project_path now config (load_template project_path)) refl
        v)

  pub update_config-IsValid :
      (m : SessionManager S) (id : Text) (config : C)
      → IsValid st m
      → IsValid st (update_config st m id config).1
  unfolding update_config
  update_config-IsValid m id config v = modify-IsValid m id _ (λ x. refl) (λ x. refl) v

  pub append_system_prompt_template-IsValid :
      (m : SessionManager S) (id extra : Text)
      → IsValid st m
      → IsValid st (append_system_prompt_template st m id extra).1
  unfolding append_system_prompt_template
  append_system_prompt_template-IsValid m id [] v = v
  append_system_prompt_template-IsValid m id (c ∷ extra) v =
      modify-IsValid m id _ (λ x. refl) (λ x. refl) v

  pub add_approved_tool-IsValid :
      (m : SessionManager S) (id tool : Text)
      → IsValid st m
      → IsValid st (add_approved_tool st m id tool).1
  unfolding add_approved_tool
  add_approved_tool-IsValid m id tool v = modify-IsValid m id _ (λ x. refl) (λ x. refl) v
