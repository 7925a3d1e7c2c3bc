-- ===== src/Core/Session/Manager/Lifecycle.antt =====
-- The loop of a session from `start_loop` to `finish_loop`: what a second start, a cancel and a finish
-- do.
use visp.Base.{
  Bool-cases, ◌⊎◌, inl, inr, ℕ, ◌<◌, ◌≡◌, ◌≢◌, All, All-mono, arith, refl, sym, ◌∙◌, ap, inl, inr,
  true, false, none, some, Text, text_eq, text_eq_refl, Option-cases, some_inj,
}
use visp.Base.Dict.{lookup, insert, remove, contains_key, lookup-insert, lookup-remove}
use visp.Core.Session.{
  SessionError, idle, running, is_idle, Session, ok, err, session_busy, SessionStore,
  IsSessionStore,
}
use visp.Core.Session.Manager.{
  SessionManager, AgentLoopContext, Outcome, context_of, cancel_agent, has_inflight_loop,
  start_loop, finish_loop,
}
use visp.Core.Session.Manager.Invariant.{IsValid}
use visp.Core.Session.Manager.Preserves.{modify-cases, finish_loop-IsValid}
use visp.Core.Session.Manager.Starting.{start_loop-cases, ticked}

module _ {C S : Type 0} (st : SessionStore C S) (laws : IsSessionStore st) where
  start_loop-busy :
      (m : SessionManager S) (id : Text) (x : Session C)
      → st.find m.store id ≡ some x
      → is_idle x.status ≡ false
      → start_loop st m id ≡ (err (session_busy id), ticked st laws m)
  unfolding start_loop
  start_loop-busy m id x e busy = rw (laws.get_lem m.store id, start_loop, e, busy) refl

  start_loop-idle :
      (m : SessionManager S) (id : Text) (x : Session C)
      → IsValid st m
      → st.find m.store id ≡ some x
      → is_idle x.status ≡ true
      → (ctx : AgentLoopContext C) × ((start_loop st m id).0 ≡ ok ctx)
        × (ctx.history ≡ x.history)
        × (ctx.cancel_token ≡ m.next_token)
  start_loop-idle m id x v e free = elim (start_loop-cases st laws m id v) [
    | inl (unknown, _) ↦ absurd (cc)
    | inr (inl (y, f, busy, _)) ↦
        absurd (let same = ap (λ (z : Session C). is_idle z.status) (some_inj (sym e ∙ f)) in cc)
    | inr (inr (y, s, f, _, eq, _)) ↦ (
      context_of st y id m.next_token,
      ap (λ (o : Outcome st (AgentLoopContext C)). o.0) eq,
      ap (λ (z : Session C). z.history) (some_inj (sym f ∙ e)),
      refl,
    )
  ]

cancel_agent-store :
    {S : Type 0} (m : SessionManager S) (id : Text) → (cancel_agent m id).store ≡ m.store
unfolding cancel_agent
cancel_agent-store m id = elim (Option-cases (lookup id m.running_tokens)) [
  | inl e ↦ rw (e, cancel_agent) refl
  | inr (t, e) ↦ rw (e, cancel_agent) refl
]

failed : {A : Type 0} (a : A) (e : SessionError) → ok a ≡ err e → ⊥
failed a e eq = cc

-- Where `start_loop` succeeds, the session has a loop in flight; a second start of the same session is
-- refused as busy, also after the loop was cancelled and has not finished; and every other session is
-- as it was.
pub start_loop_excludes :
    {C S : Type 0} (st : SessionStore C S) (m m' : SessionManager S) (id : Text)
    (ctx : AgentLoopContext C)
    → IsSessionStore st
    → IsValid st m
    → start_loop st m id ≡ (ok ctx, m')
    → (has_inflight_loop m' id ≡ true)
      × ((start_loop st m' id).0 ≡ err (session_busy id))
      × ((start_loop st (cancel_agent m' id) id).0 ≡ err (session_busy id))
      × ((k : Text) → (text_eq id k ≡ true) ⊎ (st.find m'.store k ≡ st.find m.store k))
unfolding has_inflight_loop contains_key
start_loop_excludes {C} {S} st m m' id ctx laws v e = elim (start_loop-cases st laws m id v) [
  | inl (_, eq) ↦
      absurd (failed _ _ (ap (λ (o : Outcome st (AgentLoopContext C)). o.0) (sym e ∙ eq)))
  | inr (inl (x, _, _, eq)) ↦
      absurd (failed _ _ (ap (λ (o : Outcome st (AgentLoopContext C)). o.0) (sym e ∙ eq)))
  | inr (inr (x, s, found, free, eq, shows)) ↦
      let after : m' ≡ record (ticked st laws m) {
        store = s;
        running_tokens = insert id m.next_token m.running_tokens;
      } =
        ap (λ (o : Outcome st (AgentLoopContext C)). o.1) (sym e ∙ eq) in
      let store : m'.store ≡ s = ap (λ (n : SessionManager S). n.store) after in
      let token : lookup id m'.running_tokens ≡ some m.next_token =
        ap (λ (n : SessionManager S). lookup id n.running_tokens) after
        ∙ rw (lookup-insert id id m.next_token m.running_tokens, text_eq_refl id) refl in
      let y = record x { status = running } in
      let here : st.find m'.store id ≡ some y =
        ap (λ z. st.find z id) store ∙ shows id ∙ rw (text_eq_refl id) refl in
      (
        rw (token, has_inflight_loop, contains_key) refl,
        ap (λ (o : Outcome st (AgentLoopContext C)). o.0)
            (start_loop-busy st laws m' id y here refl),
        ap (λ (o : Outcome st (AgentLoopContext C)). o.0)
            (start_loop-busy st laws (cancel_agent m' id) id y
              (ap (λ z. st.find z id) (cancel_agent-store m' id) ∙ here) refl),
        λ k. elim (Bool-cases (text_eq id k)) [
          | inl same ↦ inl same
          | inr other ↦ inr (ap (λ z. st.find z k) store ∙ shows k ∙ rw other refl)
        ],
      )
]

-- A session whose loop is in flight is finished as idle, and can then be started again: the new loop
-- has the history of the finished one and a token of its own, which was never cancelled.
pub finish_loop_restarts :
    {C S : Type 0} (st : SessionStore C S) (m : SessionManager S) (id : Text) (token : ℕ)
    → IsSessionStore st
    → IsValid st m
    → lookup id m.running_tokens ≡ some token
    → ((finish_loop st m id idle).0 ≡ ok tt)
      × (has_inflight_loop (finish_loop st m id idle).1 id ≡ false)
      × ((x : Session C) × (ctx : AgentLoopContext C) × (st.find m.store id ≡ some x)
          × ((start_loop st (finish_loop st m id idle).1 id).0 ≡ ok ctx)
          × (ctx.history ≡ x.history)
          × (token < ctx.cancel_token)
          × All (λ c. c ≢ ctx.cancel_token) m.cancelled)
unfolding finish_loop has_inflight_loop contains_key
finish_loop_restarts {C} {S} st m id token laws v held =
    elim (modify-cases st laws m id (λ x. record x { status = idle }) (λ x. refl) v) [
      | inl (unknown, eq) ↦ absurd (let (y, e, _) = v.loops_run id token held in cc)
      | inr (x, s, e, eq, shows) ↦
          let gone : lookup id (remove id m.running_tokens) ≡ none =
            rw (lookup-remove id id m.running_tokens, text_eq_refl id) refl in
          let n = record m { store = s; running_tokens = remove id m.running_tokens } in
          let after : (finish_loop st m id idle).1 ≡ n = rw (finish_loop, eq) refl in
          let here : st.find (finish_loop st m id idle).1.store id
              ≡ some (record x { status = idle }) =
            ap (λ (k : SessionManager S). st.find k.store id) after
            ∙ shows id
            ∙ rw (text_eq_refl id) refl in
          let w = finish_loop-IsValid st laws m id idle v in
          let (ctx, started, history, fresh) =
            start_loop-idle st laws (finish_loop st m id idle).1 id (record x { status = idle }) w
              here refl in
          let next : ctx.cancel_token ≡ m.next_token =
            fresh ∙ ap (λ (k : SessionManager S). k.next_token) after in
          (
            rw (finish_loop, eq) refl,
            ap (λ (k : SessionManager S). has_inflight_loop k id) after
                ∙ rw (gone, has_inflight_loop, contains_key) refl,
            (
              x,
              ctx,
              e,
              started,
              history,
              (let h = v.fresh id token held in omega arith),
              All-mono m.cancelled (λ c h same. omega arith) v.past,
            ),
          )
    ]
