-- ===== src/Core/AgentLoop/World/Finished.antt =====
-- The session manager of crates/visp-core/src/session.rs stays valid along the loop, and finishing the
-- session ends its loop there.
use visp.Base.{◌≡◌, refl, sym, ◌∙◌, ap, inl, inr, false, none, some, text_eq_refl, some_inj}
use visp.Base.Dict.{lookup, remove, contains_key, lookup-remove}
use visp.Core.Session.{SessionStatus, completed, Session, SessionStore, IsSessionStore}
use visp.Core.Session.Manager.{has_inflight_loop, finish_loop}
use visp.Core.Session.Manager.Invariant.{IsValid}
use visp.Core.Session.Manager.Preserves.{
  modify-cases, finish_loop-IsValid, append_message-IsValid, add_approved_tool-IsValid, no_loop,
}
use visp.Core.Session.Manager.Runs.{along-IsValid}
use visp.Core.AgentLoop.World.{Outside, World, Loop, await, finish}
use visp.Core.AgentLoop.World.Safe.{Keeps}

module _ {C S : Type 0} (st : SessionStore C S) (l : Loop C) where
  -- The session has no loop in flight, and if it is still stored, it has this status.
  abbrev pub Ended : SessionStatus → World S → Type 0
  Ended status w =
      (has_inflight_loop w.sm l.sid ≡ false)
      × ((x : Session C) → st.find w.sm.store l.sid ≡ some x → x.status ≡ status)

  abbrev pub Valid : World S → Type 0
  Valid w = IsValid st w.sm

  abbrev pub ValidEnded : SessionStatus → World S → Type 0
  ValidEnded status w = IsValid st w.sm × Ended status w

  pub finish-Ended :
      (out : Outside C) (status : SessionStatus) (w : World S)
      → IsSessionStore st
      → IsValid st w.sm
      → ValidEnded status (finish st out l status w)
  unfolding finish finish_loop has_inflight_loop contains_key
  finish-Ended out status w laws v = (
    finish_loop-IsValid st laws w.sm l.sid status v,
    elim (modify-cases st laws w.sm l.sid (λ x. record x { status = status }) (λ x. refl) v) [
      | inl (unknown, eq) ↦
          let free = no_loop st laws w.sm l.sid v unknown in
          (
            rw (eq, free, has_inflight_loop, contains_key) refl,
            λ x e. absurd (let e' = rw eq at e in cc),
          )
      | inr (x, s, e, eq, shows) ↦
          let gone : lookup l.sid (remove l.sid w.sm.running_tokens) ≡ none =
            rw (lookup-remove l.sid l.sid w.sm.running_tokens, text_eq_refl l.sid) refl in
          (
            rw (eq, gone, has_inflight_loop, contains_key) refl,
            λ y f.
                let f' : st.find s l.sid ≡ some y = rw eq at f in
                let found : st.find s l.sid ≡ some (record x { status = status }) =
                  shows l.sid ∙ rw (text_eq_refl l.sid) refl in
                ap (λ (z : Session C). z.status) (some_inj (sym f' ∙ found)),
          )
    ],
  )

  await-IsValid :
      (out : Outside C) (w : World S)
      → IsSessionStore st
      → IsValid st w.sm
      → IsValid st (await st out l w).sm
  unfolding await
  await-IsValid out w laws v = along-IsValid st out.load_template w.sm (out.others w.now) laws v

  pub IsValid-Keeps :
      (out : Outside C)
      → IsSessionStore st
      → Keeps st out l Valid (ValidEnded SessionStatus.error) (ValidEnded completed) (λ _. Unit)
  IsValid-Keeps out laws = record {
    awaits = λ w v. await-IsValid out w laws v;
    sends = λ e w v. v;
    forwards = λ msg w v. v;
    sleeps = λ d w v. v;
    notes = λ h w v. v;
    stores = λ m w v. append_message-IsValid st laws w.sm l.sid m v;
    approves = λ tool w v. add_approved_tool-IsValid st laws w.sm l.sid tool v;
    finishes = λ status w v. (finish-Ended out status w laws v).0;
    fails = λ w v. finish-Ended out SessionStatus.error w laws v;
    completes = λ w v. finish-Ended out completed w laws v;
    asks = λ id message options other w v. tt;
  }
