-- ===== src/Core/Session/Manager/Starting.antt =====
-- `start_loop` on each of its branches, and that it keeps the invariant.
use visp.Base.{
  suc, ◌≡◌, refl, ◌∙◌, ap, ◌⊎◌, inl, inr, true, false, none, some, Text, text_eq, text_eq_refl,
  if◌then◌else◌, arith, Bool-cases, Option-cases,
}
use visp.Base.Dict.{insert}
use visp.Core.Session.{
  running, is_idle, Session, session_busy, ok, err, SessionStore, IsSessionStore, not_found,
}
use visp.Core.Session.Manager.{SessionManager, context_of, start_loop}
use visp.Core.Session.Manager.Invariant.{IsValid, IsValid-write, IsValid-tick, IsValid-insert}

module _ {C S : Type 0} (st : SessionStore C S) (laws : IsSessionStore st) where
  -- The token is made on every branch.
  abbrev pub ticked : SessionManager S → SessionManager S
  ticked m = record m { next_token = suc m.next_token }

  -- `start_loop` fails on an unknown session and on one that is not idle; otherwise it writes the
  -- session back as running and registers the token.
  pub start_loop-cases :
      (m : SessionManager S) (id : Text)
      → IsValid st m
      → ((st.find m.store id ≡ none) × (start_loop st m id ≡ (err (not_found id), ticked m)))
        ⊎ (((x : Session C) × (st.find m.store id ≡ some x)
              × (is_idle x.status ≡ false)
              × (start_loop st m id ≡ (err (session_busy id), ticked m)))
            ⊎ ((x : Session C) × (s : S) × (st.find m.store id ≡ some x)
                × (is_idle x.status ≡ true)
                × (start_loop st m id ≡ (
                  ok (context_of st x id m.next_token),
                  record (ticked m) {
                    store = s;
                    running_tokens = insert id m.next_token m.running_tokens;
                  },
                ))
                × ((k : Text)
                    → st.find s k ≡ (
                        if text_eq id k
                        then some (record x { status = running })
                        else st.find m.store k))))
  unfolding start_loop
  start_loop-cases m id v = elim (Option-cases (st.find m.store id)) [
    | inl e ↦ inl (e, rw (laws.get_lem m.store id, start_loop, e) refl)
    | inr (x, e) ↦ elim (Bool-cases (is_idle x.status)) [
      | inr busy ↦ inr (inl (x, e, busy, rw (laws.get_lem m.store id, start_loop, e, busy) refl))
      | inl free ↦
          let same : x.id ≡ id = v.own_ids id x e in
          let found : st.find m.store x.id ≡ some x = ap (st.find m.store) same ∙ e in
          let (s, eq, shows) = laws.update_known m.store (record x { status = running }) x found in
          inr (
            inr (
              x,
              s,
              e,
              free,
              rw (laws.get_lem m.store id, start_loop, e, free, eq) refl,
              λ k.
                  shows k
                  ∙ ap
                      (λ (j : Text).
                        if text_eq j k
                        then some (record x { status = running })
                        else st.find m.store k)
                      same,
            ))
    ]
  ]

  pub start_loop-IsValid :
      (m : SessionManager S) (id : Text) → IsValid st m → IsValid st (start_loop st m id).1
  start_loop-IsValid m id v = elim (start_loop-cases m id v) [
    | inl (_, eq) ↦ rw eq (IsValid-tick st m v)
    | inr (inl (x, _, _, eq)) ↦ rw eq (IsValid-tick st m v)
    | inr (inr (x, s, e, free, eq, shows)) ↦
        let y = record x { status = running } in
        rw eq (
          IsValid-insert st (record (ticked m) { store = s }) id y
            (rw (shows id, text_eq_refl id) refl) refl m.next_token (omega arith) v.fresh v.past
            (IsValid-write st (ticked m) id y s shows (v.own_ids id x e) (inr refl)
              (IsValid-tick st m v)))
  ]
