-- ===== src/Core/Session/Manager/Invariant.antt =====
-- A session with a token in flight is a stored session whose loop runs, and its token is live.
use visp.Base.{
  ℕ, suc, ◌<◌, ◌≡◌, ◌≢◌, refl, sym, ◌∙◌, ap, ◌⊎◌, inl, inr, true, false, none, some, Text, text_eq,
  text_eq_iff, text_eq→eq, if◌then◌else◌, arith, Bool-cases, Option-cases, some_inj, All, All-mono,
}
use visp.Base.Dict.{Dict, lookup, insert, remove, lookup-insert, lookup-remove}
use visp.Core.Session.{running, Session, SessionStore}
use visp.Core.Session.Manager.{SessionManager, cancel_agent}

free_here :
    (id k : Text) (d : Dict ℕ) (token : ℕ)
    → text_eq id k ≡ true
    → lookup id d ≡ none
    → lookup k d ≡ some token
    → ⊥
free_here id k d token same free e =
    let f = ap (λ (j : Text). lookup j d) (text_eq→eq id k same) in cc

-- What a map without the entry of one key shows.
pub lookup_removed :
    (id k : Text) (d : Dict ℕ) (token : ℕ)
    → lookup k (remove id d) ≡ some token
    → (lookup k d ≡ some token) × (text_eq id k ≡ false)
lookup_removed id k d token e = elim (Bool-cases (text_eq id k)) [
  | inl same ↦ absurd (let e' = rw (lookup-remove id k d, same) at e in cc)
  | inr other ↦ (rw (lookup-remove id k d, other) at e, other)
]

lookup_inserted :
    (id k : Text) (token t : ℕ) (d : Dict ℕ)
    → lookup k (insert id token d) ≡ some t
    → ((id ≡ k) × (t ≡ token)) ⊎ (lookup k d ≡ some t)
lookup_inserted id k token t d e = elim (Bool-cases (text_eq id k)) [
  | inl same ↦
      let e' : some token ≡ some t = rw (lookup-insert id k token d, same) at e in
      inl (text_eq→eq id k same, sym (some_inj e'))
  | inr other ↦ inr (rw (lookup-insert id k token d, other) at e)
]

module _ {C S : Type 0} (st : SessionStore C S) where
  pub record IsValid (m : SessionManager S) : Type 0 where
    pub loops_run :
        (id : Text) (token : ℕ)
        → lookup id m.running_tokens ≡ some token
        → (x : Session C) × (st.find m.store id ≡ some x) × (x.status ≡ running)
    pub own_ids : (id : Text) (x : Session C) → st.find m.store id ≡ some x → x.id ≡ id
    pub fresh :
        (id : Text) (token : ℕ) → lookup id m.running_tokens ≡ some token → token < m.next_token
    pub live :
        (id : Text) (token : ℕ)
        → lookup id m.running_tokens ≡ some token
        → All (λ c. c ≢ token) m.cancelled
    pub distinct :
        (id other : Text) (token : ℕ)
        → lookup id m.running_tokens ≡ some token
        → lookup other m.running_tokens ≡ some token
        → id ≡ other
    pub past : All (λ c. c < m.next_token) m.cancelled

  -- One session is written, under its own id, and runs if it has a token in flight.
  pub IsValid-write :
      (m : SessionManager S) (id : Text) (y : Session C) (s : S)
      → ((k : Text) → st.find s k ≡ (if text_eq id k then some y else st.find m.store k))
      → y.id ≡ id
      → (lookup id m.running_tokens ≡ none) ⊎ (y.status ≡ running)
      → IsValid m
      → IsValid (record m { store = s })
  IsValid-write m id y s shows own runs v = record {
    loops_run = λ k token e. elim (Bool-cases (text_eq id k)) [
      | inl same ↦ elim runs [
        | inl free ↦ absurd (free_here id k m.running_tokens token same free e)
        | inr r ↦ (y, rw (shows k, same) refl, r)
      ]
      | inr other ↦ rw (shows k, other) (v.loops_run k token e)
    ];
    own_ids = λ k x e. elim (Bool-cases (text_eq id k)) [
      | inl same ↦
          let e' : some y ≡ some x = rw (shows k, same) at e in
          sym (ap (λ (z : Session C). z.id) (some_inj e')) ∙ own ∙ text_eq→eq id k same
      | inr other ↦ v.own_ids k x (rw (shows k, other) at e)
    ];
    fresh = v.fresh;
    live = v.live;
    distinct = v.distinct;
    past = v.past;
  }

  -- A session without a token in flight is deleted.
  pub IsValid-drop :
      (m : SessionManager S) (id : Text) (s : S)
      → ((k : Text) → st.find s k ≡ (if text_eq id k then none else st.find m.store k))
      → lookup id m.running_tokens ≡ none
      → IsValid m
      → IsValid (record m { store = s })
  IsValid-drop m id s shows free v = record {
    loops_run = λ k token e. elim (Bool-cases (text_eq id k)) [
      | inl same ↦ absurd (free_here id k m.running_tokens token same free e)
      | inr other ↦ rw (shows k, other) (v.loops_run k token e)
    ];
    own_ids = λ k x e. elim (Bool-cases (text_eq id k)) [
      | inl same ↦ absurd (let e' = rw (shows k, same) at e in cc)
      | inr other ↦ v.own_ids k x (rw (shows k, other) at e)
    ];
    fresh = v.fresh;
    live = v.live;
    distinct = v.distinct;
    past = v.past;
  }

  pub IsValid-remove :
      (m : SessionManager S) (id : Text)
      → IsValid m
      → IsValid (record m { running_tokens = remove id m.running_tokens })
  IsValid-remove m id v = record {
    loops_run = λ k token e. v.loops_run k token (lookup_removed id k m.running_tokens token e).0;
    own_ids = v.own_ids;
    fresh = λ k token e. v.fresh k token (lookup_removed id k m.running_tokens token e).0;
    live = λ k token e. v.live k token (lookup_removed id k m.running_tokens token e).0;
    distinct = λ k other token e f.
        v.distinct k other token (lookup_removed id k m.running_tokens token e).0
          (lookup_removed id other m.running_tokens token f).0;
    past = v.past;
  }

  pub cancel_agent-IsValid :
      (m : SessionManager S) (id : Text) → IsValid m → IsValid (cancel_agent m id)
  unfolding cancel_agent
  cancel_agent-IsValid m id v = elim (Option-cases (lookup id m.running_tokens)) [
    | inl none_there ↦ rw (none_there, cancel_agent) v
    | inr (t, e) ↦
        let w = IsValid-remove m id v in
        rw (e, cancel_agent)
          (record {
            loops_run = w.loops_run;
            own_ids = w.own_ids;
            fresh = w.fresh;
            live = λ k token f.
                let (was, other) = lookup_removed id k m.running_tokens token f in
                (
                  (λ same.
                      let here = v.distinct id k token (rw same at e) was in
                      let eq = (text_eq_iff id k).1 here in cc),
                  v.live k token was,
                );
            distinct = w.distinct;
            past = (v.fresh id t e, v.past);
          })
  ]

  -- `start_loop` makes its token first, also where it fails.
  pub IsValid-tick :
      (m : SessionManager S) → IsValid m → IsValid (record m { next_token = suc m.next_token })
  IsValid-tick m v = record {
    loops_run = v.loops_run;
    own_ids = v.own_ids;
    fresh = λ k token e. let h = v.fresh k token e in omega arith;
    live = v.live;
    distinct = v.distinct;
    past = All-mono m.cancelled (λ c h. omega arith) v.past;
  }

  -- A session whose loop runs gets a new token.
  pub IsValid-insert :
      (m : SessionManager S) (id : Text) (x : Session C)
      → st.find m.store id ≡ some x
      → x.status ≡ running
      → (token : ℕ) → token < m.next_token
      → ((k : Text) (t : ℕ) → lookup k m.running_tokens ≡ some t → t < token)
      → All (λ c. c < token) m.cancelled
      → IsValid m
      → IsValid (record m { running_tokens = insert id token m.running_tokens })
  IsValid-insert m id x e r token new below past v = record {
    loops_run = λ k t f. elim (Bool-cases (text_eq id k)) [
      | inl same ↦ (x, rw (sym (text_eq→eq id k same)) e, r)
      | inr other ↦ v.loops_run k t (rw (lookup-insert id k token m.running_tokens, other) at f)
    ];
    own_ids = v.own_ids;
    fresh = λ k t f. elim (lookup_inserted id k token t m.running_tokens f) [
      | inl (_, eq) ↦ omega arith
      | inr old ↦ v.fresh k t old
    ];
    live = λ k t f. elim (lookup_inserted id k token t m.running_tokens f) [
      | inl (_, eq) ↦ All-mono m.cancelled (λ c h same. omega arith) past
      | inr old ↦ v.live k t old
    ];
    distinct = λ k other t f g. elim (lookup_inserted id k token t m.running_tokens f) [
      | inl (here, eq) ↦ elim (lookup_inserted id other token t m.running_tokens g) [
        | inl (there, _) ↦ sym here ∙ there
        | inr old ↦ absurd (let h = below other t old in omega arith)
      ]
      | inr old ↦ elim (lookup_inserted id other token t m.running_tokens g) [
        | inl (_, eq) ↦ absurd (let h = below k t old in omega arith)
        | inr older ↦ v.distinct k other t old older
      ]
    ];
    past = v.past;
  }
