-- ===== src/Agents/Orchestrator/Cancel/Stopped.antt =====
-- Cancellations in the session manager of crates/visp-core/src/session.rs, one after the other: what is
-- in flight behind them, and what is cancelled.
use visp.Base.{
  ℕ, ◌≡◌, refl, sym, ◌∙◌, ap, ◌⊎◌, inl, inr, none, some, List, [], ◌∷◌, Text, text_eq, text_eq_refl,
  text_eq→eq, if◌then◌else◌, Option-cases, Bool-cases, Member, if_both,
}
use visp.Base.Dict.{lookup, lookup-remove}
use visp.Core.Session.Manager.{SessionManager}
use visp.Core.Session.Manager

module _ {S : Type 0} where
  -- What is in flight behind a cancellation in the manager.
  manager-tokens :
      (m : SessionManager S) (id k : Text)
      → lookup k (Manager.cancel_agent m id).running_tokens
        ≡ (if text_eq id k then none else lookup k m.running_tokens)
  unfolding Manager.cancel_agent
  manager-tokens m id k = elim (Option-cases (lookup id m.running_tokens)) [
    | inr (t, held) ↦ rw (held, Manager.cancel_agent) (lookup-remove id k m.running_tokens)
    | inl free ↦ elim (Bool-cases (text_eq id k)) [
      | inr other ↦ rw (free, Manager.cancel_agent, other) refl
      | inl same ↦
          let gone : lookup k m.running_tokens ≡ none =
            ap (λ j. lookup j m.running_tokens) (sym (text_eq→eq id k same)) ∙ free in
          rw (free, Manager.cancel_agent, same) gone
    ]
  ]

  manager-keeps_cancelled :
      (m : SessionManager S) (id : Text) (t : ℕ)
      → Member t m.cancelled
      → Member t (Manager.cancel_agent m id).cancelled
  unfolding Manager.cancel_agent
  manager-keeps_cancelled m id t h = elim (Option-cases (lookup id m.running_tokens)) [
    | inl free ↦ rw (free, Manager.cancel_agent) h
    | inr (_, held) ↦ rw (held, Manager.cancel_agent) (inr h)
  ]

  manager-cancels :
      (m : SessionManager S) (id : Text) (t : ℕ)
      → lookup id m.running_tokens ≡ some t
      → Member t (Manager.cancel_agent m id).cancelled
  unfolding Manager.cancel_agent
  manager-cancels m id t held = rw (held, Manager.cancel_agent) (inl refl)

  manager-only :
      (m : SessionManager S) (id : Text) (t : ℕ)
      → Member t (Manager.cancel_agent m id).cancelled
      → (lookup id m.running_tokens ≡ some t) ⊎ Member t m.cancelled
  unfolding Manager.cancel_agent
  manager-only m id t h = elim (Option-cases (lookup id m.running_tokens)) [
    | inl free ↦ inr (rw (free, Manager.cancel_agent) at h)
    | inr (u, held) ↦
        let h' : Member t (u ∷ m.cancelled) = rw (held, Manager.cancel_agent) at h in
        elim h' [ inl e ↦ inl (held ∙ ap (λ x. some x) e) | inr before ↦ inr before ]
  ]

  -- Several cancellations in the manager, one after the other.
  abbrev pub stop_all : List Text → SessionManager S → SessionManager S
  stop_all [] m = m
  stop_all (id ∷ ids) m = stop_all ids (Manager.cancel_agent m id)

  stop_all-free :
      (ids : List Text) (m : SessionManager S) (k : Text)
      → lookup k m.running_tokens ≡ none
      → lookup k (stop_all ids m).running_tokens ≡ none
  stop_all-free [] m k h = h
  stop_all-free (id ∷ ids) m k h =
      stop_all-free ids (Manager.cancel_agent m id) k
        (manager-tokens m id k ∙ if_both (λ b. b ≡ none) (text_eq id k) refl h)

  pub stop_all-gone :
      (ids : List Text) (m : SessionManager S) (k : Text)
      → Member k ids
      → lookup k (stop_all ids m).running_tokens ≡ none
  stop_all-gone [] m k h = absurd h
  stop_all-gone (id ∷ ids) m k (inr h) = stop_all-gone ids (Manager.cancel_agent m id) k h
  stop_all-gone (id ∷ ids) m k (inl e) =
      stop_all-free ids (Manager.cancel_agent m id) k
        (manager-tokens m id k ∙ rw (e, text_eq_refl k) refl)

  stop_all-keeps_cancelled :
      (ids : List Text) (m : SessionManager S) (t : ℕ)
      → Member t m.cancelled
      → Member t (stop_all ids m).cancelled
  stop_all-keeps_cancelled [] m t h = h
  stop_all-keeps_cancelled (id ∷ ids) m t h =
      stop_all-keeps_cancelled ids (Manager.cancel_agent m id) t (manager-keeps_cancelled m id t h)

  -- A token in flight of another session stays, unless its own session is among those.
  manager-goes_on :
      (m : SessionManager S) (id k : Text) (t : ℕ)
      → lookup k m.running_tokens ≡ some t
      → (id ≡ k) ⊎ (lookup k (Manager.cancel_agent m id).running_tokens ≡ some t)
  manager-goes_on m id k t h = elim (Bool-cases (text_eq id k)) [
    | inl same ↦ inl (text_eq→eq id k same)
    | inr other ↦ inr (manager-tokens m id k ∙ rw other h)
  ]

  pub stop_all-goes_on :
      (ids : List Text) (m : SessionManager S) (k : Text) (t : ℕ)
      → lookup k m.running_tokens ≡ some t
      → Member k ids ⊎ (lookup k (stop_all ids m).running_tokens ≡ some t)
  stop_all-goes_on [] m k t h = inr h
  stop_all-goes_on (id ∷ ids) m k t h = elim (manager-goes_on m id k t h) [
    | inl e ↦ inl (inl e)
    | inr g ↦ elim (stop_all-goes_on ids (Manager.cancel_agent m id) k t g) [
      | inl e ↦ inl (inr e)
      | inr f ↦ inr f
    ]
  ]

  pub stop_all-cancels :
      (ids : List Text) (m : SessionManager S) (k : Text) (t : ℕ)
      → Member k ids
      → lookup k m.running_tokens ≡ some t
      → Member t (stop_all ids m).cancelled
  stop_all-cancels [] m k t h held = absurd h
  stop_all-cancels (id ∷ ids) m k t (inl e) held =
      stop_all-keeps_cancelled ids (Manager.cancel_agent m id) t
        (manager-cancels m id t (ap (λ j. lookup j m.running_tokens) e ∙ held))
  stop_all-cancels (id ∷ ids) m k t (inr h) held = elim (manager-goes_on m id k t held) [
    | inl e ↦
        stop_all-keeps_cancelled ids (Manager.cancel_agent m id) t
          (manager-cancels m id t (ap (λ j. lookup j m.running_tokens) e ∙ held))
    | inr on ↦ stop_all-cancels ids (Manager.cancel_agent m id) k t h on
  ]

  -- Behind a cancellation a token in flight was in flight before.
  manager-was :
      (m : SessionManager S) (id k : Text) (t : ℕ)
      → lookup k (Manager.cancel_agent m id).running_tokens ≡ some t
      → lookup k m.running_tokens ≡ some t
  manager-was m id k t h = elim (Bool-cases (text_eq id k)) [
    | inl same ↦
        absurd (let e : none ≡ some t = sym (manager-tokens m id k ∙ rw same refl) ∙ h in cc)
    | inr other ↦ sym (manager-tokens m id k ∙ rw other refl) ∙ h
  ]

  pub stop_all-only :
      (ids : List Text) (m : SessionManager S) (t : ℕ)
      → Member t (stop_all ids m).cancelled
      → Member t m.cancelled ⊎ ((k : Text) × Member k ids × (lookup k m.running_tokens ≡ some t))
  stop_all-only [] m t h = inl h
  stop_all-only (id ∷ ids) m t h = elim (stop_all-only ids (Manager.cancel_agent m id) t h) [
    | inl before ↦ elim (manager-only m id t before) [
      | inl e ↦ inr (id, inl refl, e)
      | inr b ↦ inl b
    ]
    | inr (k, i, e) ↦ inr (k, inr i, manager-was m id k t e)
  ]
