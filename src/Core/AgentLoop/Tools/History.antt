-- ===== src/Core/AgentLoop/Tools/History.antt =====
-- What a round of tools adds to the loop's history (crates/visp-core/src/agent_loop.rs).
use visp.Base.{
  ℕ, ◌≡◌, refl, sym, ◌∙◌, ap, ◌⊎◌, inl, inr, true, Option, none, some, List, [], ◌∷◌, ◌++◌, map,
  Text, append_assoc, append-nil, if_both, if◌then◌else◌, Option-cases, subst, codes, text_eq_refl,
}
use visp.Core.Message.{Message, ToolCallRequest, of_system}
use visp.Core.ToolRegistry.{ToolRegistry}
use visp.Core.Session.{SessionStore, SessionError, Result, ok, err}
use visp.Core.Session.Manager.{SessionManager, append_message}
use visp.Core.AgentLoop.Events.{ProviderMetadata, AgentEvent, internal, event_to_msg, status_update}
use visp.Core.AgentLoop.Cleanup.{all_have_results}
use visp.Core.AgentLoop.World.{
  Outside, World, Loop, Action, bound, ToolRun, await, is_cancelled, send_event, fail_anyway,
  forward, stored, store_message, finish,
}
use visp.Core.AgentLoop.Task.{ToolExecResult}
use visp.Core.AgentLoop.Tools.{
  result_message, warning_text, calls_message, append_or_end, act_on, run_tasks, send_images,
  images_of, append_results, execute_tool_calls,
}
use visp.Core.AgentLoop.Stream.{StreamOutput}
use visp.Core.AgentLoop.DoomLoop.{DoomLoop, Verdict, goes_on, warns, stuck, round_sig, watch_round}
use visp.Core.AgentLoop.Tools.Kept.{run_tasks-history}
use visp.Core.AgentLoop.Tools.Answers.{call_ids, result_ids, Complete, run_tasks-Complete}

module _ {C S : Type 0} (st : SessionStore C S) (out : Outside C) (l : Loop C)
    (metadata_text : ProviderMetadata → Text) (registry : ToolRegistry (ℕ → ToolRun)) where
  -- The history where the loop goes on.
  abbrev Has : {A : Type 0} → List Message → Option A × World S → Type 0
  Has h (none, w) = Unit
  Has h (some a, w) = w.history ≡ h

  bound-Has :
      {A B : Type 0} (h h' : List Message) (f : A → Action S B) (r : Option A × World S)
      → Has h r
      → ((a : A) (w : World S) → w.history ≡ h → Has h' (f a w))
      → Has h' (bound f r)
  bound-Has h h' f (none, w) e next = tt
  bound-Has h h' f (some a, w) e next = next a w e

  stored-Has :
      (h : List Message) (on_error : SessionError → Action S (Unit {0})) (w : World S)
      (r : Result (Unit {0}) × SessionManager S)
      → w.history ≡ h
      → ((e : SessionError) (u : World S) → Has h (on_error e u))
      → Has h (stored st out l on_error w r)
  stored-Has h on_error w (ok _, sm) e k = e
  stored-Has h on_error w (err x, sm) e k = k x (record w { sm = sm })

  append_or_end-Has :
      (h : List Message) (what : Text) (m : Message) (w : World S)
      → w.history ≡ h
      → Has (h ++ m ∷ []) (append_or_end st out l metadata_text registry what m w)
  unfolding store_message fail_anyway
  append_or_end-Has h what m w e =
      stored-Has (h ++ m ∷ [])
        (λ x.
          fail_anyway st out l internal
            (codes "Failed to append " ++ (what ++ (codes ": " ++ out.error_text x))))
        (record w { history = w.history ++ m ∷ [] }) (append_message st w.sm l.sid m)
        (ap (λ hs. hs ++ m ∷ []) e) (λ x u. tt)

  send_event-history :
      (e : AgentEvent) (w : World S) → (send_event st out l e w).1.history ≡ w.history
  unfolding send_event await finish
  send_event-history e w =
      let before = forward st out l (event_to_msg e) w in
      let kept : before.history ≡ w.history = elim (Option-cases (event_to_msg e)) [
        | inl n ↦ rw n refl
        | inr (msg, n) ↦
            rw n (if_both (λ (u : World S). u.history ≡ w.history) l.has_global_tx refl refl)
      ] in
      if_both (λ (r : Option (Unit {0}) × World S). r.1.history ≡ w.history)
        (out.receives before.now) kept kept

  send_images-history :
      (events : List AgentEvent) (w : World S)
      → (send_images st out l metadata_text registry events w).history ≡ w.history
  send_images-history [] w = refl
  send_images-history (e ∷ es) w =
      send_images-history es (send_event st out l e w).1 ∙ send_event-history e w

  append_results-Has :
      (results : List ToolExecResult) (h : List Message) (w : World S)
      → w.history ≡ h
      → Has
          (h ++ map result_message results)
          (append_results st out l metadata_text registry results w)
  unfolding append_results
  append_results-Has [] h w e = e ∙ sym (append-nil h)
  append_results-Has (r ∷ rs) h w e =
      bound-Has (h ++ result_message r ∷ []) (h ++ map result_message (r ∷ rs)) _ _
        (append_or_end-Has h (codes "tool result") (result_message r) w e)
        (λ _ w' e'.
          let u : World S =
            if r.result.is_error
            then w'
            else send_images st out l metadata_text registry (images_of 0 r.result.content) w' in
          subst (λ hs. Has hs (append_results st out l metadata_text registry rs u))
            (append_assoc h (result_message r ∷ []) (map result_message rs))
            (append_results-Has rs (h ++ result_message r ∷ []) u (
              if_both (λ (u : World S). u.history ≡ h ++ result_message r ∷ []) r.result.is_error e'
                (send_images-history (images_of 0 r.result.content) w' ∙ e'))))

  append_results-empty :
      (rs : List ToolExecResult) (w : World S)
      → rs ≡ []
      → (append_results st out l metadata_text registry rs w).1 ≡ w
  unfolding append_results
  append_results-empty rs w e = ap (λ xs. (append_results st out l metadata_text registry xs w).1) e

  -- The warning, where it was given.
  abbrev Warned : List Message → Type 0
  Warned warning = (warning ≡ []) ⊎ (warning ≡ of_system warning_text ∷ [])

  abbrev HasWarned : List Message → {A : Type 0} → Option A × World S → Type 0
  HasWarned h (none, w) = Unit
  HasWarned h (some a, w) = (warning : List Message) × Warned warning × (w.history ≡ h ++ warning)

  act_on-HasWarned :
      (h : List Message) (verdict : Verdict × DoomLoop) (w : World S)
      → w.history ≡ h
      → HasWarned h (act_on st out l metadata_text registry verdict w)
  unfolding fail_anyway
  act_on-HasWarned h (goes_on, d) w e = ([], inl refl, e ∙ sym (append-nil h))
  act_on-HasWarned h (stuck, d) w e = tt
  act_on-HasWarned h (warns, d) w e =
      let told = status_update (codes "Agent appears stuck in a loop of repeated tool calls") in
      (
        of_system warning_text ∷ [],
        inr refl,
        ap (λ hs. hs ++ of_system warning_text ∷ []) (send_event-history told w ∙ e),
      )

  -- What the round adds to the history `h`.
  abbrev pub Adds : List Message → StreamOutput → {A : Type 0} → Option A × World S → Type 0
  Adds h o (none, w) = Unit
  Adds h o (some a, w) =
      (warning : List Message) × (results : List ToolExecResult) × (w.history
        ≡ h
          ++ calls_message st out l metadata_text registry o
            ∷ (warning ++ map result_message results))
      × Warned warning
      × ((all_have_results o.tool_calls (map result_message results) ≡ true)
          ⊎ ((results ≡ []) × (is_cancelled st out l w ≡ true)))

  all_have_results-Complete :
      (calls : List ToolCallRequest) (rs : List ToolExecResult)
      → result_ids rs ≡ call_ids calls
      → all_have_results calls (map result_message rs) ≡ true
  all_have_results-Complete [] rs e = refl
  all_have_results-Complete (c ∷ calls) [] e = absurd (cc)
  all_have_results-Complete (c ∷ calls) (r ∷ rs) e =
      let here : r.call_id ≡ c.id = cc in
      let rest : result_ids rs ≡ call_ids calls = cc in
      rw (here, text_eq_refl c.id) (all_have_results-Complete calls rs rest)

  appended-Adds :
      (h warning : List Message) (o : StreamOutput) (rs : List ToolExecResult) (u w1 : World S)
      (next : ℕ × DoomLoop) (r : Option (Unit {0}) × World S)
      → Warned warning
      → Complete st out l registry metadata_text o.tool_calls (rs, u)
      → Has
          ((h ++ calls_message st out l metadata_text registry o ∷ [])
            ++ warning
            ++ map result_message rs)
          r
      → (rs ≡ [] → r.1 ≡ u)
      → Adds h o (bound (λ _ w. (some next, w)) r)
  appended-Adds h warning o rs u w1 next (none, w) wd done e same = tt
  appended-Adds h warning o rs u w1 next (some _, w) wd done e same = (
    warning,
    rs,
    e
        ∙ append_assoc (h ++ calls_message st out l metadata_text registry o ∷ []) warning
            (map result_message rs)
        ∙ append_assoc h (calls_message st out l metadata_text registry o ∷ [])
            (warning ++ map result_message rs),
    wd,
    elim done [
      | inl ids ↦ inl (all_have_results-Complete o.tool_calls rs ids)
      | inr (empty, stopped) ↦ inr (empty, ap (is_cancelled st out l) (same empty) ∙ stopped)
    ],
  )

  bound-Adds :
      {A B : Type 0} (h h1 : List Message) (o : StreamOutput) (f : A → Action S B)
      (r : Option A × World S)
      → Has h1 r
      → ((a : A) (w : World S) → w.history ≡ h1 → Adds h o (f a w))
      → Adds h o (bound f r)
  bound-Adds h h1 o f (none, w) e next = tt
  bound-Adds h h1 o f (some a, w) e next = next a w e

  Warned-Adds :
      {A B : Type 0} (h h1 : List Message) (o : StreamOutput) (f : A → Action S B)
      (r : Option A × World S)
      → HasWarned h1 r
      → ((a : A) (w : World S) (warning : List Message)
          → Warned warning
          → w.history ≡ h1 ++ warning
          → Adds h o (f a w))
      → Adds h o (bound f r)
  Warned-Adds h h1 o f (none, w) e next = tt
  Warned-Adds h h1 o f (some a, w) (warning, wd, e) next = next a w warning wd e

-- A round of tools that does not end the loop adds to the history the assistant's message with the calls,
-- then the warning if one was given, then the results; and the results are one for each call, with its id
-- and in the order of the calls, or none at all, and then the loop's token is cancelled when the round ends.
pub execute_tool_calls-Adds :
    {C S : Type 0} (st : SessionStore C S) (out : Outside C) (l : Loop C)
    (metadata_text : ProviderMetadata → Text) (registry : ToolRegistry (ℕ → ToolRun))
    (o : StreamOutput) (total : ℕ) (doom : DoomLoop) (w : World S)
    → Adds st out l metadata_text registry w.history o
        (execute_tool_calls st out l metadata_text registry o total doom w)
unfolding execute_tool_calls
execute_tool_calls-Adds st out l metadata_text registry o total doom w =
    let h = w.history in
    let h1 = h ++ calls_message st out l metadata_text registry o ∷ [] in
    bound-Adds st out l metadata_text registry h h1 o _ _
      (append_or_end-Has st out l metadata_text registry h (codes "assistant message")
        (calls_message st out l metadata_text registry o) w refl)
      (λ _ w1 e1.
        Warned-Adds st out l metadata_text registry h h1 o _ _
          (act_on-HasWarned st out l metadata_text registry h1
            (watch_round l.cfg.doom_loop_threshold doom (round_sig out.parse_json o.tool_calls)) w1
            e1)
          (λ doom' w2 warning wd e2.
            let tasks = run_tasks st out l metadata_text registry o.tool_calls w2 in
            appended-Adds st out l metadata_text registry h warning o tasks.0 tasks.1 w2 _ _ wd
              (run_tasks-Complete st out l registry metadata_text o.tool_calls w2)
              (append_results-Has st out l metadata_text registry tasks.0 (h1 ++ warning) tasks.1
                (run_tasks-history st out l registry metadata_text o.tool_calls w2 ∙ e2))
              (append_results-empty st out l metadata_text registry tasks.0 tasks.1)))
