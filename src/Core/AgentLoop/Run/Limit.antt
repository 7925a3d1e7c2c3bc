-- ===== src/Core/AgentLoop/Run/Limit.antt =====
-- How long the loop of crates/visp-core/src/agent_loop.rs runs: the hard limit counts every round but
-- those in which the user was asked.
use visp.Base.{
  ℕ, zero, suc, ◌+◌, ◌≤◌, ◌<◌, ◌≡◌, refl, ◌⊎◌, inl, inr, Bool, true, false, Option, none, some,
  List, [], ◌∷◌, ◌++◌, Text, if◌then◌else◌, if_both, ltb, add32, arith, u32_mod,
}
use visp.Core.Message.{Message}
use visp.Core.ToolRegistry.{ToolRegistry}
use visp.Core.Session.{SessionStore}
use visp.Core.AgentLoop.Events.{
  AgentEvent, user_query, question, approval, ProviderMetadata, text_delta, thinking_block,
  thinking_delta, usage_info, usage_delta, tool_call_request, tool_call_result, pre_tool_use,
  status_update, error, done, image_block, image_error,
}
use visp.Core.AgentLoop.World.{Outside, World, Loop, Action, bound, ToolRun, await, finish}
use visp.Core.AgentLoop.World.Safe.{Keeps, Post, Goes, then_Post, fail_anyway-Post}
use visp.Core.AgentLoop.Stream.{StreamOutput}
use visp.Core.AgentLoop.Decide.{
  StreamDecision, decided_done, decided_continue, decided_thinking_only, decided_user_query,
}
use visp.Core.AgentLoop.Prompt.{PromptInputs}
use visp.Core.AgentLoop.Run.{
  Vars, first_vars, max_consecutive_thinking_only, Next, again, is_done, Ending, returned,
  out_of_fuel, on_decision, round, ended_or, rounds, started, run_agent_loop,
}
use visp.Core.AgentLoop.Run.Parts.{ask_provider-Goes, take_answer-Goes, begin-Goes}
use visp.Core.AgentLoop.Run.Turns.{setup_iteration-Post, Decided, handle_stream_result-Decides}
use visp.Core.AgentLoop.Run.Calls.{execute_tool_calls-Goes}

abbrev asks_user : AgentEvent → Bool
asks_user (user_query _ _ _ _ question) = true
asks_user (user_query _ _ _ _ approval) = false
asks_user (text_delta _) = false
asks_user (thinking_block _) = false
asks_user (thinking_delta _) = false
asks_user (usage_info _ _ _) = false
asks_user (usage_delta _) = false
asks_user (tool_call_request _) = false
asks_user (tool_call_result _ _ _ _ _) = false
asks_user (pre_tool_use _ _ _) = false
asks_user (status_update _) = false
asks_user (error _ _) = false
asks_user done = false
asks_user (image_block _ _ _) = false
asks_user (image_error _) = false

-- The questions among the events that were delivered; a tool's approval is none.
abbrev pub questions : List AgentEvent → ℕ
questions [] = 0
questions (e ∷ es) = if asks_user e then suc (questions es) else questions es

questions-more : (es : List AgentEvent) (e : AgentEvent) → questions es ≤ questions (es ++ e ∷ [])
questions-more [] e = ground arith
questions-more (d ∷ es) e = ground (arith, questions-more es e)

questions-asked :
    (es : List AgentEvent) (e : AgentEvent)
    → asks_user e ≡ true
    → questions (es ++ e ∷ []) ≡ suc (questions es)
questions-asked [] e h = rw h refl
questions-asked (d ∷ es) e h = ground (arith, questions-asked es e h)

module _ {C S : Type 0} (st : SessionStore C S) (out : Outside C) (l : Loop C) where
  abbrev Asked : ℕ → World S → Type 0
  Asked n w = n ≤ questions w.sent

  Asked-Keeps : (n : ℕ) → Keeps st out l (Asked n) (λ _. Unit) (λ _. Unit) (Asked (suc n))
  unfolding await finish
  Asked-Keeps n = record {
    awaits = λ w h. h;
    sends = λ e w h. omega (arith, questions-more w.sent e);
    forwards = λ msg w h. h;
    sleeps = λ d w h. h;
    notes = λ hs w h. h;
    stores = λ m w h. h;
    approves = λ tool w h. h;
    finishes = λ status w h. h;
    fails = λ w h. tt;
    completes = λ w h. tt;
    asks = λ id message options other w h.
        omega (arith, questions-asked w.sent (user_query id message options other question) refl);
  }

  module _ (metadata_text : ProviderMetadata → Text) (p : PromptInputs)
      (registry : ToolRegistry (ℕ → ToolRun)) where
    -- A round that is followed by another has counted itself, within the limit, or has asked the user.
    abbrev Counted : ℕ → Vars → Next → World S → Type 0
    Counted n v is_done w = Unit
    Counted n v (again v') w =
        ((v'.iteration ≡ add32 v.iteration 1) × (v.iteration ≤ l.cfg.hard_limit) × Asked n w)
        ⊎ ((v'.iteration ≡ v.iteration) × Asked (suc n) w)

    -- What of a round's end is needed here.
    abbrev Counts : ℕ → Vars → Option Next × World S → Type 0
    Counts n v (none, w) = Unit
    Counts n v (some next, w) = Counted n v next w

    weaker :
        (n : ℕ) (v : Vars) (r : Option Next × World S)
        → Post (Asked-Keeps n) (Counted n v) r
        → Counts n v r
    weaker n v (none, w) h = tt
    weaker n v (some next, w) h = h.1

    bound-Counts :
        {A : Type 0} (n : ℕ) (v : Vars) (Q : A → World S → Type 0) (f : A → Action S Next)
        (r : Option A × World S)
        → Post (Asked-Keeps n) Q r
        → ((a : A) (w : World S) → Asked n w → Q a w → Counts n v (f a w))
        → Counts n v (bound f r)
    bound-Counts n v Q f (none, w) h next = tt
    bound-Counts n v Q f (some a, w) h next = next a w h.0 h.1

    answered-Counts :
        (n : ℕ) (v v' : Vars) (r : Option (Unit {0}) × World S)
        → v'.iteration ≡ v.iteration
        → Goes (Asked-Keeps (suc n)) r
        → Counts n v (bound (λ _ w'. (some (again v'), w')) r)
    answered-Counts n v v' (none, w) e h = tt
    answered-Counts n v v' (some _, w) e h = inr (e, h.0)

    on_decision-Counts :
        (n : ℕ) (v : Vars) (o : StreamOutput) (d : StreamDecision) (w : World S)
        → v.iteration ≤ l.cfg.hard_limit
        → Asked n w
        → Decided (Asked-Keeps n) metadata_text d w
        → Counts n v (on_decision st out l metadata_text p registry v o d w)
    on_decision-Counts n v o decided_done w within h e = tt
    on_decision-Counts n v o decided_continue w within h e = weaker n v _ (
        then_Post (Asked-Keeps n) (Counted n v) _ _
          (execute_tool_calls-Goes (Asked-Keeps n) registry metadata_text o v.total_tool_calls
            v.doom w h)
          (λ r w' h'. (h', inl (refl, within, h'))))
    on_decision-Counts n v o decided_thinking_only w within h e = weaker n v _ (
        if_both (Post (Asked-Keeps n) (Counted n v))
          (ltb max_consecutive_thinking_only (add32 v.consecutive_thinking_only 1))
          (fail_anyway-Post (Asked-Keeps n) (Counted n v) _ _ w h) (h, inl (refl, within, h)))
    on_decision-Counts n v o decided_user_query w within h e =
        answered-Counts n v (record v { consecutive_thinking_only = 0 }) _ refl
          (take_answer-Goes (Asked-Keeps (suc n)) metadata_text p registry o w e)

    round-Counts :
        (n : ℕ) (v : Vars) (w : World S)
        → Asked n w
        → Counts n v (round st out l metadata_text p registry v w)
    unfolding round
    round-Counts n v w h =
        bound-Counts n v (λ _ _. v.iteration ≤ l.cfg.hard_limit) _ _
          (setup_iteration-Post (Asked-Keeps n) p registry v.iteration w h)
          (λ ic w1 h1 within.
            bound-Counts n v (λ _ _. Unit) _ _
              (ask_provider-Goes (Asked-Keeps n) metadata_text p registry ic w1 h1)
              (λ o w2 h2 _.
                bound-Counts n v (Decided (Asked-Keeps n) metadata_text) _ _
                  (handle_stream_result-Decides (Asked-Keeps n) metadata_text o v.total_tool_calls
                    w2 h2)
                  (λ d w3 h3 e. on_decision-Counts n v o d w3 within h3 e)))

    -- `n` questions were asked before, and `used` of the fuel and the limit are spoken for.
    abbrev Runs : ℕ → Ending S → Type 0
    Runs used (returned status w) = Unit
    Runs used (out_of_fuel w) = used ≤ questions w.sent + suc l.cfg.hard_limit

    Runs-mono : (a b : ℕ) (r : Ending S) → a ≤ b → Runs b r → Runs a r
    Runs-mono a b (returned status w) h r = tt
    Runs-mono a b (out_of_fuel w) h r = omega arith

    ended_or-Runs :
        (n fuel : ℕ) (v : Vars) (r : Option Next × World S)
        → v.iteration ≤ suc l.cfg.hard_limit
        → suc l.cfg.hard_limit < u32_mod
        → Counts n v r
        → ((m : ℕ) (v' : Vars) (w' : World S)
            → Asked m w'
            → v'.iteration ≤ suc l.cfg.hard_limit
            → Runs (m + fuel + v'.iteration) (rounds st out l metadata_text p registry fuel v' w'))
        → Runs (n + suc fuel + v.iteration) (
            ended_or st out l metadata_text p registry r
              (rounds st out l metadata_text p registry fuel))
    ended_or-Runs n fuel v (none, w) low fits h rest = tt
    ended_or-Runs n fuel v (some is_done, w) low fits h rest = tt
    ended_or-Runs n fuel v (some (again v'), w) low fits (inl (e, within, asked)) rest =
        Runs-mono _ (n + fuel + v'.iteration) _ (omega arith) (rest n v' w asked (omega arith))
    ended_or-Runs n fuel v (some (again v'), w) low fits (inr (e, asked)) rest =
        Runs-mono _ (suc n + fuel + v'.iteration) _ (omega arith)
          (rest (suc n) v' w asked (omega arith))

    rounds-Runs :
        (fuel n : ℕ) (v : Vars) (w : World S)
        → suc l.cfg.hard_limit < u32_mod
        → Asked n w
        → v.iteration ≤ suc l.cfg.hard_limit
        → Runs (n + fuel + v.iteration) (rounds st out l metadata_text p registry fuel v w)
    unfolding rounds
    rounds-Runs zero n v w fits h low = omega arith
    rounds-Runs (suc fuel) n v w fits h low =
        ended_or-Runs n fuel v (round st out l metadata_text p registry v w) low fits
          (round-Counts n v w h) (λ m v' w' h' low'. rounds-Runs fuel m v' w' fits h' low')

    -- The loop returns, or the user has been asked more than `asked` questions since `w`.
    abbrev pub ReturnsOrAsks : ℕ → World S → Ending S → Type 0
    ReturnsOrAsks asked w (returned status w') = Unit
    ReturnsOrAsks asked w (out_of_fuel w') = questions w.sent + asked < questions w'.sent

    started-ReturnsOrAsks :
        (asked : ℕ) (w : World S) (r : Option (Unit {0}) × World S)
        → suc l.cfg.hard_limit < u32_mod
        → Goes (Asked-Keeps (questions w.sent)) r
        → ReturnsOrAsks asked w
            (started st out l metadata_text p registry (suc (l.cfg.hard_limit + asked)) r)
    started-ReturnsOrAsks asked w (none, w') fits h = tt
    started-ReturnsOrAsks asked w (some _, w') fits h =
        finally
          (rounds st out l metadata_text p registry (suc (l.cfg.hard_limit + asked)) first_vars w')
          (rounds-Runs (suc (l.cfg.hard_limit + asked)) (questions w.sent) first_vars w' fits h.0
            (omega arith))
      where
        finally :
            (r' : Ending S)
            → Runs (questions w.sent + suc (l.cfg.hard_limit + asked) + 1) r'
            → ReturnsOrAsks asked w r'
        finally (returned status u) k = tt
        finally (out_of_fuel u) k = omega arith

-- With fuel for the hard limit and one round more, and for `asked` rounds besides, the loop returns,
-- unless more than `asked` of the events that the receiver got in it are questions to the user: these
-- rounds alone are not counted against the limit. The limit is below the largest `u32`.
pub run_agent_loop-ReturnsOrAsks :
    {C S : Type 0} (st : SessionStore C S) (out : Outside C) (l : Loop C)
    (metadata_text : ProviderMetadata → Text) (p : PromptInputs)
    (registry : ToolRegistry (ℕ → ToolRun)) (asked : ℕ) (m : Message) (w : World S)
    → suc l.cfg.hard_limit < u32_mod
    → ReturnsOrAsks st out l metadata_text p registry asked w
        (run_agent_loop st out l metadata_text p registry (suc (l.cfg.hard_limit + asked)) m w)
unfolding run_agent_loop
run_agent_loop-ReturnsOrAsks st out l metadata_text p registry asked m w fits =
    started-ReturnsOrAsks st out l metadata_text p registry asked w _ fits (
      begin-Goes (Asked-Keeps st out l (questions w.sent)) metadata_text p registry m w
        (omega arith))
