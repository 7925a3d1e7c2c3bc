-- ===== src/Core/AgentLoop/Task/Approval.antt =====
-- Which answers to the approval of a tool let it run (crates/visp-core/src/agent_loop.rs).
use visp.Base.{
  ℕ, ◌≡◌, refl, Bool, true, false, ◌||◌, Option, none, some, ◌==◌, Bool-cases, inl, inr,
}
use visp.Core.Message.{ToolCallRequest}
use visp.Core.ToolRegistry.{ToolRegistry}
use visp.Core.Session.{SessionStore}
use visp.Core.AgentLoop.Events.{UserQueryResult}
use visp.Core.AgentLoop.World.{Outside, World, Loop, ToolRun, await, is_cancelled}
use visp.Core.AgentLoop.Task.{asking, ask_approval, approval_answer, approved}

abbrev pub allows : Option ℕ → Bool
allows none = false
allows (some i) = i == 0 || i == 2

-- A cancel and the time-out deny; a channel that was closed without an answer grants, as do the answers 0
-- and 2.
abbrev pub grants : Bool → Option (Option UserQueryResult) → Bool
grants true r = false
grants false none = false
grants false (some none) = true
grants false (some (some answer)) = allows answer.selected_index

module _ {C S : Type 0} (st : SessionStore C S) (out : Outside C) (l : Loop C)
    (registry : ToolRegistry (ℕ → ToolRun)) where
  approved-index :
      (call : ToolCallRequest) (i : ℕ) (w : World S)
      → (approved st out l registry call (some i) w).0 ≡ (i == 0 || i == 2)
  approved-index call i w = elim (Bool-cases (i == 0)) [
    | inl e ↦ rw e refl
    | inr e ↦ rw e (elim (Bool-cases (i == 2)) [ inl f ↦ rw f refl | inr f ↦ rw f refl ])
  ]

  approved-allows :
      (call : ToolCallRequest) (index : Option ℕ) (w : World S)
      → (approved st out l registry call index w).0 ≡ allows index
  approved-allows call none w = refl
  approved-allows call (some i) w = approved-index call i w

  approved-grants :
      (call : ToolCallRequest) (stopped : Bool) (r : Option (Option UserQueryResult)) (w : World S)
      → (approved st out l registry call
          (approval_answer st out l registry stopped r).selected_index
          w).0
        ≡ grants stopped r
  approved-grants call true r w = refl
  approved-grants call false none w = refl
  approved-grants call false (some none) w = refl
  approved-grants call false (some (some answer)) w = approved-allows call answer.selected_index w

-- Whether a tool that the user is asked about may run is decided by what comes first: a cancel and the
-- time-out deny, the answers 0 and 2 allow and every other answer denies; and a channel that is closed
-- without an answer, as that of a client that went away, allows.
pub ask_approval_lem :
    {C S : Type 0} (st : SessionStore C S) (out : Outside C) (l : Loop C)
    (registry : ToolRegistry (ℕ → ToolRun)) (call : ToolCallRequest) (w : World S)
    → let asked = asking st out l registry call w in
      (ask_approval st out l registry call w).0
      ≡ grants (is_cancelled st out l (await st out l asked)) (out.approval asked.now)
ask_approval_lem st out l registry call w =
    let asked = asking st out l registry call w in
    approved-grants st out l registry call (is_cancelled st out l (await st out l asked))
      (out.approval asked.now) (await st out l asked)
