-- ===== src/Core/AgentLoop/Retry/Attempts.antt =====
-- How often, how long and why `call_llm_with_retry` of crates/visp-core/src/agent_loop.rs tries.
use visp.Base.{
  ℕ, zero, suc, ◌+◌, ◌*◌, ◌%◌, ◌^◌, ◌≤◌, ◌<◌, ◌≡◌, refl, sym, ◌∙◌, ap, ◌⊎◌, inl, inr, true, false,
  ◌&&◌, some, List, [], ◌∷◌, ◌++◌, append_assoc, append-nil, subst, Bool-cases, leb, ltb, arith,
}
use visp.Core.Message.{Message}
use visp.Core.ToolRegistry.{ToolDefinition}
use visp.Core.Session.{SessionStore}
use visp.Core.AgentLoop.Events.{LlmError, auth, stream, network, rate_limit, api, cancelled}
use visp.Core.AgentLoop.World.{Outside, Loop, World, Reply, streaming, refused, await, is_cancelled}
use visp.Core.AgentLoop.Retry.{is_retriable, retry_delay, sleep, call_llm_with_retry}

-- The errors that may pass: a rate limit, the network, and the answers 500 to 599 of the server.
abbrev pub IsTransient : LlmError → Type 0
IsTransient (rate_limit _) = Unit
IsTransient (network _) = Unit
IsTransient (api status _) = (500 ≤ status) × (status < 600)
IsTransient _ = ⊥

is_retriable_lem :
    (e : LlmError)
    → ((is_retriable e ≡ true) × IsTransient e) ⊎ ((is_retriable e ≡ false) × ¬ IsTransient e)
is_retriable_lem (rate_limit n) = inl (refl, tt)
is_retriable_lem (network m) = inl (refl, tt)
is_retriable_lem (auth m) = inr (refl, λ h. h)
is_retriable_lem (stream m) = inr (refl, λ h. h)
is_retriable_lem cancelled = inr (refl, λ h. h)
is_retriable_lem (api status m) = elim (Bool-cases (leb 500 status && ltb status 600)) [
  | inl e ↦ inl (e, (ground arith, ground arith))
  | inr e ↦ inr (e, λ h. let low = h.0 in let high = h.1 in ground arith)
]

-- The delay behind each attempt: the base, doubled with every attempt, in 64 bits.
abbrev pub delay : ℕ → ℕ → ℕ
delay base attempt = (base * 2 ^ attempt) % 2 ^ 64

retry_delay_lem : (base attempt : ℕ) → attempt < 64 → retry_delay base attempt ≡ delay base attempt
retry_delay_lem base attempt h =
    let same : attempt % 64 ≡ attempt = omega arith in ap (λ n. (base * 2 ^ n) % 2 ^ 64) same

-- The delays of `count` retries from one attempt on.
abbrev pub backoff : ℕ → ℕ → ℕ → List ℕ
backoff base attempt zero = []
backoff base attempt (suc count) = delay base attempt ∷ backoff base (suc attempt) count

Reply-cases :
    (r : Reply) → ((items : List _) × (r ≡ streaming items)) ⊎ ((e : LlmError) × (r ≡ refused e))
Reply-cases (streaming items) = inl (items, refl)
Reply-cases (refused e) = inr (e, refl)

module _ {C S : Type 0} (st : SessionStore C S) (out : Outside C) (l : Loop C)
    (messages : List Message) (tools : List ToolDefinition) where
  -- The world after one refused call and the wait behind it.
  abbrev waited : ℕ → World S → World S
  waited attempt w = sleep st out l (delay l.cfg.llm_retry_base_delay_ms attempt) (await st out l w)

  -- The world in which the call after `retries` refused ones is made.
  abbrev pub tried : (attempt retries : ℕ) → World S → World S
  tried attempt zero w = w
  tried attempt (suc retries) w = tried (suc attempt) retries (waited attempt w)

  -- The call of the provider in this world was made, and refused with an error that may pass.
  abbrev pub IsRefused : World S → Type 0
  IsRefused w =
      (is_cancelled st out l w ≡ false)
      × ((e : LlmError) × (out.chat_stream w.now messages tools ≡ refused e) × IsTransient e)

  -- How it ends in a world behind `retries` retries: by a cancel, before the call, or with the answer of
  -- the provider, which is an error only if that will not pass or the retries are used up.
  abbrev pub Settles : (retries : ℕ) → World S → Reply → World S → Type 0
  Settles retries w r w' =
      ((is_cancelled st out l w ≡ true) × (r ≡ refused cancelled) × (w' ≡ w))
      ⊎ ((is_cancelled st out l w ≡ false)
          × (r ≡ out.chat_stream w.now messages tools)
          × (w' ≡ await st out l w)
          × ((e : LlmError)
              → r ≡ refused e
              → (¬ IsTransient e) ⊎ (retries ≡ l.cfg.llm_retry_attempts)))

  abbrev Outcome : ℕ → ℕ → World S → Type 0
  Outcome fuel attempt w =
      (r : Reply) × (w' : World S) × (retries : ℕ) × (call_llm_with_retry st out l messages tools
          fuel attempt w
        ≡ (some r, w'))
      × (attempt + retries ≤ l.cfg.llm_retry_attempts)
      × ((i : ℕ) → i < retries → IsRefused (tried attempt i w))
      × Settles (attempt + retries) (tried attempt retries w) r w'

  refused_inj : {x y : LlmError} → refused x ≡ refused y → x ≡ y
  refused_inj e = cc

  -- A call that is refused, with what the next attempt comes to.
  after_refusal :
      (fuel attempt : ℕ) (w : World S) (e : LlmError)
      → l.cfg.llm_retry_attempts ≤ 64
      → attempt < l.cfg.llm_retry_attempts
      → is_cancelled st out l w ≡ false
      → out.chat_stream w.now messages tools ≡ refused e
      → is_retriable e ≡ true
      → IsTransient e
      → Outcome fuel (suc attempt) (waited attempt w)
      → Outcome (suc fuel) attempt w
  unfolding call_llm_with_retry
  after_refusal fuel attempt w e few low go eq again transient next =
      let same = retry_delay_lem l.cfg.llm_retry_base_delay_ms attempt (omega arith) in
      let room : leb l.cfg.llm_retry_attempts attempt ≡ false = ground arith in
      let first : IsRefused w = (go, (e, eq, transient)) in
      elim (Bool-cases (is_cancelled st out l (waited attempt w))) [
        | inl stop ↦ (
          refused cancelled,
          waited attempt w,
          1,
          rw (call_llm_with_retry, go, eq, again, room, same, stop) refl,
          omega arith,
          (λ i h.
              let z : 0 ≡ i = omega arith in subst (λ n. IsRefused (tried attempt n w)) z first),
          inl (stop, refl, refl),
        )
        | inr on ↦
            let (r, w', retries, run, bound, refusals, settles) = next in
            (
              r,
              w',
              suc retries,
              rw (call_llm_with_retry, go, eq, again, room, same, on) run,
              omega arith,
              refusals_from attempt retries w first refusals,
              (let sum : suc attempt + retries ≡ attempt + suc retries = omega arith in
                  subst (λ n. Settles n (tried (suc attempt) retries (waited attempt w)) r w') sum
                    settles),
            )
      ]
    where
      refusals_from :
          (attempt retries : ℕ) (w : World S)
          → IsRefused w
          → ((i : ℕ) → i < retries → IsRefused (tried (suc attempt) i (waited attempt w)))
          → (i : ℕ) → i < suc retries
          → IsRefused (tried attempt i w)
      refusals_from attempt retries w first rest zero h = first
      refusals_from attempt retries w first rest (suc i) h = rest i (omega arith)

  outcome :
      (fuel attempt : ℕ) (w : World S)
      → l.cfg.llm_retry_attempts ≤ 64
      → attempt ≤ l.cfg.llm_retry_attempts
      → l.cfg.llm_retry_attempts < attempt + fuel
      → Outcome fuel attempt w
  unfolding call_llm_with_retry
  outcome zero attempt w few low high = absurd (omega arith)
  outcome (suc fuel) attempt w few low high = elim (Bool-cases (is_cancelled st out l w)) [
    | inl stop ↦ (
      refused cancelled,
      w,
      0,
      rw (call_llm_with_retry, stop) refl,
      omega arith,
      λ i h. absurd (omega arith),
      inl (stop, refl, refl),
    )
    | inr go ↦ elim (Reply-cases (out.chat_stream w.now messages tools)) [
      | inl (items, e) ↦ (
        streaming items,
        await st out l w,
        0,
        rw (call_llm_with_retry, go, e) refl,
        omega arith,
        λ i h. absurd (omega arith),
        inr (go, sym e, refl, λ x f. absurd (cc)),
      )
      | inr (e, eq) ↦ elim (is_retriable_lem e) [
        | inr (once, lasting) ↦ (
          refused e,
          await st out l w,
          0,
          rw (call_llm_with_retry, go, eq, once) refl,
          omega arith,
          λ i h. absurd (omega arith),
          inr (go, sym eq, refl, λ x f. inl (subst (λ y. ¬ IsTransient y) (refused_inj f) lasting)),
        )
        | inl (again, transient) ↦ elim (Bool-cases (leb l.cfg.llm_retry_attempts attempt)) [
          | inl full ↦ (
            refused e,
            await st out l w,
            0,
            rw (call_llm_with_retry, go, eq, again, full) refl,
            omega arith,
            λ i h. absurd (omega arith),
            inr (go, sym eq, refl, λ x f. inr (ground arith)),
          )
          | inr room ↦
              after_refusal fuel attempt w e few (ground arith) go eq again transient
                (outcome fuel (suc attempt) (waited attempt w) few (ground arith) (omega arith))
        ]
      ]
    ]
  ]

  tried-slept :
      (attempt retries : ℕ) (w : World S)
      → (tried attempt retries w).slept
        ≡ w.slept ++ backoff l.cfg.llm_retry_base_delay_ms attempt retries
  unfolding await
  tried-slept attempt zero w = sym (append-nil w.slept)
  tried-slept attempt (suc retries) w =
      tried-slept (suc attempt) retries (waited attempt w) ∙ append_assoc w.slept _ _

  Settles-slept :
      (retries : ℕ) (w : World S) (r : Reply) (w' : World S)
      → Settles retries w r w'
      → w'.slept ≡ w.slept
  unfolding await
  Settles-slept retries w r w' (inl (_, _, e)) = ap (λ (u : World S). u.slept) e
  Settles-slept retries w r w' (inr (_, _, e, _)) = ap (λ (u : World S). u.slept) e

-- With fuel for one call more than the retries allowed, which are at most 64, the call of the provider
-- returns, after some number of retries that is at most the allowed one. Before each retry the token was
-- not cancelled and the provider refused with an error that may pass: a rate limit, the network, or an
-- answer 500 to 599 of the server. Then either the token is cancelled, and the result is a cancel; or
-- it is not, and the result is the provider's answer to one more call, which is an error only if that will
-- not pass or all the allowed retries were made. The delays waited for are one for each retry: the base,
-- doubled with every attempt, in 64 bits.
pub call_llm_with_retry_lem :
    {C S : Type 0} (st : SessionStore C S) (out : Outside C) (l : Loop C) (messages : List Message)
    (tools : List ToolDefinition) (fuel : ℕ) (w : World S)
    → l.cfg.llm_retry_attempts ≤ 64
    → l.cfg.llm_retry_attempts < fuel
    → (r : Reply) × (w' : World S) × (retries : ℕ) × (call_llm_with_retry st out l messages tools
          fuel 0 w
        ≡ (some r, w'))
      × (retries ≤ l.cfg.llm_retry_attempts)
      × ((i : ℕ)
          → i < retries
          → IsRefused st out l messages tools (tried st out l messages tools 0 i w))
      × Settles st out l messages tools retries (tried st out l messages tools 0 retries w) r w'
      × (w'.slept ≡ w.slept ++ backoff l.cfg.llm_retry_base_delay_ms 0 retries)
call_llm_with_retry_lem st out l messages tools fuel w few enough =
    let (r, w', retries, run, bound, refusals, settles) =
      outcome st out l messages tools fuel 0 w few (omega arith) (omega arith) in
    let end : Settles st out l messages tools retries (tried st out l messages tools 0 retries w) r
        w' =
      (let z : 0 + retries ≡ retries = omega arith in
        subst
          (λ n. Settles st out l messages tools n (tried st out l messages tools 0 retries w) r w')
          z settles) in
    (
      r,
      w',
      retries,
      run,
      omega arith,
      refusals,
      end,
      Settles-slept st out l messages tools retries (tried st out l messages tools 0 retries w) r w'
            end
          ∙ tried-slept st out l messages tools 0 retries w,
    )
