-- ===== src/Hooks/Executor/Cooldown.antt =====
-- The cooldown of a rule over a sequence of events.
use visp.Base.{
  ℕ, zero, suc, ◌+◌, ◌-◌, ◌≤◌, ◌<◌, ◌≡◌, inl, inr, false, Option, none, some, List, [], ◌∷◌, ltb,
  ◌==◌, arith, tests, Bool-cases,
}
use visp.Hooks.Executor.{fired_at}

-- Each time is `gap` behind the one before it.
abbrev pub IsSpaced : (gap : ℕ) → Option ℕ → List ℕ → Type 0
IsSpaced gap last [] = Unit
IsSpaced gap none (t ∷ ts) = IsSpaced gap (some t) ts
IsSpaced gap (some p) (t ∷ ts) = (p + gap ≤ t) × IsSpaced gap (some t) ts

-- A rule with a cooldown fires at times that are at least the cooldown apart, the first of them at least
-- the cooldown behind the last firing before, whatever the times of the events are.
pub fired_at-IsSpaced :
    (cooldown_ms : ℕ) (last : Option ℕ) (times : List ℕ)
    → 0 < cooldown_ms
    → IsSpaced cooldown_ms last (fired_at cooldown_ms last times)
unfolding fired_at
fired_at-IsSpaced cd last [] h = tt
fired_at-IsSpaced zero last (t ∷ ts) h = elim h [ ]
fired_at-IsSpaced (suc cd) none (t ∷ ts) h =
    let set : (suc cd == 0) ≡ false = ground arith in
    rw set (fired_at-IsSpaced (suc cd) (some t) ts h)
fired_at-IsSpaced (suc cd) (some p) (t ∷ ts) h = elim (Bool-cases (ltb (t - p) (suc cd))) [
  | inl soon ↦
      let set : (suc cd == 0) ≡ false = ground arith in
      rw (set, soon) (fired_at-IsSpaced (suc cd) (some p) ts h)
  | inr late ↦
      let set : (suc cd == 0) ≡ false = ground arith in
      rw (set, late) ((omega (tests)), fired_at-IsSpaced (suc cd) (some t) ts h)
]
