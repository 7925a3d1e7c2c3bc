-- ===== src/Agents/Orchestrator/Tools.antt =====
-- `filter_tools_for_sub_agent` of crates/visp-agent/src/orchestrator.rs: the registry of a sub-agent,
-- filled from that of the daemon.
use visp.Base.{
  ◌≡◌, refl, sym, ◌∙◌, ap, inl, inr, Bool, true, false, ◌||◌, Option, none, some, List, [], ◌∷◌,
  ◌++◌, map, Text, if◌then◌else◌, any, find, filter, contains, arith, Bool-cases, All, All-mono,
  All-zip, All-trivial, All-filter, subst, append-nil, append_assoc,
}
use visp.Core.ToolRegistry.{
  builtin, mcp, agent, skill, Tool, ToolRegistry, name_eq, named, register, get, names,
}
use visp.Core.ToolRegistry.Names.{name_eq_refl, name_eq_right, name_eq_sym, IsUnique}
use visp.Core.ToolRegistry.Unique.{none-different}

-- The name of an agent is compared with its case.
abbrev pub agent_allowed : List Text → Text → Bool
agent_allowed [] name = false
agent_allowed (a ∷ rest) name = contains (a ∷ rest) name

module _ {R : Type 0} where
  abbrev pub no_tools : ToolRegistry R
  no_tools = record { tools = []; core_tool_names = [] }

  abbrev pub should_include : List Text → Tool R → Bool
  should_include allowed tool = elim tool.tool_type [
    | agent ↦ agent_allowed allowed tool.name
    | builtin ↦ true
    | mcp ↦ true
    | skill ↦ true
  ]

  -- The body of the loop, for what `get` returns; the result of `register` is dropped.
  abbrev include : List Text → ToolRegistry R → Option (Tool R) → ToolRegistry R
  include allowed filtered none = filtered
  include allowed filtered (some tool) =
      if should_include allowed tool then (register filtered tool).1 else filtered

  abbrev include_names : ToolRegistry R → List Text → ToolRegistry R → List Text → ToolRegistry R
  include_names r allowed filtered [] = filtered
  include_names r allowed filtered (name ∷ rest) =
      include_names r allowed (include allowed filtered (get r name)) rest

  unfoldable pub filter_tools_for_sub_agent : ToolRegistry R → List Text → ToolRegistry R
  unfolding names get register
  filter_tools_for_sub_agent r allowed = include_names r allowed no_tools (names r)

  -- A name that no tool has.
  abbrev IsFree : List (Tool R) → Tool R → Type 0
  IsFree ts x = any (named x.name) ts ≡ false

  find_self :
      (ts : List (Tool R)) → IsUnique ts → All (λ (x : Tool R). find (named x.name) ts ≡ some x) ts
  find_self [] u = tt
  find_self (t ∷ ts) u = (
    rw (name_eq_refl t.name) refl,
    All-mono ts
        (λ (x : Tool R) (h : (name_eq x.name t.name ≡ false) × (find (named x.name) ts ≡ some x)).
          rw (name_eq_sym t.name x.name, h.0) h.1)
        (All-zip _ _ ts u.0 (find_self ts u.1)),
  )

  any-append :
      (p : Tool R → Bool) (xs : List (Tool R)) (t : Tool R)
      → any p (xs ++ t ∷ []) ≡ (any p xs || p t)
  any-append p [] t = ground arith
  any-append p (x ∷ xs) t = ground (arith, any-append p xs t)

  -- The loop over the rest of the tools, whose names are still free.
  include_names-tools :
      (r : ToolRegistry R) (allowed : List Text) (filtered : ToolRegistry R) (ts : List (Tool R))
      → IsUnique ts
      → All (λ (x : Tool R). get r x.name ≡ some x) ts
      → All (IsFree filtered.tools) ts
      → (include_names r allowed filtered (map (λ (t : Tool R). t.name) ts)).tools
        ≡ filtered.tools ++ filter (should_include allowed) ts
  unfolding register
  include_names-tools r allowed filtered [] u g free = sym (append-nil filtered.tools)
  include_names-tools r allowed filtered (t ∷ ts) u g free =
      let later = map (λ (x : Tool R). x.name) ts in
      elim (Bool-cases (should_include allowed t)) [
        | inr out ↦
            let same : include allowed filtered (get r t.name) ≡ filtered =
              ap (include allowed filtered) g.0 ∙ rw out refl in
            ap (λ f. (include_names r allowed f later).tools) same
            ∙ include_names-tools r allowed filtered ts u.1 g.1 free.1
            ∙ rw out refl
        | inl taken ↦
            let next : ToolRegistry R = record filtered { tools = filtered.tools ++ t ∷ [] } in
            let more : include allowed filtered (get r t.name) ≡ next =
              ap (include allowed filtered) g.0 ∙ rw (taken, free.0) refl in
            let still : All (IsFree next.tools) ts =
              All-mono ts
                (λ (x : Tool R) (h : (name_eq x.name t.name ≡ false) × IsFree filtered.tools x).
                  any-append (named x.name) filtered.tools t
                  ∙ rw (h.1, name_eq_sym t.name x.name, h.0) refl)
                (All-zip _ _ ts u.0 free.1) in
            ap (λ f. (include_names r allowed f later).tools) more
            ∙ include_names-tools r allowed next ts u.1 g.1 still
            ∙ append_assoc filtered.tools (t ∷ []) (filter (should_include allowed) ts)
            ∙ rw taken refl
      ]

  -- Where names are unique, what is found in the tools that pass a test is what is found and passes.
  find-filter :
      (q : Tool R → Bool) (name : Text) (ts : List (Tool R))
      → IsUnique ts
      → find (named name) (filter q ts)
        ≡ elim (find (named name) ts) [ none ↦ none | some t ↦ if q t then some t else none ]
  find-filter q name [] u = refl
  find-filter q name (t ∷ ts) u = elim (Bool-cases (name_eq t.name name)) [
    | inr other ↦ elim (Bool-cases (q t)) [
      | inl passes ↦ rw (passes, other) (find-filter q name ts u.1)
      | inr fails ↦ rw (fails, other) (find-filter q name ts u.1)
    ]
    | inl this ↦ elim (Bool-cases (q t)) [
      | inl passes ↦ rw (passes, this, passes) refl
      | inr fails ↦
          let later : find (named name) ts ≡ none =
            none-different name ts (
              All-mono ts (λ (x : Tool R) h. sym (name_eq_right t.name name x.name this) ∙ h)
                u.0) in
          rw (fails, this, fails) (find-filter q name ts u.1 ∙ rw later refl)
    ]
  ]

allowed-contains :
    (allowed : List Text) (name : Text)
    → agent_allowed allowed name ≡ true
    → contains allowed name ≡ true
allowed-contains [] name h = absurd (cc)
allowed-contains (a ∷ rest) name h = h

included-contains :
    {R : Type 0} (allowed : List Text) (t : Tool R)
    → should_include allowed t ≡ true
    → t.tool_type ≡ agent
    → contains allowed t.name ≡ true
included-contains allowed t h e = allowed-contains allowed t.name (rw e at h)

-- Where names are unique, a sub-agent gets, in their order, the tools that are no agents and the agents
-- that it is allowed, and each name finds there what it finds in the daemon's registry, if that tool is
-- one of these. An agent among its tools is on the list of the allowed agents.
pub filter_tools_for_sub_agent_lem :
    {R : Type 0} (r : ToolRegistry R) (allowed : List Text)
    → IsUnique r.tools
    → ((filter_tools_for_sub_agent r allowed).tools ≡ filter (should_include allowed) r.tools)
      × ((name : Text)
          → get (filter_tools_for_sub_agent r allowed) name ≡ elim (get r name) [
            | none ↦ none
            | some t ↦ if should_include allowed t then some t else none
          ])
      × All
          (λ (t : Tool R). t.tool_type ≡ agent → contains allowed t.name ≡ true)
          (filter_tools_for_sub_agent r allowed).tools
unfolding filter_tools_for_sub_agent names get register contains
filter_tools_for_sub_agent_lem {R} r allowed u =
    let none_free : All (λ (x : Tool R). any (named {R = R} x.name) [] ≡ false) r.tools =
      All-mono r.tools (λ x _. refl) (All-trivial r.tools) in
    let tools : (filter_tools_for_sub_agent r allowed).tools
        ≡ filter (should_include allowed) r.tools =
      include_names-tools r allowed no_tools r.tools u (find_self r.tools u) none_free in
    (
      tools,
      λ name.
          ap (find (named {R = R} name)) tools
          ∙ find-filter (should_include allowed) name r.tools u,
      subst (All (λ (t : Tool R). t.tool_type ≡ agent → contains allowed t.name ≡ true)) (sym tools)
          (All-mono (filter (should_include allowed) r.tools)
            (λ t h. included-contains allowed t h.1)
            (All-filter (λ _. Unit {0}) (should_include allowed) r.tools (All-trivial r.tools))),
    )
