-- ===== src/Core/ToolRegistry/Laws.antt =====
-- The operations of the registry on every branch, and what any sequence of calls keeps.
use visp.Base.{
  ℕ, suc, ◌≡◌, refl, sym, ◌∙◌, ap, subst, ◌⊎◌, inl, inr, Bool, true, false, none, some, List, [],
  ◌∷◌, ◌++◌, map, Text, codes, if◌then◌else◌, any, find, position, arith, Bool-cases, Option-cases,
  All, Any, Any-map, Any-mono, contains, Any→contains, contains→Any,
}
use visp.Core.ToolRegistry.{
  Tool, ToolRegistry, done, failed, name_eq, named, not_found, insert_all, remove_at, set_at,
  register, register_mcp, remove, update, seal_core_tools, get,
}
use visp.Core.ToolRegistry.Names.{IsUnique, find-added}
use visp.Core.ToolRegistry.Unique.{
  remove_at-IsUnique, added-IsUnique, set_at-IsUnique, find-removed, find-replaced,
}

module _ {R : Type 0} where
  any-find : (p : Tool R → Bool) (ts : List (Tool R)) → any p ts ≡ false → find p ts ≡ none
  any-find p [] h = refl
  any-find p (x ∷ ts) h = ground (arith, any-find p ts)

  find-any :
      (p : Tool R → Bool) (ts : List (Tool R)) (b : Bool)
      → any p ts ≡ true
      → (t : Tool R) × (find p ts ≡ some t)
  find-any p [] b h = absurd (cc)
  find-any p (x ∷ ts) b h = elim (Bool-cases (p x)) [
    | inl e ↦ (x, rw e refl)
    | inr e ↦ rw e (find-any p ts b (rw e at h))
  ]

  find-position :
      (p : Tool R → Bool) (ts : List (Tool R))
      → ((find p ts ≡ none) × (position p ts ≡ none))
        ⊎ ((t : Tool R) × (i : ℕ) × (find p ts ≡ some t) × (position p ts ≡ some i))
  find-position p [] = inl (refl, refl)
  find-position p (x ∷ ts) = elim (Bool-cases (p x)) [
    | inl e ↦ inr (x, 0, rw e refl, rw e refl)
    | inr e ↦ elim (find-position p ts) [
      | inl (f, g) ↦ inl (rw e f, rw (e, g) refl)
      | inr (t, i, f, g) ↦ inr (t, suc i, rw e f, rw (e, g) refl)
    ]
  ]

-- `register` adds a tool whose name finds nothing, and then exactly that name, without case, finds the
-- tool and every other name what it found; a name that finds a tool is refused, and nothing changes.
pub register_lem :
    {R : Type 0} (r : ToolRegistry R) (tool : Tool R)
    → ((get r tool.name ≡ none)
        × ((register r tool).0 ≡ done)
        × ((name : Text)
            → get (register r tool).1 name
              ≡ (if name_eq tool.name name then some tool else get r name)))
      ⊎ ((t : Tool R) × (get r tool.name ≡ some t)
          × (register r tool ≡ (failed (codes "duplicate tool name: " ++ tool.name), r)))
unfolding register get
register_lem r tool = elim (Bool-cases (any (named tool.name) r.tools)) [
  | inr new ↦ inl (
    any-find (named tool.name) r.tools new,
    rw (new, register) refl,
    λ name. rw (new, register) (find-added r.tools tool name new),
  )
  | inl taken ↦
      let (t, e) = find-any (named tool.name) r.tools true taken in
      inr (t, e, rw (taken, register) refl)
]

-- Where names are unique, `remove` and `update` fail on a name that finds nothing. Otherwise `remove`
-- takes exactly that name's tool out, and `update` with a tool of that name puts it there; every other
-- name finds what it found.
pub remove_update_lem :
    {R : Type 0} (r : ToolRegistry R) (name : Text) (tool : Tool R)
    → IsUnique r.tools
    → name_eq tool.name name ≡ true
    → ((get r name ≡ none)
        × (remove r name ≡ (failed (not_found name), r))
        × (update r name tool ≡ (failed (not_found name), r)))
      ⊎ (((remove r name).0 ≡ done)
          × ((update r name tool).0 ≡ done)
          × ((other : Text)
              → (get (remove r name).1 other ≡ (if name_eq name other then none else get r other))
                × (get (update r name tool).1 other
                    ≡ (if name_eq name other then some tool else get r other))))
unfolding remove update get
remove_update_lem r name tool u same = elim (find-position (named name) r.tools) [
  | inl (f, g) ↦ inl (f, rw (g, remove) refl, rw (g, update) refl)
  | inr (t, i, f, g) ↦ inr (
    rw (g, remove) refl,
    rw (g, update) refl,
    λ other. (
      rw (g, remove) (find-removed name other r.tools i g u),
      rw (g, update) (find-replaced name other tool r.tools i same g),
    ),
  )
]

pub data Call (R : Type 0) : Type 0 where
  registers registers_mcp : Tool R → Call R
  seals : Call R
  removes : Text → Call R
  updates : Text → Tool R → Call R

-- An update brings a tool of the name that it replaces.
abbrev pub KeepsName : {R : Type 0} → Call R → Type 0
KeepsName (updates name tool) = name_eq tool.name name ≡ true
KeepsName _ = Unit

module _ (to_lowercase : Text → Text) {R : Type 0} where
  unfoldable pub step : ToolRegistry R → Call R → ToolRegistry R
  step r (registers tool) = (register r tool).1
  step r (registers_mcp tool) = (register_mcp to_lowercase r tool).1
  step r seals = seal_core_tools r
  step r (removes name) = (remove r name).1
  step r (updates name tool) = (update r name tool).1

  unfoldable pub run : ToolRegistry R → List (Call R) → ToolRegistry R
  unfolding step
  run r [] = r
  run r (c ∷ cs) = run (step r c) cs

  register_mcp-tools :
      (r : ToolRegistry R) (tool : Tool R)
      → ((register_mcp to_lowercase r tool).1.tools ≡ r.tools)
        ⊎ ((any (named tool.name) r.tools ≡ false)
            × ((register_mcp to_lowercase r tool).1.tools ≡ r.tools ++ tool ∷ []))
  unfolding register_mcp
  register_mcp-tools r tool =
      elim (Bool-cases (contains (map to_lowercase r.core_tool_names) (to_lowercase tool.name))) [
        | inl core ↦ inl (rw (core, register_mcp) refl)
        | inr free ↦ elim (Bool-cases (any (named tool.name) r.tools)) [
          | inl taken ↦ inl (rw (free, taken, register_mcp) refl)
          | inr new ↦ inr (new, rw (free, new, register_mcp) refl)
        ]
      ]

  step-IsUnique :
      (r : ToolRegistry R) (c : Call R) → KeepsName c → IsUnique r.tools → IsUnique (step r c).tools
  unfolding step register register_mcp remove update seal_core_tools
  step-IsUnique r (registers tool) k u = elim (Bool-cases (any (named tool.name) r.tools)) [
    | inl taken ↦
        let same : (register r tool).1.tools ≡ r.tools = rw (taken, register) refl in
        subst IsUnique (sym same) u
    | inr new ↦
        let more : (register r tool).1.tools ≡ r.tools ++ tool ∷ [] = rw (new, register) refl in
        subst IsUnique (sym more) (added-IsUnique r.tools tool new u)
  ]
  step-IsUnique r (registers_mcp tool) k u = elim (register_mcp-tools r tool) [
    | inl same ↦ subst IsUnique (sym same) u
    | inr (new, more) ↦ subst IsUnique (sym more) (added-IsUnique r.tools tool new u)
  ]
  step-IsUnique r seals k u = u
  step-IsUnique r (removes name) k u = elim (Option-cases (position (named name) r.tools)) [
    | inl e ↦
        let same : (remove r name).1.tools ≡ r.tools = rw (e, remove) refl in
        subst IsUnique (sym same) u
    | inr (i, e) ↦
        let less : (remove r name).1.tools ≡ remove_at i r.tools = rw (e, remove) refl in
        subst IsUnique (sym less) (remove_at-IsUnique i r.tools u)
  ]
  step-IsUnique r (updates name tool) k u = elim (Option-cases (position (named name) r.tools)) [
    | inl e ↦
        let same : (update r name tool).1.tools ≡ r.tools = rw (e, update) refl in
        subst IsUnique (sym same) u
    | inr (i, e) ↦
        let set : (update r name tool).1.tools ≡ set_at i tool r.tools = rw (e, update) refl in
        subst IsUnique (sym set) (set_at-IsUnique name tool r.tools i k e u)
  ]

-- Over any sequence of calls in which each update brings a tool of the name that it replaces, no two
-- tools of the registry get the same name without case.
pub run-IsUnique :
    (to_lowercase : Text → Text) {R : Type 0} (r : ToolRegistry R) (calls : List (Call R))
    → IsUnique r.tools
    → All KeepsName calls
    → IsUnique (run to_lowercase r calls).tools
unfolding run
run-IsUnique low r [] u k = u
run-IsUnique low r (c ∷ cs) u k =
    run-IsUnique low (step low r c) cs (step-IsUnique low r c k.0 u) k.1

insert_all-keeps :
    (ns names : List Text) (n : Text)
    → Any (λ k. k ≡ n) names
    → Any (λ k. k ≡ n) (insert_all ns names)
insert_all-keeps [] names n h = h
insert_all-keeps (m ∷ ns) names n h = elim (Bool-cases (contains names m)) [
  | inl there ↦ rw there (insert_all-keeps ns names n h)
  | inr new ↦ rw new (insert_all-keeps ns (m ∷ names) n (inr h))
]

insert_all-Any :
    (ns names : List Text) (n : Text) → Any (λ k. k ≡ n) ns → Any (λ k. k ≡ n) (insert_all ns names)
insert_all-Any [] names n h = absurd h
insert_all-Any (m ∷ ns) names n (inl e) = elim (Bool-cases (contains names m)) [
  | inl there ↦ rw there (
      insert_all-keeps ns names n
        (Any-mono names (λ k (f : k ≡ m). f ∙ e) (contains→Any names m there)))
  | inr new ↦ rw new (insert_all-keeps ns (m ∷ names) n (inl e))
]
insert_all-Any (m ∷ ns) names n (inr h) = elim (Bool-cases (contains names m)) [
  | inl there ↦ rw there (insert_all-Any ns names n h)
  | inr new ↦ rw new (insert_all-Any ns (m ∷ names) n h)
]

-- A name that is taken when the core tools are sealed stays out of reach of MCP tools: in every later
-- registry with the sealed core names, `register_mcp` of a tool of that name, without case, reports
-- success and changes nothing, also where the core tool was removed. `to_lowercase` gives names that
-- differ in the case of ASCII letters the same result.
pub seal_core_tools_protects :
    (to_lowercase : Text → Text) {R : Type 0} (r later : ToolRegistry R) (core tool : Tool R)
    → ((a b : Text) → name_eq a b ≡ true → to_lowercase a ≡ to_lowercase b)
    → Any (λ t. t ≡ core) r.tools
    → name_eq tool.name core.name ≡ true
    → later.core_tool_names ≡ (seal_core_tools r).core_tool_names
    → register_mcp to_lowercase later tool ≡ (done, later)
unfolding register_mcp seal_core_tools
seal_core_tools_protects low {R} r later core tool lower h same sealed =
    let names = insert_all (map (λ (t : Tool R). t.name) r.tools) r.core_tool_names in
    let there : Any (λ k. k ≡ core.name) names =
      insert_all-Any (map (λ (t : Tool R). t.name) r.tools) r.core_tool_names core.name (
        Any-map (λ t. t ≡ core) (λ k. k ≡ core.name) (λ (t : Tool R). t.name) r.tools
          (λ t e. ap (λ (u : Tool R). u.name) e) h) in
    let lowered : Any (λ k. k ≡ low tool.name) (map low names) =
      Any-map (λ k. k ≡ core.name) (λ k. k ≡ low tool.name) low names
        (λ k e. ap low e ∙ sym (lower tool.name core.name same)) there in
    let found : contains (map low later.core_tool_names) (low tool.name) ≡ true =
      ap (λ ns. contains (map low ns) (low tool.name)) sealed
      ∙ Any→contains (map low names) (low tool.name) lowered in
    rw (found, register_mcp) refl
