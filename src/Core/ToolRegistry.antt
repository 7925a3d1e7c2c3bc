-- ===== src/Core/ToolRegistry.antt =====
-- crates/visp-core/src/tool_registry.rs: the tools that an agent may call, by names that are compared
-- without the case of ASCII letters. What a tool does is a function of its arguments into a result `R`
-- that stands for `ToolResult`. `str::to_lowercase`, with its tables of all scripts, is a parameter.
-- The two locks are held by no one else during an operation.
pub mod Names
pub mod Unique
pub mod Laws
use visp.Base.{
  ℕ, zero, suc, ◌+◌, Bool, true, false, ◌&&◌, Option, none, some, List, [], ◌∷◌, ◌++◌, map, Text,
  codes, text_eq, contains, if◌then◌else◌, leb, any, find, position,
}

pub data ToolType : Type 0 where
  builtin mcp agent skill : ToolType

pub record Tool (R : Type 0) : Type 0 where
  pub name : Text
  pub description : Text
  pub parameters : Text
  pub category : Text
  pub tool_type : ToolType
  pub execute : Text → R

-- `ToolDefinition` of message.rs
pub record ToolDefinition : Type 0 where
  pub name : Text
  pub description : Text
  pub parameters : Text
  pub category : Text

pub record ToolRegistry (R : Type 0) : Type 0 where
  pub tools : List (Tool R)
  pub core_tool_names : List Text

-- `Result<(), CoreError>` with the text of `CoreError::Tool`.
pub data Reply : Type 0 where
  done : Reply
  failed : Text → Reply

abbrev pub ascii_lower : ℕ → ℕ
ascii_lower c = if leb 65 c && leb c 90 then c + 32 else c

-- `eq_ignore_ascii_case`
unfoldable pub name_eq : Text → Text → Bool
name_eq a b = text_eq (map ascii_lower a) (map ascii_lower b)

-- `Vec::remove`, and the assignment to an index.
abbrev pub remove_at : {A : Type 0} → ℕ → List A → List A
remove_at i [] = []
remove_at zero (x ∷ xs) = xs
remove_at (suc i) (x ∷ xs) = x ∷ remove_at i xs

abbrev pub set_at : {A : Type 0} → ℕ → A → List A → List A
set_at i y [] = []
set_at zero y (x ∷ xs) = y ∷ xs
set_at (suc i) y (x ∷ xs) = x ∷ set_at i y xs

-- `HashSet::insert` for each name.
abbrev pub insert_all : List Text → List Text → List Text
insert_all [] names = names
insert_all (n ∷ ns) names = insert_all ns (if contains names n then names else n ∷ names)

abbrev pub not_found : Text → Text
not_found name = codes "tool '" ++ (name ++ codes "' not found")

module _ {R : Type 0} where
  abbrev pub named : Text → Tool R → Bool
  named name t = name_eq t.name name

  unfoldable pub register : ToolRegistry R → Tool R → Reply × ToolRegistry R
  unfolding name_eq
  register r tool =
      if any (named tool.name) r.tools
      then (failed (codes "duplicate tool name: " ++ tool.name), r)
      else (done, record r { tools = r.tools ++ tool ∷ [] })

  unfoldable pub register_mcp :
      (to_lowercase : Text → Text) → ToolRegistry R → Tool R → Reply × ToolRegistry R
  unfolding name_eq
  register_mcp to_lowercase r tool =
      if contains (map to_lowercase r.core_tool_names) (to_lowercase tool.name)
      then (done, r)
      else if any (named tool.name) r.tools
      then (done, r)
      else (done, record r { tools = r.tools ++ tool ∷ [] })

  unfoldable pub seal_core_tools : ToolRegistry R → ToolRegistry R
  seal_core_tools r = record r {
    core_tool_names = insert_all (map (λ (t : Tool R). t.name) r.tools) r.core_tool_names;
  }

  unfoldable pub remove : ToolRegistry R → Text → Reply × ToolRegistry R
  unfolding name_eq
  remove r name = elim (position (named name) r.tools) [
    | some i ↦ (done, record r { tools = remove_at i r.tools })
    | none ↦ (failed (not_found name), r)
  ]

  unfoldable pub update : ToolRegistry R → Text → Tool R → Reply × ToolRegistry R
  unfolding name_eq
  update r name tool = elim (position (named name) r.tools) [
    | some i ↦ (done, record r { tools = set_at i tool r.tools })
    | none ↦ (failed (not_found name), r)
  ]

  unfoldable pub get : ToolRegistry R → Text → Option (Tool R)
  unfolding name_eq
  get r name = find (named name) r.tools

  unfoldable pub definitions : ToolRegistry R → List ToolDefinition
  definitions r =
      map
        (λ (t : Tool R). record {
          name = t.name;
          description = t.description;
          parameters = t.parameters;
          category = t.category;
        })
        r.tools

  unfoldable pub names : ToolRegistry R → List Text
  names r = map (λ (t : Tool R). t.name) r.tools

  unfoldable pub execute : ToolRegistry R → Text → Text → Option R
  unfolding get
  execute r name args = elim (get r name) [ some tool ↦ some (tool.execute args) | none ↦ none ]
