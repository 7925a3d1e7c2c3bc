-- ===== src/Core/AgentLoop/Marker.antt =====
-- The [USER_QUERY] marker of crates/visp-core/src/agent.rs. Positions in a text are the parts before
-- and after it; `char::is_whitespace` is the table of Unicode's White_Space.
use visp.Base.{
  ℕ, Bool, true, false, ◌&&◌, ◌||◌, Option, none, some, List, [], ◌∷◌, ◌++◌, Text, codes,
  if◌then◌else◌, ◌==◌, leb, any,
}

abbrev pub is_whitespace : ℕ → Bool
is_whitespace c =
    (leb 9 c && leb c 13)
    || ((leb 8192 c && leb c 8202)
        || any (λ d. d == c) (32 ∷ 133 ∷ 160 ∷ 5760 ∷ 8232 ∷ 8233 ∷ 8239 ∷ 8287 ∷ 12288 ∷ []))

unfoldable pub trim_start : Text → Text
trim_start [] = []
trim_start (c ∷ s) = if is_whitespace c then trim_start s else c ∷ s

-- A text of blanks is empty; otherwise the last character that is none stays.
unfoldable pub trim_end : Text → Text
trim_end [] = []
trim_end (c ∷ s) = elim (trim_end s) [
  | [] ↦ if is_whitespace c then [] else c ∷ []
  | d ∷ r ↦ c ∷ d ∷ r
]

unfoldable pub trim : Text → Text
unfolding trim_start trim_end
trim s = trim_end (trim_start s)

-- The rest behind a prefix.
unfoldable pub strip_prefix : Text → Text → Option Text
strip_prefix [] s = some s
strip_prefix (p ∷ ps) [] = none
strip_prefix (p ∷ ps) (c ∷ s) = if p == c then strip_prefix ps s else none

unfoldable pub starts_with : Text → Text → Bool
unfolding strip_prefix
starts_with p s = elim (strip_prefix p s) [ none ↦ false | some rest ↦ true ]

-- `contains`
unfoldable pub contains_part : Text → Text → Bool
unfolding starts_with
contains_part p [] = starts_with p []
contains_part p (c ∷ s) = starts_with p (c ∷ s) || contains_part p s

abbrev from_here : Text → Text → Option (Text × Text) → Option (Text × Text)
from_here p [] later = none
from_here p (c ∷ s) (some (before, from)) = some (c ∷ before, from)
from_here p (c ∷ s) none = if starts_with p (c ∷ s) then some ([], c ∷ s) else none

-- `rfind` of a part that is not empty: what stands before its last occurrence, and the text from there.
unfoldable pub rfind : Text → Text → Option (Text × Text)
unfolding starts_with
rfind p [] = none
rfind p (c ∷ s) = from_here p (c ∷ s) (rfind p s)

-- `find` of a character: the text up to it, with it, and the rest.
unfoldable pub find_char : ℕ → Text → Option (Text × Text)
find_char d [] = none
find_char d (c ∷ s) =
    if c == d
    then some (c ∷ [], s)
    else elim (find_char d s) [ none ↦ none | some r ↦ some (c ∷ r.0, r.1) ]

abbrev add_to_line : ℕ → List Text → List Text
add_to_line c [] = (c ∷ []) ∷ []
add_to_line c (l ∷ ls) = (c ∷ l) ∷ ls

-- `lines`; the carriage returns that it takes off are blanks that every line is trimmed of anyway.
unfoldable pub lines : Text → List Text
lines [] = []
lines (c ∷ s) = if c == 10 then [] ∷ lines s else add_to_line c (lines s)

pub record UserQueryMarker : Type 0 where
  pub message : Text
  pub options : List Text
  pub allow_other : Bool

abbrev is_empty : Text → Bool
is_empty [] = true
is_empty (c ∷ s) = false

-- What the loop over the lines has seen.
pub record Seen : Type 0 where
  pub message : Text
  pub options : List Text
  pub saw_options : Bool

-- A line that is neither an option nor blank; `none` ends the loop.
abbrev other_line : Seen → Text → Option Seen
other_line seen line =
    if is_empty line
    then some seen
    else if is_empty seen.message
    then some (record seen { message = line })
    else if seen.saw_options
    then none
    else some seen

abbrev see_line : Seen → Text → Option Seen
see_line seen line = elim (strip_prefix (codes "- ") line) [
  | some option ↦ some (record seen { options = seen.options ++ option ∷ []; saw_options = true })
  | none ↦ other_line seen line
]

abbrev seen_or : Seen → Option Seen → (Seen → Seen) → Seen
seen_or seen none go = seen
seen_or seen (some next) go = go next

unfoldable pub see_lines : List Text → Seen → Seen
unfolding trim strip_prefix
see_lines [] seen = seen
see_lines (line ∷ rest) seen = seen_or seen (see_line seen (trim line)) (see_lines rest)

abbrev nothing_seen : Seen
nothing_seen = record { message = []; options = []; saw_options = false }

abbrev marker_of : Bool → Text → Option UserQueryMarker
marker_of allow_other [] = none
marker_of allow_other (c ∷ s) =
    let seen = see_lines (lines (c ∷ s)) nothing_seen in
    some (record { message = seen.message; options = seen.options; allow_other = allow_other })

abbrev before_last : Text → Text → Text
before_last p s = elim (rfind p s) [ none ↦ s | some found ↦ found.0 ]

-- The closing mark may be missing: the body then goes to the end of the text.
unfoldable pub parse_user_query_marker : Text → Option UserQueryMarker
unfolding trim trim_end rfind find_char contains_part see_lines lines
parse_user_query_marker text =
    let before_close = before_last (codes "[/USER_QUERY]") (trim_end text) in
    elim (rfind (codes "[USER_QUERY") before_close) [
      | none ↦ none
      | some opened ↦ elim (find_char 93 opened.1) [
        | none ↦ none
        | some header ↦
            marker_of (contains_part (codes "allow_other=true") header.0) (trim header.1)
      ]
    ]

-- The closing mark must be there.
unfoldable pub strip_user_query_marker : Text → Text
unfolding trim_end rfind
strip_user_query_marker text =
    let whole = trim_end text in
    elim (rfind (codes "[/USER_QUERY]") whole) [
      | none ↦ whole
      | some closed ↦ elim (rfind (codes "[USER_QUERY") closed.0) [
        | none ↦ whole
        | some opened ↦ trim_end opened.0
      ]
    ]
