-- ===== src/Hooks/Rules/Sorted.antt =====
-- The order of the rules that fire: the executor sorts once and filters each event, `select_matches`
-- filters and sorts; both give the same rules in the same order.
use visp.Base.{
  ◌≡◌, refl, sym, ◌∙◌, ap, inl, inr, Bool, true, false, Option, List, [], ◌∷◌, Text, filter, arith,
  Bool-cases, Option-cases, All, All-mono, All-filter, All-trivial,
}
use visp.Hooks.Rules.{
  DispatchRule, DispatchInput, ℤ, pos, negsuc, int_le, text_le, order_of, key_le, insert_sorted,
  sort_rules, matches, select_matches, compiled, matched,
}

int_le_total : (a b : ℤ) → int_le a b ≡ false → int_le b a ≡ true
unfolding int_le
int_le_total (pos a) (pos b) h = ground arith
int_le_total (pos a) (negsuc b) h = refl
int_le_total (negsuc a) (pos b) h = ground arith
int_le_total (negsuc a) (negsuc b) h = ground arith

int_le_trans : (a b c : ℤ) → int_le a b ≡ true → int_le b c ≡ true → int_le a c ≡ true
unfolding int_le
int_le_trans (pos a) (pos b) (pos c) h k = ground arith
int_le_trans (pos a) (pos b) (negsuc c) h k = ground arith
int_le_trans (pos a) (negsuc b) (pos c) h k = ground arith
int_le_trans (pos a) (negsuc b) (negsuc c) h k = ground arith
int_le_trans (negsuc a) (pos b) (pos c) h k = ground arith
int_le_trans (negsuc a) (pos b) (negsuc c) h k = ground arith
int_le_trans (negsuc a) (negsuc b) (pos c) h k = ground arith
int_le_trans (negsuc a) (negsuc b) (negsuc c) h k = ground arith

text_le_total : (s t : Text) → text_le s t ≡ false → text_le t s ≡ true
unfolding text_le
text_le_total [] t h = ground arith
text_le_total (c ∷ s) [] h = refl
text_le_total (c ∷ s) (d ∷ t) h = ground (arith, text_le_total s t)

text_le_trans : (s t u : Text) → text_le s t ≡ true → text_le t u ≡ true → text_le s u ≡ true
unfolding text_le
text_le_trans [] t u h k = refl
text_le_trans (c ∷ s) [] u h k = ground arith
text_le_trans (c ∷ s) (d ∷ t) [] h k = ground arith
text_le_trans (c ∷ s) (d ∷ t) (e ∷ u) h k = ground (arith, text_le_trans s t u)

key_le_total : (a b : DispatchRule) → key_le a b ≡ false → key_le b a ≡ true
unfolding key_le
key_le_total a b h = ground (arith, int_le_total (order_of a) (order_of b), text_le_total a.id b.id)

key_le_trans : (a b c : DispatchRule) → key_le a b ≡ true → key_le b c ≡ true → key_le a c ≡ true
unfolding key_le
key_le_trans a b c h k = ground (
  arith,
  int_le_trans (order_of a) (order_of b) (order_of c),
  int_le_trans (order_of c) (order_of a) (order_of b),
  int_le_trans (order_of b) (order_of c) (order_of a),
  text_le_trans a.id b.id c.id,
)

abbrev pub IsSorted : List DispatchRule → Type 0
IsSorted [] = Unit
IsSorted (x ∷ xs) = All (λ y. key_le x y ≡ true) xs × IsSorted xs

All-insert_sorted :
    (P : DispatchRule → Type 0) (r : DispatchRule) (xs : List DispatchRule)
    → P r
    → All P xs
    → All P (insert_sorted r xs)
unfolding insert_sorted
All-insert_sorted P r [] p h = (p, tt)
All-insert_sorted P r (x ∷ xs) p h = elim (Bool-cases (key_le r x)) [
  | inl e ↦ rw e (p, h)
  | inr e ↦ rw e (h.0, All-insert_sorted P r xs p h.1)
]

insert_sorted-IsSorted :
    (r : DispatchRule) (xs : List DispatchRule) → IsSorted xs → IsSorted (insert_sorted r xs)
unfolding insert_sorted
insert_sorted-IsSorted r [] h = (tt, tt)
insert_sorted-IsSorted r (x ∷ xs) h = elim (Bool-cases (key_le r x)) [
  | inl e ↦ rw e ((e, All-mono xs (λ y k. key_le_trans r x y e k) h.0), h)
  | inr e ↦
      rw e (All-insert_sorted _ r xs (key_le_total r x e) h.0, insert_sorted-IsSorted r xs h.1)
]

sort_rules-IsSorted : (rs : List DispatchRule) → IsSorted (sort_rules rs)
unfolding sort_rules
sort_rules-IsSorted [] = tt
sort_rules-IsSorted (r ∷ rs) = insert_sorted-IsSorted r (sort_rules rs) (sort_rules-IsSorted rs)

insert_sorted-first :
    (r : DispatchRule) (xs : List DispatchRule)
    → All (λ y. key_le r y ≡ true) xs
    → insert_sorted r xs ≡ r ∷ xs
unfolding insert_sorted
insert_sorted-first r [] h = refl
insert_sorted-first r (x ∷ xs) h = rw h.0 refl

filter-insert_sorted-kept :
    (p : DispatchRule → Bool) (r : DispatchRule) (xs : List DispatchRule)
    → IsSorted xs
    → p r ≡ true
    → filter p (insert_sorted r xs) ≡ insert_sorted r (filter p xs)
unfolding insert_sorted
filter-insert_sorted-kept p r [] h e = rw e refl
filter-insert_sorted-kept p r (x ∷ xs) h e = elim (Bool-cases (key_le r x)) [
  | inl le ↦
      rw (le, e)
        (sym (
          insert_sorted-first r (filter p (x ∷ xs)) (
            All-mono (filter p (x ∷ xs)) (λ y k. k.0)
              (All-filter _ p (x ∷ xs) (le, All-mono xs (λ y k. key_le_trans r x y le k) h.0)))))
  | inr gt ↦ elim (Bool-cases (p x)) [
    | inl keep ↦
        rw (gt, keep, insert_sorted, gt) (ap (◌∷◌ x) (filter-insert_sorted-kept p r xs h.1 e))
    | inr skip ↦ rw (gt, skip) (filter-insert_sorted-kept p r xs h.1 e)
  ]
]

filter-insert_sorted-dropped :
    (p : DispatchRule → Bool) (r : DispatchRule) (xs : List DispatchRule)
    → p r ≡ false
    → filter p (insert_sorted r xs) ≡ filter p xs
unfolding insert_sorted
filter-insert_sorted-dropped p r [] e = rw e refl
filter-insert_sorted-dropped p r (x ∷ xs) e = elim (Bool-cases (key_le r x)) [
  | inl le ↦ rw (le, e) refl
  | inr gt ↦ elim (Bool-cases (p x)) [
    | inl keep ↦ rw (gt, keep) (ap (◌∷◌ x) (filter-insert_sorted-dropped p r xs e))
    | inr skip ↦ rw (gt, skip) (filter-insert_sorted-dropped p r xs e)
  ]
]

filter-sort_rules :
    (p : DispatchRule → Bool) (rs : List DispatchRule)
    → filter p (sort_rules rs) ≡ sort_rules (filter p rs)
unfolding sort_rules
filter-sort_rules p [] = refl
filter-sort_rules p (r ∷ rs) = elim (Bool-cases (p r)) [
  | inl keep ↦ rw keep (
      filter-insert_sorted-kept p r (sort_rules rs) (sort_rules-IsSorted rs) keep
      ∙ ap (insert_sorted r) (filter-sort_rules p rs))
  | inr skip ↦
      rw skip (filter-insert_sorted-dropped p r (sort_rules rs) skip ∙ filter-sort_rules p rs)
]

matched-matches :
    (regex : Text → Option (Text → Bool)) (rule : DispatchRule) (input : DispatchInput)
    → matched rule (compiled regex rule) input ≡ matches regex rule input
unfolding matched matches compiled
matched-matches regex rule input = elim (Option-cases rule.matcher) [
  | inl e ↦ rw (compiled, e) refl
  | inr (pattern, e) ↦ elim (Option-cases (regex pattern)) [
    | inl f ↦ rw (compiled, e, f) refl
    | inr (is_match, f) ↦ rw (compiled, e, f) refl
  ]
]

filter-same :
    (p q : DispatchRule → Bool) (rs : List DispatchRule)
    → ((r : DispatchRule) → p r ≡ q r)
    → filter p rs ≡ filter q rs
filter-same p q [] same = refl
filter-same p q (r ∷ rs) same = rw (same r, filter-same p q rs same) refl

-- An event reaches the same rules in the same order in the executor, which sorts its rules and compiles
-- their matchers once, and in `select_matches`, which compiles, filters and sorts for the event. The
-- rules are in ascending order of `(order, id)`, and each of them matches the event.
pub select_matches_lem :
    (regex : Text → Option (Text → Bool)) (rules : List DispatchRule) (input : DispatchInput)
    → (filter (λ rule. matched rule (compiled regex rule) input) (sort_rules rules)
        ≡ select_matches regex rules input)
      × IsSorted (select_matches regex rules input)
      × All (λ rule. matches regex rule input ≡ true) (select_matches regex rules input)
unfolding select_matches
select_matches_lem regex rules input =
    let p = λ (rule : DispatchRule). matches regex rule input in
    let same : filter (λ rule. matched rule (compiled regex rule) input) (sort_rules rules)
        ≡ filter p (sort_rules rules) =
      filter-same _ p (sort_rules rules) (λ r. matched-matches regex r input) in
    (
      same ∙ filter-sort_rules p rules,
      sort_rules-IsSorted (filter p rules),
      rw (sym (filter-sort_rules p rules)) (
          All-mono (filter p (sort_rules rules)) (λ r k. k.1)
            (All-filter _ p (sort_rules rules) (All-trivial (sort_rules rules)))),
    )
