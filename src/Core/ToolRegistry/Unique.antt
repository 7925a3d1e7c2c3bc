-- ===== src/Core/ToolRegistry/Unique.antt =====
-- Names stay unique, and what `get` finds behind a removal and an update.
use visp.Base.{
  ℕ, zero, suc, ◌≡◌, refl, sym, ◌∙◌, inl, inr, true, false, none, some, List, [], ◌∷◌, ◌++◌, Text,
  if◌then◌else◌, any, find, position, arith, Bool-cases, Option-cases, All, All-mono, All-append,
  some_inj,
}
use visp.Core.ToolRegistry.{Tool, name_eq, remove_at, set_at, named}
use visp.Core.ToolRegistry.Names.{name_eq_left, name_eq_right, name_eq_sym, IsUnique}

module _ {R : Type 0} where
  All-remove_at :
      (P : Tool R → Type 0) (i : ℕ) (ts : List (Tool R)) → All P ts → All P (remove_at i ts)
  All-remove_at P i [] h = tt
  All-remove_at P zero (x ∷ xs) h = h.1
  All-remove_at P (suc i) (x ∷ xs) h = (h.0, All-remove_at P i xs h.1)

  pub remove_at-IsUnique : (i : ℕ) (ts : List (Tool R)) → IsUnique ts → IsUnique (remove_at i ts)
  remove_at-IsUnique i [] h = tt
  remove_at-IsUnique zero (x ∷ xs) h = h.1
  remove_at-IsUnique (suc i) (x ∷ xs) h = (All-remove_at _ i xs h.0, remove_at-IsUnique i xs h.1)

  All-different :
      (name : Text) (ts : List (Tool R))
      → any (named name) ts ≡ false
      → All (λ (u : Tool R). name_eq u.name name ≡ false) ts
  All-different name [] h = tt
  All-different name (x ∷ xs) h = (ground arith, All-different name xs (ground arith))

  pub added-IsUnique :
      (ts : List (Tool R)) (tool : Tool R)
      → any (named tool.name) ts ≡ false
      → IsUnique ts
      → IsUnique (ts ++ tool ∷ [])
  added-IsUnique [] tool h u = (tt, tt)
  added-IsUnique (x ∷ xs) tool h u =
      let d = All-different tool.name (x ∷ xs) h in
      (
        All-append _ xs (tool ∷ []) u.0 (name_eq_sym tool.name x.name ∙ d.0, tt),
        added-IsUnique xs tool (ground arith) u.1,
      )

  -- The tool at the place of a name, replaced by one of the same name.
  pub set_at-All :
      (name : Text) (tool : Tool R) (other : Text) (ts : List (Tool R)) (i : ℕ)
      → name_eq tool.name name ≡ true
      → position (named name) ts ≡ some i
      → All (λ (u : Tool R). name_eq u.name other ≡ false) ts
      → All (λ (u : Tool R). name_eq u.name other ≡ false) (set_at i tool ts)
  set_at-All name tool other [] i same e h = tt
  set_at-All name tool other (x ∷ xs) i same e h = elim (Bool-cases (named name x)) [
    | inl here ↦
        let at : some 0 ≡ some i = rw here at e in
        let z : 0 ≡ i = some_inj at in
        rw (sym z) (
          name_eq_left tool.name name other same ∙ sym (name_eq_left x.name name other here) ∙ h.0,
          h.1,
        )
    | inr there ↦ elim (Option-cases (position (named name) xs)) [
      | inl nothing ↦ absurd (let e' = rw (there, nothing) at e in cc)
      | inr (j, found) ↦
          let e' : some (suc j) ≡ some i = rw (there, found) at e in
          rw (sym (some_inj e')) (h.0, set_at-All name tool other xs j same found h.1)
    ]
  ]

  pub set_at-IsUnique :
      (name : Text) (tool : Tool R) (ts : List (Tool R)) (i : ℕ)
      → name_eq tool.name name ≡ true
      → position (named name) ts ≡ some i
      → IsUnique ts
      → IsUnique (set_at i tool ts)
  set_at-IsUnique name tool [] i same e u = tt
  set_at-IsUnique name tool (x ∷ xs) i same e u = elim (Bool-cases (named name x)) [
    | inl here ↦
        let at : some 0 ≡ some i = rw here at e in
        rw (sym (some_inj at)) (
          All-mono xs
              (λ (y : Tool R) k.
                name_eq_right tool.name name y.name same
                ∙ sym (name_eq_right x.name name y.name here)
                ∙ k)
              u.0,
          u.1,
        )
    | inr there ↦ elim (Option-cases (position (named name) xs)) [
      | inl nothing ↦ absurd (let e' = rw (there, nothing) at e in cc)
      | inr (j, found) ↦
          let e' : some (suc j) ≡ some i = rw (there, found) at e in
          rw (sym (some_inj e')) (
            set_at-All name tool x.name xs j same found u.0,
            set_at-IsUnique name tool xs j same found u.1,
          )
    ]
  ]

  pub none-different :
      (name : Text) (ts : List (Tool R))
      → All (λ (u : Tool R). name_eq u.name name ≡ false) ts
      → find (named name) ts ≡ none
  none-different name [] h = refl
  none-different name (x ∷ xs) h = rw h.0 (none-different name xs h.1)

  pub find-removed :
      (name other : Text) (ts : List (Tool R)) (i : ℕ)
      → position (named name) ts ≡ some i
      → IsUnique ts
      → find (named other) (remove_at i ts)
        ≡ (if name_eq name other then none else find (named other) ts)
  find-removed name other [] i e u = absurd (cc)
  find-removed name other (x ∷ xs) i e u = elim (Bool-cases (named name x)) [
    | inl here ↦
        let at : some 0 ≡ some i = rw here at e in
        elim (Bool-cases (name_eq name other)) [
          | inl same ↦
              rw (sym (some_inj at), same)
                (none-different other xs (
                  All-mono xs
                    (λ (y : Tool R) k.
                      sym (
                        name_eq_right x.name other y.name
                          (name_eq_left x.name name other here ∙ same))
                      ∙ k)
                    u.0))
          | inr differ ↦
              rw (sym (some_inj at), differ, name_eq_left x.name name other here, differ) refl
        ]
    | inr there ↦ elim (Option-cases (position (named name) xs)) [
      | inl nothing ↦ absurd (let e' = rw (there, nothing) at e in cc)
      | inr (j, found) ↦
          let e' : some (suc j) ≡ some i = rw (there, found) at e in
          let rest = find-removed name other xs j found u.1 in
          elim (Bool-cases (name_eq x.name other)) [
            | inl this ↦
                let differ : name_eq name other ≡ false =
                  sym (name_eq_right x.name other name this) ∙ name_eq_sym name x.name ∙ there in
                rw (sym (some_inj e'), this, differ) refl
            | inr not_this ↦ rw (sym (some_inj e'), not_this) rest
          ]
    ]
  ]

  pub find-replaced :
      (name other : Text) (tool : Tool R) (ts : List (Tool R)) (i : ℕ)
      → name_eq tool.name name ≡ true
      → position (named name) ts ≡ some i
      → find (named other) (set_at i tool ts)
        ≡ (if name_eq name other then some tool else find (named other) ts)
  find-replaced name other tool [] i same e = absurd (cc)
  find-replaced name other tool (x ∷ xs) i same e = elim (Bool-cases (named name x)) [
    | inl here ↦
        let at : some 0 ≡ some i = rw here at e in
        elim (Bool-cases (name_eq name other)) [
          | inl hit ↦ rw (sym (some_inj at), name_eq_left tool.name name other same, hit) refl
          | inr miss ↦
              rw
                (
                  sym (some_inj at),
                  name_eq_left tool.name name other same,
                  name_eq_left x.name name other here,
                  miss,
                )
                refl
        ]
    | inr there ↦ elim (Option-cases (position (named name) xs)) [
      | inl nothing ↦ absurd (let e' = rw (there, nothing) at e in cc)
      | inr (j, found) ↦
          let e' : some (suc j) ≡ some i = rw (there, found) at e in
          let rest = find-replaced name other tool xs j same found in
          elim (Bool-cases (name_eq x.name other)) [
            | inl this ↦
                let differ : name_eq name other ≡ false =
                  sym (name_eq_right x.name other name this) ∙ name_eq_sym name x.name ∙ there in
                rw (sym (some_inj e'), this, differ) refl
            | inr not_this ↦ rw (sym (some_inj e'), not_this) rest
          ]
    ]
  ]
