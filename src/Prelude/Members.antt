-- ===== src/Prelude/Members.antt =====
-- Membership in mapped, joined and tested lists.
use Prim.Native.Nat.{ℕ}
use mathlib.Core.Path.{◌≡◌, refl, sym, ◌∙◌, ap, subst}
use mathlib.Core.Logic.{◌⊎◌, inl, inr, ◌↔◌}
use mathlib.Core.Bool.{Bool, true, false, false≢true}
use mathlib.Core.Option.{none, some}
use mathlib.Core.List.{List, [], ◌∷◌, ◌++◌, map}
use native.Mathlib.Omega.{arith}
use wall_e_campus_assistant.Prelude.Tests.{Bool-cases, ◌==◌}
use wall_e_campus_assistant.Prelude.Lists.{◌∈◌, any, find}

pub ∈-append : {A : Type 0} (x : A) (xs ys : List A) → (x ∈ (xs ++ ys)) ↔ ((x ∈ xs) ⊎ (x ∈ ys))
∈-append x [] ys = (λ m. inr m, λ m. elim m [ inl e ↦ absurd e | inr k ↦ k ])
∈-append x (y ∷ xs) ys =
    let ih = ∈-append x xs ys in
    (
      λ m. elim m [
        | inl e ↦ inl (inl e)
        | inr k ↦ elim (ih.0 k) [ inl a ↦ inl (inr a) | inr b ↦ inr b ]
      ],
      λ m. elim m [
        | inl k ↦ elim k [ inl e ↦ inl e | inr a ↦ inr (ih.1 (inl a)) ]
        | inr b ↦ inr (ih.1 (inr b))
      ],
    )

pub ∈-map_iff :
    {A B : Type 0} (f : A → B) (y : B) (xs : List A)
    → (y ∈ map f xs) ↔ ((x : A) × (x ∈ xs) × (y ≡ f x))
∈-map_iff f y [] = (λ m. absurd m, λ (x, m, e). absurd m)
∈-map_iff f y (x ∷ xs) =
    let ih = ∈-map_iff f y xs in
    (
      λ m. elim m [
        | inl e ↦ (x, inl refl, e)
        | inr k ↦ let (x', m', e') = ih.0 k in (x', inr m', e')
      ],
      λ (x', m, e). elim m [ inl q ↦ inl (e ∙ ap f q) | inr k ↦ inr (ih.1 (x', k, e)) ],
    )

pub any_iff :
    {A : Type 0} (test : A → Bool) (xs : List A)
    → (any test xs ≡ true) ↔ ((x : A) × (x ∈ xs) × (test x ≡ true))
any_iff test [] = (λ h. absurd (false≢true h), λ (x, m, t). absurd m)
any_iff test (x ∷ xs) =
    let ih = any_iff test xs in
    elim (Bool-cases (test x)) [
      | inl e ↦ rw e (λ _. (x, inl refl, e), λ _. refl)
      | inr e ↦ rw e (
        λ h. let (x', m, t) = ih.0 h in (x', inr m, t),
        λ (x', m, t). elim m [
          | inl q ↦ absurd (false≢true (sym e ∙ ap test (sym q) ∙ t))
          | inr k ↦ ih.1 (x', k, t)
        ],
      )
    ]

pub any-false :
    {A : Type 0} (test : A → Bool) (xs : List A) {x : A}
    → any test xs ≡ false
    → x ∈ xs
    → test x ≡ false
any-false test xs {x} h m = elim (Bool-cases (test x)) [
  | inl e ↦ absurd (false≢true (sym h ∙ (any_iff test xs).1 (x, m, e)))
  | inr e ↦ e
]

-- The set of ids `new Set(ids).has(x)`.
pub any-==_iff : (x : ℕ) (xs : List ℕ) → (any (λ y. y == x) xs ≡ true) ↔ (x ∈ xs)
any-==_iff x [] = (λ h. absurd (false≢true h), λ m. absurd m)
any-==_iff x (y ∷ xs) = ground (arith, any-==_iff x xs)

pub find_sound :
    {A : Type 0} (test : A → Bool) (xs : List A) {x : A}
    → find test xs ≡ some x
    → (x ∈ xs) × (test x ≡ true)
find_sound test (y ∷ xs) {x} h = elim (Bool-cases (test y)) [
  | inl e ↦ let q : y ≡ x = ground arith in (inl (sym q), subst (λ z. test z ≡ true) q e)
  | inr e ↦ let (m, t) = find_sound test xs (rw e at h) in (inr m, t)
]
find_sound test [] h = absurd (ground arith)

pub find-none :
    {A : Type 0} (test : A → Bool) (xs : List A) {x : A}
    → find test xs ≡ none
    → x ∈ xs
    → test x ≡ false
find-none test (y ∷ xs) {x} h m = elim (Bool-cases (test y)) [
  | inl e ↦ absurd (ground arith)
  | inr e ↦ elim m [
    | inl q ↦ subst (λ z. test z ≡ false) (sym q) e
    | inr k ↦ find-none test xs (rw e at h) k
  ]
]
find-none test [] h m = absurd m
