-- ===== src/Prelude/Lists.antt =====
-- Lists measured by native numbers, under the library's names, and predicates on lists by
-- recursion.
use Prim.Native.Nat.{ℕ, zero, suc, ◌+◌}
use mathlib.Core.Path.{◌≡◌, refl, sym, ◌∙◌, ap, subst}
use mathlib.Core.Logic.{◌⊎◌, inl, inr, ◌↔◌}
use mathlib.Core.Bool.{Bool, true, false, ◌||◌, false≢true}
use mathlib.Core.Option.{Option, none, some}
use mathlib.Core.List.{List, [], ◌∷◌}
use wall_e_campus_assistant.Prelude.Tests.{if◌then◌else◌, Bool-cases}

module _ {ℓ} {A : Type ℓ} where
  abbrev pub length : List A → ℕ
  length [] = 0
  length (x ∷ xs) = suc (length xs)

  abbrev pub take : ℕ → List A → List A
  take zero xs = []
  take (suc n) [] = []
  take (suc n) (x ∷ xs) = x ∷ take n xs

  abbrev pub drop : ℕ → List A → List A
  drop zero xs = xs
  drop (suc n) [] = []
  drop (suc n) (x ∷ xs) = drop n xs

  -- The members that pass a Boolean test.
  abbrev pub keep : (A → Bool) → List A → List A
  keep p [] = []
  keep p (x ∷ xs) = if p x then x ∷ keep p xs else keep p xs

  abbrev pub count : (A → Bool) → List A → ℕ
  count p [] = 0
  count p (x ∷ xs) = (if p x then 1 else 0) + count p xs

  abbrev pub any : (A → Bool) → List A → Bool
  any p [] = false
  any p (x ∷ xs) = p x || any p xs

  -- The first member that passes.
  abbrev pub find : (A → Bool) → List A → Option A
  find p [] = none
  find p (x ∷ xs) = if p x then some x else find p xs

module _ {ℓ κ} {A : Type ℓ} where
  abbrev pub All : (A → Type κ) → List A → Type κ
  All P [] = Unit
  All P (x ∷ xs) = P x × All P xs

infix 50 ◌∈◌
abbrev pub ◌∈◌ : {A : Type 0} → A → List A → Type 0
x ∈ [] = ⊥
x ∈ (y ∷ ys) = (x ≡ y) ⊎ (x ∈ ys)

pub ∈-keep_iff :
    {A : Type 0} (test : A → Bool) (x : A) (l : List A)
    → (x ∈ keep test l) ↔ ((x ∈ l) × (test x ≡ true))
∈-keep_iff test x [] = (λ h. absurd h, λ h. absurd h.0)
∈-keep_iff test x (y ∷ l) =
    let ih = ∈-keep_iff test x l in
    elim (Bool-cases (test y)) [
      | inl e ↦ rw e (
        λ h. elim h [ inl q ↦ (inl q, rw q e) | inr m ↦ (inr (ih.0 m).0, (ih.0 m).1) ],
        λ (m, t). elim m [ inl q ↦ inl q | inr m' ↦ inr (ih.1 (m', t)) ],
      )
      | inr e ↦ rw e (
        λ h. (inr (ih.0 h).0, (ih.0 h).1),
        λ (m, t). elim m [
          | inl q ↦ absurd (false≢true (sym e ∙ ap test (sym q) ∙ t))
          | inr m' ↦ ih.1 (m', t)
        ],
      )
    ]

pub All-∈ : {A : Type 0} (P : A → Type 0) (l : List A) → All P l → {x : A} → x ∈ l → P x
All-∈ P (y ∷ l) (h, hs) (inl e) = subst P (sym e) h
All-∈ P (y ∷ l) (h, hs) (inr m) = All-∈ P l hs m
All-∈ P [] h m = absurd m

pub All-of_∈ : {A : Type 0} (P : A → Type 0) (l : List A) → ((x : A) → x ∈ l → P x) → All P l
All-of_∈ P [] f = tt
All-of_∈ P (y ∷ l) f = (f y (inl refl), All-of_∈ P l (λ x m. f x (inr m)))
