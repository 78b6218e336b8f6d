-- ===== src/Database/Rows/Single.antt =====
-- Counts of rows, and the change of a single row of a table.
use wall_e_campus_assistant.Prelude.{
  ◌≡◌, refl, inl, inr, Bool, true, false, List, [], ◌∷◌, any, if◌then◌else◌, ◌∈◌, Bool-cases, arith,
  sym, ◌∙◌, any_iff, any-false, subst, false≢true, ◌==◌, count, ◌&&◌,
}
use wall_e_campus_assistant.Database.Rows.{update_where}
use wall_e_campus_assistant.Database.Rows.Laws.{Distinct, ∈-update_where}

-- A row that passes the test is counted.
pub count-pos :
    {A : Type 0} (test : A → Bool) (rows : List A) (x : A)
    → x ∈ rows
    → test x ≡ true
    → (count test rows == 0) ≡ false
count-pos test [] x m t = absurd m
count-pos test (r ∷ rows) x m t = elim m [
  | inl e ↦ let u = subst (λ z. test z ≡ true) e t in rw u (ground arith)
  | inr k ↦ let ih = count-pos test rows x k t in ground arith
]

-- A change of the one row that passes the test keeps the rows distinct if what it becomes is in
-- conflict with no other row.
pub Distinct-update_sole :
    {A : Type 0} (conflict : A → A → Bool)
    → ((a b : A) → conflict a b ≡ conflict b a)
    → (test : A → Bool) (change : A → A) (rows : List A) → Distinct (λ a b. test a && test b) rows
    → ((x : A)
        → x ∈ rows
        → test x ≡ true
        → (y : A) → y ∈ rows
        → test y ≡ false
        → conflict (change x) y ≡ false)
    → Distinct conflict rows
    → Distinct conflict (update_where test change rows)
unfolding update_where
Distinct-update_sole {A} conflict symmetric test change [] sole free d = tt
Distinct-update_sole {A} conflict symmetric test change (r ∷ rows) (lone, sole) free (n, d) =
    let after = λ (x : A). if test x then change x else x in
    let rest =
      Distinct-update_sole conflict symmetric test change rows sole
        (λ x m t y k u. free x (inr m) t y (inr k) u) d in
    let apart : (y : A) → y ∈ rows → conflict (after r) (after y) ≡ false = λ y k.
      elim (Bool-cases (test r)) [
        | inl t ↦
            let u : test y ≡ false =
              let both = any-false (λ (b : A). test r && test b) rows lone k in ground arith in
            rw (t, u) (free r (inl refl) t y (inr k) u)
        | inr t ↦ elim (Bool-cases (test y)) [
          | inl u ↦ rw (t, u) (symmetric r (change y) ∙ free y (inr k) u r (inl refl) t)
          | inr u ↦ rw (t, u) (any-false (conflict r) rows n k)
        ]
      ] in
    (
      elim (Bool-cases (any (conflict (after r)) (update_where test change rows))) [
        | inl e ↦
            let (x, m, t) = (any_iff (conflict (after r)) _).0 e in
            let (y, k, q) = ∈-update_where test change rows m in
            absurd (false≢true (sym (apart y k) ∙ subst (λ z. conflict (after r) z ≡ true) q t))
        | inr e ↦ e
      ],
      rest,
    )

pub any_from :
    {A : Type 0} (test : A → Bool) (rows : List A)
    → ((x : A) → x ∈ rows → test x ≡ false)
    → any test rows ≡ false
any_from test rows h = elim (Bool-cases (any test rows)) [
  | inl e ↦ let (x, m, t) = (any_iff test rows).0 e in absurd (false≢true (sym (h x m) ∙ t))
  | inr e ↦ e
]

pub Distinct-weaken :
    {A : Type 0} (conflict other : A → A → Bool)
    → ((a b : A) → other a b ≡ true → conflict a b ≡ true)
    → (rows : List A) → Distinct conflict rows
    → Distinct other rows
Distinct-weaken conflict other sub [] d = tt
Distinct-weaken conflict other sub (r ∷ rows) (n, d) = (
  any_from (other r) rows (λ y m. elim (Bool-cases (other r y)) [
    | inl t ↦ absurd (false≢true (sym (any-false (conflict r) rows n m) ∙ sub r y t))
    | inr t ↦ t
  ]),
  Distinct-weaken conflict other sub rows d,
)
