-- ===== src/Database/Rows/Laws.antt =====
-- Which rows a table has after a write.
use wall_e_campus_assistant.Prelude.{
  ◌≡◌, ◌⊎◌, refl, inl, inr, Bool, true, false, some, none, List, [], ◌∷◌, ◌++◌, any, if◌then◌else◌,
  ◌∈◌, Bool-cases, arith, sym, ap, ◌∙◌, ∈-append, any_iff, any-false, subst, false≢true, ◌||◌,
  ∈-keep_iff, keep,
}
use wall_e_campus_assistant.Database.Rows.{update_where, insert_new, or_else, insert_all}

-- A row after an update is a row before it, changed if it passed the test.
pub ∈-update_where :
    {A : Type 0} (test : A → Bool) (change : A → A) (rows : List A) {x : A}
    → x ∈ update_where test change rows
    → (y : A) × (y ∈ rows) × (x ≡ (if test y then change y else y))
unfolding update_where
∈-update_where test change [] m = absurd m
∈-update_where test change (r ∷ rows) m = elim m [
  | inl e ↦ (r, inl refl, e)
  | inr k ↦ let (y, m', e) = ∈-update_where test change rows k in (y, inr m', e)
]

pub update_where-∈ :
    {A : Type 0} (test : A → Bool) (change : A → A) (rows : List A) (y : A)
    → y ∈ rows
    → (if test y then change y else y) ∈ update_where test change rows
unfolding update_where
update_where-∈ test change [] y m = absurd m
update_where-∈ test change (r ∷ rows) y m = elim m [
  | inl e ↦ inl (ap (λ z. if test z then change z else z) e)
  | inr k ↦ inr (update_where-∈ test change rows y k)
]

pub insert_new-eq-some :
    {A : Type 0} (conflict : A → A → Bool) (r : A) (rows : List A) {rows' : List A}
    → insert_new conflict r rows ≡ some rows'
    → (any (conflict r) rows ≡ false) × (rows' ≡ rows ++ r ∷ [])
unfolding insert_new
insert_new-eq-some conflict r rows h = ground arith

pub insert_new-eq-none :
    {A : Type 0} (conflict : A → A → Bool) (r : A) (rows : List A)
    → insert_new conflict r rows ≡ none
    → any (conflict r) rows ≡ true
unfolding insert_new
insert_new-eq-none conflict r rows h = ground arith

any-snoc :
    {A : Type 0} (test : A → Bool) (rows : List A) (r : A)
    → any test (rows ++ r ∷ []) ≡ (any test rows || test r)
any-snoc test [] r = ground arith
any-snoc test (x ∷ rows) r = ground (arith, any-snoc test rows r)

module _ {A : Type 0} (conflict : A → A → Bool) where
  -- No two rows are in conflict.
  abbrev pub Distinct : List A → Type 0
  Distinct [] = Unit
  Distinct (r ∷ rows) = (any (conflict r) rows ≡ false) × Distinct rows

  module _ (symmetric : (a b : A) → conflict a b ≡ conflict b a) where
    pub Distinct-snoc :
        (rows : List A) (r : A)
        → any (conflict r) rows ≡ false
        → Distinct rows
        → Distinct (rows ++ r ∷ [])
    Distinct-snoc [] r h d = (refl, tt)
    Distinct-snoc (x ∷ rows) r h (n, d) = (
      ground (arith, any-snoc (conflict x) rows r, symmetric x r),
      Distinct-snoc rows r (ground arith) d,
    )

    pub Distinct-insert_new :
        (r : A) (rows : List A) {rows' : List A}
        → insert_new conflict r rows ≡ some rows'
        → Distinct rows
        → Distinct rows'
    Distinct-insert_new r rows h d =
        let (n, e) = insert_new-eq-some conflict r rows h in
        subst Distinct (sym e) (Distinct-snoc rows r n d)

  abbrev grown : A → List A → List A
  grown r rows = (or_else rows (insert_new conflict r rows)).0

  -- One row of createMany: it is in conflict with a row that is there, or it is added.
  grown-cases :
      (r : A) (rows : List A)
      → ((grown r rows ≡ rows) × (any (conflict r) rows ≡ true))
        ⊎ ((grown r rows ≡ rows ++ r ∷ []) × (any (conflict r) rows ≡ false))
  unfolding insert_new
  grown-cases r rows = ground arith

  grown-∈ : (r : A) (rows : List A) (x : A) → x ∈ rows → x ∈ grown r rows
  grown-∈ r rows x m = elim (grown-cases r rows) [
    | inl (e, _) ↦ subst (λ l. x ∈ l) (sym e) m
    | inr (e, _) ↦ subst (λ l. x ∈ l) (sym e) ((∈-append x rows (r ∷ [])).1 (inl m))
  ]

  ∈-grown :
      (r : A) (rows : List A) (x : A)
      → x ∈ grown r rows
      → (x ∈ rows) ⊎ ((x ≡ r) × (any (conflict r) rows ≡ false))
  ∈-grown r rows x m = elim (grown-cases r rows) [
    | inl (e, _) ↦ inl (subst (λ l. x ∈ l) e m)
    | inr (e, n) ↦ elim ((∈-append x rows (r ∷ [])).0 (subst (λ l. x ∈ l) e m)) [
      | inl k ↦ inl k
      | inr k ↦ elim k [ inl q ↦ inr (q, n) | inr b ↦ absurd b ]
    ]
  ]

  any_mono :
      (test : A → Bool) (xs ys : List A)
      → ((x : A) → x ∈ xs → x ∈ ys)
      → any test ys ≡ false
      → any test xs ≡ false
  any_mono test xs ys sub h = elim (Bool-cases (any test xs)) [
    | inl e ↦
        let (x, m, t) = (any_iff test xs).0 e in
        absurd (false≢true (sym (any-false test ys h (sub x m)) ∙ t))
    | inr e ↦ e
  ]

  -- What createMany leaves is what was there and rows that it was given, each of these without a
  -- conflict with what was there.
  pub ∈-insert_all :
      (new rows : List A) (x : A)
      → x ∈ (insert_all conflict new rows).0
      → (x ∈ rows) ⊎ ((x ∈ new) × (any (conflict x) rows ≡ false))
  unfolding insert_all
  ∈-insert_all [] rows x m = inl m
  ∈-insert_all (r ∷ new) rows x m = elim (∈-insert_all new (grown r rows) x m) [
    | inl k ↦ elim (∈-grown r rows x k) [
      | inl old ↦ inl old
      | inr (e, n) ↦ inr (inl e, subst (λ z. any (conflict z) rows ≡ false) (sym e) n)
    ]
    | inr (k, n) ↦ inr (inr k, any_mono (conflict x) rows (grown r rows) (grown-∈ r rows) n)
  ]

  pub insert_all-∈ : (new rows : List A) (x : A) → x ∈ rows → x ∈ (insert_all conflict new rows).0
  unfolding insert_all
  insert_all-∈ [] rows x m = m
  insert_all-∈ (r ∷ new) rows x m = insert_all-∈ new (grown r rows) x (grown-∈ r rows x m)

  grown-covers :
      ((a : A) → conflict a a ≡ true)
      → (r : A) (rows : List A) → any (conflict r) (grown r rows) ≡ true
  grown-covers self r rows = elim (grown-cases r rows) [
    | inl (e, h) ↦ subst (λ l. any (conflict r) l ≡ true) (sym e) h
    | inr (e, n) ↦
        subst (λ l. any (conflict r) l ≡ true) (sym e)
          ((any_iff (conflict r) (rows ++ r ∷ [])).1
            (r, (∈-append r rows (r ∷ [])).1 (inr (inl refl)), self r))
  ]

  -- Each row that it was given is in conflict with a row that is there afterwards, if only with
  -- itself.
  pub insert_all-covers :
      ((a : A) → conflict a a ≡ true)
      → (new rows : List A) (x : A) → x ∈ new
      → any (conflict x) (insert_all conflict new rows).0 ≡ true
  unfolding insert_all
  insert_all-covers self [] rows x m = absurd m
  insert_all-covers self (r ∷ new) rows x m = elim m [
    | inl e ↦
        let (y, k, t) = (any_iff (conflict x) (grown r rows)).0 (
          subst (λ z. any (conflict z) (grown r rows) ≡ true) (sym e) (grown-covers self r rows)) in
        (any_iff (conflict x) _).1 (y, insert_all-∈ new (grown r rows) y k, t)
    | inr k ↦ insert_all-covers self new (grown r rows) x k
  ]

  -- A change that makes no new conflicts keeps the rows distinct.
  pub Distinct-update_apart :
      (test : A → Bool) (change : A → A)
      → ((a b : A)
          → conflict (if test a then change a else a) (if test b then change b else b) ≡ true
          → conflict a b ≡ true)
      → (rows : List A) → Distinct rows
      → Distinct (update_where test change rows)
  unfolding update_where
  Distinct-update_apart test change apart [] d = tt
  Distinct-update_apart test change apart (r ∷ rows) (n, d) =
      let r' = if test r then change r else r in
      (
        elim (Bool-cases (any (conflict r') (update_where test change rows))) [
          | inl e ↦
              let (x, m, t) = (any_iff (conflict r') _).0 e in
              let (y, k, q) = ∈-update_where test change rows m in
              absurd (
                false≢true (
                  sym (any-false (conflict r) rows n k)
                  ∙ apart r y (subst (λ z. conflict r' z ≡ true) q t)))
          | inr e ↦ e
        ],
        Distinct-update_apart test change apart rows d,
      )

  pub Distinct-keep : (test : A → Bool) (rows : List A) → Distinct rows → Distinct (keep test rows)
  Distinct-keep test [] d = tt
  Distinct-keep test (r ∷ rows) (n, d) =
      let rest = Distinct-keep test rows d in
      let apart =
        any_mono (conflict r) (keep test rows) rows (λ x m. ((∈-keep_iff test x rows).0 m).0) n in
      elim (Bool-cases (test r)) [ inl e ↦ rw e (apart, rest) | inr e ↦ rw e rest ]

  module _ (symmetric : (a b : A) → conflict a b ≡ conflict b a) where
    pub Distinct-insert_all :
        (new rows : List A) → Distinct rows → Distinct (insert_all conflict new rows).0
    unfolding insert_all
    Distinct-insert_all [] rows d = d
    Distinct-insert_all (r ∷ new) rows d =
        Distinct-insert_all new (grown r rows) (elim (grown-cases r rows) [
          | inl (e, _) ↦ subst Distinct (sym e) d
          | inr (e, n) ↦ subst Distinct (sym e) (Distinct-snoc symmetric rows r n d)
        ])

    -- Of two rows in conflict there is only one.
    pub Distinct-unique :
        (rows : List A) (x y : A)
        → Distinct rows
        → x ∈ rows
        → y ∈ rows
        → conflict x y ≡ true
        → x ≡ y
    Distinct-unique [] x y d m k h = absurd m
    Distinct-unique (r ∷ rows) x y (n, d) m k h = elim m [
      | inl e ↦ elim k [
        | inl q ↦ e ∙ sym q
        | inr k' ↦ absurd (
            false≢true
              (sym (any-false (conflict r) rows n k') ∙ subst (λ z. conflict z y ≡ true) e h))
      ]
      | inr m' ↦ elim k [
        | inl q ↦ absurd (
            false≢true (
              sym (any-false (conflict r) rows n m')
              ∙ symmetric r x
              ∙ subst (λ z. conflict x z ≡ true) q h))
        | inr k' ↦ Distinct-unique rows x y d m' k' h
      ]
    ]

    -- A change that keeps the conflicts keeps the rows distinct.
    pub Distinct-update_where :
        (test : A → Bool) (change : A → A)
        → ((a b : A) → conflict (change a) b ≡ conflict a b)
        → (rows : List A) → Distinct rows
        → Distinct (update_where test change rows)
    unfolding update_where
    Distinct-update_where test change same [] d = tt
    Distinct-update_where test change same (r ∷ rows) (n, d) =
        let changed = λ (a : A). if test a then change a else a in
        let alike : (a b : A) → conflict (changed a) b ≡ conflict a b =
          λ a b. elim (Bool-cases (test a)) [ inl e ↦ rw e (same a b) | inr e ↦ rw e ] in
        (
          elim (Bool-cases (any (conflict (changed r)) (update_where test change rows))) [
            | inl e ↦
                let (x, m, t) = (any_iff (conflict (changed r)) _).0 e in
                let (y, m', q) = ∈-update_where test change rows m in
                absurd (
                  false≢true (
                    sym (any-false (conflict r) rows n m')
                    ∙ sym (alike r y)
                    ∙ symmetric (changed r) y
                    ∙ sym (alike y (changed r))
                    ∙ symmetric (changed y) (changed r)
                    ∙ subst (λ z. conflict (changed r) z ≡ true) q t))
            | inr e ↦ e
          ],
          Distinct-update_where test change same rows d,
        )
