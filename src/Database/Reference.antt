-- ===== src/Database/Reference.antt =====
-- A client over lists that has all the behaviour that the model relies on.
use wall_e_campus_assistant.Prelude.{
  ℕ, zero, suc, ◌≤◌, ◌<◌, ◌≡◌, ◌⊎◌, ◌↔◌, refl, inl, inr, sym, ◌∙◌, subst, Bool, true, Option, some,
  none, List, [], ◌∷◌, keep, find, count, take, length, leb, if◌then◌else◌, ◌∈◌, ∈-keep_iff,
  Bool-cases, arith,
}
use wall_e_campus_assistant.Text.{to_lower_case, text_eq, text_ltb}
use wall_e_campus_assistant.Cohort.Laws.{text_eq_iff}
use wall_e_campus_assistant.Database.{Prisma}
use wall_e_campus_assistant.Database.Rows.Laws.{Distinct-keep}
use wall_e_campus_assistant.Database.Rows.{update_where, insert_new, insert_all, remove_where}

module _ {A : Type 0} (key : A → ℕ) where
  insert_sorted : A → List A → List A
  insert_sorted x [] = x ∷ []
  insert_sorted x (y ∷ l) = if leb (key x) (key y) then x ∷ y ∷ l else y ∷ insert_sorted x l

  unfoldable pub sort_by : List A → List A
  unfolding insert_sorted
  sort_by [] = []
  sort_by (x ∷ l) = insert_sorted x (sort_by l)

  ∈-insert_sorted : (x z : A) (l : List A) → (z ∈ insert_sorted x l) ↔ ((z ≡ x) ⊎ (z ∈ l))
  unfolding insert_sorted
  ∈-insert_sorted x z [] = (λ m. m, λ m. m)
  ∈-insert_sorted x z (y ∷ l) =
      let (to, from) = ∈-insert_sorted x z l in
      elim (Bool-cases (leb (key x) (key y))) [
        | inl e ↦ rw e (λ m. m, λ m. m)
        | inr e ↦ rw e (
          λ m. elim m [
            | inl q ↦ inr (inl q)
            | inr k ↦ elim (to k) [ inl q ↦ inl q | inr k' ↦ inr (inr k') ]
          ],
          λ m. elim m [
            | inl q ↦ inr (from (inl q))
            | inr k ↦ elim k [ inl q ↦ inl q | inr k' ↦ inr (from (inr k')) ]
          ],
        )
      ]

  pub ∈-sort_by : (z : A) (l : List A) → (z ∈ sort_by l) ↔ (z ∈ l)
  unfolding sort_by
  ∈-sort_by z [] = (λ m. m, λ m. m)
  ∈-sort_by z (x ∷ l) =
      let (to, from) = ∈-sort_by z l in
      let (to', from') = ∈-insert_sorted x z (sort_by l) in
      (
        λ m. elim (to' m) [ inl q ↦ inl q | inr k ↦ inr (to k) ],
        λ m. elim m [ inl q ↦ from' (inl q) | inr k ↦ from' (inr (from k)) ],
      )

  -- The later of two rows, where one may be missing.
  later : A → Option A → A
  later x none = x
  later x (some y) = if leb (key y) (key x) then x else y

  unfoldable pub latest : List A → Option A
  unfolding later
  latest [] = none
  latest (x ∷ l) = some (later x (latest l))

  pub latest-eq-none : (l : List A) → latest l ≡ none → (x : A) → x ∈ l → ⊥
  unfolding latest
  latest-eq-none [] h x m = m
  latest-eq-none (y ∷ l) h x m = cc

  latest-eq-some :
      (l : List A) (r : A) → latest l ≡ some r → (r ∈ l) × ((x : A) → x ∈ l → key x ≤ key r)
  unfolding latest
  latest-eq-some [] r h = cc
  latest-eq-some (y ∷ l) r h = go (latest-eq-some l) (latest l) refl (ground arith)
    where
      go :
          ((z : A) → latest l ≡ some z → (z ∈ l) × ((x : A) → x ∈ l → key x ≤ key z))
          → (o : Option A) → latest l ≡ o
          → later y o ≡ r
          → (r ∈ y ∷ l) × ((x : A) → x ∈ y ∷ l → key x ≤ key r)
      go rec none e q = (
        inl (sym q),
        λ x m. elim m [
          | inl p ↦ rw (p ∙ q) (omega arith)
          | inr k ↦ absurd (latest-eq-none l e x k)
        ],
      )
      go rec (some z) e q =
          let (here, top) = rec z e in
          elim (Bool-cases (leb (key z) (key y))) [
            | inl t ↦
                let same : y ≡ r = ground arith in
                (
                  inl (sym same),
                  λ x m. elim m [
                    | inl p ↦ rw (p ∙ same) (omega arith)
                    | inr k ↦ let below = top x k in rw (← same) (ground arith)
                  ],
                )
            | inr t ↦
                let same : z ≡ r = ground arith in
                (
                  inr (subst (λ w. w ∈ l) same here),
                  λ x m. elim m [
                    | inl p ↦ rw (p, ← same) (ground arith)
                    | inr k ↦ rw (← same) (top x k)
                  ],
                )
          ]

pub ∈-take : {A : Type 0} (n : ℕ) (l : List A) (x : A) → x ∈ take n l → x ∈ l
∈-take zero l x m = absurd m
∈-take (suc n) [] x m = m
∈-take (suc n) (y ∷ l) x m = elim m [ inl e ↦ inl e | inr k ↦ inr (∈-take n l x k) ]

pub length-take-le : {A : Type 0} (n : ℕ) (l : List A) → length (take n l) ≤ n
length-take-le zero l = omega arith
length-take-le (suc n) [] = omega arith
length-take-le (suc n) (y ∷ l) = omega (arith, length-take-le n l)

pub take-∈ :
    {A : Type 0} (n : ℕ) (l : List A) (x : A) → length (take n l) < n → x ∈ l → x ∈ take n l
take-∈ zero l x h m = absurd (omega arith)
take-∈ (suc n) [] x h m = m
take-∈ (suc n) (y ∷ l) x h m = elim m [ inl e ↦ inl e | inr k ↦ inr (take-∈ n l x (omega arith) k) ]

pub latest_kept :
    {A : Type 0} (test : A → Bool) (key : A → ℕ) (rows : List A) (r : A)
    → latest key (keep test rows) ≡ some r
    → (r ∈ rows) × (test r ≡ true) × ((x : A) → x ∈ rows → test x ≡ true → key x ≤ key r)
latest_kept test key rows r h =
    let (m, top) = latest-eq-some key (keep test rows) r h in
    let (m', t) = (∈-keep_iff test r rows).0 m in
    (m', t, λ x k u. top x ((∈-keep_iff test x rows).1 (k, u)))

pub ∈-sorted_iff :
    {A : Type 0} (key : A → ℕ) (test : A → Bool) (rows : List A) (x : A)
    → (x ∈ sort_by key (keep test rows)) ↔ ((x ∈ rows) × (test x ≡ true))
∈-sorted_iff key test rows x =
    let (to, from) = ∈-sort_by key x (keep test rows) in
    let (to', from') = ∈-keep_iff test x rows in (λ m. to' (to m), λ m. from (from' m))

abbrev pub reference : Prisma
reference = record {
  find_unique = λ A. find;
  find_unique_lem = λ A test rows. refl;
  find_latest = λ A test key rows. latest key (keep test rows);
  find_latest_some = λ A. latest_kept;
  find_latest_none = λ A test key rows h x m t.
      latest-eq-none key (keep test rows) h x ((∈-keep_iff test x rows).1 (m, t));
  find_many = λ A test key limit rows. take limit (sort_by key (keep test rows));
  find_many_sound = λ A test key limit rows x m.
      (∈-keep_iff test x rows).0 ((∈-sort_by key x (keep test rows)).0 (∈-take limit _ x m));
  find_many_take = λ A test key limit rows. length-take-le limit _;
  find_many_complete = λ A test key limit rows x h m t.
      take-∈ limit _ x h ((∈-sort_by key x (keep test rows)).1 ((∈-keep_iff test x rows).1 (m, t)));
  find_all = λ A. keep;
  find_all_iff = λ A test rows x. ∈-keep_iff test x rows;
  find_all_once = λ A conflict test. Distinct-keep conflict test;
  find_all_by = λ A key test rows. sort_by key (keep test rows);
  find_all_by_iff = λ A key. ∈-sorted_iff key;
  count_rows = λ A. count;
  count_rows_lem = λ A test rows. refl;
  update_many = λ A test change rows. (update_where test change rows, count test rows);
  update_many_lem = λ A test change rows. refl;
  create = λ A. insert_new;
  create_lem = λ A conflict r rows. refl;
  create_many = λ A. insert_all;
  create_many_lem = λ A conflict new rows. refl;
  delete_many = λ A test rows. (remove_where test rows, count test rows);
  delete_many_lem = λ A test rows. refl;
  text_less = text_ltb;
  equals_insensitive = λ a b. text_eq (to_lower_case a) (to_lower_case b);
  equals_insensitive_iff = λ a b. text_eq_iff (to_lower_case a) (to_lower_case b);
}
