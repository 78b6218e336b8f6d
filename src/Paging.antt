-- ===== src/Paging.antt =====
-- backend/src/utils/pagination.ts: the part of a list that a request asks for, and what it is told of
-- the whole.
use native.Mathlib.Nat.{le-div_iff_mul-le, suc-mul, zero-add, suc-add}
use wall_e_campus_assistant.Prelude.{
  Option, none, some, ℕ, zero, suc, ◌+◌, ◌-◌, ◌*◌, ◌/◌, ◌≤◌, ◌<◌, ◌≡◌, ◌↔◌, refl, Bool, List, [],
  ◌∷◌, ◌++◌, take, drop, length, ltb, if◌then◌else◌, sym, ap, ◌∙◌, arith, Bool-cases, inl, inr,
}

-- paginationSchema has seen to it that both are at least one.
pub record PaginationQuery : Type 0 where
  pub page : ℕ
  pub limit : ℕ

pub record SkipTake : Type 0 where
  pub skip : ℕ
  pub take_ : ℕ

pub record Paginated (A : Type 0) : Type 0 where
  pub data_ : List A
  pub page : ℕ
  pub limit : ℕ
  pub total : ℕ
  pub total_pages : ℕ
  pub has_next : Bool
  pub has_prev : Bool

abbrev pub to_skip_take : PaginationQuery → SkipTake
to_skip_take query = record { skip = (query.page - 1) * query.limit; take_ = query.limit }

-- Math.max(1, Math.ceil(total / limit))
unfoldable pub total_pages_for : ℕ → ℕ → ℕ
total_pages_for total limit =
    let pages = (total + (limit - 1)) / limit in if ltb pages 1 then 1 else pages

unfoldable pub paginate : {A : Type 0} → List A → ℕ → PaginationQuery → Paginated A
unfolding total_pages_for
paginate data_ total query =
    let total_pages = total_pages_for total query.limit in
    record {
      data_ = data_;
      page = query.page;
      limit = query.limit;
      total = total;
      total_pages = total_pages;
      has_next = ltb query.page total_pages;
      has_prev = ltb 1 query.page;
    }

-- skip and take of a query on rows in their order.
abbrev pub page_of : {A : Type 0} → PaginationQuery → List A → List A
page_of query rows = take (to_skip_take query).take_ (drop (to_skip_take query).skip rows)

-- A page as the list services answer it.
unfoldable pub list_page : {A : Type 0} → PaginationQuery → List A → Paginated A
unfolding paginate
list_page query rows = paginate (page_of query rows) (length rows) query

-- A page and those after it, if the walk comes to an end.
abbrev pub followed_by : {A : Type 0} → List A → Option (List A) → Option (List A)
followed_by page none = none
followed_by page (some later) = some (page ++ later)

-- The pages from a page on, as a client walks them while hasNext holds; none if it is told of a next
-- page when it has no request left.
unfoldable pub walk_pages : {A : Type 0} → ℕ → ℕ → ℕ → List A → Option (List A)
unfolding list_page
walk_pages zero limit page rows = none
walk_pages (suc more) limit page rows =
    let answer = list_page (record { page = page; limit = limit }) rows in
    let rest = walk_pages more limit (page + 1) rows in
    if answer.has_next then followed_by answer.data_ rest else some answer.data_

next_rows : (k limit : ℕ) → (k + 1) * limit ≡ k * limit + limit
next_rows k limit = ap (λ z. z * limit) (omega arith) ∙ suc-mul k limit

pages_iff :
    (k limit total : ℕ) → 0 < limit → (k < (total + (limit - 1)) / limit) ↔ (k * limit < total)
pages_iff k limit total h =
    let page : (x y : ℕ) → (x ≤ y / limit) ↔ (x * limit ≤ y) = λ x y. le-div_iff_mul-le h in
    let (to, from) = page (suc k) (total + (limit - 1)) in
    let e = suc-mul k limit in
    (λ a. let b = to (omega arith) in omega arith, λ a. let b = from (omega arith) in omega arith)

take-all : {A : Type 0} (n : ℕ) (l : List A) → length l ≤ n → take n l ≡ l
take-all zero [] h = refl
take-all zero (x ∷ l) h = absurd (omega arith)
take-all (suc n) [] h = refl
take-all (suc n) (x ∷ l) h = ap (λ z. x ∷ z) (take-all n l (omega arith))

take-drop : {A : Type 0} (n : ℕ) (l : List A) → take n l ++ drop n l ≡ l
take-drop zero l = refl
take-drop (suc n) [] = refl
take-drop (suc n) (x ∷ l) = ap (λ z. x ∷ z) (take-drop n l)

drop-nil : {A : Type 0} (n : ℕ) (l : List A) → l ≡ [] → drop n l ≡ l
drop-nil zero l e = refl
drop-nil (suc n) [] e = refl
drop-nil (suc n) (x ∷ l) e = cc

drop-drop : {A : Type 0} (a b : ℕ) (l : List A) → drop b (drop a l) ≡ drop (a + b) l
drop-drop zero b l = rw (zero-add b) refl
drop-drop (suc a) b [] = drop-nil b [] refl ∙ sym (drop-nil (suc a + b) [] refl)
drop-drop (suc a) b (x ∷ l) = rw (suc-add a b) (drop-drop a b l)

length-drop : {A : Type 0} (n : ℕ) (l : List A) → length (drop n l) ≡ length l - n
length-drop zero l = omega arith
length-drop (suc n) [] = omega arith
length-drop (suc n) (x ∷ l) = omega (arith, length-drop n l)

last_page :
    {A : Type 0} (limit : ℕ) (rows : List A)
    → 0 < limit
    → (k : ℕ) → ¬ (k + 1 < total_pages_for (length rows) limit)
    → length (drop (k * limit) rows) ≤ limit
unfolding total_pages_for
last_page limit rows h k last =
    let (to, from) = pages_iff (suc k) limit (length rows) h in
    let e = suc-mul k limit in
    let d = length-drop (k * limit) rows in
    elim (Bool-cases (ltb (suc k * limit) (length rows))) [
      | inl more ↦ let t = from (ground arith) in absurd (last (ground arith))
      | inr done ↦ ground arith
    ]

walk_from :
    {A : Type 0} (limit : ℕ) (rows : List A)
    → 0 < limit
    → (more k : ℕ) → k < total_pages_for (length rows) limit
    → total_pages_for (length rows) limit ≤ k + more
    → walk_pages more limit (k + 1) rows ≡ some (drop (k * limit) rows)
unfolding walk_pages list_page paginate
walk_from limit rows h zero k lo hi = absurd (omega arith)
walk_from limit rows h (suc more) k lo hi =
    let total_pages = total_pages_for (length rows) limit in
    let skip : ((k + 1) - 1) * limit ≡ k * limit = ap (λ z. z * limit) (omega arith) in
    let here = take limit (drop (k * limit) rows) in
    elim (Bool-cases (ltb (k + 1) total_pages)) [
      | inl e ↦
          let ih = walk_from limit rows h more (k + 1) (ground arith) (omega arith) in
          rw (skip, e, ih)
            (ap (λ z. some (here ++ z))
                (ap (λ z. drop z rows) (next_rows k limit) ∙ sym (drop-drop (k * limit) limit rows))
              ∙ ap some (take-drop limit (drop (k * limit) rows)))
      | inr e ↦
          let last : ¬ (k + 1 < total_pages) = λ a. ground arith in
          rw (skip, e)
            (ap some (take-all limit (drop (k * limit) rows) (last_page limit rows h k last)))
    ]

-- A client that asks for the first page and goes on to the next while it is told that there is one
-- is told by the last of the pages, if not before, that there is no next one, and then has every row
-- once, in their order; at least one row is asked for on a page.
pub walk_pages-all :
    {A : Type 0} (limit : ℕ) (rows : List A)
    → 0 < limit
    → walk_pages (total_pages_for (length rows) limit) limit 1 rows ≡ some rows
unfolding total_pages_for
walk_pages-all limit rows h =
    let pages = total_pages_for (length rows) limit in
    let first : 1 ≡ 0 + 1 = omega arith in
    let all : 0 * limit ≡ 0 = omega arith in
    ap (λ z. walk_pages pages limit z rows) first
    ∙ walk_from limit rows h pages 0 (ground arith) (omega arith)
    ∙ ap (λ z. some (drop z rows)) all
