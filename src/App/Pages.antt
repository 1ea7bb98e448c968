-- ===== src/App/Pages.antt =====
-- pagination.py: the numbers of a page. The query's rows and their count are arguments.
use native.Mathlib.Nat.{suc-mul, le-div_iff_mul-le}
use layerrail_deploy.Prelude.{
  ℕ, zero, suc, ◌+◌, ◌-◌, ◌*◌, ◌/◌, ◌≤◌, ◌<◌, ◌≡◌, ◌↔◌, ◌++◌, refl, sym, ap, ◌∙◌, Bool, true,
  Option, none, some, List, [], ◌∷◌, ltb, if◌then◌else◌, length, take, drop, arith,
}

pub record Page (A : Type 0) : Type 0 where
  pub items : List A
  pub page : ℕ
  pub per_page : ℕ
  pub total : ℕ
  pub pages : ℕ
  pub has_prev : Bool
  pub has_next : Bool
  pub prev_num : Option ℕ
  pub next_num : Option ℕ

-- `page` is at least 1, as the routers have it; the database refuses a negative OFFSET.
unfoldable pub paginate : {A : Type 0} → List A → ℕ → ℕ → Page A
paginate rows page per_page =
    let pages = (length rows + per_page - 1) / per_page in
    record {
      items = take per_page (drop ((page - 1) * per_page) rows);
      page = page;
      per_page = per_page;
      total = length rows;
      pages = pages;
      has_prev = ltb 1 page;
      has_next = ltb page pages;
      prev_num = if ltb 1 page then some (page - 1) else none;
      next_num = if ltb page pages then some (page + 1) else none;
    }

take-drop : {A : Type 0} (n : ℕ) (l : List A) → take n l ++ drop n l ≡ l
take-drop zero l = refl
take-drop (suc n) [] = refl
take-drop (suc n) (x ∷ l) = rw (take-drop n l) refl

drop-nil : {A : Type 0} (n : ℕ) → drop {A = A} n [] ≡ []
drop-nil zero = refl
drop-nil (suc n) = refl

drop-drop : {A : Type 0} (m n k : ℕ) (l : List A) → k ≡ n + m → drop m (drop n l) ≡ drop k l
drop-drop m zero k l e = ap (λ j. drop j l) (omega arith)
drop-drop m (suc n) zero l e = absurd (omega arith)
drop-drop m (suc n) (suc k) [] e = drop-nil m
drop-drop m (suc n) (suc k) (x ∷ l) e = drop-drop m n k l (omega arith)

length-take : {A : Type 0} (n : ℕ) (l : List A) → length (take n l) ≤ n
length-take zero l = omega arith
length-take (suc n) [] = omega arith
length-take (suc n) (x ∷ l) = ground (arith, length-take n l)

suc-pred : (n : ℕ) → 1 ≤ n → n ≡ suc (n - 1)
suc-pred n h = omega arith

next-page :
    (page per_page total : ℕ)
    → 1 ≤ per_page
    → (ltb page ((total + per_page - 1) / per_page) ≡ true) ↔ (page * per_page < total)
next-page page per_page total positive =
    let counted =
      le-div_iff_mul-le {k = per_page} {x = suc page} {y = total + per_page - 1} positive in
    let product = suc-mul page per_page in
    (
      λ h.
          let below : suc page * per_page ≤ total + per_page - 1 = counted.0 (ground arith) in
          omega (arith, rw product at below),
      λ h.
          let above : suc page ≤ (total + per_page - 1) / per_page =
            counted.1 (rw product (omega arith)) in
          ground arith,
    )

-- With pages counted from 1 and a positive `per_page`: a page holds at most `per_page` rows, the
-- next one goes on where it ends, and there is a next one exactly if rows are left.
paginate_next :
    {A : Type 0} (rows : List A) (page per_page : ℕ)
    → 1 ≤ page
    → 1 ≤ per_page
    → let shown = paginate rows page per_page in
      (length shown.items ≤ per_page)
      × (shown.items ++ drop (page * per_page) rows ≡ drop ((page - 1) * per_page) rows)
      × ((shown.has_next ≡ true) ↔ (page * per_page < length rows))
unfolding paginate
paginate_next rows page per_page positive some_rows = (
  length-take per_page _,
  rw
      (sym (
        drop-drop per_page ((page - 1) * per_page) (page * per_page) rows
          (ap (λ j. j * per_page) (suc-pred page positive) ∙ suc-mul (page - 1) per_page)))
      (take-drop per_page (drop ((page - 1) * per_page) rows)),
  next-page page per_page (length rows) some_rows,
)
