-- ===== src/Paging/Pages.antt =====
-- The pages of a query, one after the other, are its rows.
use article_sentinel.Base.{
  ℕ, zero, suc, ◌+◌, ◌-◌, ◌*◌, ◌%◌, ◌^◌, ◌<◌, ◌≡◌, refl, sym, ap, arith, List, [], ◌∷◌, ◌++◌, take,
  drop,
}
use article_sentinel.Base.{ltb, if◌then◌else◌}
use article_sentinel.Paging.{page_offset, page_rows}

-- The first `n` pages.
unfoldable pub pages {ℓ} : {A : Type ℓ} → ℕ → ℕ → List A → List A
pages zero size rows = []
pages (suc n) size rows = pages n size rows ++ page_rows (suc n) size rows

take_nothing {ℓ} : {A : Type ℓ} (n : ℕ) → take {A = A} n [] ≡ []
take_nothing zero = refl
take_nothing (suc n) = refl

take-add {ℓ} :
    {A : Type ℓ} (m n : ℕ) (rows : List A) → take (m + n) rows ≡ take m rows ++ take n (drop m rows)
take-add zero n rows = let e : 0 + n ≡ n = omega arith in rw e refl
take-add (suc m) n [] = let e : suc m + n ≡ suc (m + n) = omega arith in rw e (sym (take_nothing n))
take-add (suc m) n (x ∷ rows) =
    let e : suc m + n ≡ suc (m + n) = omega arith in rw e (ap (λ xs. x ∷ xs) (take-add m n rows))

small : (n : ℕ) → n < 2 ^ 63 → (if ltb (n % (2 ^ 64)) (2 ^ 63) then n % (2 ^ 64) else 0) ≡ n
small n h = ground arith

offset_small : (page size : ℕ) → page * size < 2 ^ 63 → page_offset (suc page) size ≡ page * size
unfolding page_offset
offset_small page size h =
    let e : suc page - 1 ≡ page = omega arith in let offset = page * size in rw e (small offset h)

product : (n size : ℕ) → suc n * size ≡ n * size + size
product n size = ground arith

-- While the offsets stay below 2 ^ 63, the first `n` pages in a row are the first rows.
pub pages-take {ℓ} :
    {A : Type ℓ} (n size : ℕ) (rows : List A)
    → n * size < 2 ^ 63
    → pages n size rows ≡ take (n * size) rows
unfolding pages page_rows
pages-take zero size rows h = let e : 0 * size ≡ 0 = omega arith in rw e refl
pages-take (suc n) size rows h =
    let e : suc n * size ≡ n * size + size = product n size in
    let before : n * size < 2 ^ 63 = omega arith in
    let offset = offset_small n size before in
    rw (offset, e, pages-take n size rows before) (sym (take-add (n * size) size rows))
