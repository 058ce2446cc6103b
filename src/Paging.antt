-- ===== src/Paging.antt =====
-- internal/modules/articleinspect/shared/paging.go, and the page that a query selects.
pub mod Pages
use article_sentinel.Base.{
  ℕ, ◌+◌, ◌-◌, ◌*◌, ◌%◌, ◌^◌, ℤ, pos, negsuc, List, take, drop, ltb, leb, if◌then◌else◌,
}

abbrev positive : ℤ → ℕ
positive (pos n) = n
positive (negsuc n) = 0

unfoldable pub page_number : ℤ → ℕ
page_number page = if leb (positive page) 0 then 1 else positive page

unfoldable pub page_length : ℤ → ℕ
page_length size =
    let n = if leb (positive size) 0 then 20 else positive size in if ltb 100 n then 100 else n

-- `Offset((page - 1) * pageSize)`, in 64 bits; GORM leaves a negative offset out.
unfoldable pub page_offset : ℕ → ℕ → ℕ
page_offset page size =
    let offset = ((page - 1) * size) % (2 ^ 64) in if ltb offset (2 ^ 63) then offset else 0

-- `Offset(...).Limit(pageSize)` of the rows in their order.
unfoldable pub page_rows {ℓ} : {A : Type ℓ} → ℕ → ℕ → List A → List A
unfolding page_offset
page_rows page size rows = take size (drop (page_offset page size) rows)
