-- ===== src/Text/FindLaws.antt =====
-- `Index` finds the first occurrence, and every one that there is.
use article_sentinel.Base.{
  ℕ, zero, suc, ◌+◌, ◌≤◌, ◌<◌, true, false, ◌≡◌, refl, sym, ◌∙◌, arith, none, some, [], ◌∷◌, length,
  drop, Bool-cases, Option-cases, inl, inr,
}
use article_sentinel.Text.{Text}
use article_sentinel.Text.Find.{has_prefix, index}

drop-nil : (n : ℕ) → drop {A = ℕ} n [] ≡ []
drop-nil zero = refl
drop-nil (suc n) = refl

pub drop-drop : (i j : ℕ) (s : Text) → drop i (drop j s) ≡ drop (j + i) s
drop-drop i zero s = let e : 0 + i ≡ i = omega arith in rw e
drop-drop i (suc j) [] = drop-nil i ∙ sym (drop-nil (suc j + i))
drop-drop i (suc j) (a ∷ s) =
    let e : suc j + i ≡ suc (j + i) = omega arith in rw e (drop-drop i j s)

pub has_prefix-length : (s t : Text) → has_prefix s t ≡ true → length t ≤ length s
unfolding has_prefix
has_prefix-length s [] h = omega arith
has_prefix-length [] (b ∷ t) h = cc
has_prefix-length (a ∷ s) (b ∷ t) h = ground (arith, has_prefix-length s t)

pub index-length : (s t : Text) {i : ℕ} → index s t ≡ some i → i + length t ≤ length s
unfolding index
index-length [] t {i} h = ground (arith, has_prefix-length [] t)
index-length (a ∷ s) t {i} h = elim (Bool-cases (has_prefix (a ∷ s) t)) [
  | inl here ↦ ground (arith, has_prefix-length (a ∷ s) t)
  | inr later ↦ elim (Option-cases (index s t)) [
    | inl no_more ↦ ground arith
    | inr (j, e) ↦ ground (arith, index-length s t {i = j} e)
  ]
]

pub index-has_prefix : (s t : Text) {i : ℕ} → index s t ≡ some i → has_prefix (drop i s) t ≡ true
unfolding index
index-has_prefix [] t {i = zero} h = ground arith
index-has_prefix [] t {i = suc i} h = ground arith
index-has_prefix (a ∷ s) t {i = zero} h = elim (Bool-cases (has_prefix (a ∷ s) t)) [
  | inl here ↦ here
  | inr later ↦ ground arith
]
index-has_prefix (a ∷ s) t {i = suc i} h = index-has_prefix s t {i = i} (ground arith)

-- Nothing is passed over.
pub index-first :
    (s t : Text) (k : ℕ) {i : ℕ} → index s t ≡ some i → k < i → has_prefix (drop k s) t ≡ false
unfolding index
index-first [] t k {i} h lt = ground arith
index-first (a ∷ s) t zero {i = zero} h lt = elim lt [ ]
index-first (a ∷ s) t zero {i = suc i} h lt = ground arith
index-first (a ∷ s) t (suc k) {i = zero} h lt = absurd (omega arith)
index-first (a ∷ s) t (suc k) {i = suc i} h lt =
    index-first s t k {i = i} (ground arith) (omega arith)

pub index-none :
    (s t : Text) (k : ℕ) → index s t ≡ none → k ≤ length s → has_prefix (drop k s) t ≡ false
unfolding index
index-none [] t zero h le = ground arith
index-none [] t (suc k) h le = absurd (omega arith)
index-none (a ∷ s) t zero h le = ground arith
index-none (a ∷ s) t (suc k) h le = index-none s t k (ground arith) (omega arith)
