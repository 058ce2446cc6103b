-- ===== src/Base/Outcomes.antt =====
-- A value or a Go error, and signed integers.
use Prim.Native.Nat.{ℕ}
use mathlib.Core.Path.{◌≡◌, refl}
use mathlib.Core.Logic.{◌⊎◌, inl, inr}
use mathlib.Core.Bool.{Bool, true, false}
use mathlib.Core.Option.{Option, none, some}
use article_sentinel.Base.Tests.{leb, ◌==◌}

pub data Result {ℓ κ} (E : Type ℓ) (A : Type κ) : Type (ℓ ⊔ κ) where
  ok : A → Result E A
  failed : E → Result E A

module _ {ℓ κ} {E : Type ℓ} {A : Type κ} where
  -- `if err != nil { return err }`
  abbrev pub check : Option E → Result E A → Result E A
  check none r = r
  check (some e) r = failed e

  abbrev pub and_then {ι} : {B : Type ι} → Result E A → (A → Result E B) → Result E B
  and_then (ok a) f = f a
  and_then (failed e) f = failed e

  pub Result-cases : (r : Result E A) → ((a : A) × (r ≡ ok a)) ⊎ ((e : E) × (r ≡ failed e))
  Result-cases (ok a) = inl (a, refl)
  Result-cases (failed e) = inr (e, refl)

pub data ℤ : Type 0 where
  pos : ℕ → ℤ
  negsuc : ℕ → ℤ

abbrev pub same_bool : Bool → Bool → Bool
same_bool true b = b
same_bool false true = false
same_bool false false = true

abbrev pub same_int : ℤ → ℤ → Bool
same_int (pos m) (pos n) = m == n
same_int (negsuc m) (negsuc n) = m == n
same_int m n = false

abbrev pub leb_int : ℤ → ℤ → Bool
leb_int (pos a) (pos b) = leb a b
leb_int (pos a) (negsuc b) = false
leb_int (negsuc a) (pos b) = true
leb_int (negsuc a) (negsuc b) = leb b a
