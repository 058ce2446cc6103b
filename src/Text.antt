-- ===== src/Text.antt =====
-- Go's strings, as the lists of their bytes, and what the program uses of package strings:
-- `==`, `TrimSpace`, `ToLower`, `EqualFold`, `Index`, `Contains` and slices.
pub mod Find
pub mod Laws
pub mod FindLaws
pub mod Order
pub mod Members
use Prim.Native.Char.{code}
use Prim.Native.String.{String}
use mathlib.Core.List.{reverse}
use article_sentinel.Base.{
  ℕ, zero, suc, ◌+◌, ◌-◌, Bool, true, false, ◌&&◌, ◌||◌, List, [], ◌∷◌, map, leb, ltb, ◌==◌,
  if◌then◌else◌, length, take, drop,
}

abbrev pub Text : Type 0
Text = List ℕ

-- A literal of the source, all of which are ASCII.
unfoldable pub codes : String → Text
codes String.[] = []
codes (String.◌∷◌ c s) = code c ∷ codes s

-- `s == t`
unfoldable pub text_eq : Text → Text → Bool
text_eq [] [] = true
text_eq [] (b ∷ t) = false
text_eq (a ∷ s) [] = false
text_eq (a ∷ s) (b ∷ t) = a == b && text_eq s t

unfoldable pub is_empty : Text → Bool
is_empty [] = true
is_empty (a ∷ s) = false

-- `s[i:j]` within bounds.
unfoldable pub slice : Text → ℕ → ℕ → Text
slice s i j = take (j - i) (drop i s)

-- `unicode.IsSpace` on characters of one, two and three bytes.
is_space1 : ℕ → Bool
is_space1 a = a == 0x20 || (leb 0x09 a && leb a 0x0d)

is_space2 : ℕ → ℕ → Bool
is_space2 a b = a == 0xc2 && (b == 0x85 || b == 0xa0)

is_space3 : ℕ → ℕ → ℕ → Bool
is_space3 a b c =
    (a == 0xe1 && b == 0x9a && c == 0x80)
    || (a == 0xe2
        && b == 0x80
        && ((leb 0x80 c && leb c 0x8a) || c == 0xa8 || c == 0xa9 || c == 0xaf))
    || (a == 0xe2 && b == 0x81 && c == 0x9f)
    || (a == 0xe3 && b == 0x80 && c == 0x80)

-- The bytes of the space that a text begins with, 0 where it begins with none.
front_space3 : ℕ → ℕ → Text → ℕ
front_space3 a b [] = 0
front_space3 a b (c ∷ s) = if is_space3 a b c then 3 else 0

front_space2 : ℕ → Text → ℕ
front_space2 a [] = 0
front_space2 a (b ∷ s) = if is_space2 a b then 2 else front_space3 a b s

unfoldable pub front_space : Text → ℕ
unfolding is_space1 is_space2 is_space3 front_space2 front_space3
front_space [] = 0
front_space (a ∷ s) = if is_space1 a then 1 else front_space2 a s

-- The same for a reversed text.
back_space3 : ℕ → ℕ → Text → ℕ
back_space3 c b [] = 0
back_space3 c b (a ∷ s) = if is_space3 a b c then 3 else 0

back_space2 : ℕ → Text → ℕ
back_space2 b [] = 0
back_space2 b (a ∷ s) = if is_space2 a b then 2 else back_space3 b a s

unfoldable pub back_space : Text → ℕ
unfolding is_space1 is_space2 is_space3 back_space2 back_space3
back_space [] = 0
back_space (a ∷ s) = if is_space1 a then 1 else back_space2 a s

-- The spaces at the front are dropped; each round takes a byte at least, so that the length is
-- fuel enough.
unfoldable pub trim_by : (Text → ℕ) → ℕ → Text → Text
trim_by space zero s = s
trim_by space (suc fuel) s =
    let rest = trim_by space fuel (drop (space s) s) in if space s == 0 then s else rest

unfoldable pub trim_space : Text → Text
unfolding front_space back_space trim_by
trim_space s =
    let t = trim_by front_space (length s) s in reverse (trim_by back_space (length t) (reverse t))

unfoldable pub lower_byte : ℕ → ℕ
lower_byte c = if leb 0x41 c && leb c 0x5a then c + 0x20 else c

unfoldable pub is_ascii : Text → Bool
is_ascii [] = true
is_ascii (a ∷ s) = ltb a 0x80 && is_ascii s

-- What a text with a byte outside ASCII asks of the Unicode tables.
pub record Unicode : Type 0 where
  pub lower : Text → Text
  pub fold_eq : Text → Text → Bool

unfoldable pub to_lower : Unicode → Text → Text
unfolding lower_byte is_ascii
to_lower u s = if is_ascii s then map lower_byte s else u.lower s

unfoldable pub equal_fold : Unicode → Text → Text → Bool
unfolding lower_byte is_ascii text_eq
equal_fold u s t =
    if is_ascii s && is_ascii t
    then text_eq (map lower_byte s) (map lower_byte t)
    else u.fold_eq s t
