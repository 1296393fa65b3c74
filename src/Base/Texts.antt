-- ===== src/Base/Texts.antt =====
-- Texts: comparison, membership, and the regular expressions the program matches.
use Prim.Native.Char.{code}
use Prim.Native.String.{String}
use Prim.Native.Nat.{ℕ}
use mathlib.Core.Bool.{Bool, true, false, ◌&&◌, ◌||◌}
use mathlib.Core.List.{List, [], ◌∷◌}
use text.Mathlib.Text.{◌==◌}
use lumi_eggcracker.Base.Tests.{leb, ◌==◌ as nat_eq}
use lumi_eggcracker.Base.Lists.{all, length}

abbrev pub str_eq : String → String → Bool
str_eq a b = a == b

-- `a in (x, y, …)`
abbrev pub elem : String → List String → Bool
elem a [] = false
elem a (x ∷ xs) = str_eq a x || elem a xs

-- The code points of a text.
abbrev pub codes : String → List ℕ
codes String.[] = []
codes (String.◌∷◌ c s) = code c ∷ codes s

abbrev pub is_digit : ℕ → Bool
is_digit c = leb b'0' c && leb c b'9'

abbrev pub is_alnum : ℕ → Bool
is_alnum c = is_digit c || (leb b'A' c && leb c b'Z') || (leb b'a' c && leb c b'z')

-- `[0-9a-f]`
abbrev pub is_hex : ℕ → Bool
is_hex c = is_digit c || (leb b'a' c && leb c b'f')

-- `[0-9a-f]{n}\Z` by `fullmatch`
unfoldable pub hex_text : ℕ → String → Bool
hex_text n s = all is_hex (codes s) && nat_eq (length (codes s)) n

abbrev pub codes_eq : List ℕ → List ℕ → Bool
codes_eq [] [] = true
codes_eq (a ∷ xs) (b ∷ ys) = nat_eq a b && codes_eq xs ys
codes_eq _ _ = false
