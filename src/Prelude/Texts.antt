-- ===== src/Prelude/Texts.antt =====
-- Lists of texts, counted and searched with the test on texts.
use Prim.Native.Nat.{ℕ, suc, ◌+◌, ◌-◌}
use Prim.Native.String.{String}
use mathlib.Core.Path.{◌≡◌}
use mathlib.Core.List.{List, [], ◌∷◌, ◌++◌}
use native.Mathlib.Omega.{arith}
use text.Mathlib.Text.{◌==◌ as str_eq}
use text.Mathlib.TextEquality.{eq_iff}
use mini_sand_box.Prelude.Tests.{if◌then◌else◌}

-- How often a text stands in a list.
unfoldable pub count : String → List String → ℕ
count k [] = 0
count k (j ∷ l) = let rest = count k l in if str_eq j k then suc rest else rest

-- The list without the first entry that is the text.
unfoldable pub remove : String → List String → List String
remove k [] = []
remove k (j ∷ l) = let rest = remove k l in if str_eq j k then l else j ∷ rest

pub count-append : (k : String) (xs ys : List String) → count k (xs ++ ys) ≡ count k xs + count k ys
unfolding count
count-append k [] ys = omega arith
count-append k (x ∷ xs) ys = ground (arith, count-append k xs ys)

pub count-remove :
    (k j : String) (l : List String)
    → count j (remove k l) ≡ (if str_eq k j then count j l - 1 else count j l)
unfolding count remove
count-remove k j [] = ground arith
count-remove k j (i ∷ l) = ground (arith, eq_iff k j, eq_iff i k, eq_iff i j, count-remove k j l)
