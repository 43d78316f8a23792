-- ===== src/Store/Listing/Order.antt =====
-- The order of the IDs, which are texts, in internal/store/sqlite/store.go.
use mini_sand_box.Prelude.{◌≡◌, refl, ap, ◌∙◌, Bool, true, false, arith, ltb, ◌==◌, if◌then◌else◌}
use Prim.Native.Nat.{Ordering, compare as compare_ℕ}
use Prim.Native.Char.{Char, code}
use Prim.Native.String.{String, [], ◌∷◌, compare, then as next_order}
use Prim.Native.String.compare.{nil-nil, nil-cons, cons-nil, cons-cons}
use mini_sand_box.Store.Listing.{below, is_before}

abbrev is_same : Ordering → Bool
is_same Ordering.eq = true
is_same _ = false

-- Nothing is before the empty text.
pub below_empty : (a : String) → below a [] ≡ false
unfolding below
below_empty [] = ap is_before nil-nil
below_empty (c ∷ s) = ap is_before (cons-nil c s)

then_before :
    (o p : Ordering)
    → is_before (next_order o p)
      ≡ (if is_before o then true else if is_same o then is_before p else false)
then_before Ordering.lt p = refl
then_before Ordering.eq p = refl
then_before Ordering.gt p = refl

-- A text is before another one by its first character, or by the rest.
below-join :
    (c d : Char) (s t : String)
    → below (c ∷ s) (d ∷ t)
      ≡ (if ltb (code c) (code d) then true else if code c == code d then below s t else false)
unfolding below
below-join c d s t =
    ap is_before (cons-cons c d s t)
    ∙ then_before (compare_ℕ (code c) (code d)) (compare s t)
    ∙ refl

below_nil-join : (c : Char) (s : String) → below [] (c ∷ s) ≡ true
unfolding below
below_nil-join c s = ap is_before (nil-cons c s)

pub below_trans : (a b c : String) → below a b ≡ true → below b c ≡ true → below a c ≡ true
below_trans a b [] h k = ground (arith, below_empty b)
below_trans a [] (d ∷ t) h k = ground (arith, below_empty a)
below_trans [] (c ∷ s) (d ∷ t) h k = below_nil-join d t
below_trans (b ∷ r) (c ∷ s) (d ∷ t) h k =
    ground (arith, below-join b c r s, below-join c d s t, below-join b d r t, below_trans r s t)

pub below_irrefl : (a : String) → below a a ≡ false
below_irrefl [] = below_empty []
below_irrefl (c ∷ s) = ground (arith, below-join c c s s, below_irrefl s)
