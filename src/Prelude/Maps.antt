-- ===== src/Prelude/Maps.antt =====
-- A Go map keyed by text, as an association list with one entry for each key.
use Prim.Native.Nat.{ℕ, ◌+◌}
use Prim.Native.String.{String}
use mathlib.Core.Path.{◌≡◌, refl, subst}
use mathlib.Core.Logic.{inl, inr}
use mathlib.Core.Option.{Option, none, some}
use mathlib.Core.List.{List, [], ◌∷◌}
use native.Mathlib.Omega.{arith}
use text.Mathlib.Text.{◌==◌ as str_eq}
use text.Mathlib.TextEquality.{eq_iff}
use mini_sand_box.Prelude.Tests.{if◌then◌else◌, Bool-cases}

module _ {ℓ} {V : Type ℓ} where
  -- `m[k]`, with `none` for a missing key.
  unfoldable pub lookup : String → List (String × V) → Option V
  lookup key [] = none
  lookup key ((other, x) ∷ entries) = if str_eq other key then some x else lookup key entries

  -- `m[k] = v`.
  unfoldable pub insert : String → V → List (String × V) → List (String × V)
  insert key x [] = (key, x) ∷ []
  insert key x ((other, y) ∷ entries) =
      if str_eq other key then (key, x) ∷ entries else (other, y) ∷ insert key x entries

  -- `delete(m, k)`.
  unfoldable pub erase : String → List (String × V) → List (String × V)
  erase key [] = []
  erase key ((other, y) ∷ entries) =
      let rest = erase key entries in if str_eq other key then rest else (other, y) ∷ rest

  pub lookup-insert :
      (key other : String) (x : V) (entries : List (String × V))
      → lookup other (insert key x entries)
        ≡ (if str_eq key other then some x else lookup other entries)
  unfolding lookup insert
  lookup-insert key other x [] = refl
  lookup-insert key other x ((first, y) ∷ entries) = ground (
    arith,
    lookup-insert key other x entries,
    eq_iff first other,
    eq_iff first key,
    eq_iff key other,
  )

  pub lookup-erase :
      (key other : String) (entries : List (String × V))
      → lookup other (erase key entries) ≡ (if str_eq key other then none else lookup other entries)
  unfolding lookup erase
  lookup-erase key other [] = ground arith
  lookup-erase key other ((first, y) ∷ entries) = ground (
    arith,
    eq_iff key other,
    eq_iff first key,
    eq_iff first other,
    lookup-erase key other entries,
  )

  -- No key stands twice.
  abbrev pub Unique : List (String × V) → Type ℓ
  Unique [] = Unit
  Unique ((key, x) ∷ entries) = (lookup key entries ≡ none) × Unique entries

  pub insert-Unique :
      (key : String) (x : V) (entries : List (String × V))
      → Unique entries
      → Unique (insert key x entries)
  unfolding lookup insert
  insert-Unique key x [] u = (refl, tt)
  insert-Unique key x ((other, y) ∷ entries) u = ground (
    arith,
    eq_iff other key,
    eq_iff key other,
    lookup-insert key other x entries,
    insert-Unique key x entries u.1,
  )

  pub erase-Unique :
      (key : String) (entries : List (String × V)) → Unique entries → Unique (erase key entries)
  unfolding erase
  erase-Unique key [] u = tt
  erase-Unique key ((other, y) ∷ entries) u =
      ground (arith, eq_iff key other, lookup-erase key other entries, erase-Unique key entries u.1)

  -- A sum over the entries.
  unfoldable pub sum : (V → ℕ) → List (String × V) → ℕ
  sum f [] = 0
  sum f ((other, y) ∷ entries) = f y + sum f entries

  abbrev pub weigh : (V → ℕ) → Option V → ℕ
  weigh f none = 0
  weigh f (some x) = f x

  pub sum-insert :
      (f : V → ℕ) (key : String) (x : V) (entries : List (String × V))
      → sum f (insert key x entries) + weigh f (lookup key entries) ≡ sum f entries + f x
  unfolding sum insert lookup
  sum-insert f key x [] = omega arith
  sum-insert f key x ((other, y) ∷ entries) = ground (arith, sum-insert f key x entries)

  erase_absent :
      (key : String) (entries : List (String × V))
      → lookup key entries ≡ none
      → erase key entries ≡ entries
  unfolding erase lookup
  erase_absent key [] e = refl
  erase_absent key ((other, y) ∷ entries) e = ground (arith, erase_absent key entries)

  pub sum-erase :
      (f : V → ℕ) (key : String) (entries : List (String × V))
      → Unique entries
      → sum f (erase key entries) + weigh f (lookup key entries) ≡ sum f entries
  unfolding sum erase lookup
  sum-erase f key [] u = omega arith
  sum-erase f key ((other, y) ∷ entries) u =
      ground (arith, eq_iff other key, erase_absent key entries, sum-erase f key entries u.1)

unsome {ℓ} : {V : Type ℓ} {x y : V} → some x ≡ some y → x ≡ y
unsome e = cc

none-some {ℓ} : {V : Type ℓ} {x : V} → ◌≡◌ {A = Option V} none (some x) → ⊥
none-some e = cc

module _ {ℓ κ} {V : Type ℓ} (P : V → Type κ) where
  abbrev pub AllValues : List (String × V) → Type κ
  AllValues [] = Unit
  AllValues ((key, x) ∷ entries) = P x × AllValues entries

  pub insert-AllValues :
      (key : String) (x : V) (entries : List (String × V))
      → P x
      → AllValues entries
      → AllValues (insert key x entries)
  unfolding insert
  insert-AllValues key x [] p a = (p, tt)
  insert-AllValues key x ((other, y) ∷ entries) p a = elim (Bool-cases (str_eq other key)) [
    | inl e ↦ rw e (p, a.1)
    | inr e ↦ rw e (a.0, insert-AllValues key x entries p a.1)
  ]

  pub erase-AllValues :
      (key : String) (entries : List (String × V))
      → AllValues entries
      → AllValues (erase key entries)
  unfolding erase
  erase-AllValues key [] a = tt
  erase-AllValues key ((other, y) ∷ entries) a = elim (Bool-cases (str_eq other key)) [
    | inl e ↦ rw e (erase-AllValues key entries a.1)
    | inr e ↦ rw e (a.0, erase-AllValues key entries a.1)
  ]

  pub AllValues-lookup :
      (key : String) {x : V} (entries : List (String × V))
      → AllValues entries
      → lookup key entries ≡ some x
      → P x
  unfolding lookup
  AllValues-lookup key [] a e = absurd (none-some e)
  AllValues-lookup key ((other, y) ∷ entries) a e = elim (Bool-cases (str_eq other key)) [
    | inl h ↦ subst P (unsome (rw h at e)) a.0
    | inr h ↦ AllValues-lookup key entries a.1 (rw h at e)
  ]
