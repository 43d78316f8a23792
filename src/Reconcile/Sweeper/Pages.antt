-- ===== src/Reconcile/Sweeper/Pages.antt =====
-- Pages of records in the order of their IDs, for internal/reconcile/candidate_sweeper.go.
use mini_sand_box.Prelude.{
  ℕ, zero, suc, ◌+◌, ◌≤◌, ◌<◌, ◌≡◌, refl, ap, Bool, true, false, String, List, [], ◌∷◌, ◌++◌,
  length, take, is_nil, is_empty, Bool-cases, inl, inr, eq_iff, arith,
}
use mini_sand_box.Domain.Sandboxes.{Sandbox}
use mini_sand_box.Store.Listing.{below, select}
use mini_sand_box.Store.Listing.Order.{below_empty, below_irrefl, below_trans}
use mini_sand_box.Reconcile.Sweeper.{advances, last_id}

-- The rows stand in the order of their IDs, all behind `previous`.
abbrev pub IsOrdered : String → List Sandbox → Type 0
IsOrdered previous [] = Unit
IsOrdered previous (row ∷ rest) = (below previous row.id ≡ true) × IsOrdered row.id rest

-- The elements behind the first `n`.
unfoldable pub drop {ℓ} : {A : Type ℓ} → ℕ → List A → List A
drop zero xs = xs
drop (suc n) [] = []
drop (suc n) (x ∷ xs) = drop n xs

abbrev pub behind_id : String → Sandbox → Bool
behind_id id row = below id row.id

pub contrary : (b : Bool) → b ≡ false → b ≡ true → ⊥
contrary b h k = ground arith

pub IsOrdered-from :
    (a b : String) (rows : List Sandbox) → below a b ≡ true → IsOrdered b rows → IsOrdered a rows
IsOrdered-from a b [] h o = tt
IsOrdered-from a b (row ∷ rest) h o = (below_trans a b row.id h o.0, o.1)

-- The rows that pass a test, in their order.
pub select-IsOrdered :
    (test : Sandbox → Bool) (previous : String) (rows : List Sandbox)
    → IsOrdered previous rows
    → IsOrdered previous (select test rows)
unfolding select
select-IsOrdered test previous [] o = tt
select-IsOrdered test previous (row ∷ rest) o = elim (Bool-cases (test row)) [
  | inl e ↦ rw e (o.0, select-IsOrdered test row.id rest o.1)
  | inr e ↦ rw e (select-IsOrdered test previous rest (IsOrdered-from previous row.id rest o.0 o.1))
]

pub take-IsOrdered :
    (n : ℕ) (previous : String) (rows : List Sandbox)
    → IsOrdered previous rows
    → IsOrdered previous (take n rows)
take-IsOrdered zero previous rows o = tt
take-IsOrdered (suc n) previous [] o = tt
take-IsOrdered (suc n) previous (row ∷ rest) o = (o.0, take-IsOrdered n row.id rest o.1)

pub before_nonempty : (a b : String) → below a b ≡ true → is_empty b ≡ false
before_nonempty a b h = elim (Bool-cases (is_empty b)) [
  | inr e ↦ e
  | inl e ↦ absurd (contrary (below a "") (below_empty a) (rw ((eq_iff b "").0 e) at h))
]

pub IsOrdered-advances :
    (previous : String) (rows : List Sandbox)
    → IsOrdered previous rows
    → advances previous rows ≡ true
unfolding advances
IsOrdered-advances previous [] o = refl
IsOrdered-advances previous (row ∷ rest) o =
    rw (before_nonempty previous row.id o.0, o.0, IsOrdered-advances row.id rest o.1) refl

-- All rows are behind a text that they are ordered from.
pub select_all :
    (id : String) (rows : List Sandbox) → IsOrdered id rows → select (behind_id id) rows ≡ rows
unfolding select
select_all id [] o = refl
select_all id (row ∷ rest) o =
    ground (arith, select_all id rest (IsOrdered-from id row.id rest o.0 o.1))

-- The last row is the first one or behind it.
pub last_id_after :
    (id : String) (rows : List Sandbox) → IsOrdered id rows → below (last_id id rows) id ≡ false
unfolding last_id
last_id_after id [] o = below_irrefl id
last_id_after id (row ∷ rest) o = elim (Bool-cases (below (last_id row.id rest) id)) [
  | inr e ↦ e
  | inl e ↦ absurd (
      contrary (below (last_id row.id rest) row.id) (last_id_after row.id rest o.1)
        (below_trans (last_id row.id rest) id row.id e o.0))
]

pub below-last_id :
    (id : String) (row : Sandbox) (rest : List Sandbox)
    → IsOrdered id (row ∷ rest)
    → below id (last_id id (row ∷ rest)) ≡ true
unfolding last_id
below-last_id id row [] o = o.0
below-last_id id row (other ∷ rest) o =
    below-last_id id other rest (below_trans id row.id other.id o.0 o.1.0, o.1.1)

-- The rows behind the last one of a page are the rows that the page leaves.
pub select-last_id :
    (n : ℕ) (previous : String) (rows : List Sandbox)
    → IsOrdered previous rows
    → select (behind_id (last_id previous (take n rows))) rows ≡ drop n rows
unfolding select last_id drop
select-last_id zero previous rows o = select_all previous rows o
select-last_id (suc n) previous [] o = refl
select-last_id (suc n) previous (row ∷ rest) o =
    rw (last_id_after row.id (take n rest) (take-IsOrdered n row.id rest o.1))
      (select-last_id n row.id rest o.1)

pub drop-IsOrdered :
    (n : ℕ) (previous : String) (rows : List Sandbox)
    → IsOrdered previous rows
    → IsOrdered (last_id previous (take n rows)) (drop n rows)
unfolding last_id drop
drop-IsOrdered zero previous rows o = o
drop-IsOrdered (suc n) previous [] o = tt
drop-IsOrdered (suc n) previous (row ∷ rest) o = drop-IsOrdered n row.id rest o.1

-- A page with records goes on behind where it began.
pub below-page :
    (n : ℕ) (id : String) (row : Sandbox) (more : List Sandbox)
    → 0 < n
    → IsOrdered id (row ∷ more)
    → (below id (last_id id (take n (row ∷ more))) ≡ true) × (is_nil (take n (row ∷ more)) ≡ false)
below-page zero id row more h o = absurd (omega (arith, h))
below-page (suc n) id row more h o =
    (below-last_id id row (take n more) (o.0, take-IsOrdered n row.id more o.1), refl)

pub take_all {ℓ} : {A : Type ℓ} (n : ℕ) (xs : List A) → length xs ≤ n → take n xs ≡ xs
take_all zero [] h = refl
take_all zero (x ∷ xs) h = absurd (omega (arith, h))
take_all (suc n) [] h = refl
take_all (suc n) (x ∷ xs) h = ap (λ l. x ∷ l) (take_all n xs (omega (arith, h)))

pub take-drop {ℓ} : {A : Type ℓ} (n : ℕ) (xs : List A) → take n xs ++ drop n xs ≡ xs
unfolding drop
take-drop zero xs = refl
take-drop (suc n) [] = refl
take-drop (suc n) (x ∷ xs) = ap (λ l. x ∷ l) (take-drop n xs)

pub length-take-most {ℓ} : {A : Type ℓ} (n : ℕ) (xs : List A) → length (take n xs) ≤ n
length-take-most zero xs = omega arith
length-take-most (suc n) [] = omega arith
length-take-most (suc n) (x ∷ xs) = omega (arith, length-take-most n xs)

pub length-drop {ℓ} :
    {A : Type ℓ} (n : ℕ) (xs : List A) → n ≤ length xs → length (drop n xs) + n ≡ length xs
unfolding drop
length-drop zero xs h = omega arith
length-drop (suc n) [] h = omega arith
length-drop (suc n) (x ∷ xs) h = omega (arith, length-drop n xs (omega (arith, h)))

pub append_assoc {ℓ} : {A : Type ℓ} (xs ys zs : List A) → (xs ++ ys) ++ zs ≡ xs ++ (ys ++ zs)
append_assoc [] ys zs = refl
append_assoc (x ∷ xs) ys zs = ap (λ l. x ∷ l) (append_assoc xs ys zs)

pub append_nil {ℓ} : {A : Type ℓ} (xs : List A) → xs ++ [] ≡ xs
append_nil [] = refl
append_nil (x ∷ xs) = ap (λ l. x ∷ l) (append_nil xs)
