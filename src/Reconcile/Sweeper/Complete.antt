-- ===== src/Reconcile/Sweeper/Complete.antt =====
-- A whole round of internal/reconcile/candidate_sweeper.go over records that nobody changes.
use mini_sand_box.Prelude.{
  ℕ, zero, suc, ◌+◌, ◌*◌, ◌≤◌, ◌<◌, ◌≡◌, refl, sym, ap, ◌∙◌, subst, Bool, true, false, not, String,
  List, [], ◌∷◌, ◌++◌, Result, ok, length, length-take, take, is_nil, ltb, ◌==◌, if◌then◌else◌,
  Bool-cases, inl, inr, arith,
}
use mini_sand_box.Prelude.Int.{ℤ, ◌+ℤ◌}
use mini_sand_box.Protocol.Events.{is_zero}
use mini_sand_box.Domain.Sandboxes.{Sandbox}
use mini_sand_box.Store.Lifecycle.{StoreError}
use mini_sand_box.Store.Listing.{
  ReconcileCandidateQuery, below, due, select, candidate, list_reconcile_candidates,
}
use mini_sand_box.Store.Listing.Order.{below_trans}
use mini_sand_box.Reconcile.Sweeper.{
  SweepError, round_query, minus, last_id, after_page, after_list, sweep_pages, sweep,
}
use mini_sand_box.Reconcile.Sweeper.Pages.{
  IsOrdered, drop, behind_id, IsOrdered-from, select-IsOrdered, take-IsOrdered, IsOrdered-advances,
  select-last_id, drop-IsOrdered, below-page, take_all, take-drop, length-take-most, length-drop,
  append_assoc, append_nil,
}

not_above : (a b : ℕ) → a ≤ b → ltb b a ≡ false
not_above a b h = ground arith

positive_test : (n : ℕ) → 0 < n → (n == 0) ≡ false
positive_test n h = ground arith

abbrev from_id : ReconcileCandidateQuery → String → ReconcileCandidateQuery
from_id q id = record q { after_id = id }

module _ (behind : ℤ → ℤ → Bool) (rows : List Sandbox) (q : ReconcileCandidateQuery) where
  abbrev left_after : String → List Sandbox
  left_after id = select (candidate behind (from_id q id)) rows

  -- A later page chooses from what an earlier one chose from.
  select_later :
      (a b : String) (l : List Sandbox)
      → below a b ≡ true
      → select (behind_id b) (select (candidate behind (from_id q a)) l)
        ≡ select (candidate behind (from_id q b)) l
  unfolding select
  select_later a b [] h = refl
  select_later a b (row ∷ rest) h =
      ground (arith, select_later a b rest h, below_trans a b row.id h)

-- The first page chooses from all rows.
select_first :
    (behind : ℤ → ℤ → Bool) (rows : List Sandbox) (q : ReconcileCandidateQuery)
    → IsOrdered "" rows
    → select (candidate behind (from_id q "")) rows
      ≡ select (due behind q.now q.running_cutoff) rows
unfolding select
select_first behind [] q o = refl
select_first behind (row ∷ rest) q o =
    let later = select_first behind rest q (IsOrdered-from "" row.id rest o.0 o.1) in
    rw (o.0, later) refl

-- The consumer that collects the records of the pages.
abbrev pub collect : List Sandbox → List Sandbox → Result StoreError (List Sandbox)
collect page seen = ok (seen ++ page)

abbrev pub never : ℕ → Bool
never n = false

module _ (behind : ℤ → ℤ → Bool) (rows : List Sandbox) (q : ReconcileCandidateQuery)
    (ordered : IsOrdered "" rows) (dated : is_zero q.now ≡ false)
    (cut : is_zero q.running_cutoff ≡ false) (positive : 0 < q.limit) where
  abbrev Next : Type 0
  Next = String → List Sandbox → Result (SweepError StoreError) (List Sandbox)

  abbrev answer_to :
      String → Next → List Sandbox → List Sandbox → Result (SweepError StoreError) (List Sandbox)
  answer_to after next seen page =
      after_list (list_reconcile_candidates behind rows) collect never (from_id q after) next seen
        (ok page)

  -- The answer to a page of the listing.
  page_answered :
      (after : String) (next : Next) (seen left : List Sandbox)
      → IsOrdered after left
      → answer_to after next seen (take q.limit left) ≡ (
          if is_nil (take q.limit left)
          then ok seen
          else if not (ltb (length (take q.limit left)) q.limit)
          then next (last_id after (take q.limit left)) (seen ++ take q.limit left)
          else ok (seen ++ take q.limit left))
  unfolding after_list after_page
  page_answered after next seen left o =
      rw
        (
          not_above _ _ (length-take-most q.limit left),
          IsOrdered-advances after (take q.limit left) (take-IsOrdered q.limit after left o),
        )
        refl

  abbrev rest_of : ℕ → Next
  rest_of n id seen = sweep_pages (list_reconcile_candidates behind rows) collect never n q id seen

  page_listed :
      (n : ℕ) (after : String) (seen left : List Sandbox)
      → left_after behind rows q after ≡ left
      → rest_of (suc n) after seen ≡ answer_to after (rest_of n) seen (take q.limit left)
  unfolding sweep_pages list_reconcile_candidates
  page_listed n after seen left e = rw (dated, cut, positive_test q.limit positive, e) refl

  most : {n : ℕ} → ltb n q.limit ≡ false → q.limit ≤ n
  most {n} h = ground (arith, h)

  full_page :
      (after : String) (page : List Sandbox) (next : Next) (seen : List Sandbox)
      → is_nil page ≡ false
      → ltb (length page) q.limit ≡ false
      → (if is_nil page
          then ok seen
          else if not (ltb (length page) q.limit)
          then next (last_id after page) (seen ++ page)
          else ok (seen ++ page))
        ≡ next (last_id after page) (seen ++ page)
  full_page after page next seen filled whole = rw (filled, whole) refl

  -- The step from a page with records; `onward` is what is left of the pages.
  page_swept :
      (n : ℕ) (after : String) (seen : List Sandbox) (row : Sandbox) (more : List Sandbox)
      → IsOrdered after (row ∷ more)
      → ((id : String) (t : List Sandbox)
          → left_after behind rows q id ≡ drop q.limit (row ∷ more)
          → IsOrdered id (drop q.limit (row ∷ more))
          → q.limit ≤ length (row ∷ more)
          → rest_of n id t ≡ ok (t ++ drop q.limit (row ∷ more)))
      → left_after behind rows q after ≡ row ∷ more
      → answer_to after (rest_of n) seen (take q.limit (row ∷ more)) ≡ ok (seen ++ row ∷ more)
  page_swept n after seen row more o onward e =
      elim (Bool-cases (ltb (length (row ∷ more)) q.limit)) [
        | inl short ↦
            page_answered after (rest_of n) seen (row ∷ more) o
            ∙ subst
                (λ page.
                  (if is_nil page
                    then ok seen
                    else if not (ltb (length page) q.limit)
                    then rest_of n (last_id after page) (seen ++ page)
                    else ok (seen ++ page))
                  ≡ ok (seen ++ row ∷ more))
                (sym (take_all q.limit (row ∷ more) (ground (arith, short)))) (rw short refl)
        | inr full ↦
            let page = take q.limit (row ∷ more) in
            let (advanced, filled) = below-page q.limit after row more positive o in
            page_answered after (rest_of n) seen (row ∷ more) o
            ∙ full_page after page (rest_of n) seen filled
                (rw (length-take q.limit (row ∷ more) (most full)) (ground arith))
            ∙ onward (last_id after page) (seen ++ page)
                (sym (select_later behind rows q after (last_id after page) rows advanced)
                  ∙ ap (select (behind_id (last_id after page))) e
                  ∙ select-last_id q.limit after (row ∷ more) o)
                (drop-IsOrdered q.limit after (row ∷ more) o) (most full)
            ∙ ap ok (
                append_assoc seen page (drop q.limit (row ∷ more))
                ∙ ap (λ l. seen ++ l) (take-drop q.limit (row ∷ more)))
      ]

  counted : (n : ℕ) {a b : ℕ} → a + q.limit ≡ b → b < suc n * q.limit → a < n * q.limit
  counted n e h = omega (arith, e, h)

  -- A round that begins behind `after`, with enough pages left for the records left.
  sweep_rest :
      (n : ℕ) (after : String) (seen left : List Sandbox)
      → left_after behind rows q after ≡ left
      → IsOrdered after left
      → length left < n * q.limit
      → rest_of n after seen ≡ ok (seen ++ left)
  sweep_rest zero after seen left e o h = absurd (omega (arith, h))
  sweep_rest (suc n) after seen [] e o h =
      page_listed n after seen [] e
      ∙ page_answered after (rest_of n) seen [] o
      ∙ subst
          (λ page.
            (if is_nil page
              then ok seen
              else if not (ltb (length page) q.limit)
              then rest_of n (last_id after page) (seen ++ page)
              else ok (seen ++ page))
            ≡ ok (seen ++ []))
          (sym (take_all q.limit [] (omega arith))) (ap ok (sym (append_nil seen)))
  sweep_rest (suc n) after seen (row ∷ more) e o h =
      page_listed n after seen (row ∷ more) e
      ∙ page_swept n after seen row more o
          (λ id t left order full.
            sweep_rest n id t (drop q.limit (row ∷ more)) left order
              (counted n (length-drop q.limit (row ∷ more) full) h))
          e

-- Over records that nobody changes, whose IDs are not empty and all different, a round whose pages
-- have room for more records than are due comes to its end without an error, and has handed every
-- record that is due to the consumer once, in the order of the IDs.
pub sweep_complete :
    (behind : ℤ → ℤ → Bool) (rows : List Sandbox) (max_pages page_size : ℕ) (interval now : ℤ)
    → IsOrdered "" rows
    → is_zero now ≡ false
    → is_zero (now +ℤ minus interval) ≡ false
    → 0 < page_size
    → length (select (due behind now (now +ℤ minus interval)) rows) < max_pages * page_size
    → sweep
        (list_reconcile_candidates behind rows)
        collect
        never
        max_pages
        page_size
        interval
        now
        []
      ≡ ok (select (due behind now (now +ℤ minus interval)) rows)
unfolding sweep
sweep_complete behind rows max_pages page_size interval now o dated cut positive room =
    let q = round_query page_size now (now +ℤ minus interval) in
    rw dated (
      sweep_rest behind rows q o dated cut positive max_pages "" []
        (select (due behind now (now +ℤ minus interval)) rows) (select_first behind rows q o)
        (select-IsOrdered (due behind now (now +ℤ minus interval)) "" rows o) room)
