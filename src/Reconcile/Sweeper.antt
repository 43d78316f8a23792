-- ===== src/Reconcile/Sweeper.antt =====
-- internal/reconcile/candidate_sweeper.go: one round over the records that are due, page by page.
--
-- `list` is the store's listing, `consume` what is done with a page, and `ended` says whether the
-- context has ended before a page, counted from the end of the loop.
use mini_sand_box.Prelude.{
  ℕ, zero, suc, Bool, true, false, not, ◌||◌, String, List, [], ◌∷◌, Result, ok, err, length,
  is_nil, is_empty, ltb, if◌then◌else◌,
}
use mini_sand_box.Prelude.Int.{ℤ, ◌+ℤ◌, sub_ℕ, neg_part, pos_part}
use mini_sand_box.Protocol.Events.{is_zero}
use mini_sand_box.Domain.Sandboxes.{Sandbox}
use mini_sand_box.Store.Lifecycle.{StoreError}
use mini_sand_box.Store.Listing.{ReconcileCandidateQuery, below}
pub mod Pages
pub mod Complete

pub data SweepError (E : Type 0) : Type 0 where
  invalid_input context_ended oversized_page non_advancing too_many_pages : SweepError E
  list_failed : StoreError → SweepError E
  consumer_failed : E → SweepError E

abbrev pub minus : ℤ → ℤ
minus t = sub_ℕ (neg_part t) (pos_part t)

-- The query of a round, before its first page.
abbrev pub round_query : ℕ → ℤ → ℤ → ReconcileCandidateQuery
round_query page_size now cutoff = record {
  now = now;
  running_cutoff = cutoff;
  after_id = "";
  limit = page_size;
}

-- Every ID is behind the one before it, and none is empty.
unfoldable pub advances : String → List Sandbox → Bool
unfolding below
advances previous [] = true
advances previous (row ∷ rest) =
    let later = advances row.id rest in
    if is_empty row.id || not (below previous row.id) then false else later

-- The ID of the last record of a page.
unfoldable pub last_id : String → List Sandbox → String
last_id previous [] = previous
last_id previous (row ∷ rest) = last_id row.id rest

module _ {E S : Type 0} (list : ReconcileCandidateQuery → Result StoreError (List Sandbox))
    (consume : List Sandbox → S → Result E S) (ended : ℕ → Bool) where
  abbrev pub Swept : Type 0
  Swept = Result (SweepError E) S

  -- The consumer's answer, with the rest of the loop for a full page.
  unfoldable pub after_page : Bool → (S → Swept) → Result E S → Swept
  after_page full next (err e) = err (consumer_failed e)
  after_page full next (ok s) = if full then next s else ok s

  unfoldable pub after_list :
      ReconcileCandidateQuery → (String → S → Swept) → S → Result StoreError (List Sandbox) → Swept
  unfolding advances last_id after_page
  after_list q next s (err e) = err (list_failed e)
  after_list q next s (ok page) =
      if ltb q.limit (length page)
      then err oversized_page
      else if not (advances q.after_id page)
      then err non_advancing
      else if is_nil page
      then ok s
      else after_page (not (ltb (length page) q.limit)) (next (last_id q.after_id page))
          (consume page s)

  -- The pages left, the query of the round and the ID that the next page begins behind.
  unfoldable pub sweep_pages : ℕ → ReconcileCandidateQuery → String → S → Swept
  unfolding after_list
  sweep_pages zero q after s = err too_many_pages
  sweep_pages (suc n) q after s =
      if ended n
      then err context_ended
      else after_list (record q { after_id = after }) (λ id t. sweep_pages n q id t) s
          (list (record q { after_id = after }))

  unfoldable pub sweep : ℕ → ℕ → ℤ → ℤ → S → Swept
  unfolding sweep_pages
  sweep max_pages page_size interval now s =
      if is_zero now
      then err invalid_input
      else sweep_pages max_pages (round_query page_size now (now +ℤ minus interval)) "" s
