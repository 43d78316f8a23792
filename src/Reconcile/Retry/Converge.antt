-- ===== src/Reconcile/Retry/Converge.antt =====
-- Classifier and policy together: no failure of internal/reconcile is without a decision.
use mini_sand_box.Prelude.{
  ℕ, String, ◌≡◌, refl, ◌∙◌, Bool, true, false, Option, none, some, ok, arith,
}
use mini_sand_box.Reconcile.Retry.{
  RetryOperation, RetryErrorClass, RetryAction, shutdown, conflict, transient, permanent,
  already_absent, no_class, retry_at, do_not_retry, valid_retry_operation, valid_retry_error_class,
  must_converge_operation, decide_retry, decide_class, ErrorFacts, RetryDecision,
  classify_retry_error, classify_reason, classify_store, classify_permanent, classify_status,
  classify_transient,
}

-- The classes that the classifier may give to a failure of the operation.
abbrev possible : RetryOperation → RetryErrorClass → Bool
possible operation already_absent = must_converge_operation operation
possible operation c = valid_retry_error_class c

-- The last test of the classifier decides nothing.
classify_transient_class : (e : ErrorFacts) → (classify_transient e).error_class ≡ transient
unfolding classify_transient
classify_transient_class e = ground arith

classify_status-possible :
    (operation : RetryOperation) (code : Option ℕ) (e : ErrorFacts)
    → possible operation (classify_status code e).error_class ≡ true
unfolding classify_status
classify_status-possible operation none e = rw (classify_transient_class e)
classify_status-possible operation (some code) e = ground arith

classify_permanent-possible :
    (operation : RetryOperation) (e : ErrorFacts)
    → possible operation (classify_permanent e).error_class ≡ true
unfolding classify_permanent
classify_permanent-possible operation e =
    let h = classify_status-possible operation e.status_code e in ground arith

classify_store-possible :
    (operation : RetryOperation) (e : ErrorFacts)
    → possible operation (classify_store operation e).error_class ≡ true
unfolding classify_store
classify_store-possible operation e =
    let h = classify_permanent-possible operation e in ground arith

classify_reason-possible :
    (operation : RetryOperation) (e : ErrorFacts) (found : Option (String × Bool))
    → possible operation (classify_reason operation e found).error_class ≡ true
unfolding classify_reason
classify_reason-possible operation e none = classify_store-possible operation e
classify_reason-possible operation e (some (reason, retryable)) =
    let h = classify_store-possible operation e in ground arith

classify_possible :
    (operation : RetryOperation) (e : ErrorFacts)
    → possible operation (classify_retry_error operation (some e)).error_class ≡ true
unfolding classify_retry_error
classify_possible operation e =
    let h = classify_reason-possible operation e e.reasoned in ground arith

abbrev pub is_retry : RetryAction → Bool
is_retry retry_at = true
is_retry _ = false

abbrev pub is_transient : RetryErrorClass → Bool
is_transient transient = true
is_transient _ = false

-- There is a decision, it carries the operation's own flag, and it is a retry in the case of a
-- transient class and no other.
pub record Decides (operation : RetryOperation) (c : RetryErrorClass) : Type 0 where
  pub decision : RetryDecision
  pub decided : decide_retry operation c ≡ ok decision
  pub flag_kept : decision.must_converge ≡ must_converge_operation operation
  pub retried : is_retry decision.action ≡ is_transient c

decide_class_Decides :
    (operation : RetryOperation) (c : RetryErrorClass) (d : RetryDecision)
    → decide_retry operation c ≡ ok d
    → d.must_converge ≡ must_converge_operation operation
    → is_retry d.action ≡ is_transient c
    → Decides operation c
decide_class_Decides operation c d decided kept retried = record {
  decision = d;
  decided = decided;
  flag_kept = kept;
  retried = retried;
}

decide_valid :
    (operation : RetryOperation) (valid : valid_retry_operation operation ≡ true)
    (c : RetryErrorClass)
    → valid_retry_error_class c ≡ true
    → decide_retry operation c ≡ decide_class (must_converge_operation operation) c
unfolding decide_retry
decide_valid operation valid c class_valid = cc

possible-Decides :
    (operation : RetryOperation) (valid : valid_retry_operation operation ≡ true)
    (c : RetryErrorClass)
    → possible operation c ≡ true
    → Decides operation c
unfolding decide_class
possible-Decides operation valid shutdown p =
    decide_class_Decides operation shutdown _ (decide_valid operation valid shutdown refl) refl refl
possible-Decides operation valid conflict p =
    decide_class_Decides operation conflict _ (decide_valid operation valid conflict refl) refl refl
possible-Decides operation valid transient p =
    decide_class_Decides operation transient _ (decide_valid operation valid transient refl) refl
      refl
possible-Decides operation valid permanent p =
    decide_class_Decides operation permanent _ (decide_valid operation valid permanent refl) refl
      refl
possible-Decides operation valid already_absent p =
    decide_class_Decides operation already_absent
      (record {
        action = do_not_retry;
        account_failure = false;
        must_converge = must_converge_operation operation;
      })
      (decide_valid operation valid already_absent refl ∙ rw p) refl refl
possible-Decides operation valid no_class p = absurd (ground arith)
possible-Decides operation valid (RetryErrorClass.other name) p = absurd (ground arith)

-- Whatever error a valid operation fails with, the classifier gives it a class that the policy has
-- a decision for; the decision carries the operation's own must-converge flag, and it is a retry
-- when the class is transient and not otherwise.
pub classify_retry_error-Decides :
    (operation : RetryOperation) (valid : valid_retry_operation operation ≡ true) (e : ErrorFacts)
    → Decides operation (classify_retry_error operation (some e)).error_class
classify_retry_error-Decides operation valid e =
    possible-Decides operation valid _ (classify_possible operation e)
