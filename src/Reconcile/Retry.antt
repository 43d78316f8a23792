-- ===== src/Reconcile/Retry.antt =====
-- internal/reconcile/retry_policy.go and internal/reconcile/retry_classifier.go: what kind of
-- failure an error is, and what to do about it.
use mini_sand_box.Prelude.{
  ℕ, Bool, true, false, not, ◌&&◌, ◌||◌, String, Option, none, some, is_empty, Result, ok, err, ltb,
  ◌==◌, if◌then◌else◌,
}
pub mod Converge

-- `other` is an operation or a class that the program does not define.
pub data RetryOperation : Type 0 where
  create start health delete expire cleanup recover : RetryOperation
  other : String → RetryOperation

-- `no_class` is the empty class of a success.
pub data RetryErrorClass : Type 0 where
  shutdown conflict transient permanent already_absent no_class : RetryErrorClass
  other : String → RetryErrorClass

-- `no_action` is the empty action of a decision that comes with an error.
pub data RetryAction : Type 0 where
  retry_at do_not_retry immediate_reread no_action : RetryAction

pub record RetryDecision : Type 0 where
  pub action : RetryAction
  pub account_failure : Bool
  pub must_converge : Bool

pub data PolicyError : Type 0 where
  invalid_policy_input already_absent_not_convergent : PolicyError

abbrev pub valid_retry_operation : RetryOperation → Bool
valid_retry_operation (RetryOperation.other s) = false
valid_retry_operation _ = true

abbrev pub valid_retry_error_class : RetryErrorClass → Bool
valid_retry_error_class no_class = false
valid_retry_error_class (RetryErrorClass.other s) = false
valid_retry_error_class _ = true

-- The operations delete, expire and cleanup.
abbrev pub must_converge_operation : RetryOperation → Bool
must_converge_operation delete = true
must_converge_operation expire = true
must_converge_operation cleanup = true
must_converge_operation _ = false

decide_class : Bool → RetryErrorClass → Result PolicyError RetryDecision
decide_class must shutdown =
    ok (record { action = do_not_retry; account_failure = false; must_converge = must })
decide_class must conflict =
    ok (record { action = immediate_reread; account_failure = false; must_converge = must })
decide_class must transient =
    ok (record { action = retry_at; account_failure = true; must_converge = must })
decide_class must permanent =
    ok (record { action = do_not_retry; account_failure = true; must_converge = must })
decide_class must already_absent =
    if not must
    then err already_absent_not_convergent
    else ok (record { action = do_not_retry; account_failure = false; must_converge = must })
decide_class must _ =
    ok (record { action = no_action; account_failure = false; must_converge = must })

-- The attempt of the input is not read.
unfoldable pub decide_retry : RetryOperation → RetryErrorClass → Result PolicyError RetryDecision
unfolding decide_class
decide_retry operation class =
    if not (valid_retry_operation operation) || not (valid_retry_error_class class)
    then err invalid_policy_input
    else decide_class (must_converge_operation operation) class

-- What `errors.Is` and `errors.As` answer about an error, one field for each question that the
-- classifier asks. `reasoned` is the verdict of `runtime.ClassifyError` on an error that carries a
-- reason: the reason and whether it is retryable; `unavailable` is the answer of the error's own
-- method, where it has one.
pub record ErrorFacts : Type 0 where
  pub is_canceled : Bool
  pub reasoned : Option (String × Bool)
  pub is_conflict : Bool
  pub is_lease_conflict : Bool
  pub is_not_found : Bool
  pub is_protocol_mismatch_error : Bool
  pub is_authentication_error : Bool
  pub is_runner_protocol_mismatch : Bool
  pub is_egress_policy_invalid : Bool
  pub is_outbound_not_allowed : Bool
  pub is_corrupt : Bool
  pub is_invalid : Bool
  pub status_code : Option ℕ
  pub is_deadline_exceeded : Bool
  pub is_connection_error : Bool
  pub is_socket_missing_error : Bool
  pub is_unhealthy_error : Bool
  pub is_timeout_error : Bool
  pub unavailable : Option Bool
  pub is_runner_unhealthy : Bool
  pub is_egress_not_ready : Bool
  pub is_egress_unhealthy : Bool
  pub is_egress_image_unavailable : Bool

pub record RetryClassification : Type 0 where
  pub error_class : RetryErrorClass
  pub successful : Bool
  pub reason : String

abbrev classed : RetryErrorClass → RetryClassification
classed c = record { error_class = c; successful = false; reason = "" }

abbrev answers_true : Option Bool → Bool
answers_true (some b) = b
answers_true none = false

-- The last test of the classifier has the same result on both branches.
classify_transient : ErrorFacts → RetryClassification
classify_transient e =
    if e.is_deadline_exceeded
      || e.is_connection_error
      || e.is_socket_missing_error
      || e.is_unhealthy_error
      || e.is_timeout_error
      || answers_true e.unavailable
      || e.is_runner_unhealthy
      || e.is_egress_not_ready
      || e.is_egress_unhealthy
      || e.is_egress_image_unavailable
    then classed transient
    else classed transient

classify_status : Option ℕ → ErrorFacts → RetryClassification
unfolding classify_transient
classify_status none e = classify_transient e
classify_status (some code) e =
    if code == 401 || code == 403 || ltb code 500 then classed permanent else classed transient

classify_permanent : ErrorFacts → RetryClassification
unfolding classify_status
classify_permanent e =
    if e.is_protocol_mismatch_error || e.is_authentication_error || e.is_runner_protocol_mismatch
      || e.is_egress_policy_invalid || e.is_outbound_not_allowed || e.is_corrupt || e.is_invalid
    then classed permanent
    else classify_status e.status_code e

classify_store : RetryOperation → ErrorFacts → RetryClassification
unfolding classify_permanent
classify_store operation e =
    if e.is_conflict || e.is_lease_conflict
    then classed conflict
    else if e.is_not_found
    then (if must_converge_operation operation
        then record { error_class = already_absent; successful = true; reason = "" }
        else classed transient)
    else classify_permanent e

classify_reason : RetryOperation → ErrorFacts → Option (String × Bool) → RetryClassification
unfolding classify_store
classify_reason operation e none = classify_store operation e
classify_reason operation e (some (reason, retryable)) =
    if is_empty reason then classify_store operation e else record {
      error_class = if retryable then transient else permanent;
      successful = false;
      reason = reason;
    }

-- `none` is a nil error.
unfoldable pub classify_retry_error : RetryOperation → Option ErrorFacts → RetryClassification
unfolding classify_reason
classify_retry_error operation none = record {
  error_class = no_class;
  successful = true;
  reason = "";
}
classify_retry_error operation (some e) =
    if e.is_canceled then classed shutdown else classify_reason operation e e.reasoned
