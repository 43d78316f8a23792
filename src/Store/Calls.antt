-- ===== src/Store/Calls.antt =====
-- internal/store/sqlite/store.go: any list of calls that change the database, each one carried out or
-- failed and rolled back. The recycling of idempotency records is not among them.
use mini_sand_box.Prelude.{
  ℕ, Bool, true, false, String, List, [], ◌∷◌, Option, none, some, Result, ok, err,
}
use mini_sand_box.Prelude.Int.{ℤ}
use mini_sand_box.Domain.States.{DesiredState}
use mini_sand_box.Domain.Sandboxes.{Sandbox, SandboxSpec}
use mini_sand_box.Application.Renew.{RenewUpdate}
use mini_sand_box.Store.Lifecycle.{
  Table, StoreError, Answer, transact, ObservedUpdate, ExpireIntentUpdate, RetryUpdate,
  RetryResetUpdate, HealthResultUpdate, update_observed,
}
use mini_sand_box.Store.Lifecycle.Updates.{
  update_desired, renew, expire_intent, schedule_retry, reset_retry, record_health_result,
}
use mini_sand_box.Store.Tokens.{StoredIdempotencyResponse}
use mini_sand_box.Store.Creates.{
  Database, IdempotentCreateRequest, create_non_idempotent, import_recovered,
}
use mini_sand_box.Store.Creates.Idempotent.{create_idempotent}
pub mod History
pub mod Records
pub mod Replay

pub data Update : Type 0 where
  observed : ℤ → ObservedUpdate → Update
  desired : ℤ → String → DesiredState → ℕ → Update
  renewed : RenewUpdate → Update
  expired : ExpireIntentUpdate → Update
  retried : RetryUpdate → Update
  reset : RetryResetUpdate → Update
  checked : HealthResultUpdate → Update

pub data StoreCall : Type 0 where
  idempotent : IdempotentCreateRequest → StoreCall
  plain : ℤ → Sandbox → StoreCall
  recovered : Sandbox → StoreCall
  update : Update → StoreCall

module _ (behind : ℤ → ℤ → Bool) where
  unfoldable pub write : Update → Table → Answer
  unfolding update_observed update_desired renew expire_intent schedule_retry reset_retry
      record_health_result
  write (observed now u) t = update_observed now u t
  write (desired now id d expected) t = update_desired behind now id d expected t
  write (renewed u) t = renew behind u t
  write (expired u) t = expire_intent behind u t
  write (retried u) t = schedule_retry u t
  write (reset u) t = reset_retry u t
  write (checked u) t = record_health_result u t

  module _ (hash : SandboxSpec → String) (decode : List ℕ → Option StoredIdempotencyResponse)
      (json_valid : List ℕ → Bool) where
    unfoldable pub act : Bool → StoreCall → Database → Database
    unfolding write transact create_idempotent create_non_idempotent import_recovered
    act committed (idempotent r) db = (create_idempotent hash decode json_valid committed r db).0
    act committed (plain max s) db = (create_non_idempotent hash committed max s db).0
    act committed (recovered s) db = (import_recovered hash committed s db).0
    act committed (update u) db = record db {
      sandboxes = (transact committed (write u) db.sandboxes).0;
    }

    unfoldable pub run : List (Bool × StoreCall) → Database → Database
    unfolding act
    run [] db = db
    run ((committed, call) ∷ calls) db = run calls (act committed call db)
