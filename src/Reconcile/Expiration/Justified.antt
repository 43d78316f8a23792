-- ===== src/Reconcile/Expiration/Justified.antt =====
-- internal/reconcile/ttl_expiration.go: what a lease timer terminates.
use mini_sand_box.Prelude.{
  ℕ, ◌+◌, ◌≡◌, refl, Bool, true, false, not, ◌||◌, String, List, [], ◌∷◌, Option, none, some,
  Result, ok, err, is_empty, if◌then◌else◌, ◌⊎◌, arith,
}
use mini_sand_box.Prelude.Int.{ℤ, lt, eq}
use mini_sand_box.Prelude.Maps.{lookup, insert}
use mini_sand_box.Protocol.Events.{is_zero}
use mini_sand_box.Domain.States.{
  is_state, is_desired, desired_running, desired_terminated, terminated,
}
use mini_sand_box.Domain.Sandboxes.{Sandbox}
use mini_sand_box.Store.Lifecycle.{Table, StoreError, invalid, Answer}
use mini_sand_box.Reconcile.Expiration.{
  TtlHeapEntry, TtlEffect, upsert, remove, woken, ValidatedTtl, rejected, settled, due, Expiry,
}

-- One of the effects is a wake-up, which only a commit is followed by.
unfoldable pub wakes : List TtlEffect → Bool
wakes [] = false
wakes (woken id ∷ rest) = true
wakes (upsert e ∷ rest) = wakes rest
wakes (remove id ∷ rest) = wakes rest

-- A record of the table was desired running, not terminated, and had the lease of the entry, which
-- had ended by the reading of the clock in the attempt; a record that is to be terminated was written
-- over it, with the next revision and at that time.
abbrev pub Expires : (ℕ → ℤ) → TtlHeapEntry → Table → Type 0
Expires clock entry t =
    (s : Table) × (id : String) × (old new : Sandbox) × (end : ℤ) × (attempt : ℕ) × (lookup id s
      ≡ some old)
    × (old.expires_at ≡ some end)
    × (eq end entry.expected_expires_at ≡ true)
    × (lt (clock attempt) entry.expected_expires_at ≡ false)
    × (new.updated_at ≡ clock attempt)
    × (is_desired old.desired_state desired_running ≡ true)
    × (is_state old.observed_state terminated ≡ false)
    × (new.desired_state ≡ desired_terminated)
    × (new.revision ≡ old.revision + 1)
    × (t ≡ insert id new s)

unrefused_false :
    (refuses : Bool) (t u : Table) (e : StoreError) (row : Sandbox) (answer : Answer)
    → (if refuses then (t, err e) else answer) ≡ (u, ok row)
    → refuses ≡ false
unrefused_false true t u e row answer h = ground arith
unrefused_false false t u e row answer h = refl

abbrev pub is_invalid : Option StoreError → Bool
is_invalid (some invalid) = true
is_invalid _ = false

abbrev pub error_of : {A : Type 0} → Result StoreError A → Option StoreError
error_of (ok a) = none
error_of (err e) = some e

-- The check of a lease does not wake anybody and does not refuse the entry, and a lease that it finds
-- due has ended by the time that it was given.
abbrev pub Vetted : ℤ → TtlHeapEntry → ValidatedTtl → Type 0
Vetted now entry (rejected e effects) = (wakes effects ≡ false) × (is_invalid (some e) ≡ false)
Vetted now entry (settled effects) = wakes effects ≡ false
Vetted now entry (due row at) = (at ≡ now) × (lt now entry.expected_expires_at ≡ false)

-- An entry that can be checked.
abbrev pub is_set : TtlHeapEntry → Bool
is_set entry = not (is_empty entry.sandbox_id || is_zero entry.expected_expires_at)

-- A call that does not refuse the entry, and that wakes the queue only after what `P` says.
abbrev pub Sound : (Table → Type 0) → Expiry → Type 0
Sound P x = (is_invalid x.2 ≡ false) × ((wakes x.1 ≡ false) ⊎ P x.0)
