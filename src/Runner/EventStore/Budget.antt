-- ===== src/Runner/EventStore/Budget.antt =====
-- Any run of `AppendOutput` calls of internal/runner/event_store.go against its specification: the
-- store keeps the first bytes of the whole output, up to the budget.
use mini_sand_box.Prelude.{
  ℕ, zero, suc, ◌+◌, ◌*◌, ◌-◌, ◌≤◌, ◌<◌, ◌≡◌, refl, ◌∙◌, sym, Bool, true, false, ◌&&◌, ◌||◌, List,
  [], ◌∷◌, ◌++◌, length, take, is_none, ltb, arith, length-append, Bool-cases, inl, inr,
}
use mathlib.Core.List.{append-nil, append_assoc}
use mini_sand_box.Prelude.Int.{ℤ}
use mini_sand_box.Prelude.Base64.{IsBytes}
use mini_sand_box.Protocol.Events.{is_zero}
use mini_sand_box.Runner.Sequencer.{answered}
use mini_sand_box.Runner.EventStore.{
  EventStore, RawOutputChunk, append_output, known_stream, remaining, exceeds, notify_grown,
}
use mini_sand_box.Runner.EventStore.Output.{IsReady, stored_bytes, after_retained}
use mini_sand_box.Runner.EventStore.Output.Kept.{
  Holds, after_retained-Holds, after_limit, after_limit-Holds, after_append, append_output_answered,
  length-take-retained,
}

-- A chunk, and the clock at its output event and at its limit event.
abbrev pub Append : Type 0
Append = ℤ × ℤ × RawOutputChunk

abbrev pub IsGood : Append → Type 0
IsGood (now, now', c) =
    (is_zero now ≡ false)
    × (is_zero now' ≡ false)
    × (known_stream c.stream ≡ true)
    × IsBytes c.bytes

abbrev pub AreGood : List Append → Type 0
AreGood [] = Unit
AreGood (a ∷ l) = IsGood a × AreGood l

-- The store after the appends, and whether each of them returned no error.
unfoldable pub append_all : EventStore → List Append → EventStore × Bool
append_all s [] = (s, true)
append_all s ((now, now', c) ∷ l) =
    let (t, error) = append_output (answered, now) (answered, now') s c in
    let (u, good) = append_all t l in (u, is_none error && good)

-- The whole output of the process, in the order of the chunks.
abbrev pub total : List Append → List ℕ
total [] = []
total ((now, now', c) ∷ l) = c.bytes ++ total l

take-none : (n : ℕ) (ys : List ℕ) → n ≡ 0 → take n ys ≡ []
take-none zero ys h = refl
take-none (suc n) ys h = absurd (omega arith)

take-append : (n : ℕ) (xs ys : List ℕ) → take n (xs ++ ys) ≡ take n xs ++ take (n - length xs) ys
take-append zero xs ys = sym (take-none (0 - length xs) ys (omega arith))
take-append (suc n) [] ys = ground arith
take-append (suc n) (x ∷ xs) ys = ground (arith, take-append n xs ys)

-- One append, in the terms of the budget.
record Appended (s t : EventStore) (c : RawOutputChunk) : Type 0 where
  ready : IsReady t
  bytes : stored_bytes t.events ≡ stored_bytes s.events ++ take (remaining s) c.bytes
  left : remaining t ≡ remaining s - length c.bytes
  budget : t.max_output_bytes ≡ s.max_output_bytes
  number : t.sequencer.sequence ≤ s.sequencer.sequence + 2
  flag : t.output_truncated ≡ (s.output_truncated || ltb (remaining s) (length c.bytes))

fits-Appended :
    (s t : EventStore) (c : RawOutputChunk)
    → Holds s t (take (remaining s) c.bytes)
    → t.output_truncated ≡ s.output_truncated
    → exceeds s c ≡ false
    → Appended s t c
fits-Appended s t c h f e = record {
  ready = h.ready;
  bytes = h.bytes;
  left = ground (arith, h.spent, h.budget, length-take-retained s c);
  budget = h.budget;
  number = omega (arith, h.number);
  flag = ground arith;
}

limit-Appended :
    (s t u : EventStore) (c : RawOutputChunk)
    → IsReady s
    → Holds s t (take (remaining s) c.bytes)
    → Holds t u []
    → u.output_truncated ≡ true
    → exceeds s c ≡ true
    → Appended s u c
limit-Appended s t u c r h h' f e = record {
  ready = h'.ready;
  bytes = ground (arith, h.bytes, h'.bytes, append-nil (stored_bytes t.events));
  left = ground (arith, h.spent, h.budget, h'.spent, h'.budget, length-take-retained s c, r.within);
  budget = h'.budget ∙ h.budget;
  number = omega (arith, h.number, h'.number);
  flag = ground arith;
}

after_limit_flag : (now : ℤ) (s : EventStore) → (after_limit now s).output_truncated ≡ true
unfolding after_limit
after_limit_flag now s = ground arith

after_retained_flag :
    (now : ℤ) (s : EventStore) (c : RawOutputChunk)
    → (after_retained now s c).output_truncated ≡ s.output_truncated
unfolding after_retained
after_retained_flag now s c = ground arith

notify_grown-Appended :
    (before : ℕ) (s t : EventStore) (c : RawOutputChunk)
    → Appended s t c
    → Appended s (notify_grown before t) c
unfolding notify_grown
notify_grown-Appended before s t c h = ground arith

after_append-Appended :
    (now now' : ℤ) (s : EventStore) (c : RawOutputChunk)
    → IsReady s
    → known_stream c.stream ≡ true
    → IsBytes c.bytes
    → Appended s (after_append now now' s c) c
after_append-Appended now now' s c r k b =
    let h = after_retained-Holds now s c r k b in
    let t = after_retained now s c in
    notify_grown-Appended (length s.events) s _ c (elim (Bool-cases (exceeds s c)) [
      | inl e ↦ rw e (
          limit-Appended s t (after_limit now' t) c r h (after_limit-Holds now' t h.ready)
            (after_limit_flag now' t) e)
      | inr e ↦ rw e (fits-Appended s t c h (after_retained_flag now s c) e)
    ])

-- What a run of appends must do to the store.
record Meets (s t : EventStore) (output : List ℕ) : Type 0 where
  pub bytes : stored_bytes t.events ≡ stored_bytes s.events ++ take (remaining s) output
  pub flag : t.output_truncated ≡ (s.output_truncated || ltb (remaining s) (length output))
  pub ready : IsReady t

Meets-cons :
    (s t u : EventStore) (c : RawOutputChunk) (output : List ℕ)
    → Appended s t c
    → Meets t u output
    → Meets s u (c.bytes ++ output)
Meets-cons s t u c output a m = record {
  bytes =
      m.bytes
      ∙ rw (a.bytes, a.left, take-append (remaining s) c.bytes output)
          (append_assoc (stored_bytes s.events) (take (remaining s) c.bytes) _);
  flag = ground (arith, m.flag, a.flag, a.left, length-append c.bytes output);
  ready = m.ready;
}

take_empty : (n : ℕ) → take {A = ℕ} n [] ≡ []
take_empty zero = refl
take_empty (suc n) = refl

append_all-Meets :
    (s : EventStore) (l : List Append)
    → IsReady s
    → s.sequencer.sequence + 2 * length l < 18446744073709551616
    → AreGood l
    → ((append_all s l).1 ≡ true) × Meets s (append_all s l).0 (total l)
unfolding append_all
append_all-Meets s [] r b g = (refl, record { bytes = nothing; flag = ground arith; ready = r })
  where
    nothing : stored_bytes s.events ≡ stored_bytes s.events ++ take (remaining s) []
    nothing = rw (take_empty (remaining s)) (sym (append-nil (stored_bytes s.events)))
append_all-Meets s ((now, now', c) ∷ l) r b g =
    let step = append_output_answered now now' s c r (omega arith) g.0.0 g.0.1 g.0.2 g.0.3 in
    let a = after_append-Appended now now' s c r g.0.2 g.0.3 in
    let (good, m) =
      append_all-Meets (after_append now now' s c) l a.ready (omega (arith, a.number)) g.1 in
    rw step (good, Meets-cons s (after_append now now' s c) _ c (total l) a m)

-- Whatever chunks a started store is given, all appends succeed when the sequencer answers, and
-- the store then holds, behind what it held, exactly the first bytes of the output up to the
-- budget that was left; the flag says whether some of the output was dropped.
pub append_all_budget :
    (s : EventStore) (l : List Append)
    → IsReady s
    → s.sequencer.sequence + 2 * length l < 18446744073709551616
    → AreGood l
    → let (t, good) = append_all s l in
      (good ≡ true)
      × (stored_bytes t.events
          ≡ stored_bytes s.events ++ take (s.max_output_bytes - s.output_bytes) (total l))
      × (t.output_truncated
          ≡ (s.output_truncated || ltb (s.max_output_bytes - s.output_bytes) (length (total l))))
append_all_budget s l r b g = let (good, m) = append_all-Meets s l r b g in (good, m.bytes, m.flag)
