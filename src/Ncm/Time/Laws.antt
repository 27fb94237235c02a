-- ===== src/Ncm/Time/Laws.antt =====
-- What `due_slot` and `next_slot` return.
use mathlib.Core.Path.{subst}
use net_ops_guard.Prelude.{
  ℕ, zero, suc, ◌+◌, ◌-◌, ◌≤◌, ◌<◌, ◌≡◌, refl, String, Option, none, some, arith, Option-cases, inl,
  inr,
}
use net_ops_guard.Prelude.Result.{Result, ok, err}
use net_ops_guard.Ncm.Time.{
  Calendar, Clock, TimeError, validate_zone, occurrence, past_slot, future_slot, search_days,
  due_slot, next_slot,
}

module _ (calendar : Calendar) where
  -- The search returned the slot of the date `date (offset + k)`, and no date before it in the
  -- search had a slot that it accepts.
  pub record IsFound (accept : Option ℕ → Option ℕ) (date : ℕ → ℕ) (clock : Clock)
      (time_zone : Option String) (rounds offset : ℕ) (s : ℕ) : Type 0 where
    pub k : ℕ
    pub in_rounds : k < rounds
    pub slot : Option ℕ
    pub taken : occurrence calendar (date (offset + k)) clock time_zone ≡ ok slot
    pub is_accepted : accept slot ≡ some s
    pub skipped :
        (j : ℕ)
        → j < k
        → (o : Option ℕ) × (occurrence calendar (date (offset + j)) clock time_zone ≡ ok o)
          × (accept o ≡ none)

  module _ (accept : Option ℕ → Option ℕ) (date : ℕ → ℕ) (clock : Clock)
      (time_zone : Option String) where
    IsFound-later :
        (rounds offset s : ℕ) (slot : Option ℕ)
        → occurrence calendar (date offset) clock time_zone ≡ ok slot
        → accept slot ≡ none
        → IsFound accept date clock time_zone rounds (offset + 1) s
        → IsFound accept date clock time_zone (suc rounds) offset s
    IsFound-later rounds offset s slot here refused f = record {
      k = suc f.k;
      in_rounds = omega (arith, f.in_rounds);
      slot = f.slot;
      taken =
          subst (λ n. occurrence calendar (date n) clock time_zone ≡ ok f.slot) (omega arith)
            f.taken;
      is_accepted = f.is_accepted;
      skipped = skipped;
    }
      where
        skipped :
            (j : ℕ)
            → j < suc f.k
            → (o : Option ℕ) × (occurrence calendar (date (offset + j)) clock time_zone ≡ ok o)
              × (accept o ≡ none)
        skipped zero below = (
          slot,
          subst (λ n. occurrence calendar (date n) clock time_zone ≡ ok slot) (omega arith) here,
          refused,
        )
        skipped (suc j) below =
            let (o, e, no_slot) = f.skipped j (omega arith) in
            (
              o,
              subst (λ n. occurrence calendar (date n) clock time_zone ≡ ok o) (omega arith) e,
              no_slot,
            )

    abbrev Searched : ℕ → ℕ → ℕ → Type 0
    Searched rounds offset s = search_days calendar accept date clock time_zone rounds offset ≡ ok s

    search_step :
        (rounds offset s : ℕ) (r : Result TimeError (Option ℕ))
        → occurrence calendar (date offset) clock time_zone ≡ r
        → Searched (suc rounds) offset s
        → (Searched rounds (offset + 1) s
            → IsFound accept date clock time_zone rounds (offset + 1) s)
        → IsFound accept date clock time_zone (suc rounds) offset s
    unfolding search_days
    search_step rounds offset s (err e) here h rest = absurd (cc (rw here at h))
    search_step rounds offset s (ok slot) here h rest = elim (Option-cases (accept slot)) [
      | inl refused ↦
          IsFound-later rounds offset s slot here refused (rest (rw (here, refused) at h))
      | inr (s', taken) ↦ record {
        k = 0;
        in_rounds = omega arith;
        slot = slot;
        taken =
            subst (λ n. occurrence calendar (date n) clock time_zone ≡ ok slot) (omega arith) here;
        is_accepted = cc (taken, rw (here, taken) at h);
        skipped = λ j below. absurd (omega arith);
      }
    ]

    search_days-IsFound :
        (rounds offset s : ℕ)
        → Searched rounds offset s
        → IsFound accept date clock time_zone rounds offset s
    unfolding search_days
    search_days-IsFound zero offset s h = cc
    search_days-IsFound (suc rounds) offset s h =
        search_step rounds offset s (occurrence calendar (date offset) clock time_zone) refl h
          (search_days-IsFound rounds (offset + 1) s)

  search_of_due :
      (clock : Clock) (now : ℕ) (time_zone : Option String) (s : ℕ)
      → due_slot calendar clock now time_zone ≡ ok s
      → search_days calendar
          (past_slot now)
          (λ offset. calendar.local_day time_zone now - offset)
          clock
          time_zone
          8
          0
        ≡ ok s
  unfolding due_slot
  search_of_due clock now time_zone s h = go (validate_zone calendar time_zone) refl
    where
      go :
          (v : Result TimeError (Unit {0}))
          → validate_zone calendar time_zone ≡ v
          → search_days calendar
              (past_slot now)
              (λ offset. calendar.local_day time_zone now - offset)
              clock
              time_zone
              8
              0
            ≡ ok s
      go (err e) p = absurd (cc (rw p at h))
      go (ok u) p = rw p at h

  search_of_next :
      (clock : Clock) (after : ℕ) (time_zone : Option String) (s : ℕ)
      → next_slot calendar clock after time_zone ≡ ok s
      → search_days calendar
          (future_slot after)
          (λ offset. calendar.local_day time_zone after + offset)
          clock
          time_zone
          8
          0
        ≡ ok s
  unfolding next_slot
  search_of_next clock after time_zone s h = go (validate_zone calendar time_zone) refl
    where
      go :
          (v : Result TimeError (Unit {0}))
          → validate_zone calendar time_zone ≡ v
          → search_days calendar
              (future_slot after)
              (λ offset. calendar.local_day time_zone after + offset)
              clock
              time_zone
              8
              0
            ≡ ok s
      go (err e) p = absurd (cc (rw p at h))
      go (ok u) p = rw p at h

  past_slot-le :
      (now : ℕ) (o : Option ℕ) (s : ℕ) → past_slot now o ≡ some s → (s ≤ now) × (o ≡ some s)
  past_slot-le now o s h = ground arith

  future_slot-lt :
      (after : ℕ) (o : Option ℕ) (s : ℕ) → future_slot after o ≡ some s → (after < s) × (o ≡ some s)
  future_slot-lt after o s h = ground arith

  -- A slot that `due_slot` returns is not after the present. It is the occurrence of one of the
  -- last eight local dates, today's included, and every later date up to today has no occurrence,
  -- or one in the future.
  pub due_slot-IsFound :
      (clock : Clock) (now : ℕ) (time_zone : Option String) (s : ℕ)
      → due_slot calendar clock now time_zone ≡ ok s
      → (s ≤ now)
        × IsFound
            (past_slot now)
            (λ offset. calendar.local_day time_zone now - offset)
            clock
            time_zone
            8
            0
            s
  due_slot-IsFound clock now time_zone s h =
      let f =
        search_days-IsFound (past_slot now) _ clock time_zone 8 0 s
          (search_of_due clock now time_zone s h) in
      ((past_slot-le now f.slot s f.is_accepted).0, f)

  -- A slot that `next_slot` returns lies after the given instant. It is the occurrence of one of
  -- the next eight local dates, that of the instant included, and every earlier one of them has no
  -- occurrence, or one that has passed.
  pub next_slot-IsFound :
      (clock : Clock) (after : ℕ) (time_zone : Option String) (s : ℕ)
      → next_slot calendar clock after time_zone ≡ ok s
      → (after < s)
        × IsFound
            (future_slot after)
            (λ offset. calendar.local_day time_zone after + offset)
            clock
            time_zone
            8
            0
            s
  next_slot-IsFound clock after time_zone s h =
      let f =
        search_days-IsFound (future_slot after) _ clock time_zone 8 0 s
          (search_of_next clock after time_zone s h) in
      ((future_slot-lt after f.slot s f.is_accepted).0, f)
