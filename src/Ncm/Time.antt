-- ===== src/Ncm/Time.antt =====
-- app/services/schedule_time.py. An instant is a number of microseconds in UTC, a date is its
-- ordinal (the dates before the first eight days of the calendar are not modelled). The time zone
-- database and Unicode's decimal digits are the record `Calendar`.
pub mod Laws
use net_ops_guard.Prelude.{
  ℕ, zero, suc, ◌+◌, ◌-◌, ◌*◌, ◌≤◌, String, Option, none, some, Bool, true, false, ◌&&◌, List, [],
  ◌∷◌, leb, ltb, ◌==◌, if◌then◌else◌,
}
use net_ops_guard.Prelude.Maybe
use net_ops_guard.Prelude.Result.{Result, ok, err, ◌>>=◌, ◌>>◌}

pub data TimeError : Type 0 where
  invalid_zone invalid_clock no_occurrence : TimeError

-- `local_instant` is the round trip of `occurrence`: `none` for a local time that does not exist
-- on that date, and the first of two instants with that local time.
pub record Calendar : Type 0 where
  pub zone_known : String → Bool
  pub digit : ℕ → Option ℕ
  pub local_day : Option String → ℕ → ℕ
  pub local_instant : (time_zone : Option String) (day hour minute : ℕ) → Option ℕ

-- A clock text by its code points.
abbrev pub Clock : Type 0
Clock = List ℕ

abbrev pub guard : Bool → TimeError → Result TimeError (Unit {0})
guard true e = ok tt
guard false e = err e

-- `slot is not None and slot <= now`, and the slot.
abbrev pub past_slot : ℕ → Option ℕ → Option ℕ
past_slot now none = none
past_slot now (some slot) = if leb slot now then some slot else none

abbrev pub future_slot : ℕ → Option ℕ → Option ℕ
future_slot now none = none
future_slot now (some slot) = if ltb now slot then some slot else none

module _ (calendar : Calendar) where
  unfoldable pub validate_zone : Option String → Result TimeError (Unit {0})
  validate_zone none = ok tt
  validate_zone (some value) = guard (calendar.zone_known value) invalid_zone

  -- `([01]\d|2[0-3])`
  hour_of : ℕ → ℕ → Option ℕ
  hour_of a b =
      if a == b'0'
      then calendar.digit b
      else if a == b'1'
      then Maybe.◌>>=◌ (calendar.digit b) (λ u. some (10 + u))
      else if a == b'2' && (leb b'0' b && leb b b'3')
      then some (20 + (b - b'0'))
      else none

  -- `[0-5]\d`
  minute_of : ℕ → ℕ → Option ℕ
  minute_of a b =
      if leb b'0' a && leb a b'5'
      then Maybe.◌>>=◌ (calendar.digit b) (λ u. some (10 * (a - b'0') + u))
      else none

  unfoldable pub parse_clock : Clock → Option (ℕ × ℕ)
  unfolding hour_of minute_of
  parse_clock (a ∷ b ∷ c ∷ d ∷ e ∷ []) =
      if c == b':'
      then Maybe.◌>>=◌ (hour_of a b) (λ h. Maybe.◌>>=◌ (minute_of d e) (λ m. some (h, m)))
      else none
  parse_clock _ = none

  occurrence_at : Option (ℕ × ℕ) → ℕ → Option String → Result TimeError (Option ℕ)
  occurrence_at none day time_zone = err invalid_clock
  occurrence_at (some (hour, minute)) day time_zone = do
    validate_zone time_zone
    ok (calendar.local_instant time_zone day hour minute)

  unfoldable pub occurrence : ℕ → Clock → Option String → Result TimeError (Option ℕ)
  unfolding occurrence_at parse_clock validate_zone
  occurrence day clock time_zone = occurrence_at (parse_clock clock) day time_zone

  -- The loop over `offset`, in which `rounds` rounds are left. `date` is the date of an offset.
  search_days : (Option ℕ → Option ℕ) → (ℕ → ℕ) → Clock → Option String → ℕ → ℕ → Result TimeError ℕ
  search_days accept date clock time_zone zero offset = err no_occurrence
  search_days accept date clock time_zone (suc rounds) offset = do
    slot ← occurrence (date offset) clock time_zone
    elim (accept slot) [
      | some s ↦ ok s
      | none ↦ search_days accept date clock time_zone rounds (offset + 1)
    ]

  unfoldable pub due_slot : Clock → ℕ → Option String → Result TimeError ℕ
  unfolding search_days occurrence validate_zone
  due_slot clock now time_zone = do
    validate_zone time_zone
    search_days (past_slot now) (λ offset. calendar.local_day time_zone now - offset) clock
        time_zone 8 0

  unfoldable pub next_slot : Clock → ℕ → Option String → Result TimeError ℕ
  unfolding search_days occurrence validate_zone
  next_slot clock after time_zone = do
    validate_zone time_zone
    search_days (future_slot after) (λ offset. calendar.local_day time_zone after + offset) clock
        time_zone 8 0
