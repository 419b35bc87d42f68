-- ===== src/EventStore/Keys.antt =====
-- crates/event-store/src/lib.rs, `keys`: the object keys of the events, by the UTC date.
pub mod Loops
pub mod Date
use Prim.Native.String.{String, ◌++◌}
use sulix_intelligence.Prelude.{
  ℕ, zero, suc, I64, ◌+◌, ◌-◌, ◌*◌, ◌/◌, ◌%◌, ◌^◌, Bool, ◌&&◌, ◌||◌, not, List, [], ◌∷◌, Option,
  none, some, ltb, ◌==◌, lt_i64, add_i64, sub_i64, if◌then◌else◌,
}
use sulix_intelligence.Prelude.Decimal.{padded}

-- `a.div_euclid(b)` of an i64 for a positive literal `b`: the quotient is rounded down.
abbrev pub div_euclid : I64 → ℕ → I64
div_euclid a b = if ltb a (2 ^ 63) then a / b else (2 ^ 64 - ((2 ^ 64 - a) + (b - 1)) / b) % 2 ^ 64

abbrev pub is_leap : ℕ → Bool
is_leap year = year % 4 == 0 && not (year % 100 == 0) || year % 400 == 0

abbrev pub days_in_year : ℕ → ℕ
days_in_year year = if is_leap year then 366 else 365

abbrev pub month_days : ℕ → List ℕ
month_days year =
    31 ∷ (if is_leap year then 29 else 28) ∷ 31 ∷ 30 ∷ 31 ∷ 30 ∷ 31 ∷ 31 ∷ 30 ∷ 31 ∷ 30 ∷ 31 ∷ []

-- The loop over the years, with the rest of the days. The year only grows from 1970.
unfoldable pub years : ℕ → ℕ → I64 → ℕ × I64
years zero year remaining = (year, remaining)
years (suc fuel) year remaining =
    let rest = years fuel (year + 1) (sub_i64 remaining (days_in_year year)) in
    if lt_i64 remaining (days_in_year year) then (year, remaining) else rest

-- The loop over the months: month 0 is what is left if none breaks it.
abbrev pub months : ℕ → List ℕ → I64 → ℕ × I64
months i [] remaining = (0, remaining)
months i (md ∷ mds) remaining =
    let rest = months (i + 1) mds (sub_i64 remaining md) in
    if lt_i64 remaining md then (i + 1, remaining) else rest

-- The year, the month and the day, as the casts to 32 bits leave them. A year has 365 days or more, which gives
-- the fuel.
unfoldable pub decompose_ts : I64 → ℕ × ℕ × ℕ
unfolding years
decompose_ts unix_secs =
    let days = div_euclid unix_secs 86400 in
    let (year, remaining) = years (suc (days / 365)) 1970 days in
    let (month, rest) = months 0 (month_days year) remaining in
    (year % 2 ^ 32, month, add_i64 rest 1 % 2 ^ 32)

-- `{:0w}` of an i32, from its pattern.
abbrev pub padded_i32 : ℕ → ℕ → String
padded_i32 w n = padded w (if ltb n (2 ^ 31) then n else n + (2 ^ 64 - 2 ^ 32))

-- `keys::event`
unfoldable pub event : String → I64 → String → String
unfolding decompose_ts
event aggregate_type occurred_at event_id =
    let (year, month, day) = decompose_ts occurred_at in
    "memory/events/"
    ++ aggregate_type
    ++ "/"
    ++ padded_i32 4 year
    ++ "/"
    ++ padded 2 month
    ++ "/"
    ++ padded 2 day
    ++ "/"
    ++ event_id
    ++ ".json"

-- `{}` of a u64.
abbrev pub decimal : ℕ → String
decimal n = if ltb n (2 ^ 63) then padded 1 n else padded 1 (n / 10) ++ padded 1 (n % 10)

unfoldable pub format_id : I64 → ℕ → String
format_id created_at seq = "evt_" ++ padded 1 created_at ++ "_" ++ decimal seq
