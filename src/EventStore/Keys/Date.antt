-- ===== src/EventStore/Keys/Date.antt =====
-- crates/event-store/src/lib.rs, `keys::decompose_ts`: from 1970 on the date is that of the day number, and before
-- 1970 it is no date.
use sulix_intelligence.Prelude.{
  ap, ℕ, suc, I64, ◌+◌, ◌-◌, ◌/◌, ◌%◌, ◌^◌, ◌≤◌, ◌<◌, ◌≡◌, refl, arith, lt_i64, add_i64, take,
  get_elem, true,
}
use sulix_intelligence.EventStore.Keys.{month_days, years, months, decompose_ts, div_euclid}
use sulix_intelligence.EventStore.Keys.Loops.{
  span, total, day_number, days_in_year-bounds, total-month_days, span-le, span-leaps, leaps,
  years-span, months-total, get_elem-All, month_days-All,
}

-- What a date is for the day number `n`.
pub record IsDate (n year month day : ℕ) : Type 0 where
  pub year_from : 1970 ≤ year
  pub month_from : 1 ≤ month
  pub month_to : month ≤ 12
  pub day_from : 1 ≤ day
  pub day_to : day ≤ get_elem (month_days year) (month - 1)
  pub number : day_number year month day ≡ n

IsDate-from :
    (n year k r m rest : ℕ)
    → year ≡ 1970 + k
    → n ≡ span 1970 k + r
    → r ≡ total (take m (month_days year)) + rest
    → m < 12
    → rest < get_elem (month_days year) m
    → IsDate n year (m + 1) (rest + 1)
IsDate-from n year k r m rest at sum sum_m month room =
    let months_on : m + 1 - 1 ≡ m = omega arith in
    record {
      year_from = omega arith;
      month_from = omega arith;
      month_to = omega arith;
      day_from = omega arith;
      day_to = rw months_on (omega arith);
      number = rw months_on (omega (arith, span-leaps 1970 k (omega arith), ap leaps at));
    }

casts :
    (year m rest : ℕ)
    → year < 2 ^ 32
    → rest ≤ 31
    → ◌≡◌ {A = ℕ × ℕ × ℕ}
        (year % 2 ^ 32, 0 + m + 1, add_i64 rest 1 % 2 ^ 32)
        (year, m + 1, rest + 1)
casts year m rest h k =
    let same_year : year % 2 ^ 32 ≡ year = omega arith in
    let same_month : 0 + m + 1 ≡ m + 1 = omega arith in
    let same_day : add_i64 rest 1 % 2 ^ 32 ≡ rest + 1 = omega arith in
    rw same_year (rw same_month (rw same_day refl))

div_euclid-small : (a : I64) → a < 2 ^ 55 → div_euclid a 86400 ≡ a / 86400
div_euclid-small a h = ground arith

-- The whole function, by the results of its loops.
decompose_ts-run :
    (unix_secs : I64) (year r m rest : ℕ)
    → unix_secs < 2 ^ 55
    → years (suc (unix_secs / 86400 / 365)) 1970 (unix_secs / 86400) ≡ (year, r)
    → months 0 (month_days year) r ≡ (0 + m + 1, rest)
    → year < 2 ^ 32
    → rest ≤ 31
    → decompose_ts unix_secs ≡ (year, m + 1, rest + 1)
unfolding decompose_ts
decompose_ts-run unix_secs year r m rest h run found k l =
    rw (decompose_ts, div_euclid-small unix_secs h, run, found) (casts year m rest k l)

-- From 1970 to some 2 ^ 55 seconds later, the date is a month from 1 to 12 and a day of that month, and its day
-- number, by the Gregorian count of leap years, is the number of whole days of the timestamp.
pub decompose_ts-IsDate :
    (unix_secs : I64)
    → unix_secs < 2 ^ 55
    → (year : ℕ) × (month : ℕ) × (day : ℕ) × (decompose_ts unix_secs ≡ (year, month, day))
      × IsDate (unix_secs / 86400) year month day
decompose_ts-IsDate unix_secs h =
    let n = unix_secs / 86400 in
    let (k, year, r, run, at, sum, room) =
      years-span (suc (n / 365)) 1970 n (omega arith) (omega arith) in
    let (low, high) = days_in_year-bounds year in
    let all = total-month_days year in
    let (m, rest, found, month, sum_m, room_m) =
      months-total 0 (month_days year) r (omega arith) (omega arith) (omega arith) in
    let small = get_elem-All 31 (month_days year) m (month_days-All year) in
    let long = span-le 1970 k in
    (
      year,
      m + 1,
      rest + 1,
      decompose_ts-run unix_secs year r m rest h run found (omega arith) (omega arith),
      IsDate-from n year k r m rest at sum sum_m month room_m,
    )

lt_i64-negative : (d b : ℕ) → 0 < d → d < 2 ^ 32 → b < 2 ^ 63 → lt_i64 (2 ^ 64 - d) b ≡ true
lt_i64-negative d b h k l = ground arith

day_cast :
    (d : ℕ) → 0 < d → d < 2 ^ 32 → add_i64 (2 ^ 64 - d) 1 % 2 ^ 32 ≡ (2 ^ 32 + 1 - d) % 2 ^ 32
day_cast d h k = omega arith

before : (s : ℕ) → 0 < s → s < 2 ^ 46 → div_euclid (2 ^ 64 - s) 86400 ≡ 2 ^ 64 - (s + 86399) / 86400
before s h k = ground arith

-- Some seconds before 1970, below 2 ^ 46, the date is no date: the year 1970, the month 1, and as the day 1 less
-- the number of the days begun before 1970, in 32 bits.
pub decompose_ts-before_1970 :
    (s : ℕ)
    → 0 < s
    → s < 2 ^ 46
    → decompose_ts (2 ^ 64 - s) ≡ (1970, 1, (2 ^ 32 + 1 - (s + 86399) / 86400) % 2 ^ 32)
unfolding decompose_ts years
decompose_ts-before_1970 s h k =
    let d = (s + 86399) / 86400 in
    let year = lt_i64-negative d 365 (omega arith) (omega arith) (omega arith) in
    let month = lt_i64-negative d 31 (omega arith) (omega arith) (omega arith) in
    rw (decompose_ts, before s h k, years, year)
      (rw month (rw (day_cast d (omega arith) (omega arith)) refl))
