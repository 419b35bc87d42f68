-- ===== src/EventStore/Keys/Loops.antt =====
-- crates/event-store/src/lib.rs, `keys::decompose_ts`: what its two loops leave of the days.
use sulix_intelligence.Prelude.{
  ◌/◌, if◌then◌else◌, ℕ, zero, suc, I64, ◌+◌, ◌-◌, ◌*◌, ◌^◌, ◌≤◌, ◌<◌, ◌≡◌, refl, ◌∙◌, ap, arith,
  All, List, [], ◌∷◌, ltb, lt_i64, sub_i64, Bool-cases, inl, inr, ltb→lt, length, take, get_elem,
  false,
}
use sulix_intelligence.EventStore.Keys.{is_leap, days_in_year, month_days, years, months}

-- The days of `k` years from `year` on.
abbrev pub span : ℕ → ℕ → ℕ
span year zero = 0
span year (suc k) = days_in_year year + span (year + 1) k

abbrev pub total : List ℕ → ℕ
total [] = 0
total (d ∷ ds) = d + total ds

-- The leap years before a year, by the Gregorian rule.
abbrev pub leaps : ℕ → ℕ
leaps year = (year - 1) / 4 + (year - 1) / 400 - (year - 1) / 100

-- The number of a date, counted from 1970-01-01: before 1970 there were 477 leap years.
abbrev pub day_number : ℕ → ℕ → ℕ → ℕ
day_number year month day =
    365 * (year - 1970)
    + (leaps year - 477)
    + total (take (month - 1) (month_days year))
    + (day - 1)

leaps-next : (y : ℕ) → 1 ≤ y → leaps (y + 1) ≡ leaps y + (if is_leap y then 1 else 0)
leaps-next y h = ground arith

days_in_year-leap : (y : ℕ) → days_in_year y ≡ 365 + (if is_leap y then 1 else 0)
days_in_year-leap y = ground arith

pub span-leaps : (y k : ℕ) → 1 ≤ y → span y k + leaps y ≡ 365 * k + leaps (y + k)
span-leaps y zero h = let start : y ≡ y + 0 = omega arith in omega (arith, ap leaps start)
span-leaps y (suc k) h =
    let shift : y + 1 + k ≡ y + suc k = omega arith in
    omega (
      arith,
      span-leaps (y + 1) k (omega arith),
      ap leaps shift,
      leaps-next y h,
      days_in_year-leap y,
    )

ltb→le : (a b : ℕ) → ltb a b ≡ false → b ≤ a
ltb→le a b h = ground arith

pub le→ltb : (a b : ℕ) → b ≤ a → ltb a b ≡ false
le→ltb a b h = ground arith

pub lt_i64-small : (a b : ℕ) → a < 2 ^ 63 → b < 2 ^ 63 → lt_i64 a b ≡ ltb a b
lt_i64-small a b h k = ground arith

sub_i64-small : (a b : ℕ) → a < 2 ^ 63 → b ≤ a → sub_i64 a b ≡ a - b
sub_i64-small a b h k = omega arith

pub days_in_year-bounds : (y : ℕ) → (365 ≤ days_in_year y) × (days_in_year y ≤ 366)
days_in_year-bounds y = elim (Bool-cases (is_leap y)) [
  | inl e ↦ rw e (omega arith, omega arith)
  | inr e ↦ rw e (omega arith, omega arith)
]

pub total-month_days : (y : ℕ) → total (month_days y) ≡ days_in_year y
total-month_days y = elim (Bool-cases (is_leap y)) [ inl e ↦ rw e refl | inr e ↦ rw e refl ]

pub span-le : (y k : ℕ) → 365 * k ≤ span y k
span-le y zero = omega arith
span-le y (suc k) = omega (arith, span-le (y + 1) k, (days_in_year-bounds y).0)

-- Some years on, with less than a year of days left.
abbrev pub YearOf : ℕ → ℕ → ℕ × I64 → Type 0
YearOf year r o =
    (k : ℕ) × (end : ℕ) × (rest : ℕ) × (o ≡ (end, rest))
    × (end ≡ year + k)
    × (r ≡ span year k + rest)
    × (rest < days_in_year end)

years-go :
    (fuel year r : ℕ)
    → r < 2 ^ 63
    → days_in_year year ≤ r
    → years (suc fuel) year r ≡ years fuel (year + 1) (r - days_in_year year)
unfolding years
years-go fuel year r h k =
    let (low, high) = days_in_year-bounds year in
    let test = lt_i64-small r (days_in_year year) h (omega arith) in
    let go = le→ltb r (days_in_year year) k in
    rw (years, test, go, sub_i64-small r (days_in_year year) h k) refl

pub years-span : (fuel year r : ℕ) → r < 2 ^ 63 → r < 365 * fuel → YearOf year r (years fuel year r)
unfolding years
years-span zero year r h f = absurd (omega arith)
years-span (suc fuel) year r h f =
    let (low, high) = days_in_year-bounds year in
    let test = lt_i64-small r (days_in_year year) h (omega arith) in
    elim (Bool-cases (ltb r (days_in_year year))) [
      | inl stop ↦ (
        0,
        year,
        r,
        rw (years, test, stop) refl,
        omega arith,
        omega arith,
        ltb→lt r (days_in_year year) stop,
      )
      | inr go ↦
          let enough = ltb→le r (days_in_year year) go in
          let (k, end, rest, run, at, sum, room) =
            years-span fuel (year + 1) (r - days_in_year year) (omega arith) (omega arith) in
          (suc k, end, rest, years-go fuel year r h enough ∙ run, omega arith, omega arith, room)
    ]

-- A month, with less than its length of days left.
abbrev pub MonthOf : ℕ → List ℕ → ℕ → ℕ × I64 → Type 0
MonthOf i mds r m =
    (k : ℕ) × (rest : ℕ) × (m ≡ (i + k + 1, rest))
    × (k < length mds)
    × (r ≡ total (take k mds) + rest)
    × (rest < get_elem mds k)

months-go :
    (i md : ℕ) (mds : List ℕ) (r : ℕ)
    → r < 2 ^ 63
    → md < 2 ^ 63
    → md ≤ r
    → months i (md ∷ mds) r ≡ months (i + 1) mds (r - md)
months-go i md mds r h k e =
    rw (lt_i64-small r md h k) (rw (le→ltb r md e) (rw (sub_i64-small r md h e) refl))

pub months-total :
    (i : ℕ) (mds : List ℕ) (r : ℕ)
    → r < 2 ^ 62
    → total mds < 2 ^ 62
    → r < total mds
    → MonthOf i mds r (months i mds r)
months-total i [] r h t f = absurd (omega arith)
months-total i (md ∷ mds) r h t f =
    let test = lt_i64-small r md (omega arith) (omega arith) in
    elim (Bool-cases (ltb r md)) [
      | inl stop ↦ (
        0,
        r,
        rw (test, stop) (ap (λ j. (j, r)) (omega arith)),
        omega arith,
        omega arith,
        ltb→lt r md stop,
      )
      | inr go ↦
          let enough = ltb→le r md go in
          let less = sub_i64-small r md (omega arith) enough in
          let (k, rest, run, at, sum, room) =
            months-total (i + 1) mds (r - md) (omega arith) (omega arith) (omega arith) in
          (
            suc k,
            rest,
            months-go i md mds r (omega arith) (omega arith) enough
                ∙ run
                ∙ ap (λ j. (j, rest)) (omega arith),
            omega arith,
            omega arith,
            room,
          )
    ]

pub get_elem-All : (n : ℕ) (xs : List ℕ) (k : ℕ) → All (λ x. x ≤ n) xs → get_elem xs k ≤ n
get_elem-All n [] k h = omega arith
get_elem-All n (x ∷ xs) zero h = h.0
get_elem-All n (x ∷ xs) (suc k) h = get_elem-All n xs k h.1

pub month_days-All : (y : ℕ) → All (λ d. d ≤ 31) (month_days y)
month_days-All y = ground arith
