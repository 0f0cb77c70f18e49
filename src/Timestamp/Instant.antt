-- ===== src/Timestamp/Instant.antt =====
-- The microsecond before a time, in microseconds since the beginning of the year 1.
use greenwave.Prelude.{
  subst, sym, ℕ, zero, suc, ◌+◌, ◌-◌, ◌*◌, ◌/◌, ◌≤◌, ◌<◌, ◌≡◌, refl, Bool, true, false, Option,
  none, some, nat_eq, ltb, if◌then◌else◌, arith, Bool-cases, inl, inr,
}
use greenwave.Timestamp.{
  DateTime, is_leap, days_in_month, is_valid, previous_day, minus_microsecond,
}

-- The days of the months before one.
abbrev pub days_before_month : ℕ → ℕ → ℕ
days_before_month y zero = 0
days_before_month y (suc zero) = 0
days_before_month y (suc (suc m)) = days_before_month y (suc m) + days_in_month y (suc m)

-- The days of the years before one: 365 for each, and the leap days.
abbrev pub days_before_year : ℕ → ℕ
days_before_year y = (y - 1) * 365 + (y - 1) / 4 - (y - 1) / 100 + (y - 1) / 400

-- `toordinal`
abbrev pub ordinal : DateTime → ℕ
ordinal t = days_before_year t.year + days_before_month t.year t.month + t.day

-- Microseconds since the beginning of the year 1, and a day.
abbrev pub instant : DateTime → ℕ
instant t = (((ordinal t * 24 + t.hour) * 60 + t.minute) * 60 + t.second) * 1000000 + t.microsecond

-- The fields of a time within their limits.
abbrev pub IsValid : DateTime → Type 0
IsValid t = is_valid t ≡ true

pub days_in_month-pos : (y m : ℕ) → (28 ≤ days_in_month y m) × (days_in_month y m ≤ 31)
unfolding days_in_month
days_in_month-pos y m = ground arith

-- The leap days up to a year, and what a leap year adds to them.
abbrev leap_days : ℕ → ℕ
leap_days y = y / 4 - y / 100 + y / 400

leap_days-suc : (n : ℕ) → leap_days (n + 1) ≡ leap_days n + (if is_leap (n + 1) then 1 else 0)
unfolding is_leap
leap_days-suc n = ground arith

-- A year has the days of its twelve months.
days_before_year-suc :
    (y : ℕ)
    → days_before_year (suc (suc y)) ≡ days_before_year (suc y) + days_before_month (suc y) 12 + 31
unfolding days_in_month
days_before_year-suc y = elim (Bool-cases (is_leap (suc y))) [
  | inl leap ↦ rw leap (omega (arith, step true leap))
  | inr common ↦ rw common (omega (arith, step false common))
]
  where
    step : (b : Bool) → is_leap (suc y) ≡ b → leap_days (suc y) ≡ leap_days y + (if b then 1 else 0)
    step b e =
        subst (λ c. leap_days (suc y) ≡ leap_days y + (if c then 1 else 0)) e
          (subst (λ (n : ℕ). leap_days n ≡ leap_days y + (if is_leap n then 1 else 0)) (omega arith)
            (leap_days-suc y))

days_before_month-pred :
    (y m : ℕ)
    → 1 < m
    → days_before_month y m ≡ days_before_month y (m - 1) + days_in_month y (m - 1)
days_before_month-pred y zero h = absurd (omega (arith, h))
days_before_month-pred y (suc zero) h = absurd (omega (arith, h))
days_before_month-pred y (suc (suc m)) h =
    let less : suc (suc m) - 1 ≡ suc m = omega arith in rw less refl

days_before_year-pred :
    (y : ℕ)
    → 1 < y
    → days_before_year y ≡ days_before_year (y - 1) + days_before_month (y - 1) 12 + 31
days_before_year-pred zero h = absurd (omega (arith, h))
days_before_year-pred (suc zero) h = absurd (omega (arith, h))
days_before_year-pred (suc (suc y)) h =
    let less : suc (suc y) - 1 ≡ suc y = omega arith in
    subst
      (λ (n : ℕ). days_before_year (suc (suc y)) ≡ days_before_year n + days_before_month n 12 + 31)
      (sym less) (days_before_year-suc y)

-- There is no day before the first one, and the day before another has the ordinal before and the
-- same time.
abbrev Outcome : DateTime → Option DateTime → Type 0
Outcome t none = ordinal t ≡ 1
Outcome t (some t') =
    (ordinal t' + 1 ≡ ordinal t)
    × (t'.hour ≡ t.hour)
    × (t'.minute ≡ t.minute)
    × (t'.second ≡ t.second)
    × (t'.microsecond ≡ t.microsecond)

previous_day-Outcome : (t : DateTime) → IsValid t → Outcome t (previous_day t)
unfolding previous_day is_valid
previous_day-Outcome t valid = elim (Bool-cases (ltb 1 t.day)) [
  | inl later ↦ rw later (ground arith)
  | inr first ↦ elim (Bool-cases (ltb 1 t.month)) [
    | inl later ↦ rw (first, later) (ground (arith, days_before_month-pred t.year t.month))
    | inr january ↦ elim (Bool-cases (ltb 1 t.year)) [
      | inl later ↦ rw (first, january, later) (ground (arith, days_before_year-pred t.year))
      | inr earliest ↦ rw (first, january, earliest) (ground arith)
    ]
  ]
]

december : (y : ℕ) → days_in_month y 12 ≡ 31
unfolding days_in_month
december y = refl

abbrev ValidIfAny : Option DateTime → Type 0
ValidIfAny none = Unit
ValidIfAny (some t) = IsValid t

previous_day-IsValid : (t : DateTime) → IsValid t → ValidIfAny (previous_day t)
unfolding previous_day is_valid
previous_day-IsValid t valid = elim (Bool-cases (ltb 1 t.day)) [
  | inl later ↦ rw later (ground arith)
  | inr first ↦ elim (Bool-cases (ltb 1 t.month)) [
    | inl later ↦ rw (first, later) (ground (arith, days_in_month-pos t.year (t.month - 1)))
    | inr january ↦ elim (Bool-cases (ltb 1 t.year)) [
      | inl later ↦ rw (first, january, later) (ground (arith, december (t.year - 1)))
      | inr earliest ↦ rw (first, january, earliest) tt
    ]
  ]
]

-- What a time is before which nothing is, or how the time before a time lies.
abbrev pub Before : DateTime → Option DateTime → Type 0
Before t none = instant t ≡ 86400000000
Before t (some t') = IsValid t' × (instant t' + 1 ≡ instant t)

-- The last microsecond of the day of a time.
abbrev last_of_day : DateTime → DateTime
last_of_day t = record t { hour = 23; minute = 59; second = 59; microsecond = 999999 }

last_of_day-IsValid : (t : DateTime) → IsValid t → IsValid (last_of_day t)
unfolding is_valid
last_of_day-IsValid t valid = ground arith

-- Midnight follows the last microsecond of the day before.
midnight-Before :
    (t : DateTime) (o : Option DateTime)
    → (t.hour ≡ 0) × (t.minute ≡ 0) × (t.second ≡ 0) × (t.microsecond ≡ 0)
    → Outcome (last_of_day t) o
    → ValidIfAny o
    → Before t o
midnight-Before t none midnight out valid = omega arith
midnight-Before t (some t') midnight out valid = (valid, omega arith)

-- A time without a microsecond before it is the beginning of the year 1; any other valid time has a valid
-- one that is one microsecond earlier, over the ends of days, months, years and leap years.
pub minus_microsecond-Before : (t : DateTime) → IsValid t → Before t (minus_microsecond t)
unfolding minus_microsecond is_valid
minus_microsecond-Before t valid = elim (Bool-cases (ltb 0 t.microsecond)) [
  | inl more ↦ rw more (ground arith)
  | inr whole ↦ elim (Bool-cases (ltb 0 t.second)) [
    | inl more ↦ rw (whole, more) (ground arith)
    | inr start ↦ elim (Bool-cases (ltb 0 t.minute)) [
      | inl more ↦ rw (whole, start, more) (ground arith)
      | inr hour ↦ elim (Bool-cases (ltb 0 t.hour)) [
        | inl more ↦ rw (whole, start, hour, more) (ground arith)
        | inr midnight ↦
            rw (whole, start, hour, midnight)
              (midnight-Before t (previous_day (last_of_day t)) (ground arith)
                (previous_day-Outcome (last_of_day t) (last_of_day-IsValid t valid))
                (previous_day-IsValid (last_of_day t) (last_of_day-IsValid t valid)))
      ]
    ]
  ]
]
