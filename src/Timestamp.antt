-- ===== src/Timestamp.antt =====
-- utils.py: `add_to_timestamp` and `right_before_this_time`, with what `datetime.strptime`, `strftime`
-- and the addition of a timedelta of the standard library do there.
pub mod Instant
pub mod Printed
use Prim.Native.Char.{Char, code}
use greenwave.Prelude.Text.{ends_with}
use greenwave.Prelude.{
  ℕ, zero, suc, ◌+◌, ◌-◌, ◌*◌, ◌/◌, ◌%◌, String, Bool, true, false, not, ◌&&◌, ◌||◌, Option, none,
  some, ◌==◌, nat_eq, string_eq, leb, ltb, if◌then◌else◌,
}
use greenwave.Outcome.{unexpected, Result, ok, raise}
use greenwave.Decimal.{digit, is_digit}

-- `datetime.datetime`, without a time zone.
pub record DateTime : Type 0 where
  pub year : ℕ
  pub month : ℕ
  pub day : ℕ
  pub hour : ℕ
  pub minute : ℕ
  pub second : ℕ
  pub microsecond : ℕ

unfoldable pub is_leap : ℕ → Bool
is_leap y = (y % 4 == 0) && (not (y % 100 == 0) || (y % 400 == 0))

unfoldable pub days_in_month : ℕ → ℕ → ℕ
unfolding is_leap
days_in_month y m =
    if m == 2
    then (if is_leap y then 29 else 28)
    else if (m == 4) || (m == 6) || (m == 9) || (m == 11)
    then 30
    else 31

-- The tests of the constructor of `datetime`.
unfoldable pub is_valid : DateTime → Bool
is_valid t =
    leb 1 t.year
    && leb t.year 9999
    && leb 1 t.month
    && leb t.month 12
    && leb 1 t.day
    && leb t.day (days_in_month t.year t.month)
    && ltb t.hour 24
    && ltb t.minute 60
    && ltb t.second 60
    && ltb t.microsecond 1000000

-- At most so many digits: their number, how many they are, and the text behind them.
unfoldable pub read_digits : ℕ → String → ℕ → ℕ → ℕ × ℕ × String
read_digits zero s value count = (value, count, s)
read_digits (suc n) String.[] value count = (value, count, String.[])
read_digits (suc n) (String.◌∷◌ c s) value count =
    let more = read_digits n s (value * 10 + (code c - 48)) (suc count) in
    if is_digit c then more else (value, count, String.◌∷◌ c s)

abbrev pub Reading {ℓ} : Type ℓ → Type ℓ
Reading A = Option (A × String)

infixl 5 ◌>>=◌
abbrev pub ◌>>=◌ {ℓ κ} : {A : Type ℓ} {B : Type κ} → Option A → (A → Option B) → Option B
none >>= next = none
some a >>= next = next a

-- `%Y`: four digits.
abbrev pub four_digits : ℕ × ℕ × String → Reading ℕ
four_digits (value, count, rest) = if count == 4 then some (value, rest) else none

-- The other fields: at least one digit. The limits that the patterns of `strptime` have of their own
-- are those of the constructor.
abbrev pub some_digits : ℕ × ℕ × String → Reading ℕ
some_digits (value, count, rest) = if count == 0 then none else some (value, rest)

-- `%f`: what is missing of six digits are zeros behind them.
abbrev pub scaled : ℕ → ℕ → ℕ
scaled value count =
    if count == 1
    then value * 100000
    else if count == 2
    then value * 10000
    else if count == 3
    then value * 1000
    else if count == 4
    then value * 100
    else if count == 5
    then value * 10
    else value

abbrev pub fraction : ℕ × ℕ × String → Reading ℕ
fraction (value, count, rest) = if count == 0 then none else some (scaled value count, rest)

-- A character of the format that stands for itself.
unfoldable pub literal : Char → String → Option String
literal c String.[] = none
literal c (String.◌∷◌ d s) = if code d == code c then some s else none

abbrev pub end_of : String → Option String → Option String
end_of rest none = none
end_of rest (some s) = if s == rest then some s else none

-- `%Y-%m-%d`, and the date and time that a separator stands between, up to the seconds.
unfoldable pub read_to_seconds : Char → String → Reading DateTime
read_to_seconds separator s = do
  (year, s) ← four_digits (read_digits 4 s 0 0)
  s ← literal "-" s
  (month, s) ← some_digits (read_digits 2 s 0 0)
  s ← literal "-" s
  (day, s) ← some_digits (read_digits 2 s 0 0)
  s ← literal separator s
  (hour, s) ← some_digits (read_digits 2 s 0 0)
  s ← literal ":" s
  (minute, s) ← some_digits (read_digits 2 s 0 0)
  s ← literal ":" s
  (second, s) ← some_digits (read_digits 2 s 0 0)
  some (
    record {
      year = year;
      month = month;
      day = day;
      hour = hour;
      minute = minute;
      second = second;
      microsecond = 0;
    },
    s,
  )

abbrev pub if_valid : DateTime → Option DateTime
if_valid t = if is_valid t then some t else none

-- `strptime(timestamp, "%Y-%m-%d %H:%M:%S UTC")`
unfoldable pub read_utc : String → Option DateTime
read_utc timestamp = do
  (t, s) ← read_to_seconds " " timestamp
  if s == " UTC" then if_valid t else none

-- `strptime(timestamp, "%Y-%m-%dT%H:%M:%S.%f")`
unfoldable pub read_iso : String → Option DateTime
read_iso timestamp = do
  (t, s) ← read_to_seconds "T" timestamp
  s ← literal "." s
  (microsecond, s) ← fraction (read_digits 6 s 0 0)
  if s == "" then if_valid (record t { microsecond = microsecond }) else none

unfoldable pub read_timestamp : String → Option DateTime
read_timestamp timestamp =
    if ends_with " UTC" timestamp then read_utc timestamp else read_iso timestamp

-- The day before; there is none before the first day of the year 1.
unfoldable pub previous_day : DateTime → Option DateTime
previous_day t =
    if ltb 1 t.day
    then some (record t { day = t.day - 1 })
    else if ltb 1 t.month
    then some (record t { month = t.month - 1; day = days_in_month t.year (t.month - 1) })
    else if ltb 1 t.year
    then some (record t { year = t.year - 1; month = 12; day = 31 })
    else none

-- `t + timedelta(microseconds=-1)`; None is an OverflowError.
unfoldable pub minus_microsecond : DateTime → Option DateTime
minus_microsecond t =
    if ltb 0 t.microsecond
    then some (record t { microsecond = t.microsecond - 1 })
    else if ltb 0 t.second
    then some (record t { second = t.second - 1; microsecond = 999999 })
    else if ltb 0 t.minute
    then some (record t { minute = t.minute - 1; second = 59; microsecond = 999999 })
    else if ltb 0 t.hour
    then some (record t { hour = t.hour - 1; minute = 59; second = 59; microsecond = 999999 })
    else previous_day (record t { hour = 23; minute = 59; second = 59; microsecond = 999999 })

-- Two digits, in front of a text.
unfoldable pub two_digits : ℕ → String → String
two_digits n s = String.◌∷◌ (digit (n / 10)) (String.◌∷◌ (digit (n % 10)) s)

-- `strftime("%Y-%m-%dT%H:%M:%S.%f")`
unfoldable pub print : DateTime → String
unfolding two_digits
print t = two_digits (t.year / 100) (
    two_digits (t.year % 100) (
      String.◌∷◌ "-" (
        two_digits t.month (
          String.◌∷◌ "-" (
            two_digits t.day (
              String.◌∷◌ "T" (
                two_digits t.hour (
                  String.◌∷◌ ":" (
                    two_digits t.minute (
                      String.◌∷◌ ":" (
                        two_digits t.second (
                          String.◌∷◌ "." (
                            two_digits (t.microsecond / 10000) (
                              two_digits (t.microsecond / 100 % 100)
                                (two_digits (t.microsecond % 100) "")))))))))))))))

-- `add_to_timestamp`, of what the delta does to a time
unfoldable pub add_to_timestamp : (DateTime → Option DateTime) → String → Result String
add_to_timestamp delta timestamp = elim (read_timestamp timestamp) [
  | none ↦ raise (unexpected "ValueError")
  | some t ↦ elim (delta t) [ none ↦ raise (unexpected "OverflowError") | some t' ↦ ok (print t') ]
]

unfoldable pub right_before_this_time : String → Result String
right_before_this_time timestamp = add_to_timestamp minus_microsecond timestamp
