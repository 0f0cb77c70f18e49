-- ===== src/Timestamp/Printed.antt =====
-- A time that is printed is read again, and what is right before a printed time.
use greenwave.Prelude.Text.{ends_with}
use greenwave.Prelude.{
  ℕ, suc, ◌+◌, ◌-◌, ◌*◌, ◌/◌, ◌%◌, ◌<◌, String, ◌≡◌, refl, subst, Bool, true, false, Option, none,
  some, ◌==◌, ==_iff, nat_eq, string_eq, arith, Bool-cases, inl, inr, if◌then◌else◌,
}
use greenwave.Outcome.{unexpected, Result, ok, raise}
use greenwave.Decimal.{digit, is_digit, digit-code}
use greenwave.Timestamp.{
  DateTime, ◌>>=◌, if_valid, fraction, is_valid, read_digits, literal, read_to_seconds, read_utc,
  read_iso, read_timestamp, two_digits, print, minus_microsecond, add_to_timestamp,
  right_before_this_time,
}
use greenwave.Timestamp.Instant.{
  IsValid, Before, instant, days_in_month-pos, minus_microsecond-Before,
}

digit-is_digit : (d : ℕ) → d < 10 → is_digit (digit d) ≡ true
unfolding is_digit
digit-is_digit d h = ground (arith, digit-code d h)

read_digits-digit :
    (j d v k : ℕ) (s : String)
    → d < 10
    → read_digits (suc j) (String.◌∷◌ (digit d) s) v k ≡ read_digits j s (v * 10 + d) (suc k)
unfolding read_digits
read_digits-digit j d v k s h =
    let value : d + 48 - 48 ≡ d = omega arith in
    rw (digit-is_digit d h, digit-code d h) (rw value refl)

read_digits-two_digits :
    (j n v k : ℕ) (s : String)
    → n < 100
    → read_digits (suc (suc j)) (two_digits n s) v k ≡ read_digits j s (v * 100 + n) (suc (suc k))
unfolding two_digits
read_digits-two_digits j n v k s h =
    let value : (v * 10 + n / 10) * 10 + n % 10 ≡ v * 100 + n = omega arith in
    rw
      (
        read_digits-digit (suc j) (n / 10) v k (String.◌∷◌ (digit (n % 10)) s) (omega arith),
        read_digits-digit j (n % 10) (v * 10 + n / 10) (suc k) s (omega arith),
        value,
      )
      refl

read_two : (n : ℕ) (s : String) → n < 100 → read_digits 2 (two_digits n s) 0 0 ≡ (n, 2, s)
unfolding read_digits
read_two n s h =
    let value : 0 * 100 + n ≡ n = omega arith in rw (read_digits-two_digits 0 n 0 0 s h, value) refl

read_four :
    (n : ℕ) (s : String)
    → n < 10000
    → read_digits 4 (two_digits (n / 100) (two_digits (n % 100) s)) 0 0 ≡ (n, 4, s)
unfolding read_digits
read_four n s h =
    let value : (0 * 100 + n / 100) * 100 + n % 100 ≡ n = omega arith in
    rw
      (
        read_digits-two_digits 2 (n / 100) 0 0 (two_digits (n % 100) s) (omega arith),
        read_digits-two_digits 0 (n % 100) (0 * 100 + n / 100) 2 s (omega arith),
        value,
      )
      refl

read_six :
    (n : ℕ) (s : String)
    → n < 1000000
    → read_digits 6
        (two_digits (n / 10000) (two_digits (n / 100 % 100) (two_digits (n % 100) s)))
        0
        0
      ≡ (n, 6, s)
unfolding read_digits
read_six n s h =
    let value : ((0 * 100 + n / 10000) * 100 + n / 100 % 100) * 100 + n % 100 ≡ n = omega arith in
    rw
      (
        read_digits-two_digits 4 (n / 10000) 0 0
            (two_digits (n / 100 % 100) (two_digits (n % 100) s)) (omega arith),
        read_digits-two_digits 2 (n / 100 % 100) (0 * 100 + n / 10000) 2 (two_digits (n % 100) s)
            (omega arith),
        read_digits-two_digits 0 (n % 100) ((0 * 100 + n / 10000) * 100 + n / 100 % 100) 4 s
            (omega arith),
        value,
      )
      refl

-- The text ends in a digit.
abbrev EndsInDigit : String → Type 0
EndsInDigit String.[] = ⊥
EndsInDigit (String.◌∷◌ c String.[]) = is_digit c ≡ true
EndsInDigit (String.◌∷◌ c (String.◌∷◌ d s)) = EndsInDigit (String.◌∷◌ d s)

EndsInDigit-utc : (s : String) → EndsInDigit s → (s == " UTC") ≡ false
unfolding is_digit
EndsInDigit-utc s h = elim (Bool-cases (s == " UTC")) [
  | inr other ↦ other
  | inl same ↦
      let last : is_digit "C" ≡ true = subst EndsInDigit ((==_iff s " UTC").0 same) h in cc last
]

ends_with-EndsInDigit : (s : String) → EndsInDigit s → ends_with " UTC" s ≡ false
unfolding ends_with
ends_with-EndsInDigit String.[] h = absurd h
ends_with-EndsInDigit (String.◌∷◌ c String.[]) h =
    rw (EndsInDigit-utc (String.◌∷◌ c String.[]) h) refl
ends_with-EndsInDigit (String.◌∷◌ c (String.◌∷◌ d s)) h =
    rw (EndsInDigit-utc (String.◌∷◌ c (String.◌∷◌ d s)) h, ends_with-EndsInDigit (String.◌∷◌ d s) h)
      refl

print-EndsInDigit : (t : DateTime) → EndsInDigit (print t)
unfolding print two_digits
print-EndsInDigit t = digit-is_digit (t.microsecond % 100 % 10) (omega arith)

-- What the fields of a valid time are less than.
abbrev Limits : DateTime → Type 0
Limits t =
    (t.year < 10000)
    × (t.month < 100)
    × (t.day < 100)
    × (t.hour < 100)
    × (t.minute < 100)
    × (t.second < 100)
    × (t.microsecond < 1000000)

valid-Limits : (t : DateTime) → IsValid t → Limits t
unfolding is_valid
valid-Limits t valid = ground (arith, days_in_month-pos t.year t.month)

pub read_iso-print : (t : DateTime) → IsValid t → read_iso (print t) ≡ some t
unfolding read_iso print read_to_seconds literal
read_iso-print t valid =
    let (year, month, day, hour, minute, second, microsecond) = valid-Limits t valid in
    rw
      (
        read_four t.year _ year,
        read_two t.month _ month,
        read_two t.day _ day,
        read_two t.hour _ hour,
        read_two t.minute _ minute,
        read_two t.second _ second,
        read_six t.microsecond "" microsecond,
        valid,
      )
      refl

read_timestamp-print : (t : DateTime) → IsValid t → read_timestamp (print t) ≡ some t
unfolding read_timestamp
read_timestamp-print t valid =
    rw (ends_with-EndsInDigit (print t) (print-EndsInDigit t), read_iso-print t valid) refl

-- Only valid times come out.
abbrev Yields : Option DateTime → Type 0
Yields o = (t : DateTime) → o ≡ some t → IsValid t

>>=-Yields {ℓ} :
    {A : Type ℓ} (m : Option A) (next : A → Option DateTime)
    → ((a : A) → Yields (next a))
    → Yields (m >>= next)
>>=-Yields none next h t e = absurd (ground arith)
>>=-Yields (some a) next h t e = h a t e

if-Yields : (b : Bool) (o : Option DateTime) → Yields o → Yields (if b then o else none)
if-Yields true o h t e = h t e
if-Yields false o h t e = absurd (ground arith)

if_valid-Yields : (t : DateTime) → Yields (if_valid t)
if_valid-Yields t t' e = elim (Bool-cases (is_valid t)) [
  | inl valid ↦ let same : t ≡ t' = ground arith in subst IsValid same valid
  | inr other ↦ absurd (ground arith)
]

pub read_timestamp-Yields : (text : String) → Yields (read_timestamp text)
unfolding read_timestamp read_utc read_iso
read_timestamp-Yields text = elim (Bool-cases (ends_with " UTC" text)) [
  | inl utc ↦ rw utc (
      >>=-Yields (read_to_seconds " " text) _
        λ p. if-Yields (p.1 == " UTC") (if_valid p.0) (if_valid-Yields p.0))
  | inr iso ↦ rw iso (
      >>=-Yields (read_to_seconds "T" text) _ λ p. >>=-Yields (literal "." p.1) _ λ s.
        >>=-Yields (fraction (read_digits 6 s 0 0)) _ λ q.
          if-Yields (q.1 == "") (if_valid (record p.0 { microsecond = q.0 }))
            (if_valid-Yields (record p.0 { microsecond = q.0 })))
]

-- What is right before a timestamp that is read as a time.
abbrev pub RightBefore : DateTime → Result String → Type 0
RightBefore t (raise e) = (e ≡ unexpected "OverflowError") × (instant t ≡ 86400000000)
RightBefore t (ok text) =
    (t' : DateTime) × (read_timestamp text ≡ some t') × (instant t' + 1 ≡ instant t)

-- A timestamp in one of the two formats leads to a timestamp that is read as the time one microsecond
-- before its own; only for the first microsecond of the year 1 there is none, which is an
-- OverflowError.
pub right_before_this_time-RightBefore :
    (text : String) (t : DateTime)
    → read_timestamp text ≡ some t
    → RightBefore t (right_before_this_time text)
unfolding right_before_this_time add_to_timestamp
right_before_this_time-RightBefore text t e =
    rw (e, add_to_timestamp)
      (by_time (minus_microsecond t) (minus_microsecond-Before t (read_timestamp-Yields text t e)))
  where
    by_time :
        (o : Option DateTime)
        → Before t o
        → RightBefore t
            (elim o [ none ↦ raise (unexpected "OverflowError") | some t' ↦ ok (print t') ])
    by_time none before = (refl, before)
    by_time (some t') (valid, before) = (t', read_timestamp-print t' valid, before)
