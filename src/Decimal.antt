-- ===== src/Decimal.antt =====
-- `str` and `int` of natural numbers. The digits are those of ASCII.
use Prim.Native.Char.{Char, code}
use greenwave.Prelude.{
  ℕ, zero, suc, ◌+◌, ◌-◌, ◌*◌, ◌/◌, ◌%◌, ◌<◌, String, ◌≡◌, refl, Bool, true, false, ◌&&◌, Option,
  none, some, ◌==◌, ==_iff, nat_eq, string_eq, leb, truthy, cons-truthy, arith, inl, inr,
  Bool-cases, if◌then◌else◌,
}

unfoldable pub digit : ℕ → Char
digit d =
    if d == 0
    then "0"
    else if d == 1
    then "1"
    else if d == 2
    then "2"
    else if d == 3
    then "3"
    else if d == 4
    then "4"
    else if d == 5
    then "5"
    else if d == 6
    then "6"
    else if d == 7
    then "7"
    else if d == 8
    then "8"
    else "9"

-- The decimal digits; a number has fewer of them than its successor.
decimal : ℕ → ℕ → String → String
decimal zero n acc = acc
decimal (suc fuel) n acc =
    let text = String.◌∷◌ (digit (n % 10)) acc in
    let more = decimal fuel (n / 10) text in if n / 10 == 0 then text else more

unfoldable pub show : ℕ → String
unfolding decimal digit
show n = decimal (suc n) n ""

unfoldable pub is_digit : Char → Bool
is_digit c = leb 48 (code c) && leb (code c) 57

-- Decimal digits behind those of a number.
read_digits : String → ℕ → Option ℕ
unfolding is_digit
read_digits String.[] acc = some acc
read_digits (String.◌∷◌ c s) acc =
    let rest = read_digits s (acc * 10 + (code c - 48)) in if is_digit c then rest else none

-- `int(text)` of a text without signs, spaces and underscores; None is a ValueError.
unfoldable pub read : String → Option ℕ
unfolding read_digits
read text = if text == "" then none else read_digits text 0

pub digit-code : (d : ℕ) → d < 10 → code (digit d) ≡ d + 48
unfolding digit
digit-code zero h = refl
digit-code (suc zero) h = refl
digit-code (suc (suc zero)) h = refl
digit-code (suc (suc (suc zero))) h = refl
digit-code (suc (suc (suc (suc zero)))) h = refl
digit-code (suc (suc (suc (suc (suc zero))))) h = refl
digit-code (suc (suc (suc (suc (suc (suc zero)))))) h = refl
digit-code (suc (suc (suc (suc (suc (suc (suc zero))))))) h = refl
digit-code (suc (suc (suc (suc (suc (suc (suc (suc zero)))))))) h = refl
digit-code (suc (suc (suc (suc (suc (suc (suc (suc (suc zero))))))))) h = refl
digit-code (suc (suc (suc (suc (suc (suc (suc (suc (suc (suc d)))))))))) h =
    absurd (omega (arith, h))

read_digits-digit :
    (d : ℕ) (s : String) (acc : ℕ)
    → d < 10
    → read_digits (String.◌∷◌ (digit d) s) acc ≡ read_digits s (acc * 10 + d)
unfolding read_digits is_digit
read_digits-digit d s acc h =
    let value : d + 48 - 48 ≡ d = omega arith in
    let low : leb 48 (d + 48) ≡ true = ground arith in
    let high : leb (d + 48) 57 ≡ true = ground arith in
    rw (digit-code d h) (rw (value, low, high) refl)

read_digits-decimal :
    (fuel n : ℕ) (s : String) → n < fuel → read_digits (decimal fuel n s) 0 ≡ read_digits s n
unfolding decimal
read_digits-decimal zero n s h = absurd (omega (arith, h))
read_digits-decimal (suc fuel) n s h =
    let small : n % 10 < 10 = omega arith in
    let whole : n / 10 * 10 + n % 10 ≡ n = omega arith in
    elim (Bool-cases (n / 10 == 0)) [
      | inl last ↦
          let same : 0 * 10 + n % 10 ≡ n = ground (arith, ==_iff (n / 10) 0) in
          rw (last, read_digits-digit (n % 10) s 0 small, same) refl
      | inr more ↦
          let less : n / 10 < fuel = ground (arith, ==_iff (n / 10) 0) in
          rw
            (
              more,
              read_digits-decimal fuel (n / 10) (String.◌∷◌ (digit (n % 10)) s) less,
              read_digits-digit (n % 10) s (n / 10) small,
              whole,
            )
            refl
    ]

-- Nothing but digits.
abbrev pub Digits : String → Type 0
Digits String.[] = Unit
Digits (String.◌∷◌ c s) = (is_digit c ≡ true) × Digits s

decimal-Digits : (fuel n : ℕ) (s : String) → Digits s → Digits (decimal fuel n s)
unfolding decimal is_digit
decimal-Digits zero n s h = h
decimal-Digits (suc fuel) n s h =
    let small : n % 10 < 10 = omega arith in
    let first : (leb 48 (code (digit (n % 10))) && leb (code (digit (n % 10))) 57) ≡ true =
      ground (arith, digit-code (n % 10) small) in
    elim (Bool-cases (n / 10 == 0)) [
      | inl last ↦ rw last (first, h)
      | inr more ↦ rw more (decimal-Digits fuel (n / 10) (String.◌∷◌ (digit (n % 10)) s) (first, h))
    ]

decimal-truthy :
    (fuel n : ℕ) (c : Char) (s : String) → truthy (decimal fuel n (String.◌∷◌ c s)) ≡ true
unfolding decimal
decimal-truthy zero n c s = cons-truthy c s
decimal-truthy (suc fuel) n c s = elim (Bool-cases (n / 10 == 0)) [
  | inl last ↦ rw last (cons-truthy (digit (n % 10)) (String.◌∷◌ c s))
  | inr more ↦ rw more (decimal-truthy fuel (n / 10) (digit (n % 10)) (String.◌∷◌ c s))
]

pub show-truthy : (n : ℕ) → truthy (show n) ≡ true
unfolding show decimal
show-truthy n = elim (Bool-cases (n / 10 == 0)) [
  | inl last ↦ rw last (cons-truthy (digit (n % 10)) "")
  | inr more ↦ rw more (decimal-truthy n (n / 10) (digit (n % 10)) "")
]

pub show-Digits : (n : ℕ) → Digits (show n)
unfolding show
show-Digits n = decimal-Digits (suc n) n "" tt

read_digits-show : (n : ℕ) → read_digits (show n) 0 ≡ some n
unfolding show read_digits
read_digits-show n = read_digits-decimal (suc n) n "" (omega arith)

-- The digits of a number are read as that number.
pub read-show : (n : ℕ) → read (show n) ≡ some n
unfolding read
read-show n =
    let there : (show n == "") ≡ false = ground (arith, show-truthy n) in
    rw there (read_digits-show n)
