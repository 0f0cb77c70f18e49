-- ===== src/Outcome.antt =====
-- The exceptions of the program, and calls that return or raise. Each constructor of `Error` is an
-- exception class with its message; `os_error` is an OSError or an xmlrpc ProtocolError, `recursion` is
-- Python's RecursionError.
use greenwave.Prelude.{
  ◌⊎◌, inl, inr, String, ◌≡◌, refl, subst, Bool, true, false, List, [], ◌∷◌, arith, All,
  if◌then◌else◌,
}

pub data Error : Type 0 where
  bad_request not_found bad_gateway unsupported_media_type koji_scm_url_parse : String → Error
  no_source safe_yaml yaml runtime http connection os_error timeout unexpected : String → Error
  recursion : Error

pub data Result {ℓ} (A : Type ℓ) : Type ℓ where
  ok : A → Result A
  raise : Error → Result A

module _ {ℓ κ} {S : Type ℓ} {T : Type κ} where
  infixl 5 ◌>>=◌
  -- What follows a call, unless the call raised.
  abbrev pub ◌>>=◌ : Result S → (S → Result T) → Result T
  raise problem >>= next = raise problem
  ok value >>= next = next value

  -- A block that returns is a first call that returns, and a rest that does.
  pub bind-eq-ok :
      (first : Result S) (next : S → Result T) {t : T}
      → (first >>= next) ≡ ok t
      → (s : S) × (first ≡ ok s) × (next s ≡ ok t)
  bind-eq-ok (raise problem) next returned = absurd (ground arith)
  bind-eq-ok (ok value) next returned = (value, refl, returned)

pub Result-cases {ℓ} :
    {A : Type ℓ} (m : Result A) → ((a : A) × (m ≡ ok a)) ⊎ ((e : Error) × (m ≡ raise e))
Result-cases (ok a) = inl (a, refl)
Result-cases (raise e) = inr (e, refl)

module _ {ℓ} {A : Type ℓ} (p : A → Result Bool) where
  -- `any(p(x) for x in xs)`: it stops at the first that holds.
  abbrev pub any_of : List A → Result Bool
  any_of [] = ok false
  any_of (x ∷ xs) = let rest = any_of xs in do b ← p x; if b then ok true else rest

  -- `[x for x in xs if p(x)]`
  abbrev pub filter_by : List A → Result (List A)
  filter_by [] = ok []
  filter_by (x ∷ xs) = do b ← p x; rest ← filter_by xs; ok (if b then x ∷ rest else rest)

pub All-filter_by {ℓ κ} :
    {A : Type ℓ} (P : A → Type κ) (p : A → Result Bool) (xs ys : List A)
    → filter_by p xs ≡ ok ys
    → All P xs
    → All P ys
All-filter_by P p [] [] e h = tt
All-filter_by P p [] (y ∷ ys) e h = absurd (ground arith)
All-filter_by {A = A} P p (x ∷ xs) ys e h =
    let (b, tested, e1) =
      bind-eq-ok (p x) (λ b. filter_by p xs >>= λ rest. ok (if b then x ∷ rest else rest)) e in
    let (rest, filtered, e2) =
      bind-eq-ok (filter_by p xs) (λ rest. ok (if b then x ∷ rest else rest)) e1 in
    let same : (if b then x ∷ rest else rest) ≡ ys = ground arith in
    subst (All P) same (All-if b rest (h.0, All-filter_by P p xs rest filtered h.1))
  where
    All-if : (b : Bool) (zs : List A) → P x × All P zs → All P (if b then x ∷ zs else zs)
    All-if true zs k = k
    All-if false zs k = k.1

-- What holds of the value, if the call returns.
abbrev pub Ensures {ℓ κ} : {A : Type ℓ} → (A → Type κ) → Result A → Type κ
Ensures P (ok a) = P a
Ensures P (raise e) = Unit

pub Ensures-bind {ℓ κ μ} :
    {A : Type ℓ} {B : Type κ} (P : B → Type μ) (m : Result A) (f : A → Result B)
    → ((a : A) → Ensures P (f a))
    → Ensures P (m >>= f)
Ensures-bind P (ok a) f h = h a
Ensures-bind P (raise e) f h = tt

-- The same, where the rest may use how the first call returned.
pub Ensures-step {ℓ κ μ} :
    {A : Type ℓ} {B : Type κ} (P : B → Type μ) (m : Result A) (f : A → Result B)
    → ((a : A) → m ≡ ok a → Ensures P (f a))
    → Ensures P (m >>= f)
Ensures-step P (ok a) f h = h a refl
Ensures-step P (raise e) f h = tt

pub Ensures-ok {ℓ κ} :
    {A : Type ℓ} (P : A → Type κ) (m : Result A) (a : A) → Ensures P m → m ≡ ok a → P a
Ensures-ok P m a h e = subst (Ensures P) e h
