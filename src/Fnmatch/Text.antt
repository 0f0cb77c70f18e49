-- ===== src/Fnmatch/Text.antt =====
-- What the text of a shell pattern means, as a relation on texts: `*` stands for any text, `?` for any one
-- character, and another character for itself. Patterns with `[` are left out.
use greenwave.Prelude.{
  ℕ, String, ◌≡◌, refl, subst, sym, ◌↔◌, inl, inr, Bool, true, false, not, ◌&&◌, List, [], ◌∷◌,
  ◌++◌, arith, nat_eq, ◌==◌, ==_iff, Bool-cases,
}
use greenwave.Fnmatch.{Token, star, any_char, lit, codes, token_at, compile, tokens, fnmatch}
use greenwave.Fnmatch.Relation.{
  Matches, done, text_of_star, any_one, same_one, matches→Matches, Matches→matches,
}

-- A character that stands for itself.
abbrev pub is_plain : ℕ → Bool
is_plain c = not (c == b'*') && not (c == b'?') && not (c == b'[')

pub data Means : List ℕ → List ℕ → Type 0 where
  at_end : Means [] []
  any_text :
      {p s : List ℕ} (c : ℕ) (before rest : List ℕ)
      → c ≡ b'*'
      → s ≡ before ++ rest
      → Means p rest
      → Means (c ∷ p) s
  any_character : {p s : List ℕ} (c d : ℕ) → c ≡ b'?' → Means p s → Means (c ∷ p) (d ∷ s)
  itself : {p s : List ℕ} (c : ℕ) → is_plain c ≡ true → Means p s → Means (c ∷ p) (c ∷ s)

abbrev pub no_bracket : List ℕ → Bool
no_bracket [] = true
no_bracket (c ∷ p) = not (c == b'[') && no_bracket p

compile-star : (c : ℕ) (p : List ℕ) → c ≡ b'*' → compile 0 (c ∷ p) ≡ star ∷ compile 0 p
unfolding compile token_at
compile-star c p h = rw h refl

compile-any_char : (c : ℕ) (p : List ℕ) → c ≡ b'?' → compile 0 (c ∷ p) ≡ any_char ∷ compile 0 p
unfolding compile token_at
compile-any_char c p h = rw h refl

compile-lit : (c : ℕ) (p : List ℕ) → is_plain c ≡ true → compile 0 (c ∷ p) ≡ lit c ∷ compile 0 p
unfolding compile token_at
compile-lit c p h =
    let not_star : (c == b'*') ≡ false = ground arith in
    let not_any : (c == b'?') ≡ false = ground arith in
    let not_class : (c == b'[') ≡ false = ground arith in rw (not_star, not_any, not_class) refl

Means-star :
    {ts : List Token} {s : List ℕ} (p : List ℕ) (c : ℕ)
    → c ≡ b'*'
    → ((rest : List ℕ) → Matches ts rest → Means p rest)
    → Matches (star ∷ ts) s
    → Means (c ∷ p) s
Means-star p c h next (text_of_star before rest e m) = any_text c before rest h e (next rest m)

Means-any_char :
    {ts : List Token} {s : List ℕ} (p : List ℕ) (c : ℕ)
    → c ≡ b'?'
    → ((rest : List ℕ) → Matches ts rest → Means p rest)
    → Matches (any_char ∷ ts) s
    → Means (c ∷ p) s
Means-any_char p c h next (any_one {s = s} d m) = any_character c d h (next s m)

Means-lit :
    {ts : List Token} {s : List ℕ} (p : List ℕ) (c : ℕ)
    → is_plain c ≡ true
    → ((rest : List ℕ) → Matches ts rest → Means p rest)
    → Matches (lit c ∷ ts) s
    → Means (c ∷ p) s
Means-lit p c h next (same_one {s = s} d c' e m) =
    subst (λ x. Means (c ∷ p) (x ∷ s)) (sym e) (itself c h (next s m))

Matches→Means : (p s : List ℕ) → no_bracket p ≡ true → Matches (compile 0 p) s → Means p s
unfolding compile
Matches→Means [] s h done = at_end
Matches→Means (c ∷ p) s h m = elim (Bool-cases (c == b'*')) [
  | inl is_star ↦
      let same : c ≡ b'*' = (==_iff c b'*').0 is_star in
      Means-star p c same (λ rest. Matches→Means p rest (ground arith))
        (subst (λ ts. Matches ts s) (compile-star c p same) m)
  | inr other ↦ elim (Bool-cases (c == b'?')) [
    | inl is_any ↦
        let same : c ≡ b'?' = (==_iff c b'?').0 is_any in
        Means-any_char p c same (λ rest. Matches→Means p rest (ground arith))
          (subst (λ ts. Matches ts s) (compile-any_char c p same) m)
    | inr plain ↦
        let alone : is_plain c ≡ true = ground arith in
        Means-lit p c alone (λ rest. Matches→Means p rest (ground arith))
          (subst (λ ts. Matches ts s) (compile-lit c p alone) m)
  ]
]

Means→Matches : {p s : List ℕ} → no_bracket p ≡ true → Means p s → Matches (compile 0 p) s
unfolding compile
Means→Matches h at_end = done
Means→Matches h (any_text {p = p} {s = s} c before rest same e m) =
    subst (λ ts. Matches ts s) (sym (compile-star c p same))
      (text_of_star before rest e (Means→Matches (ground arith) m))
Means→Matches h (any_character {p = p} {s = s} c d same m) =
    subst (λ ts. Matches ts (d ∷ s)) (sym (compile-any_char c p same))
      (any_one d (Means→Matches (ground arith) m))
Means→Matches h (itself {p = p} {s = s} c plain m) =
    subst (λ ts. Matches ts (c ∷ s)) (sym (compile-lit c p plain))
      (same_one c c refl (Means→Matches (ground arith) m))

-- `fnmatch` decides the meaning of the pattern.
pub fnmatch-Means :
    (name pattern : String)
    → no_bracket (codes pattern) ≡ true
    → (fnmatch name pattern ≡ true) ↔ Means (codes pattern) (codes name)
unfolding fnmatch tokens
fnmatch-Means name pattern h = (
  λ matched.
      Matches→Means (codes pattern) (codes name) h
        (matches→Matches (compile 0 (codes pattern)) (codes name) matched),
  λ meant. Matches→matches (Means→Matches h meant),
)
