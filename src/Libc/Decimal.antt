-- ===== src/Libc/Decimal.antt =====
-- Reading back what "%u" prints: strtoul and strtok on decimal digits.
use cpslib.Prelude.{
  ℕ, zero, suc, ◌+◌, ◌*◌, ◌/◌, ◌%◌, ◌≤◌, ◌<◌, ◌≡◌, ◌∙◌, refl, ap, true, false, some, [], ◌∷◌, ◌++◌,
  arith, ltb, ltb→lt, Bool-cases, inl, inr, elem, All, ulong_max,
}
use cpslib.Libc.{
  Bytes, is_digit, strtok, token, after_token, read_digits, strtoul, digits_onto, decimal,
}

abbrev pub IsDigits : Bytes → Type 0
IsDigits = All (λ c. is_digit c ≡ true)

digit_of : (n : ℕ) → is_digit (48 + n % 10) ≡ true
digit_of n = ground arith

digits_onto-IsDigits : (f n : ℕ) (rest : Bytes) → IsDigits rest → IsDigits (digits_onto f n rest)
unfolding digits_onto
digits_onto-IsDigits zero n rest h = h
digits_onto-IsDigits (suc f) n rest h = elim (Bool-cases (ltb n 10)) [
  | inl e ↦ rw e (digit_of n, h)
  | inr e ↦ rw e (digits_onto-IsDigits f (n / 10) ((48 + n % 10) ∷ rest) (digit_of n, h))
]

pub decimal-IsDigits : (n : ℕ) → IsDigits (decimal n)
unfolding decimal
decimal-IsDigits n = digits_onto-IsDigits (suc n) n [] tt

read_digits_step :
    (m n k : ℕ) (rest : Bytes)
    → m * 10 + n % 10 ≡ k
    → read_digits m ((48 + n % 10) ∷ rest) ≡ read_digits k rest
unfolding read_digits
read_digits_step m n k rest e = rw (digit_of n) (ap (λ v. read_digits v rest) (omega arith))

-- The digits are read from the highest on: what is read first is the number without them.
read_digits_onto :
    (f n : ℕ) (rest : Bytes) → n < f → read_digits 0 (digits_onto f n rest) ≡ read_digits n rest
unfolding digits_onto
read_digits_onto zero n rest h = elim h [ ]
read_digits_onto (suc f) n rest h = elim (Bool-cases (ltb n 10)) [
  | inl e ↦ let lt = ltb→lt n 10 e in rw e (read_digits_step 0 n n rest (omega arith))
  | inr e ↦ rw e (
      read_digits_onto f (n / 10) ((48 + n % 10) ∷ rest) (ground arith)
      ∙ read_digits_step (n / 10) n n rest (omega arith))
]

-- No digit stands in front.
abbrev pub EndsDigits : Bytes → Type 0
EndsDigits [] = Unit
EndsDigits (c ∷ s) = is_digit c ≡ false

digits_onto-append :
    (f n : ℕ) (rest t : Bytes) → digits_onto f n rest ++ t ≡ digits_onto f n (rest ++ t)
unfolding digits_onto
digits_onto-append zero n rest t = refl
digits_onto-append (suc f) n rest t = elim (Bool-cases (ltb n 10)) [
  | inl e ↦ rw e
  | inr e ↦ rw e (digits_onto-append f (n / 10) ((48 + n % 10) ∷ rest) t)
]

read_digits_end : (n : ℕ) (t : Bytes) → EndsDigits t → read_digits n t ≡ n
unfolding read_digits
read_digits_end n [] h = refl
read_digits_end n (c ∷ t) h = rw h

pub read_digits-decimal : (n : ℕ) (t : Bytes) → EndsDigits t → read_digits 0 (decimal n ++ t) ≡ n
unfolding decimal
read_digits-decimal n t h =
    ap (read_digits 0) (digits_onto-append (suc n) n [] t)
    ∙ read_digits_onto (suc n) n t (omega arith)
    ∙ read_digits_end n t h

-- A digit in front is no blank and no sign.
strtoul_digits :
    (c : ℕ) (s : Bytes)
    → is_digit c ≡ true
    → read_digits 0 (c ∷ s) ≤ ulong_max
    → strtoul (c ∷ s) ≡ read_digits 0 (c ∷ s)
unfolding strtoul
strtoul_digits c s h b = ground arith

digits_onto-cons :
    (f n c : ℕ) (s : Bytes) → (d : ℕ) × (t : Bytes) × (digits_onto f n (c ∷ s) ≡ d ∷ t)
unfolding digits_onto
digits_onto-cons zero n c s = (c, s, refl)
digits_onto-cons (suc f) n c s = elim (Bool-cases (ltb n 10)) [
  | inl e ↦ (48 + n % 10, c ∷ s, rw e)
  | inr e ↦ let (d, t, p) = digits_onto-cons f (n / 10) (48 + n % 10) (c ∷ s) in (d, t, rw e p)
]

decimal-cons : (n : ℕ) → (c : ℕ) × (s : Bytes) × (decimal n ≡ c ∷ s)
unfolding decimal digits_onto
decimal-cons n = elim (Bool-cases (ltb n 10)) [
  | inl e ↦ (48 + n % 10, [], rw e)
  | inr e ↦ let (d, t, p) = digits_onto-cons n (n / 10) (48 + n % 10) [] in (d, t, rw e p)
]

strtoul-decimal_aux :
    (n : ℕ) (t d : Bytes)
    → IsDigits d
    → (c : ℕ) (s : Bytes) → d ≡ c ∷ s
    → read_digits 0 (d ++ t) ≡ n
    → n ≤ ulong_max
    → strtoul (d ++ t) ≡ n
strtoul-decimal_aux n t [] h c s e v b = cc
strtoul-decimal_aux n t (x ∷ d) h c s e v b = strtoul_digits x (d ++ t) h.0 (omega arith) ∙ v

-- strtoul reads back what "%lu" printed, up to what is no digit.
pub strtoul-decimal :
    (n : ℕ) (t : Bytes) → EndsDigits t → n ≤ ulong_max → strtoul (decimal n ++ t) ≡ n
strtoul-decimal n t h b =
    let (c, s, e) = decimal-cons n in
    strtoul-decimal_aux n t (decimal n) (decimal-IsDigits n) c s e (read_digits-decimal n t h) b

-- No delimiter is a digit.
abbrev pub NoDigit : Bytes → Type 0
NoDigit ds = (c : ℕ) → is_digit c ≡ true → elem c ds ≡ false

module _ (ds : Bytes) (no : NoDigit ds) where
  pub token-digits : (d t : Bytes) → IsDigits d → token ds (d ++ t) ≡ d ++ token ds t
  unfolding token
  token-digits [] t h = refl
  token-digits (c ∷ d) t h = rw (no c h.0) (ap (◌∷◌ c) (token-digits d t h.1))

  pub after_token-digits : (d t : Bytes) → IsDigits d → after_token ds (d ++ t) ≡ after_token ds t
  unfolding after_token
  after_token-digits [] t h = refl
  after_token-digits (c ∷ d) t h = rw (no c h.0) (after_token-digits d t h.1)

  strtok-digits :
      (d t : Bytes)
      → IsDigits d
      → (c : ℕ) (s : Bytes) → d ≡ c ∷ s
      → strtok ds (d ++ t) ≡ (some (token ds (d ++ t)), after_token ds (d ++ t))
  unfolding strtok
  strtok-digits [] t h c s e = cc
  strtok-digits (x ∷ d) t h c s e = rw (no x h.0)

  -- strtok on a printed number: the token is the number with what clings to it.
  pub strtok-decimal :
      (n : ℕ) (t : Bytes)
      → strtok ds (decimal n ++ t) ≡ (some (decimal n ++ token ds t), after_token ds t)
  strtok-decimal n t =
      let (c, s, e) = decimal-cons n in
      let h = decimal-IsDigits n in
      strtok-digits (decimal n) t h c s e
      ∙ rw (token-digits (decimal n) t h, after_token-digits (decimal n) t h)
