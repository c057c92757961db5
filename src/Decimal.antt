-- ===== src/Decimal.antt =====
-- What the program uses of the standard library's decimal numbers: `u64::from_str` (and `usize`, which
-- has 64 bits) and the `Display` of these types.
use git_cvs_fast_import.Prelude.{
  ℕ, zero, suc, ◌+◌, ◌-◌, ◌*◌, ◌/◌, ◌%◌, ◌≤◌, ◌<◌, [], ◌∷◌, Option, none, some, Bytes, ◌≡◌, ◌≢◌,
  refl, ap, ◌∙◌, arith, leb, ◌==◌, ◌&&◌, Bool, true, if◌then◌else◌, All, Bool-cases, inl, inr,
}

abbrev pub max_u64 : ℕ
max_u64 = 18_446_744_073_709_551_615

abbrev pub is_digit : ℕ → Bool
is_digit c = leb b'0' c && leb c b'9'

-- `checked_mul` and `checked_add`, digit by digit
unfoldable pub scan : Bytes → ℕ → Option ℕ
scan [] n = some n
scan (c ∷ s) n =
    let rest = scan s (n * 10 + (c - b'0')) in
    if is_digit c then (if leb (n * 10 + (c - b'0')) max_u64 then rest else none) else none

-- `str::parse::<u64>()`: a `+` is skipped if a digit follows; `none` is a `ParseIntError`.
unfoldable pub parse_u64 : Bytes → Option ℕ
unfolding scan
parse_u64 [] = none
parse_u64 (c ∷ []) = scan (c ∷ []) 0
parse_u64 (c ∷ d ∷ s) = if c == b'+' then scan (d ∷ s) 0 else scan (c ∷ d ∷ s) 0

-- The last digit first; the fuel bounds the number of digits.
digits_onto : ℕ → ℕ → Bytes → Bytes
digits_onto zero n out = out
digits_onto (suc f) n out =
    let rest = digits_onto f (n / 10) ((b'0' + n % 10) ∷ out) in
    if n / 10 == 0 then (b'0' + n % 10) ∷ out else rest

-- `to_string`; a number has at most as many digits as its value plus one.
unfoldable pub to_string : ℕ → Bytes
unfolding digits_onto
to_string n = digits_onto (suc n) n []

abbrev pub IsDigit : ℕ → Type 0
IsDigit c = is_digit c ≡ true

scan_digit :
    (n d : ℕ) (out : Bytes)
    → d < 10
    → n * 10 + d ≤ max_u64
    → scan ((b'0' + d) ∷ out) n ≡ scan out (n * 10 + d)
unfolding scan
scan_digit n d out h fits = ground arith

scan-digits_onto :
    (f n : ℕ) (out : Bytes) → n < f → n ≤ max_u64 → scan (digits_onto f n out) 0 ≡ scan out n
unfolding digits_onto
scan-digits_onto zero n out h fits = absurd (omega arith)
scan-digits_onto (suc f) n out h fits = elim (Bool-cases (n / 10 == 0)) [
  | inl last ↦
      let here : 0 * 10 + n % 10 ≡ n = ground arith in
      rw last (scan_digit 0 (n % 10) out (omega arith) (ground arith) ∙ ap (scan out) here)
  | inr more ↦
      let whole : n / 10 * 10 + n % 10 ≡ n = omega arith in
      rw more (
        scan-digits_onto f (n / 10) ((b'0' + n % 10) ∷ out) (ground arith) (omega arith)
        ∙ scan_digit (n / 10) (n % 10) out (omega arith) (omega arith)
        ∙ ap (scan out) whole)
]

digits_onto-IsDigit :
    (f n : ℕ) (out : Bytes) → n < f → All IsDigit out → All IsDigit (digits_onto f n out)
unfolding digits_onto
digits_onto-IsDigit zero n out h ds = ds
digits_onto-IsDigit (suc f) n out h ds = elim (Bool-cases (n / 10 == 0)) [
  | inl last ↦ rw last (ground arith, ds)
  | inr more ↦ rw more (digits_onto-IsDigit f (n / 10) _ (ground arith) (ground arith, ds))
]

pub to_string-IsDigit : (n : ℕ) → All IsDigit (to_string n)
unfolding to_string
to_string-IsDigit n = digits_onto-IsDigit (suc n) n [] (omega arith) tt

digits_onto-cons :
    (f n : ℕ) (out : Bytes) → n < f → (c : ℕ) × (s : Bytes) × (digits_onto f n out ≡ c ∷ s)
unfolding digits_onto
digits_onto-cons zero n out h = absurd (omega arith)
digits_onto-cons (suc f) n out h = elim (Bool-cases (n / 10 == 0)) [
  | inl last ↦ (b'0' + n % 10, out, rw last)
  | inr more ↦
      let (c, s, e) = digits_onto-cons f (n / 10) ((b'0' + n % 10) ∷ out) (ground arith) in
      (c, s, rw more e)
]

pub to_string-cons : (n : ℕ) → (c : ℕ) × (s : Bytes) × (to_string n ≡ c ∷ s)
unfolding to_string
to_string-cons n = digits_onto-cons (suc n) n [] (omega arith)

pub to_string-ne-nil : (n : ℕ) → to_string n ≢ []
to_string-ne-nil n h = let (c, s, e) = to_string-cons n in cc (e, h)

-- On digits `parse_u64` is `scan`.
pub parse_u64-scan : (s : Bytes) → s ≢ [] → All IsDigit s → parse_u64 s ≡ scan s 0
unfolding parse_u64
parse_u64-scan [] h ds = absurd (h refl)
parse_u64-scan (c ∷ []) h ds = refl
parse_u64-scan (c ∷ d ∷ s) h ds = ground (arith, ds.0)

pub parse_u64-to_string : (n : ℕ) → n ≤ max_u64 → parse_u64 (to_string n) ≡ some n
unfolding scan
parse_u64-to_string n h =
    let (c, s, e) = to_string-cons n in
    parse_u64-scan (to_string n) (λ nil. cc (e, nil)) (to_string-IsDigit n)
    ∙ (unfold to_string in scan-digits_onto (suc n) n [] (omega arith) h)
