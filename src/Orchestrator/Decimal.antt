-- ===== src/Orchestrator/Decimal.antt =====
-- `strconv.FormatInt` and `strconv.ParseInt` in base 10, as internal/orchestrator/orchestrator.go uses
-- them for the id of a session. A text is its list of bytes.
use paihuo.Prelude.{
  ℕ, zero, suc, ◌+◌, ◌-◌, ◌≤◌, ◌<◌, ◌≡◌, refl, ap, ◌∙◌, if-cases, Bool, true, false, ◌&&◌, Option,
  none, some, List, [], ◌∷◌, arith, ◌==◌, ltb, leb, if◌then◌else◌, elem, all,
}
use Prim.Native.Nat.{◌*◌, ◌/◌, ◌%◌}

-- The digits of `n` before those of `rest`; `fuel` bounds their number.
unfoldable pub format_before : ℕ → ℕ → List ℕ → List ℕ
format_before zero n rest = (48 + n % 10) ∷ rest
format_before (suc fuel) n rest =
    let more = format_before fuel (n / 10) ((48 + n % 10) ∷ rest) in
    if ltb n 10 then (48 + n) ∷ rest else more

-- `FormatInt(n, 10)`, of a number that is not negative.
unfoldable pub format_int : ℕ → List ℕ
format_int n = format_before n n []

abbrev pub is_digit : ℕ → Bool
is_digit c = leb 48 c && leb c 57

-- The digits that are left, after those that make `value`.
unfoldable pub parse_digits : ℕ → List ℕ → Option ℕ
parse_digits value [] = some value
parse_digits value (c ∷ cs) =
    let rest = parse_digits (value * 10 + (c - 48)) cs in if is_digit c then rest else none

abbrev pub max_int64 : ℕ
max_int64 = 9223372036854775807

abbrev pub in_range : Option ℕ → Option ℕ
in_range none = none
in_range (some n) = if leb n max_int64 then some n else none

-- `ParseInt(s, 10, 64)`, less the negative numbers, which are as good as an error to its caller: one
-- sign is allowed, then there is at least one digit, and the number fits.
unfoldable pub parse_unsigned : List ℕ → Option ℕ
parse_unsigned [] = none
parse_unsigned (c ∷ cs) = in_range (parse_digits 0 (c ∷ cs))

unfoldable pub parse_int : List ℕ → Option ℕ
parse_int [] = none
parse_int (c ∷ cs) = if c == 43 then parse_unsigned cs else parse_unsigned (c ∷ cs)

digit_test : (d : ℕ) → d < 10 → is_digit (48 + d) ≡ true
digit_test d h = ground arith

digit :
    (v d : ℕ) (rest : List ℕ)
    → d < 10
    → parse_digits v ((48 + d) ∷ rest) ≡ parse_digits (v * 10 + d) rest
unfolding parse_digits
digit v d rest h = rw (digit_test d h, digit_value d) refl
  where
    digit_value : (d : ℕ) → 48 + d - 48 ≡ d
    digit_value d = omega arith

parse-format_before :
    (fuel n : ℕ) (rest : List ℕ)
    → n ≤ fuel
    → parse_digits 0 (format_before fuel n rest) ≡ parse_digits n rest
unfolding format_before
parse-format_before zero n rest h =
    digit 0 (n % 10) rest (omega arith) ∙ ap (λ k. parse_digits k rest) (omega (arith, h))
parse-format_before (suc fuel) n rest h =
    if-cases (λ (s : List ℕ). parse_digits 0 s ≡ parse_digits n rest) (ltb n 10)
      (λ small. digit 0 n rest (ground arith) ∙ ap (λ k. parse_digits k rest) (omega arith))
      (λ large.
        parse-format_before fuel (n / 10) ((48 + n % 10) ∷ rest) (below large)
        ∙ digit (n / 10) (n % 10) rest (omega arith)
        ∙ ap (λ k. parse_digits k rest) (omega arith))
  where
    below : ltb n 10 ≡ false → n / 10 ≤ fuel
    below large = ground arith

format_before-digits :
    (fuel n : ℕ) (rest : List ℕ)
    → all is_digit rest ≡ true
    → all is_digit (format_before fuel n rest) ≡ true
unfolding format_before
format_before-digits zero n rest h = ground (arith, digit_test (n % 10) (omega arith))
format_before-digits (suc fuel) n rest h =
    if-cases (λ (s : List ℕ). all is_digit s ≡ true) (ltb n 10)
      (λ small. ground (arith, digit_test n (ground arith)))
      (λ large.
        format_before-digits fuel (n / 10) ((48 + n % 10) ∷ rest)
          (ground (arith, digit_test (n % 10) (omega arith))))

-- The text of a number is made of digits only, and is not empty.
abbrev pub some_first : List ℕ → Bool
some_first [] = false
some_first (c ∷ cs) = is_digit c

format_before-first : (fuel n : ℕ) (rest : List ℕ) → some_first (format_before fuel n rest) ≡ true
unfolding format_before
format_before-first zero n rest = digit_test (n % 10) (omega arith)
format_before-first (suc fuel) n rest =
    if-cases (λ (s : List ℕ). some_first s ≡ true) (ltb n 10) (λ small. digit_test n (ground arith))
      (λ large. format_before-first fuel (n / 10) ((48 + n % 10) ∷ rest))

pub format_int-first : (n : ℕ) → some_first (format_int n) ≡ true
unfolding format_int
format_int-first n = format_before-first n n []

no_dot : (s : List ℕ) → all is_digit s ≡ true → elem 46 s ≡ false
no_dot [] h = refl
no_dot (c ∷ cs) h = ground (arith, no_dot cs)

pub format_int_plain : (n : ℕ) → elem 46 (format_int n) ≡ false
unfolding format_int
format_int_plain n = no_dot (format_before n n []) (format_before-digits n n [] refl)

parse_int-digits : (s : List ℕ) → some_first s ≡ true → parse_int s ≡ in_range (parse_digits 0 s)
unfolding parse_int parse_unsigned
parse_int-digits [] h = cc
parse_int-digits (c ∷ cs) h = ground arith

whole : (n : ℕ) → parse_digits 0 (format_int n) ≡ some n
unfolding format_int parse_digits
whole n = parse-format_before n n [] (omega arith)

pub parse_int-format_int : (n : ℕ) → n ≤ max_int64 → parse_int (format_int n) ≡ some n
parse_int-format_int n h =
    parse_int-digits (format_int n) (format_int-first n) ∙ ap in_range (whole n) ∙ fits n h
  where
    fits : (n : ℕ) → n ≤ max_int64 → in_range (some n) ≡ some n
    fits n h = ground arith
