-- ===== src/Orchestrator/Token.antt =====
-- `SignToken` and `VerifyToken` of internal/orchestrator/orchestrator.go: the token by which a session's
-- process names itself. HMAC-SHA256 and the URL alphabet of base64 are parameters.
use paihuo.Prelude.{
  ℕ, ◌≤◌, ◌<◌, ◌≡◌, refl, ap, subst, ◌∙◌, Bool, true, false, ◌&&◌, Option, none, some, List, [],
  ◌∷◌, ◌++◌, arith, ◌==◌, ltb, if◌then◌else◌, elem, some-eq, ==→≡, ==_refl,
}
use paihuo.Orchestrator.Decimal.{
  format_int, parse_int, max_int64, some_first, format_int-first, parse_int-format_int,
}

-- crypto/hmac with SHA-256, and base64.RawURLEncoding.
pub record Codec : Type 0 where
  pub hmac : List ℕ → List ℕ → List ℕ
  pub encode : List ℕ → List ℕ
  pub decode : List ℕ → Option (List ℕ)

-- What is documented of base64: it decodes what it has encoded, and `.` is not in its alphabet.
pub record IsBase64 (c : Codec) : Type 0 where
  pub decodes : (bytes : List ℕ) → c.decode (c.encode bytes) ≡ some bytes
  pub plain : (bytes : List ℕ) → elem 46 (c.encode bytes) ≡ false

-- "ph_" and "session:".
abbrev pub token_prefix : List ℕ
token_prefix = 112 ∷ (104 ∷ (95 ∷ []))

abbrev pub payload : ℕ → List ℕ
payload id = (115 ∷ (101 ∷ (115 ∷ (115 ∷ (105 ∷ (111 ∷ (110 ∷ (58 ∷ [])))))))) ++ format_int id

-- `SignToken`.
unfoldable pub sign_token : Codec → List ℕ → ℕ → List ℕ
sign_token c secret id =
    token_prefix ++ (format_int id ++ (46 ∷ c.encode (c.hmac secret (payload id))))

-- `HasPrefix` and `TrimPrefix`.
abbrev pub strip_prefix : List ℕ → List ℕ → Option (List ℕ)
strip_prefix [] s = some s
strip_prefix (p ∷ ps) [] = none
strip_prefix (p ∷ ps) (c ∷ cs) = let rest = strip_prefix ps cs in if p == c then rest else none

-- `LastIndexByte(rest, '.')`, with what stands before and after it.
abbrev pub split_after : ℕ → List ℕ → Option (List ℕ × List ℕ) → Option (List ℕ × List ℕ)
split_after c cs none = if c == 46 then some ([], cs) else none
split_after c cs (some (a, b)) = some (c ∷ a, b)

unfoldable pub split_last : List ℕ → Option (List ℕ × List ℕ)
split_last [] = none
split_last (c ∷ cs) = split_after c cs (split_last cs)

-- `hmac.Equal`, after the test of the lengths.
abbrev pub same_bytes : List ℕ → List ℕ → Bool
same_bytes [] [] = true
same_bytes (x ∷ xs) (y ∷ ys) = x == y && same_bytes xs ys
same_bytes _ _ = false

abbrev pub check_mac : Codec → List ℕ → ℕ → Option (List ℕ) → Option ℕ
check_mac c secret id none = none
check_mac c secret id (some sig) =
    if same_bytes sig (c.hmac secret (payload id)) then some id else none

abbrev pub check_id : Codec → List ℕ → List ℕ → Option ℕ → Option ℕ
check_id c secret sig none = none
check_id c secret sig (some id) = if ltb id 1 then none else check_mac c secret id (c.decode sig)

abbrev pub check_parts : Codec → List ℕ → Option (List ℕ × List ℕ) → Option ℕ
check_parts c secret none = none
check_parts c secret (some ([], b)) = none
check_parts c secret (some (x ∷ a, b)) = check_id c secret b (parse_int (x ∷ a))

abbrev pub check_rest : Codec → List ℕ → Option (List ℕ) → Option ℕ
check_rest c secret none = none
check_rest c secret (some rest) = check_parts c secret (split_last rest)

-- `VerifyToken`; `none` is each of its errors.
unfoldable pub verify_token : Codec → List ℕ → List ℕ → Option ℕ
verify_token c secret token = check_rest c secret (strip_prefix token_prefix token)

split_last-plain : (b : List ℕ) → elem 46 b ≡ false → split_last b ≡ none
unfolding split_last
split_last-plain [] h = refl
split_last-plain (c ∷ cs) h = rw (split_last-plain cs (ground arith)) (ground arith)

split_last-append : (a b : List ℕ) → elem 46 b ≡ false → split_last (a ++ (46 ∷ b)) ≡ some (a, b)
unfolding split_last
split_last-append [] b h = rw (split_last-plain b h) refl
split_last-append (c ∷ cs) b h = rw (split_last-append cs b h) refl

same_bytes_refl : (s : List ℕ) → same_bytes s s ≡ true
same_bytes_refl [] = refl
same_bytes_refl (x ∷ xs) = ground (arith, ==_refl x, same_bytes_refl xs)

check_parts-first :
    (c : Codec) (secret a b : List ℕ)
    → some_first a ≡ true
    → check_parts c secret (some (a, b)) ≡ check_id c secret b (parse_int a)
check_parts-first c secret [] b h = cc
check_parts-first c secret (x ∷ a) b h = refl

-- A token that is signed for a session is verified, under the same secret, as a token of that session.
pub verify_token-sign_token :
    (c : Codec) (secret : List ℕ) (id : ℕ)
    → IsBase64 c
    → 0 < id
    → id ≤ max_int64
    → verify_token c secret (sign_token c secret id) ≡ some id
unfolding verify_token sign_token
verify_token-sign_token c secret id base positive small =
    ap (check_parts c secret) (split_last-append (format_int id) (c.encode mac) (base.plain mac))
    ∙ check_parts-first c secret (format_int id) (c.encode mac) (format_int-first id)
    ∙ ap (check_id c secret (c.encode mac)) (parse_int-format_int id small)
    ∙ rw (is_positive id positive, base.decodes mac, same_bytes_refl mac) refl
  where
    mac : List ℕ
    mac = c.hmac secret (payload id)

    is_positive : (id : ℕ) → 0 < id → ltb id 1 ≡ false
    is_positive id h = ground arith

same_bytes→≡ : (s t : List ℕ) → same_bytes s t ≡ true → s ≡ t
same_bytes→≡ [] [] h = refl
same_bytes→≡ [] (y ∷ ys) h = cc
same_bytes→≡ (x ∷ xs) [] h = cc
same_bytes→≡ (x ∷ xs) (y ∷ ys) h = ground (arith, same_bytes→≡ xs ys)

strip_prefix-append :
    (ps s : List ℕ) {rest : List ℕ} → strip_prefix ps s ≡ some rest → s ≡ ps ++ rest
strip_prefix-append [] s h = cc
strip_prefix-append (p ∷ ps) [] h = cc
strip_prefix-append (p ∷ ps) (x ∷ xs) {rest = rest} h =
    ground (arith, strip_prefix-append ps xs {rest = rest})

split_last-parts : (s : List ℕ) {a b : List ℕ} → split_last s ≡ some (a, b) → s ≡ a ++ (46 ∷ b)
unfolding split_last
split_last-parts [] h = cc
split_last-parts (x ∷ xs) {a = a} {b = b} h =
    by (split_last xs) refl h (λ a b. split_last-parts xs {a = a} {b = b})
  where
    dot :
        (t : Bool)
        → x == 46 ≡ t
        → if◌then◌else◌ {A = Option (List ℕ × List ℕ)} t (some ([], xs)) none ≡ some (a, b)
        → x ∷ xs ≡ a ++ (46 ∷ b)
    dot true e h =
        ap (λ k. k ∷ xs) (==→≡ x 46 e) ∙ ap (λ (p : List ℕ × List ℕ). p.0 ++ (46 ∷ p.1)) (some-eq h)
    dot false e h = cc

    by :
        (o : Option (List ℕ × List ℕ))
        → split_last xs ≡ o
        → split_after x xs o ≡ some (a, b)
        → ((a b : List ℕ) → split_last xs ≡ some (a, b) → xs ≡ a ++ (46 ∷ b))
        → x ∷ xs ≡ a ++ (46 ∷ b)
    by none e h rec = dot (x == 46) refl h
    by (some (a2, b2)) e h rec =
        ap (λ s. x ∷ s) (rec a2 b2 e) ∙ ap (λ (p : List ℕ × List ℕ). p.0 ++ (46 ∷ p.1)) (some-eq h)

-- What a token that is accepted for a session is: the prefix, a text that reads as the session's id, a
-- dot, and a text that decodes to the code that the secret gives the id.
abbrev pub Signed : Codec → List ℕ → List ℕ → ℕ → Type 0
Signed c secret token id =
    (a : List ℕ) × (b : List ℕ) × (token ≡ token_prefix ++ (a ++ (46 ∷ b)))
    × (parse_int a ≡ some id)
    × (0 < id)
    × (c.decode b ≡ some (c.hmac secret (payload id)))

check_mac-parts :
    (c : Codec) (secret : List ℕ) (id i : ℕ) (o : Option (List ℕ))
    → check_mac c secret i o ≡ some id
    → (i ≡ id) × (o ≡ some (c.hmac secret (payload id)))
check_mac-parts c secret id i none h = cc
check_mac-parts c secret id i (some sig) h = by (same_bytes sig (c.hmac secret (payload i))) refl h
  where
    by :
        (t : Bool)
        → same_bytes sig (c.hmac secret (payload i)) ≡ t
        → (if t then some i else none) ≡ some id
        → (i ≡ id) × (some sig ≡ some (c.hmac secret (payload id)))
    by true e g = (
      some-eq g,
      ap some (
          same_bytes→≡ sig (c.hmac secret (payload i)) e
          ∙ ap (λ k. c.hmac secret (payload k)) (some-eq g)),
    )
    by false e g = cc

check_id-parts :
    (c : Codec) (secret b : List ℕ) (id : ℕ) (o : Option ℕ)
    → check_id c secret b o ≡ some id
    → (o ≡ some id) × (0 < id) × (c.decode b ≡ some (c.hmac secret (payload id)))
check_id-parts c secret b id none h = cc
check_id-parts c secret b id (some i) h = by (ltb i 1) refl h
  where
    by :
        (t : Bool)
        → ltb i 1 ≡ t
        → (if t then none else check_mac c secret i (c.decode b)) ≡ some id
        → (some i ≡ some id) × (0 < id) × (c.decode b ≡ some (c.hmac secret (payload id)))
    by true e g = cc
    by false e g =
        let (same, mac) = check_mac-parts c secret id i (c.decode b) g in
        (ap some same, subst (λ k. 0 < k) same (ground arith), mac)

-- Only such a token is accepted: a token that is verified as one of a session names that session after
-- the prefix, by a text that reads as its id, and what follows the last dot decodes to the code that the
-- secret gives this id, which is not 0.
pub verify_token-Signed :
    (c : Codec) (secret token : List ℕ) (id : ℕ)
    → verify_token c secret token ≡ some id
    → Signed c secret token id
unfolding verify_token
verify_token-Signed c secret token id h = rest (strip_prefix token_prefix token) refl h
  where
    parts :
        (s : List ℕ)
        → token ≡ token_prefix ++ s
        → (o : Option (List ℕ × List ℕ)) → split_last s ≡ o
        → check_parts c secret o ≡ some id
        → Signed c secret token id
    parts s e none f g = cc
    parts s e (some ([], b)) f g = cc
    parts s e (some (x ∷ a, b)) f g =
        let (number, positive, mac) = check_id-parts c secret b id (parse_int (x ∷ a)) g in
        (x ∷ a, b, e ∙ ap (λ k. token_prefix ++ k) (split_last-parts s f), number, positive, mac)

    rest :
        (o : Option (List ℕ))
        → strip_prefix token_prefix token ≡ o
        → check_rest c secret o ≡ some id
        → Signed c secret token id
    rest none e g = cc
    rest (some s) e g = parts s (strip_prefix-append token_prefix token e) (split_last s) refl g
