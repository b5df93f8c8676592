-- ===== src/Scenarios/Tokens.antt =====
-- A token of session 42, under a code and an alphabet that are simple.
use paihuo.Prelude.{ℕ, ◌+◌, ◌-◌, ◌≡◌, refl, false, some, List, [], ◌∷◌, ◌++◌, arith, elem, ap}
use paihuo.Orchestrator.Token.{
  Codec, IsBase64, Signed, sign_token, verify_token, verify_token-sign_token, verify_token-Signed,
}

-- Each byte is shifted past the dot.
abbrev shift : List ℕ → List ℕ
shift [] = []
shift (x ∷ xs) = (x + 47) ∷ shift xs

abbrev shift_back : List ℕ → List ℕ
shift_back [] = []
shift_back (x ∷ xs) = (x - 47) ∷ shift_back xs

abbrev simple : Codec
simple = record {
  hmac = λ key message. key ++ message;
  encode = shift;
  decode = λ s. some (shift_back s);
}

shift-back : (s : List ℕ) → shift_back (shift s) ≡ s
shift-back [] = refl
shift-back (x ∷ xs) = ground (arith, shift-back xs)

shift_plain : (s : List ℕ) → elem 46 (shift s) ≡ false
shift_plain [] = refl
shift_plain (x ∷ xs) = ground (arith, shift_plain xs)

simple-IsBase64 : IsBase64 simple
simple-IsBase64 = record { decodes = λ s. ap some (shift-back s); plain = shift_plain }

verify_token-sign_token_example :
    verify_token simple (7 ∷ []) (sign_token simple (7 ∷ []) 42) ≡ some 42
verify_token-sign_token_example =
    verify_token-sign_token simple (7 ∷ []) 42 simple-IsBase64 (omega arith) (omega arith)

verify_token-Signed_example : Signed simple (7 ∷ []) (sign_token simple (7 ∷ []) 42) 42
verify_token-Signed_example =
    verify_token-Signed simple (7 ∷ []) (sign_token simple (7 ∷ []) 42) 42
      (verify_token-sign_token simple (7 ∷ []) 42 simple-IsBase64 (omega arith) (omega arith))
