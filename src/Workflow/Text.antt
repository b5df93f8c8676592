-- ===== src/Workflow/Text.antt =====
-- The texts that internal/workflow/policy.go reads: `strings.TrimSpace`, the pattern of a node's id,
-- `dangerousAction` and `invalidReference`. A text is read as its code points.
use Prim.Native.Char.{code}
use paihuo.Prelude.{
  ◌≡◌, refl, ℕ, String, Bool, true, false, ◌&&◌, ◌||◌, List, [], ◌∷◌, ◌==◌, leb, if◌then◌else◌, all,
  any, length, elem,
}

abbrev pub Codes : Type 0
Codes = List ℕ

abbrev pub codes : String → Codes
codes String.[] = []
codes (String.◌∷◌ c s) = code c ∷ codes s

-- `unicode.IsSpace`.
abbrev pub is_space : ℕ → Bool
is_space c =
    (leb 9 c && leb c 13)
    || (c == 32
        || (c == 0x85
            || (c == 0xa0
                || (c == 0x1680
                    || ((leb 0x2000 c && leb c 0x200a)
                        || (c == 0x2028
                            || (c == 0x2029 || (c == 0x202f || (c == 0x205f || c == 0x3000)))))))))

abbrev pub trim_left : Codes → Codes
trim_left [] = []
trim_left (c ∷ cs) = let rest = trim_left cs in if is_space c then rest else c ∷ cs

-- A text without the spaces at its end.
abbrev pub trim_right : Codes → Codes
trim_right [] = []
trim_right (c ∷ cs) = if all is_space (c ∷ cs) then [] else c ∷ trim_right cs

-- `strings.TrimSpace`.
abbrev pub trim_space : Codes → Codes
trim_space cs = trim_right (trim_left cs)

abbrev pub is_empty : Codes → Bool
is_empty [] = true
is_empty (c ∷ cs) = false

-- `strings.TrimSpace(s) == ""`.
unfoldable pub is_blank : String → Bool
is_blank s = is_empty (trim_space (codes s))

abbrev pub same_codes : Codes → Codes → Bool
same_codes [] [] = true
same_codes (x ∷ xs) (y ∷ ys) = x == y && same_codes xs ys
same_codes _ _ = false

-- `strings.HasPrefix`.
abbrev pub has_prefix : Codes → Codes → Bool
has_prefix cs [] = true
has_prefix [] (p ∷ ps) = false
has_prefix (c ∷ cs) (p ∷ ps) = c == p && has_prefix cs ps

-- `strings.Contains`.
abbrev pub contains : Codes → Codes → Bool
contains [] part = is_empty part
contains (c ∷ cs) part = has_prefix (c ∷ cs) part || contains cs part

-- `strings.SplitN(s, ":", 2)[1]`, where there is a colon.
abbrev pub after_colon : Codes → Codes
after_colon [] = []
after_colon (c ∷ cs) = let rest = after_colon cs in if c == b':' then cs else rest

-- `[a-z]` and `[a-z0-9_-]`.
abbrev pub is_lower : ℕ → Bool
is_lower c = leb b'a' c && leb c b'z'

abbrev pub is_slug_char : ℕ → Bool
is_slug_char c = is_lower c || ((leb b'0' c && leb c b'9') || (c == b'_' || c == b'-'))

abbrev pub is_slug : Codes → Bool
is_slug [] = false
is_slug (c ∷ cs) = is_lower c && (all is_slug_char cs && leb (length cs) 63)

-- `nodeIDPattern.MatchString`.
unfoldable pub node_id_matches : String → Bool
node_id_matches s = is_slug (codes s)

-- `dangerousAction`.
unfoldable pub dangerous_action : String → Bool
dangerous_action action =
    any (λ name. same_codes (trim_space (codes action)) (codes name))
      ("install_runtime" ∷ "arbitrary_host_path" ∷ "full_permission" ∷ "merge_workspace"
        ∷ "delete_workspace" ∷ [])

-- What follows `node:` or `artifact:` must be a relative path that does not climb; `filepath.IsAbs` is
-- the test for a slash at the start.
abbrev pub bad_value : Codes → Bool
bad_value value =
    is_empty value
    || (has_prefix value (codes "/")
        || (contains value (codes "..") || any (λ c. elem c (92 ∷ 10 ∷ 13 ∷ [])) value))

-- `invalidReference`.
unfoldable pub invalid_reference : String → Bool
invalid_reference ref =
    let cs = trim_space (codes ref) in
    if has_prefix cs (codes "node:") || has_prefix cs (codes "artifact:")
    then bad_value (trim_space (after_colon cs))
    else true

slug_test : node_id_matches "a-1_z" ≡ true
unfolding node_id_matches
slug_test = refl

blank_test : is_blank " \n\t" ≡ true
unfolding is_blank
blank_test = refl

reference_test : invalid_reference " node: out.txt " ≡ false
unfolding invalid_reference
reference_test = refl

climbing_test : invalid_reference "artifact:a/../b" ≡ true
unfolding invalid_reference
climbing_test = refl

action_test : dangerous_action " merge_workspace " ≡ true
unfolding dangerous_action
action_test = refl
