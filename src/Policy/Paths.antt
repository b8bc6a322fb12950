-- ===== src/Policy/Paths.antt =====
-- The path functions of backend/app/policies/scope_policy.py.
pub mod Segments
pub mod Clean
use ai_api_security_platform.Prelude.{
  ℕ, ◌==◌, ◌-◌, ◌≡◌, Bool, true, false, not, ◌&&◌, ◌||◌, Option, none, some, List, [], ◌∷◌, ◌++◌,
  Text, text, ◌=ₜ◌, strip, is_space, contains, starts_with, ends_with, count_char, split, any,
  Result, ok, err, ◌>>=◌, ◌>>◌, guard, if◌then◌else◌,
}
use ai_api_security_platform.Policy.Python.{Python, SplitUrl}
use ai_api_security_platform.Policy.Origin.{
  Violation, ambiguous_encoding, null_byte, backslash, double_slash, dot_segment, relative_path,
  relative_pattern, many_wildcards, misplaced_wildcard,
}

-- `normalize_request_path` catches no error of `urlsplit`.
pub data PathError : Type 0 where
  rejected : Violation → PathError
  uncaught_value_error : PathError

abbrev is_dot_segment : Text → Bool
is_dot_segment s = s =ₜ text "." || s =ₜ text ".."

abbrev is_ambiguous : Text → Bool
is_ambiguous s = any (λ e. contains s e) (text "%2f" ∷ text "%5c" ∷ text "%00" ∷ text "%25" ∷ [])

-- the checks on the decoded path
unfoldable pub checked_path : Text → Result PathError Text
checked_path p = do
  guard (not (contains p (0 ∷ []))) (rejected null_byte)
  guard (not (contains p (b'\\' ∷ []))) (rejected backslash)
  guard (not (contains p (text "//"))) (rejected double_slash)
  guard (not (any is_dot_segment (split b'/' p))) (rejected dot_segment)
  guard (starts_with p (text "/")) (rejected relative_path)
  ok p

-- `parsed.path or "/"`
abbrev raw_path : Text → Text
raw_path [] = text "/"
raw_path (c ∷ s) = c ∷ s

module _ (py : Python) where
  unfoldable pub normalize_request_path : Text → Result PathError Text
  unfolding checked_path
  normalize_request_path url = elim (py.urlsplit url) [
    | none ↦ err uncaught_value_error
    | some parsed ↦
        if is_ambiguous (py.lower (raw_path parsed.path))
        then err (rejected ambiguous_encoding)
        else checked_path (py.unquote (raw_path parsed.path))
  ]

-- `"*" in s`
abbrev pub has_wildcard : Text → Bool
has_wildcard s = contains s (text "*")

unfoldable pub normalize_scope_path_pattern : Text → Result Violation Text
normalize_scope_path_pattern pattern =
    let value = strip is_space pattern in
    if not (starts_with value (text "/"))
    then err relative_pattern
    else if not (has_wildcard value)
    then ok value
    else if not (count_char b'*' value == 1)
    then err many_wildcards
    else if not (ends_with value (text "/*"))
    then err misplaced_wildcard
    else ok value

-- `pattern[:-2]`
abbrev pub drop_last_two : Text → Text
drop_last_two [] = []
drop_last_two (a ∷ []) = []
drop_last_two (a ∷ b ∷ []) = []
drop_last_two (a ∷ b ∷ c ∷ s) = a ∷ drop_last_two (b ∷ c ∷ s)

-- the comparison with a normalized pattern
unfoldable pub matches_pattern : Text → Text → Bool
matches_pattern path pattern =
    if not (has_wildcard pattern)
    then path =ₜ pattern
    else let base = drop_last_two pattern in
      base =ₜ [] || path =ₜ base || starts_with path (base ++ text "/")

unfoldable pub path_matches_scope : Text → Text → Result Violation Bool
unfolding matches_pattern
path_matches_scope path pattern = do
  normalized ← normalize_scope_path_pattern pattern
  ok (matches_pattern path normalized)
