-- ===== src/Prelude/Strings.antt =====
-- Python's `str` as the list of its code points, with the tests that the program makes on it.
use Prim.Native.Nat.{ℕ, suc, ◌+◌}
use Prim.Native.Char.{code}
use Prim.Native.String.{String}
use mathlib.Core.Path.{◌≡◌, refl}
use mathlib.Core.Logic.{◌↔◌}
use mathlib.Core.Bool.{Bool, true, false, ◌&&◌, ◌||◌}
use mathlib.Core.List.{List, [], ◌∷◌, reverse}
use native.Mathlib.Omega.{arith}
use ai_api_security_platform.Prelude.Lists.{any}
use ai_api_security_platform.Prelude.Tests.{leb, ◌==◌, if◌then◌else◌}

abbrev pub Text : Type 0
Text = List ℕ

abbrev pub text : String → Text
text String.[] = []
text (String.◌∷◌ c s) = code c ∷ text s

-- the characters that `str.isspace` accepts and `strip()` removes
abbrev pub is_space : ℕ → Bool
is_space c =
    leb 9 c && leb c 13
    || leb 28 c && leb c 32
    || leb 0x2000 c && leb c 0x200a
    || any (λ d. c == d) (0x85 ∷ 0xa0 ∷ 0x1680 ∷ 0x2028 ∷ 0x2029 ∷ 0x202f ∷ 0x205f ∷ 0x3000 ∷ [])

-- `str.lower` on ASCII letters
abbrev pub lower_ascii : ℕ → ℕ
lower_ascii c = if leb b'A' c && leb c b'Z' then c + 32 else c

infix 50 ◌=ₜ◌
-- a == b
abbrev pub ◌=ₜ◌ : Text → Text → Bool
[] =ₜ [] = true
[] =ₜ (y ∷ ys) = false
(x ∷ xs) =ₜ [] = false
(x ∷ xs) =ₜ (y ∷ ys) = x == y && xs =ₜ ys

-- s.startswith(p)
abbrev pub starts_with : Text → Text → Bool
starts_with s [] = true
starts_with [] (p ∷ ps) = false
starts_with (c ∷ s) (p ∷ ps) = c == p && starts_with s ps

-- p in s
abbrev pub contains : Text → Text → Bool
contains [] p = starts_with [] p
contains (c ∷ s) p = starts_with (c ∷ s) p || contains s p

-- s.count(c) for a single character
abbrev pub count_char : ℕ → Text → ℕ
count_char c [] = 0
count_char c (x ∷ s) = let rest = count_char c s in if x == c then suc rest else rest

-- s.endswith(p)
abbrev pub ends_with : Text → Text → Bool
ends_with s p = starts_with (reverse s) (reverse p)

abbrev pub drop_while : (ℕ → Bool) → Text → Text
drop_while p [] = []
drop_while p (c ∷ s) = let rest = drop_while p s in if p c then rest else c ∷ s

-- s.rstrip(...) and s.strip(...) for a class of characters
abbrev pub rstrip : (ℕ → Bool) → Text → Text
rstrip p s = reverse (drop_while p (reverse s))

abbrev pub strip : (ℕ → Bool) → Text → Text
strip p s = rstrip p (drop_while p s)

-- s.split(c): the pieces between the separators, one more than there are separators
abbrev pub prepend : ℕ → List Text → List Text
prepend x [] = (x ∷ []) ∷ []
prepend x (piece ∷ pieces) = (x ∷ piece) ∷ pieces

abbrev pub split : ℕ → Text → List Text
split c [] = [] ∷ []
split c (x ∷ s) = let rest = split c s in if x == c then [] ∷ rest else prepend x rest

pub =ₜ_refl : (a : Text) → (a =ₜ a) ≡ true
=ₜ_refl [] = refl
=ₜ_refl (x ∷ xs) = ground (arith, =ₜ_refl xs)

pub =ₜ_eq : (a b : Text) → (a =ₜ b) ≡ true → a ≡ b
=ₜ_eq [] [] h = refl
=ₜ_eq [] (y ∷ ys) h = cc
=ₜ_eq (x ∷ xs) [] h = cc
=ₜ_eq (x ∷ xs) (y ∷ ys) h = ground (arith, =ₜ_eq xs ys)

pub =ₜ_iff : (a b : Text) → ((a =ₜ b) ≡ true) ↔ (a ≡ b)
=ₜ_iff a b = (=ₜ_eq a b, λ e. rw e (=ₜ_refl b))
