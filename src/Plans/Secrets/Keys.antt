-- ===== src/Plans/Secrets/Keys.antt =====
-- Which keys `_is_secret_bearing_key` refuses.
use ai_api_security_platform.Prelude.{
  ℕ, zero, suc, ◌≡◌, ◌≤◌, ◌↔◌, refl, sym, ap, ◌∙◌, inl, inr, Bool, true, false, &&_iff, Option,
  none, some, List, [], ◌∷◌, ◌++◌, any, In, filter, length, length-append, Text, text, starts_with,
  ◌==◌, arith, if◌then◌else◌, Bool-cases, subst,
}
use ai_api_security_platform.Plans.Secrets.{
  secret_key_bases, secret_key_qualifiers, is_kept, drop, first_prefix, strip_qualifiers, is_empty,
  matches_base, is_secret_bearing_key,
}

-- A sequence of qualifiers.
pub data IsQualified : Text → Type 0 where
  bare : IsQualified []
  qualified :
      (q rest : Text) {s : Text}
      → In q secret_key_qualifiers
      → s ≡ q ++ rest
      → IsQualified rest
      → IsQualified s

starts_with-append : (s p : Text) → starts_with (p ++ s) p ≡ true
starts_with-append s [] = refl
starts_with-append s (c ∷ p) = ground (arith, starts_with-append s p)

drop-append : (s p : Text) → drop (length p) (p ++ s) ≡ s
drop-append s [] = refl
drop-append s (c ∷ p) = drop-append s p

starts_with-drop : (s p : Text) → starts_with s p ≡ true → s ≡ p ++ drop (length p) s
starts_with-drop s [] e = refl
starts_with-drop [] (c ∷ p) e = absurd (ground (arith, e))
starts_with-drop (d ∷ s) (c ∷ p) e =
    let (same, rest) = (&&_iff (d == c) (starts_with s p)).0 e in
    ground (arith, same, starts_with-drop s p rest)

length-drop : (n : ℕ) (s : Text) → length (drop n s) ≤ length s
length-drop zero s = omega arith
length-drop (suc n) [] = omega arith
length-drop (suc n) (c ∷ s) = omega (arith, length-drop n s)

here :
    (q p rest : Text)
    → q ≡ p
    → first_prefix secret_key_qualifiers (p ++ rest) ≡ some p
    → first_prefix secret_key_qualifiers (q ++ rest) ≡ some q
here q p rest e found =
    subst (λ x. first_prefix secret_key_qualifiers (x ++ rest) ≡ some x) (sym e) found

-- The qualifiers differ in their first letters: the one that is found is the only one.
first_prefix-append :
    (q rest : Text)
    → In q secret_key_qualifiers
    → first_prefix secret_key_qualifiers (q ++ rest) ≡ some q
first_prefix-append q rest (inl e) = here q (text "material") rest e refl
first_prefix-append q rest (inr (inl e)) = here q (text "header") rest e refl
first_prefix-append q rest (inr (inr (inl e))) = here q (text "secret") rest e refl
first_prefix-append q rest (inr (inr (inr (inl e)))) = here q (text "token") rest e refl
first_prefix-append q rest (inr (inr (inr (inr (inl e))))) = here q (text "value") rest e refl
first_prefix-append q rest (inr (inr (inr (inr (inr m))))) = absurd m

first_prefix_found :
    (qs : List Text) (s q : Text) → first_prefix qs s ≡ some q → In q qs × (starts_with s q ≡ true)
first_prefix_found [] s q e = absurd (ground (arith, e))
first_prefix_found (p ∷ qs) s q e = go (first_prefix_found qs s q) (starts_with s p) refl e
  where
    go :
        (first_prefix qs s ≡ some q → In q qs × (starts_with s q ≡ true))
        → (b : Bool) → starts_with s p ≡ b
        → (if b then some p else first_prefix qs s) ≡ some q
        → In q (p ∷ qs) × (starts_with s q ≡ true)
    go later true f g =
        let same : q ≡ p = cc (g) in (inl same, subst (λ x. starts_with s x ≡ true) (sym same) f)
    go later false f g = let (m, h) = later g in (inr m, h)

qualifier-nonempty : (q : Text) → In q secret_key_qualifiers → 1 ≤ length q
qualifier-nonempty q (inl e) = omega (arith, ap length e)
qualifier-nonempty q (inr (inl e)) = omega (arith, ap length e)
qualifier-nonempty q (inr (inr (inl e))) = omega (arith, ap length e)
qualifier-nonempty q (inr (inr (inr (inl e)))) = omega (arith, ap length e)
qualifier-nonempty q (inr (inr (inr (inr (inl e))))) = omega (arith, ap length e)
qualifier-nonempty q (inr (inr (inr (inr (inr m))))) = absurd m

strip_step :
    (n c : ℕ) (s q : Text)
    → first_prefix secret_key_qualifiers (c ∷ s) ≡ some q
    → strip_qualifiers (suc n) (c ∷ s) ≡ strip_qualifiers n (drop (length q) (c ∷ s))
unfolding strip_qualifiers
strip_step n c s q e =
    ap
      (λ o. elim o as (λ _. Text) [
        | none ↦ c ∷ s
        | some q' ↦ strip_qualifiers n (drop (length q') (c ∷ s))
      ])
      e

strip_stuck :
    (n c : ℕ) (s : Text)
    → first_prefix secret_key_qualifiers (c ∷ s) ≡ none
    → strip_qualifiers (suc n) (c ∷ s) ≡ c ∷ s
unfolding strip_qualifiers
strip_stuck n c s e =
    ap
      (λ o. elim o as (λ _. Text) [
        | none ↦ c ∷ s
        | some q' ↦ strip_qualifiers n (drop (length q') (c ∷ s))
      ])
      e

strip_sound : (n : ℕ) (s : Text) → length s ≤ n → strip_qualifiers n s ≡ [] → IsQualified s
unfolding strip_qualifiers
strip_sound zero [] le e = bare
strip_sound zero (c ∷ s) le e = absurd (omega (arith, le))
strip_sound (suc n) [] le e = bare
strip_sound (suc n) (c ∷ s) le e =
    go (λ r. strip_sound n r) (first_prefix secret_key_qualifiers (c ∷ s)) refl
  where
    go :
        ((r : Text) → length r ≤ n → strip_qualifiers n r ≡ [] → IsQualified r)
        → (o : Option Text) → first_prefix secret_key_qualifiers (c ∷ s) ≡ o
        → IsQualified (c ∷ s)
    go later none f = absurd (ground (arith, sym (strip_stuck n c s f) ∙ e))
    go later (some q) f =
        let (m, begins) = first_prefix_found secret_key_qualifiers (c ∷ s) q f in
        let rest = drop (length q) (c ∷ s) in
        let whole = starts_with-drop (c ∷ s) q begins in
        let shorter : length rest ≤ n =
          omega (arith, le, ap length whole, length-append q rest, qualifier-nonempty q m) in
        qualified q rest m whole (later rest shorter (sym (strip_step n c s q f) ∙ e))

strip_complete : (n : ℕ) (s : Text) → length s ≤ n → IsQualified s → strip_qualifiers n s ≡ []
unfolding strip_qualifiers
strip_complete zero [] le w = refl
strip_complete (suc n) [] le w = refl
strip_complete zero (c ∷ s) le w = absurd (omega (arith, le))
strip_complete (suc n) (c ∷ s) le (qualified q rest m e r) =
    let found =
      subst (λ x. first_prefix secret_key_qualifiers x ≡ some q) (sym e)
        (first_prefix-append q rest m) in
    let left = ap (drop (length q)) e ∙ drop-append rest q in
    let shorter : length rest ≤ n =
      omega (arith, le, ap length e, length-append q rest, qualifier-nonempty q m) in
    strip_step n c s q found ∙ ap (strip_qualifiers n) left ∙ strip_complete n rest shorter r

is_empty_iff : (s : Text) → (is_empty s ≡ true) ↔ (s ≡ [])
is_empty_iff [] = (λ _. refl, λ _. refl)
is_empty_iff (c ∷ s) = ground arith

-- The key is a base and a sequence of qualifiers.
abbrev pub IsBased : Text → Text → Type 0
IsBased s base = (rest : Text) × (s ≡ base ++ rest) × IsQualified rest

matches_base_iff : (s base : Text) → (matches_base s base ≡ true) ↔ IsBased s base
unfolding matches_base
matches_base_iff s base = (
  λ e.
      let rest = drop (length base) s in
      let (begins, ends) =
        (&&_iff (starts_with s base) (is_empty (strip_qualifiers (length rest) rest))).0 e in
      (
        rest,
        starts_with-drop s base begins,
        strip_sound (length rest) rest (omega arith) ((is_empty_iff _).0 ends),
      ),
  λ (rest, e, w).
      let left : drop (length base) s ≡ rest = ap (drop (length base)) e ∙ drop-append rest base in
      let begins = subst (λ x. starts_with x base ≡ true) (sym e) (starts_with-append rest base) in
      let done =
        subst (λ r. strip_qualifiers (length r) r ≡ []) (sym left)
          (strip_complete (length rest) rest (omega arith) w) in
      (&&_iff (starts_with s base) _).1 (begins, (is_empty_iff _).1 done),
)

any_found :
    (p : Text → Bool) (xs : List Text) → any p xs ≡ true → (x : Text) × In x xs × (p x ≡ true)
any_found p [] e = absurd (ground (arith, e))
any_found p (x ∷ xs) e = elim (Bool-cases (p x)) [
  | inl h ↦ (x, inl refl, h)
  | inr h ↦ let (y, m, g) = any_found p xs (ground (arith, e, h)) in (y, inr m, g)
]

any_of-In : (p : Text → Bool) (xs : List Text) (x : Text) → In x xs → p x ≡ true → any p xs ≡ true
any_of-In p [] x m h = absurd m
any_of-In p (y ∷ xs) x (inl e) h = ground (arith, subst (λ z. p z ≡ true) e h)
any_of-In p (y ∷ xs) x (inr m) h = ground (arith, any_of-In p xs x m h)

-- A key is taken for the name of a secret exactly if its letters and digits, in lower case, are one of
-- the bases followed by any sequence of the qualifiers: the loop comes to its end within its fuel, and
-- the greedy choice of the first qualifier misses none.
pub is_secret_bearing_key_iff :
    (lower : Text → Text) (key : Text)
    → (is_secret_bearing_key lower key ≡ true)
      ↔ ((base : Text) × In base secret_key_bases × IsBased (filter is_kept (lower key)) base)
unfolding is_secret_bearing_key
is_secret_bearing_key_iff lower key =
    let s = filter is_kept (lower key) in
    (
      λ e.
          let (base, m, h) = any_found (matches_base s) secret_key_bases e in
          (base, m, (matches_base_iff s base).0 h),
      λ (base, m, w).
          any_of-In (matches_base s) secret_key_bases base m ((matches_base_iff s base).1 w),
    )
