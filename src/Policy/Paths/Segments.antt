-- ===== src/Policy/Paths/Segments.antt =====
-- A wildcard pattern of a scope matches by whole segments: `/admin/*` covers `/admin` and what is
-- below it, and does not cover `/administrator`.
use ai_api_security_platform.Prelude.{
  ℕ, ◌==◌, ==_refl, ◌≡◌, ◌≢◌, refl, sym, ap, ◌∙◌, inl, inr, ◌↔◌, true, ◌||◌, List, [], ◌∷◌, ◌++◌,
  Text, text, ◌=ₜ◌, =ₜ_eq, =ₜ_refl, split, prepend, starts_with, arith, Bool-cases,
}
use mathlib.Core.List.{append-nil, append_assoc}
use ai_api_security_platform.Policy.Paths.{has_wildcard, drop_last_two, matches_pattern}

-- sep.join(pieces)
join : ℕ → List Text → Text
join c [] = []
join c (x ∷ []) = x
join c (x ∷ y ∷ ys) = x ++ (c ∷ join c (y ∷ ys))

module _ (c : ℕ) where
  split_cons : (s : Text) → (y : Text) × (ys : List Text) × (split c s ≡ y ∷ ys)
  split_cons [] = ([], [], refl)
  split_cons (x ∷ s) = elim (Bool-cases (x == c)) [
    | inl e ↦ ([], split c s, rw e)
    | inr e ↦ let (y, ys, h) = split_cons s in (x ∷ y, ys, rw (e, h))
  ]

  prepend-append :
      (x : ℕ) (xs ys : List Text) (y : Text) (rest : List Text)
      → xs ≡ y ∷ rest
      → prepend x (xs ++ ys) ≡ prepend x xs ++ ys
  prepend-append x xs ys y rest e = rw e

  split-append : (a b : Text) → split c (a ++ (c ∷ b)) ≡ split c a ++ split c b
  split-append [] b = rw (==_refl c)
  split-append (x ∷ a) b = elim (Bool-cases (x == c)) [
    | inl e ↦ rw (e, split-append a b)
    | inr e ↦
        let (y, ys, h) = split_cons a in
        rw (e, split-append a b) (prepend-append x (split c a) (split c b) y ys h)
  ]

  join-prepend :
      (x : ℕ) (xs : List Text) (y : Text) (rest : List Text)
      → xs ≡ y ∷ rest
      → join c (prepend x xs) ≡ x ∷ join c xs
  unfolding join
  join-prepend x xs y [] e = rw e
  join-prepend x xs y (z ∷ zs) e = rw e

  join-cons_nil :
      (ys : List Text) (y : Text) (rest : List Text)
      → ys ≡ y ∷ rest
      → join c ([] ∷ ys) ≡ c ∷ join c ys
  unfolding join
  join-cons_nil ys y rest e = rw e

  join-split : (s : Text) → join c (split c s) ≡ s
  unfolding join
  join-split [] = refl
  join-split (x ∷ s) =
      let (y, ys, h) = split_cons s in
      elim (Bool-cases (x == c)) [
        | inl e ↦
            let same : x ≡ c = ground arith in
            rw e (join-cons_nil (split c s) y ys h ∙ (rw (join-split s, same)))
        | inr e ↦ rw e (join-prepend x (split c s) y ys h ∙ ap (λ t. x ∷ t) (join-split s))
      ]

  join-append :
      (xs : List Text) (y : Text) (ys : List Text)
      → xs ≢ []
      → join c (xs ++ y ∷ ys) ≡ join c xs ++ (c ∷ join c (y ∷ ys))
  unfolding join
  join-append [] y ys h = absurd (h refl)
  join-append (x ∷ []) y ys h = refl
  join-append (x ∷ z ∷ zs) y ys h =
      rw (join-append (z ∷ zs) y ys (λ e. cc)) (sym (append_assoc x (c ∷ join c (z ∷ zs)) _))

starts_with-append : (p rest : Text) → starts_with (p ++ rest) p ≡ true
starts_with-append [] [] = refl
starts_with-append [] (x ∷ rest) = refl
starts_with-append (x ∷ p) rest = ground (arith, starts_with-append p rest)

starts_with_split : (s p : Text) → starts_with s p ≡ true → (rest : Text) × (s ≡ p ++ rest)
starts_with_split s [] h = (s, refl)
starts_with_split [] (x ∷ p) h = cc
starts_with_split (y ∷ s) (x ∷ p) h =
    let (rest, e) = starts_with_split s p (ground arith) in (rest, ground arith)

drop_last_two-append : (base : Text) (a b : ℕ) → drop_last_two (base ++ a ∷ b ∷ []) ≡ base
drop_last_two-append [] a b = refl
drop_last_two-append (x ∷ []) a b = refl
drop_last_two-append (x ∷ y ∷ []) a b = refl
drop_last_two-append (x ∷ y ∷ z ∷ base) a b =
    ap (λ t. x ∷ t) (drop_last_two-append (y ∷ z ∷ base) a b)

has_wildcard-append : (base : Text) → has_wildcard (base ++ text "/*") ≡ true
has_wildcard-append [] = refl
has_wildcard-append (x ∷ base) = ground (arith, has_wildcard-append base)

-- The segments of one path are the first segments of another.
abbrev pub IsAbove : Text → Text → Type 0
IsAbove base path = (rest : List Text) × (split b'/' path ≡ split b'/' base ++ rest)

below : (path base : Text) → starts_with path (base ++ text "/") ≡ true → IsAbove base path
below path base h =
    let (rest, e) = starts_with_split path (base ++ text "/") h in
    (split b'/' rest, rw e (rw (append_assoc base (text "/") rest) (split-append b'/' base rest)))

matches-IsAbove :
    (path base : Text)
    → starts_with path (text "/") ≡ true
    → matches_pattern path (base ++ text "/*") ≡ true
    → IsAbove base path
unfolding matches_pattern
matches-IsAbove path [] slash h = below path [] slash
matches-IsAbove path (x ∷ base) slash h = elim (Bool-cases (path =ₜ (x ∷ base))) [
  | inl e ↦ ([], rw (=ₜ_eq path (x ∷ base) e) (sym (append-nil _)))
  | inr e ↦
      below path (x ∷ base)
        (ground (arith, has_wildcard-append (x ∷ base), drop_last_two-append (x ∷ base) b'/' b'*'))
]

-- the test, with the wildcard taken off
matches_wildcard :
    (path base : Text)
    → matches_pattern path (base ++ text "/*")
      ≡ (base =ₜ [] || path =ₜ base || starts_with path (base ++ text "/"))
unfolding matches_pattern
matches_wildcard path base =
    ground (arith, has_wildcard-append base, drop_last_two-append base b'/' b'*')

split_ne_nil : (s : Text) → split b'/' s ≢ []
split_ne_nil s h = let (y, ys, e) = split_cons b'/' s in ground (arith, e, h)

above_matches :
    (path base : Text) → IsAbove base path → matches_pattern path (base ++ text "/*") ≡ true
above_matches path base ([], h) =
    let same : path ≡ base =
      sym (join-split b'/' path)
      ∙ ap (join b'/') (h ∙ append-nil (split b'/' base))
      ∙ join-split b'/' base in
    rw matches_wildcard (rw same (ground (arith, =ₜ_refl base)))
above_matches path base (y ∷ ys, h) =
    let tail = join b'/' (y ∷ ys) in
    let same : path ≡ (base ++ text "/") ++ tail =
      sym (join-split b'/' path)
      ∙ ap (join b'/') h
      ∙ join-append b'/' (split b'/' base) y ys (split_ne_nil base)
      ∙ ap (λ t. t ++ (b'/' ∷ tail)) (join-split b'/' base)
      ∙ sym (append_assoc base (text "/") tail) in
    rw matches_wildcard (rw same (ground (arith, starts_with-append (base ++ text "/") tail)))

-- A path that starts with a slash, as every request path does, matches a wildcard pattern exactly if
-- the segments of the pattern's base are its first segments.
pub matches_wildcard_iff :
    (path base : Text)
    → starts_with path (text "/") ≡ true
    → (matches_pattern path (base ++ text "/*") ≡ true) ↔ IsAbove base path
matches_wildcard_iff path base slash = (matches-IsAbove path base slash, above_matches path base)
