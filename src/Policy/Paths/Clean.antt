-- ===== src/Policy/Paths/Clean.antt =====
-- What `normalize_request_path` lets through holds no traversal and no ambiguity.
use ai_api_security_platform.Prelude.{
  ℕ, ◌==◌, ◌≡◌, ◌≢◌, refl, sym, subst, ap, ◌∙◌, inl, inr, true, false, List, [], ◌∷◌, Text, text,
  split, starts_with, contains, any, In, arith, ok, Bool-cases, Option, none, some,
}
use ai_api_security_platform.Policy.Python.{Python, SplitUrl}
use ai_api_security_platform.Policy.Paths.{
  is_dot_segment, checked_path, normalize_request_path, raw_path,
}

-- Every segment but the last is non-empty.
abbrev pub InnerFilled : List Text → Type 0
InnerFilled [] = Unit
InnerFilled (x ∷ []) = Unit
InnerFilled (x ∷ y ∷ ys) = (x ≢ []) × InnerFilled (y ∷ ys)

filled-cons : (x : Text) (ys : List Text) → x ≢ [] → InnerFilled ys → InnerFilled (x ∷ ys)
filled-cons x [] h k = tt
filled-cons x (y ∷ ys) h k = (h, k)

-- one character more
filled_step :
    (c : ℕ) (s y : Text) (ys : List Text)
    → split b'/' s ≡ y ∷ ys
    → InnerFilled ys
    → (starts_with s (text "/") ≡ false → InnerFilled (y ∷ ys))
    → contains (c ∷ s) (text "//") ≡ false
    → (y' : Text) × (ys' : List Text) × (split b'/' (c ∷ s) ≡ y' ∷ ys')
      × InnerFilled ys'
      × (starts_with (c ∷ s) (text "/") ≡ false → InnerFilled (y' ∷ ys'))
filled_step c s y ys e inner whole free = elim (Bool-cases (c == b'/')) [
  | inl slash ↦ ([], y ∷ ys, rw slash (rw e), whole (ground arith), λ h. absurd (ground arith))
  | inr other ↦ (c ∷ y, ys, rw other (rw e), inner, λ h. filled-cons (c ∷ y) ys (λ q. cc) inner)
]

filled :
    (s : Text)
    → contains s (text "//") ≡ false
    → (y : Text) × (ys : List Text) × (split b'/' s ≡ y ∷ ys)
      × InnerFilled ys
      × (starts_with s (text "/") ≡ false → InnerFilled (y ∷ ys))
filled [] h = ([], [], refl, tt, λ _. tt)
filled (c ∷ s) h =
    let (y, ys, e, inner, whole) = filled s (ground arith) in filled_step c s y ys e inner whole h

-- The segments of a path from its root: none is `.` or `..`, and only the last may be empty.
pub record IsClean (path : Text) : Type 0 where
  pub segments : List Text
  pub rooted : split b'/' path ≡ [] ∷ segments
  pub filled_inside : InnerFilled segments
  pub no_traversal : (s : Text) → In s segments → (s ≢ text ".") × (s ≢ text "..")
  pub no_null : contains path (0 ∷ []) ≡ false
  pub no_backslash : contains path (b'\\' ∷ []) ≡ false

undotted :
    (xs : List Text) (s : Text)
    → any is_dot_segment xs ≡ false
    → In s xs
    → (s ≢ text ".") × (s ≢ text "..")
undotted [] s h m = elim m [ ]
undotted (x ∷ xs) s h (inl e) =
    let plain : is_dot_segment x ≡ false = ground arith in
    (λ q. cc (plain, sym e ∙ q), λ q. cc (plain, sym e ∙ q))
undotted (x ∷ xs) s h (inr m) = undotted xs s (ground arith) m

-- the first piece of a split that begins with the separator
rooted_split :
    (s y : Text) (ys : List Text) → starts_with s (text "/") ≡ true → split b'/' s ≡ y ∷ ys → y ≡ []
rooted_split [] y ys h e = cc
rooted_split (c ∷ s) y ys h e = ground arith

IsClean-from :
    (p y : Text) (ys : List Text)
    → split b'/' p ≡ y ∷ ys
    → InnerFilled ys
    → starts_with p (text "/") ≡ true
    → any is_dot_segment (split b'/' p) ≡ false
    → contains p (0 ∷ []) ≡ false
    → contains p (b'\\' ∷ []) ≡ false
    → IsClean p
IsClean-from p y ys e inner slash dots null back = record {
  segments = ys;
  rooted = e ∙ ap (λ x. x ∷ ys) (rooted_split p y ys slash e);
  filled_inside = inner;
  no_traversal = λ s m. undotted (y ∷ ys) s (ap (any is_dot_segment) (sym e) ∙ dots) (inr m);
  no_null = null;
  no_backslash = back;
}

-- the checks that a path has passed
checked_path_facts :
    (p path : Text)
    → checked_path p ≡ ok path
    → (p ≡ path)
      × (contains p (0 ∷ []) ≡ false)
      × (contains p (b'\\' ∷ []) ≡ false)
      × (contains p (text "//") ≡ false)
      × (any is_dot_segment (split b'/' p) ≡ false)
      × (starts_with p (text "/") ≡ true)
unfolding checked_path
checked_path_facts p path h = ground arith

checked_path-IsClean : (p path : Text) → checked_path p ≡ ok path → IsClean path
checked_path-IsClean p path h =
    let (same, null, back, double, dots, slash) = checked_path_facts p path h in
    let (y, ys, e, inner, _) = filled p double in
    subst IsClean same (IsClean-from p y ys e inner slash dots null back)

-- Whatever URL and decoding gave it, a path that `normalize_request_path` returns is clean.
pub normalize_request_path-IsClean :
    (py : Python) (url path : Text) → normalize_request_path py url ≡ ok path → IsClean path
unfolding normalize_request_path
normalize_request_path-IsClean py url path h = go (py.urlsplit url) refl
  where
    go : (o : Option SplitUrl) → py.urlsplit url ≡ o → IsClean path
    go none e = absurd (ground arith)
    go (some parsed) e =
        checked_path-IsClean (py.unquote (raw_path parsed.path)) path (ground arith)
