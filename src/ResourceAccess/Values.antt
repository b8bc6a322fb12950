-- ===== src/ResourceAccess/Values.antt =====
-- The set of the values of a field: its members, and where they come from.
use ai_api_security_platform.Prelude.{
  ◌≡◌, ◌≢◌, refl, sym, ap, ◌∙◌, inl, inr, true, List, [], ◌∷◌, any, map, In, Text, ◌=ₜ◌, =ₜ_iff,
  arith, Bool-cases, if◌then◌else◌,
}
use ai_api_security_platform.ResourceAccess.{Assertion, set_of}

any_equal : (x : Text) (ys : List Text) → any (λ y. x =ₜ y) ys ≡ true → In x ys
any_equal x [] e = absurd (ground (arith, e))
any_equal x (y ∷ ys) e = elim (Bool-cases (x =ₜ y)) [
  | inl h ↦ inl ((=ₜ_iff x y).0 h)
  | inr h ↦ inr (any_equal x ys (ground (arith, e, h)))
]

equal_any : (x : Text) (ys : List Text) → In x ys → any (λ y. x =ₜ y) ys ≡ true
equal_any x [] m = absurd m
equal_any x (y ∷ ys) (inl e) = ground (arith, (=ₜ_iff x y).1 e)
equal_any x (y ∷ ys) (inr m) = ground (arith, equal_any x ys m)

-- The set of some texts is empty, or has one member, or two members that differ.
pub data Members (xs : List Text) : List Text → Type 0 where
  no_member : ((y : Text) → ¬ In y xs) → Members xs []
  one_member : (v : Text) → In v xs → ((y : Text) → In y xs → y ≡ v) → Members xs (v ∷ [])
  two_members : (v w : Text) (l : List Text) → In v xs → In w xs → v ≢ w → Members xs (v ∷ w ∷ l)

Members-cons :
    (x : Text) (xs s : List Text)
    → Members xs s
    → Members (x ∷ xs) (if any (λ y. x =ₜ y) s then s else x ∷ s)
Members-cons x xs s (no_member none_in) =
    one_member x (inl refl) (λ y q. elim q [ inl e ↦ e | inr m ↦ absurd (none_in y m) ])
Members-cons x xs s (one_member v m all_equal) = elim (Bool-cases (any (λ y. x =ₜ y) (v ∷ []))) [
  | inl h ↦
      let same : x ≡ v = elim (any_equal x (v ∷ []) h) [ inl e ↦ e | inr n ↦ absurd n ] in
      rw h (one_member v (inr m) (λ y q. elim q [ inl e ↦ e ∙ same | inr k ↦ all_equal y k ]))
  | inr h ↦
      rw h
        (two_members x v [] (inl refl) (inr m) (λ e. absurd (cc (h, equal_any x (v ∷ []) (inl e)))))
]
Members-cons x xs s (two_members v w l m n apart) =
    elim (Bool-cases (any (λ y. x =ₜ y) (v ∷ w ∷ l))) [
      | inl h ↦ rw h (two_members v w l (inr m) (inr n) apart)
      | inr h ↦ rw h (
          two_members x v (w ∷ l) (inl refl) (inr m)
            (λ e. absurd (cc (h, equal_any x (v ∷ w ∷ l) (inl e)))))
    ]

pub members : (xs : List Text) → Members xs (set_of xs)
members [] = no_member (λ y m. m)
members (x ∷ xs) = Members-cons x xs (set_of xs) (members xs)

pub map-In :
    (f : Assertion → Text) (rows : List Assertion) (y : Text)
    → In y (map f rows)
    → (a : Assertion) × In a rows × (f a ≡ y)
map-In f [] y m = absurd m
map-In f (a ∷ rows) y (inl e) = (a, inl refl, sym e)
map-In f (a ∷ rows) y (inr m) = let (b, n, e) = map-In f rows y m in (b, inr n, e)

pub In-map :
    (f : Assertion → Text) (rows : List Assertion) (a : Assertion)
    → In a rows
    → In (f a) (map f rows)
In-map f [] a m = absurd m
In-map f (b ∷ rows) a (inl e) = inl (ap f e)
In-map f (b ∷ rows) a (inr m) = inr (In-map f rows a m)
