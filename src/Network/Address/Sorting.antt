-- ===== src/Network/Address/Sorting.antt =====
-- `_deduplicate_addresses` returns the same addresses, each once, in the order of its key.
use ai_api_security_platform.Prelude.{
  ◌≡◌, refl, ◌∙◌, inl, inr, ◌⊎◌, ◌↔◌, true, false, List, [], ◌∷◌, In, arith, Bool-cases,
}
use ai_api_security_platform.Network.Address.{
  Address, v4, v6, same_address, precedes, insert_address, deduplicate_addresses,
}

pub same_address_eq : (a b : Address) → same_address a b ≡ true → a ≡ b
same_address_eq (v4 a) (v4 b) h = ground arith
same_address_eq (v4 a) (v6 b) h = cc
same_address_eq (v6 a) (v4 b) h = cc
same_address_eq (v6 a) (v6 b) h = ground arith

-- Each address comes before all that follow it.
abbrev pub IsAscending : List Address → Type 0
IsAscending [] = Unit
IsAscending (a ∷ []) = Unit
IsAscending (a ∷ b ∷ bs) = (precedes a b ≡ true) × IsAscending (b ∷ bs)

precedes_total :
    (a b : Address) → same_address a b ≡ false → precedes a b ≡ false → precedes b a ≡ true
precedes_total (v4 a) (v4 b) h k = ground arith
precedes_total (v4 a) (v6 b) h k = cc
precedes_total (v6 a) (v4 b) h k = refl
precedes_total (v6 a) (v6 b) h k = ground arith

shift : {P Q R S : Type 0} → R ↔ (P ⊎ S) → (Q ⊎ R) ↔ (P ⊎ (Q ⊎ S))
shift (f, g) = (
  λ m. elim m [ inl q ↦ inr (inl q) | inr r ↦ elim (f r) [ inl p ↦ inl p | inr s ↦ inr (inr s) ] ],
  λ m. elim m [
    | inl p ↦ inr (g (inl p))
    | inr k ↦ elim k [ inl q ↦ inl q | inr s ↦ inr (g (inr s)) ]
  ],
)

In-insert : (a b : Address) (bs : List Address) → In b (insert_address a bs) ↔ ((b ≡ a) ⊎ In b bs)
unfolding insert_address
In-insert a b [] = (λ h. h, λ h. h)
In-insert a b (c ∷ bs) = elim (Bool-cases (same_address a c)) [
  | inl e ↦
      let same = same_address_eq a c e in
      rw e (λ m. inr m, λ m. elim m [ inl p ↦ inl (p ∙ same) | inr k ↦ k ])
  | inr e ↦ rw e (elim (Bool-cases (precedes a c)) [
    | inl p ↦ rw p (λ m. m, λ m. m)
    | inr p ↦ rw p (shift (In-insert a b bs))
  ])
]

pub In-deduplicate : (b : Address) (bs : List Address) → In b (deduplicate_addresses bs) ↔ In b bs
unfolding deduplicate_addresses
In-deduplicate b [] = (λ h. h, λ h. h)
In-deduplicate b (a ∷ bs) =
    let ih = In-deduplicate b bs in
    let here = In-insert a b (deduplicate_addresses bs) in
    (
      λ m. elim (here.0 m) [ inl e ↦ inl e | inr k ↦ inr (ih.0 k) ],
      λ m. here.1 (elim m [ inl e ↦ inl e | inr k ↦ inr (ih.1 k) ]),
    )

insert-IsAscending :
    (a : Address) (bs : List Address) → IsAscending bs → IsAscending (insert_address a bs)
unfolding insert_address
insert-IsAscending a [] h = tt
insert-IsAscending a (b ∷ []) h = ground (arith, precedes_total a b)
insert-IsAscending a (b ∷ c ∷ bs) h =
    let rest = insert-IsAscending a (c ∷ bs) h.1 in ground (arith, rest, precedes_total a b)

pub deduplicate-IsAscending : (bs : List Address) → IsAscending (deduplicate_addresses bs)
unfolding deduplicate_addresses
deduplicate-IsAscending [] = tt
deduplicate-IsAscending (a ∷ bs) =
    insert-IsAscending a (deduplicate_addresses bs) (deduplicate-IsAscending bs)
