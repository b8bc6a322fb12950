-- ===== src/Bola/Json/Search.antt =====
-- The depth-first search finds a key exactly if some field of the value, at any depth, passes the test.
use ai_api_security_platform.Prelude.{
  ◌≡◌, refl, subst, inl, inr, ◌⊎◌, Bool, true, Option, none, some, Text, Bool-cases, arith,
}
use ai_api_security_platform.Bola.Json.{
  Value, null, boolean, number, string, array, object, Items, no_items, and_item, Fields, no_fields,
  field, first_of_two, find, find_items, find_fields,
}

-- A field with this key, somewhere in the value, passes the test.
mutual
  pub data Occurs (hit : Text → Value → Bool) (k : Text) : Value → Type 0 where
    in_array : {items : Items} → OccursIn hit k items → Occurs hit k (array items)
    in_object : {fields : Fields} → OccursAmong hit k fields → Occurs hit k (object fields)

  pub data OccursIn (hit : Text → Value → Bool) (k : Text) : Items → Type 0 where
    first : {v : Value} {items : Items} → Occurs hit k v → OccursIn hit k (and_item v items)
    later : {v : Value} {items : Items} → OccursIn hit k items → OccursIn hit k (and_item v items)

  pub data OccursAmong (hit : Text → Value → Bool) (k : Text) : Fields → Type 0 where
    here : {v : Value} {fields : Fields} → hit k v ≡ true → OccursAmong hit k (field k v fields)
    inside :
        {j : Text} {v : Value} {fields : Fields}
        → Occurs hit k v
        → OccursAmong hit k (field j v fields)
    after :
        {j : Text} {v : Value} {fields : Fields}
        → OccursAmong hit k fields
        → OccursAmong hit k (field j v fields)

either : (a b : Option Text) (k : Text) → first_of_two a b ≡ some k → (a ≡ some k) ⊎ (b ≡ some k)
either none b k h = inr h
either (some x) b k h = inl h

neither : (a b : Option Text) → first_of_two a b ≡ none → (a ≡ none) × (b ≡ none)
neither none b h = (refl, h)
neither (some x) b h = absurd (ground arith)

module _ (hit : Text → Value → Bool) where
  pass :
      {k : Text} (j : Text) (v : Value) (fields : Fields)
      → hit j v ≡ true
      → j ≡ k
      → OccursAmong hit k (field j v fields)
  pass j v fields h e = subst (λ x. OccursAmong hit x (field j v fields)) e (here h)

  mutual
    unfolding find

    find_sound : (v : Value) (k : Text) → find hit v ≡ some k → Occurs hit k v
    find_sound null k h = absurd (ground arith)
    find_sound (boolean b) k h = absurd (ground arith)
    find_sound (number s) k h = absurd (ground arith)
    find_sound (string s) k h = absurd (ground arith)
    find_sound (array items) k h = in_array (find_items_sound items k h)
    find_sound (object fields) k h = in_object (find_fields_sound fields k h)

    find_items_sound :
        (items : Items) (k : Text) → find_items hit items ≡ some k → OccursIn hit k items
    find_items_sound no_items k h = absurd (ground arith)
    find_items_sound (and_item v items) k h =
        elim (either (find hit v) (find_items hit items) k h) [
          | inl e ↦ first (find_sound v k e)
          | inr e ↦ later (find_items_sound items k e)
        ]

    find_fields_sound :
        (fields : Fields) (k : Text) → find_fields hit fields ≡ some k → OccursAmong hit k fields
    find_fields_sound no_fields k h = absurd (ground arith)
    find_fields_sound (field j v fields) k h = elim (Bool-cases (hit j v)) [
      | inl yes_hit ↦ pass j v fields yes_hit (ground arith)
      | inr no_hit ↦ elim (either (find hit v) (find_fields hit fields) k (ground arith)) [
        | inl e ↦ inside (find_sound v k e)
        | inr e ↦ after (find_fields_sound fields k e)
      ]
    ]

  mutual
    unfolding find

    find_complete : {k : Text} {v : Value} → find hit v ≡ none → Occurs hit k v → ⊥
    find_complete h (in_array o) = find_items_complete h o
    find_complete h (in_object o) = find_fields_complete h o

    find_items_complete :
        {k : Text} {items : Items} → find_items hit items ≡ none → OccursIn hit k items → ⊥
    find_items_complete h (first {v = v} {items = items} o) =
        find_complete (neither (find hit v) (find_items hit items) h).0 o
    find_items_complete h (later {v = v} {items = items} o) =
        find_items_complete (neither (find hit v) (find_items hit items) h).1 o

    find_fields_complete :
        {k : Text} {fields : Fields} → find_fields hit fields ≡ none → OccursAmong hit k fields → ⊥
    find_fields_complete h (here p) = ground arith
    find_fields_complete h (inside {j = j} {v = v} {fields = fields} o) =
        find_complete (neither (find hit v) (find_fields hit fields) (ground arith)).0 o
    find_fields_complete h (after {j = j} {v = v} {fields = fields} o) =
        find_fields_complete (neither (find hit v) (find_fields hit fields) (ground arith)).1 o

  -- A key that the search returns is that of a field that passes the test, at some depth; and where
  -- it returns none no field at any depth passes.
  pub find_exact :
      (v : Value)
      → ((k : Text) → find hit v ≡ some k → Occurs hit k v)
        × (find hit v ≡ none → (k : Text) → ¬ Occurs hit k v)
  find_exact v = (find_sound v, λ h k o. find_complete h o)
