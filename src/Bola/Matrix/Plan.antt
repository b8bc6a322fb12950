-- ===== src/Bola/Matrix/Plan.antt =====
-- `plan_bola_matrix` accepts exactly the valid inputs, and keeps their order.
use ai_api_security_platform.Prelude.{
  ℕ, zero, suc, ◌+◌, ◌-◌, ◌==◌, ◌≡◌, ◌≤◌, refl, sym, ap, ◌∙◌, false, List, [], ◌∷◌, ◌++◌, any,
  length, ok, ◌>>=◌, arith, >>=-eq-ok, ok-injective,
}
use ai_api_security_platform.Bola.Matrix.{
  AccessFact, Item, fact, not_a_fact, Candidate, max_facts, same_key, candidates_of, plan_from,
  plan_bola_matrix,
}

-- The items are access facts, and none has the key of one before it.
pub data AreDistinct : List AccessFact → List Item → List AccessFact → Type 0 where
  none_left : {seen : List AccessFact} → AreDistinct seen [] []
  one_more :
      {seen facts : List AccessFact} {items : List Item} (f : AccessFact)
      → any (same_key f) seen ≡ false
      → AreDistinct (f ∷ seen) items facts
      → AreDistinct seen (fact f ∷ items) (f ∷ facts)

-- The candidates of the facts, in order.
abbrev pub all_candidates : List AccessFact → List Candidate
all_candidates [] = []
all_candidates (f ∷ facts) = candidates_of f ++ all_candidates facts

-- What a plan is made of.
pub record IsPlanned (seen : List AccessFact) (items : List Item) (cs : List Candidate) (room : ℕ)
    : Type 0 where
  pub facts : List AccessFact
  pub distinct : AreDistinct seen items facts
  pub planned : cs ≡ all_candidates facts
  pub within : length items ≤ room

plan_from_sound :
    (index room : ℕ) (seen : List AccessFact) (items : List Item) (cs : List Candidate)
    → index + room ≡ max_facts
    → plan_from index seen items ≡ ok cs
    → IsPlanned seen items cs room
unfolding plan_from
plan_from_sound index room seen [] cs i h = record {
  facts = [];
  distinct = none_left;
  planned = sym (ok-injective h);
  within = omega arith;
}
plan_from_sound index room seen (not_a_fact ∷ items) cs i h = absurd (ground arith)
plan_from_sound index zero seen (fact f ∷ items) cs i h = absurd (ground arith)
plan_from_sound index (suc room) seen (fact f ∷ items) cs i h =
    let fresh : any (same_key f) seen ≡ false = ground arith in
    let rest : (plan_from (index + 1) (f ∷ seen) items >>= λ later. ok (candidates_of f ++ later))
        ≡ ok cs =
      ground arith in
    let (later, k, e) = >>=-eq-ok (plan_from (index + 1) (f ∷ seen) items) _ rest in
    let p = plan_from_sound (index + 1) room (f ∷ seen) items later (omega arith) k in
    record {
      facts = f ∷ p.facts;
      distinct = one_more f fresh p.distinct;
      planned = sym (ok-injective e) ∙ ap (λ l. candidates_of f ++ l) p.planned;
      within = omega (arith, p.within);
    }

plan_from_complete :
    (index room : ℕ) {seen facts : List AccessFact} {items : List Item}
    → index + room ≡ max_facts
    → AreDistinct seen items facts
    → length items ≤ room
    → plan_from index seen items ≡ ok (all_candidates facts)
unfolding plan_from
plan_from_complete index room i none_left w = refl
plan_from_complete index room i (one_more f fresh d) w =
    let open_index : (index == max_facts) ≡ false = ground arith in
    rw open_index
      (rw fresh (rw (plan_from_complete (index + 1) (room - 1) (omega arith) d (omega arith))))

-- A plan is returned only for at most 512 access facts with distinct keys, and it is the candidates
-- of all of them in their order: never a part.
pub plan_sound :
    (items : List Item) (cs : List Candidate)
    → plan_bola_matrix items ≡ ok cs
    → IsPlanned [] items cs max_facts
unfolding plan_bola_matrix
plan_sound items cs h = plan_from_sound 0 max_facts [] items cs refl h

-- Conversely up to 512 access facts with distinct keys always get their plan.
pub plan_complete :
    (items : List Item) (facts : List AccessFact)
    → AreDistinct [] items facts
    → length items ≤ max_facts
    → plan_bola_matrix items ≡ ok (all_candidates facts)
unfolding plan_bola_matrix
plan_complete items facts d w = plan_from_complete 0 max_facts refl d w
