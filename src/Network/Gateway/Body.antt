-- ===== src/Network/Gateway/Body.antt =====
-- `_read_bounded` returns the whole body, or refuses exactly the bodies that are too long.
use ai_api_security_platform.Prelude.{
  ℕ, ◌+◌, ltb, ◌≡◌, ◌≤◌, ◌<◌, sym, ap, ◌∙◌, inl, inr, false, List, [], ◌∷◌, ◌++◌, length,
  length-append, ok, err, arith, if◌then◌else◌, Bool-cases,
}
use mathlib.Core.List.{append_assoc, append-nil}
use ai_api_security_platform.Network.Gateway.{response_too_large, read_bounded}

-- b"".join(chunks)
abbrev pub joined : List (List ℕ) → List ℕ
joined [] = []
joined (c ∷ cs) = c ++ joined cs

read_within :
    (maximum : ℕ) (chunks : List (List ℕ)) (total : ℕ) (body : List ℕ)
    → total + length (joined chunks) ≤ maximum
    → read_bounded maximum chunks total body ≡ ok (body ++ joined chunks)
unfolding read_bounded
read_within maximum [] total body h = ap ok (sym (append-nil body))
read_within maximum (c ∷ cs) total body h =
    let fits : total + length c + length (joined cs) ≤ maximum =
      omega (arith, length-append c (joined cs)) in
    let room : ltb maximum (total + length c) ≡ false = ground arith in
    rw room (
      read_within maximum cs (total + length c) (body ++ c) fits
      ∙ ap ok (append_assoc body c (joined cs)))

read_beyond :
    (maximum : ℕ) (chunks : List (List ℕ)) (total : ℕ) (body : List ℕ)
    → total ≤ maximum
    → maximum < total + length (joined chunks)
    → read_bounded maximum chunks total body ≡ err response_too_large
unfolding read_bounded
read_beyond maximum [] total body k h = absurd (omega arith)
read_beyond maximum (c ∷ cs) total body k h = elim (Bool-cases (ltb maximum (total + length c))) [
  | inl over ↦ rw over
  | inr under ↦ rw under (
      read_beyond maximum cs (total + length c) (body ++ c) (ground arith)
        (omega (arith, length-append c (joined cs))))
]

-- A response is read exactly if its chunks together are within the bound, and then it is their
-- concatenation; every longer response is refused, however it is cut into chunks.
pub read_bounded_lem :
    (maximum : ℕ) (chunks : List (List ℕ))
    → read_bounded maximum chunks 0 [] ≡ (
        if ltb maximum (length (joined chunks)) then err response_too_large else ok (joined chunks))
read_bounded_lem maximum chunks = elim (Bool-cases (ltb maximum (length (joined chunks)))) [
  | inl over ↦ rw over (read_beyond maximum chunks 0 [] (omega arith) (ground arith))
  | inr within ↦ rw within (read_within maximum chunks 0 [] (ground arith))
]
