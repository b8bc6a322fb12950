-- ===== src/Bola/Analyzer/Similarity.antt =====
-- The length similarity is a share of ten thousand.
use native.Mathlib.Nat.{div-le_of_le-mul, div-mul-le_self, mul-div_right}
use ai_api_security_platform.Prelude.{
  ℕ, ◌*◌, ◌/◌, ◌==◌, ◌≡◌, ◌≤◌, ◌<◌, ◌↔◌, min, max, arith, Bool-cases, inl, inr, refl,
}
use ai_api_security_platform.Bola.Analyzer.{FingerprintEvidence, compare_response_fingerprints}

share_le : (s l : ℕ) → s ≤ l → s * 10000 / l ≤ 10000
share_le s l h = div-le_of_le-mul l (omega arith)

share_full : (s l : ℕ) → 0 < l → s ≤ l → s * 10000 / l ≡ 10000 → s ≡ l
share_full s l p h k =
    let below : s * 10000 / l * l ≤ s * 10000 = div-mul-le_self (s * 10000) l in
    let full : 10000 * l ≤ s * 10000 = rw k at below in omega arith

share_same : (l : ℕ) → 0 < l → l * 10000 / l ≡ 10000
share_same l p = mul-div_right 10000 p

-- The similarity is at most 10000, and is 10000 exactly for bodies of one length, empty ones included.
pub similarity_share :
    (f : FingerprintEvidence)
    → ((compare_response_fingerprints f).length_similarity_bps ≤ 10000)
      × (((compare_response_fingerprints f).length_similarity_bps ≡ 10000)
          ↔ (f.baseline_body_bytes ≡ f.probe_body_bytes))
unfolding compare_response_fingerprints
similarity_share f =
    let b = f.baseline_body_bytes in
    let p = f.probe_body_bytes in
    elim (Bool-cases (max b p == 0)) [
      | inl e ↦ rw e (omega arith, (λ h. ground arith, λ h. refl))
      | inr e ↦
          let pos : 0 < max b p = ground arith in
          let smaller : min b p ≤ max b p = omega arith in
          rw e (
            share_le (min b p) (max b p) smaller,
            (
              λ h. omega (arith, share_full (min b p) (max b p) pos smaller h),
              λ h. let same : min b p ≡ max b p = omega arith in rw same (share_same (max b p) pos),
            ),
          )
    ]
