-- ===== src/Bola/Analyzer/Excerpts.antt =====
-- An excerpt fits its column, whatever the key.
use ai_api_security_platform.Prelude.{ltb, ◌≤◌, length, Text, arith, Bool-cases, inl, inr}
use ai_api_security_platform.Bola.Analyzer.{
  dump_pair, max_excerpt_length, redacted_identifier_excerpt,
}

-- No excerpt is longer than the storage bound, whatever key was matched and however it is escaped.
pub excerpt-le : (key : Text) → length (redacted_identifier_excerpt key) ≤ max_excerpt_length
unfolding redacted_identifier_excerpt
excerpt-le key = elim (Bool-cases (ltb max_excerpt_length (length (dump_pair key)))) [
  | inl long ↦ rw long (omega arith)
  | inr short ↦ rw short (ground arith)
]
