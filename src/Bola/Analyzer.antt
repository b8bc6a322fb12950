-- ===== src/Bola/Analyzer.antt =====
-- backend/app/analyzers/bola.py: the judgement of a cross-owner run against the owner's baseline.
pub mod Outcomes
pub mod Excerpts
pub mod Similarity
use ai_api_security_platform.Prelude.{
  ℕ, ◌+◌, ◌*◌, ◌/◌, ◌%◌, ◌==◌, ltb, leb, min, max, Bool, true, false, not, ◌&&◌, ◌||◌, Option, none,
  some, List, [], ◌∷◌, ◌++◌, any, length, Text, text, ◌=ₜ◌, Result, ok, err, ◌>>=◌, ◌>>◌, guard,
  if◌then◌else◌,
}
use ai_api_security_platform.Bola.Ownership.{Resource}
use ai_api_security_platform.Bola.Generator.{TestType, bola_cross_owner}
use ai_api_security_platform.Bola.Json.{Value, null, json_matching_resource_id_key}

pub data AnalysisOutcome : Type 0 where
  pass potential_bola inconclusive : AnalysisOutcome

-- The texts of the field `reason`.
pub data Reason : Type 0 where
  not_cross_owner_test cross_owner_failed cross_owner_no_status no_baseline baseline_failed : Reason
  baseline_no_status baseline_not_successful cross_owner_rejected unusual_status not_json : Reason
  identifier_in_both not_confirmed : Reason

-- The fields that are read of the rows of test_runs.
pub record TestRun : Type 0 where
  pub id : ℕ
  pub error_message : Option Text
  pub response_status : Option ℕ
  pub response_body : Option Text

pub record StructuredEvidence : Type 0 where
  pub probe_test_run_id : ℕ
  pub baseline_test_run_id : ℕ
  pub baseline_status_code : ℕ
  pub probe_status_code : ℕ
  pub baseline_resource_identifier_present : Bool
  pub probe_resource_identifier_present : Bool

pub record ExcerptEvidence : Type 0 where
  pub baseline_excerpt : Text
  pub probe_excerpt : Text

pub record FingerprintEvidence : Type 0 where
  pub baseline_digest : Text
  pub probe_digest : Text
  pub baseline_body_bytes : ℕ
  pub probe_body_bytes : ℕ

pub record SimilarityEvidence : Type 0 where
  pub exact_digest_match : Bool
  pub length_similarity_bps : ℕ

-- `confidence` in hundredths
pub record AnalysisResult : Type 0 where
  pub outcome : AnalysisOutcome
  pub reason : Reason
  pub confidence : Option ℕ
  pub high_severity : Bool
  pub evidence : Option StructuredEvidence
  pub excerpt_evidence : Option ExcerptEvidence
  pub fingerprint_evidence : Option FingerprintEvidence
  pub similarity_evidence : Option SimilarityEvidence

-- The libraries that the analyzer calls: `json.loads` (none is a JSONDecodeError), the equality of the
-- loaded values, `str.lower`, UTF-8 and SHA-256.
pub record Library : Type 0 where
  pub loads : Text → Option Value
  pub same_json : Value → Value → Bool
  pub lower : Text → Text
  pub utf8 : Text → List ℕ
  pub sha256 : List ℕ → Text

unfoldable pub compare_response_fingerprints : FingerprintEvidence → SimilarityEvidence
compare_response_fingerprints f =
    let shorter = min f.baseline_body_bytes f.probe_body_bytes in
    let longer = max f.baseline_body_bytes f.probe_body_bytes in
    record {
      exact_digest_match = f.baseline_digest =ₜ f.probe_digest;
      length_similarity_bps = if longer == 0 then 10000 else shorter * 10000 / longer;
    }

abbrev bytes_of : (Text → List ℕ) → Option Text → List ℕ
bytes_of utf8 none = []
bytes_of utf8 (some body) = utf8 body

-- The escapes of `json.dumps(..., ensure_ascii=False)`.
abbrev hex_digit : ℕ → ℕ
hex_digit d = if ltb d 10 then 48 + d else 87 + d

abbrev escape_control : ℕ → Text
escape_control c = text "\\u00" ++ (hex_digit (c / 16) ∷ hex_digit (c % 16) ∷ [])

abbrev escape_char : ℕ → Text
escape_char c =
    if c == b'"' || c == b'\\'
    then b'\\' ∷ c ∷ []
    else if c == 8
    then text "\\b"
    else if c == 9
    then text "\\t"
    else if c == 10
    then text "\\n"
    else if c == 12
    then text "\\f"
    else if c == 13
    then text "\\r"
    else if ltb c 32
    then escape_control c
    else c ∷ []

abbrev escape : Text → Text
escape [] = []
escape (c ∷ s) = escape_char c ++ escape s

-- `{key: MATCHED_RESOURCE_IDENTIFIER}` as JSON without spaces
unfoldable pub dump_pair : Text → Text
dump_pair key = text "{\"" ++ (escape key ++ text "\":\"[MATCHED_RESOURCE_IDENTIFIER]\"}")

abbrev pub max_excerpt_length : ℕ
max_excerpt_length = 192

unfoldable pub redacted_identifier_excerpt : Text → Text
unfolding dump_pair
redacted_identifier_excerpt key =
    if ltb max_excerpt_length (length (dump_pair key))
    then dump_pair (text "[MATCHED_RESOURCE_IDENTIFIER_FIELD]")
    else dump_pair key

abbrev pub is_success_status : ℕ → Bool
is_success_status s = leb 200 s && ltb s 300

abbrev pub is_rejection : ℕ → Bool
is_rejection s = any (λ r. s == r) (401 ∷ 403 ∷ 404 ∷ [])

abbrev finding : AnalysisOutcome → Reason → AnalysisResult
finding outcome reason = record {
  outcome = outcome;
  reason = reason;
  confidence = none;
  high_severity = false;
  evidence = none;
  excerpt_evidence = none;
  fingerprint_evidence = none;
  similarity_evidence = none;
}

abbrev is_cross_owner : TestType → Bool
is_cross_owner bola_cross_owner = true
is_cross_owner _ = false

-- `if run.error_message`
abbrev pub has_error : TestRun → Bool
has_error run = elim run.error_message [ none ↦ false | some m ↦ not (m =ₜ []) ]

abbrev given {ℓ} : {A : Type ℓ} → Option A → AnalysisResult → Result AnalysisResult A
given none r = err r
given (some a) r = ok a

abbrev stop : Reason → AnalysisResult
stop = finding inconclusive

-- `None` for the JSON value null
abbrev pub not_null : Option Value → Option Value
not_null (some null) = none
not_null o = o

module _ (lib : Library) where
  unfoldable pub parse_json_body : Option Text → Option Value
  parse_json_body none = none
  parse_json_body (some body) = not_null (lib.loads body)

  -- The search in a value that may be `None`.
  abbrev pub key_in : Resource → Option Value → Option Text
  key_in r none = none
  key_in r (some v) = json_matching_resource_id_key lib.lower r v

  abbrev same_body : Option Value → Value → Bool
  same_body none v = false
  same_body (some u) v = lib.same_json u v

  abbrev confirmed : TestRun → TestRun → ℕ → ℕ → Bool → Option Text → Option Text → AnalysisResult
  confirmed cross baseline cross_status baseline_status same (some b) (some c) = record {
    outcome = potential_bola;
    reason = identifier_in_both;
    confidence = some (if same then 99 else 95);
    high_severity = true;
    evidence = some (record {
      probe_test_run_id = cross.id;
      baseline_test_run_id = baseline.id;
      baseline_status_code = baseline_status;
      probe_status_code = cross_status;
      baseline_resource_identifier_present = true;
      probe_resource_identifier_present = true;
    });
    excerpt_evidence = some (record {
      baseline_excerpt = redacted_identifier_excerpt b;
      probe_excerpt = redacted_identifier_excerpt c;
    });
    fingerprint_evidence = none;
    similarity_evidence = none;
  }
  confirmed cross baseline cross_status baseline_status same b c = stop not_confirmed

  abbrev returned : Result AnalysisResult AnalysisResult → AnalysisResult
  returned (ok r) = r
  returned (err r) = r

  -- `_classify_bola_run`; an early return is an error of the chain.
  unfoldable pub classify_bola_run : TestType → TestRun → Option TestRun → Resource → AnalysisResult
  classify_bola_run test_type cross owner_baseline resource = returned (do
    guard (is_cross_owner test_type) (stop not_cross_owner_test)
    guard (not (has_error cross)) (stop cross_owner_failed)
    cross_status ← given cross.response_status (stop cross_owner_no_status)
    baseline ← given owner_baseline (stop no_baseline)
    guard (not (has_error baseline)) (stop baseline_failed)
    baseline_status ← given baseline.response_status (stop baseline_no_status)
    guard (is_success_status baseline_status) (stop baseline_not_successful)
    guard (not (is_rejection cross_status)) (finding pass cross_owner_rejected)
    guard (is_success_status cross_status) (stop unusual_status)
    cross_json ← given (parse_json_body cross.response_body) (stop not_json)
    let baseline_json = parse_json_body baseline.response_body
    ok (
        confirmed cross baseline cross_status baseline_status (same_body baseline_json cross_json)
          (key_in resource baseline_json) (key_in resource (some cross_json))))

  unfoldable pub fingerprint_response_pair : Option Text → Option Text → FingerprintEvidence
  fingerprint_response_pair baseline_body probe_body =
      let b = bytes_of lib.utf8 baseline_body in
      let p = bytes_of lib.utf8 probe_body in
      record {
        baseline_digest = lib.sha256 b;
        probe_digest = lib.sha256 p;
        baseline_body_bytes = length b;
        probe_body_bytes = length p;
      }

  abbrev similarity : AnalysisOutcome → FingerprintEvidence → Option SimilarityEvidence
  similarity potential_bola f = some (compare_response_fingerprints f)
  similarity _ f = none

  unfoldable pub analyze_bola_run : TestType → TestRun → Option TestRun → Resource → AnalysisResult
  unfolding classify_bola_run fingerprint_response_pair
  analyze_bola_run test_type cross none resource = classify_bola_run test_type cross none resource
  analyze_bola_run test_type cross (some baseline) resource =
      let result = classify_bola_run test_type cross (some baseline) resource in
      let f = fingerprint_response_pair baseline.response_body cross.response_body in
      record result {
        fingerprint_evidence = some f;
        similarity_evidence = similarity result.outcome f;
      }
