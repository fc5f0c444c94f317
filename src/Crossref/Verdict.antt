-- ===== src/Crossref/Verdict.antt =====
-- The verdicts of layer 2 (crossref/src/layer2/verdict.rs).
use soap_server.Prelude.{
  Bytes, bytes, Bool, true, false, not, ◌||◌, Option, none, some, List, [], ◌∷◌, ◌++◌, str_eq, ◌==◌,
  contains_str, from_utf8_lossy, if◌then◌else◌, Result, ok, err,
}

infixl 5 ◌>>=◌
abbrev ◌>>=◌ {ℓ κ} : {A : Type ℓ} {B : Type κ} → Option A → (A → Option B) → Option B
none >>= f = none
some a >>= f = f a

pub data Verdict : Type 0 where
  pass : Verdict
  sut_fail reference_disagreement known_divergence harness_error : Bytes → Verdict

pub record Eval : Type 0 where
  pub sut : Result Bytes Bytes
  pub reference : Result Bytes Bytes
  pub known_divergences : List Bytes

unfoldable pub diff_reason : Bytes → Bytes → Bytes
unfolding from_utf8_lossy
diff_reason sut reference =
    bytes "sut=" ++ from_utf8_lossy sut ++ bytes " ref=" ++ from_utf8_lossy reference

-- `bytes.windows(token.len()).any(|w| w == token)`, which panics (`none`) on an empty token.
unfoldable pub any_window : Bytes → Bytes → Option Bool
unfolding contains_str
any_window [] s = none
any_window (c ∷ token) s = some (contains_str (c ∷ token) s)

-- The test of one declared divergence.
unfoldable pub occurs : Bytes → Bytes → Bytes → Option Bool
unfolding any_window diff_reason
occurs known sut reference = do
  sut_has ← any_window known sut
  ref_has ← any_window known reference
  some (
      known == diff_reason sut reference
      || sut_has
      || ref_has
      || contains_str known (diff_reason sut reference))

abbrev pub outputs_differ : Bytes → Bytes → Verdict
outputs_differ sut reference = sut_fail (bytes "outputs differ: " ++ diff_reason sut reference)

-- The loop over the declared divergences.
unfoldable pub judge_difference : List Bytes → Bytes → Bytes → Option Verdict
unfolding occurs
judge_difference [] sut reference = some (outputs_differ sut reference)
judge_difference (known ∷ rest) sut reference = do
  found ← occurs known sut reference
  elim found [ true ↦ some (known_divergence known) | false ↦ judge_difference rest sut reference ]

-- `none` is a panic.
unfoldable pub evaluate : Eval → Option Verdict
unfolding judge_difference
evaluate e = elim e.sut [
  | err msg ↦ some (sut_fail msg)
  | ok sut ↦ elim e.reference [
    | err msg ↦ some (reference_disagreement msg)
    | ok reference ↦
        if sut == reference then some pass else judge_difference e.known_divergences sut reference
  ]
]

pub record Resp : Type 0 where
  pub schema_valid : Bool
  pub is_success : Bool
  pub masked_body_canon : Bytes

abbrev pub outcome_word : Bool → Bytes
outcome_word success = if success then bytes "success" else bytes "fault"

abbrev pub same_outcome : Bool → Bool → Bool
same_outcome a b = if a then b else not b

-- The UTF-8 of an em dash.
abbrev em_dash : Bytes
em_dash = 0xe2 ∷ 0x80 ∷ 0x94 ∷ []

unfoldable pub evaluate_outcome_equivalence : Bool → Resp → Resp → Verdict
unfolding from_utf8_lossy
evaluate_outcome_equivalence declared our cxf =
    if not our.schema_valid
    then sut_fail (bytes "our response schema-invalid")
    else if not (same_outcome our.is_success declared)
    then sut_fail (
        bytes "our server outcome ("
        ++ outcome_word our.is_success
        ++ bytes ") does not match the scenario's declared outcome ("
        ++ outcome_word declared
        ++ bytes ")")
    else if not cxf.schema_valid
    then reference_disagreement (bytes "CXF response schema-invalid")
    else if not (same_outcome cxf.is_success declared)
    then reference_disagreement (
        bytes "CXF outcome ("
        ++ outcome_word cxf.is_success
        ++ bytes ") differs from the declared/SUT outcome ("
        ++ outcome_word declared
        ++ bytes ") "
        ++ em_dash
        ++ bytes " needs triage")
    else if declared
    then (if our.masked_body_canon == cxf.masked_body_canon
        then pass
        else sut_fail (
            bytes "both succeeded but body differs: our="
            ++ from_utf8_lossy our.masked_body_canon
            ++ bytes " cxf="
            ++ from_utf8_lossy cxf.masked_body_canon))
    else pass
