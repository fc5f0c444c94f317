-- ===== src/Crossref/Judgement.antt =====
-- What the verdicts of the harness say (crossref/src/layer2/verdict.rs).
use soap_server.Prelude.{
  ◌≡◌, ◌↔◌, ◌≢◌, refl, Bool, true, Bytes, none, some, List, [], ◌∷◌, All, Result, ok, err, str_eq,
  str_beq_iff, arith, ℕ, contains_str, Bool-cases, str_beq, sym, ap, ok-eq, ◌∙◌, inl, inr,
}
use soap_server.Crossref.Verdict.{
  Verdict, pass, known_divergence, Eval, occurs, judge_difference, any_window, evaluate, Resp,
  evaluate_outcome_equivalence,
}

-- Equal outputs.
abbrev pub Agree : Eval → Type 0
Agree e = (out : Bytes) × (e.sut ≡ ok out) × (e.reference ≡ ok out)

pub judge_difference-not_pass :
    (known : List Bytes) (sut reference : Bytes) → judge_difference known sut reference ≢ some pass
unfolding judge_difference occurs any_window
judge_difference-not_pass [] sut reference h = cc
judge_difference-not_pass ([] ∷ rest) sut reference h = cc
judge_difference-not_pass ((c ∷ known) ∷ rest) sut reference h =
    ground (arith, judge_difference-not_pass rest sut reference)

abbrev pub eval_of : Result Bytes Bytes → Result Bytes Bytes → List Bytes → Eval
eval_of sut reference known = record { sut = sut; reference = reference; known_divergences = known }

evaluate-pass_of :
    (sut reference : Result Bytes Bytes) (known : List Bytes)
    → (evaluate (eval_of sut reference known) ≡ some pass) ↔ Agree (eval_of sut reference known)
unfolding evaluate
evaluate-pass_of (err msg) reference known = (λ h. cc, λ (out, a, b). cc)
evaluate-pass_of (ok sut) (err msg) known = (λ h. cc, λ (out, a, b). cc)
evaluate-pass_of (ok sut) (ok reference) known = (
  λ h. elim (Bool-cases (str_beq sut reference)) [
    | inl t ↦ (sut, refl, ap ok (sym ((str_beq_iff sut reference).0 t)))
    | inr f ↦ absurd (judge_difference-not_pass known sut reference (rw f at h))
  ],
  λ h. rw ((str_beq_iff sut reference).1 (ok-eq h.1 ∙ sym (ok-eq h.2))),
)

pub evaluate-pass : (e : Eval) → (evaluate e ≡ some pass) ↔ Agree e
evaluate-pass e = evaluate-pass_of e.sut e.reference e.known_divergences

-- The contract of a scenario: both answers are valid and have the declared outcome, and where
-- that is success their bodies are the same.
abbrev pub Honoured : Bool → Resp → Resp → Type 0
Honoured declared our cxf =
    (our.schema_valid ≡ true)
    × (our.is_success ≡ declared)
    × (cxf.schema_valid ≡ true)
    × (cxf.is_success ≡ declared)
    × (declared ≡ true → our.masked_body_canon ≡ cxf.masked_body_canon)

-- A WS-Security scenario passes exactly if both responses are valid and have the declared
-- outcome and, where success is declared, the same masked body.
pub outcome_pass :
    (declared : Bool) (our cxf : Resp)
    → (evaluate_outcome_equivalence declared our cxf ≡ pass) ↔ Honoured declared our cxf
unfolding evaluate_outcome_equivalence
outcome_pass declared our cxf =
    ground (arith, str_beq_iff our.masked_body_canon cxf.masked_body_canon)

abbrev pub NonEmpty : Bytes → Type 0
NonEmpty s = s ≢ []

occurs-total :
    (known sut reference : Bytes)
    → NonEmpty known
    → (found : Bool) × (occurs known sut reference ≡ some found)
unfolding occurs any_window
occurs-total [] sut reference h = absurd (h refl)
occurs-total (c ∷ known) sut reference h = (_, refl)

judge_difference-total :
    (known : List Bytes) (sut reference : Bytes)
    → All NonEmpty known
    → (v : Verdict) × (judge_difference known sut reference ≡ some v)
unfolding judge_difference
judge_difference-total [] sut reference h = (_, refl)
judge_difference-total (known ∷ rest) sut reference h =
    let (found, p) = occurs-total known sut reference h.0 in
    let (v, q) = judge_difference-total rest sut reference h.1 in
    elim (Bool-cases found) [
      | inl t ↦ (known_divergence known, rw (p, t))
      | inr f ↦ (v, rw (p, f) q)
    ]

evaluate_total_of :
    (sut reference : Result Bytes Bytes) (known : List Bytes)
    → All NonEmpty known
    → (v : Verdict) × (evaluate (eval_of sut reference known) ≡ some v)
unfolding evaluate
evaluate_total_of (err msg) reference known h = (_, refl)
evaluate_total_of (ok sut) (err msg) known h = (_, refl)
evaluate_total_of (ok sut) (ok reference) known h = elim (Bool-cases (str_beq sut reference)) [
  | inl t ↦ (pass, rw t)
  | inr f ↦ (let (v, p) = judge_difference-total known sut reference h in (v, rw f p))
]

pub evaluate_total :
    (e : Eval) → All NonEmpty e.known_divergences → (v : Verdict) × (evaluate e ≡ some v)
evaluate_total e = evaluate_total_of e.sut e.reference e.known_divergences

pub own_token_excuses :
    (c : ℕ) (token : Bytes) (rest : List Bytes) (sut reference : Bytes)
    → sut ≢ reference
    → contains_str (c ∷ token) sut ≡ true
    → evaluate (eval_of (ok sut) (ok reference) ((c ∷ token) ∷ rest))
      ≡ some (known_divergence (c ∷ token))
unfolding evaluate judge_difference occurs any_window
own_token_excuses c token rest sut reference differ found =
    ground (arith, str_beq_iff sut reference)

pub empty_token_panics :
    (rest : List Bytes) (sut reference : Bytes)
    → sut ≢ reference
    → evaluate (eval_of (ok sut) (ok reference) ([] ∷ rest)) ≡ none
unfolding evaluate judge_difference occurs any_window
empty_token_panics rest sut reference differ = ground (arith, str_beq_iff sut reference)
