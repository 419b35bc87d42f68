-- ===== src/Claims/Confidence.antt =====
-- crates/intelligence-domain/src/confidence and crates/claim-engine/src/confidence.rs: the confidence in a claim.
use Prim.Native.String.{String, ◌++◌ as text_append}
use sulix_intelligence.Prelude.{
  ℕ, ◌%◌, ◌^◌, List, [], ◌∷◌, ◌++◌, length, Float, clamp_unit, if◌then◌else◌, ltb,
}
use sulix_intelligence.Claims.{EvidenceRef, ClaimCandidate}

pub record ConfidenceFactors (F : Type 0) : Type 0 where
  pub evidence_count : ℕ
  pub evidence_strength : F
  pub source_trust : F
  pub freshness : F
  pub calibration_score : F

pub record ConfidenceFactorExplanation (F : Type 0) : Type 0 where
  pub factor : String
  pub value : F
  pub weight : F
  pub impact : F

pub record ConfidenceResult (F : Type 0) : Type 0 where
  pub score : F
  pub factors : List (ConfidenceFactorExplanation F)
  pub summary : String

pub record ConfidencePolicy (F : Type 0) : Type 0 where
  pub min_confidence : F
  pub max_confidence : F
  pub evidence_saturation : ℕ

-- `(-x).exp()`, `x.powf(0.25)` and the format `{:.0}`.
pub record Analysis (F : Type 0) : Type 0 where
  pub exp_neg : F → F
  pub fourth_root : F → F
  pub fixed0 : F → String

abbrev joined : List String → String
joined [] = ""
joined (s ∷ []) = s
joined (s ∷ t ∷ ss) = text_append s (text_append ", " (joined (t ∷ ss)))

module _ {F : Type 0} ⦃fl : Float F⦄ where
  -- `x.clamp(lo, hi)` for lo <= hi.
  abbrev pub clamp : F → F → F → F
  clamp x lo hi = if fl.lt x lo then lo else if fl.lt hi x then hi else x

  abbrev pub default_policy : ConfidencePolicy F
  default_policy = record {
    min_confidence = fl.ratio 5 100;
    max_confidence = fl.ratio 98 100;
    evidence_saturation = 10;
  }

  abbrev pub zero_factors : ConfidenceFactors F
  zero_factors = record {
    evidence_count = 0;
    evidence_strength = fl.ratio 0 1;
    source_trust = fl.ratio 0 1;
    freshness = fl.ratio 0 1;
    calibration_score = fl.ratio 0 1;
  }

  -- `x.clamp(-0.5, 0.5)`, with -0.5 as 0 - 0.5.
  unfoldable pub explain : String → F → F → ConfidenceFactorExplanation F
  explain name value weight =
      let impact = fl.mul (fl.mul (fl.sub value (fl.ratio 1 2)) weight) (fl.ratio 2 1) in
      record {
        factor = name;
        value = value;
        weight = weight;
        impact = clamp impact (fl.sub (fl.ratio 0 1) (fl.ratio 1 2)) (fl.ratio 1 2);
      }

  abbrev pub drivers : F → F → F → F → List String
  drivers evidence source freshness calibration =
      (if fl.lt (fl.ratio 6 10) evidence
        then "strong evidence" ∷ []
        else if fl.lt evidence (fl.ratio 3 10)
        then "limited evidence" ∷ []
        else [])
      ++ ((if fl.lt (fl.ratio 7 10) source
            then "high-quality source" ∷ []
            else if fl.lt source (fl.ratio 4 10)
            then "low-trust source" ∷ []
            else [])
          ++ ((if fl.lt freshness (fl.ratio 3 10) then "stale data" ∷ [] else [])
              ++ (if fl.lt (fl.ratio 7 10) calibration
                  then "good historical accuracy" ∷ []
                  else [])))

module _ {F : Type 0} ⦃fl : Float F⦄ (analysis : Analysis F) where
  abbrev pub summary_of : F → List String → String
  summary_of score [] =
      text_append "Confidence "
        (text_append (analysis.fixed0 (fl.mul score (fl.ratio 100 1))) "% — neutral factors")
  summary_of score (d ∷ ds) = text_append "Confidence " (
      text_append (analysis.fixed0 (fl.mul score (fl.ratio 100 1)))
        (text_append "% — " (joined (d ∷ ds))))

  unfoldable pub calculate : ConfidenceFactors F → ConfidencePolicy F → ConfidenceResult F
  unfolding explain
  calculate factors policy =
      let saturated =
        analysis.exp_neg
          (fl.div (fl.of_nat factors.evidence_count) (fl.of_nat policy.evidence_saturation)) in
      let ev = clamp_unit (fl.mul factors.evidence_strength (fl.sub (fl.ratio 1 1) saturated)) in
      let st = clamp_unit factors.source_trust in
      let fr = clamp_unit factors.freshness in
      let ca = clamp_unit factors.calibration_score in
      let raw = analysis.fourth_root (fl.mul (fl.mul (fl.mul ev st) fr) ca) in
      let score = clamp raw policy.min_confidence policy.max_confidence in
      record {
        score = score;
        factors =
            explain "evidence_strength" ev (fl.ratio 1 4)
            ∷ explain "source_trust" st (fl.ratio 1 4)
            ∷ explain "freshness" fr (fl.ratio 1 4)
            ∷ explain "calibration" ca (fl.ratio 1 4)
            ∷ [];
        summary = summary_of score (drivers ev st fr ca);
      }

  -- The sum of the relevances, from the left.
  abbrev pub total : F → List (EvidenceRef F) → F
  total acc [] = acc
  total acc (r ∷ rs) = total (fl.add acc r.relevance) rs

  unfoldable pub evaluate_claim_confidence : ClaimCandidate F → F → F → ConfidenceResult F
  unfolding calculate
  evaluate_claim_confidence candidate source_trust freshness =
      let evidence_count = length candidate.evidence_refs % 2 ^ 32 in
      let average =
        fl.div (total (fl.ratio 0 1) candidate.evidence_refs) (fl.of_nat evidence_count) in
      calculate
        (record {
          evidence_count = evidence_count;
          evidence_strength = if ltb 0 evidence_count then average else fl.ratio 0 1;
          source_trust = source_trust;
          freshness = freshness;
          calibration_score = fl.ratio 1 2;
        })
        default_policy
