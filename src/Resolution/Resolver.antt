-- ===== src/Resolution/Resolver.antt =====
-- backend/app/modules/resolution/resolver.py: link the record, ask a human, or start a business.
pub mod Sorting
pub mod Decisions
use lead_discovery_rader.Prelude.{
  ℕ, Option, none, some, List, [], ◌∷◌, map, Bool, true, false, not, ◌&&◌, ◌||◌, keep, take,
  if◌then◌else◌,
}
use lead_discovery_rader.Floats.{Floats}
use lead_discovery_rader.Resolution.Model.{NormalizedBusiness, Business, Tools}
use lead_discovery_rader.Resolution.Scoring.{
  Weights, MatchScore, has_strong_key, score_pair, one, half,
}

abbrev pub review_candidate_limit : ℕ
review_candidate_limit = 3

pub data DecisionKind : Type 0 where
  auto_merge review new : DecisionKind

pub record ScoredCandidate (fl : Floats) : Type 0 where
  pub business : Business fl
  pub found : MatchScore fl

pub record Thresholds (fl : Floats) : Type 0 where
  pub to_merge : fl.Float
  pub to_review : fl.Float

pub record Decision (fl : Floats) : Type 0 where
  pub kind : DecisionKind
  pub best : Option (ScoredCandidate fl)
  pub candidates : List (ScoredCandidate fl)
  pub capped_by_hard_rule : Bool

-- The weights and the thresholds of the settings.
pub record Settings (fl : Floats) : Type 0 where
  pub weights : Weights fl
  pub thresholds : Thresholds fl

module _ (fl : Floats) where
  abbrev pub or_weights : Option (Weights fl) → Settings fl → Weights fl
  or_weights none settings = settings.weights
  or_weights (some w) settings = w

  abbrev pub or_thresholds : Option (Thresholds fl) → Settings fl → Thresholds fl
  or_thresholds none settings = settings.thresholds
  or_thresholds (some t) settings = t

  -- `sorted(kept, key=lambda item: -item.match.score)`, which is stable.
  pub insert_by_score : ScoredCandidate fl → List (ScoredCandidate fl) → List (ScoredCandidate fl)
  insert_by_score x [] = x ∷ []
  insert_by_score x (y ∷ ys) =
      if fl.lt (fl.neg y.found.score) (fl.neg x.found.score)
      then y ∷ insert_by_score x ys
      else x ∷ y ∷ ys

  unfoldable pub sort_by_score : List (ScoredCandidate fl) → List (ScoredCandidate fl)
  unfolding insert_by_score
  sort_by_score [] = []
  sort_by_score (x ∷ xs) = insert_by_score x (sort_by_score xs)

  -- `REVIEW_NAME_FLOOR`
  abbrev pub review_name_floor : fl.Float
  review_name_floor = fl.decimal 8 1

  -- `_is_reviewable`
  unfoldable pub is_reviewable : Thresholds fl → ScoredCandidate fl → Bool
  is_reviewable limits candidate =
      let signals = candidate.found.signals in
      if fl.leb limits.to_review candidate.found.score
      then true
      else if fl.same signals.domain_match (one fl) || fl.same signals.phone_match (one fl)
      then true
      else fl.leb (half fl) signals.address_match
        && fl.leb review_name_floor signals.name_similarity

  abbrev pub no_decision : Decision fl
  no_decision = record { kind = new; best = none; candidates = []; capped_by_hard_rule = false }

  -- What `decide` returns where the best candidate is not merged.
  decide_review : Thresholds fl → ScoredCandidate fl → List (ScoredCandidate fl) → Decision fl
  decide_review limits best [] = no_decision
  decide_review limits best (first ∷ reviewable) = record {
    kind = review;
    best = some first;
    candidates = take review_candidate_limit (first ∷ reviewable);
    capped_by_hard_rule = fl.leb limits.to_merge best.found.score;
  }

  unfoldable pub decide_scored : Thresholds fl → List (ScoredCandidate fl) → Decision fl
  unfolding decide_review has_strong_key
  decide_scored limits [] = no_decision
  decide_scored limits (best ∷ rest) =
      if fl.leb limits.to_merge best.found.score && has_strong_key fl best.found
      then record {
        kind = auto_merge;
        best = some best;
        candidates = best ∷ [];
        capped_by_hard_rule = false;
      }
      else decide_review limits best (keep (is_reviewable limits) (best ∷ rest))

  module _ (tools : Tools fl) (settings : Settings fl) where
    abbrev pub scored_candidate :
        Weights fl → NormalizedBusiness fl → Business fl → ScoredCandidate fl
    scored_candidate used normalized business = record {
      business = business;
      found = score_pair fl tools used normalized business;
    }

    unfoldable pub score_candidates :
        NormalizedBusiness fl → List (Business fl) → Option (Weights fl) → List (ScoredCandidate fl)
    unfolding sort_by_score
    score_candidates normalized businesses weights = sort_by_score (
        keep (λ item. not item.found.conflicting_keys)
          (map (scored_candidate (or_weights weights settings) normalized) businesses))

    unfoldable pub decide :
        NormalizedBusiness fl
        → List (Business fl)
        → Option (Weights fl)
        → Option (Thresholds fl)
        → Decision fl
    unfolding score_candidates decide_scored
    decide normalized businesses weights thresholds =
        decide_scored (or_thresholds thresholds settings)
          (score_candidates normalized businesses weights)
