-- ===== src/Resolution/Scoring.antt =====
-- backend/app/modules/resolution/scoring.py: the signals of a pair and the score they add up to.
use lead_discovery_rader.Prelude.{String, Option, none, some, Bool, not, ◌&&◌, ◌||◌, if◌then◌else◌}
use lead_discovery_rader.Floats.{Floats}
use lead_discovery_rader.Resolution.Model.{NormalizedBusiness, Business, Tools, known, ◌==?◌}

pub record Weights (fl : Floats) : Type 0 where
  pub domain : fl.Float
  pub phone : fl.Float
  pub name : fl.Float
  pub address : fl.Float
  pub geo : fl.Float

pub record Signals (fl : Floats) : Type 0 where
  pub domain_match : fl.Float
  pub phone_match : fl.Float
  pub name_similarity : fl.Float
  pub address_match : fl.Float
  pub geo_proximity : fl.Float

pub record MatchScore (fl : Floats) : Type 0 where
  pub score : fl.Float
  pub signals : Signals fl
  pub conflicting_keys : Bool

module _ (fl : Floats) where
  abbrev pub one : fl.Float
  one = fl.decimal 1 0

  abbrev pub zero_point : fl.Float
  zero_point = fl.decimal 0 0

  abbrev pub half : fl.Float
  half = fl.decimal 5 1

  -- `STRONG_NAME_SIMILARITY`, `NEAR_M` and `FAR_M`
  abbrev pub strong_name_similarity : fl.Float
  strong_name_similarity = fl.decimal 9 1

  abbrev pub near_m : fl.Float
  near_m = fl.decimal 50 0

  abbrev pub far_m : fl.Float
  far_m = fl.decimal 500 0

  unfoldable pub has_strong_key : MatchScore fl → Bool
  has_strong_key m =
      fl.same m.signals.domain_match one
      || (fl.same m.signals.phone_match one
          || (fl.same m.signals.address_match one
              && fl.leb strong_name_similarity m.signals.name_similarity))

  unfoldable pub exact : Option String → Option String → fl.Float
  exact left right =
      if not (known left) || not (known right)
      then zero_point
      else if left ==? right
      then one
      else zero_point

  module _ (tools : Tools fl) where
    ratio_of : Option String → Option String → fl.Float
    ratio_of (some left) (some right) =
        fl.round_to 4 (fl.div (tools.token_set_ratio left right) (fl.decimal 100 0))
    ratio_of _ _ = zero_point

    unfoldable pub name_similarity : Option String → Option String → fl.Float
    unfolding ratio_of
    name_similarity left right =
        if not (known left) || not (known right) then zero_point else ratio_of left right

    unfoldable pub address_match : NormalizedBusiness fl → Business fl → fl.Float
    unfolding exact
    address_match normalized business =
        if fl.same (exact normalized.address.postal_code business.postal_code) zero_point
        then zero_point
        else if fl.same (exact normalized.address.street_key business.street_key) one
        then one
        else half

    unfoldable pub distance_m :
        Option fl.Float → Option fl.Float → Option fl.Float → Option fl.Float → Option fl.Float
    distance_m (some lat1) (some lng1) (some lat2) (some lng2) =
        some (tools.great_circle_m lat1 lng1 lat2 lng2)
    distance_m _ _ _ _ = none

    proximity : Option fl.Float → fl.Float
    proximity none = zero_point
    proximity (some metres) =
        if fl.leb far_m metres
        then zero_point
        else if fl.leb metres near_m
        then one
        else fl.round_to 4 (fl.div (fl.sub far_m metres) (fl.sub far_m near_m))

    unfoldable pub geo_proximity : NormalizedBusiness fl → Business fl → fl.Float
    unfolding proximity distance_m
    geo_proximity normalized business =
        proximity (distance_m normalized.lat normalized.lng business.lat business.lng)

    unfoldable pub has_conflicting_keys : NormalizedBusiness fl → Business fl → Bool
    has_conflicting_keys normalized business =
        (known normalized.domain
          && (known business.domain && not (normalized.domain ==? business.domain)))
        && (known normalized.phone_e164
            && (known business.phone_e164 && not (normalized.phone_e164 ==? business.phone_e164)))

    signals_of : NormalizedBusiness fl → Business fl → Signals fl
    signals_of normalized business = record {
      domain_match = exact normalized.domain business.domain;
      phone_match = exact normalized.phone_e164 business.phone_e164;
      name_similarity = name_similarity normalized.normalized_name business.normalized_name;
      address_match = address_match normalized business;
      geo_proximity = geo_proximity normalized business;
    }

    weighted_total : Weights fl → Signals fl → fl.Float
    weighted_total used signals =
        fl.add
          (fl.add
            (fl.add
              (fl.add (fl.mul signals.domain_match used.domain)
                (fl.mul signals.phone_match used.phone))
              (fl.mul signals.name_similarity used.name))
            (fl.mul signals.address_match used.address))
          (fl.mul signals.geo_proximity used.geo)

    unfoldable pub score_pair : Weights fl → NormalizedBusiness fl → Business fl → MatchScore fl
    unfolding signals_of weighted_total
    score_pair used normalized business =
        let signals = signals_of normalized business in
        record {
          score = fl.round_to 3 (weighted_total used signals);
          signals = signals;
          conflicting_keys = has_conflicting_keys normalized business;
        }
