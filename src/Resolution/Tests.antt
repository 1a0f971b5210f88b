-- ===== src/Resolution/Tests.antt =====
-- Decimal numbers with four places as the floats, a record, a few businesses, and the theorems of
-- this folder at them.
use Prim.Native.Nat.{◌/◌}
use mathlib.Core.List.{Memᴰ}
use lead_discovery_rader.Prelude.{
  ℕ, ◌⊎◌, ◌≤◌, ◌≢◌, length, All, ◌+◌, ◌-◌, ◌*◌, ◌^◌, ◌≡◌, refl, String, Option, none, some, List,
  [], ◌∷◌, Bool, true, leb, not, ◌==◌, ◌==ₛ◌, if◌then◌else◌, arith,
}
use lead_discovery_rader.Floats.{Floats, IsOrdered, HasLiterals}
use lead_discovery_rader.Resolution.Model.{NormalizedBusiness, Business, Tools, own_site}
use lead_discovery_rader.Resolution.Scoring.{
  has_strong_key, score_pair, has_conflicting_keys, exact, name_similarity, address_match,
  geo_proximity,
}
use lead_discovery_rader.Resolution.Resolver.{
  Settings, ScoredCandidate, Decision, scored_candidate, or_weights, auto_merge, decide,
  or_thresholds, is_reviewable,
}
use lead_discovery_rader.Resolution.Resolver.Decisions.{
  decide-auto_merge, decide-review, decide_names_alone, IsCandidate, IsWorth,
}
use lead_discovery_rader.Resolution.Blocking.{BlockingSettings, find_candidates}
use lead_discovery_rader.Resolution.Blocking.Candidates.{
  AreCandidates, find_candidates-AreCandidates,
}

-- A difference of two numbers of ten thousandths.
record Fixed : Type 0 where
  plus : ℕ
  minus : ℕ

abbrev leb_fixed : Fixed → Fixed → Bool
leb_fixed a b = leb (a.plus + b.minus) (b.plus + a.minus)

abbrev fixed : Floats
fixed = record {
  Float = Fixed;
  decimal = λ m k. record { plus = m * 10 ^ (4 - k); minus = 0 };
  add = λ a b. record { plus = a.plus + b.plus; minus = a.minus + b.minus };
  sub = λ a b. record { plus = a.plus + b.minus; minus = a.minus + b.plus };
  mul = λ a b. record {
    plus = (a.plus * b.plus + a.minus * b.minus) / 10000;
    minus = (a.plus * b.minus + a.minus * b.plus) / 10000;
  };
  div = λ a b. record {
    plus = (a.plus * 10000) / (b.plus - b.minus);
    minus = (a.minus * 10000) / (b.plus - b.minus);
  };
  neg = λ a. record { plus = a.minus; minus = a.plus };
  round_to = λ _ a. a;
  same = λ a b. (a.plus + b.minus) == (b.plus + a.minus);
  leb = leb_fixed;
  lt = λ a b. not (leb_fixed b a);
}

fixed-HasLiterals : HasLiterals fixed
fixed-HasLiterals = record {
  one_same = refl;
  zero_one = refl;
  half_one = refl;
  zero_same = refl;
  one_zero = refl;
}

fixed-IsOrdered : IsOrdered fixed
fixed-IsOrdered = record {
  lt_not_leb = λ a b h. ground arith;
  leb_of_not_lt = λ a b h. ground arith;
  leb_of_lt = λ a b h. ground arith;
  leb_refl = λ a. ground arith;
  leb_trans = λ a b c h k. ground arith;
  leb-neg = λ a b h. ground arith;
}

abbrev tools : Tools fixed
tools = record {
  token_set_ratio = λ a b. fixed.decimal (if a ==ₛ b then 100 else 0) 0;
  great_circle_m = λ _ _ _ _. fixed.decimal 10 0;
  neighbours = λ _ _. [];
}

abbrev part : ℕ → Fixed
part n = fixed.decimal n 2

abbrev settings : Settings fixed
settings = record {
  weights = record {
    domain = part 35;
    phone = part 30;
    name = part 20;
    address = part 10;
    geo = part 5;
  };
  thresholds = record { to_merge = part 50; to_review = part 30 };
}

abbrev acme : NormalizedBusiness fixed
acme = record {
  normalized_name = some "acme plumbing";
  name_key = some "acme";
  address = record { street_key = none; postal_code = some "78701" };
  lat = none;
  lng = none;
  phone_e164 = some "+15125550100";
  domain = some "acme.example";
  website_kind = own_site;
}

abbrev row : ℕ → String → Option String → Option String → Business fixed
row id name phone domain = record {
  id = id;
  created_at = id;
  normalized_name = some name;
  name_key = some "acme";
  street_key = none;
  postal_code = some "78701";
  lat = none;
  lng = none;
  geohash7 = none;
  phone_e164 = phone;
  domain = domain;
}

abbrev same_business : Business fixed
same_business = row 1 "acme plumbing" (some "+15125550100") (some "acme.example")

abbrev other_business : Business fixed
other_business = row 2 "bolt electric" none none

abbrev same_name : Business fixed
same_name = row 3 "acme plumbing" none none

abbrev same_phone : Business fixed
same_phone = row 4 "bolt electric" (some "+15125550100") none

abbrev both : List (Business fixed)
both = other_business ∷ same_business ∷ []

decide-auto_merge_example :
    (best : ScoredCandidate fixed) × ((decide fixed tools settings acme both none none).best
      ≡ some best)
    × (fixed.leb (or_thresholds fixed none settings).to_merge best.found.score ≡ true)
    × (has_strong_key fixed best.found ≡ true)
    × IsCandidate fixed tools settings acme both none none best
unfolding decide score_pair has_conflicting_keys exact name_similarity address_match geo_proximity
decide-auto_merge_example = decide-auto_merge fixed tools settings acme both none none refl

decide_names_alone_example :
    (decide fixed tools settings acme (same_name ∷ []) none none).kind ≢ auto_merge
decide_names_alone_example =
    decide_names_alone fixed tools settings acme (same_name ∷ []) none none fixed-HasLiterals
      ((refl, refl, refl), tt)

abbrev reviewed : Decision fixed
reviewed = decide fixed tools settings acme (same_phone ∷ []) none none

decide-review_example :
    (length reviewed.candidates ≤ 3)
    × All
        (λ c.
          IsCandidate fixed tools settings acme (same_phone ∷ []) none none c
          × IsWorth fixed (or_thresholds fixed none settings) c)
        reviewed.candidates
    × ((length reviewed.candidates ≡ 3)
        ⊎ All
            (λ b.
              let c =
                scored_candidate fixed tools settings (or_weights fixed none settings) acme b in
              (c.found.conflicting_keys ≡ true)
              ⊎ (IsWorth fixed (or_thresholds fixed none settings) c → Memᴰ c reviewed.candidates))
            (same_phone ∷ []))
unfolding decide score_pair has_conflicting_keys exact name_similarity address_match geo_proximity
    is_reviewable
decide-review_example = decide-review fixed tools settings acme (same_phone ∷ []) none none refl

abbrev blocking_settings : BlockingSettings fixed
blocking_settings = record { max_candidates = 1; block_name_ratio = fixed.decimal 60 0 }

find_candidates-AreCandidates_example :
    AreCandidates fixed tools blocking_settings 1
      (4 ∷ [])
      (find_candidates fixed tools blocking_settings acme none (4 ∷ []) (same_phone ∷ both))
find_candidates-AreCandidates_example =
    find_candidates-AreCandidates fixed tools blocking_settings acme none (4 ∷ [])
      (same_phone ∷ both)
