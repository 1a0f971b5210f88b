-- ===== src/Resolution/Resolver/Decisions.antt =====
-- What each decision of the resolver rests on, and what it never lets go by.
use mathlib.Core.List.{Memᴰ}
use mathlib.Core.Path.{subst}
use lead_discovery_rader.Prelude.{
  String, ◌≤◌, ◌≡◌, ◌≢◌, refl, ◌⊎◌, inl, inr, Option, some, List, [], ◌∷◌, map, Bool, true, false,
  not, ◌&&◌, arith, Bool-cases, All, keep, take, length, length-take-le, take-all, All-each,
  Memᴰ-keep, All-map, All-take, All-keep, All-lookup,
}
use lead_discovery_rader.Floats.{Floats, IsOrdered, HasLiterals}
use lead_discovery_rader.Resolution.Model.{NormalizedBusiness, Business, Tools, known, ◌==?◌}
use lead_discovery_rader.Resolution.Scoring.{
  Weights, has_strong_key, score_pair, exact, address_match,
}
use lead_discovery_rader.Resolution.Resolver.{
  auto_merge, review, new, ScoredCandidate, Thresholds, Settings, or_weights, or_thresholds,
  review_candidate_limit, is_reviewable, decide_scored, scored_candidate, score_candidates, decide,
}
use lead_discovery_rader.Resolution.Resolver.Sorting.{
  Descends, sort_by_score-All, All-sort_by_score, sort_by_score-Descends,
}

-- What holds of each kept image holds of the kept list, and the other way round.
keep-map-All {ℓ μ κ} :
    {A : Type ℓ} {B : Type μ} (Q : B → Type κ) (p : B → Bool) (f : A → B) (xs : List A)
    → ((a : A) → Memᴰ a xs → p (f a) ≡ true → Q (f a))
    → All Q (keep p (map f xs))
keep-map-All Q p f [] h = tt
keep-map-All Q p f (x ∷ xs) h =
    let rest = keep-map-All Q p f xs (λ a m. h a (Memᴰ.tail m)) in
    elim (Bool-cases (p (f x))) [ inl e ↦ rw e (h x (Memᴰ.head refl) e, rest) | inr e ↦ rw e rest ]

All-keep-map {ℓ μ κ} :
    {A : Type ℓ} {B : Type μ} (Q : B → Type κ) (p : B → Bool) (f : A → B) (xs : List A)
    → All Q (keep p (map f xs))
    → All (λ a. (p (f a) ≡ false) ⊎ Q (f a)) xs
All-keep-map Q p f [] h = tt
All-keep-map Q p f (x ∷ xs) h = elim (Bool-cases (p (f x))) [
  | inl e ↦ let (q, rest) = rw e at h in (inr q, All-keep-map Q p f xs rest)
  | inr e ↦ (inl e, All-keep-map Q p f xs (rw e at h))
]

keep-nil {ℓ} :
    {A : Type ℓ} (p : A → Bool) (xs : List A) → keep p xs ≡ [] → All (λ x. p x ≡ false) xs
keep-nil p [] h = tt
keep-nil p (x ∷ xs) h = elim (Bool-cases (p x)) [
  | inl e ↦ cc (rw e at h)
  | inr e ↦ (e, keep-nil p xs (rw e at h))
]

module _ (fl : Floats) where
  -- Both thresholds that a merge has to pass.
  abbrev pub mergeable : Thresholds fl → ScoredCandidate fl → Bool
  mergeable limits c = fl.leb limits.to_merge c.found.score && has_strong_key fl c.found

  Descends-head :
      IsOrdered fl
      → (scored : List (ScoredCandidate fl)) (first : ScoredCandidate fl)
        (rest : List (ScoredCandidate fl))
      → Descends fl scored
      → scored ≡ first ∷ rest
      → All (λ c. fl.leb c.found.score first.found.score ≡ true) scored
  Descends-head ordered [] first rest d e = tt
  Descends-head ordered (x ∷ xs) first rest (below, d) e =
      let same : x ≡ first = cc in
      subst
        (λ (z : ScoredCandidate fl). All (λ c. fl.leb c.found.score z.found.score ≡ true) (x ∷ xs))
        same (ordered.leb_refl x.found.score, below)

  -- Both values are known, and they are the same.
  abbrev pub shared : Option String → Option String → Bool
  shared a b = known a && (known b && (a ==? b))

  -- A pair with no shared domain or phone, nor a shared street in a shared postal code, has no
  -- strong key, however alike the names are.
  has_strong_key-unshared :
      (literals : HasLiterals fl) (tools : Tools fl) (used : Weights fl)
      (normalized : NormalizedBusiness fl) (business : Business fl)
      → shared normalized.domain business.domain ≡ false
      → shared normalized.phone_e164 business.phone_e164 ≡ false
      → shared normalized.address.postal_code business.postal_code
          && shared normalized.address.street_key business.street_key
        ≡ false
      → has_strong_key fl (score_pair fl tools used normalized business) ≡ false
  unfolding has_strong_key score_pair exact address_match
  has_strong_key-unshared literals tools used normalized business d p a = ground (
    arith, literals.one_same, literals.zero_one, literals.half_one, literals.zero_same,
    literals.one_zero,
  )

  -- What makes a candidate worth a reviewer's time.
  pub IsWorth : Thresholds fl → ScoredCandidate fl → Type 0
  IsWorth limits c =
      (fl.leb limits.to_review c.found.score ≡ true)
      ⊎ (fl.same c.found.signals.domain_match (fl.decimal 1 0) ≡ true)
      ⊎ (fl.same c.found.signals.phone_match (fl.decimal 1 0) ≡ true)
      ⊎ ((fl.leb (fl.decimal 5 1) c.found.signals.address_match ≡ true)
          × (fl.leb (fl.decimal 8 1) c.found.signals.name_similarity ≡ true))

  is_reviewable-IsWorth :
      (limits : Thresholds fl) (c : ScoredCandidate fl)
      → is_reviewable fl limits c ≡ true
      → IsWorth limits c
  unfolding is_reviewable IsWorth
  is_reviewable-IsWorth limits c h = ground arith

  IsWorth-reviewable :
      (limits : Thresholds fl) (c : ScoredCandidate fl)
      → IsWorth limits c
      → is_reviewable fl limits c ≡ true
  unfolding is_reviewable IsWorth
  IsWorth-reviewable limits c h = ground arith

  decide_scored-review :
      (limits : Thresholds fl) (scored : List (ScoredCandidate fl))
      → (decide_scored fl limits scored).kind ≡ review
      → (decide_scored fl limits scored).candidates
        ≡ take review_candidate_limit (keep (is_reviewable fl limits) scored)
  unfolding decide_scored
  decide_scored-review limits [] h = cc
  decide_scored-review limits (best ∷ rest) h = ground arith

  decide_scored-merge :
      (limits : Thresholds fl) (scored : List (ScoredCandidate fl))
      → (decide_scored fl limits scored).kind ≡ auto_merge
      → (best : ScoredCandidate fl) × (rest : List (ScoredCandidate fl)) × (scored ≡ best ∷ rest)
        × ((decide_scored fl limits scored).best ≡ some best)
        × (mergeable limits best ≡ true)
  unfolding decide_scored
  decide_scored-merge limits [] h = cc
  decide_scored-merge limits (best ∷ rest) h = (best, rest, refl, ground arith, ground arith)

  decide_scored-new :
      (limits : Thresholds fl) (scored : List (ScoredCandidate fl))
      → (decide_scored fl limits scored).kind ≡ new
      → keep (is_reviewable fl limits) scored ≡ []
  unfolding decide_scored
  decide_scored-new limits [] h = refl
  decide_scored-new limits (best ∷ rest) h = ground arith

  module _ (tools : Tools fl) (settings : Settings fl) (normalized : NormalizedBusiness fl)
      (businesses : List (Business fl)) (weights : Option (Weights fl))
      (thresholds : Option (Thresholds fl)) where
    abbrev of_business : Business fl → ScoredCandidate fl
    of_business = scored_candidate fl tools settings (or_weights fl weights settings) normalized

    -- A candidate is one of the businesses, scored, and its keys do not conflict.
    abbrev pub IsCandidate : ScoredCandidate fl → Type 0
    IsCandidate c =
        (b : Business fl) × Memᴰ b businesses
        × (c ≡ scored_candidate fl tools settings (or_weights fl weights settings) normalized b)
        × (c.found.conflicting_keys ≡ false)

    score_candidates-IsCandidate :
        All IsCandidate (score_candidates fl tools settings normalized businesses weights)
    unfolding score_candidates
    score_candidates-IsCandidate = sort_by_score-All fl IsCandidate _ (
        keep-map-All IsCandidate (λ item. not item.found.conflicting_keys) of_business businesses
          (λ b m e. (b, m, refl, ground arith)))

    score_candidates-Descends :
        IsOrdered fl
        → Descends fl (score_candidates fl tools settings normalized businesses weights)
    unfolding score_candidates
    score_candidates-Descends ordered =
        sort_by_score-Descends fl ordered
          (keep (λ item. not item.found.conflicting_keys) (map of_business businesses))

    -- A merge needs a score of at least the merge threshold and a strong key, and links to one of
    -- the given businesses, whose domain and phone do not both contradict the record's.
    pub decide-auto_merge :
        (decide fl tools settings normalized businesses weights thresholds).kind ≡ auto_merge
        → (best : ScoredCandidate fl) × ((decide fl tools settings normalized businesses weights
              thresholds).best
            ≡ some best)
          × (fl.leb (or_thresholds fl thresholds settings).to_merge best.found.score ≡ true)
          × (has_strong_key fl best.found ≡ true)
          × IsCandidate best
    unfolding decide
    decide-auto_merge h =
        let (best, rest, e, is_best, passes) =
          decide_scored-merge (or_thresholds fl thresholds settings)
            (score_candidates fl tools settings normalized businesses weights) h in
        let all = rw e at score_candidates-IsCandidate in
        (best, is_best, ground arith, ground arith, all.0)

    -- A record is declared a new business only if every given business contradicts it in both keys
    -- or is not worth a reviewer's time: no reviewable pair is dropped.
    pub decide-new :
        (decide fl tools settings normalized businesses weights thresholds).kind ≡ new
        → All
            (λ b.
              let c =
                scored_candidate fl tools settings (or_weights fl weights settings) normalized b in
              (c.found.conflicting_keys ≡ true)
              ⊎ (is_reviewable fl (or_thresholds fl thresholds settings) c ≡ false))
            businesses
    unfolding decide score_candidates
    decide-new h =
        let limits = or_thresholds fl thresholds settings in
        let none_left = keep-nil (is_reviewable fl limits) _ (decide_scored-new limits _ h) in
        All-map businesses (λ b. λ e. ground arith)
          (All-keep-map (λ c. is_reviewable fl limits c ≡ false)
            (λ item. not item.found.conflicting_keys) of_business businesses
            (All-sort_by_score fl (λ c. is_reviewable fl limits c ≡ false) _ none_left))

    none-left_out :
        (limits : Thresholds fl)
        → let scored = score_candidates fl tools settings normalized businesses weights in
          All
            (λ b.
              let c = of_business b in
              (c.found.conflicting_keys ≡ true)
              ⊎ (IsWorth limits c → Memᴰ c (keep (is_reviewable fl limits) scored)))
            businesses
    unfolding score_candidates
    none-left_out limits =
        let scored = score_candidates fl tools settings normalized businesses weights in
        let IsKept : ScoredCandidate fl → Type 0 =
          λ c. IsWorth limits c → Memᴰ c (keep (is_reviewable fl limits) scored) in
        let each : All IsKept scored = All-each IsKept scored (λ c m worth.
          Memᴰ-keep (is_reviewable fl limits) scored m (IsWorth-reviewable limits c worth)) in
        All-map businesses (λ b x. elim x [ inl e ↦ inl (ground arith) | inr k ↦ inr k ])
          (All-keep-map IsKept (λ item. not item.found.conflicting_keys) of_business businesses
            (All-sort_by_score fl IsKept _ each))

    -- A reviewer sees at most three candidates, each of them one of the businesses without
    -- conflicting keys, and with a score of at least the review threshold, a whole match of the
    -- domain or of the phone, or half of an address with a name similarity of at least 0.8. Where
    -- fewer than three are shown, no business that is so is left out.
    pub decide-review :
        (decide fl tools settings normalized businesses weights thresholds).kind ≡ review
        → let shown =
            (decide fl tools settings normalized businesses weights thresholds).candidates in
          let limits = or_thresholds fl thresholds settings in
          (length shown ≤ 3)
          × All (λ c. IsCandidate c × IsWorth limits c) shown
          × ((length shown ≡ 3)
              ⊎ All
                  (λ b.
                    let c = of_business b in
                    (c.found.conflicting_keys ≡ true) ⊎ (IsWorth limits c → Memᴰ c shown))
                  businesses)
    unfolding decide score_candidates
    decide-review h =
        let limits = or_thresholds fl thresholds settings in
        let scored = score_candidates fl tools settings normalized businesses weights in
        let found =
          All-keep IsCandidate (is_reviewable fl limits) scored score_candidates-IsCandidate in
        let worth =
          All-map {Q = λ (c : ScoredCandidate fl). IsCandidate c × IsWorth limits c} _
            (λ c x. (x.0, is_reviewable-IsWorth limits c x.1)) found in
        let kept = keep (is_reviewable fl limits) scored in
        rw (decide_scored-review limits scored h) (
          length-take-le 3 kept,
          All-take _ 3 kept worth,
          elim (take-all 3 kept) [
            | inl full ↦ inl full
            | inr all ↦ inr (rw all (none-left_out limits))
          ],
        )

    -- Among candidates that a record could be linked to, the best is one of highest score.
    pub decide-auto_merge_highest :
        IsOrdered fl
        → (best : ScoredCandidate fl)
        → (decide fl tools settings normalized businesses weights thresholds).kind ≡ auto_merge
        → (decide fl tools settings normalized businesses weights thresholds).best ≡ some best
        → All
            (λ c. fl.leb c.found.score best.found.score ≡ true)
            (score_candidates fl tools settings normalized businesses weights)
    unfolding decide
    decide-auto_merge_highest ordered best h b =
        let scored = score_candidates fl tools settings normalized businesses weights in
        let (first, rest, e, is_best, passes) =
          decide_scored-merge (or_thresholds fl thresholds settings) scored h in
        Descends-head ordered scored best rest (score_candidates-Descends ordered) (cc)

    -- Without a shared domain or phone, or a shared street in a shared postal code, nothing merges
    -- by itself: the names alone never do, whatever the weights and the thresholds.
    pub decide_names_alone :
        HasLiterals fl
        → All
            (λ b.
              (shared normalized.domain b.domain ≡ false)
              × (shared normalized.phone_e164 b.phone_e164 ≡ false)
              × (shared normalized.address.postal_code b.postal_code
                    && shared normalized.address.street_key b.street_key
                  ≡ false))
            businesses
        → (decide fl tools settings normalized businesses weights thresholds).kind ≢ auto_merge
    decide_names_alone literals apart h =
        let (best, is_best, enough, strong, (b, m, e, c)) = decide-auto_merge h in
        let (d, p, a) = All-lookup _ businesses apart m in
        let weak =
          has_strong_key-unshared literals tools (or_weights fl weights settings) normalized b d p
            a in
        cc
