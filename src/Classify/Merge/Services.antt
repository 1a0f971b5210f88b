-- ===== src/Classify/Merge/Services.antt =====
-- The services of a merged result.
use lead_discovery_rader.Prelude.{
  ◌≡◌, refl, String, Option, none, some, List, [], ◌∷◌, ◌++◌, map, Bool, true, false, ◌==ₛ◌, any,
  arith, Bool-cases, ◌⊎◌, inl, inr, eq_iff, same_refl, All, ap, sym,
}
use lead_discovery_rader.Floats.{Floats}
use lead_discovery_rader.Classify.Guardrails.{AiOpportunity, AiOutput}
use lead_discovery_rader.Classify.Merge.{
  RuleOpportunity, MergedOpportunity, with_suggestion, ai_alone, set_item, set_items, pop,
  merge_rules, merge,
}

abbrev pub has : String → List String → Bool
has text xs = any (λ other. other ==ₛ text) xs

-- No service comes twice.
abbrev pub AllDifferent : List String → Type 0
AllDifferent [] = Unit {0}
AllDifferent (x ∷ rest) = (has x rest ≡ false) × AllDifferent rest

pub append-nil_lem {ℓ} : {A : Type ℓ} (xs : List A) → xs ≡ xs ++ []
append-nil_lem [] = refl
append-nil_lem (x ∷ xs) = ap (λ ys. x ∷ ys) (append-nil_lem xs)

pub differ_sym : (a b : String) → (a ==ₛ b) ≡ false → (b ==ₛ a) ≡ false
differ_sym a b h = elim (Bool-cases (b ==ₛ a)) [
  | inl e ↦
      let same : a ≡ b = sym ((eq_iff b a).0 e) in
      let both : (a ==ₛ b) ≡ true = (eq_iff a b).1 same in absurd (ground arith)
  | inr e ↦ e
]

-- Every member of a list is in another.
All-has :
    (xs ys : List String)
    → ((s : String) → has s xs ≡ true → has s ys ≡ true)
    → All (λ s. has s ys ≡ true) xs
All-has [] ys f = tt
All-has (x ∷ rest) ys f =
    let itself = same_refl x in (f x (ground arith), All-has rest ys (λ s h. f s (ground arith)))

module _ (fl : Floats) (strip : String → String) where
  abbrev pub rule_services : List (RuleOpportunity fl.Float) → List String
  rule_services found = map (λ rule. rule.service) found

  abbrev pub ai_services : List (AiOpportunity fl.Float) → List String
  ai_services os = map (λ o. o.service) os

  abbrev pub merged_services : List (MergedOpportunity fl.Float) → List String
  merged_services merged = map (λ item. item.service) merged

  set_item-has :
      (text : String) (o : AiOpportunity fl.Float) (os : List (AiOpportunity fl.Float))
      → has text (ai_services os) ≡ false
      → (o.service ==ₛ text) ≡ false
      → has text (ai_services (set_item fl strip o os)) ≡ false
  unfolding set_item
  set_item-has text o [] h other = ground arith
  set_item-has text o (p ∷ rest) h other =
      let later = set_item-has text o rest (ground arith) other in
      elim (Bool-cases (p.service ==ₛ o.service)) [
        | inl e ↦ rw e (ground arith)
        | inr e ↦ rw e (ground arith)
      ]

  set_item-AllDifferent :
      (o : AiOpportunity fl.Float) (os : List (AiOpportunity fl.Float))
      → AllDifferent (ai_services os)
      → AllDifferent (ai_services (set_item fl strip o os))
  unfolding set_item
  set_item-AllDifferent o [] h = (refl, tt)
  set_item-AllDifferent o (p ∷ rest) (fresh, h) = elim (Bool-cases (p.service ==ₛ o.service)) [
    | inl e ↦
        let same : p.service ≡ o.service = (eq_iff p.service o.service).0 e in
        rw e (rw same at fresh, h)
    | inr e ↦ rw e (
      set_item-has p.service o rest fresh (differ_sym p.service o.service e),
      set_item-AllDifferent o rest h,
    )
  ]

  set_items-AllDifferent :
      (os by_service : List (AiOpportunity fl.Float))
      → AllDifferent (ai_services by_service)
      → AllDifferent (ai_services (set_items fl strip os by_service))
  unfolding set_items
  set_items-AllDifferent [] by_service h = h
  set_items-AllDifferent (o ∷ rest) by_service h =
      set_items-AllDifferent rest (set_item fl strip o by_service)
        (set_item-AllDifferent o by_service h)

  -- What a pop leaves has neither the service nor any that was not there.
  pop-has :
      (text service : String) (os : List (AiOpportunity fl.Float))
      → has text (ai_services os) ≡ false
      → has text (ai_services (pop fl strip service os).1) ≡ false
  unfolding pop
  pop-has text service [] h = refl
  pop-has text service (o ∷ rest) h =
      let later = pop-has text service rest (ground arith) in
      elim (Bool-cases (o.service ==ₛ service)) [
        | inl e ↦ rw e (ground arith)
        | inr e ↦ rw e (ground arith)
      ]

  pop-AllDifferent :
      (service : String) (os : List (AiOpportunity fl.Float))
      → AllDifferent (ai_services os)
      → AllDifferent (ai_services (pop fl strip service os).1)
        × (has service (ai_services (pop fl strip service os).1) ≡ false)
  unfolding pop
  pop-AllDifferent service [] h = (tt, refl)
  pop-AllDifferent service (o ∷ rest) (fresh, h) =
      let (others, gone) = pop-AllDifferent service rest h in
      elim (Bool-cases (o.service ==ₛ service)) [
        | inl e ↦
            let same : o.service ≡ service = (eq_iff o.service service).0 e in
            rw e (h, rw same at fresh)
        | inr e ↦ rw e ((pop-has o.service service rest fresh, others), rw e gone)
      ]

  with_suggestion-service :
      (rule : RuleOpportunity fl.Float) (suggestion : Option (AiOpportunity fl.Float))
      → (with_suggestion fl strip rule suggestion).service ≡ rule.service
  with_suggestion-service rule none = refl
  with_suggestion-service rule (some suggestion) = refl

  ai_alone-services :
      (os : List (AiOpportunity fl.Float))
      → merged_services (map (ai_alone fl strip) os) ≡ ai_services os
  ai_alone-services [] = refl
  ai_alone-services (o ∷ rest) = ap (λ others. o.service ∷ others) (ai_alone-services rest)

  merge_rules-has :
      (text : String) (found : List (RuleOpportunity fl.Float)) (os : List (AiOpportunity fl.Float))
      → has text (rule_services found) ≡ false
      → has text (ai_services os) ≡ false
      → has text (merged_services (merge_rules fl strip found os)) ≡ false
  unfolding merge_rules
  merge_rules-has text [] os absent gone = rw (ai_alone-services os) gone
  merge_rules-has text (rule ∷ rest) os absent gone =
      let (suggestion, left) = pop fl strip rule.service os in
      let later =
        merge_rules-has text rest left (ground arith) (pop-has text rule.service os gone) in
      rw (with_suggestion-service rule suggestion) (ground arith)

  -- A predicate of services that every suggestion satisfies is kept by the dictionary and its pops.
  module _ (P : String → Type 0) where
    abbrev AllServices : List (AiOpportunity fl.Float) → Type 0
    AllServices os = All P (ai_services os)

    set_item-AllServices :
        (o : AiOpportunity fl.Float) (os : List (AiOpportunity fl.Float))
        → P o.service
        → AllServices os
        → AllServices (set_item fl strip o os)
    unfolding set_item
    set_item-AllServices o [] h hs = (h, tt)
    set_item-AllServices o (p ∷ rest) h (hp, hs) = elim (Bool-cases (p.service ==ₛ o.service)) [
      | inl e ↦ rw e (h, hs)
      | inr e ↦ rw e (hp, set_item-AllServices o rest h hs)
    ]

    set_items-AllServices :
        (os by_service : List (AiOpportunity fl.Float))
        → AllServices os
        → AllServices by_service
        → AllServices (set_items fl strip os by_service)
    unfolding set_items
    set_items-AllServices [] by_service h hs = hs
    set_items-AllServices (o ∷ rest) by_service (ho, h) hs =
        set_items-AllServices rest (set_item fl strip o by_service) h
          (set_item-AllServices o by_service ho hs)

    pop-AllServices :
        (service : String) (os : List (AiOpportunity fl.Float))
        → AllServices os
        → AllServices (pop fl strip service os).1
    unfolding pop
    pop-AllServices service [] h = tt
    pop-AllServices service (o ∷ rest) (ho, h) = elim (Bool-cases (o.service ==ₛ service)) [
      | inl e ↦ rw e h
      | inr e ↦ rw e (ho, pop-AllServices service rest h)
    ]

  set_item-keeps :
      (text : String) (o : AiOpportunity fl.Float) (os : List (AiOpportunity fl.Float))
      → ((o.service ==ₛ text) ≡ true) ⊎ (has text (ai_services os) ≡ true)
      → has text (ai_services (set_item fl strip o os)) ≡ true
  unfolding set_item
  set_item-keeps text o [] h = ground arith
  set_item-keeps text o (p ∷ rest) h = elim (Bool-cases (p.service ==ₛ o.service)) [
    | inl e ↦
        let same : p.service ≡ o.service = (eq_iff p.service o.service).0 e in
        rw e (elim h [ inl own ↦ ground arith | inr old ↦ rw same at old ])
    | inr e ↦ rw e (elim (Bool-cases (p.service ==ₛ text)) [
      | inl here ↦ ground arith
      | inr there ↦ let later = set_item-keeps text o rest (ground arith) in ground arith
    ])
  ]

  set_items-keeps :
      (text : String) (os by_service : List (AiOpportunity fl.Float))
      → (has text (ai_services os) ≡ true) ⊎ (has text (ai_services by_service) ≡ true)
      → has text (ai_services (set_items fl strip os by_service)) ≡ true
  unfolding set_items
  set_items-keeps text [] by_service h = ground arith
  set_items-keeps text (o ∷ rest) by_service h = elim (Bool-cases (has text (ai_services rest))) [
    | inl later ↦ set_items-keeps text rest (set_item fl strip o by_service) (inl later)
    | inr e ↦
        set_items-keeps text rest (set_item fl strip o by_service)
          (inr (set_item-keeps text o by_service (ground arith)))
  ]

  pop-keeps :
      (text service : String) (os : List (AiOpportunity fl.Float))
      → (service ==ₛ text) ≡ false
      → has text (ai_services os) ≡ true
      → has text (ai_services (pop fl strip service os).1) ≡ true
  unfolding pop
  pop-keeps text service [] other h = absurd (ground arith)
  pop-keeps text service (o ∷ rest) other h = elim (Bool-cases (o.service ==ₛ service)) [
    | inl e ↦
        let same : o.service ≡ service = (eq_iff o.service service).0 e in
        let not_this : (o.service ==ₛ text) ≡ false = rw same other in rw e (ground arith)
    | inr e ↦ rw e (elim (Bool-cases (o.service ==ₛ text)) [
      | inl here ↦ ground arith
      | inr there ↦ let later = pop-keeps text service rest other (ground arith) in ground arith
    ])
  ]

  merge_rules-keeps :
      (text : String) (found : List (RuleOpportunity fl.Float)) (os : List (AiOpportunity fl.Float))
      → has text (ai_services os) ≡ true
      → has text (merged_services (merge_rules fl strip found os)) ≡ true
  unfolding merge_rules
  merge_rules-keeps text [] os h = rw (ai_alone-services os) h
  merge_rules-keeps text (rule ∷ rest) os h =
      let (suggestion, left) = pop fl strip rule.service os in
      rw (with_suggestion-service rule suggestion) (elim (Bool-cases (rule.service ==ₛ text)) [
        | inl here ↦ ground arith
        | inr there ↦
            let later = merge_rules-keeps text rest left (pop-keeps text rule.service os there h) in
            ground arith
      ])

  -- The services of the rules, in order, and then others, each of them proposed; none of them
  -- twice, and none that was proposed left out.
  pub record IsMerge (first proposed merged : List String) : Type 0 where
    pub others : List String
    pub in_order : merged ≡ first ++ others
    pub only_proposed : All (λ service. has service proposed ≡ true) others
    pub all_proposed : All (λ service. has service merged ≡ true) proposed
    pub once : AllDifferent merged

  -- The parts of it that go by induction on the rules.
  abbrev IsExtended : (String → Type 0) → List String → List String → Type 0
  IsExtended P first merged =
      (others : List String) × (merged ≡ first ++ others) × All P others × AllDifferent merged

  merge_rules-IsExtended :
      (P : String → Type 0) (found : List (RuleOpportunity fl.Float))
      (os : List (AiOpportunity fl.Float))
      → AllDifferent (rule_services found)
      → AllDifferent (ai_services os)
      → All P (ai_services os)
      → IsExtended P (rule_services found) (merged_services (merge_rules fl strip found os))
  unfolding merge_rules
  merge_rules-IsExtended P [] os once different h =
      (ai_services os, ai_alone-services os, h, rw (ai_alone-services os) different)
  merge_rules-IsExtended P (rule ∷ rest) os (fresh, once) different h =
      let (suggestion, left) = pop fl strip rule.service os in
      let (left_different, gone) = pop-AllDifferent rule.service os different in
      let (others, same, proposed, all) =
        merge_rules-IsExtended P rest left once left_different
          (pop-AllServices P rule.service os h) in
      let first = merge_rules-has rule.service rest left fresh gone in
      rw (with_suggestion-service rule suggestion)
        (others, ap (λ more. rule.service ∷ more) same, proposed, (first, all))

  rules_alone-services :
      (found : List (RuleOpportunity fl.Float))
      → merged_services (merge fl strip found none) ≡ rule_services found
  unfolding merge
  rules_alone-services [] = refl
  rules_alone-services (rule ∷ rest) =
      ap (λ others. rule.service ∷ others) (rules_alone-services rest)

-- The services that the model proposes, if it answers.
abbrev pub proposed_services :
    (fl : Floats) (strip : String → String) → Option (AiOutput fl.Float) → List String
proposed_services fl strip none = []
proposed_services fl strip (some output) = ai_services fl strip output.opportunities

-- The model never removes or reorders what the rules found: where their services differ, those of
-- the merged result are the services of the rules, in their order, followed by others that the
-- model proposed. Every service that it proposed is there, and none comes twice, however often the
-- model repeats it.
pub merge-IsMerge :
    (fl : Floats) (strip : String → String) (found : List (RuleOpportunity fl.Float))
    (output : Option (AiOutput fl.Float))
    → AllDifferent (rule_services fl strip found)
    → IsMerge fl strip
        (rule_services fl strip found)
        (proposed_services fl strip output)
        (merged_services fl strip (merge fl strip found output))
unfolding merge
merge-IsMerge fl strip found none once = record {
  others = [];
  in_order =
      rw (rules_alone-services fl strip found) (append-nil_lem (rule_services fl strip found));
  only_proposed = tt;
  all_proposed = tt;
  once = rw (rules_alone-services fl strip found) once;
}
merge-IsMerge fl strip found (some output) once =
    let proposed = ai_services fl strip output.opportunities in
    let by_service = set_items fl strip output.opportunities [] in
    let (others, in_order, only, different) =
      merge_rules-IsExtended fl strip (λ service. has service proposed ≡ true) found by_service once
        (set_items-AllDifferent fl strip output.opportunities [] tt)
        (set_items-AllServices fl strip (λ service. has service proposed ≡ true)
          output.opportunities [] (All-has proposed proposed (λ s h. h)) tt) in
    record {
      others = others;
      in_order = in_order;
      only_proposed = only;
      all_proposed =
          All-has proposed (merged_services fl strip (merge_rules fl strip found by_service))
            (λ s h.
              merge_rules-keeps fl strip s found by_service
                (set_items-keeps fl strip s output.opportunities [] (inl h)));
      once = different;
    }
