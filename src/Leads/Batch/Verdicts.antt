-- ===== src/Leads/Batch/Verdicts.antt =====
-- Each id of a batch gets one verdict, and what is not decided is not touched.
use mathlib.Core.Path.{subst}
use lead_discovery_rader.Prelude.{
  ℕ, ◌+◌, ◌≡◌, refl, ◌≢◌, String, Option, none, some, List, [], ◌∷◌, Bool, true, false, not, ◌&&◌,
  arith, ◌==◌, by_id-put, by_id-key, ◌⊎◌, inl, inr, ap, ◌∙◌, any, map,
}
use lead_discovery_rader.Leads.Model.{User, Opportunity, World, Settings, get_opportunity}
use lead_discovery_rader.Leads.Review.{ok, Fields, is_decidable, to_status_of, decided}
use lead_discovery_rader.Leads.Review.Justified.{Result-cases}
use lead_discovery_rader.Leads.Review.Decide.{apply-tables}
use lead_discovery_rader.Leads.Batch.{
  BatchVerdict, verdict_of, is_ok, conflict, not_allowed, BatchItem, BatchReviewRequest,
  decide_item, decide_items, batch_fields, decide_batch,
}

abbrev pub has_id : ℕ → List ℕ → Bool
has_id k ids = any (λ other. other == k) ids

abbrev pub ids_of : List BatchItem → List ℕ
ids_of items = map (λ (i : BatchItem). i.id) items

abbrev pub AreDistinct : List ℕ → Type 0
AreDistinct [] = Unit {0}
AreDistinct (id ∷ rest) = (has_id id rest ≡ false) × AreDistinct rest

abbrev pub is_ok_item : BatchItem → ℕ
is_ok_item item = elim item.result [ is_ok ↦ 1 | conflict ↦ 0 | not_allowed ↦ 0 ]

abbrev pub ok_count : List BatchItem → ℕ
ok_count [] = 0
ok_count (item ∷ rest) = is_ok_item item + ok_count rest

module _ (settings : Settings) (actor : User) (now : ℕ) where
  decide_item-id :
      (decision : BatchVerdict) (fields : Fields) (id : ℕ) (o : Option Opportunity) (w : World)
      → ((x : Opportunity) → o ≡ some x → x.id ≡ id)
      → (decide_item settings actor now decision fields id o w).0.id ≡ id
  unfolding decide_item decided
  decide_item-id decision fields id none w h = refl
  decide_item-id decision fields id (some o) w h = ground (arith, h o refl)

  decide_items-ids :
      (decision : BatchVerdict) (fields : Fields) (ids seen : List ℕ) (w : World) (k : ℕ)
      → has_id k (ids_of (decide_items settings actor now decision fields seen ids w).0.1)
        ≡ has_id k ids && not (has_id k seen)
  unfolding decide_items
  decide_items-ids decision fields [] seen w k = refl
  decide_items-ids decision fields (id ∷ rest) seen w k =
      let o = get_opportunity id w in
      let key =
        decide_item-id decision fields id o w
          (λ x e. by_id-key (λ (y : Opportunity). y.id) id w.opportunities e) in
      ground (
        arith,
        key,
        decide_items-ids decision fields rest seen w k,
        decide_items-ids decision fields rest (id ∷ seen)
            (decide_item settings actor now decision fields id o w).1 k,
      )

  decide_items-AreDistinct :
      (decision : BatchVerdict) (fields : Fields) (ids seen : List ℕ) (w : World)
      → AreDistinct (ids_of (decide_items settings actor now decision fields seen ids w).0.1)
  unfolding decide_items
  decide_items-AreDistinct decision fields [] seen w = tt
  decide_items-AreDistinct decision fields (id ∷ rest) seen w =
      let o = get_opportunity id w in
      let key =
        decide_item-id decision fields id o w
          (λ x e. by_id-key (λ (y : Opportunity). y.id) id w.opportunities e) in
      let w' = (decide_item settings actor now decision fields id o w).1 in
      let found = decide_items-ids decision fields rest (id ∷ seen) w' id in
      let after = decide_items-AreDistinct decision fields rest (id ∷ seen) w' in
      ground (arith, key, found, after, decide_items-AreDistinct decision fields rest seen w)

  decide_items-count :
      (decision : BatchVerdict) (fields : Fields) (ids seen : List ℕ) (w : World)
      → let r = (decide_items settings actor now decision fields seen ids w).0 in r.0 ≡ ok_count r.1
  unfolding decide_items
  decide_items-count decision fields [] seen w = refl
  decide_items-count decision fields (id ∷ rest) seen w =
      let o = get_opportunity id w in
      ground (
        arith,
        decide_items-count decision fields rest seen w,
        decide_items-count decision fields rest (id ∷ seen)
            (decide_item settings actor now decision fields id o w).1,
      )

  -- A batch that is carried out gives exactly one verdict for each of the ids that were sent, however
  -- often an id was sent and whether or not there is such an opportunity, and the number it returns is
  -- the number of the verdicts that say that the opportunity was decided.
  pub decide_batch-AreDistinct :
      (strip : String → String) (payload : BatchReviewRequest) (w w' : World) (n : ℕ)
      (items : List BatchItem)
      → decide_batch settings actor now strip payload w ≡ (ok (n, items), w')
      → ((k : ℕ) → has_id k (ids_of items) ≡ has_id k payload.ids)
        × AreDistinct (ids_of items)
        × (n ≡ ok_count items)
  unfolding decide_batch
  decide_batch-AreDistinct strip payload w w' n items h =
      elim (Result-cases (batch_fields settings actor now strip payload)) [
        | inl (f, e) ↦
            let items' = decide_items settings actor now payload.decision f [] payload.ids w in
            let same : items'.0 ≡ (n, items) = ground arith in
            let ids = decide_items-ids payload.decision f payload.ids [] w in
            subst
              (λ r.
                ((k : ℕ) → has_id k (ids_of r.1) ≡ has_id k payload.ids)
                × AreDistinct (ids_of r.1)
                × (r.0 ≡ ok_count r.1))
              same
              (
                (λ k.
                    let both = ids k in
                    let none_seen : not (has_id k []) ≡ true = refl in ground arith),
                decide_items-AreDistinct payload.decision f payload.ids [] w,
                decide_items-count payload.decision f payload.ids [] w,
              )
        | inr (e, v) ↦ absurd (ground arith)
      ]

  decide_item-keeps :
      (decision : BatchVerdict) (fields : Fields) (id : ℕ) (found : Option Opportunity) (w : World)
      (k : ℕ) (o : Opportunity)
      → get_opportunity k w ≡ some o
      → ((x : Opportunity) → found ≡ some x → get_opportunity x.id w ≡ some x)
      → (is_decidable o.review_status ≡ false) ⊎ (id ≢ k)
      → ((x : Opportunity) → found ≡ some x → x.id ≡ id)
      → get_opportunity k (decide_item settings actor now decision fields id found w).1 ≡ some o
  unfolding decide_item decided
  decide_item-keeps decision fields id none w k o h here kept key = h
  decide_item-keeps decision fields id (some x) w k o h here kept key =
      let verdict = verdict_of decision in
      let x' = decided settings actor now verdict (to_status_of verdict) fields.assigned_to x in
      let (r, t, d, s, b) =
        apply-tables settings actor now verdict (to_status_of verdict) fields x w in
      let put_lem = by_id-put (λ (y : Opportunity). y.id) x' k w.opportunities in
      ground (arith, t, put_lem, h, here x refl, kept, key x refl)

  decide_items-keeps :
      (decision : BatchVerdict) (fields : Fields) (ids seen : List ℕ) (w : World) (k : ℕ)
      (o : Opportunity)
      → get_opportunity k w ≡ some o
      → (is_decidable o.review_status ≡ false) ⊎ (has_id k ids ≡ false)
      → get_opportunity k (decide_items settings actor now decision fields seen ids w).1 ≡ some o
  unfolding decide_items
  decide_items-keeps decision fields [] seen w k o h kept = h
  decide_items-keeps decision fields (id ∷ rest) seen w k o h kept =
      let found = get_opportunity id w in
      let key : (x : Opportunity) → found ≡ some x → x.id ≡ id =
        λ x e. by_id-key (λ (y : Opportunity). y.id) id w.opportunities e in
      let w' = (decide_item settings actor now decision fields id found w).1 in
      let kept_here : (is_decidable o.review_status ≡ false) ⊎ (id ≢ k) = ground (arith, kept) in
      let kept_rest : (is_decidable o.review_status ≡ false) ⊎ (has_id k rest ≡ false) =
        ground (arith, kept) in
      let step =
        decide_item-keeps decision fields id found w k o h
          (λ x e. ap (λ i. get_opportunity i w) (key x e) ∙ e) kept_here key in
      ground (
        arith,
        decide_items-keeps decision fields rest seen w k o h kept_rest,
        decide_items-keeps decision fields rest (id ∷ seen) w' k o step kept_rest,
      )

  -- A batch leaves an opportunity as it is when its id was not sent or when it is no longer open for a
  -- decision.
  pub decide_batch-keeps :
      (strip : String → String) (payload : BatchReviewRequest) (w : World) (k : ℕ) (o : Opportunity)
      → get_opportunity k w ≡ some o
      → (is_decidable o.review_status ≡ false) ⊎ (has_id k payload.ids ≡ false)
      → get_opportunity k (decide_batch settings actor now strip payload w).1 ≡ some o
  unfolding decide_batch
  decide_batch-keeps strip payload w k o h kept =
      elim (Result-cases (batch_fields settings actor now strip payload)) [
        | inl (f, e) ↦
            let keeps = decide_items-keeps payload.decision f payload.ids [] w k o h kept in
            ground arith
        | inr (e, v) ↦ ground arith
      ]
