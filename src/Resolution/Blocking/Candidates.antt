-- ===== src/Resolution/Blocking/Candidates.antt =====
-- What holds of the businesses that a record is compared with.
use lead_discovery_rader.Prelude.{
  ℕ, ◌+◌, ◌≤◌, ◌≡◌, refl, inl, inr, Option, List, [], ◌∷◌, ◌++◌, Bool, false, not, ◌&&◌, ◌||◌, ltb,
  leb, ◌==◌, length, arith, All, Bool-cases,
}
use lead_discovery_rader.Floats.{Floats}
use lead_discovery_rader.Resolution.Model.{NormalizedBusiness, Business, Tools}
use lead_discovery_rader.Resolution.Blocking.{
  BlockingSettings, BlockingKeys, collect, block, has_id, skipped, find_blocks, find_candidates,
  cap_of, is_empty, candidate_keys,
}

module _ (fl : Floats) (tools : Tools fl) (settings : BlockingSettings fl) where
  -- No row is there twice.
  abbrev pub AreDistinct : List (Business fl) → Type 0
  AreDistinct [] = Unit {0}
  AreDistinct (row ∷ rest) = (has_id fl tools settings row.id rest ≡ false) × AreDistinct rest

  -- At most `cap` rows, each once, and none of the excluded ones.
  abbrev pub AreCandidates : ℕ → List ℕ → List (Business fl) → Type 0
  AreCandidates cap skip found =
      (length found ≤ cap)
      × AreDistinct found
      × All (λ (row : Business fl). skipped fl tools settings skip row.id ≡ false) found

  length-snoc :
      (row : Business fl) (xs : List (Business fl)) → length (xs ++ (row ∷ [])) ≡ length xs + 1
  length-snoc row [] = refl
  length-snoc row (x ∷ xs) = omega (arith, length-snoc row xs)

  has_id-snoc :
      (id : ℕ) (row : Business fl) (xs : List (Business fl))
      → has_id fl tools settings id xs ≡ false
      → (row.id == id) ≡ false
      → has_id fl tools settings id (xs ++ (row ∷ [])) ≡ false
  has_id-snoc id row [] h e = rw e refl
  has_id-snoc id row (x ∷ xs) h e = ground (arith, has_id-snoc id row xs)

  AreDistinct-snoc :
      (row : Business fl) (xs : List (Business fl))
      → AreDistinct xs
      → has_id fl tools settings row.id xs ≡ false
      → AreDistinct (xs ++ (row ∷ []))
  AreDistinct-snoc row [] d h = (refl, tt)
  AreDistinct-snoc row (x ∷ xs) (d, ds) h =
      (has_id-snoc x.id row xs d (ground arith), AreDistinct-snoc row xs ds (ground arith))

  All-snoc :
      (P : Business fl → Type 0) (row : Business fl) (xs : List (Business fl))
      → All P xs
      → P row
      → All P (xs ++ (row ∷ []))
  All-snoc P row [] h p = (p, tt)
  All-snoc P row (x ∷ xs) (q, h) p = (q, All-snoc P row xs h p)

  collect-AreCandidates :
      (cap : ℕ) (skip : List ℕ) (rows found : List (Business fl))
      → AreCandidates cap skip found
      → AreCandidates cap skip (collect fl tools settings cap skip found rows)
  unfolding collect
  collect-AreCandidates cap skip [] found h = h
  collect-AreCandidates cap skip (row ∷ rest) found (few, distinct, allowed) =
      elim (Bool-cases (
        not (skipped fl tools settings skip row.id)
        && (not (has_id fl tools settings row.id found) && ltb (length found) cap))) [
          | inr e ↦ rw e (collect-AreCandidates cap skip rest found (few, distinct, allowed))
          | inl e ↦ rw e (
              collect-AreCandidates cap skip rest (found ++ (row ∷ [])) (
                ground (arith, length-snoc row found),
                AreDistinct-snoc row found distinct (ground arith),
                All-snoc (λ row. skipped fl tools settings skip row.id ≡ false) row found allowed
                    (ground arith),
              ))
        ]

  block-AreCandidates :
      (cap : ℕ) (skip : List ℕ) (wanted : Bool) (rows found : List (Business fl))
      → AreCandidates cap skip found
      → AreCandidates cap skip (block fl tools settings cap skip wanted rows found)
  unfolding block
  block-AreCandidates cap skip wanted rows found h =
      elim (Bool-cases (wanted && ltb (length found) cap)) [
        | inl e ↦ rw e (collect-AreCandidates cap skip rows found h)
        | inr e ↦ rw e h
      ]

  find_blocks-AreCandidates :
      (cap : ℕ) (skip : List ℕ) (keys : BlockingKeys) (normalized : NormalizedBusiness fl)
      (table : List (Business fl))
      → AreCandidates cap skip (find_blocks fl tools settings cap skip keys normalized table)
  unfolding find_blocks
  find_blocks-AreCandidates cap skip keys normalized table = block-AreCandidates cap skip _ _ _ (
      block-AreCandidates cap skip _ _ _ (
        block-AreCandidates cap skip _ _ _
          (block-AreCandidates cap skip _ _ [] (omega arith, tt, tt))))

  -- The candidates of a record are at most as many as the cap, each once, and none is excluded.
  pub find_candidates-AreCandidates :
      (normalized : NormalizedBusiness fl) (limit : Option ℕ) (exclude : List ℕ)
      (table : List (Business fl))
      → AreCandidates
          (cap_of fl tools settings limit)
          exclude
          (find_candidates fl tools settings normalized limit exclude table)
  unfolding find_candidates
  find_candidates-AreCandidates normalized limit exclude table =
      elim (Bool-cases
        (is_empty (candidate_keys fl tools normalized) || leb (cap_of fl tools settings limit) 0)) [
          | inl e ↦ rw e (omega arith, tt, tt)
          | inr e ↦ rw e (
              find_blocks-AreCandidates (cap_of fl tools settings limit) exclude
                (candidate_keys fl tools normalized) normalized table)
        ]
