-- ===== src/Resolution/Resolver/Sorting.antt =====
-- The candidates in the order of their scores.
use mathlib.Core.List.{Perm}
use mathlib.Core.List.Perm
use lead_discovery_rader.Prelude.{◌≡◌, inl, inr, List, [], ◌∷◌, true, Bool-cases, All}
use lead_discovery_rader.Floats.{Floats, IsOrdered}
use lead_discovery_rader.Resolution.Resolver.{ScoredCandidate, insert_by_score, sort_by_score}

-- Each score is at least every score behind it.
abbrev pub Descends : (fl : Floats) → List (ScoredCandidate fl) → Type 0
Descends fl [] = Unit
Descends fl (x ∷ xs) = All (λ y. fl.leb y.found.score x.found.score ≡ true) xs × Descends fl xs

module _ (fl : Floats) where
  insert_by_score-All {κ} :
      (P : ScoredCandidate fl → Type κ) (x : ScoredCandidate fl) (xs : List (ScoredCandidate fl))
      → P x
      → All P xs
      → All P (insert_by_score fl x xs)
  unfolding insert_by_score
  insert_by_score-All P x [] px h = (px, tt)
  insert_by_score-All P x (y ∷ ys) px (py, h) =
      elim (Bool-cases (fl.lt (fl.neg y.found.score) (fl.neg x.found.score))) [
        | inl e ↦ rw e (py, insert_by_score-All P x ys px h)
        | inr e ↦ rw e (px, (py, h))
      ]

  pub sort_by_score-All {κ} :
      (P : ScoredCandidate fl → Type κ) (xs : List (ScoredCandidate fl))
      → All P xs
      → All P (sort_by_score fl xs)
  unfolding sort_by_score
  sort_by_score-All P [] h = tt
  sort_by_score-All P (x ∷ xs) (px, h) =
      insert_by_score-All P x (sort_by_score fl xs) px (sort_by_score-All P xs h)

  All-insert_by_score {κ} :
      (P : ScoredCandidate fl → Type κ) (x : ScoredCandidate fl) (xs : List (ScoredCandidate fl))
      → All P (insert_by_score fl x xs)
      → P x × All P xs
  unfolding insert_by_score
  All-insert_by_score P x [] h = h
  All-insert_by_score P x (y ∷ ys) h =
      elim (Bool-cases (fl.lt (fl.neg y.found.score) (fl.neg x.found.score))) [
        | inl e ↦
            let (py, rest) = rw e at h in
            let (px, pys) = All-insert_by_score P x ys rest in (px, (py, pys))
        | inr e ↦ rw e at h
      ]

  pub All-sort_by_score {κ} :
      (P : ScoredCandidate fl → Type κ) (xs : List (ScoredCandidate fl))
      → All P (sort_by_score fl xs)
      → All P xs
  unfolding sort_by_score
  All-sort_by_score P [] h = tt
  All-sort_by_score P (x ∷ xs) h =
      let (px, rest) = All-insert_by_score P x (sort_by_score fl xs) h in
      (px, All-sort_by_score P xs rest)

  insert_by_score-perm :
      (x : ScoredCandidate fl) (xs : List (ScoredCandidate fl))
      → Perm (insert_by_score fl x xs) (x ∷ xs)
  unfolding insert_by_score
  insert_by_score-perm x [] = Perm.refl (x ∷ [])
  insert_by_score-perm x (y ∷ ys) =
      elim (Bool-cases (fl.lt (fl.neg y.found.score) (fl.neg x.found.score))) [
        | inl e ↦ rw e (Perm.trans (Perm.cons y (insert_by_score-perm x ys)) (Perm.swap x y ys))
        | inr e ↦ rw e (Perm.refl (x ∷ y ∷ ys))
      ]

  -- Sorting drops and adds nothing.
  pub sort_by_score-perm : (xs : List (ScoredCandidate fl)) → Perm (sort_by_score fl xs) xs
  unfolding sort_by_score
  sort_by_score-perm [] = Perm.refl []
  sort_by_score-perm (x ∷ xs) =
      Perm.trans (insert_by_score-perm x (sort_by_score fl xs))
        (Perm.cons x (sort_by_score-perm xs))

  module _ (ordered : IsOrdered fl) where
    below-All :
        (x y : ScoredCandidate fl) (ys : List (ScoredCandidate fl))
        → fl.leb y.found.score x.found.score ≡ true
        → All (λ z. fl.leb z.found.score y.found.score ≡ true) ys
        → All (λ z. fl.leb z.found.score x.found.score ≡ true) ys
    below-All x y [] h all = tt
    below-All x y (z ∷ zs) h (hz, all) =
        (ordered.leb_trans z.found.score y.found.score x.found.score hz h, below-All x y zs h all)

    insert_by_score-Descends :
        (x : ScoredCandidate fl) (xs : List (ScoredCandidate fl))
        → Descends fl xs
        → Descends fl (insert_by_score fl x xs)
    unfolding insert_by_score
    insert_by_score-Descends x [] d = (tt, tt)
    insert_by_score-Descends x (y ∷ ys) (below, d) =
        elim (Bool-cases (fl.lt (fl.neg y.found.score) (fl.neg x.found.score))) [
          | inl e ↦
              let le = ordered.leb-neg y.found.score x.found.score (ordered.leb_of_lt _ _ e) in
              rw e (insert_by_score-All _ x ys le below, insert_by_score-Descends x ys d)
          | inr e ↦
              let le = ordered.leb-neg x.found.score y.found.score (ordered.leb_of_not_lt _ _ e) in
              rw e ((le, below-All x y ys le below), (below, d))
        ]

    pub sort_by_score-Descends :
        (xs : List (ScoredCandidate fl)) → Descends fl (sort_by_score fl xs)
    unfolding sort_by_score
    sort_by_score-Descends [] = tt
    sort_by_score-Descends (x ∷ xs) =
        insert_by_score-Descends x (sort_by_score fl xs) (sort_by_score-Descends xs)
