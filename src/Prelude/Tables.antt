-- ===== src/Prelude/Tables.antt =====
-- Rows with an identity in a list: the first that passes a test, and the replacement of a row.
use Prim.Native.Nat.{ℕ}
use mathlib.Core.Path.{◌≡◌, refl}
use mathlib.Core.Bool.{Bool}
use mathlib.Core.Option.{Option, none, some}
use mathlib.Core.List.{List, [], ◌∷◌, ◌++◌}
use native.Mathlib.Omega.{arith}
use lead_discovery_rader.Prelude.Tests.{if◌then◌else◌, ◌==◌}

module _ {ℓ} {A : Type ℓ} where
  unfoldable pub find_first : (A → Bool) → List A → Option A
  find_first p [] = none
  find_first p (x ∷ xs) = if p x then some x else find_first p xs

  unfoldable pub put : (A → ℕ) → A → List A → List A
  put key a [] = []
  put key a (x ∷ xs) = (if key x == key a then a else x) ∷ put key a xs

  unfoldable pub by_id : (A → ℕ) → ℕ → List A → Option A
  by_id key k xs = find_first (λ x. key x == k) xs

  -- The row that is found has the identity.
  pub by_id-key : (key : A → ℕ) (k : ℕ) (xs : List A) {a : A} → by_id key k xs ≡ some a → key a ≡ k
  unfolding by_id find_first
  by_id-key key k [] {a} h = cc
  by_id-key key k (x ∷ xs) {a} h = ground (arith, by_id-key key k xs {a = a})

  -- A lookup after a replacement.
  pub by_id-put :
      (key : A → ℕ) (a : A) (k : ℕ) (xs : List A)
      → by_id key k (put key a xs)
        ≡ elim (by_id key k xs) [ none ↦ none | some old ↦ if key a == k then some a else some old ]
  unfolding by_id find_first put
  by_id-put key a k [] = refl
  by_id-put key a k (x ∷ xs) = ground (arith, by_id-put key a k xs)

  -- A lookup where a row was added at the end.
  pub by_id-snoc :
      (key : A → ℕ) (a : A) (k : ℕ) (xs : List A)
      → by_id key k (xs ++ (a ∷ []))
        ≡ elim (by_id key k xs) [ none ↦ if key a == k then some a else none | some old ↦ some old ]
  unfolding by_id find_first
  by_id-snoc key a k [] = refl
  by_id-snoc key a k (x ∷ xs) = ground (arith, by_id-snoc key a k xs)
