-- ===== src/Prelude/Lists.antt =====
-- List functions over the native numbers and Boolean tests, and the predicate `All`.
use Prim.Native.Nat.{ℕ, zero, suc, ◌≤◌}
use mathlib.Core.Path.{◌≡◌, refl, ap, subst, sym}
use mathlib.Core.Logic.{◌⊎◌, inl, inr}
use native.Mathlib.Omega.{arith}
use mathlib.Core.Bool.{Bool, true, false, ◌||◌}
use mathlib.Core.List.{List, [], ◌∷◌, Memᴰ}
use lead_discovery_rader.Prelude.Tests.{if◌then◌else◌, Bool-cases}

module _ {ℓ} {A : Type ℓ} where
  abbrev pub length : List A → ℕ
  length [] = 0
  length (_ ∷ xs) = suc (length xs)

  abbrev pub take : ℕ → List A → List A
  take zero xs = []
  take (suc n) [] = []
  take (suc n) (x ∷ xs) = x ∷ take n xs

  abbrev pub any : (A → Bool) → List A → Bool
  any p [] = false
  any p (x ∷ xs) = p x || any p xs

  -- `[x for x in xs if p(x)]`
  abbrev pub keep : (A → Bool) → List A → List A
  keep p [] = []
  keep p (x ∷ xs) = let rest = keep p xs in if p x then x ∷ rest else rest

  abbrev pub All {κ} : (A → Type κ) → List A → Type κ
  All P [] = Unit
  All P (x ∷ xs) = P x × All P xs

-- A predicate that follows from another one, over a list; and over the front of a list.
module _ {ℓ κ μ} {A : Type ℓ} {P : A → Type κ} {Q : A → Type μ} where
  pub All-map : (xs : List A) → ((x : A) → P x → Q x) → All P xs → All Q xs
  All-map [] f h = tt
  All-map (x ∷ xs) f (px, h) = (f x px, All-map xs f h)

module _ {ℓ κ} {A : Type ℓ} (P : A → Type κ) where
  pub All-take : (n : ℕ) (xs : List A) → All P xs → All P (take n xs)
  All-take zero xs h = tt
  All-take (suc n) [] h = tt
  All-take (suc n) (x ∷ xs) (px, h) = (px, All-take n xs h)

  pub All-keep : (p : A → Bool) (xs : List A) → All P xs → All (λ x. P x × (p x ≡ true)) (keep p xs)
  All-keep p [] h = tt
  All-keep p (x ∷ xs) (px, h) = elim (Bool-cases (p x)) [
    | inl e ↦ rw e ((px, e), All-keep p xs h)
    | inr e ↦ rw e (All-keep p xs h)
  ]

pub length-take-le {ℓ} : {A : Type ℓ} (n : ℕ) (xs : List A) → length (take n xs) ≤ n
length-take-le zero xs = omega arith
length-take-le (suc n) [] = omega arith
length-take-le (suc n) (x ∷ xs) = omega (arith, length-take-le n xs)

-- What holds of each member holds of the list.
pub All-each {ℓ κ} :
    {A : Type ℓ} (P : A → Type κ) (xs : List A) → ((a : A) → Memᴰ a xs → P a) → All P xs
All-each P [] h = tt
All-each P (x ∷ xs) h = (h x (Memᴰ.head refl), All-each P xs (λ a m. h a (Memᴰ.tail m)))

-- What is taken is as long as asked, or it is all.
pub take-all {ℓ} : {A : Type ℓ} (n : ℕ) (xs : List A) → (length (take n xs) ≡ n) ⊎ (take n xs ≡ xs)
take-all zero xs = inl refl
take-all (suc n) [] = inr refl
take-all (suc n) (x ∷ xs) = elim (take-all n xs) [
  | inl full ↦ inl (ap suc full)
  | inr all ↦ inr (ap (λ ys. x ∷ ys) all)
]

-- What is kept of a list: each member that passes.
pub Memᴰ-keep {ℓ} :
    {A : Type ℓ} (p : A → Bool) {a : A} (xs : List A) → Memᴰ a xs → p a ≡ true → Memᴰ a (keep p xs)
Memᴰ-keep p [] m h = elim m [ ]
Memᴰ-keep p (x ∷ xs) (Memᴰ.head e) h = let passes : p x ≡ true = rw⁻¹ e h in rw passes (Memᴰ.head e)
Memᴰ-keep p (x ∷ xs) (Memᴰ.tail m) h = elim (Bool-cases (p x)) [
  | inl e ↦ rw e (Memᴰ.tail (Memᴰ-keep p xs m h))
  | inr e ↦ rw e (Memᴰ-keep p xs m h)
]

-- What holds of a list holds of each of its members.
pub All-lookup {ℓ κ} :
    {A : Type ℓ} (P : A → Type κ) {a : A} (xs : List A) → All P xs → Memᴰ a xs → P a
All-lookup P [] h m = elim m [ ]
All-lookup P (x ∷ xs) (px, h) (Memᴰ.head e) = subst P (sym e) px
All-lookup P (x ∷ xs) (px, h) (Memᴰ.tail m) = All-lookup P xs h m
