-- ===== src/Fetch/Body/Capped.antt =====
-- What is read of a body is the front of it.
use lead_discovery_rader.Prelude.{
  ℕ, zero, suc, ◌+◌, ◌-◌, ◌≤◌, ◌≡◌, refl, List, [], ◌∷◌, ◌++◌, true, ltb, leb, length, take, arith,
  ◌⊎◌, inl, inr, Bool-cases, ap, sym, ◌∙◌,
}
use lead_discovery_rader.Fetch.Body.{Byte, read_capped}

abbrev pub joined : List (List Byte) → List Byte
joined [] = []
joined (chunk ∷ rest) = chunk ++ joined rest

take-nil {ℓ} : {A : Type ℓ} (n : ℕ) → take {A = A} n [] ≡ []
take-nil zero = refl
take-nil (suc n) = refl

-- The front of two lists, whether or not the first is long enough.
take-append {ℓ} :
    {A : Type ℓ} (n : ℕ) (xs ys : List A) → take n (xs ++ ys) ≡ take n xs ++ take (n - length xs) ys
take-append n [] ys = rw (take-nil n) (let same : n - 0 ≡ n = omega arith in rw same refl)
take-append zero (x ∷ xs) ys =
    let none_left : zero - suc (length xs) ≡ zero = omega arith in rw none_left refl
take-append (suc n) (x ∷ xs) ys =
    let same : suc n - suc (length xs) ≡ n - length xs = omega arith in
    rw (same, take-append n xs ys) refl

take_all {ℓ} : {A : Type ℓ} (n : ℕ) (xs : List A) → length xs ≤ n → take n xs ≡ xs
take_all n [] h = take-nil n
take_all zero (x ∷ xs) h = absurd (omega arith)
take_all (suc n) (x ∷ xs) h = ap (λ ys. x ∷ ys) (take_all n xs (omega (arith, h)))

append-nil_lem {ℓ} : {A : Type ℓ} (xs : List A) → xs ++ [] ≡ xs
append-nil_lem [] = refl
append-nil_lem (x ∷ xs) = ap (λ ys. x ∷ ys) (append-nil_lem xs)

-- However a body is cut into chunks, what is kept of those that come after its first `total` bytes is
-- as much of their front as `max_bytes` leaves; and where it is not reported as truncated, it is
-- all of them.
pub read_capped-take :
    (max_bytes total : ℕ) (chunks : List (List Byte))
    → let r = read_capped max_bytes total chunks in
      (r.0 ≡ take (max_bytes - total) (joined chunks)) × ((r.1 ≡ true) ⊎ (r.0 ≡ joined chunks))
unfolding read_capped
read_capped-take max_bytes total [] = (sym (take-nil (max_bytes - total)), inr refl)
read_capped-take max_bytes total (chunk ∷ rest) =
    let (front, whole) = read_capped-take max_bytes (total + length chunk) rest in
    elim (Bool-cases (leb max_bytes total)) [
      | inl full ↦
          let nothing : max_bytes - total ≡ zero = ground arith in
          rw (full, nothing) (refl, inl refl)
      | inr room ↦ elim (Bool-cases (ltb (max_bytes - total) (length chunk))) [
        | inl cut ↦
            let over : max_bytes - total - length chunk ≡ zero = ground arith in
            rw (room, cut)
              (
                sym (
                    take-append (max_bytes - total) chunk (joined rest)
                    ∙ rw over (append-nil_lem (take (max_bytes - total) chunk))),
                inl refl,
              )
        | inr fits ↦
            let left : max_bytes - total - length chunk ≡ max_bytes - (total + length chunk) =
              omega arith in
            let kept : take (max_bytes - total) chunk ≡ chunk =
              take_all (max_bytes - total) chunk (ground arith) in
            rw (room, fits)
              (
                ap (λ ys. chunk ++ ys) front
                    ∙ sym (
                        take-append (max_bytes - total) chunk (joined rest) ∙ rw (kept, left) refl),
                elim whole [ inl t ↦ inl t | inr all ↦ inr (ap (λ ys. chunk ++ ys) all) ],
              )
      ]
    ]
