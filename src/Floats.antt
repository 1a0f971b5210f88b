-- ===== src/Floats.antt =====
-- Python's floats, which the language of this development does not have: a type with the literals
-- and operations that the program uses, and, apart, the laws that a theorem may ask of them.
use lead_discovery_rader.Prelude.{ℕ, ◌≡◌, Bool, true, false}

-- `decimal m k` is the literal m / 10 ^ k; `round_to k x` is `round(x, k)`; `same`, `leb` and `lt` are
-- `==`, `<=` and `<`.
pub record Floats : Type 1 where
  pub Float : Type 0
  pub decimal : ℕ → ℕ → Float
  pub add : Float → Float → Float
  pub sub : Float → Float → Float
  pub mul : Float → Float → Float
  pub div : Float → Float → Float
  pub neg : Float → Float
  pub round_to : ℕ → Float → Float
  pub same : Float → Float → Bool
  pub leb : Float → Float → Bool
  pub lt : Float → Float → Bool

-- The literals 0.0, 0.5 and 1.0 are told apart.
pub record HasLiterals (fl : Floats) : Type 0 where
  pub one_same : fl.same (fl.decimal 1 0) (fl.decimal 1 0) ≡ true
  pub zero_one : fl.same (fl.decimal 0 0) (fl.decimal 1 0) ≡ false
  pub half_one : fl.same (fl.decimal 5 1) (fl.decimal 1 0) ≡ false
  pub zero_same : fl.same (fl.decimal 0 0) (fl.decimal 0 0) ≡ true
  pub one_zero : fl.same (fl.decimal 1 0) (fl.decimal 0 0) ≡ false

-- `<=` and `<` on the numbers that occur (no NaN among them) are a total order and its strict part,
-- which negation reverses.
pub record IsOrdered (fl : Floats) : Type 0 where
  pub lt_not_leb : (a b : fl.Float) → fl.lt a b ≡ true → fl.leb b a ≡ false
  pub leb_of_not_lt : (a b : fl.Float) → fl.lt a b ≡ false → fl.leb b a ≡ true
  pub leb_of_lt : (a b : fl.Float) → fl.lt a b ≡ true → fl.leb a b ≡ true
  pub leb_refl : (a : fl.Float) → fl.leb a a ≡ true
  pub leb_trans : (a b c : fl.Float) → fl.leb a b ≡ true → fl.leb b c ≡ true → fl.leb a c ≡ true
  pub leb-neg : (a b : fl.Float) → fl.leb (fl.neg a) (fl.neg b) ≡ true → fl.leb b a ≡ true
