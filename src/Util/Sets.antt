-- ===== src/Util/Sets.antt =====
-- `std::unordered_set`: a list without repetitions. `count(k) > 0` is `contains`, and `erase` tells
-- nothing of what it found.
use database_engine.Base.{
  ℕ, ◌≡◌, ◌↔◌, Bool, true, false, List, [], ◌∷◌, arith, ◌==◌, if◌then◌else◌, ==_iff,
}

pub record Eq {ℓ} (A : Type ℓ) : Type ℓ where
  pub eqb : A → A → Bool
  pub eqb_correct : (a b : A) → (eqb a b ≡ true) ↔ (a ≡ b)

abbrev nat_beq : ℕ → ℕ → Bool
nat_beq a b = a == b

instance abbrev pub nat_eq : Eq ℕ
nat_eq = record { eqb = nat_beq; eqb_correct = ==_iff }

module _ {ℓ} {A : Type ℓ} ⦃e : Eq A⦄ where
  unfoldable pub contains : List A → A → Bool
  contains [] a = false
  contains (x ∷ xs) a = let rest = contains xs a in if e.eqb x a then true else rest

  unfoldable pub insert : List A → A → List A
  insert xs a = if contains xs a then xs else a ∷ xs

  unfoldable pub erase : List A → A → List A
  erase [] a = []
  erase (x ∷ xs) a = let rest = erase xs a in if e.eqb x a then rest else x ∷ rest

  pub contains-insert :
      (xs : List A) (a b : A)
      → contains (insert xs a) b ≡ (if e.eqb a b then true else contains xs b)
  unfolding insert contains
  contains-insert xs a b = ground (arith, e.eqb_correct a b)

  pub contains-erase :
      (xs : List A) (a b : A)
      → contains (erase xs a) b ≡ (if e.eqb a b then false else contains xs b)
  unfolding erase contains
  contains-erase [] a b = ground arith
  contains-erase (x ∷ xs) a b =
      ground (arith, e.eqb_correct x a, e.eqb_correct x b, e.eqb_correct a b, contains-erase xs a b)
