-- ===== src/Executor/Aggregate/Fold.antt =====
-- The fold behind MIN and MAX of executor/aggregate.hpp, over any order.
use database_engine.Base.{
  ◌≡◌, refl, ◌∙◌, ◌⊎◌, inl, inr, Bool, true, false, List, [], ◌∷◌, arith, if◌then◌else◌, Bool-cases,
  All,
}
use database_engine.Common.Value.{Value, null}

-- One of the values of a list.
abbrev pub Among : Value → List Value → Type 0
Among v [] = ⊥
Among v (x ∷ xs) = (v ≡ x) ⊎ Among v xs

-- The result over a column: null if the column has no values, and else one of them, with no value beyond it.
abbrev pub IsExtreme : (Value → Value → Bool) → List Value → Value → Type 0
IsExtreme beyond vs m = ((vs ≡ []) × (m ≡ null)) ⊎ (Among m vs × All (λ v. beyond v m ≡ false) vs)

-- The fold: a value that is beyond the one that is kept takes its place.
unfoldable pub extreme : (Value → Value → Bool) → Value → List Value → Value
extreme beyond m [] = m
extreme beyond m (v ∷ vs) = extreme beyond (if beyond v m then v else m) vs

Among-kept :
    {e k m v : Value} (vs : List Value)
    → (k ≡ m) ⊎ (k ≡ v)
    → Among e (k ∷ vs)
    → Among e (m ∷ v ∷ vs)
Among-kept vs which (inr later) = inr (inr later)
Among-kept vs (inl first) (inl here) = inl (here ∙ first)
Among-kept vs (inr second) (inl here) = inr (inl (here ∙ second))

module _ (beyond : Value → Value → Bool) (Good : Value → Type 0)
    (asym : (x y : Value) → Good x → Good y → beyond x y ≡ true → beyond y x ≡ false)
    (split : (x y z : Value)
      → Good x
      → Good y
      → Good z
      → beyond x z ≡ true
      → (beyond x y ≡ true) ⊎ (beyond y z ≡ true)) where
  -- Neither the value that is kept nor the one that is passed over is beyond the result.
  passed_over :
      (m v e : Value)
      → Good m
      → Good v
      → Good e
      → beyond (if beyond v m then v else m) e ≡ false
      → (beyond m e ≡ false) × (beyond v e ≡ false)
  passed_over m v e m_good v_good e_good h = ground (
    arith,
    asym v m v_good m_good,
    split m v e m_good v_good e_good,
    split v m e v_good m_good e_good,
  )

  kept_lem :
      (m v : Value)
      → Good m
      → Good v
      → Good (if beyond v m then v else m)
        × (((if beyond v m then v else m) ≡ m) ⊎ ((if beyond v m then v else m) ≡ v))
  kept_lem m v m_good v_good = elim (Bool-cases (beyond v m)) [
    | inl further ↦ rw further (v_good, inr refl)
    | inr behind ↦ rw behind (m_good, inl refl)
  ]

  pub extreme_lem :
      (m : Value) (vs : List Value)
      → Good m
      → All Good vs
      → Good (extreme beyond m vs)
        × Among (extreme beyond m vs) (m ∷ vs)
        × All (λ v. beyond v (extreme beyond m vs) ≡ false) (m ∷ vs)
  unfolding extreme
  extreme_lem m [] m_good good = (m_good, inl refl, (ground (arith, asym m m m_good m_good), tt))
  extreme_lem m (v ∷ vs) m_good good =
      let kept = if beyond v m then v else m in
      let (kept_good, which) = kept_lem m v m_good good.0 in
      let (e_good, among, (over, others)) = extreme_lem kept vs kept_good good.1 in
      let (m_over, v_over) = passed_over m v (extreme beyond kept vs) m_good good.0 e_good over in
      (e_good, Among-kept vs which among, (m_over, (v_over, others)))
