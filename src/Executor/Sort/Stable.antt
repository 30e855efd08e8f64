-- ===== src/Executor/Sort/Stable.antt =====
-- The sort of executor/sort.hpp: a permutation, sorted, and stable.
use database_engine.Base.{
  ◌≡◌, refl, ◌⊎◌, inl, inr, Bool, true, false, not, ◌&&◌, List, [], ◌∷◌, arith, if◌then◌else◌,
  Bool-cases, All,
}
use mathlib.Core.List.{Perm}
use mathlib.Core.List.Perm
use database_engine.Executor.Sort.{insert_sorted, stable_sort}

module _ {ℓ} {A : Type ℓ} (before : A → A → Bool) where
  -- Later elements of the list do not have to stand before earlier ones.
  abbrev pub IsSorted : List A → Type ℓ
  IsSorted [] = Unit
  IsSorted (x ∷ xs) = All (λ y. before y x ≡ false) xs × IsSorted xs

  -- The elements that are level with `p`.
  abbrev pub level : A → A → Bool
  level p x = not (before x p) && not (before p x)

  unfoldable pub level_with : A → List A → List A
  level_with p [] = []
  level_with p (x ∷ xs) = if level p x then x ∷ level_with p xs else level_with p xs

  insert_sorted-perm : (x : A) (xs : List A) → Perm (insert_sorted before x xs) (x ∷ xs)
  unfolding insert_sorted
  insert_sorted-perm x [] = Perm.refl (x ∷ [])
  insert_sorted-perm x (y ∷ ys) = elim (Bool-cases (before y x)) [
    | inl after ↦ rw after (Perm.trans (Perm.cons y (insert_sorted-perm x ys)) (Perm.swap x y ys))
    | inr here ↦ rw here (Perm.refl (x ∷ y ∷ ys))
  ]

  pub stable_sort-perm : (xs : List A) → Perm (stable_sort before xs) xs
  unfolding stable_sort
  stable_sort-perm [] = Perm.refl []
  stable_sort-perm (x ∷ xs) =
      Perm.trans (insert_sorted-perm x (stable_sort before xs)) (Perm.cons x (stable_sort-perm xs))

All-insert_sorted {ℓ κ} :
    {A : Type ℓ} (before : A → A → Bool) (P : A → Type κ) (x : A) (xs : List A)
    → P x
    → All P xs
    → All P (insert_sorted before x xs)
unfolding insert_sorted
All-insert_sorted before P x [] h k = (h, k)
All-insert_sorted before P x (y ∷ ys) h k = elim (Bool-cases (before y x)) [
  | inl after ↦ rw after (k.0, All-insert_sorted before P x ys h k.1)
  | inr here ↦ rw here (h, k)
]

pub All-stable_sort {ℓ κ} :
    {A : Type ℓ} (before : A → A → Bool) (P : A → Type κ) (xs : List A)
    → All P xs
    → All P (stable_sort before xs)
unfolding stable_sort
All-stable_sort before P [] h = h
All-stable_sort before P (x ∷ xs) h =
    All-insert_sorted before P x (stable_sort before xs) h.0 (All-stable_sort before P xs h.1)

-- The comparison is a strict weak order on the elements that satisfy `Good`.
module _ {ℓ κ} {A : Type ℓ} (before : A → A → Bool) (Good : A → Type κ)
    (asym : (x y : A) → Good x → Good y → before x y ≡ true → before y x ≡ false)
    (split : (x y z : A)
      → Good x
      → Good y
      → Good z
      → before x z ≡ true
      → (before x y ≡ true) ⊎ (before y z ≡ true)) where
  -- What does not stand before `y`, which does not stand before `x`, does not stand before `x`.
  All-after :
      (x y : A) (zs : List A)
      → Good x
      → Good y
      → All Good zs
      → before y x ≡ false
      → All (λ z. before z y ≡ false) zs
      → All (λ z. before z x ≡ false) zs
  All-after x y [] x_good y_good good h k = tt
  All-after x y (z ∷ zs) x_good y_good good h k = (
    elim (Bool-cases (before z x)) [
      | inr not_before ↦ not_before
      | inl early ↦ elim (split z y x good.0 y_good x_good early) [ inl p ↦ cc | inr q ↦ cc ]
    ],
    All-after x y zs x_good y_good good.1 h k.1,
  )

  insert_sorted-IsSorted :
      (x : A) (xs : List A)
      → Good x
      → All Good xs
      → IsSorted before xs
      → IsSorted before (insert_sorted before x xs)
  unfolding insert_sorted
  insert_sorted-IsSorted x [] x_good good h = (tt, tt)
  insert_sorted-IsSorted x (y ∷ ys) x_good good h = elim (Bool-cases (before y x)) [
    | inl after ↦ rw after (
      All-insert_sorted before (λ z. before z y ≡ false) x ys (asym y x good.0 x_good after) h.0,
      insert_sorted-IsSorted x ys x_good good.1 h.1,
    )
    | inr here ↦ rw here ((here, All-after x y ys x_good good.0 good.1 here h.0), h)
  ]

  pub stable_sort-IsSorted : (xs : List A) → All Good xs → IsSorted before (stable_sort before xs)
  unfolding stable_sort
  stable_sort-IsSorted [] good = tt
  stable_sort-IsSorted (x ∷ xs) good =
      insert_sorted-IsSorted x (stable_sort before xs) good.0
        (All-stable_sort before Good xs good.1) (stable_sort-IsSorted xs good.1)

  -- An element that is inserted stands in front of those that it is level with.
  level_with-insert_sorted :
      (p x : A) (xs : List A)
      → Good p
      → Good x
      → All Good xs
      → level_with before p (insert_sorted before x xs) ≡ level_with before p (x ∷ xs)
  unfolding insert_sorted level_with
  level_with-insert_sorted p x [] p_good x_good good = refl
  level_with-insert_sorted p x (y ∷ ys) p_good x_good good =
      let ih = level_with-insert_sorted p x ys p_good x_good good.1 in
      ground (arith, ih, split y p x good.0 p_good x_good)

  pub level_with-stable_sort :
      (p : A) (xs : List A)
      → Good p
      → All Good xs
      → level_with before p (stable_sort before xs) ≡ level_with before p xs
  unfolding stable_sort level_with
  level_with-stable_sort p [] p_good good = refl
  level_with-stable_sort p (x ∷ xs) p_good good =
      let sorted = stable_sort before xs in
      let step =
        level_with-insert_sorted p x sorted p_good good.0 (All-stable_sort before Good xs good.1) in
      let ih = level_with-stable_sort p xs p_good good.1 in ground (arith, step, ih)
