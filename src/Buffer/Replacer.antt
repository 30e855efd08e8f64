-- ===== src/Buffer/Replacer.antt =====
-- buffer/Iru_replacer.hpp: the frames that may be evicted, the one unpinned last in front. `position_`
-- says where in `lru_list_` a frame stands, so the list alone is the state; `capacity_` is never read.
use database_engine.Base.{
  ℕ, ◌≡◌, refl, ap, ◌∙◌, ◌⊎◌, inl, inr, true, false, Option, none, some, List, [], ◌∷◌, arith, ◌==◌,
  if◌then◌else◌, Bool-cases, length,
}
use database_engine.Util.Sets.{contains, erase, nat_eq, contains-erase}

abbrev pub LruReplacer : Type 0
LruReplacer = List ℕ

unfoldable pub unpin : LruReplacer → ℕ → LruReplacer
unpin lru frame_id = if contains lru frame_id then lru else frame_id ∷ lru

unfoldable pub pin : LruReplacer → ℕ → LruReplacer
pin lru frame_id = if contains lru frame_id then erase lru frame_id else lru

-- `Victim`: the last of the list, and the list without it.
unfoldable pub victim : LruReplacer → Option ℕ × LruReplacer
victim [] = (none, [])
victim (frame_id ∷ []) = (some frame_id, [])
victim (frame_id ∷ next ∷ lru) = let (found, left) = victim (next ∷ lru) in (found, frame_id ∷ left)

-- No frame stands in the list twice.
unfoldable pub Once : List ℕ → Type 0
Once [] = Unit {0}
Once (x ∷ xs) = (contains xs x ≡ false) × Once xs

pub contains-unpin :
    (lru : LruReplacer) (f g : ℕ)
    → contains (unpin lru f) g ≡ (if f == g then true else contains lru g)
unfolding unpin contains
contains-unpin lru f g = ground arith

pub contains-pin :
    (lru : LruReplacer) (f g : ℕ)
    → contains (pin lru f) g ≡ (if f == g then false else contains lru g)
unfolding pin
contains-pin lru f g = ground (arith, contains-erase lru f g)

pub unpin-Once : (lru : LruReplacer) (f : ℕ) → Once lru → Once (unpin lru f)
unfolding unpin Once
unpin-Once lru f once = ground arith

erase-Once : (lru : LruReplacer) (f : ℕ) → Once lru → Once (erase lru f)
unfolding erase Once
erase-Once [] f once = tt
erase-Once (x ∷ lru) f once = elim (Bool-cases (x == f)) [
  | inl same ↦ rw same (erase-Once lru f once.1)
  | inr other ↦
      rw other (rw (contains-erase lru f x, once.0) (ground arith), erase-Once lru f once.1)
]

pub pin-Once : (lru : LruReplacer) (f : ℕ) → Once lru → Once (pin lru f)
unfolding pin
pin-Once lru f once = ground (arith, erase-Once lru f once)

first_or :
    (x : ℕ) (lru : LruReplacer) (f : ℕ)
    → contains lru f ≡ true
    → (if x == f then true else contains lru f) ≡ true
first_or x lru f there = ground arith

either_way :
    (x f g : ℕ) (lru : LruReplacer)
    → contains lru x ≡ false
    → contains lru f ≡ true
    → (if x == g then true else (if f == g then false else contains lru g))
      ≡ (if f == g then false else (if x == g then true else contains lru g))
either_way x f g lru out there = ground arith

-- A victim was in the list, and is gone from what is left; the other frames stay.
pub victim_lem :
    (lru : LruReplacer)
    → Once lru
    → ((victim lru ≡ (none, [])) × (lru ≡ []))
      ⊎ ((f : ℕ) × ((victim lru).0 ≡ some f)
          × (contains lru f ≡ true)
          × Once (victim lru).1
          × ((g : ℕ) → contains (victim lru).1 g ≡ (if f == g then false else contains lru g)))
unfolding victim contains Once
victim_lem [] once = inl (refl, refl)
victim_lem (x ∷ []) once = inr (x, refl, ground arith, tt, λ g. ground arith)
victim_lem (x ∷ y ∷ lru) once = elim (victim_lem (y ∷ lru) once.1) [
  | inl (e, empty) ↦ absurd (omega (arith, ap length empty))
  | inr (f, found, there, left, rest) ↦ inr (
    f,
    found,
    first_or x (y ∷ lru) f there,
    (rest x ∙ rw once.0 (ground arith), left),
    λ g. rw (rest g) (either_way x f g (y ∷ lru) once.0 there),
  )
]
