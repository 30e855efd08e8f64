-- ===== src/Catalog/Directory/Entries.antt =====
-- The entries of a map of catalog/catalog_manager.cpp, under names that differ: finding one, and erasing and
-- adding one, do not depend on their order.
use mathlib.Core.List.{Permᴰ}
use mathlib.Core.List.Permᴰ
use database_engine.Base.{
  ◌≡◌, refl, sym, ◌∙◌, subst, inl, inr, false, none, some, List, [], ◌∷◌, ◌++◌, arith, Bool-cases,
  All, ℕ,
}
use database_engine.Common.Schema.{same_bytes, same_bytes_iff}
use database_engine.Catalog.Directory.{Kind, find_entry, erase_entry, put_entry}

All-Permᴰ {ℓ κ} : {A : Type ℓ} (P : A → Type κ) {xs ys : List A} → Permᴰ xs ys → All P xs → All P ys
All-Permᴰ P Permᴰ.nil h = h
All-Permᴰ P (Permᴰ.cons e p) (h, k) = (subst P e h, All-Permᴰ P p k)
All-Permᴰ P (Permᴰ.swap e f) (h, (k, rest)) = (subst P f k, (subst P e h, rest))
All-Permᴰ P (Permᴰ.trans p q) h = All-Permᴰ P q (All-Permᴰ P p h)

pub All-append {ℓ κ} :
    {A : Type ℓ} (P : A → Type κ) (xs ys : List A) → All P xs → All P ys → All P (xs ++ ys)
All-append P [] ys h k = k
All-append P (x ∷ xs) ys h k = (h.0, All-append P xs ys h.1 k)

All-middle {ℓ κ} :
    {A : Type ℓ} (P : A → Type κ) (xs : List A) (x : A) (ys : List A) → All P (xs ++ (x ∷ ys)) → P x
All-middle P [] x ys h = h.0
All-middle P (z ∷ xs) x ys h = All-middle P xs x ys h.1

same_bytes_sym : (xs ys : List ℕ) → same_bytes xs ys ≡ false → same_bytes ys xs ≡ false
same_bytes_sym xs ys h = elim (Bool-cases (same_bytes ys xs)) [
  | inl same ↦ absurd (cc ((same_bytes_iff xs ys).1 (sym ((same_bytes_iff ys xs).0 same))))
  | inr other ↦ other
]

module _ (kind : Kind) where
  abbrev pub Absent : List ℕ → List kind.Meta → Type 0
  Absent name ms = All (λ m. same_bytes (kind.name_of m) name ≡ false) ms

  abbrev pub Distinct : List kind.Meta → Type 0
  Distinct [] = Unit
  Distinct (m ∷ ms) = Absent (kind.name_of m) ms × Distinct ms

  pub Distinct-Permᴰ : {xs ys : List kind.Meta} → Permᴰ xs ys → Distinct xs → Distinct ys
  Distinct-Permᴰ Permᴰ.nil h = h
  Distinct-Permᴰ (Permᴰ.cons {l₂} e p) (h, k) =
      (subst (λ x. Absent (kind.name_of x) l₂) e (All-Permᴰ _ p h), Distinct-Permᴰ p k)
  Distinct-Permᴰ (Permᴰ.swap {a} {b} {b'} {l} e f) ((ab, al), (bl, rest)) =
      let turned : Distinct (b ∷ (a ∷ l)) =
        ((same_bytes_sym (kind.name_of b) (kind.name_of a) ab, bl), (al, rest)) in
      subst (λ x. Distinct (x ∷ (b' ∷ l))) f (subst (λ x. Distinct (b ∷ (x ∷ l))) e turned)
  Distinct-Permᴰ (Permᴰ.trans p q) h = Distinct-Permᴰ q (Distinct-Permᴰ p h)

  find_entry-two :
      (name : List ℕ) (a b : kind.Meta) (l : List kind.Meta)
      → same_bytes (kind.name_of b) (kind.name_of a) ≡ false
      → find_entry kind name (a ∷ b ∷ l) ≡ find_entry kind name (b ∷ a ∷ l)
  unfolding find_entry
  find_entry-two name a b l differ = ground (
    arith,
    same_bytes_iff (kind.name_of a) name,
    same_bytes_iff (kind.name_of b) name,
    same_bytes_iff (kind.name_of b) (kind.name_of a),
  )

  -- Entries in another order are found alike.
  pub find_entry-Permᴰ :
      (name : List ℕ) {xs ys : List kind.Meta}
      → Permᴰ xs ys
      → Distinct xs
      → find_entry kind name xs ≡ find_entry kind name ys
  unfolding find_entry
  find_entry-Permᴰ name Permᴰ.nil h = refl
  find_entry-Permᴰ name (Permᴰ.cons e p) (h, k) = rw (e, find_entry-Permᴰ name p k) refl
  find_entry-Permᴰ name (Permᴰ.swap {a} {b} {a'} {b'} {l} e f) ((ab, al), k) =
      rw (sym e, sym f) (find_entry-two name a b l ab)
  find_entry-Permᴰ name (Permᴰ.trans p q) h =
      find_entry-Permᴰ name p h ∙ find_entry-Permᴰ name q (Distinct-Permᴰ p h)

  pub find_entry-none :
      (name : List ℕ) (ms : List kind.Meta) → find_entry kind name ms ≡ none → Absent name ms
  unfolding find_entry
  find_entry-none name [] h = tt
  find_entry-none name (m ∷ ms) h = elim (Bool-cases (same_bytes (kind.name_of m) name)) [
    | inl same ↦ absurd (ground arith)
    | inr other ↦ (other, find_entry-none name ms (rw other at h))
  ]

  pub put_entry-Absent :
      (m : kind.Meta) (ms : List kind.Meta)
      → Absent (kind.name_of m) ms
      → put_entry kind m ms ≡ ms ++ (m ∷ [])
  unfolding put_entry
  put_entry-Absent m [] h = refl
  put_entry-Absent m (x ∷ xs) h = rw (h.0, put_entry-Absent m xs h.1) refl

  -- An erased entry is one that was found.
  pub erase_entry-Permᴰ :
      (name : List ℕ) (ms : List kind.Meta) (m : kind.Meta)
      → find_entry kind name ms ≡ some m
      → Permᴰ ms (m ∷ erase_entry kind name ms)
  unfolding find_entry erase_entry
  erase_entry-Permᴰ name [] m h = absurd (cc h)
  erase_entry-Permᴰ name (x ∷ xs) m h = elim (Bool-cases (same_bytes (kind.name_of x) name)) [
    | inl same ↦ rw same (Permᴰ.cons (ground arith) (Permᴰ.refl xs))
    | inr other ↦ rw other (
        Permᴰ.trans (Permᴰ.cons refl (erase_entry-Permᴰ name xs m (rw other at h)))
          (Permᴰ.swap refl refl))
  ]

  -- Of two entries in a list neither has the other's name.
  pub Distinct-middle :
      (ms : List kind.Meta) (m : kind.Meta) (rest : List kind.Meta)
      → Distinct (ms ++ (m ∷ rest))
      → Absent (kind.name_of m) ms
  Distinct-middle [] m rest h = tt
  Distinct-middle (x ∷ xs) m rest (h, k) = (
    same_bytes_sym (kind.name_of m) (kind.name_of x) (All-middle _ xs m rest h),
    Distinct-middle xs m rest k,
  )

  pub Distinct-append :
      (ms : List kind.Meta) (m : kind.Meta)
      → Distinct ms
      → Absent (kind.name_of m) ms
      → Distinct (ms ++ (m ∷ []))
  Distinct-append [] m h k = (tt, tt)
  Distinct-append (x ∷ xs) m (h, rest) (k, others) = (
    All-append _ xs (m ∷ []) h (same_bytes_sym (kind.name_of x) (kind.name_of m) k, tt),
    Distinct-append xs m rest others,
  )
