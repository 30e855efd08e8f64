-- ===== src/Storage/Record/Bitmap.antt =====
-- The null bitmap of storage/record.cpp, bit by bit.
use database_engine.Base.{
  ℕ, zero, suc, ◌*◌, ◌/◌, ◌%◌, ◌^◌, ◌<◌, ◌≡◌, refl, ap, Bool, true, false, not, ◌&&◌, List, [], ◌∷◌,
  ◌++◌, arith, ltb, ◌==◌, if◌then◌else◌, ltb→lt, length, set, get_or, replicate, All, length-set,
}
use Prim.Native.Nat.{bit_and, bit_or, bit_and-bitwise}
use database_engine.Storage.Record.{set_null_bit, null_bit}

passes : (ℕ → Bool) → ℕ → Bool
passes test zero = true
passes test (suc k) = if test k then passes test k else false

passes_sound : (test : ℕ → Bool) (k j : ℕ) → j < k → passes test k ≡ true → test j ≡ true
unfolding passes
passes_sound test zero j below all = absurd (omega arith)
passes_sound test (suc k) j below all = ground (arith, passes_sound test k j)

abbrev pub bit : ℕ → ℕ → Bool
bit b k = not (bit_and b (2 ^ k) == 0)

abbrev same : Bool → Bool → Bool
same true b = b
same false b = not b

same→eq : (a b : Bool) → same a b ≡ true → a ≡ b
same→eq a b h = ground arith

&&-parts : (a b : Bool) → a && b ≡ true → (a ≡ true) × (b ≡ true)
&&-parts a b h = ground arith

-- Every byte, and every two of its bits.
or_table :
    passes
      (λ b.
        passes
          (λ k.
            ltb (bit_or b (2 ^ k)) 256
            && passes (λ j. same (bit (bit_or b (2 ^ k)) j) (if j == k then true else bit b j)) 8)
          8)
      256
    ≡ true
unfolding passes
or_table = refl

pub bit_or_facts :
    (b k j : ℕ)
    → b < 256
    → k < 8
    → j < 8
    → (bit_or b (2 ^ k) < 256) × (bit (bit_or b (2 ^ k)) j ≡ (if j == k then true else bit b j))
bit_or_facts b k j hb hk hj =
    let row = passes_sound _ 8 k hk (passes_sound _ 256 b hb or_table) in
    let (fits, bits) = &&-parts _ _ row in
    (ltb→lt _ 256 fits, same→eq _ _ (passes_sound _ 8 j hj bits))

abbrev pub IsByte : ℕ → Type 0
IsByte b = b < 256

All-get_or : (xs : List ℕ) (i : ℕ) → All IsByte xs → IsByte (get_or xs i 0)
All-get_or [] i h = omega arith
All-get_or (x ∷ xs) zero h = h.0
All-get_or (x ∷ xs) (suc i) h = All-get_or xs i h.1

All-set : (xs : List ℕ) (i b : ℕ) → All IsByte xs → IsByte b → All IsByte (set xs i b)
All-set [] i b h hb = tt
All-set (x ∷ xs) zero b h hb = (hb, h.1)
All-set (x ∷ xs) (suc i) b h hb = (h.0, All-set xs i b h.1 hb)

get_or-set :
    (xs : List ℕ) (i j b : ℕ)
    → i < length xs
    → get_or (set xs i b) j 0 ≡ (if i == j then b else get_or xs j 0)
get_or-set [] i j b h = elim h [ ]
get_or-set (x ∷ xs) zero zero b h = refl
get_or-set (x ∷ xs) zero (suc j) b h = ground arith
get_or-set (x ∷ xs) (suc i) zero b h = ground arith
get_or-set (x ∷ xs) (suc i) (suc j) b h = ground (arith, get_or-set xs i j b)

get_or-append : (xs ys : List ℕ) (i : ℕ) → i < length xs → get_or (xs ++ ys) i 0 ≡ get_or xs i 0
get_or-append [] ys i h = elim h [ ]
get_or-append (x ∷ xs) ys zero h = refl
get_or-append (x ∷ xs) ys (suc i) h = get_or-append xs ys i (omega arith)

set-append : (xs ys : List ℕ) (i b : ℕ) → i < length xs → set (xs ++ ys) i b ≡ set xs i b ++ ys
set-append [] ys i b h = elim h [ ]
set-append (x ∷ xs) ys zero b h = refl
set-append (x ∷ xs) ys (suc i) b h = ap (◌∷◌ x) (set-append xs ys i b (omega arith))

-- Bit `i` of the bitmap is set, and no other bit changes.
pub null_bit-set_null_bit :
    (bm : List ℕ) (i j : ℕ)
    → All IsByte bm
    → i < 8 * length bm
    → null_bit (set_null_bit bm i) j ≡ (if i == j then true else null_bit bm j)
unfolding null_bit set_null_bit
null_bit-set_null_bit bm i j h lt =
    let b = get_or bm (i / 8) 0 in
    rw (get_or-set bm (i / 8) (j / 8) (bit_or b (2 ^ (i % 8))) (omega arith)) (
      ground (
        arith,
        (bit_or_facts b (i % 8) (j % 8) (All-get_or bm (i / 8) h) (omega arith) (omega arith)).1,
      ))

pub length-set_null_bit : (bm : List ℕ) (i : ℕ) → length (set_null_bit bm i) ≡ length bm
unfolding set_null_bit
length-set_null_bit bm i = length-set bm (i / 8) _

pub All-set_null_bit : (bm : List ℕ) (i : ℕ) → All IsByte bm → All IsByte (set_null_bit bm i)
unfolding set_null_bit
All-set_null_bit bm i h =
    All-set bm (i / 8) _ h
      (bit_or_facts _ (i % 8) 0 (All-get_or bm (i / 8) h) (omega arith) (omega arith)).0

-- The bytes behind the bitmap do not matter to it.
pub set_null_bit-append :
    (bm rest : List ℕ) (i : ℕ)
    → i < 8 * length bm
    → set_null_bit (bm ++ rest) i ≡ set_null_bit bm i ++ rest
unfolding set_null_bit
set_null_bit-append bm rest i lt =
    rw (get_or-append bm rest (i / 8) (omega arith)) (set-append bm rest (i / 8) _ (omega arith))

pub null_bit-append :
    (bm rest : List ℕ) (i : ℕ) → i < 8 * length bm → null_bit (bm ++ rest) i ≡ null_bit bm i
unfolding null_bit
null_bit-append bm rest i lt = rw (get_or-append bm rest (i / 8) (omega arith))

get_or-replicate : (n i : ℕ) → get_or {A = ℕ} (replicate n 0) i 0 ≡ 0
get_or-replicate zero i = refl
get_or-replicate (suc n) zero = refl
get_or-replicate (suc n) (suc i) = get_or-replicate n i

zero-bit_and : (b : ℕ) → bit_and 0 b ≡ 0
zero-bit_and b = bit_and-bitwise 0 b

pub All-replicate : (n : ℕ) → All IsByte (replicate n 0)
All-replicate zero = tt
All-replicate (suc n) = (omega arith, All-replicate n)

-- A fresh bitmap has no bit set.
pub null_bit-replicate : (n i : ℕ) → null_bit (replicate n 0) i ≡ false
unfolding null_bit
null_bit-replicate n i = rw (get_or-replicate n (i / 8), zero-bit_and (2 ^ (i % 8))) refl
