-- ===== src/Util/Bytes.antt =====
-- utilities/bytes.hpp, and `memcpy` of a run of bytes. Memory is a function from the address to the
-- byte; that accesses stay inside an array is proved where the array is used. `sizeof(T)` is the
-- first argument of `write_fixed` and `read_fixed`, and a value is its bit pattern, below 256 ^ n,
-- stored with the lowest byte first, as on a little-endian host.
use database_engine.Base.{
  ℕ, zero, suc, ◌+◌, ◌*◌, ◌/◌, ◌%◌, ◌^◌, ◌≤◌, ◌<◌, ◌≡◌, refl, ap, ◌⊎◌, inl, List, [], ◌∷◌, ◌++◌,
  append_assoc, arith, ◌==◌, if◌then◌else◌, length, get_or, length-append,
}
use native.Mathlib.Nat.{pow-suc}

abbrev pub Memory : Type 0
Memory = ℕ → ℕ

pub put : Memory → ℕ → ℕ → Memory
put m at b i = if i == at then b else m i

put_self : (m : Memory) (at b : ℕ) → put m at b at ≡ b
unfolding put
put_self m at b = ground arith

unfoldable pub write_fixed : ℕ → Memory → ℕ → ℕ → Memory
unfolding put
write_fixed zero m at v = m
write_fixed (suc n) m at v = write_fixed n (put m at (v % 256)) (at + 1) (v / 256)

unfoldable pub read_fixed : ℕ → Memory → ℕ → ℕ
read_fixed zero m at = 0
read_fixed (suc n) m at = m at + 256 * read_fixed n m (at + 1)

-- memcpy(m + at, bytes, n)
unfoldable pub write_bytes : Memory → ℕ → List ℕ → Memory
unfolding put
write_bytes m at [] = m
write_bytes m at (b ∷ bs) = write_bytes (put m at b) (at + 1) bs

-- std::string(m + at, n)
unfoldable pub read_bytes : ℕ → Memory → ℕ → List ℕ
read_bytes zero m at = []
read_bytes (suc n) m at = m at ∷ read_bytes n m (at + 1)

pub length-read_bytes : (n : ℕ) (m : Memory) (at : ℕ) → length (read_bytes n m at) ≡ n
unfolding read_bytes
length-read_bytes zero m at = refl
length-read_bytes (suc n) m at = omega (arith, length-read_bytes n m (at + 1))

abbrev pub Apart : ℕ → ℕ → ℕ → ℕ → Type 0
Apart a n b k = (a + n ≤ b) ⊎ (b + k ≤ a)

pub write_fixed-outside :
    (n : ℕ) (m : Memory) (at v i : ℕ) → Apart i 1 at n → write_fixed n m at v i ≡ m i
unfolding write_fixed
write_fixed-outside zero m at v i h = refl
write_fixed-outside (suc n) m at v i h =
    ground (arith, write_fixed-outside n (put m at (v % 256)) (at + 1) (v / 256) i)

pub write_bytes-outside :
    (m : Memory) (at : ℕ) (bs : List ℕ) (i : ℕ)
    → Apart i 1 at (length bs)
    → write_bytes m at bs i ≡ m i
unfolding write_bytes
write_bytes-outside m at [] i h = refl
write_bytes-outside m at (b ∷ bs) i h =
    ground (arith, write_bytes-outside (put m at b) (at + 1) bs i)

pub read_fixed-cong :
    (n : ℕ) (m k : Memory) (at : ℕ)
    → ((i : ℕ) → at ≤ i → i < at + n → m i ≡ k i)
    → read_fixed n m at ≡ read_fixed n k at
unfolding read_fixed
read_fixed-cong zero m k at h = refl
read_fixed-cong (suc n) m k at h = omega (
  arith,
  h at (omega arith) (omega arith),
  read_fixed-cong n m k (at + 1) (λ i p q. h i (omega arith) (omega arith)),
)

pub read_bytes-cong :
    (n : ℕ) (m k : Memory) (at : ℕ)
    → ((i : ℕ) → at ≤ i → i < at + n → m i ≡ k i)
    → read_bytes n m at ≡ read_bytes n k at
unfolding read_bytes
read_bytes-cong zero m k at h = refl
read_bytes-cong (suc n) m k at h = cc (
  h at (omega arith) (omega arith),
  read_bytes-cong n m k (at + 1) (λ i p q. h i (omega arith) (omega arith)),
)

-- A fixed-width value is read back as it was written.
pub read_fixed-write_fixed :
    (n : ℕ) (m : Memory) (at v : ℕ) → v < 256 ^ n → read_fixed n (write_fixed n m at v) at ≡ v
unfolding read_fixed write_fixed
read_fixed-write_fixed zero m at v h = omega arith
read_fixed-write_fixed (suc n) m at v h = omega (
  arith,
  write_fixed-outside n (put m at (v % 256)) (at + 1) (v / 256) at (inl (omega arith)),
  put_self m at (v % 256),
  read_fixed-write_fixed n (put m at (v % 256)) (at + 1) (v / 256)
      (omega (arith, ap (λ (t : ℕ). t) (pow-suc 256 n))),
)

-- So is a run of bytes.
pub read_bytes-write_bytes :
    (m : Memory) (at : ℕ) (bs : List ℕ) → read_bytes (length bs) (write_bytes m at bs) at ≡ bs
unfolding read_bytes write_bytes
read_bytes-write_bytes m at [] = refl
read_bytes-write_bytes m at (b ∷ bs) = cc (
  write_bytes-outside (put m at b) (at + 1) bs at (inl (omega arith)),
  put_self m at b,
  read_bytes-write_bytes (put m at b) (at + 1) bs,
)

-- A read apart from a write sees the memory as it was before.
module _ (n k : ℕ) (m : Memory) (at b v : ℕ) where
  pub read_fixed-write_fixed-Apart :
      Apart at n b k → read_fixed n (write_fixed k m b v) at ≡ read_fixed n m at
  read_fixed-write_fixed-Apart h =
      read_fixed-cong n _ m at (λ i p q. write_fixed-outside k m b v i (ground (arith, h)))

  pub read_bytes-write_fixed-Apart :
      Apart at n b k → read_bytes n (write_fixed k m b v) at ≡ read_bytes n m at
  read_bytes-write_fixed-Apart h =
      read_bytes-cong n _ m at (λ i p q. write_fixed-outside k m b v i (ground (arith, h)))

module _ (n : ℕ) (m : Memory) (at b : ℕ) (bs : List ℕ) where
  pub read_fixed-write_bytes-Apart :
      Apart at n b (length bs) → read_fixed n (write_bytes m b bs) at ≡ read_fixed n m at
  read_fixed-write_bytes-Apart h =
      read_fixed-cong n _ m at (λ i p q. write_bytes-outside m b bs i (ground (arith, h)))

  pub read_bytes-write_bytes-Apart :
      Apart at n b (length bs) → read_bytes n (write_bytes m b bs) at ≡ read_bytes n m at
  read_bytes-write_bytes-Apart h =
      read_bytes-cong n _ m at (λ i p q. write_bytes-outside m b bs i (ground (arith, h)))

-- `char buf[n]; WriteFixed(buf, v);` and the bytes of `buf`.
unfoldable pub fixed_bytes : ℕ → ℕ → List ℕ
fixed_bytes zero v = []
fixed_bytes (suc n) v = v % 256 ∷ fixed_bytes n (v / 256)

-- The bytes of `write_fixed`, wherever it writes.
pub read_bytes-write_fixed :
    (n : ℕ) (m : Memory) (at v : ℕ) → read_bytes n (write_fixed n m at v) at ≡ fixed_bytes n v
unfolding read_bytes write_fixed fixed_bytes
read_bytes-write_fixed zero m at v = refl
read_bytes-write_fixed (suc n) m at v = cc (
  write_fixed-outside n (put m at (v % 256)) (at + 1) (v / 256) at (inl (omega arith)),
  put_self m at (v % 256),
  read_bytes-write_fixed n (put m at (v % 256)) (at + 1) (v / 256),
)

pub length-fixed_bytes : (n v : ℕ) → length (fixed_bytes n v) ≡ n
unfolding fixed_bytes
length-fixed_bytes zero v = refl
length-fixed_bytes (suc n) v = ap suc (length-fixed_bytes n (v / 256))

-- `bytes.data()`. Bytes past the end are read as 0.
unfoldable pub data_of : List ℕ → Memory
data_of bytes i = get_or bytes i 0

pub data_of-append : (xs : List ℕ) (b : ℕ) (ys : List ℕ) → data_of (xs ++ b ∷ ys) (length xs) ≡ b
unfolding data_of
data_of-append [] b ys = refl
data_of-append (x ∷ xs) b ys = data_of-append xs b ys

-- What was appended to a buffer is read back at the place where it begins.
pub read_fixed-data_of :
    (n v : ℕ) (front rest : List ℕ)
    → v < 256 ^ n
    → read_fixed n (data_of (front ++ (fixed_bytes n v ++ rest))) (length front) ≡ v
unfolding read_fixed fixed_bytes
read_fixed-data_of zero v front rest h = omega arith
read_fixed-data_of (suc n) v front rest h =
    let b : ℕ = v % 256 in
    let ih =
      read_fixed-data_of n (v / 256) (front ++ b ∷ []) rest
        (omega (arith, ap (λ (t : ℕ). t) (pow-suc 256 n))) in
    omega (
      arith,
      data_of-append front b (fixed_bytes n (v / 256) ++ rest),
      rw (append_assoc, length-append) at ih,
    )

pub read_bytes-data_of :
    (bytes front rest : List ℕ)
    → read_bytes (length bytes) (data_of (front ++ (bytes ++ rest))) (length front) ≡ bytes
unfolding read_bytes
read_bytes-data_of [] front rest = refl
read_bytes-data_of (b ∷ bytes) front rest = cc (
  data_of-append front b (bytes ++ rest),
  rw (append_assoc, length-append) at (read_bytes-data_of bytes (front ++ b ∷ []) rest),
)
