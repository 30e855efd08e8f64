-- ===== src/Util/Status.antt =====
-- utilities/status.hpp. A `Status` that is not ok is its code; the message text is left out, since
-- no code under src/ tests it. A `Result<T>` holds a value exactly when its status is ok.
use database_engine.Base.{◌≡◌, refl, ◌⊎◌, inl, inr, Bool, true, false}

pub data Code : Type 0 where
  not_found invalid_argument out_of_space io_error corruption already_exists conflict : Code

pub data Result {ℓ} (V : Type ℓ) : Type ℓ where
  err : Code → Result V
  ok : V → Result V

-- A `Status` is a `Result` without a value.
abbrev pub Status : Type 0
Status = Result (Unit {0})

-- The early return of `if (!r.ok()) return r.status();`.
infixl 5 ◌>>=◌ ◌>>◌
abbrev pub ◌>>=◌ {κ ℓ} : {V : Type κ} {W : Type ℓ} → Result V → (V → Result W) → Result W
err code >>= next = err code
ok v >>= next = next v

abbrev pub ◌>>◌ {ℓ} : {W : Type ℓ} → Status → Result W → Result W
err code >> next = err code
ok _ >> next = next

abbrev pub guard : Bool → Code → Status
guard true code = ok tt
guard false code = err code

-- `.status()` of a `Result`.
abbrev pub status {ℓ} : {V : Type ℓ} → Result V → Status
status (ok v) = ok tt
status (err code) = err code

-- To split on a result and keep the equation.
pub Result-cases {ℓ} :
    {V : Type ℓ} (r : Result V) → ((v : V) × (r ≡ ok v)) ⊎ ((c : Code) × (r ≡ err c))
Result-cases (ok v) = inl (v, refl)
Result-cases (err c) = inr (c, refl)

-- A chain that is ok passed its first step.
pub >>=-ok_parts {κ ℓ} :
    {V : Type κ} {W : Type ℓ} (next : V → Result W) (r : Result V) {w : W}
    → (r >>= next) ≡ ok w
    → (v : V) × (next v ≡ ok w) × (r ≡ ok v)
>>=-ok_parts next (ok v) passed = (v, passed, refl)
>>=-ok_parts next (err code) passed = cc

pub >>=-ok_ok {κ ℓ μ} :
    {U : Type κ} {V : Type ℓ} {W : Type μ} (r : Result U) (f : U → V) (g : V → W)
    → ((r >>= λ u. ok (f u)) >>= λ v. ok (g v)) ≡ (r >>= λ u. ok (g (f u)))
>>=-ok_ok (ok u) f g = refl
>>=-ok_ok (err code) f g = refl

pub >>=-ok {ℓ} : {V : Type ℓ} (r : Result V) → (r >>= λ v. ok v) ≡ r
>>=-ok (ok v) = refl
>>=-ok (err code) = refl
