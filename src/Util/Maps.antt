-- ===== src/Util/Maps.antt =====
-- `std::unordered_map`, where the code does not walk through it: a function.
use database_engine.Base.{◌≡◌, refl, if◌then◌else◌}
use database_engine.Util.Sets.{Eq}

module _ {ℓ κ} {K : Type ℓ} {V : Type κ} ⦃e : Eq K⦄ where
  unfoldable pub update : (K → V) → K → V → K → V
  update m k v j = if e.eqb k j then v else m j

  pub update_lem :
      (m : K → V) (k : K) (v : V) (j : K) → update m k v j ≡ (if e.eqb k j then v else m j)
  unfolding update
  update_lem m k v j = refl
