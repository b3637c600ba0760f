-- ===== src/Base/Dict.antt =====
-- A Python dict: an association list in insertion order. An assignment to a key that is there
-- changes its value in place.
use mathlib.Core.Path.{◌≡◌, refl}
use mathlib.Core.Bool.{Bool, true, false, ◌||◌}
use mathlib.Core.List.{List, [], ◌∷◌}
use mathlib.Core.Option.{Option, none, some}
use native.Mathlib.Omega.{arith}
use linux_iso_seeder.Base.Tests.{if◌then◌else◌}
use linux_iso_seeder.Base.Text.{Text, same, same_iff, same_refl}

abbrev pub Dict {ℓ} : Type ℓ → Type ℓ
Dict V = List (Text × V)

module _ {ℓ} {V : Type ℓ} where
  unfoldable pub get : Dict V → Text → Option V
  get [] k = none
  get ((j, v) ∷ d) k = if same j k then some v else get d k

  unfoldable pub put : Dict V → Text → V → Dict V
  put [] k v = (k, v) ∷ []
  put ((j, w) ∷ d) k v = if same j k then (j, v) ∷ d else (j, w) ∷ put d k v

  unfoldable pub has : Dict V → Text → Bool
  has [] k = false
  has ((j, v) ∷ d) k = same j k || has d k

  unfoldable pub del : Dict V → Text → Dict V
  del [] k = []
  del ((j, w) ∷ d) k = let rest = del d k in if same j k then rest else (j, w) ∷ rest

  pub get-put :
      (d : Dict V) (k j : Text) (v : V) → get (put d k v) j ≡ (if same k j then some v else get d j)
  unfolding get put
  get-put [] k j v = refl
  get-put ((i, w) ∷ d) k j v =
      ground (arith, same_iff k j, same_iff i k, same_iff i j, get-put d k j v)

  pub get-put_self : (d : Dict V) (k : Text) (v : V) → get (put d k v) k ≡ some v
  get-put_self d k v = simp (get-put, same_refl)

  pub has-put : (d : Dict V) (k j : Text) (v : V) → has (put d k v) j ≡ (same k j || has d j)
  unfolding has put
  has-put [] k j v = refl
  has-put ((i, w) ∷ d) k j v =
      ground (arith, same_iff k j, same_iff i k, same_iff i j, has-put d k j v)

  pub get-del : (d : Dict V) (k j : Text) → get (del d k) j ≡ (if same k j then none else get d j)
  unfolding get del
  get-del [] k j = ground arith
  get-del ((i, w) ∷ d) k j = ground (arith, same_iff k j, same_iff i k, same_iff i j, get-del d k j)

  abbrev pub is_some : Option V → Bool
  is_some none = false
  is_some (some v) = true

  -- A key is there exactly when it has a value.
  pub has-eq : (d : Dict V) (k : Text) → has d k ≡ is_some (get d k)
  unfolding get has
  has-eq [] k = refl
  has-eq ((i, w) ∷ d) k = ground (arith, has-eq d k)
