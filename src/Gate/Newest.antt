-- ===== src/Gate/Newest.antt =====
-- The newest of the versions before the one that is to be fetched.
use linux_iso_seeder.Base.{
  ◌≡◌, refl, sym, subst, Bool, true, false, ◌&&◌, ◌||◌, ◌⊎◌, inl, inr, Option, none, some, List, [],
  ◌∷◌, arith, if◌then◌else◌, Bool-cases,
}
use linux_iso_seeder.Names.Version.{
  Version, same_version, less_version, same_version_iff, same_version_refl, less_version_irrefl,
  less_version_trans, less_version_asymm, same_version→eq, less_version_connex,
}
use linux_iso_seeder.Gate.{get_version, versions_before, max_version}

abbrev pub elem : Version → List Version → Bool
elem v [] = false
elem v (w ∷ ws) = same_version w v || elem v ws

abbrev pub is_some {ℓ} : {A : Type ℓ} → Option A → Bool
is_some none = false
is_some (some a) = true

pub elem-versions_before :
    {R : Type 0} (version v : Version) (d : List (Version × R))
    → elem v (versions_before version d) ≡ (is_some (get_version d v) && less_version v version)
unfolding versions_before get_version
elem-versions_before version v [] = refl
elem-versions_before version v ((w, r) ∷ d) =
    ground (arith, same_version_iff w v, elem-versions_before version v d)

max_version-nil : (v : Version) → max_version v [] ≡ v
unfolding max_version
max_version-nil v = refl

max_version-step :
    (v w : Version) (ws : List Version)
    → max_version v (w ∷ ws) ≡ max_version (if less_version v w then w else v) ws
unfolding max_version
max_version-step v w ws = refl

-- The choice of the loop is one of the two, and neither is above it.
choice :
    (v w : Version)
    → let c = if less_version v w then w else v in
      ((c ≡ v) ⊎ (c ≡ w)) × (less_version c v ≡ false) × (less_version c w ≡ false)
choice v w = elim (Bool-cases (less_version v w)) [
  | inl later ↦ rw later (inr refl, less_version_asymm v w later, less_version_irrefl w)
  | inr not_later ↦ rw not_later (inl refl, less_version_irrefl v, not_later)
]

pub elem-max_version : (v : Version) (vs : List Version) → elem (max_version v vs) (v ∷ vs) ≡ true
elem-max_version v [] = rw max_version-nil (rw (same_version_refl v))
elem-max_version v (w ∷ ws) =
    let c : Version = if less_version v w then w else v in
    subst (λ m. elem m (v ∷ w ∷ ws) ≡ true) (sym (max_version-step v w ws))
      (ground (arith, elem-max_version c ws, choice v w))

-- If `m` is not below `c`, and `c` is not below `v`, then `m` is not below `v`.
pub not_less_trans :
    (m c v : Version)
    → less_version m c ≡ false
    → less_version c v ≡ false
    → less_version m v ≡ false
not_less_trans m c v h k = elim (Bool-cases (less_version m v)) [
  | inr done ↦ done
  | inl below ↦ elim (Bool-cases (less_version v c)) [
    | inl above ↦ absurd (cc (less_version_trans m v c below above))
    | inr level ↦ rw (← less_version_connex c v k level) h
  ]
]

-- `max` is not below its first argument, nor below any of the list.
pub max_version_bound :
    (u v : Version) (vs : List Version)
    → elem u (v ∷ vs) ≡ true
    → less_version (max_version v vs) u ≡ false
max_version_bound u v [] h =
    rw max_version-nil (rw (same_version→eq v u (ground arith)) (less_version_irrefl u))
max_version_bound u v (w ∷ ws) h =
    let c : Version = if less_version v w then w else v in
    let m : Version = max_version c ws in
    let at_choice : less_version m c ≡ false =
      max_version_bound c c ws (rw (same_version_refl c)) in
    let (_, at_v, at_w) = choice v w in
    rw max_version-step (
      ground (
        arith,
        same_version_iff v u,
        same_version_iff w u,
        not_less_trans m c v at_choice at_v,
        not_less_trans m c w at_choice at_w,
        max_version_bound u c ws,
      ))
