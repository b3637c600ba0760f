-- ===== src/Cleanup/Plans/Chosen.antt =====
-- `plan_cleanup` and `plan_stagnation_cleanup` divide the candidates: each is removed or kept, for
-- the reason that the code names.
use linux_iso_seeder.Base.{
  ◌≡◌, refl, Bool, true, false, ◌⊎◌, inl, inr, Option, none, some, List, [], ◌∷◌, ◌++◌, map,
  if◌then◌else◌, ok, >>=-eq-ok, ok_injective, All, subst,
}
use mathlib.Core.List.{Perm, perm_middle}
use mathlib.Core.List.Perm
use linux_iso_seeder.Base.Int.{ℤ}
use linux_iso_seeder.Base.Float.{Float}
use linux_iso_seeder.Dates.{Date}
use linux_iso_seeder.Cleanup.Groups.{Torrent, ratio_of, old_version_candidates}
use linux_iso_seeder.Cleanup.History.{History, samples_of, stagnation_anchor}
use linux_iso_seeder.Cleanup.Plans.{
  Split, remove_first, keep_first, split_by_ratio, plan_cleanup, judge, split_by_growth,
  plan_stagnation_cleanup,
}

module _ (fl : Float) where
  open fl use {F, lt, minus}

  abbrev pub all_of : {K : Type 0} → Split fl K → List (Torrent F)
  all_of (removed, kept) = removed ++ map (λ p. p.0) kept

  -- A plan of the torrents `ts`, by what holds of those it removes and of those it keeps.
  abbrev pub IsPlan :
      {K : Type 0}
      → (Torrent F → Type 0)
      → (Torrent F → K → Type 0)
      → List (Torrent F)
      → Split fl K
      → Type 0
  IsPlan Removes Keeps ts plan =
      Perm (all_of plan) ts × All Removes plan.0 × All (λ p. Keeps p.0 p.1) plan.1

  IsPlan-remove_first :
      {K : Type 0} (Removes : Torrent F → Type 0) (Keeps : Torrent F → K → Type 0) (t : Torrent F)
      (ts : List (Torrent F)) (plan : Split fl K)
      → Removes t
      → IsPlan Removes Keeps ts plan
      → IsPlan Removes Keeps (t ∷ ts) (remove_first fl t plan)
  IsPlan-remove_first Removes Keeps t ts (removed, kept) now (perm, removes, keeps) =
      (Perm.cons t perm, (now, removes), keeps)

  IsPlan-keep_first :
      {K : Type 0} (Removes : Torrent F → Type 0) (Keeps : Torrent F → K → Type 0) (t : Torrent F)
      (k : K) (ts : List (Torrent F)) (plan : Split fl K)
      → Keeps t k
      → IsPlan Removes Keeps ts plan
      → IsPlan Removes Keeps (t ∷ ts) (keep_first fl t k plan)
  IsPlan-keep_first Removes Keeps t k ts (removed, kept) now (perm, removes, keeps) = (
    Perm.trans (perm_middle removed (map (λ p. p.0) kept)) (Perm.cons t perm),
    removes,
    (now, keeps),
  )

  -- What `plan_cleanup` removes has the ratio, unless ratios are not looked at.
  abbrev pub IsSeeded : Bool → F → Torrent F → Type 0
  IsSeeded skip_ratio_check min_ratio t =
      (skip_ratio_check ≡ true) ⊎ (lt (ratio_of fl t) min_ratio ≡ false)

  abbrev pub IsUnseeded : Bool → F → Torrent F → F → Type 0
  IsUnseeded skip_ratio_check min_ratio t ratio =
      (skip_ratio_check ≡ false) × (lt (ratio_of fl t) min_ratio ≡ true) × (ratio ≡ ratio_of fl t)

  split_by_ratio-IsPlan :
      (skip : Bool) (min_ratio : F) (ts : List (Torrent F))
      → IsPlan
          (IsSeeded skip min_ratio)
          (IsUnseeded skip min_ratio)
          ts
          (split_by_ratio fl skip min_ratio ts)
  unfolding split_by_ratio
  split_by_ratio-IsPlan skip min_ratio [] = (Perm.nil, tt, tt)
  split_by_ratio-IsPlan true min_ratio (t ∷ ts) =
      IsPlan-remove_first (IsSeeded true min_ratio) (IsUnseeded true min_ratio) t ts _ (inl refl)
        (split_by_ratio-IsPlan true min_ratio ts)
  split_by_ratio-IsPlan false min_ratio (t ∷ ts) =
      by_ratio (lt (ratio_of fl t) min_ratio) refl (split_by_ratio-IsPlan false min_ratio ts)
    where
      by_ratio :
          (low : Bool)
          → lt (ratio_of fl t) min_ratio ≡ low
          → IsPlan
              (IsSeeded false min_ratio)
              (IsUnseeded false min_ratio)
              ts
              (split_by_ratio fl false min_ratio ts)
          → IsPlan (IsSeeded false min_ratio) (IsUnseeded false min_ratio) (t ∷ ts) (
              if low
              then keep_first fl t (ratio_of fl t) (split_by_ratio fl false min_ratio ts)
              else remove_first fl t (split_by_ratio fl false min_ratio ts))
      by_ratio true e plan =
          IsPlan-keep_first (IsSeeded false min_ratio) (IsUnseeded false min_ratio) t _ ts _
            (refl, e, refl) plan
      by_ratio false e plan =
          IsPlan-remove_first (IsSeeded false min_ratio) (IsUnseeded false min_ratio) t ts _ (inr e)
            plan

  -- Each candidate is removed or kept, once. It is removed if ratios are not looked at or it has
  -- the minimal ratio, and is kept with its ratio otherwise.
  pub plan_cleanup-IsPlan :
      (torrents : List (Torrent F)) (skip : Bool) (min_ratio : F)
      → IsPlan
          (IsSeeded skip min_ratio)
          (IsUnseeded skip min_ratio)
          (old_version_candidates fl torrents)
          (plan_cleanup fl torrents skip min_ratio)
  unfolding plan_cleanup
  plan_cleanup-IsPlan torrents skip min_ratio =
      split_by_ratio-IsPlan skip min_ratio (old_version_candidates fl torrents)

  -- There is an anchor, above which the ratio grew by less than `delta`.
  abbrev pub IsStagnant : History F → Date → ℤ → F → Torrent F → Type 0
  IsStagnant history today window delta t =
      (anchor : F) × (stagnation_anchor (samples_of history t.name) today window ≡ ok (some anchor))
      × (lt (minus (ratio_of fl t) anchor) delta ≡ true)

  -- No anchor yet, or growth of at least `delta`.
  abbrev pub IsGrowing : History F → Date → ℤ → F → Torrent F → Option F → Type 0
  IsGrowing history today window delta t none =
      stagnation_anchor (samples_of history t.name) today window ≡ ok none
  IsGrowing history today window delta t (some growth) =
      (anchor : F) × (stagnation_anchor (samples_of history t.name) today window ≡ ok (some anchor))
      × (growth ≡ minus (ratio_of fl t) anchor)
      × (lt growth delta ≡ false)

  judge-IsPlan :
      (history : History F) (today : Date) (window : ℤ) (delta : F) (t : Torrent F)
      (ts : List (Torrent F)) (anchor : Option F) (rest : Split fl (Option F))
      → stagnation_anchor (samples_of history t.name) today window ≡ ok anchor
      → IsPlan
          (IsStagnant history today window delta)
          (IsGrowing history today window delta)
          ts
          rest
      → IsPlan
          (IsStagnant history today window delta)
          (IsGrowing history today window delta)
          (t ∷ ts)
          (judge fl delta t anchor rest)
  unfolding judge
  judge-IsPlan history today window delta t ts none rest e plan =
      IsPlan-keep_first _ (IsGrowing history today window delta) t none ts rest e plan
  judge-IsPlan history today window delta t ts (some anchor) rest e plan =
      by_growth (lt (minus (ratio_of fl t) anchor) delta) refl
    where
      by_growth :
          (small : Bool)
          → lt (minus (ratio_of fl t) anchor) delta ≡ small
          → IsPlan
              (IsStagnant history today window delta)
              (IsGrowing history today window delta)
              (t ∷ ts)
              (if small
                then remove_first fl t rest
                else keep_first fl t (some (minus (ratio_of fl t) anchor)) rest)
      by_growth true g = IsPlan-remove_first _ _ t ts rest (anchor, e, g) plan
      by_growth false g =
          IsPlan-keep_first _ (IsGrowing history today window delta) t
            (some (minus (ratio_of fl t) anchor)) ts rest (anchor, e, refl, g) plan

  split_by_growth-IsPlan :
      (history : History F) (today : Date) (window : ℤ) (delta : F) (ts : List (Torrent F))
      (plan : Split fl (Option F))
      → split_by_growth fl history today window delta ts ≡ ok plan
      → IsPlan
          (IsStagnant history today window delta)
          (IsGrowing history today window delta)
          ts
          plan
  unfolding split_by_growth
  split_by_growth-IsPlan history today window delta [] plan h =
      subst (IsPlan _ _ []) (ok_injective h) (Perm.nil, tt, tt)
  split_by_growth-IsPlan history today window delta (t ∷ ts) plan h =
      let (anchor, e, h1) =
        >>=-eq-ok (stagnation_anchor (samples_of history t.name) today window) _ h in
      let (rest, r, h2) = >>=-eq-ok (split_by_growth fl history today window delta ts) _ h1 in
      subst (IsPlan _ _ (t ∷ ts)) (ok_injective h2) (
        judge-IsPlan history today window delta t ts anchor rest e
          (split_by_growth-IsPlan history today window delta ts rest r))

  -- If the plan returns, each candidate is removed or kept, once. It is removed if it has an anchor,
  -- as `_stagnation_anchor` gives it, and its ratio is less than `delta` above that. It is kept if it
  -- has none, or with its growth.
  pub plan_stagnation_cleanup-IsPlan :
      (torrents : List (Torrent F)) (history : History F) (today : Date) (window : ℤ) (delta : F)
      (plan : Split fl (Option F))
      → plan_stagnation_cleanup fl torrents history today window delta ≡ ok plan
      → IsPlan
          (IsStagnant history today window delta)
          (IsGrowing history today window delta)
          (old_version_candidates fl torrents)
          plan
  unfolding plan_stagnation_cleanup
  plan_stagnation_cleanup-IsPlan torrents history today window delta plan h =
      split_by_growth-IsPlan history today window delta (old_version_candidates fl torrents) plan h
