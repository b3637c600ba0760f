-- ===== src/Cleanup/Plans.antt =====
-- The three plans: which candidates `plan_cleanup`, `plan_disk_pressure_cleanup` and
-- `plan_stagnation_cleanup` choose.
pub mod Chosen
pub mod Lowest
use linux_iso_seeder.Base.{
  ℕ, Bool, true, false, ◌&&◌, ◌||◌, not, Option, none, some, List, [], ◌∷◌, ◌++◌, if◌then◌else◌,
  Result, ok, raised, ◌>>=◌,
}
use linux_iso_seeder.Base.Int.{ℤ}
use linux_iso_seeder.Base.Text.{Text}
use linux_iso_seeder.Base.Float.{Float}
use linux_iso_seeder.Dates.{Date}
use linux_iso_seeder.Cleanup.Groups.{Torrent, ratio_of, old_version_candidates}
use linux_iso_seeder.Cleanup.History.{Sample, History, samples_of, stagnation_anchor}

module _ (fl : Float) where
  open fl use {F, zero_float, lt, le, minus}

  abbrev pub Split : Type 0 → Type 0
  Split K = List (Torrent F) × List (Torrent F × K)

  abbrev remove_first : {K : Type 0} → Torrent F → Split K → Split K
  remove_first t (removed, kept) = (t ∷ removed, kept)

  abbrev keep_first : {K : Type 0} → Torrent F → K → Split K → Split K
  keep_first t k (removed, kept) = (removed, (t, k) ∷ kept)

  -- The loop of `plan_cleanup`.
  unfoldable pub split_by_ratio : Bool → F → List (Torrent F) → Split F
  unfolding ratio_of
  split_by_ratio skip_ratio_check min_ratio [] = ([], [])
  split_by_ratio skip_ratio_check min_ratio (t ∷ ts) =
      let rest = split_by_ratio skip_ratio_check min_ratio ts in
      if not skip_ratio_check && lt (ratio_of fl t) min_ratio
      then keep_first t (ratio_of fl t) rest
      else remove_first t rest

  unfoldable pub plan_cleanup : List (Torrent F) → Bool → F → Split F
  unfolding split_by_ratio
  plan_cleanup torrents skip_ratio_check min_ratio =
      split_by_ratio skip_ratio_check min_ratio (old_version_candidates fl torrents)

  -- `candidates.sort(key=...)`, which keeps the order of equal ratios.
  unfoldable pub insert_by_ratio : Torrent F → List (Torrent F) → List (Torrent F)
  unfolding ratio_of
  insert_by_ratio t [] = t ∷ []
  insert_by_ratio t (x ∷ xs) =
      if lt (ratio_of fl x) (ratio_of fl t) then x ∷ insert_by_ratio t xs else t ∷ x ∷ xs

  unfoldable pub sort_by_ratio : List (Torrent F) → List (Torrent F)
  unfolding insert_by_ratio
  sort_by_ratio [] = []
  sort_by_ratio (t ∷ ts) = insert_by_ratio t (sort_by_ratio ts)

  unfoldable pub plan_disk_pressure_cleanup : List (Torrent F) → F → F → List (Torrent F)
  unfolding sort_by_ratio
  plan_disk_pressure_cleanup torrents used_percent threshold_percent =
      if le threshold_percent zero_float || lt used_percent threshold_percent
      then []
      else sort_by_ratio (old_version_candidates fl torrents)

  -- One torrent of the loop of `plan_stagnation_cleanup`, whose anchor may be missing.
  unfoldable pub judge : F → Torrent F → Option F → Split (Option F) → Split (Option F)
  unfolding ratio_of
  judge min_ratio_delta t none rest = keep_first t none rest
  judge min_ratio_delta t (some anchor) rest =
      if lt (minus (ratio_of fl t) anchor) min_ratio_delta
      then remove_first t rest
      else keep_first t (some (minus (ratio_of fl t) anchor)) rest

  unfoldable pub split_by_growth :
      History F → Date → ℤ → F → List (Torrent F) → Result (Split (Option F))
  unfolding judge stagnation_anchor
  split_by_growth history today window_days min_ratio_delta [] = ok ([], [])
  split_by_growth history today window_days min_ratio_delta (t ∷ ts) = do
    anchor ← stagnation_anchor (samples_of history t.name) today window_days
    rest ← split_by_growth history today window_days min_ratio_delta ts
    ok (judge min_ratio_delta t anchor rest)

  unfoldable pub plan_stagnation_cleanup :
      List (Torrent F) → History F → Date → ℤ → F → Result (Split (Option F))
  unfolding split_by_growth
  plan_stagnation_cleanup torrents history today window_days min_ratio_delta =
      split_by_growth history today window_days min_ratio_delta (old_version_candidates fl torrents)
