-- ===== src/Cleanup/Removal/Cleanups.antt =====
-- What a whole cleanup leaves, for the superseded versions and under disk pressure.
use linux_iso_seeder.Base.{
  ℕ, zero, suc, ◌+◌, ◌≤◌, ◌≡◌, refl, sym, ◌∙◌, ap, subst, Bool, true, false, ◌⊎◌, inl, inr, List,
  [], ◌∷◌, arith, if◌then◌else◌, ok, raised, os_error, All, AnyOf, Bool-cases, take, length, Result,
  Error, Option, none, some, Result-cases,
}
use linux_iso_seeder.Base.Text.{Text, codes}
use linux_iso_seeder.Base.Dict.{Dict}
use linux_iso_seeder.Base.Float.{Float}
use linux_iso_seeder.Dates.{Date}
use linux_iso_seeder.Gate.{Removed}
use linux_iso_seeder.Cleanup.Groups.{Torrent, ratio_of, old_version_candidates}
use linux_iso_seeder.Cleanup.Plans.{plan_cleanup, sort_by_ratio, plan_disk_pressure_cleanup}
use linux_iso_seeder.Cleanup.Removal.{
  Seeder, Faults, Outcome, record_removal, without_torrent, remove_each, save_removed, used_percent,
  after_reading, after_first_reading, free_space, cleanup_old_versions, enforce_disk_usage_limit,
  free_candidates,
}
use linux_iso_seeder.Cleanup.Removal.Recording.{
  others, others-nil, IsRecorded, IsKept, IsRemoval, remove_each-IsRemoval,
}

module _ (fl : Float) where
  open fl use {F, lt, le, zero_float}

  -- What a whole run leaves. If it raises, a call was refused or the file cannot be written; then
  -- the file is as it was, whatever was removed before.
  abbrev pub IsCleanup :
      Faults → Date → Text → Seeder F → List (Torrent F) → Outcome fl (Unit {0}) → Type 0
  IsCleanup faults today reason seeder gone (ok u, left) =
      (left.torrents ≡ others fl gone seeder.torrents)
      × All (IsRecorded fl today reason left.removed_file) gone
      × IsKept fl gone seeder.removed_file left.removed_file
      × (left.ratio_file ≡ seeder.ratio_file)
  IsCleanup faults today reason seeder gone (raised e, left) =
      (AnyOf (λ g. faults.refused g.id ≡ true) gone ⊎ (faults.removed_unwritable ≡ true))
      × (left.removed_file ≡ seeder.removed_file)
      × (left.ratio_file ≡ seeder.ratio_file)

  save_removed-IsCleanup :
      (faults : Faults) (today : Date) (reason : Text) (seeder : Seeder F) (gone : List (Torrent F))
      (out : Outcome fl (Dict (Removed F)))
      → IsRemoval fl faults today reason seeder seeder.removed_file gone out
      → IsCleanup faults today reason seeder gone (save_removed fl faults out)
  unfolding save_removed
  save_removed-IsCleanup faults today reason seeder gone (ok after, left)
        (left_ok, all, kept, same_removed, same_ratio) =
      elim (Bool-cases faults.removed_unwritable) [
        | inl full ↦ rw full (inr refl, same_removed, same_ratio)
        | inr writable ↦ rw writable (left_ok, all, kept, same_ratio)
      ]
  save_removed-IsCleanup faults today reason seeder gone (raised e, left)
        (refused, same_removed, same_ratio) =
      (inl refused, same_removed, same_ratio)

  -- If `cleanup_old_versions` returns, the torrents left are those whose id the plan does not hold,
  -- each planned torrent has an entry of today in the removed history, and no other name's entry
  -- changed. If it raises, a removal was refused or the file cannot be written, and both history
  -- files are unchanged.
  pub cleanup_old_versions-IsCleanup :
      (faults : Faults) (today : Date) (skip : Bool) (min_ratio : F) (seeder : Seeder F)
      → IsCleanup faults today
          (codes "keep_only_latest")
          seeder
          (plan_cleanup fl seeder.torrents skip min_ratio).0
          (cleanup_old_versions fl faults today skip min_ratio seeder)
  unfolding cleanup_old_versions
  cleanup_old_versions-IsCleanup faults today skip min_ratio seeder =
      save_removed-IsCleanup faults today _ seeder _ _
        (remove_each-IsRemoval fl faults today _ (ratio_of fl) seeder seeder.removed_file _)

  -- The readings from the `n`-th on, `k` of them, are all at or above the limit.
  abbrev pub AreHigh : F → (ℕ → Result (ℕ × ℕ)) → ℕ → ℕ → Type 0
  AreHigh threshold usage n zero = Unit
  AreHigh threshold usage n (suc k) =
      ((reading : ℕ × ℕ) × (usage n ≡ ok reading)
        × (lt (used_percent fl reading) threshold ≡ false))
      × AreHigh threshold usage (suc n) k

  -- Why no torrent is removed after the first `k`: there are no more, or the next reading is below the
  -- limit, or it raises.
  abbrev pub IsEnd : F → (ℕ → Result (ℕ × ℕ)) → ℕ → ℕ → List (Torrent F) → Option Error → Type 0
  IsEnd threshold usage n k ts none =
      (length ts ≤ k)
      ⊎ ((reading : ℕ × ℕ) × (usage (n + k) ≡ ok reading)
          × (lt (used_percent fl reading) threshold ≡ true))
  IsEnd threshold usage n k ts (some e) = usage (n + k) ≡ raised e

  -- A loop that is left by an error of a reading.
  abbrev broken_off : {A : Type 0} → Option Error → Outcome fl A → Outcome fl A
  broken_off none out = out
  broken_off (some e) (ok value, left) = (raised e, left)
  broken_off (some e) (raised refusal, left) = (raised refusal, left)

  free_space-eq :
      (faults : Faults) (today : Date) (threshold : F) (usage : ℕ → Result (ℕ × ℕ)) (n : ℕ)
      (seeder : Seeder F) (history : Dict (Removed F)) (ts : List (Torrent F))
      → (k : ℕ) × (stop : Option Error) × AreHigh threshold usage n k
        × IsEnd threshold usage n k ts stop
        × (free_space fl faults today threshold usage n seeder history ts
            ≡ broken_off stop (
                remove_each fl faults today
                  (codes "disk_pressure")
                  (ratio_of fl)
                  seeder
                  history
                  (take k ts)))
  unfolding free_space remove_each after_reading
  free_space-eq faults today threshold usage n seeder history [] =
      (0, none, tt, inl (omega arith), refl)
  free_space-eq faults today threshold usage n seeder history (t ∷ ts) =
      let (k, stop, high, end, e) =
        free_space-eq faults today threshold usage (suc n) (without_torrent fl faults seeder t)
          (record_removal fl history t.name today (codes "disk_pressure") (ratio_of fl t)) ts in
      elim (Result-cases (usage n)) [
        | inl (failure, broken) ↦
            (0, some failure, tt, at_next 0 (omega arith) broken, rw broken refl)
        | inr (reading, read) ↦ elim (Bool-cases (lt (used_percent fl reading) threshold)) [
          | inl low ↦
              (0, none, tt, inr (reading, at_next 0 (omega arith) read, low), rw (read, low) refl)
          | inr above ↦ (
            suc k,
            stop,
            ((reading, read, above), high),
            next_end k stop end,
            rw (read, above)
                (ap (λ o. if faults.refused t.id then (raised os_error, seeder) else o) e
                  ∙ refused_last stop (faults.refused t.id) _),
          )
        ]
      ]
    where
      at_next : {i : ℕ} {r : Result (ℕ × ℕ)} (d : ℕ) → i ≡ n + d → usage i ≡ r → usage (n + d) ≡ r
      at_next {r = r} d e = subst (λ i. usage i ≡ r) e

      refused_last :
          (stop : Option Error) (refusal : Bool) (out : Outcome fl (Dict (Removed F)))
          → (if refusal then (raised os_error, seeder) else broken_off stop out)
            ≡ broken_off stop (if refusal then (raised os_error, seeder) else out)
      refused_last none true out = refl
      refused_last none false out = refl
      refused_last (some failure) true out = refl
      refused_last (some failure) false out = refl

      next_end :
          (k : ℕ) (stop : Option Error)
          → IsEnd threshold usage (suc n) k ts stop
          → IsEnd threshold usage n (suc k) (t ∷ ts) stop
      next_end k none (inl all) = inl (omega arith)
      next_end k none (inr (reading, read, low)) =
          inr (reading, at_next (suc k) (omega arith) read, low)
      next_end k (some failure) broken = at_next (suc k) (omega arith) broken

  -- What a cleanup leaves whose loop an error of a reading ends: it raises, with the history files as
  -- they were, and but for a refusal the torrents chosen so far are gone.
  abbrev pub IsBrokenOff : Faults → Seeder F → List (Torrent F) → Outcome fl (Unit {0}) → Type 0
  IsBrokenOff faults seeder gone (ok u, left) = ⊥
  IsBrokenOff faults seeder gone (raised e, left) =
      (AnyOf (λ g. faults.refused g.id ≡ true) gone
        ⊎ (left.torrents ≡ others fl gone seeder.torrents))
      × (left.removed_file ≡ seeder.removed_file)
      × (left.ratio_file ≡ seeder.ratio_file)

  abbrev pub IsLeft :
      Option Error → Faults → Date → Seeder F → List (Torrent F) → Outcome fl (Unit {0}) → Type 0
  IsLeft none faults today seeder gone out =
      IsCleanup faults today (codes "disk_pressure") seeder gone out
  IsLeft (some e) faults today seeder gone out = IsBrokenOff faults seeder gone out

  -- The first `k` torrents of the plan are removed, each after a reading at or above the limit.
  abbrev pub IsLimited :
      Faults
      → Date
      → F
      → (ℕ → Result (ℕ × ℕ))
      → Seeder F
      → List (Torrent F)
      → Outcome fl (Unit {0})
      → Type 0
  IsLimited faults today threshold usage seeder plan out =
      (k : ℕ) × (stop : Option Error) × AreHigh threshold usage 1 k
      × IsEnd threshold usage 1 k plan stop
      × IsLeft stop faults today seeder (take k plan) out

  save_removed-IsLeft :
      (stop : Option Error) (faults : Faults) (today : Date) (seeder : Seeder F)
      (gone : List (Torrent F)) (out : Outcome fl (Dict (Removed F)))
      → IsRemoval fl faults today (codes "disk_pressure") seeder seeder.removed_file gone out
      → IsLeft stop faults today seeder gone (save_removed fl faults (broken_off stop out))
  unfolding save_removed
  save_removed-IsLeft none faults today seeder gone out h =
      save_removed-IsCleanup faults today _ seeder gone out h
  save_removed-IsLeft (some e) faults today seeder gone (ok after, left)
        (left_ok, all, kept, same_removed, same_ratio) =
      (inr left_ok, same_removed, same_ratio)
  save_removed-IsLeft (some e) faults today seeder gone (raised refusal, left)
        (refused, same_removed, same_ratio) =
      (inl refused, same_removed, same_ratio)

  -- With a limit of 0 or less nothing is done, and if the first reading of the disk raises, so does
  -- the function, with nothing changed. Otherwise torrents are removed in the order of the plan for
  -- that reading, each after a further reading at or above the limit, until the plan ends or a reading
  -- is below the limit or raises. In the last case the function raises, the history files are
  -- unchanged, and a removal was refused or the torrents chosen are gone; in the others it leaves
  -- what any cleanup of the torrents chosen leaves.
  pub enforce_disk_usage_limit-IsCleanup :
      (faults : Faults) (today : Date) (threshold : F) (usage : ℕ → Result (ℕ × ℕ))
      (seeder : Seeder F)
      → let out = enforce_disk_usage_limit fl faults today threshold usage seeder in
        ((le threshold zero_float ≡ true) × (out ≡ (ok tt, seeder)))
        ⊎ ((e : Error) × (le threshold zero_float ≡ false)
            × (usage 0 ≡ raised e)
            × (out ≡ (raised e, seeder)))
        ⊎ ((reading : ℕ × ℕ) × (le threshold zero_float ≡ false)
            × (usage 0 ≡ ok reading)
            × IsLimited faults today threshold usage seeder
                (plan_disk_pressure_cleanup fl seeder.torrents (used_percent fl reading) threshold)
                out)
  unfolding enforce_disk_usage_limit plan_disk_pressure_cleanup free_candidates after_first_reading
  enforce_disk_usage_limit-IsCleanup faults today threshold usage seeder =
      elim (Bool-cases (le threshold zero_float)) [
        | inl off ↦ rw off (inl (refl, refl))
        | inr on ↦ elim (Result-cases (usage 0)) [
          | inl (e, broken) ↦ rw (on, broken) (inr (inl (e, refl, refl, refl)))
          | inr (reading, read) ↦ elim (Bool-cases (lt (used_percent fl reading) threshold)) [
            | inl low ↦ rw (on, read) (inr (inr (reading, refl, refl, rw (on, low) nothing_done)))
            | inr high ↦
                rw (on, read)
                  (inr (
                    inr (
                      reading,
                      refl,
                      refl,
                      rw (on, high)
                          (by_plan (sort_by_ratio fl (old_version_candidates fl seeder.torrents))),
                    )))
          ]
        ]
      ]
    where
      unchanged : IsCleanup faults today (codes "disk_pressure") seeder [] (ok tt, seeder)
      unchanged = (sym (others-nil fl seeder.torrents), tt, λ name. inr refl, refl)

      nothing_done : IsLimited faults today threshold usage seeder [] (ok tt, seeder)
      nothing_done = (0, none, tt, inl (omega arith), unchanged)

      by_plan :
          (plan : List (Torrent F))
          → IsLimited faults today threshold usage seeder plan
              (free_candidates fl faults today threshold usage seeder plan)
      by_plan [] = nothing_done
      by_plan (t ∷ ts) =
          let (k, stop, high, end, e) =
            free_space-eq faults today threshold usage 1 seeder seeder.removed_file (t ∷ ts) in
          (
            k,
            stop,
            high,
            end,
            rw e (
                save_removed-IsLeft stop faults today seeder _ _ (
                  remove_each-IsRemoval fl faults today _ (ratio_of fl) seeder seeder.removed_file
                    _)),
          )
