-- ===== src/Cleanup/Plans/Lowest.antt =====
-- `plan_disk_pressure_cleanup` offers all candidates, those of the lowest ratio first.
use linux_iso_seeder.Base.{◌≡◌, refl, true, false, List, [], ◌∷◌, All, Bool-cases, inl, inr, ◌⊎◌}
use mathlib.Core.List.{Perm}
use mathlib.Core.List.Perm
use linux_iso_seeder.Base.Float.{Float, IsOrdered}
use linux_iso_seeder.Cleanup.Groups.{Torrent, ratio_of, old_version_candidates}
use linux_iso_seeder.Cleanup.Plans.{insert_by_ratio, sort_by_ratio, plan_disk_pressure_cleanup}

module _ (fl : Float) where
  open fl use {F, zero_float, lt, le}

  -- No torrent of the list has a lower ratio than `r`.
  abbrev pub IsLeast : F → List (Torrent F) → Type 0
  IsLeast r ts = All (λ t. lt (ratio_of fl t) r ≡ false) ts

  abbrev pub IsAscending : List (Torrent F) → Type 0
  IsAscending [] = Unit
  IsAscending (t ∷ ts) = IsLeast (ratio_of fl t) ts × IsAscending ts

  insert_by_ratio-perm :
      (t : Torrent F) (ts : List (Torrent F)) → Perm (insert_by_ratio fl t ts) (t ∷ ts)
  unfolding insert_by_ratio
  insert_by_ratio-perm t [] = Perm.refl (t ∷ [])
  insert_by_ratio-perm t (x ∷ xs) = elim (Bool-cases (lt (ratio_of fl x) (ratio_of fl t))) [
    | inl low ↦ rw low (Perm.trans (Perm.cons x (insert_by_ratio-perm t xs)) (Perm.swap t x xs))
    | inr stop ↦ rw stop (Perm.refl (t ∷ x ∷ xs))
  ]

  sort_by_ratio-perm : (ts : List (Torrent F)) → Perm (sort_by_ratio fl ts) ts
  unfolding sort_by_ratio
  sort_by_ratio-perm [] = Perm.nil
  sort_by_ratio-perm (t ∷ ts) =
      Perm.trans (insert_by_ratio-perm t (sort_by_ratio fl ts))
        (Perm.cons t (sort_by_ratio-perm ts))

module _ (fl : Float) (ordered : IsOrdered fl) where
  open fl use {F, zero_float, lt, le}

  lt_asymm : (a b : F) → lt a b ≡ true → lt b a ≡ false
  lt_asymm a b h = elim (Bool-cases (lt b a)) [
    | inl back ↦ absurd (cc (ordered.lt_trans a b a h back, ordered.lt_irrefl a))
    | inr done ↦ done
  ]

  IsLeast-weaken :
      (r q : F) (ts : List (Torrent F)) → lt q r ≡ false → IsLeast fl q ts → IsLeast fl r ts
  IsLeast-weaken r q [] h least = tt
  IsLeast-weaken r q (t ∷ ts) h least =
      (ordered.ge_trans (ratio_of fl t) q r least.0 h, IsLeast-weaken r q ts h least.1)

  IsLeast-insert :
      (r : F) (t : Torrent F) (ts : List (Torrent F))
      → lt (ratio_of fl t) r ≡ false
      → IsLeast fl r ts
      → IsLeast fl r (insert_by_ratio fl t ts)
  unfolding insert_by_ratio
  IsLeast-insert r t [] h least = (h, tt)
  IsLeast-insert r t (x ∷ xs) h least = elim (Bool-cases (lt (ratio_of fl x) (ratio_of fl t))) [
    | inl low ↦ rw low (least.0, IsLeast-insert r t xs h least.1)
    | inr stop ↦ rw stop (h, least)
  ]

  insert_by_ratio-IsAscending :
      (t : Torrent F) (ts : List (Torrent F))
      → IsAscending fl ts
      → IsAscending fl (insert_by_ratio fl t ts)
  unfolding insert_by_ratio
  insert_by_ratio-IsAscending t [] up = (tt, tt)
  insert_by_ratio-IsAscending t (x ∷ xs) up =
      elim (Bool-cases (lt (ratio_of fl x) (ratio_of fl t))) [
        | inl low ↦ rw low (
          IsLeast-insert (ratio_of fl x) t xs (lt_asymm (ratio_of fl x) (ratio_of fl t) low) up.0,
          insert_by_ratio-IsAscending t xs up.1,
        )
        | inr stop ↦
            rw stop ((stop, IsLeast-weaken (ratio_of fl t) (ratio_of fl x) xs stop up.0), up)
      ]

  sort_by_ratio-IsAscending : (ts : List (Torrent F)) → IsAscending fl (sort_by_ratio fl ts)
  unfolding sort_by_ratio
  sort_by_ratio-IsAscending [] = tt
  sort_by_ratio-IsAscending (t ∷ ts) =
      insert_by_ratio-IsAscending t (sort_by_ratio fl ts) (sort_by_ratio-IsAscending ts)

  -- If the limit is on and is reached, the plan is the candidates, each once, and no torrent comes
  -- after one of a higher ratio. Otherwise the plan is empty. Ratios are ordered by `<`.
  pub plan_disk_pressure_cleanup-IsAscending :
      (torrents : List (Torrent F)) (used threshold : F)
      → ((le threshold zero_float ≡ false)
          × (lt used threshold ≡ false)
          × Perm
              (plan_disk_pressure_cleanup fl torrents used threshold)
              (old_version_candidates fl torrents)
          × IsAscending fl (plan_disk_pressure_cleanup fl torrents used threshold))
        ⊎ (((le threshold zero_float ≡ true) ⊎ (lt used threshold ≡ true))
            × (plan_disk_pressure_cleanup fl torrents used threshold ≡ []))
  unfolding plan_disk_pressure_cleanup
  plan_disk_pressure_cleanup-IsAscending torrents used threshold =
      elim (Bool-cases (le threshold zero_float)) [
        | inl off ↦ rw off (inr (inl refl, refl))
        | inr on ↦ elim (Bool-cases (lt used threshold)) [
          | inl low ↦ rw (on, low) (inr (inr refl, refl))
          | inr high ↦
              rw (on, high)
                (inl (
                  refl,
                  refl,
                  sort_by_ratio-perm fl (old_version_candidates fl torrents),
                  sort_by_ratio-IsAscending (old_version_candidates fl torrents),
                ))
        ]
      ]
