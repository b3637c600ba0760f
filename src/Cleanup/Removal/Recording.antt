-- ===== src/Cleanup/Removal/Recording.antt =====
-- What a run of removals leaves: it removes the torrents it was given and records each, or it
-- raises and writes no history.
use linux_iso_seeder.Base.{
  ◌≡◌, refl, sym, ◌∙◌, true, ◌⊎◌, inl, inr, some, List, [], ◌∷◌, arith, if◌then◌else◌, ok, raised,
  All, AnyOf, Bool-cases, any, ◌==◌,
}
use linux_iso_seeder.Base.Text.{Text, same}
use linux_iso_seeder.Base.Dict
use linux_iso_seeder.Base.Dict.{Dict, get-put}
use linux_iso_seeder.Base.Float.{Float}
use linux_iso_seeder.Dates.{Date, isoformat}
use linux_iso_seeder.Gate.{Removed}
use linux_iso_seeder.Cleanup.Groups.{Torrent}
use linux_iso_seeder.Cleanup.Removal.{
  Seeder, Faults, Outcome, record_removal, without_id, without_torrent, remove_each,
}

module _ (fl : Float) where
  open fl use {F, lt, zero_float}

  -- The torrents whose id is not that of one in `gone`.
  abbrev pub others : List (Torrent F) → List (Torrent F) → List (Torrent F)
  others gone [] = []
  others gone (t ∷ ts) = if any (λ g. g.id == t.id) gone then others gone ts else t ∷ others gone ts

  -- The history has a removal of this day and for this reason.
  abbrev pub IsRecorded : Date → Text → Dict (Removed F) → Torrent F → Type 0
  IsRecorded today reason history t =
      (ratio : F) × (Dict.get history t.name
        ≡ some (record { removed_date = isoformat today; reason = reason; ratio = some ratio }))

  -- A name that none of the torrents in `gone` has keeps its entry.
  abbrev pub IsKept : List (Torrent F) → Dict (Removed F) → Dict (Removed F) → Type 0
  IsKept gone before after =
      (name : Text)
      → (any (λ g. same g.name name) gone ≡ true) ⊎ (Dict.get after name ≡ Dict.get before name)

  others-without_id :
      (g : Torrent F) (gone ts : List (Torrent F))
      → others gone (without_id fl g.id ts) ≡ others (g ∷ gone) ts
  unfolding without_id
  others-without_id g gone [] = refl
  others-without_id g gone (t ∷ ts) = elim (Bool-cases (t.id == g.id)) [
    | inl gone_now ↦ ground (arith, others-without_id g gone ts)
    | inr stays ↦ ground (arith, others-without_id g gone ts)
  ]

  pub others-nil : (ts : List (Torrent F)) → others [] ts ≡ ts
  others-nil [] = refl
  others-nil (t ∷ ts) = rw (others-nil ts) refl

  -- What the loop gives from the history `before`.
  abbrev pub IsRemoval :
      Faults
      → Date
      → Text
      → Seeder F
      → Dict (Removed F)
      → List (Torrent F)
      → Outcome fl (Dict (Removed F))
      → Type 0
  IsRemoval faults today reason seeder before gone (ok after, left) =
      (left.torrents ≡ others gone seeder.torrents)
      × All (IsRecorded today reason after) gone
      × IsKept gone before after
      × (left.removed_file ≡ seeder.removed_file)
      × (left.ratio_file ≡ seeder.ratio_file)
  IsRemoval faults today reason seeder before gone (raised e, left) =
      AnyOf (λ g. faults.refused g.id ≡ true) gone
      × (left.removed_file ≡ seeder.removed_file)
      × (left.ratio_file ≡ seeder.ratio_file)

  IsRecorded-now :
      (today : Date) (reason : Text) (ratio : F) (history : Dict (Removed F)) (t : Torrent F)
      → IsRecorded today reason (record_removal fl history t.name today reason ratio) t
  unfolding record_removal
  IsRecorded-now today reason ratio history t =
      (fl.round3 ratio, Dict.get-put_self history t.name _)

  IsRecorded-later :
      (today : Date) (reason : Text) (name : Text) (ratio : F) (history : Dict (Removed F))
      (t : Torrent F)
      → IsRecorded today reason history t
      → IsRecorded today reason (record_removal fl history name today reason ratio) t
  unfolding record_removal
  IsRecorded-later today reason name ratio history t (r, e) = elim (Bool-cases (same name t.name)) [
    | inl now ↦ (fl.round3 ratio, get-put history name t.name _ ∙ rw now refl)
    | inr before ↦ (r, get-put history name t.name _ ∙ rw before e)
  ]

  -- A run of the loop keeps a record of today's.
  abbrev KeepsRecord : Date → Text → Torrent F → Outcome fl (Dict (Removed F)) → Type 0
  KeepsRecord today reason t (ok after, left) = IsRecorded today reason after t
  KeepsRecord today reason t (raised e, left) = Unit

  remove_each-KeepsRecord :
      (faults : Faults) (today : Date) (reason : Text) (ratio : Torrent F → F) (seeder : Seeder F)
      (history : Dict (Removed F)) (ts : List (Torrent F)) (t : Torrent F)
      → IsRecorded today reason history t
      → KeepsRecord today reason t (remove_each fl faults today reason ratio seeder history ts)
  unfolding remove_each
  remove_each-KeepsRecord faults today reason ratio seeder history [] t recorded = recorded
  remove_each-KeepsRecord faults today reason ratio seeder history (g ∷ gs) t recorded =
      elim (Bool-cases (faults.refused g.id)) [
        | inl refused ↦ rw refused tt
        | inr removed ↦ rw removed (
            remove_each-KeepsRecord faults today reason ratio (without_torrent fl faults seeder g)
              (record_removal fl history g.name today reason (ratio g)) gs t
              (IsRecorded-later today reason g.name (ratio g) history t recorded))
      ]

  IsRemoval-cons :
      (faults : Faults) (today : Date) (reason : Text) (ratio : F) (seeder : Seeder F)
      (history : Dict (Removed F)) (g : Torrent F) (gs : List (Torrent F))
      (out : Outcome fl (Dict (Removed F)))
      → KeepsRecord today reason g out
      → IsRemoval faults today reason
          (without_torrent fl faults seeder g)
          (record_removal fl history g.name today reason ratio)
          gs
          out
      → IsRemoval faults today reason seeder history (g ∷ gs) out
  unfolding without_torrent record_removal
  IsRemoval-cons faults today reason ratio seeder history g gs (ok after, left) recorded
        (left_ok, all, kept, same_removed, same_ratio) =
      (
        left_ok ∙ others-without_id g gs seeder.torrents,
        (recorded, all),
        kept_too,
        same_removed,
        same_ratio,
      )
    where
      kept_too : IsKept (g ∷ gs) history after
      kept_too name = elim (kept name) [
        | inl removed ↦ inl (ground arith)
        | inr e ↦ elim (Bool-cases (same g.name name)) [
          | inl here ↦ inl (rw here refl)
          | inr other ↦ inr (e ∙ get-put history g.name name _ ∙ rw other refl)
        ]
      ]
  IsRemoval-cons faults today reason ratio seeder history g gs (raised e, left) recorded
        (refused, same_removed, same_ratio) =
      (inr refused, same_removed, same_ratio)

  pub remove_each-IsRemoval :
      (faults : Faults) (today : Date) (reason : Text) (ratio : Torrent F → F) (seeder : Seeder F)
      (history : Dict (Removed F)) (ts : List (Torrent F))
      → IsRemoval faults today reason seeder history ts
          (remove_each fl faults today reason ratio seeder history ts)
  unfolding remove_each
  remove_each-IsRemoval faults today reason ratio seeder history [] =
      (sym (others-nil seeder.torrents), tt, λ name. inr refl, refl, refl)
  remove_each-IsRemoval faults today reason ratio seeder history (g ∷ gs) =
      elim (Bool-cases (faults.refused g.id)) [
        | inl refused ↦ rw refused (inl refused, refl, refl)
        | inr removed ↦ rw removed (
            IsRemoval-cons faults today reason (ratio g) seeder history g gs _
              (remove_each-KeepsRecord faults today reason ratio
                (without_torrent fl faults seeder g)
                (record_removal fl history g.name today reason (ratio g)) gs g
                (IsRecorded-now today reason (ratio g) history g))
              (remove_each-IsRemoval faults today reason ratio (without_torrent fl faults seeder g)
                (record_removal fl history g.name today reason (ratio g)) gs))
      ]
