-- ===== src/Cleanup/History/Dated.antt =====
-- The history is updated, and a plan made, whenever the dates in it can be read.
use linux_iso_seeder.Base.{
  ◌≡◌, refl, Bool, true, false, Option, none, some, List, [], ◌∷◌, ◌++◌, if◌then◌else◌, ok, All,
  All-append, not, Bool-cases, inl, inr,
}
use linux_iso_seeder.Base.Int.{ℤ, ltb_ℤ}
use linux_iso_seeder.Base.Text.{Text, less, same}
use linux_iso_seeder.Base.Dict
use linux_iso_seeder.Base.Dict.{Dict}
use linux_iso_seeder.Dates.{Date, is_date, isoformat, days_between}
use linux_iso_seeder.Dates.Texts.{from_isoformat-isoformat}
use linux_iso_seeder.Base.Float.{Float}
use linux_iso_seeder.Gate.{Removed}
use linux_iso_seeder.Cleanup.Groups.{Torrent}
use linux_iso_seeder.Cleanup.Plans.{Split, judge, split_by_growth, plan_stagnation_cleanup}
use linux_iso_seeder.Cleanup.History.{
  Sample, History, age, samples_of, samples_after, own_samples, is_due, last_sample, new_sample,
  samples_aged, is_recent, next_samples, update_each, update_ratio_history, stagnation_anchor,
  is_old, anchor_of,
}

-- The ISO text of a day of the calendar.
abbrev pub IsWritten : Text → Type 0
IsWritten date = (d : Date) × (is_date d ≡ true) × (date ≡ isoformat d)

age-written :
    (today : Date) (date : Text) → IsWritten date → (days : ℤ) × (age today date ≡ ok days)
unfolding age
age-written today date (d, valid, e) =
    (days_between today d, rw (e, from_isoformat-isoformat d valid) refl)

module _ {R : Type 0} (today : Date) where
  -- The samples' dates are ISO texts of days of the calendar.
  abbrev pub AreDated : List (Sample R) → Type 0
  AreDated ss = All (λ s. IsWritten s.date) ss

  abbrev pub IsDated : History R → Type 0
  IsDated history = All (λ e. AreDated e.1) history

  AreDated-samples_of :
      (history : History R) (name : Text) → IsDated history → AreDated (samples_of history name)
  unfolding Dict.get
  AreDated-samples_of [] name dated = tt
  AreDated-samples_of ((n, ss) ∷ history) name dated =
      by_name (same n name) (AreDated-samples_of history name dated.1)
    where
      by_name :
          (here : Bool)
          → AreDated (samples_of history name)
          → AreDated
              (elim (if here then some ss else Dict.get history name) [ none ↦ [] | some us ↦ us ])
      by_name true rest = dated.0
      by_name false rest = rest

  AreDated-samples_after :
      (date : Text) (ss : List (Sample R)) → AreDated ss → AreDated (samples_after date ss)
  unfolding samples_after
  AreDated-samples_after date [] dated = tt
  AreDated-samples_after date (s ∷ ss) dated =
      by_date (less date s.date) (AreDated-samples_after date ss dated.1)
    where
      by_date :
          (later : Bool)
          → AreDated (samples_after date ss)
          → AreDated (if later then s ∷ samples_after date ss else samples_after date ss)
      by_date true rest = (dated.0, rest)
      by_date false rest = rest

  AreDated-own_samples :
      (removed : Dict (Removed R)) (name : Text) (ss : List (Sample R))
      → AreDated ss
      → AreDated (own_samples removed name ss)
  unfolding own_samples
  AreDated-own_samples removed name ss dated = by_entry (Dict.get removed name)
    where
      by_entry :
          (entry : Option (Removed R))
          → AreDated (elim entry [ none ↦ ss | some e ↦ samples_after e.removed_date ss ])
      by_entry none = dated
      by_entry (some e) = AreDated-samples_after e.removed_date ss dated

  samples_aged-returns :
      (p : ℤ → Bool) (ss : List (Sample R))
      → AreDated ss
      → (rest : List (Sample R)) × (samples_aged p today ss ≡ ok rest) × AreDated rest
  unfolding samples_aged
  samples_aged-returns p [] dated = ([], refl, tt)
  samples_aged-returns p (s ∷ ss) dated =
      let (days, e) = age-written today s.date dated.0 in
      let (rest, r, kept) = samples_aged-returns p ss dated.1 in
      (if p days then s ∷ rest else rest, rw e (rw r refl), chosen (p days) rest kept)
    where
      chosen :
          (b : Bool) (rest : List (Sample R))
          → AreDated rest
          → AreDated (if b then s ∷ rest else rest)
      chosen true rest kept = (dated.0, kept)
      chosen false rest kept = kept

  last_sample-dated :
      (s : Sample R) (ss : List (Sample R)) → AreDated (s ∷ ss) → IsWritten (last_sample s ss).date
  last_sample-dated s [] dated = dated.0
  last_sample-dated s (t ∷ ts) dated = last_sample-dated t ts dated.1

  is_due-returns :
      (interval : ℤ) (ss : List (Sample R))
      → AreDated ss
      → (due : Bool) × (is_due today interval ss ≡ ok due)
  unfolding is_due
  is_due-returns interval [] dated = (true, refl)
  is_due-returns interval (s ∷ ss) dated =
      let (days, e) = age-written today _ (last_sample-dated s ss dated) in
      (not (ltb_ℤ days interval), rw e refl)

  next_samples-returns :
      (interval max_age : ℤ) (r : R) (ss : List (Sample R))
      → is_date today ≡ true
      → AreDated ss
      → (next : List (Sample R)) × (next_samples today interval max_age r ss ≡ ok next)
        × AreDated next
  unfolding next_samples
  next_samples-returns interval max_age r ss valid dated =
      let (due, e) = is_due-returns interval ss dated in
      let (next, n, kept) = samples_aged-returns (is_recent max_age) _ (with_new due) in
      (next, rw e n, kept)
    where
      with_new : (due : Bool) → AreDated (if due then ss ++ new_sample today r ∷ [] else ss)
      with_new true = All-append (λ s. IsWritten s.date) ss _ dated ((today, valid, refl), tt)
      with_new false = dated

  put-IsDated :
      (history : History R) (name : Text) (ss : List (Sample R))
      → IsDated history
      → AreDated ss
      → IsDated (Dict.put history name ss)
  unfolding Dict.put
  put-IsDated [] name ss h dated = (dated, tt)
  put-IsDated ((n, old) ∷ history) name ss h dated = elim (Bool-cases (same n name)) [
    | inl here ↦ rw here (dated, h.1)
    | inr elsewhere ↦ rw elsewhere (h.0, put-IsDated history name ss h.1 dated)
  ]

  update_each-returns :
      (history : History R) (current : Dict R) (interval max_age : ℤ) (removed : Dict (Removed R))
      (updated : History R)
      → is_date today ≡ true
      → IsDated history
      → IsDated updated
      → (result : History R) × (update_each history current today interval max_age removed updated
          ≡ ok result)
        × IsDated result
  unfolding update_each
  update_each-returns history [] interval max_age removed updated valid dated done =
      (updated, refl, done)
  update_each-returns history ((name, r) ∷ current) interval max_age removed updated valid dated
        done =
      let (ss, e, new_dated) =
        next_samples-returns interval max_age r _ valid
          (AreDated-own_samples removed name _ (AreDated-samples_of history name dated)) in
      let (result, u, all_dated) =
        update_each-returns history current interval max_age removed (Dict.put updated name ss)
          valid dated (put-IsDated updated name ss done new_dated) in
      (result, rw e u, all_dated)

  stagnation_anchor-returns :
      (history : History R) (window : ℤ) (name : Text)
      → IsDated history
      → (anchor : Option R) × (stagnation_anchor (samples_of history name) today window ≡ ok anchor)
  unfolding stagnation_anchor
  stagnation_anchor-returns history window name dated =
      let (rest, e, kept) =
        samples_aged-returns (is_old window) _ (AreDated-samples_of history name dated) in
      (anchor_of rest, rw e refl)

module _ (fl : Float) (today : Date) where
  open fl use {F}

  split_by_growth-returns :
      (history : History F) (window : ℤ) (delta : F) (ts : List (Torrent F))
      → IsDated today history
      → (split : Split fl (Option F)) × (split_by_growth fl history today window delta ts
          ≡ ok split)
  unfolding split_by_growth
  split_by_growth-returns history window delta [] dated = (([], []), refl)
  split_by_growth-returns history window delta (t ∷ ts) dated =
      let (anchor, a) = stagnation_anchor-returns today history window t.name dated in
      let (rest, e) = split_by_growth-returns history window delta ts dated in
      (judge fl delta t anchor rest, rw a (rw e refl))

  -- On a day of the calendar, a history all of whose dates are ISO texts of such days is updated
  -- without raising, and the stagnation plan for the updated history is made without raising.
  pub update_ratio_history-returns :
      (torrents : List (Torrent F)) (history : History F) (current : Dict F) (interval window : ℤ)
      (delta : F) (removed : Dict (Removed F))
      → is_date today ≡ true
      → IsDated today history
      → (result : History F) × (split : Split fl (Option F)) × (update_ratio_history history current
            today interval window removed
          ≡ ok result)
        × (plan_stagnation_cleanup fl torrents result today window delta ≡ ok split)
  unfolding update_ratio_history plan_stagnation_cleanup
  update_ratio_history-returns torrents history current interval window delta removed valid dated =
      let (result, e, all_dated) =
        update_each-returns today history current interval _ removed [] valid dated tt in
      let (split, p) = split_by_growth-returns result window delta _ all_dated in
      (result, split, e, p)
