-- ===== src/Cleanup/History/Fresh.antt =====
-- The history of ratios stays bounded, and holds nothing of a copy that was removed.
use linux_iso_seeder.Base.{
  ◌≡◌, refl, sym, ◌∙◌, ap, subst, Bool, true, false, ◌||◌, ◌⊎◌, inl, inr, Option, none, some, List,
  [], ◌∷◌, ◌++◌, arith, if◌then◌else◌, ok, >>=-eq-ok, ok_injective, All, All-append, Bool-cases,
}
use linux_iso_seeder.Base.Int.{ℤ, add_ℤ}
use linux_iso_seeder.Base.Text.{Text, less, same, same→eq}
use linux_iso_seeder.Base.Dict
use linux_iso_seeder.Base.Dict.{Dict, get-put, is_some, has-put, has-eq}
use linux_iso_seeder.Dates.{Date, isoformat}
use linux_iso_seeder.Gate.{Removed}
use linux_iso_seeder.Cleanup.History.{
  Sample, History, age, samples_of, samples_after, own_samples, is_due, new_sample, samples_aged,
  is_recent, next_samples, update_each, update_ratio_history,
}

-- A date whose age passes the test.
abbrev pub IsAged : (ℤ → Bool) → Date → Text → Type 0
IsAged p today date = (days : ℤ) × (age today date ≡ ok days) × (p days ≡ true)

module _ {R : Type 0} where
  -- Dated after the entry of the removed history, if there is one.
  abbrev pub IsLater : Option (Removed R) → Sample R → Type 0
  IsLater none s = Unit
  IsLater (some entry) s = less entry.removed_date s.date ≡ true

  -- A sample of the run itself, or one that is dated after the name's last removal.
  abbrev pub IsOwn : Dict (Removed R) → Text → Date → Sample R → Type 0
  IsOwn removed name today s = (s.date ≡ isoformat today) ⊎ IsLater (Dict.get removed name) s

  -- Own samples of a bounded age.
  abbrev pub AreFresh : Date → ℤ → Dict (Removed R) → Text → List (Sample R) → Type 0
  AreFresh today max_age removed name samples =
      All (λ s. IsOwn removed name today s × IsAged (is_recent max_age) today s.date) samples

  abbrev pub IsFresh : Date → ℤ → Dict (Removed R) → History R → Type 0
  IsFresh today max_age removed history = All (λ e. AreFresh today max_age removed e.0 e.1) history

  samples_after-after :
      (date : Text) (ss : List (Sample R))
      → All (λ s. less date s.date ≡ true) (samples_after date ss)
  unfolding samples_after
  samples_after-after date [] = tt
  samples_after-after date (s ∷ ss) = elim (Bool-cases (less date s.date)) [
    | inl later ↦ rw later (later, samples_after-after date ss)
    | inr earlier ↦ rw earlier (samples_after-after date ss)
  ]

  samples_aged-All :
      (P : Sample R → Type 0) (p : ℤ → Bool) (today : Date) (ss rest : List (Sample R))
      → All P ss
      → samples_aged p today ss ≡ ok rest
      → All (λ s. P s × IsAged p today s.date) rest
  unfolding samples_aged
  samples_aged-All P p today [] rest all h = subst (All _) (ok_injective h) tt
  samples_aged-All P p today (s ∷ ss) rest all h =
      let (days, e, h1) = >>=-eq-ok (age today s.date) _ h in
      let (later, l, h2) = >>=-eq-ok (samples_aged p today ss) _ h1 in
      let ih = samples_aged-All P p today ss later all.1 l in
      subst (All _) (ok_injective h2) (by_age days e later ih (p days) refl)
    where
      by_age :
          (days : ℤ)
          → age today s.date ≡ ok days
          → (later : List (Sample R)) → All (λ u. P u × IsAged p today u.date) later
          → (passes : Bool) → p days ≡ passes
          → All (λ u. P u × IsAged p today u.date) (if passes then s ∷ later else later)
      by_age days e later ih true g = ((all.0, (days, e, g)), ih)
      by_age days e later ih false g = ih

  own_samples-IsOwn :
      (removed : Dict (Removed R)) (name : Text) (today : Date) (ss : List (Sample R))
      → All (IsOwn removed name today) (own_samples removed name ss)
  unfolding own_samples
  own_samples-IsOwn removed name today ss = by_entry (Dict.get removed name)
    where
      all_later :
          (us : List (Sample R)) (entry : Removed R)
          → All (IsLater (some entry)) us
          → All (λ s. (s.date ≡ isoformat today) ⊎ IsLater (some entry) s) us
      all_later [] entry all = tt
      all_later (u ∷ us) entry all = (inr all.0, all_later us entry all.1)

      all_unbound : (us : List (Sample R)) → All (λ s. (s.date ≡ isoformat today) ⊎ Unit {0}) us
      all_unbound [] = tt
      all_unbound (u ∷ us) = (inr tt, all_unbound us)

      by_entry :
          (entry : Option (Removed R))
          → All
              (λ s. (s.date ≡ isoformat today) ⊎ IsLater entry s)
              (elim entry [ none ↦ ss | some e ↦ samples_after e.removed_date ss ])
      by_entry none = all_unbound ss
      by_entry (some e) =
          all_later (samples_after e.removed_date ss) e (samples_after-after e.removed_date ss)

  next_samples-AreFresh :
      (today : Date) (interval max_age : ℤ) (r : R) (removed : Dict (Removed R)) (name : Text)
      (ss next : List (Sample R))
      → All (IsOwn removed name today) ss
      → next_samples today interval max_age r ss ≡ ok next
      → AreFresh today max_age removed name next
  unfolding next_samples
  next_samples-AreFresh today interval max_age r removed name ss next own h =
      let (due, e, h1) = >>=-eq-ok (is_due today interval ss) _ h in
      samples_aged-All (IsOwn removed name today) (is_recent max_age) today _ next (with_new due) h1
    where
      with_new :
          (due : Bool)
          → All (IsOwn removed name today) (if due then ss ++ new_sample today r ∷ [] else ss)
      with_new true = All-append (IsOwn removed name today) ss _ own (inl refl, tt)
      with_new false = own

  put-IsFresh :
      (today : Date) (max_age : ℤ) (removed : Dict (Removed R)) (history : History R) (name : Text)
      (ss : List (Sample R))
      → IsFresh today max_age removed history
      → AreFresh today max_age removed name ss
      → IsFresh today max_age removed (Dict.put history name ss)
  unfolding Dict.put
  put-IsFresh today max_age removed [] name ss fresh now = (now, tt)
  put-IsFresh today max_age removed ((n, old) ∷ history) name ss fresh now =
      elim (Bool-cases (same n name)) [
        | inl here ↦ rw here (
          subst (λ k. AreFresh today max_age removed k ss) (sym (same→eq n name here)) now,
          fresh.1,
        )
        | inr other ↦
            rw other (fresh.0, put-IsFresh today max_age removed history name ss fresh.1 now)
      ]

  update_each-IsFresh :
      (history : History R) (current : Dict R) (today : Date) (interval max_age : ℤ)
      (removed : Dict (Removed R)) (updated result : History R)
      → IsFresh today max_age removed updated
      → update_each history current today interval max_age removed updated ≡ ok result
      → IsFresh today max_age removed result
  unfolding update_each
  update_each-IsFresh history [] today interval max_age removed updated result fresh h =
      subst (IsFresh today max_age removed) (ok_injective h) fresh
  update_each-IsFresh history ((name, r) ∷ current) today interval max_age removed updated result
        fresh h =
      let (ss, e, h1) =
        >>=-eq-ok
          (next_samples today interval max_age r
            (own_samples removed name (samples_of history name)))
          _ h in
      update_each-IsFresh history current today interval max_age removed (Dict.put updated name ss)
        result
        (put-IsFresh today max_age removed updated name ss fresh (
          next_samples-AreFresh today interval max_age r removed name _ ss
            (own_samples-IsOwn removed name today _) e))
        h1

  update_each-has :
      (history : History R) (current : Dict R) (today : Date) (interval max_age : ℤ)
      (removed : Dict (Removed R)) (updated result : History R) (name : Text)
      → update_each history current today interval max_age removed updated ≡ ok result
      → Dict.has result name ≡ (Dict.has current name || Dict.has updated name)
  unfolding update_each Dict.has
  update_each-has history [] today interval max_age removed updated result name h =
      sym (ap (λ d. Dict.has d name) (ok_injective h))
  update_each-has history ((n, r) ∷ current) today interval max_age removed updated result name h =
      let (ss, e, h1) =
        >>=-eq-ok
          (next_samples today interval max_age r (own_samples removed n (samples_of history n))) _
          h in
      let later =
        update_each-has history current today interval max_age removed (Dict.put updated n ss)
          result name h1 in
      let put_has = has-put updated n name ss in grind arith

  or_nil :
      (current : Dict R) (name : Text)
      → (Dict.has current name || Dict.has {V = List (Sample R)} [] name) ≡ Dict.has current name
  unfolding Dict.has
  or_nil current name = ground arith

  -- If the update returns, the history has exactly the torrents of the run. Each of its samples is
  -- at most `window + interval` days old, and is of this run or dated after the torrent's entry in
  -- the removed history.
  pub update_ratio_history-IsFresh :
      (history : History R) (current : Dict R) (today : Date) (interval window : ℤ)
      (removed : Dict (Removed R)) (result : History R)
      → update_ratio_history history current today interval window removed ≡ ok result
      → ((name : Text) → Dict.has result name ≡ Dict.has current name)
        × IsFresh today (add_ℤ window interval) removed result
  unfolding update_ratio_history
  update_ratio_history-IsFresh history current today interval window removed result h = (
    λ name.
        update_each-has history current today interval _ removed [] result name h
        ∙ or_nil current name,
    update_each-IsFresh history current today interval _ removed [] result tt h,
  )
