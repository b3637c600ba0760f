-- ===== src/Cleanup/History.antt =====
-- The history of ratios: `update_ratio_history` and `_stagnation_anchor`. A day count below a float
-- is an int of Python.
pub mod Fresh
pub mod Dated
use linux_iso_seeder.Base.{
  ℕ, zero, suc, Bool, true, false, ◌&&◌, ◌||◌, not, Option, none, some, List, [], ◌∷◌, ◌++◌,
  if◌then◌else◌, Result, ok, raised, ◌>>=◌,
}
use linux_iso_seeder.Base.Int.{ℤ, add_ℤ, ltb_ℤ}
use linux_iso_seeder.Base.Text.{Text, less}
use linux_iso_seeder.Base.Dict
use linux_iso_seeder.Base.Dict.{Dict}
use linux_iso_seeder.Dates.{Date, days_between, isoformat, from_isoformat}
use linux_iso_seeder.Gate.{Removed}

-- `{"date": ..., "ratio": ...}`
pub record Sample (R : Type 0) : Type 0 where
  pub date : Text
  pub ratio : R

-- `(today - date.fromisoformat(text)).days`
unfoldable pub age : Date → Text → Result ℤ
unfolding from_isoformat days_between
age today text = from_isoformat text >>= λ d. ok (days_between today d)

unfoldable pub is_recent : ℤ → ℤ → Bool
is_recent max_age days = not (ltb_ℤ max_age days)

unfoldable pub is_old : ℤ → ℤ → Bool
is_old window days = not (ltb_ℤ days window)

abbrev pub History : Type 0 → Type 0
History R = Dict (List (Sample R))

module _ {R : Type 0} where
  -- `history.get(name, [])`
  abbrev pub samples_of : History R → Text → List (Sample R)
  samples_of history name = elim (Dict.get history name) [ none ↦ [] | some ss ↦ ss ]

  -- `[s for s in samples if s["date"] > removed_date]`
  unfoldable pub samples_after : Text → List (Sample R) → List (Sample R)
  samples_after removed_date [] = []
  samples_after removed_date (s ∷ ss) =
      let rest = samples_after removed_date ss in
      if less removed_date s.date then s ∷ rest else rest

  -- Without the samples of a copy that was removed.
  unfoldable pub own_samples : Dict (Removed R) → Text → List (Sample R) → List (Sample R)
  unfolding samples_after
  own_samples removed_history name samples = elim (Dict.get removed_history name) [
    | none ↦ samples
    | some entry ↦ samples_after entry.removed_date samples
  ]

  -- `samples[-1]`
  abbrev pub last_sample : Sample R → List (Sample R) → Sample R
  last_sample s [] = s
  last_sample s (t ∷ ts) = last_sample t ts

  -- `not samples or (today - ...samples[-1]...).days >= sample_interval_days`
  unfoldable pub is_due : Date → ℤ → List (Sample R) → Result Bool
  unfolding age
  is_due today interval [] = ok true
  is_due today interval (s ∷ ss) = do
    days ← age today (last_sample s ss).date
    ok (not (ltb_ℤ days interval))

  abbrev pub new_sample : Date → R → Sample R
  new_sample today r = record { date = isoformat today; ratio = r }

  -- The samples whose age passes a test.
  unfoldable pub samples_aged : (ℤ → Bool) → Date → List (Sample R) → Result (List (Sample R))
  unfolding age
  samples_aged p today [] = ok []
  samples_aged p today (s ∷ ss) = do
    days ← age today s.date
    rest ← samples_aged p today ss
    ok (if p days then s ∷ rest else rest)

  -- The loop's body: the samples of one torrent.
  unfoldable pub next_samples : Date → ℤ → ℤ → R → List (Sample R) → Result (List (Sample R))
  unfolding is_due samples_aged is_recent
  next_samples today interval max_age r samples = do
    due ← is_due today interval samples
    samples_aged (is_recent max_age) today
        (if due then samples ++ new_sample today r ∷ [] else samples)

  unfoldable pub update_each :
      History R → Dict R → Date → ℤ → ℤ → Dict (Removed R) → History R → Result (History R)
  unfolding next_samples own_samples
  update_each history [] today interval max_age removed updated = ok updated
  update_each history ((name, r) ∷ current) today interval max_age removed updated = do
    samples ←
        next_samples today interval max_age r (own_samples removed name (samples_of history name))
    update_each history current today interval max_age removed (Dict.put updated name samples)

  unfoldable pub update_ratio_history :
      History R → Dict R → Date → ℤ → ℤ → Dict (Removed R) → Result (History R)
  unfolding update_each
  update_ratio_history history current today interval window removed =
      update_each history current today interval (add_ℤ window interval) removed []

  -- `min(old_enough, key=lambda s: s["date"])`
  unfoldable pub oldest : Sample R → List (Sample R) → Sample R
  oldest s [] = s
  oldest s (t ∷ ts) = oldest (if less t.date s.date then t else s) ts

  unfoldable pub anchor_of : List (Sample R) → Option R
  unfolding oldest
  anchor_of [] = none
  anchor_of (s ∷ ss) = some (oldest s ss).ratio

  -- `_stagnation_anchor`
  unfoldable pub stagnation_anchor : List (Sample R) → Date → ℤ → Result (Option R)
  unfolding samples_aged is_old anchor_of
  stagnation_anchor samples today window = do
    old_enough ← samples_aged (is_old window) today samples
    ok (anchor_of old_enough)
