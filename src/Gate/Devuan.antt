-- ===== src/Gate/Devuan.antt =====
-- When `should_fetch_torrent` turns a release of Devuan down.
use linux_iso_seeder.Base.{
  ◌≡◌, ◌≢◌, ◌⊎◌, ◌&&◌, Option, some, AnyOf, Option-cases, refl, ◌↔◌, Bool, true, false, not, none,
  List, [], ◌∷◌, if◌then◌else◌, All, Bool-cases, inl, inr,
}
use linux_iso_seeder.Base.Text.{Text, same, same→eq, same_iff}
use linux_iso_seeder.Base.Dict
use linux_iso_seeder.Base.Dict.{Dict}
use linux_iso_seeder.Base.Float.{Float, IsOrdered}
use linux_iso_seeder.Names.{is_devuan, get_distro}
use linux_iso_seeder.Gate.{
  Removed, max_ratio, best_clears, prior_ratios, devuan_live, devuan_removed, should_fetch_devuan,
  should_fetch_torrent,
}

eq-not : (b : Bool) → not b ≡ false → b ≡ true
eq-not true h = refl
eq-not false h = cc h

module _ (fl : Float) where
  open fl use {F, one_float, lt}

  abbrev pub AreLow : List F → Type 0
  AreLow rs = All (λ r. lt r one_float ≡ true) rs

  -- There are ratios, all below 1.0.
  abbrev pub AreUnseeded : List F → Type 0
  AreUnseeded [] = ⊥
  AreUnseeded (r ∷ rs) = AreLow (r ∷ rs)

-- A release of Devuan of another name, and any name that is not.
abbrev pub IsOther : Text → Text → Type 0
IsOther name n = (n ≢ name) × (is_devuan n ≡ true)

abbrev pub IsNoOther : Text → Text → Type 0
IsNoOther name n = (n ≡ name) ⊎ (is_devuan n ≡ false)

IsOther-cases :
    (name n : Text)
    → (IsOther name n × ((not (same n name) && is_devuan n) ≡ true))
      ⊎ (IsNoOther name n × ((not (same n name) && is_devuan n) ≡ false))
IsOther-cases name n = elim (Bool-cases (same n name)) [
  | inl own ↦ inr (inl (same→eq n name own), rw own refl)
  | inr different ↦ elim (Bool-cases (is_devuan n)) [
    | inl devuan ↦
        inl ((λ e. cc (different, (same_iff n name).1 e), devuan), rw (different, devuan) refl)
    | inr foreign ↦ inr (inr foreign, rw (different, foreign) refl)
  ]
]

other_not : {name n : Text} → IsOther name n → IsNoOther name n → ⊥
other_not (different, devuan) (inl own) = different own
other_not (different, devuan) (inr foreign) = cc (devuan, foreign)

module _ (fl : Float) (name : Text) where
  open fl use {F, one_float, lt}

  -- Another Devuan release is held, and all that are held have ratios below 1.0.
  abbrev pub AreHeldLow : Dict F → Type 0
  AreHeldLow ratios =
      AnyOf (λ e. IsOther name e.0) ratios
      × All (λ e. IsNoOther name e.0 ⊎ (lt e.1 one_float ≡ true)) ratios

  abbrev pub AreNoneHeld : Dict F → Type 0
  AreNoneHeld ratios = All (λ e. IsNoOther name e.0) ratios

  abbrev pub IsLowIfAny : Option F → Type 0
  IsLowIfAny none = Unit
  IsLowIfAny (some r) = lt r one_float ≡ true

  abbrev pub IsAny : Option F → Type 0
  IsAny none = ⊥
  IsAny (some r) = Unit

  -- The same of those that were removed, where an entry without a ratio counts for nothing.
  abbrev pub AreRemovedLow : Dict (Removed F) → Type 0
  AreRemovedLow removed_history =
      AnyOf (λ e. IsOther name e.0 × IsAny e.1.ratio) removed_history
      × All (λ e. IsNoOther name e.0 ⊎ IsLowIfAny e.1.ratio) removed_history

  devuan_live-low_iff :
      (ratios : Dict F)
      → AreLow fl (devuan_live name ratios)
        ↔ All (λ e. IsNoOther name e.0 ⊎ (lt e.1 one_float ≡ true)) ratios
  unfolding devuan_live
  devuan_live-low_iff [] = (λ h. tt, λ h. tt)
  devuan_live-low_iff ((n, r) ∷ ratios) =
      let (to, from) = devuan_live-low_iff ratios in
      elim (IsOther-cases name n) [
        | inl (other, e) ↦ rw e (
          λ h. (inr h.0, to h.1),
          λ h.
              (elim (h.0) [ inl apart ↦ absurd (other_not other apart) | inr low ↦ low ], from h.1),
        )
        | inr (apart, e) ↦ rw e (λ h. (inl apart, to h), λ h. from h.1)
      ]

  devuan_live-cases :
      (ratios : Dict F)
      → ((devuan_live name ratios ≡ []) × AreNoneHeld ratios)
        ⊎ ((r : F) × (rs : List F) × (devuan_live name ratios ≡ r ∷ rs)
            × AnyOf (λ e. IsOther name e.0) ratios)
  unfolding devuan_live
  devuan_live-cases [] = inl (refl, tt)
  devuan_live-cases ((n, r) ∷ ratios) = elim (IsOther-cases name n) [
    | inl (other, e) ↦ rw e (inr (r, devuan_live name ratios, refl, inl other))
    | inr (apart, e) ↦ elim (devuan_live-cases ratios) [
      | inl (empty, none_held) ↦ rw e (inl (empty, (apart, none_held)))
      | inr (q, qs, held, there) ↦ rw e (inr (q, qs, held, inr there))
    ]
  ]

  devuan_removed-low_iff :
      (removed_history : Dict (Removed F))
      → AreLow fl (devuan_removed name removed_history)
        ↔ All (λ e. IsNoOther name e.0 ⊎ IsLowIfAny e.1.ratio) removed_history
  unfolding devuan_removed
  devuan_removed-low_iff [] = (λ h. tt, λ h. tt)
  devuan_removed-low_iff ((n, record_) ∷ removed_history) =
      let (to, from) = devuan_removed-low_iff removed_history in
      elim (IsOther-cases name n) [
        | inl (other, e) ↦ elim (Option-cases record_.ratio) [
          | inl blank ↦ rw (e, blank) (λ h. (inr tt, to h), λ h. from h.1)
          | inr (r, given) ↦
              rw (e, given)
                (
                  λ h. (inr h.0, to h.1),
                  λ h. (
                    elim (h.0) [ inl apart ↦ absurd (other_not other apart) | inr low ↦ low ],
                    from h.1,
                  ),
                )
        ]
        | inr (apart, e) ↦ rw e (λ h. (inl apart, to h), λ h. from h.1)
      ]

  devuan_removed-AnyOf :
      (removed_history : Dict (Removed F))
      → (devuan_removed name removed_history ≢ [])
        ↔ AnyOf (λ e. IsOther name e.0 × IsAny e.1.ratio) removed_history
  unfolding devuan_removed
  devuan_removed-AnyOf [] = (λ h. h refl, λ h. absurd h)
  devuan_removed-AnyOf ((n, record_) ∷ removed_history) =
      let (to, from) = devuan_removed-AnyOf removed_history in
      elim (IsOther-cases name n) [
        | inl (other, e) ↦ elim (Option-cases record_.ratio) [
          | inl blank ↦
              rw (e, blank)
                (λ h. inr (to h), λ h. elim h [ inl bad ↦ absurd (bad.1) | inr there ↦ from there ])
          | inr (r, given) ↦ rw (e, given) (λ h. inl (other, tt), λ h k. cc k)
        ]
        | inr (apart, e) ↦ rw e (
          λ h. inr (to h),
          λ h. elim h [ inl bad ↦ absurd (other_not bad.0 apart) | inr there ↦ from there ],
        )
      ]

module _ (fl : Float) (ordered : IsOrdered fl) where
  open fl use {F, one_float, lt}

  low_below : (r x : F) → lt r x ≡ false → lt r one_float ≡ true → lt x one_float ≡ true
  low_below r x above low = elim (Bool-cases (lt x one_float)) [
    | inl done ↦ done
    | inr high ↦ absurd (cc (ordered.ge_trans r x one_float above high, low))
  ]

  max_ratio-low :
      (r : F) (xs : List F) → lt (max_ratio fl r xs) one_float ≡ true → AreLow fl (r ∷ xs)
  unfolding max_ratio
  max_ratio-low r [] low = (low, tt)
  max_ratio-low r (x ∷ xs) low = elim (Bool-cases (lt r x)) [
    | inl less ↦
        let (first, rest) = max_ratio-low x xs (rw less at low) in
        (ordered.lt_trans r x one_float less first, (first, rest))
    | inr stays ↦
        let (first, rest) = max_ratio-low r xs (rw stays at low) in
        (first, (low_below r x stays first, rest))
  ]

  low-max_ratio :
      (r : F) (xs : List F) → AreLow fl (r ∷ xs) → lt (max_ratio fl r xs) one_float ≡ true
  unfolding max_ratio
  low-max_ratio r [] low = low.0
  low-max_ratio r (x ∷ xs) low = elim (Bool-cases (lt r x)) [
    | inl less ↦ rw less (low-max_ratio x xs low.1)
    | inr stays ↦ rw stays (low-max_ratio r xs (low.0, low.1.1))
  ]

  best_clears-false_iff : (rs : List F) → (best_clears fl rs ≡ false) ↔ AreUnseeded fl rs
  unfolding best_clears
  best_clears-false_iff [] = (λ h. cc h, λ h. absurd h)
  best_clears-false_iff (r ∷ rs) = (
    λ h. max_ratio-low r rs (eq-not (lt (max_ratio fl r rs) one_float) h),
    λ low. rw (low-max_ratio r rs low) refl,
  )

  AreUnseeded-iff : (rs : List F) → AreUnseeded fl rs ↔ ((rs ≢ []) × AreLow fl rs)
  AreUnseeded-iff [] = (λ h. absurd h, λ h. h.0 refl)
  AreUnseeded-iff (r ∷ rs) = (λ h. (λ e. cc e, h), λ h. h.1)

  none_other :
      (name : Text) (ratios : Dict F)
      → AreNoneHeld fl name ratios
      → AnyOf (λ e. IsOther name e.0) ratios
      → ⊥
  none_other name [] none_held there = absurd there
  none_other name (e ∷ ratios) (apart, rest) (inl other) = other_not other apart
  none_other name (e ∷ ratios) (apart, rest) (inr there) = none_other name ratios rest there

  prior_iff :
      (name : Text) (ratios : Dict F) (removed_history : Dict (Removed F))
      → AreUnseeded fl
          (prior_ratios fl (devuan_live name ratios) (devuan_removed name removed_history))
        ↔ (AreHeldLow fl name ratios
            ⊎ (AreNoneHeld fl name ratios × AreRemovedLow fl name removed_history))
  unfolding prior_ratios
  prior_iff name ratios removed_history = elim (devuan_live-cases fl name ratios) [
    | inl (empty, none_held) ↦
        let (to, from) = AreUnseeded-iff (devuan_removed name removed_history) in
        let (any_to, any_from) = devuan_removed-AnyOf fl name removed_history in
        let (low_to, low_from) = devuan_removed-low_iff fl name removed_history in
        rw empty (
          λ h. let (some_there, low) = to h in inr (none_held, (any_to some_there, low_to low)),
          λ h. elim h [
            | inl (held, low) ↦ absurd (none_other name ratios none_held held)
            | inr (none_held', (removed, low)) ↦ from (any_from removed, low_from low)
          ],
        )
    | inr (r, rs, e, held) ↦
        let (low_to, low_from) = devuan_live-low_iff fl name ratios in
        rw e (
          λ h. inl (held, low_to (rw e h)),
          λ h. elim h [
            | inl (held', low) ↦ rw e at low_from low
            | inr (none_held, removed) ↦ absurd (none_other name ratios none_held held)
          ],
        )
  ]

  -- A name of Devuan's pattern and of no other distribution is turned down exactly when the ratio
  -- check is not skipped, the release is not held itself, and one of two holds. Other Devuan releases
  -- are held, all with ratios below 1.0; or none is held, and of the Devuan releases of other names in
  -- the removed history at least one has a ratio, and all that have one have one below 1.0. Ratios
  -- are ordered by `<`.
  pub should_fetch_torrent-devuan_iff :
      (name : Text) (ratios : Dict F) (removed_history : Dict (Removed F)) (skip_ratio_check : Bool)
      → get_distro name ≡ none
      → is_devuan name ≡ true
      → (should_fetch_torrent fl name ratios removed_history skip_ratio_check ≡ false) ↔ (
          (skip_ratio_check ≡ false)
          × (Dict.has ratios name ≡ false)
          × (AreHeldLow fl name ratios
              ⊎ (AreNoneHeld fl name ratios × AreRemovedLow fl name removed_history)))
  unfolding should_fetch_torrent should_fetch_devuan
  should_fetch_torrent-devuan_iff name ratios removed_history true unknown devuan =
      (λ h. cc h, λ h. cc (h.0))
  should_fetch_torrent-devuan_iff name ratios removed_history false unknown devuan =
      rw (unknown, devuan) (by_held (Dict.has ratios name))
    where
      prior : List F
      prior = prior_ratios fl (devuan_live name ratios) (devuan_removed name removed_history)

      by_held :
          (held : Bool)
          → ((if held then true else best_clears fl prior) ≡ false) ↔ (
              (false ≡ false)
              × (held ≡ false)
              × (AreHeldLow fl name ratios
                  ⊎ (AreNoneHeld fl name ratios × AreRemovedLow fl name removed_history)))
      by_held true = (λ h. cc h, λ h. cc (h.1))
      by_held false = (
        λ h. (
          refl,
          refl,
          (prior_iff name ratios removed_history).0 ((best_clears-false_iff prior).0 h),
        ),
        λ h. (best_clears-false_iff prior).1 ((prior_iff name ratios removed_history).1 h.2),
      )
