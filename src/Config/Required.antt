-- ===== src/Config/Required.antt =====
-- A number that does not parse is missed only where it is required.
use linux_iso_seeder.Base.{
  ◌≡◌, refl, Bool, false, ◌&&◌, not, ◌||◌, Option, none, some, List, [], ◌∷◌, ◌++◌, arith,
  if◌then◌else◌, any, all, Result, ok, raised, value_error,
}
use linux_iso_seeder.Base.Text.{Text}
use linux_iso_seeder.Base.Env.{Environment}
use linux_iso_seeder.Base.Dict
use linux_iso_seeder.Base.Dict.{is_some}
use linux_iso_seeder.Base.Float.{Float}
use linux_iso_seeder.Config.{
  Config, Field, old_release_min_leechers, old_release_min_leecher_ratio, old_release_recheck_days,
  cleanup_min_ratio, stagnation_window_days, stagnation_min_ratio_delta,
  disk_usage_threshold_percent, is_field, Invalid, is_invalid, require, converted, number,
  load_config,
}

-- Whether the config has a number for the field.
abbrev pub is_set : {R : Type 0} → Config R → Field → Bool
is_set config old_release_min_leechers = is_some config.min_leechers
is_set config old_release_min_leecher_ratio = is_some config.min_leecher_ratio
is_set config old_release_recheck_days = is_some config.recheck_days
is_set config cleanup_min_ratio = is_some config.min_ratio
is_set config stagnation_window_days = is_some config.window_days
is_set config stagnation_min_ratio_delta = is_some config.min_ratio_delta
is_set config disk_usage_threshold_percent = is_some config.threshold_percent

is_invalid-append :
    (xs ys : Invalid) (f : Field) → is_invalid (xs ++ ys) f ≡ (is_invalid xs f || is_invalid ys f)
unfolding is_invalid
is_invalid-append [] ys f = refl
is_invalid-append (x ∷ xs) ys f = ground (arith, is_invalid-append xs ys f)

is_invalid-number :
    {A : Type 0} (env : Environment) (g f : Field) (key : Text) (default : A)
    (convert : Text → Result A)
    → is_invalid (number env g key default convert).1 f
      ≡ (is_field g f && not (is_some (number env g key default convert).0))
unfolding number is_invalid converted
is_invalid-number {A} env g f key default convert = by_raw (Dict.get env key)
  where
    by_raw :
        (raw : Option Text)
        → let n : Option A × Invalid = elim raw [
          | none ↦ (some default, [])
          | some r ↦ converted g key (convert r)
        ] in
          any (λ entry. is_field entry.0 f) n.1 ≡ (is_field g f && not (is_some n.0))
    by_raw none = ground arith
    by_raw (some r) = by_result (convert r)
      where
        by_result :
            (result : Result A)
            → any (λ entry. is_field entry.0 f) (converted g key result).1
              ≡ (is_field g f && not (is_some (converted g key result).0))
        by_result (ok v) = ground arith
        by_result (raised e) = ground arith

or_false : (b : Bool) → (b || false) ≡ b
or_false b = ground arith

module _ (fl : Float) where
  open fl use {F}

  load_config-is_invalid :
      (env : Environment) (f : Field)
      → is_invalid (load_config fl env).invalid f ≡ not (is_set (load_config fl env) f)
  unfolding load_config
  load_config-is_invalid env old_release_min_leechers =
      simp (is_invalid-append, is_invalid-number, or_false)
  load_config-is_invalid env old_release_min_leecher_ratio =
      simp (is_invalid-append, is_invalid-number, or_false)
  load_config-is_invalid env old_release_recheck_days =
      simp (is_invalid-append, is_invalid-number, or_false)
  load_config-is_invalid env cleanup_min_ratio =
      simp (is_invalid-append, is_invalid-number, or_false)
  load_config-is_invalid env stagnation_window_days =
      simp (is_invalid-append, is_invalid-number, or_false)
  load_config-is_invalid env stagnation_min_ratio_delta =
      simp (is_invalid-append, is_invalid-number, or_false)
  load_config-is_invalid env disk_usage_threshold_percent =
      simp (is_invalid-append, is_invalid-number)

  -- Whatever the environment holds, the settings load. `require` then raises ValueError exactly if
  -- one of the fields it is asked for has no number.
  pub require-load_config :
      (env : Environment) (fields : List Field)
      → require (load_config fl env) fields
        ≡ (if all (is_set (load_config fl env)) fields then ok tt else raised value_error)
  unfolding require
  require-load_config env [] = refl
  require-load_config env (f ∷ fs) =
      ground (arith, load_config-is_invalid env f, require-load_config env fs)
