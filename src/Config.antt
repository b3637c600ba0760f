-- ===== src/Config.antt =====
-- fetch_torrents.py: the settings of the daily run, read from the environment once.
pub mod Distros
pub mod Required
use linux_iso_seeder.Base.{
  ℕ, Bool, true, false, ◌&&◌, ◌||◌, not, Option, none, some, List, [], ◌∷◌, ◌++◌, if◌then◌else◌,
  any, all, Result, ok, raised, value_error,
}
use linux_iso_seeder.Base.Int.{ℤ, pos}
use linux_iso_seeder.Base.Text.{Text, codes, same}
use linux_iso_seeder.Base.Strings.{strip, split, lower, upper, int_of, is_ascii_digit}
use linux_iso_seeder.Base.Env.{Environment, env_text, is_empty}
use linux_iso_seeder.Base.Dict
use linux_iso_seeder.Base.Float.{Float}
use linux_iso_seeder.Names.{Distro, ubuntu, debian, kali, arch, mint, fedora, devuan, is_distro}

-- An int that is wanted, or the default.
unfoldable pub int_or : ℤ → Result ℤ → ℤ
int_or default (ok n) = n
int_or default (raised e) = default

unfoldable pub parse_int : Text → ℤ → Environment → ℤ
unfolding int_or
parse_int env_var default env =
    let value = strip (env_text env env_var) in
    if is_empty value then default else int_or default (int_of value)

unfoldable pub parse_bool : Text → Bool → Environment → Bool
parse_bool env_var default env =
    let value = lower (strip (env_text env env_var)) in
    if is_empty value
    then default
    else any (same value) (codes "1" ∷ codes "true" ∷ codes "yes" ∷ codes "on" ∷ [])

-- `logging._nameToLevel`
abbrev level_names : List (Text × ℤ)
level_names =
    (codes "CRITICAL", pos 50)
    ∷ (codes "FATAL", pos 50)
    ∷ (codes "ERROR", pos 40)
    ∷ (codes "WARN", pos 30)
    ∷ (codes "WARNING", pos 30)
    ∷ (codes "INFO", pos 20)
    ∷ (codes "DEBUG", pos 10)
    ∷ (codes "NOTSET", pos 0)
    ∷ []

unfoldable pub parse_log_level : Text → ℤ → Environment → ℤ
unfolding int_or
parse_log_level env_var default env =
    let value = strip (env_text env env_var) in
    if is_empty value
    then default
    else if all is_ascii_digit value
    then int_or default (int_of value)
    else elim (Dict.get level_names (upper value)) [ none ↦ default | some level ↦ level ]

abbrev pub all_distros : List Distro
all_distros = ubuntu ∷ debian ∷ kali ∷ arch ∷ mint ∷ fedora ∷ devuan ∷ []

-- `OPT_IN_DISTROS`
abbrev pub is_opt_in : Distro → Bool
is_opt_in arch = true
is_opt_in devuan = true
is_opt_in _ = false

abbrev pub where_distro : (Distro → Bool) → List Distro → List Distro
where_distro p [] = []
where_distro p (d ∷ ds) = let rest = where_distro p ds in if p d then d ∷ rest else rest

abbrev pub default_distros : List Distro
default_distros = where_distro (λ d. not (is_opt_in d)) all_distros

abbrev pub distro_name : Distro → Text
distro_name ubuntu = codes "ubuntu"
distro_name debian = codes "debian"
distro_name kali = codes "kali"
distro_name arch = codes "arch"
distro_name mint = codes "mint"
distro_name fedora = codes "fedora"
distro_name devuan = codes "devuan"

-- `[entry.strip().lower() for entry in entries if entry.strip()]`
unfoldable pub lowered_entries : List Text → List Text
lowered_entries [] = []
lowered_entries (e ∷ es) =
    let rest = lowered_entries es in if is_empty (strip e) then rest else lower (strip e) ∷ rest

abbrev pub is_requested : List Text → Distro → Bool
is_requested entries d = any (same (distro_name d)) entries

abbrev pub or_default : List Distro → List Distro
or_default [] = default_distros
or_default (d ∷ ds) = d ∷ ds

unfoldable pub requested_entries : Environment → List Text
unfolding lowered_entries
requested_entries env =
    lowered_entries (split b',' (strip (env_text env (codes "FETCH_TORRENTS_DISTROS"))))

unfoldable pub parse_supported_distros : Environment → List Distro
unfolding requested_entries
parse_supported_distros env =
    if is_empty (strip (env_text env (codes "FETCH_TORRENTS_DISTROS")))
    then default_distros
    else or_default (where_distro (is_requested (requested_entries env)) all_distros)

-- The fields of `Config` that a number is read for.
pub data Field : Type 0 where
  old_release_min_leechers old_release_min_leecher_ratio old_release_recheck_days : Field
  cleanup_min_ratio stagnation_window_days stagnation_min_ratio_delta : Field
  disk_usage_threshold_percent : Field

abbrev pub is_field : Field → Field → Bool
is_field old_release_min_leechers old_release_min_leechers = true
is_field old_release_min_leecher_ratio old_release_min_leecher_ratio = true
is_field old_release_recheck_days old_release_recheck_days = true
is_field cleanup_min_ratio cleanup_min_ratio = true
is_field stagnation_window_days stagnation_window_days = true
is_field stagnation_min_ratio_delta stagnation_min_ratio_delta = true
is_field disk_usage_threshold_percent disk_usage_threshold_percent = true
is_field _ _ = false

-- `invalid` has the variable of each field whose number does not parse; its message begins with it.
abbrev pub Invalid : Type 0
Invalid = List (Field × Text)

pub record Config (R : Type 0) : Type 0 where
  pub distros : List Distro
  pub include_low_demand : Bool
  pub skip_ratio_check : Bool
  pub check_old_releases : Bool
  pub min_leechers : Option ℤ
  pub min_leecher_ratio : Option R
  pub allow_zero_seeders : Bool
  pub recheck_days : Option ℤ
  pub skip_removed : Bool
  pub keep_only_latest : Bool
  pub cleanup_skip_ratio_check : Bool
  pub min_ratio : Option R
  pub window_days : Option ℤ
  pub min_ratio_delta : Option R
  pub threshold_percent : Option R
  pub rpc_username : Option Text
  pub rpc_password : Option Text
  pub invalid : Invalid

-- `config.require(*fields)`
unfoldable pub is_invalid : Invalid → Field → Bool
is_invalid invalid f = any (λ entry. is_field entry.0 f) invalid

unfoldable pub require : {R : Type 0} → Config R → List Field → Result (Unit {0})
unfolding is_invalid
require config [] = ok tt
require config (f ∷ fs) =
    if is_invalid config.invalid f then raised value_error else require config fs

-- `value or None`
abbrev pub or_none : Text → Option Text
or_none s = if is_empty s then none else some s

-- Both texts, neither empty.
abbrev both : Option Text → Option Text → Option (Text × Text)
both (some u) (some p) = if is_empty u || is_empty p then none else some (u, p)
both (some u) none = none
both none p = none

-- `config.rpc_auth`
unfoldable pub rpc_auth : {R : Type 0} → Config R → Option (Text × Text)
rpc_auth config = both config.rpc_username config.rpc_password

-- What `number` gives: the value, and what it adds to `invalid`. A conversion raises nothing but
-- ValueError.
unfoldable pub converted : {A : Type 0} → Field → Text → Result A → Option A × Invalid
converted f key (ok value) = (some value, [])
converted f key (raised e) = (none, (f, key) ∷ [])

unfoldable pub number :
    {A : Type 0} → Environment → Field → Text → A → (Text → Result A) → Option A × Invalid
unfolding converted
number env f key default convert = elim (Dict.get env key) [
  | none ↦ (some default, [])
  | some raw ↦ converted f key (convert raw)
]

module _ (fl : Float) where
  open fl use {F, literal, float_of}

  unfoldable pub load_config : Environment → Config F
  load_config env =
      let leechers =
        number env old_release_min_leechers (codes "FETCH_TORRENTS_OLD_RELEASE_MIN_LEECHERS")
          (pos 10) int_of in
      let leecher_ratio =
        number env old_release_min_leecher_ratio
          (codes "FETCH_TORRENTS_OLD_RELEASE_MIN_LEECHER_RATIO") (literal 100) float_of in
      let recheck =
        number env old_release_recheck_days (codes "FETCH_TORRENTS_OLD_RELEASE_RECHECK_DAYS")
          (pos 7) int_of in
      let ratio =
        number env cleanup_min_ratio (codes "CLEANUP_MIN_RATIO") (literal 1000) float_of in
      let window =
        number env stagnation_window_days (codes "CLEANUP_STAGNATION_WINDOW_DAYS") (pos 30)
          int_of in
      let delta =
        number env stagnation_min_ratio_delta (codes "CLEANUP_STAGNATION_MIN_RATIO_DELTA")
          (literal 20) float_of in
      let threshold =
        number env disk_usage_threshold_percent (codes "CLEANUP_DISK_USAGE_THRESHOLD_PERCENT")
          (literal 95000) float_of in
      record {
        distros = parse_supported_distros env;
        include_low_demand = parse_bool (codes "FETCH_TORRENTS_INCLUDE_LOW_DEMAND") false env;
        skip_ratio_check = parse_bool (codes "SKIP_RATIO_CHECK") false env;
        check_old_releases = parse_bool (codes "FETCH_TORRENTS_CHECK_OLD_RELEASES") false env;
        min_leechers = leechers.0;
        min_leecher_ratio = leecher_ratio.0;
        allow_zero_seeders =
            parse_bool (codes "FETCH_TORRENTS_OLD_RELEASE_ALLOW_ZERO_SEEDERS") false env;
        recheck_days = recheck.0;
        skip_removed = parse_bool (codes "FETCH_TORRENTS_OLD_RELEASE_SKIP_REMOVED") true env;
        keep_only_latest = parse_bool (codes "CLEANUP_KEEP_ONLY_LATEST_VERSION") false env;
        cleanup_skip_ratio_check = parse_bool (codes "CLEANUP_SKIP_RATIO_CHECK") false env;
        min_ratio = ratio.0;
        window_days = window.0;
        min_ratio_delta = delta.0;
        threshold_percent = threshold.0;
        rpc_username = or_none (strip (env_text env (codes "TRANSMISSION_RPC_USERNAME")));
        rpc_password = or_none (strip (env_text env (codes "TRANSMISSION_RPC_PASSWORD")));
        invalid =
            leechers.1
            ++ (leecher_ratio.1
                ++ (recheck.1 ++ (ratio.1 ++ (window.1 ++ (delta.1 ++ threshold.1)))));
      }
