-- ===== src/Configure.antt =====
-- configure_transmission.py: what the environment overrides in Transmission's settings.json.
pub mod Untouched
use linux_iso_seeder.Base.{
  ℕ, zero, suc, Bool, true, false, ◌&&◌, ◌||◌, not, Option, none, some, List, [], ◌∷◌, ◌++◌,
  if◌then◌else◌, any, Result, ok, raised,
}
use linux_iso_seeder.Base.Int.{ℤ, pos, negsuc}
use linux_iso_seeder.Base.Text.{Text, codes, same}
use linux_iso_seeder.Base.Strings.{strip, split, join, int_of, lower}
use linux_iso_seeder.Base.Env.{Environment, env_text, is_empty}
use linux_iso_seeder.Base.Dict
use linux_iso_seeder.Base.Dict.{Dict}

-- A value of settings.json: the kinds that are written, and any other JSON text that is there.
pub data Setting : Type 0 where
  flag : Bool → Setting
  number : ℤ → Setting
  words : Text → Setting
  other : Text → Setting

abbrev pub Settings : Type 0
Settings = Dict Setting

abbrev pub localhost_whitelist : List Text
localhost_whitelist = codes "127.0.0.1" ∷ codes "::1" ∷ []

-- `[entry.strip() for entry in entries.split(",") if entry.strip()]`
unfoldable pub stripped_entries : List Text → List Text
stripped_entries [] = []
stripped_entries (e ∷ es) =
    let rest = stripped_entries es in if is_empty (strip e) then rest else strip e ∷ rest

-- `[e for e in LOCALHOST_WHITELIST if e not in extra]`
unfoldable pub missing_from : List Text → List Text → List Text
missing_from extra [] = []
missing_from extra (e ∷ es) =
    let rest = missing_from extra es in if any (λ x. same x e) extra then rest else e ∷ rest

-- The entries of `build_whitelist` before they are joined.
unfoldable pub whitelist_entries : Text → List Text
unfolding stripped_entries missing_from
whitelist_entries entries =
    let extra = stripped_entries (split b',' entries) in
    missing_from extra localhost_whitelist ++ extra

unfoldable pub build_whitelist : Text → Text
unfolding whitelist_entries
build_whitelist entries = join (codes ",") (whitelist_entries entries)

unfoldable pub whitelist_overrides : Text → Settings
unfolding build_whitelist
whitelist_overrides whitelist =
    if is_empty whitelist
    then []
    else (codes "rpc-whitelist-enabled", flag true)
      ∷ (codes "rpc-whitelist", words (build_whitelist whitelist))
      ∷ []

unfoldable pub login_overrides : Text → Text → Settings
login_overrides username password =
    if is_empty username || is_empty password
    then []
    else (codes "rpc-authentication-required", flag true)
      ∷ (codes "rpc-username", words username)
      ∷ (codes "rpc-password", words password)
      ∷ []

-- The two groups have no key in common.
unfoldable pub build_rpc_overrides : Environment → Settings
unfolding whitelist_overrides login_overrides
build_rpc_overrides env =
    whitelist_overrides (strip (env_text env (codes "TRANSMISSION_RPC_WHITELIST")))
    ++ login_overrides (strip (env_text env (codes "TRANSMISSION_RPC_USERNAME")))
        (strip (env_text env (codes "TRANSMISSION_RPC_PASSWORD")))

abbrev pub positive : Result ℤ → Option ℤ
positive (raised e) = none
positive (ok (pos zero)) = none
positive (ok (pos (suc n))) = some (pos (suc n))
positive (ok (negsuc n)) = none

unfoldable pub parse_positive_int : Text → Option ℤ
parse_positive_int value = if is_empty (strip value) then none else positive (int_of (strip value))

abbrev pub limit_override : Text → Option ℤ → Settings
limit_override key none = []
limit_override key (some n) = (key, number n) ∷ []

unfoldable pub build_peer_limit_overrides : Environment → Settings
unfolding parse_positive_int
build_peer_limit_overrides env =
    limit_override (codes "peer-limit-global")
      (parse_positive_int (env_text env (codes "TRANSMISSION_PEER_LIMIT_GLOBAL")))
    ++ limit_override (codes "peer-limit-per-torrent")
        (parse_positive_int (env_text env (codes "TRANSMISSION_PEER_LIMIT_PER_TORRENT")))

unfoldable pub parse_bool : Text → Option Bool
parse_bool value =
    if same (lower (strip value)) (codes "true")
    then some true
    else if same (lower (strip value)) (codes "false")
    then some false
    else none

abbrev pub forwarding_override : Option Bool → Bool → Settings
forwarding_override (some explicit) settings_file_exists =
    (codes "port-forwarding-enabled", flag explicit) ∷ []
forwarding_override none true = []
forwarding_override none false = (codes "port-forwarding-enabled", flag false) ∷ []

unfoldable pub build_port_forwarding_overrides : Environment → Bool → Settings
unfolding parse_bool
build_port_forwarding_overrides env settings_file_exists =
    forwarding_override (parse_bool (env_text env (codes "TRANSMISSION_PORT_FORWARDING")))
      settings_file_exists

-- `overrides.get(key)` as a condition.
abbrev pub is_set : Option Setting → Bool
is_set (some (flag b)) = b
is_set _ = false

-- Whether there is a warning.
unfoldable pub warn_if_open_without_auth : Settings → Bool
warn_if_open_without_auth overrides =
    is_set (Dict.get overrides (codes "rpc-whitelist-enabled"))
    && not (is_set (Dict.get overrides (codes "rpc-authentication-required")))

-- `{**settings, **overrides}`
unfoldable pub apply_overrides : Settings → Settings → Settings
apply_overrides settings [] = settings
apply_overrides settings ((key, value) ∷ overrides) =
    apply_overrides (Dict.put settings key value) overrides

-- The three groups have no key in common.
unfoldable pub all_overrides : Environment → Bool → Settings
unfolding build_rpc_overrides build_peer_limit_overrides build_port_forwarding_overrides
all_overrides env settings_file_exists =
    build_rpc_overrides env
    ++ (build_peer_limit_overrides env ++ build_port_forwarding_overrides env settings_file_exists)

-- What `load_settings` reads: no file, a file that cannot be read or parsed, or settings.
pub data File : Type 0 where
  missing unreadable : File
  settings : Settings → File

unfoldable pub load_settings : File → Settings
load_settings missing = []
load_settings unreadable = []
load_settings (settings s) = s

abbrev pub file_exists : File → Bool
file_exists missing = false
file_exists unreadable = true
file_exists (settings s) = true

abbrev pub save_overrides : File → Settings → File × Bool
save_overrides file [] = (file, false)
save_overrides file (o ∷ overrides) = (
  settings (apply_overrides (load_settings file) (o ∷ overrides)),
  warn_if_open_without_auth (o ∷ overrides),
)

-- `main`: the file it leaves, and whether it prints the warning.
unfoldable pub main : Environment → File → File × Bool
unfolding all_overrides apply_overrides load_settings warn_if_open_without_auth
main env file = save_overrides file (all_overrides env (file_exists file))
