-- ===== src/Logging.antt =====
-- fetch_torrents.py: which messages reach which file of the log.
use linux_iso_seeder.Base.{Bool, true, not, List, [], ◌∷◌, if◌then◌else◌, any}
use linux_iso_seeder.Base.Int.{ℤ, ltb_ℤ}
use linux_iso_seeder.Base.Text.{Text, codes, starts_with}

-- `RatioOnlyFilter`, of the ratio log.
unfoldable pub ratio_only_filter : Text → Bool
unfolding starts_with
ratio_only_filter message = starts_with (codes "[ratio]") message

-- `NonRatioFilter`, of the other handlers.
unfoldable pub non_ratio_filter : Text → Bool
unfolding starts_with
non_ratio_filter message = not (starts_with (codes "[ratio]") message)

-- `ImportantMessageFilter`
unfoldable pub important_message_filter : ℤ → List Text → ℤ → Text → Bool
unfolding starts_with
important_message_filter level important_prefixes levelno message =
    if not (ltb_ℤ levelno level)
    then true
    else any (λ prefix. starts_with prefix message) important_prefixes

unfoldable pub get_always_log_prefixes : List Text
get_always_log_prefixes =
    codes "Starting torrent fetch run."
    ∷ codes "Run complete in"
    ∷ codes "Downloads folder usage:"
    ∷ codes "Fetching latest"
    ∷ codes "Querying Transmission RPC"
    ∷ codes "Selected distros for this run:"
    ∷ codes "Skipping distro"
    ∷ codes "Checking old releases"
    ∷ codes "Found unmet demand"
    ∷ codes "Old-release check complete"
    ∷ []
