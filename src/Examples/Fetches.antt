-- ===== src/Examples/Fetches.antt =====
-- The gate, the watch folder, the demand check and the settings at concrete inputs.
use linux_iso_seeder.Base.{
  ℕ, ◌≡◌, ◌≢◌, ◌↔◌, ◌⊎◌, refl, true, false, Option, none, some, [], ◌∷◌, ◌++◌, any, Result, ok,
  raised, type_error,
}
use linux_iso_seeder.Base.Int.{ℤ, pos}
use linux_iso_seeder.Base.Text.{Text, codes, same}
use linux_iso_seeder.Base.Dict
use linux_iso_seeder.Base.Dict.{Dict}
use linux_iso_seeder.Examples.Milli.{milli, milli-IsOrdered}
use linux_iso_seeder.Names.{get_distro}
use linux_iso_seeder.Names.Version.{Version}
use linux_iso_seeder.Gate.{should_fetch_torrent}
use linux_iso_seeder.Gate.Devuan.{
  AreHeldLow, AreNoneHeld, AreRemovedLow, should_fetch_torrent-devuan_iff,
}
use linux_iso_seeder.Names.{is_devuan}
use linux_iso_seeder.Watch.{
  Folder, no_fault, at_write, Response, reply, added, existing, failed, is_separator,
  is_error_status, safe_watch_path, write_watch_file, download_torrent,
}
use linux_iso_seeder.Watch.Atomic.{IsAllOrNothing, write_watch_file_atomic}
use linux_iso_seeder.Watch.Download.{
  Outcome, safe_watch_path_inside, download_torrent_Outcome, download_torrent_twice,
}
use linux_iso_seeder.Demand.{Scrape, Floor, Evaluation, evaluate_old_release_demand}
use linux_iso_seeder.Demand.Kept.{
  IsKept, HasBadCount, evaluate_old_release_demand-keep, evaluate_old_release_demand_raises,
}
use linux_iso_seeder.Bencode.Value.{int, bytes}
use linux_iso_seeder.Watch.{Bytes}
use linux_iso_seeder.Base.Env.{Environment}
use linux_iso_seeder.Configure.{File, Setting, number, settings, whitelist_entries}
use linux_iso_seeder.Configure.Untouched.{whitelist_entries-localhost}

abbrev new_kali : Text
new_kali = codes "kali-linux-2026.2-installer-arm64.iso"

abbrev old_kali : Text
old_kali = codes "kali-linux-2026.1-installer-arm64.iso"

abbrev kali_type : Text
kali_type = codes "installer-arm64.iso"

abbrev ratios : Dict ℤ
ratios = (old_kali, pos 400) ∷ []

abbrev content : Bytes
content = codes "d4:infoe"

abbrev waiting : Folder
waiting = (codes "arch.torrent.added", codes "old") ∷ []

write_watch_file_atomic_example :
    IsAllOrNothing
      (at_write 3 true)
      waiting
      (codes "a.torrent")
      content
      (write_watch_file (at_write 3 true) waiting (codes "a.torrent") content)
write_watch_file_atomic_example =
    write_watch_file_atomic (at_write 3 true) waiting (codes "a.torrent") content

kali_path : safe_watch_path (codes "kali") ≡ some (codes "kali.torrent")
unfolding safe_watch_path same
kali_path = refl

safe_watch_path_inside_example :
    (codes "kali.torrent" ≡ codes "kali" ++ codes ".torrent")
    × (codes "kali" ≢ [])
    × (any is_separator (codes "kali.torrent") ≡ false)
safe_watch_path_inside_example =
    safe_watch_path_inside (codes "kali") (codes "kali.torrent") kali_path

abbrev http : Text → Response
http url = reply 200 content

download_torrent_Outcome_example :
    ((safe_watch_path (codes "arch") ≡ none)
      × (download_torrent http no_fault waiting (codes "arch") (codes "u") ≡ (failed, waiting)))
    ⊎ ((dest : Text) × (safe_watch_path (codes "arch") ≡ some dest)
        × Outcome http no_fault waiting
            (codes "u")
            dest
            (download_torrent http no_fault waiting (codes "arch") (codes "u")))
download_torrent_Outcome_example =
    download_torrent_Outcome http no_fault waiting (codes "arch") (codes "u")

kali_added : (download_torrent http no_fault waiting (codes "kali") (codes "u")).0 ≡ added
unfolding download_torrent Dict.has Dict.put Dict.del same
kali_added = refl

download_torrent_twice_example :
    let after = (download_torrent http no_fault waiting (codes "kali") (codes "u")).1 in
    download_torrent http no_fault after (codes "kali") (codes "v") ≡ (existing, after)
download_torrent_twice_example =
    download_torrent_twice http http no_fault no_fault waiting (codes "kali") (codes "u")
      (codes "v") kali_added

abbrev floor : Floor ℤ
floor = record { min_leechers = pos 2; min_leecher_ratio = pos 100; allow_zero_seeders = false }

abbrev wanted : Scrape
wanted = record {
  tracker = codes "t";
  seeders = int (pos 10);
  leechers = int (pos 5);
  completed = int (pos 0);
}

abbrev scrape : Bytes → Result (Option Scrape)
scrape downloaded = ok (some wanted)

abbrev kept_evaluation : Evaluation
kept_evaluation = record { keep = true; torrent_bytes = some content; scrape_result = some wanted }

wanted_kept :
    evaluate_old_release_demand milli scrape floor (reply 200 content) ≡ ok kept_evaluation
unfolding evaluate_old_release_demand
wanted_kept = refl

evaluate_old_release_demand-keep_example :
    IsKept milli scrape floor (reply 200 content) kept_evaluation
evaluate_old_release_demand-keep_example =
    evaluate_old_release_demand-keep milli scrape floor (reply 200 content) kept_evaluation
      wanted_kept refl

-- A tracker that gives a byte string for the leechers.
abbrev odd : Scrape
odd = record wanted { leechers = bytes (codes "5") }

evaluate_old_release_demand_raises_example :
    (evaluate_old_release_demand milli (λ content. ok (some odd)) floor (reply 200 content)
      ≡ raised type_error)
    ↔ ((status : ℕ) × (downloaded : Bytes) × (s : Scrape) × (reply 200 content
          ≡ reply status downloaded)
        × (is_error_status status ≡ false)
        × (ok (some odd) ≡ ok (some s))
        × HasBadCount milli floor s)
evaluate_old_release_demand_raises_example =
    evaluate_old_release_demand_raises milli (λ content. ok (some odd)) floor (reply 200 content)

abbrev environment : Environment
environment = (codes "TRANSMISSION_PEER_LIMIT_GLOBAL", codes " 500 ") ∷ []

abbrev stored : File
stored = settings (
    (codes "download-dir", Setting.other (codes "x"))
    ∷ (codes "peer-limit-global", number (pos 200))
    ∷ [])

whitelist_entries-localhost_example :
    (any (λ e. same e (codes "127.0.0.1")) (whitelist_entries (codes "10.0.0.*, ::1")) ≡ true)
    × (any (λ e. same e (codes "::1")) (whitelist_entries (codes "10.0.0.*, ::1")) ≡ true)
whitelist_entries-localhost_example = whitelist_entries-localhost (codes "10.0.0.*, ::1")

abbrev devuan_ratios : Dict ℤ
devuan_ratios = (codes "devuan_daedalus", pos 300) ∷ []

devuan_unknown : get_distro (codes "devuan_excalibur") ≡ none
unfolding get_distro
devuan_unknown = refl

devuan_named : is_devuan (codes "devuan_excalibur") ≡ true
unfolding is_devuan
devuan_named = refl

should_fetch_torrent-devuan_iff_example :
    (should_fetch_torrent milli (codes "devuan_excalibur") devuan_ratios [] false ≡ false) ↔ (
      (false ≡ false)
      × (Dict.has devuan_ratios (codes "devuan_excalibur") ≡ false)
      × (AreHeldLow milli (codes "devuan_excalibur") devuan_ratios
          ⊎ (AreNoneHeld milli (codes "devuan_excalibur") devuan_ratios
              × AreRemovedLow milli (codes "devuan_excalibur") [])))
should_fetch_torrent-devuan_iff_example =
    should_fetch_torrent-devuan_iff milli milli-IsOrdered (codes "devuan_excalibur") devuan_ratios
      [] false devuan_unknown devuan_named
