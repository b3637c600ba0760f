-- ===== src/Rpc/Kept.antt =====
-- What a failed query leaves in the ratio log.
use linux_iso_seeder.Base.{
  ℕ, ◌≡◌, ◌≢◌, refl, false, ◌||◌, ◌⊎◌, inl, inr, Option, none, some, List, Result, ok, raised,
  Bool-cases, ◌==◌,
}
use linux_iso_seeder.Base.Text.{Text}
use linux_iso_seeder.Base.Float.{Float}
use linux_iso_seeder.Watch.{is_error_status}
use linux_iso_seeder.Rpc.{
  Auth, Query, done, Daemon, Entry, Log, ratio_log_of, after_listing, with_session, after_hello,
  log_seed_ratios_via_http,
}

module _ (fl : Float) (daemon : Daemon fl) (asctime : Text) (log : Log fl) (auth : Auth) where
  -- The daemon let both requests pass, and the log has the torrents of its answer.
  abbrev pub IsDone : Query × Log fl → Type 0
  IsDone (query, after) =
      (first : ℕ) × (session : Text) × (second : ℕ) × (torrents : List (Entry fl)) × (daemon.hello
          auth
        ≡ ok (first, some session))
      × ((first == 401 || first == 403) ≡ false)
      × (daemon.torrent_get auth session ≡ ok (second, ok torrents))
      × (is_error_status second ≡ false)
      × (query ≡ done)
      × (after ≡ some (ratio_log_of fl asctime torrents))

  abbrev pub IsKeptLog : Query × Log fl → Type 0
  IsKeptLog (query, after) = (query ≢ done) × (after ≡ log)

  after_listing-cases :
      (first : ℕ) (session : Text) (listing : Result (ℕ × Result (List (Entry fl))))
      → daemon.hello auth ≡ ok (first, some session)
      → (first == 401 || first == 403) ≡ false
      → daemon.torrent_get auth session ≡ listing
      → IsDone (after_listing fl asctime log listing)
        ⊎ IsKeptLog (after_listing fl asctime log listing)
  unfolding after_listing
  after_listing-cases first session (raised e) hello fine listed = inr (λ e. cc, refl)
  after_listing-cases first session (ok (second, raised e)) hello fine listed =
      elim (Bool-cases (is_error_status second)) [
        | inl bad ↦ rw bad (inr (λ e. cc, refl))
        | inr good ↦ rw good (inr (λ e. cc, refl))
      ]
  after_listing-cases first session (ok (second, ok torrents)) hello fine listed =
      elim (Bool-cases (is_error_status second)) [
        | inl bad ↦ rw bad (inr (λ e. cc, refl))
        | inr good ↦
            rw good (inl (first, session, second, torrents, hello, fine, listed, good, refl, refl))
      ]

  with_session-cases :
      (first : ℕ) (session : Option Text)
      → daemon.hello auth ≡ ok (first, session)
      → (first == 401 || first == 403) ≡ false
      → IsDone (with_session fl daemon asctime log auth session)
        ⊎ IsKeptLog (with_session fl daemon asctime log auth session)
  unfolding with_session
  with_session-cases first none hello fine = inr (λ e. cc, refl)
  with_session-cases first (some session) hello fine =
      after_listing-cases first session (daemon.torrent_get auth session) hello fine refl

  after_hello-cases :
      (hello : Result (ℕ × Option Text))
      → daemon.hello auth ≡ hello
      → IsDone (after_hello fl daemon asctime log auth hello)
        ⊎ IsKeptLog (after_hello fl daemon asctime log auth hello)
  unfolding after_hello
  after_hello-cases (raised e) said = inr (λ e. cc, refl)
  after_hello-cases (ok (first, session)) said = elim (Bool-cases (first == 401 || first == 403)) [
    | inl bad ↦ rw bad (inr (λ e. cc, refl))
    | inr fine ↦ rw fine (with_session-cases first session said fine)
  ]

  -- Either the daemon answers both requests without a refusal or an error status, and the ratio log
  -- has the torrents of its answer; or the query fails, and the log is as the last run left it.
  pub log_seed_ratios_via_http_cases :
      IsDone (log_seed_ratios_via_http fl daemon asctime log auth)
      ⊎ IsKeptLog (log_seed_ratios_via_http fl daemon asctime log auth)
  unfolding log_seed_ratios_via_http
  log_seed_ratios_via_http_cases = after_hello-cases (daemon.hello auth) refl
