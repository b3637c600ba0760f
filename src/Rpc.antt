-- ===== src/Rpc.antt =====
-- fetch_torrents.py: the calls of Transmission's RPC that are made without its client library.
pub mod Waiting
pub mod Kept
pub mod ReadBack
use linux_iso_seeder.Base.{
  ℕ, zero, suc, ◌-◌, Bool, true, false, ◌||◌, Option, none, some, List, [], ◌∷◌, ◌++◌,
  if◌then◌else◌, ◌==◌, length, map, Result, ok, raised, Error, key_error, os_error,
}
use linux_iso_seeder.Base.Text.{Text, codes}
use linux_iso_seeder.Base.Strings.{spaces}
use linux_iso_seeder.Base.Float.{Float}
use linux_iso_seeder.Watch.{is_error_status}
use linux_iso_seeder.Ratios.Segment.{start_marker, end_marker}

abbrev pub Auth : Type 0
Auth = Option (Text × Text)

-- Which of its texts `rpc_refusal_message` gives.
pub data Refusal : Type 0 where
  forbidden : Refusal
  no_login : Refusal
  bad_login : Text → Refusal

unfoldable pub login_refusal : Auth → Refusal
login_refusal none = no_login
login_refusal (some (user, password)) = bad_login user

unfoldable pub rpc_refusal_message : ℕ → Auth → Refusal
unfolding login_refusal
rpc_refusal_message status_code auth = if status_code == 403 then forbidden else login_refusal auth

-- How logging the ratios ends: as it should, with a `RpcRefusedError`, or with another exception.
pub data Query : Type 0 where
  done : Query
  refused : Refusal → Query
  failed : Error → Query

module _ (fl : Float) where
  open fl use {F, zero_float, lt, show3}

  -- An entry of the daemon's answer: a name, and an upload ratio that may be null.
  abbrev pub Entry : Type 0
  Entry = Text × Option F

  -- The daemon: the first request's status and session id, and what it answers to the second one
  -- with a session id: a status, and the torrents of its JSON, unless the answer cannot be read.
  pub record Daemon : Type 0 where
    pub hello : Auth → Result (ℕ × Option Text)
    pub torrent_get : Auth → Text → Result (ℕ × Result (List Entry))

  -- `float(t["uploadRatio"] or 0.0)`
  abbrev pub upload_ratio : Entry → F
  upload_ratio (name, none) = zero_float
  upload_ratio (name, some r) = r

  unfoldable pub insert_entry : Entry → List Entry → List Entry
  insert_entry e [] = e ∷ []
  insert_entry e (d ∷ ds) =
      let rest = insert_entry e ds in
      if lt (upload_ratio e) (upload_ratio d) then d ∷ rest else e ∷ d ∷ ds

  -- `sorted(torrents, key=..., reverse=True)`: highest first, equal ones in their order.
  unfoldable pub sorted : List Entry → List Entry
  unfolding insert_entry
  sorted [] = []
  sorted (e ∷ es) = insert_entry e (sorted es)

  -- `"%-50s" % name`
  unfoldable pub padded : Text → Text
  padded name = name ++ spaces (50 - length name)

  -- The message of one torrent.
  unfoldable pub ratio_message : Entry → Text
  unfolding padded
  ratio_message e =
      codes "[ratio] "
      ++ (padded e.0 ++ (codes " " ++ (0x2192 ∷ codes " " ++ show3 (upload_ratio e))))

  -- A line of the log: the formatter puts the time and the level before the message.
  abbrev pub line_of : Text → Text → Text
  line_of asctime message = asctime ++ (codes " INFO: " ++ (message ++ 10 ∷ []))

  unfoldable pub ratio_lines : Text → List Entry → List Text
  unfolding ratio_message
  ratio_lines asctime [] = line_of asctime end_marker ∷ []
  ratio_lines asctime (e ∷ es) = line_of asctime (ratio_message e) ∷ ratio_lines asctime es

  -- The ratio log after the loop: the first line of a run replaces what the last one wrote.
  unfoldable pub ratio_log_of : Text → List Entry → List Text
  unfolding sorted ratio_lines
  ratio_log_of asctime torrents =
      line_of asctime start_marker ∷ ratio_lines asctime (sorted torrents)

  abbrev pub Log : Type 0
  Log = Option (List Text)

  unfoldable pub after_listing : Text → Log → Result (ℕ × Result (List Entry)) → Query × Log
  unfolding ratio_log_of
  after_listing asctime log (raised e) = (failed e, log)
  after_listing asctime log (ok (status, raised e)) =
      if is_error_status status then (failed os_error, log) else (failed e, log)
  after_listing asctime log (ok (status, ok torrents)) =
      if is_error_status status
      then (failed os_error, log)
      else (done, some (ratio_log_of asctime torrents))

  unfoldable pub with_session : Daemon → Text → Log → Auth → Option Text → Query × Log
  unfolding after_listing
  with_session daemon asctime log auth none = (failed key_error, log)
  with_session daemon asctime log auth (some session) =
      after_listing asctime log (daemon.torrent_get auth session)

  unfoldable pub after_hello : Daemon → Text → Log → Auth → Result (ℕ × Option Text) → Query × Log
  unfolding with_session rpc_refusal_message
  after_hello daemon asctime log auth (raised e) = (failed e, log)
  after_hello daemon asctime log auth (ok (status, session)) =
      if status == 401 || status == 403
      then (refused (rpc_refusal_message status auth), log)
      else with_session daemon asctime log auth session

  unfoldable pub log_seed_ratios_via_http : Daemon → Text → Log → Auth → Query × Log
  unfolding after_hello
  log_seed_ratios_via_http daemon asctime log auth =
      after_hello daemon asctime log auth (daemon.hello auth)
