-- ===== src/Watch/Download.antt =====
-- What `download_torrent` returns, and what it leaves in the watch folder.
use linux_iso_seeder.Base.{
  ℕ, ◌≡◌, ◌≢◌, Option-cases, refl, ap, subst, ◌∙◌, ◌⊎◌, inl, inr, Bool, true, false, ◌||◌, none,
  some, [], ◌∷◌, ◌++◌, arith, Bool-cases, ◌==◌, any, Result, ok, raised, ==_iff,
}
use linux_iso_seeder.Base.Text.{Text, codes, same}
use linux_iso_seeder.Base.Dict
use linux_iso_seeder.Watch.{
  Bytes, Folder, Fault, Response, reply, no_reply, Status, added, existing, not_found, failed,
  is_separator, is_error_status, is_unsafe, safe_watch_path, watch_file_present, write_watch_file,
  part_path, saved, save_response, download_torrent, download_to,
}
use linux_iso_seeder.Watch.Atomic.{IsSameBut, fails, IsAllOrNothing, write_watch_file_atomic}

any-append : (p : ℕ → Bool) (s t : Text) → any p (s ++ t) ≡ (any p s || any p t)
any-append p [] t = refl
any-append p (x ∷ s) t = ground (arith, any-append p s t)

is_unsafe-nil : is_unsafe [] ≡ true
unfolding is_unsafe same
is_unsafe-nil = refl

-- A name that is accepted names a file right in the watch folder: the file's name has no path
-- separator and ends in ".torrent".
pub safe_watch_path_inside :
    (name dest : Text)
    → safe_watch_path name ≡ some dest
    → (dest ≡ name ++ codes ".torrent") × (name ≢ []) × (any is_separator dest ≡ false)
safe_watch_path_inside name dest h =
    let safe : is_unsafe name ≡ false = unfold safe_watch_path in ground arith in
    let e : dest ≡ name ++ codes ".torrent" = unfold safe_watch_path in ground arith in
    let plain : any is_separator name ≡ false = unfold is_unsafe in ground arith in
    (
      e,
      λ empty. cc (subst (λ n. is_unsafe n ≡ false) empty safe, is_unsafe-nil),
      rw e (rw any-append (rw plain)),
    )

-- Why a fetch fails: no response, an error status other than 404, or a write that goes wrong.
abbrev pub HasFailed : Fault → Response → Type 0
HasFailed fault no_reply = Unit
HasFailed fault (reply status content) =
    (status ≢ 404) × ((is_error_status status || fails fault) ≡ true)

-- The torrent waits in the folder, or Transmission has loaded it and renamed it.
abbrev pub IsThere : Folder → Text → Type 0
IsThere folder dest =
    (Dict.has folder dest ≡ true) ⊎ (Dict.has folder (dest ++ codes ".added") ≡ true)

abbrev pub IsAbsent : Folder → Text → Type 0
IsAbsent folder dest =
    (Dict.has folder dest ≡ false) × (Dict.has folder (dest ++ codes ".added") ≡ false)

-- What a fetch of one torrent may do, by its status.
abbrev pub Outcome : (Text → Response) → Fault → Folder → Text → Text → Status × Folder → Type 0
Outcome http fault folder url dest (added, after) =
    (status : ℕ) × (content : Bytes) × (http url ≡ reply status content)
    × (is_error_status status ≡ false)
    × IsAbsent folder dest
    × (Dict.get after dest ≡ some content)
    × ((j : Text)
        → (same dest j ≡ true)
          ⊎ (same (part_path dest) j ≡ true)
          ⊎ (Dict.get after j ≡ Dict.get folder j))
Outcome http fault folder url dest (existing, after) = IsThere folder dest × (after ≡ folder)
Outcome http fault folder url dest (not_found, after) =
    (content : Bytes) × (http url ≡ reply 404 content) × IsAbsent folder dest × (after ≡ folder)
Outcome http fault folder url dest (failed, after) =
    IsAbsent folder dest × HasFailed fault (http url) × IsSameBut (part_path dest) folder after

watch_file_present-IsThere :
    (folder : Folder) (dest : Text) → watch_file_present folder dest ≡ true → IsThere folder dest
unfolding watch_file_present
watch_file_present-IsThere folder dest h = ground arith

watch_file_present-IsAbsent :
    (folder : Folder) (dest : Text) → watch_file_present folder dest ≡ false → IsAbsent folder dest
unfolding watch_file_present
watch_file_present-IsAbsent folder dest h = ground arith

not_404 : (status : ℕ) → (status == 404) ≡ false → status ≢ 404
not_404 status h = ground (arith, ==_iff status 404)

saved-Outcome :
    (http : Text → Response) (fault : Fault) (folder : Folder) (dest url : Text) (status : ℕ)
    (content : Bytes)
    → http url ≡ reply status content
    → is_error_status status ≡ false
    → status ≢ 404
    → IsAbsent folder dest
    → Outcome http fault folder url dest (saved (write_watch_file fault folder dest content))
unfolding saved
saved-Outcome http fault folder dest url status content e fine other absent =
    go (write_watch_file fault folder dest content)
      (write_watch_file_atomic fault folder dest content)
  where
    go :
        (after : Result (Unit {0}) × Folder)
        → IsAllOrNothing fault folder dest content after
        → Outcome http fault folder url dest (saved after)
    go (ok u, f) (inl h) = (status, content, e, fine, absent, h.1, h.3)
    go (ok u, f) (inr h) = cc
    go (raised er, f) (inl h) = cc
    go (raised er, f) (inr h) = (absent, rw e (other, rw (fine, h.2)), h.1)

save_response-Outcome :
    (http : Text → Response) (fault : Fault) (folder : Folder) (dest url : Text) (r : Response)
    → http url ≡ r
    → IsAbsent folder dest
    → Outcome http fault folder url dest (save_response fault folder dest r)
unfolding save_response
save_response-Outcome http fault folder dest url no_reply e absent =
    (absent, rw e tt, λ j. inr refl)
save_response-Outcome http fault folder dest url (reply status content) e absent =
    elim (Bool-cases (status == 404)) [
      | inl gone ↦ rw gone (content, rw ((==_iff status 404).0 gone) at e, absent, refl)
      | inr other ↦ elim (Bool-cases (is_error_status status)) [
        | inl bad ↦ rw (other, bad) (absent, rw e (not_404 status other, rw bad), λ j. inr refl)
        | inr fine ↦
            rw (other, fine)
              (saved-Outcome http fault folder dest url status content e fine (not_404 status other)
                absent)
      ]
    ]

download_to-absent :
    (http : Text → Response) (fault : Fault) (folder : Folder) (dest url : Text)
    → watch_file_present folder dest ≡ false
    → download_to http fault folder (some dest) url ≡ save_response fault folder dest (http url)
unfolding download_to
download_to-absent http fault folder dest url absent = rw absent

download_to-Outcome :
    (http : Text → Response) (fault : Fault) (folder : Folder) (dest url : Text)
    → Outcome http fault folder url dest (download_to http fault folder (some dest) url)
download_to-Outcome http fault folder dest url =
    elim (Bool-cases (watch_file_present folder dest)) [
      | inl there ↦
          unfold download_to in rw there (watch_file_present-IsThere folder dest there, refl)
      | inr absent ↦ rw (download_to-absent http fault folder dest url absent) (
          save_response-Outcome http fault folder dest url (http url) refl
            (watch_file_present-IsAbsent folder dest absent))
    ]

download_torrent-eq :
    (http : Text → Response) (fault : Fault) (folder : Folder) (name url : Text)
    → download_torrent http fault folder name url
      ≡ download_to http fault folder (safe_watch_path name) url
unfolding download_torrent
download_torrent-eq http fault folder name url = refl

-- A name that is not safe fails and touches nothing. Any other is stored under its path in the
-- folder. `added`: the server gave a response without an error status, neither the path nor the path
-- with ".added" was in the folder, the whole response is now under the path, and no other file but
-- the hidden one changed. `existing`: one of the two was there. `not_found`: neither was, and the
-- status is 404. `failed`: neither was, and there was no response, an error status other than 404, or
-- a write that went wrong. After `existing` and `not_found` the folder is unchanged, after `failed`
-- all but the hidden file.
pub download_torrent_Outcome :
    (http : Text → Response) (fault : Fault) (folder : Folder) (name url : Text)
    → ((safe_watch_path name ≡ none)
        × (download_torrent http fault folder name url ≡ (failed, folder)))
      ⊎ ((dest : Text) × (safe_watch_path name ≡ some dest)
          × Outcome http fault folder url dest (download_torrent http fault folder name url))
download_torrent_Outcome http fault folder name url = elim (Option-cases (safe_watch_path name)) [
  | inl unsafe ↦ inl (
    unsafe,
    download_torrent-eq http fault folder name url ∙ rw unsafe (unfold download_to in refl),
  )
  | inr (dest, e) ↦
      inr (dest, e, rw (download_torrent-eq, e) (download_to-Outcome http fault folder dest url))
]

there_after :
    (http : Text → Response) (fault : Fault) (folder : Folder) (dest url : Text)
    (result : Status × Folder)
    → result.0 ≡ added
    → Outcome http fault folder url dest result
    → watch_file_present result.1 dest ≡ true
there_after http fault folder dest url (added, after) h
      (status, content, e, fine, absent, got, frame) =
    unfold watch_file_present in rw (Dict.has-eq, got)
there_after http fault folder dest url (existing, after) h o = cc
there_after http fault folder dest url (not_found, after) h o = cc
there_after http fault folder dest url (failed, after) h o = cc

-- Once a torrent was added, fetching it again changes nothing, whatever the server would answer.
pub download_torrent_twice :
    (http http' : Text → Response) (fault fault' : Fault) (folder : Folder) (name url url' : Text)
    → (download_torrent http fault folder name url).0 ≡ added
    → let after = (download_torrent http fault folder name url).1 in
      download_torrent http' fault' after name url' ≡ (existing, after)
download_torrent_twice http http' fault fault' folder name url url' h =
    elim (download_torrent_Outcome http fault folder name url) [
      | inl (unsafe, e) ↦ absurd (cc (h, ap (λ r. r.0) e))
      | inr (dest, e, o) ↦
          let after : Folder = (download_torrent http fault folder name url).1 in
          let there =
            there_after http fault folder dest url (download_torrent http fault folder name url) h
              o in
          rw (download_torrent-eq http' fault' after name url', e) (unfold download_to in rw there)
    ]
