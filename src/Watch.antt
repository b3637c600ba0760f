-- ===== src/Watch.antt =====
-- fetch_torrents.py: the watch folder. Its state is the content of each file in it, by name.
pub mod Atomic
pub mod Download
pub mod Changes
use linux_iso_seeder.Base.{
  ℕ, Bool, true, false, ◌||◌, not, Option, none, some, List, [], ◌∷◌, ◌++◌, if◌then◌else◌, Result,
  ok, raised, Error, os_error, ◌==◌, take, any, leb, ltb, ◌&&◌,
}
use linux_iso_seeder.Base.Text.{Text, codes, same}
use linux_iso_seeder.Base.Dict
use linux_iso_seeder.Base.Dict.{Dict}

abbrev pub Bytes : Type 0
Bytes = List ℕ

-- The folder: a file's name and content.
abbrev pub Folder : Type 0
Folder = Dict Bytes

abbrev pub is_separator : ℕ → Bool
is_separator c = c == b'/' || c == 0x5c

unfoldable pub is_unsafe : Text → Bool
is_unsafe name =
    same name [] || (same name (codes ".") || (same name (codes "..") || any is_separator name))

-- `_safe_watch_path`: the file's name in the folder.
unfoldable pub safe_watch_path : Text → Option Text
unfolding is_unsafe
safe_watch_path name = if is_unsafe name then none else some (name ++ codes ".torrent")

-- `dest + ADDED_SUFFIX`
abbrev pub added_path : Text → Text
added_path dest = dest ++ codes ".added"

-- `_watch_file_present`
unfoldable pub watch_file_present : Folder → Text → Bool
watch_file_present folder dest = Dict.has folder dest || Dict.has folder (added_path dest)

-- `_remove_watch_file`: `locked` says which files cannot be removed, an error that is only logged.
unfoldable pub remove_file : (Text → Bool) → Folder → Text → Folder
remove_file locked folder path = if locked path then folder else Dict.del folder path

unfoldable pub remove_watch_file : (Text → Bool) → Folder → Text → Folder
unfolding remove_file safe_watch_path
remove_watch_file locked folder name = elim (safe_watch_path name) [
  | none ↦ folder
  | some path ↦ remove_file locked (remove_file locked folder path) (added_path path)
]

-- The hidden file that is written first.
abbrev pub part_path : Text → Text
part_path dest = b'.' ∷ dest ++ codes ".part"

-- How a write goes: it may fail to open the file, fail with `n` bytes written, or fail to rename;
-- and then the removal of the hidden file may fail too.
pub data Fault : Type 0 where
  no_fault : Fault
  at_open : Bool → Fault
  at_write : ℕ → Bool → Fault
  at_replace : Bool → Fault

-- `os.remove(tmp_path)` in the handler, which may fail.
unfoldable pub clean_up : Bool → Folder → Text → Folder
clean_up removed folder tmp = if removed then Dict.del folder tmp else folder

-- `_write_watch_file`. A fault is an OSError; one that leaves the hidden file is also what a killed
-- process leaves. `os.replace` puts the hidden file's content under the name.
unfoldable pub write_watch_file : Fault → Folder → Text → Bytes → Result (Unit {0}) × Folder
unfolding clean_up
write_watch_file no_fault folder dest content = (
  ok tt,
  Dict.put (Dict.del (Dict.put folder (part_path dest) content) (part_path dest)) dest content,
)
write_watch_file (at_open removed) folder dest content =
    (raised os_error, clean_up removed folder (part_path dest))
write_watch_file (at_write n removed) folder dest content = (
  raised os_error,
  clean_up removed (Dict.put folder (part_path dest) (take n content)) (part_path dest),
)
write_watch_file (at_replace removed) folder dest content =
    (raised os_error, clean_up removed (Dict.put folder (part_path dest) content) (part_path dest))

-- What `requests.get` gives: a response with its status and content, or an exception.
pub data Response : Type 0 where
  reply : ℕ → Bytes → Response
  no_reply : Response

-- The strings that `download_torrent` returns.
pub data Status : Type 0 where
  added existing not_found failed : Status

-- `r.raise_for_status()`
abbrev pub is_error_status : ℕ → Bool
is_error_status status = leb 400 status && ltb status 600

-- The last lines of the `try` block and its handler.
unfoldable pub saved : Result (Unit {0}) × Folder → Status × Folder
saved (ok u, folder) = (added, folder)
saved (raised e, folder) = (failed, folder)

unfoldable pub save_response : Fault → Folder → Text → Response → Status × Folder
unfolding write_watch_file saved
save_response fault folder dest no_reply = (failed, folder)
save_response fault folder dest (reply status content) =
    if status == 404
    then (not_found, folder)
    else if is_error_status status
    then (failed, folder)
    else saved (write_watch_file fault folder dest content)

unfoldable pub download_to :
    (Text → Response) → Fault → Folder → Option Text → Text → Status × Folder
unfolding save_response watch_file_present
download_to http fault folder none url = (failed, folder)
download_to http fault folder (some dest) url =
    if watch_file_present folder dest
    then (existing, folder)
    else save_response fault folder dest (http url)

unfoldable pub download_torrent : (Text → Response) → Fault → Folder → Text → Text → Status × Folder
unfolding download_to safe_watch_path
download_torrent http fault folder name url =
    download_to http fault folder (safe_watch_path name) url
