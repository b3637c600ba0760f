-- ===== src/Watch/Atomic.antt =====
-- `_write_watch_file` writes all or nothing under the final name, whatever goes wrong.
use linux_iso_seeder.Base.{
  ◌≡◌, refl, ◌⊎◌, inl, inr, Bool, true, false, none, some, arith, ap, Result, ok, raised, os_error,
  length, length-append, Bool-cases, take,
}
use linux_iso_seeder.Base.Text.{Text, codes, same, same_iff, same_refl, same_symm}
use linux_iso_seeder.Base.Dict
use linux_iso_seeder.Base.Dict.{get-put, get-del}
use linux_iso_seeder.Watch.{
  Bytes, Folder, Fault, no_fault, at_open, at_write, at_replace, part_path, clean_up,
  write_watch_file,
}

-- The hidden file has another name.
pub part_path-ne : (dest : Text) → same (part_path dest) dest ≡ false
part_path-ne dest = elim (Bool-cases (same (part_path dest) dest)) [
  | inl e ↦ absurd (
      omega (
        arith,
        length-append dest (codes ".part"),
        ap length ((same_iff (part_path dest) dest).0 e),
      ))
  | inr done ↦ done
]

-- What holds where a test fails.
pub unless : {P : Type 0} (b : Bool) → (b ≡ false → P) → (b ≡ true) ⊎ P
unless true f = inl refl
unless false f = inr (f refl)

-- Whether a write goes wrong.
abbrev pub fails : Fault → Bool
fails no_fault = false
fails (at_open removed) = true
fails (at_write n removed) = true
fails (at_replace removed) = true

-- Nothing but the hidden file differs between the two folders.
abbrev pub IsSameBut : Text → Folder → Folder → Type 0
IsSameBut tmp f g = (j : Text) → (same tmp j ≡ true) ⊎ (Dict.get g j ≡ Dict.get f j)

IsSameBut-clean_up :
    (removed : Bool) (folder : Folder) (tmp : Text) (content : Bytes)
    → IsSameBut tmp folder (clean_up removed (Dict.put folder tmp content) tmp)
unfolding clean_up
IsSameBut-clean_up true folder tmp content =
    λ j. unless (same tmp j) λ other. rw (get-del, other) (rw (get-put, other))
IsSameBut-clean_up false folder tmp content = λ j. unless (same tmp j) λ other. rw (get-put, other)

-- Nothing fails, the content is under the name and the hidden file is gone; or something fails, and
-- nothing but the hidden file differs.
abbrev pub IsAllOrNothing : Fault → Folder → Text → Bytes → Result (Unit {0}) × Folder → Type 0
IsAllOrNothing fault folder dest content (r, after) =
    ((r ≡ ok tt)
      × (Dict.get after dest ≡ some content)
      × (Dict.get after (part_path dest) ≡ none)
      × ((j : Text)
          → (same dest j ≡ true)
            ⊎ (same (part_path dest) j ≡ true)
            ⊎ (Dict.get after j ≡ Dict.get folder j))
      × (fails fault ≡ false))
    ⊎ ((r ≡ raised os_error) × IsSameBut (part_path dest) folder after × (fails fault ≡ true))

-- A write that nothing goes wrong with returns with the whole content under the name and no hidden
-- file, and no other file changes. Any other write raises, and leaves everything but the hidden file
-- as it was, a file of that name included.
pub write_watch_file_atomic :
    (fault : Fault) (folder : Folder) (dest : Text) (content : Bytes)
    → IsAllOrNothing fault folder dest content (write_watch_file fault folder dest content)
unfolding write_watch_file
write_watch_file_atomic no_fault folder dest content = inl (
  refl,
  Dict.get-put_self _ dest content,
  rw (get-put, same_symm dest (part_path dest), part_path-ne) (rw (get-del, same_refl)),
  λ j. unless (same dest j) λ other.
      unless (same (part_path dest) j)
        λ not_part. rw (get-put, other) (rw (get-del, not_part) (rw (get-put, not_part))),
  refl,
)
write_watch_file_atomic (at_open true) folder dest content =
    inr (refl, λ j. unless (same (part_path dest) j) λ other. rw (get-del, other), refl)
write_watch_file_atomic (at_open false) folder dest content = inr (refl, λ j. inr refl, refl)
write_watch_file_atomic (at_write n removed) folder dest content =
    inr (refl, IsSameBut-clean_up removed folder (part_path dest) (take n content), refl)
write_watch_file_atomic (at_replace removed) folder dest content =
    inr (refl, IsSameBut-clean_up removed folder (part_path dest) content, refl)
