-- ===== src/Cleanup/Distinct.antt =====
-- No two groups have the same key.
use linux_iso_seeder.Base.{
  ◌≡◌, false, Option, none, some, List, [], ◌∷◌, arith, Bool-cases, inl, inr, All,
}
use linux_iso_seeder.Base.Text.{same_iff}
use linux_iso_seeder.Base.Float.{Float}
use linux_iso_seeder.Cleanup.Groups.{
  Torrent, SortKey, GroupKey, same_group, Entry, Group, place, file_entry, file_torrent,
  group_torrents,
}

pub same_group_symm : (g h : GroupKey) → same_group g h ≡ same_group h g
unfolding same_group
same_group_symm (d, t) (e, u) = ground (arith, same_iff t u, same_iff u t)

module _ (fl : Float) where
  open fl use {F}

  abbrev pub NoGroup : GroupKey → List (Group fl) → Type 0
  NoGroup g groups = All (λ group. same_group group.0 g ≡ false) groups

  abbrev pub AreDistinct : List (Group fl) → Type 0
  AreDistinct [] = Unit
  AreDistinct ((g, es) ∷ groups) = NoGroup g groups × AreDistinct groups

  file_entry-NoGroup :
      (groups : List (Group fl)) (i g : GroupKey) (e : Entry F)
      → same_group g i ≡ false
      → NoGroup i groups
      → NoGroup i (file_entry fl groups g e)
  unfolding file_entry
  file_entry-NoGroup [] i g e h k = (h, tt)
  file_entry-NoGroup ((j, es) ∷ groups) i g e h k = elim (Bool-cases (same_group j g)) [
    | inl here ↦ rw here k
    | inr later ↦ rw later (k.0, file_entry-NoGroup groups i g e h k.1)
  ]

  file_entry-AreDistinct :
      (groups : List (Group fl)) (g : GroupKey) (e : Entry F)
      → AreDistinct groups
      → AreDistinct (file_entry fl groups g e)
  unfolding file_entry
  file_entry-AreDistinct [] g e k = (tt, tt)
  file_entry-AreDistinct ((j, es) ∷ groups) g e k = elim (Bool-cases (same_group j g)) [
    | inl here ↦ rw here k
    | inr later ↦ rw later (
      file_entry-NoGroup groups j g e (rw same_group_symm later) k.0,
      file_entry-AreDistinct groups g e k.1,
    )
  ]

  file_torrent-AreDistinct :
      (groups : List (Group fl)) (t : Torrent F)
      → AreDistinct groups
      → AreDistinct (file_torrent fl groups t)
  unfolding file_torrent
  file_torrent-AreDistinct groups t h = go (place fl t)
    where
      go :
          (o : Option (GroupKey × SortKey F))
          → AreDistinct (elim o [ none ↦ groups | some (g, k) ↦ file_entry fl groups g (k, t) ])
      go none = h
      go (some (g, k)) = file_entry-AreDistinct groups g (k, t) h

  pub group_torrents-AreDistinct :
      (groups : List (Group fl)) (ts : List (Torrent F))
      → AreDistinct groups
      → AreDistinct (group_torrents fl groups ts)
  unfolding group_torrents
  group_torrents-AreDistinct groups [] h = h
  group_torrents-AreDistinct groups (t ∷ ts) h =
      group_torrents-AreDistinct (file_torrent fl groups t) ts (file_torrent-AreDistinct groups t h)
