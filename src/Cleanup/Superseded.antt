-- ===== src/Cleanup/Superseded.antt =====
-- What `_old_version_candidates` promises: the newest torrent of every group is left out, and
-- everything else that has a group is a candidate.
use linux_iso_seeder.Base.{List, [], ◌++◌, append-nil, subst, All, AnyOf}
use mathlib.Core.List.{Perm}
use mathlib.Core.List.Perm
use linux_iso_seeder.Base.Float.{Float, IsOrdered}
use linux_iso_seeder.Cleanup.Groups.{
  Torrent, torrent_of, torrents_of, group_torrents, old_version_candidates,
}
use linux_iso_seeder.Cleanup.Grouping.{
  entries, placed, group_torrents-AreFiled, group_torrents-perm,
}
use linux_iso_seeder.Cleanup.Distinct.{group_torrents-AreDistinct}
use linux_iso_seeder.Cleanup.Leaders.{
  IsAsNew, AreApart, newest, newest-perm, superseded-AnyOf, newest-AreApart,
}

module _ (fl : Float) where
  open fl use {F}

  -- The torrents with a known distribution and a name that parses, and Devuan's.
  abbrev pub placed_torrents : List (Torrent F) → List (Torrent F)
  placed_torrents ts = torrents_of fl (placed fl ts)

  -- There are torrents that are kept, no two of one group. They and the candidates together are the
  -- torrents that have a group, each once. For each candidate one that is kept is of its group and
  -- is not older: so no group loses all its torrents, nor its newest.
  -- The times that Devuan's releases were added at are ordered by `<`.
  pub old_version_candidates-IsAsNew :
      (ts : List (Torrent F))
      → IsOrdered fl
      → (kept : List (Torrent F)) × Perm (kept ++ old_version_candidates fl ts) (placed_torrents ts)
        × AreApart fl kept
        × All (λ c. AnyOf (IsAsNew fl c) kept) (old_version_candidates fl ts)
  unfolding old_version_candidates
  old_version_candidates-IsAsNew ts ordered =
      let groups = group_torrents fl [] ts in
      let filed = group_torrents-AreFiled fl [] ts tt in
      (
        newest fl groups,
        Perm.trans (newest-perm fl groups) (
            Perm.map (torrent_of fl) (
              subst (Perm (entries fl groups)) (append-nil (placed fl ts))
                (group_torrents-perm fl [] ts))),
        newest-AreApart fl groups filed (group_torrents-AreDistinct fl [] ts tt),
        superseded-AnyOf fl ordered groups filed,
      )
