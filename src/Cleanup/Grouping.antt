-- ===== src/Cleanup/Grouping.antt =====
-- The grouping loses no torrent that has a place, invents none, and files each under its own group.
use linux_iso_seeder.Base.{
  ◌≡◌, refl, true, Option, none, some, List, [], ◌∷◌, ◌++◌, append_assoc, arith, Bool-cases,
  Option-cases, subst, sym, inl, inr, All, All-append,
}
use mathlib.Core.List.{Perm, perm_middle, perm_append_comm}
use mathlib.Core.List.Perm
use linux_iso_seeder.Base.Text.{same→eq}
use linux_iso_seeder.Base.Float.{Float}
use linux_iso_seeder.Names.{is_distro→eq}
use linux_iso_seeder.Cleanup.Groups.{
  Torrent, SortKey, GroupKey, same_group, Entry, Group, place, file_entry, file_torrent,
  group_torrents,
}

same_group→eq : (g h : GroupKey) → same_group g h ≡ true → g ≡ h
unfolding same_group
same_group→eq (d, t) (e, u) h =
    let same_distro : d ≡ e = is_distro→eq d e (ground arith) in
    let same_type : t ≡ u = same→eq t u (ground arith) in cc

module _ (fl : Float) where
  open fl use {F}

  -- All the entries of the groups.
  abbrev pub entries : List (Group fl) → List (Entry F)
  entries [] = []
  entries ((g, es) ∷ groups) = es ++ entries groups

  -- The torrents that have a place, each with what it is sorted by.
  abbrev pub placed : List (Torrent F) → List (Entry F)
  placed [] = []
  placed (t ∷ ts) = elim (place fl t) [ none ↦ placed ts | some (g, k) ↦ (k, t) ∷ placed ts ]

  file_entry-perm :
      (groups : List (Group fl)) (g : GroupKey) (e : Entry F)
      → Perm (entries (file_entry fl groups g e)) (e ∷ entries groups)
  unfolding file_entry
  file_entry-perm [] g e = Perm.refl (e ∷ [])
  file_entry-perm ((h, es) ∷ groups) g e = elim (Bool-cases (same_group h g)) [
    | inl here ↦ rw here (rw append_assoc (perm_middle es (entries groups)))
    | inr later ↦ rw later (
        Perm.trans (Perm.append_left es (file_entry-perm groups g e))
          (perm_middle es (entries groups)))
  ]

  file_torrent-perm :
      (groups : List (Group fl)) (t : Torrent F)
      → Perm (entries (file_torrent fl groups t)) (placed (t ∷ []) ++ entries groups)
  unfolding file_torrent
  file_torrent-perm groups t = go (place fl t)
    where
      go :
          (o : Option (GroupKey × SortKey F))
          → Perm
              (entries (elim o [ none ↦ groups | some (g, k) ↦ file_entry fl groups g (k, t) ]))
              ((elim o [ none ↦ [] | some (g, k) ↦ (k, t) ∷ [] ]) ++ entries groups)
      go none = Perm.refl (entries groups)
      go (some (g, k)) = file_entry-perm groups g (k, t)

  -- Each entry stands in its own group.
  abbrev pub IsFiled : GroupKey → Entry F → Type 0
  IsFiled g e = place fl e.1 ≡ some (g, e.0)

  abbrev pub AreFiled : List (Group fl) → Type 0
  AreFiled [] = Unit
  AreFiled ((g, es) ∷ groups) = All (IsFiled g) es × AreFiled groups

  file_entry-AreFiled :
      (groups : List (Group fl)) (g : GroupKey) (e : Entry F)
      → IsFiled g e
      → AreFiled groups
      → AreFiled (file_entry fl groups g e)
  unfolding file_entry
  file_entry-AreFiled [] g e h k = ((h, tt), tt)
  file_entry-AreFiled ((i, es) ∷ groups) g e h k = elim (Bool-cases (same_group i g)) [
    | inl here ↦
        rw here (All-append (IsFiled i) es (e ∷ []) k.0 (rw (same_group→eq i g here) h, tt), k.1)
    | inr later ↦ rw later (k.0, file_entry-AreFiled groups g e h k.1)
  ]

  file_torrent-AreFiled :
      (groups : List (Group fl)) (t : Torrent F)
      → AreFiled groups
      → AreFiled (file_torrent fl groups t)
  unfolding file_torrent
  file_torrent-AreFiled groups t h = elim (Option-cases (place fl t)) [
    | inl nowhere ↦
        subst
          (λ o. AreFiled (elim o [ none ↦ groups | some (g, k) ↦ file_entry fl groups g (k, t) ]))
          (sym nowhere) h
    | inr ((g, k), e) ↦
        subst
          (λ o. AreFiled (elim o [ none ↦ groups | some (g, k) ↦ file_entry fl groups g (k, t) ]))
          (sym e) (file_entry-AreFiled groups g (k, t) e h)
  ]

  pub group_torrents-AreFiled :
      (groups : List (Group fl)) (ts : List (Torrent F))
      → AreFiled groups
      → AreFiled (group_torrents fl groups ts)
  unfolding group_torrents
  group_torrents-AreFiled groups [] h = h
  group_torrents-AreFiled groups (t ∷ ts) h =
      group_torrents-AreFiled (file_torrent fl groups t) ts (file_torrent-AreFiled groups t h)

  placed-cons :
      (t : Torrent F) (ts : List (Torrent F)) → placed (t ∷ ts) ≡ placed (t ∷ []) ++ placed ts
  placed-cons t ts = go (place fl t)
    where
      go :
          (o : Option (GroupKey × SortKey F))
          → (elim o [ none ↦ placed ts | some (g, k) ↦ (k, t) ∷ placed ts ])
            ≡ (elim o [ none ↦ [] | some (g, k) ↦ (k, t) ∷ [] ]) ++ placed ts
      go none = refl
      go (some (g, k)) = refl

  -- The groups hold the torrents that have a place, each once.
  pub group_torrents-perm :
      (groups : List (Group fl)) (ts : List (Torrent F))
      → Perm (entries (group_torrents fl groups ts)) (placed ts ++ entries groups)
  unfolding group_torrents
  group_torrents-perm groups [] = Perm.refl (entries groups)
  group_torrents-perm groups (t ∷ ts) =
      subst
        (λ es.
          Perm (entries (group_torrents fl (file_torrent fl groups t) ts)) (es ++ entries groups))
        (sym (placed-cons t ts))
        (Perm.trans (group_torrents-perm (file_torrent fl groups t) ts) (
          Perm.trans (Perm.append_left (placed ts) (file_torrent-perm groups t)) (
            subst (λ l. Perm l ((placed (t ∷ []) ++ placed ts) ++ entries groups))
              (append_assoc (placed ts) (placed (t ∷ [])) (entries groups))
              (Perm.append_right (entries groups)
                (perm_append_comm (placed ts) (placed (t ∷ [])))))))
