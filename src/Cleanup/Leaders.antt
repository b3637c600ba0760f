-- ===== src/Cleanup/Leaders.antt =====
-- The newest torrent of each group, and how the candidates stand to them.
use linux_iso_seeder.Base.{
  ◌≡◌, refl, sym, subst₂, ap, ◌∙◌, false, Option, none, some, List, [], ◌∷◌, ◌++◌, append_assoc,
  Bool-cases, inl, inr, All, All-append, All-weaken, AnyOf, AnyOf-left, AnyOf-right,
}
use mathlib.Core.List.{Perm, perm_append_comm, map-append}
use mathlib.Core.List.Perm
use linux_iso_seeder.Base.Float.{Float, IsOrdered}
use linux_iso_seeder.Cleanup.Groups.{
  Torrent, SortKey, GroupKey, same_group, Entry, Group, place, less_key, insert_entry, sort_entries,
  torrent_of, torrents_of, tail_of, superseded,
}
use linux_iso_seeder.Cleanup.Sorting.{
  IsTop, IsDescending, sort_entries-IsDescending, sort_entries-perm,
}
use linux_iso_seeder.Cleanup.Grouping.{entries, IsFiled, AreFiled}
use linux_iso_seeder.Cleanup.Distinct.{NoGroup, AreDistinct, same_group_symm}

interchange {ℓ} :
    {A : Type ℓ} (a b c d : List A) → Perm ((a ++ b) ++ (c ++ d)) ((a ++ c) ++ (b ++ d))
interchange a b c d =
    rw (append_assoc a b (c ++ d), append_assoc a c (b ++ d))
      (Perm.append_left a (
        rw (← append_assoc b c d, ← append_assoc c b d)
          (Perm.append_right d (perm_append_comm b c))))

module _ (fl : Float) where
  open fl use {F}

  -- The two torrents are of one group, and `t` is not older than `c`.
  pub record IsAsNew (c t : Torrent F) : Type 0 where
    pub group : GroupKey
    pub key : SortKey F
    pub key' : SortKey F
    pub at : place fl t ≡ some (group, key)
    pub at' : place fl c ≡ some (group, key')
    pub not_older : less_key fl key key' ≡ false

  -- The two torrents are in different groups.
  abbrev pub IsApart : Torrent F → Torrent F → Type 0
  IsApart t s =
      (g h : GroupKey) (k l : SortKey F)
      → place fl t ≡ some (g, k)
      → place fl s ≡ some (h, l)
      → same_group g h ≡ false

  abbrev pub AreApart : List (Torrent F) → Type 0
  AreApart [] = Unit
  AreApart (t ∷ ts) = All (IsApart t) ts × AreApart ts

  abbrev head_of : List (Entry F) → List (Entry F)
  head_of [] = []
  head_of (e ∷ es) = e ∷ []

  -- The first of the sorted entries of each group.
  unfoldable pub newest : List (Group fl) → List (Torrent F)
  newest [] = []
  newest ((g, es) ∷ groups) = torrents_of fl (head_of (sort_entries fl es)) ++ newest groups

  head-append-tail :
      (es : List (Entry F))
      → torrents_of fl (head_of es) ++ torrents_of fl (tail_of fl es) ≡ torrents_of fl es
  head-append-tail [] = refl
  head-append-tail (e ∷ es) = refl

  pub newest-perm :
      (groups : List (Group fl))
      → Perm (newest groups ++ superseded fl groups) (torrents_of fl (entries fl groups))
  unfolding newest superseded
  newest-perm [] = Perm.refl []
  newest-perm ((g, es) ∷ groups) =
      let sorted = sort_entries fl es in
      Perm.trans
        (interchange (torrents_of fl (head_of sorted)) (newest groups)
          (torrents_of fl (tail_of fl sorted)) (superseded fl groups))
        (rw (head-append-tail sorted) (
          rw (map-append (torrent_of fl) es (entries fl groups)) (
            Perm.append (Perm.map (torrent_of fl) (sort_entries-perm fl es)) (newest-perm groups))))

  IsFiled-sort_entries :
      (g : GroupKey) (es : List (Entry F))
      → All (IsFiled fl g) es
      → All (IsFiled fl g) (sort_entries fl es)
  unfolding sort_entries
  IsFiled-sort_entries g [] h = tt
  IsFiled-sort_entries g (e ∷ es) h =
      insert e (sort_entries fl es) h.0 (IsFiled-sort_entries g es h.1)
    where
      insert :
          (e : Entry F) (es : List (Entry F))
          → IsFiled fl g e
          → All (IsFiled fl g) es
          → All (IsFiled fl g) (insert_entry fl e es)
      insert e [] h k = (h, tt)
      insert e (x ∷ xs) h k = elim (Bool-cases (less_key fl e.0 x.0)) [
        | inl below ↦ rw below (k.0, insert e xs h k.1)
        | inr here ↦ rw here (h, k)
      ]

  -- Below the first of a sorted group.
  below_head :
      (g : GroupKey) (k : SortKey F) (t : Torrent F) (es : List (Entry F))
      → place fl t ≡ some (g, k)
      → IsTop fl k es
      → All (IsFiled fl g) es
      → All (λ c. AnyOf (IsAsNew c) (t ∷ [])) (torrents_of fl es)
  below_head g k t [] e top h = tt
  below_head g k t (x ∷ xs) e top h = (
    inl (record { group = g; key = k; key' = x.0; at = e; at' = h.0; not_older = top.0 }),
    below_head g k t xs e top.1 h.1,
  )

  below_newest :
      (g : GroupKey) (es : List (Entry F))
      → IsDescending fl es
      → All (IsFiled fl g) es
      → All (λ c. AnyOf (IsAsNew c) (torrents_of fl (head_of es))) (torrents_of fl (tail_of fl es))
  below_newest g [] d h = tt
  below_newest g (e ∷ es) d h = below_head g e.0 e.1 es h.0 d.0 h.1

  pub superseded-AnyOf :
      (ordered : IsOrdered fl) (groups : List (Group fl))
      → AreFiled fl groups
      → All (λ c. AnyOf (IsAsNew c) (newest groups)) (superseded fl groups)
  unfolding superseded newest
  superseded-AnyOf ordered [] h = tt
  superseded-AnyOf ordered ((g, es) ∷ groups) h =
      let sorted = sort_entries fl es in
      let first = torrents_of fl (head_of sorted) in
      All-append (λ c. AnyOf (IsAsNew c) (first ++ newest groups))
        (torrents_of fl (tail_of fl sorted)) (superseded fl groups)
        (All-weaken (λ c. AnyOf (IsAsNew c) first) (λ c. AnyOf (IsAsNew c) (first ++ newest groups))
          (torrents_of fl (tail_of fl sorted))
          (λ c found. AnyOf-left (IsAsNew c) first (newest groups) found)
          (below_newest g sorted (sort_entries-IsDescending fl ordered es)
            (IsFiled-sort_entries g es h.0)))
        (All-weaken (λ c. AnyOf (IsAsNew c) (newest groups))
          (λ c. AnyOf (IsAsNew c) (first ++ newest groups)) (superseded fl groups)
          (λ c found. AnyOf-right (IsAsNew c) first (newest groups) found)
          (superseded-AnyOf ordered groups h.1))

  -- The torrent has its place in none of the groups but those of the list.
  abbrev IsIn : List (Group fl) → Torrent F → Type 0
  IsIn groups s = AnyOf (λ group. (k : SortKey F) × (place fl s ≡ some (group.0, k))) groups

  newest-IsIn : (groups : List (Group fl)) → AreFiled fl groups → All (IsIn groups) (newest groups)
  unfolding newest
  newest-IsIn [] h = tt
  newest-IsIn ((g, es) ∷ groups) h =
      All-append (IsIn ((g, es) ∷ groups)) (torrents_of fl (head_of (sort_entries fl es)))
        (newest groups) (head-IsIn (sort_entries fl es) (IsFiled-sort_entries g es h.0))
        (All-weaken (IsIn groups) (IsIn ((g, es) ∷ groups)) (newest groups) (λ s i. inr i)
          (newest-IsIn groups h.1))
    where
      head-IsIn :
          (xs : List (Entry F))
          → All (IsFiled fl g) xs
          → All (IsIn ((g, es) ∷ groups)) (torrents_of fl (head_of xs))
      head-IsIn [] k = tt
      head-IsIn (x ∷ xs) k = (inl (x.0, k.0), tt)

  group_of_place :
      (t : Torrent F) (g h : GroupKey) (k l : SortKey F)
      → place fl t ≡ some (g, k)
      → place fl t ≡ some (h, l)
      → g ≡ h
  group_of_place t g h k l p q = ap group_or (sym p ∙ q)
    where
      group_or : Option (GroupKey × SortKey F) → GroupKey
      group_or none = g
      group_or (some (i, m)) = i

  -- A torrent of a group that the list does not have is apart from the torrents of its groups.
  apart :
      (g : GroupKey) (k : SortKey F) (t s : Torrent F) (groups : List (Group fl))
      → place fl t ≡ some (g, k)
      → NoGroup fl g groups
      → IsIn groups s
      → IsApart t s
  apart g k t s [] e none_of i = absurd i
  apart g k t s (group ∷ groups) e none_of (inl (l, e')) = λ g' h' k' l' p q.
      let eg : g ≡ g' = group_of_place t g g' k k' e p in
      let eh : group.0 ≡ h' = group_of_place s group.0 h' l l' e' q in
      rw same_group_symm (subst₂ (λ a b. same_group b a ≡ false) eg eh none_of.0)
  apart g k t s (group ∷ groups) e none_of (inr i) = apart g k t s groups e none_of.1 i

  pub newest-AreApart :
      (groups : List (Group fl))
      → AreFiled fl groups
      → AreDistinct fl groups
      → AreApart (newest groups)
  unfolding newest
  newest-AreApart [] h d = tt
  newest-AreApart ((g, es) ∷ groups) h d =
      go (sort_entries fl es) (IsFiled-sort_entries g es h.0) (newest-AreApart groups h.1 d.1)
    where
      go :
          (xs : List (Entry F))
          → All (IsFiled fl g) xs
          → AreApart (newest groups)
          → AreApart (torrents_of fl (head_of xs) ++ newest groups)
      go [] k rest = rest
      go (x ∷ xs) k rest = (
        All-weaken (IsIn groups) (IsApart x.1) (newest groups)
            (λ s i. apart g x.0 x.1 s groups k.0 d.0 i) (newest-IsIn groups h.1),
        rest,
      )
