-- ===== src/Discovery/Newest.antt =====
-- Which of Fedora's torrents is the newest of its architecture.
use linux_iso_seeder.Base.{
  ℕ, ◌≡◌, ◌≤◌, refl, sym, subst, Option, none, some, List, [], ◌∷◌, Bool-cases, inl, inr, All,
  All-append, All-weaken, IsIn, members-IsIn, any, arith,
}
use linux_iso_seeder.Base.Text.{Text, same, same→eq}
use linux_iso_seeder.Base.Dict
use linux_iso_seeder.Base.Dict.{Dict}
use linux_iso_seeder.Discovery.Listed.{entries_of, IsGrouped, fedora_workstation_torrents-IsGrouped}
use linux_iso_seeder.Discovery.Fedora.{
  Entry, fedora_match, same_entry, add_entry, add_match, group_by_arch, less_entry, insert_entry,
  sort_entries, sort_each, fedora_workstation_torrents,
}

-- No version of the list is above `v`.
abbrev pub IsAtMost : ℕ → List Entry → Type 0
IsAtMost v entries = All (λ e. e.0 ≤ v) entries

abbrev pub IsNewestFirst : List Entry → Type 0
IsNewestFirst [] = Unit
IsNewestFirst (e ∷ entries) = IsAtMost e.0 entries × IsNewestFirst entries

All-insert_entry :
    (P : Entry → Type 0) (e : Entry) (entries : List Entry)
    → P e
    → All P entries
    → All P (insert_entry e entries)
unfolding insert_entry
All-insert_entry P e [] p all = (p, tt)
All-insert_entry P e (f ∷ entries) p all = elim (Bool-cases (less_entry e f)) [
  | inl above ↦ rw above (all.0, All-insert_entry P e entries p all.1)
  | inr below ↦ rw below (p, all)
]

insert_entry-IsNewestFirst :
    (e : Entry) (entries : List Entry)
    → IsNewestFirst entries
    → IsNewestFirst (insert_entry e entries)
unfolding insert_entry
insert_entry-IsNewestFirst e [] h = (tt, tt)
insert_entry-IsNewestFirst e (f ∷ entries) h = elim (Bool-cases (less_entry e f)) [
  | inl above ↦
      let at_most : e.0 ≤ f.0 = grind arith in
      rw above (
        All-insert_entry (λ d. d.0 ≤ f.0) e entries at_most h.0,
        insert_entry-IsNewestFirst e entries h.1,
      )
  | inr below ↦
      let at_least : f.0 ≤ e.0 = grind arith in
      rw below (
        (
          at_least,
          All-weaken (λ d. d.0 ≤ f.0) (λ d. d.0 ≤ e.0) entries (λ d k. omega (arith, k, at_least))
              h.0,
        ),
        h,
      )
]

sort_entries-IsNewestFirst : (entries : List Entry) → IsNewestFirst (sort_entries entries)
unfolding sort_entries
sort_entries-IsNewestFirst [] = tt
sort_entries-IsNewestFirst (e ∷ entries) =
    insert_entry-IsNewestFirst e (sort_entries entries) (sort_entries-IsNewestFirst entries)

All-sort_entries :
    (P : Entry → Type 0) (entries : List Entry) → All P entries → All P (sort_entries entries)
unfolding sort_entries
All-sort_entries P [] all = tt
All-sort_entries P (e ∷ entries) all =
    All-insert_entry P e (sort_entries entries) all.0 (All-sort_entries P entries all.1)

module _ (hrefs : List Text) where
  -- A link of the page whose name has the architecture and the version.
  abbrev pub IsLinked : Text → Entry → Type 0
  IsLinked arch (version, href) = IsIn href hrefs × (fedora_match href ≡ some (arch, version))

  abbrev pub AreLinked : Dict (List Entry) → Type 0
  AreLinked by_arch = All (λ group. All (IsLinked group.0) group.1) by_arch

  -- The groups: links of the architecture, newest first.
  abbrev pub AreNewestFirst : Dict (List Entry) → Type 0
  AreNewestFirst by_arch =
      All (λ group. All (IsLinked group.0) group.1 × IsNewestFirst group.1) by_arch

  sort_each-AreNewestFirst :
      (by_arch : Dict (List Entry)) → AreLinked by_arch → AreNewestFirst (sort_each by_arch)
  unfolding sort_each
  sort_each-AreNewestFirst [] h = tt
  sort_each-AreNewestFirst ((arch, entries) ∷ by_arch) h = (
    (All-sort_entries (IsLinked arch) entries h.0, sort_entries-IsNewestFirst entries),
    sort_each-AreNewestFirst by_arch h.1,
  )

  put-AreLinked :
      (by_arch : Dict (List Entry)) (arch : Text) (entries : List Entry)
      → AreLinked by_arch
      → All (IsLinked arch) entries
      → AreLinked (Dict.put by_arch arch entries)
  unfolding Dict.put
  put-AreLinked [] arch entries h linked = (linked, tt)
  put-AreLinked ((other, old) ∷ by_arch) arch entries h linked =
      elim (Bool-cases (same other arch)) [
        | inl here ↦
            let e : arch ≡ other = sym (same→eq other arch here) in
            rw here (subst (λ a. All (IsLinked a) entries) e linked, h.1)
        | inr elsewhere ↦ rw elsewhere (h.0, put-AreLinked by_arch arch entries h.1 linked)
      ]

  get-IsLinked :
      (by_arch : Dict (List Entry)) (arch : Text)
      → AreLinked by_arch
      → All (IsLinked arch) (entries_of (Dict.get by_arch arch))
  unfolding Dict.get
  get-IsLinked [] arch h = tt
  get-IsLinked ((other, entries) ∷ by_arch) arch h = elim (Bool-cases (same other arch)) [
    | inl here ↦ rw here (subst (λ a. All (IsLinked a) entries) (same→eq other arch here) h.0)
    | inr elsewhere ↦ rw elsewhere (get-IsLinked by_arch arch h.1)
  ]

  add_entry-IsLinked :
      (arch : Text) (e : Entry) (found : Option (List Entry))
      → IsLinked arch e
      → All (IsLinked arch) (entries_of found)
      → All (IsLinked arch) (add_entry e found)
  unfolding add_entry
  add_entry-IsLinked arch e none linked all = (linked, tt)
  add_entry-IsLinked arch e (some entries) linked all =
      elim (Bool-cases (any (same_entry e) entries)) [
        | inl there ↦ rw there all
        | inr absent ↦ rw absent (All-append (IsLinked arch) entries (e ∷ []) all (linked, tt))
      ]

  add_match-AreLinked :
      (by_arch : Dict (List Entry)) (href : Text) (found : Option (Text × ℕ))
      → IsIn href hrefs
      → fedora_match href ≡ found
      → AreLinked by_arch
      → AreLinked (add_match by_arch href found)
  unfolding add_match
  add_match-AreLinked by_arch href none there e h = h
  add_match-AreLinked by_arch href (some (arch, version)) there e h =
      put-AreLinked by_arch arch (add_entry (version, href) (Dict.get by_arch arch)) h (
        add_entry-IsLinked arch (version, href) (Dict.get by_arch arch) (there, e)
          (get-IsLinked by_arch arch h))

  group_by_arch-AreLinked :
      (by_arch : Dict (List Entry)) (links : List Text)
      → All (λ href. IsIn href hrefs) links
      → AreLinked by_arch
      → AreLinked (group_by_arch by_arch links)
  unfolding group_by_arch
  group_by_arch-AreLinked by_arch [] there h = h
  group_by_arch-AreLinked by_arch (href ∷ links) there h =
      group_by_arch-AreLinked (add_match by_arch href (fedora_match href)) links there.1
        (add_match-AreLinked by_arch href (fedora_match href) there.0 refl h)

  -- Each list is of links of the page for its architecture, each with its version, in descending
  -- order of the versions; and a link of the page whose name gives an architecture and a version is in
  -- the list of its architecture. So the first of a list is a latest one, and those after it are no newer.
  pub fedora_workstation_torrents-AreNewestFirst :
      AreNewestFirst (fedora_workstation_torrents hrefs)
      × All (λ href. IsGrouped (fedora_workstation_torrents hrefs) href (fedora_match href)) hrefs
  unfolding fedora_workstation_torrents
  fedora_workstation_torrents-AreNewestFirst = (
    sort_each-AreNewestFirst (group_by_arch [] hrefs)
        (group_by_arch-AreLinked [] hrefs (members-IsIn hrefs) tt),
    fedora_workstation_torrents-IsGrouped hrefs,
  )
