-- ===== src/Discovery/Listed.antt =====
-- That no link of Fedora's page is lost.
use linux_iso_seeder.Base.{
  ℕ, ◌≡◌, refl, sym, ap, subst, ◌∙◌, true, Option, none, some, List, [], ◌∷◌, inl, inr, Bool-cases,
  All, All-weaken, AnyOf-left, AnyOf-right, IsIn, any, arith, ==_iff,
}
use linux_iso_seeder.Base.Text.{Text, same, same→eq}
use linux_iso_seeder.Base.Dict
use linux_iso_seeder.Base.Dict.{Dict, get-put}
use linux_iso_seeder.Discovery.Fedora.{
  Entry, fedora_match, same_entry, add_entry, add_match, group_by_arch, less_entry, insert_entry,
  sort_entries, sort_each, fedora_workstation_torrents,
}

abbrev pub entries_of : Option (List Entry) → List Entry
entries_of none = []
entries_of (some entries) = entries

-- A link whose name matches, for an architecture and a version, is in the architecture's list with
-- that version.
abbrev pub IsGrouped : Dict (List Entry) → Text → Option (Text × ℕ) → Type 0
IsGrouped by_arch href none = Unit
IsGrouped by_arch href (some (arch, version)) =
    IsIn (version, href) (entries_of (Dict.get by_arch arch))

insert_entry-IsIn :
    (e f : Entry) (entries : List Entry) → IsIn e (f ∷ entries) → IsIn e (insert_entry f entries)
unfolding insert_entry
insert_entry-IsIn e f [] h = h
insert_entry-IsIn e f (g ∷ entries) h = elim (Bool-cases (less_entry f g)) [
  | inr below ↦ rw below h
  | inl above ↦ rw above (elim h [
    | inl here ↦ inr (insert_entry-IsIn e f entries (inl here))
    | inr (inl next_one) ↦ inl next_one
    | inr (inr later) ↦ inr (insert_entry-IsIn e f entries (inr later))
  ])
]

sort_entries-IsIn :
    (e : Entry) (entries : List Entry) → IsIn e entries → IsIn e (sort_entries entries)
unfolding sort_entries
sort_entries-IsIn e [] h = h
sort_entries-IsIn e (f ∷ entries) (inl here) =
    insert_entry-IsIn e f (sort_entries entries) (inl here)
sort_entries-IsIn e (f ∷ entries) (inr later) =
    insert_entry-IsIn e f (sort_entries entries) (inr (sort_entries-IsIn e entries later))

entries_of-sort_each :
    (by_arch : Dict (List Entry)) (arch : Text)
    → entries_of (Dict.get (sort_each by_arch) arch)
      ≡ sort_entries (entries_of (Dict.get by_arch arch))
unfolding sort_each Dict.get
entries_of-sort_each [] arch = unfold sort_entries in refl
entries_of-sort_each ((other, entries) ∷ by_arch) arch = elim (Bool-cases (same other arch)) [
  | inl here ↦ rw here refl
  | inr elsewhere ↦ rw elsewhere (entries_of-sort_each by_arch arch)
]

sort_each-IsGrouped :
    (by_arch : Dict (List Entry)) (href : Text) (m : Option (Text × ℕ))
    → IsGrouped by_arch href m
    → IsGrouped (sort_each by_arch) href m
sort_each-IsGrouped by_arch href none h = tt
sort_each-IsGrouped by_arch href (some (arch, version)) h =
    rw (entries_of-sort_each by_arch arch) (sort_entries-IsIn (version, href) _ h)

same_entry→eq : (e f : Entry) → same_entry e f ≡ true → f ≡ e
same_entry→eq (v, h) (w, i) both =
    let v_eq : v ≡ w = ground (arith, ==_iff v w) in
    let h_eq : h ≡ i = same→eq h i (ground arith) in
    sym (ap (λ x. (x, h)) v_eq ∙ ap (λ x. (w, x)) h_eq)

any-IsIn : (e : Entry) (entries : List Entry) → any (same_entry e) entries ≡ true → IsIn e entries
any-IsIn e [] h = cc h
any-IsIn e (f ∷ entries) h = elim (Bool-cases (same_entry e f)) [
  | inl here ↦ inl (same_entry→eq e f here)
  | inr elsewhere ↦ inr (any-IsIn e entries (rw elsewhere at h))
]

add_entry-IsIn_self : (e : Entry) (found : Option (List Entry)) → IsIn e (add_entry e found)
unfolding add_entry
add_entry-IsIn_self e none = inl refl
add_entry-IsIn_self e (some entries) = elim (Bool-cases (any (same_entry e) entries)) [
  | inl there ↦ rw there (any-IsIn e entries there)
  | inr absent ↦ rw absent (AnyOf-right (λ y. y ≡ e) entries (e ∷ []) (inl refl))
]

add_entry-IsIn :
    (e f : Entry) (found : Option (List Entry))
    → IsIn e (entries_of found)
    → IsIn e (add_entry f found)
unfolding add_entry
add_entry-IsIn e f none h = absurd h
add_entry-IsIn e f (some entries) h = elim (Bool-cases (any (same_entry f) entries)) [
  | inl there ↦ rw there h
  | inr absent ↦ rw absent (AnyOf-left (λ y. y ≡ e) entries (f ∷ []) h)
]

add_match-IsGrouped :
    (by_arch : Dict (List Entry)) (link : Text) (found : Option (Text × ℕ)) (href : Text)
    (m : Option (Text × ℕ))
    → IsGrouped by_arch href m
    → IsGrouped (add_match by_arch link found) href m
unfolding add_match
add_match-IsGrouped by_arch link found href none h = tt
add_match-IsGrouped by_arch link none href (some (arch, version)) h = h
add_match-IsGrouped by_arch link (some (other, v)) href (some (arch, version)) h =
    elim (Bool-cases (same other arch)) [
      | inl here ↦
          rw (get-put, here)
            (add_entry-IsIn (version, href) (v, link) (Dict.get by_arch other)
              (subst (λ a. IsIn (version, href) (entries_of (Dict.get by_arch a)))
                (sym (same→eq other arch here)) h))
      | inr elsewhere ↦ rw (get-put, elsewhere) h
    ]

add_match-IsGrouped_self :
    (by_arch : Dict (List Entry)) (href : Text) (m : Option (Text × ℕ))
    → IsGrouped (add_match by_arch href m) href m
unfolding add_match
add_match-IsGrouped_self by_arch href none = tt
add_match-IsGrouped_self by_arch href (some (arch, version)) =
    rw Dict.get-put_self (add_entry-IsIn_self (version, href) (Dict.get by_arch arch))

group_by_arch-keeps :
    (by_arch : Dict (List Entry)) (links : List Text) (href : Text) (m : Option (Text × ℕ))
    → IsGrouped by_arch href m
    → IsGrouped (group_by_arch by_arch links) href m
unfolding group_by_arch
group_by_arch-keeps by_arch [] href m h = h
group_by_arch-keeps by_arch (link ∷ links) href m h =
    group_by_arch-keeps (add_match by_arch link (fedora_match link)) links href m
      (add_match-IsGrouped by_arch link (fedora_match link) href m h)

group_by_arch-IsGrouped :
    (by_arch : Dict (List Entry)) (links : List Text)
    → All (λ href. IsGrouped (group_by_arch by_arch links) href (fedora_match href)) links
unfolding group_by_arch
group_by_arch-IsGrouped by_arch [] = tt
group_by_arch-IsGrouped by_arch (link ∷ links) =
    let after : Dict (List Entry) = add_match by_arch link (fedora_match link) in
    (
      group_by_arch-keeps after links link (fedora_match link)
          (add_match-IsGrouped_self by_arch link (fedora_match link)),
      group_by_arch-IsGrouped after links,
    )

pub fedora_workstation_torrents-IsGrouped :
    (hrefs : List Text)
    → All (λ href. IsGrouped (fedora_workstation_torrents hrefs) href (fedora_match href)) hrefs
unfolding fedora_workstation_torrents
fedora_workstation_torrents-IsGrouped hrefs =
    All-weaken (λ href. IsGrouped (group_by_arch [] hrefs) href (fedora_match href))
      (λ href. IsGrouped (sort_each (group_by_arch [] hrefs)) href (fedora_match href)) hrefs
      (λ href h. sort_each-IsGrouped (group_by_arch [] hrefs) href (fedora_match href) h)
      (group_by_arch-IsGrouped [] hrefs)
