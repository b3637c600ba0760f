-- ===== src/Cleanup/Sorting.antt =====
-- The sort of a group: it keeps the entries, and puts one first that no other is above.
use linux_iso_seeder.Base.{◌≡◌, refl, true, false, List, [], ◌∷◌, Bool-cases, inl, inr, All}
use mathlib.Core.List.{Perm}
use mathlib.Core.List.Perm
use linux_iso_seeder.Base.Float.{Float, IsOrdered}
use linux_iso_seeder.Names.Version.{less_version_asymm}
use linux_iso_seeder.Gate.Newest.{not_less_trans}
use linux_iso_seeder.Cleanup.Groups.{
  SortKey, version, added, Entry, less_key, insert_entry, sort_entries,
}

module _ (fl : Float) where
  open fl use {F}

  -- No entry of the list is above `k`.
  abbrev pub IsTop : SortKey F → List (Entry F) → Type 0
  IsTop k es = All (λ e. less_key fl k e.0 ≡ false) es

  abbrev pub IsDescending : List (Entry F) → Type 0
  IsDescending [] = Unit
  IsDescending (e ∷ es) = IsTop e.0 es × IsDescending es

module _ (fl : Float) (ordered : IsOrdered fl) where
  open fl use {F}

  less_key_asymm : (k l : SortKey F) → less_key fl k l ≡ true → less_key fl l k ≡ false
  unfolding less_key
  less_key_asymm (version v) (version w) h = less_version_asymm v w h
  less_key_asymm (added a) (added b) h = elim (Bool-cases (fl.lt b a)) [
    | inl back ↦ absurd (cc (ordered.lt_trans a b a h back, ordered.lt_irrefl a))
    | inr done ↦ done
  ]
  less_key_asymm (version v) (added b) h = refl
  less_key_asymm (added a) (version w) h = cc

  -- If `k` is not below `l`, and `l` is not below `m`, then `k` is not below `m`.
  not_less_key_trans :
      (k l m : SortKey F)
      → less_key fl k l ≡ false
      → less_key fl l m ≡ false
      → less_key fl k m ≡ false
  unfolding less_key
  not_less_key_trans (version u) (version v) (version w) h g = not_less_trans u v w h g
  not_less_key_trans (added a) (added b) (added c) h g = ordered.ge_trans a b c h g
  not_less_key_trans (version u) (version v) (added c) h g = g
  not_less_key_trans (version u) (added b) m h g = cc
  not_less_key_trans (added a) (version v) (added c) h g = cc
  not_less_key_trans (added a) l (version w) h g = refl

  IsTop-weaken :
      (k l : SortKey F) (es : List (Entry F))
      → less_key fl k l ≡ false
      → IsTop fl l es
      → IsTop fl k es
  IsTop-weaken k l [] h top = tt
  IsTop-weaken k l (e ∷ es) h top =
      (not_less_key_trans k l e.0 h top.0, IsTop-weaken k l es h top.1)

  IsTop-insert_entry :
      (k : SortKey F) (e : Entry F) (es : List (Entry F))
      → less_key fl k e.0 ≡ false
      → IsTop fl k es
      → IsTop fl k (insert_entry fl e es)
  unfolding insert_entry
  IsTop-insert_entry k e [] h top = (h, tt)
  IsTop-insert_entry k e (x ∷ xs) h top = elim (Bool-cases (less_key fl e.0 x.0)) [
    | inl below ↦ rw below (top.0, IsTop-insert_entry k e xs h top.1)
    | inr here ↦ rw here (h, top)
  ]

  insert_entry-IsDescending :
      (e : Entry F) (es : List (Entry F))
      → IsDescending fl es
      → IsDescending fl (insert_entry fl e es)
  unfolding insert_entry
  insert_entry-IsDescending e [] h = (tt, tt)
  insert_entry-IsDescending e (x ∷ xs) h = elim (Bool-cases (less_key fl e.0 x.0)) [
    | inl below ↦ rw below (
      IsTop-insert_entry x.0 e xs (less_key_asymm e.0 x.0 below) h.0,
      insert_entry-IsDescending e xs h.1,
    )
    | inr here ↦ rw here ((here, IsTop-weaken e.0 x.0 xs here h.0), h)
  ]

  pub sort_entries-IsDescending : (es : List (Entry F)) → IsDescending fl (sort_entries fl es)
  unfolding sort_entries
  sort_entries-IsDescending [] = tt
  sort_entries-IsDescending (e ∷ es) =
      insert_entry-IsDescending e (sort_entries fl es) (sort_entries-IsDescending es)

module _ (fl : Float) where
  open fl use {F}

  insert_entry-perm : (e : Entry F) (es : List (Entry F)) → Perm (insert_entry fl e es) (e ∷ es)
  unfolding insert_entry
  insert_entry-perm e [] = Perm.refl (e ∷ [])
  insert_entry-perm e (x ∷ xs) = elim (Bool-cases (less_key fl e.0 x.0)) [
    | inl below ↦ rw below (Perm.trans (Perm.cons x (insert_entry-perm e xs)) (Perm.swap e x xs))
    | inr here ↦ rw here (Perm.refl (e ∷ x ∷ xs))
  ]

  pub sort_entries-perm : (es : List (Entry F)) → Perm (sort_entries fl es) es
  unfolding sort_entries
  sort_entries-perm [] = Perm.refl []
  sort_entries-perm (e ∷ es) =
      Perm.trans (insert_entry-perm e (sort_entries fl es)) (Perm.cons e (sort_entries-perm es))
