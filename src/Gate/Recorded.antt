-- ===== src/Gate/Recorded.antt =====
-- What the two loops of `should_fetch_torrent` record of each version: the last ratio among the
-- torrents that are held, or else the first usable one of the removed history.
use linux_iso_seeder.Base.{
  ◌≡◌, refl, sym, Bool, false, Option, none, some, List, [], ◌∷◌, arith, if◌then◌else◌,
}
use linux_iso_seeder.Base.Text.{Text}
use linux_iso_seeder.Base.Dict.{Dict}
use linux_iso_seeder.Base.Float.{Float}
use linux_iso_seeder.Names.{Distro}
use linux_iso_seeder.Names.Version.{Version, same_version, same_version_iff}
use linux_iso_seeder.Gate.{
  Removed, entry_version, get_version, put_version, set_default, add_live, collect_live,
  usable_ratio, add_removed, collect_removed, type_ratios,
}

abbrev pub or_else : {R : Type 0} → Option R → Option R → Option R
or_else (some r) o = some r
or_else none o = o

or_else-none : {R : Type 0} (o : Option R) → or_else o none ≡ o
or_else-none (some r) = refl
or_else-none none = refl

or_else_assoc : {R : Type 0} (a b c : Option R) → or_else (or_else a b) c ≡ or_else a (or_else b c)
or_else_assoc (some r) b c = refl
or_else_assoc none b c = refl

-- The name is a release of the distribution and type with the version `v`.
abbrev is_release : Option Version → Version → Bool
is_release none v = false
is_release (some w) v = same_version w v

module _ {R : Type 0} where
  abbrev pub last_live : Distro → Text → Dict R → Version → Option R
  last_live distro type [] v = none
  last_live distro type ((n, r) ∷ rs) v =
      or_else (last_live distro type rs v)
        (if is_release (entry_version distro type n) v then some r else none)

  abbrev pub first_removed : Distro → Text → Dict R → Dict (Removed R) → Version → Option R
  first_removed distro type ratios [] v = none
  first_removed distro type ratios ((n, record_) ∷ hs) v =
      or_else
        (if is_release (entry_version distro type n) v then usable_ratio ratios n record_ else none)
        (first_removed distro type ratios hs v)

  abbrev pub recorded : Distro → Text → Dict R → Dict (Removed R) → Version → Option R
  recorded distro type ratios removed_history v =
      or_else (last_live distro type ratios v) (first_removed distro type ratios removed_history v)

  get-put_version :
      (d : List (Version × R)) (v w : Version) (r : R)
      → get_version (put_version d v r) w
        ≡ or_else (if same_version v w then some r else none) (get_version d w)
  unfolding get_version put_version
  get-put_version [] v w r = ground arith
  get-put_version ((u, x) ∷ d) v w r = ground (
    arith,
    same_version_iff u v,
    same_version_iff u w,
    same_version_iff v w,
    get-put_version d v w r,
  )

  get-set_default :
      (d : List (Version × R)) (v w : Version) (r : R)
      → get_version (set_default d v r) w
        ≡ or_else (get_version d w) (if same_version v w then some r else none)
  unfolding get_version set_default
  get-set_default [] v w r = ground arith
  get-set_default ((u, x) ∷ d) v w r = ground (
    arith,
    same_version_iff u v,
    same_version_iff u w,
    same_version_iff v w,
    get-set_default d v w r,
  )

  get-add_live :
      (distro : Distro) (type n : Text) (d : List (Version × R)) (r : R) (v : Version)
      → get_version (add_live distro type d n r) v
        ≡ or_else
            (if is_release (entry_version distro type n) v then some r else none)
            (get_version d v)
  unfolding add_live
  get-add_live distro type n d r v = go (entry_version distro type n)
    where
      go :
          (o : Option Version)
          → get_version (elim o [ none ↦ d | some v ↦ put_version d v r ]) v
            ≡ or_else (if is_release o v then some r else none) (get_version d v)
      go none = refl
      go (some w) = get-put_version d w v r

  get-collect_live :
      (distro : Distro) (type : Text) (d : List (Version × R)) (rs : Dict R) (v : Version)
      → get_version (collect_live distro type d rs) v
        ≡ or_else (last_live distro type rs v) (get_version d v)
  unfolding collect_live
  get-collect_live distro type d [] v = refl
  get-collect_live distro type d ((n, r) ∷ rs) v =
      rw (get-collect_live distro type (add_live distro type d n r) rs v)
        (rw get-add_live (rw or_else_assoc))

  get-add_removed :
      (distro : Distro) (type n : Text) (o : Option R) (d : List (Version × R)) (v : Version)
      → get_version (add_removed distro type o d n) v
        ≡ or_else (get_version d v) (if is_release (entry_version distro type n) v then o else none)
  unfolding add_removed
  get-add_removed distro type n none d v = ground arith
  get-add_removed distro type n (some r) d v = go (entry_version distro type n)
    where
      go :
          (o : Option Version)
          → get_version (elim o [ none ↦ d | some v ↦ set_default d v r ]) v
            ≡ or_else (get_version d v) (if is_release o v then some r else none)
      go none = sym (or_else-none (get_version d v))
      go (some w) = get-set_default d w v r

  get-collect_removed :
      (distro : Distro) (type : Text) (ratios : Dict R) (d : List (Version × R))
      (hs : Dict (Removed R)) (v : Version)
      → get_version (collect_removed distro type ratios d hs) v
        ≡ or_else (get_version d v) (first_removed distro type ratios hs v)
  unfolding collect_removed
  get-collect_removed distro type ratios d [] v = sym (or_else-none (get_version d v))
  get-collect_removed distro type ratios d ((n, record_) ∷ hs) v =
      rw
        (get-collect_removed distro type ratios
          (add_removed distro type (usable_ratio ratios n record_) d n) hs v)
        (rw get-add_removed (rw or_else_assoc))

-- The dict that the gate looks into holds, for each version, what is recorded of it.
pub get-type_ratios :
    (fl : Float) (distro : Distro) (type : Text) (ratios : Dict fl.F) (hs : Dict (Removed fl.F))
    (v : Version)
    → get_version (type_ratios fl distro type ratios hs) v ≡ recorded distro type ratios hs v
unfolding type_ratios
get-type_ratios fl distro type ratios hs v =
    rw (get-collect_removed distro type ratios (collect_live distro type [] ratios) hs v)
      (rw (get-collect_live distro type [] ratios v) (unfold get_version in rw or_else-none))
