-- ===== src/Config/Distros.antt =====
-- Which distributions a run selects.
use linux_iso_seeder.Base.{
  ◌≡◌, refl, fun_ext, All, ◌++◌, ◌==◌, ap, ◌∙◌, Bool, true, false, ◌&&◌, not, List, [], ◌∷◌, arith,
  if◌then◌else◌, any, Bool-cases, inl, inr,
}
use linux_iso_seeder.Base.Text.{Text, codes, same, same→eq}
use linux_iso_seeder.Base.Strings.{strip, split, join, lower}
use linux_iso_seeder.Base.Env.{Environment, env_text, is_empty}
use linux_iso_seeder.Names.{Distro, is_distro, is_distro→eq}
use linux_iso_seeder.Config.{
  all_distros, default_distros, is_opt_in, where_distro, is_requested, or_default,
  requested_entries, lowered_entries, distro_name, parse_supported_distros,
}

abbrev pub selects : List Distro → Distro → Bool
selects ds d = any (is_distro d) ds

selects-where :
    (p : Distro → Bool) (d : Distro) (ds : List Distro)
    → selects (where_distro p ds) d ≡ (p d && selects ds d)
selects-where p d [] = ground arith
selects-where p d (e ∷ ds) = elim (Bool-cases (is_distro d e)) [
  | inl here ↦
      let same_one : d ≡ e = is_distro→eq d e here in
      let there : p d ≡ p e = ap p same_one in ground (arith, selects-where p d ds)
  | inr other ↦ ground (arith, selects-where p d ds)
]

selects-all_distros : (d : Distro) → selects all_distros d ≡ true
selects-all_distros d = ground arith

-- `or_default` on the list of those that are asked for.
selects-or_default :
    (p : Distro → Bool) (d : Distro) (ds : List Distro)
    → selects (or_default (where_distro p ds)) d
      ≡ (if any p ds then selects (where_distro p ds) d else not (is_opt_in d))
selects-or_default p d [] = defaults d
  where
    defaults : (d : Distro) → selects default_distros d ≡ not (is_opt_in d)
    defaults d = ground arith
selects-or_default p d (e ∷ ds) = elim (Bool-cases (p e)) [
  | inl asked ↦ rw asked
  | inr other ↦ rw other (selects-or_default p d ds)
]

requested_entries-nil :
    (env : Environment)
    → is_empty (strip (env_text env (codes "FETCH_TORRENTS_DISTROS"))) ≡ true
    → requested_entries env ≡ []
unfolding requested_entries same
requested_entries-nil env h =
    rw (same→eq (strip (env_text env (codes "FETCH_TORRENTS_DISTROS"))) [] h)
      (unfold split strip in refl)

by_requested :
    (entries : List Text) (d : Distro)
    → selects (or_default (where_distro (is_requested entries) all_distros)) d ≡ (
        if any (is_requested entries) all_distros
        then is_requested entries d
        else not (is_opt_in d))
by_requested entries d =
    selects-or_default (is_requested entries) d all_distros
    ∙ rw (selects-where (is_requested entries) d all_distros, selects-all_distros d) (ground arith)

by_entries :
    (env : Environment) (d : Distro)
    → let asked = any (is_requested (requested_entries env)) all_distros in
      selects (parse_supported_distros env) d
      ≡ (if asked then is_requested (requested_entries env) d else not (is_opt_in d))
unfolding parse_supported_distros
by_entries env d =
    elim (Bool-cases (is_empty (strip (env_text env (codes "FETCH_TORRENTS_DISTROS"))))) [
      | inl empty ↦ rw (empty, requested_entries-nil env empty) (by_requested [] d)
      | inr given ↦ rw given (by_requested (requested_entries env) d)
    ]

-- The list has the distribution's name, whatever the case of its letters and the spaces around it.
abbrev pub names_distro : List Text → Distro → Bool
names_distro entries d = any (λ e. same (distro_name d) (lower (strip e))) entries

unnamed : (d : Distro) → same (distro_name d) (lower []) ≡ false
unfolding same lower
unnamed d = ground arith

is_requested-lowered_entries :
    (entries : List Text) (d : Distro)
    → is_requested (lowered_entries entries) d ≡ names_distro entries d
unfolding lowered_entries
is_requested-lowered_entries [] d = refl
is_requested-lowered_entries (e ∷ entries) d = elim (Bool-cases (is_empty (strip e))) [
  | inl empty ↦
      rw (empty, same→eq (strip e) [] empty, unnamed d) (is_requested-lowered_entries entries d)
  | inr given ↦ rw (given, is_requested-lowered_entries entries d) refl
]

abbrev pub IsCommaFree : Text → Type 0
IsCommaFree text = All (λ c. (c == b',') ≡ false) text

split-last : (text : Text) → IsCommaFree text → split b',' text ≡ text ∷ []
unfolding split
split-last [] free = refl
split-last (c ∷ text) free = rw (free.0, split-last text free.1) refl

split-next :
    (text rest : Text)
    → IsCommaFree text
    → split b',' (text ++ (b',' ∷ rest)) ≡ text ∷ split b',' rest
unfolding split
split-next [] rest free = refl
split-next (c ∷ text) rest free = rw (free.0, split-next text rest free.1) refl

split-join :
    (e : Text) (entries : List Text)
    → All IsCommaFree (e ∷ entries)
    → split b',' (join (codes ",") (e ∷ entries)) ≡ e ∷ entries
unfolding join
split-join e [] free = split-last e free.0
split-join e (f ∷ entries) free =
    split-next e (join (codes ",") (f ∷ entries)) free.0
    ∙ ap (λ es. e ∷ es) (split-join f entries free.1)

requested_entries-join :
    (env : Environment) (entries : List Text) (d : Distro)
    → All IsCommaFree entries
    → strip (env_text env (codes "FETCH_TORRENTS_DISTROS")) ≡ join (codes ",") entries
    → is_requested (requested_entries env) d ≡ names_distro entries d
unfolding requested_entries
requested_entries-join env [] d free e = rw e (unfold join split lowered_entries strip same in refl)
requested_entries-join env (f ∷ entries) d free e =
    rw (e, split-join f entries free) (is_requested-lowered_entries (f ∷ entries) d)

-- If FETCH_TORRENTS_DISTROS, less the spaces around it, is the entries with commas between them, and
-- no entry has a comma, then: a run selects the distributions that an entry names, if there are
-- any; and otherwise all but those that must be asked for. Case and spaces around a name are ignored.
pub parse_supported_distros_lem :
    (env : Environment) (entries : List Text) (d : Distro)
    → All IsCommaFree entries
    → strip (env_text env (codes "FETCH_TORRENTS_DISTROS")) ≡ join (codes ",") entries
    → selects (parse_supported_distros env) d ≡ (
        if any (names_distro entries) all_distros
        then names_distro entries d
        else not (is_opt_in d))
parse_supported_distros_lem env entries d free e =
    let asked : is_requested (requested_entries env) ≡ names_distro entries =
      fun_ext (λ d. requested_entries-join env entries d free e) in
    by_entries env d ∙ ap (λ p. if any p all_distros then p d else not (is_opt_in d)) asked
