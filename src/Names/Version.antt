-- ===== src/Names/Version.antt =====
-- Versions as Python compares them: tuples of ints, in lexicographic order.
use linux_iso_seeder.Base.{
  ◌≡◌, refl, Bool, true, false, ◌&&◌, ◌||◌, ◌↔◌, List, [], ◌∷◌, arith, Result, ok, ◌>>=◌, not,
}
use linux_iso_seeder.Base.Int.{ℤ, ltb_ℤ}
use linux_iso_seeder.Base.Text.{Text}
use linux_iso_seeder.Base.Strings.{split, int_of}

abbrev pub Version : Type 0
Version = List ℤ

int_all : List Text → Result Version
int_all [] = ok []
int_all (part ∷ parts) = do n ← int_of part; ns ← int_all parts; ok (n ∷ ns)

-- `tuple(map(int, v.split(".")))`; the ValueError is raised again with another message.
unfoldable pub version_to_tuple : Text → Result Version
unfolding int_all int_of split
version_to_tuple v = int_all (split b'.' v)

abbrev pub same_ℤ : ℤ → ℤ → Bool
same_ℤ a b = not (ltb_ℤ a b || ltb_ℤ b a)

unfoldable pub same_version : Version → Version → Bool
same_version [] [] = true
same_version (x ∷ xs) (y ∷ ys) = same_ℤ x y && same_version xs ys
same_version _ _ = false

-- `v < w`
unfoldable pub less_version : Version → Version → Bool
less_version v [] = false
less_version [] (y ∷ ys) = true
less_version (x ∷ xs) (y ∷ ys) = ltb_ℤ x y || (same_ℤ x y && less_version xs ys)

pub same_version_refl : (v : Version) → same_version v v ≡ true
unfolding same_version
same_version_refl [] = refl
same_version_refl (x ∷ xs) = ground (arith, same_version_refl xs)

pub same_version→eq : (v w : Version) → same_version v w ≡ true → v ≡ w
unfolding same_version
same_version→eq [] [] h = refl
same_version→eq [] (y ∷ ys) h = cc
same_version→eq (x ∷ xs) [] h = cc
same_version→eq (x ∷ xs) (y ∷ ys) h = ground (arith, same_version→eq xs ys)

pub less_version_irrefl : (v : Version) → less_version v v ≡ false
unfolding less_version
less_version_irrefl [] = refl
less_version_irrefl (x ∷ xs) = ground (arith, less_version_irrefl xs)

pub less_version_trans :
    (u v w : Version) → less_version u v ≡ true → less_version v w ≡ true → less_version u w ≡ true
unfolding less_version
less_version_trans u v [] h k = cc
less_version_trans u [] (z ∷ zs) h k = cc
less_version_trans [] (y ∷ ys) (z ∷ zs) h k = refl
less_version_trans (x ∷ xs) (y ∷ ys) (z ∷ zs) h k = ground (arith, less_version_trans xs ys zs)

pub less_version_asymm : (v w : Version) → less_version v w ≡ true → less_version w v ≡ false
unfolding less_version
less_version_asymm v [] h = cc
less_version_asymm [] (y ∷ ys) h = refl
less_version_asymm (x ∷ xs) (y ∷ ys) h = ground (arith, less_version_asymm xs ys)

-- Two versions that are not the same are in order one way or the other.
pub less_version_connex :
    (v w : Version) → less_version v w ≡ false → less_version w v ≡ false → v ≡ w
unfolding less_version
less_version_connex [] [] h k = refl
less_version_connex [] (y ∷ ys) h k = cc
less_version_connex (x ∷ xs) [] h k = cc
less_version_connex (x ∷ xs) (y ∷ ys) h k = ground (arith, less_version_connex xs ys)

pub same_version_iff : (v w : Version) → (same_version v w ≡ true) ↔ (v ≡ w)
same_version_iff v w = (same_version→eq v w, λ e. rw e (same_version_refl w))
