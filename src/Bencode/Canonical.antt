-- ===== src/Bencode/Canonical.antt =====
-- Canonical values: those with one encoding, and that encoding written out.
use linux_iso_seeder.Base.{◌≡◌, true, [], ◌∷◌, ◌++◌}
use linux_iso_seeder.Bencode.Value.{
  Bytes, raw, named, Value, Items, Fields, bool, int, bytes, str, list, dict, other, nil, item, end,
  field,
}
use linux_iso_seeder.Bencode.Encode.{emit_bytes}
use linux_iso_seeder.Bencode.Short.{IsShortInt, IsShortLength, int_text}
use linux_iso_seeder.Base.Text.{less}

-- The key of the first field, if there is one, is a byte string above `k`.
abbrev pub FirstAbove : Bytes → Fields → Type 0
FirstAbove k end = Unit
FirstAbove k (field (raw j) v fs) = less k j ≡ true
FirstAbove k (field (named t) v fs) = ⊥

-- Ints and byte strings, lists, and dicts whose keys are byte strings in ascending order. No int and
-- no length of a byte string has more than the 4300 digits that Python converts.
abbrev mutual
  pub IsCanonical : Value → Type 0
  IsCanonical (bool b) = ⊥
  IsCanonical (int z) = IsShortInt z
  IsCanonical (bytes b) = IsShortLength b
  IsCanonical (str t) = ⊥
  IsCanonical (list vs) = AreCanonical vs
  IsCanonical (dict fs) = IsAscending fs
  IsCanonical other = ⊥

  pub AreCanonical : Items → Type 0
  AreCanonical nil = Unit
  AreCanonical (item v vs) = IsCanonical v × AreCanonical vs

  pub IsAscending : Fields → Type 0
  IsAscending end = Unit
  IsAscending (field (raw k) v fs) =
      IsCanonical v × FirstAbove k fs × IsAscending fs × IsShortLength k
  IsAscending (field (named t) v fs) = ⊥

-- The bytes of a canonical value: nothing is sorted and nothing fails.
unfoldable mutual
  pub emit : Value → Bytes
  emit (int z) = b'i' ∷ int_text z ++ b'e' ∷ []
  emit (bytes b) = emit_bytes b
  emit (list vs) = b'l' ∷ emit_items vs ++ b'e' ∷ []
  emit (dict fs) = b'd' ∷ emit_fields fs ++ b'e' ∷ []
  emit _ = []

  pub emit_items : Items → Bytes
  emit_items nil = []
  emit_items (item v vs) = emit v ++ emit_items vs

  pub emit_fields : Fields → Bytes
  emit_fields end = []
  emit_fields (field (raw k) v fs) = emit_bytes k ++ (emit v ++ emit_fields fs)
  emit_fields (field (named t) v fs) = []
