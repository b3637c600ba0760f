-- ===== src/Bencode/RoundTrip/Encoding.antt =====
-- On a canonical value `bencode` sorts nothing and returns `emit`.
use linux_iso_seeder.Base.{◌≡◌, refl, [], ◌∷◌, Result, ok}
use linux_iso_seeder.Bencode.Value.{
  Bytes, raw, named, Value, Items, Fields, bool, int, bytes, str, list, dict, other, nil, item, end,
  field,
}
use linux_iso_seeder.Bencode.Encode.{
  Parts, insert_part, sort_parts, join_parts, bencode, encode_items, encode_fields,
}
use linux_iso_seeder.Bencode.Short.{show_int-short}
use linux_iso_seeder.Bencode.Order.{less_asymm}
use linux_iso_seeder.Bencode.Canonical.{
  FirstAbove, IsCanonical, AreCanonical, IsAscending, emit, emit_items, emit_fields,
}

parts_of : Fields → Parts
parts_of end = []
parts_of (field (raw k) v fs) = (k, ok (emit v)) ∷ parts_of fs
parts_of (field (named t) v fs) = []

insert_part-parts_of :
    (k : Bytes) (r : Result Bytes) (fs : Fields)
    → FirstAbove k fs
    → insert_part k r (parts_of fs) ≡ (k, r) ∷ parts_of fs
unfolding sort_parts parts_of
insert_part-parts_of k r end h = refl
insert_part-parts_of k r (field (raw j) v fs) h = rw (less_asymm k j h)
insert_part-parts_of k r (field (named t) v fs) h = absurd h

sort_parts-parts_of : (fs : Fields) → IsAscending fs → sort_parts (parts_of fs) ≡ parts_of fs
unfolding sort_parts parts_of
sort_parts-parts_of end h = refl
sort_parts-parts_of (field (raw k) v fs) h =
    rw (sort_parts-parts_of fs h.2) (insert_part-parts_of k (ok (emit v)) fs h.1)
sort_parts-parts_of (field (named t) v fs) h = absurd h

join_parts-parts_of :
    (fs : Fields) → IsAscending fs → join_parts (parts_of fs) ≡ ok (emit_fields fs)
unfolding join_parts parts_of emit
join_parts-parts_of end h = refl
join_parts-parts_of (field (raw k) v fs) h = rw (join_parts-parts_of fs h.2)
join_parts-parts_of (field (named t) v fs) h = absurd h

mutual
  unfolding bencode emit parts_of

  value_lem : (v : Value) → IsCanonical v → bencode v ≡ ok (emit v)
  value_lem (bool b) h = absurd h
  value_lem (int z) h = rw (show_int-short z h)
  value_lem (bytes b) h = refl
  value_lem (str t) h = absurd h
  value_lem (list vs) h = rw (items_lem vs h)
  value_lem (dict fs) h =
      rw (fields_lem fs h) (rw (sort_parts-parts_of fs h) (rw (join_parts-parts_of fs h)))
  value_lem other h = absurd h

  items_lem : (vs : Items) → AreCanonical vs → encode_items vs ≡ ok (emit_items vs)
  items_lem nil h = refl
  items_lem (item v vs) h = rw (value_lem v h.0) (rw (items_lem vs h.1))

  fields_lem : (fs : Fields) → IsAscending fs → encode_fields fs ≡ ok (parts_of fs)
  fields_lem end h = refl
  fields_lem (field (raw k) v fs) h = rw (fields_lem fs h.2) (rw (value_lem v h.0))
  fields_lem (field (named t) v fs) h = absurd h

pub bencode-emit : (v : Value) → IsCanonical v → bencode v ≡ ok (emit v)
bencode-emit = value_lem
