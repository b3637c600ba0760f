-- ===== src/Bencode/RoundTrip/Decoding.antt =====
-- What `emit` wrote, `decode` reads back, whatever follows.
use linux_iso_seeder.Base.{
  ℕ, zero, suc, ◌+◌, ◌*◌, ◌<◌, ◌≡◌, refl, ◌∙◌, [], ◌∷◌, ◌++◌, append_assoc, arith, ok, length,
  length-append,
}
use linux_iso_seeder.Bencode.Value.{
  Bytes, raw, named, Value, Items, Fields, bool, int, bytes, str, list, dict, other, nil, item, end,
  field, append_fields,
}
use linux_iso_seeder.Bencode.Encode.{emit_bytes}
use linux_iso_seeder.Bencode.Decode.{decode, decode_items, decode_fields}
use linux_iso_seeder.Bencode.Canonical.{
  IsCanonical, AreCanonical, IsAscending, emit, emit_items, emit_fields,
}
use linux_iso_seeder.Bencode.RoundTrip.Steps.{
  decode_int-show, decode-emit_bytes, decode-emit_bytes_pos, emit-head, decode_items-item,
  decode_fields-field,
}
use linux_iso_seeder.Bencode.RoundTrip.Keys.{
  AllBelow, put_field-AllBelow, AllBelow-append_fields, append_fields-field, append_fields-end,
}

length-emit_pos : (v : Value) → IsCanonical v → 0 < length (emit v)
length-emit_pos v h = let (c, xs, e, _) = emit-head v h in rw e (omega arith)

lengths : (xs ys : Bytes) → length (xs ++ ys) ≡ length xs + length ys
lengths = length-append

mutual
  unfolding emit decode append_fields

  value_lem :
      (v : Value) (f : ℕ) (rest : Bytes)
      → IsCanonical v
      → 2 * length (emit v) < f
      → decode f (emit v ++ rest) ≡ ok (v, rest)
  value_lem v zero rest h e = absurd (omega arith)
  value_lem (int z) (suc f) rest h e = rw append_assoc (decode_int-show z rest h)
  value_lem (bytes b) (suc f) rest h e = decode-emit_bytes f b rest h
  value_lem (list vs) (suc f) rest h e =
      rw append_assoc
        (rw (items_lem vs f rest h (omega (arith, lengths (emit_items vs) (b'e' ∷ [])))))
  value_lem (dict fs) (suc f) rest h e =
      rw append_assoc
        (rw (fields_lem fs f rest end h tt (omega (arith, lengths (emit_fields fs) (b'e' ∷ [])))))
  value_lem (bool b) (suc f) rest h e = absurd h
  value_lem (str t) (suc f) rest h e = absurd h
  value_lem other (suc f) rest h e = absurd h

  items_lem :
      (vs : Items) (f : ℕ) (rest : Bytes)
      → AreCanonical vs
      → 2 * length (emit_items vs) + 1 < f
      → decode_items f (emit_items vs ++ b'e' ∷ rest) ≡ ok (vs, rest)
  items_lem vs zero rest h e = absurd (omega arith)
  items_lem nil (suc f) rest h e = refl
  items_lem (item v vs) (suc f) rest h e = rw append_assoc (
      decode_items-item f v (emit_items vs ++ b'e' ∷ rest) h.0
      ∙ rw
          (value_lem v f (emit_items vs ++ b'e' ∷ rest) h.0
            (omega (arith, lengths (emit v) (emit_items vs))))
          (rw (
            items_lem vs f rest h.1
              (omega (arith, lengths (emit v) (emit_items vs), length-emit_pos v h.0)))))

  fields_lem :
      (fs : Fields) (f : ℕ) (rest : Bytes) (done : Fields)
      → IsAscending fs
      → AllBelow done fs
      → 2 * length (emit_fields fs) + 1 < f
      → decode_fields f done (emit_fields fs ++ b'e' ∷ rest) ≡ ok (append_fields done fs, rest)
  fields_lem fs zero rest done h below e = absurd (omega arith)
  fields_lem end (suc f) rest done h below e = rw append_fields-end
  fields_lem (field (raw k) v fs) (suc f) rest done h below e =
      let sizes = lengths (emit_bytes k) (emit v ++ emit_fields fs) in
      let sizes' = lengths (emit v) (emit_fields fs) in
      let behind : Bytes = emit_fields fs ++ b'e' ∷ rest in
      rw
        (
          append_assoc (emit_bytes k) (emit v ++ emit_fields fs) (b'e' ∷ rest),
          append_assoc (emit v) (emit_fields fs) (b'e' ∷ rest),
        )
        (decode_fields-field f done k (emit v ++ behind)
          ∙ rw (decode-emit_bytes_pos f k (emit v ++ behind) h.3 (omega arith)) (
              rw (value_lem v f behind h.0 (omega (arith, sizes, sizes'))) (
                rw (put_field-AllBelow done fs k v v below) (
                  rw (← append_fields-field done fs (raw k) v) (
                    fields_lem fs f rest (append_fields done (field (raw k) v end)) h.2
                      (AllBelow-append_fields done fs k v below h.1)
                      (omega (arith, sizes, sizes', length-emit_pos v h.0)))))))
  fields_lem (field (named t) v fs) (suc f) rest done h below e = absurd h

pub decode-emit :
    (v : Value) (f : ℕ) (rest : Bytes)
    → IsCanonical v
    → 2 * length (emit v) < f
    → decode f (emit v ++ rest) ≡ ok (v, rest)
decode-emit = value_lem
