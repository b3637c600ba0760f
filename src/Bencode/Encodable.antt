-- ===== src/Bencode/Encodable.antt =====
-- `bencode` fails on nothing that `bdecode` returned.
use linux_iso_seeder.Base.{◌≡◌, refl, subst, [], ◌∷◌, ◌++◌, ok, Bool-cases, inl, inr}
use linux_iso_seeder.Bencode.Value.{
  Bytes, raw, named, Value, Items, Fields, bool, int, bytes, str, list, dict, other, nil, item, end,
  field,
}
use linux_iso_seeder.Bencode.Decode.{bdecode}
use linux_iso_seeder.Bencode.Encode.{
  Parts, emit_bytes, key_bytes, bencode, encode_items, encode_fields, sort_parts, insert_part,
  join_parts,
}
use linux_iso_seeder.Bencode.Short.{int_text, show_int-short}
use linux_iso_seeder.Base.Text.{less}
use linux_iso_seeder.Bencode.Total.{IsDecoded, AreDecoded, AreFields, Settles, bdecode-Settles}

-- The parts have no failure among them.
abbrev AreSound : Parts → Type 0
AreSound [] = Unit
AreSound ((k, r) ∷ ps) = ((s : Bytes) × (r ≡ ok s)) × AreSound ps

AreSound-insert_part : (k s : Bytes) (ps : Parts) → AreSound ps → AreSound (insert_part k (ok s) ps)
unfolding insert_part
AreSound-insert_part k s [] h = ((s, refl), tt)
AreSound-insert_part k s ((j, w) ∷ ps) h = elim (Bool-cases (less j k)) [
  | inl before ↦ rw before (h.0, AreSound-insert_part k s ps h.1)
  | inr here ↦ rw here ((s, refl), h)
]

AreSound-sort_parts : (ps : Parts) → AreSound ps → AreSound (sort_parts ps)
unfolding sort_parts
AreSound-sort_parts [] h = tt
AreSound-sort_parts ((k, r) ∷ ps) h =
    rw (h.0.1) (AreSound-insert_part k h.0.0 (sort_parts ps) (AreSound-sort_parts ps h.1))

join_parts-ok : (ps : Parts) → AreSound ps → (s : Bytes) × (join_parts ps ≡ ok s)
unfolding join_parts
join_parts-ok [] h = ([], refl)
join_parts-ok ((k, r) ∷ ps) h =
    let (more, e) = join_parts-ok ps h.1 in (emit_bytes k ++ (h.0.0 ++ more), rw (h.0.1) (rw e))

mutual
  unfolding bencode key_bytes

  encode_value : (v : Value) → IsDecoded v → (s : Bytes) × (bencode v ≡ ok s)
  encode_value (bool b) h = absurd h
  encode_value (int z) h = (b'i' ∷ int_text z ++ b'e' ∷ [], rw (show_int-short z h) refl)
  encode_value (bytes b) h = (_, refl)
  encode_value (str t) h = absurd h
  encode_value (list vs) h = let (s, e) = encode_list vs h in (b'l' ∷ s ++ b'e' ∷ [], rw e)
  encode_value (dict fs) h =
      let (ps, e, sound) = encode_dict fs h in
      let (s, e') = join_parts-ok (sort_parts ps) (AreSound-sort_parts ps sound) in
      (b'd' ∷ s ++ b'e' ∷ [], rw e (rw e'))
  encode_value other h = absurd h

  encode_list : (vs : Items) → AreDecoded vs → (s : Bytes) × (encode_items vs ≡ ok s)
  encode_list nil h = ([], refl)
  encode_list (item v vs) h =
      let (s, e) = encode_value v h.0 in
      let (more, e') = encode_list vs h.1 in (s ++ more, rw e (rw e'))

  encode_dict :
      (fs : Fields) → AreFields fs → (ps : Parts) × (encode_fields fs ≡ ok ps) × AreSound ps
  encode_dict end h = ([], refl, tt)
  encode_dict (field (raw k) v fs) h =
      let (s, e) = encode_value v h.0 in
      let (ps, e', sound) = encode_dict fs h.2 in ((k, bencode v) ∷ ps, rw e', ((s, e), sound))
  encode_dict (field (named t) v fs) h = absurd h

-- Whatever `bdecode` returned, `bencode` encodes without raising.
pub bencode-bdecode :
    (data_ rest : Bytes) (v : Value)
    → bdecode data_ ≡ ok (v, rest)
    → (s : Bytes) × (bencode v ≡ ok s)
bencode-bdecode data_ rest v h =
    encode_value v (subst (Settles IsDecoded data_) h (bdecode-Settles data_)).0
