-- ===== src/Bencode/InfoHash.antt =====
-- `compute_info_hash`. SHA-1 is a parameter.
use linux_iso_seeder.Base.{
  ◌≡◌, refl, sym, ap, subst, ok_injective, ◌∙◌, Option, none, some, [], ◌∷◌, ◌++◌, if◌then◌else◌,
  Result, ok, raised, bencode_error, ◌>>=◌, append_assoc, Bool-cases, inl, inr,
}
use linux_iso_seeder.Base.Text.{codes, same}
use linux_iso_seeder.Bencode.Value.{Bytes, raw, named, Value, Fields, dict, end, field}
use linux_iso_seeder.Bencode.Decode.{bdecode}
use linux_iso_seeder.Bencode.Encode.{bencode, emit_bytes}
use linux_iso_seeder.Bencode.Canonical.{IsCanonical, IsAscending, emit, emit_fields}
use linux_iso_seeder.Bencode.RoundTrip.{bdecode-bencode}
use linux_iso_seeder.Bencode.RoundTrip.Encoding.{bencode-emit}

-- `metainfo[key]`
unfoldable pub get_field : Fields → Bytes → Option Value
get_field end k = none
get_field (field (raw j) v fs) k = if same j k then some v else get_field fs k
get_field (field (named t) v fs) k = get_field fs k

-- The value under "info", if the torrent is a dict that has one.
unfoldable pub info_of : Value → Option Value
unfolding get_field
info_of (dict fs) = get_field fs (codes "info")
info_of _ = none

module _ (sha1 : Bytes → Bytes) where
  unfoldable pub hash_info : Option Value → Result Bytes
  hash_info none = raised bencode_error
  hash_info (some info) = bencode info >>= λ s. ok (sha1 s)

  unfoldable pub compute_info_hash : Bytes → Result Bytes
  unfolding hash_info info_of
  compute_info_hash torrent_bytes = do
    (metainfo, rest) ← bdecode torrent_bytes
    hash_info (info_of metainfo)

-- Where a canonical value lies within its dict's encoding.
abbrev IsPart : Bytes → Bytes → Type 0
IsPart s t = (before : Bytes) × (after : Bytes) × (t ≡ before ++ (s ++ after))

some_injective : {v w : Value} → some v ≡ some w → v ≡ w
some_injective h = cc

reassoc : (a b c d : Bytes) → a ++ (b ++ (c ++ d)) ≡ (a ++ (b ++ c)) ++ d
reassoc a b c d = simp append_assoc

emit_fields-get_field :
    (fs : Fields) (k : Bytes) (v : Value)
    → IsAscending fs
    → get_field fs k ≡ some v
    → IsCanonical v × IsPart (emit v) (emit_fields fs)
unfolding get_field emit
emit_fields-get_field end k v up h = absurd (cc h)
emit_fields-get_field (field (named t) w fs) k v up h = absurd up
emit_fields-get_field (field (raw j) w fs) k v up h = elim (Bool-cases (same j k)) [
  | inl here ↦
      let same_value : w ≡ v = some_injective (rw here at h) in
      (
        subst IsCanonical same_value up.0,
        (
          emit_bytes j,
          emit_fields fs,
          ap (λ u. emit_bytes j ++ (emit u ++ emit_fields fs)) same_value,
        ),
      )
  | inr later ↦
      let (canonical, (before, after, e)) = emit_fields-get_field fs k v up.2 (rw later at h) in
      (
        canonical,
        (
          emit_bytes j ++ (emit w ++ before),
          after,
          rw e (reassoc (emit_bytes j) (emit w) before (emit v ++ after)),
        ),
      )
]

hash_lem :
    (sha1 : Bytes → Bytes) (data_ rest : Bytes) (metainfo info : Value) (s : Bytes)
    → bdecode data_ ≡ ok (metainfo, rest)
    → info_of metainfo ≡ some info
    → bencode info ≡ ok s
    → compute_info_hash sha1 data_ ≡ ok (sha1 s)
unfolding compute_info_hash
hash_lem sha1 data_ rest metainfo info s d h e = rw d (rw h (rw e refl))

-- For a canonical torrent, whose ints and lengths have at most 4300 digits, that has an info dict, whatever follows it, the hash is that of bytes that
-- lie within the torrent as they are: the encoding of that info dict.
pub compute_info_hash-raw :
    (sha1 : Bytes → Bytes) (fs : Fields) (rest : Bytes) (info : Value)
    → IsCanonical (dict fs)
    → info_of (dict fs) ≡ some info
    → (torrent : Bytes) × (before : Bytes) × (s : Bytes) × (after : Bytes) × (bencode (dict fs)
        ≡ ok torrent)
      × (bencode info ≡ ok s)
      × (torrent ≡ before ++ (s ++ after))
      × (compute_info_hash sha1 (torrent ++ rest) ≡ ok (sha1 s))
compute_info_hash-raw sha1 fs rest info canonical h =
    let (torrent, e, d) = bdecode-bencode (dict fs) rest canonical in
    let (info_canonical, (before, after, part)) =
      emit_fields-get_field fs (codes "info") info canonical (unfold info_of in h) in
    let same_bytes : torrent ≡ emit (dict fs) =
      ok_injective (sym e ∙ bencode-emit (dict fs) canonical) in
    (
      torrent,
      b'd' ∷ before,
      emit info,
      after ++ b'e' ∷ [],
      e,
      bencode-emit info info_canonical,
      same_bytes ∙ whole before after part,
      hash_lem sha1 (torrent ++ rest) rest (dict fs) info (emit info) d h
          (bencode-emit info info_canonical),
    )
  where
    whole :
        (before after : Bytes)
        → emit_fields fs ≡ before ++ (emit info ++ after)
        → emit (dict fs) ≡ b'd' ∷ before ++ (emit info ++ (after ++ b'e' ∷ []))
    whole before after part = unfold emit in rw part (simp append_assoc)
