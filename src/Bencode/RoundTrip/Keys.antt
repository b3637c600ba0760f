-- ===== src/Bencode/RoundTrip/Keys.antt =====
-- A dict that is read from an encoding with ascending keys is built by appending.
use linux_iso_seeder.Base.{◌≡◌, refl, true}
use linux_iso_seeder.Bencode.Value.{
  Bytes, Key, raw, named, Value, Fields, end, field, put_field, append_fields,
}
use linux_iso_seeder.Base.Text.{less}
use linux_iso_seeder.Bencode.Order.{less_trans, same_of_less}
use linux_iso_seeder.Bencode.Canonical.{FirstAbove}

-- Every key of `done` is below the first key of `fs`.
abbrev pub AllBelow : Fields → Fields → Type 0
AllBelow end fs = Unit
AllBelow (field (raw j) w done) fs = FirstAbove j fs × AllBelow done fs
AllBelow (field (named t) w done) fs = ⊥

FirstAbove-trans : (j k : Bytes) (fs : Fields) → less j k ≡ true → FirstAbove k fs → FirstAbove j fs
FirstAbove-trans j k end p h = tt
FirstAbove-trans j k (field (raw l) w fs) p h = less_trans j k l p h
FirstAbove-trans j k (field (named t) w fs) p h = absurd h

pub put_field-AllBelow :
    (done fs : Fields) (k : Bytes) (v w : Value)
    → AllBelow done (field (raw k) v fs)
    → put_field done k w ≡ append_fields done (field (raw k) w end)
unfolding put_field append_fields
put_field-AllBelow end fs k v w h = refl
put_field-AllBelow (field (raw j) x done) fs k v w h =
    rw (same_of_less j k h.0) (rw (put_field-AllBelow done fs k v w h.1))
put_field-AllBelow (field (named t) x done) fs k v w h = absurd h

pub AllBelow-append_fields :
    (done fs : Fields) (k : Bytes) (v : Value)
    → AllBelow done (field (raw k) v fs)
    → FirstAbove k fs
    → AllBelow (append_fields done (field (raw k) v end)) fs
unfolding append_fields
AllBelow-append_fields end fs k v h above = (above, tt)
AllBelow-append_fields (field (raw j) x done) fs k v h above =
    (FirstAbove-trans j k fs h.0 above, AllBelow-append_fields done fs k v h.1 above)
AllBelow-append_fields (field (named t) x done) fs k v h above = absurd h

pub append_fields-field :
    (done fs : Fields) (k : Key) (v : Value)
    → append_fields (append_fields done (field k v end)) fs ≡ append_fields done (field k v fs)
unfolding append_fields
append_fields-field end fs k v = refl
append_fields-field (field j w done) fs k v = rw (append_fields-field done fs k v)

pub append_fields-end : (fs : Fields) → append_fields fs end ≡ fs
unfolding append_fields
append_fields-end end = refl
append_fields-end (field k v fs) = rw (append_fields-end fs)
