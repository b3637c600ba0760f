-- ===== src/Bencode/Value.antt =====
-- The Python values that `bencode` tells apart, and those that `bdecode` returns.
use linux_iso_seeder.Base.{Bool, if◌then◌else◌}
use linux_iso_seeder.Base.Int.{ℤ}
use linux_iso_seeder.Base.Text.{Text, same}

abbrev pub Bytes : Type 0
Bytes = Text

-- A dict's key: a byte string or a `str`.
pub data Key : Type 0 where
  raw : Bytes → Key
  named : Text → Key

-- `other` stands for a value of any type that is not listed.
mutual
  pub data Value : Type 0 where
    bool : Bool → Value
    int : ℤ → Value
    bytes : Bytes → Value
    str : Text → Value
    list : Items → Value
    dict : Fields → Value
    other : Value

  pub data Items : Type 0 where
    nil : Items
    item : Value → Items → Items

  pub data Fields : Type 0 where
    end : Fields
    field : Key → Value → Fields → Fields

-- `result[key] = value` on a dict with byte string keys: in place, or at the end.
unfoldable pub put_field : Fields → Bytes → Value → Fields
put_field end k v = field (raw k) v end
put_field (field (raw j) w fs) k v =
    if same j k then field (raw j) v fs else field (raw j) w (put_field fs k v)
put_field (field (named t) w fs) k v = field (named t) w (put_field fs k v)

unfoldable pub append_fields : Fields → Fields → Fields
append_fields end gs = gs
append_fields (field k v fs) gs = field k v (append_fields fs gs)
