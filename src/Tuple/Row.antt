-- ===== src/Tuple/Row.antt =====
-- The bytes of a row (src/tuple/tuple.cpp): a bitmap of the nulls, then a field for each column.
pub mod Fields
pub mod Types
pub mod Read
pub mod Offsets
mod Bits
mod Nulls
mod Fieldwise
pub mod RoundTrip
pub mod Room
use duck_duck_dbms.Common.{
  ℕ, zero, suc, ◌+◌, ◌-◌, ◌/◌, ◌%◌, ◌^◌, Bool, true, false, not, ◌&&◌, ◌||◌, Option, none, some,
  List, [], ◌∷◌, ◌++◌, ltb, ◌==◌, if◌then◌else◌, length, get_elem?, set, replicate, take, Result,
  ok, err, ◌>>=◌, wrong_value_count, wrong_value_type, unknown_type, value_too_long,
}
use duck_duck_dbms.Common.Int.{ℤ, pos, negsuc}
use duck_duck_dbms.Common.Bytes.{to_bytes, from_bytes}
use duck_duck_dbms.Common.Slices.{slice}
use duck_duck_dbms.Tuple.Value.{
  Variant, of, null, TypeId, ValueType, Value, type_id_to_value_type, serialized_size, serialize_to,
}
use duck_duck_dbms.Tuple.Schema.{Column}

-- The enumerator of a number.
abbrev pub type_ids : List TypeId
type_ids =
    TypeId.int32 ∷ TypeId.int64 ∷ TypeId.uint32 ∷ TypeId.uint64 ∷ TypeId.float ∷ TypeId.double
    ∷ TypeId.bool ∷ TypeId.char ∷ TypeId.varchar ∷ TypeId.varbinary ∷ []

abbrev pub type_of : Column → Option TypeId
type_of c = get_elem? type_ids c.type

unfoldable pub is_fixed_size : TypeId → Bool
is_fixed_size TypeId.varchar = false
is_fixed_size TypeId.varbinary = false
is_fixed_size _ = true

unfoldable pub fixed_size_of : TypeId → ℕ → ℕ
fixed_size_of TypeId.int64 n = 8
fixed_size_of TypeId.uint64 n = 8
fixed_size_of TypeId.double n = 8
fixed_size_of TypeId.int32 n = 4
fixed_size_of TypeId.uint32 n = 4
fixed_size_of TypeId.float n = 4
fixed_size_of TypeId.bool n = 1
fixed_size_of TypeId.char n = n
fixed_size_of TypeId.varchar n = 0
fixed_size_of TypeId.varbinary n = 0

-- A column whose type is no enumerator throws: in the constructor of a row already, so that
-- `serialize` does not meet one.
abbrev pub with_type : {A : Type 0} → Column → (TypeId → Result A) → Result A
with_type c next = elim (type_of c) [ none ↦ err unknown_type | some t ↦ next t ]

abbrev pub bitmap_size : ℕ → ℕ
bitmap_size n = (n + 7) / 8

abbrev pub bit : ℕ → ℕ → Bool
bit k byte = (byte / 2 ^ k) % 2 == 1

unfoldable pub is_null : List ℕ → ℕ → Bool
is_null bitmap column = elim (get_elem? bitmap (column / 8)) [
  | none ↦ false
  | some byte ↦ bit (column % 8) byte
]

unfoldable pub set_null : List ℕ → ℕ → List ℕ
set_null bitmap column = elim (get_elem? bitmap (column / 8)) [
  | none ↦ bitmap
  | some byte ↦
      set bitmap (column / 8) (if bit (column % 8) byte then byte else byte + 2 ^ (column % 8))
]

-- The bits of the null values, from a column on.
unfoldable pub set_nulls : ℕ → List Value → List ℕ → List ℕ
set_nulls column [] bitmap = bitmap
set_nulls column (v ∷ vs) bitmap =
    set_nulls (column + 1) vs (if v.is_null then set_null bitmap column else bitmap)

-- The number of an alternative, to compare two.
abbrev pub number_of : ValueType → ℕ
number_of ValueType.int64 = 0
number_of ValueType.uint64 = 1
number_of ValueType.int32 = 2
number_of ValueType.uint32 = 3
number_of ValueType.double = 4
number_of ValueType.float = 5
number_of ValueType.bool = 6
number_of ValueType.string = 7
number_of ValueType.bytes = 8

unfoldable pub check_types : List Column → List Value → Result Bool
check_types (c ∷ cs) (v ∷ vs) =
    let rest = check_types cs vs in
    (with_type c λ t.
      if number_of v.type == number_of (type_id_to_value_type t)
      then rest
      else err wrong_value_type)
check_types _ _ = ok true

-- The constructor that takes values: there is one for each column, of the type of the column.
unfoldable pub make_tuple : List Column → List Value → Result (List Value)
make_tuple columns values =
    if length values == length columns
    then (check_types columns values >>= λ _. ok values)
    else err wrong_value_count

-- The checks of the size of a CHAR or VARCHAR. Those for VARBINARY stand behind the same condition,
-- so they are never made.
unfoldable pub check_size : TypeId → ℕ → Value → Result Bool
check_size TypeId.char n v = do
  size ← serialized_size v
  (if ltb n size then err value_too_long else ok true)
check_size TypeId.varchar n v = do
  size ← serialized_size v
  (if ltb 0 n && ltb n size
      then err value_too_long
      else if ltb 65535 size
      then err value_too_long
      else ok true)
check_size _ n v = ok true

-- What is written of a value of a type with a fixed size, and of another.
unfoldable pub fixed_field : ℕ → Value → Result (List ℕ)
fixed_field size v = do
  written ← (if v.is_null then ok [] else serialize_to v)
  ok (written ++ replicate (size - length written) 0)

abbrev pub after_bytes : ℕ → List ℕ → Result (List ℕ)
after_bytes size written = ok (to_bytes 2 (size % 2 ^ 16) ++ written)

abbrev pub after_size : Value → ℕ → Result (List ℕ)
after_size v size = serialize_to v >>= after_bytes size

abbrev pub variable_of : Bool → Value → Result (List ℕ)
variable_of true v = ok (to_bytes 2 0)
variable_of false v = serialized_size v >>= after_size v

unfoldable pub variable_field : Value → Result (List ℕ)
variable_field v = variable_of v.is_null v

unfoldable pub typed_field : TypeId → ℕ → Value → Result (List ℕ)
typed_field t n v = do
  _ ← (if v.is_null then ok true else check_size t n v)
  (if is_fixed_size t then fixed_field (fixed_size_of t n) v else variable_field v)

unfoldable pub serialize_fields : List Column → List Value → Result (List (List ℕ))
serialize_fields (c ∷ cs) (v ∷ vs) = do
  field ← with_type c λ t. typed_field t c.length v
  fields ← serialize_fields cs vs
  ok (field ∷ fields)
serialize_fields _ _ = ok []

abbrev pub flatten : List (List ℕ) → List ℕ
flatten [] = []
flatten (x ∷ xs) = x ++ flatten xs

unfoldable pub serialize : List Column → List Value → Result (List ℕ)
serialize columns values = do
  fields ← serialize_fields columns values
  ok (set_nulls 0 values (replicate (bitmap_size (length columns)) 0) ++ flatten fields)

-- `offset` has 16 bits here.
abbrev pub read_length : List ℕ → ℕ → ℕ
read_length raw offset = from_bytes (slice (offset % 2 ^ 16) 2 raw)

-- Bytes behind the end of the row are not there. A size of 0 is taken for that of a field with its length in front, which CHAR(0) has as well.
unfoldable pub offsets_from : List ℕ → ℕ → List Column → Result (List ℕ)
offsets_from raw offset [] = ok []
offsets_from raw offset (c ∷ cs) = with_type c λ t.
    let fixed = fixed_size_of t c.length in
    (offsets_from raw (offset + (if ltb 0 fixed then fixed else read_length raw offset + 2)) cs
      >>= λ offsets. ok (offset % 2 ^ 16 ∷ offsets))

unfoldable pub compute_offsets : List ℕ → List Column → Result (List ℕ)
compute_offsets raw columns = offsets_from raw (bitmap_size (length columns)) columns

-- An integer from its two's complement pattern.
unfoldable pub from_pattern : ℕ → ℕ → ℤ
from_pattern half n = if ltb n half then pos n else negsuc (half + half - 1 - n)

-- A string without its last characters that are 0.
unfoldable pub strip : List ℕ → List ℕ
strip [] = []
strip (b ∷ bs) =
    let rest = strip bs in elim rest [ [] ↦ if b == 0 then [] else b ∷ [] | x ∷ xs ↦ b ∷ x ∷ xs ]

abbrev pub first_is_set : List ℕ → Bool
first_is_set [] = false
first_is_set (b ∷ bs) = not (b == 0)

-- The value of a type from its bytes.
unfoldable pub read_value : TypeId → List ℕ → Value
read_value TypeId.int64 bytes =
    of (Variant.int64 (from_pattern (2 ^ 63) (from_bytes (take 8 bytes))))
read_value TypeId.uint64 bytes = of (Variant.uint64 (from_bytes (take 8 bytes)))
read_value TypeId.double bytes = of (Variant.double (from_bytes (take 8 bytes)))
read_value TypeId.int32 bytes =
    of (Variant.int32 (from_pattern (2 ^ 31) (from_bytes (take 4 bytes))))
read_value TypeId.uint32 bytes = of (Variant.uint32 (from_bytes (take 4 bytes)))
read_value TypeId.float bytes = of (Variant.float (from_bytes (take 4 bytes)))
read_value TypeId.bool bytes = of (Variant.bool (first_is_set bytes))
read_value TypeId.char bytes = of (Variant.string (strip bytes))
read_value TypeId.varchar bytes = of (Variant.string bytes)
read_value TypeId.varbinary bytes = of (Variant.bytes bytes)

-- `offset` has 16 bits.
unfoldable pub deserialize_value : List ℕ → ℕ → ℕ → Column → Result Value
deserialize_value raw offset index c = with_type c λ t.
    if is_null raw index
    then ok (null (type_id_to_value_type t))
    else if is_fixed_size t
    then ok (read_value t (slice offset (fixed_size_of t c.length) raw))
    else ok (read_value t (slice ((offset + 2) % 2 ^ 16) (read_length raw offset) raw))

unfoldable pub deserialize_values : List ℕ → ℕ → List ℕ → List Column → Result (List Value)
deserialize_values raw index (offset ∷ offsets) (c ∷ cs) = do
  v ← deserialize_value raw offset index c
  vs ← deserialize_values raw (index + 1) offsets cs
  ok (v ∷ vs)
deserialize_values _ _ _ _ = ok []

unfoldable pub deserialize : List ℕ → List Column → Result (List Value)
deserialize raw columns = do
  offsets ← compute_offsets raw columns
  deserialize_values raw 0 offsets columns
