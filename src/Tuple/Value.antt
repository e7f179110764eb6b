-- ===== src/Tuple/Value.antt =====
-- Values (src/tuple/value.cpp, include/duck/tuple/value.hpp, and TypeId of column.hpp). A float or
-- a double is its bit pattern; a string and a byte vector are their bytes.
use duck_duck_dbms.Common.{
  ℕ, ◌-◌, ◌^◌, Bool, true, false, ◌||◌, List, [], ◌∷◌, if◌then◌else◌, length, null_read,
  bad_variant_access, not_integral, Result, ok, err, ◌>>=◌,
}
use duck_duck_dbms.Common.Int.{ℤ, pos, negsuc}
use duck_duck_dbms.Common.Bytes.{to_bytes}

pub data TypeId : Type 0 where
  int32 int64 uint32 uint64 float double bool char varchar varbinary : TypeId

pub data ValueType : Type 0 where
  int64 uint64 int32 uint32 double float bool string bytes : ValueType

unfoldable pub type_id_to_value_type : TypeId → ValueType
type_id_to_value_type TypeId.bool = ValueType.bool
type_id_to_value_type TypeId.double = ValueType.double
type_id_to_value_type TypeId.float = ValueType.float
type_id_to_value_type TypeId.int64 = ValueType.int64
type_id_to_value_type TypeId.uint64 = ValueType.uint64
type_id_to_value_type TypeId.int32 = ValueType.int32
type_id_to_value_type TypeId.uint32 = ValueType.uint32
type_id_to_value_type TypeId.char = string
type_id_to_value_type TypeId.varchar = string
type_id_to_value_type TypeId.varbinary = bytes

-- `std::variant`, an alternative for each type.
pub data Variant : Type 0 where
  uint64 : ℕ → Variant
  int64 : ℤ → Variant
  uint32 : ℕ → Variant
  int32 : ℤ → Variant
  double : ℕ → Variant
  float : ℕ → Variant
  bool : Bool → Variant
  string : List ℕ → Variant
  bytes : List ℕ → Variant

pub record Value : Type 0 where
  pub type : ValueType
  pub is_null : Bool
  pub payload : Variant

-- The default of the variant is its first alternative.
abbrev pub null : ValueType → Value
null ty = record { type = ty; is_null = true; payload = Variant.uint64 0 }

abbrev pub variant_type : Variant → ValueType
variant_type (Variant.uint64 _) = ValueType.uint64
variant_type (Variant.int64 _) = ValueType.int64
variant_type (Variant.uint32 _) = ValueType.uint32
variant_type (Variant.int32 _) = ValueType.int32
variant_type (Variant.double _) = ValueType.double
variant_type (Variant.float _) = ValueType.float
variant_type (Variant.bool _) = ValueType.bool
variant_type (Variant.string _) = string
variant_type (Variant.bytes _) = bytes

-- The overloads of `Value::of`, one for each alternative.
abbrev pub of : Variant → Value
of v = record { type = variant_type v; is_null = false; payload = v }

-- `std::get<T>` throws on another alternative.
abbrev get_int64 : Variant → Result ℤ
get_int64 (Variant.int64 v) = ok v
get_int64 _ = err bad_variant_access

abbrev get_uint64 : Variant → Result ℕ
get_uint64 (Variant.uint64 v) = ok v
get_uint64 _ = err bad_variant_access

abbrev get_int32 : Variant → Result ℤ
get_int32 (Variant.int32 v) = ok v
get_int32 _ = err bad_variant_access

abbrev get_uint32 : Variant → Result ℕ
get_uint32 (Variant.uint32 v) = ok v
get_uint32 _ = err bad_variant_access

abbrev get_double : Variant → Result ℕ
get_double (Variant.double v) = ok v
get_double _ = err bad_variant_access

abbrev get_float : Variant → Result ℕ
get_float (Variant.float v) = ok v
get_float _ = err bad_variant_access

abbrev get_bool : Variant → Result Bool
get_bool (Variant.bool v) = ok v
get_bool _ = err bad_variant_access

abbrev get_string : Variant → Result (List ℕ)
get_string (Variant.string v) = ok v
get_string _ = err bad_variant_access

abbrev get_bytes : Variant → Result (List ℕ)
get_bytes (Variant.bytes v) = ok v
get_bytes _ = err bad_variant_access

abbrev read {ℓ} : {A : Type ℓ} → (Variant → Result A) → Value → Result A
read get v = if v.is_null then err null_read else get v.payload

unfoldable pub as_int64 : Value → Result ℤ
as_int64 = read get_int64

unfoldable pub as_uint64 : Value → Result ℕ
as_uint64 = read get_uint64

unfoldable pub as_int32 : Value → Result ℤ
as_int32 = read get_int32

unfoldable pub as_uint32 : Value → Result ℕ
as_uint32 = read get_uint32

unfoldable pub as_double : Value → Result ℕ
as_double = read get_double

unfoldable pub as_float : Value → Result ℕ
as_float = read get_float

unfoldable pub as_bool : Value → Result Bool
as_bool = read get_bool

unfoldable pub as_string : Value → Result (List ℕ)
as_string = read get_string

unfoldable pub as_bytes : Value → Result (List ℕ)
as_bytes = read get_bytes

abbrev integral_of : ValueType → Value → Result ℤ
integral_of ValueType.int32 v = do n ← as_int32 v; ok n
integral_of ValueType.uint32 v = do n ← as_uint32 v; ok (pos n)
integral_of ValueType.int64 v = as_int64 v
integral_of _ v = err not_integral

unfoldable pub as_integral : Value → Result ℤ
unfolding as_int32 as_uint32 as_int64
as_integral v = integral_of v.type v

abbrev pub integral_type : ValueType → Bool
integral_type ValueType.int32 = true
integral_type ValueType.int64 = true
integral_type ValueType.uint32 = true
integral_type ValueType.uint64 = true
integral_type _ = false

abbrev pub floating_type : ValueType → Bool
floating_type ValueType.float = true
floating_type ValueType.double = true
floating_type _ = false

abbrev pub is_integral : Value → Bool
is_integral v = integral_type v.type

abbrev pub is_floating : Value → Bool
is_floating v = floating_type v.type

abbrev pub is_numeric : Value → Bool
is_numeric v = is_integral v || is_floating v

-- The two's complement pattern of an integer in range.
unfoldable pub to_pattern : ℕ → ℤ → ℕ
to_pattern w (pos n) = n
to_pattern w (negsuc n) = 2 ^ w - 1 - n

abbrev size_of : ValueType → Variant → Result ℕ
size_of ValueType.int64 d = ok 8
size_of ValueType.uint64 d = ok 8
size_of ValueType.double d = ok 8
size_of ValueType.int32 d = ok 4
size_of ValueType.uint32 d = ok 4
size_of ValueType.float d = ok 4
size_of ValueType.bool d = ok 1
size_of string d = do s ← get_string d; ok (length s)
size_of bytes d = do b ← get_bytes d; ok (length b)

unfoldable pub serialized_size : Value → Result ℕ
serialized_size v = size_of v.type v.payload

abbrev bytes_of : ValueType → Variant → Result (List ℕ)
bytes_of ValueType.int64 d = do n ← get_int64 d; ok (to_bytes 8 (to_pattern 64 n))
bytes_of ValueType.uint64 d = do n ← get_uint64 d; ok (to_bytes 8 n)
bytes_of ValueType.double d = do n ← get_double d; ok (to_bytes 8 n)
bytes_of ValueType.int32 d = do n ← get_int32 d; ok (to_bytes 4 (to_pattern 32 n))
bytes_of ValueType.uint32 d = do n ← get_uint32 d; ok (to_bytes 4 n)
bytes_of ValueType.float d = do n ← get_float d; ok (to_bytes 4 n)
bytes_of ValueType.bool d = do b ← get_bool d; ok ((if b then 1 else 0) ∷ [])
bytes_of string d = get_string d
bytes_of bytes d = get_bytes d

-- What `serialize_to` appends to its argument.
unfoldable pub serialize_to : Value → Result (List ℕ)
unfolding to_pattern to_bytes
serialize_to v = bytes_of v.type v.payload
