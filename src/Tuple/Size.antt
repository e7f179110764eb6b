-- ===== src/Tuple/Size.antt =====
-- The two passes of a serialization agree (src/tuple/value.cpp): `serialized_size`, which plans the
-- layout of a tuple, and `serialize_to`, which writes it.
use duck_duck_dbms.Common.{ℕ, ◌≡◌, arith, Bool, List, length, ok}
use duck_duck_dbms.Common.Bytes.{length-to_bytes}
use duck_duck_dbms.Tuple.Value.{
  ValueType, Variant, Value, to_pattern, serialized_size, serialize_to,
}

written :
    (ty : ValueType) (d : Variant) (null : Bool) (bytes : List ℕ)
    → serialize_to (record { type = ty; is_null = null; payload = d }) ≡ ok bytes
    → serialized_size (record { type = ty; is_null = null; payload = d }) ≡ ok (length bytes)
unfolding serialize_to serialized_size
written ValueType.int64 (Variant.int64 n) null bytes h =
    ground (arith, h, length-to_bytes 8 (to_pattern 64 n))
written ValueType.uint64 (Variant.uint64 n) null bytes h = ground (arith, h, length-to_bytes 8 n)
written ValueType.int32 (Variant.int32 n) null bytes h =
    ground (arith, h, length-to_bytes 4 (to_pattern 32 n))
written ValueType.uint32 (Variant.uint32 n) null bytes h = ground (arith, h, length-to_bytes 4 n)
written ValueType.double (Variant.double n) null bytes h = ground (arith, h, length-to_bytes 8 n)
written ValueType.float (Variant.float n) null bytes h = ground (arith, h, length-to_bytes 4 n)
written ValueType.bool (Variant.bool b) null bytes h = ground (arith, h)
written ValueType.string (Variant.string s) null bytes h = ground (arith, h)
written ValueType.bytes (Variant.bytes s) null bytes h = ground (arith, h)
written _ _ null bytes h = cc

-- The bytes that a value writes, when writing it does not throw, are as many as it announces.
pub serialized_size-serialize_to :
    (v : Value) (bytes : List ℕ) → serialize_to v ≡ ok bytes → serialized_size v ≡ ok (length bytes)
serialized_size-serialize_to v bytes h = written v.type v.payload v.is_null bytes h
