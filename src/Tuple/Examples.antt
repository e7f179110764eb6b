-- ===== src/Tuple/Examples.antt =====
-- The theorems on the bytes of values, columns and schemas at concrete ones.
use duck_duck_dbms.Common.{
  ℕ, ◌+◌, ◌^◌, ◌<◌, ◌≡◌, refl, arith, List, [], ◌∷◌, length, ok, true, false,
}
use duck_duck_dbms.Common.Bytes.{to_bytes, from_bytes}
use duck_duck_dbms.Common.Slices.{slice}
use duck_duck_dbms.Common.Int.{pos}
use duck_duck_dbms.Tuple.Value.{Variant, Value, of, serialize_to}
use duck_duck_dbms.Tuple.Schema.{
  Column, serialize_column, serialize_columns, serialize_schema, deserialize_schema,
}
use duck_duck_dbms.Tuple.Schema.RoundTrip.{Fits, deserialize_schema-serialize_schema}
use duck_duck_dbms.Tuple.Value.{ValueType, null, type_id_to_value_type}
use duck_duck_dbms.Common.{◌↔◌}
use duck_duck_dbms.Tuple.Row.{
  make_tuple, check_types, serialize, serialize_fields, typed_field, fixed_field, variable_field,
  check_size, is_fixed_size, fixed_size_of, set_nulls, set_null, is_null, compute_offsets,
  offsets_from, read_value, from_pattern, deserialize, deserialize_values, deserialize_value,
}
use duck_duck_dbms.Tuple.Row.Types.{IsRow, make_tuple_iff}
use duck_duck_dbms.Common.{All, inl, inr}
use duck_duck_dbms.Tuple.Row.RoundTrip.{IsValue, deserialize-serialize}
use duck_duck_dbms.Tuple.Row.Room.{IsBuilt, AllFit, serialize_iff}
use duck_duck_dbms.Tuple.Row.Offsets.{StandAt, compute_offsets-serialize}

abbrev number : Value
number = of (Variant.uint32 258)

written_number : serialize_to number ≡ ok (2 ∷ 1 ∷ 0 ∷ 0 ∷ [])
unfolding serialize_to to_bytes
written_number = refl

-- `id INT32`, and `name VARCHAR(20)`.
abbrev id_column : Column
id_column = record { name = 105 ∷ 100 ∷ []; type = 0; length = 0 }

abbrev name_column : Column
name_column = record { name = 110 ∷ 97 ∷ 109 ∷ 101 ∷ []; type = 8; length = 20 }

id_column-Fits : Fits id_column
id_column-Fits = record { name = omega arith; type = omega arith; length = omega arith }

name_column-Fits : Fits name_column
name_column-Fits = record { name = omega arith; type = omega arith; length = omega arith }

abbrev columns : List Column
columns = id_column ∷ name_column ∷ []

small_schema : 2 + length (serialize_columns columns) < 2 ^ 16
unfolding serialize_columns serialize_column to_bytes
small_schema = omega arith

deserialize_schema-serialize_schema_example :
    deserialize_schema (serialize_schema columns) ≡ ok columns
deserialize_schema-serialize_schema_example =
    deserialize_schema-serialize_schema columns (id_column-Fits, (name_column-Fits, tt))
      (omega arith) small_schema

-- The row (258, NULL): the second bit of the bitmap, the number, and a name of length 0.
abbrev row : List Value
row = of (Variant.int32 (pos 258)) ∷ null ValueType.string ∷ []

abbrev row_bytes : List ℕ
row_bytes = 2 ∷ 2 ∷ 1 ∷ 0 ∷ 0 ∷ 0 ∷ 0 ∷ []

row_made : make_tuple columns row ≡ ok row
unfolding make_tuple check_types type_id_to_value_type
row_made = refl

row_serialized : serialize columns row ≡ ok row_bytes
unfolding serialize serialize_fields typed_field fixed_field variable_field check_size is_fixed_size
    fixed_size_of set_nulls set_null serialize_to to_bytes
row_serialized = refl

row_null_test : (is_null row_bytes 0 ≡ false) × (is_null row_bytes 1 ≡ true)
unfolding is_null
row_null_test = (refl, refl)

make_tuple_iff_example : (make_tuple columns row ≡ ok row) ↔ IsRow columns row
make_tuple_iff_example = make_tuple_iff columns row

compute_offsets-serialize_example :
    (fields : List (List ℕ)) × (offsets : List ℕ) × (serialize_fields columns row ≡ ok fields)
    × (compute_offsets row_bytes columns ≡ ok offsets)
    × StandAt row_bytes offsets fields
compute_offsets-serialize_example =
    compute_offsets-serialize columns row row_bytes row_made ((λ e. cc e), ((λ e. cc e), tt))
      row_serialized (omega arith)

row_read_test : deserialize row_bytes columns ≡ ok row
unfolding deserialize compute_offsets offsets_from deserialize_values deserialize_value is_null
    is_fixed_size fixed_size_of read_value from_pattern slice from_bytes type_id_to_value_type
row_read_test = refl

row-IsValue : All IsValue row
row-IsValue = (inr (refl, omega arith), (inl refl, tt))

deserialize-serialize_example : deserialize row_bytes columns ≡ ok row
deserialize-serialize_example =
    deserialize-serialize columns row row_bytes row_made ((λ e. cc e), ((λ e. cc e), tt))
      row-IsValue row_serialized (omega arith)

row-IsBuilt : All IsBuilt row
row-IsBuilt = (inr refl, (inl refl, tt))

serialize_iff_example : ((raw : List ℕ) × (serialize columns row ≡ ok raw)) ↔ AllFit columns row
serialize_iff_example = serialize_iff columns row row_made row-IsBuilt
