-- ===== src/Tuple/Schema.antt =====
-- Columns, schemas and their bytes in the catalog (src/tuple/column.cpp, schema.cpp). `TypeId` is an
-- enumeration over 16 bits of which a column can hold any value, so a column has its number.
pub mod RoundTrip
pub mod Names
use duck_duck_dbms.Common.{
  ℕ, zero, suc, ◌+◌, ◌*◌, ◌%◌, ◌^◌, Bool, true, false, Option, none, some, List, [], ◌∷◌, ◌++◌, ltb,
  ◌==◌, if◌then◌else◌, length, take, drop, get_elem?, Result, ok, err, too_small, no_columns,
  out_of_range, ◌>>=◌,
}
use duck_duck_dbms.Common.Bytes.{to_bytes, from_bytes}
use duck_duck_dbms.Common.Slices.{slice}

pub record Column : Type 0 where
  pub name : List ℕ
  pub type : ℕ
  pub length : ℕ

unfoldable pub serialize_column : Column → List ℕ
serialize_column c =
    to_bytes 2 (length c.name % 2 ^ 16) ++ (c.name ++ (to_bytes 2 c.type ++ to_bytes 2 c.length))

-- The column, and how many bytes it took.
unfoldable pub deserialize_column : List ℕ → Result (Column × ℕ)
deserialize_column raw =
    if ltb (length raw) 2
    then err too_small
    else (let name_length = from_bytes (slice 0 2 raw) in
        if ltb (length raw) (2 + name_length + 4)
        then err too_small
        else (let offset = 2 + name_length in
            ok (
              record {
                name = slice 2 name_length raw;
                type = from_bytes (slice offset 2 raw);
                length = from_bytes (slice (offset + 2) 2 raw);
              },
              (offset + 2 + 2) % 2 ^ 16,
            )))

unfoldable pub serialize_columns : List Column → List ℕ
serialize_columns [] = []
serialize_columns (c ∷ cs) = serialize_column c ++ serialize_columns cs

unfoldable pub serialize_schema : List Column → List ℕ
serialize_schema columns =
    let n = length columns % 2 ^ 16 in to_bytes 2 n ++ serialize_columns (take n columns)

-- The loop: so many columns, from an offset that has 16 bits.
unfoldable pub deserialize_columns : ℕ → ℕ → List ℕ → Result (List Column)
deserialize_columns zero offset raw = ok []
deserialize_columns (suc count) offset raw =
    if ltb (length raw) offset
    then err too_small
    else (deserialize_column (drop offset raw) >>= λ (d : Column × ℕ).
        deserialize_columns count ((offset + d.1) % 2 ^ 16) raw >>= λ columns. ok (d.0 ∷ columns))

unfoldable pub deserialize_schema : List ℕ → Result (List Column)
deserialize_schema raw =
    if ltb (length raw) 2
    then err too_small
    else deserialize_columns (from_bytes (slice 0 2 raw)) 2 raw

-- `operator==` of two names.
unfoldable pub same_name : List ℕ → List ℕ → Bool
same_name [] [] = true
same_name [] (y ∷ ys) = false
same_name (x ∷ xs) [] = false
same_name (x ∷ xs) (y ∷ ys) = let rest = same_name xs ys in if x == y then rest else false

-- The first index, counted from `i`, of a column with the name.
unfoldable pub index_from : ℕ → List Column → List ℕ → Option ℕ
index_from i [] name = none
index_from i (c ∷ cs) name =
    let rest = index_from (suc i) cs name in if same_name c.name name then some i else rest

unfoldable pub column_index : List Column → List ℕ → Option ℕ
unfolding index_from
column_index columns name = index_from 0 columns name

-- The constructor: a schema has a column.
unfoldable pub make_schema : List Column → Result (List Column)
make_schema [] = err no_columns
make_schema (c ∷ cs) = ok (c ∷ cs)

-- `columns_.at(index)`
unfoldable pub column : List Column → ℕ → Result Column
column columns i = elim (get_elem? columns i) [ none ↦ err out_of_range | some c ↦ ok c ]

unfoldable pub pick : List Column → List ℕ → Result (List Column)
pick columns [] = ok []
pick columns (i ∷ is) = do c ← column columns i; cs ← pick columns is; ok (c ∷ cs)

unfoldable pub projected : List Column → List ℕ → Result (List Column)
projected columns is = do cs ← pick columns is; make_schema cs

-- `operator+`
unfoldable pub sum : List Column → List Column → Result (List Column)
sum a b = make_schema (a ++ b)
