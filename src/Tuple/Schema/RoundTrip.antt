-- ===== src/Tuple/Schema/RoundTrip.antt =====
-- A schema is read back from the catalog as it was written.
use duck_duck_dbms.Common.{
  ℕ, ◌+◌, ◌%◌, ◌^◌, ◌<◌, ◌≤◌, ◌≡◌, refl, sym, ap, ◌∙◌, false, List, [], ◌∷◌, ◌++◌, arith, ltb,
  length, take, length-append, take_length-append, All, drop_length-append, ok, ◌>>=◌,
}
use duck_duck_dbms.Common.Bytes.{to_bytes, from_bytes, length-to_bytes, from_to_bytes_two}
use duck_duck_dbms.Common.Slices.{slice}
use duck_duck_dbms.Tuple.Schema.{
  Column, serialize_column, deserialize_column, serialize_columns, serialize_schema,
  deserialize_columns, deserialize_schema,
}

append_assoc : (xs ys zs : List ℕ) → (xs ++ ys) ++ zs ≡ xs ++ (ys ++ zs)
append_assoc [] ys zs = refl
append_assoc (x ∷ xs) ys zs = ap (λ l. x ∷ l) (append_assoc xs ys zs)

-- The field that stands at an offset is sliced out.
slice_field :
    (o n : ℕ) (before field after : List ℕ)
    → length before ≡ o
    → length field ≡ n
    → slice o n (before ++ (field ++ after)) ≡ field
unfolding slice
slice_field o n before field after e f =
    rw (sym e, sym f, drop_length-append before (field ++ after)) (take_length-append field after)

-- The four fields of a record that begins with a length.
module _ (a b c d rest : List ℕ) (n : ℕ) (ea : length a ≡ 2) (eb : length b ≡ n) (ec : length c ≡ 2)
    (ed : length d ≡ 2) where
  abbrev whole : List ℕ
  whole = (a ++ (b ++ (c ++ d))) ++ rest

  flat : whole ≡ a ++ (b ++ (c ++ (d ++ rest)))
  flat =
      append_assoc a (b ++ (c ++ d)) rest
      ∙ ap (λ l. a ++ l) (append_assoc b (c ++ d) rest ∙ ap (λ l. b ++ l) (append_assoc c d rest))

  first_field : slice 0 2 whole ≡ a
  first_field = ap (slice 0 2) flat ∙ slice_field 0 2 [] a (b ++ (c ++ (d ++ rest))) refl ea

  second_field : slice 2 n whole ≡ b
  second_field = ap (slice 2 n) flat ∙ slice_field 2 n a b (c ++ (d ++ rest)) ea eb

  third_field : slice (2 + n) 2 whole ≡ c
  third_field =
      ap (slice (2 + n) 2) (flat ∙ sym (append_assoc a b (c ++ (d ++ rest))))
      ∙ slice_field (2 + n) 2 (a ++ b) c (d ++ rest) (omega (arith, length-append a b, ea, eb)) ec

  fourth_field : slice (2 + n + 2) 2 whole ≡ d
  fourth_field =
      ap (slice (2 + n + 2) 2) (
        flat
        ∙ sym (append_assoc a b (c ++ (d ++ rest)))
        ∙ sym (append_assoc (a ++ b) c (d ++ rest)))
      ∙ slice_field (2 + n + 2) 2 ((a ++ b) ++ c) d rest
          (omega (arith, length-append (a ++ b) c, length-append a b, ea, eb, ec)) ed

  length-whole : length whole ≡ n + 6 + length rest
  length-whole = omega (
    arith,
    length-append (a ++ (b ++ (c ++ d))) rest,
    length-append a (b ++ (c ++ d)),
    length-append b (c ++ d),
    length-append c d,
    ea,
    eb,
    ec,
    ed,
  )

-- What two bytes and 16-bit offsets can hold.
pub record Fits (c : Column) : Type 0 where
  pub name : length c.name + 6 < 2 ^ 16
  pub type : c.type < 2 ^ 16
  pub length : c.length < 2 ^ 16

not_below : (a b : ℕ) → b ≤ a → ltb a b ≡ false
not_below a b h = ground (arith, h)

-- Bytes that begin with the length of a name are a column, when there are enough of them.
decoded :
    (raw : List ℕ) (n : ℕ)
    → from_bytes (slice 0 2 raw) ≡ n
    → n + 6 ≤ length raw
    → deserialize_column raw
      ≡ ok (
        record {
          name = slice 2 n raw;
          type = from_bytes (slice (2 + n) 2 raw);
          length = from_bytes (slice (2 + n + 2) 2 raw);
        },
        (2 + n + 2 + 2) % 2 ^ 16,
      )
unfolding deserialize_column
decoded raw n e h =
    rw
      (
        e,
        deserialize_column,
        not_below (length raw) 2 (omega (arith, h)),
        not_below (length raw) (2 + n + 4) (omega (arith, h)),
      )
      refl

module _ (c : Column) (f : Fits c) (rest : List ℕ) where
  abbrev n : ℕ
  n = length c.name

  name_mod : n % 2 ^ 16 ≡ n
  name_mod = omega (arith, f.name)

  -- The bytes of a column, with any bytes behind them, are read back as the column, and the count
  -- of bytes is what the column wrote.
  pub deserialize_column-serialize_column :
      deserialize_column (serialize_column c ++ rest) ≡ ok (c, length c.name + 6)
  unfolding serialize_column
  deserialize_column-serialize_column =
      decoded _ n
        (ap from_bytes (first_field a c.name t l rest n ea refl et el)
          ∙ from_to_bytes_two (n % 2 ^ 16) (omega arith)
          ∙ name_mod)
        (omega (arith, length-whole a c.name t l rest n ea refl et el))
      ∙ rw
          (
            second_field a c.name t l rest n ea refl et el,
            third_field a c.name t l rest n ea refl et el,
            fourth_field a c.name t l rest n ea refl et el,
            from_to_bytes_two c.type f.type,
            from_to_bytes_two c.length f.length,
          )
          (ap (λ k. ok (c, k)) (omega (arith, f.name)))
    where
      a : List ℕ
      a = to_bytes 2 (n % 2 ^ 16)

      t : List ℕ
      t = to_bytes 2 c.type

      l : List ℕ
      l = to_bytes 2 c.length

      ea : length a ≡ 2
      ea = length-to_bytes 2 (n % 2 ^ 16)

      et : length t ≡ 2
      et = length-to_bytes 2 c.type

      el : length l ≡ 2
      el = length-to_bytes 2 c.length

  length-serialize_column : length (serialize_column c) ≡ length c.name + 6
  unfolding serialize_column
  length-serialize_column = omega (
    arith,
    length-append (to_bytes 2 (n % 2 ^ 16)) (c.name ++ (to_bytes 2 c.type ++ to_bytes 2 c.length)),
    length-append c.name (to_bytes 2 c.type ++ to_bytes 2 c.length),
    length-append (to_bytes 2 c.type) (to_bytes 2 c.length),
    length-to_bytes 2 (n % 2 ^ 16),
    length-to_bytes 2 c.type,
    length-to_bytes 2 c.length,
  )

deserialize_columns-serialize_columns :
    (cs : List Column) (o : ℕ) (before : List ℕ)
    → All Fits cs
    → length before ≡ o
    → o + length (serialize_columns cs) < 2 ^ 16
    → deserialize_columns (length cs) o (before ++ serialize_columns cs) ≡ ok cs
unfolding deserialize_columns serialize_columns
deserialize_columns-serialize_columns [] o before f e h = refl
deserialize_columns-serialize_columns (c ∷ cs) o before (f, fs) e h =
    rw
      (
        not_below (length (before ++ (serialize_column c ++ serialize_columns cs))) o enough,
        sym e,
        drop_length-append before (serialize_column c ++ serialize_columns cs),
        deserialize_column-serialize_column c f (serialize_columns cs),
      )
      (ap (λ m. m >>= λ columns. ok (c ∷ columns))
        (ap (deserialize_columns (length cs) next) regroup
          ∙ deserialize_columns-serialize_columns cs next (before ++ serialize_column c) fs at_next
              room))
  where
    next : ℕ
    next = (length before + (length c.name + 6)) % 2 ^ 16

    at_next : length (before ++ serialize_column c) ≡ next
    at_next = omega (
      arith,
      length-append before (serialize_column c),
      length-append (serialize_column c) (serialize_columns cs),
      length-serialize_column c f [],
      e,
      h,
    )

    room : next + length (serialize_columns cs) < 2 ^ 16
    room = omega (
      arith,
      length-append before (serialize_column c),
      length-append (serialize_column c) (serialize_columns cs),
      e,
      h,
      at_next,
    )

    enough : o ≤ length (before ++ (serialize_column c ++ serialize_columns cs))
    enough = omega (arith, length-append before (serialize_column c ++ serialize_columns cs), e)

    regroup :
        before ++ (serialize_column c ++ serialize_columns cs)
        ≡ (before ++ serialize_column c) ++ serialize_columns cs
    regroup = sym (append_assoc before (serialize_column c) (serialize_columns cs))

take_all : (cs : List Column) → take (length cs) cs ≡ cs
take_all [] = refl
take_all (c ∷ cs) = ap (λ l. c ∷ l) (take_all cs)

-- A schema of fewer than 2 ^ 16 columns, whose bytes are fewer than 2 ^ 16 and whose columns each
-- fit, is read back as it was written.
pub deserialize_schema-serialize_schema :
    (cs : List Column)
    → All Fits cs
    → length cs < 2 ^ 16
    → 2 + length (serialize_columns cs) < 2 ^ 16
    → deserialize_schema (serialize_schema cs) ≡ ok cs
unfolding deserialize_schema serialize_schema
deserialize_schema-serialize_schema cs f few short =
    rw
      (
        count,
        take_all cs,
        not_below (length (header ++ serialize_columns cs)) 2
            (omega (arith, length-append header (serialize_columns cs), two)),
        slice_field 0 2 [] header (serialize_columns cs) refl two,
        from_to_bytes_two (length cs) few,
      )
      (deserialize_columns-serialize_columns cs 2 header f two short)
  where
    count : length cs % 2 ^ 16 ≡ length cs
    count = omega (arith, few)

    header : List ℕ
    header = to_bytes 2 (length cs)

    two : length header ≡ 2
    two = length-to_bytes 2 (length cs)
