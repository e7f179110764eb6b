-- ===== src/Tuple/Row/Fieldwise.antt =====
-- The value of one field, read back from where the field stands.
use duck_duck_dbms.Common.{
  ℕ, ◌+◌, ◌-◌, ◌%◌, ◌^◌, ◌<◌, ◌≤◌, ◌≡◌, refl, sym, ap, ◌∙◌, true, false, inl, inr, List, [], ◌++◌,
  length, replicate, some, Bool-cases, length-append, arith, bind-ok, ok,
}
use mathlib.Core.List.{append-nil}
use duck_duck_dbms.Common.Bytes.{to_bytes, from_bytes, from_to_bytes_two, length-to_bytes}
use duck_duck_dbms.Common.Slices.{
  slice, slice-slice, slice_within, slice-append_left, slice-append_right,
}
use duck_duck_dbms.Tuple.Value.{
  TypeId, Variant, of, null, variant_type, type_id_to_value_type, serialize_to, serialized_size,
}
use duck_duck_dbms.Tuple.Schema.{Column}
use duck_duck_dbms.Tuple.Row.{
  type_of, is_fixed_size, fixed_size_of, check_size, fixed_field, variable_field, after_size,
  after_bytes, typed_field, read_length, read_value, is_null, deserialize_value,
}
use duck_duck_dbms.Tuple.Row.Fields.{after_check, same_size, fixed_length}
use duck_duck_dbms.Tuple.Row.Read.{IsStored, read_value-serialize_to}
use duck_duck_dbms.Tuple.Size.{serialized_size-serialize_to}

-- The length that stands in front of a value, and the value behind it.
module _ (raw written : List ℕ) (o size : ℕ) (l : length written ≡ size)
    (stands : slice o (2 + size) raw ≡ to_bytes 2 (size % 2 ^ 16) ++ written)
    (small : length raw < 2 ^ 16) where
  inside : o + (2 + size) ≤ length raw
  inside =
      slice_within o (2 + size) raw
        (ap length stands
          ∙ length-append (to_bytes 2 (size % 2 ^ 16)) written
          ∙ omega (arith, l, length-to_bytes 2 (size % 2 ^ 16)))
        (omega arith)

  length_read : read_length raw o ≡ size
  length_read =
      let back : size % 2 ^ 16 ≡ size = omega (arith, inside, small) in
      let tb = to_bytes 2 (size % 2 ^ 16) in
      ap from_bytes (
        ap (λ p. slice p 2 raw) (let e : o % 2 ^ 16 ≡ o = omega (arith, inside, small) in e)
        ∙ slice-slice o o 0 2 (2 + size) raw (omega arith) (omega arith)
        ∙ ap (slice 0 2) stands
        ∙ slice-append_left 2 tb written (sym (length-to_bytes 2 (size % 2 ^ 16))))
      ∙ from_to_bytes_two (size % 2 ^ 16) (omega (arith, back, inside, small))
      ∙ back

  bytes_read : slice ((o + 2) % 2 ^ 16) (read_length raw o) raw ≡ written
  bytes_read =
      let tb = to_bytes 2 (size % 2 ^ 16) in
      ap (λ n. slice ((o + 2) % 2 ^ 16) n raw) length_read
      ∙ slice-slice ((o + 2) % 2 ^ 16) o 2 size (2 + size) raw (omega (arith, inside, small))
          (omega arith)
      ∙ ap (slice 2 size) stands
      ∙ slice-append_right 2 0 size tb written (omega (arith, length-to_bytes 2 (size % 2 ^ 16)))
      ∙ ap (slice 0 size) (sym (append-nil written))
      ∙ slice-append_left size written [] (sym l)

not_fixed : (t s : TypeId) → t ≡ s → is_fixed_size t ≡ true → is_fixed_size s ≡ true
not_fixed t s e h = ap is_fixed_size (sym e) ∙ h

-- What is read of a field that has been written of a value that is not null.
module _ (t : TypeId) (c : Column) (d : Variant) (e : variant_type d ≡ type_id_to_value_type t)
    (s : IsStored d) (raw : List ℕ) (o : ℕ) (small : length raw < 2 ^ 16) where
  read_fixed :
      (field : List ℕ)
      → is_fixed_size t ≡ true
      → length field ≡ fixed_size_of t c.length
      → fixed_field (fixed_size_of t c.length) (of d) ≡ ok field
      → slice o (length field) raw ≡ field
      → read_value t (slice o (fixed_size_of t c.length) raw) ≡ of d
  unfolding fixed_field is_fixed_size
  read_fixed field f l h stands =
      let size = fixed_size_of t c.length in
      let (written, x, y) =
        bind-ok (serialize_to (of d))
          (λ written. ok (written ++ replicate (size - length written) 0)) field h in
      let z : written ++ replicate (size - length written) 0 ≡ field = cc y in
      ap (λ n. read_value t (slice o n raw)) (sym l)
      ∙ ap (read_value t) (stands ∙ sym z)
      ∙ read_value-serialize_to t d written (size - length written) e s
          (λ k. let q = not_fixed t TypeId.varchar k f in cc q)
          (λ k. let q = not_fixed t TypeId.varbinary k f in cc q) x

  read_variable :
      (field : List ℕ)
      → variable_field (of d) ≡ ok field
      → slice o (length field) raw ≡ field
      → read_value t (slice ((o + 2) % 2 ^ 16) (read_length raw o) raw) ≡ of d
  unfolding variable_field
  read_variable field h stands =
      let (size, x, y) = bind-ok (serialized_size (of d)) (after_size (of d)) field h in
      let (written, x', y') = bind-ok (serialize_to (of d)) (after_bytes size) field y in
      let z : to_bytes 2 (size % 2 ^ 16) ++ written ≡ field = cc y' in
      let l =
        same_size (of d) (length written) size (serialized_size-serialize_to (of d) written x') x in
      let n : length field ≡ 2 + size =
        sym (ap length z)
        ∙ length-append (to_bytes 2 (size % 2 ^ 16)) written
        ∙ omega (arith, l, length-to_bytes 2 (size % 2 ^ 16)) in
      ap (read_value t) (
        bytes_read raw written o size l (ap (λ k. slice o k raw) (sym n) ∙ stands ∙ sym z) small
        ∙ sym (append-nil written))
      ∙ read_value-serialize_to t d written 0 e s (λ k. refl) (λ k. refl) x'

  -- A value that is not null.
  pub read_of :
      (field : List ℕ) (index : ℕ)
      → type_of c ≡ some t
      → typed_field t c.length (of d) ≡ ok field
      → slice o (length field) raw ≡ field
      → is_null raw index ≡ false
      → deserialize_value raw o index c ≡ ok (of d)
  unfolding deserialize_value typed_field
  read_of field index q h stands n =
      let (b, x, y) =
        bind-ok (check_size t c.length (of d)) (after_check t c.length (of d)) field h in
      elim (Bool-cases (is_fixed_size t)) [
        | inl f ↦
            let z : fixed_field (fixed_size_of t c.length) (of d) ≡ ok field =
              sym (rw f refl) ∙ y in
            let l = fixed_length t c.length (of d) b field f e x z in
            rw (q, n, f) (ap ok (read_fixed field f l z stands))
        | inr f ↦
            let z : variable_field (of d) ≡ ok field = sym (rw f refl) ∙ y in
            rw (q, n, f) (ap ok (read_variable field z stands))
      ]

pub read_null :
    (t : TypeId) (c : Column) (raw : List ℕ) (o index : ℕ)
    → type_of c ≡ some t
    → is_null raw index ≡ true
    → deserialize_value raw o index c ≡ ok (null (type_id_to_value_type t))
unfolding deserialize_value
read_null t c raw o index q n = rw (q, n) refl
