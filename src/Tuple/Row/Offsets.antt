-- ===== src/Tuple/Row/Offsets.antt =====
-- Where the fields of a row stand in its bytes.
use duck_duck_dbms.Common.{
  bind-ok, ℕ, ◌+◌, ◌/◌, ◌%◌, ◌^◌, ◌<◌, ◌≡◌, refl, sym, ap, ◌∙◌, true, false, some, List, [], ◌∷◌,
  ◌++◌, ltb, if◌then◌else◌, Option-cases, Bool-cases, inl, inr, arith, length, get_elem?, replicate,
  All, length-append, length-replicate, length-set, Result, ok, ◌>>=◌,
}
use mathlib.Core.Path.{subst}
use mathlib.Core.List.{append_assoc}
use duck_duck_dbms.Common.Bytes.{to_bytes, from_bytes, from_to_bytes_two, length-to_bytes}
use duck_duck_dbms.Common.Slices.{slice, slice-append_right, slice-append_left}
use duck_duck_dbms.Tuple.Value.{TypeId, Value}
use duck_duck_dbms.Tuple.Schema.{Column}
use duck_duck_dbms.Tuple.Row.{
  type_of, with_type, is_fixed_size, fixed_size_of, bitmap_size, set_null, set_nulls, make_tuple,
  typed_field, serialize_fields, flatten, serialize, read_length, offsets_from, compute_offsets,
}
use duck_duck_dbms.Tuple.Row.Fields.{HasLength, typed_field-HasLength}
use duck_duck_dbms.Tuple.Row.Types.{IsRow, make_tuple_iff}

-- A column of type CHAR has room for a character.
abbrev pub IsSound : Column → Type 0
IsSound c = type_of c ≡ some TypeId.char → 0 < c.length

-- Each field stands at its offset.
abbrev pub StandAt : List ℕ → List ℕ → List (List ℕ) → Type 0
StandAt raw [] [] = Unit
StandAt raw [] (w ∷ ws) = ⊥
StandAt raw (o ∷ os) [] = ⊥
StandAt raw (o ∷ os) (w ∷ ws) = (slice o (length w) raw ≡ w) × StandAt raw os ws

pub length-set_null :
    (bitmap : List ℕ) (column : ℕ) → length (set_null bitmap column) ≡ length bitmap
unfolding set_null
length-set_null bitmap column = elim (Option-cases (get_elem? bitmap (column / 8))) [
  | inl e ↦ rw (set_null, e) refl
  | inr (byte, e) ↦ rw (set_null, e) (length-set bitmap (column / 8) _)
]

pub length-set_nulls :
    (column : ℕ) (vs : List Value) (bitmap : List ℕ)
    → length (set_nulls column vs bitmap) ≡ length bitmap
unfolding set_nulls
length-set_nulls column [] bitmap = refl
length-set_nulls column (v ∷ vs) bitmap =
    length-set_nulls (column + 1) vs (if v.is_null then set_null bitmap column else bitmap)
    ∙ (elim (Bool-cases v.is_null) [
      | inl e ↦ rw e (length-set_null bitmap column)
      | inr e ↦ rw e refl
    ])

fixed_positive :
    (t : TypeId) (n : ℕ)
    → is_fixed_size t ≡ true
    → (t ≡ TypeId.char → 0 < n)
    → 0 < fixed_size_of t n
unfolding is_fixed_size fixed_size_of
fixed_positive TypeId.int64 n f h = omega arith
fixed_positive TypeId.uint64 n f h = omega arith
fixed_positive TypeId.double n f h = omega arith
fixed_positive TypeId.int32 n f h = omega arith
fixed_positive TypeId.uint32 n f h = omega arith
fixed_positive TypeId.float n f h = omega arith
fixed_positive TypeId.bool n f h = omega arith
fixed_positive TypeId.char n f h = h refl
fixed_positive TypeId.varchar n f h = cc f
fixed_positive TypeId.varbinary n f h = cc f

variable_zero : (t : TypeId) (n : ℕ) → is_fixed_size t ≡ false → fixed_size_of t n ≡ 0
unfolding is_fixed_size fixed_size_of
variable_zero TypeId.varchar n f = refl
variable_zero TypeId.varbinary n f = refl
variable_zero _ n f = cc f

-- The step to the next offset.
abbrev advance : List ℕ → ℕ → ℕ → ℕ
advance raw offset fixed = offset + (if ltb 0 fixed then fixed else read_length raw offset + 2)

read_length-field :
    (before field after : List ℕ) (k : ℕ) (rest : List ℕ)
    → field ≡ to_bytes 2 (k % 2 ^ 16) ++ rest
    → length rest ≡ k
    → length before < 2 ^ 16
    → k < 2 ^ 16
    → read_length (before ++ (field ++ after)) (length before) ≡ k
read_length-field before field after k rest e l b h =
    let tb = to_bytes 2 (k % 2 ^ 16) in
    let back : k % 2 ^ 16 ≡ k = omega (arith, h) in
    ap from_bytes (
      slice-append_right (length before % 2 ^ 16) 0 2 before (field ++ after) (omega (arith, b))
      ∙ ap (slice 0 2) (ap (λ x. x ++ after) e ∙ append_assoc tb rest after)
      ∙ slice-append_left 2 tb (rest ++ after) (sym (length-to_bytes 2 (k % 2 ^ 16))))
    ∙ from_to_bytes_two (k % 2 ^ 16) (omega (arith, back, h))
    ∙ back

advance-field :
    (t : TypeId) (n : ℕ) (before field after : List ℕ)
    → HasLength t n field
    → (t ≡ TypeId.char → 0 < n)
    → length (before ++ (field ++ after)) < 2 ^ 16
    → advance (before ++ (field ++ after)) (length before) (fixed_size_of t n)
      ≡ length (before ++ field)
advance-field t n before field after (inl (f, l)) s b =
    let p = fixed_positive t n f s in
    let w : ltb 0 (fixed_size_of t n) ≡ true = ground (arith, p) in
    rw w (omega (arith, l, length-append before field))
advance-field t n before field after (inr (f, k, rest, e, l)) s b =
    let z = variable_zero t n f in
    let w : ltb 0 (fixed_size_of t n) ≡ false = ground (arith, z) in
    let tb = to_bytes 2 (k % 2 ^ 16) in
    let m : length field ≡ 2 + k =
      ap length e ∙ length-append tb rest ∙ omega (arith, length-to_bytes 2 (k % 2 ^ 16), l) in
    let total = length-append before (field ++ after) in
    let inner = length-append field after in
    let r =
      read_length-field before field after k rest e l (omega (arith, b, total))
        (omega (arith, b, total, inner, m)) in
    rw w (omega (arith, r, m, length-append before field))

module _ (t : TypeId) (c : Column) (e : type_of c ≡ some t) where
  pub with_type-eq : {A : Type 0} (next : TypeId → Result A) → with_type c next ≡ next t
  with_type-eq next = rw e refl

abbrev next_offsets : List ℕ → ℕ → List Column → ℕ → TypeId → Result (List ℕ)
next_offsets raw offset cs n t =
    offsets_from raw (advance raw offset (fixed_size_of t n)) cs >>= λ offsets.
    ok (offset % 2 ^ 16 ∷ offsets)

-- The offsets that are computed from the bytes are those at which the fields were written.
offsets_from-StandAt :
    (cs : List Column) (vs : List Value) (fields : List (List ℕ)) (before raw : List ℕ)
    → raw ≡ before ++ flatten fields
    → length raw < 2 ^ 16
    → IsRow cs vs
    → All IsSound cs
    → serialize_fields cs vs ≡ ok fields
    → (offsets : List ℕ) × (offsets_from raw (length before) cs ≡ ok offsets)
      × StandAt raw offsets fields
unfolding serialize_fields offsets_from
offsets_from-StandAt [] [] fields before raw q b r s h =
    let z : [] ≡ fields = cc h in ([], refl, subst (StandAt raw []) z tt)
offsets_from-StandAt [] (v ∷ vs) fields before raw q b r s h = absurd r
offsets_from-StandAt (c ∷ cs) [] fields before raw q b r s h = absurd r
offsets_from-StandAt (c ∷ cs) (v ∷ vs) fields before raw q b ((t, e, k), r) (s, ss) h =
    let (field, x, y) =
      bind-ok (with_type c (λ t. typed_field t c.length v))
        (λ field. serialize_fields cs vs >>= λ fs. ok (field ∷ fs)) fields h in
    let (fs, x', y') = bind-ok (serialize_fields cs vs) (λ fs. ok (field ∷ fs)) fields y in
    let z : field ∷ fs ≡ fields = cc y' in
    let hl =
      typed_field-HasLength t c.length v field k
        (sym (with_type-eq t c e (λ t. typed_field t c.length v)) ∙ x) in
    let after = flatten fs in
    let q1 : raw ≡ before ++ (field ++ after) = q ∙ ap (λ w. before ++ flatten w) (sym z) in
    let small = subst (λ w. length w < 2 ^ 16) q1 b in
    let lb = length-append before (field ++ after) in
    let o = length before % 2 ^ 16 in
    let stands : slice o (length field) raw ≡ field =
      ap (slice o (length field)) q1
      ∙ slice-append_right o 0 (length field) before (field ++ after) (omega (arith, lb, small))
      ∙ slice-append_left (length field) field after refl in
    let adv : advance raw (length before) (fixed_size_of t c.length) ≡ length (before ++ field) =
      subst (λ w. advance w (length before) (fixed_size_of t c.length) ≡ length (before ++ field))
        (sym q1) (advance-field t c.length before field after hl (λ k. s (e ∙ ap some k)) small) in
    let (os, p, st) =
      offsets_from-StandAt cs vs fs (before ++ field) raw
        (q1 ∙ sym (append_assoc before field after)) b r ss x' in
    (
      o ∷ os,
      with_type-eq t c e (next_offsets raw (length before) cs c.length)
          ∙ ap (λ n. offsets_from raw n cs >>= λ offsets. ok (o ∷ offsets)) adv
          ∙ ap (λ r. r >>= λ offsets. ok (o ∷ offsets)) p,
      subst (StandAt raw (o ∷ os)) z (stands, st),
    )

-- A row of fewer than 2^16 bytes, of values that the constructor takes, with no column of type
-- CHAR(0): the offsets that are computed from its bytes are those of its fields, each of which
-- stands there whole.
pub compute_offsets-serialize :
    (columns : List Column) (values : List Value) (raw : List ℕ)
    → make_tuple columns values ≡ ok values
    → All IsSound columns
    → serialize columns values ≡ ok raw
    → length raw < 2 ^ 16
    → (fields : List (List ℕ)) × (offsets : List ℕ) × (serialize_fields columns values ≡ ok fields)
      × (compute_offsets raw columns ≡ ok offsets)
      × StandAt raw offsets fields
unfolding serialize compute_offsets
compute_offsets-serialize columns values raw m s h b =
    let bitmap = set_nulls 0 values (replicate (bitmap_size (length columns)) 0) in
    let (fields, x, y) =
      bind-ok (serialize_fields columns values) (λ fields. ok (bitmap ++ flatten fields)) raw h in
    let z : bitmap ++ flatten fields ≡ raw = cc y in
    let l : length bitmap ≡ bitmap_size (length columns) =
      length-set_nulls 0 values (replicate (bitmap_size (length columns)) 0)
      ∙ length-replicate {A = ℕ} (bitmap_size (length columns)) 0 in
    let (offsets, p, st) =
      offsets_from-StandAt columns values fields bitmap raw (sym z) b
        ((make_tuple_iff columns values).0 m) s x in
    (fields, offsets, x, ap (λ n. offsets_from raw n columns) (sym l) ∙ p, st)
