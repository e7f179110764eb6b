-- ===== src/Tuple/Row/Fields.antt =====
-- The length of a field: that of its type, or the one that stands in front of it.
use duck_duck_dbms.Common.{
  ℕ, ◌-◌, ◌%◌, ◌^◌, ◌≤◌, ◌≡◌, refl, sym, ap, ◌∙◌, Bool, true, false, List, [], ◌++◌, ltb,
  if◌then◌else◌, Bool-cases, inl, inr, ◌⊎◌, arith, length, replicate, length-append,
  length-replicate, Result, ok, err, bind-ok, ◌>>=◌, value_too_long,
}
use mathlib.Core.List.{append-nil}
use duck_duck_dbms.Common.Bytes.{to_bytes}
use duck_duck_dbms.Tuple.Value.{TypeId, Value, type_id_to_value_type, serialized_size, serialize_to}
use duck_duck_dbms.Tuple.Size.{serialized_size-serialize_to}
use duck_duck_dbms.Tuple.Row.{
  is_fixed_size, fixed_size_of, check_size, fixed_field, variable_field, variable_of, after_size,
  after_bytes, typed_field,
}

pub same_size : (v : Value) (m k : ℕ) → serialized_size v ≡ ok m → serialized_size v ≡ ok k → m ≡ k
same_size v m k h s = let z : ok m ≡ ok k = sym h ∙ s in cc z

char_bound :
    (n : ℕ) (v : Value) (b : Bool) (k : ℕ)
    → check_size TypeId.char n v ≡ ok b
    → serialized_size v ≡ ok k
    → k ≤ n
unfolding check_size
char_bound n v b k c s =
    let (size, x, y) =
      bind-ok (serialized_size v) (λ size. if ltb n size then err value_too_long else ok true) b
        c in
    let e = same_size v size k x s in
    elim (Bool-cases (ltb n size)) [
      | inl l ↦ let z : err value_too_long ≡ ok b = sym (rw l refl) ∙ y in cc z
      | inr l ↦ ground (arith, l, e)
    ]

-- A value that passes the checks fits the size of its type.
fixed_bound :
    (t : TypeId) (n : ℕ) (v : Value) (b : Bool) (k : ℕ)
    → is_fixed_size t ≡ true
    → v.type ≡ type_id_to_value_type t
    → check_size t n v ≡ ok b
    → serialized_size v ≡ ok k
    → k ≤ fixed_size_of t n
unfolding is_fixed_size type_id_to_value_type check_size fixed_size_of serialized_size
fixed_bound TypeId.int64 n v b k f e c s =
    let y = same_size v 8 k (rw (serialized_size, e) refl) s in omega (arith, y)
fixed_bound TypeId.uint64 n v b k f e c s =
    let y = same_size v 8 k (rw (serialized_size, e) refl) s in omega (arith, y)
fixed_bound TypeId.double n v b k f e c s =
    let y = same_size v 8 k (rw (serialized_size, e) refl) s in omega (arith, y)
fixed_bound TypeId.int32 n v b k f e c s =
    let y = same_size v 4 k (rw (serialized_size, e) refl) s in omega (arith, y)
fixed_bound TypeId.uint32 n v b k f e c s =
    let y = same_size v 4 k (rw (serialized_size, e) refl) s in omega (arith, y)
fixed_bound TypeId.float n v b k f e c s =
    let y = same_size v 4 k (rw (serialized_size, e) refl) s in omega (arith, y)
fixed_bound TypeId.bool n v b k f e c s =
    let y = same_size v 1 k (rw (serialized_size, e) refl) s in omega (arith, y)
fixed_bound TypeId.char n v b k f e c s = char_bound n v b k c s
fixed_bound TypeId.varchar n v b k f e c s = cc f
fixed_bound TypeId.varbinary n v b k f e c s = cc f

-- A field of a fixed size has that size; another has its length in front.
abbrev pub HasLength : TypeId → ℕ → List ℕ → Type 0
HasLength t n field =
    ((is_fixed_size t ≡ true) × (length field ≡ fixed_size_of t n))
    ⊎ ((is_fixed_size t ≡ false)
        × (k : ℕ) × (rest : List ℕ) × (field ≡ to_bytes 2 (k % 2 ^ 16) ++ rest)
        × (length rest ≡ k))

padded :
    (size : ℕ) (written : List ℕ)
    → length written ≤ size
    → length (written ++ replicate (size - length written) 0) ≡ size
padded size written h =
    rw
      (
        length-append written (replicate (size - length written) 0),
        length-replicate {A = ℕ} (size - length written) 0,
      )
      (omega (arith, h))

fixed_null :
    (size : ℕ) (v : Value) (field : List ℕ)
    → v.is_null ≡ true
    → fixed_field size v ≡ ok field
    → length field ≡ size
unfolding fixed_field
fixed_null size v field e h =
    let z : ok ([] ++ replicate (size - 0) 0) ≡ ok field = sym (rw (fixed_field, e) refl) ∙ h in
    let y : replicate (size - 0) 0 ≡ field = cc z in
    sym (ap length y) ∙ length-replicate {A = ℕ} (size - 0) 0 ∙ omega arith

fixed_value :
    (size : ℕ) (v : Value) (field : List ℕ)
    → v.is_null ≡ false
    → ((k : ℕ) → serialized_size v ≡ ok k → k ≤ size)
    → fixed_field size v ≡ ok field
    → length field ≡ size
unfolding fixed_field
fixed_value size v field e bound h =
    let g : (serialize_to v >>= λ written. ok (written ++ replicate (size - length written) 0))
        ≡ ok field =
      sym (rw (fixed_field, e) refl) ∙ h in
    let (written, x, y) =
      bind-ok (serialize_to v) (λ written. ok (written ++ replicate (size - length written) 0))
        field g in
    let z : written ++ replicate (size - length written) 0 ≡ field = cc y in
    sym (ap length z)
    ∙ padded size written (bound (length written) (serialized_size-serialize_to v written x))

variable_length :
    (v : Value) (field : List ℕ)
    → variable_field v ≡ ok field
    → (k : ℕ) × (rest : List ℕ) × (field ≡ to_bytes 2 (k % 2 ^ 16) ++ rest) × (length rest ≡ k)
unfolding variable_field
variable_length v field h = elim (Bool-cases v.is_null) [
  | inl e ↦
      let z : ok (to_bytes 2 0) ≡ ok field = sym (ap (λ x. variable_of x v) e) ∙ h in
      let y : to_bytes 2 0 ≡ field = cc z in (0, [], sym y ∙ sym (append-nil (to_bytes 2 0)), refl)
  | inr e ↦
      let g : (serialized_size v >>= after_size v) ≡ ok field =
        sym (ap (λ x. variable_of x v) e) ∙ h in
      let (size, x, y) = bind-ok (serialized_size v) (after_size v) field g in
      let (written, x', y') = bind-ok (serialize_to v) (after_bytes size) field y in
      let z : to_bytes 2 (size % 2 ^ 16) ++ written ≡ field = cc y' in
      (
        size,
        written,
        sym z,
        same_size v (length written) size (serialized_size-serialize_to v written x') x,
      )
]

abbrev pub after_check : TypeId → ℕ → Value → Bool → Result (List ℕ)
after_check t n v b =
    if is_fixed_size t then fixed_field (fixed_size_of t n) v else variable_field v

pub fixed_length :
    (t : TypeId) (n : ℕ) (v : Value) (b : Bool) (field : List ℕ)
    → is_fixed_size t ≡ true
    → v.type ≡ type_id_to_value_type t
    → (if v.is_null then ok true else check_size t n v) ≡ ok b
    → fixed_field (fixed_size_of t n) v ≡ ok field
    → length field ≡ fixed_size_of t n
fixed_length t n v b field f e c h = elim (Bool-cases v.is_null) [
  | inl i ↦ fixed_null (fixed_size_of t n) v field i h
  | inr i ↦
      let d : check_size t n v ≡ ok b = sym (rw i refl) ∙ c in
      fixed_value (fixed_size_of t n) v field i (λ k s. fixed_bound t n v b k f e d s) h
]

pub typed_field-HasLength :
    (t : TypeId) (n : ℕ) (v : Value) (field : List ℕ)
    → v.type ≡ type_id_to_value_type t
    → typed_field t n v ≡ ok field
    → HasLength t n field
unfolding typed_field
typed_field-HasLength t n v field e h =
    let (b, c, y) =
      bind-ok (if v.is_null then ok true else check_size t n v) (after_check t n v) field h in
    elim (Bool-cases (is_fixed_size t)) [
      | inl f ↦
          let z : fixed_field (fixed_size_of t n) v ≡ ok field = sym (rw f refl) ∙ y in
          inl (f, fixed_length t n v b field f e c z)
      | inr f ↦
          let z : variable_field v ≡ ok field = sym (rw f refl) ∙ y in
          let (k, rest, a, l) = variable_length v field z in inr (f, k, rest, a, l)
    ]
