-- ===== src/Tuple/Row/Room.antt =====
-- When `Tuple::serialize` throws: a CHAR or a VARCHAR has no room for its string.
use duck_duck_dbms.Common.{
  ℕ, ◌<◌, ◌≤◌, ◌≡◌, refl, sym, ap, ◌∙◌, ◌↔◌, inl, inr, ◌⊎◌, true, false, ◌&&◌, List, [], ◌∷◌, ◌++◌,
  length, replicate, All, ltb, Bool-cases, some, arith, bind-ok, Result, ok, err, ◌>>=◌,
  value_too_long,
}
use mathlib.Core.Path.{subst}
use duck_duck_dbms.Tuple.Value.{
  TypeId, Variant, Value, of, null, variant_type, type_id_to_value_type, serialize_to,
  serialized_size,
}
use duck_duck_dbms.Tuple.Schema.{Column}
use duck_duck_dbms.Tuple.Row.{
  type_of, with_type, is_fixed_size, check_size, fixed_field, variable_field, typed_field,
  serialize_fields, serialize, set_nulls, bitmap_size, flatten, make_tuple,
}
use duck_duck_dbms.Tuple.Row.Types.{IsRow, make_tuple_iff}
use duck_duck_dbms.Tuple.Row.Offsets.{with_type-eq}

-- A value that a factory of `Value` builds: null, or of a payload and its type.
abbrev pub IsBuilt : Value → Type 0
IsBuilt v = (v ≡ null v.type) ⊎ (v ≡ of v.payload)

-- The string is no longer than the column, and than 65535 bytes in a VARCHAR. The length of a
-- VARCHAR column is no bound when it is 0.
abbrev pub HasRoom : TypeId → ℕ → Variant → Type 0
HasRoom TypeId.char n (Variant.string s) = length s ≤ n
HasRoom TypeId.varchar n (Variant.string s) = (0 < n → length s ≤ n) × (length s ≤ 65535)
HasRoom _ n d = Unit

abbrev Written : Result (List ℕ) → Type 0
Written r = (field : List ℕ) × (r ≡ ok field)

not-Written : {r : Result (List ℕ)} → r ≡ err value_too_long → Written r → ⊥
not-Written e (field, h) = let k : err value_too_long ≡ ok field = sym e ∙ h in cc k

char_room :
    (n : ℕ) (s : List ℕ)
    → Written (typed_field TypeId.char n (of (Variant.string s))) ↔ (length s ≤ n)
unfolding typed_field check_size serialized_size serialize_to is_fixed_size fixed_field
char_room n s = elim (Bool-cases (ltb n (length s))) [
  | inl e ↦ (λ w. absurd (not-Written (rw e refl) w), λ h. absurd (ground (arith, e, h)))
  | inr e ↦ (λ w. ground (arith, e), λ h. rw e (_, refl))
]

varchar_room :
    (n : ℕ) (s : List ℕ)
    → Written (typed_field TypeId.varchar n (of (Variant.string s)))
      ↔ ((0 < n → length s ≤ n) × (length s ≤ 65535))
unfolding typed_field check_size serialized_size serialize_to is_fixed_size variable_field
varchar_room n s = elim (Bool-cases (ltb 0 n && ltb n (length s))) [
  | inl e ↦ (λ w. absurd (not-Written (rw e refl) w), λ h. absurd (ground (arith, e, h.0, h.1)))
  | inr e ↦ elim (Bool-cases (ltb 65535 (length s))) [
    | inl l ↦ (λ w. absurd (not-Written (rw (e, l) refl) w), λ h. absurd (ground (arith, l, h.1)))
    | inr l ↦ (λ w. (λ p. ground (arith, e, p), ground (arith, l)), λ h. rw (e, l) (_, refl))
  ]
]

always : {r : Result (List ℕ)} → Written r → Written r ↔ Unit {0}
always w = (λ h. tt, λ h. w)

field_room :
    (t : TypeId) (n : ℕ) (d : Variant)
    → variant_type d ≡ type_id_to_value_type t
    → Written (typed_field t n (of d)) ↔ HasRoom t n d
unfolding typed_field check_size serialized_size serialize_to is_fixed_size fixed_field
    variable_field type_id_to_value_type
field_room TypeId.int64 n (Variant.int64 x) e = always (_, refl)
field_room TypeId.uint64 n (Variant.uint64 x) e = always (_, refl)
field_room TypeId.double n (Variant.double x) e = always (_, refl)
field_room TypeId.int32 n (Variant.int32 x) e = always (_, refl)
field_room TypeId.uint32 n (Variant.uint32 x) e = always (_, refl)
field_room TypeId.float n (Variant.float x) e = always (_, refl)
field_room TypeId.bool n (Variant.bool x) e = always (_, refl)
field_room TypeId.char n (Variant.string s) e = char_room n s
field_room TypeId.varchar n (Variant.string s) e = varchar_room n s
field_room TypeId.varbinary n (Variant.bytes s) e = always (_, refl)
field_room _ n d e = cc e

null-Written : (t s : TypeId) (n : ℕ) → Written (typed_field t n (null (type_id_to_value_type s)))
unfolding typed_field fixed_field variable_field
null-Written t s n = elim (Bool-cases (is_fixed_size t)) [
  | inl e ↦ rw e (_, refl)
  | inr e ↦ rw e (_, refl)
]

-- A value that is null, or that has room in its column.
abbrev pub Fits : Column → Value → Type 0
Fits c v = (t : TypeId) × (type_of c ≡ some t) × (v.is_null ≡ false → HasRoom t c.length v.payload)

abbrev pub AllFit : List Column → List Value → Type 0
AllFit [] [] = Unit
AllFit [] (v ∷ vs) = ⊥
AllFit (c ∷ cs) [] = ⊥
AllFit (c ∷ cs) (v ∷ vs) = Fits c v × AllFit cs vs

value-Fits :
    (t : TypeId) (c : Column) (v : Value)
    → type_of c ≡ some t
    → v.type ≡ type_id_to_value_type t
    → IsBuilt v
    → Written (typed_field t c.length v) ↔ Fits c v
value-Fits t c v e ty (inl z) =
    let q : null (type_id_to_value_type t) ≡ v = ap null (sym ty) ∙ sym z in
    let n : v.is_null ≡ true = ap (λ (x : Value). x.is_null) z in
    (
      λ w. (t, e, λ k. cc (n, k)),
      λ h. subst (λ (x : Value). Written (typed_field t c.length x)) q (null-Written t t c.length),
    )
value-Fits t c v e ty (inr z) =
    let d : variant_type v.payload ≡ type_id_to_value_type t =
      sym (ap (λ (x : Value). x.type) z) ∙ ty in
    let n : v.is_null ≡ false = ap (λ (x : Value). x.is_null) z in
    let room = field_room t c.length v.payload d in
    (
      λ w. (t, e, λ k. room.0 (subst (λ (x : Value). Written (typed_field t c.length x)) z w)),
      λ (t', e', h).
          let k : t' ≡ t = let m : some t' ≡ some t = sym e' ∙ e in cc m in
          subst (λ (x : Value). Written (typed_field t c.length x)) (sym z)
            (room.1 (subst (λ x. HasRoom x c.length v.payload) k (h n))),
    )

AllWritten : List Column → List Value → Type 0
AllWritten cs vs = (fields : List (List ℕ)) × (serialize_fields cs vs ≡ ok fields)

fields_fit :
    (cs : List Column) (vs : List Value)
    → IsRow cs vs
    → All IsBuilt vs
    → AllWritten cs vs ↔ AllFit cs vs
unfolding AllWritten serialize_fields
fields_fit [] [] r s = (λ h. tt, λ h. ([], refl))
fields_fit [] (v ∷ vs) r s = absurd r
fields_fit (c ∷ cs) [] r s = absurd r
fields_fit (c ∷ cs) (v ∷ vs) ((t, e, ty), r) (s, ss) =
    let here = value-Fits t c v e ty s in
    let there = fields_fit cs vs r ss in
    let q = with_type-eq t c e (λ t. typed_field t c.length v) in
    (
      λ (fields, h).
          let (field, x, y) =
            bind-ok (with_type c (λ t. typed_field t c.length v))
              (λ field. serialize_fields cs vs >>= λ fs. ok (field ∷ fs)) fields h in
          let (fs, x', y') = bind-ok (serialize_fields cs vs) (λ fs. ok (field ∷ fs)) fields y in
          (here.0 (field, sym q ∙ x), there.0 (fs, x')),
      λ (f, fs).
          let (field, x) = here.1 f in
          let (rest, x') = there.1 fs in
          let first : with_type c (λ t. typed_field t c.length v) ≡ ok field = q ∙ x in
          (field ∷ rest, rw (first, x') refl),
    )

-- A row that the constructor takes, of values that factories build, each null or of a payload and its
-- type, is written to bytes exactly when each string that is not null has room in its column: no longer
-- than the column, which for a VARCHAR of length 0 is no bound, and in a VARCHAR than 65535 bytes.
pub serialize_iff :
    (columns : List Column) (values : List Value)
    → make_tuple columns values ≡ ok values
    → All IsBuilt values
    → ((raw : List ℕ) × (serialize columns values ≡ ok raw)) ↔ AllFit columns values
unfolding serialize AllWritten
serialize_iff columns values made s =
    let fit = fields_fit columns values ((make_tuple_iff columns values).0 made) s in
    let bitmap = set_nulls 0 values (replicate (bitmap_size (length columns)) 0) in
    (
      λ (raw, h).
          let (fields, x, y) =
            bind-ok (serialize_fields columns values) (λ fields. ok (bitmap ++ flatten fields)) raw
              h in
          fit.0 (fields, x),
      λ f. let (fields, x) = fit.1 f in (bitmap ++ flatten fields, rw x refl),
    )
