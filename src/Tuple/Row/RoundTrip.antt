-- ===== src/Tuple/Row/RoundTrip.antt =====
-- A row that is written to bytes is read back whole: src/tuple/tuple.cpp, `serialize` and
-- `deserialize`.
use duck_duck_dbms.Common.{
  ℕ, suc, ◌+◌, ◌^◌, ◌<◌, ◌≡◌, refl, sym, ap, ◌∙◌, ◌⊎◌, inl, inr, List, [], ◌∷◌, ◌++◌, length,
  replicate, All, some, bind-ok, ok, ◌>>=◌,
}
use mathlib.Core.Path.{subst}
use duck_duck_dbms.Common.Slices.{slice}
use duck_duck_dbms.Tuple.Value.{TypeId, Value, of, null, type_id_to_value_type}
use duck_duck_dbms.Tuple.Schema.{Column}
use duck_duck_dbms.Tuple.Row.{
  type_of, with_type, bitmap_size, is_null, set_nulls, make_tuple, typed_field, serialize_fields,
  flatten, serialize, deserialize_value, deserialize_values, deserialize,
}
use duck_duck_dbms.Tuple.Row.Types.{IsRow, make_tuple_iff}
use duck_duck_dbms.Tuple.Row.Read.{IsStored}
use duck_duck_dbms.Tuple.Row.Offsets.{IsSound, StandAt, compute_offsets-serialize, with_type-eq}
use duck_duck_dbms.Tuple.Row.Nulls.{Marks, bitmap-Marks}
use duck_duck_dbms.Tuple.Row.Fieldwise.{read_of, read_null}

-- A value that a factory of `Value` builds: null, or of a payload that its bytes can hold.
abbrev pub IsValue : Value → Type 0
IsValue v = (v ≡ null v.type) ⊎ ((v ≡ of v.payload) × IsStored v.payload)

restored :
    (t : TypeId) (c : Column) (v : Value) (field raw : List ℕ) (o index : ℕ)
    → type_of c ≡ some t
    → v.type ≡ type_id_to_value_type t
    → IsValue v
    → typed_field t c.length v ≡ ok field
    → slice o (length field) raw ≡ field
    → length raw < 2 ^ 16
    → is_null raw index ≡ v.is_null
    → deserialize_value raw o index c ≡ ok v
restored t c v field raw o index q ty (inl z) h stands small n =
    read_null t c raw o index q (n ∙ ap (λ (x : Value). x.is_null) z)
    ∙ ap (λ k. ok (null k)) (sym ty)
    ∙ ap ok (sym z)
restored t c v field raw o index q ty (inr (z, s)) h stands small n =
    read_of t c v.payload (sym (ap (λ (x : Value). x.type) z) ∙ ty) s raw o small field index q
      (ap (typed_field t c.length) (sym z) ∙ h) stands (n ∙ ap (λ (x : Value). x.is_null) z)
    ∙ ap ok (sym z)

stand_cons :
    (raw field : List ℕ) (fs : List (List ℕ)) (offsets : List ℕ)
    → StandAt raw offsets (field ∷ fs)
    → (o : ℕ) × (os : List ℕ) × (offsets ≡ o ∷ os)
      × (slice o (length field) raw ≡ field)
      × StandAt raw os fs
stand_cons raw field fs [] h = absurd h
stand_cons raw field fs (o ∷ os) (e, h) = (o, os, refl, e, h)

length-IsRow : (cs : List Column) (vs : List Value) → IsRow cs vs → length vs ≡ length cs
length-IsRow [] [] r = refl
length-IsRow [] (v ∷ vs) r = absurd r
length-IsRow (c ∷ cs) [] r = absurd r
length-IsRow (c ∷ cs) (v ∷ vs) (t, r) = ap suc (length-IsRow cs vs r)

-- The values of the columns, from a column on, each at its offset.
all_restored :
    (cs : List Column) (vs : List Value) (fields : List (List ℕ)) (offsets raw : List ℕ) (k : ℕ)
    → IsRow cs vs
    → All IsValue vs
    → serialize_fields cs vs ≡ ok fields
    → StandAt raw offsets fields
    → length raw < 2 ^ 16
    → Marks raw k vs
    → deserialize_values raw k offsets cs ≡ ok vs
unfolding serialize_fields deserialize_values
all_restored [] [] fields [] raw k r v h st small m = refl
all_restored [] [] fields (o ∷ os) raw k r v h st small m = refl
all_restored [] (v ∷ vs) fields offsets raw k r w h st small m = absurd r
all_restored (c ∷ cs) [] fields offsets raw k r w h st small m = absurd r
all_restored (c ∷ cs) (v ∷ vs) fields offsets raw k ((t, e, ty), r) (w, ws) h st small (n, m) =
    let (field, x, y) =
      bind-ok (with_type c (λ t. typed_field t c.length v))
        (λ field. serialize_fields cs vs >>= λ fs. ok (field ∷ fs)) fields h in
    let (fs, x', y') = bind-ok (serialize_fields cs vs) (λ fs. ok (field ∷ fs)) fields y in
    let z : fields ≡ field ∷ fs = cc y' in
    let (o, os, q, stands, rest) =
      stand_cons raw field fs offsets (subst (StandAt raw offsets) z st) in
    let typed = sym (with_type-eq t c e (λ t. typed_field t c.length v)) ∙ x in
    let first = restored t c v field raw o k e ty w typed stands small n in
    let others = all_restored cs vs fs os raw (k + 1) r ws x' rest small m in
    ap (λ l. deserialize_values raw k l (c ∷ cs)) q ∙ rw (first, others) refl

-- A row of fewer than 2^16 bytes, with no column of type CHAR(0), of values that the constructor
-- takes, is read back as it was: nulls, integers of the range of their type, doubles and floats bit
-- by bit, strings that do not end with the character 0, and bytes.
pub deserialize-serialize :
    (columns : List Column) (values : List Value) (raw : List ℕ)
    → make_tuple columns values ≡ ok values
    → All IsSound columns
    → All IsValue values
    → serialize columns values ≡ ok raw
    → length raw < 2 ^ 16
    → deserialize raw columns ≡ ok values
unfolding serialize deserialize
deserialize-serialize columns values raw made sound stored h small =
    let (fields, offsets, f, o, st) =
      compute_offsets-serialize columns values raw made sound h small in
    let r = (make_tuple_iff columns values).0 made in
    let bitmap = set_nulls 0 values (replicate (bitmap_size (length columns)) 0) in
    let z : raw ≡ bitmap ++ flatten fields =
      let g : ok (bitmap ++ flatten fields) ≡ ok raw = sym (rw f refl) ∙ h in cc g in
    let m =
      subst (λ x. Marks x 0 values) (sym z)
        (bitmap-Marks (length columns) values (flatten fields) (length-IsRow columns values r)) in
    rw o (all_restored columns values fields offsets raw 0 r stored f st small m)
