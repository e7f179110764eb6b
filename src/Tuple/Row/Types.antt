-- ===== src/Tuple/Row/Types.antt =====
-- The constructor of a row checks the number and the types of its values.
use duck_duck_dbms.Common.{
  bind-ok, suc, ◌≡◌, refl, sym, ap, ◌∙◌, Bool, true, some, List, [], ◌∷◌, ◌==◌, Option-cases,
  Bool-cases, inl, inr, ◌↔◌, length, get_elem?, ==_iff, ok, err, ◌>>=◌, wrong_value_count,
  wrong_value_type, unknown_type, arith,
}
use duck_duck_dbms.Tuple.Value.{TypeId, ValueType, Value, type_id_to_value_type}
use duck_duck_dbms.Tuple.Schema.{Column}
use duck_duck_dbms.Tuple.Row.{type_of, number_of, check_types, make_tuple}

-- A value for each column, of the type of the column.
abbrev pub IsRow : List Column → List Value → Type 0
IsRow [] [] = Unit
IsRow [] (v ∷ vs) = ⊥
IsRow (c ∷ cs) [] = ⊥
IsRow (c ∷ cs) (v ∷ vs) =
    ((t : TypeId) × (type_of c ≡ some t) × (v.type ≡ type_id_to_value_type t)) × IsRow cs vs

abbrev types : List ValueType
types =
    ValueType.int64 ∷ ValueType.uint64 ∷ ValueType.int32 ∷ ValueType.uint32 ∷ ValueType.double
    ∷ ValueType.float ∷ ValueType.bool ∷ ValueType.string ∷ ValueType.bytes ∷ []

get_elem?-number_of : (t : ValueType) → get_elem? types (number_of t) ≡ some t
get_elem?-number_of ValueType.int64 = refl
get_elem?-number_of ValueType.uint64 = refl
get_elem?-number_of ValueType.int32 = refl
get_elem?-number_of ValueType.uint32 = refl
get_elem?-number_of ValueType.double = refl
get_elem?-number_of ValueType.float = refl
get_elem?-number_of ValueType.bool = refl
get_elem?-number_of ValueType.string = refl
get_elem?-number_of ValueType.bytes = refl

same_type : (s t : ValueType) → (number_of s == number_of t) ≡ true → s ≡ t
same_type s t h =
    let e : some s ≡ some t =
      sym (get_elem?-number_of s)
      ∙ ap (get_elem? types) ((==_iff (number_of s) (number_of t)).0 h)
      ∙ get_elem?-number_of t in
    cc e

check_types-IsRow :
    (cs : List Column) (vs : List Value) (b : Bool)
    → length vs ≡ length cs
    → check_types cs vs ≡ ok b
    → IsRow cs vs
unfolding check_types
check_types-IsRow [] [] b l h = tt
check_types-IsRow [] (v ∷ vs) b l h = absurd (omega (arith, l))
check_types-IsRow (c ∷ cs) [] b l h = absurd (omega (arith, l))
check_types-IsRow (c ∷ cs) (v ∷ vs) b l h = elim (Option-cases (type_of c)) [
  | inl e ↦ let z : err unknown_type ≡ ok b = sym (rw (check_types, e) refl) ∙ h in cc z
  | inr (t, e) ↦ elim (Bool-cases (number_of v.type == number_of (type_id_to_value_type t))) [
    | inr n ↦ let z : err wrong_value_type ≡ ok b = sym (rw (check_types, e, n) refl) ∙ h in cc z
    | inl n ↦
        let z : check_types cs vs ≡ ok b = sym (rw (check_types, e, n) refl) ∙ h in
        (
          (t, e, same_type v.type (type_id_to_value_type t) n),
          check_types-IsRow cs vs b (omega (arith, l)) z,
        )
  ]
]

IsRow-check_types :
    (cs : List Column) (vs : List Value)
    → IsRow cs vs
    → (length vs ≡ length cs) × (check_types cs vs ≡ ok true)
unfolding check_types
IsRow-check_types [] [] r = (refl, refl)
IsRow-check_types [] (v ∷ vs) r = absurd r
IsRow-check_types (c ∷ cs) [] r = absurd r
IsRow-check_types (c ∷ cs) (v ∷ vs) ((t, e, k), r) =
    let (l, h) = IsRow-check_types cs vs r in
    let n : (number_of v.type == number_of (type_id_to_value_type t)) ≡ true =
      (==_iff (number_of v.type) (number_of (type_id_to_value_type t))).1 (ap number_of k) in
    (ap suc l, rw (check_types, e, n) h)

-- The constructor takes the values exactly when there is one for each column, each of the type of
-- its column; otherwise it throws.
pub make_tuple_iff :
    (columns : List Column) (values : List Value)
    → (make_tuple columns values ≡ ok values) ↔ IsRow columns values
unfolding make_tuple
make_tuple_iff columns values = (
  (λ h. elim (Bool-cases (length values == length columns)) [
    | inr n ↦ let z : err wrong_value_count ≡ ok values = sym (rw (make_tuple, n) refl) ∙ h in cc z
    | inl n ↦
        let z : (check_types columns values >>= λ _. ok values) ≡ ok values =
          sym (rw (make_tuple, n) refl) ∙ h in
        let (b, x, _) = bind-ok (check_types columns values) (λ _. ok values) values z in
        check_types-IsRow columns values b ((==_iff _ _).0 n) x
  ]),
  λ r.
      let (l, h) = IsRow-check_types columns values r in
      let n = (==_iff (length values) (length columns)).1 l in rw (make_tuple, n, h) refl,
)
