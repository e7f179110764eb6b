-- ===== src/Tuple/Row/Read.antt =====
-- A value is read back from the bytes that were written of it.
use duck_duck_dbms.Common.{
  ℕ, zero, suc, ◌+◌, ◌-◌, ◌*◌, ◌/◌, ◌^◌, ◌<◌, ◌≡◌, refl, sym, ap, ◌∙◌, true, false, List, [], ◌∷◌,
  ◌++◌, ltb, arith, take, replicate, take_length-append, ok,
}
use mathlib.Core.List.{append-nil}
use duck_duck_dbms.Common.Int.{pos, negsuc}
use duck_duck_dbms.Common.Bytes.{to_bytes, from_bytes, length-to_bytes}
use duck_duck_dbms.Tuple.Value.{
  TypeId, Variant, of, variant_type, type_id_to_value_type, serialize_to, to_pattern,
}
use duck_duck_dbms.Tuple.Row.{from_pattern, strip, read_value}

abbrev power : ℕ → ℕ
power zero = 1
power (suc w) = 256 * power w

-- A number that fits its bytes is read back.
from_to_bytes : (w n : ℕ) → n < power w → from_bytes (to_bytes w n) ≡ n
unfolding from_bytes to_bytes
from_to_bytes zero n h = omega (arith, h)
from_to_bytes (suc w) n h =
    let e = from_to_bytes w (n / 256) (omega (arith, h)) in rw e (omega arith)

from_to_pattern_pos : (half n : ℕ) → n < half → from_pattern half n ≡ pos n
unfolding from_pattern
from_to_pattern_pos half n h =
    let e : ltb n half ≡ true = ground (arith, h) in rw (from_pattern, e) refl

from_to_pattern_neg : (half n : ℕ) → n < half → from_pattern half (half + half - 1 - n) ≡ negsuc n
unfolding from_pattern
from_to_pattern_neg half n h =
    let e : ltb (half + half - 1 - n) half ≡ false = ground (arith, h) in
    let k : half + half - 1 - (half + half - 1 - n) ≡ n = omega (arith, h) in
    rw (from_pattern, e) (ap negsuc k)

-- The integers of the range of their type, and the strings that do not end with the character 0.
abbrev pub IsStored : Variant → Type 0
IsStored (Variant.int64 (pos n)) = n < 2 ^ 63
IsStored (Variant.int64 (negsuc n)) = n < 2 ^ 63
IsStored (Variant.uint64 n) = n < 2 ^ 64
IsStored (Variant.double n) = n < 2 ^ 64
IsStored (Variant.int32 (pos n)) = n < 2 ^ 31
IsStored (Variant.int32 (negsuc n)) = n < 2 ^ 31
IsStored (Variant.uint32 n) = n < 2 ^ 32
IsStored (Variant.float n) = n < 2 ^ 32
IsStored (Variant.bool b) = Unit
IsStored (Variant.string s) = strip s ≡ s
IsStored (Variant.bytes s) = Unit

read_number : (w n m : ℕ) → n < power w → from_bytes (take w (to_bytes w n ++ replicate m 0)) ≡ n
read_number w n m h =
    ap (λ k. from_bytes (take k (to_bytes w n ++ replicate m 0))) (sym (length-to_bytes w n))
    ∙ ap from_bytes (take_length-append (to_bytes w n) (replicate m 0))
    ∙ from_to_bytes w n h

strip-replicate : (m : ℕ) → strip (replicate m 0) ≡ []
unfolding strip
strip-replicate zero = refl
strip-replicate (suc m) = rw (strip-replicate m) refl

strip-append : (s : List ℕ) (m : ℕ) → strip (s ++ replicate m 0) ≡ strip s
unfolding strip
strip-append [] m = strip-replicate m
strip-append (b ∷ bs) m = rw (strip-append bs m) refl

-- A value that is written to the bytes of its column, with zeros behind it when the type has a fixed
-- size, is read back: for integers of the range of their type, doubles and floats bit by bit, and
-- strings that do not end with the character 0.
pub read_value-serialize_to :
    (t : TypeId) (d : Variant) (bytes : List ℕ) (m : ℕ)
    → variant_type d ≡ type_id_to_value_type t
    → IsStored d
    → (t ≡ TypeId.varchar → m ≡ 0)
    → (t ≡ TypeId.varbinary → m ≡ 0)
    → serialize_to (of d) ≡ ok bytes
    → read_value t (bytes ++ replicate m 0) ≡ of d
unfolding read_value serialize_to to_pattern type_id_to_value_type
read_value-serialize_to TypeId.int64 (Variant.int64 (pos n)) bytes m e s x y h =
    let k : to_bytes 8 n ≡ bytes = cc h in
    rw (sym k, read_number 8 n m (omega (arith, s)))
      (ap (λ i. of (Variant.int64 i)) (from_to_pattern_pos (2 ^ 63) n s))
read_value-serialize_to TypeId.int64 (Variant.int64 (negsuc n)) bytes m e s x y h =
    let k : to_bytes 8 (2 ^ 64 - 1 - n) ≡ bytes = cc h in
    rw (sym k, read_number 8 (2 ^ 64 - 1 - n) m (omega (arith, s)))
      (ap (λ i. of (Variant.int64 i)) (from_to_pattern_neg (2 ^ 63) n s))
read_value-serialize_to TypeId.uint64 (Variant.uint64 n) bytes m e s x y h =
    let k : to_bytes 8 n ≡ bytes = cc h in rw (sym k, read_number 8 n m (omega (arith, s))) refl
read_value-serialize_to TypeId.double (Variant.double n) bytes m e s x y h =
    let k : to_bytes 8 n ≡ bytes = cc h in rw (sym k, read_number 8 n m (omega (arith, s))) refl
read_value-serialize_to TypeId.int32 (Variant.int32 (pos n)) bytes m e s x y h =
    let k : to_bytes 4 n ≡ bytes = cc h in
    rw (sym k, read_number 4 n m (omega (arith, s)))
      (ap (λ i. of (Variant.int32 i)) (from_to_pattern_pos (2 ^ 31) n s))
read_value-serialize_to TypeId.int32 (Variant.int32 (negsuc n)) bytes m e s x y h =
    let k : to_bytes 4 (2 ^ 32 - 1 - n) ≡ bytes = cc h in
    rw (sym k, read_number 4 (2 ^ 32 - 1 - n) m (omega (arith, s)))
      (ap (λ i. of (Variant.int32 i)) (from_to_pattern_neg (2 ^ 31) n s))
read_value-serialize_to TypeId.uint32 (Variant.uint32 n) bytes m e s x y h =
    let k : to_bytes 4 n ≡ bytes = cc h in rw (sym k, read_number 4 n m (omega (arith, s))) refl
read_value-serialize_to TypeId.float (Variant.float n) bytes m e s x y h =
    let k : to_bytes 4 n ≡ bytes = cc h in rw (sym k, read_number 4 n m (omega (arith, s))) refl
read_value-serialize_to TypeId.bool (Variant.bool true) bytes m e s x y h =
    let k : 1 ∷ [] ≡ bytes = cc h in rw (sym k) refl
read_value-serialize_to TypeId.bool (Variant.bool false) bytes m e s x y h =
    let k : 0 ∷ [] ≡ bytes = cc h in rw (sym k) refl
read_value-serialize_to TypeId.char (Variant.string z) bytes m e s x y h =
    let k : z ≡ bytes = cc h in
    ap (λ w. of (Variant.string (strip (w ++ replicate m 0)))) (sym k)
    ∙ ap (λ w. of (Variant.string w)) (strip-append z m ∙ s)
read_value-serialize_to TypeId.varchar (Variant.string z) bytes m e s x y h =
    let k : z ≡ bytes = cc h in
    ap (λ j. of (Variant.string (bytes ++ replicate j 0))) (x refl)
    ∙ ap (λ w. of (Variant.string w)) (append-nil bytes ∙ sym k)
read_value-serialize_to TypeId.varbinary (Variant.bytes z) bytes m e s x y h =
    let k : z ≡ bytes = cc h in
    ap (λ j. of (Variant.bytes (bytes ++ replicate j 0))) (y refl)
    ∙ ap (λ w. of (Variant.bytes w)) (append-nil bytes ∙ sym k)
read_value-serialize_to _ _ bytes m e s x y h = cc e
