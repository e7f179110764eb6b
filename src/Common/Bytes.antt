-- ===== src/Common/Bytes.antt =====
-- Unsigned integers as little-endian bytes, which is what `std::bit_cast` of an array of bytes
-- gives on the targets of the program.
use Prim.Native.Nat.{ℕ, zero, suc, ◌+◌, ◌*◌, ◌/◌, ◌%◌, ◌<◌}
use native.Mathlib.Omega.{arith}
use mathlib.Core.Path.{◌≡◌, refl, ap}
use mathlib.Core.List.{List, [], ◌∷◌}
use duck_duck_dbms.Common.Lists.{length}

unfoldable pub to_bytes : ℕ → ℕ → List ℕ
to_bytes zero n = []
to_bytes (suc w) n = (n % 256) ∷ to_bytes w (n / 256)

pub length-to_bytes : (w n : ℕ) → length (to_bytes w n) ≡ w
unfolding to_bytes
length-to_bytes zero n = refl
length-to_bytes (suc w) n = ap suc (length-to_bytes w (n / 256))

unfoldable pub from_bytes : List ℕ → ℕ
from_bytes [] = 0
from_bytes (b ∷ bs) = b + 256 * from_bytes bs

-- A number that fits two bytes is read back as it was written.
pub from_to_bytes_two : (n : ℕ) → n < 65536 → from_bytes (to_bytes 2 n) ≡ n
unfolding to_bytes from_bytes
from_to_bytes_two n h = omega arith
