-- ===== src/Shared/Bytes.antt =====
-- Byte strings, and the fixed-width hashes and addresses as the numbers that their big-endian
-- bytes spell, so that the byte-wise order of two hashes is the order of the numbers.
use Prim.Native.Nat.{ℕ, zero, suc, ◌+◌, ◌*◌, ◌/◌, ◌%◌, ◌^◌, ◌<◌}
use mathlib.Core.Path.{◌≡◌, refl, ap, sym, ◌∙◌}
use native.Mathlib.Nat.{pow-suc}
use mathlib.Core.List.{List, [], ◌∷◌, ◌++◌}
use native.Mathlib.Omega.{arith}
use snowbridge.Shared.Lists.{length, length-append}

abbrev pub Bytes : Type 0
Bytes = List ℕ

-- `[u8; 32]`, `[u8; 20]`.
abbrev pub H256 : Type 0
H256 = ℕ

abbrev pub H160 : Type 0
H160 = ℕ

-- The big-endian bytes of a number, at a width in bytes: `as_bytes()`.
unfoldable pub be_bytes : ℕ → ℕ → Bytes
be_bytes zero n = []
be_bytes (suc w) n = be_bytes w (n / 256) ++ (n % 256) ∷ []

abbrev pub h256_bytes : H256 → Bytes
h256_bytes = be_bytes 32

-- The number that big-endian bytes spell.
abbrev pub from_be : ℕ → Bytes → ℕ
from_be acc [] = acc
from_be acc (b ∷ bs) = from_be (acc * 256 + b) bs

pub from_be-append_one :
    (bs : Bytes) (acc b : ℕ) → from_be acc (bs ++ b ∷ []) ≡ from_be acc bs * 256 + b
from_be-append_one [] acc b = refl
from_be-append_one (x ∷ bs) acc b = from_be-append_one bs (acc * 256 + x) b

-- A number below `256 ^ w` is read back from its `w` bytes.
pub from_be-be_bytes : (w n : ℕ) → n < 256 ^ w → from_be 0 (be_bytes w n) ≡ n
unfolding be_bytes
from_be-be_bytes zero n h = omega arith
from_be-be_bytes (suc w) n h =
    let bound : n / 256 < 256 ^ w = (let e = pow-suc 256 w in omega arith) in
    rw (from_be-append_one (be_bytes w (n / 256)) 0 (n % 256))
      (rw (from_be-be_bytes w (n / 256) bound) (omega arith))

-- Two hashes with the same bytes are the same hash.
pub be_bytes-injective :
    (w m n : ℕ) → m < 256 ^ w → n < 256 ^ w → be_bytes w m ≡ be_bytes w n → m ≡ n
be_bytes-injective w m n hm hn e =
    sym (from_be-be_bytes w m hm) ∙ ap (from_be 0) e ∙ from_be-be_bytes w n hn

pub length-be_bytes : (w n : ℕ) → length (be_bytes w n) ≡ w
unfolding be_bytes
length-be_bytes zero n = refl
length-be_bytes (suc w) n =
    omega (arith, length-append (be_bytes w (n / 256)) (n % 256 ∷ []), length-be_bytes w (n / 256))
