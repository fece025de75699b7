-- ===== src/Examples/Toy.antt =====
-- Toy versions of the functions that are parameters of the model.
use snowbridge.Shared.{
  ℕ, zero, suc, ◌+◌, ◌*◌, ◌%◌, ◌^◌, ◌<◌, Option, none, some, List, [], ◌∷◌, ◌++◌, length, ◌≡◌, refl,
  arith,
}
use snowbridge.Shared.Bytes.{Bytes, H256, from_be}
use snowbridge.Ethabi.{Token, Tokens}
use snowbridge.Outbound.{Weight}

-- A hash that mixes the bytes as digits, below a prime.
abbrev pub toy_hash : Bytes → H256
toy_hash bytes = (from_be 7 bytes * 31 + length bytes) % 1_000_003

pub toy_hash_lt : (bytes : Bytes) → toy_hash bytes < 2 ^ 256
toy_hash_lt bytes = omega arith

-- A list of byte strings as bytes: 1 before each byte, and 0 after each string.
abbrev pub encode_string : Bytes → Bytes → Bytes
encode_string [] rest = 0 ∷ rest
encode_string (b ∷ bs) rest = 1 ∷ b ∷ encode_string bs rest

abbrev pub encode_list : List Bytes → Bytes
encode_list [] = []
encode_list (x ∷ xs) = encode_string x (encode_list xs)

abbrev pub add_string : Option (List Bytes) → Option (List Bytes)
add_string none = none
add_string (some xs) = some ([] ∷ xs)

abbrev pub add_byte : ℕ → Option (List Bytes) → Option (List Bytes)
add_byte b none = none
add_byte b (some []) = none
add_byte b (some (x ∷ xs)) = some ((b ∷ x) ∷ xs)

abbrev pub decode_list : Bytes → Option (List Bytes)
decode_list [] = some []
decode_list (zero ∷ rest) = add_string (decode_list rest)
decode_list (suc n ∷ []) = none
decode_list (suc n ∷ b ∷ rest) = add_byte b (decode_list rest)

decode_list-encode_string :
    (x : Bytes) (rest : Bytes) (xs : List Bytes)
    → decode_list rest ≡ some xs
    → decode_list (encode_string x rest) ≡ some (x ∷ xs)
decode_list-encode_string [] rest xs h = rw h refl
decode_list-encode_string (b ∷ bs) rest xs h = rw (decode_list-encode_string bs rest xs h) refl

pub decode_list-encode_list : (xs : List Bytes) → decode_list (encode_list xs) ≡ some xs
decode_list-encode_list [] = refl
decode_list-encode_list (x ∷ xs) =
    decode_list-encode_string x (encode_list xs) xs (decode_list-encode_list xs)

abbrev mutual
  pub encode_token : Token → Bytes
  encode_token (Token.address a) = a ∷ []
  encode_token (Token.uint n) = n ∷ []
  encode_token (Token.bytes b) = length b ∷ b
  encode_token (Token.tuple ts) = encode_tokens ts
  encode_token (Token.other k) = []

  pub encode_tokens : Tokens → Bytes
  encode_tokens Tokens.end = []
  encode_tokens (Tokens.token t ts) = encode_token t ++ encode_tokens ts

abbrev pub three_leaves : List Bytes
three_leaves = (1 ∷ 2 ∷ []) ∷ (3 ∷ []) ∷ (4 ∷ 5 ∷ 6 ∷ []) ∷ []

abbrev pub small_weight : Weight
small_weight = record { ref_time = 10; proof_size = 1 }

abbrev pub large_weight : Weight
large_weight = record { ref_time = 20_000_000_000; proof_size = 0 }
