-- ===== src/Ethereum/Log.antt =====
-- parachain/primitives/ethereum/src/log.rs
use snowbridge.Shared.{
  ℕ, Option, none, some, Bool, true, false, ◌&&◌, List, [], ◌∷◌, ◌≡◌, refl, ◌==◌, arith,
}
use snowbridge.Shared.Bytes.{Bytes, H160, H256}
use snowbridge.Shared.Outcome.{ok, ok_or, ◌>>=◌}
use snowbridge.Ethereum.Rlp.{
  RlpCrate, Decoded, custom, expected_log_address, expected_log_topics, expected_log_data,
}

pub record Log : Type 0 where
  pub address : H160
  pub topics : List H256
  pub payload : Bytes

-- `==` on sequences of numbers.
unfoldable pub list_eq : List ℕ → List ℕ → Bool
list_eq [] [] = true
list_eq [] (y ∷ ys) = false
list_eq (x ∷ xs) [] = false
list_eq (x ∷ xs) (y ∷ ys) = x == y && list_eq xs ys

-- The derived `PartialEq`.
unfoldable pub log_eq : Log → Log → Bool
log_eq a b = a.address == b.address && list_eq a.topics b.topics && list_eq a.payload b.payload

-- `iter.next()`, with what is left of the iterator.
abbrev pub next_item {ℓ} : {A : Type ℓ} → List A → Option (A × List A)
next_item [] = none
next_item (x ∷ xs) = some (x, xs)

module _ (crate : RlpCrate) where
  open crate use {Rlp, items, as_address, as_hashes}

  unfoldable pub decode_log : Rlp → Decoded Log
  decode_log rlp = do
    (first, iter) ← ok_or (next_item (items rlp)) (custom expected_log_address)
    address ← as_address first
    (second, iter') ← ok_or (next_item iter) (custom expected_log_topics)
    topics ← as_hashes second
    (third, rest) ← ok_or (next_item iter') (custom expected_log_data)
    payload ← crate.payload third
    ok (record { address = address; topics = topics; payload = payload })

pub list_eq→≡ : (xs ys : List ℕ) → list_eq xs ys ≡ true → xs ≡ ys
unfolding list_eq
list_eq→≡ [] [] h = refl
list_eq→≡ [] (y ∷ ys) h = cc
list_eq→≡ (x ∷ xs) [] h = cc
list_eq→≡ (x ∷ xs) (y ∷ ys) h = ground (arith, list_eq→≡ xs ys)

pub log_eq→≡ : (a b : Log) → log_eq a b ≡ true → a ≡ b
unfolding log_eq
log_eq→≡ a b h = ground (arith, list_eq→≡ a.topics b.topics, list_eq→≡ a.payload b.payload)
