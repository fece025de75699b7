-- ===== src/Ethereum/Mpt.antt =====
-- The nodes of a Merkle Patricia trie, parachain/primitives/ethereum/src/mpt.rs.
use snowbridge.Shared.{
  Option, none, some, Bool, false, ◌||◌, List, [], ◌∷◌, ◌==◌, if◌then◌else◌, length,
}
use snowbridge.Shared.Bytes.{Bytes, H256, from_be, h256_bytes}
use snowbridge.Shared.Outcome.{ok, err, ok_or, ◌>>=◌}
use snowbridge.Ethereum.Rlp.{
  RlpCrate, Decoded, custom, expected_hash_or_empty, expected_key, expected_value,
  invalid_item_count,
}
use snowbridge.Ethereum.Log.{list_eq, next_item}

pub record FullNode : Type 0 where
  pub children : List (Option H256)

pub record ShortNode : Type 0 where
  pub key : Bytes
  pub value : Bytes

-- `Box<dyn Node>`
pub data Node : Type 0 where
  full : FullNode → Node
  short : ShortNode → Node

-- `self.children.iter().find(|&h| Some(hash) == *h).is_some()`
any_child : H256 → List (Option H256) → Bool
any_child hash [] = false
any_child hash (none ∷ children) = any_child hash children
any_child hash (some h ∷ children) = h == hash || any_child hash children

unfoldable pub contains_hash : Node → H256 → Bool
unfolding any_child
contains_hash (full node) hash = any_child hash node.children
contains_hash (short node) hash = list_eq node.value (h256_bytes hash)

module _ (crate : RlpCrate) where
  open crate use {Rlp, new, items, item_count, as_bytes}

  unfoldable pub decode_short : Rlp → Decoded ShortNode
  decode_short rlp = do
    (first, iter) ← ok_or (next_item (items rlp)) (custom expected_key)
    key ← as_bytes first
    (second, rest) ← ok_or (next_item iter) (custom expected_value)
    value ← as_bytes second
    ok (record { key = key; value = value })

  -- A child is empty or a hash of 32 bytes.
  decode_child : Rlp → Decoded (Option H256)
  decode_child item = do
    v ← as_bytes item
    if length v == 0
        then ok none
        else if length v == 32
        then ok (some (from_be 0 v))
        else err (custom expected_hash_or_empty)

  decode_children : List Rlp → Decoded (List (Option H256))
  decode_children [] = ok []
  decode_children (item ∷ rest) = do
    child ← decode_child item
    children ← decode_children rest
    ok (child ∷ children)

  unfoldable pub decode_full : Rlp → Decoded FullNode
  unfolding decode_child decode_children
  decode_full rlp = do children ← decode_children (items rlp); ok (record { children = children })

  -- `Box<dyn Node>::try_from`
  unfoldable pub decode_node : Bytes → Decoded Node
  decode_node bytes = do
    count ← item_count (new bytes)
    if count == 2
        then (do node ← decode_short (new bytes); ok (short node))
        else if count == 17
        then (do node ← decode_full (new bytes); ok (full node))
        else err (custom invalid_item_count)
