-- ===== src/Examples/Imports.antt =====
-- Examples for the light client, its difficulty and its headers.
use mathlib.Core.Path.{subst}
use mathlib.Core.Option
use snowbridge.Shared.{
  ℕ, ◌+◌, ◌*◌, ◌/◌, ◌%◌, ◌^◌, ◌≤◌, ◌<◌, max, Bool, true, Option, none, some, List, [], ◌∷◌, map,
  length, is_some, ◌≡◌, ◌≢◌, refl, sym, ap, ◌⊎◌, All, arith,
}
use snowbridge.Shared.Bytes.{H256, from_be}
use snowbridge.Shared.Outcome.{ok, err}
use snowbridge.Shared.Storage.{insert, remove}
use snowbridge.Core.{root, signed}
use snowbridge.Ethereum.Header.{
  Header, RlpItem, rlp_items, rlp_length, fee_items, seal_items, without_seal, rlp, compute_hash,
  compute_partial_hash, align_right, aligned, mix_hash, nonce, decoded_seal_field, seal_field,
  within,
}
use snowbridge.Ethereum.Header.Seal.{mix_hash-from_be}
use snowbridge.Ethereum.Difficulty.{
  DifficultyConfig, BombDelay, mainnet, bomb_delay, block_time_div_9, sigma2, adjusted,
  period_count, add_exp, with_exp, calc_difficulty,
}
use snowbridge.Ethereum.Difficulty.Bounds.{bomb, calc_difficulty_range, calc_difficulty_total}
use snowbridge.Light.{
  Setup, StoredHeader, LightClient, PruningRange, out_of_fuel, empty_client, hash_of,
  find_at_number, find_finalized_ancestor, try_append,
}
use snowbridge.Light.Validate.{
  check_ancestor, gas_bound, is_next, check_lower_bound, check_upper_bound, check_basic,
  difficulty_or, proved_or, check_work, validate_header_to_import,
}
use snowbridge.Light.Prune.{
  Pruning, remove_hashes, put_back, prune_number, prune_numbers, prune_header_range,
}
use snowbridge.Light.Import.{
  checked_add, best_finalized, mark_finalized, get_best_finalized_header, finalize_blocks, clean_up,
  adopt, store_header, is_best, import_validated_header,
}
use snowbridge.Light.Import.Sound.{IsConsistent}
use snowbridge.Light.Initialize.{
  finalize_ancestors, insert_header, insert_headers, finalize_ancestor, initialize_storage,
  genesis_build,
}
use snowbridge.Light.Calls.{
  import_header, reset_to_fork, force_reset_to_fork, Submission, import_all,
}
use snowbridge.Light.Calls.Finalized.{import_header_stored, import_all-HasAdvanced}
use snowbridge.Light.Calls.Effect.{HasStored, HasAdvanced}
use snowbridge.Light.Calls.Endings.{validate_header_ends, force_reset_to_fork_outcome}
use snowbridge.Light.Validate.Accepted.{IsNext, IsWorked}
use snowbridge.Light.Prune.Bounds.{prune_header_range_pruned}
use snowbridge.Light.Prune.Step.{IsListed}
use snowbridge.Light.Prune.Removed.{remove_all}
use snowbridge.Light.Chain.{HasParent, Clash}
use snowbridge.Light.Initialize.Genesis.{genesis_build-IsConsistent}
use snowbridge.Examples.Toy.{toy_hash}
use snowbridge.Examples.Receipts.{toy_crate}

-- The number that an item stands for, as a toy encoding.
abbrev item_number : RlpItem → ℕ
item_number (RlpItem.hash h) = h
item_number (RlpItem.address a) = a
item_number (RlpItem.bloom b) = length b
item_number (RlpItem.uint n) = n
item_number (RlpItem.text b) = length b
item_number (RlpItem.raw b) = length b

abbrev old_forks : DifficultyConfig
old_forks = record {
  byzantium_fork_block = 0;
  constantinople_fork_block = 1;
  muir_glacier_fork_block = 2;
  london_fork_block = 3;
}

abbrev pub toy_setup : Setup
toy_setup = record {
  descendants_until_finalized = 1;
  difficulty_config = old_forks;
  verify_pow = true;
  max_headers_for_number = 4;
  crate = toy_crate;
  keccak = toy_hash;
  stream_out = λ n items. n ∷ map item_number items;
  hashimoto_merkle = λ hash work number nodes. ok (5, 3);
  cross_boundary = λ difficulty. 10;
}

abbrev pub header_after : H256 → ℕ → ℕ → Header
header_after parent number timestamp = record {
  parent_hash = parent;
  timestamp = timestamp;
  number = number;
  author = 1;
  transactions_root = 2;
  ommers_hash = 0x1dcc4de8dec75d7aab85b567b6ccd41ad312451b948a7413f0a142fd40d49347;
  extra_data = [];
  state_root = 3;
  receipts_root = 4;
  logs_bloom = [];
  gas_used = 0;
  gas_limit = 8000;
  difficulty = 131072;
  seal = (5 ∷ []) ∷ (6 ∷ []) ∷ [];
  base_fee = none;
}

-- Four headers in a row, of which the second is the initial one.
abbrev earlier : Header
earlier = header_after 0 9 91

abbrev first : Header
first = header_after 989486 10 100

abbrev second : Header
second = header_after 667451 11 109

abbrev third : Header
third = header_after 222946 12 118

first-HasParent : HasParent toy_setup first
unfolding HasParent compute_hash rlp rlp_items rlp_length fee_items seal_items without_seal
first-HasParent = (earlier, refl, refl)

first_hash : hash_of toy_setup first ≡ 667451
unfolding compute_hash rlp rlp_items rlp_length fee_items seal_items without_seal
first_hash = refl

first-other : first.parent_hash ≢ hash_of toy_setup first
first-other e = ground (arith, first_hash)

-- The storage of the genesis, and after the import of one header.
abbrev at_genesis : LightClient
at_genesis = (genesis_build toy_setup first 7 empty_client).1

abbrev after_second : LightClient
after_second = (import_header toy_setup (signed 1) second [] at_genesis).1

genesis-IsConsistent :
    (s : LightClient) × (genesis_build toy_setup first 7 empty_client ≡ (ok tt, s))
    × IsConsistent toy_setup s
genesis-IsConsistent =
    genesis_build-IsConsistent toy_setup first 7 (omega arith) first-other (omega arith)
      first-HasParent

at_genesis-IsConsistent : IsConsistent toy_setup at_genesis
at_genesis-IsConsistent =
    let (s, e, consistent) = genesis-IsConsistent in
    subst (IsConsistent toy_setup) (sym (ap (λ r. r.1) e)) consistent

second_imported : import_header toy_setup (signed 1) second [] at_genesis ≡ (ok tt, after_second)
unfolding import_header validate_header_to_import check_ancestor find_at_number check_work
    check_basic check_upper_bound check_lower_bound gas_bound is_next difficulty_or proved_or
    compute_partial_hash mix_hash nonce decoded_seal_field seal_field within aligned align_right
    calc_difficulty bomb_delay block_time_div_9 sigma2 adjusted with_exp add_exp period_count
    import_validated_header checked_add store_header try_append is_best adopt finalize_blocks
    get_best_finalized_header best_finalized find_finalized_ancestor mark_finalized clean_up
    prune_header_range prune_numbers genesis_build initialize_storage insert_header insert_headers
    finalize_ancestor finalize_ancestors compute_hash rlp rlp_items rlp_length fee_items seal_items
    without_seal
second_imported = ap (λ r. (r, after_second)) refl

genesis_build-IsConsistent_example :
    (s : LightClient) × (genesis_build toy_setup first 7 empty_client ≡ (ok tt, s))
    × IsConsistent toy_setup s
genesis_build-IsConsistent_example =
    genesis_build-IsConsistent toy_setup first 7 (omega arith) first-other (omega arith)
      first-HasParent

import_header_stored_example :
    (sender : H256) × (parent : StoredHeader) × (signed 1 ≡ signed sender)
    × (at_genesis.headers (hash_of toy_setup second) ≡ none)
    × (at_genesis.headers second.parent_hash ≡ some parent)
    × IsNext second parent.header
    × (calc_difficulty old_forks 109 parent.header ≡ ok 131072)
    × IsWorked toy_setup second []
    × (Clash toy_setup ⊎ HasStored toy_setup at_genesis after_second sender parent second)
import_header_stored_example =
    import_header_stored toy_setup (signed 1) second [] at_genesis after_second refl
      at_genesis-IsConsistent second_imported

abbrev two_imports : List Submission
two_imports =
    record { origin = signed 1; header = second; proof = [] }
    ∷ record { origin = signed 2; header = third; proof = [] }
    ∷ []

import_all-HasAdvanced_example :
    IsConsistent toy_setup (import_all toy_setup two_imports at_genesis)
    × HasAdvanced toy_setup at_genesis (import_all toy_setup two_imports at_genesis)
    × (at_genesis.best_block.1 ≤ (import_all toy_setup two_imports at_genesis).best_block.1)
import_all-HasAdvanced_example =
    import_all-HasAdvanced toy_setup two_imports at_genesis refl at_genesis-IsConsistent

validate_header_ends_example :
    Clash toy_setup ⊎ (validate_header_to_import toy_setup at_genesis second [] ≢ err out_of_fuel)
validate_header_ends_example =
    validate_header_ends toy_setup at_genesis second [] at_genesis-IsConsistent.sound

-- A storage where the finalized block is above another that is finalized.
abbrev pub a_header : Header → Bool → StoredHeader
a_header header finalized = record {
  submitter = none;
  header = header;
  total_difficulty = 1;
  finalized = finalized;
}

abbrev forked : LightClient
forked = record empty_client {
  best_block = (record { number = 12; hash = 859432 }, 9);
  finalized_block = record { number = 12; hash = 859432 };
  headers = insert 222946 (a_header second true) (insert 667451 (a_header first true) (λ h. none));
}

abbrev after_reset : LightClient
after_reset = (force_reset_to_fork toy_setup root 222946 forked).1

reset : force_reset_to_fork toy_setup root 222946 forked ≡ (ok tt, after_reset)
unfolding force_reset_to_fork reset_to_fork find_finalized_ancestor
reset = ap (λ r. (r, after_reset)) refl

force_reset_to_fork_outcome_example :
    (root ≡ root)
    × (stored : StoredHeader) × (hash : H256) × (header : Header) × (forked.headers 222946
        ≡ some stored)
    × (stored.finalized ≡ true)
    × (stored.header.number < 12)
    × (find_finalized_ancestor forked.headers 222946 1 ≡ some (hash, header))
    × (after_reset.finalized_block ≡ record { number = header.number; hash = hash })
    × (after_reset.best_block
        ≡ (record { number = stored.header.number; hash = 222946 }, stored.total_difficulty))
    × (after_reset.headers ≡ forked.headers)
    × (after_reset.headers_by_number ≡ forked.headers_by_number)
force_reset_to_fork_outcome_example =
    force_reset_to_fork_outcome toy_setup root 222946 forked after_reset reset

-- Three headers under two numbers, of which two may be removed.
abbrev index : ℕ → Option (List H256)
index = insert 4 (40 ∷ []) (insert 5 (50 ∷ 51 ∷ []) (λ n. none))

abbrev old_headers : ℕ → Option StoredHeader
old_headers =
    insert 40 (a_header first true)
      (insert 50 (a_header second true) (insert 51 (a_header third true) (λ h. none)))

abbrev old_range : PruningRange
old_range = record { oldest_unpruned_block = 3; oldest_block_to_keep = 4 }

abbrev new_range : PruningRange
new_range = record { oldest_unpruned_block = 5; oldest_block_to_keep = 7 }

abbrev left : Pruning
left = record {
  headers = remove 50 (remove 40 old_headers);
  headers_by_number = insert 5 (51 ∷ []) (remove 5 (remove 4 index));
  oldest_unpruned_block = 5;
  blocks_pruned = 2;
}

pruned : prune_header_range 4 old_headers index old_range 2 7 ≡ ok (new_range, left)
unfolding prune_header_range prune_numbers prune_number remove_hashes put_back
pruned = refl

prune_header_range_pruned_example :
    (7 ≡ max 4 7)
    × (3 ≤ 5)
    × (5 ≤ max 3 7)
    × (removed : List H256) × (length removed ≤ 2)
    × (left.headers ≡ remove_all removed old_headers)
    × All (IsListed index 3 (max 3 7)) removed
prune_header_range_pruned_example =
    prune_header_range_pruned 4 old_headers index old_range 2 7 pruned

calc_difficulty-first : calc_difficulty old_forks 109 first ≡ ok 131072
unfolding calc_difficulty bomb_delay block_time_div_9 sigma2 adjusted with_exp add_exp period_count
calc_difficulty-first = refl

calc_difficulty_range_example :
    (delay : BombDelay) × (bomb_delay old_forks ((10 + 1) % 2 ^ 64) ≡ some delay)
    × (a : ℕ) × (131072 ≡ a + bomb (period_count 10 delay))
    × (131072 ≤ a)
    × (131072 ≤ a + 131072 / 2048 * 99)
    × (a ≤ max 131072 (131072 + 131072 / 2048 * 2))
calc_difficulty_range_example = calc_difficulty_range old_forks 109 first calc_difficulty-first

abbrev recent : Header
recent = record (header_after 0 14_000_000 100) { difficulty = 12_000_000_000_000_000 }

past_byzantium : is_some (bomb_delay mainnet (14_000_000 + 1)) ≡ true
unfolding bomb_delay
past_byzantium = refl

calc_difficulty_total_example : (r : ℕ) × (calc_difficulty mainnet 113 recent ≡ ok r)
calc_difficulty_total_example =
    calc_difficulty_total mainnet 113 recent (omega arith) (omega arith) past_byzantium
      (omega arith) (omega arith)

mix_hash-from_be_example :
    (mix_hash toy_crate first ≡ Option.map (from_be 0) (decoded_seal_field toy_crate first 0 32))
    × (nonce toy_crate first ≡ Option.map (from_be 0) (decoded_seal_field toy_crate first 1 8))
mix_hash-from_be_example = mix_hash-from_be toy_crate first
