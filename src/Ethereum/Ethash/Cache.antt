-- ===== src/Ethereum/Ethash/Cache.antt =====
-- The cache of DAG caches of parachain/primitives/ethereum/src/ethashproof.rs and the prover that
-- uses it. A panic of an `unwrap`, or of the assertion of `new`, is `none`.
use snowbridge.Shared.{
  ℕ, suc, ◌/◌, ◌≤◌, ◌<◌, Bool, true, false, ◌&&◌, ◌||◌, Option, none, some, List, [], ◌∷◌, ◌++◌,
  length, length-append, ltb, ◌==◌, if◌then◌else◌, ◌≡◌, refl, sym, ap, ◌∙◌, arith, Bool-cases,
  Option-cases, inl, inr,
}
use snowbridge.Shared.Bytes.{Bytes, H256}
use snowbridge.Shared.Storage.{StorageMap, insert, insert_self, remove, contains_key}
use snowbridge.Ethereum.Ethash.{epoch_length}

pub record EthashCache : Type 0 where
  pub max_capacity : ℕ
  pub caches_by_epoch : StorageMap Bytes
  -- (timestamp, epoch)
  pub recently_accessed_epochs : List (ℕ × ℕ)
  pub cache_gen_fn : ℕ → Bytes

unfoldable pub with_generator : ℕ → (ℕ → Bytes) → Option EthashCache
with_generator max cache_gen_fn =
    if ltb 0 max
    then some (record {
      max_capacity = max;
      caches_by_epoch = λ epoch. none;
      recently_accessed_epochs = [];
      cache_gen_fn = cache_gen_fn;
    })
    else none

-- The pair of an epoch with a new timestamp: `iter_mut().find(..).unwrap()`.
unfoldable pub touch : ℕ → ℕ → List (ℕ × ℕ) → Option (List (ℕ × ℕ))
touch epoch timestamp [] = none
touch epoch timestamp ((t, e) ∷ pairs) =
    let rest = touch epoch timestamp pairs in
    if e == epoch
    then some ((timestamp, e) ∷ pairs)
    else elim rest [ none ↦ none | some pairs' ↦ some ((t, e) ∷ pairs') ]

unfoldable pub before : ℕ × ℕ → ℕ × ℕ → Bool
before (t, e) (u, f) = ltb t u || (t == u && ltb e f)

unfoldable pub insert_sorted : ℕ × ℕ → List (ℕ × ℕ) → List (ℕ × ℕ)
insert_sorted pair [] = pair ∷ []
insert_sorted pair (other ∷ pairs) =
    let rest = insert_sorted pair pairs in
    if before other pair then other ∷ rest else pair ∷ other ∷ pairs

-- `sort()`, of pairs in their order.
unfoldable pub sort : List (ℕ × ℕ) → List (ℕ × ℕ)
sort [] = []
sort (pair ∷ pairs) = insert_sorted pair (sort pairs)

-- The cache where the epoch is one of those that it has.
unfoldable pub hit : EthashCache → Option (List (ℕ × ℕ)) → Option EthashCache
hit c none = none
hit c (some pairs) = some (record c { recently_accessed_epochs = pairs })

-- The cache without its oldest epoch, which the new one takes the place of.
unfoldable pub evict : ℕ → ℕ → EthashCache → List (ℕ × ℕ) → Option EthashCache
evict epoch timestamp c [] = none
evict epoch timestamp c ((t, e) ∷ pairs) = some (record c {
  caches_by_epoch = remove e c.caches_by_epoch;
  recently_accessed_epochs = (timestamp, epoch) ∷ pairs;
})

unfoldable pub make_room : ℕ → ℕ → EthashCache → Option EthashCache
make_room epoch timestamp c =
    if length c.recently_accessed_epochs == c.max_capacity
    then evict epoch timestamp c c.recently_accessed_epochs
    else some (record c {
      recently_accessed_epochs = c.recently_accessed_epochs ++ (timestamp, epoch) ∷ [];
    })

unfoldable pub generate : ℕ → Option EthashCache → Option EthashCache
generate epoch none = none
generate epoch (some c) =
    some (record c { caches_by_epoch = insert epoch (c.cache_gen_fn epoch) c.caches_by_epoch })

-- The sort, and the look-up of what is now there.
unfoldable pub serve : ℕ → Option EthashCache → Option (Bytes × EthashCache)
serve epoch none = none
serve epoch (some c) = elim (c.caches_by_epoch epoch) [
  | none ↦ none
  | some bytes ↦
      some (bytes, record c { recently_accessed_epochs = sort c.recently_accessed_epochs })
]

unfoldable pub get : ℕ → ℕ → EthashCache → Option (Bytes × EthashCache)
get epoch timestamp c = serve epoch (
    if contains_key c.caches_by_epoch epoch
    then hit c (touch epoch timestamp c.recently_accessed_epochs)
    else generate epoch (make_room epoch timestamp c))

-- `hashimoto_light`, with what it leaves of the cache of the prover.
unfoldable pub hashimoto_light :
    (ℕ → ℕ)
    → (H256 → ℕ → ℕ → Bytes → H256 × H256)
    → Option EthashCache
    → H256
    → ℕ
    → ℕ
    → Option ((H256 × H256) × EthashCache)
hashimoto_light get_full_size light none header_hash nonce header_number = none
hashimoto_light get_full_size light (some cache) header_hash nonce header_number =
    let epoch = header_number / epoch_length in
    elim (get epoch header_number cache) [
      | none ↦ none
      | some (bytes, cache') ↦ some (light header_hash nonce (get_full_size epoch) bytes, cache')
    ]

-- An epoch is among those that were accessed.
unfoldable pub has_epoch : ℕ → List (ℕ × ℕ) → Bool
has_epoch epoch [] = false
has_epoch epoch ((t, e) ∷ pairs) = (e == epoch) || has_epoch epoch pairs

-- Every stored cache is the generated one of its epoch, which was accessed, and there are no more
-- epochs than the capacity.
pub record IsCache (c : EthashCache) : Type 0 where
  pub content :
      (epoch : ℕ) (bytes : Bytes)
      → c.caches_by_epoch epoch ≡ some bytes
      → (bytes ≡ c.cache_gen_fn epoch) × (has_epoch epoch c.recently_accessed_epochs ≡ true)
  pub bounded : length c.recently_accessed_epochs ≤ c.max_capacity
  pub positive : 0 < c.max_capacity

insert_sorted_epoch :
    (epoch : ℕ) (pair : ℕ × ℕ) (pairs : List (ℕ × ℕ))
    → (has_epoch epoch (insert_sorted pair pairs) ≡ has_epoch epoch (pair ∷ pairs))
      × (length (insert_sorted pair pairs) ≡ suc (length pairs))
unfolding insert_sorted has_epoch
insert_sorted_epoch epoch pair [] = (refl, refl)
insert_sorted_epoch epoch pair (other ∷ pairs) =
    let (e, l) = insert_sorted_epoch epoch pair pairs in
    elim (Bool-cases (before other pair)) [
      | inl x ↦ (ground arith, ground arith)
      | inr x ↦ (ground arith, ground arith)
    ]

sort_epoch :
    (epoch : ℕ) (pairs : List (ℕ × ℕ))
    → (has_epoch epoch (sort pairs) ≡ has_epoch epoch pairs) × (length (sort pairs) ≡ length pairs)
unfolding sort has_epoch
sort_epoch epoch [] = (refl, refl)
sort_epoch epoch (pair ∷ pairs) =
    let (e, l) = sort_epoch epoch pairs in
    let (e', l') = insert_sorted_epoch epoch pair (sort pairs) in (ground arith, omega arith)

touch_epoch :
    (epoch timestamp : ℕ) (pairs : List (ℕ × ℕ))
    → has_epoch epoch pairs ≡ true
    → (pairs' : List (ℕ × ℕ)) × (touch epoch timestamp pairs ≡ some pairs')
      × ((other : ℕ) → has_epoch other pairs' ≡ has_epoch other pairs)
      × (length pairs' ≡ length pairs)
unfolding touch has_epoch
touch_epoch epoch timestamp [] h = absurd (cc)
touch_epoch epoch timestamp ((t, e) ∷ pairs) h = elim (Bool-cases (e == epoch)) [
  | inl x ↦ ((timestamp, e) ∷ pairs, ground arith, λ other. refl, refl)
  | inr x ↦
      let (pairs', y, same, l) = touch_epoch epoch timestamp pairs (ground arith) in
      ((t, e) ∷ pairs', ground arith, λ other. ap (λ b. (e == other) || b) (same other), ap suc l)
]

append_epoch :
    (epoch t e : ℕ) (pairs : List (ℕ × ℕ))
    → has_epoch epoch (pairs ++ (t, e) ∷ []) ≡ (has_epoch epoch pairs || (e == epoch))
unfolding has_epoch
append_epoch epoch t e [] = ground arith
append_epoch epoch t e ((u, f) ∷ pairs) = let rest = append_epoch epoch t e pairs in ground arith

-- The cache before the sort: it has the epoch, and is a cache.
sorted-IsCache :
    (c : EthashCache)
    → IsCache c
    → IsCache (record c { recently_accessed_epochs = sort c.recently_accessed_epochs })
sorted-IsCache c inv = record {
  content = λ epoch bytes at.
      (let (same, there) = inv.content epoch bytes at in
        (same, (sort_epoch epoch c.recently_accessed_epochs).0 ∙ there));
  bounded = omega (arith, inv.bounded, (sort_epoch 0 c.recently_accessed_epochs).1);
  positive = inv.positive;
}

serve_outcome :
    (epoch : ℕ) (c : EthashCache) (bytes : Bytes)
    → IsCache c
    → c.caches_by_epoch epoch ≡ some bytes
    → (c' : EthashCache) × (serve epoch (some c) ≡ some (c.cache_gen_fn epoch, c'))
      × IsCache c'
      × (c'.cache_gen_fn ≡ c.cache_gen_fn)
unfolding serve
serve_outcome epoch c bytes inv at =
    let (same, _) = inv.content epoch bytes at in
    (
      record c { recently_accessed_epochs = sort c.recently_accessed_epochs },
      ground arith,
      sorted-IsCache c inv,
      refl,
    )

-- The new cache in the place of an old one.
evicted-IsCache :
    (epoch timestamp : ℕ) (c : EthashCache) (t e : ℕ) (pairs : List (ℕ × ℕ))
    → c.recently_accessed_epochs ≡ (t, e) ∷ pairs
    → IsCache c
    → IsCache (record c {
      caches_by_epoch = insert epoch (c.cache_gen_fn epoch) (remove e c.caches_by_epoch);
      recently_accessed_epochs = (timestamp, epoch) ∷ pairs;
    })
unfolding has_epoch
evicted-IsCache epoch timestamp c t e pairs recent inv = record {
  content = λ f bytes at. elim (Bool-cases (f == epoch)) [
    | inl x ↦ (ground arith, ground arith)
    | inr x ↦
        let kept : c.caches_by_epoch f ≡ some bytes = (ground arith) in
        let other : (e == f) ≡ false = (ground arith) in
        let (same, there) = inv.content f bytes kept in
        let there' : has_epoch f ((t, e) ∷ pairs) ≡ true = sym (ap (has_epoch f) recent) ∙ there in
        (same, ground arith)
  ];
  bounded = omega (arith, inv.bounded, ap length recent);
  positive = inv.positive;
}

-- The new cache beside the others.
added-IsCache :
    (epoch timestamp : ℕ) (c : EthashCache)
    → (length c.recently_accessed_epochs == c.max_capacity) ≡ false
    → IsCache c
    → IsCache (record c {
      caches_by_epoch = insert epoch (c.cache_gen_fn epoch) c.caches_by_epoch;
      recently_accessed_epochs = c.recently_accessed_epochs ++ (timestamp, epoch) ∷ [];
    })
added-IsCache epoch timestamp c room inv = record {
  content = λ f bytes at.
      (let last = append_epoch f timestamp epoch c.recently_accessed_epochs in
        elim (Bool-cases (f == epoch)) [
          | inl x ↦ (ground arith, ground arith)
          | inr x ↦ let (same, there) = inv.content f bytes (ground arith) in (same, ground arith)
        ]);
  bounded =
      ground
        (arith, inv.bounded, length-append c.recently_accessed_epochs ((timestamp, epoch) ∷ []));
  positive = inv.positive;
}

generate_outcome :
    (epoch timestamp : ℕ) (c : EthashCache)
    → IsCache c
    → (c1 : EthashCache) × (generate epoch (make_room epoch timestamp c) ≡ some c1)
      × IsCache c1
      × (c1.caches_by_epoch epoch ≡ some (c.cache_gen_fn epoch))
      × (c1.cache_gen_fn ≡ c.cache_gen_fn)
unfolding generate make_room evict
generate_outcome epoch timestamp c inv =
    elim (Bool-cases (length c.recently_accessed_epochs == c.max_capacity)) [
      | inr room ↦ (
        _,
        ground arith,
        added-IsCache epoch timestamp c room inv,
        insert_self epoch (c.cache_gen_fn epoch) c.caches_by_epoch,
        refl,
      )
      | inl full ↦
          let (t, e, pairs, recent) =
            uncons c.recently_accessed_epochs (ground (arith, inv.positive)) in
          (
            _,
            ground arith,
            evicted-IsCache epoch timestamp c t e pairs recent inv,
            insert_self epoch (c.cache_gen_fn epoch) (remove e c.caches_by_epoch),
            refl,
          )
    ]
  where
    uncons :
        (xs : List (ℕ × ℕ))
        → 0 < length xs
        → (t : ℕ) × (e : ℕ) × (pairs : List (ℕ × ℕ)) × (xs ≡ (t, e) ∷ pairs)
    uncons [] lt = absurd (omega arith)
    uncons ((t, e) ∷ pairs) lt = (t, e, pairs, refl)

-- A cache that serves an epoch: it does not panic, gives what is generated for the epoch, and stays
-- a cache within its capacity.
pub get-IsCache :
    (epoch timestamp : ℕ) (c : EthashCache)
    → IsCache c
    → (c' : EthashCache) × (get epoch timestamp c ≡ some (c.cache_gen_fn epoch, c'))
      × IsCache c'
      × (c'.cache_gen_fn ≡ c.cache_gen_fn)
unfolding get hit generate make_room evict
get-IsCache epoch timestamp c inv = elim (Option-cases (c.caches_by_epoch epoch)) [
  | inr (bytes, at) ↦
      let (same, there) = inv.content epoch bytes at in
      let (pairs, touched, epochs, len) =
        touch_epoch epoch timestamp c.recently_accessed_epochs there in
      let c1 : EthashCache = record c { recently_accessed_epochs = pairs } in
      let inv1 : IsCache c1 = record {
        content =
            λ e b at'. (let (same', there') = inv.content e b at' in (same', epochs e ∙ there'));
        bounded = omega (arith, inv.bounded, len);
        positive = inv.positive;
      } in
      let (c', served, inv', gen) = serve_outcome epoch c1 bytes inv1 at in
      (c', ground arith, inv', gen)
  | inl missing ↦
      let (c1, made, inv1, at, gen1) = generate_outcome epoch timestamp c inv in
      let (c', served, inv', gen) = serve_outcome epoch c1 (c.cache_gen_fn epoch) inv1 at in
      (c', ground arith, inv', gen ∙ gen1)
]
