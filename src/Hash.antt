-- ===== src/Hash.antt =====
-- src/vm/utils.c, `LT_InlineHash`: the chained hash table under the environments, the packages
-- and the dictionaries.
pub mod Keys
pub mod Chains
pub mod Placement
pub mod Refine
mod Tests
use list_talk.Common.{
  ℕ, zero, suc, ◌+◌, ◌-◌, ◌*◌, ◌<◌, Bool, true, false, ◌&&◌, Option, none, some, List, [], ◌∷◌, ltb,
  ◌==◌, if◌then◌else◌, length, get_or, set, replicate, bit_and,
}
use Keys.{Key}

-- `struct LT_InlineHash_Entry`; `next` is the rest of the chain.
pub record Entry {ℓ} (K V : Type ℓ) : Type ℓ where
  pub hash : ℕ
  pub key : K
  pub value : V

abbrev pub Chain {ℓ} : Type ℓ → Type ℓ → Type ℓ
Chain K V = List (Entry K V)

-- `struct LT_InlineHash`; the lock is held through each operation.
pub record InlineHash {ℓ} (K V : Type ℓ) : Type ℓ where
  pub vector : List (Chain K V)
  pub mask : ℕ
  pub count : ℕ

-- `LT_InlineHash_init`
pub init {ℓ} : {K V : Type ℓ} → InlineHash K V
init = record { vector = replicate 8 []; mask = 0x7; count = 0 }

-- The body of `grow_table`'s two loops over one chain: each entry goes to the front of its chain
-- in the fresh vector `v` of `s` chains.
pub move_chain {ℓ} : {K V : Type ℓ} → ℕ → Chain K V → List (Chain K V) → List (Chain K V)
move_chain s [] v = v
move_chain s (j ∷ n) v =
    let at = bit_and j.hash (s - 1) in move_chain s n (set v at (j ∷ get_or v at []))

pub move_all {ℓ} : {K V : Type ℓ} → ℕ → List (Chain K V) → List (Chain K V) → List (Chain K V)
move_all s [] v = v
move_all s (c ∷ cs) v = move_all s cs (move_chain s c v)

pub grow_table {ℓ} : {K V : Type ℓ} → InlineHash K V → InlineHash K V
grow_table h =
    let s = (h.mask + 1) * 2 in
    record h { vector = move_all s h.vector (replicate s []); mask = s - 1 }

module _ {ℓ} {K V : Type ℓ} ⦃k : Key K⦄ where
  -- `i->hash == hash && i->key == key`
  abbrev pub matches : K → Entry K V → Bool
  matches key i = (i.hash == k.hash key) && k.equal i.key key

  -- The walk of `get_hash_entry_pointer` and `get_hash_entry` along a chain.
  pub find_entry : K → Chain K V → Option (Entry K V)
  find_entry key [] = none
  find_entry key (i ∷ next) = if matches key i then some i else find_entry key next

  -- `h->vector[hash & h->mask]`
  abbrev pub home : InlineHash K V → K → ℕ
  home h key = bit_and (k.hash key) h.mask

  pub get_hash_entry : InlineHash K V → K → Option (Entry K V)
  get_hash_entry h key = find_entry key (get_or h.vector (home h key) [])

  -- `e->value = value` through the entry that `get_hash_entry` found.
  pub assign : K → V → Chain K V → Chain K V
  assign key value [] = []
  assign key value (i ∷ next) =
      if matches key i then record i { value = value } ∷ next else i ∷ assign key value next

  -- The rest of `add_hash_entry_pointer` after the growth: the entry goes to the front of its chain.
  pub link : InlineHash K V → K → V → InlineHash K V
  link h key value =
      let e : Entry K V = record { hash = k.hash key; key = key; value = value } in
      record h {
        vector = set h.vector (home h key) (e ∷ get_or h.vector (home h key) []);
        count = h.count + 1;
      }

  -- `add_hash_entry_pointer`, `add_hash_entry_string`
  pub add_hash_entry : InlineHash K V → K → V → InlineHash K V
  add_hash_entry h key value = link (if ltb h.mask h.count then grow_table h else h) key value

  -- `LT_PointerHash_at_put`, `LT_StringHash_at_put`
  pub at_put : InlineHash K V → K → V → InlineHash K V
  at_put h key value = elim (get_hash_entry h key) [
    | some e ↦ record h {
      vector = set h.vector (home h key) (assign key value (get_or h.vector (home h key) []));
    }
    | none ↦ add_hash_entry h key value
  ]

  -- `LT_PointerHash_at`, `LT_StringHash_at`: `null` is what a missing key gives.
  pub at : V → InlineHash K V → K → V
  at null h key = elim (get_hash_entry h key) [ some e ↦ e.value | none ↦ null ]

  -- The unlinking of the first match in `LT_PointerHash_remove` and `LT_StringHash_remove`.
  pub unlink : K → Chain K V → Chain K V
  unlink key [] = []
  unlink key (i ∷ next) = if matches key i then next else i ∷ unlink key next

  -- The option is the result with `value_out`.
  pub remove : InlineHash K V → K → Option V × InlineHash K V
  remove h key =
      let chain = get_or h.vector (home h key) [] in
      elim (find_entry key chain) [
        | some e ↦ (
          some e.value,
          record h { vector = set h.vector (home h key) (unlink key chain); count = h.count - 1 },
        )
        | none ↦ (none, h)
      ]
