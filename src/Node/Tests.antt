-- ===== src/Node/Tests.antt =====
-- The theorems of B-tree nodes at a concrete node.
use garry.Base.{ℕ, zero, suc, ◌≡◌, ◌≢◌, ◌≤◌, ◌<◌, refl, List, [], ◌∷◌, none, some, true, arith}
use garry.Base.Buffer.{Buffer}
use garry.Base.Word.{minus_one}
use garry.Node.{BtreeNode, encode_node_meta, decode_node_meta, leaf_insert, leaf_find}
use garry.Node.Meta.{HasIds, decode_node_meta-encode_node_meta}
use garry.Node.Leaf.{leaf_insert_lem, leaf_find_lem}

abbrev blank : Buffer
blank j = 0

abbrev key_array : ℕ → List ℕ
key_array zero = 1 ∷ 98 ∷ []
key_array (suc i) = 1 ∷ 100 ∷ []

abbrev child_array : ℕ → ℕ
child_array i = 7

-- two keys, no next page, and page 5 before it
abbrev node : BtreeNode
node = record {
  is_internal = true;
  keys = key_array;
  values = key_array;
  children = child_array;
  next_page = minus_one;
  prev_page = 5;
  entry_count = 2;
}

abbrev cleared : BtreeNode
cleared = record {
  is_internal = true;
  keys = λ j. [];
  values = λ j. [];
  children = λ j. 0;
  next_page = minus_one;
  prev_page = minus_one;
  entry_count = 0;
}

node-HasIds : HasIds node
node-HasIds = record {
  few = omega arith;
  next_page = (omega arith, omega arith);
  prev_page = (omega arith, omega arith);
  children = λ k h. (omega arith, omega arith);
}

decode_node_meta-encode_node_meta_example :
    ((decode_node_meta
        (encode_node_meta node blank).0
        (encode_node_meta node blank).1
        cleared
        0).next_page
      ≡ minus_one)
    × ((decode_node_meta
          (encode_node_meta node blank).0
          (encode_node_meta node blank).1
          cleared
          0).prev_page
        ≡ 5)
    × ((j : ℕ)
        → j < 3
        → (decode_node_meta
              (encode_node_meta node blank).0
              (encode_node_meta node blank).1
              cleared
              0).children
            j
          ≡ 7)
decode_node_meta-encode_node_meta_example =
    decode_node_meta-encode_node_meta node cleared blank 0 node-HasIds refl

abbrev new_key : List ℕ
new_key = 1 ∷ 99 ∷ []

leaf_insert_example :
    (r : BtreeNode) × (leaf_insert node new_key [] 1 ≡ some r)
    × (r.entry_count ≡ 3)
    × ((r.keys 1 ≡ new_key) × (r.values 1 ≡ []))
    × ((j : ℕ) → j < 1 → (r.keys j ≡ key_array j) × (r.values j ≡ key_array j))
    × ((j : ℕ) → 1 ≤ j → j < 2 → (r.keys (suc j) ≡ key_array j) × (r.values (suc j) ≡ key_array j))
leaf_insert_example = leaf_insert_lem node new_key [] 1 (omega arith) (omega arith)

leaf_find_example :
    ((k : ℕ)
      → leaf_find node new_key ≡ some k
      → (k < 2) × (key_array k ≡ new_key) × ((j : ℕ) → j < k → key_array j ≢ new_key))
    × (leaf_find node new_key ≡ none → (j : ℕ) → j < 2 → key_array j ≢ new_key)
leaf_find_example = leaf_find_lem node new_key
