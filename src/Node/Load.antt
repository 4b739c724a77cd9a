-- ===== src/Node/Load.antt =====
-- The load of a node from its page in src/btree_node.c, and the search from the root in
-- src/btree_search.c.
use garry.Base.{
  ℕ, zero, suc, ◌+◌, ◌-◌, List, [], length, get_or, Option, none, some, Bool, true, false, not, ltb,
  ◌==◌, if◌then◌else◌,
}
use garry.Base.Buffer.{Buffer}
use garry.Base.Word.{minus_one, slt}
use garry.Endian.{read_int32}
use garry.Page.{page_get, page_record_count, off_type, off_level}
use garry.Codec.{decode_kv}
use garry.Node.{BtreeNode, decode_node_meta, max_keys_per_node, set_at, leaf_find, internal_find}
use garry.Pool.{BufferPool, pool_try_pin, pool_pin_page, pool_release_page}

-- The kinds that a loaded node has.
pub data NodeKind : Type 0 where
  internal leaf overflow : NodeKind

-- The node with its kind and its level.
pub record LoadedNode : Type 0 where
  pub kind : NodeKind
  pub level : ℕ
  pub node : BtreeNode

abbrev pub is_internal_kind : NodeKind → Bool
is_internal_kind internal = true
is_internal_kind leaf = false
is_internal_kind overflow = false

unfoldable pub kind_of : ℕ → NodeKind
kind_of ptype = if ptype == 1 then leaf else if ptype == 2 then overflow else internal

abbrev pub empty_node : Bool → BtreeNode
empty_node is_internal = record {
  is_internal = is_internal;
  keys = λ i. [];
  values = λ i. [];
  children = λ i. 0;
  next_page = minus_one;
  prev_page = minus_one;
  entry_count = 0;
}

-- What a page that cannot be pinned gives.
abbrev pub empty_leaf : LoadedNode
empty_leaf = record { kind = leaf; level = 0; node = empty_node false }

-- `rec_buf`, in which only the bytes of the record are read.
abbrev pub rec_buffer : List ℕ → Buffer
rec_buffer rec i = get_or rec i 0

-- One round of the loop over the records, with `entry_idx` as the node's count of entries.
unfoldable pub load_entry : Buffer → ℕ → ℕ → BtreeNode → BtreeNode
load_entry buf page_size j node =
    if not (ltb node.entry_count max_keys_per_node) then node else elim (page_get buf j page_size) [
      | none ↦ node
      | some rec ↦ elim (decode_kv (rec_buffer rec) (length rec)) [
        | none ↦ node
        | some (key, value) ↦ record node {
          keys = set_at node.keys node.entry_count key.bytes;
          values = set_at node.values node.entry_count value.bytes;
          entry_count = node.entry_count + 1;
        }
      ]
    ]

-- The loop from record `j` on with `rest` rounds left.
unfoldable pub load_entries : Buffer → ℕ → ℕ → ℕ → BtreeNode → BtreeNode
load_entries buf page_size j zero node = node
load_entries buf page_size j (suc rest) node =
    load_entries buf page_size (j + 1) rest (load_entry buf page_size j node)

-- The rounds of a loop over the records; a count that is negative gives none.
abbrev pub loaded_count : Buffer → ℕ
loaded_count buf = if slt 0 (page_record_count buf) then page_record_count buf else 0

-- The metadata record, in slot 0; `decoded` is what the variable of that name holds at first.
unfoldable pub load_meta : Buffer → ℕ → ℕ → BtreeNode → BtreeNode
load_meta buf page_size decoded node =
    if page_record_count buf == 0 then node else elim (page_get buf 0 page_size) [
      | none ↦ node
      | some rec ↦
          if length rec == 0
          then node
          else decode_node_meta (rec_buffer rec) (length rec) node decoded
    ]

-- The node of a page that is pinned.
unfoldable pub node_of_page : Buffer → ℕ → ℕ → LoadedNode
node_of_page buf page_size decoded =
    let kind = kind_of (read_int32 buf off_type) in
    record {
      kind = kind;
      level = read_int32 buf off_level;
      node =
          load_entries buf page_size 1 (loaded_count buf - 1)
            (load_meta buf page_size decoded (empty_node (is_internal_kind kind)));
    }

-- `garry_pool_try_pin`, and `garry_pool_pin_page` where that gives NULL.
unfoldable pub pin_node : BufferPool → ℕ → Option (BufferPool × ℕ)
pin_node pool pid = elim (pool_try_pin pool pid) [ some r ↦ some r | none ↦ pool_pin_page pool pid ]

unfoldable pub load_node : BufferPool → ℕ → ℕ → BufferPool × LoadedNode
load_node pool pid decoded = elim (pin_node pool pid) [
  | none ↦ (pool, empty_leaf)
  | some (pinned, i) ↦
      (pool_release_page pinned pid, node_of_page (pinned.slots i).page pool.page_size decoded)
]

-- The value of a key in a leaf; the inner `none` is the result 0.
unfoldable pub leaf_value : BtreeNode → List ℕ → Option (List ℕ)
leaf_value node key = elim (leaf_find node key) [ none ↦ none | some idx ↦ some (node.values idx) ]

-- The descent from the page `pid`; `none` if the fuel runs out.
unfoldable pub leaf_find_search :
    ℕ → BufferPool → ℕ → List ℕ → ℕ → Option (BufferPool × Option (List ℕ))
leaf_find_search zero pool pid key decoded = none
leaf_find_search (suc fuel) pool pid key decoded =
    let (pool', loaded) = load_node pool pid decoded in
    elim loaded.kind [
      | leaf ↦ some (pool', leaf_value loaded.node key)
      | overflow ↦ some (pool', none)
      | internal ↦
          if loaded.node.entry_count == 0
          then some (pool', none)
          else leaf_find_search fuel pool' (loaded.node.children (internal_find loaded.node key))
              key decoded
    ]
