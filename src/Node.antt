-- ===== src/Node.antt =====
-- src/btree_node.c and src/btree_search.c: the metadata record of a B-tree node, the insertion into a
-- leaf and the searches in a node. The arrays of a node are functions of the index; a key with its
-- length is the list of its bytes. Page ids are 32-bit patterns.
pub mod Uint
pub mod Meta
pub mod Leaf
pub mod Load
pub mod Search
pub mod Store
mod Tests
use garry.Base.{
  ℕ, zero, suc, ◌+◌, ◌-◌, ◌*◌, ◌/◌, ◌%◌, ◌^◌, List, [], ◌∷◌, ◌++◌, length, Option, none, some, Bool,
  true, false, not, ltb, leb, ◌==◌, if◌then◌else◌, ◌||◌, ◌&&◌,
}
use garry.Base.Buffer.{Buffer, copy_in}
use garry.Base.Word.{add32, sub32, slt, sle}
use garry.Codec.{header_bytes, int_bytes}
use garry.Compress.{byte_equal}
use garry.Key.{Sign, less, equal, greater, byte_compare}

-- GARRY_PAGE_ID_BIAS, GARRY_MAX_KEYS_PER_NODE
abbrev pub page_id_bias : ℕ
page_id_bias = 100000

abbrev pub max_keys_per_node : ℕ
max_keys_per_node = 3

pub record BtreeNode : Type 0 where
  pub is_internal : Bool
  pub keys : ℕ → List ℕ
  pub values : ℕ → List ℕ
  pub children : ℕ → ℕ
  pub next_page : ℕ
  pub prev_page : ℕ
  pub entry_count : ℕ

-- What `encode_cbor_uint` stores; nothing for a negative number.
unfoldable pub cbor_uint_bytes : ℕ → List ℕ
cbor_uint_bytes val = if slt val 0 then [] else int_bytes 0 val

-- The position behind the number and the number; where `*val` is left alone, it is `old`.
unfoldable pub decode_cbor_uint : Buffer → ℕ → ℕ → ℕ → ℕ × ℕ
decode_cbor_uint buf pos elen old =
    let fb = buf pos in
    let b1 = buf (pos + 1) in
    let b2 = buf (pos + 2) in
    let b3 = buf (pos + 3) in
    let b4 = buf (pos + 4) in
    if leb elen pos
    then (pos, old)
    else if ltb fb 24
    then (pos + 1, fb)
    else if fb == 24
    then (if leb elen (pos + 1) then (pos + 1, old) else (pos + 2, b1))
    else if fb == 25
    then (if leb elen (pos + 2) then (pos + 1, old) else (pos + 3, b1 * 256 + b2))
    else if fb == 26
    then (if leb elen (pos + 4)
        then (pos + 1, old)
        else (pos + 5, (b1 * 16777216 + b2 * 65536 + b3 * 256 + b4) % 2 ^ 32))
    else (pos + 1, old)

abbrev pub num_children : BtreeNode → ℕ
num_children node = if node.is_internal then node.entry_count + 1 else 0

abbrev pub biased_id : ℕ → ℕ
biased_id id = add32 id page_id_bias

-- The loop over the children from index `i` on.
unfoldable pub children_bytes : (ℕ → ℕ) → ℕ → ℕ → List ℕ
children_bytes children i zero = []
children_bytes children i (suc rest) =
    cbor_uint_bytes (biased_id (children i)) ++ children_bytes children (i + 1) rest

-- The bytes that the function stores; their number is its result.
unfoldable pub node_meta_bytes : BtreeNode → List ℕ
node_meta_bytes node =
    header_bytes 128 (2 + num_children node)
    ++ (cbor_uint_bytes (biased_id node.next_page)
        ++ (cbor_uint_bytes (biased_id node.prev_page)
            ++ children_bytes node.children 0 (num_children node)))

unfoldable pub encode_node_meta : BtreeNode → Buffer → Buffer × ℕ
encode_node_meta node buf = (copy_in buf 0 (node_meta_bytes node), length (node_meta_bytes node))

-- `children[i] = id`
abbrev pub set_child : (ℕ → ℕ) → ℕ → ℕ → ℕ → ℕ
set_child children i id j = if j == i then id else children j

-- The loop over the children from index `i` on; `decoded` keeps its value from round to round. The
-- array has room for four children: that a fifth overwrites the links behind it is not modelled.
unfoldable pub decode_children : Buffer → ℕ → (ℕ → ℕ) → ℕ → ℕ → ℕ → ℕ → ℕ → ℕ
decode_children buf elen children i zero pos decoded = children
decode_children buf elen children i (suc rest) pos decoded =
    let (next, val) = decode_cbor_uint buf pos elen decoded in
    let more =
      decode_children buf elen (set_child children i (sub32 val page_id_bias)) (i + 1) rest next
        val in
    let skipped = decode_children buf elen children (i + 1) rest pos decoded in
    if ltb pos elen then more else skipped

-- From the array header on: `arr_count` elements from `pos` on. `decoded` starts out undefined, which
-- is the argument.
unfoldable pub decode_elements : Buffer → ℕ → BtreeNode → ℕ → ℕ → ℕ → BtreeNode
decode_elements buf elen node decoded arr_count pos =
    let (p1, next) = decode_cbor_uint buf pos elen decoded in
    let (p2, prev) = decode_cbor_uint buf p1 elen next in
    let count = if node.is_internal then arr_count - 2 else 0 in
    record {
      is_internal = node.is_internal;
      keys = node.keys;
      values = node.values;
      children = decode_children buf elen node.children 0 count p2 prev;
      next_page = sub32 next page_id_bias;
      prev_page = sub32 prev page_id_bias;
      entry_count = node.entry_count;
    }

unfoldable pub decode_node_meta : Buffer → ℕ → BtreeNode → ℕ → BtreeNode
decode_node_meta buf elen node decoded =
    let fb = buf 0 in
    let ai = fb % 32 in
    if ltb fb 128 || leb 160 fb
    then node
    else if ltb ai 24
    then decode_elements buf elen node decoded ai 1
    else if ai == 24 && ltb 1 elen
    then decode_elements buf elen node decoded (buf 1) 2
    else node

-- `a[i] = x`
abbrev pub set_at : (ℕ → List ℕ) → ℕ → List ℕ → ℕ → List ℕ
set_at a i x j = if j == i then x else a j

-- The loop down from `i` to `idx`, for the keys and for the values.
unfoldable pub shift_right : (ℕ → List ℕ) → ℕ → ℕ → ℕ → List ℕ
shift_right a idx zero = a
shift_right a idx (suc i) =
    let more = shift_right (set_at a (suc i) (a i)) idx i in if ltb idx (suc i) then more else a

-- `none` is the result 0.
unfoldable pub leaf_insert : BtreeNode → List ℕ → List ℕ → ℕ → Option BtreeNode
leaf_insert node key value idx =
    if leb max_keys_per_node node.entry_count
    then none
    else some (record {
      is_internal = node.is_internal;
      keys = set_at (shift_right node.keys idx node.entry_count) idx key;
      values = set_at (shift_right node.values idx node.entry_count) idx value;
      children = node.children;
      next_page = node.next_page;
      prev_page = node.prev_page;
      entry_count = node.entry_count + 1;
    })

-- `for (i = 0; i < node->entry_count; i++)`, from `i` on with `rest` rounds left.
unfoldable pub find_from : (ℕ → List ℕ) → List ℕ → ℕ → ℕ → Option ℕ
find_from keys key i zero = none
find_from keys key i (suc rest) =
    let more = find_from keys key (i + 1) rest in if byte_equal (keys i) key then some i else more

unfoldable pub leaf_find : BtreeNode → List ℕ → Option ℕ
leaf_find node key = find_from node.keys key 0 node.entry_count

abbrev pub is_less : Sign → Bool
is_less less = true
is_less equal = false
is_less greater = false

unfoldable pub child_from : (ℕ → List ℕ) → List ℕ → ℕ → ℕ → ℕ
child_from keys key i zero = i
child_from keys key i (suc rest) =
    let more = child_from keys key (i + 1) rest in
    if is_less (byte_compare key (keys i)) then i else more

unfoldable pub internal_find : BtreeNode → List ℕ → ℕ
internal_find node key = child_from node.keys key 0 node.entry_count
