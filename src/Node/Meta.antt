-- ===== src/Node/Meta.antt =====
-- The metadata record of a node comes back from its encoding.
use garry.Base.{
  ℕ, zero, suc, ◌+◌, ◌-◌, ◌%◌, ◌^◌, ◌≤◌, ◌<◌, ◌≡◌, refl, ◌∙◌, ap, List, [], ◌∷◌, ◌++◌, length,
  if◌then◌else◌, arith, length-append, lt→ltb, ==_refl, subst,
}
use native.Mathlib.Decide.{ℕ_discrete}
use garry.Base.Buffer.{Buffer, copy_in}
use garry.Base.Word.{sub32}
use garry.Codec.{header_bytes, int_bytes}
use garry.Key.Tuple.{copied-At}
use garry.Key.Tuple.{At, At-append-left, At-append-right}
use garry.Node.{
  BtreeNode, page_id_bias, cbor_uint_bytes, decode_cbor_uint, num_children, biased_id,
  children_bytes, node_meta_bytes, encode_node_meta, set_child, decode_children, decode_elements,
  decode_node_meta,
}
use garry.Node.Uint.{IsBiased, decode_cbor_uint-At}

length-cbor_uint_bytes_pos : (v : ℕ) → v < 2 ^ 31 → 1 ≤ length (cbor_uint_bytes v)
unfolding cbor_uint_bytes int_bytes
length-cbor_uint_bytes_pos v h = ground arith

unbiased : (id : ℕ) → IsBiased id → sub32 (biased_id id) page_id_bias ≡ id
unbiased id h = omega (arith, h.0)

-- The loop does not touch the children before its first index.
decode_children-before :
    (b : Buffer) (elen : ℕ) (cs : ℕ → ℕ) (i rest pos decoded j : ℕ)
    → j < i
    → decode_children b elen cs i rest pos decoded j ≡ cs j
unfolding decode_children
decode_children-before b elen cs i zero pos decoded j h = refl
decode_children-before b elen cs i (suc rest) pos decoded j h = ground (
  arith,
  decode_children-before b elen
      (set_child cs i (sub32 (decode_cbor_uint b pos elen decoded).1 page_id_bias)) (i + 1) rest
      (decode_cbor_uint b pos elen decoded).0 (decode_cbor_uint b pos elen decoded).1 j
      (omega arith),
  decode_children-before b elen cs (i + 1) rest pos decoded j (omega arith),
)

-- One round on a child that is there.
decode_children_step :
    (b : Buffer) (elen : ℕ) (cs : ℕ → ℕ) (i rest pos decoded id : ℕ)
    → IsBiased id
    → pos + length (cbor_uint_bytes (biased_id id)) ≤ elen
    → At b pos (cbor_uint_bytes (biased_id id))
    → decode_children b elen cs i (suc rest) pos decoded
      ≡ decode_children b elen
          (set_child cs i id)
          (i + 1)
          rest
          (pos + length (cbor_uint_bytes (biased_id id)))
          (biased_id id)
unfolding decode_children
decode_children_step b elen cs i rest pos decoded id h fits at =
    rw
      (
        decode_cbor_uint-At b elen pos (biased_id id) decoded h.1 fits at,
        unbiased id h,
        lt→ltb pos elen (omega (arith, length-cbor_uint_bytes_pos (biased_id id) h.1)),
      )
      refl

decode_children-At :
    (b : Buffer) (elen : ℕ) (cs target : ℕ → ℕ) (i rest pos decoded j : ℕ)
    → ((k : ℕ) → i ≤ k → k < i + rest → IsBiased (target k))
    → pos + length (children_bytes target i rest) ≤ elen
    → At b pos (children_bytes target i rest)
    → i ≤ j
    → j < i + rest
    → decode_children b elen cs i rest pos decoded j ≡ target j
decode_children-At b elen cs target i zero pos decoded j ids fits at lo hi = absurd (omega arith)
decode_children-At b elen cs target i (suc rest) pos decoded j ids fits at lo hi =
    ap (λ f. f j)
      (decode_children_step b elen cs i rest pos decoded (target i)
        (ids i (omega arith) (omega arith)) (omega (arith, total))
        (At-append-left b pos here more at'))
    ∙ elim (ℕ_discrete j i) [
      | yes e ↦
          decode_children-before b elen (set_child cs i (target i)) (i + 1) rest _ _ j (omega arith)
          ∙ rw (e, ==_refl i) refl
      | no ne ↦
          decode_children-At b elen (set_child cs i (target i)) target (i + 1) rest
            (pos + length here) (biased_id (target i)) j
            (λ k a c. ids k (omega arith) (omega arith)) (omega (arith, total))
            (At-append-right b pos (pos + length here) here more refl at') (omega (arith, ne))
            (omega arith)
    ]
  where
    here : List ℕ
    here = cbor_uint_bytes (biased_id (target i))

    more : List ℕ
    more = children_bytes target (i + 1) rest

    at' : At b pos (here ++ more)
    at' = unfold children_bytes in at

    total : length (children_bytes target i (suc rest)) ≡ length here + length more
    total = unfold children_bytes in length-append here more

-- The page ids that the record of a node holds.
pub record HasIds (node : BtreeNode) : Type 0 where
  pub few : num_children node ≤ 4
  pub next_page : IsBiased node.next_page
  pub prev_page : IsBiased node.prev_page
  pub children : (k : ℕ) → k < num_children node → IsBiased (node.children k)

-- The elements behind the array header.
elements_bytes : BtreeNode → List ℕ
elements_bytes node =
    cbor_uint_bytes (biased_id node.next_page)
    ++ (cbor_uint_bytes (biased_id node.prev_page)
        ++ children_bytes node.children 0 (num_children node))

decode_elements-At :
    (b : Buffer) (elen : ℕ) (node into : BtreeNode) (decoded : ℕ)
    → HasIds node
    → into.is_internal ≡ node.is_internal
    → 1 + length (elements_bytes node) ≤ elen
    → At b 1 (elements_bytes node)
    → let r = decode_elements b elen into decoded (2 + num_children node) 1 in
      (r.next_page ≡ node.next_page)
      × (r.prev_page ≡ node.prev_page)
      × ((j : ℕ) → j < num_children node → r.children j ≡ node.children j)
unfolding decode_elements elements_bytes
decode_elements-At b elen node into decoded ids kind fits at =
    rw (first, second)
      (
        unbiased node.next_page ids.next_page,
        unbiased node.prev_page ids.prev_page,
        λ j h.
            ap
              (λ c.
                decode_children b elen into.children 0 c (1 + length next + length prev)
                  (biased_id node.prev_page) j)
              count
            ∙ decode_children-At b elen into.children node.children 0 (num_children node)
                (1 + length next + length prev) (biased_id node.prev_page) j
                (λ k lo hi. ids.children k (omega arith)) (omega (arith, outer, inner))
                (At-append-right b (1 + length next) (1 + length next + length prev) prev rest refl
                  behind)
                (omega arith) (omega arith),
      )
  where
    next : List ℕ
    next = cbor_uint_bytes (biased_id node.next_page)

    prev : List ℕ
    prev = cbor_uint_bytes (biased_id node.prev_page)

    rest : List ℕ
    rest = children_bytes node.children 0 (num_children node)

    outer : length (next ++ (prev ++ rest)) ≡ length next + length (prev ++ rest)
    outer = length-append next (prev ++ rest)

    inner : length (prev ++ rest) ≡ length prev + length rest
    inner = length-append prev rest

    behind : At b (1 + length next) (prev ++ rest)
    behind = At-append-right b 1 (1 + length next) next (prev ++ rest) refl at

    first : decode_cbor_uint b 1 elen decoded ≡ (1 + length next, biased_id node.next_page)
    first =
        decode_cbor_uint-At b elen 1 (biased_id node.next_page) decoded ids.next_page.1
          (omega (arith, outer)) (At-append-left b 1 next (prev ++ rest) at)

    second :
        decode_cbor_uint b (1 + length next) elen (biased_id node.next_page)
        ≡ (1 + length next + length prev, biased_id node.prev_page)
    second =
        decode_cbor_uint-At b elen (1 + length next) (biased_id node.prev_page)
          (biased_id node.next_page) ids.prev_page.1 (omega (arith, outer, inner))
          (At-append-left b (1 + length next) prev rest behind)

    count : (if into.is_internal then 2 + num_children node - 2 else 0) ≡ num_children node
    count = rw kind (ground arith)

-- The links and the children of a node come back from its metadata record, for page ids from -100000
-- up whose sum with the bias is a 32-bit integer, and up to four children.
pub decode_node_meta-encode_node_meta :
    (node into : BtreeNode) (out : Buffer) (decoded : ℕ)
    → HasIds node
    → into.is_internal ≡ node.is_internal
    → let (b, elen) = encode_node_meta node out in
      let r = decode_node_meta b elen into decoded in
      (r.next_page ≡ node.next_page)
      × (r.prev_page ≡ node.prev_page)
      × ((j : ℕ) → j < num_children node → r.children j ≡ node.children j)
unfolding encode_node_meta
decode_node_meta-encode_node_meta node into out decoded ids kind =
    rw dispatch (decode_elements-At b elen node into decoded ids kind (omega (arith, whole)) at.1)
  where
    b : Buffer
    b = copy_in out 0 (node_meta_bytes node)

    elen : ℕ
    elen = length (node_meta_bytes node)

    header : header_bytes 128 (2 + num_children node) ≡ (130 + num_children node) ∷ []
    header = unfold header_bytes in ground (arith, ids.few)

    bytes : node_meta_bytes node ≡ (130 + num_children node) ∷ elements_bytes node
    bytes = unfold node_meta_bytes elements_bytes in rw header refl

    at : At b 0 ((130 + num_children node) ∷ elements_bytes node)
    at = subst (At b 0) bytes (copied-At out 0 (node_meta_bytes node))

    whole : elen ≡ 1 + length (elements_bytes node)
    whole = rw bytes (omega arith)

    dispatch :
        decode_node_meta b elen into decoded
        ≡ decode_elements b elen into decoded (2 + num_children node) 1
    dispatch =
        unfold decode_node_meta in
        let small : (130 + num_children node) % 32 ≡ 2 + num_children node =
          omega (arith, ids.few) in
        rw (at.0, small) (ground (arith, ids.few))
