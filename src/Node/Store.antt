-- ===== src/Node/Store.antt =====
-- The store of a node to its page in src/btree_node.c, and the allocation of an empty node.
mod Tests
use garry.Base.{
  ℕ, zero, suc, ◌+◌, ◌*◌, ◌≤◌, ◌<◌, ◌^◌, ◌≡◌, refl, sym, ◌∙◌, ap, subst, List, [], ◌∷◌, ◌++◌,
  length, Option, none, some, Bool, true, false, ltb, ◌==◌, if◌then◌else◌, arith, append_assoc,
  append-nil, length-append, Bool-cases, inl, inr,
}
use mathlib.Core.Option.{some-injective}
use garry.Base.Buffer.{Buffer, read_bytes}
use garry.Endian.{read_int32}
use garry.Page.{page_init, page_insert, header_size, slot_size, max_slots, off_free_end}
use garry.Page.Layout.{IsPage, contents, page_init-IsPage, total}
use garry.Page.Insert.{page_insert_appends, fits}
use garry.Codec.{encode_kv}
use garry.Node.{BtreeNode, encode_node_meta, max_keys_per_node}
use garry.Node.Load.{NodeKind, internal, leaf, overflow, LoadedNode, is_internal_kind}
use garry.Pool.{BufferPool, pool_pin_page, pool_mark_dirty, pool_release_page}
use garry.Pool.Space.{pool_allocate}
use garry.Pool.Change.{write_page}

abbrev zeros : Buffer
zeros j = 0

-- The values of the enum.
unfoldable pub node_kind_code : NodeKind → ℕ
node_kind_code internal = 0
node_kind_code leaf = 1
node_kind_code overflow = 2

-- The bytes of the metadata record, copied to `meta_data`.
unfoldable pub meta_record : BtreeNode → List ℕ
meta_record node = let (buf, len) = encode_node_meta node zeros in read_bytes buf 0 len

-- The bytes of entry `i`, copied to `enc_data`; an internal node has no values.
unfoldable pub entry_record : LoadedNode → ℕ → List ℕ
entry_record loaded i =
    let value = if is_internal_kind loaded.kind then [] else loaded.node.values i in
    let (buf, len) = encode_kv (loaded.node.keys i) value zeros in read_bytes buf 0 len

-- The loop over the entries from `i` on with `rest` rounds left: the page, and whether every insert
-- succeeded.
unfoldable pub store_entries : LoadedNode → Buffer → ℕ → ℕ → Buffer × Bool
store_entries loaded page i zero = (page, true)
store_entries loaded page i (suc rest) =
    let rec = entry_record loaded i in
    if length rec == 0
    then store_entries loaded page (i + 1) rest
    else elim (page_insert page rec) [
      | none ↦ (page, false)
      | some (slot, page') ↦ store_entries loaded page' (i + 1) rest
    ]

abbrev pub stored_count : LoadedNode → ℕ
stored_count loaded =
    if ltb max_keys_per_node loaded.node.entry_count
    then max_keys_per_node
    else loaded.node.entry_count

unfoldable pub store_page : LoadedNode → ℕ → Buffer → Buffer × Bool
store_page loaded page_size page =
    let blank = page_init page (node_kind_code loaded.kind) loaded.level page_size in
    let node = record (loaded.node) { entry_count = stored_count loaded } in
    elim (page_insert blank (meta_record node)) [
      | none ↦ (blank, false)
      | some (slot, page') ↦ store_entries loaded page' 0 (stored_count loaded)
    ]

-- A page in which an insert fails is left as it is then, and is not marked dirty.
unfoldable pub store_node : BufferPool → ℕ → LoadedNode → BufferPool
store_node pool pid loaded = elim (pool_pin_page pool pid) [
  | none ↦ pool
  | some (pinned, i) ↦
      let (page, ok) = store_page loaded pool.page_size (pinned.slots i).page in
      let written = write_page pinned i (λ old. page) in
      if ok
      then pool_release_page (pool_mark_dirty written pid) pid
      else pool_release_page written pid
]

-- An empty page of a kind; `none` is -1.
abbrev pub allocate_node : NodeKind → BufferPool → BufferPool × Option ℕ
allocate_node kind pool =
    let (pool', result) = pool_allocate pool in
    elim result [
      | none ↦ (pool', none)
      | some pid ↦ elim (pool_pin_page pool' pid) [
        | none ↦ (pool', none)
        | some (pinned, i) ↦
            let init : Buffer → Buffer =
              λ page. page_init page (node_kind_code kind) 0 pool.page_size in
            (pool_release_page (pool_mark_dirty (write_page pinned i init) pid) pid, some pid)
      ]
    ]

unfoldable pub allocate_leaf : BufferPool → BufferPool × Option ℕ
allocate_leaf pool = allocate_node leaf pool

unfoldable pub allocate_internal : BufferPool → BufferPool × Option ℕ
allocate_internal pool = allocate_node internal pool

-- The records of the entries from `i` on.
unfoldable pub entry_records : LoadedNode → ℕ → ℕ → List (List ℕ)
entry_records loaded i zero = []
entry_records loaded i (suc rest) =
    let rec = entry_record loaded i in
    let more = entry_records loaded (i + 1) rest in if length rec == 0 then more else rec ∷ more

-- The page holds the records, in order.
pub record Contains (page : Buffer) (size : ℕ) (recs : List (List ℕ)) : Type 0 where
  pub is_page : IsPage page size (length recs)
  pub same : contents page (length recs) ≡ recs

-- The records and their slots fit in a page.
abbrev pub Fits : ℕ → List (List ℕ) → Type 0
Fits size recs =
    (length recs ≤ max_slots) × (header_size + length recs * slot_size + total recs ≤ size)

total-append : (xs ys : List (List ℕ)) → total (xs ++ ys) ≡ total xs + total ys
unfolding total
total-append [] ys = omega arith
total-append (x ∷ xs) ys = omega (arith, total-append xs ys)

-- An insert of a record that fits.
page_insert-Contains :
    (page : Buffer) (size : ℕ) (recs : List (List ℕ)) (rec : List ℕ)
    → Contains page size recs
    → Fits size (recs ++ (rec ∷ []))
    → (slot : ℕ) × (page' : Buffer) × (page_insert page rec ≡ some (slot, page'))
      × Contains page' size (recs ++ (rec ∷ []))
unfolding fits total
page_insert-Contains page size recs rec c f =
    let len = length-append recs (rec ∷ []) in
    let sum = total-append recs (rec ∷ []) in
    let used : total (contents page (length recs)) ≡ total recs = ap total c.same in
    let small : length rec < 2 ^ 31 = omega (arith, f.1, sum, len, c.is_page.size_max) in
    let room : fits (length recs) (read_int32 page off_free_end) (length rec) ≡ true =
      ground (arith, f.0, f.1, sum, len, used, c.is_page.packed) in
    let (page', inserted, is_page', same') = page_insert_appends c.is_page rec small room in
    (
      length recs,
      page',
      inserted,
      record {
        is_page = subst (λ n. IsPage page' size n) (sym len) is_page';
        same =
            subst (λ n. contents page' n ≡ recs ++ (rec ∷ [])) (sym len)
              (same' ∙ ap (λ l. l ++ (rec ∷ [])) c.same);
      },
    )

Fits-append : (size : ℕ) (xs ys : List (List ℕ)) → Fits size (xs ++ ys) → Fits size xs
Fits-append size xs ys f =
    let len = length-append xs ys in
    let sum = total-append xs ys in (omega (arith, f.0, len), omega (arith, f.1, len, sum))

store_entries-Contains :
    (loaded : LoadedNode) (size : ℕ) (page : Buffer) (recs : List (List ℕ)) (i rest : ℕ)
    → Contains page size recs
    → Fits size (recs ++ entry_records loaded i rest)
    → ((store_entries loaded page i rest).1 ≡ true)
      × Contains (store_entries loaded page i rest).0 size (recs ++ entry_records loaded i rest)
unfolding store_entries entry_records
store_entries-Contains loaded size page recs i zero c f =
    (refl, subst (λ l. Contains page size l) (sym (append-nil recs)) c)
store_entries-Contains loaded size page recs i (suc rest) c f =
    elim (Bool-cases (length (entry_record loaded i) == 0)) [
      | inl e ↦ rw e (
          store_entries-Contains loaded size page recs (i + 1) rest c
            (subst (λ l. Fits size (recs ++ l)) (rw e refl) f))
      | inr e ↦
          let rec : List ℕ = entry_record loaded i in
          let more : List (List ℕ) = entry_records loaded (i + 1) rest in
          let shift : recs ++ (rec ∷ more) ≡ (recs ++ (rec ∷ [])) ++ more =
            sym (append_assoc recs (rec ∷ []) more) in
          let f' : Fits size ((recs ++ (rec ∷ [])) ++ more) =
            subst (Fits size) shift (subst (λ l. Fits size (recs ++ l)) (rw e refl) f) in
          let (slot, page', inserted, c') =
            page_insert-Contains page size recs rec c
              (Fits-append size (recs ++ (rec ∷ [])) more f') in
          let next =
            store_entries-Contains loaded size page' (recs ++ (rec ∷ [])) (i + 1) rest c' f' in
          rw (e, inserted, shift) next
    ]

-- The records that the page of a node holds.
abbrev pub node_records : LoadedNode → List (List ℕ)
node_records loaded =
    meta_record (record (loaded.node) { entry_count = stored_count loaded })
    ∷ entry_records loaded 0 (stored_count loaded)

-- Where the records of a node fit in a page, `garry_store_node` writes a well-formed page that holds
-- the metadata record and the entries in order, and no insert fails.
pub store_page-Contains :
    (loaded : LoadedNode) (size : ℕ) (page : Buffer)
    → header_size ≤ size
    → size ≤ 65536
    → Fits size (node_records loaded)
    → ((store_page loaded size page).1 ≡ true)
      × Contains (store_page loaded size page).0 size (node_records loaded)
unfolding store_page contents
store_page-Contains loaded size page lo hi f =
    let rec : List ℕ = meta_record (record (loaded.node) { entry_count = stored_count loaded }) in
    let blank : Buffer = page_init page (node_kind_code loaded.kind) loaded.level size in
    let c : Contains blank size [] = record {
      is_page = page_init-IsPage page (node_kind_code loaded.kind) loaded.level size lo hi;
      same = refl;
    } in
    let (slot, page', inserted, c') =
      page_insert-Contains blank size [] rec c
        (Fits-append size (rec ∷ []) (entry_records loaded 0 (stored_count loaded)) f) in
    rw (inserted, store_page)
      (store_entries-Contains loaded size page' (rec ∷ []) 0 (stored_count loaded) c' f)
