-- ===== src/Node/Search.antt =====
-- The search from the root of src/btree_search.c ends, and reads the store of pages that the pool
-- shows.
mod Pages
mod Tests
use garry.Base.{
  ℕ, suc, ◌+◌, ◌≤◌, ◌≡◌, ◌⊎◌, List, Option, none, some, Bool, true, false, ◌==◌, if◌then◌else◌,
  Bool-cases,
}
use garry.Base.Buffer.{Buffer}
use garry.Node.{BtreeNode, internal_find}
use garry.Node.Load.{
  NodeKind, internal, leaf, overflow, LoadedNode, node_of_page, pin_node, leaf_value,
  leaf_find_search,
}
use garry.Pool.{BufferPool}
use garry.Pool.Find.{IsPool, view}

-- In a store of pages the search of `key` from page `pid` leads to the result `v` in at most `h`
-- steps down.
pub data Leads (pages : ℕ → Buffer) (page_size decoded : ℕ) (key : List ℕ)
    : ℕ → Option (List ℕ) → ℕ → Type 0 where
  at_leaf :
      {pid h : ℕ}
      → (node_of_page (pages pid) page_size decoded).kind ≡ leaf
      → Leads pages page_size decoded key pid
          (leaf_value (node_of_page (pages pid) page_size decoded).node key)
          h
  at_overflow :
      {pid h : ℕ}
      → (node_of_page (pages pid) page_size decoded).kind ≡ overflow
      → Leads pages page_size decoded key pid none h
  no_entries :
      {pid h : ℕ}
      → (node_of_page (pages pid) page_size decoded).kind ≡ internal
      → ((node_of_page (pages pid) page_size decoded).node.entry_count == 0) ≡ true
      → Leads pages page_size decoded key pid none h
  down :
      {pid h : ℕ} {v : Option (List ℕ)}
      → (node_of_page (pages pid) page_size decoded).kind ≡ internal
      → ((node_of_page (pages pid) page_size decoded).node.entry_count == 0) ≡ false
      → Leads pages page_size decoded key
          ((node_of_page (pages pid) page_size decoded).node.children
            (internal_find (node_of_page (pages pid) page_size decoded).node key))
          v
          h
      → Leads pages page_size decoded key pid v (suc h)

-- The descent towards `key` from page `pid` comes to the page `q`.
pub data Descends (pages : ℕ → Buffer) (page_size decoded : ℕ) (key : List ℕ) : ℕ → ℕ → Type 0 where
  at_page : {pid : ℕ} → Descends pages page_size decoded key pid pid
  to_child :
      {pid q : ℕ}
      → (node_of_page (pages pid) page_size decoded).kind ≡ internal
      → ((node_of_page (pages pid) page_size decoded).node.entry_count == 0) ≡ false
      → Descends pages page_size decoded key
          ((node_of_page (pages pid) page_size decoded).node.children
            (internal_find (node_of_page (pages pid) page_size decoded).node key))
          q
      → Descends pages page_size decoded key pid q

-- A page that the descent comes to could not be pinned, in a pool that shows the same pages.
pub record PinFails (pages : ℕ → Buffer) (page_size decoded : ℕ) (key : List ℕ) (pid : ℕ)
    : Type 0 where
  pub pool : BufferPool
  pub page_id : ℕ
  pub inv : IsPool pool
  pub same_view : (q : ℕ) → view pool q ≡ pages q
  pub reached : Descends pages page_size decoded key pid page_id
  pub fails : pin_node pool page_id ≡ none

-- The search has ended: the pool is well formed and shows the pages, and the result is `v`, or that
-- nothing is found, and then a page that the descent comes to could not be pinned.
pub record Found (pages : ℕ → Buffer) (page_size decoded : ℕ) (key : List ℕ) (pid : ℕ)
    (v : Option (List ℕ)) (out : Option (BufferPool × Option (List ℕ))) : Type 0 where
  pub pool' : BufferPool
  pub value : Option (List ℕ)
  pub ends : out ≡ some (pool', value)
  pub inv : IsPool pool'
  pub same_view : (q : ℕ) → view pool' q ≡ pages q
  pub right : (value ≡ v) ⊎ ((value ≡ none) × PinFails pages page_size decoded key pid)

-- A round of the search after its load.
abbrev after_load : ℕ → List ℕ → ℕ → BufferPool × LoadedNode → Option (BufferPool × Option (List ℕ))
after_load fuel key decoded (pool, loaded) = elim loaded.kind [
  | leaf ↦ some (pool, leaf_value loaded.node key)
  | overflow ↦ some (pool, none)
  | internal ↦
      if loaded.node.entry_count == 0
      then some (pool, none)
      else leaf_find_search fuel pool (loaded.node.children (internal_find loaded.node key)) key
          decoded
]
