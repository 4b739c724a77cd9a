-- ===== src/Node/Search/Pages.antt =====
-- The load of a node in src/btree_node.c over the pool: the node of the page that the pool shows.
use garry.Base.{ℕ, ◌≡◌, ◌⊎◌, refl, ◌∙◌, ap, Option, none, some, inl, inr}
use garry.Node.Load.{LoadedNode, empty_leaf, node_of_page, pin_node, load_node}
use garry.Pool.{BufferPool, pool_try_pin}
use garry.Pool.Find.{IsPool, view}
use garry.Pool.Refine.{
  Pinned, try_pin-Pinned, pin_page-Pinned, release_page-view, release_page-page_size,
}

pin_node-Pinned :
    (pool : BufferPool) (pid : ℕ) (pool' : BufferPool) (i : ℕ)
    → IsPool pool
    → pin_node pool pid ≡ some (pool', i)
    → Pinned pool pid pool' i
unfolding pin_node
pin_node-Pinned pool pid pool' i inv h = go (pool_try_pin pool pid) refl
  where
    go : (r : Option (BufferPool × ℕ)) → pool_try_pin pool pid ≡ r → Pinned pool pid pool' i
    go none e = pin_page-Pinned pool pid pool' i inv (rw (e, pin_node) at h)
    go (some r) e =
        let h' : some r ≡ some (pool', i) = rw (e, pin_node) at h in
        try_pin-Pinned pool pid pool' i inv (e ∙ h')

-- A load keeps the pool well formed and what it shows, and gives the node of the page that the pool
-- shows, or an empty leaf where the page cannot be pinned.
pub record Loads (pool : BufferPool) (pid decoded : ℕ) (r : BufferPool × LoadedNode) : Type 0 where
  pub inv : IsPool r.0
  pub page_size : r.0.page_size ≡ pool.page_size
  pub same_view : (q : ℕ) → view r.0 q ≡ view pool q
  pub loaded :
      (r.1 ≡ node_of_page (view pool pid) pool.page_size decoded)
      ⊎ ((r.1 ≡ empty_leaf) × (pin_node pool pid ≡ none))

pub load_node-Loads :
    (pool : BufferPool) (pid decoded : ℕ)
    → IsPool pool
    → Loads pool pid decoded (load_node pool pid decoded)
unfolding load_node
load_node-Loads pool pid decoded inv = go (pin_node pool pid) refl
  where
    go :
        (r : Option (BufferPool × ℕ))
        → pin_node pool pid ≡ r
        → Loads pool pid decoded (load_node pool pid decoded)
    go none e =
        rw (e, load_node)
          (record { inv = inv; page_size = refl; same_view = λ q. refl; loaded = inr (refl, e) })
    go (some (p, i)) e =
        let pinned = pin_node-Pinned pool pid p i inv e in
        let (inv', view') = release_page-view p pid pinned.inv in
        rw (e, load_node)
          (record {
            inv = inv';
            page_size = release_page-page_size p pid ∙ pinned.page_size;
            same_view = λ q. view' q ∙ pinned.same_view q;
            loaded = inl (ap (λ b. node_of_page b pool.page_size decoded) pinned.page);
          })
