-- ===== src/Node/Leaf.antt =====
-- Insertion into the arrays of a leaf, and what the searches in a node find.
use garry.Base.{
  ℕ, zero, suc, ◌+◌, ◌≤◌, ◌<◌, ◌≡◌, ◌≢◌, ◌⊎◌, refl, sym, ◌∙◌, List, subst, ltb→lt, none, some, true,
  false, leb, ltb, arith, inl, inr, Bool-cases, lt→ltb, ==_refl, ne→==,
}
use native.Mathlib.Decide.{ℕ_discrete}
use garry.Key.{Sign, less, equal, greater, byte_compare}
use garry.Compress.{byte_equal}
use garry.Compress.RoundTrip.{byte_equal→eq, byte_equal_refl}
use garry.Node.{
  BtreeNode, max_keys_per_node, set_at, shift_right, leaf_insert, find_from, leaf_find, is_less,
  child_from, internal_find,
}

-- The loop leaves the entries before `idx` and behind its start alone.
shift_right-kept :
    (a : ℕ → List ℕ) (idx i j : ℕ) → (j < idx) ⊎ (i < j) → shift_right a idx i j ≡ a j
unfolding shift_right
shift_right-kept a idx zero j h = refl
shift_right-kept a idx (suc i) j h = elim (Bool-cases (ltb idx (suc i))) [
  | inl e ↦ rw e (
      shift_right-kept (set_at a (suc i) (a i)) idx i j (weaker h)
      ∙ rw (ne→== j (suc i) (differ h (ltb→lt idx (suc i) e))) refl)
  | inr e ↦ rw e refl
]
  where
    weaker : (j < idx) ⊎ (suc i < j) → (j < idx) ⊎ (i < j)
    weaker (inl p) = inl p
    weaker (inr p) = inr (omega arith)

    differ : (j < idx) ⊎ (suc i < j) → idx < suc i → j ≢ suc i
    differ (inl p) q e = omega arith
    differ (inr p) q e = omega arith

-- The loop moves the entries from `idx` on one to the right.
shift_right-moved :
    (a : ℕ → List ℕ) (idx i j : ℕ) → idx ≤ j → j < i → shift_right a idx i (suc j) ≡ a j
unfolding shift_right
shift_right-moved a idx zero j lo hi = absurd (omega arith)
shift_right-moved a idx (suc i) j lo hi =
    rw (lt→ltb idx (suc i) (omega arith)) (elim (ℕ_discrete j i) [
      | yes e ↦
          shift_right-kept (set_at a (suc i) (a i)) idx i (suc j) (inr (omega arith))
          ∙ rw (e, ==_refl (suc i)) refl
      | no ne ↦
          shift_right-moved (set_at a (suc i) (a i)) idx i j lo (omega (arith, ne))
          ∙ rw (ne→== j (suc i) (λ e. omega arith)) refl
    ])

-- A pair inserted into a leaf that has room stands at its index; the entries before keep their
-- places, and those from the index on move by one.
pub leaf_insert_lem :
    (node : BtreeNode) (key value : List ℕ) (idx : ℕ)
    → node.entry_count < max_keys_per_node
    → idx ≤ node.entry_count
    → (r : BtreeNode) × (leaf_insert node key value idx ≡ some r)
      × (r.entry_count ≡ node.entry_count + 1)
      × ((r.keys idx ≡ key) × (r.values idx ≡ value))
      × ((j : ℕ) → j < idx → (r.keys j ≡ node.keys j) × (r.values j ≡ node.values j))
      × ((j : ℕ)
          → idx ≤ j
          → j < node.entry_count
          → (r.keys (suc j) ≡ node.keys j) × (r.values (suc j) ≡ node.values j))
unfolding leaf_insert
leaf_insert_lem node key value idx room h = (
  record {
    is_internal = node.is_internal;
    keys = set_at (shift_right node.keys idx node.entry_count) idx key;
    values = set_at (shift_right node.values idx node.entry_count) idx value;
    children = node.children;
    next_page = node.next_page;
    prev_page = node.prev_page;
    entry_count = node.entry_count + 1;
  },
  rw (full) refl,
  refl,
  (rw (==_refl idx) refl, rw (==_refl idx) refl),
  (λ j lt. (before node.keys key j lt, before node.values value j lt)),
  (λ j lo hi. (behind node.keys key j lo hi, behind node.values value j lo hi)),
)
  where
    full : leb max_keys_per_node node.entry_count ≡ false
    full = ground arith

    before :
        (a : ℕ → List ℕ) (x : List ℕ) (j : ℕ)
        → j < idx
        → set_at (shift_right a idx node.entry_count) idx x j ≡ a j
    before a x j lt =
        rw (ne→== j idx (λ e. omega arith)) (shift_right-kept a idx node.entry_count j (inl lt))

    behind :
        (a : ℕ → List ℕ) (x : List ℕ) (j : ℕ)
        → idx ≤ j
        → j < node.entry_count
        → set_at (shift_right a idx node.entry_count) idx x (suc j) ≡ a j
    behind a x j lo hi =
        rw (ne→== (suc j) idx (λ e. omega arith)) (shift_right-moved a idx node.entry_count j lo hi)

byte_equal-false : (a b : List ℕ) → byte_equal a b ≡ false → a ≢ b
byte_equal-false a b h e = let t : byte_equal a b ≡ true = rw e (byte_equal_refl b) in cc

-- `find_from` gives the first index with the key.
find_from-some :
    (keys : ℕ → List ℕ) (key : List ℕ) (i rest k : ℕ)
    → find_from keys key i rest ≡ some k
    → (i ≤ k) × (k < i + rest) × (keys k ≡ key) × ((j : ℕ) → i ≤ j → j < k → keys j ≢ key)
unfolding find_from
find_from-some keys key i zero k h = cc
find_from-some keys key i (suc rest) k h = elim (Bool-cases (byte_equal (keys i) key)) [
  | inl e ↦
      let same : i ≡ k = ground arith in
      (
        omega arith,
        omega arith,
        subst (λ n. keys n ≡ key) same (byte_equal→eq (keys i) key e),
        λ j lo hi. absurd (omega arith),
      )
  | inr e ↦
      let later : find_from keys key (i + 1) rest ≡ some k = ground arith in
      let (lo, hi, found, first) = find_from-some keys key (i + 1) rest k later in
      (
        omega arith,
        omega arith,
        found,
        λ j a b. elim (ℕ_discrete j i) [
          | yes at ↦ subst (λ n. keys n ≢ key) (sym at) (byte_equal-false (keys i) key e)
          | no ne ↦ first j (omega (arith, ne)) b
        ],
      )
]

find_from-none :
    (keys : ℕ → List ℕ) (key : List ℕ) (i rest : ℕ)
    → find_from keys key i rest ≡ none
    → (j : ℕ) → i ≤ j
    → j < i + rest
    → keys j ≢ key
unfolding find_from
find_from-none keys key i zero h j lo hi = absurd (omega arith)
find_from-none keys key i (suc rest) h j lo hi = elim (Bool-cases (byte_equal (keys i) key)) [
  | inl e ↦ absurd (ground arith)
  | inr e ↦
      let later : find_from keys key (i + 1) rest ≡ none = ground arith in
      elim (ℕ_discrete j i) [
        | yes at ↦ subst (λ n. keys n ≢ key) (sym at) (byte_equal-false (keys i) key e)
        | no ne ↦ find_from-none keys key (i + 1) rest later j (omega (arith, ne)) (omega arith)
      ]
]

-- `garry_leaf_find` gives the first entry with the key, and -1 only if no entry has it.
pub leaf_find_lem :
    (node : BtreeNode) (key : List ℕ)
    → ((k : ℕ)
        → leaf_find node key ≡ some k
        → (k < node.entry_count) × (node.keys k ≡ key) × ((j : ℕ) → j < k → node.keys j ≢ key))
      × (leaf_find node key ≡ none → (j : ℕ) → j < node.entry_count → node.keys j ≢ key)
unfolding leaf_find
leaf_find_lem node key = (
  λ k h.
      let (lo, hi, found, first) = find_from-some node.keys key 0 node.entry_count k h in
      (omega arith, found, λ j lt. first j (omega arith) lt),
  λ h j lt. find_from-none node.keys key 0 node.entry_count h j (omega arith) (omega arith),
)

is_less→eq : (s : Sign) → is_less s ≡ true → s ≡ less
is_less→eq less h = refl
is_less→eq equal h = cc
is_less→eq greater h = cc

is_less→ne : (s : Sign) → is_less s ≡ false → s ≢ less
is_less→ne less h e = cc
is_less→ne equal h e = cc
is_less→ne greater h e = cc

-- `child_from` gives the first index whose key is above the searched one, or the end.
child_from_lem :
    (keys : ℕ → List ℕ) (key : List ℕ) (i rest : ℕ)
    → let c = child_from keys key i rest in
      (i ≤ c)
      × (c ≤ i + rest)
      × ((j : ℕ) → i ≤ j → j < c → byte_compare key (keys j) ≢ less)
      × (c < i + rest → byte_compare key (keys c) ≡ less)
unfolding child_from
child_from_lem keys key i zero =
    (omega arith, omega arith, λ j lo hi. absurd (omega arith), λ h. absurd (omega arith))
child_from_lem keys key i (suc rest) = elim (Bool-cases (is_less (byte_compare key (keys i)))) [
  | inl e ↦ rw e (
    omega arith,
    omega arith,
    (λ j lo hi. absurd (omega arith)),
    λ h. is_less→eq (byte_compare key (keys i)) e,
  )
  | inr e ↦
      let (lo, hi, below, above) = child_from_lem keys key (i + 1) rest in
      rw e (
        omega arith,
        omega arith,
        (λ j a b. elim (ℕ_discrete j i) [
          | yes at ↦
              subst (λ n. byte_compare key (keys n) ≢ less) (sym at)
                (is_less→ne (byte_compare key (keys i)) e)
          | no ne ↦ below j (omega (arith, ne)) b
        ]),
        λ h. above (omega arith),
      )
]

-- `garry_internal_find` gives the child to go to: no key before it is above the searched key, and the
-- key at it, if it is not the last child, is.
pub internal_find_lem :
    (node : BtreeNode) (key : List ℕ)
    → let c = internal_find node key in
      (c ≤ node.entry_count)
      × ((j : ℕ) → j < c → byte_compare key (node.keys j) ≢ less)
      × (c < node.entry_count → byte_compare key (node.keys c) ≡ less)
unfolding internal_find
internal_find_lem node key =
    let (lo, hi, below, above) = child_from_lem node.keys key 0 node.entry_count in
    (omega arith, (λ j h. below j (omega arith) h), λ h. above (omega arith))
