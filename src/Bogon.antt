-- ===== src/Bogon.antt =====
-- kernel/src/bogon.c, kernel/include/bogon.h: the bogon filter. A binary trie over address prefixes
-- marks the nodes at which a prefix of the list ends; a packet is a bogon's if a marked node
-- lies on the path of its source address.
pub mod Spec
pub mod Load
pub mod Lookup
pub mod Cover
pub mod Set
pub mod Free
pub mod Init
pub mod Long
pub mod Crash
pub mod Waiting
pub mod Forest
use librefw.Base.{
  ℕ, zero, suc, ◌+◌, Bool, true, false, ◌&&◌, ◌||◌, none, some, List, [], ◌∷◌, ◌++◌, leb, ◌==◌,
  if◌then◌else◌,
}
use mathlib.Core.Option
use mathlib.Core.Option.{Option}
use librefw.Base.Int.{ℤ, pos, minus, e_inval, e_nomem}
use librefw.Mem.{
  Ptr, null, Mem, Run, ok, fault, Cmd, pure, ◌>>=◌, ◌>>◌, node_of, child, load, store, set_child,
  set_info, cache_free, get_child, Cache, zalloc,
}
use librefw.Netlink.{Nla, Nest, nla_get_u32, nla_get_u8}
use librefw.Netlink.Attr
use librefw.Word.{in4_get_bit, get_unaligned_be32}

-- `struct lfw_ip_prefix`
pub record IpPrefix : Type 0 where
  pub ip_prefix : ℕ
  pub ip_prefix_len : ℕ

-- `struct lfw_bg_state`: the root of the tree that readers see, the memory of the slab cache (a node's
-- payload is `is_bogon`), and the roots of the trees that wait for `lfw_free_bg_tree`.
pub record BgState : Type 0 where
  pub root : Ptr
  pub mem : Mem ℕ
  pub rcu : List Ptr

unfoldable pub lfw_create_node : Cache ℕ → Cmd ℕ Ptr
lfw_create_node k = do
  node ← zalloc k
  if node == null then pure null else do store node (node_of null null 0); pure node

-- `fuel` bounds the depth of the stack.
unfoldable pub lfw_free_bg_node : ℕ → Ptr → Cmd ℕ (Unit {0})
lfw_free_bg_node zero node = λ _. fault
lfw_free_bg_node (suc fuel) node = if node == null then pure tt else (do
  l ← get_child node false
  lfw_free_bg_node fuel l
  r ← get_child node true
  lfw_free_bg_node fuel r
  cache_free node)

-- The callback for an old tree, by its root.
unfoldable pub lfw_free_bg_tree : ℕ → Ptr → Cmd ℕ (Unit {0})
lfw_free_bg_tree fuel tree_root = lfw_free_bg_node fuel tree_root

-- The walk of `lfw_load_bg_tree` for one prefix, from bit `j` on, with `n` bits to go. At bit 32 the
-- shift in `in4_get_bit` is undefined and `ip_path` is full.
unfoldable pub load_walk : Cache ℕ → ℕ → ℕ → ℕ → Ptr → ℕ → Cmd ℕ (Ptr × ℕ)
load_walk k ip j zero runner num_nodes = pure (runner, num_nodes)
load_walk k ip j (suc n) runner num_nodes = if leb 32 j then (λ _. fault) else (do
  c ← load runner
  if child c (in4_get_bit ip j == 1) == null
      then (do
        q ← lfw_create_node k
        set_child runner (in4_get_bit ip j == 1) q
        load_walk k ip (suc j) n q (num_nodes + 1))
      else load_walk k ip (suc j) n (child c (in4_get_bit ip j == 1)) num_nodes)

-- One round of the loop over the prefixes. (The test of `tree->root` inside the walk never holds: it
-- was made before the loop, and the root is not assigned again.) The message at its end prints
-- `ip_path` with `%s`: 32 bits leave no room for the terminating NUL, and the read goes past the
-- array. Nothing else of the messages of this file is modelled.
unfoldable pub load_prefix : Cache ℕ → IpPrefix → Ptr → Cmd ℕ ℕ
load_prefix k p tree_root = do
  (runner, num_nodes) ← load_walk k (get_unaligned_be32 p.ip_prefix) 0 p.ip_prefix_len tree_root 0
  set_info runner 1
  if leb 32 p.ip_prefix_len then (λ _. fault) else pure num_nodes

unfoldable pub load_prefixes : Cache ℕ → List IpPrefix → Ptr → Cmd ℕ (Unit {0})
load_prefixes k [] tree_root = pure tt
load_prefixes k (p ∷ ps) tree_root = do _ ← load_prefix k p tree_root; load_prefixes k ps tree_root

-- `tree_allocated` says whether `kzalloc` returned the `struct lfw_bg_tree`. `none` is
-- undefined behaviour or a crash.
unfoldable pub lfw_load_bg_tree : Cache ℕ → Bool → List IpPrefix → BgState → Option BgState
lfw_load_bg_tree k false prefixes st = some st
lfw_load_bg_tree k true prefixes st = elim (lfw_create_node k st.mem) [
  | fault ↦ none
  | ok tree_root m ↦
      if tree_root == null
      then some (record st { mem = m })
      else elim (load_prefixes k prefixes tree_root m) [
        | fault ↦ none
        | ok _ m' ↦ some (record { root = tree_root; mem = m'; rcu = st.rcu ++ st.root ∷ [] })
      ]
]

-- The loop of `lfw_lookup_bg_tree` from bit `i` on, with `n` bits to go.
unfoldable pub lookup_walk : ℕ → ℕ → ℕ → Ptr → Cmd ℕ ℤ
lookup_walk ip i zero runner = do c ← load runner; pure (if c.info == 0 then pos 0 else pos 1)
lookup_walk ip i (suc n) runner = do
  c ← load runner
  if c.info == 0
      then (if child c (in4_get_bit ip i == 1) == null
          then pure (minus 2)
          else lookup_walk ip (suc i) n (child c (in4_get_bit ip i == 1)))
      else pure (pos 1)

unfoldable pub lfw_lookup_bg_tree : ℕ → BgState → Run ℕ ℤ
lfw_lookup_bg_tree ip st =
    if st.root == null then ok (minus 1) st.mem else lookup_walk ip 0 32 st.root st.mem

-- The `switch` on one nested attribute, into the entry that `runner` points at.
unfoldable pub set_prefix_field : Nla → IpPrefix → IpPrefix
set_prefix_field a p =
    if a.nla_type == Attr.n_ip_addr
    then record p { ip_prefix = nla_get_u32 a }
    else if a.nla_type == Attr.n_ip_prefix_len
    then record p { ip_prefix_len = nla_get_u8 a }
    else p

unfoldable pub set_prefix : List Nla → IpPrefix → IpPrefix
set_prefix [] p = p
set_prefix (a ∷ as') p = set_prefix as' (set_prefix_field a p)

-- Does the `switch` write to the entry?
unfoldable pub writes_prefix : List Nla → Bool
writes_prefix [] = false
writes_prefix (a ∷ as') =
    a.nla_type == Attr.n_ip_addr || a.nla_type == Attr.n_ip_prefix_len || writes_prefix as'

-- The loop over the attributes of the message: `runner` goes through the buffer, one entry for each
-- prefix attribute. `none` is a write past the entries that `vzalloc` was asked for, which is undefined
-- behaviour, whether or not the page behind them is mapped.
unfoldable pub fill_buffer : List Nest → List IpPrefix → Option (List IpPrefix)
fill_buffer [] buf = some buf
fill_buffer (a ∷ as') [] =
    if a.nest_type == Attr.ip_prefix && writes_prefix a.nested then none else fill_buffer as' []
fill_buffer (a ∷ as') (p ∷ buf) =
    let rest = fill_buffer as' buf in
    let skip = fill_buffer as' (p ∷ buf) in
    if a.nest_type == Attr.ip_prefix
    then Option.map (λ ps. set_prefix a.nested p ∷ ps) rest
    else skip

-- `vzalloc` of `n` entries
unfoldable pub zeroed_prefixes : ℕ → List IpPrefix
zeroed_prefixes zero = []
zeroed_prefixes (suc n) = record { ip_prefix = 0; ip_prefix_len = 0 } ∷ zeroed_prefixes n

-- `num_prefix` is the number attribute, 0 by default; `buffer_allocated` and `tree_allocated` say
-- whether `vzalloc` and `kzalloc` succeed. The state and the return code; `none` is undefined
-- behaviour or a crash.
unfoldable pub lfw_bogon_set :
    Cache ℕ
    → (buffer_allocated tree_allocated : Bool) → ℕ
    → List Nest
    → BgState
    → Option (BgState × ℤ)
lfw_bogon_set k buffer_allocated tree_allocated num_prefix attrs st =
    if num_prefix == 0
    then some (st, e_inval)
    else if buffer_allocated
    then elim (fill_buffer attrs (zeroed_prefixes num_prefix)) [
      | none ↦ none
      | some prefixes ↦
          Option.map (λ st'. (st', pos 0)) (lfw_load_bg_tree k tree_allocated prefixes st)
    ]
    else some (st, e_nomem)
