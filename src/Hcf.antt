-- ===== src/Hcf.antt =====
-- kernel/src/hcf.c, kernel/include/hcf_internal.h: hop-count filtering. A binary trie over the
-- upper 24 bits of an address keeps the TTL and the hop count that were learnt for it; readers walk
-- it under RCU while a work item replaces the path to a leaf by a copy.
pub mod Path
pub mod Copy
pub mod Rcu
pub mod Register
pub mod Lookup
pub mod Grace
pub mod Ttl
pub mod Swap
pub mod History
pub mod Fault
pub mod System
pub mod Log
use librefw.Base.{
  ℕ, zero, suc, ◌+◌, ◌-◌, ◌%◌, true, false, Option, none, some, List, [], ◌∷◌, ◌++◌, ltb, leb, ◌==◌,
  if◌then◌else◌,
}
use librefw.Base.Int.{ℤ, pos, minus}
use librefw.Mem.{
  Ptr, null, Mem, Run, ok, fault, Cmd, pure, ◌>>=◌, ◌>>◌, node_of, load, store, set_child, set_info,
  get_child, cache_free, Cache, zalloc,
}
use librefw.Word.{u8_mod, bit}

-- The fields of `struct hcf_node` besides the children (and the RCU head).
pub record HcfInfo : Type 0 where
  pub hc : ℕ
  pub ttl : ℕ

abbrev pub blank : HcfInfo
blank = record { hc = 0; ttl = 0 }

-- `struct hcf_add_node_task`
pub record Task : Type 0 where
  pub source_ip : ℕ
  pub ttl : ℕ

-- `struct hcf_ip_ctx`: what is sent to the listeners about a new address.
pub record IpCtx : Type 0 where
  pub source_ip : ℕ
  pub ttl : ℕ
  pub hc : ℕ

-- `struct hcf_state` with the slab cache's memory, and the nodes that were handed to `call_rcu` and
-- whose callbacks have not run.
pub record HcfState : Type 0 where
  pub tree : Ptr
  pub mem : Mem HcfInfo
  pub rcu : List Ptr

unfoldable pub hcf_get_initial_ttl : ℕ → ℕ
hcf_get_initial_ttl ttl = if leb ttl 64 then 64 else if leb ttl 128 then 128 else 255

-- The hop count as the `u8` field holds it.
unfoldable pub hop_count : ℕ → ℕ
hop_count ttl = (hcf_get_initial_ttl ttl + u8_mod - ttl) % u8_mod

unfoldable pub hcf_create_node : Cache HcfInfo → Cmd HcfInfo Ptr
hcf_create_node k = do
  node ← zalloc k
  if node == null then pure null else do store node (node_of null null blank); pure node

unfoldable pub hcf_clone_node : Cache HcfInfo → Ptr → Cmd HcfInfo Ptr
hcf_clone_node k old = do
  new_node ← zalloc k
  if new_node == null then pure null else do c ← load old; store new_node c; pure new_node

-- The two loops of `hcf_register_ip_work`, by the number of bits above bit 7 that remain. The
-- first stops where the old tree has no child, and returns the bits that remain.
unfoldable pub clone_path :
    Cache HcfInfo → ℕ → ℕ → Ptr → Ptr → List Ptr → Cmd HcfInfo (ℕ × Ptr × List Ptr)
clone_path k ip zero runner new_runner nodes_to_free = pure (0, new_runner, nodes_to_free)
clone_path k ip (suc n) runner new_runner nodes_to_free = do
  old_child ← get_child runner (bit ip (n + 8))
  if old_child == null then pure (suc n, new_runner, nodes_to_free) else (do
    new_child ← hcf_clone_node k old_child
    set_child new_runner (bit ip (n + 8)) new_child
    clone_path k ip n old_child new_child (nodes_to_free ++ old_child ∷ []))

unfoldable pub create_leaf : Cache HcfInfo → ℕ → ℕ → Ptr → ℕ → Cmd HcfInfo (Ptr × ℕ)
create_leaf k ip zero new_runner nodes_created = pure (new_runner, nodes_created)
create_leaf k ip (suc n) new_runner nodes_created = do
  q ← hcf_create_node k
  set_child new_runner (bit ip (n + 8)) q
  create_leaf k ip n q (nodes_created + 1)

-- The copy of the path, from the root of the tree: the new root, the nodes to free, the number of nodes
-- created, and the leaf.
unfoldable pub copy_path : Cache HcfInfo → Task → Ptr → Cmd HcfInfo (Ptr × List Ptr × ℕ × Ptr)
copy_path k task runner = do
  new_root ← hcf_clone_node k runner
  (remaining_bits, new_runner, nodes_to_free) ←
      clone_path k task.source_ip 24 runner new_root (runner ∷ [])
  (new_runner', nodes_created) ← create_leaf k task.source_ip remaining_bits new_runner 0
  pure (new_root, nodes_to_free, nodes_created, new_runner')

-- What the work item does to memory under the mutex
unfoldable pub register_path : Cache HcfInfo → Task → Ptr → Cmd HcfInfo (Ptr × List Ptr × ℕ × Ptr)
register_path k task runner = do
  (new_root, nodes_to_free, nodes_created, new_runner) ← copy_path k task runner
  set_info new_runner (record { hc = hop_count task.ttl; ttl = task.ttl })
  pure (new_root, nodes_to_free, nodes_created, new_runner)

-- The message to the listeners: the leaf is read after the mutex was released.
unfoldable pub report_learnt : Task → Ptr → ℕ → Cmd HcfInfo (Option IpCtx)
report_learnt task new_runner nodes_created =
    if ltb 0 nodes_created
    then (do
      c ← load new_runner
      pure (some (record { source_ip = task.source_ip; ttl = c.info.ttl; hc = c.info.hc })))
    else pure none

-- The work item, when nothing else runs between its part under the mutex and its end: the state after
-- it, and the message. `none` is a crash or undefined behaviour.
unfoldable pub hcf_register_ip_work :
    Cache HcfInfo → Task → HcfState → Option (HcfState × Option IpCtx)
hcf_register_ip_work k task st =
    if st.tree == null then some (st, none) else elim (register_path k task st.tree st.mem) [
      | fault ↦ none
      | ok (new_root, nodes_to_free, nodes_created, new_runner) m ↦
          elim (report_learnt task new_runner nodes_created m) [
            | fault ↦ none
            | ok log _ ↦
                some (record { tree = new_root; mem = m; rcu = st.rcu ++ nodes_to_free }, log)
          ]
    ]

unfoldable pub hcf_free_node_rcu : Ptr → Cmd HcfInfo (Unit {0})
hcf_free_node_rcu node = cache_free node

-- The end of a grace period: the callbacks run in the order of their registration.
unfoldable pub run_callbacks : List Ptr → Cmd HcfInfo (Unit {0})
run_callbacks [] = pure tt
run_callbacks (p ∷ ps) = hcf_free_node_rcu p >> run_callbacks ps

-- The recursion on the stack; `fuel` bounds its depth.
unfoldable pub hcf_free_node : ℕ → Ptr → Cmd HcfInfo (Unit {0})
hcf_free_node zero node = λ _. fault
hcf_free_node (suc fuel) node = if node == null then pure tt else (do
  l ← get_child node false
  hcf_free_node fuel l
  r ← get_child node true
  hcf_free_node fuel r
  cache_free node)

-- The old tree is freed after `synchronize_rcu`, when no reader is left in it.
unfoldable pub hcf_swap_tree : ℕ → Ptr → HcfState → Option HcfState
hcf_swap_tree fuel new_tree st =
    if st.tree == null
    then some (record st { tree = new_tree })
    else elim (hcf_free_node fuel st.tree st.mem) [
      | fault ↦ none
      | ok _ m ↦ some (record st { tree = new_tree; mem = m })
    ]

-- The loop of `hcf_lookup_tree`; `none` where it meets NULL.
unfoldable pub lookup_walk : ℕ → ℕ → Ptr → Cmd HcfInfo (Option HcfInfo)
lookup_walk ip zero runner = do c ← load runner; pure (some c.info)
lookup_walk ip (suc n) runner = do
  next ← get_child runner (bit ip (n + 8))
  if next == null then pure none else lookup_walk ip n next

-- `abs(a - b)`
abbrev pub abs_diff : ℕ → ℕ → ℕ
abs_diff a b = if leb b a then a - b else b - a

-- The verdict on the TTL of a packet, given what the tree has for its source.
unfoldable pub verdict : ℕ → Option HcfInfo → ℤ
verdict ttl none = minus 1
verdict ttl (some c) =
    if leb (abs_diff (hcf_get_initial_ttl ttl - ttl) c.hc) 2 then pos 1 else pos 0

unfoldable pub hcf_lookup_tree : ℕ → ℕ → HcfState → Run HcfInfo ℤ
hcf_lookup_tree source_ip ttl st =
    if st.tree == null
    then ok (minus 1) st.mem
    else (lookup_walk source_ip 24 st.tree >>= λ c. pure (verdict ttl c)) st.mem
