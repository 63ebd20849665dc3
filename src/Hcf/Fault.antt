-- ===== src/Hcf/Fault.antt =====
-- `hcf_register_ip_work` where the slab cache has no memory: the code tests neither of its two calls.
use librefw.Base.{
  ℕ, suc, ◌+◌, ◌≡◌, ◌≢◌, refl, sym, ap, ◌∙◌, inl, inr, Bool, none, some, List, [], ◌∷◌, ◌==◌,
  Bool-cases,
}
use librefw.Mem.{
  Ptr, null, Mem, Node, ok, fault, Cmd, pure, ◌>>=◌, read, child, load, set_child, zalloc, Cache,
}
use librefw.Mem.Tree.{Tree, node}
use librefw.Mem.Grow.{not_null, get_child-cell}
use librefw.Word.{bit}
use librefw.Hcf.{
  HcfInfo, Task, HcfState, hcf_create_node, hcf_clone_node, clone_path, create_leaf, copy_path,
  register_path, hcf_register_ip_work,
}
use librefw.Hcf.Register.{IsHcf}

module _ (k : Cache HcfInfo) (m : Mem HcfInfo) (full : k.next m ≡ null) where
  zalloc-null : zalloc k m ≡ ok null m
  unfolding zalloc
  zalloc-null = rw full refl

  clone-null : (q : Ptr) → hcf_clone_node k q m ≡ ok null m
  unfolding hcf_clone_node
  clone-null q = rw (zalloc-null, ◌>>=◌) refl

  pub create-null : hcf_create_node k m ≡ ok null m
  unfolding hcf_create_node
  create-null = rw (zalloc-null, ◌>>=◌) refl

  set_child-null : (b : Bool) (q : Ptr) → set_child null b q m ≡ fault
  unfolding set_child load
  set_child-null b q = refl

  create_leaf-fault : (ip n c : ℕ) → create_leaf k ip (suc n) null c m ≡ fault
  unfolding create_leaf
  create_leaf-fault ip n c = rw (create-null, ◌>>=◌, set_child-null (bit ip (n + 8)) null)

  leaf_bind-fault :
      {A : Type 0} (ip n c : ℕ) (g : Ptr × ℕ → Cmd HcfInfo A)
      → (create_leaf k ip (suc n) null c >>= g) m ≡ fault
  leaf_bind-fault ip n c g = rw (create_leaf-fault ip n c, ◌>>=◌) refl

  paths-fault :
      {A : Type 0} (ip n : ℕ) (q : Ptr) (c : Node HcfInfo) (free : List Ptr)
      (f : ℕ × Ptr × List Ptr → Ptr × ℕ → Cmd HcfInfo A)
      → q ≢ null
      → read m q ≡ some c
      → (clone_path k ip (suc n) q null free >>= λ (rest, p, ps).
            create_leaf k ip rest p 0 >>= f (rest, p, ps))
          m
        ≡ fault
  unfolding clone_path
  paths-fault ip n q c free f ne cell = elim (Bool-cases (child c (bit ip (n + 8)) == null)) [
    | inl end ↦
        rw (get_child-cell q ne cell (bit ip (n + 8)), ◌>>=◌)
          (rw end (leaf_bind-fault ip n 0 (f (suc n, null, free))))
    | inr more ↦
        rw (get_child-cell q ne cell (bit ip (n + 8)), ◌>>=◌)
          (rw more
            (rw (clone-null (child c (bit ip (n + 8))), set_child-null (bit ip (n + 8)) null) refl))
  ]

  copy_path-fault :
      (task : Task) (q : Ptr) (c : Node HcfInfo)
      → q ≢ null
      → read m q ≡ some c
      → copy_path k task q m ≡ fault
  unfolding copy_path
  copy_path-fault task q c ne cell =
      rw (clone-null q, ◌>>=◌)
        (paths-fault task.source_ip 23 q c (q ∷ [])
          (λ (rest, p, ps) (p', made). pure (null, ps, made, p')) ne cell)

  register_path-fault :
      (task : Task) (q : Ptr) (c : Node HcfInfo)
      → q ≢ null
      → read m q ≡ some c
      → register_path k task q m ≡ fault
  unfolding register_path
  register_path-fault task q c ne cell = rw (copy_path-fault task q c ne cell, ◌>>=◌) refl

work-fault :
    (k : Cache HcfInfo) (task : Task) (st : HcfState)
    → st.tree ≢ null
    → register_path k task st.tree st.mem ≡ fault
    → hcf_register_ip_work k task st ≡ none
unfolding hcf_register_ip_work
work-fault k task st ne e = rw (not_null st.tree ne, e) refl

-- In a state with a tree, where the slab cache has no memory left at the start of the work item, the
-- work item crashes: it writes through the NULL pointer that it got for the copy of the root.
pub hcf_register_ip_work-fault :
    (k : Cache HcfInfo) (task : Task) (st : HcfState) (q : Ptr) (d : HcfInfo) (l r : Tree HcfInfo)
    → k.next st.mem ≡ null
    → IsHcf st (node q d l r)
    → hcf_register_ip_work k task st ≡ none
hcf_register_ip_work-fault k task st q d l r full h =
    work-fault k task st (λ e. h.owned.0 (sym h.rooted ∙ e))
      (ap (λ a. register_path k task a st.mem) h.rooted
        ∙ register_path-fault k st.mem full task q _ h.owned.0 h.owned.1)
