-- ===== src/Hcf/Path.antt =====
-- The two loops of `hcf_register_ip_work`: the copy of the path is `put` on the abstract trie, and
-- of the nodes in use only the new root is written.
use librefw.Base.{ℕ, zero, suc, ◌+◌, ◌≡◌, ◌≢◌, refl, sym, ◌∙◌, Bool, true, false, some, arith}
use librefw.Mem.{
  Ptr, null, Mem, ok, Cmd, pure, ◌>>=◌, ◌>>◌, read, write, node_of, set_info, Cache, IsAmple,
  create_node, grow,
}
use librefw.Mem.Tree.{Tree, nil, node, root, Owns, cell_at, Parts, Owns→Parts}
use librefw.Mem.Steps.{Steps-create}
use librefw.Mem.Share.{copied}
use librefw.Mem.Grow.{
  not_null, zalloc-ok, created, create_node-ok, create_node-at, store-cell, load-cell,
  set_child-cell, with_child-cell_at, insert, insert-new,
}
use librefw.Word.{bit, bits}
use librefw.Hcf.{HcfInfo, blank, hcf_create_node, hcf_clone_node, create_leaf}

pub hcf_create_node-at :
    (k : Cache HcfInfo) (m : Mem HcfInfo)
    → k.next m ≢ null
    → hcf_create_node k m ≡ ok (k.next m) (created k blank m)
unfolding hcf_create_node create_node
hcf_create_node-at k m ne = create_node-at k blank m ne

pub hcf_create_node-ok :
    (k : Cache HcfInfo) (m : Mem HcfInfo)
    → IsAmple k
    → hcf_create_node k m ≡ ok (k.next m) (created k blank m)
unfolding hcf_create_node create_node
hcf_create_node-ok k m ample = create_node-ok k blank m ample

pub hcf_clone_node-ok :
    (k : Cache HcfInfo) (m : Mem HcfInfo) (p : Ptr) (d : HcfInfo) (l r : Tree HcfInfo)
    → IsAmple k
    → p ≢ null
    → read m p ≡ some (node_of (root l) (root r) d)
    → hcf_clone_node k p m ≡ ok (k.next m) (copied k.zeroed m (k.next m) d l r)
unfolding hcf_clone_node
hcf_clone_node-ok k m p d l r ample ne cell =
    let q = k.next m in
    let m₁ = write m q (some (node_of null null k.zeroed)) in
    let c = node_of (root l) (root r) d in
    let kept : read m₁ p ≡ some c = ground (arith, k.fresh m (ample m)) in
    rw (
      zalloc-ok k m ample,
      ◌>>=◌,
      not_null q (ample m),
      load-cell {m = m₁} p ne kept,
      store-cell {m = m₁} q {c = node_of null null k.zeroed} (ample m) (ground arith) c,
    )

-- The second loop and the assignment, as the walk of `Mem.grow` in a tree with no path.
abbrev pub leaf_end : Cache HcfInfo → ℕ → ℕ → HcfInfo → Ptr → ℕ → Cmd HcfInfo ℕ
leaf_end k ip n e p c = do (p', c') ← create_leaf k ip n p c; set_info p' e; pure c'

bare-Parts :
    (b : Bool) (m : Mem HcfInfo) (q : Ptr) (d : HcfInfo)
    → Owns m (node q d nil nil)
    → Parts b m q d nil nil
bare-Parts false m q d o = Owns→Parts false q d nil nil o
bare-Parts true m q d o = Owns→Parts true q d nil nil o

leaf_end-new :
    (k : Cache HcfInfo) (ip n : ℕ) (e : HcfInfo) (c : ℕ) (m : Mem HcfInfo) (p : Ptr) (d : HcfInfo)
    (t : Tree HcfInfo)
    → IsAmple k
    → Parts (bit ip (n + 8)) m p d nil t
    → leaf_end k ip (suc n) e p c m
      ≡ leaf_end k ip n e
          (k.next m)
          (c + 1)
          (write (created k blank m) p (some (cell_at (bit ip (n + 8)) (k.next m) (root t) d)))
unfolding create_leaf
leaf_end-new k ip n e c m p d t ample x =
    let b = bit ip (n + 8) in
    let used : read (created k blank m) p ≡ some (cell_at b null (root t) d) =
      ground (arith, k.fresh m (ample m), x.cell) in
    rw (hcf_create_node-ok k m ample, ◌>>=◌, set_child-cell p x.ne_null used b (k.next m))
      (rw (with_child-cell_at b null (k.next m) (root t) d))

-- The same from a node without children.
leaf_end-bare :
    (k : Cache HcfInfo) (ip n : ℕ) (e : HcfInfo) (c : ℕ) (m : Mem HcfInfo) (q : Ptr)
    → IsAmple k
    → Owns m (node q blank nil nil)
    → leaf_end k ip n e q c m ≡ insert k blank (bits ip 8 n) e q c m
unfolding bits create_leaf insert grow
leaf_end-bare k ip zero e c m q ample o = refl
leaf_end-bare k ip (suc n) e c m q ample o =
    let b = bit ip (n + 8) in
    let x = bare-Parts b m q blank o in
    let q' = k.next m in
    let g = Steps-create b m q q' blank blank k.zeroed nil x (ample m) (k.fresh m (ample m)) in
    let m₁ = write (created k blank m) q (some (cell_at b q' null blank)) in
    let x' = Owns→Parts b {m = m₁} q blank (node q' blank nil nil) nil g.owned in
    leaf_end-new k ip n e c m q blank nil ample x
    ∙ leaf_end-bare k ip n e (c + 1) m₁ q' ample x'.owns_s
    ∙ sym (insert-new k blank b (bits ip 8 n) e c m q blank nil ample x)

pub leaf_end-insert :
    (k : Cache HcfInfo) (ip n : ℕ) (e : HcfInfo) (c : ℕ) (m : Mem HcfInfo) (p : Ptr) (d : HcfInfo)
    (t : Tree HcfInfo)
    → IsAmple k
    → Parts (bit ip (n + 8)) m p d nil t
    → leaf_end k ip (suc n) e p c m ≡ insert k blank (bits ip 8 (suc n)) e p c m
unfolding bits
leaf_end-insert k ip n e c m p d t ample x =
    let b = bit ip (n + 8) in
    let q = k.next m in
    let g = Steps-create b m p q d blank k.zeroed t x (ample m) (k.fresh m (ample m)) in
    let m₁ = write (created k blank m) p (some (cell_at b q (root t) d)) in
    let x' = Owns→Parts b {m = m₁} p d (node q blank nil nil) t g.owned in
    leaf_end-new k ip n e c m p d t ample x
    ∙ leaf_end-bare k ip n e (c + 1) m₁ q ample x'.owns_s
    ∙ sym (insert-new k blank b (bits ip 8 n) e c m p d t ample x)
