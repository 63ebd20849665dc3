-- ===== src/Bogon/Free.antt =====
-- `lfw_free_bg_tree`: the callback for the tree that a new list replaced.
use mathlib.Core.Path.{fun_ext}
use librefw.Base.{ℕ, zero, suc, ◌<◌, ◌≡◌, refl, ap, ◌∙◌, true, some, List, All}
use librefw.Mem.{Ptr, Mem, ok, Cache, IsAmple}
use librefw.Mem.Tree.{Tree, root, view, Disjoint-sym}
use librefw.Mem.Free.{height, free_tree, Freed, free_tree-Freed, Freed-Owns}
use librefw.Trie.{leaf, fork}
use librefw.Bogon.{IpPrefix, BgState, lfw_free_bg_node, lfw_free_bg_tree, lfw_load_bg_tree}
use librefw.Bogon.Load.{IsPrefix, IsBogon, loaded, lfw_load_bg_tree-loaded}

lfw_free_bg_node-tree : (fuel : ℕ) → lfw_free_bg_node fuel ≡ free_tree fuel
unfolding lfw_free_bg_node free_tree
lfw_free_bg_node-tree zero = refl
lfw_free_bg_node-tree (suc fuel) = fun_ext λ p. rw (lfw_free_bg_node-tree fuel) refl

pub free-run :
    (fuel : ℕ) (q p : Ptr) (m m' : Mem ℕ)
    → q ≡ p
    → free_tree fuel p m ≡ ok tt m'
    → lfw_free_bg_tree fuel q m ≡ ok tt m'
unfolding lfw_free_bg_tree
free-run fuel q p m m' same run = rw same (ap (λ f. f p m) (lfw_free_bg_node-tree fuel) ∙ run)

-- With memory, prefixes of fewer than 32 bits, and fuel above the height of the old tree, the callback
-- that is due after a list was loaded ends without a fault: every node of the old tree is free, all
-- other memory is as before, and the state keeps the new tree with the marks of the list.
pub load-grace_period :
    (k : Cache ℕ) (fuel : ℕ) (ps : List IpPrefix) (st : BgState) (t : Tree ℕ)
    → IsAmple k
    → All IsPrefix ps
    → IsBogon st t
    → height t < fuel
    → (st' : BgState) × (t' : Tree ℕ) × (m : Mem ℕ) × (lfw_load_bg_tree k true ps st ≡ some st')
      × (lfw_free_bg_tree fuel st.root st'.mem ≡ ok tt m)
      × Freed st'.mem t m
      × IsBogon (record { root = st'.root; mem = m; rcu = st.rcu }) t'
      × (view t' ≡ loaded ps (fork 0 leaf leaf))
load-grace_period k fuel ps st t ample valid h enough =
    let (st', t', run, h', v, ne, old, apart, rcu) =
      lfw_load_bg_tree-loaded k ps st t ample valid h in
    let (m, freeing, freed) = free_tree-Freed fuel st'.mem t enough old in
    (
      st',
      t',
      m,
      run,
      free-run fuel st.root (root t) st'.mem m h.rooted freeing,
      freed,
      record {
        rooted = h'.rooted;
        owned = Freed-Owns st'.mem m t t' h'.owned freed (Disjoint-sym t t' apart);
      },
      v,
    )
