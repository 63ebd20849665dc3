-- ===== src/Hcf/Swap.antt =====
-- `hcf_free_node` and `hcf_swap_tree`: the old tree is freed, the new one published.
use mathlib.Core.Path.{fun_ext}
use librefw.Base.{ℕ, zero, suc, ◌<◌, ◌≡◌, ◌≢◌, refl, sym, ◌∙◌, false, some, List, [], ◌∷◌, All}
use librefw.Mem.{Ptr, null, Mem, ok}
use librefw.Mem.Tree.{Tree, nil, node, root, has, Owns, Disjoint, Disjoint-sym}
use librefw.Mem.Grow.{not_null}
use librefw.Mem.Free.{height, free_tree, Freed, Freed-kept, free_tree-Freed, Freed-Owns}
use librefw.Hcf.{HcfInfo, HcfState, hcf_free_node, hcf_swap_tree}
use librefw.Hcf.Rcu.{Pending}
use librefw.Hcf.Register.{IsHcf}

hcf_free_node-tree : (fuel : ℕ) → hcf_free_node fuel ≡ free_tree fuel
unfolding hcf_free_node free_tree
hcf_free_node-tree zero = refl
hcf_free_node-tree (suc fuel) = fun_ext λ p. rw (hcf_free_node-tree fuel) refl

-- Nodes that wait, and are in neither tree, wait on.
Pending-Freed :
    (m m' : Mem HcfInfo) (s t : Tree HcfInfo) (ps : List Ptr)
    → Freed m s m'
    → Pending m s ps
    → All (λ a. has t a ≡ false) ps
    → Pending m' t ps
Pending-Freed m m' s t [] freed h out = tt
Pending-Freed m m' s t (p ∷ ps) freed (ne, used, out_s, once, h) out =
    let kept = Freed-kept m m' s p freed out_s in
    (ne, (λ e. used (sym kept ∙ e)), out.0, once, Pending-Freed m m' s t ps freed h out.1)

swap-run :
    (fuel : ℕ) (st : HcfState) (q p : Ptr) (m : Mem HcfInfo)
    → st.tree ≡ q
    → q ≢ null
    → free_tree fuel q st.mem ≡ ok tt m
    → hcf_swap_tree fuel p st ≡ some (record { tree = p; mem = m; rcu = st.rcu })
unfolding hcf_swap_tree
swap-run fuel st q p m rooted ne run = rw (rooted, not_null q ne, hcf_free_node-tree fuel, run) refl

-- With fuel above the old tree's height, and a new tree in memory that shares nothing with the old
-- one and holds no node that waits for its callback, the swap ends without a crash: the state holds
-- the new tree, the nodes of the old one are free, all other memory is as before, and the same
-- nodes wait for their callbacks.
pub hcf_swap_tree-Freed :
    (fuel : ℕ) (st : HcfState) (t t' : Tree HcfInfo)
    → IsHcf st t
    → Owns st.mem t'
    → Disjoint t t'
    → All (λ a. has t' a ≡ false) st.rcu
    → height t < fuel
    → (st' : HcfState) × (hcf_swap_tree fuel (root t') st ≡ some st')
      × IsHcf st' t'
      × Freed st.mem t st'.mem
      × (st'.rcu ≡ st.rcu)
unfolding hcf_swap_tree
hcf_swap_tree-Freed fuel st nil t' h o apart out enough = (
  record { tree = root t'; mem = st.mem; rcu = st.rcu },
  rw h.rooted,
  record {
    rooted = refl;
    owned = o;
    pending = Pending-Freed st.mem st.mem nil t' st.rcu (λ a. refl) h.pending out;
  },
  λ a. refl,
  refl,
)
hcf_swap_tree-Freed fuel st (node q d l r) t' h o apart out enough =
    let t : Tree HcfInfo = node q d l r in
    let (m, run, freed) = free_tree-Freed fuel st.mem t enough h.owned in
    (
      record { tree = root t'; mem = m; rcu = st.rcu },
      swap-run fuel st q (root t') m h.rooted h.owned.0 run,
      record {
        rooted = refl;
        owned = Freed-Owns st.mem m t t' o freed (Disjoint-sym t t' apart);
        pending = Pending-Freed st.mem m t t' st.rcu freed h.pending out;
      },
      freed,
      refl,
    )
