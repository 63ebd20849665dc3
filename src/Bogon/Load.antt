-- ===== src/Bogon/Load.antt =====
-- `lfw_load_bg_tree`: the walk is the generic one, and a list of prefixes is a chain of `put`.
use mathlib.Core.Path.{fun_ext}
use librefw.Base.{
  ℕ, zero, suc, ◌+◌, ◌-◌, ◌/◌, ◌%◌, ◌^◌, ◌<◌, ◌≡◌, ◌≢◌, refl, sym, ap, ◌∙◌, true, false, some, List,
  [], ◌∷◌, ◌++◌, arith, ◌==◌, leb, All,
}
use librefw.Mem.{Ptr, null, Mem, ok, >>=-ok, Cache, IsAmple, create_node, grow}
use librefw.Mem.Tree.{Tree, nil, node, root, has, view, Owns, Disjoint}
use librefw.Mem.Steps.{Steps, Owns-frame, has→in_use, Steps-refl, Steps-trans}
use librefw.Mem.Build.{build_kept, build_out, created-Owns}
use librefw.Mem.Grow.{not_null, created, create_node-ok, insert, insert-put}
use librefw.Trie.{Trie, leaf, fork, Bits, put}
use librefw.Word.{bit, bits, in4_get_bit, get_unaligned_be32}
use librefw.Bogon.{
  IpPrefix, BgState, lfw_create_node, load_walk, load_prefix, load_prefixes, lfw_load_bg_tree,
}

pub in4_get_bit-bit :
    (ip j n lo : ℕ) → j + suc n + lo ≡ 32 → (in4_get_bit ip j == 1) ≡ bit ip (n + lo)
unfolding in4_get_bit bit
in4_get_bit-bit ip j n lo e = ap (λ (i : ℕ). ip / 2 ^ i % 2 == 1) (omega arith)

-- Where all bits lie within the address, the walk is that of `Mem.grow`.
load_walk-grow :
    (k : Cache ℕ) (ip j n lo : ℕ) → j + n + lo ≡ 32 → load_walk k ip j n ≡ grow k 0 (bits ip lo n)
unfolding load_walk grow bits lfw_create_node create_node
load_walk-grow k ip j zero lo e = refl
load_walk-grow k ip j (suc n) lo e = fun_ext λ p. fun_ext λ c.
    let inside : leb 32 j ≡ false = ground arith in
    rw (inside, in4_get_bit-bit ip j n lo e, load_walk-grow k ip (suc j) n lo (omega arith))

-- The path that a prefix stands for.
unfoldable pub path_of : IpPrefix → Bits
path_of p = bits (get_unaligned_be32 p.ip_prefix) (32 - p.ip_prefix_len) p.ip_prefix_len

abbrev pub IsPrefix : IpPrefix → Type 0
IsPrefix p = p.ip_prefix_len < 32

load_prefix-insert :
    (k : Cache ℕ) (p : IpPrefix) (q : Ptr)
    → IsPrefix p
    → load_prefix k p q ≡ insert k 0 (path_of p) 1 q 0
unfolding load_prefix insert path_of
load_prefix-insert k p q h =
    let short : leb 32 p.ip_prefix_len ≡ false = ground (arith, h) in
    rw (
      short,
      load_walk-grow k (get_unaligned_be32 p.ip_prefix) 0 p.ip_prefix_len (32 - p.ip_prefix_len)
          (omega (arith, h)),
    )

-- The abstract tree for a list of prefixes.
unfoldable pub loaded : List IpPrefix → Trie ℕ → Trie ℕ
loaded [] t = t
loaded (p ∷ ps) t = loaded ps (put 0 (path_of p) 1 t)

-- Prefixes of fewer than 32 bits are loaded without a fault into the tree below `q`.
pub load_prefixes-loaded :
    (k : Cache ℕ) (ps : List IpPrefix) (m : Mem ℕ) (t : Tree ℕ)
    → IsAmple k
    → All IsPrefix ps
    → Owns m t
    → root t ≢ null
    → (m' : Mem ℕ) × (t' : Tree ℕ) × (load_prefixes k ps (root t) m ≡ ok tt m')
      × Steps (has t) m t m' t'
      × (view t' ≡ loaded ps (view t))
unfolding load_prefixes loaded
load_prefixes-loaded k [] m t ample h o ne = (m, t, refl, Steps-refl (has t) m t o (λ a i. i), refl)
load_prefixes-loaded k (x ∷ ps) m nil ample h o ne = absurd (ne refl)
load_prefixes-loaded k (x ∷ ps) m (node p d l r) ample h o ne =
    let t : Tree ℕ = node p d l r in
    let (m₁, t₁, run, g, v) = insert-put k 0 (path_of x) 1 0 m p d l r ample o in
    let (m', t', run', g', v') =
      load_prefixes-loaded k ps m₁ t₁ ample h.1 g.owned (λ e. ne (sym g.rooted ∙ e)) in
    (
      m',
      t',
      >>=-ok (load_prefix k x p) (λ _. load_prefixes k ps p)
            (ap (λ f. f m) (load_prefix-insert k x p h.0) ∙ run)
          ∙ ap (λ q. load_prefixes k ps q m₁) (sym g.rooted)
          ∙ run',
      Steps-trans (has t) (has t₁) g g' (λ a i. g.origin a i),
      v' ∙ ap (loaded ps) v,
    )

-- The state holds the tree.
pub record IsBogon (st : BgState) (t : Tree ℕ) : Type 0 where
  pub rooted : st.root ≡ root t
  pub owned : Owns st.mem t

pub lfw_create_node-ok :
    (k : Cache ℕ) (m : Mem ℕ) → IsAmple k → lfw_create_node k m ≡ ok (k.next m) (created k 0 m)
unfolding lfw_create_node create_node
lfw_create_node-ok k m ample = create_node-ok k 0 m ample

lfw_load_bg_tree-step :
    (k : Cache ℕ) (ps : List IpPrefix) (st : BgState) (m : Mem ℕ)
    → IsAmple k
    → load_prefixes k ps (k.next st.mem) (created k 0 st.mem) ≡ ok tt m
    → lfw_load_bg_tree k true ps st
      ≡ some (record { root = k.next st.mem; mem = m; rcu = st.rcu ++ st.root ∷ [] })
unfolding lfw_load_bg_tree
lfw_load_bg_tree-step k ps st m ample e = rw (
  lfw_create_node-ok k st.mem ample,
  not_null (k.next st.mem) (ample st.mem),
  e,
  lfw_load_bg_tree,
)

-- A tree that was in the memory stays there, disjoint from the new one.
abbrev pub IsKept : Mem ℕ → Mem ℕ → Tree ℕ → Tree ℕ → Type 0
IsKept m m' t' u = Owns m u → Owns m' u × Disjoint u t'

-- What the load does, for every tree in the memory
pub lfw_load_bg_tree-builds :
    (k : Cache ℕ) (ps : List IpPrefix) (st : BgState)
    → IsAmple k
    → All IsPrefix ps
    → (st' : BgState) × (t' : Tree ℕ) × (lfw_load_bg_tree k true ps st ≡ some st')
      × IsBogon st' t'
      × (view t' ≡ loaded ps (fork 0 leaf leaf))
      × (root t' ≢ null)
      × (st'.rcu ≡ st.rcu ++ st.root ∷ [])
      × ((u : Tree ℕ) → IsKept st.mem st'.mem t' u)
lfw_load_bg_tree-builds k ps st ample valid =
    let m = st.mem in
    let p = k.next m in
    let fresh = k.fresh m (ample m) in
    let t₀ : Tree ℕ = node p 0 nil nil in
    let m₁ = created k 0 m in
    let o₀ : Owns m₁ t₀ = created-Owns k 0 m ample in
    let (m', t', run, g, v) = load_prefixes-loaded k ps m₁ t₀ ample valid o₀ (ample m) in
    (
      record { root = p; mem = m'; rcu = st.rcu ++ st.root ∷ [] },
      t',
      lfw_load_bg_tree-step k ps st m' ample run,
      record { rooted = sym g.rooted; owned = g.owned },
      v,
      (λ e. ample m (sym g.rooted ∙ e)),
      refl,
      λ u o. (
        Owns-frame m m' u o
            (λ a i. build_kept 0 k.zeroed m m' p t' fresh g a (has→in_use m u a o i)),
        λ a i. build_out 0 k.zeroed m m' p t' fresh g a (has→in_use m u a o i),
      ),
    )

-- With memory, and prefixes of fewer than 32 bits, the new tree is published: it marks the paths of the
-- prefixes and nothing else. Readers of the old tree keep it, disjoint from the new one, and it is
-- handed over to be freed.
pub lfw_load_bg_tree-loaded :
    (k : Cache ℕ) (ps : List IpPrefix) (st : BgState) (t : Tree ℕ)
    → IsAmple k
    → All IsPrefix ps
    → IsBogon st t
    → (st' : BgState) × (t' : Tree ℕ) × (lfw_load_bg_tree k true ps st ≡ some st')
      × IsBogon st' t'
      × (view t' ≡ loaded ps (fork 0 leaf leaf))
      × (root t' ≢ null)
      × Owns st'.mem t
      × Disjoint t t'
      × (st'.rcu ≡ st.rcu ++ st.root ∷ [])
lfw_load_bg_tree-loaded k ps st t ample valid h =
    let (st', t', run, h', v, ne, rcu, kept) = lfw_load_bg_tree-builds k ps st ample valid in
    let (old, apart) = kept t h.owned in (st', t', run, h', v, ne, old, apart, rcu)
