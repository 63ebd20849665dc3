-- ===== src/Mem/Tree.antt =====
-- Trees in memory: an addressed tree names the nodes that a pointer leads to, and `Owns` says that
-- the memory holds it, each node once.
use mathlib.Core.Bool.{true≢false}
use librefw.Base.{
  ◌≡◌, ◌≢◌, refl, sym, ◌∙◌, ◌⊎◌, inl, inr, Bool, true, false, ◌||◌, some, List, [], ◌∷◌, arith,
  ◌==◌, Bool-cases, All, All-imp,
}
use librefw.Mem.{Ptr, null, Node, Mem, node_of, read}
use librefw.Trie.{Trie, leaf, fork, Bits}

pub data Tree (D : Type 0) : Type 0 where
  nil : Tree D
  node : Ptr → D → Tree D → Tree D → Tree D

module _ {D : Type 0} where
  abbrev pub root : Tree D → Ptr
  root nil = null
  root (node p d l r) = p

  -- Is there a node of the tree at the address?
  abbrev pub has : Tree D → Ptr → Bool
  has nil a = false
  has (node p d l r) a = a == p || has l a || has r a

  -- The tree without its addresses.
  abbrev pub view : Tree D → Trie D
  view nil = leaf
  view (node p d l r) = fork d (view l) (view r)

  abbrev pub Disjoint : Tree D → Tree D → Type 0
  Disjoint s t = (a : Ptr) → has s a ≡ true → has t a ≡ false

  -- The memory holds the tree, and no address occurs twice in it.
  abbrev pub Owns : Mem D → Tree D → Type 0
  Owns m nil = Unit
  Owns m (node p d l r) =
      (p ≢ null)
      × (read m p ≡ some (node_of (root l) (root r) d))
      × (has l p ≡ false)
      × (has r p ≡ false)
      × Disjoint l r
      × Owns m l
      × Owns m r

  -- The node at `p` whose child at `bit` is `s`, and whose other child is `t`.
  abbrev pub node_at : Bool → Ptr → D → Tree D → Tree D → Tree D
  node_at false p d s t = node p d s t
  node_at true p d s t = node p d t s

  abbrev pub cell_at : Bool → Ptr → Ptr → D → Node D
  cell_at false p q d = node_of p q d
  cell_at true p q d = node_of q p d

  -- `Owns` for `node_at`, whatever the side.
  pub record Parts (b : Bool) (m : Mem D) (p : Ptr) (d : D) (s t : Tree D) : Type 0 where
    pub ne_null : p ≢ null
    pub cell : read m p ≡ some (cell_at b (root s) (root t) d)
    pub not_in_s : has s p ≡ false
    pub not_in_t : has t p ≡ false
    pub apart : Disjoint s t
    pub owns_s : Owns m s
    pub owns_t : Owns m t

  pub Disjoint-sym : (s t : Tree D) → Disjoint s t → Disjoint t s
  Disjoint-sym s t h a e = elim (Bool-cases (has s a)) [
    | inl i ↦ absurd (true≢false (sym e ∙ h a i))
    | inr o ↦ o
  ]

  pub Owns→Parts :
      (b : Bool) {m : Mem D} (p : Ptr) (d : D) (s t : Tree D)
      → Owns m (node_at b p d s t)
      → Parts b m p d s t
  Owns→Parts false p d s t (ne, c, ns, nt, apart, os, ot) = record {
    ne_null = ne;
    cell = c;
    not_in_s = ns;
    not_in_t = nt;
    apart = apart;
    owns_s = os;
    owns_t = ot;
  }
  Owns→Parts true p d s t (ne, c, nt, ns, apart, ot, os) = record {
    ne_null = ne;
    cell = c;
    not_in_s = ns;
    not_in_t = nt;
    apart = Disjoint-sym t s apart;
    owns_s = os;
    owns_t = ot;
  }

  pub Parts→Owns :
      (b : Bool) {m : Mem D} (p : Ptr) (d : D) (s t : Tree D)
      → Parts b m p d s t
      → Owns m (node_at b p d s t)
  Parts→Owns false p d s t x =
      (x.ne_null, x.cell, x.not_in_s, x.not_in_t, x.apart, x.owns_s, x.owns_t)
  Parts→Owns true p d s t x =
      (x.ne_null, x.cell, x.not_in_t, x.not_in_s, Disjoint-sym s t x.apart, x.owns_t, x.owns_s)

  pub root-node_at : (b : Bool) (p : Ptr) (d : D) (s t : Tree D) → root (node_at b p d s t) ≡ p
  root-node_at false p d s t = refl
  root-node_at true p d s t = refl

  pub has_here : (b : Bool) (p : Ptr) (d : D) (s t : Tree D) → has (node_at b p d s t) p ≡ true
  has_here false p d s t = ground arith
  has_here true p d s t = ground arith

  pub has_s :
      (b : Bool) (p : Ptr) (d : D) (s t : Tree D) (a : Ptr)
      → has s a ≡ true
      → has (node_at b p d s t) a ≡ true
  has_s false p d s t a h = ground arith
  has_s true p d s t a h = ground arith

  pub has_t :
      (b : Bool) (p : Ptr) (d : D) (s t : Tree D) (a : Ptr)
      → has t a ≡ true
      → has (node_at b p d s t) a ≡ true
  has_t false p d s t a h = ground arith
  has_t true p d s t a h = ground arith

  pub has_cases :
      (b : Bool) (p : Ptr) (d : D) (s t : Tree D) (a : Ptr)
      → has (node_at b p d s t) a ≡ true
      → (a ≡ p) ⊎ ((has s a ≡ true) ⊎ (has t a ≡ true))
  has_cases false p d s t a h = ground arith
  has_cases true p d s t a h = ground arith

  abbrev with_root : Tree D → List Ptr → List Ptr
  with_root nil ps = []
  with_root (node p d l r) ps = p ∷ ps

  -- The addresses on a path below the root, from the top.
  unfoldable pub below : Bits → Tree D → List Ptr
  below [] t = []
  below (b ∷ bs) nil = []
  below (false ∷ bs) (node p d l r) = with_root l (below bs l)
  below (true ∷ bs) (node p d l r) = with_root r (below bs r)

  -- The addresses on a path.
  unfoldable pub trail : Bits → Tree D → List Ptr
  unfolding below
  trail bs t = with_root t (below bs t)

  pub below-nil :
      (b : Bool) (bs : Bits) (p : Ptr) (d : D) (t : Tree D)
      → below (b ∷ bs) (node_at b p d nil t) ≡ []
  unfolding below
  below-nil false bs p d t = refl
  below-nil true bs p d t = refl

  pub below-node :
      (b : Bool) (bs : Bits) (p q : Ptr) (d e : D) (l r t : Tree D)
      → below (b ∷ bs) (node_at b p d (node q e l r) t) ≡ q ∷ below bs (node q e l r)
  unfolding below
  below-node false bs p q d e l r t = refl
  below-node true bs p q d e l r t = refl

  -- They do not depend on the root's own address.
  pub below_root :
      (bs : Bits) (p q : Ptr) (d : D) (l r : Tree D)
      → below bs (node p d l r) ≡ below bs (node q d l r)
  unfolding below
  below_root [] p q d l r = refl
  below_root (false ∷ bs) p q d l r = refl
  below_root (true ∷ bs) p q d l r = refl

  -- The nodes on a path below the root of a tree are in one of its two subtrees.
  pub below-has : (bs : Bits) (t : Tree D) → All (λ a. has t a ≡ true) (below bs t)
  unfolding below
  below-has [] t = tt
  below-has (b ∷ bs) nil = tt
  below-has (false ∷ bs) (node p d nil r) = tt
  below-has (true ∷ bs) (node p d l nil) = tt
  below-has (false ∷ bs) (node p d (node q e l' r') r) =
      let l : Tree D = node q e l' r' in
      (
        has_s false p d l r q (has_here false q e l' r'),
        All-imp (λ a. has_s false p d l r a) (below bs l) (below-has bs l),
      )
  below-has (true ∷ bs) (node p d l (node q e l' r')) =
      let r : Tree D = node q e l' r' in
      (
        has_s true p d r l q (has_here false q e l' r'),
        All-imp (λ a. has_s true p d r l a) (below bs r) (below-has bs r),
      )
