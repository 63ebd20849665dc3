-- ===== src/Mem/Free.antt =====
-- The recursion that frees a tree, and what it leaves of the memory.
use Prim.Native.Nat.{max}
use librefw.Base.{
  ℕ, zero, suc, ◌<◌, ◌≡◌, refl, ap, ◌∙◌, true, false, none, arith, ◌==◌, if◌then◌else◌,
}
use librefw.Mem.{
  Ptr, null, Mem, ok, fault, Cmd, pure, ◌>>=◌, ◌>>◌, read, write, get_child, cache_free,
}
use librefw.Mem.Tree.{Tree, nil, node, root, has, view, Owns, Disjoint-sym}
use librefw.Trie.Depth.{depth}
use librefw.Mem.Steps.{Owns-frame}
use librefw.Mem.Grow.{not_null, get_child-cell, cache_free-cell}

module _ {D : Type 0} where
  -- The number of nodes on the longest path.
  abbrev pub height : Tree D → ℕ
  height nil = 0
  height (node p d l r) = suc (max (height l) (height r))

  pub height-depth : (t : Tree D) → height t ≡ depth (view t)
  unfolding depth
  height-depth nil = refl
  height-depth (node p d l r) = omega (arith, height-depth l, height-depth r)

  -- The children first, then the node; `fuel` bounds the depth of the stack.
  unfoldable pub free_tree : ℕ → Ptr → Cmd D (Unit {0})
  free_tree zero p = λ _. fault
  free_tree (suc fuel) p = if p == null then pure tt else (do
    l ← get_child p false
    free_tree fuel l
    r ← get_child p true
    free_tree fuel r
    cache_free p)

  -- The nodes of the tree are free in `m'`, and all else is as in `m`.
  abbrev pub Freed : Mem D → Tree D → Mem D → Type 0
  Freed m t m' = (a : Ptr) → read m' a ≡ (if has t a then none else read m a)

  pub Freed-kept :
      (m m' : Mem D) (t : Tree D) (a : Ptr) → Freed m t m' → has t a ≡ false → read m' a ≡ read m a
  Freed-kept m m' t a freed out = freed a ∙ ap (λ b. if b then none else read m a) out

  pub Freed-Owns :
      (m m' : Mem D) (s t : Tree D)
      → Owns m t
      → Freed m s m'
      → ((a : Ptr) → has t a ≡ true → has s a ≡ false)
      → Owns m' t
  Freed-Owns m m' s t o freed apart =
      Owns-frame m m' t o (λ a i. Freed-kept m m' s a freed (apart a i))

  free_tree-join :
      (fuel : ℕ) (m m₁ m₂ : Mem D) (p : Ptr) (d : D) (l r : Tree D)
      → Owns m (node p d l r)
      → free_tree fuel (root l) m ≡ ok tt m₁
      → Freed m l m₁
      → free_tree fuel (root r) m₁ ≡ ok tt m₂
      → Freed m₁ r m₂
      → (free_tree (suc fuel) p m ≡ ok tt (write m₂ p none))
        × Freed m (node p d l r) (write m₂ p none)
  unfolding free_tree
  free_tree-join fuel m m₁ m₂ p d l r o run₁ freed₁ run₂ freed₂ =
      let cell₁ = Freed-kept m m₁ l p freed₁ o.2 ∙ o.1 in
      let cell₂ = Freed-kept m₁ m₂ r p freed₂ o.3 ∙ cell₁ in
      (
        rw
            (
              not_null p o.0,
              get_child-cell p o.0 o.1 false,
              ◌>>=◌,
              run₁,
              get_child-cell p o.0 cell₁ true,
              run₂,
            )
            (cache_free-cell p o.0 cell₂),
        λ a. ground (arith, freed₁ a, freed₂ a),
      )

  -- Fuel above the height is enough.
  pub free_tree-Freed :
      (fuel : ℕ) (m : Mem D) (t : Tree D)
      → height t < fuel
      → Owns m t
      → (m' : Mem D) × (free_tree fuel (root t) m ≡ ok tt m') × Freed m t m'
  unfolding free_tree
  free_tree-Freed zero m t h o = absurd (omega arith)
  free_tree-Freed (suc fuel) m nil h o = (m, refl, λ a. refl)
  free_tree-Freed (suc fuel) m (node p d l r) h o =
      let (m₁, run₁, freed₁) = free_tree-Freed fuel m l (omega arith) o.5 in
      let (m₂, run₂, freed₂) =
        free_tree-Freed fuel m₁ r (omega arith)
          (Freed-Owns m m₁ l r o.6 freed₁ (Disjoint-sym l r o.4)) in
      let (run, freed) = free_tree-join fuel m m₁ m₂ p d l r o run₁ freed₁ run₂ freed₂ in
      (write m₂ p none, run, freed)
