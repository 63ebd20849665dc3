-- ===== src/Mem/Grow.antt =====
-- The walk `grow` and the assignment that follows it, as `put` on the abstract trie.
use librefw.Base.{
  ℕ, ◌+◌, ◌≡◌, ◌≢◌, refl, ap, ◌∙◌, ◌⊎◌, inl, inr, Bool, true, false, none, some, [], ◌∷◌, arith,
  ◌==◌, ==_iff, Bool-cases, Option-cases,
}
use librefw.Mem.{
  Ptr, null, Node, Mem, Run, ok, Cmd, pure, ◌>>=◌, ◌>>◌, read, write, node_of, child, with_child,
  fault, load, store, get_child, set_child, set_info, Cache, zalloc, cache_free, IsAmple,
  create_node, grow,
}
use librefw.Mem.Tree.{
  Tree, nil, node, root, has, view, Owns, node_at, cell_at, Parts, Owns→Parts, has_s,
}
use librefw.Mem.Steps.{Steps, Steps-trans, Steps-widen, Steps-info, Steps-create, graft}
use librefw.Trie.{Bits, put, missing}
use librefw.Trie.Laws.{put-fork_leaf, missing-fork_leaf}

pub not_null : (p : Ptr) → p ≢ null → (p == null) ≡ false
not_null p ne = ground arith

module _ {D : Type 0} where
  -- Accesses to an address that holds a node.
  module _ {m : Mem D} (p : Ptr) {c : Node D} (ne : p ≢ null) (cell : read m p ≡ some c) where
    pub load-cell : load p m ≡ ok c m
    unfolding load
    load-cell = rw (not_null p ne, cell)

    pub store-cell : (c' : Node D) → store p c' m ≡ ok tt (write m p (some c'))
    unfolding store
    store-cell c' = rw (load-cell, ◌>>=◌)

    pub cache_free-cell : cache_free p m ≡ ok tt (write m p none)
    unfolding cache_free
    cache_free-cell = rw (load-cell, ◌>>=◌)

  module _ {m : Mem D} (p : Ptr) {c : Node D} (ne : p ≢ null) (cell : read m p ≡ some c) where
    pub set_child-cell :
        (b : Bool) (q : Ptr) → set_child p b q m ≡ ok tt (write m p (some (with_child c b q)))
    unfolding set_child
    set_child-cell b q = rw (load-cell p ne cell, ◌>>=◌) (store-cell p ne cell _)

    pub set_info-cell :
        (d : D) → set_info p d m ≡ ok tt (write m p (some (node_of c.zero_child c.one_child d)))
    unfolding set_info
    set_info-cell d = rw (load-cell p ne cell, ◌>>=◌) (store-cell p ne cell _)

  -- The payload is assigned and is there, or the address is not in use.
  pub set_info-cases :
      (p : Ptr) (d : D) (m : Mem D)
      → (set_info p d m ≡ fault)
        ⊎ ((c : Node D) × (m' : Mem D) × (set_info p d m ≡ ok tt m')
            × (load p m' ≡ ok c m')
            × (c.info ≡ d))
  unfolding set_info load
  set_info-cases p d m = elim (Bool-cases (p == null)) [
    | inl zero_ptr ↦ inl (rw (zero_ptr, ◌>>=◌) refl)
    | inr some_ptr ↦
        let ne : p ≢ null = λ e. ground (arith, e, some_ptr) in
        elim (Option-cases (read m p)) [
          | inl gone ↦ inl (rw (some_ptr, gone, ◌>>=◌) refl)
          | inr (c, cell) ↦
              let c' = node_of c.zero_child c.one_child d in
              let m' = write m p (some c') in
              let there : read m' p ≡ some c' = ground arith in
              inr (c', m', set_info-cell p ne cell d, load-cell p ne there, refl)
        ]
  ]

  pub Run-cases : {A : Type 0} (r : Run D A) → ((a : A) × (m : Mem D) × (r ≡ ok a m)) ⊎ (r ≡ fault)
  Run-cases (ok a m) = inl (a, m, refl)
  Run-cases fault = inr refl

  pub child-cell_at : (b : Bool) (q r : Ptr) (d : D) → child (cell_at b q r d) b ≡ q
  child-cell_at false q r d = refl
  child-cell_at true q r d = refl

  pub with_child-cell_at :
      (b : Bool) (q q' r : Ptr) (d : D) → with_child (cell_at b q r d) b q' ≡ cell_at b q' r d
  with_child-cell_at false q q' r d = refl
  with_child-cell_at true q q' r d = refl

  module _ {m : Mem D} (p : Ptr) {c : Node D} (ne : p ≢ null) (cell : read m p ≡ some c) where
    pub get_child-cell : (b : Bool) → get_child p b m ≡ ok (child c b) m
    unfolding get_child
    get_child-cell b = rw (load-cell p ne cell, ◌>>=◌)

  zalloc-at :
      (k : Cache D) (m : Mem D)
      → k.next m ≢ null
      → zalloc k m ≡ ok (k.next m) (write m (k.next m) (some (node_of null null k.zeroed)))
  unfolding zalloc
  zalloc-at k m ne = rw (not_null (k.next m) ne)

  pub zalloc-ok :
      (k : Cache D) (m : Mem D)
      → IsAmple k
      → zalloc k m ≡ ok (k.next m) (write m (k.next m) (some (node_of null null k.zeroed)))
  zalloc-ok k m ample = zalloc-at k m (ample m)

  -- The memory after `create_node`.
  abbrev pub created : Cache D → D → Mem D → Mem D
  created k z m =
      write (write m (k.next m) (some (node_of null null k.zeroed))) (k.next m)
        (some (node_of null null z))

  pub create_node-at :
      (k : Cache D) (z : D) (m : Mem D)
      → k.next m ≢ null
      → create_node k z m ≡ ok (k.next m) (created k z m)
  unfolding create_node
  create_node-at k z m ne =
      let m' = write m (k.next m) (some (node_of null null k.zeroed)) in
      rw (
        zalloc-at k m ne,
        ◌>>=◌,
        not_null (k.next m) ne,
        store-cell {m = m'} (k.next m) {c = node_of null null k.zeroed} ne (ground arith)
            (node_of null null z),
      )

  pub create_node-ok :
      (k : Cache D) (z : D) (m : Mem D)
      → IsAmple k
      → create_node k z m ≡ ok (k.next m) (created k z m)
  create_node-ok k z m ample = create_node-at k z m (ample m)

  -- The walk, and then the payload of the node that it ends at.
  unfoldable pub insert : Cache D → D → Bits → D → Ptr → ℕ → Cmd D ℕ
  insert k z bs d runner n = do (runner', n') ← grow k z bs runner n; set_info runner' d; pure n'

  -- What inserting `d` at the path `bs` below `runner` comes to.
  abbrev pub InsertsIn : (Ptr → Bool) → D → Bits → D → ℕ → Mem D → Tree D → Run D ℕ → Type 0
  InsertsIn w z bs d n m t run =
      (m' : Mem D) × (t' : Tree D) × (run ≡ ok (n + missing bs (view t)) m')
      × Steps w m t m' t'
      × (view t' ≡ put z bs d (view t))

  -- It may write to every node of the tree.
  abbrev pub Inserts : D → Bits → D → ℕ → Mem D → Tree D → Run D ℕ → Type 0
  Inserts z bs d n m t run = InsertsIn (has t) z bs d n m t run

  InsertsIn-widen :
      (w : Ptr → Bool) (z : D) (bs : Bits) (d : D) (n : ℕ) (m : Mem D) (t : Tree D) {run : Run D ℕ}
      → InsertsIn w z bs d n m t run
      → Inserts z bs d n m t run
  InsertsIn-widen w z bs d n m t (m', t', run, g, v) =
      (m', t', run, Steps-widen w (has t) g g.inside (λ a h. h), v)

  pub insert-here :
      (k : Cache D) (z : D) (d e : D) (p n : Ptr) (m : Mem D) (l r : Tree D)
      → Owns m (node p e l r)
      → InsertsIn (λ a. a == p) z [] d n m (node p e l r) (insert k z [] d p n m)
  unfolding insert grow set_info put missing
  insert-here k z d e p n m l r o = (
    write m p (some (node_of (root l) (root r) d)),
    node p d l r,
    rw (set_info-cell p o.0 o.1 d, ◌>>=◌)
        (ap (λ c. ok c (write m p (some (node_of (root l) (root r) d)))) (omega arith)),
    Steps-info m p e d l r o,
    refl,
  )

  insert-old :
      (k : Cache D) (z : D) (b : Bool) (bs : Bits) (e : D) (n : ℕ) {m : Mem D} (p : Ptr) (d : D)
      (s t : Tree D)
      → Parts b m p d s t
      → root s ≢ null
      → insert k z (b ∷ bs) e p n m ≡ insert k z bs e (root s) n m
  unfolding insert grow
  insert-old k z b bs e n p d s t x ne = rw (
    load-cell p x.ne_null x.cell,
    ◌>>=◌,
    child-cell_at b (root s) (root t) d,
    not_null (root s) ne,
  )

  pub insert-new :
      (k : Cache D) (z : D) (b : Bool) (bs : Bits) (e : D) (n : ℕ) (m : Mem D) (p : Ptr) (d : D)
      (t : Tree D)
      → IsAmple k
      → Parts b m p d nil t
      → insert k z (b ∷ bs) e p n m
        ≡ insert k z bs e
            (k.next m)
            (n + 1)
            (write (created k z m) p (some (cell_at b (k.next m) (root t) d)))
  unfolding insert grow
  insert-new k z b bs e n m p d t ample x =
      let used : read (created k z m) p ≡ some (cell_at b null (root t) d) =
        ground (arith, k.fresh m (ample m), x.cell) in
      rw
        (
          load-cell p x.ne_null x.cell,
          ◌>>=◌,
          child-cell_at b null (root t) d,
          create_node-ok k z m ample,
          set_child-cell p x.ne_null used b (k.next m),
        )
        (rw (with_child-cell_at b null (k.next m) (root t) d))

  pub view-node_at :
      (z : D) (b : Bool) (bs : Bits) (e : D) (p : Ptr) (d : D) (s s' t : Tree D)
      → view s' ≡ put z bs e (view s)
      → view (node_at b p d s' t) ≡ put z (b ∷ bs) e (view (node_at b p d s t))
  unfolding put
  view-node_at z false bs e p d s s' t h = rw h
  view-node_at z true bs e p d s s' t h = rw h

  pub missing-node_at :
      (b : Bool) (bs : Bits) (p : Ptr) (d : D) (s t : Tree D)
      → missing (b ∷ bs) (view (node_at b p d s t)) ≡ missing bs (view s)
  unfolding missing
  missing-node_at false bs p d s t = refl
  missing-node_at true bs p d s t = refl

  -- One step down to a child that exists.
  step-old :
      (k : Cache D) (z : D) (b : Bool) (bs : Bits) (e : D) (n : ℕ) (m : Mem D) (p : Ptr) (d : D)
      (s t : Tree D)
      → Parts b m p d s t
      → root s ≢ null
      → Inserts z bs e n m s (insert k z bs e (root s) n m)
      → Inserts z (b ∷ bs) e n m (node_at b p d s t) (insert k z (b ∷ bs) e p n m)
  step-old k z b bs e n m p d s t x ne (m', s', run, g, v) = (
    m',
    node_at b p d s' t,
    rw (insert-old k z b bs e n p d s t x ne, missing-node_at b bs p d s t) run,
    Steps-widen (has s) (has (node_at b p d s t)) (graft (has s) b p d s s' t x g)
        (λ a h. has_s b p d s t a h) (λ a h. h),
    view-node_at z b bs e p d s s' t v,
  )

  -- One step down to a child that is created.
  pub step-new :
      (k : Cache D) (z : D) (b : Bool) (bs : Bits) (e : D) (n : ℕ) (m : Mem D) (p : Ptr) (d : D)
      (t : Tree D)
      → IsAmple k
      → Parts b m p d nil t
      → ((m' : Mem D) (q : Ptr)
          → Owns m' (node q z nil nil)
          → Inserts z bs e (n + 1) m' (node q z nil nil) (insert k z bs e q (n + 1) m'))
      → InsertsIn (λ a. a == p) z (b ∷ bs) e n m (node_at b p d nil t) (insert k z (b ∷ bs) e p n m)
  step-new k z b bs e n m p d t ample x rec =
      let q = k.next m in
      let m₁ = write (created k z m) p (some (cell_at b q (root t) d)) in
      let s : Tree D = node q z nil nil in
      let g = Steps-create b m p q d z k.zeroed t x (ample m) (k.fresh m (ample m)) in
      let x₁ = Owns→Parts b p d s t g.owned in
      let (m', s', run, g', v) = rec m₁ q x₁.owns_s in
      (
        m',
        node_at b p d s' t,
        rw
            (
              insert-new k z b bs e n m p d t ample x,
              missing-node_at b bs p d nil t,
              missing-fork_leaf z bs,
            )
            (run ∙ ap (λ c. ok c m') (omega arith)),
        Steps-trans (λ a. a == p) (has s) g (graft (has s) b p d s s' t x₁ g')
            (λ a h. inr (rw ((==_iff a q).0 (ground arith)) (k.fresh m (ample m)))),
        view-node_at z b bs e p d nil s' t (v ∙ put-fork_leaf z bs e),
      )

  -- With an ample cache the walk and the assignment end without a fault, are `put` on the tree
  -- below `runner`, and count the nodes that they create.
  pub insert-put :
      (k : Cache D) (z : D) (bs : Bits) (e : D) (n : ℕ) (m : Mem D) (p : Ptr) (d : D) (l r : Tree D)
      → IsAmple k
      → Owns m (node p d l r)
      → Inserts z bs e n m (node p d l r) (insert k z bs e p n m)
  insert-put k z [] e n m p d l r ample o =
      InsertsIn-widen (λ a. a == p) z [] e n m (node p d l r) (insert-here k z e d p n m l r o)
  insert-put k z (false ∷ bs) e n m p d nil r ample o =
      InsertsIn-widen (λ a. a == p) z (false ∷ bs) e n m (node p d nil r)
        (step-new k z false bs e n m p d r ample (Owns→Parts false p d nil r o)
          (λ m' q o'. insert-put k z bs e (n + 1) m' q z nil nil ample o'))
  insert-put k z (true ∷ bs) e n m p d l nil ample o =
      InsertsIn-widen (λ a. a == p) z (true ∷ bs) e n m (node p d l nil)
        (step-new k z true bs e n m p d l ample (Owns→Parts true p d nil l o)
          (λ m' q o'. insert-put k z bs e (n + 1) m' q z nil nil ample o'))
  insert-put k z (false ∷ bs) e n m p d (node q d' l' r') r ample o =
      let s : Tree D = node q d' l' r' in
      let x = Owns→Parts false p d s r o in
      step-old k z false bs e n m p d s r x x.owns_s.0
        (insert-put k z bs e n m q d' l' r' ample x.owns_s)
  insert-put k z (true ∷ bs) e n m p d l (node q d' l' r') ample o =
      let s : Tree D = node q d' l' r' in
      let x = Owns→Parts true p d s l o in
      step-old k z true bs e n m p d s l x x.owns_s.0
        (insert-put k z bs e n m q d' l' r' ample x.owns_s)
