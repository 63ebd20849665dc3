-- ===== src/Hcf/Copy.antt =====
-- The loop of `hcf_register_ip_work` that copies the path, with the loop after it: the copy is
-- `put` on the abstract trie, and of the nodes in use only the new root is written.
use mathlib.Core.Path.{subst}
use mathlib.Core.List.{append-nil, append_assoc}
use librefw.Base.{
  ℕ, zero, suc, ◌+◌, ◌≡◌, ◌≢◌, sym, ap, ◌∙◌, ◌⊎◌, inl, inr, Bool, true, false, none, some, List, [],
  ◌∷◌, ◌++◌, arith, ◌==◌, ==_iff, Bool-cases, All, All-map_2,
}
use librefw.Mem.{
  Ptr, null, Mem, Run, ok, Cmd, pure, ◌>>=◌, read, write, node_of, Cache, IsAmple, >>=-ok, grow,
  get_child, set_child,
}
use librefw.Mem.Tree.{
  Tree, nil, node, root, has, view, Owns, node_at, cell_at, Parts, Owns→Parts, has_here, has_cases,
  below, below-has, below-nil, below-node, below_root,
}
use librefw.Mem.Steps.{Steps, Steps-trans, graft}
use librefw.Mem.Share.{copied, Steps-share, not_here}
use librefw.Mem.Grow.{
  not_null, get_child-cell, set_child-cell, child-cell_at, with_child-cell_at, view-node_at,
  missing-node_at, insert, insert-here, insert-put, step-new,
}
use librefw.Trie.{put, missing}
use librefw.Word.{bit, bits}
use librefw.Hcf.{HcfInfo, blank, clone_path, create_leaf}
use librefw.Hcf.Path.{hcf_clone_node-ok, leaf_end, leaf_end-insert}

-- Both loops and the assignment.
abbrev pub fill :
    Cache HcfInfo → ℕ → ℕ → HcfInfo → Ptr → Ptr → List Ptr → Cmd HcfInfo (List Ptr × ℕ)
fill k ip n e runner new_runner nodes_to_free = do
  (remaining, new_runner', nodes_to_free') ← clone_path k ip n runner new_runner nodes_to_free
  c ← leaf_end k ip remaining e new_runner' 0
  pure (nodes_to_free', c)

-- What the loops come to from a copy at `p` of the old node at `q`: `s` is the tree of the copy.
abbrev pub Fills :
    ℕ
    → ℕ
    → HcfInfo
    → Ptr
    → List Ptr
    → Mem HcfInfo
    → Tree HcfInfo
    → Run HcfInfo (List Ptr × ℕ)
    → Type 0
Fills ip n e p free m s run =
    (m' : Mem HcfInfo) × (t' : Tree HcfInfo) × (run
      ≡ ok (free ++ below (bits ip 8 n) s, missing (bits ip 8 n) (view s)) m')
    × Steps (λ a. a == p) m s m' t'
    × (view t' ≡ put blank (bits ip 8 n) e (view s))
    × All (λ a. has t' a ≡ false) (below (bits ip 8 n) s)

-- What leaves the child leaves the node.
has-node_at-false :
    (b : Bool) {m : Mem HcfInfo} (p : Ptr) (d : HcfInfo) (s s' t : Tree HcfInfo)
    → Parts b m p d s t
    → (a : Ptr) → has s a ≡ true
    → has s' a ≡ false
    → has (node_at b p d s' t) a ≡ false
has-node_at-false b p d s s' t x a i o = elim (Bool-cases (has (node_at b p d s' t) a)) [
  | inr out ↦ out
  | inl h ↦ elim (has_cases b p d s' t a h) [
    | inl e ↦ cc (x.not_in_s, ap (has s) e)
    | inr (inl j) ↦ cc
    | inr (inr j) ↦ cc (x.apart a i)
  ]
]

-- The node that was copied is not in the tree of its copy.
pub root_gone :
    (m m₁ : Mem HcfInfo) (p' q' : Ptr) (d' : HcfInfo) (l r s' : Tree HcfInfo)
    → Owns m (node q' d' l r)
    → read m p' ≡ none
    → read m₁ q' ≡ some (node_of (root l) (root r) d')
    → (has s' q' ≡ true → (has (node p' d' l r) q' ≡ true) ⊎ (read m₁ q' ≡ none))
    → has s' q' ≡ false
root_gone m m₁ p' q' d' l r s' o fresh kept origin = elim (Bool-cases (has s' q')) [
  | inr out ↦ out
  | inl i ↦ elim (origin i) [
    | inr gone ↦ cc (kept, gone)
    | inl j ↦ elim (has_cases false p' d' l r q' j) [
      | inl same ↦ cc (o.1, fresh, ap (read m) same)
      | inr (inl in_l) ↦ cc (o.2)
      | inr (inr in_r) ↦ cc (o.3)
    ]
  ]
]

module _ (k : Cache HcfInfo) (ample : IsAmple k) (ip : ℕ) (e : HcfInfo) where
  -- No bits remain.
  fill-here :
      (free : List Ptr) (m : Mem HcfInfo) (q p : Ptr) (d : HcfInfo) (l r : Tree HcfInfo)
      → Owns m (node p d l r)
      → Fills ip 0 e p free m (node p d l r) (fill k ip 0 e q p free m)
  unfolding clone_path create_leaf insert grow bits below missing put
  fill-here free m q p d l r o =
      let (m', t', run, g, v) = insert-here k blank e d p 0 m l r o in
      (
        m',
        t',
        >>=-ok (leaf_end k ip 0 e p 0) (λ c. pure (free, c)) run
            ∙ ap (λ x. ok (x, 0) m') (sym (append-nil free)),
        g,
        v,
        tt,
      )

  -- The old tree has no child: the path is created.
  fill-nil :
      (n : ℕ) (free : List Ptr) (m : Mem HcfInfo) (q p : Ptr) (d : HcfInfo) (t : Tree HcfInfo)
      → let b = bit ip (n + 8) in
        Parts b m p d nil t
        → q ≢ null
        → read m q ≡ some (cell_at (bit ip (n + 8)) null (root t) d)
        → Fills ip
            (suc n)
            e
            p
            free
            m
            (node_at (bit ip (n + 8)) p d nil t)
            (fill k ip (suc n) e q p free m)
  unfolding clone_path bits
  fill-nil n free m q p d t x ne cell =
      let b = bit ip (n + 8) in
      let bs = bits ip 8 n in
      let (m', t', run, g, v) =
        step-new k blank b bs e 0 m p d t ample x
          (λ m₁ q₁ o. insert-put k blank bs e 1 m₁ q₁ blank nil nil ample o) in
      (
        m',
        t',
        rw
            (
              get_child-cell q ne cell b,
              ◌>>=◌,
              child-cell_at b null (root t) d,
              leaf_end-insert k ip n e 0 m p d t ample x,
              run,
            )
            (rw (below-nil b bs p d t, append-nil free) (ap (λ c. ok (free, c) m') (omega arith))),
        g,
        v,
        rw (below-nil b bs p d t) tt,
      )

  fill-step :
      (n : ℕ) (free : List Ptr) (m : Mem HcfInfo) (q p : Ptr) (d : HcfInfo) (q' : Ptr)
      (d' : HcfInfo) (l r t : Tree HcfInfo)
      → Parts (bit ip (n + 8)) m p d (node q' d' l r) t
      → q ≢ null
      → read m q ≡ some (cell_at (bit ip (n + 8)) q' (root t) d)
      → fill k ip (suc n) e q p free m
        ≡ fill k ip n e q' (k.next m) (free ++ q' ∷ []) (
            write
              (copied k.zeroed m (k.next m) d' l r)
              p
              (some (cell_at (bit ip (n + 8)) (k.next m) (root t) d)))
  unfolding clone_path
  fill-step n free m q p d q' d' l r t x ne cell =
      let b = bit ip (n + 8) in
      let p' = k.next m in
      let m₁ = copied k.zeroed m p' d' l r in
      let used : read m₁ p ≡ some (cell_at b q' (root t) d) =
        ground (arith, k.fresh m (ample m), x.cell) in
      let got : get_child q b m ≡ ok q' m =
        get_child-cell q ne cell b ∙ ap (λ c. ok c m) (child-cell_at b q' (root t) d) in
      let linked : set_child p b p' m₁ ≡ ok tt (write m₁ p (some (cell_at b p' (root t) d))) =
        set_child-cell {m = m₁} p x.ne_null used b p'
        ∙ ap (λ c. ok tt (write m₁ p (some c))) (with_child-cell_at b q' p' (root t) d) in
      rw (
        got,
        ◌>>=◌,
        not_null q' x.owns_s.0,
        hcf_clone_node-ok k m q' d' l r ample x.owns_s.0 x.owns_s.1,
        linked,
      )

  -- The old tree has a child: it is copied, and the loops go on from the copy.
  fill-node :
      (n : ℕ) (free : List Ptr) (m : Mem HcfInfo) (q p : Ptr) (d : HcfInfo) (q' : Ptr)
      (d' : HcfInfo) (l r t : Tree HcfInfo)
      → Parts (bit ip (n + 8)) m p d (node q' d' l r) t
      → q ≢ null
      → read m q ≡ some (cell_at (bit ip (n + 8)) q' (root t) d)
      → ((free : List Ptr) (m : Mem HcfInfo) (p : Ptr)
          → Owns m (node p d' l r)
          → read m q' ≡ some (node_of (root l) (root r) d')
          → Fills ip n e p free m (node p d' l r) (fill k ip n e q' p free m))
      → Fills ip
          (suc n)
          e
          p
          free
          m
          (node_at (bit ip (n + 8)) p d (node q' d' l r) t)
          (fill k ip (suc n) e q p free m)
  unfolding clone_path bits
  fill-node n free m q p d q' d' l r t x ne cell rec =
      let b = bit ip (n + 8) in
      let s : Tree HcfInfo = node q' d' l r in
      let ne' : q' ≢ null = x.owns_s.0 in
      let cell' : read m q' ≡ some (node_of (root l) (root r) d') = x.owns_s.1 in
      let p' = k.next m in
      let s₁ : Tree HcfInfo = node p' d' l r in
      let m₁ = write (copied k.zeroed m p' d' l r) p (some (cell_at b p' (root t) d)) in
      let g₁ = Steps-share b m p q' p' d d' k.zeroed l r t x (ample m) (k.fresh m (ample m)) in
      let x₁ = Owns→Parts b {m = m₁} p d s₁ t g₁.owned in
      let kept : read m₁ q' ≡ some (node_of (root l) (root r) d') =
        g₁.frame q' (not_here s p q' x.not_in_s (has_here false q' d' l r)) (λ u. cc cell')
        ∙ cell' in
      let (m', s', run, g, v, gone) = rec (free ++ q' ∷ []) m₁ p' x₁.owns_s kept in
      let spared = has-node_at-false b p d s s' t x in
      (
        m',
        node_at b p d s' t,
        fill-step n free m q p d q' d' l r t x ne cell
            ∙ run
            ∙ rw (
              below-node b (bits ip 8 n) p q' d d' l r t,
              missing-node_at b (bits ip 8 n) p d s t,
              append_assoc,
              below_root (bits ip 8 n) q' p' d' l r,
            ),
        Steps-trans (λ a. a == p) (λ a. a == p') g₁ (graft (λ a. a == p') b p d s₁ s' t x₁ g)
            (λ a h. inr (rw ((==_iff a p').0 h) (k.fresh m (ample m)))),
        view-node_at blank b (bits ip 8 n) e p d s s' t v,
        rw (below-node b (bits ip 8 n) p q' d d' l r t) (
          spared q' (has_here false q' d' l r)
              (root_gone m m₁ p' q' d' l r s' x.owns_s (k.fresh m (ample m)) kept (g.origin q')),
          rw (below_root (bits ip 8 n) q' p' d' l r) (
              All-map_2 spared (below (bits ip 8 n) s₁)
                (rw (← below_root (bits ip 8 n) q' p' d' l r) (below-has (bits ip 8 n) s)) gone),
        ),
      )

  -- One of the two children, on the side of the bit.
  fill-at :
      (n : ℕ) (free : List Ptr) (m : Mem HcfInfo) (q p : Ptr) (d : HcfInfo) (s t : Tree HcfInfo)
      → ((free : List Ptr) (m : Mem HcfInfo) (q p : Ptr) (d : HcfInfo) (l r : Tree HcfInfo)
          → Owns m (node p d l r)
          → q ≢ null
          → read m q ≡ some (node_of (root l) (root r) d)
          → Fills ip n e p free m (node p d l r) (fill k ip n e q p free m))
      → Owns m (node_at (bit ip (n + 8)) p d s t)
      → q ≢ null
      → read m q ≡ some (cell_at (bit ip (n + 8)) (root s) (root t) d)
      → Fills ip
          (suc n)
          e
          p
          free
          m
          (node_at (bit ip (n + 8)) p d s t)
          (fill k ip (suc n) e q p free m)
  fill-at n free m q p d nil t rec o ne cell =
      fill-nil n free m q p d t (Owns→Parts (bit ip (n + 8)) p d nil t o) ne cell
  fill-at n free m q p d (node q' d' l r) t rec o ne cell =
      let x = Owns→Parts (bit ip (n + 8)) p d (node q' d' l r) t o in
      fill-node n free m q p d q' d' l r t x ne cell
        (λ free' m' p' o' c'. rec free' m' q' p' d' l r o' x.owns_s.0 c')

  -- The loops of `hcf_register_ip_work` from a copy at `p` of the old node at `q`.
  pub fill-Fills :
      (n : ℕ) (free : List Ptr) (m : Mem HcfInfo) (q p : Ptr) (d : HcfInfo) (l r : Tree HcfInfo)
      → Owns m (node p d l r)
      → q ≢ null
      → read m q ≡ some (node_of (root l) (root r) d)
      → Fills ip n e p free m (node p d l r) (fill k ip n e q p free m)
  fill-Fills zero free m q p d l r o ne cell = fill-here free m q p d l r o
  fill-Fills (suc n) free m q p d l r o ne cell = elim (Bool-cases (bit ip (n + 8))) [
    | inl one ↦
        subst
          (λ b.
            Owns m (node_at b p d r l)
            → read m q ≡ some (cell_at b (root r) (root l) d)
            → Fills ip (suc n) e p free m (node_at b p d r l) (fill k ip (suc n) e q p free m))
          one (λ o' c'. fill-at n free m q p d r l (fill-Fills n) o' ne c') o cell
    | inr zero_bit ↦
        subst
          (λ b.
            Owns m (node_at b p d l r)
            → read m q ≡ some (cell_at b (root l) (root r) d)
            → Fills ip (suc n) e p free m (node_at b p d l r) (fill k ip (suc n) e q p free m))
          zero_bit (λ o' c'. fill-at n free m q p d l r (fill-Fills n) o' ne c') o cell
  ]
