-- ===== src/Mem/Share.antt =====
-- One step of the copying of a path: the node at `p` is already a copy, its child at `b` is copied
-- to a new address, and the copy shares that child's children.
use librefw.Base.{
  ◌≡◌, ◌≢◌, ap, ◌∙◌, inl, inr, Bool, true, false, none, some, arith, ◌==◌, ==_iff, Bool-cases,
}
use librefw.Mem.{Ptr, null, Node, Mem, node_of, read, write}
use librefw.Mem.Tree.{
  Tree, node, root, has, node_at, cell_at, Parts, has_here, has_s, has_t, has_cases,
}
use librefw.Mem.Steps.{Steps, Owns-frame, has→in_use, unused→not_has, rebuild}

module _ {D : Type 0} where
  -- The memory after the copy of the node `node p' d' l r` to `q`, before it is linked.
  abbrev pub copied : (z : D) (m : Mem D) (q : Ptr) (d' : D) (l r : Tree D) → Mem D
  copied z m q d' l r =
      write (write m q (some (node_of null null z))) q (some (node_of (root l) (root r) d'))

  -- What is in use and is not `p` stays as it was.
  frame-copied :
      (z : D) (m : Mem D) (p q : Ptr) (d' : D) (l r : Tree D) (c : Node D) (a : Ptr)
      → read m q ≡ none
      → (a == p) ≡ false
      → read m a ≢ none
      → read (write (copied z m q d' l r) p (some c)) a ≡ read m a
  frame-copied z m p q d' l r c a fresh o used =
      let aq : a ≢ q = λ e. used (ap (read m) e ∙ fresh) in ground arith

  pub not_here : (t : Tree D) (p a : Ptr) → has t p ≡ false → has t a ≡ true → (a == p) ≡ false
  not_here t p a out h = elim (Bool-cases (a == p)) [ inl e ↦ cc ((==_iff a p).0 e) | inr o ↦ o ]

  pub Steps-share :
      (b : Bool) (m : Mem D) (p p' q : Ptr) (d d' z : D) (l r t : Tree D)
      → Parts b m p d (node p' d' l r) t
      → q ≢ null
      → read m q ≡ none
      → Steps
          (λ a. a == p)
          m
          (node_at b p d (node p' d' l r) t)
          (write (copied z m q d' l r) p (some (cell_at b q (root t) d)))
          (node_at b p d (node q d' l r) t)
  Steps-share b m p p' q d d' z l r t x ne fresh =
      let qp : q ≢ p = λ e. cc x.cell in
      let s : Tree D = node p' d' l r in
      let m₁ = write (copied z m q d' l r) p (some (cell_at b q (root t) d)) in
      let same : (a : Ptr) → (a == p) ≡ false → read m a ≢ none → read m₁ a ≡ read m a =
        λ a. frame-copied z m p q d' l r (cell_at b q (root t) d) a fresh in
      let (_, _, _, _, apart, ol, or) = x.owns_s in
      rebuild (λ a. a == p) b p d s (node q d' l r) t x (ground arith)
        (
          ne,
          ground arith,
          unused→not_has m l q ol fresh,
          unused→not_has m r q or fresh,
          apart,
          Owns-frame m m₁ l ol (λ a h.
              same a (not_here s p a x.not_in_s (has_s false p' d' l r a h))
                (has→in_use m l a ol h)),
          Owns-frame m m₁ r or (λ a h.
              same a (not_here s p a x.not_in_s (has_t false p' d' l r a h))
                (has→in_use m r a or h)),
        )
        (λ a h. rw ((==_iff a p).0 h) (has_here b p d s t)) same
        (λ a h. not_here t p a x.not_in_t h)
        (λ a h. elim (has_cases false q d' l r a h) [
          | inl e ↦ inr (rw e fresh)
          | inr (inl i) ↦ inl (has_s false p' d' l r a i)
          | inr (inr i) ↦ inl (has_t false p' d' l r a i)
        ])
