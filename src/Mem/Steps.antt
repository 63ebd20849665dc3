-- ===== src/Mem/Steps.antt =====
-- What a run that changes a tree may do to the memory. `Steps w m t m' t'`: from the memory `m`
-- with the tree `t` to `m'` with `t'`, writing only where `w` holds and at addresses not in use.
use librefw.Base.{
  ◌≡◌, ◌≢◌, refl, sym, ◌∙◌, ◌⊎◌, inl, inr, Bool, true, false, none, some, arith, ◌==◌, ==_iff,
  Bool-cases, Option-cases,
}
use librefw.Mem.{Ptr, null, Mem, node_of, read, write}
use librefw.Mem.Tree.{
  Tree, nil, node, root, has, Owns, node_at, cell_at, Parts, Parts→Owns, root-node_at, has_here,
  has_s, has_t, has_cases,
}

module _ {D : Type 0} where
  -- every node of an owned tree is in use
  pub has→in_use : (m : Mem D) (t : Tree D) (a : Ptr) → Owns m t → has t a ≡ true → read m a ≢ none
  has→in_use m nil a o h = cc
  has→in_use m (node p d l r) a o h = ground (arith, has→in_use m l a o.5, has→in_use m r a o.6)

  pub unused→not_has :
      (m : Mem D) (t : Tree D) (a : Ptr) → Owns m t → read m a ≡ none → has t a ≡ false
  unused→not_has m t a o e = ground (arith, has→in_use m t a o)

  -- `m'` holds at the addresses of `t` what `m` holds there
  pub Owns-frame :
      (m m' : Mem D) (t : Tree D)
      → Owns m t
      → ((a : Ptr) → has t a ≡ true → read m' a ≡ read m a)
      → Owns m' t
  Owns-frame m m' nil o same = tt
  Owns-frame m m' (node p d l r) (ne, cell, nl, nr, apart, ol, or) same = (
    ne,
    same p (has_here false p d l r) ∙ cell,
    nl,
    nr,
    apart,
    Owns-frame m m' l ol (λ a h. same a (has_s false p d l r a h)),
    Owns-frame m m' r or (λ a h. same a (has_t false p d l r a h)),
  )

  pub record Steps (w : Ptr → Bool) (m : Mem D) (t : Tree D) (m' : Mem D) (t' : Tree D)
      : Type 0 where
    pub owned : Owns m' t'
    pub rooted : root t' ≡ root t
    pub inside : (a : Ptr) → w a ≡ true → has t a ≡ true
    pub frame : (a : Ptr) → w a ≡ false → read m a ≢ none → read m' a ≡ read m a
    pub origin : (a : Ptr) → has t' a ≡ true → (has t a ≡ true) ⊎ (read m a ≡ none)

  pub Steps-refl :
      (w : Ptr → Bool) (m : Mem D) (t : Tree D)
      → Owns m t
      → ((a : Ptr) → w a ≡ true → has t a ≡ true)
      → Steps w m t m t
  Steps-refl w m t o inside = record {
    owned = o;
    rooted = refl;
    inside = inside;
    frame = λ a out used. refl;
    origin = λ a h. inl h;
  }

  -- the second run may write where the first may, and at addresses that were not in use
  pub Steps-trans :
      (w v : Ptr → Bool) {m m₁ m₂ : Mem D} {t t₁ t₂ : Tree D}
      → Steps w m t m₁ t₁
      → Steps v m₁ t₁ m₂ t₂
      → ((a : Ptr) → v a ≡ true → (w a ≡ true) ⊎ (read m a ≡ none))
      → Steps w m t m₂ t₂
  Steps-trans w v {m} {m₁} {t} f g within = record {
    owned = g.owned;
    rooted = g.rooted ∙ f.rooted;
    inside = f.inside;
    frame = λ a o used. elim (Bool-cases (v a)) [
      | inl i ↦ elim (within a i) [ inl e ↦ cc | inr e ↦ absurd (used e) ]
      | inr out ↦ g.frame a out (rw (f.frame a o used) used) ∙ f.frame a o used
    ];
    origin = λ a h. elim (g.origin a h) [
      | inl i ↦ f.origin a i
      | inr e ↦ elim (Option-cases (read m a)) [
        | inl none_at ↦ inr none_at
        | inr (c, some_at) ↦ elim (Bool-cases (w a)) [
          | inl i ↦ inl (f.inside a i)
          | inr o ↦ cc (f.frame a o (λ n. cc))
        ]
      ]
    ];
  }

  -- One child of a node is replaced: `s` by `s'`.
  pub rebuild :
      (w : Ptr → Bool) (b : Bool) {m m' : Mem D} (p : Ptr) (d : D) (s s' t : Tree D)
      → Parts b m p d s t
      → read m' p ≡ some (cell_at b (root s') (root t) d)
      → Owns m' s'
      → ((a : Ptr) → w a ≡ true → has (node_at b p d s t) a ≡ true)
      → ((a : Ptr) → w a ≡ false → read m a ≢ none → read m' a ≡ read m a)
      → ((a : Ptr) → has t a ≡ true → w a ≡ false)
      → ((a : Ptr) → has s' a ≡ true → (has s a ≡ true) ⊎ (read m a ≡ none))
      → Steps w m (node_at b p d s t) m' (node_at b p d s' t)
  rebuild w b {m} {m'} p d s s' t x cell os inside frame spared origin = record {
    owned = Parts→Owns b p d s' t (record {
      ne_null = x.ne_null;
      cell = cell;
      not_in_s = elim (Bool-cases (has s' p)) [
        | inl i ↦ elim (origin p i) [ inl j ↦ cc x.not_in_s | inr e ↦ cc x.cell ]
        | inr o ↦ o
      ];
      not_in_t = x.not_in_t;
      apart = λ a i. elim (origin a i) [
        | inl j ↦ x.apart a j
        | inr e ↦ unused→not_has m t a x.owns_t e
      ];
      owns_s = os;
      owns_t =
          Owns-frame m m' t x.owns_t (λ a i. frame a (spared a i) (has→in_use m t a x.owns_t i));
    });
    rooted = root-node_at b p d s' t ∙ sym (root-node_at b p d s t);
    inside = inside;
    frame = frame;
    origin = λ a h. elim (has_cases b p d s' t a h) [
      | inl e ↦ inl (rw e (has_here b p d s t))
      | inr (inl i) ↦ elim (origin a i) [ inl j ↦ inl (has_s b p d s t a j) | inr e ↦ inr e ]
      | inr (inr i) ↦ inl (has_t b p d s t a i)
    ];
  }

  -- A run on one child is a run on the whole node.
  pub graft :
      (w : Ptr → Bool) (b : Bool) {m m' : Mem D} (p : Ptr) (d : D) (s s' t : Tree D)
      → Parts b m p d s t
      → Steps w m s m' s'
      → Steps w m (node_at b p d s t) m' (node_at b p d s' t)
  graft w b p d s s' t x g =
      let out : w p ≡ false = elim (Bool-cases (w p)) [
        | inl i ↦ cc (g.inside p i, x.not_in_s)
        | inr o ↦ o
      ] in
      rebuild w b p d s s' t x (g.frame p out (λ n. cc x.cell) ∙ rw g.rooted x.cell) g.owned
        (λ a i. has_s b p d s t a (g.inside a i)) g.frame
        (λ a i. elim (Bool-cases (w a)) [ inl j ↦ cc (x.apart a (g.inside a j)) | inr o ↦ o ])
        g.origin

  -- The walk may write in more places than it says.
  pub Steps-widen :
      (w v : Ptr → Bool) {m m' : Mem D} {t t' : Tree D}
      → Steps w m t m' t'
      → ((a : Ptr) → w a ≡ true → v a ≡ true)
      → ((a : Ptr) → v a ≡ true → has t a ≡ true)
      → Steps v m t m' t'
  Steps-widen w v g wide inside = record {
    owned = g.owned;
    rooted = g.rooted;
    inside = inside;
    frame = λ a o used.
        g.frame a (elim (Bool-cases (w a)) [ inl i ↦ cc (wide a i) | inr out ↦ out ]) used;
    origin = g.origin;
  }

  -- A payload is overwritten.
  pub Steps-info :
      (m : Mem D) (p : Ptr) (d e : D) (l r : Tree D)
      → Owns m (node p d l r)
      → Steps
          (λ a. a == p)
          m
          (node p d l r)
          (write m p (some (node_of (root l) (root r) e)))
          (node p e l r)
  Steps-info m p d e l r (ne, cell, nl, nr, apart, ol, or) = record {
    owned = (
      ne,
      ground arith,
      nl,
      nr,
      apart,
      Owns-frame m (write m p (some (node_of (root l) (root r) e))) l ol (λ a h. ground arith),
      Owns-frame m (write m p (some (node_of (root l) (root r) e))) r or (λ a h. ground arith),
    );
    rooted = refl;
    inside = λ a h. ground arith;
    frame = λ a o used. ground arith;
    origin = λ a h. inl h;
  }

  -- A missing child is created.
  pub Steps-create :
      (b : Bool) (m : Mem D) (p q : Ptr) (d z z' : D) (t : Tree D)
      → Parts b m p d nil t
      → q ≢ null
      → read m q ≡ none
      → Steps
          (λ a. a == p)
          m
          (node_at b p d nil t)
          (write
            (write (write m q (some (node_of null null z'))) q (some (node_of null null z)))
            p
            (some (cell_at b q (root t) d)))
          (node_at b p d (node q z nil nil) t)
  Steps-create b m p q d z z' t x ne fresh =
      let qp : q ≢ p = λ e. cc x.cell in
      rebuild (λ a. a == p) b p d nil (node q z nil nil) t x (ground arith)
        (ne, ground arith, refl, refl, λ a h. cc, tt, tt)
        (λ a h. rw ((==_iff a p).0 h) (has_here b p d nil t)) (λ a o used. ground arith)
        (λ a h. elim (Bool-cases (a == p)) [
          | inl e ↦ cc ((==_iff a p).0 e, x.not_in_t)
          | inr o ↦ o
        ])
        (λ a h. inr (ground arith))
