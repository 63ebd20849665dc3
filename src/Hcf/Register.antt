-- ===== src/Hcf/Register.antt =====
-- `hcf_register_ip_work` as a whole: the abstract update, what readers of the old tree keep, and
-- what is handed to the grace period.
use librefw.Base.{
  ℕ, ◌≡◌, ◌≢◌, refl, sym, ap, ◌∙◌, inl, inr, true, false, Option, none, some, List, [], ◌∷◌, ◌++◌,
  arith, ◌==◌, ==_iff, Bool-cases, ltb, if◌then◌else◌, All,
}
use librefw.Mem.{
  Ptr, null, Mem, Node, ok, fault, Cmd, load, set_info, pure, ◌>>=◌, >>=-ok, read, Cache, IsAmple,
}
use librefw.Mem.Tree.{
  Tree, node, root, has, view, Owns, below, trail, below-has, has_here, has_s, has_t, has_cases,
  below_root,
}
use librefw.Mem.Steps.{Steps, Owns-frame, has→in_use, unused→not_has}
use librefw.Mem.Share.{copied}
use librefw.Mem.Grow.{not_null, set_info-cases, Run-cases}
use librefw.Trie.{Bits, put, missing}
use librefw.Word.{bits}
use librefw.Hcf.{
  HcfInfo, blank, Task, IpCtx, HcfState, hop_count, hcf_clone_node, copy_path, register_path,
  report_learnt, hcf_register_ip_work,
}
use librefw.Hcf.Path.{hcf_clone_node-ok}
use librefw.Hcf.Copy.{fill, fill-Fills, root_gone}
use librefw.Hcf.Rcu.{Pending, Pending-register, below-distinct, once_below}

-- The state holds the tree, and the nodes that wait for their callbacks are no part of it.
pub record IsHcf (st : HcfState) (t : Tree HcfInfo) : Type 0 where
  pub rooted : st.tree ≡ root t
  pub owned : Owns st.mem t
  pub pending : Pending st.mem t st.rcu

-- What a task stores.
abbrev pub learnt : Task → HcfInfo
learnt task = record { hc = hop_count task.ttl; ttl = task.ttl }

-- The result without the leaf
abbrev found_by : Ptr × List Ptr × ℕ × Ptr → Cmd HcfInfo (Ptr × List Ptr × ℕ)
found_by (p, free, c, leaf) = pure (p, free, c)

register_path-fill :
    (k : Cache HcfInfo) (task : Task) (q p : Ptr) (m m₁ : Mem HcfInfo)
    → hcf_clone_node k q m ≡ ok p m₁
    → (register_path k task q >>= found_by) m
      ≡ (fill k task.source_ip 24 (learnt task) q p (q ∷ []) >>= λ (free, c). pure (p, free, c)) m₁
unfolding register_path copy_path
register_path-fill k task q p m m₁ e = rw (e, ◌>>=◌) (ground arith)

module _ (k : Cache HcfInfo) (task : Task) (q : Ptr) (m : Mem HcfInfo) where
  no_copy : copy_path k task q m ≡ fault → register_path k task q m ≡ fault
  unfolding register_path
  no_copy e = rw (e, ◌>>=◌) refl

  no_leaf :
      (p leaf : Ptr) (free : List Ptr) (c : ℕ) (m₁ : Mem HcfInfo)
      → copy_path k task q m ≡ ok (p, free, c, leaf) m₁
      → set_info leaf (learnt task) m₁ ≡ fault
      → register_path k task q m ≡ fault
  unfolding register_path
  no_leaf p leaf free c m₁ e e' = rw (e, ◌>>=◌, e') refl

  a_leaf :
      (p leaf : Ptr) (free : List Ptr) (c : ℕ) (m₁ m₂ : Mem HcfInfo)
      → copy_path k task q m ≡ ok (p, free, c, leaf) m₁
      → set_info leaf (learnt task) m₁ ≡ ok tt m₂
      → register_path k task q m ≡ ok (p, free, c, leaf) m₂
  unfolding register_path
  a_leaf p leaf free c m₁ m₂ e e' = rw (e, ◌>>=◌, e') refl

  -- The leaf holds what the task stores.
  register_path-leaf :
      (p leaf : Ptr) (free : List Ptr) (c : ℕ) (m' : Mem HcfInfo)
      → register_path k task q m ≡ ok (p, free, c, leaf) m'
      → (n : Node HcfInfo) × (load leaf m' ≡ ok n m') × (n.info ≡ learnt task)
  register_path-leaf p leaf free c m' run = elim (Run-cases (copy_path k task q m)) [
    | inr e ↦ absurd (cc (no_copy e, run))
    | inl ((p₁, free₁, c₁, leaf₁), m₁, e) ↦ elim (set_info-cases leaf₁ (learnt task) m₁) [
      | inl e' ↦ absurd (cc (no_leaf p₁ leaf₁ free₁ c₁ m₁ e e', run))
      | inr (n, m₂, e', there, info) ↦
          let whole = a_leaf p₁ leaf₁ free₁ c₁ m₁ m₂ e e' in
          let same : leaf₁ ≡ leaf = cc (whole, run) in
          let same_mem : m₂ ≡ m' = cc (whole, run) in (n, cc (same, same_mem, there), info)
    ]
  ]

Owns-clone :
    (z : HcfInfo) (m : Mem HcfInfo) (q p : Ptr) (d : HcfInfo) (l r : Tree HcfInfo)
    → Owns m (node q d l r)
    → p ≢ null
    → read m p ≡ none
    → Owns (copied z m p d l r) (node p d l r)
Owns-clone z m q p d l r (ne, cell, nl, nr, apart, ol, or) ne' fresh = (
  ne',
  ground arith,
  unused→not_has m l p ol fresh,
  unused→not_has m r p or fresh,
  apart,
  Owns-frame m (copied z m p d l r) l ol (λ a h. ground (arith, unused→not_has m l p ol fresh)),
  Owns-frame m (copied z m p d l r) r or (λ a h. ground (arith, unused→not_has m r p or fresh)),
)

kept-copied :
    (z : HcfInfo) (m : Mem HcfInfo) (p : Ptr) (d : HcfInfo) (l r : Tree HcfInfo)
    → read m p ≡ none
    → (a : Ptr) → read m a ≢ none
    → read (copied z m p d l r) a ≡ read m a
kept-copied z m p d l r fresh a used =
    let ne : a ≢ p = λ e. used (ap (read m) e ∙ fresh) in ground arith

-- What a run from the copy at `p` of the root of `t` leaves: `t`, and its path to free.
module _ (z : HcfInfo) (m m' : Mem HcfInfo) (q p : Ptr) (d : HcfInfo) (l r t' : Tree HcfInfo)
    (bs : Bits) (o : Owns m (node q d l r)) (fresh : read m p ≡ none)
    (g : Steps (λ a. a == p) (copied z m p d l r) (node p d l r) m' t') where
  kept : (a : Ptr) → read m a ≢ none → read (copied z m p d l r) a ≡ read m a
  kept = kept-copied z m p d l r fresh

  kept_all : (a : Ptr) → read m a ≢ none → read m' a ≡ read m a
  kept_all a used =
      g.frame a
        (elim (Bool-cases (a == p)) [
          | inl e ↦ absurd (used (ap (read m) ((==_iff a p).0 e) ∙ fresh))
          | inr out ↦ out
        ])
        (rw (kept a used) used)
      ∙ kept a used

  Owns-old : Owns m' (node q d l r)
  Owns-old =
      Owns-frame m m' (node q d l r) o (λ a i. kept_all a (has→in_use m (node q d l r) a o i))

  in_old : (a : Ptr) → read m a ≢ none → has t' a ≡ true → has (node q d l r) a ≡ true
  in_old a used i = elim (g.origin a i) [
    | inr gone ↦ absurd (used (sym (kept a used) ∙ gone))
    | inl j ↦ elim (has_cases false p d l r a j) [
      | inl e ↦ absurd (used (ap (read m) e ∙ fresh))
      | inr (inl in_l) ↦ has_s false q d l r a in_l
      | inr (inr in_r) ↦ has_t false q d l r a in_r
    ]
  ]

  Pending-new :
      (ps : List Ptr)
      → Pending m (node q d l r) ps
      → All (λ a. has t' a ≡ false) (below bs (node p d l r))
      → Pending m' t' (ps ++ q ∷ below bs (node q d l r))
  Pending-new ps h gone =
      let t : Tree HcfInfo = node q d l r in
      let used_q : read m q ≢ none = has→in_use m t q o (has_here false q d l r) in
      let gone' : All (λ a. has t' a ≡ false) (below bs t) = rw (below_root bs q p d l r) gone in
      let used : (a : Ptr) → read m a ≢ none → read m' a ≢ none = λ a u. rw (kept_all a u) u in
      let path : Pending m' t' (q ∷ below bs t) = (
        o.0,
        used q used_q,
        root_gone m (copied z m p d l r) p q d l r t' o fresh (kept q used_q ∙ o.1) (g.origin q),
        once_below bs m q d l r o,
        below-distinct bs m m' t t' o (λ a i. used a (has→in_use m t a o i)) gone',
      ) in
      Pending-register m m' t t' ps (q ∷ below bs t) o h path (λ a u. (used a u, in_old a u))
        (has_here false q d l r, below-has bs t)

-- Where the work item ends from a state with the tree `t`.
abbrev pub Registers : Cache HcfInfo → Task → HcfState → Tree HcfInfo → Type 0
Registers k task st t =
    let path = bits task.source_ip 8 24 in
    (st' : HcfState) × (t' : Tree HcfInfo) × (hcf_register_ip_work k task st
      ≡ some (
        st',
        if ltb 0 (missing path (view t))
            then some
                (record { source_ip = task.source_ip; ttl = task.ttl; hc = hop_count task.ttl })
            else none,
      ))
    × IsHcf st' t'
    × Owns st'.mem t
    × (view t' ≡ put blank path (learnt task) (view t))
    × (st'.rcu ≡ st.rcu ++ trail path t)

report-some :
    (task : Task) (leaf : Ptr) (c : ℕ) (m : Mem HcfInfo) (n : Node HcfInfo)
    → load leaf m ≡ ok n m
    → n.info ≡ learnt task
    → report_learnt task leaf c m
      ≡ ok
          (if ltb 0 c
            then some
                (record { source_ip = task.source_ip; ttl = task.ttl; hc = hop_count task.ttl })
            else none)
          m
unfolding report_learnt
report-some task leaf c m n e info = elim (Bool-cases (ltb 0 c)) [
  | inl made ↦
      let ttl : n.info.ttl ≡ task.ttl = ap (λ (i : HcfInfo). i.ttl) info in
      let hc : n.info.hc ≡ hop_count task.ttl = ap (λ (i : HcfInfo). i.hc) info in
      rw (made, e, ◌>>=◌, ttl, hc) refl
  | inr kept_all ↦ rw kept_all refl
]

work-run :
    (k : Cache HcfInfo) (task : Task) (st : HcfState) (p leaf : Ptr) (free : List Ptr) (c : ℕ)
    (m : Mem HcfInfo) (log : Option IpCtx)
    → st.tree ≢ null
    → register_path k task st.tree st.mem ≡ ok (p, free, c, leaf) m
    → report_learnt task leaf c m ≡ ok log m
    → hcf_register_ip_work k task st
      ≡ some (record { tree = p; mem = m; rcu = st.rcu ++ free }, log)
unfolding hcf_register_ip_work
work-run k task st p leaf free c m log ne e e' =
    rw (not_null st.tree ne, e, e', hcf_register_ip_work) refl

found-run :
    (k : Cache HcfInfo) (task : Task) (q p leaf : Ptr) (free : List Ptr) (c : ℕ)
    (m m' : Mem HcfInfo)
    → register_path k task q m ≡ ok (p, free, c, leaf) m'
    → (register_path k task q >>= found_by) m ≡ ok (p, free, c) m'
found-run k task q p leaf free c m m' e = rw (e, ◌>>=◌) refl

found-fault :
    (k : Cache HcfInfo) (task : Task) (q : Ptr) (m : Mem HcfInfo)
    → register_path k task q m ≡ fault
    → (register_path k task q >>= found_by) m ≡ fault
found-fault k task q m e = rw (e, ◌>>=◌) refl

hcf_register_ip_work-step :
    (k : Cache HcfInfo) (task : Task) (st : HcfState) (p : Ptr) (free : List Ptr) (c : ℕ)
    (m : Mem HcfInfo)
    → st.tree ≢ null
    → (register_path k task st.tree >>= found_by) st.mem ≡ ok (p, free, c) m
    → hcf_register_ip_work k task st
      ≡ some (
        record { tree = p; mem = m; rcu = st.rcu ++ free },
        if ltb 0 c
            then some
                (record { source_ip = task.source_ip; ttl = task.ttl; hc = hop_count task.ttl })
            else none,
      )
hcf_register_ip_work-step k task st p free c m ne run =
    elim (Run-cases (register_path k task st.tree st.mem)) [
      | inr e ↦ absurd (cc (found-fault k task st.tree st.mem e, run))
      | inl ((p₁, free₁, c₁, leaf), m₁, e) ↦
          let found = found-run k task st.tree p₁ leaf free₁ c₁ st.mem m₁ e in
          let same_p : p₁ ≡ p = cc (found, run) in
          let same_free : free₁ ≡ free = cc (found, run) in
          let same_c : c₁ ≡ c = cc (found, run) in
          let same_m : m₁ ≡ m = cc (found, run) in
          let (n, there, info) = register_path-leaf k task st.tree st.mem p₁ leaf free₁ c₁ m₁ e in
          let ends = report-some task leaf c₁ m₁ n there info in
          work-run k task st p₁ leaf free₁ c₁ m₁ _ ne e ends
          ∙ rw (same_p, same_free, same_c, same_m) refl
    ]

-- With memory for the copies and a tree in the state the work item ends without a crash. The new
-- tree is the old one with the task's TTL and hop count at the upper 24 bits of its address; the old
-- tree is still held by the memory; its path waits for the grace period and is no part of the
-- new tree; and a message is sent exactly if nodes had to be created.
pub hcf_register_ip_work-put :
    (k : Cache HcfInfo) (task : Task) (st : HcfState) (q : Ptr) (d : HcfInfo) (l r : Tree HcfInfo)
    → IsAmple k
    → IsHcf st (node q d l r)
    → Registers k task st (node q d l r)
unfolding trail
hcf_register_ip_work-put k task st q d l r ample h =
    let m = st.mem in
    let t : Tree HcfInfo = node q d l r in
    let bs = bits task.source_ip 8 24 in
    let p = k.next m in
    let fresh = k.fresh m (ample m) in
    let o₁ = Owns-clone k.zeroed m q p d l r h.owned (ample m) fresh in
    let m₁ = copied k.zeroed m p d l r in
    let used : read m q ≢ none = λ e. cc (h.owned.1) in
    let (m', t', run, g, v, gone) =
      fill-Fills k ample task.source_ip (learnt task) 24 (q ∷ []) (copied k.zeroed m p d l r) q p d
        l r o₁ h.owned.0 (kept-copied k.zeroed m p d l r fresh q used ∙ h.owned.1) in
    (
      record { tree = p; mem = m'; rcu = st.rcu ++ q ∷ below bs (node q d l r) },
      t',
      hcf_register_ip_work-step k task st p (q ∷ below bs t) (missing bs (view t)) m'
          (λ e. h.owned.0 (sym h.rooted ∙ e))
          (ap (λ a. (register_path k task a >>= found_by) m) h.rooted
            ∙ register_path-fill k task q p m m₁
                (hcf_clone_node-ok k m q d l r ample h.owned.0 h.owned.1)
            ∙ >>=-ok (fill k task.source_ip 24 (learnt task) q p (q ∷ []))
                (λ (free, c). pure (p, free, c)) run
            ∙ ap (λ ps. ok (p, q ∷ ps, missing bs (view t)) m') (below_root bs p q d l r)),
      record {
        rooted = sym g.rooted;
        owned = g.owned;
        pending = Pending-new k.zeroed m m' q p d l r t' bs h.owned fresh g st.rcu h.pending gone;
      },
      Owns-old k.zeroed m m' q p d l r t' bs h.owned fresh g,
      v,
      refl,
    )
