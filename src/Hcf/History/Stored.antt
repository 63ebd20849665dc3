-- ===== src/Hcf/History/Stored.antt =====
-- What the history handler leaves: a fresh tree with the entries of the message.
use mathlib.Core.Path.{fun_ext}
use librefw.Base.{
  ℕ, zero, suc, ◌<◌, ◌≡◌, ◌≢◌, refl, sym, ap, ◌∙◌, inl, inr, true, false, none, some, List, [], ◌∷◌,
  ◌==◌, Bool-cases, if◌then◌else◌, All,
}
use librefw.Base.Int.{pos}
use librefw.Mem.{Ptr, null, Mem, ok, ◌>>=◌, read, Cache, IsAmple, create_node, grow}
use librefw.Mem.Tree.{Tree, nil, node, root, has, view, Owns}
use librefw.Mem.Steps.{Steps, Owns-frame, has→in_use, Steps-refl, Steps-trans}
use librefw.Mem.Grow.{not_null, created, insert, insert-put}
use librefw.Mem.Build.{created-Owns, build_kept, build_out}
use librefw.Mem.Free.{height, Freed}
use librefw.Netlink.{Nest}
use librefw.Netlink.Attr
use librefw.Trie.{Trie, leaf, fork, put}
use librefw.Word.{bits}
use librefw.Hcf.{HcfInfo, blank, HcfState, hcf_create_node, hcf_swap_tree}
use librefw.Hcf.Path.{hcf_create_node-ok}
use librefw.Hcf.Rcu.{Pending, Pending-frame}
use librefw.Hcf.Register.{IsHcf}
use librefw.Hcf.Swap.{hcf_swap_tree-Freed}
use librefw.Hcf.History.{
  Entry, no_entry, read_entry, history_walk, insert_entry, insert_history, hcf_register_ip_history,
}

history_walk-grow :
    (k : Cache HcfInfo) (ip n : ℕ) → history_walk k ip n ≡ grow k blank (bits ip 8 n)
unfolding history_walk grow bits hcf_create_node create_node
history_walk-grow k ip zero = refl
history_walk-grow k ip (suc n) = fun_ext λ p. fun_ext λ c. rw (history_walk-grow k ip n) refl

-- The payload that an entry stores.
abbrev pub info_of : Entry → HcfInfo
info_of e = record { hc = e.hc; ttl = e.ttl }

insert_entry-insert :
    (k : Cache HcfInfo) (e : Entry) (q : Ptr) (n : ℕ)
    → insert_entry k e q n ≡ insert k blank (bits e.ip_addr 8 24) (info_of e) q n
unfolding insert_entry insert
insert_entry-insert k e q n = rw (history_walk-grow k e.ip_addr 24) refl

-- The abstract tree for the entries of a message, in their order: a later one for the same network
-- replaces an earlier one.
unfoldable pub stored : List Nest → Trie HcfInfo → Trie HcfInfo
stored [] t = t
stored (a ∷ as') t =
    let e = read_entry a.nested no_entry in
    if a.nest_type == Attr.hcf_history
    then stored as' (put blank (bits e.ip_addr 8 24) (info_of e) t)
    else stored as' t

-- A run on the tree `t` in `m` that stores the entries of `attrs`.
abbrev Stores : Cache HcfInfo → List Nest → ℕ → Mem HcfInfo → Tree HcfInfo → Type 0
Stores k attrs n m t =
    (m' : Mem HcfInfo) × (t' : Tree HcfInfo) × (n' : ℕ) × (insert_history k attrs (root t) n m
      ≡ ok n' m')
    × Steps (has t) m t m' t'
    × (view t' ≡ stored attrs (view t))

Stores-entry :
    (k : Cache HcfInfo) (a : Nest) (as' : List Nest) (n n₁ : ℕ) (m m₁ : Mem HcfInfo)
    (t t₁ : Tree HcfInfo)
    → (a.nest_type == Attr.hcf_history) ≡ true
    → insert k blank
        (bits (read_entry a.nested no_entry).ip_addr 8 24)
        (info_of (read_entry a.nested no_entry))
        (root t)
        n
        m
      ≡ ok n₁ m₁
    → Steps (has t) m t m₁ t₁
    → view t₁
      ≡ put blank
          (bits (read_entry a.nested no_entry).ip_addr 8 24)
          (info_of (read_entry a.nested no_entry))
          (view t)
    → Stores k as' n₁ m₁ t₁
    → Stores k (a ∷ as') n m t
unfolding insert_history stored
Stores-entry k a as' n n₁ m m₁ t t₁ is run g v (m', t', n', run', g', v') = (
  m',
  t',
  n',
  rw (is, insert_entry-insert k (read_entry a.nested no_entry) (root t) n, ◌>>=◌, run)
      (ap (λ q. insert_history k as' q n₁ m₁) (sym g.rooted) ∙ run'),
  Steps-trans (has t) (has t₁) g g' (λ a i. g.origin a i),
  rw is (v' ∙ ap (stored as') v),
)

insert_history-Stores :
    (k : Cache HcfInfo) (attrs : List Nest) (n : ℕ) (m : Mem HcfInfo) (t : Tree HcfInfo)
    → IsAmple k
    → Owns m t
    → root t ≢ null
    → Stores k attrs n m t
unfolding insert_history stored
insert_history-Stores k [] n m t ample o ne =
    (m, t, n, refl, Steps-refl (has t) m t o (λ a i. i), refl)
insert_history-Stores k (x ∷ as') n m nil ample o ne = absurd (ne refl)
insert_history-Stores k (x ∷ as') n m (node p d l r) ample o ne =
    let t : Tree HcfInfo = node p d l r in
    elim (Bool-cases (x.nest_type == Attr.hcf_history)) [
      | inl is ↦
          let e = read_entry x.nested no_entry in
          let (m₁, t₁, run, g, v) =
            insert-put k blank (bits e.ip_addr 8 24) (info_of e) n m p d l r ample o in
          Stores-entry k x as' n _ m m₁ t t₁ is run g v
            (insert_history-Stores k as' _ m₁ t₁ ample g.owned (λ e. ne (sym g.rooted ∙ e)))
      | inr other ↦
          let (m', t', n', run, g, v) = insert_history-Stores k as' n m t ample o ne in
          (m', t', n', rw other run, g, rw other v)
    ]

Pending-All :
    (Q : Ptr → Type 0) (m : Mem HcfInfo) (t : Tree HcfInfo) (ps : List Ptr)
    → Pending m t ps
    → ((a : Ptr) → read m a ≢ none → Q a)
    → All Q ps
Pending-All Q m t [] h f = tt
Pending-All Q m t (p ∷ ps) h f = (f p h.1, Pending-All Q m t ps h.4 f)

history-run :
    (k : Cache HcfInfo) (fuel : ℕ) (attrs : List Nest) (st st' : HcfState) (m : Mem HcfInfo)
    (q : Ptr) (n : ℕ)
    → IsAmple k
    → insert_history k attrs (k.next st.mem) 0 (created k blank st.mem) ≡ ok n m
    → q ≡ k.next st.mem
    → hcf_swap_tree fuel q (record { tree = st.tree; mem = m; rcu = st.rcu }) ≡ some st'
    → hcf_register_ip_history k fuel attrs st ≡ some (st', pos 0)
unfolding hcf_register_ip_history
history-run k fuel attrs st st' m q n ample run same swap = rw (
  hcf_create_node-ok k st.mem ample,
  not_null (k.next st.mem) (ample st.mem),
  run,
  ap (λ a. hcf_swap_tree fuel a (record { tree = st.tree; mem = m; rcu = st.rcu })) (sym same)
      ∙ swap,
  hcf_register_ip_history,
)

-- With memory, and fuel above the height of the old tree, the handler answers 0 and leaves a state
-- whose tree has the entries of the message and nothing else; all nodes of the old tree are
-- free, and the nodes that wait for their callbacks are still no part of the tree.
pub hcf_register_ip_history-stored :
    (k : Cache HcfInfo) (fuel : ℕ) (attrs : List Nest) (st : HcfState) (t : Tree HcfInfo)
    → IsAmple k
    → IsHcf st t
    → height t < fuel
    → (st' : HcfState) × (t' : Tree HcfInfo) × (m : Mem HcfInfo) × (hcf_register_ip_history k fuel
          attrs st
        ≡ some (st', pos 0))
      × IsHcf st' t'
      × (view t' ≡ stored attrs (fork blank leaf leaf))
      × Freed m t st'.mem
      × (st'.rcu ≡ st.rcu)
hcf_register_ip_history-stored k fuel attrs st t ample h enough =
    let m = st.mem in
    let p = k.next m in
    let fresh = k.fresh m (ample m) in
    let (m', t', n, run, g, v) =
      insert_history-Stores k attrs 0 (created k blank m) (node p blank nil nil) ample
        (created-Owns k blank m ample) (ample m) in
    let kept = build_kept blank k.zeroed m m' p t' fresh g in
    let out = build_out blank k.zeroed m m' p t' fresh g in
    let now : HcfState = record { tree = st.tree; mem = m'; rcu = st.rcu } in
    let held : IsHcf now t = record {
      rooted = h.rooted;
      owned = Owns-frame m m' t h.owned (λ a i. kept a (has→in_use m t a h.owned i));
      pending =
          Pending-frame m m' t t st.rcu h.pending
            (λ a used o. ((λ e. used (sym (kept a used) ∙ e)), o));
    } in
    let (st', swap, h', freed, same) =
      hcf_swap_tree-Freed fuel now t t' held g.owned (λ a i. out a (has→in_use m t a h.owned i))
        (Pending-All (λ a. has t' a ≡ false) m t st.rcu h.pending out) enough in
    (
      st',
      t',
      m',
      history-run k fuel attrs st st' m' (root t') n ample run g.rooted swap,
      h',
      v,
      freed,
      same,
    )
