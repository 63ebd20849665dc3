-- ===== src/Hcf/System/Starting.antt =====
-- `hcf_init_state`, `hcf_free_state`, and the system from its start.
use mathlib.Core.Path.{subst}
use librefw.Base.{
  ℕ, ◌<◌, ◌≡◌, ◌≢◌, refl, ap, ◌⊎◌, inl, inr, Bool, true, false, Option, none, some, List, [], ◌∷◌,
  arith, ◌==◌, Bool-cases, ==_iff, All,
}
use librefw.Base.Int.{ℤ, pos, e_nomem}
use librefw.Base.Held.{give_back, give_back_all}
use librefw.Mem.{Ptr, Mem, null, ok, read, Cache, IsAmple}
use librefw.Mem.Tree.{Tree, nil, node, has, view}
use librefw.Mem.Free.{height, height-depth, Freed}
use librefw.Mem.Grow.{created, not_null}
use librefw.Netlink.{Nest}
use librefw.Trie.{Trie, leaf, fork}
use librefw.Trie.Depth.{depth}
use librefw.Hcf.{
  HcfInfo, blank, Task, IpCtx, HcfState, hcf_register_ip_work, run_callbacks, hcf_swap_tree,
}
use librefw.Hcf.Path.{hcf_create_node-at}
use librefw.Hcf.Fault.{create-null}
use librefw.Hcf.Rcu.{Pending, run_callbacks-ok}
use librefw.Hcf.Register.{IsHcf, hcf_register_ip_work-put}
use librefw.Hcf.History.{hcf_register_ip_history}
use librefw.Hcf.History.Stored.{hcf_register_ip_history-stored}
use librefw.Hcf.Swap.{hcf_swap_tree-Freed}
use librefw.Hcf.System.{
  System, Event, Reach, state_memory, slab_cache, workqueue, hcf_init_state, hcf_free_state,
}
use librefw.Hcf.System.Shallow.{effects, effects-IsShallow, IsShallow}
use librefw.Hcf.System.Reached.{IsAt, Reach-IsAt}

abbrev pub all_held : List ℕ
all_held = workqueue ∷ slab_cache ∷ state_memory ∷ []

-- The first state
abbrev pub first_state : Cache HcfInfo → HcfState
first_state k = record { tree = k.next []; mem = created k blank []; rcu = [] }

init-made :
    (k : Cache HcfInfo)
    → k.next [] ≢ null
    → hcf_init_state true true true k [] ≡ some (all_held, some (first_state k), pos 0)
unfolding hcf_init_state
init-made k ne = rw (hcf_create_node-at k [] ne, not_null (k.next []) ne, hcf_init_state) refl

init-null :
    (k : Cache HcfInfo)
    → k.next [] ≡ null
    → hcf_init_state true true true k [] ≡ some ([], none, e_nomem)
unfolding hcf_init_state give_back_all give_back
init-null k full = rw (create-null k [] full, hcf_init_state) refl

pub first-IsHcf :
    (k : Cache HcfInfo) → k.next [] ≢ null → IsHcf (first_state k) (node (k.next []) blank nil nil)
first-IsHcf k ne = record {
  rooted = refl;
  owned = (ne, ground arith, refl, refl, (λ a i. cc), tt, tt);
  pending = tt;
}

first-IsAt : (k : Cache HcfInfo) → IsAmple k → IsAt (first_state k) (fork blank leaf leaf)
first-IsAt k ample = (node (k.next []) blank nil nil, first-IsHcf k (ample []), refl, omega arith)

pub work-ends :
    (k : Cache HcfInfo) (task : Task) (st : HcfState) (t : Tree HcfInfo) (x : Trie HcfInfo)
    → IsAmple k
    → IsHcf st t
    → view t ≡ x
    → IsShallow x
    → (r : HcfState × Option IpCtx) × (hcf_register_ip_work k task st ≡ some r)
work-ends k task st nil x ample h v shallow =
    absurd (omega (arith, shallow.0, height-depth nil, ap depth v))
work-ends k task st (node q d l r) x ample h v shallow =
    let (st', t', run, h', old, v', rcu) = hcf_register_ip_work-put k task st q d l r ample h in
    (_, run)

-- How an initialisation may end
abbrev pub Begins : Bool → Bool → Bool → Cache HcfInfo → Type 0
Begins allocated cache_made queue_made k =
    (held : List ℕ) × (o : Option HcfState) × (ret : ℤ) × (hcf_init_state allocated cache_made
        queue_made k []
      ≡ some (held, o, ret))
    × (((ret ≡ pos 0)
          × (held ≡ all_held)
          × (st : HcfState) × (o ≡ some st)
          × (t : Tree HcfInfo) × IsHcf st t
          × (view t ≡ fork blank leaf leaf))
        ⊎ ((ret ≡ e_nomem) × (held ≡ []) × (o ≡ none)))

-- `hcf_init_state` releases nothing that it does not hold. Either it returns 0 with everything held and
-- a state whose tree is a root alone, or `-ENOMEM` with nothing held, whichever call fails.
pub hcf_init_state-Begins :
    (allocated cache_made queue_made : Bool) (k : Cache HcfInfo)
    → Begins allocated cache_made queue_made k
unfolding hcf_init_state give_back_all give_back
hcf_init_state-Begins false cache_made queue_made k =
    ([], none, e_nomem, refl, inr (refl, refl, refl))
hcf_init_state-Begins true false queue_made k = ([], none, e_nomem, refl, inr (refl, refl, refl))
hcf_init_state-Begins true true false k = ([], none, e_nomem, refl, inr (refl, refl, refl))
hcf_init_state-Begins true true true k = elim (Bool-cases (k.next [] == null)) [
  | inl full ↦ ([], none, e_nomem, init-null k ((==_iff _ _).0 full), inr (refl, refl, refl))
  | inr some_node ↦
      let ne : k.next [] ≢ null = λ e. ground (arith, e, some_node) in
      (
        all_held,
        some (first_state k),
        pos 0,
        init-made k ne,
        inl (
          refl,
          refl,
          first_state k,
          refl,
          node (k.next []) blank nil nil,
          first-IsHcf k ne,
          refl,
        ),
      )
]

-- With memory, and a stack for more than 25 calls, the initialisation succeeds. After any run in which
-- work items, in whatever order, history messages and callbacks follow one another, each to its end
-- before the next begins, the state holds a tree of the trie that the events so far
-- make, no higher than 25 nodes; and then a work item, a history message and the callbacks that are due all
-- end without a crash.
pub Reach-sound :
    (k : Cache HcfInfo) (stack : ℕ) (es : List Event) (u : System) (task : Task) (attrs : List Nest)
    → IsAmple k
    → 25 < stack
    → Reach k stack (record { hcf = first_state k; queue = []; news = [] }) es u
    → (hcf_init_state true true true k [] ≡ some (all_held, some (first_state k), pos 0))
      × IsAt u.hcf (effects es)
      × ((r : HcfState × Option IpCtx) × (hcf_register_ip_work k task u.hcf ≡ some r))
      × ((r : HcfState × ℤ) × (hcf_register_ip_history k stack attrs u.hcf ≡ some r))
      × ((m : Mem HcfInfo) × (run_callbacks u.hcf.rcu u.hcf.mem ≡ ok tt m))
Reach-sound k stack es u task attrs ample enough r =
    let (t, h, v, low) = Reach-IsAt k stack ample enough r (first-IsAt k ample) in
    let (st', t', m, run, h', v', freed', rcu) =
      hcf_register_ip_history-stored k stack attrs u.hcf t ample h (omega arith) in
    let (m', freed, reads) = run_callbacks-ok u.hcf.mem t u.hcf.rcu h.pending in
    (
      init-made k (ample []),
      (t, h, v, low),
      work-ends k task u.hcf t (effects es) ample h v (effects-IsShallow es),
      ((st', pos 0), run),
      (m', freed),
    )

nil-out : (ps : List Ptr) → All (λ a. has {D = HcfInfo} nil a ≡ false) ps
nil-out [] = tt
nil-out (p ∷ ps) = (refl, nil-out ps)

Pending-used :
    (m : Mem HcfInfo) (t : Tree HcfInfo) (ps : List Ptr)
    → Pending m t ps
    → All (λ a. read m a ≢ none) ps
Pending-used m t [] h = tt
Pending-used m t (p ∷ ps) (ne, used, out, once, h) = (used, Pending-used m t ps h)

free-run :
    (stack : ℕ) (st st' : HcfState)
    → hcf_swap_tree stack null st ≡ some st'
    → hcf_free_state stack st all_held ≡ some (st', [])
unfolding hcf_free_state give_back_all give_back
free-run stack st st' run = rw (run, hcf_free_state) refl

-- From a state with a tree, with stack for its height, `hcf_free_state` ends without a crash, frees
-- every node of the tree and releases everything. The nodes that wait for their callbacks are still
-- in use when it destroys the slab cache.
pub hcf_free_state-Freed :
    (stack : ℕ) (st : HcfState) (t : Tree HcfInfo)
    → IsHcf st t
    → height t < stack
    → (st' : HcfState) × (hcf_free_state stack st all_held ≡ some (st', []))
      × Freed st.mem t st'.mem
      × All (λ a. read st'.mem a ≢ none) st.rcu
hcf_free_state-Freed stack st t h enough =
    let (st', run, h', freed, rcu) =
      hcf_swap_tree-Freed stack st t nil h tt (λ a i. refl) (nil-out st.rcu) enough in
    (
      st',
      free-run stack st st' run,
      freed,
      subst (All (λ a. read st'.mem a ≢ none)) rcu (Pending-used st'.mem nil st'.rcu h'.pending),
    )
