-- ===== src/Hcf/System.antt =====
-- kernel/src/hcf.c as a system: hook, workqueue, grace periods and the history command, one step each.
-- The steps of a run follow one another, each to its end. The code does not enforce that: after the
-- mutex a work item still reads its new leaf and registers the callbacks, and the swap of the tree frees
-- the old tree outside of the mutex. Runs in which a history arrives in between are not runs here; there
-- the read may meet a freed node.
pub mod Shallow
pub mod Reached
pub mod Starting
use mathlib.Core.Option
use librefw.Base.{
  ℕ, Bool, true, false, Option, none, some, List, [], ◌∷◌, ◌++◌, ◌≡◌, ◌==◌, if◌then◌else◌,
}
use librefw.Base.Int.{ℤ, pos, e_nomem}
use librefw.Base.Held.{give_back_all}
use librefw.Mem.{Ptr, Mem, null, ok, fault, Cache}
use librefw.Netlink.{Nest}
use librefw.Hcf.{
  HcfInfo, Task, IpCtx, HcfState, hcf_create_node, hcf_register_ip_work, run_callbacks,
  hcf_swap_tree,
}
use librefw.Hcf.History.{hcf_register_ip_history}

-- The resources of `struct hcf_state`
abbrev pub state_memory : ℕ
state_memory = 0

abbrev pub slab_cache : ℕ
slab_cache = 1

abbrev pub workqueue : ℕ
workqueue = 2

-- The jump to an error label: what is released from there on.
abbrev pub fails : List ℕ → List ℕ → Option (List ℕ × Option HcfState × ℤ)
fails ps held = Option.map (λ h. (h, none, e_nomem)) (give_back_all ps held)

-- Whether `kzalloc`, `kmem_cache_create` and `alloc_workqueue` succeed, and what is held before: what
-- is held afterwards, the state and the code. `none` is a release of what is not held, or a crash.
unfoldable pub hcf_init_state :
    (allocated cache_made queue_made : Bool)
    → Cache HcfInfo
    → List ℕ
    → Option (List ℕ × Option HcfState × ℤ)
hcf_init_state false cache_made queue_made k held = some (held, none, e_nomem)
hcf_init_state true false queue_made k held = fails (state_memory ∷ []) (state_memory ∷ held)
hcf_init_state true true false k held =
    fails (slab_cache ∷ state_memory ∷ []) (slab_cache ∷ state_memory ∷ held)
hcf_init_state true true true k held = elim (hcf_create_node k []) [
  | fault ↦ none
  | ok new_tree m ↦
      if new_tree == null
      then fails (workqueue ∷ slab_cache ∷ state_memory ∷ [])
          (workqueue ∷ slab_cache ∷ state_memory ∷ held)
      else some (
        workqueue ∷ slab_cache ∷ state_memory ∷ held,
        some (record { tree = new_tree; mem = m; rcu = [] }),
        pos 0,
      )
]

-- What is left of the nodes, and what is held. `destroy_workqueue` runs the work items that wait; the
-- state here is the one after them. `stack` is the depth of the freeing of the tree.
unfoldable pub hcf_free_state : (stack : ℕ) → HcfState → List ℕ → Option (HcfState × List ℕ)
hcf_free_state stack st held = elim (hcf_swap_tree stack null st) [
  | none ↦ none
  | some st' ↦
      Option.map (λ h. (st', h)) (give_back_all (workqueue ∷ slab_cache ∷ state_memory ∷ []) held)
]

-- The state, the work items that wait, and the news that were sent.
pub record System : Type 0 where
  pub hcf : HcfState
  pub queue : List Task
  pub news : List IpCtx

-- `allocated` says whether `kzalloc` succeeds, `accepted` what `queue_work` returns.
unfoldable pub hcf_register_ip : (allocated accepted : Bool) → (source_ip ttl : ℕ) → System → System
hcf_register_ip false accepted source_ip ttl s = s
hcf_register_ip true false source_ip ttl s = s
hcf_register_ip true true source_ip ttl s = record s {
  queue = s.queue ++ (record { source_ip = source_ip; ttl = ttl } ∷ []);
}

abbrev pub news_of : Option IpCtx → List IpCtx
news_of none = []
news_of (some ctx) = ctx ∷ []

-- What happens: a packet is queued, a work item runs, a grace period ends, a history arrives.
pub data Event : Type 0 where
  queues : Event
  learns : Task → Event
  quiesces : Event
  restores : List Nest → Event

-- A work item may run before one that was queued earlier.
pub data Step (k : Cache HcfInfo) (stack : ℕ) : System → Event → System → Type 0 where
  step_queues :
      (s : System) (allocated accepted : Bool) (source_ip ttl : ℕ)
      → Step k stack s queues (hcf_register_ip allocated accepted source_ip ttl s)
  step_learns :
      (s : System) (before after : List Task) (task : Task) (st' : HcfState) (log : Option IpCtx)
      → s.queue ≡ before ++ (task ∷ after)
      → hcf_register_ip_work k task s.hcf ≡ some (st', log)
      → Step k stack s
          (learns task)
          (record { hcf = st'; queue = before ++ after; news = s.news ++ news_of log })
  step_quiesces :
      (s : System) (p : Ptr) (ps : List Ptr) (m : Mem HcfInfo)
      → s.hcf.rcu ≡ p ∷ ps
      → run_callbacks (p ∷ []) s.hcf.mem ≡ ok tt m
      → Step k stack s quiesces (record {
        hcf = record { tree = s.hcf.tree; mem = m; rcu = ps };
        queue = s.queue;
        news = s.news;
      })
  step_restores :
      (s : System) (attrs : List Nest) (st' : HcfState) (ret : ℤ)
      → hcf_register_ip_history k stack attrs s.hcf ≡ some (st', ret)
      → Step k stack s (restores attrs) (record { hcf = st'; queue = s.queue; news = s.news })

-- The events up to a state, the last one first
pub data Reach (k : Cache HcfInfo) (stack : ℕ) (s : System) : List Event → System → Type 0 where
  here : Reach k stack s [] s
  next :
      {es : List Event} {e : Event} {t u : System}
      → Reach k stack s es t
      → Step k stack t e u
      → Reach k stack s (e ∷ es) u
