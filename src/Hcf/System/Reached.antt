-- ===== src/Hcf/System/Reached.antt =====
-- Every state that the system reaches holds the tree that its events say, at most 25 nodes high.
use mathlib.Core.Path.{subst}
use librefw.Base.{
  ℕ, ◌≤◌, ◌<◌, ◌≡◌, refl, sym, ap, ◌∙◌, Bool, true, false, Option, none, some, List, [], ◌∷◌, arith,
  if◌then◌else◌,
}
use librefw.Base.Int.{ℤ}
use librefw.Mem.{Ptr, Mem, ok, read, Cache, IsAmple}
use librefw.Mem.Tree.{Tree, nil, node, view}
use librefw.Mem.Free.{height, height-depth}
use librefw.Netlink.{Nest}
use librefw.Trie.{Trie, leaf, fork, put}
use librefw.Trie.Depth.{depth}
use librefw.Word.{bits}
use librefw.Hcf.{HcfInfo, blank, Task, IpCtx, HcfState, hcf_register_ip_work, run_callbacks}
use librefw.Hcf.Rcu.{Pending, elem, run_callbacks-ok, Owns-freed}
use librefw.Hcf.Register.{IsHcf, learnt, hcf_register_ip_work-put}
use librefw.Hcf.History.{hcf_register_ip_history}
use librefw.Hcf.History.Stored.{stored, hcf_register_ip_history-stored}
use librefw.Hcf.System.Shallow.{
  effect, effects, effects-IsShallow, IsShallow, put-IsShallow, stored-IsShallow, fork-IsShallow,
}
use librefw.Hcf.System.{
  System, Event, Step, step_queues, step_learns, step_quiesces, step_restores, Reach, here, next,
  hcf_register_ip,
}

-- One callback
Pending-rest :
    (m m' : Mem HcfInfo) (t : Tree HcfInfo) (p : Ptr) (ps : List Ptr)
    → Pending m t ps
    → elem p ps ≡ false
    → ((a : Ptr) → read m' a ≡ (if elem a (p ∷ []) then none else read m a))
    → Pending m' t ps
Pending-rest m m' t p [] h out reads = tt
Pending-rest m m' t p (q ∷ ps) (ne, used, gone, once, h) out reads = (
  ne,
  λ e. used (ground (arith, reads q, out, e)),
  gone,
  once,
  Pending-rest m m' t p ps h (ground (arith, out)) reads,
)

pub freed-IsHcf :
    (s : HcfState) (t : Tree HcfInfo) (p : Ptr) (ps : List Ptr) (m : Mem HcfInfo)
    → IsHcf s t
    → s.rcu ≡ p ∷ ps
    → run_callbacks (p ∷ []) s.mem ≡ ok tt m
    → IsHcf (record { tree = s.tree; mem = m; rcu = ps }) t
freed-IsHcf s t p ps m h e run =
    let (ne, used, gone, once, rest) = subst (Pending s.mem t) e h.pending in
    let one : Pending s.mem t (p ∷ []) = (ne, used, gone, refl, tt) in
    let (m', run', reads) = run_callbacks-ok s.mem t (p ∷ []) one in
    let same : m' ≡ m = cc (run, run') in
    let reads' : (a : Ptr) → read m a ≡ (if elem a (p ∷ []) then none else read s.mem a) =
      λ a. ap (λ x. read x a) (sym same) ∙ reads a in
    record {
      rooted = h.rooted;
      owned = Owns-freed s.mem m t (p ∷ []) h.owned one reads';
      pending = Pending-rest s.mem m t p ps rest once reads';
    }

-- The state holds a tree of the given trie, no higher than 25 nodes.
abbrev pub IsAt : HcfState → Trie HcfInfo → Type 0
IsAt st x = (t : Tree HcfInfo) × IsHcf st t × (view t ≡ x) × (height t ≤ 25)

pub IsAt-shallow :
    (st : HcfState) (x : Trie HcfInfo) (t : Tree HcfInfo)
    → IsHcf st t
    → view t ≡ x
    → IsShallow x
    → IsAt st x
IsAt-shallow st x t h v shallow = (t, h, v, omega (arith, height-depth t, ap depth v, shallow.1))

module _ (k : Cache HcfInfo) (stack : ℕ) (ample : IsAmple k) (enough : 25 < stack) where
  pub learns-IsAt :
      (task : Task) (st st' : HcfState) (log : Option IpCtx) (x : Trie HcfInfo) (t : Tree HcfInfo)
      → IsHcf st t
      → view t ≡ x
      → IsShallow x
      → hcf_register_ip_work k task st ≡ some (st', log)
      → IsAt st' (put blank (bits task.source_ip 8 24) (learnt task) x)
  learns-IsAt task st st' log x nil h v shallow run =
      absurd (omega (arith, shallow.0, height-depth nil, ap depth v))
  learns-IsAt task st st' log x (node q d l r) h v shallow run =
      let (st'', t', run', h', old, v', rcu) = hcf_register_ip_work-put k task st q d l r ample h in
      let same : st'' ≡ st' = cc (run, run') in
      let path = bits task.source_ip 8 24 in
      subst (λ s. IsAt s (put blank path (learnt task) x)) same
        (IsAt-shallow st'' (put blank path (learnt task) x) t' h'
          (v' ∙ ap (put blank path (learnt task)) v)
          (put-IsShallow task.source_ip (learnt task) x shallow))

  restores-IsAt :
      (attrs : List Nest) (st st' : HcfState) (ret : ℤ) (t : Tree HcfInfo)
      → IsHcf st t
      → height t ≤ 25
      → hcf_register_ip_history k stack attrs st ≡ some (st', ret)
      → IsAt st' (stored attrs (fork blank leaf leaf))
  restores-IsAt attrs st st' ret t h low run =
      let (st'', t', m, run', h', v', freed, rcu) =
        hcf_register_ip_history-stored k stack attrs st t ample h (omega arith) in
      let same : st'' ≡ st' = cc (run, run') in
      subst (λ s. IsAt s (stored attrs (fork blank leaf leaf))) same
        (IsAt-shallow st'' (stored attrs (fork blank leaf leaf)) t' h' v'
          (stored-IsShallow attrs (fork blank leaf leaf) fork-IsShallow))

  queued_same :
      (s : System) (allocated accepted : Bool) (source_ip ttl : ℕ)
      → (hcf_register_ip allocated accepted source_ip ttl s).hcf ≡ s.hcf
  unfolding hcf_register_ip
  queued_same s false accepted source_ip ttl = refl
  queued_same s true false source_ip ttl = refl
  queued_same s true true source_ip ttl = refl

  Step-IsAt :
      {s u : System} {e : Event} (x : Trie HcfInfo)
      → Step k stack s e u
      → IsShallow x
      → IsAt s.hcf x
      → IsAt u.hcf (effect e x)
  unfolding effect
  Step-IsAt x (step_queues s allocated accepted source_ip ttl) shallow h =
      subst (λ st. IsAt st x) (sym (queued_same s allocated accepted source_ip ttl)) h
  Step-IsAt x (step_learns s before after task st' log e run) shallow (t, h, v, low) =
      learns-IsAt task s.hcf st' log x t h v shallow run
  Step-IsAt x (step_quiesces s p ps m e run) shallow (t, h, v, low) =
      (t, freed-IsHcf s.hcf t p ps m h e run, v, low)
  Step-IsAt x (step_restores s attrs st' ret run) shallow (t, h, v, low) =
      restores-IsAt attrs s.hcf st' ret t h low run

  -- The state at the end of a run of events from a tree of a root alone
  pub Reach-IsAt :
      {s u : System} {es : List Event}
      → Reach k stack s es u
      → IsAt s.hcf (fork blank leaf leaf)
      → IsAt u.hcf (effects es)
  unfolding effects
  Reach-IsAt here h = h
  Reach-IsAt (next {es} r step) h =
      Step-IsAt (effects es) step (effects-IsShallow es) (Reach-IsAt r h)
