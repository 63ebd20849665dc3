-- ===== src/Service/Verdicts.antt =====
-- In service, every packet gets the verdict that is due to it, and every command an answer.
use mathlib.Core.Path.{subst}
use librefw.Base.{arith, sym, refl, ℕ, ◌<◌, ◌≡◌, Option, some, List, [], ◌∷◌}
use librefw.Base.Int.{ℤ}
use librefw.Mem.{Ptr, Mem, ok, IsAmple}
use librefw.Mem.Tree.{nil, Tree}
use librefw.Trie.{leaf, fork, put}
use librefw.Word.{bits}
use librefw.Netlink.{Nla, Attribute}
use librefw.Bogon.{lfw_free_bg_tree}
use librefw.Bogon.Load.{IsBogon}
use librefw.Bogon.Waiting.{IsBacked, callback-IsBacked, run_bg_callbacks, run_bg_callbacks-ok}
use librefw.Hcf.Rcu.{run_callbacks-ok}
use librefw.Hcf.{HcfInfo, blank, Task, IpCtx, HcfState, hcf_register_ip_work, run_callbacks}
use librefw.Hcf.Register.{IsHcf, learnt}
use librefw.Hcf.System.Shallow.{put-IsShallow, fork-IsShallow}
use librefw.Hcf.System.Reached.{IsAt-shallow, learns-IsAt, freed-IsHcf}
use librefw.Hcf.System.Starting.{work-ends}
use librefw.State.{Firewall}
use librefw.Hooks.{Packet, lfw_filter_ipv4_hook_fn}
use librefw.Hooks.Filter.{tcp_header, verdict_due, lfw_filter_ipv4_hook_fn-unwanted}
use librefw.Commands.{Kernel, lfw_nl_ops}
use librefw.Commands.Answered.{IsServing, IsAdmitted, lfw_nl_ops-Answers}
use librefw.Start.Boot.{IsCalm}
use librefw.Service.{Serves, started, queues, works, quiesces, bogon_quiesces, commanded}

calm-IsServing : (fw : Firewall) → IsCalm fw → IsServing fw
calm-IsServing fw (hb, idle, t, hh, v, quiet) = (
  nil,
  (hb, omega arith, [], sym idle, tt),
  fork blank leaf leaf,
  IsAt-shallow fw.hcf (fork blank leaf leaf) t hh v fork-IsShallow,
  fork-IsShallow,
)

module _ (nla_parse : List Attribute → ℕ → Option Nla) (unknown : ℤ) (k : Kernel)
    (ample : IsAmple k.bogon_cache) (ample' : IsAmple k.hcf_cache) (enough : 33 < k.stack) where
  works-IsServing :
      (fw : Firewall) (task : Task) (st' : HcfState) (log : Option IpCtx)
      → IsServing fw
      → hcf_register_ip_work k.hcf_cache task fw.hcf ≡ some (st', log)
      → IsServing (record fw { hcf = st' })
  works-IsServing fw task st' log (t, hb, x, (u, hh, v, low), shallow) run = (
    t,
    hb,
    put blank (bits task.source_ip 8 24) (learnt task) x,
    learns-IsAt k.hcf_cache k.stack ample' (omega (arith, enough)) task fw.hcf st' log x u hh v
        shallow run,
    put-IsShallow task.source_ip (learnt task) x shallow,
  )

  quiesces-IsServing :
      (fw : Firewall) (p : Ptr) (ps : List Ptr) (m : Mem HcfInfo)
      → IsServing fw
      → fw.hcf.rcu ≡ p ∷ ps
      → run_callbacks (p ∷ []) fw.hcf.mem ≡ ok tt m
      → IsServing (record fw { hcf = record { tree = fw.hcf.tree; mem = m; rcu = ps } })
  quiesces-IsServing fw p ps m (t, hb, x, (u, hh, v, low), shallow) e run =
      (t, hb, x, (u, freed-IsHcf fw.hcf u p ps m hh e run, v, low), shallow)

  bogon_quiesces-IsServing :
      (fw : Firewall) (p : Ptr) (ps : List Ptr) (m : Mem ℕ)
      → IsServing fw
      → fw.bogon.rcu ≡ p ∷ ps
      → lfw_free_bg_tree k.stack p fw.bogon.mem ≡ ok tt m
      → IsServing (record fw { bogon = record { root = fw.bogon.root; mem = m; rcu = ps } })
  bogon_quiesces-IsServing fw p ps m (t, hb, x, held, shallow) e run =
      let (m', run', hb') = callback-IsBacked k.stack fw.bogon t p ps enough hb e in
      let same : m' ≡ m = cc (run, run') in
      (
        t,
        subst (λ x. IsBacked (record { root = fw.bogon.root; mem = x; rcu = ps }) t) same hb',
        x,
        held,
        shallow,
      )

  command-IsServing :
      (fw fw' : Firewall) (cmd : ℕ) (attrs : List Attribute) (ret : ℤ)
      → IsServing fw
      → IsAdmitted nla_parse attrs
      → lfw_nl_ops nla_parse unknown k cmd attrs fw ≡ some (fw', ret)
      → IsServing fw'
  command-IsServing fw fw' cmd attrs ret h valid run =
      let (fw'', ret', run', h') =
        lfw_nl_ops-Answers nla_parse unknown k ample ample' (omega (arith, enough)) attrs fw cmd
          valid h in
      let same : fw'' ≡ fw' = cc (run, run') in subst IsServing same h'

  Serves-IsServing :
      (fw : Firewall) (queue : List Task) → Serves nla_parse unknown k fw queue → IsServing fw
  Serves-IsServing _ _ (started fw calm) = calm-IsServing fw calm
  Serves-IsServing _ _ (queues fw queue reserved skb cpu cpu' verdict task event s e) =
      Serves-IsServing fw queue s
  Serves-IsServing _ _ (works fw before after task st' log s run) =
      works-IsServing fw task st' log (Serves-IsServing fw _ s) run
  Serves-IsServing _ _ (quiesces fw queue p ps m s e run) =
      quiesces-IsServing fw p ps m (Serves-IsServing fw queue s) e run
  Serves-IsServing _ _ (bogon_quiesces fw queue p ps m s e run) =
      bogon_quiesces-IsServing fw p ps m (Serves-IsServing fw queue s) e run
  Serves-IsServing _ _ (commanded fw fw' queue cmd attrs ret s valid run) =
      command-IsServing fw fw' cmd attrs ret (Serves-IsServing fw queue s) valid run

-- What a firewall in service does with a packet, a work item, a command and the callbacks
abbrev pub Responds :
    (nla_parse : List Attribute → ℕ → Option Nla) (unknown : ℤ) (k : Kernel)
    → Firewall
    → Packet
    → Task
    → ℕ
    → List Attribute
    → Type 0
Responds nla_parse unknown k fw skb task cmd attrs =
    ((tb : Tree ℕ) × (th : Tree HcfInfo) × IsBogon fw.bogon tb
      × IsHcf fw.hcf th
      × (lfw_filter_ipv4_hook_fn fw skb
          ≡ some (verdict_due tb th fw.under_attack (tcp_header skb))))
    × ((r : HcfState × Option IpCtx) × (hcf_register_ip_work k.hcf_cache task fw.hcf ≡ some r))
    × ((r : Firewall × ℤ) × (lfw_nl_ops nla_parse unknown k cmd attrs fw ≡ some r))
    × ((m : Mem HcfInfo) × (run_callbacks fw.hcf.rcu fw.hcf.mem ≡ ok tt m))
    × ((m : Mem ℕ) × (run_bg_callbacks k.stack fw.bogon.rcu fw.bogon.mem ≡ ok tt m))

-- From a start on, with memory, and a stack for more than 33 calls, after any sequence, each to its end
-- before the next begins, of learnt packets, work items in any order, callbacks of both filters and commands whose prefixes are
-- announced and have fewer than 32 bits: the memory of each filter holds a tree, the filter hook gives
-- every packet the verdict that is due to it by these trees and the flag, and a work item, a command
-- of this kind and all callbacks that are due end without a crash.
pub Serves-Responds :
    (nla_parse : List Attribute → ℕ → Option Nla) (unknown : ℤ) (k : Kernel) (fw : Firewall)
    (queue : List Task) (skb : Packet) (task : Task) (cmd : ℕ) (attrs : List Attribute)
    → IsAmple k.bogon_cache
    → IsAmple k.hcf_cache
    → 33 < k.stack
    → IsAdmitted nla_parse attrs
    → Serves nla_parse unknown k fw queue
    → Responds nla_parse unknown k fw skb task cmd attrs
Serves-Responds nla_parse unknown k fw queue skb task cmd attrs ample ample' enough valid s =
    let h = Serves-IsServing nla_parse unknown k ample ample' enough fw queue s in
    let (tb, hb, x, (th, hh, v, low), shallow) = h in
    let (fw', ret, run, h') =
      lfw_nl_ops-Answers nla_parse unknown k ample ample' (omega (arith, enough)) attrs fw cmd valid
        h in
    let (m, freed, reads) = run_callbacks-ok fw.hcf.mem th fw.hcf.rcu hh.pending in
    (
      (tb, th, hb.0, hh, lfw_filter_ipv4_hook_fn-unwanted fw skb tb th hb.0 hh),
      work-ends k.hcf_cache task fw.hcf th x ample' hh v shallow,
      ((fw', ret), run),
      (m, freed),
      run_bg_callbacks-ok k.stack fw.bogon.rcu fw.bogon tb enough hb refl,
    )
