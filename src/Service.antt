-- ===== src/Service.antt =====
-- The kernel module in service, from its start: packets that are learnt, work items, callbacks of both
-- filters and netlink commands, in any order, each to its end
-- before the next begins.
pub mod Verdicts
use librefw.Base.{ℕ, ◌≡◌, Bool, Option, some, List, [], ◌∷◌, ◌++◌}
use librefw.Base.Int.{ℤ}
use librefw.Mem.{Ptr, Mem, ok}
use librefw.Netlink.{Nla, Attribute}
use librefw.PacketLog.{PktFilterEvent, Cpu}
use librefw.Hcf.{HcfInfo, Task, IpCtx, HcfState, hcf_register_ip_work, run_callbacks}
use librefw.Bogon.{lfw_free_bg_tree}
use librefw.State.{Firewall}
use librefw.Hooks.{Verdict, Packet, lfw_hc_learn_ipv4_hook_fn}
use librefw.Commands.{Kernel, lfw_nl_ops}
use librefw.Commands.Answered.{IsAdmitted}
use librefw.Start.Boot.{IsCalm}

-- The firewall with the work items that wait: as a start leaves it, and after a step.
pub data Serves (nla_parse : List Attribute → ℕ → Option Nla) (unknown : ℤ) (k : Kernel)
    : Firewall → List Task → Type 0 where
  started : (fw : Firewall) → IsCalm fw → Serves nla_parse unknown k fw []
  queues :
      (fw : Firewall) (queue : List Task) (reserved : Bool) (skb : Packet) (cpu cpu' : Cpu)
      (verdict : Verdict) (task : Task) (event : Option PktFilterEvent)
      → Serves nla_parse unknown k fw queue
      → lfw_hc_learn_ipv4_hook_fn reserved fw skb cpu ≡ (verdict, some task, cpu', event)
      → Serves nla_parse unknown k fw (queue ++ (task ∷ []))
  works :
      (fw : Firewall) (before after : List Task) (task : Task) (st' : HcfState) (log : Option IpCtx)
      → Serves nla_parse unknown k fw (before ++ (task ∷ after))
      → hcf_register_ip_work k.hcf_cache task fw.hcf ≡ some (st', log)
      → Serves nla_parse unknown k (record fw { hcf = st' }) (before ++ after)
  quiesces :
      (fw : Firewall) (queue : List Task) (p : Ptr) (ps : List Ptr) (m : Mem HcfInfo)
      → Serves nla_parse unknown k fw queue
      → fw.hcf.rcu ≡ p ∷ ps
      → run_callbacks (p ∷ []) fw.hcf.mem ≡ ok tt m
      → Serves nla_parse unknown k
          (record fw { hcf = record { tree = fw.hcf.tree; mem = m; rcu = ps } })
          queue
  bogon_quiesces :
      (fw : Firewall) (queue : List Task) (p : Ptr) (ps : List Ptr) (m : Mem ℕ)
      → Serves nla_parse unknown k fw queue
      → fw.bogon.rcu ≡ p ∷ ps
      → lfw_free_bg_tree k.stack p fw.bogon.mem ≡ ok tt m
      → Serves nla_parse unknown k
          (record fw { bogon = record { root = fw.bogon.root; mem = m; rcu = ps } })
          queue
  commanded :
      (fw fw' : Firewall) (queue : List Task) (cmd : ℕ) (attrs : List Attribute) (ret : ℤ)
      → Serves nla_parse unknown k fw queue
      → IsAdmitted nla_parse attrs
      → lfw_nl_ops nla_parse unknown k cmd attrs fw ≡ some (fw', ret)
      → Serves nla_parse unknown k fw' queue
