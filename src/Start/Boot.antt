-- ===== src/Start/Boot.antt =====
-- The start of the module with the initialisations of its parts: the codes that `lfw_init_state` goes
-- by are theirs, and their states are the module's.
use mathlib.Core.Option
use librefw.Base.{
  ℕ, ◌≡◌, ◌⊎◌, Bool, true, false, ◌&&◌, not, Option, none, some, List, [], map, if◌then◌else◌,
}
use librefw.Base.Int.{ℤ, pos, is_neg, is_nonzero}
use librefw.Mem.{Cache}
use librefw.Mem.Tree.{Tree, nil, view}
use librefw.Trie.{leaf, fork}
use librefw.Netlink.Family.{GenlFamily, lfw_nl_init}
use librefw.Hcf.{HcfInfo, blank, HcfState}
use librefw.Hcf.Register.{IsHcf}
use librefw.Hcf.System.{hcf_init_state}
use librefw.Bogon.{BgState}
use librefw.Bogon.Load.{IsBogon}
use librefw.Bogon.Init.{lfw_init_bg_state}
use librefw.PacketLog.Init.{PerCpu, Calls, init_pkt_filter_log_state, free_pkt_filter_log_state}
use librefw.PacketLog.Init.Retired.{retired, all_made}
use librefw.State.{Firewall}
use librefw.Hooks.{Packet, nf_accept, lfw_filter_ipv4_hook_fn}
use librefw.Start.{Part, Codes, lfw_mod_init, rolls_back, lfw_mod_exit}
use librefw.Start.Rollback.{running}

-- What the kernel grants: the memory of the state, the registration of the family, for each subsystem
-- its two or three resources in the order of the calls, the slab cache of the hop-count tree, a read
-- page for each CPU, the network device and the hooks.
pub record Grants : Type 0 where
  pub allocated : Bool
  pub genl_register_family : GenlFamily → ℤ
  pub bogon : Bool × Bool × Bool
  pub hcf : Bool × Bool × Bool
  pub hcf_cache : Cache HcfInfo
  pub packet_log : Bool × Bool × Bool
  pub pages : List Bool
  pub device_found : Bool
  pub nf_register_net_hooks : ℤ

abbrev pub codes : Grants → (init_bg_state hcf_init_state init_pkt_filter_log_state : ℤ) → Codes
codes g bg_ret hcf_ret log_ret = record {
  allocated = g.allocated;
  nl_init = lfw_nl_init g.genl_register_family;
  init_bg_state = bg_ret;
  hcf_init_state = hcf_ret;
  init_pkt_filter_log_state = log_ret;
  device_found = g.device_found;
  nf_register_net_hooks = g.nf_register_net_hooks;
}

-- The static variables after the initialisations
abbrev pub firewall_of : Option BgState → Option HcfState → Option Firewall
firewall_of none o = none
firewall_of (some bg) none = none
firewall_of (some bg) (some st) = some (record { under_attack = false; bogon = bg; hcf = st })

-- `lfw_mod_init`: what is held, the code, the state that the hooks see, and what the packet log holds:
-- for each CPU, and of its own resources. The result of an initialisation that is not reached is not
-- used. `none` is a crash or undefined behaviour.
unfoldable pub boot :
    Calls → Grants → Option (List Part × ℤ × Option Firewall × List PerCpu × List ℕ)
boot k g = elim (lfw_init_bg_state g.bogon.0 g.bogon.1 g.bogon.2 []) [
  | none ↦ none
  | some (_, bg, bg_ret) ↦ elim (hcf_init_state g.hcf.0 g.hcf.1 g.hcf.2 g.hcf_cache []) [
    | none ↦ none
    | some (_, st, hcf_ret) ↦
        elim (init_pkt_filter_log_state g.packet_log.0 g.packet_log.1 g.packet_log.2 g.pages []) [
          | none ↦ none
          | some (log_held, cs, log_ret) ↦ elim (lfw_mod_init (codes g bg_ret hcf_ret log_ret) []) [
            | none ↦ none
            | some (held, ret) ↦
                if rolls_back (codes g bg_ret hcf_ret log_ret)
                then Option.map (λ (cs', log_held'). (held, ret, firewall_of bg st, cs', log_held'))
                    (free_pkt_filter_log_state k cs log_held)
                else some (held, ret, firewall_of bg st, cs, log_held)
          ]
        ]
  ]
]

-- `lfw_mod_exit`, with the release of what the packet log holds
unfoldable pub shut_down :
    Calls → List Part → List PerCpu → List ℕ → Option (List Part × List PerCpu × List ℕ)
shut_down k held cs log_held = elim (free_pkt_filter_log_state k cs log_held) [
  | none ↦ none
  | some (cs', log_held') ↦ Option.map (λ held'. (held', cs', log_held')) (lfw_mod_exit held)
]

-- Are the device and the hooks granted?
abbrev pub hooks_granted : Grants → Bool
hooks_granted g = g.device_found && not (is_nonzero g.nf_register_net_hooks)

-- Nothing is filtered: no list, a hop-count tree with a root alone, and no attack.
abbrev pub IsCalm : Firewall → Type 0
IsCalm fw =
    IsBogon fw.bogon nil
    × (fw.bogon.rcu ≡ [])
    × (t : Tree HcfInfo) × IsHcf fw.hcf t
    × (view t ≡ fork blank leaf leaf)
    × (fw.under_attack ≡ false)

-- How a start may end
abbrev pub Boots : Calls → Grants → Packet → Type 0
Boots k g skb =
    ((all_made g.pages ≡ false) × (hooks_granted g ≡ false) × (boot k g ≡ none))
    ⊎ ((held : List Part) × (ret : ℤ) × (o : Option Firewall) × (cs : List PerCpu)
        × (log_held : List ℕ) × (boot k g ≡ some (held, ret, o, cs, log_held))
        × (((ret ≡ pos 0)
              × (held ≡ running)
              × (shut_down k held cs log_held
                  ≡ (if all_made g.pages then some ([], map retired cs, []) else none))
              × (fw : Firewall) × (o ≡ some fw)
              × IsCalm fw
              × (lfw_filter_ipv4_hook_fn fw skb ≡ some nf_accept))
            ⊎ ((is_neg ret ≡ true) × (held ≡ []))))
