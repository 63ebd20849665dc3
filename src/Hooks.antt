-- ===== src/Hooks.antt =====
-- kernel/src/hooks.c: the two netfilter hooks. A packet is what the hooks read of it.
pub mod Filter
pub mod Learn
use librefw.Base.{ℕ, Bool, true, false, ◌&&◌, ◌||◌, not, Option, none, some, ◌==◌, if◌then◌else◌}
use librefw.Base.Int.{ℤ, pos, is_pos}
use librefw.Mem.{ok, fault}
use librefw.Word.{get_unaligned_be32}
use librefw.Bogon.{lfw_lookup_bg_tree}
use librefw.Hcf.{Task, hcf_lookup_tree}
use librefw.PacketLog.{PktFilterEvent, Ports, LoggedPacket, Cpu, log_pkt_filter_event}
use librefw.State.{Firewall, lfw_state_is_under_attack}

-- The fields of `struct iphdr` that the hooks and the packet log read.
pub record IpHeader : Type 0 where
  pub protocol : ℕ
  pub saddr : ℕ
  pub daddr : ℕ
  pub ttl : ℕ

-- `h_proto` of the Ethernet header in host byte order, if there is one, the IP header, if the packet
-- is long enough, and the ports where `skb_header_pointer` finds a TCP header behind it.
pub record Packet : Type 0 where
  pub h_proto : Option ℕ
  pub iph : Option IpHeader
  pub ports : Option Ports

pub data Verdict : Type 0 where
  nf_drop : Verdict
  nf_accept : Verdict

abbrev pub eth_p_ip : ℕ
eth_p_ip = 0x0800

abbrev pub ipproto_tcp : ℕ
ipproto_tcp = 6

-- The part of `lfw_filter_ipv4_hook_fn` that looks at the source of a TCP packet.
unfoldable pub filter_source : Firewall → IpHeader → Option Verdict
filter_source fw iph = elim (lfw_lookup_bg_tree (get_unaligned_be32 iph.saddr) fw.bogon) [
  | fault ↦ none
  | ok bogon _ ↦
      if is_pos bogon
      then some nf_drop
      else if lfw_state_is_under_attack fw
      then elim (hcf_lookup_tree (get_unaligned_be32 iph.saddr) iph.ttl fw.hcf) [
        | fault ↦ none
        | ok hops _ ↦ some (if is_pos hops then nf_accept else nf_drop)
      ]
      else some nf_accept
]

-- `none` is a crash.
unfoldable pub lfw_filter_ipv4_hook_fn : Firewall → Packet → Option Verdict
lfw_filter_ipv4_hook_fn fw skb = elim skb.h_proto [
  | none ↦ some nf_accept
  | some h_proto ↦ if not (h_proto == eth_p_ip) then some nf_accept else elim skb.iph [
    | none ↦ some nf_accept
    | some iph ↦ if not (iph.protocol == ipproto_tcp) then some nf_accept else filter_source fw iph
  ]
]

-- A TCP segment as the packet log reads it
abbrev pub logged : IpHeader → Option Ports → LoggedPacket
logged iph ports = record {
  saddr = iph.saddr;
  daddr = iph.daddr;
  ttl = iph.ttl;
  protocol = iph.protocol;
  tcp_header = ports;
  udp_header = none;
}

-- The verdict, the task for `hcf_register_ip`, and what `log_pkt_filter_event` does: the variables of
-- the CPU, and the event that goes to the ring buffer if it has room, as `reserved` says.
unfoldable pub lfw_hc_learn_ipv4_hook_fn :
    (reserved : Bool)
    → Firewall
    → Packet
    → Cpu
    → Verdict × Option Task × Cpu × Option PktFilterEvent
lfw_hc_learn_ipv4_hook_fn reserved fw skb cpu = elim skb.iph [
  | none ↦ (nf_accept, none, cpu, none)
  | some iph ↦
      let (cpu', event, _) = log_pkt_filter_event reserved (logged iph skb.ports) cpu in
      if not (iph.protocol == ipproto_tcp)
      then (nf_accept, none, cpu, none)
      else if lfw_state_is_under_attack fw
      then (nf_accept, none, cpu, none)
      else (
        nf_accept,
        some (record { source_ip = get_unaligned_be32 iph.saddr; ttl = iph.ttl }),
        cpu',
        event,
      )
]
