-- ===== src/Hooks/Filter.antt =====
-- The filter hook against its specification.
use librefw.Base.{
  ℕ, ◌-◌, ◌≡◌, refl, Bool, false, ◌&&◌, ◌||◌, not, Option, none, some, arith, ◌==◌, leb,
  if◌then◌else◌,
}
use librefw.Base.Int.{ℤ, minus, is_pos}
use librefw.Mem.{ok}
use librefw.Mem.Tree.{Tree, nil, node, view}
use librefw.Trie.{find}
use librefw.Word.{bits, get_unaligned_be32}
use librefw.Bogon.{BgState, lfw_lookup_bg_tree}
use librefw.Bogon.Spec.{marked, judge-marked}
use librefw.Bogon.Load.{IsBogon}
use librefw.Bogon.Cover.{lfw_lookup_bg_tree-judge}
use librefw.Hcf.{HcfInfo, hcf_get_initial_ttl, abs_diff, verdict}
use librefw.Hcf.Register.{IsHcf}
use librefw.Hcf.Lookup.{hcf_lookup_tree-find}
use librefw.State.{Firewall, lfw_state_is_under_attack}
use librefw.PacketLog.{Ports}
use librefw.Hooks.{
  IpHeader, Packet, Verdict, nf_drop, nf_accept, eth_p_ip, ipproto_tcp, filter_source,
  lfw_filter_ipv4_hook_fn,
}

-- The IP header of an IPv4 packet over Ethernet that carries TCP.
unfoldable pub tcp_header : Packet → Option IpHeader
tcp_header skb = elim skb.h_proto [
  | none ↦ none
  | some h_proto ↦ elim skb.iph [
    | none ↦ none
    | some iph ↦ if (h_proto == eth_p_ip) && (iph.protocol == ipproto_tcp) then some iph else none
  ]
]

-- Has the address of the packet an entry whose hop count is at most two away from the packet's?
unfoldable pub hops_match : ℕ → Option HcfInfo → Bool
hops_match ttl none = false
hops_match ttl (some c) = leb (abs_diff (hcf_get_initial_ttl ttl - ttl) c.hc) 2

is_pos-verdict : (ttl : ℕ) (c : Option HcfInfo) → is_pos (verdict ttl c) ≡ hops_match ttl c
unfolding verdict hops_match
is_pos-verdict ttl none = refl
is_pos-verdict ttl (some c) = ground arith

-- Must a packet with this header go, given the two trees?
unfoldable pub unwanted : Tree ℕ → Tree HcfInfo → Bool → IpHeader → Bool
unwanted tb th attack iph =
    let ip = get_unaligned_be32 iph.saddr in
    marked (view tb) (bits ip 0 32)
    || (attack && not (hops_match iph.ttl (find (view th) (bits ip 8 24))))

-- The bogon lookup, also where no list was loaded.
bogon-marked :
    (ip : ℕ) (st : BgState) (t : Tree ℕ)
    → IsBogon st t
    → (v : ℤ) × (lfw_lookup_bg_tree ip st ≡ ok v st.mem)
      × (is_pos v ≡ marked (view t) (bits ip 0 32))
unfolding lfw_lookup_bg_tree marked
bogon-marked ip st nil h = (minus 1, rw h.rooted, refl)
bogon-marked ip st (node p d l r) h = (
  _,
  lfw_lookup_bg_tree-judge ip st (node p d l r) h h.owned.0,
  judge-marked (view (node p d l r)) (bits ip 0 32),
)

filter_source-unwanted :
    (fw : Firewall) (iph : IpHeader) (tb : Tree ℕ) (th : Tree HcfInfo)
    → IsBogon fw.bogon tb
    → IsHcf fw.hcf th
    → filter_source fw iph
      ≡ some (if unwanted tb th fw.under_attack iph then nf_drop else nf_accept)
unfolding filter_source unwanted lfw_state_is_under_attack
filter_source-unwanted fw iph tb th hb hh =
    let ip = get_unaligned_be32 iph.saddr in
    let (v, run, is) = bogon-marked ip fw.bogon tb hb in
    let hops = hcf_lookup_tree-find ip iph.ttl fw.hcf th hh in
    let near = is_pos-verdict iph.ttl (find (view th) (bits ip 8 24)) in
    rw (run, is, hops, near, filter_source) (ground arith)

-- The verdict that is due to a packet, given the IP header of its TCP segment, if it has one.
unfoldable pub verdict_due : Tree ℕ → Tree HcfInfo → Bool → Option IpHeader → Verdict
verdict_due tb th attack none = nf_accept
verdict_due tb th attack (some iph) = if unwanted tb th attack iph then nf_drop else nf_accept

filter-fields :
    (fw : Firewall) (h : Option ℕ) (i : Option IpHeader) (p : Option Ports) (tb : Tree ℕ)
    (th : Tree HcfInfo)
    → IsBogon fw.bogon tb
    → IsHcf fw.hcf th
    → lfw_filter_ipv4_hook_fn fw (record { h_proto = h; iph = i; ports = p })
      ≡ some (
          verdict_due tb th fw.under_attack
            (tcp_header (record { h_proto = h; iph = i; ports = p })))
unfolding lfw_filter_ipv4_hook_fn tcp_header verdict_due
filter-fields fw none i p tb th hb hh = refl
filter-fields fw (some x) none p tb th hb hh = ground arith
filter-fields fw (some x) (some iph) p tb th hb hh =
    ground (arith, filter_source-unwanted fw iph tb th hb hh)

-- `lfw_filter_ipv4_hook_fn` against the two trees that the state holds: no packet crashes it, and it
-- drops exactly the IPv4 packets with TCP inside, over Ethernet, that must go: those whose source
-- has a marked node on its path in the bogon trie and, under attack, those whose source network has
-- no entry in the hop-count trie or one whose hop count is more than two away from the packet's.
pub lfw_filter_ipv4_hook_fn-unwanted :
    (fw : Firewall) (skb : Packet) (tb : Tree ℕ) (th : Tree HcfInfo)
    → IsBogon fw.bogon tb
    → IsHcf fw.hcf th
    → lfw_filter_ipv4_hook_fn fw skb ≡ some (verdict_due tb th fw.under_attack (tcp_header skb))
lfw_filter_ipv4_hook_fn-unwanted fw skb tb th hb hh =
    filter-fields fw skb.h_proto skb.iph skb.ports tb th hb hh
