-- ===== src/Hooks/Learn.antt =====
-- The hook that learns, the work item that it queues, and the filter hook under a later attack.
use librefw.Base.{
  ℕ, ◌/◌, ◌<◌, ◌^◌, ◌≡◌, refl, ap, ◌∙◌, Bool, true, false, ◌||◌, not, Option, none, some, arith,
  ==_iff, leb, if◌then◌else◌,
}
use librefw.Mem.{Ptr, Cache, IsAmple}
use librefw.Mem.Tree.{Tree, node, view}
use librefw.Trie.{find, put}
use librefw.Word.{bits, get_unaligned_be32}
use librefw.Bogon.Spec.{marked}
use librefw.Bogon.Load.{IsBogon}
use librefw.Bogon.Cover.{get_unaligned_be32-lt}
use librefw.Hcf.{
  HcfInfo, blank, Task, IpCtx, HcfState, hcf_get_initial_ttl, hop_count, abs_diff,
  hcf_register_ip_work,
}
use librefw.Hcf.Register.{IsHcf, learnt, hcf_register_ip_work-put}
use librefw.Hcf.Lookup.{find-put_network}
use librefw.PacketLog.{
  PktFilterEvent, Ports, ports_or_zero, entry_of, Cpu, count_packet, log_pkt_filter_event,
}
use librefw.State.{Firewall, lfw_state_is_under_attack}
use librefw.Hooks.{
  Packet, nf_drop, nf_accept, eth_p_ip, ipproto_tcp, lfw_filter_ipv4_hook_fn,
  lfw_hc_learn_ipv4_hook_fn,
}
use librefw.Hooks.Filter.{
  tcp_header, verdict_due, unwanted, hops_match, lfw_filter_ipv4_hook_fn-unwanted,
}

-- A segment over Ethernet.
abbrev pub tcp_packet : (saddr daddr ttl : ℕ) → Option Ports → Packet
tcp_packet saddr daddr ttl ports = record {
  h_proto = some eth_p_ip;
  iph = some (record { protocol = ipproto_tcp; saddr = saddr; daddr = daddr; ttl = ttl });
  ports = ports;
}

hops_match-learnt :
    (ttl seen : ℕ)
    → ttl < 256
    → seen < 256
    → hops_match ttl (some (record { hc = hop_count seen; ttl = seen }))
      ≡ leb (abs_diff (hop_count ttl) (hop_count seen)) 2
unfolding hops_match hop_count hcf_get_initial_ttl
hops_match-learnt ttl seen h h' = ground arith

-- The verdict under attack on a source that has an entry.
verdict_due-entry :
    (tb : Tree ℕ) (th : Tree HcfInfo) (saddr daddr ttl : ℕ) (ports : Option Ports) (e : HcfInfo)
    → find (view th) (bits (get_unaligned_be32 saddr) 8 24) ≡ some e
    → verdict_due tb th true (tcp_header (tcp_packet saddr daddr ttl ports)) ≡ (
        if marked (view tb) (bits (get_unaligned_be32 saddr) 0 32) || not (hops_match ttl (some e))
        then nf_drop
        else nf_accept)
unfolding verdict_due tcp_header unwanted
verdict_due-entry tb th saddr daddr ttl ports e found = rw found refl

-- The event of a segment, if the ring buffer has room
abbrev pub logged_event : Bool → (saddr daddr ttl : ℕ) → Option Ports → Option PktFilterEvent
logged_event false saddr daddr ttl ports = none
logged_event true saddr daddr ttl ports = some (record {
  source_ip = saddr;
  dest_ip = daddr;
  source_port = (ports_or_zero ports).source;
  dest_port = (ports_or_zero ports).dest;
  protocol = 6;
  ttl = ttl;
  action = 1;
})

learn-task :
    (reserved : Bool) (fw : Firewall) (cpu : Cpu) (saddr daddr seen : ℕ) (ports : Option Ports)
    → fw.under_attack ≡ false
    → lfw_hc_learn_ipv4_hook_fn reserved fw (tcp_packet saddr daddr seen ports) cpu ≡ (
      nf_accept,
      some (record { source_ip = get_unaligned_be32 saddr; ttl = seen }),
      count_packet cpu,
      logged_event reserved saddr daddr seen ports,
    )
unfolding lfw_hc_learn_ipv4_hook_fn lfw_state_is_under_attack log_pkt_filter_event entry_of
learn-task true fw cpu saddr daddr seen ports quiet = rw quiet refl
learn-task false fw cpu saddr daddr seen ports quiet = rw quiet refl

find-same_network :
    (ip learnt_ip : ℕ) (e : HcfInfo) (t t' : Tree HcfInfo)
    → ip < 2 ^ 32
    → learnt_ip < 2 ^ 32
    → ip / 2 ^ 8 ≡ learnt_ip / 2 ^ 8
    → view t' ≡ put blank (bits learnt_ip 8 24) e (view t)
    → find (view t') (bits ip 8 24) ≡ some e
find-same_network ip learnt_ip e t t' h h' same v =
    ap (λ x. find x (bits ip 8 24)) v
    ∙ find-put_network ip learnt_ip e (view t) h h'
    ∙ ap (λ b. if b then some e else find (view t) (bits ip 8 24))
        ((==_iff (ip / 2 ^ 8) (learnt_ip / 2 ^ 8)).1 same)

-- Without an attack, the learning hook accepts a TCP segment, queues its source and TTL, counts it,
-- and logs its addresses, ports and TTL if the ring buffer has room. With
-- memory for the copies and a tree in the state, the work item then ends without a crash. Under a
-- later attack, the filter hook drops a segment from the same /24 network exactly if its source has a
-- marked node on its path in the bogon trie, or its hop count is more than two away from the one
-- learnt. (TTLs are below 256.)
pub learn-filter :
    (k : Cache HcfInfo) (reserved : Bool) (fw : Firewall) (cpu : Cpu) (saddr daddr seen : ℕ)
    (ports : Option Ports) (saddr' daddr' ttl : ℕ) (ports' : Option Ports) (tb : Tree ℕ) (q : Ptr)
    (d : HcfInfo) (l r : Tree HcfInfo)
    → IsAmple k
    → IsBogon fw.bogon tb
    → IsHcf fw.hcf (node q d l r)
    → fw.under_attack ≡ false
    → get_unaligned_be32 saddr' / 2 ^ 8 ≡ get_unaligned_be32 saddr / 2 ^ 8
    → seen < 256
    → ttl < 256
    → (task : Task) × (st' : HcfState) × (log : Option IpCtx) × (lfw_hc_learn_ipv4_hook_fn reserved
          fw
          (tcp_packet saddr daddr seen ports)
          cpu
        ≡ (nf_accept, some task, count_packet cpu, logged_event reserved saddr daddr seen ports))
      × (hcf_register_ip_work k task fw.hcf ≡ some (st', log))
      × (lfw_filter_ipv4_hook_fn
            (record { under_attack = true; bogon = fw.bogon; hcf = st' })
            (tcp_packet saddr' daddr' ttl ports')
          ≡ some (
              if marked (view tb) (bits (get_unaligned_be32 saddr') 0 32)
                || not (leb (abs_diff (hop_count ttl) (hop_count seen)) 2)
              then nf_drop
              else nf_accept))
learn-filter k reserved fw cpu saddr daddr seen ports saddr' daddr' ttl ports' tb q d l r ample hb
      hh quiet same h h' =
    let task : Task = record { source_ip = get_unaligned_be32 saddr; ttl = seen } in
    let e : HcfInfo = learnt task in
    let (st', t', run, held, old, v, rcu) =
      hcf_register_ip_work-put k task fw.hcf q d l r ample hh in
    let fw' : Firewall = record { under_attack = true; bogon = fw.bogon; hcf = st' } in
    (
      task,
      st',
      _,
      learn-task reserved fw cpu saddr daddr seen ports quiet,
      run,
      lfw_filter_ipv4_hook_fn-unwanted fw' (tcp_packet saddr' daddr' ttl ports') tb t' hb held
          ∙ ap some (
              verdict_due-entry tb t' saddr' daddr' ttl ports' e (
                find-same_network (get_unaligned_be32 saddr') (get_unaligned_be32 saddr) e
                  (node q d l r) t' (get_unaligned_be32-lt saddr') (get_unaligned_be32-lt saddr)
                  same v)
              ∙ ap
                  (λ b.
                    if marked (view tb) (bits (get_unaligned_be32 saddr') 0 32) || not b
                    then nf_drop
                    else nf_accept)
                  (hops_match-learnt ttl seen h' h)),
    )
