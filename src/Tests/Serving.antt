-- ===== src/Tests/Serving.antt =====
-- A firewall that has started and has seen a packet.
use librefw.Base.{refl, true, false, none, [], ◌∷◌, arith}
use librefw.Base.Int.{pos}
use librefw.Mem.{null}
use librefw.Word.{get_unaligned_be32}
use librefw.PacketLog.{Cpu, log_pkt_filter_event}
use librefw.Bogon.Set.{decoded}
use librefw.Hcf.{blank, Task}
use librefw.State.{Firewall, lfw_state_is_under_attack}
use librefw.Hooks.{lfw_hc_learn_ipv4_hook_fn}
use librefw.Hooks.Learn.{tcp_packet}
use librefw.Netlink.Cmd
use librefw.Commands.{Kernel}
use librefw.Commands.Answered.{IsAdmitted}
use librefw.Start.Boot.{IsCalm}
use librefw.Service.{Serves, started, queues}
use librefw.Service.Verdicts.{Responds, Serves-Responds}
use librefw.Tests.{bump, bump-IsAmple, one_node, one_node_state, one_node-IsHcf}
use librefw.Tests.Roomy.{parse, last_of}

abbrev ample : Kernel
ample = record {
  bogon_cache = bump 0;
  hcf_cache = bump blank;
  buffer_allocated = true;
  tree_allocated = true;
  state_allocated = true;
  stack = 40;
}

abbrev new_firewall : Firewall
new_firewall = record {
  under_attack = false;
  bogon = record { root = null; mem = []; rcu = [] };
  hcf = one_node_state;
}

new_firewall-IsCalm : IsCalm new_firewall
new_firewall-IsCalm =
    (record { rooted = refl; owned = tt }, refl, one_node, one_node-IsHcf, refl, refl)

-- 192.0.2.1 is learnt.
abbrev task : Task
task = record { source_ip = get_unaligned_be32 0x0102_00c0; ttl = 57 }

abbrev first_cpu : Cpu
first_cpu = record { packet_counter = 0; full_pages_only = false; queued = false }

one_packet : Serves parse (pos 1) ample new_firewall (task ∷ [])
unfolding lfw_hc_learn_ipv4_hook_fn lfw_state_is_under_attack log_pkt_filter_event
one_packet =
    queues new_firewall [] false (tcp_packet 0x0102_00c0 0x0101_00c0 57 none) first_cpu _ _ task _
      (started new_firewall new_firewall-IsCalm) refl

empty-IsAdmitted : IsAdmitted parse []
unfolding decoded last_of
empty-IsAdmitted = (tt, omega arith)

Serves-Responds_example :
    Responds parse
      (pos 1)
      ample
      new_firewall
      (tcp_packet 0x0102_00c0 0x0101_00c0 57 none)
      task
      Cmd.set_bogon
      []
Serves-Responds_example =
    Serves-Responds parse (pos 1) ample new_firewall (task ∷ [])
      (tcp_packet 0x0102_00c0 0x0101_00c0 57 none) task Cmd.set_bogon [] (bump-IsAmple 0)
      (bump-IsAmple blank) (omega arith) empty-IsAdmitted one_packet
