-- ===== src/Tests/HopCount.antt =====
-- The theorems on hop-count filtering, at one state.
use librefw.Base.{
  ℕ, ◌+◌, ◌/◌, ◌^◌, ◌≤◌, ◌<◌, ◌≡◌, refl, ◌⊎◌, ◌++◌, Option, none, some, All, ◌==◌, if◌then◌else◌,
  arith, [],
}
use librefw.Mem.{Mem, null, ok, read, Cache}
use librefw.Mem.Tree.{Tree, view, trail, nil}
use librefw.Trie.{find, put}
use librefw.Word.{bits}
use librefw.Hcf.{
  HcfInfo, blank, IpCtx, HcfState, hcf_register_ip_work, hcf_lookup_tree, verdict, lookup_walk,
  run_callbacks, hop_count, hcf_get_initial_ttl,
}
use librefw.Hcf.Register.{IsHcf, Registers, learnt, hcf_register_ip_work-put}
use librefw.Hcf.Grace.{lookup-register, register-grace_period}
use librefw.Hcf.Fault.{hcf_register_ip_work-fault}
use librefw.Hcf.Ttl.{hop_count_bounds}
use librefw.Tests.{bump, bump-IsAmple, one_node, one_node_state, one_node-IsHcf, example_task}

hcf_register_ip_work-put_example : Registers (bump blank) example_task one_node_state one_node
hcf_register_ip_work-put_example =
    hcf_register_ip_work-put (bump blank) example_task one_node_state 1 blank nil nil
      (bump-IsAmple blank) one_node-IsHcf

lookup-register_example :
    (st' : HcfState) × (log : Option IpCtx) × (hcf_register_ip_work
        (bump blank)
        example_task
        one_node_state
      ≡ some (st', log))
    × (hcf_lookup_tree 0xc000_02fe 55 st'
        ≡ ok
            (verdict 55 (
              if 0xc000_02fe / 2 ^ 8 == example_task.source_ip / 2 ^ 8
              then some (learnt example_task)
              else find (view one_node) (bits 0xc000_02fe 8 24)))
            st'.mem)
lookup-register_example =
    lookup-register (bump blank) example_task one_node_state 1 blank nil nil 0xc000_02fe 55
      (bump-IsAmple blank) one_node-IsHcf (omega arith) (omega arith)

register-grace_period_example :
    (st' : HcfState) × (log : Option IpCtx) × (t' : Tree HcfInfo) × (m : Mem HcfInfo)
    × (hcf_register_ip_work (bump blank) example_task one_node_state ≡ some (st', log))
    × ((ip : ℕ) → lookup_walk ip 24 1 st'.mem ≡ ok (find (view one_node) (bits ip 8 24)) st'.mem)
    × (run_callbacks st'.rcu st'.mem ≡ ok tt m)
    × IsHcf (record { tree = st'.tree; mem = m; rcu = [] }) t'
    × (view t' ≡ put blank (bits example_task.source_ip 8 24) (learnt example_task) (view one_node))
    × All
        (λ a. read m a ≡ none)
        (one_node_state.rcu ++ trail (bits example_task.source_ip 8 24) one_node)
register-grace_period_example =
    register-grace_period (bump blank) example_task one_node_state 1 blank nil nil
      (bump-IsAmple blank) one_node-IsHcf

hop_count_bounds_example :
    (hop_count 200 + 200 ≡ hcf_get_initial_ttl 200)
    × (200 ≤ hcf_get_initial_ttl 200)
    × (hop_count 200 ≤ 126)
    × ((hcf_get_initial_ttl 200 ≡ 64)
        ⊎ (((hcf_get_initial_ttl 200 ≡ 128) × (64 < 200))
            ⊎ ((hcf_get_initial_ttl 200 ≡ 255) × (128 < 200))))
hop_count_bounds_example = hop_count_bounds 200 (omega arith)

-- A cache without memory
abbrev exhausted : Cache HcfInfo
exhausted = record { zeroed = blank; next = λ m. null; fresh = λ m ne. absurd (ne refl) }

hcf_register_ip_work-fault_example :
    hcf_register_ip_work exhausted example_task one_node_state ≡ none
hcf_register_ip_work-fault_example =
    hcf_register_ip_work-fault exhausted example_task one_node_state 1 blank nil nil refl
      one_node-IsHcf
