-- ===== src/Tests/System.antt =====
-- The theorems on the hop-count system, at one state.
use librefw.Base.{Bool, ◌≡◌, ◌≢◌, refl, true, false, Option, none, some, [], ◌∷◌, arith, All}
use librefw.Base.Int.{ℤ, pos}
use librefw.Mem.{
  Mem, ok, fault, null, read, Cache, zalloc, load, store, get_child, set_child, set_info,
  cache_free,
}
use librefw.Mem.Free.{Freed}
use librefw.Mem.Tree.{nil, Tree}
use librefw.Hcf.{
  HcfInfo, blank, IpCtx, HcfState, hcf_register_ip_work, run_callbacks, register_path, copy_path,
  clone_path, create_leaf, hcf_clone_node, hcf_create_node, hop_count, hcf_get_initial_ttl,
  hcf_swap_tree, hcf_free_node, report_learnt,
}
use librefw.Hcf.Register.{hcf_register_ip_work-put}
use librefw.Hcf.History.{hcf_register_ip_history}
use librefw.Hcf.System.{
  System, queues, learns, step_queues, step_learns, Reach, here, next, hcf_register_ip,
  hcf_init_state, hcf_free_state,
}
use librefw.Hcf.System.Shallow.{effects}
use librefw.Hcf.System.Reached.{IsAt}
use librefw.Hcf.System.Starting.{
  all_held, first_state, first-IsHcf, Begins, hcf_init_state-Begins, Reach-sound,
  hcf_free_state-Freed,
}
use librefw.Word.{bit}
use librefw.Bogon.Init
use librefw.Bogon.Init.{lfw_init_bg_state-Begins, tree_memory}
use librefw.Tests.{bump, bump-IsAmple, one_node, one_node_state, one_node-IsHcf, example_task}

abbrev k : Cache HcfInfo
k = bump blank

abbrev started : System
started = record { hcf = first_state k; queue = []; news = [] }

-- The work item of 192.0.2.1 is queued.
abbrev waiting : System
waiting = record { hcf = first_state k; queue = example_task ∷ []; news = [] }

waiting-Reach : Reach k 34 started (queues ∷ []) waiting
unfolding hcf_register_ip
waiting-Reach = next here (step_queues started true true 0xc000_0201 57)

-- It runs.
after_work : (u : System) × Reach k 34 started (learns example_task ∷ queues ∷ []) u
after_work =
    let (st', t', run, h', old, v, rcu) =
      hcf_register_ip_work-put k example_task (first_state k) 1 blank nil nil (bump-IsAmple blank)
        (first-IsHcf k (bump-IsAmple blank [])) in
    (_, next waiting-Reach (step_learns waiting [] [] example_task st' _ refl run))

Reach-sound_example :
    (hcf_init_state true true true k [] ≡ some (all_held, some (first_state k), pos 0))
    × IsAt after_work.0.hcf (effects (learns example_task ∷ queues ∷ []))
    × ((r : HcfState × Option IpCtx) × (hcf_register_ip_work k example_task after_work.0.hcf
          ≡ some r))
    × ((r : HcfState × ℤ) × (hcf_register_ip_history k 34 [] after_work.0.hcf ≡ some r))
    × ((m : Mem HcfInfo) × (run_callbacks after_work.0.hcf.rcu after_work.0.hcf.mem ≡ ok tt m))
Reach-sound_example =
    Reach-sound k 34 (learns example_task ∷ queues ∷ []) after_work.0 example_task []
      (bump-IsAmple blank) (omega arith) after_work.1

hcf_init_state-Begins_example : Begins true true true k
hcf_init_state-Begins_example = hcf_init_state-Begins true true true k

hcf_free_state-Freed_example :
    (st' : HcfState) × (hcf_free_state 34 one_node_state all_held ≡ some (st', []))
    × Freed one_node_state.mem one_node st'.mem
    × All (λ a. read st'.mem a ≢ none) one_node_state.rcu
hcf_free_state-Freed_example =
    hcf_free_state-Freed 34 one_node_state one_node one_node-IsHcf (omega arith)

-- The work item of 192.0.2.1 in the first state, with a swap of the tree between its part under the mutex
-- and its end: does the read of the new leaf fault?
abbrev overtaken : Bool
overtaken = elim (register_path k example_task (first_state k).tree (first_state k).mem) [
  | fault ↦ false
  | ok (new_root, nodes_to_free, nodes_created, new_runner) m ↦
      elim (hcf_swap_tree 34 null (record { tree = new_root; mem = m; rcu = [] })) [
        | none ↦ false
        | some st ↦ elim (report_learnt example_task new_runner nodes_created st.mem) [
          | fault ↦ true
          | ok log m' ↦ false
        ]
      ]
]

overtaken-faults : overtaken ≡ true
unfolding register_path copy_path clone_path create_leaf hcf_clone_node hcf_create_node hop_count
    hcf_get_initial_ttl hcf_swap_tree hcf_free_node report_learnt zalloc load store get_child
    set_child set_info cache_free bit
overtaken-faults = refl
