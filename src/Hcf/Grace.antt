-- ===== src/Hcf/Grace.antt =====
-- What packets and readers see around one run of `hcf_register_ip_work`.
use librefw.Base.{
  ℕ, ◌/◌, ◌^◌, ◌<◌, ◌≡◌, ap, ◌∙◌, Option, none, some, [], ◌++◌, ◌==◌, All, if◌then◌else◌,
}
use librefw.Mem.{Ptr, Mem, ok, read, Cache, IsAmple}
use librefw.Mem.Tree.{Tree, node, view, trail}
use librefw.Trie.{find, put}
use librefw.Word.{bits}
use librefw.Hcf.{
  HcfInfo, blank, Task, IpCtx, HcfState, lookup_walk, verdict, hcf_lookup_tree,
  hcf_register_ip_work, run_callbacks,
}
use librefw.Hcf.Rcu.{elem, All-elem, run_callbacks-ok, Owns-freed}
use librefw.Hcf.Register.{IsHcf, learnt, hcf_register_ip_work-put}
use librefw.Hcf.Lookup.{lookup_walk-find, hcf_lookup_tree-find, find-put_network}

-- With memory for the copies and a tree in the state, after the work item for an address a packet
-- from its /24 network is judged by the TTL and hop count that were learnt, and a packet from any
-- other network by what the tree had before.
pub lookup-register :
    (k : Cache HcfInfo) (task : Task) (st : HcfState) (q : Ptr) (d : HcfInfo) (l r : Tree HcfInfo)
    (ip ttl : ℕ)
    → IsAmple k
    → IsHcf st (node q d l r)
    → task.source_ip < 2 ^ 32
    → ip < 2 ^ 32
    → (st' : HcfState) × (log : Option IpCtx) × (hcf_register_ip_work k task st ≡ some (st', log))
      × (hcf_lookup_tree ip ttl st'
          ≡ ok
              (verdict ttl (
                if ip / 2 ^ 8 == task.source_ip / 2 ^ 8
                then some (learnt task)
                else find (view (node q d l r)) (bits ip 8 24)))
              st'.mem)
lookup-register k task st q d l r ip ttl ample h small small' =
    let (st', t', run, h', old, v, rcu) = hcf_register_ip_work-put k task st q d l r ample h in
    (
      st',
      _,
      run,
      hcf_lookup_tree-find ip ttl st' t' h'
          ∙ ap (λ c. ok (verdict ttl c) st'.mem)
              (ap (λ x. find x (bits ip 8 24)) v
                ∙ find-put_network ip task.source_ip (learnt task) (view (node q d l r)) small'
                    small),
    )

-- With memory for the copies and a tree in the state, a reader that loaded the old root before the
-- work item finds the old tree's entries after it as well. The callbacks that are then due run
-- without a fault: the state keeps its new tree, and every node that waited before, and every
-- node on the old tree's path to the learnt network, is free.
pub register-grace_period :
    (k : Cache HcfInfo) (task : Task) (st : HcfState) (q : Ptr) (d : HcfInfo) (l r : Tree HcfInfo)
    → IsAmple k
    → IsHcf st (node q d l r)
    → (st' : HcfState) × (log : Option IpCtx) × (t' : Tree HcfInfo) × (m : Mem HcfInfo)
      × (hcf_register_ip_work k task st ≡ some (st', log))
      × ((ip : ℕ)
          → lookup_walk ip 24 q st'.mem ≡ ok (find (view (node q d l r)) (bits ip 8 24)) st'.mem)
      × (run_callbacks st'.rcu st'.mem ≡ ok tt m)
      × IsHcf (record { tree = st'.tree; mem = m; rcu = [] }) t'
      × (view t' ≡ put blank (bits task.source_ip 8 24) (learnt task) (view (node q d l r)))
      × All (λ a. read m a ≡ none) (st.rcu ++ trail (bits task.source_ip 8 24) (node q d l r))
register-grace_period k task st q d l r ample h =
    let (st', t', run, h', old, v, rcu) = hcf_register_ip_work-put k task st q d l r ample h in
    let (m, freed, reads) = run_callbacks-ok st'.mem t' st'.rcu h'.pending in
    (
      st',
      _,
      t',
      m,
      run,
      λ ip. lookup_walk-find ip 24 st'.mem q d l r old,
      freed,
      record {
        rooted = h'.rooted;
        owned = Owns-freed st'.mem m t' st'.rcu h'.owned h'.pending reads;
        pending = tt;
      },
      v,
      All-elem (λ a. read m a ≡ none) (st.rcu ++ trail (bits task.source_ip 8 24) (node q d l r))
          (λ a i. reads a ∙ ap (λ b. if b then none else read st'.mem a) (ap (elem a) rcu ∙ i)),
    )
