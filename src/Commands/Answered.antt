-- ===== src/Commands/Answered.antt =====
-- The netlink commands on states that hold their trees: they are
-- answered, and the trees are held again.

use librefw.Base.{
  ℕ, ◌<◌, ◌≡◌, refl, inl, inr, Bool, true, false, Option, some, List, arith, ◌==◌, Bool-cases,
}
use librefw.Base.Int.{ℤ, pos, e_nomem}
use librefw.Mem.{IsAmple}
use librefw.Mem.Tree.{Tree}
use librefw.Netlink.{Nla, Attribute, nests}
use librefw.Netlink.Attr
use librefw.Netlink.Cmd
use librefw.Trie.{Trie, leaf, fork}
use librefw.Bogon.{BgState, lfw_bogon_set}
use librefw.Bogon.Waiting.{IsBacked}
use librefw.Hcf.{HcfInfo, blank, HcfState}
use librefw.Hcf.History.{hcf_register_ip_history}
use librefw.Hcf.History.Stored.{stored, hcf_register_ip_history-stored}
use librefw.Hcf.System.Shallow.{IsShallow, stored-IsShallow, fork-IsShallow}
use librefw.Hcf.System.Reached.{IsAt, IsAt-shallow}
use librefw.State.{Firewall, lfw_state_set_under_attack, lfw_state_set_under_attack_nl}
use librefw.Commands.{Kernel, u32_or_zero, is_some, lfw_nl_ops}
use librefw.Commands.Admitted.{IsAnnounced, lfw_bogon_set-Ends}

-- Both filters hold their trees, the hop-count tree no higher than 25 nodes.
abbrev pub IsServing : Firewall → Type 0
IsServing fw = (t : Tree ℕ) × IsBacked fw.bogon t × (x : Trie HcfInfo) × IsAt fw.hcf x × IsShallow x

-- A message whose prefixes are announced
abbrev pub IsAdmitted : (nla_parse : List Attribute → ℕ → Option Nla) → List Attribute → Type 0
IsAdmitted nla_parse attrs =
    IsAnnounced (u32_or_zero (nla_parse attrs Attr.num_ip_prefix)) (nests attrs)

module _ (nla_parse : List Attribute → ℕ → Option Nla) (unknown : ℤ) (k : Kernel)
    (ample : IsAmple k.bogon_cache) (ample' : IsAmple k.hcf_cache) (enough : 25 < k.stack)
    (attrs : List Attribute) (fw : Firewall) where
  abbrev Answers : ℕ → Type 0
  Answers cmd =
      (fw' : Firewall) × (ret : ℤ) × (lfw_nl_ops nla_parse unknown k cmd attrs fw ≡ some (fw', ret))
      × IsServing fw'

  set_bogon-step :
      (cmd : ℕ) (st' : BgState) (ret : ℤ)
      → (cmd == Cmd.set_bogon) ≡ true
      → lfw_bogon_set k.bogon_cache k.buffer_allocated k.tree_allocated
          (u32_or_zero (nla_parse attrs Attr.num_ip_prefix))
          (nests attrs)
          fw.bogon
        ≡ some (st', ret)
      → lfw_nl_ops nla_parse unknown k cmd attrs fw ≡ some (record fw { bogon = st' }, ret)
  unfolding lfw_nl_ops
  set_bogon-step cmd st' ret e run = rw (e, run, lfw_nl_ops) refl

  set_hcf-step :
      (cmd : ℕ) (st' : HcfState) (ret : ℤ)
      → (cmd == Cmd.set_bogon) ≡ false
      → (cmd == Cmd.set_under_attack) ≡ false
      → (cmd == Cmd.set_hcf_history) ≡ true
      → hcf_register_ip_history k.hcf_cache k.stack (nests attrs) fw.hcf ≡ some (st', ret)
      → lfw_nl_ops nla_parse unknown k cmd attrs fw ≡ some (record fw { hcf = st' }, ret)
  unfolding lfw_nl_ops
  set_hcf-step cmd st' ret e e' e'' run = rw (e, e', e'', run, lfw_nl_ops) refl

  flag-Answers :
      (cmd : ℕ) (allocated : Bool)
      → k.state_allocated ≡ allocated
      → (cmd == Cmd.set_bogon) ≡ false
      → (cmd == Cmd.set_under_attack) ≡ true
      → IsServing fw
      → Answers cmd
  unfolding lfw_nl_ops lfw_state_set_under_attack_nl lfw_state_set_under_attack
  flag-Answers cmd true alloc e e' h = (
    record fw { under_attack = is_some (nla_parse attrs Attr.under_attack) },
    pos 0,
    rw (e, e', alloc, lfw_nl_ops) refl,
    h,
  )
  flag-Answers cmd false alloc e e' h = (fw, e_nomem, rw (e, e', alloc, lfw_nl_ops) refl, h)

  other-Answers :
      (cmd : ℕ)
      → (cmd == Cmd.set_bogon) ≡ false
      → (cmd == Cmd.set_under_attack) ≡ false
      → (cmd == Cmd.set_hcf_history) ≡ false
      → IsServing fw
      → Answers cmd
  unfolding lfw_nl_ops
  other-Answers cmd e e' e'' h = (fw, unknown, rw (e, e', e'', lfw_nl_ops) refl, h)

  bogon-Answers :
      (cmd : ℕ)
      → IsAdmitted nla_parse attrs
      → (cmd == Cmd.set_bogon) ≡ true
      → IsServing fw
      → Answers cmd
  bogon-Answers cmd valid e (t, hb, x, held, shallow) =
      let (st', ret, t', run, hb') =
        lfw_bogon_set-Ends k.bogon_cache ample (nests attrs) fw.bogon t hb k.buffer_allocated
          k.tree_allocated (u32_or_zero (nla_parse attrs Attr.num_ip_prefix)) valid in
      (
        record fw { bogon = st' },
        ret,
        set_bogon-step cmd st' ret e run,
        (t', hb', x, held, shallow),
      )

  hcf-Answers :
      (cmd : ℕ)
      → (cmd == Cmd.set_bogon) ≡ false
      → (cmd == Cmd.set_under_attack) ≡ false
      → (cmd == Cmd.set_hcf_history) ≡ true
      → IsServing fw
      → Answers cmd
  hcf-Answers cmd e e' e'' (t, hb, x, (u, hh, v, low), shallow) =
      let (st', u', m, run, hh', v', freed, rcu) =
        hcf_register_ip_history-stored k.hcf_cache k.stack (nests attrs) fw.hcf u ample' hh
          (omega (arith, low, enough)) in
      let shallow' = stored-IsShallow (nests attrs) (fork blank leaf leaf) fork-IsShallow in
      (
        record fw { hcf = st' },
        pos 0,
        set_hcf-step cmd st' (pos 0) e e' e'' run,
        (
          t,
          hb,
          stored (nests attrs) (fork blank leaf leaf),
          IsAt-shallow st' (stored (nests attrs) (fork blank leaf leaf)) u' hh' v' shallow',
          shallow',
        ),
      )

  pub lfw_nl_ops-Answers : (cmd : ℕ) → IsAdmitted nla_parse attrs → IsServing fw → Answers cmd
  lfw_nl_ops-Answers cmd valid h = elim (Bool-cases (cmd == Cmd.set_bogon)) [
    | inl e ↦ bogon-Answers cmd valid e h
    | inr e ↦ elim (Bool-cases (cmd == Cmd.set_under_attack)) [
      | inl e' ↦ flag-Answers cmd k.state_allocated refl e e' h
      | inr e' ↦ elim (Bool-cases (cmd == Cmd.set_hcf_history)) [
        | inl e'' ↦ hcf-Answers cmd e e' e'' h
        | inr e'' ↦ other-Answers cmd e e' e'' h
      ]
    ]
  ]
