-- ===== src/Hcf/System/Shallow.antt =====
-- The tries that the events of the system make, and that they stay shallow.
use librefw.Base.{ℕ, ◌≤◌, ◌<◌, inl, inr, List, [], ◌∷◌, ◌==◌, arith, Bool-cases}
use librefw.Netlink.{Nest}
use librefw.Netlink.Attr
use librefw.Trie.{Trie, leaf, fork, put}
use librefw.Trie.Depth.{depth, depth-put, put_not_leaf}
use librefw.Word.{bits}
use librefw.Word.Prefix.{length-bits}
use librefw.Hcf.{HcfInfo, blank}
use librefw.Hcf.Register.{learnt}
use librefw.Hcf.History.{no_entry, read_entry}
use librefw.Hcf.History.Stored.{stored, info_of}
use librefw.Hcf.System.{Event, queues, learns, quiesces, restores}

-- What an event makes of the tree.
unfoldable pub effect : Event → Trie HcfInfo → Trie HcfInfo
effect queues t = t
effect (learns task) t = put blank (bits task.source_ip 8 24) (learnt task) t
effect quiesces t = t
effect (restores attrs) t = stored attrs (fork blank leaf leaf)

unfoldable pub effects : List Event → Trie HcfInfo
effects [] = fork blank leaf leaf
effects (e ∷ es) = effect e (effects es)

-- A trie of a root and at most 24 levels below it
abbrev pub IsShallow : Trie HcfInfo → Type 0
IsShallow t = (0 < depth t) × (depth t ≤ 25)

pub put-IsShallow :
    (ip : ℕ) (d : HcfInfo) (t : Trie HcfInfo)
    → IsShallow t
    → IsShallow (put blank (bits ip 8 24) d t)
put-IsShallow ip d t h = (
  put_not_leaf blank (bits ip 8 24) d t,
  depth-put blank (bits ip 8 24) d t 25 h.1 (omega (arith, length-bits ip 8 24)),
)

pub stored-IsShallow :
    (attrs : List Nest) (t : Trie HcfInfo) → IsShallow t → IsShallow (stored attrs t)
unfolding stored
stored-IsShallow [] t h = h
stored-IsShallow (a ∷ attrs) t h =
    let entry = read_entry a.nested no_entry in
    elim (Bool-cases (a.nest_type == Attr.hcf_history)) [
      | inl is ↦ rw is (
          stored-IsShallow attrs (put blank (bits entry.ip_addr 8 24) (info_of entry) t)
            (put-IsShallow entry.ip_addr (info_of entry) t h))
      | inr other ↦ rw other (stored-IsShallow attrs t h)
    ]

pub fork-IsShallow : IsShallow (fork blank leaf leaf)
unfolding depth
fork-IsShallow = (omega arith, omega arith)

effect-IsShallow : (e : Event) (t : Trie HcfInfo) → IsShallow t → IsShallow (effect e t)
unfolding effect
effect-IsShallow queues t h = h
effect-IsShallow (learns task) t h = put-IsShallow task.source_ip (learnt task) t h
effect-IsShallow quiesces t h = h
effect-IsShallow (restores attrs) t h = stored-IsShallow attrs (fork blank leaf leaf) fork-IsShallow

pub effects-IsShallow : (es : List Event) → IsShallow (effects es)
unfolding effects
effects-IsShallow [] = fork-IsShallow
effects-IsShallow (e ∷ es) = effect-IsShallow e (effects es) (effects-IsShallow es)
