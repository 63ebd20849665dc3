-- ===== src/Netlink/Multicast.antt =====
-- kernel/src/nl.c: `lfw_make_multicast_msg`. The kernel's calls are parameters.
use librefw.Base.{ℕ, ◌≡◌, Option, none, some, [], if◌then◌else◌}
use librefw.Base.Int.{ℤ, pos, is_nonzero, int_eq, e_nomem, e_srch}
use librefw.Netlink.Buffer.{Writer}

-- `genlmsg_new` by the size, `genlmsg_put` by the command, and the code that `genlmsg_multicast`
-- returns for a group; it takes the message over. A message begins empty.
pub record Genl (W : Writer) : Type 0 where
  pub genlmsg_new : ℕ → Option W.Buf
  pub genlmsg_put : ℕ → W.Buf → Option W.Buf
  pub genlmsg_multicast : ℕ → W.Buf → ℤ
  pub begins_empty :
      (size cmd : ℕ) (b b' : W.Buf)
      → genlmsg_new size ≡ some b
      → genlmsg_put cmd b ≡ some b'
      → W.draft b' ≡ record { complete = []; opened = none }

-- What became of the message: there was no memory for it, `nlmsg_free` took it, or
-- `genlmsg_multicast` did.
pub data Fate (B : Type 0) : Type 0 where
  unallocated : Fate B
  freed : Fate B
  sent : ℕ → B → Fate B

-- `callback skb data` with its return code.
unfoldable pub lfw_make_multicast_msg :
    (W : Writer) → Genl W → (group cmd : ℕ) → (W.Buf → W.Buf × ℤ) → ℕ → Fate W.Buf × ℤ
lfw_make_multicast_msg W g group cmd callback msgsize = elim (g.genlmsg_new msgsize) [
  | none ↦ (unallocated, e_nomem)
  | some skb ↦ elim (g.genlmsg_put cmd skb) [
    | none ↦ (freed, e_nomem)
    | some skb' ↦
        let (skb'', ret) = callback skb' in
        if is_nonzero ret then (freed, ret) else (
          sent group skb'',
          if int_eq (g.genlmsg_multicast group skb'') e_srch
              then pos 0
              else g.genlmsg_multicast group skb'',
        )
  ]
]
