-- ===== src/Client/Main/Sent.antt =====
-- What the subcommands of the client do to the kernel.
use mathlib.Core.Option
use librefw.Base.{
  ℕ, ◌<◌, ◌≡◌, refl, sym, ap, ◌∙◌, inl, inr, Bool, true, Option, some, List, All, Bool-cases,
  Option-cases, if◌then◌else◌,
}
use librefw.Base.Int.{ℤ, pos}
use librefw.Mem.{IsAmple}
use librefw.Mem.Tree.{Tree, view}
use librefw.Trie.{leaf, fork}
use librefw.Mem.Free.{height}
use librefw.Netlink.{Nla, Attribute}
use librefw.Netlink.Cmd
use librefw.Netlink.Buffer.{Writer, IsLawful, IsParse}
use librefw.Hcf.{HcfInfo, blank, HcfState}
use librefw.Hcf.Register.{IsHcf}
use librefw.State.{Firewall}
use librefw.Commands.{Kernel, lfw_nl_ops}
use librefw.Client.{Socket, Sending, thrown, crashed, given_up, sent}
use librefw.Client.Text.{Text}
use librefw.Client.Command.{set_under_attack}
use librefw.Client.Command.Flagged.{set_under_attack-flagged}
use librefw.Client.Hcf.{Row, set_ip_history}
use librefw.Client.Sockets.{
  Libnl, Constructed, built, throws, NetlinkBase, NetlinkMulticastBase, family_name,
  default_bufsize, netlink_base, netlink_multicast_base,
}
use librefw.Client.Main.{
  under_attack, set_hcf, runs, World, Run, exits, terminates, hcf_group, after_sending, socket,
  dispatch, listen, send_history, run_subcommand, main,
}
use librefw.Client.Hcf.Restored.{restored, IsRow, set_ip_history-restored}
use librefw.Client.Main.Runs.{
  dispatch-throws, dispatch-built, listen-throws, listen-built, send_history-none,
  send_history-some, main-runs,
}

module _ (W : Writer) (L : Libnl W) where
  -- The command of a run that returned after it handed `b` over, with the code `code`
  abbrev Sends : (Socket W → Sending W.Buf) → ℤ → W.Buf → ℤ → Type 0
  Sends command ret b code = (sock : Socket W) × (command sock ≡ sent b code) × (ret ≡ pos 0)

  after_sending-sent :
      (s : Sending W.Buf) (ret : ℤ) (b : W.Buf) (code : ℤ)
      → after_sending s ≡ exits ret (some (b, code))
      → (s ≡ sent b code) × (ret ≡ pos 0)
  after_sending-sent thrown ret b code e = cc
  after_sending-sent crashed ret b code e = cc
  after_sending-sent given_up ret b code e = cc
  after_sending-sent (sent b' code') ret b code e =
      let same : b' ≡ b = cc in let same' : code' ≡ code = cc in (cc (same, same'), cc)

  dispatch-Sends :
      (command : Socket W → Sending W.Buf) (ret : ℤ) (b : W.Buf) (code : ℤ)
      → dispatch W L command ≡ exits ret (some (b, code))
      → Sends command ret b code
  dispatch-Sends command ret b code run = go (netlink_base W L family_name default_bufsize) refl
    where
      go :
          (c : Constructed L.Sock (NetlinkBase L.Sock))
          → netlink_base W L family_name default_bufsize ≡ c
          → Sends command ret b code
      go (throws e freed) made = absurd (cc (dispatch-throws W L command e freed made, run))
      go (built base) made =
          let (run', zero_code) =
            after_sending-sent (command (socket W L base)) ret b code
              (sym (dispatch-built W L command base made) ∙ run) in
          (socket W L base, run', zero_code)

  -- The run of `set_hcf`
  abbrev with_history : World W L → NetlinkBase L.Sock → Run W.Buf
  with_history w b = if w.connects then send_history W L w b else terminates

  -- The rows that the database gave were sent.
  abbrev SendsRows : World W L → ℤ → W.Buf → ℤ → Type 0
  SendsRows w ret b code =
      (sock : Socket W) × (rows : List Row) × (w.rows ≡ some rows)
      × (set_ip_history W sock rows ≡ sent b code)
      × (ret ≡ pos 0)

  module _ (w : World W L) (ret : ℤ) (b : W.Buf) (code : ℤ) where
    send_history-SendsRows :
        (base : NetlinkBase L.Sock)
        → send_history W L w base ≡ exits ret (some (b, code))
        → SendsRows w ret b code
    send_history-SendsRows base run = elim (Option-cases w.rows) [
      | inl e ↦ absurd (cc (send_history-none W L w base e, run))
      | inr (rows, e) ↦
          let (sends, zero_code) =
            after_sending-sent (set_ip_history W (socket W L base) rows) ret b code
              (sym (send_history-some W L w base rows e) ∙ run) in
          (socket W L base, rows, e, sends, zero_code)
    ]

    with_history-SendsRows :
        (base : NetlinkBase L.Sock)
        → with_history w base ≡ exits ret (some (b, code))
        → SendsRows w ret b code
    with_history-SendsRows base run = elim (Bool-cases w.connects) [
      | inl e ↦
          send_history-SendsRows base
            (sym (ap (λ c. if c then send_history W L w base else terminates) e) ∙ run)
      | inr e ↦ absurd (cc (ap (λ c. if c then send_history W L w base else terminates) e, run))
    ]

    listen-SendsRows :
        listen W L hcf_group (with_history w) ≡ exits ret (some (b, code)) → SendsRows w ret b code
    listen-SendsRows run =
        go (netlink_multicast_base W L family_name hcf_group default_bufsize) refl
      where
        go :
            (c : Constructed L.Sock (NetlinkMulticastBase L.Sock))
            → netlink_multicast_base W L family_name hcf_group default_bufsize ≡ c
            → SendsRows w ret b code
        go (throws e freed) made =
            absurd (cc (listen-throws W L hcf_group (with_history w) e freed made, run))
        go (built m) made =
            with_history-SendsRows m.base
              (sym (listen-built W L hcf_group (with_history w) m made) ∙ run)

  module _ (w : World W L) (argv : List Text) where
    under_attack-dispatch :
        (set : Bool)
        → w.parse argv ≡ runs (under_attack set)
        → main W L w argv ≡ dispatch W L (λ sock. set_under_attack W sock set)
    unfolding run_subcommand
    under_attack-dispatch set e = main-runs W L w argv (under_attack set) e

    set_hcf-listen :
        w.parse argv ≡ runs set_hcf → main W L w argv ≡ listen W L hcf_group (with_history w)
    unfolding run_subcommand
    set_hcf-listen e = main-runs W L w argv set_hcf e

-- If a run of the client with the subcommand `under_attack` returns after it handed a message
-- over to `nl_send_auto`, whatever that returned, it returns 0, and a kernel with memory for
-- the new state that gets the message answers it with 0; its hooks then see the
-- flag as the command line gave it, with both filters as before. The netlink calls keep the laws of
-- `IsLawful`, `Libnl` and `IsParse`.
pub main-under_attack :
    (W : Writer) (L : Libnl W) (w : World W L) (argv : List Text) (set : Bool) (ret : ℤ) (b : W.Buf)
    (code : ℤ) (nla_parse : List Attribute → ℕ → Option Nla) (unknown : ℤ) (k : Kernel)
    (fw : Firewall)
    → IsLawful W
    → IsParse nla_parse
    → k.state_allocated ≡ true
    → w.parse argv ≡ runs (under_attack set)
    → main W L w argv ≡ exits ret (some (b, code))
    → (ret ≡ pos 0)
      × (lfw_nl_ops nla_parse unknown k Cmd.set_under_attack (W.draft b).complete fw
          ≡ some (record fw { under_attack = set }, pos 0))
main-under_attack W L w argv set ret b code nla_parse unknown k fw law h alloc parsed run =
    let (sock, sends, zero_code) =
      dispatch-Sends W L (λ sock. set_under_attack W sock set) ret b code
        (sym (under_attack-dispatch W L w argv set parsed) ∙ run) in
    (zero_code, set_under_attack-flagged W sock set b code nla_parse unknown k fw law h alloc sends)

-- If a run of the client with the subcommand `set_hcf` returns after it handed a message over
-- to `nl_send_auto`, whatever that returned, it returns 0, and the database gave rows. If they are as the listener stores them, a kernel with
-- memory and stack for the height of its tree that gets the message answers it with 0 and leaves a tree with the TTLs and hop
-- counts of the rows, in their order, and nothing else; the flag and the bogon list stay. The netlink
-- calls keep the laws of `IsLawful` and `Libnl`.
pub main-set_hcf :
    (W : Writer) (L : Libnl W) (w : World W L) (argv : List Text) (ret : ℤ) (b : W.Buf) (code : ℤ)
    (rows : List Row) (nla_parse : List Attribute → ℕ → Option Nla) (unknown : ℤ) (k : Kernel)
    (fw : Firewall) (t : Tree HcfInfo)
    → IsLawful W
    → w.parse argv ≡ runs set_hcf
    → w.rows ≡ some rows
    → main W L w argv ≡ exits ret (some (b, code))
    → All IsRow rows
    → IsAmple k.hcf_cache
    → IsHcf fw.hcf t
    → height t < k.stack
    → (st' : HcfState) × (t' : Tree HcfInfo) × (ret ≡ pos 0)
      × (lfw_nl_ops nla_parse unknown k Cmd.set_hcf_history (W.draft b).complete fw
          ≡ some (record fw { hcf = st' }, pos 0))
      × IsHcf st' t'
      × (view t' ≡ restored rows (fork blank leaf leaf))
unfolding lfw_nl_ops
main-set_hcf W L w argv ret b code rows nla_parse unknown k fw t law parsed held run valid ample h
      enough =
    let (sock, rows', held', sends, zero_code) =
      listen-SendsRows W L w ret b code (sym (set_hcf-listen W L w argv parsed) ∙ run) in
    let same : rows' ≡ rows = cc (held, held') in
    let (st', t', handled, h', v) =
      set_ip_history-restored W sock rows b code k.hcf_cache k.stack fw.hcf t law valid
        (ap (set_ip_history W sock) (sym same) ∙ sends) ample h enough in
    (
      st',
      t',
      zero_code,
      ap (Option.map (λ (r : HcfState × ℤ). (record fw { hcf = r.0 }, r.1))) handled,
      h',
      v,
    )
