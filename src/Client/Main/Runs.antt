-- ===== src/Client/Main/Runs.antt =====
-- The steps of a run of the client, one for each result of its constructors and of the query.
use librefw.Base.{◌≡◌, refl, Option, none, some, List}
use librefw.Netlink.Buffer.{Writer}
use librefw.Client.{Socket, Sending}
use librefw.Client.Text.{Text}
use librefw.Client.Hcf.{Row, set_ip_history}
use librefw.Client.Sockets.{
  Libnl, built, throws, NetlinkBase, NetlinkMulticastBase, family_name, default_bufsize,
  netlink_base, netlink_multicast_base,
}
use librefw.Client.Main.{
  Subcommand, runs, World, Run, terminates, after_sending, socket, dispatch, listen, send_history,
  run_subcommand, main,
}

module _ (W : Writer) (L : Libnl W) where
  pub dispatch-throws :
      (command : Socket W → Sending W.Buf) (e : _) (freed : Option L.Sock)
      → netlink_base W L family_name default_bufsize ≡ throws e freed
      → dispatch W L command ≡ terminates
  unfolding dispatch
  dispatch-throws command e freed run = rw (run, dispatch) refl

  pub dispatch-built :
      (command : Socket W → Sending W.Buf) (b : NetlinkBase L.Sock)
      → netlink_base W L family_name default_bufsize ≡ built b
      → dispatch W L command ≡ after_sending (command (socket W L b))
  unfolding dispatch
  dispatch-built command b run = rw (run, dispatch) refl

  pub listen-throws :
      (group : Text) (go : NetlinkBase L.Sock → Run W.Buf) (e : _) (freed : Option L.Sock)
      → netlink_multicast_base W L family_name group default_bufsize ≡ throws e freed
      → listen W L group go ≡ terminates
  unfolding listen
  listen-throws group go e freed run = rw (run, listen) refl

  pub listen-built :
      (group : Text) (go : NetlinkBase L.Sock → Run W.Buf) (m : NetlinkMulticastBase L.Sock)
      → netlink_multicast_base W L family_name group default_bufsize ≡ built m
      → listen W L group go ≡ go m.base
  unfolding listen
  listen-built group go m run = rw (run, listen) refl

  module _ (w : World W L) where
    pub send_history-none :
        (b : NetlinkBase L.Sock) → w.rows ≡ none → send_history W L w b ≡ terminates
    unfolding send_history
    send_history-none b e = rw (e, send_history) refl

    pub send_history-some :
        (b : NetlinkBase L.Sock) (rows : List Row)
        → w.rows ≡ some rows
        → send_history W L w b ≡ after_sending (set_ip_history W (socket W L b) rows)
    unfolding send_history
    send_history-some b rows e = rw (e, send_history) refl

    pub main-runs :
        (argv : List Text) (sub : Subcommand)
        → w.parse argv ≡ runs sub
        → main W L w argv ≡ run_subcommand W L w sub
    unfolding main
    main-runs argv sub e = rw (e, main) refl
