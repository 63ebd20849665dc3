-- ===== src/Client/Admitted.antt =====
-- The messages that the client sends pass the kernel's check by the policies of kernel/src/nl.c.
use mathlib.Core.Path.{subst}
use librefw.Base.{
  ℕ, ◌≡◌, refl, sym, ap, inl, inr, Bool, Option, some, List, [], ◌∷◌, map, All, All-append, take,
  arith,
}
use librefw.Base.Int.{ℤ}
use librefw.Netlink.{Nla, scalar, u32_attr}
use librefw.Netlink.Attr
use librefw.Netlink.Cmd
use librefw.Netlink.Buffer.{Draft, Writer, IsLawful}
use librefw.Netlink.Policy.{
  AttrType, lfw_ip_prefix_pol, hcf_ip_history_pol, lfw_pol, IsCheck, PassesAt, Passes, attr_type,
}
use librefw.Client.{Socket, sent}
use librefw.Client.Text.{Text}
use librefw.Client.Hcf.{Row, set_ip_history}
use librefw.Client.Hcf.Restored.{row_nest, pack_rows-nests, sent-packed}
use librefw.Client.Command.{send_bogon_list}
use librefw.Client.Command.Taken.{
  Entry, IsEntry, entry_line, entry_nest, Carries, send_bogon_list-Carries,
}

module _ (admits : AttrType → Nla → Bool) (check : IsCheck admits) where
  entries-Passes : (es : List Entry) → Passes admits (map entry_nest es)
  unfolding lfw_pol lfw_ip_prefix_pol
  entries-Passes [] = tt
  entries-Passes (e ∷ es) =
      ((check.admits-u32 _ refl, (check.admits-u8 _ refl, tt)), entries-Passes es)

  count-Passes : (n : ℕ) → Passes admits (scalar (u32_attr Attr.num_ip_prefix n) ∷ [])
  unfolding lfw_pol
  count-Passes n = (check.admits-u32 _ refl, tt)

  rows-Passes : (rows : List Row) → Passes admits (map row_nest rows)
  unfolding lfw_pol hcf_ip_history_pol
  rows-Passes [] = tt
  rows-Passes (r ∷ rows) = (
    (
      check.admits-binary 16 _ (omega arith),
      (check.admits-u8 _ refl, (check.admits-u8 _ refl, tt)),
    ),
    rows-Passes rows,
  )

  Carries-Passes :
      (W : Writer) (es : List Entry) (m : ℕ) (b₁ b : W.Buf)
      → Carries W es m b₁ b
      → Passes admits (W.draft b).complete
  Carries-Passes W es m b₁ b (inl d) =
      subst (Passes admits) (ap (λ (x : Draft). x.complete) (sym d)) (
        All-append (λ a. PassesAt admits (lfw_pol (attr_type a)) a) (map entry_nest (take m es)) _
          (entries-Passes (take m es)) (count-Passes m))
  Carries-Passes W es m b₁ b (inr (d, _)) =
      subst (Passes admits) (ap (λ (x : Draft). x.complete) (sym d)) (entries-Passes (take m es))

  -- Every attribute of a message that `send_bogon_list` sends for a file of addresses with lengths
  -- below 100, one in a line, has the type that the kernel's policies ask for.
  pub send_bogon_list-Passes :
      (W : Writer) (inet_pton : Text → Option ℕ) (stale : ℕ) (sock : Socket W) (es : List Entry)
      (b : W.Buf) (ret : ℤ)
      → IsLawful W
      → All (IsEntry inet_pton) es
      → send_bogon_list W inet_pton stale sock (some (map entry_line es)) ≡ sent b ret
      → Passes admits (W.draft b).complete
  send_bogon_list-Passes W inet_pton stale sock es b ret law valid run =
      let (b₀, made, b₁, m, le, filled, packs, carries) =
        send_bogon_list-Carries W law inet_pton stale sock es b ret valid run in
      Carries-Passes W es m b₁ b carries

  -- Every attribute of a message that `set_ip_history` sends has the type that the kernel's policies
  -- ask for.
  pub set_ip_history-Passes :
      (W : Writer) (sock : Socket W) (rows : List Row) (b : W.Buf) (ret : ℤ)
      → IsLawful W
      → set_ip_history W sock rows ≡ sent b ret
      → Passes admits (W.draft b).complete
  set_ip_history-Passes W sock rows b ret law run =
      let (b₀, made, packs) = sent-packed W law sock rows b ret run in
      subst (Passes admits)
        (ap (λ (x : Draft). x.complete)
          (sym (
            pack_rows-nests W law rows b₀ b [] (sock.begins_empty Cmd.set_hcf_history b₀ made)
              packs)))
        (rows-Passes rows)
