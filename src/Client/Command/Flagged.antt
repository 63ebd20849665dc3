-- ===== src/Client/Command/Flagged.antt =====
-- The flag of an attack, from the client's command to the state of the hooks.
use librefw.Base.{
  ℕ, ◌≡◌, refl, sym, ap, ◌∙◌, inl, inr, Bool, true, false, Option, none, some, List, [], ◌∷◌,
  Option-cases,
}
use librefw.Base.Int.{ℤ, pos}
use librefw.Netlink.{Nla, Attribute, scalar, flag_attr}
use librefw.Netlink.Attr
use librefw.Netlink.Cmd
use librefw.Netlink.Buffer.{Draft, add, fits, full, Writer, IsLawful, IsParse}
use librefw.Netlink.Written.{drafted, Outcome-cases}
use librefw.State.{Firewall, lfw_state_set_under_attack, lfw_state_set_under_attack_nl}
use librefw.Commands.{Kernel, is_some, lfw_nl_ops}
use librefw.Client.{Socket, sent, thrown, given_up}
use librefw.Client.Command.{set_under_attack}

-- The attributes of the message
abbrev flag_attrs : Bool → List Attribute
flag_attrs true = scalar (flag_attr Attr.under_attack) ∷ []
flag_attrs false = []

module _ (W : Writer) (law : IsLawful W) (sock : Socket W) (b : W.Buf) (ret : ℤ) where
  no_message :
      (flag : Bool)
      → sock.make_message Cmd.set_under_attack ≡ none
      → set_under_attack W sock flag ≡ thrown
  unfolding set_under_attack
  no_message flag e = rw (e, set_under_attack) refl

  cleared :
      (b₀ : W.Buf)
      → sock.make_message Cmd.set_under_attack ≡ some b₀
      → set_under_attack W sock false ≡ sent b₀ (sock.nl_send_auto b₀)
  unfolding set_under_attack
  cleared b₀ e = rw (e, set_under_attack) refl

  flagged :
      (b₀ b₁ : W.Buf)
      → sock.make_message Cmd.set_under_attack ≡ some b₀
      → W.nla_put (flag_attr Attr.under_attack) b₀ ≡ fits b₁
      → set_under_attack W sock true ≡ sent b₁ (sock.nl_send_auto b₁)
  unfolding set_under_attack
  flagged b₀ b₁ e e' = rw (e, e', set_under_attack) refl

  no_room :
      (b₀ b₁ : W.Buf)
      → sock.make_message Cmd.set_under_attack ≡ some b₀
      → W.nla_put (flag_attr Attr.under_attack) b₀ ≡ full b₁
      → set_under_attack W sock true ≡ given_up
  unfolding set_under_attack
  no_room b₀ b₁ e e' = rw (e, e', set_under_attack) refl

  flag_draft :
      (flag : Bool)
      → set_under_attack W sock flag ≡ sent b ret
      → W.draft b ≡ drafted (flag_attrs flag) none
  flag_draft flag run = elim (Option-cases (sock.make_message Cmd.set_under_attack)) [
    | inl e ↦ absurd (cc (no_message flag e, run))
    | inr (b₀, e) ↦ from_message flag run b₀ e
  ]
    where
      from_message :
          (flag : Bool)
          → set_under_attack W sock flag ≡ sent b ret
          → (b₀ : W.Buf) → sock.make_message Cmd.set_under_attack ≡ some b₀
          → W.draft b ≡ drafted (flag_attrs flag) none
      from_message false run b₀ e =
          let same : b₀ ≡ b = cc (cleared b₀ e, run) in
          ap W.draft (sym same) ∙ sock.begins_empty Cmd.set_under_attack b₀ e
      from_message true run b₀ e =
          let flag_nla = flag_attr Attr.under_attack in
          elim (Outcome-cases W law (W.nla_put flag_nla b₀)) [
            | inl (b₁, put) ↦
                let same : b₁ ≡ b = cc (flagged b₀ b₁ e put, run) in
                ap W.draft (sym same)
                ∙ law.put-fits flag_nla b₀ b₁ put
                ∙ ap (add flag_nla) (sock.begins_empty Cmd.set_under_attack b₀ e)
            | inr (b₁, put) ↦ absurd (cc (no_room b₀ b₁ e put, run))
          ]

parse-flag :
    (nla_parse : List Attribute → ℕ → Option Nla) (flag : Bool)
    → IsParse nla_parse
    → is_some (nla_parse (flag_attrs flag) Attr.under_attack) ≡ flag
parse-flag nla_parse true h =
    ap is_some (h.parse-scalar [] (flag_attr Attr.under_attack) Attr.under_attack)
parse-flag nla_parse false h = ap is_some (h.parse-nil Attr.under_attack)

handled :
    (nla_parse : List Attribute → ℕ → Option Nla) (unknown : ℤ) (k : Kernel)
    (attrs : List Attribute) (flag : Bool) (fw : Firewall)
    → k.state_allocated ≡ true
    → is_some (nla_parse attrs Attr.under_attack) ≡ flag
    → lfw_nl_ops nla_parse unknown k Cmd.set_under_attack attrs fw
      ≡ some (record fw { under_attack = flag }, pos 0)
unfolding lfw_nl_ops lfw_state_set_under_attack_nl lfw_state_set_under_attack
handled nla_parse unknown k attrs flag fw alloc e =
    rw (alloc, e, lfw_state_set_under_attack_nl, lfw_state_set_under_attack) refl

-- If the client sends the command that sets or clears the flag, the kernel, with memory for the new
-- state, answers 0 and its hooks see the flag as the client gave it, with both filters as before. The
-- netlink calls keep the laws of `IsLawful`, `Socket` and `IsParse`.
pub set_under_attack-flagged :
    (W : Writer) (sock : Socket W) (flag : Bool) (b : W.Buf) (ret : ℤ)
    (nla_parse : List Attribute → ℕ → Option Nla) (unknown : ℤ) (k : Kernel) (fw : Firewall)
    → IsLawful W
    → IsParse nla_parse
    → k.state_allocated ≡ true
    → set_under_attack W sock flag ≡ sent b ret
    → lfw_nl_ops nla_parse unknown k Cmd.set_under_attack (W.draft b).complete fw
      ≡ some (record fw { under_attack = flag }, pos 0)
set_under_attack-flagged W sock flag b ret nla_parse unknown k fw law h alloc run =
    handled nla_parse unknown k (W.draft b).complete flag fw alloc (
      ap (λ (d : Draft). is_some (nla_parse d.complete Attr.under_attack))
        (flag_draft W law sock b ret flag run)
      ∙ parse-flag nla_parse flag h)
