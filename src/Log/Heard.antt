-- ===== src/Log/Heard.antt =====
-- What the client prints of a message of the kernel module.
use librefw.Base.{
  ℕ, suc, ◌+◌, ◌*◌, ◌/◌, ◌%◌, ◌^◌, ◌<◌, ◌≡◌, refl, sym, ap, ◌∙◌, Bool, true, false, Option, some,
  List, [], ◌∷◌, map, All, All-take, arith, ltb, take, length, ◌==◌,
}
use librefw.Base.Int.{ℤ}
use librefw.Netlink.{
  Nla, Attribute, scalar, nla_get_u8, nla_get_u64, nla_get_string, text_from, text_word, u8_attr,
  u64_attr, string_attr,
}
use librefw.Netlink.Attr
use librefw.Netlink.Cmd
use librefw.Netlink.Buffer.{Draft, Writer, IsLawful, IsParse}
use librefw.Netlink.Written.{build-scalars}
use librefw.Netlink.Parsed.{parse-three}
use librefw.Netlink.Multicast.{Genl, Fate, sent}
use librefw.Netlink.Delivered.{multicast-Delivers}
use librefw.Log.{LogCtx, log_attrs, lfw_build_log_msg, lfw_log}
use librefw.Client.{nl_ok}
use librefw.Client.Log.{Printed, log_message_received}

-- A byte that is no NUL
abbrev pub IsChar : ℕ → Type 0
IsChar c = (0 < c) × (c < 2 ^ 8)

text_step : (c n w : ℕ) → IsChar c → text_from (suc n) (c + 2 ^ 8 * w) ≡ c ∷ text_from n w
unfolding text_from
text_step c n w h =
    let low : (c + 2 ^ 8 * w) % 2 ^ 8 ≡ c = omega (arith, h.0, h.1) in
    let high : (c + 2 ^ 8 * w) / 2 ^ 8 ≡ w = omega (arith, h.0, h.1) in
    let some_char : (c == 0) ≡ false = ground (arith, h.0) in
    rw (low, high, some_char, text_from) refl

text_from-word :
    (text : List ℕ) → All IsChar text → text_from (suc (length text)) (text_word text) ≡ text
unfolding text_from
text_from-word [] h = refl
text_from-word (c ∷ cs) h =
    text_step c (suc (length cs)) (text_word cs) h.0 ∙ ap (λ l. c ∷ l) (text_from-word cs h.1)

printed-eq :
    (a a' b b' : ℕ) (c c' : List ℕ)
    → a ≡ a'
    → b ≡ b'
    → c ≡ c'
    → ◌≡◌ {A = Printed}
        (record { level = a; timestamp = b; message = c })
        (record { level = a'; timestamp = b'; message = c' })
printed-eq a a' b b' c c' e e' e'' = cc

received-found :
    (tb : ℕ → Option Nla) (a b c : Nla)
    → tb Attr.log_lvl ≡ some a
    → tb Attr.log_ts ≡ some b
    → tb Attr.log_msg ≡ some c
    → ltb (nla_get_u8 a) 8 ≡ true
    → log_message_received tb
      ≡ some (
        some (record {
          level = nla_get_u8 a;
          timestamp = nla_get_u64 b;
          message = nla_get_string c;
        }),
        nl_ok,
      )
unfolding log_message_received
received-found tb a b c e e' e'' low = rw (e'', e', e, low, log_message_received) refl

printed :
    (nla_parse : List Attribute → ℕ → Option Nla) (ctx : LogCtx)
    → IsParse nla_parse
    → ctx.level < 8
    → ctx.timestamp < 2 ^ 64
    → All IsChar ctx.msg
    → log_message_received (nla_parse (map scalar (log_attrs ctx)))
      ≡ some
          (some (record { level = ctx.level; timestamp = ctx.timestamp; message = ctx.msg }), nl_ok)
printed nla_parse ctx h small small' chars =
    let a = u8_attr Attr.log_lvl ctx.level in
    let b = u64_attr Attr.log_ts ctx.timestamp in
    let c = string_attr Attr.log_msg ctx.msg in
    let low : ltb (nla_get_u8 a) 8 ≡ true = ground arith in
    received-found (nla_parse (map scalar (log_attrs ctx))) a b c
      (parse-three nla_parse a b c Attr.log_lvl h) (parse-three nla_parse a b c Attr.log_ts h)
      (parse-three nla_parse a b c Attr.log_msg h) low
    ∙ ap (λ (r : Printed). some (some r, nl_ok))
        (printed-eq _ _ _ _ _ _ (omega arith) (omega arith) (text_from-word ctx.msg chars))

-- If the kernel module sends a message of a level below 8, without NULs and at a time below 2 ^ 64, the
-- client's listener prints this level, this time and the first 1023 bytes of the message; the
-- kernel module has warned of a cut exactly if the message has more than 1024 bytes. The kernel's and
-- libnl's netlink calls keep the laws of `IsLawful`, `Genl` and `IsParse`.
pub lfw_log-printed :
    (W : Writer) (g : Genl W) (nla_parse : List Attribute → ℕ → Option Nla)
    (goodsize level tv_sec : ℕ) (text : List ℕ) (grp : ℕ) (b : W.Buf) (ret : ℤ) (warned : Bool)
    → IsLawful W
    → IsParse nla_parse
    → level < 8
    → tv_sec < 2 ^ 64
    → All IsChar text
    → lfw_log W g goodsize true level tv_sec text ≡ (sent grp b, ret, warned)
    → (grp ≡ Cmd.group_log)
      × (log_message_received (nla_parse (W.draft b).complete)
          ≡ some (
            some (record { level = level; timestamp = tv_sec; message = take 1023 text }),
            nl_ok,
          ))
      × (warned ≡ ltb 1024 (length text))
unfolding lfw_log lfw_build_log_msg
lfw_log-printed W g nla_parse goodsize level tv_sec text grp b ret warned law h small small' chars
      run =
    let ctx : LogCtx = record { level = level; timestamp = tv_sec; msg = take 1023 text } in
    let d =
      multicast-Delivers W g Cmd.group_log Cmd.log (lfw_build_log_msg W ctx) goodsize grp b ret
        (ap (λ (r : Fate W.Buf × ℤ × Bool). (r.0, r.1)) run) in
    (
      d.same_group,
      ap (λ x. log_message_received (nla_parse x))
            (ap (λ x. (W.draft x).complete) (sym d.wrote)
              ∙ ap (λ (x : Draft). x.complete)
                  (build-scalars W law (log_attrs ctx) d.blank_msg d.is_blank d.agreed))
          ∙ printed nla_parse ctx h small small' (All-take IsChar 1023 text chars),
      ap (λ (r : Fate W.Buf × ℤ × Bool). r.2) (sym run),
    )
