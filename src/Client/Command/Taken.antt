-- ===== src/Client/Command/Taken.antt =====
-- What `send_bogon_list` writes for a file of prefixes: as many as found room, in their order.
use mathlib.Core.Path.{subst}
use mathlib.Core.List.{append-nil, append_assoc}
use librefw.Base.{
  ℕ, suc, ◌+◌, ◌≤◌, ◌<◌, ◌≡◌, refl, sym, ap, ◌∙◌, ◌⊎◌, inl, inr, Option, none, some, List, [], ◌∷◌,
  ◌++◌, map, arith, All, length, take, Option-cases,
}
use librefw.Base.Int.{ℤ, pos}
use librefw.Netlink.{Nla, Attribute, scalar, nest, u32_attr}
use librefw.Netlink.Attr
use librefw.Netlink.Cmd
use librefw.Netlink.Buffer.{add, Writer, IsLawful, fits, full, nla_put_all}
use librefw.Netlink.Written.{drafted, nest_of, nest-written, nest-cancelled, Outcome-cases}
use librefw.Bogon.{IpPrefix}
use librefw.Client.{Socket, sent, thrown, crashed}
use librefw.Client.Text.{Text, before_slash, after_slash, stoi}
use librefw.Client.Text.Decimal.{
  line_of, decimal, HasNoSlash, before_slash-line, after_slash-line, stoi-decimal,
}
use librefw.Client.Command.{
  Lines, lines, throws, null_used, s_addr, line_attrs, pack_lines, put_count, send_bogon_list,
}

-- A line of the file, with the prefix that it means
pub record Entry : Type 0 where
  pub text : Text
  pub prefix : IpPrefix

module _ (inet_pton : Text → Option ℕ) where
  -- The text before the slash is an address in `inet_pton`'s eyes, and the length is below 100.
  abbrev pub IsEntry : Entry → Type 0
  IsEntry e =
      HasNoSlash e.text
      × (inet_pton e.text ≡ some e.prefix.ip_prefix)
      × (e.prefix.ip_prefix_len < 100)

abbrev pub entry_line : Entry → Text
entry_line e = line_of e.text e.prefix.ip_prefix_len

abbrev pub entry_attrs : Entry → List Nla
entry_attrs e = line_attrs e.prefix.ip_prefix (pos e.prefix.ip_prefix_len)

abbrev pub entry_nest : Entry → Attribute
entry_nest e = nest (nest_of Attr.ip_prefix (entry_attrs e))

-- The count is refused in the buffer.
abbrev pub CountRefused : (W : Writer) → ℕ → W.Buf → Type 0
CountRefused W m b₁ = (b₂ : W.Buf) × (W.nla_put (u32_attr Attr.num_ip_prefix m) b₁ ≡ full b₂)

-- The count is the last attribute, or is missing since the buffer `b₁` before it refused it.
abbrev pub Carries : (W : Writer) → List Entry → ℕ → W.Buf → W.Buf → Type 0
Carries W es m b₁ b =
    (W.draft b
      ≡ drafted (map entry_nest (take m es) ++ (scalar (u32_attr Attr.num_ip_prefix m) ∷ [])) none)
    ⊎ ((W.draft b ≡ drafted (map entry_nest (take m es)) none) × CountRefused W m b₁)

-- What is put for entries, one after another, `none` where there is no room
unfoldable pub put_entries : (W : Writer) → List Entry → W.Buf → Option W.Buf
put_entries W [] b = some b
put_entries W (e ∷ es) b = elim (W.nla_nest_start Attr.ip_prefix b) [
  | none ↦ none
  | some b₁ ↦ elim (nla_put_all W (entry_attrs e) b₁) [
    | full b₂ ↦ none
    | fits b₂ ↦ put_entries W es (W.nla_nest_end b₂)
  ]
]

-- The first `m` entries are put from the buffer `b` on, and they are all, or the next one has no room
-- after them.
abbrev pub IsFilled : (W : Writer) → List Entry → ℕ → W.Buf → Type 0
IsFilled W es m b =
    (b' : W.Buf) × (put_entries W (take m es) b ≡ some b')
    × ((m ≡ length es)
        ⊎ ((e : Entry) × (rest : List Entry) × (es ≡ take m es ++ (e ∷ rest))
            × (b₁ : W.Buf) × (W.nla_nest_start Attr.ip_prefix b' ≡ some b₁)
            × (b₂ : W.Buf) × (nla_put_all W (entry_attrs e) b₁ ≡ full b₂)))

module _ (W : Writer) where
  put_entries-next :
      (e : Entry) (es : List Entry) (b b₁ b₂ : W.Buf)
      → W.nla_nest_start Attr.ip_prefix b ≡ some b₁
      → nla_put_all W (entry_attrs e) b₁ ≡ fits b₂
      → put_entries W (e ∷ es) b ≡ put_entries W es (W.nla_nest_end b₂)
  unfolding put_entries
  put_entries-next e es b b₁ b₂ opened run = rw (opened, run, put_entries) refl

  IsFilled-next :
      (e : Entry) (es : List Entry) (m : ℕ) (b b₁ b₂ : W.Buf)
      → W.nla_nest_start Attr.ip_prefix b ≡ some b₁
      → nla_put_all W (entry_attrs e) b₁ ≡ fits b₂
      → IsFilled W es m (W.nla_nest_end b₂)
      → IsFilled W (e ∷ es) (suc m) b
  IsFilled-next e es m b b₁ b₂ opened run (b', puts, inl all) =
      (b', put_entries-next e (take m es) b b₁ b₂ opened run ∙ puts, inl (ap suc all))
  IsFilled-next e es m b b₁ b₂ opened run (b', puts, inr (x, rest, same, b₃, at, b₄, small)) = (
    b',
    put_entries-next e (take m es) b b₁ b₂ opened run ∙ puts,
    inr (x, rest, ap (λ l. e ∷ l) same, b₃, at, b₄, small),
  )

module _ (W : Writer) (law : IsLawful W) (inet_pton : Text → Option ℕ) (stale : ℕ) where
  s_addr-some : (text : Text) (a : ℕ) → inet_pton text ≡ some a → s_addr inet_pton stale text ≡ a
  unfolding s_addr
  s_addr-some text a e = rw (e, s_addr) refl

  module _ (e : Entry) (valid : IsEntry inet_pton e) (rest : List Text) (b : W.Buf) (n : ℕ) where
    len_read : stoi (after_slash (entry_line e)) ≡ some (pos e.prefix.ip_prefix_len)
    len_read =
        ap stoi (after_slash-line e.text (decimal e.prefix.ip_prefix_len) valid.0)
        ∙ stoi-decimal e.prefix.ip_prefix_len valid.2

    addr_read : s_addr inet_pton stale (before_slash (entry_line e)) ≡ e.prefix.ip_prefix
    addr_read =
        ap (s_addr inet_pton stale)
          (before_slash-line e.text (decimal e.prefix.ip_prefix_len) valid.0)
        ∙ s_addr-some e.text e.prefix.ip_prefix valid.1

    line-null :
        W.nla_nest_start Attr.ip_prefix b ≡ none
        → pack_lines W inet_pton stale (entry_line e ∷ rest) b n ≡ null_used
    unfolding pack_lines
    line-null out = rw (len_read, out, pack_lines) refl

    line-fits :
        (b₁ b₂ : W.Buf)
        → W.nla_nest_start Attr.ip_prefix b ≡ some b₁
        → nla_put_all W (entry_attrs e) b₁ ≡ fits b₂
        → pack_lines W inet_pton stale (entry_line e ∷ rest) b n
          ≡ pack_lines W inet_pton stale rest (W.nla_nest_end b₂) (n + 1)
    unfolding pack_lines
    line-fits b₁ b₂ opened run = rw (len_read, opened, addr_read, run, pack_lines) refl

    line-full :
        (b₁ b₂ : W.Buf)
        → W.nla_nest_start Attr.ip_prefix b ≡ some b₁
        → nla_put_all W (entry_attrs e) b₁ ≡ full b₂
        → pack_lines W inet_pton stale (entry_line e ∷ rest) b n ≡ lines (W.nla_nest_cancel b₂) n
    unfolding pack_lines
    line-full b₁ b₂ opened run = rw (len_read, opened, addr_read, run, pack_lines) refl

  -- The first `m` entries are in the message.
  abbrev Takes : List Entry → W.Buf → ℕ → List Attribute → W.Buf → ℕ → Type 0
  Takes es b n cs b' n' =
      (m : ℕ) × (m ≤ length es)
      × IsFilled W es m b
      × (n' ≡ n + m)
      × (W.draft b' ≡ drafted (cs ++ map entry_nest (take m es)) none)

  pack_lines-Takes :
      (es : List Entry) (b b' : W.Buf) (n n' : ℕ) (cs : List Attribute)
      → All (IsEntry inet_pton) es
      → W.draft b ≡ drafted cs none
      → pack_lines W inet_pton stale (map entry_line es) b n ≡ lines b' n'
      → Takes es b n cs b' n'
  unfolding pack_lines put_entries
  pack_lines-Takes [] b b' n n' cs valid e run =
      let same : n ≡ n' = cc run in
      (0, omega arith, (b, refl, inl refl), omega arith, cc (e, run, append-nil cs))
  pack_lines-Takes (x ∷ es) b b' n n' cs valid e run =
      elim (Option-cases (W.nla_nest_start Attr.ip_prefix b)) [
        | inl out ↦ absurd (cc (line-null x valid.0 (map entry_line es) b n out, run))
        | inr (b₁, opened) ↦ elim (Outcome-cases W law (nla_put_all W (entry_attrs x) b₁)) [
          | inr (b₂, broken) ↦
              let step = line-full x valid.0 (map entry_line es) b n b₁ b₂ opened broken in
              let same : n ≡ n' = cc (step, run) in
              let left : W.nla_nest_cancel b₂ ≡ b' = cc (step, run) in
              (
                0,
                omega arith,
                (b, refl, inr (x, es, refl, b₁, opened, b₂, broken)),
                omega arith,
                sym (ap W.draft left)
                    ∙ nest-cancelled W law Attr.ip_prefix (entry_attrs x) b b₁ b₂ cs e opened broken
                    ∙ ap (λ l. drafted l none) (sym (append-nil cs)),
              )
          | inl (b₂, done) ↦
              let (m, le, filled, count, d) =
                pack_lines-Takes es (W.nla_nest_end b₂) b' (n + 1) n' (cs ++ (entry_nest x ∷ []))
                  valid.1
                  (nest-written W law Attr.ip_prefix (entry_attrs x) b b₁ b₂ cs e opened done)
                  (sym (line-fits x valid.0 (map entry_line es) b n b₁ b₂ opened done) ∙ run) in
              (
                suc m,
                omega arith,
                IsFilled-next W x es m b b₁ b₂ opened done filled,
                omega arith,
                d
                    ∙ ap (λ l. drafted l none)
                        (append_assoc cs (entry_nest x ∷ []) (map entry_nest (take m es))),
              )
        ]
      ]

  count-fits :
      (m : ℕ) (b b₁ : W.Buf)
      → W.nla_put (u32_attr Attr.num_ip_prefix m) b ≡ fits b₁
      → put_count W inet_pton stale m b ≡ b₁
  unfolding put_count
  count-fits m b b₁ e = rw (e, put_count) refl

  count-full :
      (m : ℕ) (b b₁ : W.Buf)
      → W.nla_put (u32_attr Attr.num_ip_prefix m) b ≡ full b₁
      → put_count W inet_pton stale m b ≡ b₁
  unfolding put_count
  count-full m b b₁ e = rw (e, put_count) refl

  put_count-Carries :
      (es : List Entry) (m : ℕ) (b : W.Buf)
      → W.draft b ≡ drafted (map entry_nest (take m es)) none
      → Carries W es m b (put_count W inet_pton stale m b)
  put_count-Carries es m b e =
      let count = u32_attr Attr.num_ip_prefix m in
      elim (Outcome-cases W law (W.nla_put count b)) [
        | inl (b₁, run) ↦
            inl
              (ap W.draft (count-fits m b b₁ run) ∙ law.put-fits count b b₁ run ∙ ap (add count) e)
        | inr (b₁, run) ↦
            inr (ap W.draft (count-full m b b₁ run) ∙ law.put-full count b b₁ run ∙ e, (b₁, run))
      ]

  Lines-cases :
      (o : Lines W.Buf)
      → ((b : W.Buf) × (n : ℕ) × (o ≡ lines b n)) ⊎ ((o ≡ throws) ⊎ (o ≡ null_used))
  Lines-cases (lines b n) = inl (b, n, refl)
  Lines-cases throws = inr (inl refl)
  Lines-cases null_used = inr (inr refl)

  module _ (sock : Socket W) (file : List Text) where
    no_message :
        sock.make_message Cmd.set_bogon ≡ none
        → send_bogon_list W inet_pton stale sock (some file) ≡ thrown
    unfolding send_bogon_list
    no_message e = rw (e, send_bogon_list) refl

    after-lines :
        (b b' : W.Buf) (n : ℕ)
        → sock.make_message Cmd.set_bogon ≡ some b
        → pack_lines W inet_pton stale file b 0 ≡ lines b' n
        → send_bogon_list W inet_pton stale sock (some file)
          ≡ sent
              (put_count W inet_pton stale n b')
              (sock.nl_send_auto (put_count W inet_pton stale n b'))
    unfolding send_bogon_list
    after-lines b b' n e e' = rw (e, e', send_bogon_list) refl

    after-throws :
        (b : W.Buf)
        → sock.make_message Cmd.set_bogon ≡ some b
        → pack_lines W inet_pton stale file b 0 ≡ throws
        → send_bogon_list W inet_pton stale sock (some file) ≡ thrown
    unfolding send_bogon_list
    after-throws b e e' = rw (e, e', send_bogon_list) refl

    after-null :
        (b : W.Buf)
        → sock.make_message Cmd.set_bogon ≡ some b
        → pack_lines W inet_pton stale file b 0 ≡ null_used
        → send_bogon_list W inet_pton stale sock (some file) ≡ crashed
    unfolding send_bogon_list
    after-null b e e' = rw (e, e', send_bogon_list) refl

  -- For a file of addresses with lengths below 100, one in a line, a message that `send_bogon_list`
  -- sends carries the first `m` of them, in their order, and then the count `m` or, where that found no
  -- room, no count; `m` is all of them unless the next one found no room.
  pub send_bogon_list-Carries :
      (sock : Socket W) (es : List Entry) (b : W.Buf) (ret : ℤ)
      → All (IsEntry inet_pton) es
      → send_bogon_list W inet_pton stale sock (some (map entry_line es)) ≡ sent b ret
      → (b₀ : W.Buf) × (sock.make_message Cmd.set_bogon ≡ some b₀)
        × (b₁ : W.Buf) × (m : ℕ) × (m ≤ length es)
        × IsFilled W es m b₀
        × (pack_lines W inet_pton stale (map entry_line es) b₀ 0 ≡ lines b₁ m)
        × Carries W es m b₁ b
  send_bogon_list-Carries sock es b ret valid run =
      let file = map entry_line es in
      elim (Option-cases (sock.make_message Cmd.set_bogon)) [
        | inl e ↦ absurd (cc (no_message sock file e, run))
        | inr (b₀, e) ↦ elim (Lines-cases (pack_lines W inet_pton stale file b₀ 0)) [
          | inr (inl e') ↦ absurd (cc (after-throws sock file b₀ e e', run))
          | inr (inr e') ↦ absurd (cc (after-null sock file b₀ e e', run))
          | inl (b₁, n, e') ↦
              let (m, le, filled, count, d) =
                pack_lines-Takes es b₀ b₁ 0 n [] valid (sock.begins_empty Cmd.set_bogon b₀ e) e' in
              let same : n ≡ m = omega arith in
              let end : put_count W inet_pton stale n b₁ ≡ b =
                cc (after-lines sock file b₀ b₁ n e e', run) in
              (
                b₀,
                e,
                b₁,
                m,
                le,
                filled,
                e' ∙ ap (lines b₁) same,
                subst (Carries W es m b₁)
                    (ap (λ i. put_count W inet_pton stale i b₁) (sym same) ∙ end)
                    (put_count-Carries es m b₁ d),
              )
        ]
      ]
