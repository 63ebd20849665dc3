-- ===== src/Client/Hcf/Restored.antt =====
-- What the client's database holds comes back into the kernel's hop-count tree.
use mathlib.Core.List.{append-nil, append_assoc}
use librefw.Base.{
  ℕ, ◌^◌, ◌<◌, ◌≡◌, refl, sym, ap, ◌∙◌, ◌⊎◌, inl, inr, none, some, List, [], ◌∷◌, ◌++◌, map, arith,
  All, Option-cases,
}
use librefw.Base.Int.{ℤ, pos}
use librefw.Mem.{Cache, IsAmple}
use librefw.Mem.Tree.{Tree, view}
use librefw.Mem.Free.{height}
use librefw.Trie.{Trie, leaf, fork, put}
use librefw.Word.{bits}
use librefw.Netlink.{Attribute, nest, nests}
use librefw.Netlink.Attr
use librefw.Netlink.Cmd
use librefw.Netlink.Buffer.{Draft, Writer, IsLawful, fits, full, nla_put_all}
use librefw.Netlink.Written.{drafted, nest_of, nest-written, Outcome-cases}
use librefw.Hcf.{HcfInfo, blank, HcfState}
use librefw.Hcf.Register.{IsHcf}
use librefw.Hcf.History.{Entry, no_entry, set_entry_field, read_entry, hcf_register_ip_history}
use librefw.Hcf.History.Stored.{stored, info_of, hcf_register_ip_history-stored}
use librefw.Client.{Socket, sent, thrown, crashed, given_up, Packed, packed, stopped, null_used}
use librefw.Client.Hcf.{Row, row_attrs, pack_rows, set_ip_history}

-- A row as the listener stores it.
abbrev pub IsRow : Row → Type 0
IsRow r = (r.ip_addr < 2 ^ 32) × (r.ttl < 2 ^ 8) × (r.hc < 2 ^ 8)

-- The tree that the rows make of `t`, in their order.
unfoldable pub restored : List Row → Trie HcfInfo → Trie HcfInfo
restored [] t = t
restored (r ∷ rows) t =
    restored rows (put blank (bits r.ip_addr 8 24) (record { hc = r.hc; ttl = r.ttl }) t)

abbrev pub row_nest : Row → Attribute
row_nest r = nest (nest_of Attr.hcf_history (row_attrs r))

module _ (W : Writer) (law : IsLawful W) where
  pack-step :
      (r : Row) (rows : List Row) (b b₁ b₂ : W.Buf)
      → W.nla_nest_start Attr.hcf_history b ≡ some b₁
      → nla_put_all W (row_attrs r) b₁ ≡ fits b₂
      → pack_rows W (r ∷ rows) b ≡ pack_rows W rows (W.nla_nest_end b₂)
  unfolding pack_rows
  pack-step r rows b b₁ b₂ e e' = rw (e, e', pack_rows) refl

  pack-stop :
      (r : Row) (rows : List Row) (b b₁ b₂ : W.Buf)
      → W.nla_nest_start Attr.hcf_history b ≡ some b₁
      → nla_put_all W (row_attrs r) b₁ ≡ full b₂
      → pack_rows W (r ∷ rows) b ≡ stopped (W.nla_nest_cancel b₂)
  unfolding pack_rows
  pack-stop r rows b b₁ b₂ e e' = rw (e, e', pack_rows) refl

  pack-null :
      (r : Row) (rows : List Row) (b : W.Buf)
      → W.nla_nest_start Attr.hcf_history b ≡ none
      → pack_rows W (r ∷ rows) b ≡ null_used
  unfolding pack_rows
  pack-null r rows b e = rw (e, pack_rows) refl

  pub pack_rows-nests :
      (rows : List Row) (b b' : W.Buf) (cs : List Attribute)
      → W.draft b ≡ drafted cs none
      → pack_rows W rows b ≡ packed b'
      → W.draft b' ≡ drafted (cs ++ map row_nest rows) none
  unfolding pack_rows
  pack_rows-nests [] b b' cs e run = cc (e, run, append-nil cs)
  pack_rows-nests (r ∷ rows) b b' cs e run =
      elim (Option-cases (W.nla_nest_start Attr.hcf_history b)) [
        | inl out ↦ absurd (cc (pack-null r rows b out, run))
        | inr (b₁, opened) ↦ elim (Outcome-cases W law (nla_put_all W (row_attrs r) b₁)) [
          | inr (b₂, broken) ↦ absurd (cc (pack-stop r rows b b₁ b₂ opened broken, run))
          | inl (b₂, done) ↦
              pack_rows-nests rows (W.nla_nest_end b₂) b' (cs ++ (row_nest r ∷ []))
                (nest-written W law Attr.hcf_history (row_attrs r) b b₁ b₂ cs e opened done)
                (sym (pack-step r rows b b₁ b₂ opened done) ∙ run)
              ∙ ap (λ l. drafted l none) (append_assoc cs (row_nest r ∷ []) (map row_nest rows))
        ]
      ]

  Packed-cases :
      (o : Packed W.Buf)
      → ((b : W.Buf) × (o ≡ packed b)) ⊎ (((b : W.Buf) × (o ≡ stopped b)) ⊎ (o ≡ null_used))
  Packed-cases (packed b) = inl (b, refl)
  Packed-cases (stopped b) = inr (inl (b, refl))
  Packed-cases null_used = inr (inr refl)

  module _ (sock : Socket W) (rows : List Row) where
    no_message : sock.make_message Cmd.set_hcf_history ≡ none → set_ip_history W sock rows ≡ thrown
    unfolding set_ip_history
    no_message e = rw (e, set_ip_history) refl

    after-packed :
        (b b' : W.Buf)
        → sock.make_message Cmd.set_hcf_history ≡ some b
        → pack_rows W rows b ≡ packed b'
        → set_ip_history W sock rows ≡ sent b' (sock.nl_send_auto b')
    unfolding set_ip_history
    after-packed b b' e e' = rw (e, e', set_ip_history) refl

    after-stopped :
        (b b' : W.Buf)
        → sock.make_message Cmd.set_hcf_history ≡ some b
        → pack_rows W rows b ≡ stopped b'
        → set_ip_history W sock rows ≡ given_up
    unfolding set_ip_history
    after-stopped b b' e e' = rw (e, e', set_ip_history) refl

    after-null :
        (b : W.Buf)
        → sock.make_message Cmd.set_hcf_history ≡ some b
        → pack_rows W rows b ≡ null_used
        → set_ip_history W sock rows ≡ crashed
    unfolding set_ip_history
    after-null b e e' = rw (e, e', set_ip_history) refl

    pub sent-packed :
        (b : W.Buf) (ret : ℤ)
        → set_ip_history W sock rows ≡ sent b ret
        → (b₀ : W.Buf) × (sock.make_message Cmd.set_hcf_history ≡ some b₀)
          × (pack_rows W rows b₀ ≡ packed b)
    sent-packed b ret run = elim (Option-cases (sock.make_message Cmd.set_hcf_history)) [
      | inl e ↦ absurd (cc (no_message e, run))
      | inr (b₀, e) ↦ elim (Packed-cases (pack_rows W rows b₀)) [
        | inl (b₁, e') ↦ (b₀, e, cc (after-packed b₀ b₁ e e', run, e'))
        | inr (inl (b₁, e')) ↦ absurd (cc (after-stopped b₀ b₁ e e', run))
        | inr (inr e') ↦ absurd (cc (after-null b₀ e e', run))
      ]
    ]

entry-eq :
    (a a' b b' c c' : ℕ)
    → a ≡ a'
    → b ≡ b'
    → c ≡ c'
    → ◌≡◌ {A = Entry}
        (record { ip_addr = a; ttl = b; hc = c })
        (record { ip_addr = a'; ttl = b'; hc = c' })
entry-eq a a' b b' c c' e e' e'' = cc

read_entry-row :
    (r : Row)
    → IsRow r
    → read_entry (row_attrs r) no_entry ≡ record { ip_addr = r.ip_addr; ttl = r.ttl; hc = r.hc }
unfolding read_entry set_entry_field
read_entry-row r h = entry-eq _ _ _ _ _ _ (omega arith) (omega arith) (omega arith)

stored-rows :
    (rows : List Row) (t : Trie HcfInfo)
    → All IsRow rows
    → stored (nests (map row_nest rows)) t ≡ restored rows t
unfolding stored restored
stored-rows [] t h = refl
stored-rows (r ∷ rows) t h =
    ap
      (λ (e : Entry).
        stored (nests (map row_nest rows)) (put blank (bits e.ip_addr 8 24) (info_of e) t))
      (read_entry-row r h.0)
    ∙ stored-rows rows (put blank (bits r.ip_addr 8 24) (record { hc = r.hc; ttl = r.ttl }) t) h.1

-- The message that `set_ip_history` sends for rows as the listener stores them puts the rows back:
-- the kernel's handler, with memory and fuel above the height of its tree, answers 0 and leaves a tree
-- with the TTLs and hop counts of the rows, in their order, and nothing else. The netlink calls keep
-- the laws of `IsLawful` and `Socket`.
pub set_ip_history-restored :
    (W : Writer) (sock : Socket W) (rows : List Row) (b : W.Buf) (ret : ℤ) (k : Cache HcfInfo)
    (fuel : ℕ) (st : HcfState) (t : Tree HcfInfo)
    → IsLawful W
    → All IsRow rows
    → set_ip_history W sock rows ≡ sent b ret
    → IsAmple k
    → IsHcf st t
    → height t < fuel
    → (st' : HcfState) × (t' : Tree HcfInfo) × (hcf_register_ip_history k fuel
          (nests (W.draft b).complete)
          st
        ≡ some (st', pos 0))
      × IsHcf st' t'
      × (view t' ≡ restored rows (fork blank leaf leaf))
set_ip_history-restored W sock rows b ret k fuel st t law valid run ample h enough =
    let (b₀, made, packs) = sent-packed W law sock rows b ret run in
    let built : (W.draft b).complete ≡ map row_nest rows =
      ap (λ (d : Draft). d.complete)
        (pack_rows-nests W law rows b₀ b [] (sock.begins_empty Cmd.set_hcf_history b₀ made)
          packs) in
    let (st', t', m, handled, h', v, freed, same) =
      hcf_register_ip_history-stored k fuel (nests (W.draft b).complete) st t ample h enough in
    (
      st',
      t',
      handled,
      h',
      v
          ∙ ap (λ l. stored (nests l) (fork blank leaf leaf)) built
          ∙ stored-rows rows (fork blank leaf leaf) valid,
    )
