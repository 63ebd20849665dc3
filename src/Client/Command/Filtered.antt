-- ===== src/Client/Command/Filtered.antt =====
-- A bogon list from the client's file to the lookup of an address in the kernel.
use mathlib.Core.Option
use mathlib.Core.Path.{subst}
use mathlib.Core.List.{append-nil, append_assoc}
use librefw.Base.{
  ℕ, zero, suc, ◌+◌, ◌^◌, ◌≤◌, ◌<◌, ◌≡◌, refl, sym, ap, ◌∙◌, ◌⊎◌, inl, inr, true, Option, some,
  List, [], ◌∷◌, ◌++◌, map, arith, All, All-take, length, take, length-take_of_le,
}
use librefw.Base.Int.{ℤ, pos, is_pos, e_inval}
use librefw.Mem.{ok, IsAmple}
use librefw.Mem.Tree.{Tree}
use librefw.Netlink.{Nla, Nest, Attribute, scalar, nests, u32_attr}
use librefw.Netlink.Attr
use librefw.Netlink.Cmd
use librefw.Netlink.Buffer.{Draft, Writer, IsLawful, IsParse}
use librefw.Netlink.Written.{nest_of}
use librefw.Bogon.{
  IpPrefix, BgState, set_prefix, set_prefix_field, lfw_bogon_set, lfw_lookup_bg_tree,
}
use librefw.Bogon.Load.{IsPrefix, IsBogon}
use librefw.Bogon.Cover.{covered}
use librefw.Bogon.Set.{decoded, lfw_bogon_set-covered}
use librefw.State.{Firewall}
use librefw.Commands.{Kernel, u32_or_zero, lfw_nl_ops}
use librefw.Client.{Socket, sent}
use librefw.Client.Text.{Text}
use librefw.Client.Command.{lines, pack_lines, send_bogon_list}
use librefw.Client.Command.Taken.{
  Entry, IsEntry, entry_line, entry_attrs, entry_nest, CountRefused, Carries, IsFilled,
  send_bogon_list-Carries,
}

-- Prefixes as the kernel can load them
abbrev pub IsLoadable : Entry → Type 0
IsLoadable e = (e.prefix.ip_prefix < 2 ^ 32) × (e.prefix.ip_prefix_len < 32)

abbrev pub prefixes : List Entry → List IpPrefix
prefixes = map (λ e. e.prefix)

prefix-eq :
    (a a' b b' : ℕ)
    → a ≡ a'
    → b ≡ b'
    → ◌≡◌ {A = IpPrefix}
        (record { ip_prefix = a; ip_prefix_len = b })
        (record { ip_prefix = a'; ip_prefix_len = b' })
prefix-eq a a' b b' e e' = cc

set_prefix-entry :
    (e : Entry)
    → IsLoadable e
    → set_prefix (entry_attrs e) (record { ip_prefix = 0; ip_prefix_len = 0 }) ≡ e.prefix
unfolding set_prefix set_prefix_field
set_prefix-entry e h = prefix-eq _ _ _ _ (omega arith) (omega arith)

decoded-entries :
    (es : List Entry) → All IsLoadable es → decoded (nests (map entry_nest es)) ≡ prefixes es
unfolding decoded
decoded-entries [] h = refl
decoded-entries (e ∷ es) h = rw (set_prefix-entry e h.0, decoded-entries es h.1) refl

nests-count :
    (es : List Entry) (a : Nla)
    → nests (map entry_nest es ++ (scalar a ∷ [])) ≡ nests (map entry_nest es)
nests-count [] a = refl
nests-count (e ∷ es) a = ap (λ l. nest_of Attr.ip_prefix (entry_attrs e) ∷ l) (nests-count es a)

prefixes-IsPrefix : (es : List Entry) → All IsLoadable es → All IsPrefix (prefixes es)
prefixes-IsPrefix [] h = tt
prefixes-IsPrefix (e ∷ es) h = (h.0.1, prefixes-IsPrefix es h.1)

length-prefixes : (es : List Entry) → length (prefixes es) ≡ length es
length-prefixes [] = refl
length-prefixes (e ∷ es) = ap suc (length-prefixes es)

-- How the kernel handles a message: it answers `-EINVAL` and changes nothing, in the case `Empty` only,
-- or looks an address up in the prefixes from then on.
abbrev pub Handles :
    (nla_parse : List Attribute → ℕ → Option Nla) (unknown : ℤ) (k : Kernel)
    (attrs : List Attribute) (fw : Firewall)
    → List IpPrefix
    → ℕ
    → (Empty : Type 0) → Type 0
Handles nla_parse unknown k attrs fw ps ip Empty =
    (fw' : Firewall) × (ret : ℤ) × (lfw_nl_ops nla_parse unknown k Cmd.set_bogon attrs fw
      ≡ some (fw', ret))
    × (((ret ≡ e_inval) × (fw' ≡ fw) × Empty)
        ⊎ ((ret ≡ pos 0)
            × (v : ℤ) × (lfw_lookup_bg_tree ip fw'.bogon ≡ ok v fw'.bogon.mem)
            × (is_pos v ≡ covered ip ps)))

abbrev with_bogon : Firewall → BgState → Firewall
with_bogon fw st = record { under_attack = fw.under_attack; bogon = st; hcf = fw.hcf }

module _ (nla_parse : List Attribute → ℕ → Option Nla) (h : IsParse nla_parse) where
  parse-entries :
      (acc : List Attribute) (es : List Entry)
      → nla_parse (acc ++ map entry_nest es) Attr.num_ip_prefix ≡ nla_parse acc Attr.num_ip_prefix
  parse-entries acc [] = ap (λ l. nla_parse l Attr.num_ip_prefix) (append-nil acc)
  parse-entries acc (e ∷ es) =
      ap (λ l. nla_parse l Attr.num_ip_prefix)
        (sym (append_assoc acc (entry_nest e ∷ []) (map entry_nest es)))
      ∙ parse-entries (acc ++ (entry_nest e ∷ [])) es
      ∙ h.parse-nest acc (nest_of Attr.ip_prefix (entry_attrs e)) Attr.num_ip_prefix refl

  -- The number that the kernel reads
  count-present :
      (es : List Entry) (m : ℕ)
      → m < 2 ^ 32
      → u32_or_zero (
          nla_parse
            (map entry_nest es ++ (scalar (u32_attr Attr.num_ip_prefix m) ∷ []))
            Attr.num_ip_prefix)
        ≡ m
  count-present es m small =
      ap u32_or_zero
        (h.parse-scalar (map entry_nest es) (u32_attr Attr.num_ip_prefix m) Attr.num_ip_prefix)
      ∙ omega arith

  count-absent :
      (es : List Entry) → u32_or_zero (nla_parse (map entry_nest es) Attr.num_ip_prefix) ≡ 0
  count-absent es = ap u32_or_zero (parse-entries [] es ∙ h.parse-nil Attr.num_ip_prefix)

  module _ (unknown : ℤ) (k : Kernel) (attrs : List Attribute) (fw : Firewall) where
    bogon-run :
        (n : ℕ) (ns : List Nest) (r : BgState × ℤ)
        → k.buffer_allocated ≡ true
        → k.tree_allocated ≡ true
        → u32_or_zero (nla_parse attrs Attr.num_ip_prefix) ≡ n
        → nests attrs ≡ ns
        → lfw_bogon_set k.bogon_cache true true n ns fw.bogon ≡ some r
        → lfw_nl_ops nla_parse unknown k Cmd.set_bogon attrs fw ≡ some (with_bogon fw r.0, r.1)
    unfolding lfw_nl_ops
    bogon-run n ns r alloc alloc' num walk run =
        let inner : lfw_bogon_set k.bogon_cache k.buffer_allocated k.tree_allocated
              (u32_or_zero (nla_parse attrs Attr.num_ip_prefix)) (nests attrs) fw.bogon
            ≡ some r =
          cc (alloc, alloc', num, walk, run) in
        ap (Option.map (λ (r : BgState × ℤ). (with_bogon fw r.0, r.1))) inner

    -- With a count of the prefixes that it carries
    handled-count :
        (es : List Entry) (t : Tree ℕ) (ip m : ℕ)
        → k.buffer_allocated ≡ true
        → k.tree_allocated ≡ true
        → IsAmple k.bogon_cache
        → IsBogon fw.bogon t
        → All IsLoadable es
        → ip < 2 ^ 32
        → length es ≡ suc m
        → u32_or_zero (nla_parse attrs Attr.num_ip_prefix) ≡ suc m
        → nests attrs ≡ nests (map entry_nest es)
        → (Empty : Type 0) → Handles nla_parse unknown k attrs fw (prefixes es) ip Empty
    handled-count es t ip m alloc alloc' ample held valid small long num walk Empty =
        let ns = nests (map entry_nest es) in
        let same = decoded-entries es valid in
        let total : length (decoded ns) + 0 ≡ suc m =
          omega (arith, ap (length {A = IpPrefix}) same, length-prefixes es) in
        let (st', v, run, answer, is) =
          lfw_bogon_set-covered k.bogon_cache ns 0 fw.bogon t ip ample (omega arith)
            (subst (All IsPrefix) (sym same) (prefixes-IsPrefix es valid)) held small in
        (
          with_bogon fw st',
          pos 0,
          bogon-run (suc m) ns (st', pos 0) alloc alloc' num walk
              (ap (λ n. lfw_bogon_set k.bogon_cache true true n ns fw.bogon) (sym total) ∙ run),
          inr (refl, v, answer, is ∙ ground (arith, ap (covered ip) same)),
        )

    -- Without one
    refused :
        (ps : List IpPrefix) (ip : ℕ)
        → k.buffer_allocated ≡ true
        → k.tree_allocated ≡ true
        → u32_or_zero (nla_parse attrs Attr.num_ip_prefix) ≡ 0
        → (Empty : Type 0) → Empty
        → Handles nla_parse unknown k attrs fw ps ip Empty
    unfolding lfw_bogon_set
    refused ps ip alloc alloc' num Empty why = (
      fw,
      e_inval,
      bogon-run 0 (nests attrs) (fw.bogon, e_inval) alloc alloc' num refl refl,
      inl (refl, refl, why),
    )

handled-message :
    (W : Writer) (nla_parse : List Attribute → ℕ → Option Nla) (h : IsParse nla_parse) (unknown : ℤ)
    (k : Kernel) (fw : Firewall) (es : List Entry) (m : ℕ) (b₁ b : W.Buf) (t : Tree ℕ) (ip : ℕ)
    → k.buffer_allocated ≡ true
    → k.tree_allocated ≡ true
    → IsAmple k.bogon_cache
    → IsBogon fw.bogon t
    → All IsLoadable (take m es)
    → ip < 2 ^ 32
    → length (take m es) ≡ m
    → m < 2 ^ 32
    → Carries W es m b₁ b
    → Handles nla_parse unknown k
        (W.draft b).complete
        fw
        (prefixes (take m es))
        ip
        ((m ≡ 0) ⊎ CountRefused W m b₁)
handled-message W nla_parse h unknown k fw es zero b₁ b t ip alloc alloc' ample held valid small
      long fits (inl d) =
    refused nla_parse h unknown k (W.draft b).complete fw (prefixes (take zero es)) ip alloc alloc'
      (ap (λ (d : Draft). u32_or_zero (nla_parse d.complete Attr.num_ip_prefix)) d
        ∙ count-present nla_parse h [] 0 (omega arith))
      _ (inl refl)
handled-message W nla_parse h unknown k fw es (suc m) b₁ b t ip alloc alloc' ample held valid small
      long fits (inl d) =
    let some_es = take (suc m) es in
    handled-count nla_parse h unknown k (W.draft b).complete fw some_es t ip m alloc alloc' ample
      held valid small long
      (ap (λ (d : Draft). u32_or_zero (nla_parse d.complete Attr.num_ip_prefix)) d
        ∙ count-present nla_parse h some_es (suc m) fits)
      (ap (λ (d : Draft). nests d.complete) d
        ∙ nests-count some_es (u32_attr Attr.num_ip_prefix (suc m)))
      _
handled-message W nla_parse h unknown k fw es m b₁ b t ip alloc alloc' ample held valid small long
      fits (inr (d, why)) =
    refused nla_parse h unknown k (W.draft b).complete fw (prefixes (take m es)) ip alloc alloc'
      (ap (λ (d : Draft). u32_or_zero (nla_parse d.complete Attr.num_ip_prefix)) d
        ∙ count-absent nla_parse h (take m es))
      _ (inr why)

-- A bogon list goes from a file to the lookup: for a file of addresses below 2 ^ 32 with lengths
-- below 32, one in a line and fewer than 2 ^ 32, let `send_bogon_list` hand a message over to
-- `nl_send_auto`. The message was filled with the first `m` prefixes, which are all of them, or the next
-- one found no room after them. Where the kernel has memory it handles the message without a fault: the
-- answer is 0, and the lookup of an address below 2 ^ 32 is positive exactly if the address agrees with
-- one of these `m` prefixes; or nothing changes and the answer is `-EINVAL`, but only if `m` is 0 or the
-- count found no room after them. The netlink calls keep the laws of `IsLawful`, `Socket` and `IsParse`.
pub send_bogon_list-filtered :
    (W : Writer) (inet_pton : Text → Option ℕ) (stale : ℕ) (sock : Socket W) (es : List Entry)
    (b : W.Buf) (ret : ℤ) (nla_parse : List Attribute → ℕ → Option Nla) (unknown : ℤ) (k : Kernel)
    (fw : Firewall) (t : Tree ℕ) (ip : ℕ)
    → IsLawful W
    → IsParse nla_parse
    → All (IsEntry inet_pton) es
    → All IsLoadable es
    → length es < 2 ^ 32
    → send_bogon_list W inet_pton stale sock (some (map entry_line es)) ≡ sent b ret
    → k.buffer_allocated ≡ true
    → k.tree_allocated ≡ true
    → IsAmple k.bogon_cache
    → IsBogon fw.bogon t
    → ip < 2 ^ 32
    → (b₀ : W.Buf) × (sock.make_message Cmd.set_bogon ≡ some b₀)
      × (b₁ : W.Buf) × (m : ℕ) × (m ≤ length es)
      × IsFilled W es m b₀
      × (pack_lines W inet_pton stale (map entry_line es) b₀ 0 ≡ lines b₁ m)
      × Handles nla_parse unknown k
          (W.draft b).complete
          fw
          (prefixes (take m es))
          ip
          ((m ≡ 0) ⊎ CountRefused W m b₁)
send_bogon_list-filtered W inet_pton stale sock es b ret nla_parse unknown k fw t ip law h valid
      loadable few run alloc alloc' ample held small =
    let (b₀, made, b₁, m, le, filled, packs, carries) =
      send_bogon_list-Carries W law inet_pton stale sock es b ret valid run in
    (
      b₀,
      made,
      b₁,
      m,
      le,
      filled,
      packs,
      handled-message W nla_parse h unknown k fw es m b₁ b t ip alloc alloc' ample held
          (All-take IsLoadable m es loadable) small (length-take_of_le m es le) (omega arith)
          carries,
    )
