-- ===== src/PacketLog/Sent.antt =====
-- What one turn of `process_rb_page`'s loop writes.
use mathlib.Core.Path.{subst}
use mathlib.Core.List.{Sublistᴰ}
use mathlib.Core.List.{append-nil, append_assoc}
use librefw.Base.{
  ℕ, ◌≡◌, refl, sym, ap, ◌∙◌, ◌⊎◌, inl, inr, Option, none, some, List, [], ◌∷◌, ◌++◌, map,
  Option-cases,
}
use librefw.Netlink.{Attribute, nest}
use librefw.Netlink.Attr
use librefw.Netlink.Buffer.{fits, full, Writer, IsLawful, nla_put_all, close}
use librefw.Netlink.Written.{drafted, nest_of, nest-written, nest-cancelled, Outcome-cases}
use librefw.PacketLog.{PktFilterEvent}
use librefw.PacketLog.Page.{
  Kind, padding, time_extend, time_stamp, payload, RingEvent, Ring, next_time, event_attrs,
  put_event, put_ring_event,
}

-- The packets among events, each with the time when it was logged.
abbrev pub stamped_event : Ring → ℕ → RingEvent → List (ℕ × PktFilterEvent)
stamped_event r ts e = elim e.kind [
  | padding ↦ []
  | time_extend ↦ []
  | time_stamp ↦ []
  | payload ↦ (next_time r e ts, e.entry) ∷ []
]

abbrev pub packet_nest : ℕ × PktFilterEvent → Attribute
packet_nest p = nest (nest_of Attr.pkt_filter_log (event_attrs p.0 p.1))

Kind-cases : (k : Kind) → (k ≡ payload) ⊎ ((k ≡ padding) ⊎ ((k ≡ time_extend) ⊎ (k ≡ time_stamp)))
Kind-cases padding = inr (inl refl)
Kind-cases time_extend = inr (inr (inl refl))
Kind-cases time_stamp = inr (inr (inr refl))
Kind-cases payload = inl refl

-- What is put for packets, one after another
unfoldable pub put_packets : (W : Writer) → List (ℕ × PktFilterEvent) → W.Buf → Option W.Buf
put_packets W [] b = some b
put_packets W (p ∷ ps) b = elim (put_event W p.0 p.1 b) [
  | none ↦ none
  | some b' ↦ put_packets W ps b'
]

-- The nested attribute of the packet cannot be started, or one of the attributes in it finds no room.
abbrev pub NoRoom : (W : Writer) → ℕ × PktFilterEvent → W.Buf → Type 0
NoRoom W p b =
    (W.nla_nest_start Attr.pkt_filter_log b ≡ none)
    ⊎ ((b₁ : W.Buf) × (b₂ : W.Buf) × (W.nla_nest_start Attr.pkt_filter_log b ≡ some b₁)
        × (nla_put_all W (event_attrs p.0 p.1) b₁ ≡ full b₂))

-- From the buffer `b` on, there is no room for one of the packets after what is put for those before.
abbrev pub Refuses : (W : Writer) → List (ℕ × PktFilterEvent) → W.Buf → Type 0
Refuses W ps b =
    (before : List (ℕ × PktFilterEvent)) × (p : ℕ × PktFilterEvent) × (after : List
      (ℕ × PktFilterEvent))
    × (ps ≡ before ++ (p ∷ after))
    × (b' : W.Buf) × (put_packets W before b ≡ some b')
    × NoRoom W p b'

-- A message with the nested attributes of some of the packets after `cs`, of all unless there is no
-- room for one of them from `b` on.
abbrev pub Added :
    (W : Writer) → List (ℕ × PktFilterEvent) → List Attribute → W.Buf → W.Buf → Type 0
Added W ps cs b b' =
    (kept : List (ℕ × PktFilterEvent)) × Sublistᴰ kept ps
    × (W.draft b' ≡ drafted (cs ++ map packet_nest kept) none)
    × ((kept ≡ ps) ⊎ Refuses W ps b)

module _ (W : Writer) where
  packets-next :
      (p : ℕ × PktFilterEvent) (ps : List (ℕ × PktFilterEvent)) (b b' : W.Buf)
      → put_event W p.0 p.1 b ≡ some b'
      → put_packets W (p ∷ ps) b ≡ put_packets W ps b'
  unfolding put_packets
  packets-next p ps b b' e = rw (e, put_packets) refl

  packets-stop :
      (p : ℕ × PktFilterEvent) (ps : List (ℕ × PktFilterEvent)) (b : W.Buf)
      → put_event W p.0 p.1 b ≡ none
      → put_packets W (p ∷ ps) b ≡ none
  unfolding put_packets
  packets-stop p ps b e = rw (e, put_packets) refl

  put_packets-append :
      (ps qs : List (ℕ × PktFilterEvent)) (b b' : W.Buf)
      → put_packets W ps b ≡ some b'
      → put_packets W (ps ++ qs) b ≡ put_packets W qs b'
  unfolding put_packets
  put_packets-append [] qs b b' run = let same : b ≡ b' = cc run in ap (put_packets W qs) same
  put_packets-append (p ∷ ps) qs b b' run = elim (Option-cases (put_event W p.0 p.1 b)) [
    | inl e ↦ absurd (cc (packets-stop p ps b e, run))
    | inr (b₁, e) ↦
        packets-next p (ps ++ qs) b b₁ e
        ∙ put_packets-append ps qs b₁ b' (sym (packets-next p ps b b₁ e) ∙ run)
  ]

  -- A refusal among the packets of one event, and one among those of later events
  pub earlier :
      (ps qs : List (ℕ × PktFilterEvent)) (b : W.Buf) → Refuses W ps b → Refuses W (ps ++ qs) b
  earlier ps qs b (before, p, after, e, b', run, small) = (
    before,
    p,
    after ++ qs,
    ap (λ l. l ++ qs) e ∙ append_assoc before (p ∷ after) qs,
    b',
    run,
    small,
  )

  pub later :
      (ps qs : List (ℕ × PktFilterEvent)) (b b₁ : W.Buf)
      → put_packets W ps b ≡ some b₁
      → Refuses W qs b₁
      → Refuses W (ps ++ qs) b
  later ps qs b b₁ run (before, p, after, e, b', run', small) = (
    ps ++ before,
    p,
    after,
    ap (λ l. ps ++ l) e ∙ sym (append_assoc ps before (p ∷ after)),
    b',
    put_packets-append ps before b b₁ run ∙ run',
    small,
  )

module _ (W : Writer) (law : IsLawful W) (r : Ring) where
  put-some :
      (ts : ℕ) (e : PktFilterEvent) (b b₁ b₂ : W.Buf)
      → W.nla_nest_start Attr.pkt_filter_log b ≡ some b₁
      → nla_put_all W (event_attrs ts e) b₁ ≡ fits b₂
      → put_event W ts e b ≡ some (W.nla_nest_end b₂)
  unfolding put_event
  put-some ts e b b₁ b₂ opened run = rw (opened, run, put_event) refl

  put-cancelled :
      (ts : ℕ) (e : PktFilterEvent) (b b₁ b₂ : W.Buf)
      → W.nla_nest_start Attr.pkt_filter_log b ≡ some b₁
      → nla_put_all W (event_attrs ts e) b₁ ≡ full b₂
      → put_event W ts e b ≡ some (W.nla_nest_end (W.nla_nest_cancel b₂))
  unfolding put_event
  put-cancelled ts e b b₁ b₂ opened run = rw (opened, run, put_event) refl

  put-none :
      (ts : ℕ) (e : PktFilterEvent) (b : W.Buf)
      → W.nla_nest_start Attr.pkt_filter_log b ≡ none
      → put_event W ts e b ≡ none
  unfolding put_event
  put-none ts e b out = rw (out, put_event) refl

  refused :
      (ts : ℕ) (e : PktFilterEvent) (b : W.Buf) → NoRoom W (ts, e) b → Refuses W ((ts, e) ∷ []) b
  unfolding put_packets
  refused ts e b small = ([], (ts, e), [], refl, b, refl, small)

  put_event-cases :
      (ts : ℕ) (e : PktFilterEvent) (b : W.Buf) (cs : List Attribute)
      → W.draft b ≡ drafted cs none
      → ((put_event W ts e b ≡ none) × Refuses W ((ts, e) ∷ []) b)
        ⊎ ((b' : W.Buf) × (put_event W ts e b ≡ some b') × Added W ((ts, e) ∷ []) cs b b')
  put_event-cases ts e b cs d = elim (Option-cases (W.nla_nest_start Attr.pkt_filter_log b)) [
    | inl out ↦ inl (put-none ts e b out, refused ts e b (inl out))
    | inr (b₁, opened) ↦ elim (Outcome-cases W law (nla_put_all W (event_attrs ts e) b₁)) [
      | inl (b₂, run) ↦ inr (
        W.nla_nest_end b₂,
        put-some ts e b b₁ b₂ opened run,
        (
          (ts, e) ∷ [],
          Sublistᴰ.cons-cons refl Sublistᴰ.slnil,
          nest-written W law Attr.pkt_filter_log (event_attrs ts e) b b₁ b₂ cs d opened run,
          inl refl,
        ),
      )
      | inr (b₂, run) ↦ inr (
        W.nla_nest_end (W.nla_nest_cancel b₂),
        put-cancelled ts e b b₁ b₂ opened run,
        (
          [],
          Sublistᴰ.cons Sublistᴰ.slnil,
          law.draft-end (W.nla_nest_cancel b₂)
              ∙ ap close (
                  nest-cancelled W law Attr.pkt_filter_log (event_attrs ts e) b b₁ b₂ cs d opened
                    run)
              ∙ ap (λ l. drafted l none) (sym (append-nil cs)),
          inr (refused ts e b (inr (b₁, b₂, opened, run))),
        ),
      )
    ]
  ]

  put_ring-payload :
      (ts : ℕ) (e : RingEvent) (b : W.Buf)
      → e.kind ≡ payload
      → put_ring_event W ts e b ≡ put_event W ts e.entry b
  unfolding put_ring_event
  put_ring-payload ts e b k = rw (k, put_ring_event) refl

  put_ring-skipped :
      (ts : ℕ) (e : RingEvent) (b : W.Buf)
      → (e.kind ≡ padding) ⊎ ((e.kind ≡ time_extend) ⊎ (e.kind ≡ time_stamp))
      → put_ring_event W ts e b ≡ some b
  unfolding put_ring_event
  put_ring-skipped ts e b (inl k) = rw (k, put_ring_event) refl
  put_ring-skipped ts e b (inr (inl k)) = rw (k, put_ring_event) refl
  put_ring-skipped ts e b (inr (inr k)) = rw (k, put_ring_event) refl

  stamped-skipped :
      (ts : ℕ) (e : RingEvent)
      → (e.kind ≡ padding) ⊎ ((e.kind ≡ time_extend) ⊎ (e.kind ≡ time_stamp))
      → stamped_event r ts e ≡ []
  stamped-skipped ts e (inl k) = rw k refl
  stamped-skipped ts e (inr (inl k)) = rw k refl
  stamped-skipped ts e (inr (inr k)) = rw k refl

  stamped-payload :
      (ts : ℕ) (e : RingEvent)
      → e.kind ≡ payload
      → stamped_event r ts e ≡ (next_time r e ts, e.entry) ∷ []
  stamped-payload ts e k = rw k refl

  whole :
      {kept ps qs : List (ℕ × PktFilterEvent)} (b : W.Buf)
      → qs ≡ ps
      → (kept ≡ ps) ⊎ Refuses W ps b
      → (kept ≡ qs) ⊎ Refuses W qs b
  whole b e (inl all) = inl (all ∙ sym e)
  whole b e (inr small) = inr (subst (λ ps. Refuses W ps b) (sym e) small)

  packets-one :
      (ts : ℕ) (e : PktFilterEvent) (b b' : W.Buf)
      → put_event W ts e b ≡ some b'
      → put_packets W ((ts, e) ∷ []) b ≡ some b'
  unfolding put_packets
  packets-one ts e b b' run = packets-next W (ts, e) [] b b' run

  -- A turn of the loop
  pub put_ring-cases :
      (ts : ℕ) (e : RingEvent) (b : W.Buf) (cs : List Attribute)
      → W.draft b ≡ drafted cs none
      → ((put_ring_event W (next_time r e ts) e b ≡ none) × Refuses W (stamped_event r ts e) b)
        ⊎ ((b' : W.Buf) × (put_ring_event W (next_time r e ts) e b ≡ some b')
            × (put_packets W (stamped_event r ts e) b ≡ some b')
            × Added W (stamped_event r ts e) cs b b')
  unfolding put_packets
  put_ring-cases ts e b cs d = elim (Kind-cases e.kind) [
    | inr k ↦ inr (
      b,
      put_ring-skipped (next_time r e ts) e b k,
      ap (λ ps. put_packets W ps b) (stamped-skipped ts e k),
      (
        [],
        subst (Sublistᴰ []) (sym (stamped-skipped ts e k)) Sublistᴰ.slnil,
        d ∙ ap (λ l. drafted l none) (sym (append-nil cs)),
        inl (sym (stamped-skipped ts e k)),
      ),
    )
    | inl k ↦ elim (put_event-cases (next_time r e ts) e.entry b cs d) [
      | inl (out, small) ↦ inl (
        put_ring-payload (next_time r e ts) e b k ∙ out,
        subst (λ ps. Refuses W ps b) (sym (stamped-payload ts e k)) small,
      )
      | inr (b', run, (kept, among, d', all)) ↦ inr (
        b',
        put_ring-payload (next_time r e ts) e b k ∙ run,
        ap (λ ps. put_packets W ps b) (stamped-payload ts e k)
            ∙ packets-one (next_time r e ts) e.entry b b' run,
        (
          kept,
          subst (Sublistᴰ kept) (sym (stamped-payload ts e k)) among,
          d',
          whole b (stamped-payload ts e k) all,
        ),
      )
    ]
  ]
