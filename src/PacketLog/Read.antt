-- ===== src/PacketLog/Read.antt =====
-- `process_rb_page` ends, and the message holds packets of the page in their order.
use mathlib.Core.List.{Sublistᴰ, append-nil, append_assoc}
use librefw.Base.{
  ℕ, zero, suc, ◌+◌, ◌≤◌, ◌<◌, ◌≡◌, refl, sym, ap, ◌∙◌, ◌⊎◌, inl, inr, inl, inr, true, false, none,
  some, List, [], ◌∷◌, ◌++◌, map, leb, arith,
}
use librefw.Base.Sublist.{sublist-nil, sublist-append, map-append}
use librefw.Base.Int.{ℤ, pos, e_msgsize}
use librefw.Netlink.{Attribute}
use librefw.Netlink.Buffer.{Writer, IsLawful}
use librefw.Netlink.Written.{drafted}
use librefw.PacketLog.{PktFilterEvent}
use librefw.PacketLog.Page.{
  RingEvent, Ring, RingPage, next_time, put_ring_event, page_loop, process_rb_page,
}
use librefw.PacketLog.Sent.{
  stamped_event, packet_nest, put_packets, Added, Refuses, earlier, later, put_ring-cases,
}

-- The events that a page holds from an offset on, each longer than 0.
pub data Lays (r : Ring) (page : RingPage) (data_offset : ℕ) : ℕ → List RingEvent → Type 0 where
  laid_end : (n : ℕ) → page.commit ≤ n → Lays r page data_offset n []
  laid_event :
      (n : ℕ) (es : List RingEvent)
      → n < page.commit
      → 0 < r.rb_event_length (page.event_at (data_offset + n))
      → Lays r page data_offset (n + r.rb_event_length (page.event_at (data_offset + n))) es
      → Lays r page data_offset n (page.event_at (data_offset + n) ∷ es)

-- The packets of a page, each with the time when it was logged.
unfoldable pub stamped : Ring → ℕ → List RingEvent → List (ℕ × PktFilterEvent)
stamped r ts [] = []
stamped r ts (e ∷ es) = stamped_event r ts e ++ stamped r (next_time r e ts) es

module _ (W : Writer) (law : IsLawful W) (r : Ring) (page : RingPage) (data_offset : ℕ) where
  loop-done :
      (fuel n ts : ℕ) (b : W.Buf)
      → page.commit ≤ n
      → page_loop W r page data_offset (suc fuel) n ts b ≡ some (b, pos 0)
  unfolding page_loop
  loop-done fuel n ts b h =
      let past : leb page.commit n ≡ true = ground arith in rw (past, page_loop) refl

  loop-stop :
      (fuel n ts : ℕ) (b : W.Buf)
      → n < page.commit
      → put_ring_event W
          (next_time r (page.event_at (data_offset + n)) ts)
          (page.event_at (data_offset + n))
          b
        ≡ none
      → page_loop W r page data_offset (suc fuel) n ts b ≡ some (b, e_msgsize)
  unfolding page_loop
  loop-stop fuel n ts b h e =
      let short : leb page.commit n ≡ false = ground arith in rw (short, e, page_loop) refl

  loop-next :
      (fuel n ts : ℕ) (b b' : W.Buf)
      → n < page.commit
      → put_ring_event W
          (next_time r (page.event_at (data_offset + n)) ts)
          (page.event_at (data_offset + n))
          b
        ≡ some b'
      → page_loop W r page data_offset (suc fuel) n ts b
        ≡ page_loop W r page data_offset fuel
            (n + r.rb_event_length (page.event_at (data_offset + n)))
            (next_time r (page.event_at (data_offset + n)) ts)
            b'
  unfolding page_loop
  loop-next fuel n ts b b' h e =
      let short : leb page.commit n ≡ false = ground arith in rw (short, e, page_loop) refl

  both :
      {kept kept' ps qs : List (ℕ × PktFilterEvent)} (b b' : W.Buf)
      → put_packets W ps b ≡ some b'
      → (kept ≡ ps) ⊎ Refuses W ps b
      → (kept' ≡ qs) ⊎ Refuses W qs b'
      → (kept ++ kept' ≡ ps ++ qs) ⊎ Refuses W (ps ++ qs) b
  both b b' run (inl e) (inl e') = inl (cc (e, e'))
  both {ps} {qs} b b' run (inl e) (inr small) = inr (later W ps qs b b' run small)
  both {ps} {qs} b b' run (inr small) e' = inr (earlier W ps qs b small)

  then_later :
      (ps qs : List (ℕ × PktFilterEvent)) (b b' : W.Buf) (ret : ℤ)
      → put_packets W ps b ≡ some b'
      → (ret ≡ pos 0) ⊎ Refuses W qs b'
      → (ret ≡ pos 0) ⊎ Refuses W (ps ++ qs) b
  then_later ps qs b b' ret run (inl good) = inl good
  then_later ps qs b b' ret run (inr small) = inr (later W ps qs b b' run small)

  -- How the loop ends
  abbrev Ends : (fuel n ts : ℕ) → List (ℕ × PktFilterEvent) → List Attribute → W.Buf → Type 0
  Ends fuel n ts ps cs b =
      (b' : W.Buf) × (ret : ℤ) × (page_loop W r page data_offset fuel n ts b ≡ some (b', ret))
      × ((ret ≡ pos 0) ⊎ Refuses W ps b)
      × Added W ps cs b b'

  loop-Ends :
      (fuel n ts : ℕ) (es : List RingEvent) (b : W.Buf) (cs : List Attribute)
      → page.commit ≤ n + fuel
      → Lays r page data_offset n es
      → W.draft b ≡ drafted cs none
      → Ends (suc fuel) n ts (stamped r ts es) cs b
  unfolding stamped
  loop-Ends fuel _ ts _ b cs enough (laid_end n h) d = (
    b,
    pos 0,
    loop-done fuel n ts b h,
    inl refl,
    ([], Sublistᴰ.slnil, d ∙ ap (λ l. drafted l none) (sym (append-nil cs)), inl refl),
  )
  loop-Ends zero _ ts _ b cs enough (laid_event n es h grows more) d = absurd (omega arith)
  loop-Ends (suc fuel) _ ts _ b cs enough (laid_event n es h grows more) d =
      let e = page.event_at (data_offset + n) in
      let ts' = next_time r e ts in
      elim (put_ring-cases W law r ts e b cs d) [
        | inl (out, small) ↦ (
          b,
          e_msgsize,
          loop-stop (suc fuel) n ts b h out,
          inr (earlier W (stamped_event r ts e) (stamped r ts' es) b small),
          (
            [],
            sublist-nil _,
            d ∙ ap (λ l. drafted l none) (sym (append-nil cs)),
            inr (earlier W (stamped_event r ts e) (stamped r ts' es) b small),
          ),
        )
        | inr (b', run, puts, (kept, among, d', all)) ↦
            let (b'', ret, run', good, (kept', among', d'', all')) =
              loop-Ends fuel (n + r.rb_event_length e) ts' es b' (cs ++ map packet_nest kept)
                (omega arith) more d' in
            (
              b'',
              ret,
              loop-next (suc fuel) n ts b b' h run ∙ run',
              then_later (stamped_event r ts e) (stamped r ts' es) b b' ret puts good,
              (
                kept ++ kept',
                sublist-append among among',
                d''
                    ∙ ap (λ l. drafted l none)
                        (append_assoc cs (map packet_nest kept) (map packet_nest kept')
                          ∙ ap (λ l. cs ++ l) (sym (map-append packet_nest kept kept'))),
                both b b' puts all all',
              ),
            )
      ]

  -- For a page that holds the events `es`, on at least as much fuel as the bytes
  -- committed and one, and a message that is empty at first, `process_rb_page` returns. The message
  -- then holds one nested attribute for each of some of the packets among the events, in their order
  -- and each with the time that the running time stamp gives it; the code is 0 and no
  -- packet is left out, unless for one of the packets, after what was put for those before it, the
  -- nested attribute cannot be started or one of its eight attributes finds no room.
  pub process_rb_page-writes :
      (fuel : ℕ) (es : List RingEvent) (b : W.Buf)
      → page.commit ≤ fuel
      → Lays r page data_offset 0 es
      → W.draft b ≡ drafted [] none
      → (b' : W.Buf) × (ret : ℤ) × (process_rb_page W r page data_offset (suc fuel) b
          ≡ some (b', ret))
        × ((ret ≡ pos 0) ⊎ Refuses W (stamped r page.page_time es) b)
        × Added W (stamped r page.page_time es) [] b b'
  unfolding process_rb_page
  process_rb_page-writes fuel es b enough lays d =
      loop-Ends fuel 0 page.page_time es b [] (omega arith) lays d
