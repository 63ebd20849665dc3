-- ===== src/Netlink/Delivered.antt =====
-- A message that `lfw_make_multicast_msg` sends is what the callback wrote into an empty one.
use librefw.Base.{
  ℕ, ◌≡◌, refl, ap, ◌⊎◌, inl, inr, true, false, none, some, [], Bool-cases, Option-cases,
  if◌then◌else◌, arith,
}
use librefw.Base.Int.{ℤ, is_nonzero}
use librefw.Netlink.Buffer.{Writer}
use librefw.Netlink.Written.{drafted}
use librefw.Netlink.Multicast.{Genl, Fate, unallocated, freed, sent, lfw_make_multicast_msg}

-- How a callback's message is sent.
pub record Delivers (W : Writer) (g : Genl W) (group cmd : ℕ) (callback : W.Buf → W.Buf × ℤ)
    (size grp : ℕ) (b : W.Buf) : Type 0 where
  pub new_msg : W.Buf
  pub allocated : g.genlmsg_new size ≡ some new_msg
  pub blank_msg : W.Buf
  pub headed : g.genlmsg_put cmd new_msg ≡ some blank_msg
  pub is_blank : W.draft blank_msg ≡ drafted [] none
  pub same_group : grp ≡ group
  pub wrote : (callback blank_msg).0 ≡ b
  pub agreed : is_nonzero (callback blank_msg).1 ≡ false

module _ (W : Writer) (g : Genl W) (group cmd : ℕ) (callback : W.Buf → W.Buf × ℤ) (size : ℕ) where
  no_memory :
      g.genlmsg_new size ≡ none
      → (lfw_make_multicast_msg W g group cmd callback size).0 ≡ unallocated
  unfolding lfw_make_multicast_msg
  no_memory e = rw (e, lfw_make_multicast_msg) refl

  no_header :
      (skb : W.Buf)
      → g.genlmsg_new size ≡ some skb
      → g.genlmsg_put cmd skb ≡ none
      → (lfw_make_multicast_msg W g group cmd callback size).0 ≡ freed
  unfolding lfw_make_multicast_msg
  no_header skb e e' = rw (e, e', lfw_make_multicast_msg) refl

  with_header :
      (skb skb' : W.Buf)
      → g.genlmsg_new size ≡ some skb
      → g.genlmsg_put cmd skb ≡ some skb'
      → (lfw_make_multicast_msg W g group cmd callback size).0
        ≡ (if is_nonzero (callback skb').1 then freed else sent group (callback skb').0)
  unfolding lfw_make_multicast_msg
  with_header skb skb' e e' = rw (e, e', lfw_make_multicast_msg) (ground arith)

  -- A message that was not made
  pub multicast-unallocated :
      (lfw_make_multicast_msg W g group cmd callback size).0 ≡ unallocated
      → g.genlmsg_new size ≡ none
  multicast-unallocated fate = elim (Option-cases (g.genlmsg_new size)) [
    | inl e ↦ e
    | inr (skb, e) ↦ elim (Option-cases (g.genlmsg_put cmd skb)) [
      | inl e' ↦ absurd (cc (no_header skb e e', fate))
      | inr (skb', e') ↦ elim (Bool-cases (is_nonzero (callback skb').1)) [
        | inl bad ↦ absurd (cc (with_header skb skb' e e', bad, fate))
        | inr good ↦ absurd (cc (with_header skb skb' e e', good, fate))
      ]
    ]
  ]

  -- One that was freed: it has no header, or the callback failed.
  pub multicast-freed :
      (lfw_make_multicast_msg W g group cmd callback size).0 ≡ freed
      → (skb : W.Buf) × (g.genlmsg_new size ≡ some skb)
        × ((g.genlmsg_put cmd skb ≡ none)
            ⊎ ((skb' : W.Buf) × (g.genlmsg_put cmd skb ≡ some skb')
                × (is_nonzero (callback skb').1 ≡ true)))
  multicast-freed fate = elim (Option-cases (g.genlmsg_new size)) [
    | inl e ↦ absurd (cc (no_memory e, fate))
    | inr (skb, e) ↦ elim (Option-cases (g.genlmsg_put cmd skb)) [
      | inl e' ↦ (skb, e, inl e')
      | inr (skb', e') ↦ elim (Bool-cases (is_nonzero (callback skb').1)) [
        | inl bad ↦ (skb, e, inr (skb', e', bad))
        | inr good ↦ absurd (cc (with_header skb skb' e e', good, fate))
      ]
    ]
  ]

module _ (W : Writer) (g : Genl W) (group cmd : ℕ) (callback : W.Buf → W.Buf × ℤ) (size : ℕ)
    (grp : ℕ) (b : W.Buf) (ret : ℤ) where
  from_header :
      (skb skb' : W.Buf)
      → g.genlmsg_new size ≡ some skb
      → g.genlmsg_put cmd skb ≡ some skb'
      → (lfw_make_multicast_msg W g group cmd callback size).0 ≡ sent grp b
      → Delivers W g group cmd callback size grp b
  from_header skb skb' e e' run = elim (Bool-cases (is_nonzero (callback skb').1)) [
    | inl bad ↦ absurd (cc (with_header W g group cmd callback size skb skb' e e', bad, run))
    | inr ok ↦ record {
      new_msg = skb;
      allocated = e;
      blank_msg = skb';
      headed = e';
      is_blank = g.begins_empty size cmd skb skb' e e';
      same_group = cc (with_header W g group cmd callback size skb skb' e e', ok, run);
      wrote = cc (with_header W g group cmd callback size skb skb' e e', ok, run);
      agreed = ok;
    }
  ]

  pub multicast-Delivers :
      lfw_make_multicast_msg W g group cmd callback size ≡ (sent grp b, ret)
      → Delivers W g group cmd callback size grp b
  multicast-Delivers run =
      let fate = ap (λ (r : Fate W.Buf × ℤ). r.0) run in
      elim (Option-cases (g.genlmsg_new size)) [
        | inl e ↦ absurd (cc (no_memory W g group cmd callback size e, fate))
        | inr (skb, e) ↦ elim (Option-cases (g.genlmsg_put cmd skb)) [
          | inl e' ↦ absurd (cc (no_header W g group cmd callback size skb e e', fate))
          | inr (skb', e') ↦ from_header skb skb' e e' fate
        ]
      ]
