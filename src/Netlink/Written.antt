-- ===== src/Netlink/Written.antt =====
-- What a chain of `nla_put` leaves, at the top of a message and inside a nested attribute.
use mathlib.Core.List.{append-nil, append_assoc}
use librefw.Base.{
  ℕ, ◌≡◌, refl, sym, ap, ◌∙◌, ◌⊎◌, inl, inr, false, Option, none, some, List, [], ◌∷◌, ◌++◌, map,
}
use mathlib.Core.Bool.{true≢false}
use librefw.Base.Int.{pos, e_msgsize, is_nonzero}
use librefw.Netlink.{Nla, Nest, Attribute, scalar, nest}
use librefw.Netlink.Buffer.{
  Draft, add, start, close, Outcome, fits, full, Writer, IsLawful, nla_put_all, nla_build,
}

abbrev pub drafted : List Attribute → Option Nest → Draft
drafted cs o = record { complete = cs; opened = o }

abbrev pub nest_of : ℕ → List Nla → Nest
nest_of t as' = record { nest_type = t; nested = as' }

module _ (W : Writer) (law : IsLawful W) where
  pub Outcome-cases :
      (o : Outcome W.Buf) → ((b : W.Buf) × (o ≡ fits b)) ⊎ ((b : W.Buf) × (o ≡ full b))
  Outcome-cases (fits b) = inl (b, refl)
  Outcome-cases (full b) = inr (b, refl)

  put_all-step :
      (a : Nla) (as' : List Nla) (b b₁ : W.Buf)
      → W.nla_put a b ≡ fits b₁
      → nla_put_all W (a ∷ as') b ≡ nla_put_all W as' b₁
  unfolding nla_put_all
  put_all-step a as' b b₁ e = rw (e, nla_put_all) refl

  put_all-stop :
      (a : Nla) (as' : List Nla) (b b₁ : W.Buf)
      → W.nla_put a b ≡ full b₁
      → nla_put_all W (a ∷ as') b ≡ full b₁
  unfolding nla_put_all
  put_all-stop a as' b b₁ e = rw (e, nla_put_all) refl

  put_all-cons :
      (a : Nla) (as' : List Nla) (b b' : W.Buf)
      → nla_put_all W (a ∷ as') b ≡ fits b'
      → (b₁ : W.Buf) × (W.nla_put a b ≡ fits b₁) × (nla_put_all W as' b₁ ≡ fits b')
  unfolding nla_put_all
  put_all-cons a as' b b' run = elim (Outcome-cases (W.nla_put a b)) [
    | inl (b₁, e) ↦ (b₁, e, sym (put_all-step a as' b b₁ e) ∙ run)
    | inr (b₁, e) ↦ cc (put_all-stop a as' b b₁ e, run)
  ]

  -- At the top of the message
  pub put_all-scalars :
      (as' : List Nla) (b b' : W.Buf) (cs : List Attribute)
      → W.draft b ≡ drafted cs none
      → nla_put_all W as' b ≡ fits b'
      → W.draft b' ≡ drafted (cs ++ map scalar as') none
  unfolding nla_put_all
  put_all-scalars [] b b' cs e run = cc (e, run, append-nil cs)
  put_all-scalars (a ∷ as') b b' cs e run =
      let (b₁, put, rest) = put_all-cons a as' b b' run in
      put_all-scalars as' b₁ b' (cs ++ (scalar a ∷ [])) (law.put-fits a b b₁ put ∙ ap (add a) e)
        rest
      ∙ ap (λ l. drafted l none) (append_assoc cs (scalar a ∷ []) (map scalar as'))

  -- Inside a nested attribute
  pub put_all-nested :
      (as' : List Nla) (b b' : W.Buf) (cs : List Attribute) (t : ℕ) (ns : List Nla)
      → W.draft b ≡ drafted cs (some (nest_of t ns))
      → nla_put_all W as' b ≡ fits b'
      → W.draft b' ≡ drafted cs (some (nest_of t (ns ++ as')))
  unfolding nla_put_all
  put_all-nested [] b b' cs t ns e run = cc (e, run, append-nil ns)
  put_all-nested (a ∷ as') b b' cs t ns e run =
      let (b₁, put, rest) = put_all-cons a as' b b' run in
      put_all-nested as' b₁ b' cs t (ns ++ (a ∷ [])) (law.put-fits a b b₁ put ∙ ap (add a) e) rest
      ∙ ap (λ l. drafted cs (some (nest_of t l))) (append_assoc ns (a ∷ []) as')

  -- Where the chain ends early, the complete attributes are as before.
  pub put_all-broken :
      (as' : List Nla) (b b' : W.Buf) (cs : List Attribute) (t : ℕ) (ns : List Nla)
      → W.draft b ≡ drafted cs (some (nest_of t ns))
      → nla_put_all W as' b ≡ full b'
      → (W.draft b').complete ≡ cs
  unfolding nla_put_all
  put_all-broken [] b b' cs t ns e run = cc run
  put_all-broken (a ∷ as') b b' cs t ns e run = elim (Outcome-cases (W.nla_put a b)) [
    | inl (b₁, put) ↦
        put_all-broken as' b₁ b' cs t (ns ++ (a ∷ [])) (law.put-fits a b b₁ put ∙ ap (add a) e)
          (sym (put_all-step a as' b b₁ put) ∙ run)
    | inr (b₁, put) ↦
        ap (λ (d : Draft). d.complete)
          (law.put-full a b b' (cc (put, put_all-stop a as' b b₁ put, run)) ∙ e)
  ]

  -- A nested attribute that is written whole
  pub nest-written :
      (t : ℕ) (as' : List Nla) (b b₁ b₂ : W.Buf) (cs : List Attribute)
      → W.draft b ≡ drafted cs none
      → W.nla_nest_start t b ≡ some b₁
      → nla_put_all W as' b₁ ≡ fits b₂
      → W.draft (W.nla_nest_end b₂) ≡ drafted (cs ++ (nest (nest_of t as') ∷ [])) none
  nest-written t as' b b₁ b₂ cs e opened run =
      law.draft-end b₂
      ∙ ap close
          (put_all-nested as' b₁ b₂ cs t [] (law.start-some t b b₁ opened ∙ ap (start t) e) run)

  -- One that is cancelled
  pub nest-cancelled :
      (t : ℕ) (as' : List Nla) (b b₁ b₂ : W.Buf) (cs : List Attribute)
      → W.draft b ≡ drafted cs none
      → W.nla_nest_start t b ≡ some b₁
      → nla_put_all W as' b₁ ≡ full b₂
      → W.draft (W.nla_nest_cancel b₂) ≡ drafted cs none
  nest-cancelled t as' b b₁ b₂ cs e opened run =
      law.draft-cancel b₂
      ∙ ap (λ l. drafted l none)
          (put_all-broken as' b₁ b₂ cs t [] (law.start-some t b b₁ opened ∙ ap (start t) e) run)

  build-fits :
      (as' : List Nla) (b b₁ : W.Buf)
      → nla_put_all W as' b ≡ fits b₁
      → nla_build W as' b ≡ (b₁, pos 0)
  unfolding nla_build
  build-fits as' b b₁ e = rw (e, nla_build) refl

  build-full :
      (as' : List Nla) (b b₁ : W.Buf)
      → nla_put_all W as' b ≡ full b₁
      → nla_build W as' b ≡ (b₁, e_msgsize)
  unfolding nla_build
  build-full as' b b₁ e = rw (e, nla_build) refl

  -- A message that a callback built with return code 0
  pub build-scalars :
      (as' : List Nla) (b : W.Buf)
      → W.draft b ≡ drafted [] none
      → is_nonzero (nla_build W as' b).1 ≡ false
      → W.draft (nla_build W as' b).0 ≡ drafted (map scalar as') none
  build-scalars as' b e ok = elim (Outcome-cases (nla_put_all W as' b)) [
    | inl (b₁, run) ↦ rw (build-fits as' b b₁ run) (put_all-scalars as' b b₁ [] e run)
    | inr (b₁, run) ↦ absurd (true≢false (sym (rw (build-full as' b b₁ run) refl) ∙ ok))
  ]
