-- ===== src/State/Exchange/Readers.antt =====
-- Readers of the flag never read memory that is free, and see the flag that was published.
use mathlib.Core.Path.{subst}
use librefw.Base.{
  ℕ, ◌+◌, ◌≡◌, refl, sym, ap, ◌∙◌, inl, inr, Bool, true, false, Option, some, arith, ◌==◌, ==_iff,
  Bool-cases,
}
use librefw.Mem.{Ptr}
use librefw.State.{Firewall, lfw_state_is_under_attack, lfw_state_set_under_attack}
use librefw.State.Exchange.{
  Cell, free, published, replaced, waiting, flag_of, outside, inside, holding, Shared, first_shared,
  put_at, enter_section, load_state, leave_section, exchange_state, retire_state, free_retired,
  HasLeft, Reach, starts, refuses, exchanges, retires, reclaims, enters, dereferences, leaves,
}
use librefw.State.Exchange.Served.{
  IsKept, IsServed, IsSafe, put_at-same, put_at-other, reader-IsServed, cell-IsServed, kept-seen,
  replaced-IsKept, waiting-IsKept, free-unkept, waiting-kept,
}

exchange-current :
    (s : Shared) (a : Ptr) (v old : Bool)
    → (exchange_state a v old s).cells (exchange_state a v old s).state ≡ published v
unfolding exchange_state
exchange-current s a v old =
    put_at-same a a (published v) (put_at s.state (replaced old) s.cells) ((==_iff a a).1 refl)

exchange-IsSafe :
    (fw : Firewall) (s : Shared) (a : Ptr) (v old : Bool)
    → IsSafe fw s
    → s.cells a ≡ free
    → s.cells s.state ≡ published old
    → IsSafe (lfw_state_set_under_attack true v fw).0 (exchange_state a v old s)
unfolding exchange_state lfw_state_set_under_attack
exchange-IsSafe fw s a v old h unused now = record {
  current = exchange-current s a v old;
  served = λ r.
      cell-IsServed s.time s.time (put_at s.state (replaced old) s.cells) a (published v)
        (s.readers r) (omega arith)
        (λ since seen x early kept.
          free-unkept since seen (put_at s.state (replaced old) s.cells a)
            (put_at-other s.state a (replaced old) s.cells apart ∙ unused) kept)
        (cell-IsServed s.time s.time s.cells s.state (replaced old) (s.readers r) (omega arith)
          (λ since seen x early kept. replaced-IsKept since seen (s.cells s.state) old now kept)
          (h.served r));
}
  where
    apart : (a == s.state) ≡ false
    apart = elim (Bool-cases (a == s.state)) [
      | inl e ↦ absurd (cc (ap s.cells ((==_iff a s.state).0 e), unused, now))
      | inr e ↦ e
    ]

-- Another cell than the published one may change.
current-other :
    (fw : Firewall) (s : Shared) (p : Ptr) (c d : Cell)
    → IsSafe fw s
    → s.cells p ≡ d
    → ((v : Bool) → published v ≡ d → ⊥)
    → put_at p c s.cells s.state ≡ published fw.under_attack
current-other fw s p c d h e unlike = elim (Bool-cases (s.state == p)) [
  | inl same ↦
      absurd (unlike fw.under_attack (sym h.current ∙ ap s.cells ((==_iff s.state p).0 same) ∙ e))
  | inr other ↦ put_at-other p s.state c s.cells other ∙ h.current
]

retire-IsSafe :
    (fw : Firewall) (s : Shared) (p : Ptr) (v : Bool)
    → IsSafe fw s
    → s.cells p ≡ replaced v
    → IsSafe fw (retire_state p v s)
unfolding retire_state
retire-IsSafe fw s p v h e = record {
  current = current-other fw s p (waiting s.time v) (replaced v) h e (λ w e'. cc);
  served = λ r.
      cell-IsServed s.time (s.time + 1) s.cells p (waiting s.time v) (s.readers r) (omega arith)
        (λ since seen x early kept. waiting-IsKept since s.time seen (s.cells p) v e early kept)
        (h.served r);
}

free_retired-IsSafe :
    (fw : Firewall) (s : Shared) (p : Ptr) (time : ℕ) (v : Bool)
    → IsSafe fw s
    → s.cells p ≡ waiting time v
    → ((r : ℕ) → HasLeft time (s.readers r))
    → IsSafe fw (free_retired p s)
unfolding free_retired
free_retired-IsSafe fw s p time v h e left = record {
  current = current-other fw s p free (waiting time v) h e (λ w e'. cc);
  served = λ r.
      cell-IsServed s.time s.time s.cells p free (s.readers r) (omega arith)
        (λ since seen x early kept.
          waiting-kept since time seen (s.cells p) v (s.readers r) p e x (left r) kept)
        (h.served r);
}

enter-IsSafe : (fw : Firewall) (s : Shared) (r : ℕ) → IsSafe fw s → IsSafe fw (enter_section r s)
unfolding enter_section
enter-IsSafe fw s r h = record {
  current = h.current;
  served = reader-IsServed s.time s.cells s.readers r (inside s.time) h.served (omega arith);
}

leave-IsSafe : (fw : Firewall) (s : Shared) (r : ℕ) → IsSafe fw s → IsSafe fw (leave_section r s)
unfolding leave_section
leave-IsSafe fw s r h = record {
  current = h.current;
  served = reader-IsServed s.time s.cells s.readers r outside h.served tt;
}

dereference-IsSafe :
    (fw : Firewall) (s : Shared) (r since : ℕ)
    → IsSafe fw s
    → s.readers r ≡ inside since
    → IsSafe fw (load_state r since s)
unfolding load_state
dereference-IsSafe fw s r since h e = record {
  current = h.current;
  served =
      reader-IsServed s.time s.cells s.readers r (holding since s.state (flag_of (s.cells s.state)))
        h.served
        (
          subst (IsServed s.time s.cells) e (h.served r),
          subst (IsKept since (flag_of (s.cells s.state))) (sym h.current) (ap flag_of h.current),
        );
}

start-IsSafe : (fw : Firewall) (p : Ptr) → fw.under_attack ≡ false → IsSafe fw (first_shared p)
start-IsSafe fw p e = record {
  current =
      put_at-same p p (published false) (λ a. free) ((==_iff p p).1 refl) ∙ ap published (sym e);
  served = λ r. tt;
}

Reach-IsSafe : (fw : Firewall) (s : Shared) → Reach fw s → IsSafe fw s
unfolding lfw_state_set_under_attack
Reach-IsSafe _ _ (starts p bogon hcf) =
    start-IsSafe (record { under_attack = false; bogon = bogon; hcf = hcf }) p refl
Reach-IsSafe _ _ (refuses fw s v reach) = Reach-IsSafe fw s reach
Reach-IsSafe _ _ (exchanges fw s a v old reach unused now) =
    exchange-IsSafe fw s a v old (Reach-IsSafe fw s reach) unused now
Reach-IsSafe _ _ (retires fw s p v reach e) = retire-IsSafe fw s p v (Reach-IsSafe fw s reach) e
Reach-IsSafe _ _ (reclaims fw s p time v reach e left) =
    free_retired-IsSafe fw s p time v (Reach-IsSafe fw s reach) e left
Reach-IsSafe _ _ (enters fw s r reach e) = enter-IsSafe fw s r (Reach-IsSafe fw s reach)
Reach-IsSafe _ _ (dereferences fw s r since reach e) =
    dereference-IsSafe fw s r since (Reach-IsSafe fw s reach) e
Reach-IsSafe _ _ (leaves fw s r reach) = leave-IsSafe fw s r (Reach-IsSafe fw s reach)

-- In every shared state that calls of the functions lead to, in any order of their steps, the flag
-- behind the published pointer is the one that the calls of `lfw_state_set_under_attack` have left; and
-- a reader that has dereferenced the pointer finds a state at its own, with the flag that was
-- published when it did. `kzalloc` returns memory that is free, and a grace period ends when the
-- readers from before it have left.
pub lfw_state_is_under_attack-seen :
    (fw : Firewall) (s : Shared) (r since : ℕ) (p : Ptr) (seen : Option Bool)
    → Reach fw s
    → s.readers r ≡ holding since p seen
    → (flag_of (s.cells s.state) ≡ some (lfw_state_is_under_attack fw))
      × (v : Bool) × (seen ≡ some v)
      × (flag_of (s.cells p) ≡ some v)
unfolding lfw_state_is_under_attack
lfw_state_is_under_attack-seen fw s r since p seen reach e =
    let h = Reach-IsSafe fw s reach in
    let (early, kept) = subst (IsServed s.time s.cells) e (h.served r) in
    let (v, saw, finds) = kept-seen since seen (s.cells p) kept in
    (ap flag_of h.current, v, saw, finds)
