-- ===== src/State/Exchange/Served.antt =====
-- What readers of the flag find behind their pointers while the memory changes.
use mathlib.Core.Path.{subst}
use librefw.Base.{
  ℕ, ◌≤◌, ◌≡◌, refl, sym, ap, inl, inr, Bool, true, false, Option, some, arith, ◌==◌, ==_iff,
  Bool-cases,
}
use librefw.Mem.{Ptr}
use librefw.State.{Firewall}
use librefw.State.Exchange.{
  Cell, free, published, replaced, waiting, flag_of, Reader, outside, inside, holding, Shared,
  put_at, HasLeft,
}

-- What a reader that entered at `since` and saw `seen` finds at its pointer
abbrev pub IsKept : ℕ → Option Bool → Cell → Type 0
IsKept since seen free = ⊥
IsKept since seen (published v) = seen ≡ some v
IsKept since seen (replaced v) = seen ≡ some v
IsKept since seen (waiting time v) = (seen ≡ some v) × (since ≤ time)

abbrev pub IsServed : ℕ → (Ptr → Cell) → Reader → Type 0
IsServed time cells outside = Unit
IsServed time cells (inside since) = since ≤ time
IsServed time cells (holding since p seen) = (since ≤ time) × IsKept since seen (cells p)

pub record IsSafe (fw : Firewall) (s : Shared) : Type 0 where
  pub current : s.cells s.state ≡ published fw.under_attack
  pub served : (r : ℕ) → IsServed s.time s.cells (s.readers r)

pub put_at-same : {A : Type 0} (i j : ℕ) (x : A) (f : ℕ → A) → (j == i) ≡ true → put_at i x f j ≡ x
put_at-same i j x f e = rw e refl

pub put_at-other :
    {A : Type 0} (i j : ℕ) (x : A) (f : ℕ → A) → (j == i) ≡ false → put_at i x f j ≡ f j
put_at-other i j x f e = rw e refl

-- What holds of every reader holds after one has changed, if it holds of that one.
pub reader-IsServed :
    (time : ℕ) (cells : Ptr → Cell) (readers : ℕ → Reader) (i : ℕ) (x : Reader)
    → ((r : ℕ) → IsServed time cells (readers r))
    → IsServed time cells x
    → (r : ℕ) → IsServed time cells (put_at i x readers r)
reader-IsServed time cells readers i x h h' r = elim (Bool-cases (r == i)) [
  | inl e ↦ subst (IsServed time cells) (sym (put_at-same i r x readers e)) h'
  | inr e ↦ subst (IsServed time cells) (sym (put_at-other i r x readers e)) (h r)
]

-- A reader stays served when a cell changes to one that keeps what the reader finds there.
pub cell-IsServed :
    (time time' : ℕ) (cells : Ptr → Cell) (p : Ptr) (c : Cell) (x : Reader)
    → time ≤ time'
    → ((since : ℕ) (seen : Option Bool)
        → x ≡ holding since p seen
        → since ≤ time
        → IsKept since seen (cells p)
        → IsKept since seen c)
    → IsServed time cells x
    → IsServed time' (put_at p c cells) x
cell-IsServed time time' cells p c outside le keeps h = tt
cell-IsServed time time' cells p c (inside since) le keeps h = omega arith
cell-IsServed time time' cells p c (holding since q seen) le keeps (early, kept) =
    elim (Bool-cases (q == p)) [
      | inl e ↦
          let same : q ≡ p = (==_iff q p).0 e in
          (
            omega arith,
            subst (IsKept since seen) (sym (put_at-same p q c cells e)) (
                keeps since seen (ap (λ a. holding since a seen) same) early
                  (subst (λ a. IsKept since seen (cells a)) same kept)),
          )
      | inr e ↦ (omega arith, subst (IsKept since seen) (sym (put_at-other p q c cells e)) kept)
    ]

-- The flag that was seen is still there.
pub kept-seen :
    (since : ℕ) (seen : Option Bool) (c : Cell)
    → IsKept since seen c
    → (v : Bool) × (seen ≡ some v) × (flag_of c ≡ some v)
kept-seen since seen free h = elim h [ ]
kept-seen since seen (published v) h = (v, h, refl)
kept-seen since seen (replaced v) h = (v, h, refl)
kept-seen since seen (waiting time v) h = (v, h.0, refl)

pub replaced-IsKept :
    (since : ℕ) (seen : Option Bool) (c : Cell) (v : Bool)
    → c ≡ published v
    → IsKept since seen c
    → IsKept since seen (replaced v)
replaced-IsKept since seen c v e h = subst (IsKept since seen) e h

pub waiting-IsKept :
    (since time : ℕ) (seen : Option Bool) (c : Cell) (v : Bool)
    → c ≡ replaced v
    → since ≤ time
    → IsKept since seen c
    → IsKept since seen (waiting time v)
waiting-IsKept since time seen c v e le h = (subst (IsKept since seen) e h, le)

pub free-unkept :
    {A : Type 0} (since : ℕ) (seen : Option Bool) (c : Cell) → c ≡ free → IsKept since seen c → A
free-unkept since seen c e h = absurd (subst (IsKept since seen) e h)

-- A reader that keeps a state that waits has not left.
pub waiting-kept :
    {A : Type 0} (since time : ℕ) (seen : Option Bool) (c : Cell) (v : Bool) (x : Reader) (p : Ptr)
    → c ≡ waiting time v
    → x ≡ holding since p seen
    → HasLeft time x
    → IsKept since seen c
    → A
waiting-kept since time seen c v x p e e' left h =
    let kept = subst (IsKept since seen) e h in
    let gone = subst (HasLeft time) e' left in absurd (omega (arith, kept.1, gone))
