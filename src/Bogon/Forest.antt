-- ===== src/Bogon/Forest.antt =====
-- The callbacks of several trees, one after another: all their nodes are freed.
use librefw.Base.{
  ℕ, ◌<◌, ◌≡◌, refl, ◌∙◌, Bool, false, ◌||◌, none, List, [], ◌∷◌, ◌++◌, map, arith, if◌then◌else◌,
}
use librefw.Mem.{Mem, ok, read}
use librefw.Mem.Tree.{Tree, nil, root, has}
use librefw.Mem.Free.{Freed, free_tree-Freed}
use librefw.Base.Sublist.{map-append}
use librefw.Bogon.{BgState}
use librefw.Bogon.Free.{free-run}
use librefw.Bogon.Waiting.{
  Waits, IsBacked, Waits-Freed, Waits-load, run_bg_callbacks, callbacks-step,
}

-- Is the address that of a node of one of the trees?
abbrev pub any_has : List (Tree ℕ) → ℕ → Bool
any_has [] a = false
any_has (u ∷ us) a = has u a || any_has us a

-- The nodes of the trees are free, and all other memory is as before.
abbrev pub FreedAll : Mem ℕ → List (Tree ℕ) → Mem ℕ → Type 0
FreedAll m us m' = (a : ℕ) → read m' a ≡ (if any_has us a then none else read m a)

FreedAll-cons :
    (m m₁ m₂ : Mem ℕ) (u : Tree ℕ) (us : List (Tree ℕ))
    → Freed m u m₁
    → FreedAll m₁ us m₂
    → FreedAll m (u ∷ us) m₂
FreedAll-cons m m₁ m₂ u us freed rest a = ground (arith, freed a, rest a)

pub run_bg_callbacks-FreedAll :
    (stack : ℕ) (us : List (Tree ℕ)) (m : Mem ℕ)
    → 33 < stack
    → Waits m nil us
    → (m' : Mem ℕ) × (run_bg_callbacks stack (map root us) m ≡ ok tt m') × FreedAll m us m'
unfolding run_bg_callbacks
run_bg_callbacks-FreedAll stack [] m enough h = (m, refl, λ a. refl)
run_bg_callbacks-FreedAll stack (u ∷ us) m enough (o, low, out, others, h) =
    let (m₁, freeing, freed) = free_tree-Freed stack m u (omega (arith, low, enough)) o in
    let run = free-run stack (root u) (root u) m m₁ refl freeing in
    let (m₂, rest, freed') =
      run_bg_callbacks-FreedAll stack us m₁ enough (Waits-Freed m m₁ nil u us h freed others) in
    (
      m₂,
      callbacks-step stack (root u) (map root us) m m₁ m₂ run rest,
      FreedAll-cons m m₁ m₂ u us freed freed',
    )

-- The old trees that wait, and then the tree itself, all wait.
pub backed-Waits :
    (st : BgState) (t : Tree ℕ)
    → IsBacked st t
    → (us : List (Tree ℕ)) × (map root us ≡ st.rcu ++ (st.root ∷ [])) × Waits st.mem nil us
backed-Waits st t (h, low, us, roots, waits) = (
  us ++ (t ∷ []),
  map-append root us (t ∷ []) ∙ cc (roots, h.rooted),
  Waits-load st.mem st.mem t nil us waits h.owned low (λ u o. (o, λ a i. refl)),
)
