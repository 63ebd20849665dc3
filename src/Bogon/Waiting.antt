-- ===== src/Bogon/Waiting.antt =====
-- The old trees of the bogon filter while they wait for their callbacks.
use librefw.Base.{
  ℕ, ◌-◌, ◌≤◌, ◌<◌, ◌≡◌, refl, sym, ap, ◌∙◌, true, some, List, [], ◌∷◌, ◌++◌, map, arith, All,
  All-append,
}
use librefw.Mem.{Ptr, Mem, ok, Cmd, pure, ◌>>=◌, Cache, IsAmple}
use librefw.Mem.Tree.{Tree, root, Owns, Disjoint, Disjoint-sym}
use librefw.Mem.Free.{height, height-depth, Freed, free_tree-Freed, Freed-Owns}
use librefw.Trie.{Trie, leaf, fork, put}
use librefw.Trie.Depth.{depth, depth-put}
use librefw.Word.{get_unaligned_be32}
use librefw.Word.Prefix.{length-bits}
use librefw.Base.Sublist.{map-append}
use librefw.Bogon.{IpPrefix, BgState, lfw_free_bg_tree, lfw_load_bg_tree}
use librefw.Bogon.Load.{IsPrefix, IsBogon, IsKept, path_of, loaded, lfw_load_bg_tree-builds}
use librefw.Bogon.Free.{free-run}

-- The trees are in the memory, at most 33 nodes high, and no two of them, nor one and `t`, share a node.
abbrev pub Waits : Mem ℕ → Tree ℕ → List (Tree ℕ) → Type 0
Waits m t [] = Unit
Waits m t (u ∷ us) = Owns m u × (height u ≤ 33) × Disjoint u t × All (Disjoint u) us × Waits m t us

-- The state holds a tree, and the roots that wait are those of such trees.
abbrev pub IsBacked : BgState → Tree ℕ → Type 0
IsBacked st t =
    IsBogon st t
    × (height t ≤ 33)
    × (us : List (Tree ℕ)) × (map root us ≡ st.rcu)
    × Waits st.mem t us

loaded-depth :
    (ps : List IpPrefix) (x : Trie ℕ) → All IsPrefix ps → depth x ≤ 33 → depth (loaded ps x) ≤ 33
unfolding loaded path_of
loaded-depth [] x h low = low
loaded-depth (p ∷ ps) x h low = loaded-depth ps (put 0 (path_of p) 1 x) h.1 (
    depth-put 0 (path_of p) 1 x 33 low (
      omega (
        arith,
        h.0,
        length-bits (get_unaligned_be32 p.ip_prefix) (32 - p.ip_prefix_len) p.ip_prefix_len,
      )))

fork-depth : depth {D = ℕ} (fork 0 leaf leaf) ≤ 33
unfolding depth
fork-depth = omega arith

-- Another tree is replaced.
pub Waits-load :
    (m m' : Mem ℕ) (t t' : Tree ℕ) (us : List (Tree ℕ))
    → Waits m t us
    → Owns m t
    → height t ≤ 33
    → ((u : Tree ℕ) → IsKept m m' t' u)
    → Waits m' t' (us ++ (t ∷ []))
Waits-load m m' t t' [] h o low kept = let (o', apart) = kept t o in (o', low, apart, tt, tt)
Waits-load m m' t t' (u ∷ us) (ou, small, apart, others, h) o low kept =
    let (o', apart') = kept u ou in
    (
      o',
      small,
      apart',
      All-append (Disjoint u) us (t ∷ []) others (apart, tt),
      Waits-load m m' t t' us h o low kept,
    )

pub load-IsBacked :
    (k : Cache ℕ) (ps : List IpPrefix) (st : BgState) (t : Tree ℕ)
    → IsAmple k
    → All IsPrefix ps
    → IsBacked st t
    → (st' : BgState) × (t' : Tree ℕ) × (lfw_load_bg_tree k true ps st ≡ some st') × IsBacked st' t'
load-IsBacked k ps st t ample valid (h, low, us, roots, waits) =
    let (st', t', run, h', v, ne, rcu, kept) = lfw_load_bg_tree-builds k ps st ample valid in
    (
      st',
      t',
      run,
      (
        h',
        omega (
          arith,
          height-depth t',
          ap depth v,
          loaded-depth ps (fork 0 leaf leaf) valid fork-depth,
        ),
        us ++ (t ∷ []),
        map-append root us (t ∷ []) ∙ cc (roots, h.rooted, rcu),
        Waits-load st.mem st'.mem t t' us waits h.owned low kept,
      ),
    )

-- The memory of a tree is freed.
pub Waits-Freed :
    (m m' : Mem ℕ) (t u : Tree ℕ) (us : List (Tree ℕ))
    → Waits m t us
    → Freed m u m'
    → All (Disjoint u) us
    → Waits m' t us
Waits-Freed m m' t u [] h freed apart = tt
Waits-Freed m m' t u (w ∷ us) (o, low, out, others, h) freed (apart, rest) = (
  Freed-Owns m m' u w o freed (Disjoint-sym u w apart),
  low,
  out,
  others,
  Waits-Freed m m' t u us h freed rest,
)

-- The first callback ends without a fault, and the rest still waits.
pub callback-IsBacked :
    (stack : ℕ) (st : BgState) (t : Tree ℕ) (p : Ptr) (ps : List Ptr)
    → 33 < stack
    → IsBacked st t
    → st.rcu ≡ p ∷ ps
    → (m : Mem ℕ) × (lfw_free_bg_tree stack p st.mem ≡ ok tt m)
      × IsBacked (record { root = st.root; mem = m; rcu = ps }) t
callback-IsBacked stack st t p ps enough (h, low, [], roots, waits) e = absurd (cc (roots, e))
callback-IsBacked stack st t p ps enough (h, low, u ∷ us, roots, (o, small, apart, others, waits))
      e =
    let same : root u ≡ p = cc (roots, e) in
    let rest : map root us ≡ ps = cc (roots, e) in
    let (m, freeing, freed) = free_tree-Freed stack st.mem u (omega (arith, small, enough)) o in
    (
      m,
      free-run stack p (root u) st.mem m (sym same) freeing,
      (
        record {
          rooted = h.rooted;
          owned = Freed-Owns st.mem m u t h.owned freed (Disjoint-sym u t apart);
        },
        low,
        us,
        rest,
        Waits-Freed st.mem m t u us waits freed others,
      ),
    )

-- All callbacks that are due, in their order
unfoldable pub run_bg_callbacks : ℕ → List Ptr → Cmd ℕ (Unit {0})
run_bg_callbacks stack [] = pure tt
run_bg_callbacks stack (p ∷ ps) = lfw_free_bg_tree stack p >>= λ _. run_bg_callbacks stack ps

pub callbacks-step :
    (stack : ℕ) (p : Ptr) (ps : List Ptr) (m m₁ m₂ : Mem ℕ)
    → lfw_free_bg_tree stack p m ≡ ok tt m₁
    → run_bg_callbacks stack ps m₁ ≡ ok tt m₂
    → run_bg_callbacks stack (p ∷ ps) m ≡ ok tt m₂
unfolding run_bg_callbacks
callbacks-step stack p ps m m₁ m₂ e e' = rw (e, ◌>>=◌) e'

pub run_bg_callbacks-ok :
    (stack : ℕ) (ps : List Ptr) (st : BgState) (t : Tree ℕ)
    → 33 < stack
    → IsBacked st t
    → st.rcu ≡ ps
    → (m : Mem ℕ) × (run_bg_callbacks stack ps st.mem ≡ ok tt m)
unfolding run_bg_callbacks
run_bg_callbacks-ok stack [] st t enough h e = (st.mem, refl)
run_bg_callbacks-ok stack (p ∷ ps) st t enough h e =
    let (m₁, run, h') = callback-IsBacked stack st t p ps enough h e in
    let (m₂, rest) =
      run_bg_callbacks-ok stack ps (record { root = st.root; mem = m₁; rcu = ps }) t enough h'
        refl in
    (m₂, callbacks-step stack p ps st.mem m₁ m₂ run rest)
