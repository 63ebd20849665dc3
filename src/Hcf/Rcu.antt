-- ===== src/Hcf/Rcu.antt =====
-- Nodes that wait for the end of a grace period, and their callbacks.
use librefw.Base.{
  ◌≡◌, ◌≢◌, refl, ap, ◌∙◌, inl, inr, Bool, true, false, ◌||◌, none, List, [], ◌∷◌, ◌++◌, arith,
  ◌==◌, ==_iff, Bool-cases, Option-cases, if◌then◌else◌, All,
}
use librefw.Mem.{Ptr, null, Mem, ok, ◌>>=◌, read, write}
use librefw.Mem.Tree.{Tree, nil, node, has, Owns, below, below-has, has_s, has_here}
use librefw.Mem.Steps.{Owns-frame}
use librefw.Mem.Grow.{cache_free-cell}
use librefw.Trie.{Bits}
use librefw.Hcf.{HcfInfo, hcf_free_node_rcu, run_callbacks}

abbrev pub elem : Ptr → List Ptr → Bool
elem a [] = false
elem a (p ∷ ps) = a == p || elem a ps

pub All-elem {ℓ} :
    (P : Ptr → Type ℓ) (ps : List Ptr) → ((a : Ptr) → elem a ps ≡ true → P a) → All P ps
All-elem P [] f = tt
All-elem P (p ∷ ps) f = (f p (ground arith), All-elem P ps (λ a i. f a (ground (arith, i))))

-- The addresses are in use, are not in the tree, and each stands once in the list.
abbrev pub Pending : Mem HcfInfo → Tree HcfInfo → List Ptr → Type 0
Pending m t [] = Unit
Pending m t (p ∷ ps) =
    (p ≢ null) × (read m p ≢ none) × (has t p ≡ false) × (elem p ps ≡ false) × Pending m t ps

elem-append : (a : Ptr) (xs ys : List Ptr) → elem a (xs ++ ys) ≡ (elem a xs || elem a ys)
elem-append a [] ys = refl
elem-append a (x ∷ xs) ys = ground (arith, elem-append a xs ys)

pub Pending-append :
    (m : Mem HcfInfo) (t : Tree HcfInfo) (xs ys : List Ptr)
    → Pending m t xs
    → Pending m t ys
    → All (λ a. elem a ys ≡ false) xs
    → Pending m t (xs ++ ys)
Pending-append m t [] ys h k apart = k
Pending-append m t (x ∷ xs) ys (ne, used, out, once, h) k (not_y, apart) =
    (ne, used, out, ground (arith, elem-append x xs ys), Pending-append m t xs ys h k apart)

-- Where the addresses keep their nodes, and the new tree has none of them, they stay pending.
pub Pending-frame :
    (m m' : Mem HcfInfo) (t t' : Tree HcfInfo) (ps : List Ptr)
    → Pending m t ps
    → ((a : Ptr) → read m a ≢ none → has t a ≡ false → (read m' a ≢ none) × (has t' a ≡ false))
    → Pending m' t' ps
Pending-frame m m' t t' [] h same = tt
Pending-frame m m' t t' (p ∷ ps) (ne, used, out, once, h) same =
    let (used', out') = same p used out in
    (ne, used', out', once, Pending-frame m m' t t' ps h same)

-- The callbacks free the pending nodes, without a fault, and nothing else changes.
pub run_callbacks-ok :
    (m : Mem HcfInfo) (t : Tree HcfInfo) (ps : List Ptr)
    → Pending m t ps
    → (m' : Mem HcfInfo) × (run_callbacks ps m ≡ ok tt m')
      × ((a : Ptr) → read m' a ≡ (if elem a ps then none else read m a))
unfolding run_callbacks hcf_free_node_rcu
run_callbacks-ok m t [] h = (m, refl, λ a. refl)
run_callbacks-ok m t (p ∷ ps) (ne, used, out, once, h) = elim (Option-cases (read m p)) [
  | inl gone ↦ absurd (used gone)
  | inr (c, cell) ↦
      let m₁ = write m p none in
      let (m', run, reads) = run_callbacks-ok m₁ t ps (pending_after ps once h) in
      (m', rw (cache_free-cell p ne cell, ◌>>=◌) run, λ a. reads a ∙ ground (arith))
]
  where
    pending_after :
        (ps : List Ptr) → elem p ps ≡ false → Pending m t ps → Pending (write m p none) t ps
    pending_after [] e k = tt
    pending_after (q ∷ qs) e (ne', used', out', once', k) =
        (ne', ground arith, out', once', pending_after qs (ground arith) k)

not_elem :
    (t : Tree HcfInfo) (a : Ptr) (qs : List Ptr)
    → has t a ≡ false
    → All (λ p. has t p ≡ true) qs
    → elem a qs ≡ false
not_elem t a [] out i = refl
not_elem t a (q ∷ qs) out i = elim (Bool-cases (a == q)) [
  | inl e ↦ cc (ap (has t) ((==_iff a q).0 e), i.0)
  | inr ne ↦ rw ne (not_elem t a qs out i.1)
]

-- A path does not come back to the root of a subtree.
pub once_below :
    (bs : Bits) (m : Mem HcfInfo) (q : Ptr) (e : HcfInfo) (l r : Tree HcfInfo)
    → Owns m (node q e l r)
    → elem q (below bs (node q e l r)) ≡ false
unfolding below
once_below [] m q e l r o = refl
once_below (false ∷ bs) m q e nil r o = refl
once_below (true ∷ bs) m q e l nil o = refl
once_below (false ∷ bs) m q e (node q' e' l' r') r o =
    let l : Tree HcfInfo = node q' e' l' r' in
    not_elem l q (q' ∷ below bs l) o.2 (has_here false q' e' l' r', below-has bs l)
once_below (true ∷ bs) m q e l (node q' e' l' r') o =
    let r : Tree HcfInfo = node q' e' l' r' in
    not_elem r q (q' ∷ below bs r) o.3 (has_here false q' e' l' r', below-has bs r)

-- The pending nodes after the work item: those from before, and the path of the old tree.
pub Pending-register :
    (m m' : Mem HcfInfo) (t t' : Tree HcfInfo) (ps qs : List Ptr)
    → Owns m t
    → Pending m t ps
    → Pending m' t' qs
    → ((a : Ptr) → read m a ≢ none → (read m' a ≢ none) × (has t' a ≡ true → has t a ≡ true))
    → All (λ a. has t a ≡ true) qs
    → Pending m' t' (ps ++ qs)
Pending-register m m' t t' ps qs o h k keep in_t =
    Pending-append m' t' ps qs
      (Pending-frame m m' t t' ps h λ a used out. (
        (keep a used).0,
        elim (Bool-cases (has t' a)) [ inl i ↦ cc ((keep a used).1 i) | inr o' ↦ o' ],
      ))
      k (apart ps h)
  where
    apart : (ps : List Ptr) → Pending m t ps → All (λ a. elem a qs ≡ false) ps
    apart [] h = tt
    apart (p ∷ ps) h = (not_elem t p qs h.2 in_t, apart ps h.4)

-- The nodes on a path, where the new tree has none of them, can wait for their callbacks.
pub below-distinct :
    (bs : Bits) (m m' : Mem HcfInfo) (t t' : Tree HcfInfo)
    → Owns m t
    → ((a : Ptr) → has t a ≡ true → read m' a ≢ none)
    → All (λ a. has t' a ≡ false) (below bs t)
    → Pending m' t' (below bs t)
unfolding below
below-distinct [] m m' t t' o used out = tt
below-distinct (b ∷ bs) m m' nil t' o used out = tt
below-distinct (false ∷ bs) m m' (node p d nil r) t' o used out = tt
below-distinct (true ∷ bs) m m' (node p d l nil) t' o used out = tt
below-distinct (false ∷ bs) m m' (node p d (node q e l' r') r) t' o used out =
    let l : Tree HcfInfo = node q e l' r' in
    (
      o.5.0,
      used q (has_s false p d l r q (has_here false q e l' r')),
      out.0,
      once_below bs m q e l' r' o.5,
      below-distinct bs m m' l t' o.5 (λ a h. used a (has_s false p d l r a h)) out.1,
    )
below-distinct (true ∷ bs) m m' (node p d l (node q e l' r')) t' o used out =
    let r : Tree HcfInfo = node q e l' r' in
    (
      o.6.0,
      used q (has_s true p d r l q (has_here false q e l' r')),
      out.0,
      once_below bs m q e l' r' o.6,
      below-distinct bs m m' r t' o.6 (λ a h. used a (has_s true p d r l a h)) out.1,
    )

-- No node of the tree waits to be freed.
not-Pending :
    (m : Mem HcfInfo) (t : Tree HcfInfo) (ps : List Ptr) (a : Ptr)
    → Pending m t ps
    → has t a ≡ true
    → elem a ps ≡ false
not-Pending m t [] a h i = refl
not-Pending m t (p ∷ ps) a h i = elim (Bool-cases (a == p)) [
  | inl e ↦ cc (ap (has t) ((==_iff a p).0 e), h.2)
  | inr ne ↦ rw ne (not-Pending m t ps a h.4 i)
]

-- A memory in which just the pending nodes were freed still holds the tree.
pub Owns-freed :
    (m m' : Mem HcfInfo) (t : Tree HcfInfo) (ps : List Ptr)
    → Owns m t
    → Pending m t ps
    → ((a : Ptr) → read m' a ≡ (if elem a ps then none else read m a))
    → Owns m' t
Owns-freed m m' t ps o h reads =
    Owns-frame m m' t o
      λ a i. reads a ∙ ap (λ b. if b then none else read m a) (not-Pending m t ps a h i)
