-- ===== src/Bogon/Long.antt =====
-- The load of a list with a prefix of 32 bits or more, which the code does not check.
use librefw.Base.{
  ℕ, ◌≤◌, ◌≡◌, refl, inl, inr, Bool, true, false, ◌||◌, none, List, [], ◌∷◌, arith, Bool-cases, leb,
  if◌then◌else◌,
}
use librefw.Mem.{Ptr, Mem, fault, Cmd, ◌>>=◌, set_info, Cache, IsAmple}
use librefw.Word.{get_unaligned_be32}
use librefw.Bogon.{IpPrefix, BgState, load_walk, load_prefix, load_prefixes, lfw_load_bg_tree}
use librefw.Mem.Grow.{created, not_null, Run-cases}
use librefw.Bogon.Load.{lfw_create_node-ok}

-- A command that ends in a fault whatever the memory is
abbrev Faults : {A : Type 0} → Cmd ℕ A → Type 0
Faults c = (m : Mem ℕ) → c m ≡ fault

-- A fault comes before the rest, or in it.
rest-Faults :
    {A B : Type 0} (c : Cmd ℕ A) (f : A → Cmd ℕ B) → ((a : A) → Faults (f a)) → Faults (c >>= f)
rest-Faults c f h m = elim (Run-cases (c m)) [
  | inl (a, m', e) ↦ rw (e, ◌>>=◌) (h a m')
  | inr e ↦ rw (e, ◌>>=◌) refl
]

first-Faults : {A B : Type 0} (c : Cmd ℕ A) (f : A → Cmd ℕ B) → Faults c → Faults (c >>= f)
first-Faults c f h m = rw (h m, ◌>>=◌) refl

if-Faults :
    {A : Type 0} (b : Bool) (c d : Cmd ℕ A) → Faults c → Faults d → Faults (if b then c else d)
if-Faults true c d h h' = h
if-Faults false c d h h' = h'

load_prefix-Faults :
    (k : Cache ℕ) (p : IpPrefix) (root : Ptr) → 32 ≤ p.ip_prefix_len → Faults (load_prefix k p root)
unfolding load_prefix
load_prefix-Faults k p root long =
    let no_room : leb 32 p.ip_prefix_len ≡ true = ground (arith, long) in
    rest-Faults (load_walk k (get_unaligned_be32 p.ip_prefix) 0 p.ip_prefix_len root 0) _
      (λ r. rest-Faults (set_info r.0 1) _ (λ _ m. rw no_room refl))

-- Has a prefix of the list 32 bits or more?
unfoldable pub has_long : List IpPrefix → Bool
has_long [] = false
has_long (p ∷ ps) = leb 32 p.ip_prefix_len || has_long ps

load_prefixes-Faults :
    (k : Cache ℕ) (ps : List IpPrefix) (root : Ptr)
    → has_long ps ≡ true
    → Faults (load_prefixes k ps root)
unfolding load_prefixes has_long
load_prefixes-Faults k [] root h = cc
load_prefixes-Faults k (p ∷ ps) root h = elim (Bool-cases (leb 32 p.ip_prefix_len)) [
  | inl long ↦
      first-Faults (load_prefix k p root) _ (load_prefix-Faults k p root (ground (arith, long)))
  | inr short ↦
      rest-Faults (load_prefix k p root) _
        (λ _. load_prefixes-Faults k ps root (ground (arith, h, short)))
]

pub load-none :
    (k : Cache ℕ) (ps : List IpPrefix) (st : BgState)
    → IsAmple k
    → has_long ps ≡ true
    → lfw_load_bg_tree k true ps st ≡ none
unfolding lfw_load_bg_tree
load-none k ps st ample h = rw (
  lfw_create_node-ok k st.mem ample,
  not_null (k.next st.mem) (ample st.mem),
  load_prefixes-Faults k ps (k.next st.mem) h (created k 0 st.mem),
  lfw_load_bg_tree,
)
