-- ===== src/Mem.antt =====
-- Slab memory of the two tries (`struct hcf_node` of kernel/include/hcf_internal.h, `struct
-- lfw_bg_node` of kernel/include/bogon.h): the nodes behind pointers, `kmem_cache_zalloc` and
-- `kmem_cache_free`. Both structs are two child pointers and a payload, here the parameter `D`.
pub mod Tree
pub mod Steps
pub mod Grow
pub mod Share
pub mod Free
pub mod Build
use librefw.Base.{
  ℕ, ◌+◌, ◌≡◌, ◌≢◌, Bool, true, false, Option, none, some, List, [], ◌∷◌, ◌==◌, if◌then◌else◌,
}
use librefw.Trie.{Bits}

abbrev pub Ptr : Type 0
Ptr = ℕ

abbrev pub null : Ptr
null = 0

pub record Node (D : Type 0) : Type 0 where
  pub zero_child : Ptr
  pub one_child : Ptr
  pub info : D

abbrev pub node_of : {D : Type 0} → Ptr → Ptr → D → Node D
node_of l r d = record { zero_child = l; one_child = r; info = d }

-- A memory is its history, latest first: a node written at an address, or the address freed.
abbrev pub Mem : Type 0 → Type 0
Mem D = List (Ptr × Option (Node D))

-- A fault is a dereference of NULL or of a freed address, or another undefined behaviour.
pub data Run (D A : Type 0) : Type 0 where
  ok : A → Mem D → Run D A
  fault : Run D A

abbrev pub Cmd : Type 0 → Type 0 → Type 0
Cmd D A = Mem D → Run D A

module _ {D : Type 0} where
  abbrev pub pure : {A : Type 0} → A → Cmd D A
  pure a m = ok a m

  infixl 5 ◌>>=◌ ◌>>◌
  abbrev pub ◌>>=◌ : {A B : Type 0} → Cmd D A → (A → Cmd D B) → Cmd D B
  ◌>>=◌ c f m = elim (c m) [ ok a m' ↦ f a m' | fault ↦ fault ]

  pub >>=-ok :
      {A B : Type 0} (c : Cmd D A) (f : A → Cmd D B) {m m' : Mem D} {a : A}
      → c m ≡ ok a m'
      → (c >>= f) m ≡ f a m'
  >>=-ok c f e = rw (e, ◌>>=◌)

  abbrev pub ◌>>◌ : {B : Type 0} → Cmd D (Unit {0}) → Cmd D B → Cmd D B
  c >> k = c >>= λ _. k

  -- What an address holds.
  abbrev pub read : Mem D → Ptr → Option (Node D)
  read [] a = none
  read ((p, c) ∷ m) a = if p == a then c else read m a

  abbrev pub write : Mem D → Ptr → Option (Node D) → Mem D
  write m p c = (p, c) ∷ m

  abbrev pub deref : Option (Node D) → Mem D → Run D (Node D)
  deref none m = fault
  deref (some c) m = ok c m

  -- `*p`
  unfoldable pub load : Ptr → Cmd D (Node D)
  load p m = if p == null then fault else deref (read m p) m

  -- `*p = c`
  unfoldable pub store : Ptr → Node D → Cmd D (Unit {0})
  store p c = load p >>= λ _ m. ok tt (write m p (some c))

  -- `kmem_cache_free`: a second call for one address is a fault.
  unfoldable pub cache_free : Ptr → Cmd D (Unit {0})
  cache_free p = load p >>= λ _ m. ok tt (write m p none)

  -- `p->child[bit]`
  abbrev pub child : Node D → Bool → Ptr
  child c false = c.zero_child
  child c true = c.one_child

  abbrev pub with_child : Node D → Bool → Ptr → Node D
  with_child c false q = record c { zero_child = q }
  with_child c true q = record c { one_child = q }

  unfoldable pub get_child : Ptr → Bool → Cmd D Ptr
  get_child p bit = do c ← load p; pure (child c bit)

  -- `p->child[bit] = q`
  unfoldable pub set_child : Ptr → Bool → Ptr → Cmd D (Unit {0})
  set_child p bit q = do c ← load p; store p (with_child c bit q)

  -- The payload's fields are assigned.
  unfoldable pub set_info : Ptr → D → Cmd D (Unit {0})
  set_info p d = do c ← load p; store p (record c { info = d })

-- A slab cache, which the kernel implements: NULL or an address that is not in use, and the bytes
-- there are zero.
pub record Cache (D : Type 0) : Type 0 where
  pub zeroed : D
  pub next : Mem D → Ptr
  pub fresh : (m : Mem D) → next m ≢ null → read m (next m) ≡ none

-- No allocation fails.
abbrev pub IsAmple : {D : Type 0} → Cache D → Type 0
IsAmple {D} k = (m : Mem D) → k.next m ≢ null

-- `kmem_cache_zalloc`
unfoldable pub zalloc : {D : Type 0} → Cache D → Cmd D Ptr
zalloc k m =
    if k.next m == null
    then ok null m
    else ok (k.next m) (write m (k.next m) (some (node_of null null k.zeroed)))

-- A node from the cache, with NULL children and the payload `z`; NULL if there is none.
unfoldable pub create_node : {D : Type 0} → Cache D → D → Cmd D Ptr
create_node k z = do
  node ← zalloc k
  if node == null then pure null else do store node (node_of null null z); pure node

-- The loops that insert into a private tree in place: walk along a path from `runner`, create the
-- nodes that are missing, and count them.
unfoldable pub grow : {D : Type 0} → Cache D → D → Bits → Ptr → ℕ → Cmd D (Ptr × ℕ)
grow k z [] runner n = pure (runner, n)
grow k z (b ∷ bs) runner n = do
  c ← load runner
  if child c b == null
      then (do q ← create_node k z; set_child runner b q; grow k z bs q (n + 1))
      else grow k z bs (child c b) n
