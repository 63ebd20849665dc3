-- ===== src/Client/Hcf/Kept.antt =====
-- src/nl/hcf.cpp with sql/: the table of learnt addresses, from the messages of the kernel module to
-- the lookups after the table was sent back. The database's statement is a parameter.
use mathlib.Core.Path.{subst}
use librefw.Base.{
  ℕ, ◌/◌, ◌^◌, ◌<◌, ◌≡◌, refl, sym, ap, ◌∙◌, inl, inr, Bool, true, false, Option, none, some, List,
  [], ◌∷◌, ◌++◌, All, ◌==◌, ==_iff, Bool-cases, if◌then◌else◌, arith,
}
use librefw.Base.Int.{ℤ, pos}
use librefw.Mem.{Cache, ok, IsAmple}
use librefw.Mem.Tree.{Tree}
use librefw.Mem.Free.{height}
use librefw.Trie.{Trie, leaf, fork, find, put}
use librefw.Word.{bits}
use librefw.Netlink.{nests}
use librefw.Netlink.Buffer.{Writer, IsLawful}
use librefw.Hcf.{HcfInfo, blank, HcfState, verdict, hcf_lookup_tree}
use librefw.Hcf.Register.{IsHcf}
use librefw.Hcf.Lookup.{find-put_network, hcf_lookup_tree-find}
use librefw.Hcf.History.{hcf_register_ip_history}
use librefw.Client.{Socket, sent}
use librefw.Client.Hcf.{Row, set_ip_history}
use librefw.Client.Hcf.Restored.{IsRow, restored, set_ip_history-restored}

-- The row of an address, the first if there were several
unfoldable pub row_of : ℕ → List Row → Option Row
row_of ip [] = none
row_of ip (r ∷ rows) = let rest = row_of ip rows in if ip == r.ip_addr then some r else rest

abbrev pub is_row : Option Row → Bool
is_row none = false
is_row (some r) = true

-- `insert_or_ignore` into a table with `UNIQUE(ip_addr)`
pub record IsUnique (insert_or_ignore : Row → List Row → List Row) : Type 0 where
  pub ignored :
      (r : Row) (table : List Row)
      → is_row (row_of r.ip_addr table) ≡ true
      → insert_or_ignore r table ≡ table
  pub inserted :
      (r : Row) (table : List Row)
      → is_row (row_of r.ip_addr table) ≡ false
      → insert_or_ignore r table ≡ table ++ (r ∷ [])

-- The rows of messages that arrive one after the other
unfoldable pub store_rows : (Row → List Row → List Row) → List Row → List Row → List Row
store_rows insert_or_ignore table [] = table
store_rows insert_or_ignore table (r ∷ rows) =
    store_rows insert_or_ignore (insert_or_ignore r table) rows

-- The TTL and hop count of the last row from an address's /24 network, `o` if there is none
unfoldable pub latest : ℕ → Option HcfInfo → List Row → Option HcfInfo
latest ip o [] = o
latest ip o (r ∷ rows) =
    latest ip
      (if ip / 2 ^ 8 == r.ip_addr / 2 ^ 8 then some (record { hc = r.hc; ttl = r.ttl }) else o) rows

find-restored :
    (ip : ℕ) (rows : List Row) (t : Trie HcfInfo)
    → ip < 2 ^ 32
    → All IsRow rows
    → find (restored rows t) (bits ip 8 24) ≡ latest ip (find t (bits ip 8 24)) rows
unfolding restored latest
find-restored ip [] t small h = refl
find-restored ip (r ∷ rows) t small h =
    find-restored ip rows (put blank (bits r.ip_addr 8 24) (record { hc = r.hc; ttl = r.ttl }) t)
      small h.1
    ∙ ap (λ o. latest ip o rows)
        (find-put_network ip r.ip_addr (record { hc = r.hc; ttl = r.ttl }) t small h.0.0)

find-blank : (ip : ℕ) → find (fork blank leaf leaf) (bits ip 8 24) ≡ none
unfolding find bits
find-blank ip = ground arith

-- Either option, the first if it is given
abbrev first_given : Option Row → Option Row → Option Row
first_given none o = o
first_given (some r) o = some r

row_of-append :
    (ip : ℕ) (xs ys : List Row) → row_of ip (xs ++ ys) ≡ first_given (row_of ip xs) (row_of ip ys)
unfolding row_of
row_of-append ip [] ys = refl
row_of-append ip (x ∷ xs) ys = elim (Bool-cases (ip == x.ip_addr)) [
  | inl e ↦ rw (e, row_of) refl
  | inr e ↦ rw (e, row_of) (row_of-append ip xs ys)
]

given-none : (o : Option Row) → first_given o none ≡ o
given-none none = refl
given-none (some r) = refl

given_assoc :
    (o o' o'' : Option Row)
    → first_given (first_given o o') o'' ≡ first_given o (first_given o' o'')
given_assoc none o' o'' = refl
given_assoc (some r) o' o'' = refl

given-row : (o o' : Option Row) → is_row o ≡ true → first_given o o' ≡ o
given-row none o' h = cc
given-row (some r) o' h = refl

-- Another address
row_of-other : (ip : ℕ) (r : Row) → (ip == r.ip_addr) ≡ false → row_of ip (r ∷ []) ≡ none
unfolding row_of
row_of-other ip r e = rw e refl

module _ (insert : Row → List Row → List Row) (law : IsUnique insert) where
  insert-given :
      (ip : ℕ) (r : Row) (table : List Row)
      → row_of ip (insert r table) ≡ first_given (row_of ip table) (row_of ip (r ∷ []))
  insert-given ip r table = elim (Bool-cases (is_row (row_of r.ip_addr table))) [
    | inr new ↦ ap (row_of ip) (law.inserted r table new) ∙ row_of-append ip table (r ∷ [])
    | inl old ↦ ap (row_of ip) (law.ignored r table old) ∙ elim (Bool-cases (ip == r.ip_addr)) [
      | inl e ↦
          let same : ip ≡ r.ip_addr = (==_iff ip r.ip_addr).0 e in
          sym (
            given-row (row_of ip table) (row_of ip (r ∷ []))
              (ap (λ a. is_row (row_of a table)) same ∙ old))
      | inr e ↦
          sym (
            ap (first_given (row_of ip table)) (row_of-other ip r e) ∙ given-none (row_of ip table))
    ]
  ]

  store-given :
      (ip : ℕ) (table heard : List Row)
      → row_of ip (store_rows insert table heard) ≡ first_given (row_of ip table) (row_of ip heard)
  unfolding store_rows row_of
  store-given ip table [] = sym (given-none (row_of ip table))
  store-given ip table (r ∷ heard) =
      store-given ip (insert r table) heard
      ∙ ap (λ o. first_given o (row_of ip heard)) (insert-given ip r table)
      ∙ given_assoc (row_of ip table) (row_of ip (r ∷ [])) (row_of ip heard)
      ∙ ap (first_given (row_of ip table)) (sym (row_of-append ip (r ∷ []) heard))

  insert-IsRow :
      (r : Row) (table : List Row) → IsRow r → All IsRow table → All IsRow (insert r table)
  insert-IsRow r table h hs = elim (Bool-cases (is_row (row_of r.ip_addr table))) [
    | inl old ↦ subst (All IsRow) (sym (law.ignored r table old)) hs
    | inr new ↦ subst (All IsRow) (sym (law.inserted r table new)) (added table hs)
  ]
    where
      added : (table : List Row) → All IsRow table → All IsRow (table ++ (r ∷ []))
      added [] k = (h, tt)
      added (x ∷ xs) k = (k.0, added xs k.1)

  store-IsRow :
      (table heard : List Row)
      → All IsRow table
      → All IsRow heard
      → All IsRow (store_rows insert table heard)
  unfolding store_rows
  store-IsRow table [] h h' = h
  store-IsRow table (r ∷ heard) h h' =
      store-IsRow (insert r table) heard (insert-IsRow r table h'.0 h) h'.1

-- The table that is made of the rows heard has for each address the row that was heard first, and
-- when it has been sent back, a packet is judged by the last row of the table from its /24 network:
-- the kernel's handler, with memory and fuel above the height of its tree, answers 0, and the lookup
-- gives the verdict on that row. The database keeps the law `IsUnique`, the netlink calls keep the laws
-- of `IsLawful` and `Socket`.
pub set_ip_history-judged :
    (W : Writer) (sock : Socket W) (insert_or_ignore : Row → List Row → List Row) (heard : List Row)
    (b : W.Buf) (ret : ℤ) (k : Cache HcfInfo) (fuel : ℕ) (st : HcfState) (t : Tree HcfInfo)
    (ip ttl : ℕ)
    → IsUnique insert_or_ignore
    → IsLawful W
    → All IsRow heard
    → set_ip_history W sock (store_rows insert_or_ignore [] heard) ≡ sent b ret
    → IsAmple k
    → IsHcf st t
    → height t < fuel
    → ip < 2 ^ 32
    → (st' : HcfState) × (row_of ip (store_rows insert_or_ignore [] heard) ≡ row_of ip heard)
      × (hcf_register_ip_history k fuel (nests (W.draft b).complete) st ≡ some (st', pos 0))
      × (hcf_lookup_tree ip ttl st'
          ≡ ok (verdict ttl (latest ip none (store_rows insert_or_ignore [] heard))) st'.mem)
unfolding row_of
set_ip_history-judged W sock insert_or_ignore heard b ret k fuel st t ip ttl uni law valid run ample
      h enough small =
    let rows = store_rows insert_or_ignore [] heard in
    let valid' = store-IsRow insert_or_ignore uni [] heard tt valid in
    let (st', t', handled, h', v) =
      set_ip_history-restored W sock rows b ret k fuel st t law valid' run ample h enough in
    (
      st',
      store-given insert_or_ignore uni ip [] heard,
      handled,
      hcf_lookup_tree-find ip ttl st' t' h'
          ∙ ap (λ o. ok (verdict ttl o) st'.mem)
              (ap (λ x. find x (bits ip 8 24)) v
                ∙ find-restored ip rows (fork blank leaf leaf) small valid'
                ∙ ap (λ o. latest ip o rows) (find-blank ip)),
    )
