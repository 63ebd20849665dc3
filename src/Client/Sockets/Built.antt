-- ===== src/Client/Sockets/Built.antt =====
-- What the constructors of the sockets promise: an object with valid numbers, or an exception that
-- carries a positive code and releases what was allocated.
use mathlib.Core.Path.{subst}
use librefw.Base.{
  ℕ, ◌≡◌, refl, sym, inl, inr, Bool, true, false, Option, none, some, Bool-cases, Option-cases,
}
use librefw.Base.Int.{ℤ, pos, negsuc, is_neg, is_pos}
use librefw.Netlink.Buffer.{Writer}
use librefw.Client.Text.{Text}
use librefw.Client.Sockets.{
  Libnl, What, could_not_resolve_group, could_not_subscribe, Constructed, built, throws, negated,
  checked, NetlinkBase, NetlinkMulticastBase, netlink_base, join_group, netlink_multicast_base,
}

abbrev pub is_some : {A : Type 0} → Option A → Bool
is_some none = false
is_some (some a) = true

-- `P` of what was built, or a positive code and the release of what was allocated
abbrev pub IsSound : {S A : Type 0} → (allocated : Bool) → (A → Type 0) → Constructed S A → Type 0
IsSound allocated P (built a) = P a
IsSound allocated P (throws e freed) = (is_pos e.code ≡ true) × (is_some freed ≡ allocated)

negated-is_pos : (v : ℤ) → is_neg v ≡ true → is_pos (negated v) ≡ true
negated-is_pos (pos n) h = cc
negated-is_pos (negsuc n) h = refl

checked-refused :
    {S A : Type 0} (what : What) (sock : S) (ret : ℤ) (go : S → ℤ → Constructed S A)
    → is_neg ret ≡ true
    → checked what (sock, ret) go ≡ throws (record { code = negated ret; what = what }) (some sock)
unfolding checked
checked-refused what sock ret go e = rw (e, checked) refl

checked-goes :
    {S A : Type 0} (what : What) (sock : S) (ret : ℤ) (go : S → ℤ → Constructed S A)
    → is_neg ret ≡ false
    → checked what (sock, ret) go ≡ go sock ret
unfolding checked
checked-goes what sock ret go e = rw (e, checked) refl

-- A check keeps a construction sound if what follows it is, for codes that are not negative.
checked-IsSound :
    {S A : Type 0} (P : A → Type 0) (what : What) (r : S × ℤ) (go : S → ℤ → Constructed S A)
    → ((sock : S) (ret : ℤ) → is_neg ret ≡ false → IsSound true P (go sock ret))
    → IsSound true P (checked what r go)
checked-IsSound P what (sock, ret) go h = elim (Bool-cases (is_neg ret)) [
  | inl bad ↦
      subst (IsSound true P) (sym (checked-refused what sock ret go bad))
        (negated-is_pos ret bad, refl)
  | inr ok ↦ subst (IsSound true P) (sym (checked-goes what sock ret go ok)) (h sock ret ok)
]

module _ (W : Writer) (L : Libnl W) where
  abbrev pub HasFamily : NetlinkBase L.Sock → Type 0
  HasFamily b = is_neg b.family_id ≡ false

  -- The family and the group were resolved.
  abbrev pub HasGroup : NetlinkMulticastBase L.Sock → Type 0
  HasGroup m = HasFamily m.base × (is_neg m.group_id ≡ false)

  -- Also the socket was allocated.
  abbrev OnSocket : NetlinkBase L.Sock → Type 0
  OnSocket b = HasFamily b × (is_some L.nl_socket_alloc ≡ true)

  module _ (name : Text) (bufsize : ℕ) where
    base-none :
        L.nl_socket_alloc ≡ none
        → IsSound (is_some L.nl_socket_alloc) OnSocket (netlink_base W L name bufsize)
    unfolding netlink_base
    base-none e = rw (e, netlink_base) (refl, refl)

    base-some :
        (sock : L.Sock)
        → L.nl_socket_alloc ≡ some sock
        → IsSound (is_some L.nl_socket_alloc) OnSocket (netlink_base W L name bufsize)
    unfolding netlink_base
    base-some sock e =
        rw (e, netlink_base)
          (checked-IsSound _ _ _ _ (λ sock' _ _.
            checked-IsSound _ _ _ _
              (λ sock'' family ok. checked-IsSound _ _ _ _ (λ _ _ _. (ok, refl)))))

    base-IsSound : IsSound (is_some L.nl_socket_alloc) OnSocket (netlink_base W L name bufsize)
    base-IsSound = elim (Option-cases L.nl_socket_alloc) [
      | inl e ↦ base-none e
      | inr (sock, e) ↦ base-some sock e
    ]

    without_socket :
        (c : Constructed L.Sock (NetlinkBase L.Sock))
        → IsSound (is_some L.nl_socket_alloc) OnSocket c
        → IsSound (is_some L.nl_socket_alloc) HasFamily c
    without_socket (built b) h = h.0
    without_socket (throws e freed) h = h

    -- The constructor of the base: a family that is not negative, or an exception with a positive
    -- code and the release of the socket if one was allocated
    pub netlink_base-IsSound :
        IsSound (is_some L.nl_socket_alloc) HasFamily (netlink_base W L name bufsize)
    netlink_base-IsSound = without_socket (netlink_base W L name bufsize) base-IsSound

  join_group-IsSound :
      (group : Text) (b : NetlinkBase L.Sock)
      → HasFamily b
      → IsSound true HasGroup (join_group W L group b)
  unfolding join_group
  join_group-IsSound group b h =
      checked-IsSound HasGroup could_not_resolve_group _ _
        (λ sock id ok. checked-IsSound HasGroup could_not_subscribe _ _ (λ _ _ _. (h, ok)))

  module _ (name group : Text) (bufsize : ℕ) where
    after-base :
        (c : Constructed L.Sock (NetlinkBase L.Sock))
        → netlink_base W L name bufsize ≡ c
        → IsSound (is_some L.nl_socket_alloc) OnSocket c
        → IsSound
            (is_some L.nl_socket_alloc)
            HasGroup
            (netlink_multicast_base W L name group bufsize)
    unfolding netlink_multicast_base
    after-base (throws e freed) run h = rw (run, netlink_multicast_base) h
    after-base (built b) run h =
        rw (run, netlink_multicast_base, h.1) (join_group-IsSound group b h.0)

    -- The constructor of a listener's socket leaves an object whose family and group numbers are not
    -- negative, or throws an exception with a positive code; then the destructor of `sock` has released
    -- a socket exactly if one was allocated.
    pub netlink_multicast_base-IsSound :
        IsSound (is_some L.nl_socket_alloc) HasGroup (netlink_multicast_base W L name group bufsize)
    netlink_multicast_base-IsSound =
        after-base (netlink_base W L name bufsize) refl (base-IsSound name bufsize)
