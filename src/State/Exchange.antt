-- ===== src/State/Exchange.antt =====
-- kernel/src/state.c: the flag as readers and writers share it, with the exchange of the state under
-- RCU. A step is one action of a reader or a writer, or the end of a grace period.
pub mod Served
pub mod Readers
use librefw.Base.{ℕ, ◌+◌, ◌<◌, ◌≡◌, Bool, true, false, Option, none, some, ◌==◌, if◌then◌else◌}
use librefw.Mem.{Ptr}
use librefw.Bogon.{BgState}
use librefw.Hcf.{HcfState}
use librefw.State.{Firewall, lfw_state_set_under_attack}

-- The memory at an address: no state, the state that is published, one that was replaced, or one that
-- was given to `kfree_rcu` at a time. A state has its flag.
pub data Cell : Type 0 where
  free : Cell
  published : Bool → Cell
  replaced : Bool → Cell
  waiting : (time : ℕ) → Bool → Cell

-- The flag that a read at an address gives
abbrev pub flag_of : Cell → Option Bool
flag_of free = none
flag_of (published v) = some v
flag_of (replaced v) = some v
flag_of (waiting time v) = some v

-- A call of `lfw_state_is_under_attack`: outside of its read-side section, inside of it since a time,
-- or with the pointer that it dereferenced, together with the flag that was published then.
pub data Reader : Type 0 where
  outside : Reader
  inside : (since : ℕ) → Reader
  holding : (since : ℕ) → Ptr → Option Bool → Reader

-- `time` counts the calls of `kfree_rcu`.
pub record Shared : Type 0 where
  pub cells : Ptr → Cell
  pub state : Ptr
  pub time : ℕ
  pub readers : ℕ → Reader

abbrev pub put_at : {A : Type 0} → ℕ → A → (ℕ → A) → ℕ → A
put_at i x f j = if j == i then x else f j

-- After `lfw_init_state` has published its state
abbrev pub first_shared : Ptr → Shared
first_shared p = record {
  cells = put_at p (published false) (λ a. free);
  state = p;
  time = 0;
  readers = λ r. outside;
}

-- A reader calls `rcu_read_lock`, loads the pointer with `rcu_dereference`, and calls
-- `rcu_read_unlock`.
unfoldable pub enter_section : ℕ → Shared → Shared
enter_section r s = record s { readers = put_at r (inside s.time) s.readers }

unfoldable pub load_state : ℕ → ℕ → Shared → Shared
load_state r since s = record s {
  readers = put_at r (holding since s.state (flag_of (s.cells s.state))) s.readers;
}

unfoldable pub leave_section : ℕ → Shared → Shared
leave_section r s = record s { readers = put_at r outside s.readers }

-- What is done under the lock: `new_state` is published with the value, and the old state is replaced.
unfoldable pub exchange_state : (new_state : Ptr) (new_value old_value : Bool) → Shared → Shared
exchange_state new_state new_value old_value s = record s {
  cells = put_at new_state (published new_value) (put_at s.state (replaced old_value) s.cells);
  state = new_state;
}

-- The call of `kfree_rcu`
unfoldable pub retire_state : Ptr → Bool → Shared → Shared
retire_state p v s = record s { cells = put_at p (waiting s.time v) s.cells; time = s.time + 1 }

-- `kfree` after the grace period
unfoldable pub free_retired : Ptr → Shared → Shared
free_retired p s = record s { cells = put_at p free s.cells }

-- A reader is not in a section that it entered up to a time.
abbrev pub HasLeft : (time : ℕ) → Reader → Type 0
HasLeft time outside = Unit
HasLeft time (inside since) = time < since
HasLeft time (holding since p seen) = time < since

-- The shared states that the calls lead to, with the state that the hooks should see. `kzalloc`
-- returns memory that is free; RCU ends a grace period when the readers that were inside at
-- `kfree_rcu` have left.
pub data Reach : Firewall → Shared → Type 0 where
  starts :
      (p : Ptr) (bogon : BgState) (hcf : HcfState)
      → Reach (record { under_attack = false; bogon = bogon; hcf = hcf }) (first_shared p)
  refuses :
      (fw : Firewall) (s : Shared) (new_value : Bool)
      → Reach fw s
      → Reach (lfw_state_set_under_attack false new_value fw).0 s
  exchanges :
      (fw : Firewall) (s : Shared) (new_state : Ptr) (new_value old_value : Bool)
      → Reach fw s
      → s.cells new_state ≡ free
      → s.cells s.state ≡ published old_value
      → Reach
          (lfw_state_set_under_attack true new_value fw).0
          (exchange_state new_state new_value old_value s)
  retires :
      (fw : Firewall) (s : Shared) (p : Ptr) (v : Bool)
      → Reach fw s
      → s.cells p ≡ replaced v
      → Reach fw (retire_state p v s)
  reclaims :
      (fw : Firewall) (s : Shared) (p : Ptr) (time : ℕ) (v : Bool)
      → Reach fw s
      → s.cells p ≡ waiting time v
      → ((r : ℕ) → HasLeft time (s.readers r))
      → Reach fw (free_retired p s)
  enters :
      (fw : Firewall) (s : Shared) (r : ℕ)
      → Reach fw s
      → s.readers r ≡ outside
      → Reach fw (enter_section r s)
  dereferences :
      (fw : Firewall) (s : Shared) (r since : ℕ)
      → Reach fw s
      → s.readers r ≡ inside since
      → Reach fw (load_state r since s)
  leaves : (fw : Firewall) (s : Shared) (r : ℕ) → Reach fw s → Reach fw (leave_section r s)
