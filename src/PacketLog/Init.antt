-- ===== src/PacketLog/Init.antt =====
-- `init_pkt_filter_log_state` and `free_pkt_filter_log_state`.
pub mod Retired
use mathlib.Core.Option
use librefw.Base.{
  ℕ, ◌≡◌, refl, sym, ap, ◌∙◌, ◌⊎◌, inl, inr, Bool, true, false, ◌&&◌, ◌||◌, not, Option, none, some,
  List, [], ◌∷◌, map, All, if◌then◌else◌, Bool-cases, ◌++◌,
}
use librefw.Base.Int.{ℤ, pos, e_nomem}
use librefw.Base.Held.{give_back, give_back_all}
use librefw.PacketLog.{Cpu, take_up}

-- The resources of `struct pkt_filter_log_state`
abbrev pub state_memory : ℕ
state_memory = 0

abbrev pub ring_buffer : ℕ
ring_buffer = 1

abbrev pub workqueue : ℕ
workqueue = 2

-- The read page of a CPU: an error pointer, a page, or a page that was freed.
pub data ReadPage : Type 0 where
  error_ptr : ReadPage
  allocated_page : ReadPage
  freed_page : ReadPage

-- What one CPU has: its variables, its read page, and whether its timer runs.
pub record PerCpu : Type 0 where
  pub vars : Cpu
  pub rpage : ReadPage
  pub timer : Bool

-- The body of the loop of the initialisation; `page_made` says whether
-- `ring_buffer_alloc_read_page` returns a page. The code does not ask.
unfoldable pub init_cpu : Bool → PerCpu
init_cpu page_made = record {
  vars = record { packet_counter = 0; full_pages_only = true; queued = false };
  rpage = if page_made then allocated_page else error_ptr;
  timer = true;
}

abbrev fails : List ℕ → List ℕ → Option (List ℕ × List PerCpu × ℤ)
fails ps held = Option.map (λ h. (h, [], e_nomem)) (give_back_all ps held)

-- Whether the state, the ring buffer and the workqueue are allocated, and the read page of each online
-- CPU: what is held afterwards, what the CPUs have, and the code.
unfoldable pub init_pkt_filter_log_state :
    (allocated buffer_made queue_made : Bool)
    → List Bool
    → List ℕ
    → Option (List ℕ × List PerCpu × ℤ)
init_pkt_filter_log_state false buffer_made queue_made pages held = some (held, [], e_nomem)
init_pkt_filter_log_state true false queue_made pages held =
    fails (state_memory ∷ []) (state_memory ∷ held)
init_pkt_filter_log_state true true false pages held =
    fails (ring_buffer ∷ state_memory ∷ []) (ring_buffer ∷ state_memory ∷ held)
init_pkt_filter_log_state true true true pages held =
    some (workqueue ∷ ring_buffer ∷ state_memory ∷ held, map init_cpu pages, pos 0)

-- `timer_shutdown_sync`
abbrev pub stop_timer : PerCpu → PerCpu
stop_timer c = record { vars = c.vars; rpage = c.rpage; timer = false }

-- The kernel's calls: `ring_buffer_free_read_page` and `ring_buffer_read_page` on a CPU's page, and
-- `destroy_workqueue` by what a CPU's work item does; `none` is a crash or undefined behaviour.
pub record Calls : Type 0 where
  pub ring_buffer_free_read_page : ReadPage → Option ReadPage
  pub ring_buffer_read_page : ReadPage → Option ReadPage
  pub destroy_workqueue : (PerCpu → Option PerCpu) → List PerCpu → Option (List PerCpu)

-- What `flush_pkt_filter_events` does to its CPU: it can be queued again, and its first call reads into
-- the read page. The messages that it sends are those of `PacketLog.Flush`.
unfoldable pub run_flush : Calls → PerCpu → Option PerCpu
run_flush k c =
    Option.map (λ p. record { vars = take_up c.vars; rpage = p; timer = c.timer })
      (k.ring_buffer_read_page c.rpage)

unfoldable pub free_read_page : Calls → PerCpu → Option PerCpu
free_read_page k c =
    Option.map (λ p. record { vars = c.vars; rpage = p; timer = c.timer })
      (k.ring_buffer_free_read_page c.rpage)

unfoldable pub free_read_pages : Calls → List PerCpu → Option (List PerCpu)
free_read_pages k [] = some []
free_read_pages k (c ∷ cs) = elim (free_read_page k c) [
  | none ↦ none
  | some c' ↦ Option.map (λ rest. c' ∷ rest) (free_read_pages k cs)
]

-- After the timers; a state is held.
unfoldable pub free_pkt_filter_log_state :
    Calls → List PerCpu → List ℕ → Option (List PerCpu × List ℕ)
free_pkt_filter_log_state k cs held = elim (free_read_pages k (map stop_timer cs)) [
  | none ↦ none
  | some cs' ↦ elim (k.destroy_workqueue (run_flush k) cs') [
    | none ↦ none
    | some cs'' ↦
        Option.map (λ h. (cs'', h))
          (give_back_all (workqueue ∷ ring_buffer ∷ state_memory ∷ []) held)
  ]
]

-- Whether a work item waits
abbrev pub any_queued : List PerCpu → Bool
any_queued [] = false
any_queued (c ∷ cs) = c.vars.queued || any_queued cs

-- The work items that wait are run, each with what its CPU has.
abbrev pub run_queued : (PerCpu → Option PerCpu) → List PerCpu → Option (List PerCpu)
run_queued work [] = some []
run_queued work (c ∷ cs) =
    let rest = run_queued work cs in
    if c.vars.queued
    then elim (work c) [ none ↦ none | some c' ↦ Option.map (λ cs'. c' ∷ cs') rest ]
    else Option.map (λ cs'. c ∷ cs') rest

-- What the calls do: a page is freed, and neither is an error pointer dereferenced nor a freed page read
-- into without undefined behaviour. A workqueue is destroyed after the work items that wait.
pub record IsCalls (k : Calls) : Type 0 where
  pub free-page : k.ring_buffer_free_read_page allocated_page ≡ some freed_page
  pub free-error : k.ring_buffer_free_read_page error_ptr ≡ none
  pub read-page : k.ring_buffer_read_page allocated_page ≡ some allocated_page
  pub read-freed : k.ring_buffer_read_page freed_page ≡ none
  pub destroy-runs :
      (work : PerCpu → Option PerCpu) (cs : List PerCpu)
      → k.destroy_workqueue work cs ≡ run_queued work cs
