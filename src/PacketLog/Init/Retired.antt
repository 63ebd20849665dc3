-- ===== src/PacketLog/Init/Retired.antt =====
-- What `free_pkt_filter_log_state` makes of what `init_pkt_filter_log_state` left.
use mathlib.Core.Option
use librefw.Base.{
  ℕ, ◌≡◌, refl, ◌∙◌, ◌⊎◌, inl, inr, Bool, true, false, ◌&&◌, Option, none, some, List, [], ◌∷◌, map,
  All, if◌then◌else◌, Bool-cases,
}
use librefw.Base.Int.{ℤ, pos, e_nomem}
use librefw.Base.Held.{give_back, give_back_all}
use librefw.PacketLog.Init.{
  Calls, IsCalls, any_queued, run_flush, run_queued, error_ptr, PerCpu, allocated_page, freed_page,
  state_memory, ring_buffer, workqueue, init_cpu, init_pkt_filter_log_state, stop_timer,
  free_read_page, free_read_pages, free_pkt_filter_log_state,
}

abbrev pub all_held : List ℕ
all_held = workqueue ∷ ring_buffer ∷ state_memory ∷ []

-- A CPU's share is released.
abbrev pub retired : PerCpu → PerCpu
retired c = record { vars = c.vars; rpage = freed_page; timer = false }

abbrev pub HasPage : PerCpu → Type 0
HasPage c = c.rpage ≡ allocated_page

abbrev pub all_made : List Bool → Bool
all_made [] = true
all_made (b ∷ bs) = b && all_made bs

-- How an initialisation may end
abbrev pub Begins : Calls → Bool → Bool → Bool → List Bool → Type 0
Begins k allocated buffer_made queue_made pages =
    (held : List ℕ) × (cs : List PerCpu) × (ret : ℤ) × (init_pkt_filter_log_state allocated
        buffer_made queue_made pages []
      ≡ some (held, cs, ret))
    × (((ret ≡ pos 0)
          × (held ≡ all_held)
          × (free_pkt_filter_log_state k cs held
              ≡ (if all_made pages then some (map retired cs, []) else none)))
        ⊎ ((ret ≡ e_nomem) × (held ≡ []) × (cs ≡ [])))

module _ (k : Calls) (calls : IsCalls k) where
  free_page-ok : (c : PerCpu) → HasPage c → free_read_page k (stop_timer c) ≡ some (retired c)
  unfolding free_read_page
  free_page-ok c h = rw (h, calls.free-page) refl

  free_pages-ok :
      (cs : List PerCpu)
      → All HasPage cs
      → free_read_pages k (map stop_timer cs) ≡ some (map retired cs)
  unfolding free_read_pages
  free_pages-ok [] h = refl
  free_pages-ok (c ∷ cs) h = rw (free_page-ok c h.0, free_pages-ok cs h.1, free_read_pages) refl

  -- A work item that is run now reads into a page that was freed.
  run-retired :
      (cs : List PerCpu)
      → run_queued (run_flush k) (map retired cs)
        ≡ (if any_queued cs then none else some (map retired cs))
  unfolding run_flush
  run-retired [] = refl
  run-retired (c ∷ cs) = elim (Bool-cases c.vars.queued) [
    | inl waits ↦ rw (waits, calls.read-freed) refl
    | inr idle ↦ elim (Bool-cases (any_queued cs)) [
      | inl later ↦ rw (idle, run-retired cs, later) refl
      | inr none_waits ↦ rw (idle, run-retired cs, none_waits) refl
    ]
  ]

  destroy-retired :
      (cs : List PerCpu)
      → k.destroy_workqueue (run_flush k) (map retired cs)
        ≡ (if any_queued cs then none else some (map retired cs))
  destroy-retired cs = calls.destroy-runs (run_flush k) (map retired cs) ∙ run-retired cs

  free-run :
      (cs : List PerCpu) (o : Option (List PerCpu))
      → All HasPage cs
      → k.destroy_workqueue (run_flush k) (map retired cs) ≡ o
      → free_pkt_filter_log_state k cs all_held ≡ Option.map (λ cs'. (cs', [])) o
  unfolding free_pkt_filter_log_state give_back_all give_back
  free-run cs none h e = rw (free_pages-ok cs h, e, free_pkt_filter_log_state) refl
  free-run cs (some cs') h e = rw (free_pages-ok cs h, e, free_pkt_filter_log_state) refl

  -- If every CPU has its read page, and the kernel's calls keep the laws of `IsCalls`,
  -- `free_pkt_filter_log_state` releases everything where no work item waits. Where one waits, the
  -- release runs into undefined behaviour: `destroy_workqueue` runs the work item after the read page
  -- that it reads into was freed.
  pub free_pkt_filter_log_state-queued :
      (cs : List PerCpu)
      → All HasPage cs
      → free_pkt_filter_log_state k cs all_held
        ≡ (if any_queued cs then none else some (map retired cs, []))
  free_pkt_filter_log_state-queued cs h = elim (Bool-cases (any_queued cs)) [
    | inl waits ↦ free-run cs none h (destroy-retired cs ∙ rw waits refl) ∙ rw waits refl
    | inr idle ↦
        free-run cs (some (map retired cs)) h (destroy-retired cs ∙ rw idle refl) ∙ rw idle refl
  ]

  made-HasPage : (pages : List Bool) → all_made pages ≡ true → All HasPage (map init_cpu pages)
  unfolding init_cpu
  made-HasPage [] h = tt
  made-HasPage (true ∷ pages) h = (refl, made-HasPage pages h)
  made-HasPage (false ∷ pages) h = cc h

  made-idle : (pages : List Bool) → any_queued (map init_cpu pages) ≡ false
  unfolding init_cpu
  made-idle [] = refl
  made-idle (b ∷ pages) = made-idle pages

  page-missing : (c : PerCpu) → c.rpage ≡ error_ptr → free_read_page k (stop_timer c) ≡ none
  unfolding free_read_page
  page-missing c h = rw (h, calls.free-error) refl

  pages-missing :
      (c : PerCpu) (cs : List PerCpu)
      → free_read_page k (stop_timer c) ≡ none
      → free_read_pages k (map stop_timer (c ∷ cs)) ≡ none
  unfolding free_read_pages
  pages-missing c cs e = rw (e, free_read_pages) refl

  later-missing :
      (c : PerCpu) (cs : List PerCpu)
      → HasPage c
      → free_read_pages k (map stop_timer cs) ≡ none
      → free_read_pages k (map stop_timer (c ∷ cs)) ≡ none
  unfolding free_read_pages
  later-missing c cs h e = rw (free_page-ok c h, e, free_read_pages) refl

  missing-page :
      (pages : List Bool)
      → all_made pages ≡ false
      → free_read_pages k (map stop_timer (map init_cpu pages)) ≡ none
  unfolding init_cpu
  missing-page [] h = cc h
  missing-page (false ∷ pages) h =
      pages-missing (init_cpu false) (map init_cpu pages) (page-missing (init_cpu false) refl)
  missing-page (true ∷ pages) h =
      later-missing (init_cpu true) (map init_cpu pages) refl (missing-page pages h)

  missing-run :
      (cs : List PerCpu)
      → free_read_pages k (map stop_timer cs) ≡ none
      → free_pkt_filter_log_state k cs all_held ≡ none
  unfolding free_pkt_filter_log_state
  missing-run cs e = rw (e, free_pkt_filter_log_state) refl

  begun-freed :
      (pages : List Bool)
      → free_pkt_filter_log_state k (map init_cpu pages) all_held
        ≡ (if all_made pages then some (map retired (map init_cpu pages), []) else none)
  begun-freed pages = elim (Bool-cases (all_made pages)) [
    | inl made ↦
        free_pkt_filter_log_state-queued (map init_cpu pages) (made-HasPage pages made)
        ∙ rw (made-idle pages, made) refl
    | inr short ↦ missing-run (map init_cpu pages) (missing-page pages short) ∙ rw short refl
  ]

  -- `init_pkt_filter_log_state` releases nothing that it does not hold. Either it returns `-ENOMEM` with
  -- nothing held, or 0 with everything held; what it leaves is then released completely if every CPU
  -- got its read page, and otherwise the release dereferences an error pointer. The kernel's calls
  -- keep the laws of `IsCalls`.
  pub init_pkt_filter_log_state-Begins :
      (allocated buffer_made queue_made : Bool) (pages : List Bool)
      → Begins k allocated buffer_made queue_made pages
  unfolding init_pkt_filter_log_state give_back_all give_back
  init_pkt_filter_log_state-Begins false buffer_made queue_made pages =
      ([], [], e_nomem, refl, inr (refl, refl, refl))
  init_pkt_filter_log_state-Begins true false queue_made pages =
      ([], [], e_nomem, refl, inr (refl, refl, refl))
  init_pkt_filter_log_state-Begins true true false pages =
      ([], [], e_nomem, refl, inr (refl, refl, refl))
  init_pkt_filter_log_state-Begins true true true pages =
      (all_held, map init_cpu pages, pos 0, refl, inl (refl, refl, begun-freed pages))
