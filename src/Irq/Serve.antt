-- ===== src/Irq/Serve.antt =====
-- kernel/interrupt/irq.cpp: `dispatch`, and sequences of requests, releases and interrupts.
use shirleys_os.Prelude.{
  ℕ, ◌+◌, inl, inr, arith, Option, ltb, Bool-cases, not, update, Option-cases, List, [], ◌∷◌, ◌%◌,
  u64_mod,
}
use shirleys_os.Irq.{Machine, Irqs, max_irq_count, request, release, dispatch, handle}
use shirleys_os.Irq.Wired.{Laws, IsWired, alike, request-IsWired, release-IsWired, rebased-IsWired}

pub data Event : Type 0 where
  requests : ℕ → Option ℕ → ℕ → Event
  releases : ℕ → Event
  interrupts : ℕ → Event

module _ {M : Type 0} (m : Machine M) (run : ℕ → ℕ → ℕ → Irqs M → Irqs M) where
  unfoldable pub serve : Irqs M → Event → Irqs M
  serve s (requests irq handler context) = (request m s irq handler context).1
  serve s (releases irq) = release m s irq
  serve s (interrupts irq) = dispatch m run s irq

  unfoldable pub serve_all : Irqs M → List Event → Irqs M
  unfolding serve
  serve_all s [] = s
  serve_all s (e ∷ events) = serve_all (serve s e) events

module _ {M : Type 0} (m : Machine M) (Enabled : M → ℕ → Type 0) (run : ℕ → ℕ → ℕ → Irqs M → Irqs M)
    (laws : Laws m Enabled)
    (keeps : (h irq context : ℕ) (s : Irqs M)
      → IsWired Enabled s
      → IsWired Enabled (run h irq context s)) where
  handle-IsWired : (s : Irqs M) (irq : ℕ) → IsWired Enabled s → IsWired Enabled (handle m run s irq)
  unfolding handle
  handle-IsWired s irq v =
      let e = s.entries irq in
      let counted : Irqs M = record s {
        entries = update s.entries irq (record e { dispatches = (e.dispatches + 1) % u64_mod });
      } in
      let w : IsWired Enabled counted =
        alike m Enabled s counted v (λ j. (λ o. o, λ o. o)) (λ j l. ground arith)
          (λ j y. ground arith) in
      elim (Bool-cases (not e.taken)) [
        | inl free ↦ rw free w
        | inr taken ↦ elim (Option-cases e.handler) [
          | inl null ↦ rw (taken, null) w
          | inr (h, given) ↦ rw (taken, given) (keeps h irq e.context counted w)
        ]
      ]

  dispatch-IsWired :
      (s : Irqs M) (irq : ℕ) → IsWired Enabled s → IsWired Enabled (dispatch m run s irq)
  unfolding dispatch
  dispatch-IsWired s irq v =
      let s' : Irqs M = record s { machine = (m.spurious s.machine irq).1 } in
      let v' =
        rebased-IsWired m Enabled laws s v (m.spurious s.machine irq).1
          (laws.spurious_keeps s.machine irq) in
      elim (Bool-cases (m.spurious s.machine irq).0) [
        | inl ghost ↦ rw ghost v'
        | inr real ↦ elim (Bool-cases (ltb irq max_irq_count)) [
          | inl inside ↦
              rw (real, inside)
                (rebased-IsWired m Enabled laws (handle m run s' irq) (handle-IsWired s' irq v')
                  (m.end_of_interrupt (handle m run s' irq).machine irq)
                  (laws.end_keeps (handle m run s' irq).machine irq))
          | inr outside ↦
              rw (real, outside)
                (rebased-IsWired m Enabled laws s' v' (m.end_of_interrupt s'.machine irq)
                  (laws.end_keeps s'.machine irq))
        ]
      ]

  serve-IsWired : (s : Irqs M) (e : Event) → IsWired Enabled s → IsWired Enabled (serve m run s e)
  unfolding serve
  serve-IsWired s (requests irq handler context) v =
      request-IsWired m Enabled laws s v irq handler context
  serve-IsWired s (releases irq) v = release-IsWired m Enabled laws s v irq
  serve-IsWired s (interrupts irq) v = dispatch-IsWired s irq v

  -- Whatever requests, releases and interrupts follow one another, also from within handlers that keep
  -- to these calls, a line is unmasked exactly while its entry is taken, and such an entry has a
  -- handler, so no unmasked line lacks one.
  pub serve_all-IsWired :
      (s : Irqs M) (events : List Event)
      → IsWired Enabled s
      → IsWired Enabled (serve_all m run s events)
  unfolding serve_all
  serve_all-IsWired s [] v = v
  serve_all-IsWired s (e ∷ events) v =
      serve_all-IsWired (serve m run s e) events (serve-IsWired s e v)
