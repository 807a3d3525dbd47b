-- ===== src/Irq/Wired.antt =====
-- kernel/interrupt/irq.cpp: the lines that are unmasked and the handlers that are installed.
use shirleys_os.Prelude.{
  ℕ, ◌<◌, ◌≡◌, ◌≢◌, ◌⊎◌, ◌↔◌, inl, inr, true, false, some, arith, refl, Option, leb, Bool-cases,
  not, ℕ_discrete, ◌==◌, update, update_self, update_ne, Option-cases, sym, ◌∙◌, ap,
}
use shirleys_os.Irq.{
  Machine, IrqEntry, Irqs, no_entry, max_irq_count, demultiplexed_vector, request, release,
  unhookable,
}

-- What the layer relies on: only `enable` and `disable` change which lines are unmasked.
pub record Laws {M : Type 0} (m : Machine M) (Enabled : M → ℕ → Type 0) : Type 0 where
  pub enable_iff : (w : M) (i j : ℕ) → Enabled (m.enable w i) j ↔ (Enabled w j ⊎ (j ≡ i))
  pub disable_iff : (w : M) (i j : ℕ) → Enabled (m.disable w i) j ↔ (Enabled w j × (j ≢ i))
  pub hook_keeps : (w : M) (v i j : ℕ) → Enabled (m.hook w v i).1 j ↔ Enabled w j
  pub unhook_keeps : (w : M) (v j : ℕ) → Enabled (m.unhook w v) j ↔ Enabled w j
  pub spurious_keeps : (w : M) (i j : ℕ) → Enabled (m.spurious w i).1 j ↔ Enabled w j
  pub end_keeps : (w : M) (i j : ℕ) → Enabled (m.end_of_interrupt w i) j ↔ Enabled w j

-- The lines that are unmasked are those with an entry taken, and such an entry has a handler.
pub record IsWired {M : Type 0} (Enabled : M → ℕ → Type 0) (s : Irqs M) : Type 0 where
  pub lines : (j : ℕ) → Enabled s.machine j ↔ ((j < max_irq_count) × ((s.entries j).taken ≡ true))
  pub handlers :
      (j : ℕ)
      → j < max_irq_count
      → (s.entries j).taken ≡ true
      → (h : ℕ) × ((s.entries j).handler ≡ some h)

module _ {M : Type 0} (m : Machine M) (Enabled : M → ℕ → Type 0) where
  -- The same lines, and entries that are taken alike with the same handlers.
  pub alike :
      (s t : Irqs M)
      → IsWired Enabled s
      → ((j : ℕ) → Enabled t.machine j ↔ Enabled s.machine j)
      → ((j : ℕ) → j < max_irq_count → (t.entries j).taken ≡ (s.entries j).taken)
      → ((j : ℕ) → (t.entries j).taken ≡ true → (t.entries j).handler ≡ (s.entries j).handler)
      → IsWired Enabled t
  alike s t v lines taken handlers = record {
    lines = λ j. (
      λ o. let (l, y) = (v.lines j).0 ((lines j).0 o) in (l, taken j l ∙ y),
      λ (l, y). (lines j).1 ((v.lines j).1 (l, sym (taken j l) ∙ y)),
    );
    handlers = λ j l y. let (h, e) = v.handlers j l (sym (taken j l) ∙ y) in (h, handlers j y ∙ e);
  }

  module _ (laws : Laws m Enabled) (s : Irqs M) (v : IsWired Enabled s) where
    pub rebased-IsWired :
        (w : M)
        → ((j : ℕ) → Enabled w j ↔ Enabled s.machine j)
        → IsWired Enabled (record s { machine = w })
    rebased-IsWired w same = alike s _ v same (λ j l. refl) (λ j y. refl)

    unhookable_keeps : (irq j : ℕ) → Enabled (unhookable m s.machine irq).1 j ↔ Enabled s.machine j
    unfolding unhookable
    unhookable_keeps irq j = elim (Bool-cases (m.irq_vector irq == demultiplexed_vector)) [
      | inl e ↦ rw e (λ o. o, λ o. o)
      | inr e ↦ rw e (laws.hook_keeps s.machine (m.irq_vector irq) irq j)
    ]

    installed-IsWired :
        (irq h context : ℕ) (w : M)
        → irq < max_irq_count
        → ((j : ℕ) → Enabled w j ↔ Enabled s.machine j)
        → IsWired Enabled (record {
          entries = update s.entries irq (record {
            handler = some h;
            context = context;
            irq = irq;
            taken = true;
            dispatches = 0;
          });
          machine = m.enable w irq;
        })
    installed-IsWired irq h context w l same = record {
      lines = λ j. (
        λ o. elim ((laws.enable_iff w irq j).0 o) [
          | inr e ↦ (omega arith, ground arith)
          | inl before ↦ (let (k, y) = (v.lines j).0 ((same j).0 before) in (k, ground arith))
        ],
        λ (k, y). elim (ℕ_discrete j irq) [
          | yes e ↦ (laws.enable_iff w irq j).1 (inr e)
          | no ne ↦ (laws.enable_iff w irq j).1 (
              inl (
                (same j).1
                  ((v.lines j).1 (k, (let z : (s.entries j).taken ≡ true = ground arith in z)))))
        ],
      );
      handlers = λ j k y. elim (ℕ_discrete j irq) [
        | yes e ↦ (h, ground arith)
        | no ne ↦ (let (h', e) = v.handlers j k (ground arith) in (h', ground arith))
      ];
    }

    emptied_entry :
        (irq j : ℕ)
        → (s.entries irq).taken ≡ false
        → (update s.entries irq no_entry j).taken ≡ (s.entries j).taken
    emptied_entry irq j free = elim (ℕ_discrete j irq) [
      | yes e ↦
          rw e (ap (λ (x : IrqEntry). x.taken) (update_self s.entries irq no_entry) ∙ sym free)
      | no ne ↦ ap (λ (x : IrqEntry). x.taken) (update_ne s.entries irq no_entry j ne)
    ]

    pub request-IsWired :
        (irq : ℕ) (handler : Option ℕ) (context : ℕ)
        → IsWired Enabled (request m s irq handler context).1
    unfolding request
    request-IsWired irq handler context = elim (Bool-cases (leb max_irq_count irq)) [
      | inl big ↦ rw big v
      | inr small ↦ elim (Option-cases handler) [
        | inl null ↦ rw (small, null) v
        | inr (h, given) ↦ elim (Bool-cases (s.entries irq).taken) [
          | inl taken ↦ rw (small, given, taken) v
          | inr free ↦ elim (Bool-cases (unhookable m s.machine irq).0) [
            | inl failed ↦
                rw (small, given, free, failed)
                  (alike s _ v (unhookable_keeps irq) (λ j l. emptied_entry irq j free)
                    (λ j y. ground arith))
            | inr fine ↦
                rw (small, given, free, fine)
                  (installed-IsWired irq h context (unhookable m s.machine irq).1 (ground arith)
                    (unhookable_keeps irq))
          ]
        ]
      ]
    ]

    released-IsWired :
        (irq : ℕ) (w : M)
        → ((j : ℕ) → Enabled w j ↔ Enabled (m.disable s.machine irq) j)
        → IsWired Enabled (record { entries = update s.entries irq no_entry; machine = w })
    released-IsWired irq w same = record {
      lines = λ j. (
        λ o.
            let (before, ne) = (laws.disable_iff s.machine irq j).0 ((same j).0 o) in
            let (l, y) = (v.lines j).0 before in (l, ground arith),
        λ (l, y).
            let ne : j ≢ irq = λ e. ground arith in
            (same j).1 ((laws.disable_iff s.machine irq j).1 ((v.lines j).1 (l, ground arith), ne)),
      );
      handlers = λ j l y.
          let ne : j ≢ irq = λ e. ground arith in
          let (h, e) = v.handlers j l (ground arith) in (h, ground arith);
    }

    pub release-IsWired : (irq : ℕ) → IsWired Enabled (release m s irq)
    unfolding release
    release-IsWired irq = elim (Bool-cases (leb max_irq_count irq)) [
      | inl big ↦ rw big v
      | inr small ↦ elim (Bool-cases (not (s.entries irq).taken)) [
        | inl free ↦ rw (small, free) v
        | inr taken ↦ elim (Bool-cases (m.irq_vector irq == demultiplexed_vector)) [
          | inl shared ↦
              rw (small, taken, shared)
                (released-IsWired irq (m.disable s.machine irq) (λ j. (λ o. o, λ o. o)))
          | inr own ↦
              rw (small, taken, own)
                (released-IsWired irq (m.unhook (m.disable s.machine irq) (m.irq_vector irq))
                  (laws.unhook_keeps (m.disable s.machine irq) (m.irq_vector irq)))
        ]
      ]
    ]
