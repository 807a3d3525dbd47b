-- ===== src/Irq/Tests.antt =====
-- kernel/interrupt/irq.cpp on a controller that is its mask.
use shirleys_os.Prelude.{ℕ, ◌+◌, ◌≡◌, true, false, some, arith, update, [], ◌∷◌, Bool}
use shirleys_os.Irq.{Machine, Irqs, no_entry, release}
use shirleys_os.Irq.Wired.{Laws, IsWired, release-IsWired}
use shirleys_os.Irq.Serve.{Event, serve_all, serve_all-IsWired}

abbrev Mask : Type 0
Mask = ℕ → Bool

abbrev controller : Machine Mask
controller = record {
  irq_vector = λ irq. irq + 32;
  spurious = λ w irq. (false, w);
  hook = λ w vector irq. (true, w);
  unhook = λ w vector. w;
  enable = λ w irq. update w irq true;
  disable = λ w irq. update w irq false;
  end_of_interrupt = λ w irq. w;
}

abbrev Unmasked : Mask → ℕ → Type 0
Unmasked w j = w j ≡ true

controller_laws : Laws controller Unmasked
controller_laws = record {
  enable_iff = λ w i j. ground arith;
  disable_iff = λ w i j. ground arith;
  hook_keeps = λ w v i j. (λ o. o, λ o. o);
  unhook_keeps = λ w v j. (λ o. o, λ o. o);
  spurious_keeps = λ w i j. (λ o. o, λ o. o);
  end_keeps = λ w i j. (λ o. o, λ o. o);
}

abbrev masked : Irqs Mask
masked = record { entries = λ i. no_entry; machine = λ i. false }

masked-IsWired : IsWired Unmasked masked
masked-IsWired = record {
  lines = λ j. (λ o. ground arith, λ (l, y). ground arith);
  handlers = λ j l y. absurd (ground arith);
}

-- A handler that gives its request up.
abbrev once : ℕ → ℕ → ℕ → Irqs Mask → Irqs Mask
once h irq context s = release controller s irq

serve_all-IsWired_example : IsWired Unmasked (
    serve_all controller once masked (
      Event.requests 1 (some 7) 0
      ∷ Event.requests 4 (some 8) 0
      ∷ Event.interrupts 1
      ∷ Event.releases 4
      ∷ []))
serve_all-IsWired_example =
    serve_all-IsWired controller Unmasked once controller_laws
      (λ h irq context s v. release-IsWired controller Unmasked controller_laws s v irq) masked
      (Event.requests 1 (some 7) 0
        ∷ Event.requests 4 (some 8) 0
        ∷ Event.interrupts 1
        ∷ Event.releases 4
        ∷ [])
      masked-IsWired
