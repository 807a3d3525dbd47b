-- ===== src/Devices/Registry/Register.antt =====
-- kernel/device/device.cpp: `register_device`.
use shirleys_os.Prelude.{
  Option-cases, ℕ, ◌+◌, ◌<◌, ◌≡◌, ◌≢◌, ◌⊎◌, inl, inr, List, refl, arith, Bool-cases, some, none,
  false, ℕ_discrete, sym, ◌∙◌, ap, ◌==◌, leb, update,
}
use shirleys_os.Devices.{Device}
use shirleys_os.Devices.Registry.{
  not_registered, registry_full, duplicate_name, invalid_argument, ok, Registry, find,
  register_device, valid_name, max_devices, Status,
}
use shirleys_os.Devices.Registry.Lookup.{IsValid, Unbound, find-Binds, find_bound, find_same}
use shirleys_os.Text.{IsText}

module _ {W : Type 0} (store : ℕ → Device W) where
  -- The registry with one more device.
  abbrev added : Registry → ℕ → Registry
  added g d = record { devices = update g.devices g.registered d; registered = g.registered + 1 }

  -- What a call says and leaves behind; `other` is any other name.
  abbrev pub Registered : Registry → ℕ → List ℕ → Status → Registry → Type 0
  Registered g d other ok h =
      IsValid store h
      × (h.registered ≡ g.registered + 1)
      × (find store g (some (store d).name) ≡ 0)
      × (find store h (some (store d).name) ≡ d)
      × (find store h (some other) ≡ find store g (some other))
  Registered g d other invalid_argument h =
      (h ≡ g) × ((valid_name (store d).name ≡ false) ⊎ ((store d).operations ≡ none))
  Registered g d other duplicate_name h = (h ≡ g) × (find store g (some (store d).name) ≢ 0)
  Registered g d other registry_full h = (h ≡ g) × (g.registered ≡ max_devices)
  Registered g d other not_registered h = ⊥

  added-IsValid :
      (g : Registry) (d : ℕ)
      → IsValid store g
      → d ≢ 0
      → g.registered < max_devices
      → Unbound store g (store d).name
      → IsValid store (added g d)
  added-IsValid g d v ne room out = record {
    table = record {
      room = omega arith;
      present = λ i l. let p = v.table.present i in ground arith;
    };
    distinct = λ i j l m named. elim (ℕ_discrete i g.registered) [
      | yes e ↦ elim (ℕ_discrete j g.registered) [
        | yes f ↦ omega arith
        | no nf ↦
            let named' : (store d).name ≡ (store (g.devices j)).name = ground arith in
            absurd (out j (omega arith) (sym named'))
      ]
      | no ne' ↦ elim (ℕ_discrete j g.registered) [
        | yes f ↦
            let named' : (store (g.devices i)).name ≡ (store d).name = ground arith in
            absurd (out i (omega arith) named')
        | no nf ↦
            let named' : (store (g.devices i)).name ≡ (store (g.devices j)).name = ground arith in
            v.distinct i j (omega arith) (omega arith) named'
      ]
    ];
  }

  module _ (texts : (d : ℕ) → IsText (store d).name) where
    added-Registered :
        (g : Registry) (d : ℕ) (other : List ℕ)
        → IsValid store g
        → d ≢ 0
        → g.registered < max_devices
        → find store g (some (store d).name) ≡ 0
        → IsText other
        → other ≢ (store d).name
        → Registered g d other ok (added g d)
    added-Registered g d other v ne room free text differs =
        let out : Unbound store g (store d).name =
          elim (find-Binds store texts (store d).name (texts d) g) [
            | inl (z, out) ↦ out
            | inr (i, l, at, named) ↦ (let p = v.table.present i l in absurd (ground arith))
          ] in
        let w = added-IsValid g d v ne room out in
        (
          w,
          refl,
          free,
          find_bound store texts (store d).name (texts d) (added g d) d w
              (g.registered, omega arith, ground arith, refl),
          find_same store texts other text g (added g d) w
              (λ e (i, l, at, named). (i, omega arith, ground arith, named))
              (λ e (i, l, at, named).
                let ni : i ≢ g.registered = λ s. differs (
                  let same : d ≡ e = ground arith in
                  sym named ∙ ap (λ x. (store x).name) (sym same)) in
                (i, omega arith, ground arith, named)),
        )

    -- `register_device` on a valid registry: with `ok` the registry stays valid, the name, which was
    -- free, now finds the device, and every other name finds what it found before; else the registry is
    -- as it was, and the status names a cause that is there.
    pub register_device-Registered :
        (g : Registry) (d : ℕ) (other : List ℕ)
        → IsValid store g
        → d ≢ 0
        → IsText other
        → other ≢ (store d).name
        → Registered g d other (register_device store g d).0 (register_device store g d).1
    unfolding register_device
    register_device-Registered g d other v ne text differs =
        elim (Bool-cases (valid_name (store d).name)) [
          | inr e ↦ rw e (refl, inl e)
          | inl e ↦ rw e (elim (Option-cases (store d).operations) [
            | inl none_given ↦ rw none_given (refl, inr none_given)
            | inr (o, given) ↦ rw given (elim (Bool-cases (leb max_devices g.registered)) [
              | inl full ↦ rw full (refl, let r = v.table.room in ground arith)
              | inr room ↦ rw room (elim (Bool-cases (find store g (some (store d).name) == 0)) [
                | inl free ↦
                    rw free
                      (added-Registered g d other v ne (ground arith) (ground arith) text differs)
                | inr taken ↦ rw taken (refl, ground arith)
              ])
            ])
          ])
        ]
