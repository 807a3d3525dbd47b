-- ===== src/Devices/Registry/Unregister.antt =====
-- kernel/device/device.cpp: `unregister_device`, which moves the last device into the hole.
use shirleys_os.Prelude.{
  ℕ, ◌+◌, ◌-◌, ◌<◌, ◌≡◌, ◌≢◌, inl, inr, List, refl, arith, some, true, false, ℕ_discrete, sym, ◌∙◌,
  ap, ◌==◌, update, if◌then◌else◌,
}
use shirleys_os.Devices.{Device}
use shirleys_os.Devices.Registry.{
  registry_full, duplicate_name, invalid_argument, not_registered, ok, Registry, find,
  unregister_device, max_devices, Status, index_of,
}
use shirleys_os.Devices.Registry.Lookup.{
  IsValid, Binds, Unbound, find_bound, find-Unbound, find_same, index_of-Found,
}
use shirleys_os.Text.{IsText}

-- The registry without its entry `i`.
abbrev removed : Registry → ℕ → Registry
removed g i = record {
  devices = update (update g.devices i (g.devices (g.registered - 1))) (g.registered - 1) 0;
  registered = g.registered - 1;
}

-- Where an entry of the new table stood in the old one.
abbrev origin : Registry → ℕ → ℕ → ℕ
origin g i k = if k == i then g.registered - 1 else k

module _ (g : Registry) (i : ℕ) (l : i < g.registered) where
  origin_of :
      (k : ℕ)
      → k < g.registered - 1
      → ((removed g i).devices k ≡ g.devices (origin g i k))
        × (origin g i k < g.registered)
        × (origin g i k ≢ i)
  origin_of k m = (ground arith, ground arith, ground arith)

  -- Every entry but the one removed is still there.
  kept : (k : ℕ) → k < g.registered → k ≢ i → (j : ℕ) × (j < g.registered - 1) × (origin g i j ≡ k)
  kept k m ne = elim (ℕ_discrete k (g.registered - 1)) [
    | yes e ↦ (i, ground arith, ground arith)
    | no nl ↦ (k, ground arith, ground arith)
  ]

module _ {W : Type 0} (store : ℕ → Device W) where
  abbrev pub Unregistered : Registry → ℕ → List ℕ → Status → Registry → Type 0
  Unregistered g d other ok h =
      IsValid store h
      × (g.registered ≡ h.registered + 1)
      × (find store g (some (store d).name) ≡ d)
      × (find store h (some (store d).name) ≡ 0)
      × (find store h (some other) ≡ find store g (some other))
  Unregistered g d other not_registered h = (h ≡ g) × ((i : ℕ) → i < g.registered → g.devices i ≢ d)
  Unregistered g d other invalid_argument h = ⊥
  Unregistered g d other duplicate_name h = ⊥
  Unregistered g d other registry_full h = ⊥

  module _ (g : Registry) (v : IsValid store g) (i : ℕ) (l : i < g.registered) where
    removed-IsValid : IsValid store (removed g i)
    removed-IsValid = record {
      table = record {
        room = omega (arith, v.table.room);
        present = λ k m.
            let (e, n, _) = origin_of g i l k m in
            let p = v.table.present (origin g i k) n in rw e p;
      };
      distinct = λ j k m n named.
          let (e, a, _) = origin_of g i l j m in
          let (f, b, _) = origin_of g i l k n in
          let same = v.distinct (origin g i j) (origin g i k) a b (rw (e, f) at named) in
          ground arith;
    }

    Binds-origin :
        (name : List ℕ) (d : ℕ)
        → name ≢ (store (g.devices i)).name
        → Binds store g name d
        → Binds store (removed g i) name d
    Binds-origin name d ne (k, m, at, named) =
        let nk : k ≢ i = λ e. ne (sym named ∙ ap (λ x. (store x).name) (sym at ∙ ap g.devices e)) in
        let (j, n, e) = kept g i l k m nk in
        let (f, _, _) = origin_of g i l j n in (j, n, f ∙ ap g.devices e ∙ at, named)

    origin-Binds : (name : List ℕ) (d : ℕ) → Binds store (removed g i) name d → Binds store g name d
    origin-Binds name d (k, m, at, named) =
        let (e, n, _) = origin_of g i l k m in (origin g i k, n, sym e ∙ at, named)

    removed-Unbound : Unbound store (removed g i) (store (g.devices i)).name
    removed-Unbound k m named =
        let (e, n, ne) = origin_of g i l k m in
        ne (v.distinct (origin g i k) i n l (ap (λ x. (store x).name) (sym e) ∙ named))

  module _ (texts : (d : ℕ) → IsText (store d).name) where
    -- `unregister_device` on a valid registry: with `ok` the registry stays valid, the name of the
    -- device, which found it before, finds nothing any more, and every other name finds what it found
    -- before, although an entry has moved; else the registry is as it was, and the device is not in it.
    pub unregister_device-Unregistered :
        (g : Registry) (d : ℕ) (other : List ℕ)
        → IsValid store g
        → IsText other
        → other ≢ (store d).name
        → Unregistered g d other (unregister_device g d).0 (unregister_device g d).1
    unfolding unregister_device
    unregister_device-Unregistered g d other v text differs = elim (index_of-Found g d v.table) [
      | inl (e, out) ↦
          (let b : (index_of g d == max_devices) ≡ true = ground arith in rw b (refl, out))
      | inr (l, at) ↦
          (let i = index_of g d in
            let b : (index_of g d == max_devices) ≡ false =
              (let r = v.table.room in ground arith) in
            let w = removed-IsValid g v i l in
            let name_at : (store (g.devices i)).name ≡ (store d).name =
              ap (λ x. (store x).name) at in
            rw b (
              w,
              omega arith,
              find_bound store texts (store d).name (texts d) g d v (i, l, at, refl),
              find-Unbound store texts (store d).name (texts d) (removed g i)
                  (λ k m named. removed-Unbound g v i l k m (named ∙ sym name_at)),
              find_same store texts other text g (removed g i) w
                  (λ e. Binds-origin g v i l other e (λ s. differs (s ∙ name_at)))
                  (λ e. origin-Binds g v i l other e),
            ))
    ]
