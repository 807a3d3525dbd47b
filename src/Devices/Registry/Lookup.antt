-- ===== src/Devices/Registry/Lookup.antt =====
-- kernel/device/device.cpp: the registry as a finite map from names to devices.
use shirleys_os.Prelude.{
  ℕ, zero, suc, ◌+◌, ◌≤◌, ◌<◌, ◌≡◌, ◌≢◌, ◌⊎◌, inl, inr, List, refl, arith, Bool-cases, some,
  ℕ_discrete, sym, ◌∙◌, ap,
}
use shirleys_os.Devices.{Device}
use shirleys_os.Devices.Registry.{Registry, find, find_from, index_of, index_from, max_devices}
use shirleys_os.Text.{IsText, equals, equals_iff}

-- A device stands at most once in the table, where the search for a device stops at the first.
module _ (devices : ℕ → ℕ) (device : ℕ) where
  index_from-Found :
      (left i : ℕ)
      → i + left ≤ max_devices
      → ((index_from devices left i device ≡ max_devices)
          × ((k : ℕ) → i ≤ k → k < i + left → devices k ≢ device))
        ⊎ ((i ≤ index_from devices left i device)
            × (index_from devices left i device < i + left)
            × (devices (index_from devices left i device) ≡ device))
  unfolding index_from
  index_from-Found zero i small = inl (refl, λ k h l. absurd (omega arith))
  index_from-Found (suc left) i small = elim (ℕ_discrete (devices i) device) [
    | yes e ↦
        let r : index_from devices (suc left) i device ≡ i = ground arith in
        inr (omega arith, omega arith, rw r e)
    | no ne ↦
        let r : index_from devices (suc left) i device ≡ index_from devices left (i + 1) device =
          ground arith in
        elim (index_from-Found left (i + 1) (omega arith)) [
          | inl (e, out) ↦ inl (
            omega arith,
            λ k h l. elim (ℕ_discrete k i) [
              | yes s ↦ rw s ne
              | no t ↦ out k (omega arith) (omega arith)
            ],
          )
          | inr (h, l, at) ↦ inr (omega arith, omega arith, rw r at)
        ]
  ]

pub record IsTable (g : Registry) : Type 0 where
  pub room : g.registered ≤ max_devices
  pub present : (i : ℕ) → i < g.registered → g.devices i ≢ 0

pub index_of-Found :
    (g : Registry) (device : ℕ)
    → IsTable g
    → ((index_of g device ≡ max_devices) × ((k : ℕ) → k < g.registered → g.devices k ≢ device))
      ⊎ ((index_of g device < g.registered) × (g.devices (index_of g device) ≡ device))
unfolding index_of
index_of-Found g device v =
    elim (index_from-Found g.devices device g.registered 0 (omega (arith, v.room))) [
      | inl (e, out) ↦ inl (e, λ k l. out k (omega arith) (omega arith))
      | inr (h, l, at) ↦ inr (omega arith, at)
    ]

module _ {W : Type 0} (store : ℕ → Device W) where
  pub record IsValid (g : Registry) : Type 0 where
    pub table : IsTable g
    pub distinct :
        (i j : ℕ)
        → i < g.registered
        → j < g.registered
        → (store (g.devices i)).name ≡ (store (g.devices j)).name
        → i ≡ j

  -- The map: what the table binds a name to.
  abbrev pub Binds : Registry → List ℕ → ℕ → Type 0
  Binds g name d = (i : ℕ) × (i < g.registered) × (g.devices i ≡ d) × ((store d).name ≡ name)

  abbrev pub Unbound : Registry → List ℕ → Type 0
  Unbound g name = (i : ℕ) → i < g.registered → (store (g.devices i)).name ≢ name

  module _ (texts : (d : ℕ) → IsText (store d).name) (name : List ℕ) (text : IsText name) where
    find_from-Found :
        (devices : ℕ → ℕ) (left i : ℕ)
        → ((find_from store devices left i name ≡ 0)
            × ((k : ℕ) → i ≤ k → k < i + left → (store (devices k)).name ≢ name))
          ⊎ ((k : ℕ) × (i ≤ k)
              × (k < i + left)
              × (devices k ≡ find_from store devices left i name)
              × ((store (devices k)).name ≡ name))
    unfolding find_from
    find_from-Found devices zero i = inl (refl, λ k h l. absurd (omega arith))
    find_from-Found devices (suc left) i =
        elim (Bool-cases (equals (store (devices i)).name name)) [
          | inl e ↦ rw e (
              inr (
                i,
                omega arith,
                omega arith,
                refl,
                (equals_iff (store (devices i)).name name (texts (devices i)) text).0 e,
              ))
          | inr e ↦ rw e (elim (find_from-Found devices left (i + 1)) [
            | inl (z, out) ↦ inl (
              z,
              λ k h l. elim (ℕ_discrete k i) [
                | yes s ↦ rw s (λ q.
                    let t =
                      (equals_iff (store (devices i)).name name (texts (devices i)) text).1 q in
                    ground arith)
                | no t ↦ out k (omega arith) (omega arith)
              ],
            )
            | inr (k, h, l, at, named) ↦ inr (k, omega arith, omega arith, at, named)
          ])
        ]

    -- `find` gives the device that the name is bound to, a null pointer if there is none.
    pub find-Binds :
        (g : Registry)
        → ((find store g (some name) ≡ 0) × Unbound g name)
          ⊎ Binds g name (find store g (some name))
    unfolding find
    find-Binds g = elim (find_from-Found g.devices g.registered 0) [
      | inl (z, out) ↦ inl (z, λ k l. out k (omega arith) (omega arith))
      | inr (k, h, l, at, named) ↦
          inr (k, omega arith, at, ap (λ d. (store d).name) (sym at) ∙ named)
    ]

    pub find_bound :
        (g : Registry) (d : ℕ) → IsValid g → Binds g name d → find store g (some name) ≡ d
    find_bound g d v (i, l, at, named) = elim (find-Binds g) [
      | inl (z, out) ↦ absurd (out i l (ap (λ d. (store d).name) at ∙ named))
      | inr (k, m, at', named') ↦
          (let same =
              v.distinct i k l m (
                ap (λ d. (store d).name) at
                ∙ named
                ∙ sym (ap (λ d. (store d).name) at' ∙ named')) in
            sym at' ∙ ap g.devices (sym same) ∙ at)
    ]

    pub find-Unbound : (g : Registry) → Unbound g name → find store g (some name) ≡ 0
    find-Unbound g out = elim (find-Binds g) [
      | inl (z, _) ↦ z
      | inr (k, m, at, named) ↦ absurd (out k m (ap (λ d. (store d).name) at ∙ named))
    ]

    pub find_same :
        (g h : Registry)
        → IsValid h
        → ((d : ℕ) → Binds g name d → Binds h name d)
        → ((d : ℕ) → Binds h name d → Binds g name d)
        → find store h (some name) ≡ find store g (some name)
    find_same g h v forth back = elim (find-Binds g) [
      | inl (z, out) ↦ rw z (
          find-Unbound h (λ i l named.
            let (k, m, at, named') = back (h.devices i) (i, l, refl, named) in
            out k m (ap (λ d. (store d).name) at ∙ named')))
      | inr b ↦ find_bound h (find store g (some name)) v (forth (find store g (some name)) b)
    ]
