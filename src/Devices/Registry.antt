-- ===== src/Devices/Registry.antt =====
-- kernel/device/device.cpp: the table of registered devices. A pointer is an address, 0 for null.
pub mod Lookup
pub mod Register
pub mod Unregister
use shirleys_os.Devices.{Device, max_name_length}
use shirleys_os.Text.{equals}
use shirleys_os.Prelude.{
  ℕ, zero, suc, ◌+◌, ◌-◌, Bool, true, false, not, ◌||◌, ◌&&◌, ◌==◌, ltb, leb, if◌then◌else◌, List,
  [], ◌∷◌, Option, none, some, length, update,
}

pub data Status : Type 0 where
  ok invalid_argument duplicate_name registry_full not_registered : Status

abbrev pub max_devices : ℕ
max_devices = 64

pub record Registry : Type 0 where
  pub devices : ℕ → ℕ
  pub registered : ℕ

unfoldable pub initialize : Registry
initialize = record { devices = λ i. 0; registered = 0 }

unfoldable pub valid_name : List ℕ → Bool
valid_name [] = false
valid_name (c ∷ cs) = leb (length (c ∷ cs)) max_name_length

unfoldable pub index_from : (ℕ → ℕ) → ℕ → ℕ → ℕ → ℕ
index_from devices zero i device = max_devices
index_from devices (suc left) i device =
    let rest = index_from devices left (i + 1) device in if devices i == device then i else rest

unfoldable pub index_of : Registry → ℕ → ℕ
unfolding index_from
index_of g device = index_from g.devices g.registered 0 device

unfoldable pub count : Registry → ℕ
count g = g.registered

unfoldable pub at : Registry → ℕ → ℕ
at g index = if ltb index g.registered then g.devices index else 0

unfoldable pub unregister_device : Registry → ℕ → Status × Registry
unregister_device g device =
    let index = index_of g device in
    if index == max_devices then (not_registered, g) else (
      ok,
      record {
        devices =
            update (update g.devices index (g.devices (g.registered - 1))) (g.registered - 1) 0;
        registered = g.registered - 1;
      },
    )

-- `store` is the memory of the device objects, which the registry only reads.
module _ {W : Type 0} (store : ℕ → Device W) where
  unfoldable pub find_from : (ℕ → ℕ) → ℕ → ℕ → List ℕ → ℕ
  find_from devices zero i name = 0
  find_from devices (suc left) i name =
      let rest = find_from devices left (i + 1) name in
      if equals (store (devices i)).name name then devices i else rest

  unfoldable pub find : Registry → Option (List ℕ) → ℕ
  unfolding find_from
  find g name = elim name [ none ↦ 0 | some n ↦ find_from g.devices g.registered 0 n ]

  unfoldable pub register_device : Registry → ℕ → Status × Registry
  register_device g device =
      if not (valid_name (store device).name)
      then (invalid_argument, g)
      else elim (store device).operations [
        | none ↦ (invalid_argument, g)
        | some operations ↦
            if leb max_devices g.registered
            then (registry_full, g)
            else if not (find g (some (store device).name) == 0)
            then (duplicate_name, g)
            else (
              ok,
              record {
                devices = update g.devices g.registered device;
                registered = g.registered + 1;
              },
            )
      ]
