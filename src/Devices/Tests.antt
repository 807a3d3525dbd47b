-- ===== src/Devices/Tests.antt =====
-- kernel/device/device.cpp on a keyboard and /dev/null.
use shirleys_os.Prelude.{
  Option, ℕ, ◌≡◌, inl, inr, List, refl, arith, Bool-cases, some, none, true, ◌==◌, update,
  if◌then◌else◌, [], ◌∷◌,
}
use shirleys_os.Devices.{
  Device, DeviceType, null_device, no_operations, stream_operations, stream, given,
}
use shirleys_os.Devices.Registry.{
  Registry, register_device, unregister_device, find, Status, valid_name, index_of,
}
use shirleys_os.Devices.Registry.Lookup.{IsValid}
use shirleys_os.Devices.Registry.Register.{Registered, register_device-Registered}
use shirleys_os.Devices.Registry.Unregister.{Unregistered, unregister_device-Unregistered}
use shirleys_os.Text.{IsText, equals}
use shirleys_os.Io.{ByteStream}
use shirleys_os.InputQueue.{InputQueue, fresh}
use shirleys_os.InputQueue

abbrev keyboard_name : List ℕ
keyboard_name = 0x6b ∷ 0x62 ∷ 0x64 ∷ []

abbrev keyboard : Device Unit
keyboard = record {
  name = keyboard_name;
  type = DeviceType.input;
  operations = some no_operations;
  driver_data = 0;
}

abbrev objects : ℕ → Device Unit
objects d = if d == 1 then null_device else keyboard

objects_texts : (d : ℕ) → IsText (objects d).name
objects_texts d = elim (Bool-cases (d == 1)) [
  | inl e ↦ rw e (omega arith, (omega arith, (omega arith, (omega arith, tt))))
  | inr e ↦ rw e (omega arith, (omega arith, (omega arith, tt)))
]

abbrev with_keyboard : Registry
with_keyboard = record { devices = update (λ i. 0) 0 2; registered = 1 }

with_keyboard-IsValid : IsValid objects with_keyboard
with_keyboard-IsValid = record {
  table = record { room = omega arith; present = λ i l. ground arith };
  distinct = λ i j l m e. omega arith;
}

abbrev mouse_name : List ℕ
mouse_name = 0x6d ∷ []

register_device-Registered_example :
    Registered objects with_keyboard 1 keyboard_name
      (register_device objects with_keyboard 1).0
      (register_device objects with_keyboard 1).1
register_device-Registered_example =
    register_device-Registered objects objects_texts with_keyboard 1 keyboard_name
      with_keyboard-IsValid (omega arith) (omega arith, (omega arith, (omega arith, tt))) (λ e. cc)

registered_null : (register_device objects with_keyboard 1).0 ≡ Status.ok
unfolding register_device find valid_name equals
registered_null = refl

unregister_device-Unregistered_example :
    Unregistered objects with_keyboard 2 mouse_name
      (unregister_device with_keyboard 2).0
      (unregister_device with_keyboard 2).1
unregister_device-Unregistered_example =
    unregister_device-Unregistered objects objects_texts with_keyboard 2 mouse_name
      with_keyboard-IsValid (omega arith, tt) (λ e. cc)

unregistered_keyboard : (unregister_device with_keyboard 2).0 ≡ Status.ok
unfolding unregister_device index_of
unregistered_keyboard = refl

abbrev queue_stream : ByteStream InputQueue
queue_stream = record {
  read = shirleys_os.InputQueue.read;
  write = λ q bytes len. (shirleys_os.InputQueue.write q, q);
}

abbrev queues : ℕ → Option (ByteStream InputQueue)
queues a = if a == 0x1000 then some queue_stream else none

abbrev terminal : Device InputQueue
terminal = record {
  name = keyboard_name;
  type = DeviceType.input;
  operations = some (stream_operations queues);
  driver_data = 0x1000;
}

terminal_read : (stream (some terminal)).read fresh true 4 ≡ queue_stream.read fresh true 4
unfolding InputQueue.read shirleys_os.Devices.read shirleys_os.Devices.stream_read
terminal_read = refl
