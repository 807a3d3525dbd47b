-- ===== src/Io.antt =====
-- include/shirley/io.hpp: the error codes and the result of an I/O operation.
use shirleys_os.Prelude.{Option, List, false, true, Bool, ℕ}

pub data Error : Type 0 where
  none unsupported invalid_argument out_of_range device_error not_found already_exists : Error
  no_space not_empty busy read_only : Error

pub record Result : Type 0 where
  pub transferred : ℕ
  pub error : Error

unfoldable pub is_none : Error → Bool
is_none Error.none = true
is_none e = false

-- The conversion to a truth value: no error.
unfoldable pub succeeded : Result → Bool
succeeded r = is_none r.error

-- The interfaces of include/shirley/io.hpp and block_device.hpp. `W` is the state that the calls
-- change, a Boolean is whether the buffer to fill is not null, the list what stands in it afterwards;
-- a buffer to send is its content, `none` for null.
pub record ByteStream (W : Type 0) : Type 0 where
  pub read : W → Bool → ℕ → Result × List ℕ × W
  pub write : W → Option (ℕ → ℕ) → ℕ → Result × W

pub record BlockDevice (W : Type 0) : Type 0 where
  pub block_size : W → ℕ
  pub block_count : W → ℕ
  pub read_blocks : W → ℕ → ℕ → Bool → Result × List ℕ × W
  pub write_blocks : W → ℕ → ℕ → Option (ℕ → ℕ) → Result × W

abbrev pub failed : Error → Result
failed e = record { transferred = 0; error = e }
