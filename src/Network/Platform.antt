-- ===== src/Network/Platform.antt =====
-- What src/sandbox/hyperv/network.rs asks of `std::path` and of the environment.
use foxhole.Prelude.{Bool, Option, Text}

pub record Platform : Type 0 where
  -- `Path::is_absolute`
  pub is_absolute : Text → Bool
  -- `Path::join`
  pub join : Text → Text → Text
  -- the environment variable ProgramData
  pub program_data : Option Text
