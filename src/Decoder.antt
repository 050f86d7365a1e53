-- ===== src/Decoder.antt =====
-- The members of an archive in src/earth2_sandbox/infrastructure/nvidia/fourcastnet_decoder.py. An
-- array of numpy is its shape and its elements, of some type `F`, and what tarfile and numpy find
-- in an archive is a list of entries.
pub mod Archive
pub mod Selection
use earth2_sandbox.Prelude.{ℕ, String, List}

-- an element of the array is asked for by one index for each axis
pub record Array (F : Type 0) : Type 0 where
  pub shape : List ℕ
  pub element : List ℕ → F

pub record DecodedNumpyMember (F : Type 0) : Type 0 where
  pub filename : String
  pub lead_time_hours : ℕ
  pub batch_index : ℕ
  pub array : Array F
