-- ===== src/IsoDep/State.antt =====
-- The fields of `Dfc` (dfc_i.h) that the listener keeps, and the blocks it receives.
use dfc_flipper.Base.{ℕ, Bool, ◌||◌, ◌&&◌, not, xor, List, ◌∷◌, has, ◌==◌, if◌then◌else◌, get_or}
use dfc_flipper.ByteBuf.{ByteBuf}
use dfc_flipper.Engine.{Engine}

-- `last_frame` is the part of `iso_dep_last_frame` within `iso_dep_last_frame_len`, and `command` the
-- part of `iso_dep_command` within `iso_dep_command_len`: the rest of either array is never read.
pub record Dfc (Emulator : Type 0) : Type 0 where
  pub emulator : Emulator
  pub tx_buffer : ByteBuf
  pub last_response_valid : Bool
  pub expected_pcd_block : ℕ
  pub picc_block : ℕ
  pub last_frame : List ℕ
  pub command : List ℕ
  pub response_offset : ℕ
  pub cid_valid : Bool
  pub cid : ℕ

-- ISO_DEP_FRAME_MAX: a 64-octet FSC minus CRC_A.
abbrev pub iso_dep_frame_max : ℕ
iso_dep_frame_max = 62

-- A received frame with what the callback reads from its first octets.
pub record Block : Type 0 where
  pub rx_data : List ℕ
  pub pcb : ℕ
  pub use_cid : Bool
  pub offset : ℕ
  pub cid : ℕ

module _ {Emulator : Type 0} (core : Engine Emulator) where
  -- The length of the PCB and CID of a frame that begins with `pcb`.
  abbrev pub prefix_len : ℕ → ℕ
  prefix_len pcb = if has pcb core.cid_mask then 2 else 1

  unfoldable pub block_of : ℕ → List ℕ → Block
  block_of pcb rest = record {
    rx_data = pcb ∷ rest;
    pcb = pcb;
    use_cid = has pcb core.cid_mask;
    offset = prefix_len pcb;
    cid = if has pcb core.cid_mask then get_or (pcb ∷ rest) 1 0 else 0;
  }

-- `iso_dep_cid_valid != use_cid || (use_cid && cid != iso_dep_cid)`
abbrev pub other_cid : {Emulator : Type 0} → Dfc Emulator → Block → Bool
other_cid s b = xor s.cid_valid b.use_cid || (b.use_cid && not (b.cid == s.cid))
