-- ===== src/Ledger.antt =====
-- src/polymaker/execution/ledger.py: the ledger of a protocol version, the integer fields of a V2 position
-- id and the byte forms of a condition id. An id is a natural number (a uint256); a byte string is a list of numbers; where the
-- source raises, the result is none. A mask `& ~0xFF` clears the remainder of a division.
pub mod Bytes
use polymaker.Domain.{ProtocolVersion, v1, v2}
use polymaker.Prelude.{
  String, ℕ, zero, suc, ◌+◌, ◌-◌, ◌*◌, ◌/◌, ◌%◌, ◌^◌, Bool, true, false, Option, none, some, List,
  [], ◌∷◌, ◌++◌, ltb, nat_eq, length, take, drop, if◌then◌else◌,
}

-- CTF_LEDGER
abbrev pub ctf_ledger : String
ctf_ledger = "0x4D97DCd97eC945f40cF65F87097ACe5EA0476045"

-- POSITION_MANAGER
abbrev pub position_manager : String
position_manager = "0x006F54F7f9A22e0000CC2AB60031000000ae9fEF"

abbrev pub ledger_for : ProtocolVersion → String
ledger_for v1 = ctf_ledger
ledger_for v2 = position_manager

abbrev pub module_id_of : ℕ → ℕ
module_id_of position_id = position_id / 2 ^ 248

abbrev pub outcome_index_of : ℕ → ℕ
outcome_index_of position_id = position_id % 256

abbrev pub condition_id_of : ℕ → ℕ
condition_id_of position_id = position_id - position_id % 256

abbrev pub event_id_of : ℕ → ℕ
event_id_of position_id = position_id - position_id % 16777216

abbrev pub condition_id_from_position_id : ℕ → ℕ
condition_id_from_position_id position_id = position_id / 256

-- `value.to_bytes(n, "big")` on a value that fits
unfoldable pub to_bytes : ℕ → ℕ → List ℕ
to_bytes zero value = []
to_bytes (suc n) value = to_bytes n (value / 256) ++ value % 256 ∷ []

unfoldable pub bytes31 : ℕ → Option (List ℕ)
bytes31 value = if ltb value (256 ^ 31) then some (to_bytes 31 value) else none

unfoldable pub v2_condition_id_bytes31 : ℕ → Option (List ℕ)
v2_condition_id_bytes31 position_id = bytes31 (condition_id_from_position_id position_id)

-- narrow_v2_condition_id, after the text was read as bytes.
unfoldable pub narrow_bytes : List ℕ → Option (List ℕ)
narrow_bytes raw =
    if nat_eq (length raw) 31
    then some raw
    else if nat_eq (length raw) 32
    then elim (drop 31 raw) as (λ x. Option (List ℕ)) [
      | [] ↦ none
      | b ∷ bs ↦ if nat_eq b 0 then some (take 31 raw) else none
    ]
    else none
