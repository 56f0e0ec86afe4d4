-- ===== src/Domain/Names.antt =====
-- src/polymaker/domain.py: the enums by their names in a message.
use polymaker.Prelude.{◌&&◌, Bool, true, false, Option, none, some, if◌then◌else◌}
use polymaker.Float.{Float}
use polymaker.Domain.{Side, ProtocolVersion, v1, v2}
use polymaker.Wire.{Json, Python, str_of, same_letters, trimmed, truthy}

-- `a is b` on ProtocolVersion
abbrev pub same_version : ProtocolVersion → ProtocolVersion → Bool
same_version v1 v1 = true
same_version v2 v2 = true
same_version _ _ = false

-- ProtocolVersion.parse
unfoldable pub parse_version :
    {F : Type 0} ⦃fl : Float F⦄ → Python F → Json F → Option ProtocolVersion
unfolding trimmed
parse_version py raw =
    if truthy raw && trimmed (str_of py raw) "v1"
    then some v1
    else if truthy raw && trimmed (str_of py raw) "v2"
    then some v2
    else none

-- `Side(str(value).upper())`, with none for a ValueError.
unfoldable pub side_named : {F : Type 0} → Python F → Json F → Option Side
unfolding same_letters
side_named py v =
    let t = str_of py v in
    if same_letters t "BUY"
    then some Side.buy
    else if same_letters t "SELL"
    then some Side.sell
    else none
