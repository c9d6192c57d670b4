-- ===== src/Contract/Version.antt =====
-- `accepts_version` of contract.py, for messages of ABI version 1.5 at most.
use kapsl_integrations.Prelude.{ℕ, Bool, true, false, ◌&&◌, leb}
use kapsl_integrations.Prelude.Values.{pos, negsuc, Value, Fields, bool, int, get, same_value}

abbrev pub abi_major : ℕ
abi_major = 1

abbrev pub abi_minor : ℕ
abi_minor = 5

-- An integer, of which `bool` is a kind, that is not past the minor version.
abbrev pub minor_accepted : Value → Bool
minor_accepted (int (pos n)) = leb n abi_minor
minor_accepted (int (negsuc n)) = true
minor_accepted (bool b) = true
minor_accepted _ = false

unfoldable pub accepts_version : Fields → Bool
accepts_version peer =
    same_value (get peer "major") (int (pos abi_major)) && minor_accepted (get peer "minor")
