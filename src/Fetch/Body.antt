-- ===== src/Fetch/Body.antt =====
-- `_read_capped` of core/fetch_backends.py: a body is read in chunks, up to a cap.
pub mod Capped
use lead_discovery_rader.Prelude.{
  ℕ, zero, suc, ◌+◌, ◌-◌, ◌≡◌, refl, List, [], ◌∷◌, ◌++◌, Bool, true, false, ltb, leb, length, take,
  arith, if◌then◌else◌,
}

abbrev Byte : Type 0
Byte = ℕ

-- What is joined of the chunks that are left, after `total` bytes.
unfoldable pub read_capped : ℕ → ℕ → List (List Byte) → List Byte × Bool
read_capped max_bytes total [] = ([], false)
read_capped max_bytes total (chunk ∷ rest) =
    let remaining = max_bytes - total in
    let (body, truncated) = read_capped max_bytes (total + length chunk) rest in
    if leb max_bytes total
    then ([], true)
    else (if ltb remaining (length chunk)
        then (take remaining chunk, true)
        else (chunk ++ body, truncated))
