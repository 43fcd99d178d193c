-- ===== src/Encode/Bytes.antt =====
-- What each kind of value looks like on the wire, in plain arithmetic.
use micropb.Prelude.{ℕ, zero, suc, ◌+◌, ◌/◌, ◌%◌, List, [], ◌∷◌, ltb, if◌then◌else◌}

-- The groups of seven bits of `v`, lowest first, each but the last with 128 added; at most
-- `k + 1` groups.
unfoldable pub groups : ℕ → ℕ → List ℕ
groups zero v = v ∷ []
groups (suc k) v =
    let more = groups k (v / 128) in if ltb v 128 then v ∷ [] else ((v % 128 + 128) ∷ more)

-- The wire form of a number below `128 ^ 10`.
unfoldable pub varint_bytes : ℕ → List ℕ
varint_bytes v = groups 9 v
