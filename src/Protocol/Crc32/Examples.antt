-- ===== src/Protocol/Crc32/Examples.antt =====
-- A byte string with a byte changed.
use remote_bsp.Prelude.{◌≢◌, [], ◌∷◌, arith}
use remote_bsp.Protocol.Crc32.{crc32}
use remote_bsp.Protocol.Crc32.Detect.{crc32-detects}

crc32-detects_example : crc32 (1 ∷ 2 ∷ 3 ∷ []) ≢ crc32 (1 ∷ 130 ∷ 3 ∷ [])
crc32-detects_example =
    crc32-detects (1 ∷ []) 2 130 (3 ∷ []) (ground arith) (omega arith)
      (λ e. absurd (omega (arith, e)))
