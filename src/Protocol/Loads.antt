-- ===== src/Protocol/Loads.antt =====
-- The CPU loads in messages (src/core/protocol/message.h).
use rdp_ext.Common.{◌≡◌, refl, List, [], ◌∷◌, ◌++◌, ◌+◌, ap, ◌∙◌, length, length-append, arith}
use rdp_ext.Protocol.Message.{Message, Float32, cpu_sample}

-- The loads that some messages report.
abbrev pub loads : List Message → List Float32
loads [] = []
loads (cpu_sample m ∷ ms) = m.cpu_load ∷ loads ms
loads (_ ∷ ms) = loads ms

pub loads-append : (ms ns : List Message) → loads (ms ++ ns) ≡ loads ms ++ loads ns
loads-append [] ns = refl
loads-append (m ∷ ms) ns = ground (arith, loads-append ms ns)

pub length-loads-append :
    (ms ns : List Message) → length (loads (ms ++ ns)) ≡ length (loads ms) + length (loads ns)
length-loads-append ms ns = ap length (loads-append ms ns) ∙ length-append (loads ms) (loads ns)
