-- ===== src/Xlating/Create/Memory.antt =====
-- src/xlating.c: what a refused creation has acquired, and what it has freed.
use sdr_server.Prelude.{
  ℕ, ◌+◌, ◌≡◌, Bool, true, false, some, List, [], ◌∷◌, ◌==◌, if◌then◌else◌, arith,
}
use sdr_server.Prelude.Int.{ℤ}
use sdr_server.Xlating.Create.{
  Block, filter_struct, original_taps, bpf_taps, taps_cf32, taps_cs16, working_cf32, working_cs16,
  output_cf32, output_cs16, Grants, memory_refused,
}

abbrev tag : Block → ℕ
tag filter_struct = 0
tag original_taps = 1
tag bpf_taps = 2
tag taps_cf32 = 3
tag taps_cs16 = 4
tag working_cf32 = 5
tag working_cs16 = 6
tag output_cf32 = 7
tag output_cs16 = 8

-- How often a block is in a list.
abbrev pub count : Block → List Block → ℕ
count b [] = 0
count b (x ∷ xs) = (if tag x == tag b then 1 else 0) + count b xs

-- The allocations in their order, up to the first that is refused.
abbrev granted : List (Bool × Block) → List Block
granted [] = []
granted ((true, b) ∷ rest) = b ∷ granted rest
granted ((false, b) ∷ rest) = []

-- What a creation owns when it ends: the caller's taps, and what it was granted.
abbrev pub acquired : Grants → List Block
acquired g =
    original_taps
    ∷ granted (
        (g.gives_filter, filter_struct)
        ∷ (g.gives_bpf_taps, bpf_taps)
        ∷ (g.gives_taps_cf32, taps_cf32)
        ∷ (g.gives_taps_cs16, taps_cs16)
        ∷ (g.gives_working_cf32, working_cf32)
        ∷ (g.gives_working_cs16, working_cs16)
        ∷ (g.gives_output_cf32, output_cf32)
        ∷ (g.gives_output_cs16, output_cs16)
        ∷ [])

-- A creation that is refused memory after its first allocation frees each block once that it owns,
-- and no other; if the first is refused, nothing is freed and the caller's taps are lost.
pub memory_refused-Balanced :
    (g : Grants) (code : ℤ) (freed : List Block)
    → memory_refused g ≡ some (code, freed)
    → (b : Block) → count b freed ≡ (if g.gives_filter then count b (acquired g) else 0)
unfolding memory_refused
memory_refused-Balanced g code freed h b = ground arith
