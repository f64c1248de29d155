-- ===== src/GasAdjuster/Headers/Blocks.antt =====
-- Which blocks the loop of CalculateNetworkCongestionMetric asks for.
use Prim.Native.Nat.{min, max}
use seth.Prelude.{ℕ, zero, suc, ◌-◌, ◌≤◌, ◌<◌, ◌≡◌, refl, some, [], arith, length, get_elem?}
use seth.Prelude.Words.{sub64, two64}
use seth.GasAdjuster.Headers.{blocks_from, requested_blocks}

length-blocks_from : (i stop : ℕ) → length (blocks_from i stop) ≡ i - max stop 1
unfolding blocks_from
length-blocks_from zero stop = omega arith
length-blocks_from (suc i) stop = ground (arith, length-blocks_from i stop)

get_elem?-blocks_from :
    (i stop k : ℕ)
    → k < length (blocks_from i stop)
    → get_elem? (blocks_from i stop) k ≡ some (i - k)
unfolding blocks_from
get_elem?-blocks_from zero stop k h = absurd (omega arith)
get_elem?-blocks_from (suc i) stop zero h = ground arith
get_elem?-blocks_from (suc i) stop (suc k) h = ground (arith, get_elem?-blocks_from i stop k)

blocks_from_past : (i stop : ℕ) → i < stop → blocks_from i stop ≡ []
unfolding blocks_from
blocks_from_past zero stop h = refl
blocks_from_past (suc i) stop h = ground arith

sub64_le : (a b : ℕ) → b ≤ a → a < two64 → sub64 a b ≡ a - b
unfolding sub64
sub64_le a b h w = omega arith

sub64_lt : (a b : ℕ) → a < b → b < two64 → a < sub64 a b
unfolding sub64
sub64_lt a b h w = omega arith

-- Of a last block and a number of blocks in 64 bits, the loop asks for the last block and those
-- before it, one after the other, as many as the number says but never block 1 or 0. Where the number
-- is larger than the last block, the difference wraps around and no block at all is asked for.
pub requested_blocks_lem :
    (last blocks : ℕ)
    → last < two64
    → blocks < two64
    → (blocks ≤ last → length (requested_blocks last blocks) ≡ min blocks (last - 1))
      × ((k : ℕ)
          → k < length (requested_blocks last blocks)
          → get_elem? (requested_blocks last blocks) k ≡ some (last - k))
      × (last < blocks → requested_blocks last blocks ≡ [])
unfolding requested_blocks
requested_blocks_lem last blocks w v = (
  λ h. omega (arith, length-blocks_from last (sub64 last blocks), sub64_le last blocks h w),
  λ k h. get_elem?-blocks_from last (sub64 last blocks) k h,
  λ h. blocks_from_past last (sub64 last blocks) (sub64_lt last blocks h v),
)
