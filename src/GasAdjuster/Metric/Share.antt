-- ===== src/GasAdjuster/Metric/Share.antt =====
-- The congestion metric is a share.
use seth.Prelude.{suc, ◌≤◌, ◌<◌, ◌^◌, ◌≡◌, List, [], ◌∷◌, arith, length}
use seth.Prelude.Text.{Text}
use seth.HeaderCache.{Header}
use seth.GasAdjuster.Metric.{insert_header, sort_headers}

length-insert_header :
    (x : Header) (ys : List Header) → length (insert_header x ys) ≡ suc (length ys)
unfolding insert_header
length-insert_header x [] = omega arith
length-insert_header x (y ∷ ys) = ground (arith, length-insert_header x ys)

pub length-sort_headers : (xs : List Header) → length (sort_headers xs) ≡ length xs
unfolding sort_headers
length-sort_headers [] = omega arith
length-sort_headers (x ∷ xs) =
    omega (arith, length-sort_headers xs, length-insert_header x (sort_headers xs))

-- A header that a block can have: it used at most its gas limit, which is a word and not 0.
abbrev pub IsFilled : Header → Type 0
IsFilled h = (h.gas_used ≤ h.gas_limit) × (0 < h.gas_limit) × (h.gas_limit < 2 ^ 64)
