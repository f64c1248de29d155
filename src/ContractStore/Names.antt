-- ===== src/ContractStore/Names.antt =====
-- The file names under which the contract store keeps its entries.
use seth.Prelude.{
  ℕ, zero, suc, ap, ◌-◌, none, some, [], ◌∷◌, ◌++◌, ite, ◌≡◌, refl, arith, true, length,
  length-append, take, drop,
}
use seth.Prelude.Text.{Text, text_dec, has_suffix, trim_suffix}
use seth.Prelude.Map.{Map, lookup, insert, lookup-insert}
use seth.ContractMap.{abi_suffix}
use seth.ContractStore.{ContractStore, with_suffix, get_abi, add_abi}

drop-append : (s p : Text) → drop (length s) (s ++ p) ≡ p
drop-append [] p = refl
drop-append (c ∷ s) p = drop-append s p

take-append : (s p : Text) → take (length s) (s ++ p) ≡ s
take-append [] p = refl
take-append (c ∷ s) p = ap (◌∷◌ c) (take-append s p)

take-drop : (n : ℕ) (s : Text) → take n s ++ drop n s ≡ s
take-drop zero s = refl
take-drop (suc n) [] = refl
take-drop (suc n) (c ∷ s) = ap (◌∷◌ c) (take-drop n s)

length-append-sub : (s p : Text) → length (s ++ p) - length p ≡ length s
length-append-sub s p = omega (arith, length-append s p)

-- A text with a suffix added has it, and trimming takes it off again.
pub has_suffix-append : (s p : Text) → has_suffix (s ++ p) p ≡ true
unfolding has_suffix
has_suffix-append s p = rw length-append-sub (ground (arith, drop-append s p, length-append s p))

pub trim_suffix-append : (s p : Text) → trim_suffix (s ++ p) p ≡ s
unfolding trim_suffix
trim_suffix-append s p = rw (has_suffix-append, length-append-sub, take-append)

pub append-trim_suffix : (s p : Text) → has_suffix s p ≡ true → trim_suffix s p ++ p ≡ s
unfolding trim_suffix has_suffix
append-trim_suffix s p h = ground (arith, take-drop (length s - length p) s)

pub has_suffix-with_suffix : (p s : Text) → has_suffix (with_suffix p s) p ≡ true
unfolding with_suffix
has_suffix-with_suffix p s = ground (arith, has_suffix-append s p)

module _ {Abi : Type 0} where
  -- Every key ends in ".abi", and stands once.
  abbrev pub WellNamed : Map Text Abi → Type 0
  WellNamed [] = Unit
  WellNamed ((k, a) ∷ m) =
      (has_suffix k abi_suffix ≡ true) × (lookup text_dec k m ≡ none) × WellNamed m

  pub insert-WellNamed :
      (k : Text) (a : Abi) (m : Map Text Abi)
      → has_suffix k abi_suffix ≡ true
      → WellNamed m
      → WellNamed (insert text_dec k a m)
  unfolding insert lookup
  insert-WellNamed k a [] h w = (h, refl, tt)
  insert-WellNamed k a ((j, b) ∷ m) h w =
      ground (arith, insert-WellNamed k a m h w.2, lookup-insert text_dec k j a m)

  -- AddABI keeps the names well formed, and GetABI then finds the new ABI under the name with or
  -- without its suffix, and every other ABI as before.
  pub get_abi-add_abi :
      (c : ContractStore Abi) (name other : Text) (abi : Abi)
      → WellNamed c.abis
      → WellNamed (add_abi c name abi).abis
        × (get_abi (add_abi c name abi) other
            ≡ ite
                (text_dec (with_suffix abi_suffix name) (with_suffix abi_suffix other))
                (some abi)
                (get_abi c other))
  unfolding get_abi add_abi
  get_abi-add_abi c name other abi w = (
    insert-WellNamed (with_suffix abi_suffix name) abi c.abis
        (has_suffix-with_suffix abi_suffix name) w,
    lookup-insert text_dec (with_suffix abi_suffix name) (with_suffix abi_suffix other) abi c.abis,
  )
