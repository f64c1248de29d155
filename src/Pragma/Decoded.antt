-- ===== src/Pragma/Decoded.antt =====
-- The version that was written into a bytecode is read back, and which versions are new enough.
use seth.Prelude.{
  ℕ, ◌+◌, ◌-◌, ◌*◌, ◌<◌, ◌≤◌, true, some, [], ◌∷◌, ◌++◌, length, length-append, take, drop,
  append_assoc, append-nil, ◌==◌, ◌≡◌, ◌⊎◌, ◌↔◌, refl, sym, ap, ◌∙◌, arith,
}
use seth.Prelude.Text.{Text, ◌==ₜ◌, contains}
use seth.Prelude.Words.{hex_digits, hex_number}
use seth.Prelude.Errors.{ok}
use seth.Pragma.{
  Pragma, metadata_marker, solc_marker, slice, number_of, version_of, with_metadata, with_length,
  decode_pragma_version, does_pragma_support_custom_revert,
}

drop-append : (xs ys : Text) → drop (length xs) (xs ++ ys) ≡ ys
drop-append [] ys = refl
drop-append (x ∷ xs) ys = drop-append xs ys

take-append : (xs ys : Text) → take (length xs) (xs ++ ys) ≡ xs
take-append [] ys = refl
take-append (x ∷ xs) ys = ap (◌∷◌ x) (take-append xs ys)

-- the middle of three parts
slice-middle :
    (s xs ys zs : Text) (a b : ℕ)
    → s ≡ xs ++ (ys ++ zs)
    → a ≡ length xs
    → b ≡ length xs + length ys
    → slice s a b ≡ ys
unfolding slice
slice-middle s xs ys zs a b e f g =
    let size : b - a ≡ length ys = omega (arith, f, g) in
    ap (λ n. take n (drop a s)) size
    ∙ ap (λ t. take (length ys) t)
        (ap (λ n. drop n s) f ∙ ap (drop (length xs)) e ∙ drop-append xs (ys ++ zs))
    ∙ take-append ys zs

number_of-some : (s : Text) (n : ℕ) → hex_number s ≡ some n → number_of s ≡ ok n
unfolding number_of
number_of-some s n h = ground (arith, h)

-- A version of three numbers, each of two digits.
version_of-parts :
    (a b c : Text) (x y z : ℕ)
    → length a ≡ 2
    → length b ≡ 2
    → length c ≡ 2
    → hex_number a ≡ some x
    → hex_number b ≡ some y
    → hex_number c ≡ some z
    → version_of (a ++ (b ++ c)) ≡ ok (record { minor = y; major = x; patch = z })
unfolding version_of
version_of-parts a b c x y z la lb lc ha hb hc =
    let s = a ++ (b ++ c) in
    let first = slice-middle s [] a (b ++ c) 0 2 refl refl (omega (arith, la)) in
    let second = slice-middle s a b c 2 4 refl (sym la) (omega (arith, la, lb)) in
    let third =
      slice-middle s (a ++ b) c [] 4 6
        (sym (append_assoc a b c) ∙ ap (◌++◌ (a ++ b)) (sym (append-nil c)))
        (omega (arith, la, lb, length-append a b)) (omega (arith, la, lb, lc, length-append a b)) in
    ground (
      arith,
      ap number_of first ∙ number_of-some a x ha,
      ap number_of second ∙ number_of-some b y hb,
      ap number_of third ∙ number_of-some c z hc,
    )

-- the checks on the metadata, once its parts are known
with_metadata-parts :
    (s : Text) (start stop n : ℕ) (meta v : Text) (p : Pragma)
    → slice s start stop ≡ meta
    → length meta ≡ n
    → 2 ≤ start
    → slice s (start - 2) start ≡ metadata_marker
    → contains meta solc_marker ≡ true
    → 6 ≤ stop
    → slice s (stop - 6) stop ≡ v
    → version_of v ≡ ok p
    → with_metadata s start stop n ≡ ok p
unfolding with_metadata
with_metadata-parts s start stop n meta v p e l a m c b f r =
    let marked : (slice s (start - 2) start ==ₜ metadata_marker) ≡ true = ground (arith, m) in
    let sized : (length (slice s start stop) == n) ≡ true = ground (arith, e, l) in
    let compiled : contains (slice s start stop) solc_marker ≡ true =
      ap (λ t. contains t solc_marker) e ∙ c in
    ground (arith, sized, a, marked, compiled, b, ap version_of f ∙ r)

length_known :
    (s : Text) (start stop n : ℕ) (p : Pragma)
    → length s ≡ stop + 4
    → start + n * 2 ≡ stop
    → with_metadata s start stop (n * 2) ≡ ok p
    → with_length s stop (some n) ≡ ok p
unfolding with_length
length_known s start stop n p l m w =
    let begins : stop - n * 2 ≡ start = omega (arith, m) in
    ground (arith, l, m, ap (λ k. with_metadata s k stop (n * 2)) begins ∙ w)

decode-parts :
    (s last : Text) (start stop n : ℕ) (p : Pragma)
    → length s ≡ stop + 4
    → drop stop s ≡ last
    → hex_digits last 0 ≡ some n
    → start + n * 2 ≡ stop
    → with_metadata s start stop (n * 2) ≡ ok p
    → decode_pragma_version s ≡ ok p
unfolding decode_pragma_version
decode-parts s last start stop n p l d h m w =
    let at_stop : length s - 4 ≡ stop = omega (arith, l) in
    let read : hex_digits (drop (length s - 4) s) 0 ≡ some n =
      ap (λ k. hex_digits (drop k s) 0) at_stop ∙ ap (λ t. hex_digits t 0) d ∙ h in
    let rest : with_length s (length s - 4) (hex_digits (drop (length s - 4) s) 0) ≡ ok p =
      ap (with_length s (length s - 4)) read
      ∙ ap (λ k. with_length s k (some n)) at_stop
      ∙ length_known s start stop n p l m w in
    ground (arith, l, rest)

-- The bytecode of a contract: its code, the invalid opcode, the metadata, which end with a version of
-- three bytes, and the length of the metadata.
abbrev pub bytecode : Text → Text → Text → Text → Text
bytecode code front version last = code ++ (metadata_marker ++ ((front ++ version) ++ last))

-- A version of three two-digit numbers in the metadata of a bytecode is what DecodePragmaVersion reads,
-- when the last four digits are half the length of the metadata and the metadata contain the text solc.
pub decode_pragma_version-bytecode :
    (code front a b c last : Text) (n x y z : ℕ)
    → length a ≡ 2
    → length b ≡ 2
    → length c ≡ 2
    → hex_number a ≡ some x
    → hex_number b ≡ some y
    → hex_number c ≡ some z
    → length last ≡ 4
    → hex_digits last 0 ≡ some n
    → n * 2 ≡ length front + 6
    → contains (front ++ (a ++ (b ++ c))) solc_marker ≡ true
    → decode_pragma_version (bytecode code front (a ++ (b ++ c)) last)
      ≡ ok (record { minor = y; major = x; patch = z })
decode_pragma_version-bytecode code front a b c last n x y z la lb lc ha hb hc ll hl size solc =
    let v = a ++ (b ++ c) in
    let meta = front ++ v in
    let s = bytecode code front v last in
    let start = length code + 2 in
    let stop = start + n * 2 in
    let six : length v ≡ 6 =
      omega (arith, la, lb, lc, length-append a (b ++ c), length-append b c) in
    let long : length meta ≡ n * 2 = omega (arith, size, six, length-append front v) in
    let total : length s ≡ stop + 4 = omega (
      arith,
      long,
      ll,
      length-append code (metadata_marker ++ (meta ++ last)),
      length-append meta last,
    ) in
    let marked = code ++ metadata_marker in
    let marked_length : length marked ≡ start = length-append code metadata_marker in
    let after_marker : s ≡ marked ++ (meta ++ last) =
      sym (append_assoc code metadata_marker (meta ++ last)) in
    let all : s ≡ (marked ++ meta) ++ last = after_marker ∙ sym (append_assoc marked meta last) in
    let all_length : length (marked ++ meta) ≡ stop =
      omega (arith, length-append marked meta, marked_length, long) in
    let read : drop stop s ≡ last =
      ap (λ k. drop k s) (sym all_length)
      ∙ ap (drop (length (marked ++ meta))) all
      ∙ drop-append (marked ++ meta) last in
    let before_version : s ≡ (marked ++ front) ++ (v ++ last) =
      after_marker
      ∙ ap (◌++◌ marked) (append_assoc front v last)
      ∙ sym (append_assoc marked front (v ++ last)) in
    let front_length = length-append marked front in
    let middle =
      with_metadata-parts s start stop (n * 2) meta v (record { minor = y; major = x; patch = z })
        (slice-middle s marked meta last start stop after_marker (sym marked_length)
          (omega (arith, marked_length, long)))
        long (omega arith)
        (slice-middle s code metadata_marker (meta ++ last) (start - 2) start refl (omega arith)
          refl)
        solc (omega (arith, size))
        (slice-middle s (marked ++ front) v last (stop - 6) stop before_version
          (omega (arith, front_length, marked_length, size))
          (omega (arith, front_length, marked_length, size, six)))
        (version_of-parts a b c x y z la lb lc ha hb hc) in
    decode-parts s last start stop n (record { minor = y; major = x; patch = z }) total read hl refl
      middle

-- At least 0.8.4, in the order of versions: the major number first, then the minor one, then the patch.
abbrev pub IsAtLeast : Pragma → ℕ → ℕ → ℕ → Type 0
IsAtLeast p major minor patch =
    (major < p.major)
    ⊎ ((p.major ≡ major) × ((minor < p.minor) ⊎ ((p.minor ≡ minor) × (patch ≤ p.patch))))

-- DoesPragmaSupportCustomRevert holds exactly of the versions from 0.8.4 on.
pub does_pragma_support_custom_revert-IsAtLeast :
    (p : Pragma) → (does_pragma_support_custom_revert p ≡ true) ↔ IsAtLeast p 0 8 4
unfolding does_pragma_support_custom_revert
does_pragma_support_custom_revert-IsAtLeast p = ground arith
