-- ===== src/Generation/Names.antt =====
-- Which names `parse_generation_filename` accepts.
use mathlib.Core.List.{reverse, reverse-append, reverse-reverse}
use mathlib.Core.Option
use mathlib.Core.Option.{some-injective}
use dsh_rs.Base.Decimal.{low_value}
use dsh_rs.Base.{
  ℕ, zero, suc, ◌+◌, ◌-◌, ◌<◌, ◌≡◌, refl, sym, ap, ◌∙◌, ◌⊎◌, inl, inr, none, some, List, [], ◌∷◌,
  ◌++◌, map, Bool, true, false, All, arith, digits, value, Option-cases, if-eq_cases,
  and_then-eq-some,
}
use dsh_rs.Base.Decimal.Roundtrip.{IsHigh, value-digits, digits-IsHigh, digits-value, value-pos}
use dsh_rs.Generation.{
  Bytes, codes, bytes_eq, strip_prefix, strip_suffix, all_digits, starts_with_zero, decimal,
  parse_u32, u32_mod, generation_basename, extension, generation_filename, parse_version,
  parse_stem, or_else, parse_generation_filename,
}

-- Texts of bytes

bytes_eq_sound : (xs ys : Bytes) → bytes_eq xs ys ≡ true → xs ≡ ys
bytes_eq_sound [] [] h = refl
bytes_eq_sound [] (y ∷ ys) h = cc
bytes_eq_sound (x ∷ xs) [] h = cc
bytes_eq_sound (x ∷ xs) (y ∷ ys) h = ground (arith, bytes_eq_sound xs ys)

strip_prefix-append : (p s : Bytes) → strip_prefix p (p ++ s) ≡ some s
strip_prefix-append [] s = refl
strip_prefix-append (c ∷ p) s = ground (arith, strip_prefix-append p s)

strip_prefix_sound : (p name s : Bytes) → strip_prefix p name ≡ some s → name ≡ p ++ s
strip_prefix_sound [] name s h = ground arith
strip_prefix_sound (c ∷ p) [] s h = cc
strip_prefix_sound (c ∷ p) (d ∷ name) s h = ground (arith, strip_prefix_sound p name s)

strip_suffix-append : (s x : Bytes) → strip_suffix x (s ++ x) ≡ some s
strip_suffix-append s x = rw (reverse-append s x, strip_prefix-append, reverse-reverse)

strip_suffix_sound : (name x s : Bytes) → strip_suffix x name ≡ some s → name ≡ s ++ x
strip_suffix_sound name x s h = elim (Option-cases (strip_prefix (reverse x) (reverse name))) [
  | inl bad ↦ cc (h, ap (Option.map reverse) bad)
  | inr (r, good) ↦
      sym (reverse-reverse name)
      ∙ ap reverse (strip_prefix_sound (reverse x) (reverse name) r good)
      ∙ reverse-append (reverse x) r
      ∙ cc (reverse-reverse x, h, ap (Option.map reverse) good)
]

-- A plain name does not end as a compressed one does.
not_compressed : (s : Bytes) → strip_suffix (codes ".jsonl.zstd") (s ++ codes ".jsonl") ≡ none
not_compressed s = rw (reverse-append s (codes ".jsonl"))

digit_bytes :
    (ds : List ℕ) → All (λ e. e < 10) ds → map (λ b. b - b'0') (map (λ d. d + b'0') ds) ≡ ds
digit_bytes [] h = refl
digit_bytes (d ∷ ds) h = ground (arith, digit_bytes ds h.1)

all_digits-map : (ds : List ℕ) → All (λ e. e < 10) ds → all_digits (map (λ d. d + b'0') ds) ≡ true
all_digits-map [] h = refl
all_digits-map (d ∷ ds) h = ground (arith, all_digits-map ds h.1)

parse_version-digits :
    (ds : List ℕ)
    → IsHigh ds
    → value ds < u32_mod
    → parse_version (map (λ d. d + b'0') ds) ≡ some (value ds)
unfolding parse_version parse_u32
parse_version-digits [] h b = absurd h
parse_version-digits (d ∷ ds) h b =
    ground (arith, all_digits-map (d ∷ ds) h.1, digit_bytes (d ∷ ds) h.1)

digits_map : (bs : Bytes) → all_digits bs ≡ true → map (λ d. d + b'0') (map (λ b. b - b'0') bs) ≡ bs
digits_map [] h = refl
digits_map (b ∷ bs) h = ground (arith, digits_map bs)

All-digits : (bs : Bytes) → all_digits bs ≡ true → All (λ e. e < 10) (map (λ b. b - b'0') bs)
All-digits [] h = tt
All-digits (b ∷ bs) h = ground (arith, All-digits bs)

-- `session.v0` names version 0 too, beside `session`.
abbrev pub IsCanonical : Bytes → ℕ → Type 0
IsCanonical rest v = (0 < v) × (rest ≡ decimal v)

IsHigh-digits :
    (b : ℕ) (bs : Bytes)
    → all_digits (b ∷ bs) ≡ true
    → starts_with_zero (b ∷ bs) ≡ false
    → IsHigh (map (λ b. b - b'0') (b ∷ bs))
IsHigh-digits b bs a z = ground (arith, All-digits (b ∷ bs) a)

high-IsCanonical :
    (b : ℕ) (bs : Bytes) (v : ℕ)
    → all_digits (b ∷ bs) ≡ true
    → starts_with_zero (b ∷ bs) ≡ false
    → value (map (λ c. c - b'0') (b ∷ bs)) ≡ v
    → IsCanonical (b ∷ bs) v
unfolding decimal
high-IsCanonical b bs v a z e =
    let high = IsHigh-digits b bs a z in
    (
      rw (← e) (value-pos _ high),
      sym (digits_map (b ∷ bs) a)
          ∙ ap (map λ d. d + b'0') (sym (digits-value _ high) ∙ ap digits e),
    )

value_single : (d : ℕ) → value (d ∷ []) ≡ d
unfolding value low_value
value_single d = omega arith

parse_version_sound :
    (rest : Bytes) (v : ℕ)
    → parse_version rest ≡ some v
    → (v < u32_mod) × (IsCanonical rest v ⊎ ((v ≡ 0) × (rest ≡ codes "0")))
unfolding parse_version parse_u32
parse_version_sound [] v e = cc
parse_version_sound (b ∷ []) v e = ground (arith, value_single (b - b'0'), high-IsCanonical b [] v)
parse_version_sound (b ∷ c ∷ bs) v e = ground (arith, high-IsCanonical b (c ∷ bs) v)

parse_version-decimal : (n : ℕ) → 0 < n → n < u32_mod → parse_version (decimal n) ≡ some n
unfolding decimal
parse_version-decimal n p b =
    parse_version-digits (digits n) (digits-IsHigh n p) (rw value-digits b)
    ∙ ap (λ (k : ℕ). some k) (value-digits n)

basename-positive : (n : ℕ) → 0 < n → generation_basename n ≡ codes "session.v" ++ decimal n
unfolding generation_basename
basename-positive n p = ground arith

parse_stem-basename : (v : ℕ) → v < u32_mod → parse_stem (generation_basename v) ≡ some v
parse_stem-basename zero b = unfold generation_basename in refl
parse_stem-basename (suc n) b =
    rw (basename-positive (suc n) (omega arith)) (parse_version-decimal (suc n) (omega arith) b)

-- The name of a generation, compressed or not, is read back as its version.
pub parse-generation_filename :
    (version : ℕ) (compressed : Bool)
    → version < u32_mod
    → parse_generation_filename (generation_filename version compressed) ≡ some version
unfolding parse_generation_filename generation_filename
parse-generation_filename version true b =
    rw (strip_suffix-append (generation_basename version) (codes ".jsonl.zstd"))
      (parse_stem-basename version b)
parse-generation_filename version false b =
    rw
      (
        not_compressed (generation_basename version),
        strip_suffix-append (generation_basename version) (codes ".jsonl"),
      )
      (parse_stem-basename version b)

-- The stem of a name that is read as a version.
abbrev pub IsStem : Bytes → ℕ → Type 0
IsStem stem v = (stem ≡ generation_basename v) ⊎ ((v ≡ 0) × (stem ≡ codes "session.v0"))

IsStem-of_version :
    (stem rest : Bytes) (v : ℕ)
    → stem ≡ codes "session.v" ++ rest
    → IsCanonical rest v ⊎ ((v ≡ 0) × (rest ≡ codes "0"))
    → IsStem stem v
IsStem-of_version stem rest v joined (inl (p, canonical)) =
    inl (joined ∙ ap (◌++◌ (codes "session.v")) canonical ∙ sym (basename-positive v p))
IsStem-of_version stem rest v joined (inr (z, zeroed)) =
    inr (z, joined ∙ ap (◌++◌ (codes "session.v")) zeroed)

parse_stem_sound : (stem : Bytes) (v : ℕ) → parse_stem stem ≡ some v → (v < u32_mod) × IsStem stem v
unfolding generation_basename
parse_stem_sound stem v e = elim (if-eq_cases (bytes_eq stem (codes "session")) _ _ e) [
  | inl (plain, zeroth) ↦
      let is_zero : 0 ≡ v = some-injective _ _ zeroth in
      (omega arith, inl (bytes_eq_sound stem _ plain ∙ ap generation_basename is_zero))
  | inr (_, versioned) ↦
      let (rest, stripped, read) =
        and_then-eq-some (strip_prefix (codes "session.v") stem) parse_version versioned in
      let joined = strip_prefix_sound (codes "session.v") stem rest stripped in
      let (bound, shape) = parse_version_sound rest v read in
      (bound, IsStem-of_version stem rest v joined shape)
]

stripped_suffix :
    (name stem : Bytes)
    → or_else (strip_suffix (codes ".jsonl.zstd") name) (strip_suffix (codes ".jsonl") name)
      ≡ some stem
    → (compressed : Bool) × (name ≡ stem ++ extension compressed)
stripped_suffix name stem e = elim (Option-cases (strip_suffix (codes ".jsonl.zstd") name)) [
  | inl plain ↦ (
    false,
    strip_suffix_sound name (codes ".jsonl") stem
        (ap (λ o. or_else o (strip_suffix (codes ".jsonl") name)) (sym plain) ∙ e),
  )
  | inr (s, packed) ↦ (
    true,
    strip_suffix_sound name (codes ".jsonl.zstd") stem
        (packed ∙ ap (λ o. or_else o (strip_suffix (codes ".jsonl") name)) (sym packed) ∙ e),
  )
]

name_of_stem :
    (name stem : Bytes) (v : ℕ) (compressed : Bool)
    → name ≡ stem ++ extension compressed
    → IsStem stem v
    → (name ≡ generation_filename v compressed)
      ⊎ ((v ≡ 0) × (name ≡ codes "session.v0" ++ extension compressed))
unfolding generation_filename
name_of_stem name stem v compressed e (inl s) = inl (e ∙ ap (λ t. t ++ extension compressed) s)
name_of_stem name stem v compressed e (inr (z, s)) =
    inr (z, e ∙ ap (λ t. t ++ extension compressed) s)

-- Only the names of generations are read, and `session.v0` with an extension, as version 0.
pub parse_generation_filename_sound :
    (name : Bytes) (version : ℕ)
    → parse_generation_filename name ≡ some version
    → (version < u32_mod)
      × (compressed : Bool) × ((name ≡ generation_filename version compressed)
          ⊎ ((version ≡ 0) × (name ≡ codes "session.v0" ++ extension compressed)))
unfolding parse_generation_filename
parse_generation_filename_sound name version e =
    let (stem, stripped, read) =
      and_then-eq-some
        (or_else (strip_suffix (codes ".jsonl.zstd") name) (strip_suffix (codes ".jsonl") name))
        parse_stem e in
    let (bound, shape) = parse_stem_sound stem version read in
    let (compressed, joined) = stripped_suffix name stem stripped in
    (bound, compressed, name_of_stem name stem version compressed joined shape)
