-- ===== src/Uuid7/Layout.antt =====
-- uuid7.py: what the 16 bytes of an id hold, and how ids compare.
use fastapi_agent_protocol.Base.{
  ℕ, zero, suc, ◌+◌, ◌-◌, ◌*◌, ◌/◌, ◌%◌, ◌^◌, ◌<◌, ◌≤◌, ◌⊎◌, inl, inr, Bool-cases, append_assoc,
  ◌≡◌, refl, Bool, true, false, List, [], ◌∷◌, ◌++◌, take, drop, length, get_or, All, All-drop,
  arith, ltb, ◌==◌, nat_eq, if◌then◌else◌,
}
use fastapi_agent_protocol.Failure.{ok}
use fastapi_agent_protocol.Uuid7.{big_endian, to_bytes, from_bytes, uuid7_bytes}

-- The 12 and the 14 random bits that follow the version and the variant.
abbrev pub random_12 : List ℕ → ℕ
random_12 raw = from_bytes 0 (take 2 (drop 6 raw)) % 2 ^ 12

abbrev pub random_14 : List ℕ → ℕ
random_14 raw = from_bytes 0 (take 2 (drop 8 raw)) % 2 ^ 14

-- The bytes after the time.
abbrev random_tail : List ℕ → List ℕ
random_tail raw =
    big_endian 2 (7 * 2 ^ 12 + random_12 raw)
    ++ big_endian 2 (2 * 2 ^ 14 + random_14 raw)
    ++ drop 10 raw

-- A number that fits its width has its bytes.
to_bytes-fits : (width n : ℕ) → n < 256 ^ width → to_bytes width n ≡ ok (big_endian width n)
unfolding to_bytes
to_bytes-fits width n fits = ground (arith, fits)

-- No number of an id is too large for its bytes.
uuid7_bytes-tail :
    (now_ms : ℕ) (raw : List ℕ)
    → uuid7_bytes now_ms raw ≡ ok (big_endian 6 (now_ms % 2 ^ 48) ++ random_tail raw)
unfolding uuid7_bytes big_endian
uuid7_bytes-tail now_ms raw =
    rw
      (
        to_bytes-fits 6 (now_ms % 2 ^ 48) (omega arith),
        to_bytes-fits 2 (7 * 2 ^ 12 + random_12 raw) (omega arith),
        to_bytes-fits 2 (2 * 2 ^ 14 + random_14 raw) (omega arith),
      )
      refl

-- An id is made whatever the clock and the random bytes, and each of its fields can be read from its
-- bytes: the time to 48 bits, the version 7, 12 random bits, the variant 2, 14 random bits, and the
-- rest of the random bytes.
pub uuid7_bytes_fields :
    (now_ms : ℕ) (raw : List ℕ)
    → (id : List ℕ) × (uuid7_bytes now_ms raw ≡ ok id)
      × (from_bytes 0 (take 6 id) ≡ now_ms % 2 ^ 48)
      × (get_or id 6 0 / 2 ^ 4 ≡ 7)
      × (get_or id 6 0 % 2 ^ 4 * 2 ^ 8 + get_or id 7 0 ≡ random_12 raw)
      × (get_or id 8 0 / 2 ^ 6 ≡ 2)
      × (get_or id 8 0 % 2 ^ 6 * 2 ^ 8 + get_or id 9 0 ≡ random_14 raw)
      × (drop 10 id ≡ drop 10 raw)
unfolding big_endian from_bytes
uuid7_bytes_fields now_ms raw = (
  _,
  uuid7_bytes-tail now_ms raw,
  omega arith,
  omega arith,
  omega arith,
  omega arith,
  omega arith,
  refl,
)

length-drop : (n : ℕ) (xs : List ℕ) → length (drop n xs) ≡ length xs - n
length-drop zero xs = omega arith
length-drop (suc n) [] = omega arith
length-drop (suc n) (x ∷ xs) = omega (arith, length-drop n xs)

abbrev pub IsByte : ℕ → Type 0
IsByte b = b < 256

-- From 16 random bytes an id is made at every time; it has 16 bytes, each below 256, and no number
-- in it is too large for its bytes.
pub uuid7_bytes_bounds :
    (now_ms : ℕ) (raw : List ℕ)
    → length raw ≡ 16
    → All IsByte raw
    → (id : List ℕ) × (uuid7_bytes now_ms raw ≡ ok id) × (length id ≡ 16) × All IsByte id
unfolding big_endian from_bytes
uuid7_bytes_bounds now_ms raw long bytes = (
  _,
  uuid7_bytes-tail now_ms raw,
  omega (arith, length-drop 10 raw),
  (
    omega arith,
    (
      omega arith,
      (
        omega arith,
        (
          omega arith,
          (
            omega arith,
            (
              omega arith,
              (
                omega arith,
                (omega arith, (omega arith, (omega arith, All-drop IsByte 10 raw bytes))),
              ),
            ),
          ),
        ),
      ),
    ),
  ),
)

lt_or_eq : (m n : ℕ) → m ≤ n → (m < n) ⊎ (m ≡ n)
lt_or_eq m n h = elim (Bool-cases (ltb m n)) [
  | inl less ↦ inl (ground arith)
  | inr not_less ↦ inr (ground arith)
]

-- Whether a text of bytes sorts before another: at the first place where they differ.
unfoldable pub sorts_before : List ℕ → List ℕ → Bool
sorts_before [] [] = false
sorts_before [] (b ∷ bs) = true
sorts_before (a ∷ xs) [] = false
sorts_before (a ∷ xs) (b ∷ bs) =
    let rest = sorts_before xs bs in if ltb a b then true else if a == b then rest else false

sorts_before-append : (xs ys zs : List ℕ) → sorts_before (xs ++ ys) (xs ++ zs) ≡ sorts_before ys zs
unfolding sorts_before
sorts_before-append [] ys zs = refl
sorts_before-append (x ∷ xs) ys zs = grind (arith, sorts_before-append xs ys zs)

first_less : (a b : ℕ) (xs ys : List ℕ) → a < b → sorts_before (a ∷ xs) (b ∷ ys) ≡ true
unfolding sorts_before
first_less a b xs ys less = ground arith

-- Of two numbers that fit a width the less sorts first, whatever follows.
sorts_before-big_endian :
    (width m n : ℕ) (xs ys : List ℕ)
    → m < n
    → n < 256 ^ width
    → sorts_before (big_endian width m ++ xs) (big_endian width n ++ ys) ≡ true
unfolding big_endian
sorts_before-big_endian zero m n xs ys less fits = absurd (omega arith)
sorts_before-big_endian (suc width) m n xs ys less fits =
    rw
      (
        append_assoc (big_endian width (m / 256)) (m % 256 ∷ []) xs,
        append_assoc (big_endian width (n / 256)) (n % 256 ∷ []) ys,
      )
      (elim (lt_or_eq (m / 256) (n / 256) (omega arith)) [
        | inl lower ↦ sorts_before-big_endian width (m / 256) (n / 256) _ _ lower (omega arith)
        | inr same ↦
            rw
              (same, sorts_before-append (big_endian width (n / 256)) (m % 256 ∷ xs) (n % 256 ∷ ys))
              (first_less (m % 256) (n % 256) xs ys (omega arith))
      ])

-- Two ids are made at any times, and the one of the earlier millisecond sorts first, whatever the
-- random bytes, while the milliseconds are below 2 ^ 48.
pub uuid7_bytes_sorted :
    (before after : ℕ) (raw other : List ℕ)
    → before < after
    → after < 2 ^ 48
    → (id later : List ℕ) × (uuid7_bytes before raw ≡ ok id)
      × (uuid7_bytes after other ≡ ok later)
      × (sorts_before id later ≡ true)
uuid7_bytes_sorted before after raw other earlier fits = (
  _,
  _,
  uuid7_bytes-tail before raw,
  uuid7_bytes-tail after other,
  sorts_before-big_endian 6 (before % 2 ^ 48) (after % 2 ^ 48) (random_tail raw) (random_tail other)
      (omega arith) (omega arith),
)
