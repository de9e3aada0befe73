-- ===== src/Run/Ids/Decoded.antt =====
-- internal/domain/id.go: an identifier keeps the number that its bytes stand for.
use oscar_corrtest.Base.{
  ℕ, zero, suc, ◌+◌, ◌*◌, ◌%◌, ◌^◌, ◌<◌, ◌≡◌, refl, sym, ap, ◌∙◌, true, List, [], ◌∷◌, ◌++◌, some,
  map, length, length-append, codes, All, All-append, all, Bool, Bool-cases, inl, inr, and-eq-true,
  ==_iff, if◌then◌else◌, ◌==◌, arith, some-injective,
}
use oscar_corrtest.Run.Ids.{crockford, symbol, emit, shifted_in, encode, new_run_id, after}

-- The number that digits stand for, after those that stand for n.
abbrev pub read : ℕ → ℕ → List ℕ → ℕ
read base n [] = n
read base n (d ∷ ds) = read base (n * base + d) ds

read-append : (base n : ℕ) (xs ys : List ℕ) → read base n (xs ++ ys) ≡ read base (read base n xs) ys
read-append base n [] ys = refl
read-append base n (x ∷ xs) ys = read-append base (n * base + x) xs ys

-- One byte: the symbols and the bits that are left stand for the number so far and the byte.
record IsStep (n accumulator bits value : ℕ) : Type 0 where
  few : (emit (shifted_in accumulator value) (bits + 8)).1 < 5
  counted :
      5 * length (emit (shifted_in accumulator value) (bits + 8)).0
        + (emit (shifted_in accumulator value) (bits + 8)).1
      ≡ bits + 8
  reads :
      read 32 n (emit (shifted_in accumulator value) (bits + 8)).0
          * 2 ^ (emit (shifted_in accumulator value) (bits + 8)).1
        + shifted_in accumulator value % 2 ^ (emit (shifted_in accumulator value) (bits + 8)).1
      ≡ (n * 2 ^ bits + accumulator % 2 ^ bits) * 256 + value

step : (n accumulator bits value : ℕ) → bits < 5 → value < 256 → IsStep n accumulator bits value
unfolding emit
step n a zero v low byte = record { few = omega arith; counted = refl; reads = omega (arith, byte) }
step n a (suc zero) v low byte = record {
  few = omega arith;
  counted = refl;
  reads = omega (arith, byte);
}
step n a (suc (suc zero)) v low byte = record {
  few = omega arith;
  counted = refl;
  reads = omega (arith, byte);
}
step n a (suc (suc (suc zero))) v low byte = record {
  few = omega arith;
  counted = refl;
  reads = omega (arith, byte);
}
step n a (suc (suc (suc (suc zero)))) v low byte = record {
  few = omega arith;
  counted = refl;
  reads = omega (arith, byte);
}
step n a (suc (suc (suc (suc (suc b))))) v low byte = absurd (omega (arith, low))

Reads : ℕ → ℕ → ℕ → List ℕ → Type 0
Reads n accumulator bits raw =
    (left : ℕ) × (rest : ℕ) × (left < 5)
    × (5 * length (encode raw accumulator bits) + left ≡ bits + 8 * length raw)
    × (read 32 n (encode raw accumulator bits) * 2 ^ left + rest % 2 ^ left
        ≡ read 256 (n * 2 ^ bits + accumulator % 2 ^ bits) raw)

encode-Reads :
    (raw : List ℕ) (n accumulator bits : ℕ)
    → bits < 5
    → All (λ v. v < 256) raw
    → Reads n accumulator bits raw
unfolding Reads encode
encode-Reads [] n a bits low bytes = (bits, a, low, omega arith, refl)
encode-Reads (v ∷ raw) n a bits low (byte, bytes) =
    let one = step n a bits v low byte in
    let emitted = emit (shifted_in a v) (bits + 8) in
    let (left, rest, few, counted, reads) =
      encode-Reads raw (read 32 n emitted.0) (shifted_in a v) emitted.1 one.few bytes in
    (
      left,
      rest,
      few,
      omega (
        arith,
        counted,
        one.counted,
        length-append emitted.0 (encode raw (shifted_in a v) emitted.1),
      ),
      ap (λ m. m * 2 ^ left + rest % 2 ^ left)
            (read-append 32 n emitted.0 (encode raw (shifted_in a v) emitted.1))
          ∙ reads
          ∙ ap (λ m. read 256 m raw) one.reads,
    )

-- The digits are below 32, and each is the place of its symbol.
emit_small : (a bits : ℕ) → All (λ d. d < 32) (emit a bits).0
unfolding emit
emit_small a zero = tt
emit_small a (suc zero) = tt
emit_small a (suc (suc zero)) = tt
emit_small a (suc (suc (suc zero))) = tt
emit_small a (suc (suc (suc (suc zero)))) = tt
emit_small a (suc (suc (suc (suc (suc b))))) = (omega arith, emit_small a b)

encode_small : (raw : List ℕ) (a bits : ℕ) → All (λ d. d < 32) (encode raw a bits)
unfolding encode
encode_small [] a bits = tt
encode_small (v ∷ raw) a bits =
    let emitted = emit (shifted_in a v) (bits + 8) in
    All-append (λ d. d < 32) emitted.0 (encode raw (shifted_in a v) emitted.1)
      (emit_small (shifted_in a v) (bits + 8)) (encode_small raw (shifted_in a v) emitted.1)

abbrev pub position : ℕ → List ℕ → ℕ
position c [] = 0
position c (x ∷ xs) = if c == x then 0 else suc (position c xs)

-- The digit of a symbol.
abbrev pub digit_of : ℕ → ℕ
digit_of c = position c crockford

numbers_below : ℕ → List ℕ
numbers_below zero = []
numbers_below (suc n) = n ∷ numbers_below n

all_below : (p : ℕ → Bool) (n d : ℕ) → all p (numbers_below n) ≡ true → d < n → p d ≡ true
unfolding numbers_below
all_below p zero d h low = absurd (omega (arith, low))
all_below p (suc n) d h low = elim (Bool-cases (d == n)) [
  | inl top ↦ ap p ((==_iff d n).0 top) ∙ (and-eq-true (p n) _ h).0
  | inr other ↦ all_below p n d (and-eq-true (p n) _ h).1 (ground (arith, low))
]

table : all (λ d. digit_of (symbol d) == d) (numbers_below 32) ≡ true
unfolding numbers_below
table = refl

digits_back : (ds : List ℕ) → All (λ d. d < 32) ds → map digit_of (map symbol ds) ≡ ds
digits_back [] h = refl
digits_back (d ∷ ds) (low, h) =
    let one : digit_of (symbol d) ≡ d =
      (==_iff (digit_of (symbol d)) d).0
        (all_below (λ d. digit_of (symbol d) == d) 32 d table low) in
    rw (one, digits_back ds h) refl

-- The symbols of an identifier, its prefix of four characters apart, are twenty-six and stand, as digits to
-- the base 32, for the number that the sixteen bytes stand for: no bit of them is lost.
pub new_run_id_lem :
    (raw : List ℕ) {id : List ℕ}
    → length raw ≡ 16
    → All (λ v. v < 256) raw
    → new_run_id (some raw) ≡ some id
    → (length id ≡ 30) × (read 32 0 (map digit_of (after 4 id)) ≡ read 256 0 raw)
unfolding new_run_id Reads
new_run_id_lem raw {id} sixteen bytes h =
    let ds = encode raw 0 2 in
    let (left, rest, few, counted, reads) = encode-Reads raw 0 0 2 (omega arith) bytes in
    let none_left : left ≡ 0 = omega (arith, few, counted, sixteen) in
    let many : length ds ≡ 26 = omega (arith, few, counted, sixteen) in
    let written : id ≡ codes "crt_" ++ map symbol ds = sym (some-injective _ _ h) in
    rw written (
      omega (arith, mapped ds, many),
      ap (read 32 0) (digits_back ds (encode_small raw 0 2))
          ∙ exact left (read 32 0 ds) rest none_left
          ∙ reads,
    )
  where
    mapped : (ds : List ℕ) → length (codes "crt_" ++ map symbol ds) ≡ 4 + length ds
    mapped [] = refl
    mapped (d ∷ ds) = omega (arith, mapped ds)

    exact : (l m r : ℕ) → l ≡ 0 → m ≡ m * 2 ^ l + r % 2 ^ l
    exact l m r e = rw e (omega arith)
