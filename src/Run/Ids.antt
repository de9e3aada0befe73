-- ===== src/Run/Ids.antt =====
-- internal/domain/id.go: `NewRunID`, which writes sixteen random bytes as twenty-six symbols, and `Short`. An
-- identifier is the list of its characters.
pub mod Decoded
use oscar_corrtest.Base.{
  ℕ, zero, suc, ◌+◌, ◌*◌, ◌/◌, ◌%◌, ◌^◌, List, [], ◌∷◌, ◌++◌, Option, none, some, map, length,
  get_or, ltb, if◌then◌else◌, codes,
}

abbrev pub crockford : List ℕ
crockford = codes "0123456789ABCDEFGHJKMNPQRSTVWXYZ"

abbrev pub symbol : ℕ → ℕ
symbol n = get_or crockford n 0

-- The inner loop: the five-bit numbers that the accumulator gives, and the count of bits that are left.
unfoldable pub emit : ℕ → ℕ → List ℕ × ℕ
emit accumulator (suc (suc (suc (suc (suc bits))))) =
    let rest = emit accumulator bits in ((accumulator / 2 ^ bits) % 32 ∷ rest.0, rest.1)
emit accumulator bits = ([], bits)

-- `(accumulator << 8) | uint32(value)` on 32 bits; a byte fills the bits that the shift has cleared.
abbrev pub shifted_in : ℕ → ℕ → ℕ
shifted_in accumulator value = (accumulator * 256 + value) % 2 ^ 32

-- The loop over the bytes.
unfoldable pub encode : List ℕ → ℕ → ℕ → List ℕ
unfolding emit
encode [] accumulator bits = []
encode (value ∷ raw) accumulator bits =
    let next = shifted_in accumulator value in
    let emitted = emit next (bits + 8) in emitted.0 ++ encode raw next emitted.1

-- `NewRunID`, from the sixteen bytes that the source of random numbers gives, or none.
unfoldable pub new_run_id : Option (List ℕ) → Option (List ℕ)
unfolding encode
new_run_id none = none
new_run_id (some raw) = some (codes "crt_" ++ map symbol (encode raw 0 2))

abbrev pub take_up : ℕ → List ℕ → List ℕ
take_up zero s = []
take_up (suc n) [] = []
take_up (suc n) (c ∷ s) = c ∷ take_up n s

abbrev pub after : ℕ → List ℕ → List ℕ
after zero s = s
after (suc n) [] = []
after (suc n) (c ∷ s) = after n s

-- `Short`.
abbrev pub short : List ℕ → List ℕ
short id = if ltb (length id) 12 then [] else take_up 8 (after 4 id)
