-- ===== src/Examples/Ids.antt =====
-- internal/domain/id.go: an identifier from sixteen bytes.
use oscar_corrtest.Base.{ℕ, ◌≡◌, refl, List, [], ◌∷◌, some, length, map, codes, arith}
use oscar_corrtest.Run.Ids.{new_run_id, after, short}
use oscar_corrtest.Run.Ids.Decoded.{new_run_id_lem, read, digit_of}

abbrev raw : List ℕ
raw = 255 ∷ 0 ∷ 1 ∷ 2 ∷ 3 ∷ 4 ∷ 5 ∷ 6 ∷ 7 ∷ 8 ∷ 9 ∷ 10 ∷ 11 ∷ 12 ∷ 13 ∷ 254 ∷ []

abbrev id : List ℕ
id = codes "crt_7Z000G40R40M30E209185GR3FY"

made : new_run_id (some raw) ≡ some id
unfolding new_run_id
made = refl

shortened : short id ≡ codes "7Z000G40"
shortened = refl

new_run_id_lem_example : (length id ≡ 30) × (read 32 0 (map digit_of (after 4 id)) ≡ read 256 0 raw)
new_run_id_lem_example =
    new_run_id_lem raw refl
      (
        omega arith,
        (
          omega arith,
          (
            omega arith,
            (
              omega arith,
              (
                omega arith,
                (
                  omega arith,
                  (
                    omega arith,
                    (
                      omega arith,
                      (
                        omega arith,
                        (
                          omega arith,
                          (
                            omega arith,
                            (
                              omega arith,
                              (omega arith, (omega arith, (omega arith, (omega arith, tt)))),
                            ),
                          ),
                        ),
                      ),
                    ),
                  ),
                ),
              ),
            ),
          ),
        ),
      )
      made
