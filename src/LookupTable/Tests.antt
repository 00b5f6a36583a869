-- ===== src/LookupTable/Tests.antt =====
-- Tables from numbers to numbers, of three buckets, hashed by themselves.
use sundries.Prelude.{ℕ, ◌≡◌, refl, some, List, [], ◌∷◌, ◌==◌, ==_iff, arith}
use sundries.LookupTable.Bucket.{KeyEq}
use sundries.LookupTable.Bucket
use sundries.LookupTable.Table.{Buckets, new_table}
use sundries.LookupTable.Table
use sundries.LookupTable.Run.{Call, adds, removes, step, run, run-value_for}

abbrev nat_keys : KeyEq ℕ
nat_keys = record { key_eq = ◌==◌; key_eq_iff = ==_iff }

abbrev itself : ℕ → ℕ
itself k = k

abbrev calls : List (Call ℕ ℕ)
calls = adds 1 10 ∷ adds 4 40 ∷ adds 1 11 ∷ removes 4 ∷ adds 7 70 ∷ []

calls_test :
    run nat_keys itself calls (new_table 3) ≡ some ([] ∷ ((1, 11) ∷ (7, 70) ∷ []) ∷ [] ∷ [])
unfolding run step new_table Bucket.add_or_update_mapping Bucket.remove_mapping
calls_test = refl

run-value_for_example :
    (t : Buckets ℕ ℕ) × (run nat_keys itself calls (new_table 3) ≡ some t)
    × (Table.value_for nat_keys itself 1 0 t ≡ some 11)
run-value_for_example = run-value_for nat_keys itself 3 calls 1 0 (omega arith)
