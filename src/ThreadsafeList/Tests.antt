-- ===== src/ThreadsafeList/Tests.antt =====
-- The list 3, 2, 1.
use sundries.Prelude.{ℕ, ◌≡◌, refl, Bool, some, [], ◌∷◌, leb, arith}
use sundries.ThreadsafeList.Nodes.{LinkedList, new_list, push_front, remove_if}
use sundries.ThreadsafeList.Walks.{Holds, push_front-Holds}
use sundries.ThreadsafeList.Remove.{remove_if-without}

abbrev none_yet : LinkedList ℕ
none_yet = new_list

abbrev one : LinkedList ℕ
one = push_front 1 none_yet

abbrev two : LinkedList ℕ
two = push_front 2 one

abbrev three : LinkedList ℕ
three = push_front 3 two

none_yet-Holds : Holds none_yet []
unfolding new_list
none_yet-Holds = (refl, tt)

two-Holds : Holds two (2 ∷ 1 ∷ [])
two-Holds = push_front-Holds 2 one (1 ∷ []) (push_front-Holds 1 none_yet [] none_yet-Holds)

three-Holds : Holds three (3 ∷ 2 ∷ 1 ∷ [])
three-Holds = push_front-Holds 3 two (2 ∷ 1 ∷ []) two-Holds

abbrev is_two_or_more : ℕ → Bool
is_two_or_more n = leb 2 n

remove_if-without_example :
    (l : LinkedList ℕ) × (remove_if is_two_or_more 4 three ≡ some l) × Holds l (1 ∷ [])
remove_if-without_example =
    remove_if-without is_two_or_more 4 three (3 ∷ 2 ∷ 1 ∷ []) three-Holds (omega arith)
