-- ===== src/History/Examples.antt =====
-- A reordering of three windows.
use cofi.Prelude.{pos, ◌≡◌, [], ◌∷◌, arith}
use cofi.Matching.Examples.{editor, shell}
use cofi.History.{partition_and_reorder}
use cofi.History.Order.{by_class, partition_lem}

partition_lem_example :
    partition_and_reorder (pos 1) (editor ∷ shell ∷ (editor ∷ shell ∷ []))
    ≡ editor ∷ shell ∷ by_class (pos 1) (editor ∷ shell ∷ [])
partition_lem_example = partition_lem (pos 1) editor shell (editor ∷ shell ∷ []) (omega arith)
