-- ===== src/Names/Examples.antt =====
-- A run of the names store.
use cofi.Prelude.{pos, ◌≡◌, refl, [], ◌∷◌, some, codes, arith, find_index}
use cofi.Names.{
  NamesStore, names_store_set, names_store_get_by_match_id, names_store_find_index_by_match_id,
}
use cofi.Names.Laws.{get-set}

abbrev one_name : NamesStore
one_name = record { records = record { match_id = pos 1; custom_name = codes "mail" } ∷ [] }

get-set_example :
    names_store_get_by_match_id (names_store_set one_name (pos 1) (codes "post")).0 (pos 1)
    ≡ some (codes "post")
unfolding names_store_set names_store_find_index_by_match_id find_index
get-set_example = get-set one_name (pos 1) (pos 1) (codes "post") (omega arith) refl refl
