-- ===== src/Net/LocalStorage.antt =====
-- The browser's `localStorage`: text under text keys.
use chis.Base.{
  String, ◌≡◌, refl, Option, none, some, List, [], ◌∷◌, arith, ◌==◌, eq_iff, if◌then◌else◌,
}

abbrev pub Storage : Type 0
Storage = List (String × String)

unfoldable pub get_item : Storage → String → Option String
get_item [] k = none
get_item ((j, v) ∷ m) k = if j == k then some v else get_item m k

unfoldable pub remove_item : Storage → String → Storage
remove_item [] k = []
remove_item ((j, v) ∷ m) k = let rest = remove_item m k in if j == k then rest else (j, v) ∷ rest

unfoldable pub set_item : Storage → String → String → Storage
set_item m k v = (k, v) ∷ remove_item m k

pub get_item-remove_item :
    (m : Storage) (k j : String)
    → get_item (remove_item m k) j ≡ (if k == j then none else get_item m j)
unfolding get_item remove_item
get_item-remove_item [] k j = ground arith
get_item-remove_item ((i, v) ∷ m) k j =
    ground (arith, get_item-remove_item m k j, eq_iff i k, eq_iff i j, eq_iff k j)

pub get_item-set_item :
    (m : Storage) (k j v : String)
    → get_item (set_item m k v) j ≡ (if k == j then some v else get_item m j)
unfolding get_item set_item
get_item-set_item m k j v = ground (arith, get_item-remove_item m k j)

pub get_item-nil : (k : String) → get_item [] k ≡ none
unfolding get_item
get_item-nil k = refl

pub ruleset storage_laws = (get_item-remove_item, get_item-set_item, get_item-nil)
