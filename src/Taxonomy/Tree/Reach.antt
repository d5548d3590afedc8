-- ===== src/Taxonomy/Tree/Reach.antt =====
-- internal/service/taxonomy.go: the tables that the category operations lead to from an empty one.
use khans_bike.Common.{ℕ, ◌≡◌, [], List, Option, ok, Bool}
use khans_bike.Common.Text.{Text}
use khans_bike.Taxonomy.Categories.{
  Category, CategoryInput, create_category, update_category, delete_category,
}
use khans_bike.Taxonomy.Tree.{IsTree}
use khans_bike.Taxonomy.Tree.Writes.Create.{create_category-IsTree}
use khans_bike.Taxonomy.Tree.Writes.Update.{update_category-IsTree}
use khans_bike.Taxonomy.Tree.Writes.Delete.{delete_category-IsTree}

module _ (fold : Text → Option Text) where
  -- An operation that succeeds, on the media and products that there are at the time.
  pub data Write (rows : List Category) : List Category → Type 0 where
    created :
        (asset_exists : ℕ → Bool) (now id : ℕ) (input : CategoryInput) {rows' : List Category}
        → create_category fold asset_exists now id input rows ≡ ok rows'
        → Write rows rows'
    replaced :
        (asset_exists : ℕ → Bool) (now id : ℕ) (input : CategoryInput) (if_match : Text)
        {rows' : List Category} {reindex : Bool}
        → update_category asset_exists now id input if_match rows rows ≡ ok (rows', reindex)
        → Write rows rows'
    deleted :
        (has_products : ℕ → Bool) (id : ℕ) {rows' : List Category}
        → delete_category has_products id rows ≡ ok rows'
        → Write rows rows'

  pub data Reachable : List Category → Type 0 where
    start : Reachable []
    later : {rows rows' : List Category} → Reachable rows → Write rows rows' → Reachable rows'

  empty-IsTree : IsTree []
  empty-IsTree = (tt, (λ i j c d h k same. cc), λ i c h. cc)

  Write-IsTree : {rows rows' : List Category} → Write rows rows' → IsTree rows → IsTree rows'
  Write-IsTree {rows} (created asset_exists now id input h) tree =
      create_category-IsTree fold asset_exists now id input rows _ tree h
  Write-IsTree {rows} (replaced asset_exists now id input if_match {rows'} {reindex} h) tree =
      update_category-IsTree asset_exists now id input if_match rows (rows', reindex) tree h
  Write-IsTree {rows} (deleted has_products id h) tree =
      delete_category-IsTree has_products id rows _ tree h

  -- Whatever creations, updates and deletions succeed one after the other, the categories form a
  -- tree: ids and slugs are unique, every parent exists, and every path is the path of the parent with
  -- the label of the slug behind it.
  pub Reachable-IsTree : (rows : List Category) → Reachable rows → IsTree rows
  Reachable-IsTree rows start = empty-IsTree
  Reachable-IsTree rows (later before write) = Write-IsTree write (Reachable-IsTree _ before)
