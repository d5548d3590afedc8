-- ===== src/Taxonomy/Tree/Writes/Update.antt =====
-- internal/service/taxonomy.go: UpdateCategory on a tree of categories.
use mathlib.Core.Option.{some-injective}
use mathlib.Core.Path.{subst}
use khans_bike.Common.{
  ℕ, ◌≡◌, sym, ap, ◌∙◌, inl, inr, [], ◌∷◌, ◌++◌, List, Bool, true, false, none, some, arith,
  Bool-cases, Result-cases, ok, if◌then◌else◌, ◌==◌,
}
use khans_bike.Common.Text.{Text, is_empty, starts_with}
use khans_bike.Service.Validation.{validation_err, check_if_match}
use khans_bike.Taxonomy.Paths.{LabelPath, ltree_label, path_prefix, starts_with-path_prefix}
use khans_bike.Taxonomy.Labels.{is_plain}
use khans_bike.Taxonomy.Categories.{
  Category, CategoryInput, validate, get_category, parent_path, is_descendant, flag_or,
  save_category, update_current, update_category,
}
use khans_bike.Taxonomy.Tree.{lookup, lookup-id, IsTree}
use khans_bike.Taxonomy.Tree.Moving.{IsAbove, IsPlaced-moved, unique_moved}
use khans_bike.Taxonomy.Tree.Writes.{
  validate-slug, parent_path-some, parent_path-Hangs, get_category-some, no_dots-path,
}
use khans_bike.Taxonomy.Tree.Writes.Saved.{
  IsKeyed-saved_rows, saved_rows, lookup-saved_rows, kept-saved_rows, save_category-ok, ||-right,
  slug_is_free,
}

-- The steps of UpdateCategory before the write, in one place.
module _ (asset_exists : ℕ → Bool) (now id : ℕ) (raw : CategoryInput) (if_match : Text) where
  abbrev pub input_of : CategoryInput
  input_of = (validate raw).0

  abbrev pub slug_of : Category → Text
  slug_of cur = if is_empty input_of.slug then cur.slug else input_of.slug

  abbrev pub path_of : Category → LabelPath → LabelPath
  path_of cur top = top ++ ltree_label (slug_of cur) ∷ []

  abbrev HasPassed : List Category → List Category → List Category → Category → LabelPath → Type 0
  HasPassed seen rows rows' cur top =
      (validation_err (validate raw).1 ≡ ok tt)
      × (get_category id seen ≡ ok cur)
      × (check_if_match if_match cur.updated_at ≡ ok tt)
      × (parent_path seen input_of.parent_id ≡ ok top)
      × (is_descendant id cur.path top input_of.parent_id ≡ false)
      × (save_category asset_exists now cur input_of (slug_of cur)
            (flag_or cur.is_active input_of.is_active) (path_of cur top) rows
          ≡ ok rows')

  update_current-ok :
      (seen rows : List Category) (cur : Category) (answer : List Category × Bool)
      → update_current asset_exists now id input_of if_match seen rows cur ≡ ok answer
      → (top : LabelPath) × (check_if_match if_match cur.updated_at ≡ ok tt)
        × (parent_path seen input_of.parent_id ≡ ok top)
        × (is_descendant id cur.path top input_of.parent_id ≡ false)
        × (save_category asset_exists now cur input_of
              (slug_of cur)
              (flag_or cur.is_active input_of.is_active)
              (path_of cur top)
              rows
            ≡ ok answer.0)
  unfolding update_current
  update_current-ok seen rows cur answer h =
      elim (Result-cases (parent_path seen input_of.parent_id)) [
        | inl (e, no_) ↦ ground arith
        | inr (top, yes_) ↦ (top, ground arith, yes_, ground arith, ground arith)
      ]

  pub update_category-ok :
      (seen rows : List Category) (answer : List Category × Bool)
      → update_category asset_exists now id raw if_match seen rows ≡ ok answer
      → (cur : Category) × (top : LabelPath) × HasPassed seen rows answer.0 cur top
  unfolding update_category
  update_category-ok seen rows answer h = elim (Result-cases (get_category id seen)) [
    | inl (e, no_) ↦ ground arith
    | inr (cur, yes_) ↦
        let (top, matched, parent, above, saved) =
          update_current-ok seen rows cur answer (ground arith) in
        (cur, top, (ground arith, yes_, matched, parent, above, saved))
  ]

  slug_of-plain :
      (rows rows' : List Category) (cur : Category) (top : LabelPath)
      → IsTree rows
      → HasPassed rows rows rows' cur top
      → is_plain (slug_of cur) ≡ true
  slug_of-plain rows rows' cur top tree (valid, read, _, _, _, _) =
      elim (Bool-cases (is_empty input_of.slug)) [
        | inl y ↦ rw y (tree.2 id cur (get_category-some id rows cur read)).0
        | inr n ↦ rw n (validate-slug raw valid n)
      ]

  passed-IsAbove :
      (rows rows' : List Category) (cur : Category) (top : LabelPath)
      → IsTree rows
      → HasPassed rows rows rows' cur top
      → IsAbove rows cur input_of.parent_id
  passed-IsAbove rows rows' cur top tree (valid, read, _, parent, below, _) p q is_p at =
      let (q', at', path) =
        parent_path-some rows p top (ap (parent_path rows) (sym is_p) ∙ parent) in
      let at_top : top ≡ q.path = path ∙ ap (λ c. c.path) (some-injective q' q (sym at' ∙ at)) in
      let tests = ap (is_descendant id cur.path top) (sym is_p) ∙ below in
      let dots = no_dots-path rows tree in
      sym (
        starts_with-path_prefix cur.path q.path (dots id cur (get_category-some id rows cur read))
          (dots p q at))
      ∙ ap (λ path. starts_with (path_prefix cur.path) (path_prefix path)) (sym at_top)
      ∙ ||-right (p == id) _ tests

  -- UpdateCategory, when nothing commits in between, keeps the categories a tree: ids and slugs stay
  -- unique, and every path is the path of its parent with the label of its slug behind it.
  pub update_category-IsTree :
      (rows : List Category) (answer : List Category × Bool)
      → IsTree rows
      → update_category asset_exists now id raw if_match rows rows ≡ ok answer
      → IsTree answer.0
  update_category-IsTree rows answer tree h =
      let (cur, top, passed) = update_category-ok rows rows answer h in
      let here = get_category-some id rows cur passed.1 in
      let own = lookup-id id rows cur here in
      let at_cur : lookup cur.id rows ≡ some cur = ap (λ k. lookup k rows) own ∙ here in
      let (free, left) =
        save_category-ok asset_exists now cur input_of (slug_of cur)
          (flag_or cur.is_active input_of.is_active) (path_of cur top) rows answer.0 passed.5 in
      let slug = slug_of cur in
      let new = path_of cur top in
      let rows' =
        saved_rows now cur input_of slug (flag_or cur.is_active input_of.is_active) new rows in
      let is_free = slug_is_free rows cur slug free in
      let hangs = parent_path-Hangs rows input_of.parent_id top slug passed.3 in
      let plain = slug_of-plain rows answer.0 cur top tree passed in
      let above = passed-IsAbove rows answer.0 cur top tree passed in
      let gone = λ (i : ℕ) (e : lookup i rows ≡ none).
        lookup-saved_rows now cur input_of slug (flag_or cur.is_active input_of.is_active) new rows
          i none e in
      let kept =
        kept-saved_rows now cur input_of slug (flag_or cur.is_active input_of.is_active) new rows in
      subst IsTree (sym left) (
        IsKeyed-saved_rows now cur input_of slug (flag_or cur.is_active input_of.is_active) new rows
            tree.0,
        unique_moved rows rows' cur new input_of.parent_id slug tree.1 tree.2 at_cur is_free plain
            hangs above gone kept,
        IsPlaced-moved rows rows' cur new input_of.parent_id slug tree.1 tree.2 at_cur is_free plain
            hangs above gone kept,
      )
