-- ===== src/Row/Colors.antt =====
-- What `write_glyph` does to the attributes of a row.
use corehost.Base.{
  ℕ, suc, ◌+◌, ◌-◌, ◌*◌, ◌≤◌, ◌<◌, ◌≡◌, refl, sym, ap, ◌∙◌, true, false, ◌&&◌, ◌||◌, List, [], ◌∷◌,
  arith, leb, ltb, ◌==◌, if◌then◌else◌, length, set, get_or, if_true, if_false, Bool-cases, inl,
  inr,
}
use mathlib.Core.Path.{subst}
use corehost.Row.{
  Row, Cells, Attributes, width, attr_at, col_offset, write_attr_range, materialize_columns,
  filled_attributes, materialize_filled,
}
use corehost.Row.Write.{replaces_one, write_wide, write_explicit, write_fitting, write_glyph}
use corehost.Row.Layout.{Glyph, span, size}
use corehost.Row.Laid.{IsLaid}
use corehost.Row.Put.{span-put}
use corehost.Row.Shows.{
  Shows, width-shown, filled_cells-Shows, filled_cells-unfilled, materialize_columns-IsLaid,
}
use corehost.Row.Glyph.{glyph, write_wide-IsLaid, replaces_one-IsOne}
use corehost.Row.Written.{fitted, write_glyph-Shows}
use corehost.Row.Attrs.{
  column_attr, column_attr-uniform, among, attr_range-column, with_attr-column, attributes-set_attr,
  set_attr_each-column,
}

-- One attribute for each column; those of a filled row are all the fill's.
pub record IsColored (r : Row) : Type 0 where
  pub values_width : length r.attributes.values ≡ width r.cells
  pub filled_uniform :
      r.cells.filled ≡ true
      → (r.attributes.uniform ≡ true) × (r.attributes.uniform_attr ≡ r.attributes.fill_attr)

pub attr_at-column :
    (r : Row) (k : ℕ) → k < width r.cells → attr_at r k ≡ column_attr r.attributes k
unfolding attr_at column_attr
attr_at-column r k less = let t : ltb k (width r.cells) ≡ true = ground arith in rw t (ground arith)

filled_attributes-column :
    (r : Row) (k : ℕ)
    → IsColored r
    → (column_attr (materialize_filled r).attributes k ≡ column_attr r.attributes k)
      × (length (materialize_filled r).attributes.values ≡ length r.attributes.values)
unfolding materialize_filled filled_attributes
filled_attributes-column r k h = elim (Bool-cases r.cells.filled) [
  | inl e ↦
      let a = r.attributes in
      let u = h.filled_uniform e in
      let filled = record a { uniform = true; uniform_attr = a.fill_attr } in
      (
        ap (λ (b : Attributes). column_attr b k) (if_true _ _ e)
            ∙ column_attr-uniform filled k refl
            ∙ sym (column_attr-uniform a k u.0 ∙ u.1),
        ap (λ (b : Attributes). length b.values) (if_true _ _ e),
      )
  | inr e ↦ (
    ap (λ (b : Attributes). column_attr b k) (if_false _ _ e),
    ap (λ (b : Attributes). length b.values) (if_false _ _ e),
  )
]

module _ (r : Row) (gs : List Glyph) (col n v k : ℕ) (text : List ℕ) where
  write_explicit-column :
      IsLaid r.cells gs
      → k < length r.attributes.values
      → col + suc n ≤ span gs
      → size gs + 2 * span gs + length text ≤ 32767
      → column_attr (write_explicit col text (suc n) v r).attributes k
        ≡ (if among col (col + suc n) k then v else column_attr r.attributes k)
  unfolding write_explicit
  write_explicit-column h less le fits = elim (Bool-cases (replaces_one col text (suc n) r.cells)) [
    | inl e ↦
        let one = replaces_one-IsOne col text (suc n) r.cells e in
        let columns = one.one_column in
        let text2 = set r.cells.text (col_offset r.cells col) (get_or text 0 0) in
        let changed = record r { cells = record r.cells { text = text2 } } in
        let same : (col == k) ≡ among col (col + suc n) k = ground arith in
        rw (if_true _ _ e, attributes-set_attr changed col v h.unfilled, ← same)
          (with_attr-column r.attributes k v col less).0
    | inr e ↦
        let written = write_wide-IsLaid r.cells gs col n text h le fits in
        let changed = record r { cells = write_wide col text (suc n) r.cells } in
        rw (if_false _ _ e) (set_attr_each-column (suc n) changed col v k written.unfilled less)
  ]

width_text : (c : Cells) (t : List ℕ) → width (record c { text = t }) ≡ width c
unfolding width
width_text c t = refl

module _ (r : Row) (gs : List Glyph) (col n v k : ℕ) (text : List ℕ) where
  write_fitting-column :
      Shows r.cells gs
      → r.cells.filled ≡ false
      → length r.attributes.values ≡ width r.cells
      → k < width r.cells
      → col + suc n ≤ span gs
      → size gs + 2 * span gs + length text ≤ 32767
      → column_attr (write_fitting col text (suc n) v r).attributes k
        ≡ (if among col (col + suc n) k then v else column_attr r.attributes k)
  unfolding write_fitting write_attr_range
  write_fitting-column h e len less le fits =
      let short = r.cells.single_width_layout && (suc n == 1) && (length text == 1) in
      elim (Bool-cases short) [
        | inl t ↦
            let next : col + suc n ≡ col + 1 = ground arith in
            let text2 = set r.cells.text col (get_or text 0 0) in
            let w = width (record r.cells { text = text2 }) in
            let same : w ≡ width r.cells = width_text r.cells text2 in
            rw (if_true _ _ t, next)
              (attr_range-column r.attributes k v w col (col + 1) (len ∙ sym same) (omega arith))
        | inr t ↦
            let changed = record r { cells = materialize_columns r.cells } in
            rw (if_false _ _ t) (
              write_explicit-column changed gs col n v k text (materialize_columns-IsLaid h e)
                (omega arith) le fits)
      ]

write_glyph-fitting :
    (r : Row) (col columns v : ℕ) (text : List ℕ)
    → col < width r.cells
    → 0 < columns
    → write_glyph col text columns v r
      ≡ write_fitting col text (fitted (width r.cells - col) columns) v (materialize_filled r)
unfolding write_glyph
write_glyph-fitting r col columns v text less some =
    let guard : leb (width r.cells) col || (columns == 0) ≡ false = ground arith in
    if_false _ _ guard

-- write_glyph gives its attribute to exactly the columns that the glyph covers.
pub attr_at-write_glyph :
    (r : Row) (gs : List Glyph) (col columns v k : ℕ) (text : List ℕ)
    → Shows r.cells gs
    → IsColored r
    → col < span gs
    → 0 < columns
    → k < span gs
    → size gs + 2 * span gs + length text ≤ 32767
    → attr_at (write_glyph col text columns v r) k
      ≡ (if among col (col + fitted (span gs - col) columns) k then v else attr_at r k)
unfolding materialize_filled
attr_at-write_glyph r gs col columns v k text h colored less some inside fits =
    let w = width-shown h in
    let n = fitted (span gs - col) columns in
    let le : col + n ≤ span gs = ground arith in
    let positive : suc (n - 1) ≡ n = ground arith in
    let m = materialize_filled r in
    let f = filled_attributes-column r k colored in
    let mw : width m.cells ≡ width r.cells = width-shown (filled_cells-Shows h) ∙ sym w in
    let after = write_glyph-Shows r gs col columns v text h less some fits in
    let kept = width-shown after ∙ span-put gs (glyph text (n - 1) ∷ []) col n le (omega arith) in
    let written =
      write_fitting-column m gs col (n - 1) v k text (filled_cells-Shows h)
        (filled_cells-unfilled r.cells) (f.1 ∙ colored.values_width ∙ sym mw) (omega arith)
        (omega arith) fits in
    attr_at-column (write_glyph col text columns v r) k (omega arith)
    ∙ ap (λ (x : Row). column_attr x.attributes k)
        (write_glyph-fitting r col columns v text (omega arith) some)
    ∙ rw w (
        subst
          (λ j.
            column_attr (write_fitting col text j v m).attributes k
            ≡ (if among col (col + j) k then v else column_attr m.attributes k))
          positive written)
    ∙ ap (λ x. if among col (col + n) k then v else x)
        (f.0 ∙ sym (attr_at-column r k (omega arith)))
