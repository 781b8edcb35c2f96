-- ===== src/Row/Attrs.antt =====
-- The attributes of a row: what its columns have, uniform or not, and what the writers change.
use corehost.Base.{
  ℕ, zero, suc, ◌+◌, ◌-◌, ◌≤◌, ◌<◌, ◌≡◌, refl, ap, ◌∙◌, Bool, true, false, ◌&&◌, List, ◌++◌, arith,
  leb, ltb, ◌==◌, if◌then◌else◌, length, splice, replicate, set, get_or, get_or-set,
  get_or-replicate, length-replicate, length-set, length-splice, get_or-take, get_or-drop,
  get_or-append, get_or-append_left, length-take, take, drop, min, if_true, if_false, Bool-cases,
  inl, inr, lt_cases,
}
use corehost.Row.{
  Row, Attributes, default_attr, fill_values, attr_range, materialize_attrs, filled_attributes,
  materialize_filled,
}
use corehost.Row.Written.{cells-set_attr}
use corehost.Row.Write.{with_attr, set_attr, set_attr_each}

-- The attribute of a column of the row.
unfoldable pub column_attr : Attributes → ℕ → ℕ
column_attr a k = if a.uniform then a.uniform_attr else get_or a.values k default_attr

-- Whether column k is among those from `start` up to `end`.
abbrev pub among : ℕ → ℕ → ℕ → Bool
among start end k = leb start k && ltb k end

get_or-splice :
    (i n v k d : ℕ) (xs : List ℕ)
    → i + n ≤ length xs
    → k < length xs
    → get_or (splice i n (replicate n v) xs) k d ≡ (if among i (i + n) k then v else get_or xs k d)
get_or-splice i n v k d xs h less = elim (lt_cases k i) [
  | inl first ↦
      let f : among i (i + n) k ≡ false = ground arith in
      let l = length-take i xs in
      rw f (
        get_or-append_left (take i xs) (replicate n v ++ drop (i + n) xs) k d (omega arith)
        ∙ get_or-take i k xs d first)
  | inr later ↦ elim (lt_cases k (i + n)) [
    | inl inside ↦
        let t : among i (i + n) k ≡ true = ground arith in
        let at : k ≡ length (take i xs) + (k - i) = omega (arith, length-take i xs) in
        let l = length-replicate n v in
        rw t (
          ap (λ j. get_or (splice i n (replicate n v) xs) j d) at
          ∙ get_or-append (take i xs) (replicate n v ++ drop (i + n) xs) (k - i) d
          ∙ get_or-append_left (replicate n v) (drop (i + n) xs) (k - i) d (omega arith)
          ∙ get_or-replicate n (k - i) v d (omega arith))
    | inr behind ↦
        let f : among i (i + n) k ≡ false = ground arith in
        let at : k ≡ length (take i xs) + (k - i) = omega (arith, length-take i xs) in
        let at2 : k - i ≡ length (replicate n v) + (k - (i + n)) =
          omega (arith, length-replicate n v) in
        let back : i + n + (k - (i + n)) ≡ k = omega arith in
        rw f (
          ap (λ j. get_or (splice i n (replicate n v) xs) j d) at
          ∙ get_or-append (take i xs) (replicate n v ++ drop (i + n) xs) (k - i) d
          ∙ ap (λ j. get_or (replicate n v ++ drop (i + n) xs) j d) at2
          ∙ get_or-append (replicate n v) (drop (i + n) xs) (k - (i + n)) d
          ∙ get_or-drop (i + n) (k - (i + n)) xs d
          ∙ ap (λ j. get_or xs j d) back)
  ]
]

-- std::fill between two columns, the second cut at the end of the row.
get_or-fill_values :
    (start end v k d : ℕ) (xs : List ℕ)
    → k < length xs
    → (get_or (fill_values start end v xs) k d ≡ (if among start end k then v else get_or xs k d))
      × (length (fill_values start end v xs) ≡ length xs)
unfolding fill_values
get_or-fill_values start end v k d xs less = elim (Bool-cases (leb (length xs) start)) [
  | inl t ↦ let f : among start end k ≡ false = ground arith in rw (t, f) (refl, refl)
  | inr f ↦
      let n = min end (length xs) - start in
      let same : among start (start + n) k ≡ among start end k = ground arith in
      let fits : start + n ≤ length xs = ground arith in
      rw f (
        get_or-splice start n v k d xs fits less ∙ ap (λ b. if b then v else get_or xs k d) same,
        length-splice start n (replicate n v) xs (length-replicate n v) fits,
      )
]

module _ (a : Attributes) (k : ℕ) where
  materialize_attrs-column :
      k < length a.values
      → (get_or (materialize_attrs a).values k default_attr ≡ column_attr a k)
        × (length (materialize_attrs a).values ≡ length a.values)
        × ((materialize_attrs a).uniform ≡ false)
  unfolding materialize_attrs column_attr
  materialize_attrs-column less = elim (Bool-cases a.uniform) [
    | inl u ↦ simp u (
      get_or-replicate (length a.values) k a.uniform_attr default_attr (omega arith),
      length-replicate (length a.values) a.uniform_attr,
      refl,
    )
    | inr u ↦ simp u (refl, refl, refl)
  ]

module _ (a : Attributes) (k : ℕ) where
  pub column_attr-uniform : a.uniform ≡ true → column_attr a k ≡ a.uniform_attr
  unfolding column_attr
  column_attr-uniform u = if_true _ _ u

  column_attr-values : a.uniform ≡ false → column_attr a k ≡ get_or a.values k default_attr
  unfolding column_attr
  column_attr-values u = if_false _ _ u

module _ (a : Attributes) (k v : ℕ) where
  -- `write_attr_range` and `fill_attrs`, column by column.
  pub attr_range-column :
      (row_width start end : ℕ)
      → length a.values ≡ row_width
      → k < row_width
      → column_attr (attr_range row_width start end v a) k
        ≡ (if among start end k then v else column_attr a k)
  unfolding attr_range
  attr_range-column row_width start end len less =
      let all = materialize_attrs a in
      let m = materialize_attrs-column a k (omega arith) in
      let whole = (start == 0) && leb row_width end in
      let same = a.uniform && (v == a.uniform_attr) in
      elim (Bool-cases whole) [
        | inl t ↦
            let inside : among start end k ≡ true = ground arith in
            rw (if_true _ _ t, if_true _ _ inside) all_one
        | inr f ↦ rw (if_false _ _ f) (elim (Bool-cases same) [
          | inl t ↦
              let one : column_attr a k ≡ v = uniform_column t in
              rw (if_true _ _ t, one) (either_way (among start end k))
          | inr g ↦
              let filled = get_or-fill_values start end v k default_attr all.values (omega arith) in
              rw (if_false _ _ g)
                (not_uniform _ m.2 ∙ filled.0 ∙ ap (λ x. if among start end k then v else x) m.0)
        ])
      ]
    where
      either_way : (b : Bool) → v ≡ (if b then v else v)
      either_way true = refl
      either_way false = refl

      all_one : column_attr (record a { uniform = true; uniform_attr = v }) k ≡ v
      all_one = column_attr-uniform (record a { uniform = true; uniform_attr = v }) k refl

      uniform_column : a.uniform && (v == a.uniform_attr) ≡ true → column_attr a k ≡ v
      uniform_column t =
          let u : a.uniform ≡ true = ground arith in
          let e : a.uniform_attr ≡ v = ground arith in column_attr-uniform a k u ∙ e

      not_uniform :
          (values : List ℕ)
          → (materialize_attrs a).uniform ≡ false
          → column_attr (record (materialize_attrs a) { values = values }) k
            ≡ get_or values k default_attr
      not_uniform values f =
          column_attr-values (record (materialize_attrs a) { values = values }) k f

  -- `set_attr`, column by column.
  pub with_attr-column :
      (col : ℕ)
      → k < length a.values
      → (column_attr (with_attr col v a) k ≡ (if col == k then v else column_attr a k))
        × (length (with_attr col v a).values ≡ length a.values)
  unfolding with_attr
  with_attr-column col less =
      let all = materialize_attrs a in
      let m = materialize_attrs-column a k less in
      (
        column_attr-values (record all { values = set all.values col v }) k m.2
            ∙ get_or-set all.values col k v default_attr (omega arith)
            ∙ ap (λ x. if col == k then v else x) m.0,
        length-set all.values col v ∙ m.1,
      )

pub attributes-set_attr :
    (r : Row) (col v : ℕ)
    → r.cells.filled ≡ false
    → (set_attr col v r).attributes ≡ with_attr col v r.attributes
unfolding set_attr materialize_filled filled_attributes
attributes-set_attr r col v e = ap (with_attr col v) (if_false _ _ e)

-- The loop of write_glyph over the columns of the glyph.
pub set_attr_each-column :
    (n : ℕ) (r : Row) (col v k : ℕ)
    → r.cells.filled ≡ false
    → k < length r.attributes.values
    → column_attr (set_attr_each n col v r).attributes k
      ≡ (if among col (col + n) k then v else column_attr r.attributes k)
unfolding set_attr_each
set_attr_each-column zero r col v k e less =
    let f : among col (col + 0) k ≡ false = ground arith in rw f refl
set_attr_each-column (suc n) r col v k e less =
    let s = attributes-set_attr r col v e in
    let one = with_attr-column r.attributes k v col less in
    let next : suc col + n ≡ col + suc n = omega arith in
    let e2 = ap (λ c. c.filled) (cells-set_attr r col v e) ∙ e in
    let l = ap (λ a. length a.values) s ∙ one.1 in
    set_attr_each-column n (set_attr col v r) (suc col) v k e2 (omega arith)
    ∙ ap (λ x. if among (suc col) (suc col + n) k then v else x)
        (ap (λ a. column_attr a k) s ∙ one.0)
    ∙ joined
  where
    joined :
        (if among (suc col) (suc col + n) k
          then v
          else if col == k
          then v
          else column_attr r.attributes k)
        ≡ (if among col (col + suc n) k then v else column_attr r.attributes k)
    joined = ground arith
