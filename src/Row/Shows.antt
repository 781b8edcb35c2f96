-- ===== src/Row/Shows.antt =====
-- The three forms of a row (filled, single columns, explicit columns) and the glyphs it shows.
use corehost.Base.{
  ℕ, zero, suc, ◌+◌, ◌≤◌, ◌≡◌, refl, sym, ap, ◌∙◌, true, false, List, [], ◌∷◌, ◌++◌, arith, length,
  replicate, Bool-cases, inl, inr, if_true, if_false, ◌%◌,
}
use corehost.Row.{Cells, width, filled_cells, materialize_columns, iota}
use corehost.Row.Layout.{Glyph, singles, span, size, text_of, entries, layout, length-layout}
use corehost.Row.Replace.{span-singles, size-singles, text_of-singles, iota-singles}
use corehost.Row.Laid.{IsLaid}

pub iota-snoc : (n v : ℕ) → iota (suc n) v ≡ iota n v ++ ((v + n) % 65536 ∷ [])
iota-snoc zero v = let e : v + 0 ≡ v = omega arith in rw e refl
iota-snoc (suc n) v =
    let e : v + suc n ≡ v + 1 + n = omega arith in rw e (ap (v % 65536 ∷◌) (iota-snoc n (v + 1)))

-- The glyphs `gs` are what the row shows; an offset has 15 bits.
pub record Shows (c : Cells) (gs : List Glyph) : Type 0 where
  pub columns_width : length c.columns ≡ suc (span gs)
  pub room : size gs ≤ 32767
  pub narrow : span gs ≤ 32767
  pub as_filled : c.filled ≡ true → gs ≡ singles (replicate (span gs) c.fill_char)
  pub as_singles : c.filled ≡ false → c.single_width_layout ≡ true → gs ≡ singles c.text
  pub as_columns :
      c.filled ≡ false
      → c.single_width_layout ≡ false
      → (c.columns ≡ layout gs) × (c.text ≡ text_of gs)

module _ {c : Cells} {gs : List Glyph} where
  pub width-shown : Shows c gs → width c ≡ span gs
  unfolding width
  width-shown h = let e = h.columns_width in let n = h.narrow in omega arith

  pub Shows-IsLaid : IsLaid c gs → Shows c gs
  Shows-IsLaid h = record {
    columns_width = ap length h.columns_eq ∙ length-layout gs;
    room = h.room;
    narrow = h.narrow;
    as_filled = λ e. let u = h.unfilled in cc;
    as_singles = λ e s. let u = h.explicit in cc;
    as_columns = λ e s. (h.columns_eq, h.text_eq);
  }

  pub laid : Shows c gs → c.filled ≡ false → c.single_width_layout ≡ false → IsLaid c gs
  laid h e s = record {
    unfilled = e;
    explicit = s;
    columns_eq = (h.as_columns e s).0;
    text_eq = (h.as_columns e s).1;
    room = h.room;
    narrow = h.narrow;
  }

  pub filled_cells-Shows : Shows c gs → Shows (filled_cells c) gs
  unfolding filled_cells
  filled_cells-Shows h = elim (Bool-cases c.filled) [
    | inl e ↦
        let shown : Shows
            (record c {
              text = replicate (width c) c.fill_char;
              filled = false;
              single_width_layout = true;
            })
            gs =
          record {
            columns_width = h.columns_width;
            room = h.room;
            narrow = h.narrow;
            as_filled = λ f. ground arith;
            as_singles = λ f s.
                h.as_filled e ∙ ap (λ n. singles (replicate n c.fill_char)) (sym (width-shown h));
            as_columns = λ f s. ground arith;
          } in
        rw (if_true _ _ e) shown
    | inr e ↦ rw (if_false _ _ e) h
  ]

  explicit_singles :
      Shows c gs
      → c.filled ≡ false
      → c.single_width_layout ≡ true
      → IsLaid (record c { columns = iota (length c.columns) 0; single_width_layout = false }) gs
  explicit_singles h e s =
      let g = h.as_singles e s in
      let n = length c.text in
      let p = ap span g ∙ span-singles c.text in
      let q = ap size g ∙ size-singles c.text in
      let room = h.narrow in
      let len : length c.columns ≡ suc n = omega (arith, h.columns_width) in
      let last : (0 + n) % 65536 ≡ size gs = omega arith in
      record {
        unfilled = e;
        explicit = refl;
        columns_eq =
            ap (λ k. iota k 0) len
            ∙ iota-snoc n 0
            ∙ ap (◌++ ((0 + n) % 65536 ∷ []))
                (iota-singles c.text 0 (omega arith) ∙ ap (entries 0) (sym g))
            ∙ ap (λ k. entries 0 gs ++ (k ∷ [])) last;
        text_eq = sym (text_of-singles c.text) ∙ ap text_of (sym g);
        room = h.room;
        narrow = h.narrow;
      }

  pub materialize_columns-IsLaid : Shows c gs → c.filled ≡ false → IsLaid (materialize_columns c) gs
  unfolding materialize_columns
  materialize_columns-IsLaid h e = elim (Bool-cases c.single_width_layout) [
    | inl s ↦ rw (if_true _ _ s) (explicit_singles h e s)
    | inr s ↦ rw (if_false _ _ s) (laid h e s)
  ]

pub filled_cells-unfilled : (c : Cells) → (filled_cells c).filled ≡ false
unfolding filled_cells
filled_cells-unfilled c = ground arith
