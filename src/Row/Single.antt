-- ===== src/Row/Single.antt =====
-- `try_write_single_width_run`.
use corehost.Base.{
  ℕ, zero, suc, ◌+◌, ◌-◌, ◌≤◌, ◌<◌, ◌≡◌, refl, sym, ap, ◌∙◌, true, false, ◌||◌, List, [], ◌∷◌, ◌++◌,
  arith, leb, ltb, ◌==◌, if◌then◌else◌, length, splice, set, set-splice, append_assoc, Bool-cases,
  inl, inr,
}
use corehost.Row.{Row, Cells, width, is_trailing, col_offset, filled_cells, materialize_filled}
use corehost.Row.Run.{plain_columns, store_chars, try_write_single_width_run}
use corehost.Row.Layout.{
  Glyph, single, singles, span, size, put, span-append, length-text_of, size-append,
}
use corehost.Row.Replace.{span-singles}
use corehost.Row.Laid.{IsLaid, at_start, at_trailing}
use corehost.Row.Cut.{Place, place}
use corehost.Row.Put.{put_whole}
use corehost.Row.Shows.{
  Shows, Shows-IsLaid, laid, width-shown, filled_cells-Shows, filled_cells-unfilled,
}
use corehost.Row.Written.{overwrite-Shows}
use corehost.Row.Alike.{Alike-nil, Alike-cons, overwritten-IsLaid, plain_found}

-- The loop that stores the code points where the columns say.
store_chars-IsLaid :
    (text chars : List ℕ) (c : Cells) (ls rs : List Glyph) (col : ℕ)
    → IsLaid c (ls ++ (singles chars ++ rs))
    → col ≡ span ls
    → length chars ≡ length text
    → IsLaid (store_chars col text c) (ls ++ (singles text ++ rs))
unfolding store_chars
store_chars-IsLaid [] [] c ls rs col h at e = h
store_chars-IsLaid [] (y ∷ chars) c ls rs col h at e = absurd (omega arith)
store_chars-IsLaid (x ∷ text) [] c ls rs col h at e = absurd (omega arith)
store_chars-IsLaid (x ∷ text) (y ∷ chars) c ls rs col h at e =
    let back = singles chars ++ rs in
    let start : col_offset c col ≡ size ls =
      ap (col_offset c) at ∙ (at_start ls (single y ∷ back) h).0 in
    let s = size-append ls (single y ∷ back) in
    let inside : size ls < length c.text =
      omega (arith, ap length h.text_eq, length-text_of (ls ++ (single y ∷ back))) in
    let alike = Alike-cons (single y) (single x) [] [] refl refl Alike-nil in
    let one = overwritten-IsLaid c ls (single y ∷ []) (single x ∷ []) back (x ∷ []) h alike refl in
    let stored : set c.text (col_offset c col) x ≡ splice (size ls) 1 (x ∷ []) c.text =
      ap (λ k. set c.text k x) start ∙ set-splice (size ls) x c.text inside in
    let c1 = record c { text = splice (size ls) 1 (x ∷ []) c.text } in
    let moved : IsLaid c1 ((ls ++ (single x ∷ [])) ++ back) =
      rw (append_assoc ls (single x ∷ []) back) one in
    let next : col + 1 ≡ span (ls ++ (single x ∷ [])) =
      omega (arith, span-append ls (single x ∷ [])) in
    rw (stored, ← append_assoc ls (single x ∷ []) (singles text ++ rs))
      (store_chars-IsLaid text chars c1 (ls ++ (single x ∷ [])) rs (col + 1) moved next
        (omega arith))

plain_starts :
    (n col : ℕ) (c : Cells) → 0 < n → plain_columns n col c ≡ true → is_trailing c col ≡ false
unfolding plain_columns
plain_starts zero col c h p = absurd (omega arith)
plain_starts (suc n) col c h p = ground arith

-- The loops on a row with explicit columns, where the first accepts.
store_plain-IsLaid :
    (c : Cells) (gs : List Glyph) (col : ℕ) (text : List ℕ)
    → IsLaid c gs
    → 0 < length text
    → col + length text ≤ span gs
    → plain_columns (length text) col c ≡ true
    → IsLaid (store_chars col text c) (put col (col + length text) (singles text) gs)
store_plain-IsLaid c gs col text h some le p = at_place h le p (place gs col (omega arith))
  where
    at_place :
        {gs : List Glyph} {col : ℕ}
        → IsLaid c gs
        → col + length text ≤ span gs
        → plain_columns (length text) col c ≡ true
        → Place gs col
        → IsLaid (store_chars col text c) (put col (col + length text) (singles text) gs)
    at_place h le p (Place.boundary ls rs e at) =
        let h2 : IsLaid c (ls ++ rs) = rw (← e) h in
        let p2 : plain_columns (length text) (span ls) c ≡ true = rw (← at) p in
        let f =
          plain_found c (length text) ls rs h2 p2 (omega (arith, ap span e, span-append ls rs)) in
        let shape = e ∙ ap (ls ++◌) f.parts in
        let h3 : IsLaid c (ls ++ (singles f.chars ++ f.back)) = rw (← shape) h in
        let wide : length text ≡ span (singles f.chars) = sym (span-singles f.chars ∙ f.long) in
        let shown =
          ap (put (span ls) (span ls + length text) (singles text)) shape
          ∙ ap (λ k. put (span ls) (span ls + k) (singles text) (ls ++ (singles f.chars ++ f.back)))
              wide
          ∙ put_whole ls (singles f.chars) f.back (singles text) in
        rw (at, shown) (store_chars-IsLaid text f.chars c ls f.back (span ls) h3 refl f.long)
    at_place h le p (Place.inside ls rs g i e at less) =
        let h2 : IsLaid c (ls ++ (g ∷ rs)) = rw (← e) h in
        let t = at_trailing ls rs g i h2 less in
        let f : is_trailing c (suc (span ls + i)) ≡ false =
          rw (← at) (plain_starts (length text) _ c some p) in
        absurd (ground arith)

-- On a row that shows `gs`, try_write_single_width_run of a text of one code point or more either
-- writes its code points as single columns from `col` on, or leaves what the row shows.
pub try_write_single_width_run-Shows :
    (r : Row) (gs : List Glyph) (col attr : ℕ) (text : List ℕ)
    → Shows r.cells gs
    → 0 < length text
    → let tried = try_write_single_width_run col text attr r in
      Shows tried.1.cells (if tried.0 then put col (col + length text) (singles text) gs else gs)
unfolding try_write_single_width_run materialize_filled
try_write_single_width_run-Shows r gs col attr text h some =
    let c = filled_cells r.cells in
    let h2 = filled_cells-Shows h in
    let e = filled_cells-unfilled r.cells in
    let n = length text in
    let w = width-shown h2 in
    let empty : n == 0 ≡ false = ground arith in
    rw empty (elim (Bool-cases (leb (width c) col || ltb (width c - col) n)) [
      | inl past ↦ rw past h2
      | inr fits ↦
          let le : col + n ≤ span gs = ground arith in
          rw fits (elim (Bool-cases c.single_width_layout) [
            | inl s ↦
                let written = overwrite-Shows c gs col text h2 e s le in simp s (simp s at written)
            | inr s ↦ simp s (elim (Bool-cases (plain_columns n col c)) [
              | inl p ↦
                  rw p (Shows-IsLaid (store_plain-IsLaid c gs col text (laid h2 e s) some le p))
              | inr p ↦ rw p h2
            ])
          ])
    ])
