-- ===== src/Row/Laid.antt =====
-- The readers of a row with explicit columns, against its glyphs.
use corehost.Base.{
  ℕ, zero, suc, ◌+◌, ◌≤◌, ◌<◌, ◌≡◌, refl, ◌∙◌, true, false, List, [], ◌∷◌, ◌++◌, arith,
  append_assoc, le_cases, ltb, length, get_or, inl, inr,
}
use corehost.Row.{
  Cells, width, col_offset, is_trailing, find_lead, run_end, glyph_end, offset_of, flagged,
}
use corehost.Row.Layout.{
  Glyph, span, size, layout, text_of, length-layout, span-append, size-append, get_or-layout_start,
  get_or-layout_trailing,
}

-- Explicit columns and text that are those of the glyphs, with offsets of 15 bits.
pub record IsLaid (c : Cells) (gs : List Glyph) : Type 0 where
  pub unfilled : c.filled ≡ false
  pub explicit : c.single_width_layout ≡ false
  pub columns_eq : c.columns ≡ layout gs
  pub text_eq : c.text ≡ text_of gs
  pub room : size gs ≤ 32767
  pub narrow : span gs ≤ 32767

-- The pure facts of a 15-bit entry.
pub offset_of-plain : (n : ℕ) → n ≤ 32767 → (offset_of n ≡ n) × (flagged n ≡ false)
offset_of-plain n h = (omega arith, ground arith)

pub offset_of-flagged :
    (n : ℕ) → n ≤ 32767 → (offset_of (n + 32768) ≡ n) × (flagged (n + 32768) ≡ true)
offset_of-flagged n h = (omega arith, ground arith)

module _ {c : Cells} {gs : List Glyph} where
  pub width-laid : IsLaid c gs → width c ≡ span gs
  unfolding width
  width-laid h = rw h.columns_eq (let e = length-layout gs in let n = h.narrow in omega arith)

  entry_read :
      (col n : ℕ)
      → IsLaid c gs
      → col ≤ span gs
      → get_or (layout gs) col 0 ≡ n
      → (col_offset c col ≡ offset_of n) × (is_trailing c col ≡ flagged n)
  unfolding col_offset is_trailing
  entry_read col n h le e =
      let l = length-layout gs in
      rw (h.unfilled, h.explicit, h.columns_eq, e) (ground arith, ground arith)

module _ {c : Cells} (ls rs : List Glyph) where
  -- A boundary between glyphs.
  pub at_start :
      IsLaid c (ls ++ rs) → (col_offset c (span ls) ≡ size ls) × (is_trailing c (span ls) ≡ false)
  at_start h =
      let s = size-append ls rs in
      let p = span-append ls rs in
      let room = h.room in
      let m = offset_of-plain (size ls) (omega arith) in
      let r = entry_read (span ls) (size ls) h (omega arith) (get_or-layout_start ls rs) in
      (r.0 ∙ m.0, r.1 ∙ m.1)

module _ {c : Cells} (ls rs : List Glyph) (g : Glyph) where
  pub at_trailing :
      (i : ℕ)
      → IsLaid c (ls ++ (g ∷ rs))
      → i < g.extra
      → (col_offset c (suc (span ls + i)) ≡ size ls) × (is_trailing c (suc (span ls + i)) ≡ true)
  at_trailing i h less =
      let s = size-append ls (g ∷ rs) in
      let p = span-append ls (g ∷ rs) in
      let room = h.room in
      let m = offset_of-flagged (size ls) (omega arith) in
      let r =
        entry_read (suc (span ls + i)) (size ls + 32768) h (omega arith)
          (get_or-layout_trailing ls rs g i less) in
      (r.0 ∙ m.0, r.1 ∙ m.1)

  -- The boundary behind the glyph.
  pub at_end :
      IsLaid c (ls ++ (g ∷ rs))
      → (col_offset c (suc (span ls + g.extra)) ≡ size ls + length g.text)
        × (is_trailing c (suc (span ls + g.extra)) ≡ false)
  at_end h =
      let e = append_assoc ls (g ∷ []) rs in
      let s = size-append ls (g ∷ []) in
      let p = span-append ls (g ∷ []) in
      let n : span (ls ++ (g ∷ [])) ≡ suc (span ls + g.extra) = omega arith in
      let m : size (ls ++ (g ∷ [])) ≡ size ls + length g.text = omega arith in
      rw (← n, ← m) (at_start (ls ++ (g ∷ [])) rs (rw e h))

find_lead_stop : (c : Cells) (n : ℕ) → is_trailing c n ≡ false → find_lead c n ≡ n
unfolding find_lead
find_lead_stop c zero h = refl
find_lead_stop c (suc n) h = rw h refl

module _ {c : Cells} (ls rs : List Glyph) (g : Glyph) where
  -- From any column of a glyph the two loops find its ends.
  pub find_lead-laid :
      (i : ℕ) → IsLaid c (ls ++ (g ∷ rs)) → i ≤ g.extra → find_lead c (span ls + i) ≡ span ls
  unfolding find_lead
  find_lead-laid zero h le =
      let e : span ls + 0 ≡ span ls = omega arith in
      rw e (find_lead_stop c (span ls) (at_start ls (g ∷ rs) h).1)
  find_lead-laid (suc i) h le =
      let e : span ls + suc i ≡ suc (span ls + i) = omega arith in
      rw (e, (at_trailing ls rs g i h (omega arith)).1) (find_lead-laid i h (omega arith))

  run_end-laid :
      (fuel i : ℕ)
      → IsLaid c (ls ++ (g ∷ rs))
      → i ≤ g.extra
      → g.extra ≤ i + fuel
      → run_end c fuel (suc (span ls + i)) ≡ suc (span ls + g.extra)
  unfolding run_end
  run_end-laid zero i h le enough = omega arith
  run_end-laid (suc fuel) i h le enough = elim (le_cases i g.extra le) [
    | inl e ↦ rw (e, (at_end ls rs g h).1) (ground arith)
    | inr less ↦
        let w = width-laid h in
        let p = span-append ls (g ∷ rs) in
        let s : suc (suc (span ls + i)) ≡ suc (span ls + suc i) = omega arith in
        let t : ltb (suc (span ls + i)) (width c) ≡ true = ground arith in
        rw (t, (at_trailing ls rs g i h less).1, s)
          (run_end-laid fuel (suc i) h (omega arith) (omega arith))
  ]

  pub glyph_end-laid :
      (i : ℕ)
      → IsLaid c (ls ++ (g ∷ rs))
      → i ≤ g.extra
      → glyph_end c (span ls + i) ≡ suc (span ls + g.extra)
  unfolding glyph_end
  glyph_end-laid i h le =
      let w = width-laid h in
      let p = span-append ls (g ∷ rs) in
      let s : span ls + i + 1 ≡ suc (span ls + i) = omega arith in
      rw s (run_end-laid _ i h le (omega arith))
