-- ===== src/Row/Alike.antt =====
-- Text written over glyphs whose columns stay: the loops that recognise such glyphs.
use corehost.Base.{
  ℕ, zero, suc, ◌+◌, ◌≤◌, ◌≡◌, refl, sym, ap, ◌∙◌, true, List, [], ◌∷◌, ◌++◌, arith, length, splice,
  replicate, append_assoc, get_or,
}
use corehost.Row.{Cells}
use corehost.Row.Run.{plain_columns}
use corehost.Row.Layout.{
  Glyph, single, singles, span, size, text_of, entries, size-append, span-append,
}
use corehost.Row.Replace.{layout_parts, text_parts, splice-text_of, rest}
use corehost.Row.Laid.{IsLaid, width-laid}
use corehost.Row.Glyph.{IsOne, old_glyph, one_element}

-- Glyphs with the same columns and as many code points each.
pub record Alike (mid mid2 : List Glyph) : Type 0 where
  pub same_size : size mid ≡ size mid2
  pub same_span : span mid ≡ span mid2
  pub same_entries : (o : ℕ) → entries o mid ≡ entries o mid2

pub Alike-nil : Alike [] []
Alike-nil = record { same_size = refl; same_span = refl; same_entries = λ o. refl }

pub Alike-cons :
    (g g2 : Glyph) (mid mid2 : List Glyph)
    → length g.text ≡ length g2.text
    → g.extra ≡ g2.extra
    → Alike mid mid2
    → Alike (g ∷ mid) (g2 ∷ mid2)
Alike-cons g g2 mid mid2 e f a =
    let s = a.same_size in
    let t = a.same_span in
    record {
      same_size = omega arith;
      same_span = omega arith;
      same_entries = λ o.
          ap (λ k. o ∷ (replicate k (o + 32768) ++ entries (o + length g.text) mid)) f
          ∙ ap (λ k. o ∷ (replicate g2.extra (o + 32768) ++ entries (o + k) mid)) e
          ∙ ap (λ k. o ∷ (replicate g2.extra (o + 32768) ++ k))
              (a.same_entries (o + length g2.text));
    }

-- A row whose text changes under the same columns.
pub overwritten-IsLaid :
    (c : Cells) (ls mid mid2 rs : List Glyph) (new : List ℕ)
    → IsLaid c (ls ++ (mid ++ rs))
    → Alike mid mid2
    → new ≡ text_of mid2
    → IsLaid (record c { text = splice (size ls) (size mid) new c.text }) (ls ++ (mid2 ++ rs))
overwritten-IsLaid c ls mid mid2 rs new h a t =
    let s = a.same_size in
    let w = a.same_span in
    let p = size-append ls (mid ++ rs) in
    let q = size-append mid rs in
    let room = h.room in
    let p2 = size-append ls (mid2 ++ rs) in
    let q2 = size-append mid2 rs in
    let u = span-append ls (mid ++ rs) in
    let v = span-append mid rs in
    let narrow = h.narrow in
    let u2 = span-append ls (mid2 ++ rs) in
    let v2 = span-append mid2 rs in
    record {
      unfilled = h.unfilled;
      explicit = h.explicit;
      columns_eq =
          h.columns_eq
          ∙ layout_parts ls mid rs
          ∙ ap (λ k. entries 0 ls ++ (k ++ rest ls mid rs (size ls + size mid)))
              (a.same_entries (size ls))
          ∙ ap (λ k. entries 0 ls ++ (entries (size ls) mid2 ++ rest ls mid rs (size ls + k))) s
          ∙ sym (layout_parts ls mid2 rs);
      text_eq =
          ap (splice (size ls) (size mid) new) h.text_eq
          ∙ splice-text_of ls mid rs new
          ∙ ap (λ k. text_of ls ++ (k ++ text_of rs)) t
          ∙ sym (text_parts ls mid2 rs);
      room = omega arith;
      narrow = omega arith;
    }

-- The glyphs found at the front of others.
pub record Found (gs new : List Glyph) : Type 0 where
  pub middle : List Glyph
  pub back : List Glyph
  pub parts : gs ≡ middle ++ back
  pub alike : Alike middle new

pub Found-cons :
    (g g2 : Glyph) (gs new : List Glyph)
    → length g.text ≡ length g2.text
    → g.extra ≡ g2.extra
    → Found gs new
    → Found (g ∷ gs) (g2 ∷ new)
Found-cons g g2 gs new e f s = record {
  middle = g ∷ s.middle;
  back = s.back;
  parts = ap (g ∷◌) s.parts;
  alike = Alike-cons g g2 s.middle new e f s.alike;
}

IsOne-plain :
    (c : Cells) (ls rs : List Glyph) (g : Glyph) (n x : ℕ)
    → IsLaid c (ls ++ (g ∷ rs))
    → plain_columns (suc n) (span ls) c ≡ true
    → IsOne (span ls) (x ∷ []) 1 c × (plain_columns n (span ls + 1) c ≡ true)
unfolding plain_columns
IsOne-plain c ls rs g n x h p =
    let w = width-laid h in
    let s = span-append ls (g ∷ rs) in
    (
      record {
        one_column = refl;
        one_char = refl;
        unflagged = ground arith;
        ends = ground arith;
        old_char = ground arith;
      },
      ground arith,
    )

-- Single columns found at the front of glyphs.
pub record Singles (gs : List Glyph) (n : ℕ) : Type 0 where
  pub chars : List ℕ
  pub back : List Glyph
  pub parts : gs ≡ singles chars ++ back
  pub long : length chars ≡ n

is_single : (g : Glyph) → g.extra ≡ 0 → length g.text ≡ 1 → g ≡ single (get_or g.text 0 0)
is_single g e h = λ i. record { text = one_element g.text h i; extra = e i }

-- The loop of try_write_single_width_run accepts only glyphs of one column and one code point.
pub plain_found :
    (c : Cells) (n : ℕ) (ls gs : List Glyph)
    → IsLaid c (ls ++ gs)
    → plain_columns n (span ls) c ≡ true
    → n ≤ span gs
    → Singles gs n
plain_found c zero ls gs h p le = record { chars = []; back = gs; parts = refl; long = refl }
plain_found c (suc n) ls [] h p le = absurd (omega arith)
plain_found c (suc n) ls (g ∷ gs) h p le =
    let one = IsOne-plain c ls gs g n 0 h p in
    let old = old_glyph c ls gs g (0 ∷ []) 1 h one.0 in
    let narrow = old.0 in
    let next : IsLaid c ((ls ++ (g ∷ [])) ++ gs) = rw (append_assoc ls (g ∷ []) gs) h in
    let at : span (ls ++ (g ∷ [])) ≡ span ls + 1 = omega (arith, span-append ls (g ∷ [])) in
    let more : plain_columns n (span (ls ++ (g ∷ []))) c ≡ true = rw at one.1 in
    let found = plain_found c n (ls ++ (g ∷ [])) gs next more (omega arith) in
    record {
      chars = get_or g.text 0 0 ∷ found.chars;
      back = found.back;
      parts = ap (◌∷ gs) (is_single g old.0 old.1) ∙ ap (single (get_or g.text 0 0) ∷◌) found.parts;
      long = ap suc found.long;
    }
