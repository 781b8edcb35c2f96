-- ===== src/Row/Replace.antt =====
-- `_shift_columns_from` and the replacement of a range of a row with explicit columns.
use corehost.Base.{
  ℕ, zero, suc, ◌+◌, ◌%◌, ◌≤◌, ◌≡◌, refl, sym, ap, ◌∙◌, false, List, [], ◌∷◌, ◌++◌, arith, length,
  length-append, replicate, splice, splice-append, append_assoc,
}
use corehost.Row.{Cells, iota, moved_entry, shift_from}
use corehost.Row.Layout.{
  Glyph, singles, span, size, text_of, entries, layout, length-entries, length-text_of,
  layout-append, entries-append, size-append, span-append, text_of-append,
}
use corehost.Row.Laid.{IsLaid}

pub span-singles : (cps : List ℕ) → span (singles cps) ≡ length cps
span-singles [] = refl
span-singles (cp ∷ cps) = omega (arith, span-singles cps)

pub size-singles : (cps : List ℕ) → size (singles cps) ≡ length cps
size-singles [] = refl
size-singles (cp ∷ cps) = omega (arith, size-singles cps)

pub text_of-singles : (cps : List ℕ) → text_of (singles cps) ≡ cps
text_of-singles [] = refl
text_of-singles (cp ∷ cps) = ap (cp ∷◌) (text_of-singles cps)

pub iota-singles :
    (cps : List ℕ) (v : ℕ) → v + length cps ≤ 65535 → iota (length cps) v ≡ entries v (singles cps)
iota-singles [] v h = refl
iota-singles (cp ∷ cps) v h =
    let e : v % 65536 ≡ v = omega arith in rw e (ap (v ∷◌) (iota-singles cps (v + 1) (omega arith)))

pub shift_from-append :
    (xs ys : List ℕ) (d : ℕ) → shift_from (length xs) d (xs ++ ys) ≡ xs ++ shift_from 0 d ys
shift_from-append [] ys d = refl
shift_from-append (x ∷ xs) ys d = ap (x ∷◌) (shift_from-append xs ys d)

-- A difference that takes one 15-bit offset to another.
abbrev pub Moves : ℕ → ℕ → ℕ → Type 0
Moves d o o2 = (o + d) % 65536 ≡ o2

moved_entry_plain : (d o o2 : ℕ) → Moves d o o2 → o ≤ 32767 → o2 ≤ 32767 → moved_entry d o ≡ o2
moved_entry_plain d o o2 m h k = ground arith

moved_entry_flagged :
    (d o o2 : ℕ) → Moves d o o2 → o ≤ 32767 → o2 ≤ 32767 → moved_entry d (o + 32768) ≡ o2 + 32768
moved_entry_flagged d o o2 m h k = ground arith

shift_from-replicate :
    (n d e e2 : ℕ) (es : List ℕ)
    → moved_entry d e ≡ e2
    → shift_from 0 d (replicate n e ++ es) ≡ replicate n e2 ++ shift_from 0 d es
shift_from-replicate zero d e e2 es h = refl
shift_from-replicate (suc n) d e e2 es h = rw h (ap (e2 ∷◌) (shift_from-replicate n d e e2 es h))

-- The entries behind a replaced range, moved from one offset to another.
pub shift_from-entries :
    (gs : List Glyph) (d o o2 : ℕ)
    → Moves d o o2
    → o + size gs ≤ 32767
    → o2 + size gs ≤ 32767
    → shift_from 0 d (entries o gs ++ ((o + size gs) ∷ [])) ≡ entries o2 gs ++ ((o2 + size gs) ∷ [])
shift_from-entries [] d o o2 m h k =
    ap (◌∷ []) (moved_entry_plain d (o + 0) (o2 + 0) (omega arith) h k)
shift_from-entries (g ∷ gs) d o o2 m h k =
    let n = length g.text in
    let a : o + size (g ∷ gs) ≡ o + n + size gs = omega arith in
    let b : o2 + size (g ∷ gs) ≡ o2 + n + size gs = omega arith in
    let more = entries (o + n) gs ++ ((o + n + size gs) ∷ []) in
    let s = moved_entry_flagged d o o2 m (omega arith) (omega arith) in
    rw (a, b, moved_entry_plain d o o2 m (omega arith) (omega arith))
      (ap (o2 ∷◌) (
        ap (shift_from 0 d) (append_assoc (replicate g.extra (o + 32768)) _ _)
        ∙ shift_from-replicate g.extra d (o + 32768) (o2 + 32768) more s
        ∙ ap (replicate g.extra (o2 + 32768) ++◌)
            (shift_from-entries gs d (o + n) (o2 + n) (omega arith) (omega arith) (omega arith))
        ∙ sym (append_assoc (replicate g.extra (o2 + 32768)) _ _)))

module _ (ls mid rs : List Glyph) where
  abbrev pub rest : ℕ → List ℕ
  rest offset = entries offset rs ++ ((offset + size rs) ∷ [])

  -- A row's entries in three parts.
  pub layout_parts :
      layout (ls ++ (mid ++ rs))
      ≡ entries 0 ls ++ (entries (size ls) mid ++ rest (size ls + size mid))
  layout_parts =
      let e : size ls + (size mid + size rs) ≡ size ls + size mid + size rs = omega arith in
      layout-append ls (mid ++ rs)
      ∙ ap (entries 0 ls ++◌) (
          rw (entries-append (size ls) mid rs, size-append mid rs, e)
            (append_assoc (entries (size ls) mid) _ _))

  pub text_parts : text_of (ls ++ (mid ++ rs)) ≡ text_of ls ++ (text_of mid ++ text_of rs)
  text_parts = text_of-append ls (mid ++ rs) ∙ ap (text_of ls ++◌) (text_of-append mid rs)

-- The middle of a row replaced, and what follows moved.
pub shift-layout :
    (ls mid rs : List Glyph) (old d end : ℕ)
    → end ≡ span ls + span mid
    → Moves d (size ls + old) (size ls + size mid)
    → size ls + old + size rs ≤ 32767
    → size ls + size mid + size rs ≤ 32767
    → shift_from end d (entries 0 ls ++ (entries (size ls) mid ++ rest ls mid rs (size ls + old)))
      ≡ layout (ls ++ (mid ++ rs))
shift-layout ls mid rs old d end at m h k =
    let xs = entries 0 ls ++ entries (size ls) mid in
    let n : end ≡ length xs = omega (
      arith,
      at,
      length-append (entries 0 ls) (entries (size ls) mid),
      length-entries 0 ls,
      length-entries (size ls) mid,
    ) in
    rw (n, ← append_assoc (entries 0 ls) (entries (size ls) mid) (rest ls mid rs (size ls + old)))
      (shift_from-append xs _ d
        ∙ ap (xs ++◌) (shift_from-entries rs d _ _ m h k)
        ∙ append_assoc (entries 0 ls) _ _
        ∙ sym (layout_parts ls mid rs))

module _ (ls mid rs : List Glyph) where
  pub splice-layout :
      (new : List ℕ)
      → splice (span ls) (span mid) new (layout (ls ++ (mid ++ rs)))
        ≡ entries 0 ls ++ (new ++ rest ls mid rs (size ls + size mid))
  splice-layout new =
      rw (layout_parts ls mid rs, ← length-entries 0 ls, ← length-entries (size ls) mid)
        (splice-append (entries 0 ls) (entries (size ls) mid) _ new)

  pub splice-text_of :
      (new : List ℕ)
      → splice (size ls) (size mid) new (text_of (ls ++ (mid ++ rs)))
        ≡ text_of ls ++ (new ++ text_of rs)
  splice-text_of new =
      rw (text_parts ls mid rs, ← length-text_of ls, ← length-text_of mid)
        (splice-append (text_of ls) (text_of mid) _ new)

  -- Other glyphs over the same columns: the text replaced, the entries written, the rest moved.
  pub replaced-IsLaid :
      (mid2 : List Glyph) (c c2 : Cells) (d end : ℕ)
      → IsLaid c (ls ++ (mid ++ rs))
      → c2.filled ≡ false
      → c2.single_width_layout ≡ false
      → c2.text ≡ splice (size ls) (size mid) (text_of mid2) c.text
      → c2.columns
        ≡ shift_from end d (splice (span ls) (span mid) (entries (size ls) mid2) c.columns)
      → span mid2 ≡ span mid
      → end ≡ span ls + span mid
      → Moves d (size ls + size mid) (size ls + size mid2)
      → size (ls ++ (mid2 ++ rs)) ≤ 32767
      → IsLaid c2 (ls ++ (mid2 ++ rs))
  replaced-IsLaid mid2 c c2 d end h f s text columns same at m room =
      let old_size = h.room in
      let a = size-append ls (mid ++ rs) in
      let b = size-append mid rs in
      let a2 = size-append ls (mid2 ++ rs) in
      let b2 = size-append mid2 rs in
      let p = span-append ls (mid ++ rs) in
      let q = span-append mid rs in
      let p2 = span-append ls (mid2 ++ rs) in
      let q2 = span-append mid2 rs in
      let narrow = h.narrow in
      record {
        unfilled = f;
        explicit = s;
        columns_eq =
            columns
            ∙ ap (λ es. shift_from end d (splice (span ls) (span mid) (entries (size ls) mid2) es))
                h.columns_eq
            ∙ ap (shift_from end d) (splice-layout (entries (size ls) mid2))
            ∙ shift-layout ls mid2 rs (size mid) d end (omega arith) m (omega arith) (omega arith);
        text_eq =
            text
            ∙ ap (splice (size ls) (size mid) (text_of mid2)) h.text_eq
            ∙ splice-text_of (text_of mid2)
            ∙ sym (text_parts ls mid2 rs);
        room = room;
        narrow = omega arith;
      }
