-- ===== src/Row/Layout.antt =====
-- What a row shows: a list of glyphs, and the texts and columns that stand for one. `cut`,
-- `put` and the readers below are the description that the writers and readers of a row are
-- compared with.
use corehost.Base.{
  ℕ, zero, suc, ◌+◌, ◌-◌, ◌<◌, ◌≡◌, refl, sym, ap, ◌∙◌, List, [], ◌∷◌, ◌++◌, arith, leb,
  if◌then◌else◌, length, length-append, length-replicate, get_or, get_or-append, get_or-append_left,
  get_or-replicate, replicate, append_assoc,
}

-- A glyph covers `extra` columns more than its first one.
pub record Glyph : Type 0 where
  pub text : List ℕ
  pub extra : ℕ

abbrev pub single : ℕ → Glyph
single cp = record { text = cp ∷ []; extra = 0 }

abbrev pub singles : List ℕ → List Glyph
singles [] = []
singles (cp ∷ cps) = single cp ∷ singles cps

-- The number of columns, and of code points.
abbrev pub span : List Glyph → ℕ
span [] = 0
span (g ∷ gs) = suc g.extra + span gs

abbrev pub text_of : List Glyph → List ℕ
text_of [] = []
text_of (g ∷ gs) = g.text ++ text_of gs

abbrev pub size : List Glyph → ℕ
size [] = 0
size (g ∷ gs) = length g.text + size gs

-- The entries of the glyphs, whose code points start at an offset, and those of a whole row.
abbrev pub entries : ℕ → List Glyph → List ℕ
entries offset [] = []
entries offset (g ∷ gs) =
    offset ∷ (replicate g.extra (offset + 32768) ++ entries (offset + length g.text) gs)

abbrev pub layout : List Glyph → List ℕ
layout gs = entries 0 gs ++ (size gs ∷ [])

-- A glyph that the boundary before column `col` cuts becomes one space for each column.
abbrev pub cut : ℕ → List Glyph → List Glyph
cut zero gs = gs
cut (suc col) [] = []
cut (suc col) (g ∷ gs) =
    if leb g.extra col
    then g ∷ cut (col - g.extra) gs
    else singles (replicate (suc g.extra) 32) ++ gs

-- The glyphs that end at `col` or before, and those that start there or behind.
abbrev pub before : ℕ → List Glyph → List Glyph
before zero gs = []
before (suc col) [] = []
before (suc col) (g ∷ gs) = if leb g.extra col then g ∷ before (col - g.extra) gs else []

abbrev pub from : ℕ → List Glyph → List Glyph
from zero gs = gs
from (suc col) [] = []
from (suc col) (g ∷ gs) = if leb g.extra col then from (col - g.extra) gs else gs

-- New glyphs in place of the columns from `col` up to `end`.
unfoldable pub put : ℕ → ℕ → List Glyph → List Glyph → List Glyph
put col end new gs = let whole = cut end (cut col gs) in before col whole ++ (new ++ from end whole)

pub size-append : (ls rs : List Glyph) → size (ls ++ rs) ≡ size ls + size rs
size-append [] rs = omega arith
size-append (g ∷ ls) rs = omega (arith, size-append ls rs)

pub span-append : (ls rs : List Glyph) → span (ls ++ rs) ≡ span ls + span rs
span-append [] rs = omega arith
span-append (g ∷ ls) rs = omega (arith, span-append ls rs)

pub length-text_of : (gs : List Glyph) → length (text_of gs) ≡ size gs
length-text_of [] = refl
length-text_of (g ∷ gs) =
    length-append g.text (text_of gs) ∙ ap (length g.text +◌) (length-text_of gs)

pub text_of-append : (ls rs : List Glyph) → text_of (ls ++ rs) ≡ text_of ls ++ text_of rs
text_of-append [] rs = refl
text_of-append (g ∷ ls) rs =
    ap (g.text ++◌) (text_of-append ls rs) ∙ sym (append_assoc g.text (text_of ls) (text_of rs))

pub length-entries : (offset : ℕ) (gs : List Glyph) → length (entries offset gs) ≡ span gs
length-entries offset [] = refl
length-entries offset (g ∷ gs) =
    let rest = entries (offset + length g.text) gs in
    let e = length-append (replicate g.extra (offset + 32768)) rest in
    let r = length-replicate g.extra (offset + 32768) in
    omega (arith, length-entries (offset + length g.text) gs)

pub entries-append :
    (offset : ℕ) (ls rs : List Glyph)
    → entries offset (ls ++ rs) ≡ entries offset ls ++ entries (offset + size ls) rs
entries-append offset [] rs = let e : offset + 0 ≡ offset = omega arith in rw e
entries-append offset (g ∷ ls) rs =
    let trailing = replicate g.extra (offset + 32768) in
    let e : offset + size (g ∷ ls) ≡ offset + length g.text + size ls = omega arith in
    ap (λ es. offset ∷ (trailing ++ es))
      (entries-append (offset + length g.text) ls rs
        ∙ ap (λ o. entries (offset + length g.text) ls ++ entries o rs) (sym e))
    ∙ ap (offset ∷◌) (sym (append_assoc trailing (entries (offset + length g.text) ls) _))

pub length-layout : (gs : List Glyph) → length (layout gs) ≡ suc (span gs)
length-layout gs =
    let e = length-append (entries 0 gs) (size gs ∷ []) in omega (arith, length-entries 0 gs)

-- A row's entries in two parts.
pub layout-append :
    (ls rs : List Glyph)
    → layout (ls ++ rs) ≡ entries 0 ls ++ (entries (size ls) rs ++ ((size ls + size rs) ∷ []))
layout-append ls rs =
    let e : 0 + size ls ≡ size ls = omega arith in
    rw (entries-append 0 ls rs, size-append ls rs, e) (append_assoc (entries 0 ls) _ _)

-- The entry of the first column behind `ls`, and of a trailing column of the glyph there.
pub get_or-layout_start : (ls rs : List Glyph) → get_or (layout (ls ++ rs)) (span ls) 0 ≡ size ls
get_or-layout_start ls rs =
    let tail = entries (size ls) rs ++ ((size ls + size rs) ∷ []) in
    let i : span ls ≡ length (entries 0 ls) + 0 = omega (arith, length-entries 0 ls) in
    rw (layout-append ls rs, i) (get_or-append (entries 0 ls) tail 0 0 ∙ head rs)
  where
    head :
        (rs : List Glyph)
        → get_or (entries (size ls) rs ++ ((size ls + size rs) ∷ [])) 0 0 ≡ size ls
    head [] = omega arith
    head (g ∷ rs) = refl

pub get_or-layout_trailing :
    (ls rs : List Glyph) (g : Glyph) (i : ℕ)
    → i < g.extra
    → get_or (layout (ls ++ (g ∷ rs))) (suc (span ls + i)) 0 ≡ size ls + 32768
get_or-layout_trailing ls rs g i h =
    let e = size ls + 32768 in
    let tail = entries (size ls) (g ∷ rs) ++ ((size ls + size (g ∷ rs)) ∷ []) in
    let j : suc (span ls + i) ≡ length (entries 0 ls) + suc i =
      omega (arith, length-entries 0 ls) in
    rw (layout-append ls (g ∷ rs), j)
      (get_or-append (entries 0 ls) tail (suc i) 0
        ∙ get_or-append_left (replicate g.extra e ++ entries (size ls + length g.text) rs) _ i 0
            (inside i h)
        ∙ get_or-append_left (replicate g.extra e) _ i 0 (omega (arith, length-replicate g.extra e))
        ∙ get_or-replicate g.extra i e 0 h)
  where
    inside :
        (i : ℕ)
        → i < g.extra
        → i < length (replicate g.extra (size ls + 32768) ++ entries (size ls + length g.text) rs)
    inside i h =
        let e = size ls + 32768 in
        let l = length-append (replicate g.extra e) (entries (size ls + length g.text) rs) in
        omega (arith, length-replicate g.extra e)
