-- ===== src/Row/Store.antt =====
-- The loops that write the entries of a measured run.
use corehost.Base.{
  ℕ, suc, ◌+◌, ◌-◌, ◌%◌, ◌≤◌, ◌≡◌, refl, sym, ap, ◌∙◌, Bool, true, List, [], ◌∷◌, ◌++◌, arith, leb,
  length, length-replicate, splice, splice-splice, length-splice, store_range, store_range-set,
  replicate, set, take-append-drop, ◌&&◌,
}
use corehost.Row.{or_flag}
use corehost.Row.Run.{store_run}
use corehost.Row.Layout.{Glyph, span, size, text_of, entries, length-text_of}

-- The glyphs of a run.
abbrev pub run_glyphs : List ℕ → List ℕ → List Glyph
run_glyphs [] widths = []
run_glyphs (x ∷ text) [] = []
run_glyphs (x ∷ text) (w ∷ widths) =
    record { text = x ∷ []; extra = w - 1 } ∷ run_glyphs text widths

abbrev pub sum : List ℕ → ℕ
sum [] = 0
sum (w ∷ widths) = w + sum widths

abbrev pub all_positive : List ℕ → Bool
all_positive [] = true
all_positive (w ∷ widths) = leb 1 w && all_positive widths

-- Each code point has a width, at least one column, and the widths add up to `total`.
pub record IsRun (text widths : List ℕ) (total : ℕ) : Type 0 where
  pub same_length : length text ≡ length widths
  pub adds_up : sum widths ≡ total
  pub positive : all_positive widths ≡ true

module _ (x w total : ℕ) (text widths : List ℕ) where
  pub head_width : IsRun (x ∷ text) (w ∷ widths) total → (1 ≤ w) × (w ≤ total)
  head_width h = let e = h.adds_up in let p = h.positive in (ground arith, omega arith)

  pub tail_IsRun : IsRun (x ∷ text) (w ∷ widths) total → IsRun text widths (total - w)
  tail_IsRun h =
      let l = h.same_length in
      let e = h.adds_up in
      let p = h.positive in
      record { same_length = omega arith; adds_up = omega arith; positive = ground arith }

pub span-run_glyphs :
    (text widths : List ℕ) (total : ℕ)
    → IsRun text widths total
    → span (run_glyphs text widths) ≡ total
span-run_glyphs [] [] total h = h.adds_up
span-run_glyphs [] (w ∷ widths) total h = absurd (let e = h.same_length in omega arith)
span-run_glyphs (x ∷ text) [] total h = absurd (let e = h.same_length in omega arith)
span-run_glyphs (x ∷ text) (w ∷ widths) total h =
    let p = head_width x w total text widths h in
    let r = span-run_glyphs text widths (total - w) (tail_IsRun x w total text widths h) in
    omega arith

pub text_of-run_glyphs :
    (text widths : List ℕ) → length text ≡ length widths → text_of (run_glyphs text widths) ≡ text
text_of-run_glyphs [] widths h = refl
text_of-run_glyphs (x ∷ text) [] h = absurd (omega arith)
text_of-run_glyphs (x ∷ text) (w ∷ widths) h =
    ap (x ∷◌) (text_of-run_glyphs text widths (omega arith))

pub size-run_glyphs :
    (text widths : List ℕ)
    → length text ≡ length widths
    → size (run_glyphs text widths) ≡ length text
size-run_glyphs text widths h =
    sym (length-text_of (run_glyphs text widths)) ∙ ap length (text_of-run_glyphs text widths h)

-- The loop writes the entries of the run's glyphs, and nothing else.
pub store_run-splice :
    (text widths : List ℕ) (cell offset total : ℕ) (columns : List ℕ)
    → IsRun text widths total
    → cell + total ≤ length columns
    → length columns ≤ 65535
    → offset + length text ≤ 32767
    → store_run cell offset text widths columns
      ≡ splice cell total (entries offset (run_glyphs text widths)) columns
unfolding store_run
store_run-splice [] [] cell offset total columns h fits narrow room =
    let z : cell + total ≡ cell = let e = h.adds_up in omega arith in
    rw z (sym (take-append-drop cell columns))
store_run-splice [] (w ∷ widths) cell offset total columns h fits narrow room =
    absurd (let e = h.same_length in omega arith)
store_run-splice (x ∷ text) [] cell offset total columns h fits narrow room =
    absurd (let e = h.same_length in omega arith)
store_run-splice (x ∷ text) (w ∷ widths) cell offset total columns h fits narrow room =
    let p = head_width x w total text widths h in
    let e = w - 1 in
    let flag : or_flag offset ≡ offset + 32768 = omega arith in
    let next : cell + 1 ≡ suc cell = omega arith in
    let c2 : (cell + w) % 65536 ≡ cell + w = omega arith in
    let o2 : (offset + 1) % 65536 ≡ offset + 1 = omega arith in
    let own = offset ∷ replicate e (offset + 32768) in
    let wide : suc e ≡ w = omega arith in
    let stored : store_range e (cell + 1) (or_flag offset) (set columns cell offset)
        ≡ splice cell w own columns =
      rw (flag, next)
        (store_range-set cell e offset (offset + 32768) columns (omega arith)
          ∙ ap (λ k. splice cell k own columns) wide) in
    let own_length : length own ≡ w = omega (arith, length-replicate e (offset + 32768)) in
    let kept = length-splice cell w own columns own_length (omega arith) in
    let all : w + (total - w) ≡ total = omega arith in
    let rest_entries = entries (offset + 1) (run_glyphs text widths) in
    rw (c2, o2)
      (ap (store_run (cell + w) (offset + 1) text widths) stored
        ∙ store_run-splice text widths (cell + w) (offset + 1) (total - w)
            (splice cell w own columns) (tail_IsRun x w total text widths h) (omega arith)
            (omega arith) (omega arith)
        ∙ splice-splice cell w (total - w) own rest_entries columns own_length (omega arith)
        ∙ ap (λ k. splice cell k (own ++ rest_entries) columns) all)
