-- ===== src/Screen/Fits.antt =====
-- The loop of write_text_row, and the run of text that it measures.
use corehost.Base.{
  ℕ, zero, suc, ◌+◌, ◌-◌, ◌≤◌, ◌<◌, ◌≡◌, refl, sym, ap, ◌∙◌, true, false, List, [], ◌∷◌, ◌++◌,
  arith, ltb, if◌then◌else◌, length, length-append, replicate, append_assoc, append_nil, if_true,
  if_false, Bool-cases, ◌⊎◌, inl, inr, get_or,
}
use corehost.Row.Store.{sum, all_positive}
use corehost.Screen.Text.{Fit, one_more, one_or_two, fit_text}

sum-append : (xs ys : List ℕ) → sum (xs ++ ys) ≡ sum xs + sum ys
sum-append [] ys = omega arith
sum-append (x ∷ xs) ys = omega (arith, sum-append xs ys)

replicate-snoc : (n v : ℕ) → replicate n v ++ (v ∷ []) ≡ replicate (suc n) v
replicate-snoc zero v = refl
replicate-snoc (suc n) v = ap (v ∷◌) (replicate-snoc n v)

-- A code point takes one column, or two if it is measured as more than one.
abbrev pub cell_width : ℕ → ℕ
cell_width w = if ltb 1 w then 2 else 1

one_or_two_lem : (w : ℕ) → one_or_two w ≡ cell_width w
one_or_two_lem w = ground arith

module _ (measure : ℕ → ℕ) where
  -- The widths of a text.
  abbrev pub widths_of : List ℕ → List ℕ
  widths_of [] = []
  widths_of (ch ∷ text) = cell_width (measure ch) ∷ widths_of text

  widths_of-append : (xs ys : List ℕ) → widths_of (xs ++ ys) ≡ widths_of xs ++ widths_of ys
  widths_of-append [] ys = refl
  widths_of-append (x ∷ xs) ys = ap (cell_width (measure x) ∷◌) (widths_of-append xs ys)

  pub length-widths_of : (xs : List ℕ) → length (widths_of xs) ≡ length xs
  length-widths_of [] = refl
  length-widths_of (x ∷ xs) = ap suc (length-widths_of xs)

  pub positive-widths_of : (xs : List ℕ) → all_positive (widths_of xs) ≡ true
  positive-widths_of [] = refl
  positive-widths_of (x ∷ xs) = let p = positive-widths_of xs in ground arith

  -- What has been measured is the text `done`.
  pub record IsFit (done : List ℕ) (f : Fit) : Type 0 where
    pub consumed_eq : f.consumed ≡ length done
    pub cells_eq : f.cell_count ≡ sum (widths_of done)
    pub flat : f.all_single ≡ true → widths_of done ≡ replicate (length done) 1
    pub listed : f.all_single ≡ false → f.widths ≡ widths_of done

  widths_before :
      (done : List ℕ) (f : Fit)
      → IsFit done f
      → (if f.all_single then replicate f.consumed 1 else f.widths) ≡ widths_of done
  widths_before done f h = elim (Bool-cases f.all_single) [
    | inl e ↦ if_true _ _ e ∙ ap (λ k. replicate k 1) h.consumed_eq ∙ sym (h.flat e)
    | inr e ↦ if_false _ _ e ∙ h.listed e
  ]

  one_more-IsFit :
      (done : List ℕ) (ch : ℕ) (f : Fit)
      → IsFit done f
      → f.cell_count + cell_width (measure ch) ≤ 65535
      → IsFit (done ++ (ch ∷ [])) (one_more (cell_width (measure ch)) f)
  unfolding one_more
  one_more-IsFit done ch f h fits =
      let w = cell_width (measure ch) in
      let widths = widths_of-append done (ch ∷ []) in
      let n = length-append done (ch ∷ []) in
      let total = ap sum widths ∙ sum-append (widths_of done) (w ∷ []) in
      let count = h.consumed_eq in
      let cells = h.cells_eq in
      record {
        consumed_eq = omega arith;
        cells_eq = omega arith;
        flat = λ e.
            let one : w ≡ 1 = ground arith in
            let long : suc (length done) ≡ length (done ++ (ch ∷ [])) = omega arith in
            widths
            ∙ ap (λ k. widths_of done ++ (k ∷ [])) one
            ∙ ap (◌++ (1 ∷ [])) (h.flat (ground arith))
            ∙ replicate-snoc (length done) 1
            ∙ ap (λ k. replicate k 1) long;
        listed = λ e. if_false _ _ e ∙ ap (◌++ (w ∷ [])) (widths_before done f h) ∙ sym widths;
      }

  one_more_cells :
      (w : ℕ) (f : Fit) → f.cell_count + w ≤ 65535 → (one_more w f).cell_count ≡ f.cell_count + w
  unfolding one_more
  one_more_cells w f h = omega arith

  -- The text that the loop takes, and the text that it leaves.
  pub record Taken (done text : List ℕ) (x right : ℕ) (f : Fit) : Type 0 where
    pub more : List ℕ
    pub left : List ℕ
    pub parts : text ≡ more ++ left
    pub fit : IsFit (done ++ more) f
    pub inside : x + f.cell_count ≤ right + 1
    -- The loop stops only at the end, or where the next code point does not fit.
    pub stopped :
        (length left ≡ 0) ⊎ (right < x + f.cell_count + cell_width (measure (get_or left 0 0)) - 1)

  pub fit_text-Taken :
      (text done : List ℕ) (x right : ℕ) (f : Fit)
      → IsFit done f
      → x + f.cell_count ≤ right + 1
      → right ≤ 32766
      → Taken done text x right (fit_text measure x right text f)
  unfolding fit_text
  fit_text-Taken [] done x right f h inside narrow = record {
    more = [];
    left = [];
    parts = refl;
    fit = rw (append_nil done) h;
    inside = inside;
    stopped = inl refl;
  }
  fit_text-Taken (ch ∷ text) done x right f h inside narrow =
      let w = cell_width (measure ch) in
      let small : w ≤ 2 = ground arith in
      rw (one_or_two_lem (measure ch)) (elim (Bool-cases (ltb right (x + f.cell_count + w - 1))) [
        | inl e ↦ rw (if_true _ _ e) (record {
          more = [];
          left = ch ∷ text;
          parts = refl;
          fit = rw (append_nil done) h;
          inside = inside;
          stopped = inr (ground arith);
        })
        | inr e ↦
            let next = one_more-IsFit done ch f h (omega arith) in
            let cells : (one_more w f).cell_count ≡ f.cell_count + w =
              one_more_cells w f (omega arith) in
            let t =
              fit_text-Taken text (done ++ (ch ∷ [])) x right (one_more w f) next (ground arith)
                narrow in
            rw (if_false _ _ e) (record {
              more = ch ∷ t.more;
              left = t.left;
              parts = ap (ch ∷◌) t.parts;
              fit = rw (← append_assoc done (ch ∷ []) t.more) t.fit;
              inside = t.inside;
              stopped = t.stopped;
            })
      ])
