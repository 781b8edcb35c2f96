-- ===== src/Row/Glyph.antt =====
-- `write_glyph`: every way through it is `put` on the glyphs that the row shows.
use corehost.Base.{
  ℕ, suc, ◌+◌, ◌-◌, ◌*◌, ◌%◌, ◌≤◌, ◌<◌, ◌≡◌, refl, sym, ap, ◌∙◌, true, false, List, [], ◌∷◌, ◌++◌,
  arith, length, replicate, splice, take, take-append_length, set, get_or, set-splice,
  store_range-set, append_assoc, append_nil, le_cases, ◌⊎◌, inl, inr,
}
use corehost.Row.{
  Cells, width, col_offset, is_trailing, or_flag, count_between, minus16, shift_from,
  shift_columns_from, blank_glyph_cut_at,
}
use corehost.Row.Write.{replaces_one, replace_glyph, write_wide}
use corehost.Row.Layout.{
  Glyph, span, size, entries, layout, cut, put, size-append, span-append, length-layout,
  layout-append, length-text_of, text_of-append,
}
use corehost.Row.Replace.{replaced-IsLaid, splice-text_of}
use corehost.Row.Laid.{IsLaid, width-laid, at_start, at_end, at_trailing}
use corehost.Row.Cut.{Place, place, blank_glyph_cut_at-IsLaid}
use corehost.Row.Put.{around, put-around, put_whole, span-cut, size-cut}

-- A glyph with `n` columns behind its first.
abbrev pub glyph : List ℕ → ℕ → Glyph
glyph text n = record { text = text; extra = n }

pub take_all : (xs : List ℕ) (n : ℕ) → n ≡ length xs → take n xs ≡ xs
take_all xs n e = rw (e) (ap (take (length xs)) (sym (append_nil xs)) ∙ take-append_length xs [])

module _ {c : Cells} (ls mid rs : List Glyph) where
  replace_glyph-IsLaid :
      (text : List ℕ) (n : ℕ)
      → IsLaid c (ls ++ (mid ++ rs))
      → span mid ≡ suc n
      → size ls + length text + size rs ≤ 32767
      → IsLaid (replace_glyph (span ls) text (span ls + suc n) c) (ls ++ (glyph text n ∷ rs))
  unfolding replace_glyph shift_columns_from
  replace_glyph-IsLaid text n h wide fits =
      let new = glyph text n in
      let a = size-append ls (mid ++ rs) in
      let b = size-append mid rs in
      let room = h.room in
      let p = span-append ls (mid ++ rs) in
      let q = span-append mid rs in
      let l = length-layout (ls ++ (mid ++ rs)) in
      let joined : IsLaid c ((ls ++ mid) ++ rs) = rw (append_assoc ls mid rs) h in
      let at : span (ls ++ mid) ≡ span ls + suc n = omega (arith, span-append ls mid) in
      let s = at_start ls (mid ++ rs) h in
      let e = at_start (ls ++ mid) rs joined in
      let stop : col_offset c (span ls + suc n) ≡ size ls + size mid =
        ap (col_offset c) (sym at) ∙ e.0 ∙ size-append ls mid in
      let len : count_between (size ls) (size ls + size mid) ≡ size mid = ground arith in
      let count : span ls + suc n - (span ls + 1) ≡ n = omega arith in
      let whole : length text % 65536 ≡ length text = omega arith in
      let flag : or_flag (size ls) ≡ size ls + 32768 = omega arith in
      let next : span ls + 1 ≡ suc (span ls) = omega arith in
      let new_size = size-append ls (new ∷ rs) in
      let d = minus16 (length text) (minus16 (size ls + size mid) (size ls)) in
      let stored =
        store_range-set (span ls) n (size ls) (size ls + 32768) c.columns
          (rw (h.columns_eq) (omega arith)) in
      rw (s.0, stop, whole, count, len, flag, next)
        (replaced-IsLaid ls mid rs (new ∷ []) c _ d (span ls + suc n) h h.unfilled h.explicit
          (ap (λ t. splice (size ls) (size mid) t c.text)
            (take_all text _ refl ∙ sym (append_nil text)))
          (ap (shift_from (span ls + suc n) d) (
            stored
            ∙ ap (λ es. splice (span ls) (suc n) es c.columns)
                (ap (size ls ∷◌) (sym (append_nil (replicate n (size ls + 32768)))))
            ∙ ap (λ k. splice (span ls) k (entries (size ls) (new ∷ [])) c.columns) (sym wide)))
          (omega arith) (omega arith) (omega arith) (omega arith))

  replace_glyph_at :
      (text : List ℕ) (col n : ℕ)
      → IsLaid c (ls ++ (mid ++ rs))
      → col ≡ span ls
      → span mid ≡ suc n
      → size ls + length text + size rs ≤ 32767
      → IsLaid (replace_glyph col text (col + suc n) c) (ls ++ (glyph text n ∷ rs))
  replace_glyph_at text col n h at wide fits = rw at (replace_glyph-IsLaid text n h wide fits)

-- The general way.
pub write_wide-IsLaid :
    (c : Cells) (gs : List Glyph) (col n : ℕ) (text : List ℕ)
    → IsLaid c gs
    → col + suc n ≤ span gs
    → size gs + 2 * span gs + length text ≤ 32767
    → IsLaid (write_wide col text (suc n) c) (put col (col + suc n) (glyph text n ∷ []) gs)
unfolding write_wide
write_wide-IsLaid c gs col n text h le fits =
    let plain = record c { single_width_layout = false } in
    let laid_plain : IsLaid plain gs = record {
      unfilled = h.unfilled;
      explicit = refl;
      columns_eq = h.columns_eq;
      text_eq = h.text_eq;
      room = h.room;
      narrow = h.narrow;
    } in
    let w = span-cut col gs in
    let more = size-cut col gs in
    let more2 = size-cut (col + suc n) (cut col gs) in
    let one = blank_glyph_cut_at-IsLaid plain gs col laid_plain (omega arith) (omega arith) in
    let two =
      blank_glyph_cut_at-IsLaid _ (cut col gs) (col + suc n) one (omega arith) (omega arith) in
    let a = around gs col (suc n) le in
    let whole = ap size a.whole in
    let s = size-append a.front (a.middle ++ a.back) in
    let t = size-append a.middle a.back in
    let parts : IsLaid (blank_glyph_cut_at (col + suc n) (blank_glyph_cut_at col plain))
        (a.front ++ (a.middle ++ a.back)) =
      rw (← a.whole) two in
    rw (put-around a (glyph text n ∷ []))
      (replace_glyph_at a.front a.middle a.back text col n parts (sym a.at) a.wide (omega arith))

-- What the test of the second short way tells.
pub record IsOne (col : ℕ) (text : List ℕ) (columns : ℕ) (c : Cells) : Type 0 where
  pub one_column : columns ≡ 1
  pub one_char : length text ≡ 1
  pub unflagged : is_trailing c col ≡ false
  pub ends : (col + 1 ≡ width c) ⊎ (is_trailing c (col + 1) ≡ false)
  pub old_char : col_offset c (col + 1) ≡ col_offset c col + 1

pub replaces_one-IsOne :
    (col : ℕ) (text : List ℕ) (columns : ℕ) (c : Cells)
    → replaces_one col text columns c ≡ true
    → IsOne col text columns c
unfolding replaces_one
replaces_one-IsOne col text columns c h = record {
  one_column = ground arith;
  one_char = ground arith;
  unflagged = ground arith;
  ends = ground arith;
  old_char = ground arith;
}

pub one_element : (text : List ℕ) → length text ≡ 1 → text ≡ get_or text 0 0 ∷ []
one_element [] h = absurd (omega arith)
one_element (x ∷ []) h = refl
one_element (x ∷ (y ∷ text)) h = absurd (omega arith)

-- Glyphs of the same numbers have the same columns.
layout_same :
    (ls rs : List Glyph) (g new : Glyph)
    → length g.text ≡ length new.text
    → g.extra ≡ new.extra
    → layout (ls ++ (g ∷ rs)) ≡ layout (ls ++ (new ∷ rs))
layout_same ls rs g new e f =
    layout-append ls (g ∷ rs)
    ∙ ap (λ k. tail k g.extra) e
    ∙ ap (tail (length new.text)) f
    ∙ sym (layout-append ls (new ∷ rs))
  where
    tail : ℕ → ℕ → List ℕ
    tail k extra =
        entries 0 ls
        ++ ((size ls ∷ (replicate extra (size ls + 32768) ++ entries (size ls + k) rs))
            ++ ((size ls + (k + size rs)) ∷ []))

module _ (c : Cells) (ls rs : List Glyph) (g : Glyph) (text : List ℕ) (columns : ℕ) where
  -- The old glyph has one column and one code point.
  pub old_glyph :
      IsLaid c (ls ++ (g ∷ rs))
      → IsOne (span ls) text columns c
      → (g.extra ≡ 0) × (length g.text ≡ 1)
  old_glyph h one =
      let narrow : g.extra ≡ 0 = elim (le_cases 0 g.extra (omega arith)) [
        | inl e ↦ sym e
        | inr less ↦
            let w = width-laid h in
            let p = span-append ls (g ∷ rs) in
            let t = (at_trailing ls rs g 0 h less).1 in
            let next : suc (span ls + 0) ≡ span ls + 1 = omega arith in
            let u : is_trailing c (span ls + 1) ≡ true = rw (← next) t in
            absurd (elim one.ends [ inl e ↦ omega arith | inr f ↦ ground arith ])
      ] in
      let next : suc (span ls + g.extra) ≡ span ls + 1 = omega arith in
      let stop : col_offset c (span ls + 1) ≡ size ls + length g.text =
        rw (← next) (at_end ls rs g h).0 in
      let start = (at_start ls (g ∷ rs) h).0 in let one_char = one.old_char in (narrow, omega arith)

  in_place :
      IsLaid c (ls ++ (g ∷ rs))
      → IsOne (span ls) text columns c
      → IsLaid
          (record c { text = set c.text (col_offset c (span ls)) (get_or text 0 0) })
          (put (span ls) (span ls + 1) (glyph text 0 ∷ []) (ls ++ (g ∷ rs)))
  in_place h one =
      let old = old_glyph h one in
      let new = glyph text 0 in
      let old_char = old.1 in
      let new_char = one.one_char in
      let a = size-append ls (g ∷ rs) in
      let b = size-append ls (new ∷ rs) in
      let p = span-append ls (g ∷ rs) in
      let q = span-append ls (new ∷ rs) in
      let room = h.room in
      let narrow = h.narrow in
      let extra = old.0 in
      let count : span ls + 1 ≡ span ls + span (g ∷ []) = omega arith in
      let inside : size ls < length c.text =
        omega (arith, ap length h.text_eq, length-text_of (ls ++ (g ∷ rs))) in
      let one_size : size (g ∷ []) ≡ 1 = omega arith in
      rw (count, put_whole ls (g ∷ []) rs (new ∷ []), (at_start ls (g ∷ rs) h).0)
        (record {
          unfilled = h.unfilled;
          explicit = h.explicit;
          columns_eq = h.columns_eq ∙ layout_same ls rs g new (omega arith) extra;
          text_eq =
              set-splice (size ls) (get_or text 0 0) c.text inside
              ∙ ap (λ t. splice (size ls) 1 t c.text) (sym (one_element text new_char))
              ∙ ap (λ k. splice (size ls) k text c.text) (sym one_size)
              ∙ ap (splice (size ls) (size (g ∷ [])) text) h.text_eq
              ∙ splice-text_of ls (g ∷ []) rs text
              ∙ sym (text_of-append ls (new ∷ rs));
          room = omega arith;
          narrow = omega arith;
        })

-- The second short way.
pub in_place-IsLaid :
    (c : Cells) (gs : List Glyph) (col columns : ℕ) (text : List ℕ)
    → IsLaid c gs
    → col < span gs
    → IsOne col text columns c
    → IsLaid
        (record c { text = set c.text (col_offset c col) (get_or text 0 0) })
        (put col (col + 1) (glyph text 0 ∷ []) gs)
in_place-IsLaid c gs col columns text h less one = at_place h less one (place gs col (omega arith))
  where
    at_place :
        {gs : List Glyph} {col : ℕ}
        → IsLaid c gs
        → col < span gs
        → IsOne col text columns c
        → Place gs col
        → IsLaid
            (record c { text = set c.text (col_offset c col) (get_or text 0 0) })
            (put col (col + 1) (glyph text 0 ∷ []) gs)
    at_place h less one (Place.boundary ls [] e at) =
        absurd (omega (arith, ap span e, span-append ls []))
    at_place h less one (Place.boundary ls (g ∷ rs) e at) =
        let h2 : IsLaid c (ls ++ (g ∷ rs)) = rw (← e) h in
        let one2 : IsOne (span ls) text columns c = rw (← at) one in
        rw (at, e) (in_place c ls rs g text columns h2 one2)
    at_place h less one (Place.inside ls rs g i e at inside) =
        let h2 : IsLaid c (ls ++ (g ∷ rs)) = rw (← e) h in
        let t = (at_trailing ls rs g i h2 inside).1 in
        let f : is_trailing c (suc (span ls + i)) ≡ false = rw (← at) one.unflagged in
        absurd (ground arith)
