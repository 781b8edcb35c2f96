-- ===== src/History/Log.antt =====
-- The bounded history against the log of everything that was pushed.
use corehost.Base.{
  ℕ, suc, ◌-◌, ◌<◌, ◌≡◌, sym, ap, ◌∙◌, ◌||◌, Bool-cases, inl, inr, List, [], ◌∷◌, ◌++◌, arith,
  length, drop-nil, take_last, true, false, refl, ◌≢◌, append_nil, append_assoc, take_last-append,
  ltb, if◌then◌else◌,
}
use mathlib.Core.Logic.{if_pos, if_neg, ite}
use mathlib.Core.List.{List-discrete}
use native.Mathlib.Decide.{ℕ_discrete}
use corehost.History.{text_eq, Text, History, trimmed, trim_to_capacity, push, is_empty, ends_with}

text_discrete : Discrete Text
text_discrete = List-discrete ℕ_discrete

-- The commands that are worth keeping, behind the command `last`: none that is empty, and none that is
-- the same as the one kept before it. An empty `last` stands for none.
pub entries : Text → List Text → List Text
entries last [] = []
entries last (t ∷ ts) =
    let skipped = entries last ts in
    let kept = t ∷ entries t ts in
    ite (text_discrete t []) skipped (ite (text_discrete t last) skipped kept)

-- The log with no bound, as `push` makes it.
unfoldable logged : List Text → Text → List Text
logged xs t = if is_empty t || ends_with xs t then xs else xs ++ t ∷ []

log_all : List Text → List Text → List Text
log_all xs [] = xs
log_all xs (t ∷ ts) = log_all (logged xs t) ts

last_of : List Text → Text
last_of [] = []
last_of (x ∷ []) = x
last_of (x ∷ y ∷ xs) = last_of (y ∷ xs)

text_eq_sound : (a b : Text) → text_eq a b ≡ true → a ≡ b
unfolding text_eq
text_eq_sound [] [] h = refl
text_eq_sound [] (y ∷ b) h = cc
text_eq_sound (x ∷ a) [] h = cc
text_eq_sound (x ∷ a) (y ∷ b) h =
    let heads : x ≡ y = ground arith in
    let tails : text_eq a b ≡ true = ground arith in cc (heads, text_eq_sound a b tails)

text_eq_refl : (a : Text) → text_eq a a ≡ true
unfolding text_eq
text_eq_refl [] = refl
text_eq_refl (x ∷ a) = ground (arith, text_eq_refl a)

ends_with-last : (xs : List Text) (t : Text) → ends_with xs t ≡ true → t ≡ last_of xs
unfolding ends_with last_of
ends_with-last [] t h = cc
ends_with-last (x ∷ []) t h = sym (text_eq_sound x t h)
ends_with-last (x ∷ y ∷ xs) t h = ends_with-last (y ∷ xs) t h

last-ends_with : (xs : List Text) (t : Text) → t ≢ [] → t ≡ last_of xs → ends_with xs t ≡ true
unfolding ends_with last_of
last-ends_with [] t ne e = absurd (ne e)
last-ends_with (x ∷ []) t ne e = rw e (text_eq_refl x)
last-ends_with (x ∷ y ∷ xs) t ne e = last-ends_with (y ∷ xs) t ne e

last_of-append : (xs : List Text) (t : Text) → last_of (xs ++ t ∷ []) ≡ t
unfolding last_of
last_of-append [] t = refl
last_of-append (x ∷ []) t = refl
last_of-append (x ∷ y ∷ xs) t = last_of-append (y ∷ xs) t

not_empty : (t : Text) → t ≢ [] → is_empty t ≡ false
not_empty [] ne = absurd (ne refl)
not_empty (c ∷ t) ne = refl

logged_new : (xs : List Text) (t : Text) → t ≢ [] → t ≢ last_of xs → logged xs t ≡ xs ++ t ∷ []
unfolding logged
logged_new xs t ne other =
    let some_text = not_empty t ne in
    elim (Bool-cases (ends_with xs t)) [
      | inl twice ↦ absurd (other (ends_with-last xs t twice))
      | inr new ↦ rw (some_text, new)
    ]

logged_empty : (xs : List Text) (t : Text) → t ≡ [] → logged xs t ≡ xs
unfolding logged
logged_empty xs t e = rw e

logged_twice : (xs : List Text) (t : Text) → t ≢ [] → t ≡ last_of xs → logged xs t ≡ xs
unfolding logged
logged_twice xs t ne e = rw (not_empty t ne, last-ends_with xs t ne e)

log_all-entries : (xs ts : List Text) → log_all xs ts ≡ xs ++ entries (last_of xs) ts
unfolding log_all entries
log_all-entries xs [] = sym (append_nil xs)
log_all-entries xs (t ∷ ts) = elim (text_discrete t []) [
  | yes e ↦ rw (if_pos _ e, logged_empty xs t e) (log_all-entries xs ts)
  | no ne ↦ elim (text_discrete t (last_of xs)) [
    | yes e ↦ rw (if_neg _ ne, if_pos _ e, logged_twice xs t ne e) (log_all-entries xs ts)
    | no other ↦
        rw (if_neg _ ne, if_neg _ other, logged_new xs t ne other)
          (log_all-entries (xs ++ t ∷ []) ts
            ∙ ap (λ l. (xs ++ t ∷ []) ++ entries l ts) (last_of-append xs t)
            ∙ append_assoc xs (t ∷ []) (entries t ts))
  ]
]

unfoldable pub push_all : List Text → History → History
push_all [] h = h
push_all (t ∷ ts) h = push_all ts (push t h)

ends_with-take_last :
    (k : ℕ) (xs : List Text) (t : Text) → ends_with (take_last (suc k) xs) t ≡ ends_with xs t
unfolding ends_with
ends_with-take_last k [] t = rw (drop-nil (0 - suc k))
ends_with-take_last k (x ∷ []) t = ground arith
ends_with-take_last k (x ∷ y ∷ xs) t = elim (Bool-cases (ltb k (suc (length xs)))) [
  | inl more ↦
      let e : suc (suc (length xs)) - suc k ≡ suc (suc (length xs) - suc k) = ground arith in
      rw e (ends_with-take_last k (y ∷ xs) t)
  | inr all ↦ let e : suc (suc (length xs)) - suc k ≡ 0 = ground arith in rw e
]

trimmed-take_last : (n : ℕ) (cs : List Text) → trimmed n cs ≡ take_last n cs
trimmed-take_last n cs = elim (Bool-cases (ltb n (length cs))) [
  | inl more ↦ rw more
  | inr all ↦ let e : length cs - n ≡ 0 = ground arith in rw (all, e)
]

commands-trim_to_capacity :
    (h : History) → (trim_to_capacity h).commands ≡ take_last h.capacity h.commands
unfolding trim_to_capacity
commands-trim_to_capacity h = ground (arith, trimmed-take_last h.capacity h.commands)

capacity-push : (t : Text) (h : History) → (push t h).capacity ≡ h.capacity
unfolding push
capacity-push t h = ground arith

commands-push :
    (t : Text) (h : History) (xs : List Text)
    → 0 < h.capacity
    → h.commands ≡ take_last h.capacity xs
    → (push t h).commands ≡ take_last h.capacity (logged xs t)
unfolding push logged
commands-push t h xs p e =
    let longer : History = record h { commands = h.commands ++ t ∷ [] } in
    let k : h.capacity ≡ suc (h.capacity - 1) = omega arith in
    let same : ends_with h.commands t ≡ ends_with xs t =
      rw (e, k) (ends_with-take_last (h.capacity - 1) xs t) in
    let grown : (trim_to_capacity longer).commands ≡ take_last h.capacity (xs ++ t ∷ []) =
      commands-trim_to_capacity longer
      ∙ ap (λ cs. take_last h.capacity (cs ++ t ∷ [])) e
      ∙ take_last-append h.capacity xs (t ∷ []) in
    elim (Bool-cases (is_empty t)) [
      | inl none ↦ rw none e
      | inr text ↦ elim (Bool-cases (ends_with xs t)) [
        | inl twice ↦ rw (text, same, twice) e
        | inr new ↦ rw (text, same, new) grown
      ]
    ]

commands-push_all_from :
    (ts : List Text) (h : History) (xs : List Text)
    → 0 < h.capacity
    → h.commands ≡ take_last h.capacity xs
    → (push_all ts h).commands ≡ take_last h.capacity (log_all xs ts)
unfolding push_all log_all
commands-push_all_from [] h xs p e = e
commands-push_all_from (t ∷ ts) h xs p e =
    let c = capacity-push t h in
    commands-push_all_from ts (push t h) (logged xs t) (omega arith)
      (commands-push t h xs p e ∙ ap (λ n. take_last n (logged xs t)) (sym c))
    ∙ ap (λ n. take_last n (log_all (logged xs t) ts)) c

-- With a capacity of at least one, pushing commands onto an empty history leaves the last
-- `capacity` entries of those that are not empty and not the same as the one kept before.
pub commands-push_all :
    (ts : List Text) (h : History)
    → 0 < h.capacity
    → h.commands ≡ []
    → (push_all ts h).commands ≡ take_last h.capacity (entries [] ts)
unfolding last_of
commands-push_all ts h p e =
    commands-push_all_from ts h [] p (e ∙ sym (drop-nil (0 - h.capacity)))
    ∙ ap (take_last h.capacity) (log_all-entries [] ts)
