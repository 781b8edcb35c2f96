-- ===== src/Base/Lists.antt =====
-- Lists measured and indexed by native numbers, under the library's names.
use Prim.Native.Nat.{ℕ, zero, suc, ◌+◌, ◌-◌, ◌≤◌, ◌<◌, min}
use mathlib.Core.Path.{◌≡◌, refl, sym, ap, ◌∙◌}
use mathlib.Core.Bool.{false}
use mathlib.Core.List.{List, [], ◌∷◌, ◌++◌}
use corehost.Base.Tests.{◌==◌, if◌then◌else◌}
use native.Mathlib.Omega.{arith}

module _ {ℓ} {A : Type ℓ} where
  abbrev pub length : List A → ℕ
  length [] = 0
  length (x ∷ xs) = suc (length xs)

  -- A write out of bounds changes nothing.
  abbrev pub set : List A → ℕ → A → List A
  set [] i v = []
  set (x ∷ xs) zero v = v ∷ xs
  set (x ∷ xs) (suc i) v = x ∷ set xs i v

  pub length-append : (xs ys : List A) → length (xs ++ ys) ≡ length xs + length ys
  length-append [] ys = omega arith
  length-append (x ∷ xs) ys = omega (arith, length-append xs ys)

module _ {ℓ} {A : Type ℓ} where
  abbrev pub get_or : List A → ℕ → A → A
  get_or [] i d = d
  get_or (x ∷ xs) zero d = x
  get_or (x ∷ xs) (suc i) d = get_or xs i d

  abbrev pub take : ℕ → List A → List A
  take zero xs = []
  take (suc n) [] = []
  take (suc n) (x ∷ xs) = x ∷ take n xs

  abbrev pub drop : ℕ → List A → List A
  drop zero xs = xs
  drop (suc n) [] = []
  drop (suc n) (x ∷ xs) = drop n xs

  abbrev pub replicate : ℕ → A → List A
  replicate zero a = []
  replicate (suc n) a = a ∷ replicate n a

  pub take-append-drop : (n : ℕ) (xs : List A) → take n xs ++ drop n xs ≡ xs
  take-append-drop zero xs = refl
  take-append-drop (suc n) [] = refl
  take-append-drop (suc n) (x ∷ xs) = rw (take-append-drop n xs)

  pub length-take : (n : ℕ) (xs : List A) → length (take n xs) ≡ min n (length xs)
  length-take zero xs = omega arith
  length-take (suc n) [] = omega arith
  length-take (suc n) (x ∷ xs) = omega (arith, length-take n xs)

  pub length-drop : (n : ℕ) (xs : List A) → length (drop n xs) ≡ length xs - n
  length-drop zero xs = omega arith
  length-drop (suc n) [] = omega arith
  length-drop (suc n) (x ∷ xs) = omega (arith, length-drop n xs)

module _ {ℓ} {A : Type ℓ} where
  pub drop-nil : (n : ℕ) → drop {A = A} n [] ≡ []
  drop-nil zero = refl
  drop-nil (suc n) = refl

  pub drop-drop : (a b : ℕ) (xs : List A) → drop a (drop b xs) ≡ drop (b + a) xs
  drop-drop a zero xs = let e : 0 + a ≡ a = omega arith in rw e
  drop-drop a (suc b) [] = drop-nil a ∙ sym (drop-nil (suc b + a))
  drop-drop a (suc b) (x ∷ xs) =
      let e : suc b + a ≡ suc (b + a) = omega arith in rw e (drop-drop a b xs)

  pub drop-append : (d : ℕ) (xs ys : List A) → d ≤ length xs → drop d (xs ++ ys) ≡ drop d xs ++ ys
  drop-append zero xs ys h = refl
  drop-append (suc d) [] ys h = elim h [ ]
  drop-append (suc d) (x ∷ xs) ys h = drop-append d xs ys (omega arith)

  -- The last `k` elements, or all where there are fewer.
  abbrev pub take_last : ℕ → List A → List A
  take_last k xs = drop (length xs - k) xs

  pub take_last-append :
      (k : ℕ) (xs ys : List A) → take_last k (take_last k xs ++ ys) ≡ take_last k (xs ++ ys)
  take_last-append k xs ys =
      let d = length xs - k in
      let n = length-append (drop d xs) ys in
      let m = length-append xs ys in
      let l = length-drop d xs in
      rw (← drop-append d xs ys (omega arith)) (
        drop-drop (length (drop d (xs ++ ys)) - k) d (xs ++ ys)
        ∙ ap (λ j. drop j (xs ++ ys)) (omega (arith, length-drop d (xs ++ ys))))

  pub take-add : (a b : ℕ) (xs : List A) → take a xs ++ take b (drop a xs) ≡ take (a + b) xs
  take-add zero b xs = let e : 0 + b ≡ b = omega arith in rw e
  take-add (suc a) zero [] = let e : suc a + 0 ≡ suc (a + 0) = omega arith in rw e
  take-add (suc a) (suc b) [] = let e : suc a + suc b ≡ suc (a + suc b) = omega arith in rw e
  take-add (suc a) b (x ∷ xs) =
      let e : suc a + b ≡ suc (a + b) = omega arith in rw e (ap (◌∷◌ x) (take-add a b xs))

  pub take-append_length : (xs ys : List A) → take (length xs) (xs ++ ys) ≡ xs
  take-append_length [] ys = refl
  take-append_length (x ∷ xs) ys = ap (◌∷◌ x) (take-append_length xs ys)

  pub drop-append_length : (xs ys : List A) → drop (length xs) (xs ++ ys) ≡ ys
  drop-append_length [] ys = refl
  drop-append_length (x ∷ xs) ys = drop-append_length xs ys

module _ {ℓ} {A : Type ℓ} where
  -- `new` in place of the elements from `i` on, `n` of them.
  abbrev pub splice : ℕ → ℕ → List A → List A → List A
  splice i n new xs = take i xs ++ (new ++ drop (i + n) xs)

  pub append_assoc : (xs ys zs : List A) → (xs ++ ys) ++ zs ≡ xs ++ (ys ++ zs)
  append_assoc [] ys zs = refl
  append_assoc (x ∷ xs) ys zs = ap (◌∷◌ x) (append_assoc xs ys zs)

  pub append_nil : (xs : List A) → xs ++ [] ≡ xs
  append_nil [] = refl
  append_nil (x ∷ xs) = ap (◌∷◌ x) (append_nil xs)

  pub drop-append_add : (xs ys : List A) (n : ℕ) → drop (length xs + n) (xs ++ ys) ≡ drop n ys
  drop-append_add [] ys n = let e : 0 + n ≡ n = omega arith in rw e
  drop-append_add (x ∷ xs) ys n =
      let e : suc (length xs) + n ≡ suc (length xs + n) = omega arith in
      rw e (drop-append_add xs ys n)

  -- A splice replaces exactly the middle of three parts.
  pub splice-append :
      (xs ys zs new : List A)
      → splice (length xs) (length ys) new (xs ++ (ys ++ zs)) ≡ xs ++ (new ++ zs)
  splice-append xs ys zs new = rw (
    take-append_length xs (ys ++ zs),
    drop-append_add xs (ys ++ zs) (length ys),
    drop-append_length ys zs,
  )

  pub get_or-append :
      (xs ys : List A) (n : ℕ) (d : A) → get_or (xs ++ ys) (length xs + n) d ≡ get_or ys n d
  get_or-append [] ys n d = let e : 0 + n ≡ n = omega arith in rw e
  get_or-append (x ∷ xs) ys n d =
      let e : suc (length xs) + n ≡ suc (length xs + n) = omega arith in
      rw e (get_or-append xs ys n d)

  pub get_or-append_left :
      (xs ys : List A) (n : ℕ) (d : A) → suc n ≤ length xs → get_or (xs ++ ys) n d ≡ get_or xs n d
  get_or-append_left [] ys n d h = absurd (omega arith)
  get_or-append_left (x ∷ xs) ys zero d h = refl
  get_or-append_left (x ∷ xs) ys (suc n) d h = get_or-append_left xs ys n d (omega arith)

  pub length-replicate : (n : ℕ) (a : A) → length (replicate n a) ≡ n
  length-replicate zero a = refl
  length-replicate (suc n) a = ap suc (length-replicate n a)

  pub get_or-replicate : (n i : ℕ) (a d : A) → suc i ≤ n → get_or (replicate n a) i d ≡ a
  get_or-replicate zero i a d h = absurd (omega arith)
  get_or-replicate (suc n) zero a d h = refl
  get_or-replicate (suc n) (suc i) a d h = get_or-replicate n i a d (omega arith)

  pub length-splice :
      (i n : ℕ) (new xs : List A)
      → length new ≡ n
      → i + n ≤ length xs
      → length (splice i n new xs) ≡ length xs
  length-splice i n new xs e h =
      let a = length-append (take i xs) (new ++ drop (i + n) xs) in
      let b = length-append new (drop (i + n) xs) in
      omega (arith, length-take i xs, length-drop (i + n) xs)

module _ {ℓ} {A : Type ℓ} where
  -- std::vector::resize, with `a` for what is new.
  abbrev pub resize : ℕ → A → List A → List A
  resize n a xs = take n xs ++ replicate (n - length xs) a

  -- A loop that writes `v` from index `i` on, `n` times.
  abbrev pub store_range : ℕ → ℕ → A → List A → List A
  store_range zero i v xs = xs
  store_range (suc n) i v xs = store_range n (suc i) v (set xs i v)

  store_range-cons :
      (n i : ℕ) (v x : A) (xs : List A)
      → store_range n (suc i) v (x ∷ xs) ≡ x ∷ store_range n i v xs
  store_range-cons zero i v x xs = refl
  store_range-cons (suc n) i v x xs = store_range-cons n (suc i) v x (set xs i v)

  store_range-head :
      (n : ℕ) (v : A) (xs : List A)
      → n ≤ length xs
      → store_range n 0 v xs ≡ replicate n v ++ drop n xs
  store_range-head zero v xs h = refl
  store_range-head (suc n) v [] h = absurd (omega arith)
  store_range-head (suc n) v (x ∷ xs) h =
      store_range-cons n 0 v v xs ∙ ap (v ∷◌) (store_range-head n v xs (omega arith))

  -- One element, and others behind it.
  pub store_range-set :
      (i n : ℕ) (v w : A) (xs : List A)
      → i + suc n ≤ length xs
      → store_range n (suc i) w (set xs i v) ≡ splice i (suc n) (v ∷ replicate n w) xs
  store_range-set zero n v w [] h = absurd (omega arith)
  store_range-set zero n v w (x ∷ xs) h =
      let e : 0 + suc n ≡ suc n = omega arith in
      rw e (store_range-cons n 0 w v xs ∙ ap (v ∷◌) (store_range-head n w xs (omega arith)))
  store_range-set (suc i) n v w [] h = absurd (omega arith)
  store_range-set (suc i) n v w (x ∷ xs) h =
      let e : suc i + suc n ≡ suc (i + suc n) = omega arith in
      rw e (
        store_range-cons n (suc i) w x (set xs i v)
        ∙ ap (x ∷◌) (store_range-set i n v w xs (omega arith)))

  pub set-splice :
      (i : ℕ) (v : A) (xs : List A) → i < length xs → set xs i v ≡ splice i 1 (v ∷ []) xs
  set-splice i v xs h = store_range-set i 0 v v xs (omega arith)

  pub length-set : (xs : List A) (i : ℕ) (v : A) → length (set xs i v) ≡ length xs
  length-set [] i v = refl
  length-set (x ∷ xs) zero v = refl
  length-set (x ∷ xs) (suc i) v = ap suc (length-set xs i v)

  pub take-length : (xs : List A) → take (length xs) xs ≡ xs
  take-length [] = refl
  take-length (x ∷ xs) = ap (x ∷◌) (take-length xs)

  pub drop-length : (xs : List A) → drop (length xs) xs ≡ []
  drop-length [] = refl
  drop-length (x ∷ xs) = drop-length xs

  pub set-append : (xs ys : List A) (x v : A) → set (xs ++ (x ∷ ys)) (length xs) v ≡ xs ++ (v ∷ ys)
  set-append [] ys x v = refl
  set-append (z ∷ xs) ys x v = ap (z ∷◌) (set-append xs ys x v)

  -- Two adjacent splices are one.
  pub splice-splice :
      (i n m : ℕ) (new new2 xs : List A)
      → length new ≡ n
      → i + n + m ≤ length xs
      → splice (i + n) m new2 (splice i n new xs) ≡ splice i (n + m) (new ++ new2) xs
  splice-splice i n m new new2 xs e h =
      let a = take i xs in
      let b = take m (drop (i + n) xs) in
      let c = drop (i + (n + m)) xs in
      let j : i + (n + m) ≡ i + n + m = omega arith in
      let tail : drop (i + n) xs ≡ b ++ c =
        sym (take-append-drop m (drop (i + n) xs))
        ∙ ap (b ++◌) (drop-drop m (i + n) xs ∙ ap (λ k. drop k xs) (sym j)) in
      let front : i + n ≡ length (a ++ new) =
        omega (arith, length-append a new, length-take i xs) in
      let middle : m ≡ length b =
        omega (arith, length-take m (drop (i + n) xs), length-drop (i + n) xs) in
      let shape : splice i n new xs ≡ (a ++ new) ++ (b ++ c) =
        ap (λ k. a ++ (new ++ k)) tail ∙ sym (append_assoc a new (b ++ c)) in
      ap (splice (i + n) m new2) shape
      ∙ ap (λ k. splice k m new2 ((a ++ new) ++ (b ++ c))) front
      ∙ ap (λ k. splice (length (a ++ new)) k new2 ((a ++ new) ++ (b ++ c))) middle
      ∙ splice-append (a ++ new) b c new2
      ∙ append_assoc a new (new2 ++ c)
      ∙ ap (a ++◌) (sym (append_assoc new new2 c))

  pub get_or-set :
      (xs : List A) (i k : ℕ) (v d : A)
      → k < length xs
      → get_or (set xs i v) k d ≡ (if i == k then v else get_or xs k d)
  get_or-set [] i k v d h = absurd (omega arith)
  get_or-set (x ∷ xs) zero zero v d h = refl
  get_or-set (x ∷ xs) zero (suc k) v d h = let f : 0 == suc k ≡ false = ground arith in rw f refl
  get_or-set (x ∷ xs) (suc i) zero v d h = let f : suc i == 0 ≡ false = ground arith in rw f refl
  get_or-set (x ∷ xs) (suc i) (suc k) v d h =
      let e : (suc i == suc k) ≡ (i == k) = ground arith in
      rw e (get_or-set xs i k v d (omega arith))

  pub get_or-take : (n k : ℕ) (xs : List A) (d : A) → k < n → get_or (take n xs) k d ≡ get_or xs k d
  get_or-take zero k xs d h = absurd (omega arith)
  get_or-take (suc n) k [] d h = refl
  get_or-take (suc n) zero (x ∷ xs) d h = refl
  get_or-take (suc n) (suc k) (x ∷ xs) d h = get_or-take n k xs d (omega arith)

  pub get_or-drop : (n k : ℕ) (xs : List A) (d : A) → get_or (drop n xs) k d ≡ get_or xs (n + k) d
  get_or-drop zero k xs d = let e : 0 + k ≡ k = omega arith in rw e refl
  get_or-drop (suc n) k [] d = refl
  get_or-drop (suc n) k (x ∷ xs) d =
      let e : suc n + k ≡ suc (n + k) = omega arith in rw e (get_or-drop n k xs d)
