-- ===== src/Psv/Terms/Laws.antt =====
-- The loops over a table of terms.
use martian_os.Prelude.{
  ℕ, zero, suc, ◌+◌, ◌<◌, ◌≤◌, ◌≡◌, ◌≢◌, refl, sym, ap, ◌∙◌, ◌⊎◌, inl, inr, Bool, true, false,
  Bool-cases, List, [], ◌∷◌, get_or, set, ◌==◌, if◌then◌else◌, arith,
}
use martian_os.Prelude.Int.{ℤ, pos, minus_one}
use martian_os.Psv.Terms.{any_at, first_at, clear_at}

module _ {A : Type 0} where
  pub any_at-false :
      (f : A → Bool) (d : A) (ts : List A) (n i j : ℕ)
      → any_at f d ts n i ≡ false
      → i ≤ j
      → j < i + n
      → f (get_or ts j d) ≡ false
  unfolding any_at
  any_at-false f d ts zero i j e lo hi = absurd (omega arith)
  any_at-false f d ts (suc n) i j e lo hi = elim (Bool-cases (i == j)) [
    | inl h ↦ let p : i ≡ j = ground arith in ground (arith, ap (λ k. f (get_or ts k d)) p)
    | inr h ↦ any_at-false f d ts n (i + 1) j (ground arith) (ground arith) (omega arith)
  ]

  pub any_at-true :
      (f : A → Bool) (d : A) (ts : List A) (n i j : ℕ)
      → f (get_or ts j d) ≡ true
      → i ≤ j
      → j < i + n
      → any_at f d ts n i ≡ true
  unfolding any_at
  any_at-true f d ts zero i j e lo hi = absurd (omega arith)
  any_at-true f d ts (suc n) i j e lo hi = elim (Bool-cases (i == j)) [
    | inl h ↦ let p : i ≡ j = ground arith in ground (arith, ap (λ k. f (get_or ts k d)) p)
    | inr h ↦ ground (arith, any_at-true f d ts n (i + 1) j e (ground arith) (omega arith))
  ]

  -- Either nothing passes and the result is -1, or it is the index of one that passes.
  pub first_at_cases :
      (f : A → Bool) (d : A) (ts : List A) (n i : ℕ)
      → (first_at f d ts n i ≡ minus_one)
        ⊎ ((k : ℕ) × (first_at f d ts n i ≡ pos k)
            × (i ≤ k)
            × (k < i + n)
            × (f (get_or ts k d) ≡ true))
  unfolding first_at
  first_at_cases f d ts zero i = inl refl
  first_at_cases f d ts (suc n) i = elim (Bool-cases (f (get_or ts i d))) [
    | inl h ↦ inr (i, rw h refl, omega arith, omega arith, h)
    | inr h ↦ elim (first_at_cases f d ts n (i + 1)) [
      | inl e ↦ inl (rw h e)
      | inr (k, e, lo, hi, p) ↦ inr (k, rw h e, omega arith, omega arith, p)
    ]
  ]

  -- A change that an element's name survives leaves the names of the table as they are.
  set_name :
      (nm : A → List ℕ) (d : A) (ts : List A) (i j : ℕ) (t : A)
      → nm t ≡ nm (get_or ts i d)
      → nm (get_or (set ts i t) j d) ≡ nm (get_or ts j d)
  set_name nm d [] i j t h = refl
  set_name nm d (u ∷ ts) zero zero t h = h
  set_name nm d (u ∷ ts) zero (suc j) t h = refl
  set_name nm d (u ∷ ts) (suc i) zero t h = refl
  set_name nm d (u ∷ ts) (suc i) (suc j) t h = set_name nm d ts i j t h

  clear_hit :
      (f : A → Bool) (g : A → A) (d : A) (n i : ℕ) (idx : ℤ) (ts : List A)
      → f (get_or ts i d) ≡ true
      → clear_at f g d (suc n) i idx ts
        ≡ clear_at f g d n (i + 1) (pos i) (set ts i (g (get_or ts i d)))
  unfolding clear_at
  clear_hit f g d n i idx ts e =
      ap
        (λ b.
          clear_at f g d n (i + 1) (if b then pos i else idx)
            (if b then set ts i (g (get_or ts i d)) else ts))
        e

  clear_miss :
      (f : A → Bool) (g : A → A) (d : A) (n i : ℕ) (idx : ℤ) (ts : List A)
      → f (get_or ts i d) ≡ false
      → clear_at f g d (suc n) i idx ts ≡ clear_at f g d n (i + 1) idx ts
  unfolding clear_at
  clear_miss f g d n i idx ts e =
      ap
        (λ b.
          clear_at f g d n (i + 1) (if b then pos i else idx)
            (if b then set ts i (g (get_or ts i d)) else ts))
        e

  pub clear_at-names :
      (nm : A → List ℕ) (f : A → Bool) (g : A → A) (d : A) (n i : ℕ) (idx : ℤ) (ts : List A) (j : ℕ)
      → ((t : A) → nm (g t) ≡ nm t)
      → nm (get_or (clear_at f g d n i idx ts).1 j d) ≡ nm (get_or ts j d)
  unfolding clear_at
  clear_at-names nm f g d zero i idx ts j h = refl
  clear_at-names nm f g d (suc n) i idx ts j h = elim (Bool-cases (f (get_or ts i d))) [
    | inl e ↦ rw (clear_hit f g d n i idx ts e) (
        clear_at-names nm f g d n (i + 1) (pos i) (set ts i (g (get_or ts i d))) j h
        ∙ set_name nm d ts i j (g (get_or ts i d)) (h (get_or ts i d)))
    | inr e ↦ rw (clear_miss f g d n i idx ts e) (clear_at-names nm f g d n (i + 1) idx ts j h)
  ]

  -- The index is the old one, or one of an element whose name passes.
  pub clear_at-found :
      (nm : A → List ℕ) (p : List ℕ → Bool) (f : A → Bool) (g : A → A) (d : A) (n i : ℕ) (idx : ℤ)
      (ts : List A)
      → ((t : A) → nm (g t) ≡ nm t)
      → ((t : A) → f t ≡ true → p (nm t) ≡ true)
      → ((clear_at f g d n i idx ts).0 ≡ idx)
        ⊎ ((k : ℕ) × ((clear_at f g d n i idx ts).0 ≡ pos k)
            × (i ≤ k)
            × (k < i + n)
            × (p (nm (get_or ts k d)) ≡ true))
  unfolding clear_at
  clear_at-found nm p f g d zero i idx ts h q = inl refl
  clear_at-found nm p f g d (suc n) i idx ts h q = elim (Bool-cases (f (get_or ts i d))) [
    | inl e ↦
        let us = set ts i (g (get_or ts i d)) in
        elim (clear_at-found nm p f g d n (i + 1) (pos i) us h q) [
          | inl r ↦ inr (
            i,
            rw (clear_hit f g d n i idx ts e) r,
            omega arith,
            omega arith,
            q (get_or ts i d) e,
          )
          | inr (k, r, lo, hi, z) ↦ inr (
            k,
            rw (clear_hit f g d n i idx ts e) r,
            omega arith,
            omega arith,
            ap p (sym (set_name nm d ts i k (g (get_or ts i d)) (h (get_or ts i d)))) ∙ z,
          )
        ]
    | inr e ↦ elim (clear_at-found nm p f g d n (i + 1) idx ts h q) [
      | inl r ↦ inl (rw (clear_miss f g d n i idx ts e) r)
      | inr (k, r, lo, hi, z) ↦
          inr (k, rw (clear_miss f g d n i idx ts e) r, omega arith, omega arith, z)
    ]
  ]

  pub get_or-set_ne :
      (ts : List A) (i j : ℕ) (t d : A) → i ≢ j → get_or (set ts i t) j d ≡ get_or ts j d
  get_or-set_ne [] i j t d h = refl
  get_or-set_ne (u ∷ ts) zero zero t d h = absurd (h refl)
  get_or-set_ne (u ∷ ts) zero (suc j) t d h = refl
  get_or-set_ne (u ∷ ts) (suc i) zero t d h = refl
  get_or-set_ne (u ∷ ts) (suc i) (suc j) t d h = get_or-set_ne ts i j t d (λ e. h (ap suc e))

  clear_at_none :
      (f : A → Bool) (g : A → A) (d : A) (n i : ℕ) (idx : ℤ) (ts : List A)
      → ((j : ℕ) → i ≤ j → j < i + n → f (get_or ts j d) ≡ false)
      → clear_at f g d n i idx ts ≡ (idx, ts)
  unfolding clear_at
  clear_at_none f g d zero i idx ts h = refl
  clear_at_none f g d (suc n) i idx ts h =
      clear_miss f g d n i idx ts (h i (omega arith) (omega arith))
      ∙ clear_at_none f g d n (i + 1) idx ts (λ j lo hi. h j (omega arith) (omega arith))

  -- Where one element passes, it alone is changed.
  pub clear_at_only :
      (f : A → Bool) (g : A → A) (d : A) (n i : ℕ) (idx : ℤ) (ts : List A) (k : ℕ)
      → i ≤ k
      → k < i + n
      → f (get_or ts k d) ≡ true
      → ((j : ℕ) → i ≤ j → j < i + n → k ≢ j → f (get_or ts j d) ≡ false)
      → clear_at f g d n i idx ts ≡ (pos k, set ts k (g (get_or ts k d)))
  clear_at_only f g d zero i idx ts k lo hi e h = absurd (omega arith)
  clear_at_only f g d (suc n) i idx ts k lo hi e h = elim (Bool-cases (i == k)) [
    | inl here ↦
        let p : i ≡ k = ground arith in
        let us : List A = set ts k (g (get_or ts k d)) in
        ap (λ j. clear_at f g d (suc n) j idx ts) p
        ∙ clear_hit f g d n k idx ts e
        ∙ clear_at_none f g d n (k + 1) (pos k) us (λ j a b.
          ap f (get_or-set_ne ts k j (g (get_or ts k d)) d (λ q. omega (arith, q)))
          ∙ h j (omega (arith, p)) (omega (arith, p)) (λ q. omega (arith, q)))
    | inr away ↦
        clear_miss f g d n i idx ts (h i (omega arith) (omega arith) (λ q. ground (arith, q)))
        ∙ clear_at_only f g d n (i + 1) idx ts k (ground arith) (omega arith) e
            (λ j a b q. h j (omega arith) (omega arith) q)
  ]
