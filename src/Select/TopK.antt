-- ===== src/Select/TopK.antt =====
-- The loop of `collect_hotspots_for_thread` that fills up to `top_k`.
use rd_spe_tool.Base.{ℕ, zero, suc, ◌+◌, ◌-◌, ◌≡◌, sym, ap, ◌∙◌, Bool, false, List, [], ◌∷◌, ◌++◌}
use rd_spe_tool.Base.{arith, length, length-append, take, length-take, leb, le→leb}
use mathlib.Core.List.{append-nil, append_assoc}
use rd_spe_tool.Select.{fill, partition}

module _ {ℓ} {A : Type ℓ} where
  take-append : (n : ℕ) (xs ys : List A) → take n (xs ++ ys) ≡ take n xs ++ take (n - length xs) ys
  take-append zero xs ys = rw (none_left (length xs))
    where
      none_left : (k : ℕ) → zero - k ≡ 0
      none_left k = omega arith
  take-append (suc n) [] ys = let e : suc n ≡ suc n - 0 = omega arith in ap (λ k. take k ys) e
  take-append (suc n) (x ∷ xs) ys =
      let e : n - length xs ≡ suc n - suc (length xs) = omega arith in
      ap (◌∷◌ x) (take-append n xs ys ∙ ap (λ k. take n xs ++ take k ys) e)

  -- With room for `n` more, the next `n` are taken.
  fill_room : (k n : ℕ) (acc xs : List A) → k ≡ length acc + n → fill k acc xs ≡ acc ++ take n xs
  unfolding fill
  fill_room k zero acc [] e = sym (append-nil acc)
  fill_room k (suc n) acc [] e = sym (append-nil acc)
  fill_room k zero acc (x ∷ xs) e = rw (le→leb k (length acc) (omega arith)) (sym (append-nil acc))
  fill_room k (suc n) acc (x ∷ xs) e =
      let more : leb k (length acc) ≡ false = ground arith in
      let next : k ≡ length (acc ++ x ∷ []) + n = omega (arith, length-append acc (x ∷ [])) in
      rw more (fill_room k n (acc ++ x ∷ []) xs next ∙ append_assoc acc (x ∷ []) (take n xs))

  -- Filling after a prefix of the same length bound gives a prefix again.
  pub fill-take : (k : ℕ) (xs ys : List A) → fill k (take k xs) ys ≡ take k (xs ++ ys)
  fill-take k xs ys =
      fill_room k (k - length xs) (take k xs) ys (omega (arith, length-take k xs))
      ∙ sym (take-append k xs ys)

  -- The three loops together.
  pub fill_three :
      (k : ℕ) (xs ys zs : List A) → fill k (fill k (fill k [] xs) ys) zs ≡ take k ((xs ++ ys) ++ zs)
  fill_three k xs ys zs =
      ap (λ acc. fill k (fill k acc ys) zs) (fill_room k k [] xs (omega arith))
      ∙ ap (λ acc. fill k acc zs) (fill-take k xs ys)
      ∙ fill-take k (xs ++ ys) zs

  pub length-partition :
      (p : A → Bool) (xs : List A)
      → length (partition p xs).0 + length (partition p xs).1 ≡ length xs
  unfolding partition
  length-partition p [] = omega arith
  length-partition p (x ∷ xs) = ground (arith, length-partition p xs)
