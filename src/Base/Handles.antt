-- ===== src/Base/Handles.antt =====
-- What the operating system keeps open under small numbers: descriptors, mappings, perf events. A new
-- one gets a number that is not in use, which `fresh` chooses.
use mathlib.Core.Path.{◌≡◌, refl, ap, ◌∙◌}
use mathlib.Core.Bool.{Bool, true, false, ◌||◌}
use mathlib.Core.Option.{Option, none, some}
use mathlib.Core.Option
use mathlib.Core.List.{List, [], ◌∷◌, ◌++◌}
use native.Mathlib.Omega.{arith}
use Prim.Native.Nat.{ℕ, zero, suc, ◌+◌, ◌≤◌}
use rd_spe_tool.Base.Lists.{replicate}
use rd_spe_tool.Base.Tests.{if◌then◌else◌, ◌==◌}
use rd_spe_tool.Base.Equality.{nat_eq}
use rd_spe_tool.Base.Dict.{find, erase}

abbrev pub Handles {ℓ} : Type ℓ → Type ℓ
Handles V = List (ℕ × V)

-- A number that is not in use.
abbrev pub IsFresh {ℓ} : {V : Type ℓ} → (Handles V → ℕ) → Type ℓ
IsFresh {V = V} fresh = (w : Handles V) → find (fresh w) w ≡ none

-- The numbers in a table whose free entries are `none`.
unfoldable pub has : ℕ → List (Option ℕ) → Bool
has k [] = false
has k (none ∷ es) = has k es
has k (some j ∷ es) = (j == k) || has k es

module _ {ℓ} {V : Type ℓ} where
  -- A handle stays as it is, but for its state.
  unfoldable pub adjust : ℕ → (V → V) → Handles V → Handles V
  adjust k f [] = []
  adjust k f ((j, v) ∷ w) = (j, if j == k then f v else v) ∷ adjust k f w

  unfoldable pub adjust_all : List (Option ℕ) → (V → V) → Handles V → Handles V
  unfolding adjust
  adjust_all [] f w = w
  adjust_all (none ∷ es) f w = adjust_all es f w
  adjust_all (some k ∷ es) f w = adjust_all es f (adjust k f w)

  unfoldable pub release_all : List (Option ℕ) → Handles V → Handles V
  release_all [] w = w
  release_all (none ∷ es) w = release_all es w
  release_all (some k ∷ es) w = release_all es (erase k w)

  pub find-adjust :
      (k j : ℕ) (f : V → V) (w : Handles V)
      → find j (adjust k f w) ≡ (if k == j then Option.map f (find j w) else find j w)
  unfolding find adjust
  find-adjust k j f [] = ground arith
  find-adjust k j f ((i, v) ∷ w) = ground (arith, find-adjust k j f w)

  pub find-erase :
      (k j : ℕ) (w : Handles V) → find j (erase k w) ≡ (if k == j then none else find j w)
  unfolding find erase
  find-erase k j [] = ground arith
  find-erase k j ((i, v) ∷ w) = ground (arith, find-erase k j w)

  -- `w'` is `w` with the handles of `es` on top, all of them new.
  abbrev pub IsExtended : Handles V → List (Option ℕ) → Handles V → Type ℓ
  IsExtended w es w' =
      (k : ℕ) → (has k es ≡ false → find k w' ≡ find k w) × (has k es ≡ true → find k w ≡ none)

  pub find-release_all :
      (k : ℕ) (es : List (Option ℕ)) (w : Handles V)
      → find k (release_all es w) ≡ (if has k es then none else find k w)
  unfolding release_all has
  find-release_all k [] w = refl
  find-release_all k (none ∷ es) w = find-release_all k es w
  find-release_all k (some j ∷ es) w =
      ground (arith, find-release_all k es (erase j w), find-erase j k w)

  -- What is opened and then released leaves everything as it was.
  pub release_all-IsExtended :
      (w w' : Handles V) (es : List (Option ℕ))
      → IsExtended w es w'
      → (k : ℕ) → find k (release_all es w') ≡ find k w
  release_all-IsExtended w w' es ext k = ground (arith, find-release_all k es w', ext k)

  pub find-adjust_all :
      (k : ℕ) (es : List (Option ℕ)) (f : V → V) (w : Handles V)
      → has k es ≡ false
      → find k (adjust_all es f w) ≡ find k w
  unfolding adjust_all has
  find-adjust_all k [] f w e = refl
  find-adjust_all k (none ∷ es) f w e = find-adjust_all k es f w e
  find-adjust_all k (some j ∷ es) f w e =
      ground (arith, find-adjust_all k es f (adjust j f w), find-adjust j k f w)

-- A call that may fail: the error decides between going on and stopping.
unfoldable pub on_error {ℓ} : {A : Type ℓ} → Option ℕ → A → (ℕ → A) → A
on_error none going stopped = going
on_error (some e) going stopped = stopped e

pub on_error-all {ℓ κ} :
    {A : Type ℓ} (P : A → Type κ) (o : Option ℕ) (going : A) (stopped : ℕ → A)
    → (o ≡ none → P going)
    → ((e : ℕ) → o ≡ some e → P (stopped e))
    → P (on_error o going stopped)
unfolding on_error
on_error-all P none going stopped g h = g refl
on_error-all P (some e) going stopped g h = h e refl

pub map_idem {ℓ} :
    {V : Type ℓ} (f : V → V) (o : Option V)
    → ((v : V) → f (f v) ≡ f v)
    → Option.map f (Option.map f o) ≡ Option.map f o
map_idem f none idem = refl
map_idem f (some v) idem = ap some (idem v)

module _ {ℓ} {V : Type ℓ} where
  -- The handles of a table take a state that is taken twice as once.
  pub find-adjust_all_idem :
      (k : ℕ) (es : List (Option ℕ)) (f : V → V) (w : Handles V)
      → ((v : V) → f (f v) ≡ f v)
      → find k (adjust_all es f w) ≡ (if has k es then Option.map f (find k w) else find k w)
  unfolding adjust_all has
  find-adjust_all_idem k [] f w idem = refl
  find-adjust_all_idem k (none ∷ es) f w idem = find-adjust_all_idem k es f w idem
  find-adjust_all_idem k (some j ∷ es) f w idem = ground (
    arith,
    find-adjust_all_idem k es f (adjust j f w) idem,
    find-adjust j k f w,
    map_idem f (find k w) idem,
  )

abbrev pub one_if_some {ℓ} : {A : Type ℓ} → Option A → ℕ
one_if_some none = 0
one_if_some (some a) = 1

pub map_none {ℓ} :
    {V : Type ℓ} (f : V → V) (o : Option V) → one_if_some (Option.map f o) ≡ one_if_some o
map_none f none = refl
map_none f (some v) = refl

-- How often a number stands in a table.
unfoldable pub count : ℕ → List (Option ℕ) → ℕ
count k [] = 0
count k (none ∷ es) = count k es
count k (some j ∷ es) = (if j == k then 1 else 0) + count k es

-- How many entries of a table are taken.
unfoldable pub taken : List (Option ℕ) → ℕ
taken [] = 0
taken (none ∷ es) = taken es
taken (some j ∷ es) = 1 + taken es

pub count-append : (k : ℕ) (xs ys : List (Option ℕ)) → count k (xs ++ ys) ≡ count k xs + count k ys
unfolding count
count-append k [] ys = omega arith
count-append k (none ∷ xs) ys = count-append k xs ys
count-append k (some j ∷ xs) ys = ground (arith, count-append k xs ys)

pub count-replicate : (k n : ℕ) → count k (replicate n none) ≡ 0
unfolding count
count-replicate k zero = refl
count-replicate k (suc n) = count-replicate k n

-- 1 for a number in use, 0 for another.
unfoldable pub opens {ℓ} : {V : Type ℓ} → ℕ → Handles V → ℕ
opens k w = one_if_some (find k w)

module _ {ℓ} {V : Type ℓ} where
  pub opens-new :
      (k j : ℕ) (v : V) (w : Handles V)
      → find j w ≡ none
      → opens k ((j, v) ∷ w) ≡ opens k w + (if j == k then 1 else 0)
  unfolding opens find
  opens-new k j v w unused = ground arith

  pub opens-erase :
      (k j : ℕ) (w : Handles V) → opens k (erase j w) ≡ (if j == k then 0 else opens k w)
  unfolding opens
  opens-erase k j w = ground (arith, find-erase j k w)

  pub opens-adjust : (k j : ℕ) (f : V → V) (w : Handles V) → opens k (adjust j f w) ≡ opens k w
  unfolding opens
  opens-adjust k j f w = ground (arith, find-adjust j k f w, map_none f (find k w))

  pub opens_le : (k : ℕ) (w : Handles V) → opens k w ≤ 1
  unfolding opens
  opens_le k w = ground arith

  -- A table that is released gives back its numbers, of which each was in use once.
  pub opens-release_all :
      (k b : ℕ) (es : List (Option ℕ)) (w : Handles V)
      → opens k w ≡ b + count k es
      → opens k (release_all es w) ≡ b
  unfolding release_all count
  opens-release_all k b [] w e = omega (arith, e)
  opens-release_all k b (none ∷ es) w e = opens-release_all k b es w e
  opens-release_all k b (some j ∷ es) w e =
      opens-release_all k b es (erase j w) (ground (arith, opens-erase k j w, opens_le k w))

pub count-cons :
    (k : ℕ) (e : Option ℕ) (es : List (Option ℕ)) → count k (e ∷ es) ≡ count k (e ∷ []) + count k es
unfolding count
count-cons k none es = omega arith
count-cons k (some j) es = omega arith

pub opens-adjust_all {ℓ} :
    {V : Type ℓ} (k : ℕ) (es : List (Option ℕ)) (f : V → V) (w : Handles V)
    → opens k (adjust_all es f w) ≡ opens k w
unfolding adjust_all
opens-adjust_all k [] f w = refl
opens-adjust_all k (none ∷ es) f w = opens-adjust_all k es f w
opens-adjust_all k (some j ∷ es) f w = opens-adjust_all k es f (adjust j f w) ∙ opens-adjust k j f w
