-- ===== src/Kernel/Events/Tables.antt =====
-- Tables of open events, and what keeps them open.
use rd_spe_tool.Base.{
  ℕ, ◌≡◌, Bool, true, List, [], ◌∷◌, ◌++◌, Option, none, some, nat_eq, some_injective, arith,
}
use rd_spe_tool.Base.Dict.{find}
use rd_spe_tool.Base.Handles.{has}
use rd_spe_tool.Kernel.Events.{PerfEventAttr, PerfEvent, PerfEvents}

-- The events of a table are the ones with these attributes, all enabled or all disabled.
abbrev pub IsOpen : PerfEvents → Bool → PerfEventAttr → Option ℕ → Type 0
IsOpen w b attr e = (k : ℕ) × (e ≡ some k) × (find k w ≡ some (record { attr = attr; enabled = b }))

abbrev pub AreOpen : PerfEvents → Bool → List PerfEventAttr → List (Option ℕ) → Type 0
AreOpen w b [] [] = Unit
AreOpen w b [] (e ∷ es) = ⊥
AreOpen w b (a ∷ attrs) [] = ⊥
AreOpen w b (a ∷ attrs) (e ∷ es) = IsOpen w b a e × AreOpen w b attrs es

abbrev pub Grows : PerfEvents → PerfEvents → Type 0
Grows w w' = (k : ℕ) (v : PerfEvent) → find k w ≡ some v → find k w' ≡ some v

pub AreOpen-Grows :
    (w w' : PerfEvents) (b : Bool) (attrs : List PerfEventAttr) (es : List (Option ℕ))
    → Grows w w'
    → AreOpen w b attrs es
    → AreOpen w' b attrs es
AreOpen-Grows w w' b [] [] grows o = tt
AreOpen-Grows w w' b [] (e ∷ es) grows o = elim o [ ]
AreOpen-Grows w w' b (a ∷ attrs) [] grows o = elim o [ ]
AreOpen-Grows w w' b (a ∷ attrs) (e ∷ es) grows ((k, at, there), o) =
    ((k, at, grows k _ there), AreOpen-Grows w w' b attrs es grows o)

pub AreOpen-append :
    (w : PerfEvents) (b : Bool) (attrs attrs' : List PerfEventAttr) (es es' : List (Option ℕ))
    → AreOpen w b attrs es
    → AreOpen w b attrs' es'
    → AreOpen w b (attrs ++ attrs') (es ++ es')
AreOpen-append w b [] attrs' [] es' o o' = o'
AreOpen-append w b [] attrs' (e ∷ es) es' o o' = elim o [ ]
AreOpen-append w b (a ∷ attrs) attrs' [] es' o o' = elim o [ ]
AreOpen-append w b (a ∷ attrs) attrs' (e ∷ es) es' (x, o) o' =
    (x, AreOpen-append w b attrs attrs' es es' o o')

in_front : (k : ℕ) (e : Option ℕ) (es : List (Option ℕ)) → e ≡ some k → has k (e ∷ es) ≡ true
unfolding has
in_front k none es at = cc at
in_front k (some j) es at = ground (arith, some_injective j k at)

behind : (k : ℕ) (e : Option ℕ) (es : List (Option ℕ)) → has k es ≡ true → has k (e ∷ es) ≡ true
unfolding has
behind k none es held = held
behind k (some j) es held = ground arith

-- Every event of the table is set to `b`, whatever the table beside it.
pub AreOpen-adjusted :
    (w w' : PerfEvents) (b c : Bool) (attrs : List PerfEventAttr) (es : List (Option ℕ))
    → ((k : ℕ) (v : PerfEvent)
        → has k es ≡ true
        → find k w ≡ some v
        → find k w' ≡ some (record v { enabled = c }))
    → AreOpen w b attrs es
    → AreOpen w' c attrs es
unfolding has
AreOpen-adjusted w w' b c [] [] set o = tt
AreOpen-adjusted w w' b c [] (e ∷ es) set o = elim o [ ]
AreOpen-adjusted w w' b c (a ∷ attrs) [] set o = elim o [ ]
AreOpen-adjusted w w' b c (a ∷ attrs) (e ∷ es) set ((k, at, there), o) = (
  (k, at, set k _ (in_front k e es at) there),
  AreOpen-adjusted w w' b c attrs es (λ j v held. set j v (behind j e es held)) o,
)
