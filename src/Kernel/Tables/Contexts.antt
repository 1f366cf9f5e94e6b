-- ===== src/Kernel/Tables/Contexts.antt =====
-- The ids that `rd_get_context_id_locked` gives to call chains.
use rd_spe_tool.Base.{
  and_true, ℕ, suc, ◌+◌, ◌-◌, ◌≡◌, ◌≢◌, refl, sym, ap, subst, Bool, true, not, ◌&&◌, List, [], ◌∷◌,
  none, some, get_or, set, arith, inl, inr, Option-cases, to_u32, text_eq, eq_of_text_eq,
  text_eq_refl, get_or-set_self,
}
use rd_spe_tool.Kernel.State.{Thread, ContextEntry}
use rd_spe_tool.Kernel.Tables.{empty_context, drop_context, rd_get_context_id_locked}
use rd_spe_tool.Kernel.Tables.Scan.{
  find_index, find_index-passes, find_index-set, located, scan-located,
}

abbrev holds : List ℕ → ContextEntry → Bool
holds chain e = e.used && text_eq e.ips chain

abbrev is_free : ContextEntry → Bool
is_free e = not e.used

-- The entry of a chain, and the thread with its chain entered there.
abbrev entry_of : List ℕ → ContextEntry
entry_of chain = record { used = true; ips = chain }

abbrev entered : List ℕ → ℕ → Thread → Thread
entered chain i t = record t {
  contexts = set t.contexts i (entry_of chain);
  context_used = to_u32 (t.context_used + 1);
}

entry_held : (chain : List ℕ) (e : ContextEntry) → holds chain e ≡ true → e ≡ entry_of chain
entry_held chain e h =
    let (used, same) = and_true e.used (text_eq e.ips chain) h in
    subst (λ b. e ≡ record { used = b; ips = chain }) used
      (subst (λ l. e ≡ record { used = e.used; ips = l }) (eq_of_text_eq e.ips chain same) refl)

entry-holds : (chain : List ℕ) → holds chain (entry_of chain) ≡ true
entry-holds chain = text_eq_refl chain

module _ (ip : ℕ) (ips : List ℕ) (t : Thread) where
  id_matched :
      (i : ℕ)
      → find_index (holds (ip ∷ ips)) t.contexts ≡ some i
      → rd_get_context_id_locked (ip ∷ ips) t ≡ (t, suc i)
  unfolding rd_get_context_id_locked located
  id_matched i h =
      rw
        (
          scan-located ContextEntry.used (λ e. text_eq e.ips (ip ∷ ips)) t.contexts 0 none,
          h,
          rd_get_context_id_locked,
          located,
        )
        (ap (λ n. (t, suc n)) (omega arith))

  id_entered :
      (i : ℕ)
      → find_index (holds (ip ∷ ips)) t.contexts ≡ none
      → find_index is_free t.contexts ≡ some i
      → rd_get_context_id_locked (ip ∷ ips) t ≡ (entered (ip ∷ ips) i t, suc i)
  unfolding rd_get_context_id_locked located
  id_entered i h v =
      rw
        (
          scan-located ContextEntry.used (λ e. text_eq e.ips (ip ∷ ips)) t.contexts 0 none,
          h,
          v,
          rd_get_context_id_locked,
          located,
        )
        (ap (λ n. (entered (ip ∷ ips) n t, suc n)) (omega arith))

  id_dropped :
      find_index (holds (ip ∷ ips)) t.contexts ≡ none
      → find_index is_free t.contexts ≡ none
      → rd_get_context_id_locked (ip ∷ ips) t ≡ drop_context t
  unfolding rd_get_context_id_locked located
  id_dropped h v =
      rw
        (
          scan-located ContextEntry.used (λ e. text_eq e.ips (ip ∷ ips)) t.contexts 0 none,
          h,
          v,
          rd_get_context_id_locked,
          located,
        )
        refl

-- An id that is not 0 leads back to the chain.
abbrev LeadsBack : List ℕ → Thread × ℕ → Type 0
LeadsBack chain r =
    r.1 ≢ 0
    → (rd_get_context_id_locked chain r.0 ≡ r)
      × (get_or r.0.contexts (r.1 - 1) empty_context ≡ entry_of chain)

at_place :
    (contexts : List ContextEntry) (i : ℕ) (e : ContextEntry)
    → get_or contexts i empty_context ≡ e
    → get_or contexts (suc i - 1) empty_context ≡ e
at_place contexts i e h =
    let back : i ≡ suc i - 1 = omega arith in
    subst (λ k. get_or contexts k empty_context ≡ e) back h

zero_id : (t : Thread) → (rd_get_context_id_locked [] t).1 ≡ 0
unfolding rd_get_context_id_locked
zero_id t = refl

id-LeadsBack : (chain : List ℕ) (t : Thread) → LeadsBack chain (rd_get_context_id_locked chain t)
id-LeadsBack [] t = λ nonzero. absurd (nonzero (zero_id t))
id-LeadsBack (ip ∷ ips) t = elim (Option-cases (find_index (holds (ip ∷ ips)) t.contexts)) [
  | inr (i, h) ↦
      let same = id_matched ip ips t i h in
      let held = (find_index-passes (holds (ip ∷ ips)) t.contexts i empty_context h).1 in
      subst (LeadsBack (ip ∷ ips)) (sym same)
        (λ nonzero. (same, at_place t.contexts i _ (entry_held (ip ∷ ips) _ held)))
  | inl h ↦ (elim (Option-cases (find_index is_free t.contexts)) [
    | inl v ↦
        subst (LeadsBack (ip ∷ ips)) (sym (id_dropped ip ips t h v))
          (λ nonzero. absurd (nonzero refl))
    | inr (i, v) ↦
        let inside = (find_index-passes is_free t.contexts i empty_context v).0 in
        let found =
          find_index-set (holds (ip ∷ ips)) t.contexts i (entry_of (ip ∷ ips)) h inside
            (entry-holds (ip ∷ ips)) in
        subst (LeadsBack (ip ∷ ips)) (sym (id_entered ip ips t i h v)) (λ nonzero. (
          id_matched ip ips (entered (ip ∷ ips) i t) i found,
          at_place _ i _ (get_or-set_self t.contexts i (entry_of (ip ∷ ips)) empty_context inside),
        ))
  ])
]

-- Where the search for a call chain gives an id that is not 0, the same search right afterwards
-- changes nothing and gives the same id, and the entry before that id holds the chain.
pub context_id-stable :
    (chain : List ℕ) (t u : Thread) (id : ℕ)
    → rd_get_context_id_locked chain t ≡ (u, id)
    → id ≢ 0
    → (rd_get_context_id_locked chain u ≡ (u, id))
      × (get_or u.contexts (id - 1) empty_context ≡ record { used = true; ips = chain })
context_id-stable chain t u id h nonzero = subst (LeadsBack chain) h (id-LeadsBack chain t) nonzero
