-- ===== src/Targeted/Text/Fields.antt =====
-- A line of fields between tabs, and what `split_tab` makes of it.
use rd_spe_tool.Base.{ℕ, ◌≡◌, refl, ap, ◌∙◌, List, [], ◌∷◌, ◌++◌, Text, All}
use rd_spe_tool.Base.Digits.{join_tab}
use rd_spe_tool.Targeted.Text.{split_on, split_tab, prepend}
use rd_spe_tool.Targeted.Text.Digits.{NoTab}

split_on-field : (field s : Text) → NoTab field → split_on 9 (field ++ 9 ∷ s) ≡ field ∷ split_on 9 s
unfolding split_on prepend
split_on-field [] s plain = refl
split_on-field (c ∷ field) s plain = rw plain.0 (ap (prepend c) (split_on-field field s plain.1))

split_on-last : (c : ℕ) (last : Text) → NoTab (c ∷ last) → split_on 9 (c ∷ last) ≡ (c ∷ last) ∷ []
unfolding split_on prepend
split_on-last c [] plain = rw plain.0
split_on-last c (d ∷ last) plain = rw plain.0 (ap (prepend c) (split_on-last d last plain.1))

last_split : (last : Text) → NoTab last → ¬ (last ≡ []) → split_on 9 last ≡ last ∷ []
last_split [] plain filled = absurd (filled refl)
last_split (c ∷ last) plain filled = split_on-last c last plain

pub split_tab-join_tab :
    (fields : List Text) (last : Text)
    → All NoTab fields
    → NoTab last
    → ¬ (last ≡ [])
    → split_tab (join_tab fields last) ≡ fields ++ last ∷ []
unfolding split_tab join_tab
split_tab-join_tab [] last plain end filled = last_split last end filled
split_tab-join_tab (field ∷ fields) last plain end filled =
    split_on-field field (join_tab fields last) plain.0
    ∙ ap (λ rest. field ∷ rest) (split_tab-join_tab fields last plain.1 end filled)
