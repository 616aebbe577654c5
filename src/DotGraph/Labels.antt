-- ===== src/DotGraph/Labels.antt =====
-- The label of an edge of DotGraph.java, and the names that `split` finds in it.
use javaprofiler.Base.{
  ℕ, ◌≡◌, ◌≢◌, refl, ap, ◌∙◌, false, some, List, [], ◌∷◌, ◌++◌, append-nil, append_assoc, All, ◌==◌,
}
use javaprofiler.DotGraph.{edge_label, split_from, drop_empty, ends_of, split}

-- A text without the character 1.
abbrev pub IsPlain : List ℕ → Type 0
IsPlain = All (λ (c : ℕ). (c == 1) ≡ false)

split_from-plain : (text e : List ℕ) → IsPlain e → split_from text e ≡ (text ++ e) ∷ []
unfolding split_from
split_from-plain text [] v = rw (append-nil text) refl
split_from-plain text (c ∷ e) v = rw v.0 (
    split_from-plain (text ++ (c ∷ [])) e v.1
    ∙ ap (λ (t : List ℕ). t ∷ []) (append_assoc text (c ∷ []) e))

split_from-label :
    (text src dst : List ℕ)
    → IsPlain src
    → IsPlain dst
    → split_from text (src ++ (1 ∷ dst)) ≡ (text ++ src) ∷ dst ∷ []
unfolding split_from
split_from-label text [] dst v w =
    rw (append-nil text) (ap (λ (ts : List (List ℕ)). text ∷ ts) (split_from-plain [] dst w))
split_from-label text (c ∷ src) dst v w = rw v.0 (
    split_from-label (text ++ (c ∷ [])) src dst v.1 w
    ∙ ap (λ (t : List ℕ). t ∷ dst ∷ []) (append_assoc text (c ∷ []) src))

ends_of-drop_empty :
    (src : List ℕ) (dst : List ℕ)
    → dst ≢ []
    → ends_of (drop_empty (src ∷ dst ∷ [])) ≡ some (src, dst)
unfolding ends_of drop_empty
ends_of-drop_empty src [] h = absurd (h refl)
ends_of-drop_empty [] (c ∷ dst) h = refl
ends_of-drop_empty (b ∷ src) (c ∷ dst) h = refl

-- The names of an edge come back from its label, if they have no character 1 and the second is not
-- empty.
pub split-edge_label :
    (src dst : List ℕ)
    → IsPlain src
    → IsPlain dst
    → dst ≢ []
    → split (edge_label src dst) ≡ some (src, dst)
unfolding split edge_label
split-edge_label src dst v w h = rw (split_from-label [] src dst v w) (ends_of-drop_empty src dst h)
