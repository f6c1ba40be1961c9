-- ===== src/Prelude/Words/Split.antt =====
-- `strings.Split` on what `strings.Join` writes.
use Prim.Native.Nat.{ℕ}
use mathlib.Core.Path.{◌≡◌, refl, ap, sym, ◌∙◌}
use mathlib.Core.Bool.{true, false}
use mathlib.Core.List.{List, [], ◌∷◌, ◌++◌, append-nil, append_assoc}
use netsee.Prelude.Lists.{All}
use netsee.Prelude.Tests.{==_iff, ◌==◌}
use netsee.Prelude.Text.{Bytes, join}
use netsee.Prelude.Words.{split, split_from}

-- The separator does not stand in the text.
abbrev pub Without : ℕ → Bytes → Type 0
Without sep s = All (λ c. (c == sep) ≡ false) s

split_from-last :
    (sep : ℕ) (piece a : Bytes) → Without sep a → split_from sep piece a ≡ (piece ++ a) ∷ []
unfolding split_from
split_from-last sep piece [] h = ap (λ p. p ∷ []) (sym (append-nil piece))
split_from-last sep piece (c ∷ a) h =
    rw (split_from, h.0)
      (split_from-last sep (piece ++ (c ∷ [])) a h.1
        ∙ ap (λ p. p ∷ []) (append_assoc piece (c ∷ []) a))

split_from-piece :
    (sep : ℕ) (piece a rest : Bytes)
    → Without sep a
    → split_from sep piece (a ++ (sep ∷ rest)) ≡ (piece ++ a) ∷ split_from sep [] rest
unfolding split_from
split_from-piece sep piece [] rest h =
    let same : (sep == sep) ≡ true = (==_iff sep sep).1 refl in
    rw (split_from, same, append-nil) refl
split_from-piece sep piece (c ∷ a) rest h =
    rw (split_from, h.0)
      (split_from-piece sep (piece ++ (c ∷ [])) a rest h.1
        ∙ ap (λ p. p ∷ split_from sep [] rest) (append_assoc piece (c ∷ []) a))

-- Texts that are joined by a byte which none of them has come apart again.
pub split-join :
    (sep : ℕ) (s : Bytes) (texts : List Bytes)
    → All (Without sep) (s ∷ texts)
    → split sep (join (sep ∷ []) (s ∷ texts)) ≡ s ∷ texts
unfolding split join
split-join sep s [] h = split_from-last sep [] s h.0
split-join sep s (t ∷ texts) h =
    split_from-piece sep [] s (join (sep ∷ []) (t ∷ texts)) h.0
    ∙ ap (λ rest. s ∷ rest) (split-join sep t texts h.1)
