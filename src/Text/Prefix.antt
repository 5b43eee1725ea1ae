-- ===== src/Text/Prefix.antt =====
-- Cutting a text behind a part without the separator.
use approximation_computing.Common.{ℕ, ◌≡◌, refl, ap, ◌∙◌, false, List, [], ◌∷◌, ◌++◌, ◌==◌}
use approximation_computing.Text.{Bytes}
use approximation_computing.Text.Read.{cut, push, Lacks}

-- The text is put in front of the first part.
unfoldable pub prepend : Bytes → List Bytes → List Bytes
prepend [] parts = parts
prepend (c ∷ s) parts = push c (prepend s parts)

pub prepend-cons :
    (s part : Bytes) (parts : List Bytes) → prepend s (part ∷ parts) ≡ (s ++ part) ∷ parts
unfolding prepend
prepend-cons [] part parts = refl
prepend-cons (c ∷ s) part parts = ap (push c) (prepend-cons s part parts)

cut-push : (sep c : ℕ) (s : Bytes) → (c == sep) ≡ false → cut sep (c ∷ s) ≡ push c (cut sep s)
unfolding cut
cut-push sep c s h = rw (h, cut) refl

pub cut_prefix : (sep : ℕ) (s t : Bytes) → Lacks sep s → cut sep (s ++ t) ≡ prepend s (cut sep t)
unfolding prepend
cut_prefix sep [] t h = refl
cut_prefix sep (c ∷ s) t (h, hs) = cut-push sep c (s ++ t) h ∙ ap (push c) (cut_prefix sep s t hs)
