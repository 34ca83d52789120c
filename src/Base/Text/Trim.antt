-- ===== src/Base/Text/Trim.antt =====
-- Texts that strings.TrimSpace leaves alone.
use mathlib.Core.List.{reverse, reverse-reverse}
use game_server_go.Base.{ℕ, ◌≡◌, refl, ap, ◌∙◌, [], ◌∷◌}
use game_server_go.Base.Text.{Bytes, trim_space, strip, front_space, back_space}

strip_none : (width : Bytes → ℕ) (s : Bytes) → width s ≡ 0 → strip width 0 s ≡ s
unfolding strip
strip_none width [] e = refl
strip_none width (a ∷ s) e = rw (e, strip) refl

-- No white space character stands at either end.
pub trim_space_lem : (s : Bytes) → front_space s ≡ 0 → back_space (reverse s) ≡ 0 → trim_space s ≡ s
unfolding trim_space
trim_space_lem s f b =
    ap (λ t. reverse (strip back_space 0 (reverse t))) (strip_none front_space s f)
    ∙ ap reverse (strip_none back_space (reverse s) b)
    ∙ reverse-reverse s
