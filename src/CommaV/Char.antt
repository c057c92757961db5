-- ===== src/CommaV/Char.antt =====
-- comma-v/src/parser/char.rs: the classes of bytes.
use git_cvs_fast_import.Prelude.{ℕ, [], ◌∷◌, Bytes, codes, Bool, ◌&&◌, ◌||◌, not, ◌==◌, leb, ltb}

unfoldable pub is_printable_ascii : ℕ → Bool
is_printable_ascii c = leb 32 c && ltb c 127

-- The fold over the excluded bytes, from what it has so far.
unfoldable pub without_onto : Bool → ℕ → Bytes → Bool
without_onto acc c [] = acc
without_onto acc c (excluded ∷ exclude) = without_onto (acc && not (c == excluded)) c exclude

unfoldable pub is_printable_ascii_without : ℕ → Bytes → Bool
unfolding is_printable_ascii without_onto
is_printable_ascii_without c exclude = without_onto (is_printable_ascii c) c exclude

unfoldable pub is_idchar : ℕ → Bool
unfolding is_printable_ascii_without
is_idchar c = is_printable_ascii_without c (codes "$,.:;@")

unfoldable pub is_intchar : ℕ → Bool
unfolding is_printable_ascii_without
is_intchar c = is_printable_ascii_without c (codes "@") || (c == 12)
