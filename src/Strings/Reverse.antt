-- ===== src/Strings/Reverse.antt =====
-- `string.reverse` (lua-5.1.5/src/lstrlib.c).
use lua_5_1_source_guide.Base.{
  ℕ, zero, suc, ◌≡◌, refl, sym, ap, ◌∙◌, List, [], ◌∷◌, ◌++◌, length, get_or,
}
use lua_5_1_source_guide.Strings.{reverse_loop, str_reverse}
use mathlib.Core.List

reverse_loop-first :
    (l x : ℕ) (s : List ℕ) → reverse_loop (suc l) (x ∷ s) ≡ reverse_loop l s ++ x ∷ []
unfolding reverse_loop
reverse_loop-first zero x s = refl
reverse_loop-first (suc l) x s = ap (λ (r : List ℕ). get_or s l 0 ∷ r) (reverse_loop-first l x s)

-- `string.reverse` of any string has its bytes in the opposite order.
pub str_reverse-reverse : (s : List ℕ) → str_reverse s ≡ List.reverse s
unfolding str_reverse reverse_loop
str_reverse-reverse [] = refl
str_reverse-reverse (x ∷ s) =
    reverse_loop-first (length s) x s
    ∙ ap (λ (r : List ℕ). r ++ x ∷ []) (str_reverse-reverse s)
    ∙ sym (List.reverse-cons x s)
