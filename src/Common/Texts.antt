-- ===== src/Common/Texts.antt =====
-- The order of texts by their characters, as `sorted` compares them, and `'\n'.join`.
use Prim.Native.Char.{code}
use Prim.Native.String.{String, ◌++◌}
use mathlib.Core.Path.{◌≡◌, refl, ap₂}
use mathlib.Core.Bool.{Bool, true, false}
use mathlib.Core.List.{List, [], ◌∷◌}
use native.Mathlib.Omega.{arith}
use text.Mathlib.TextEquality.{Char-path}
use mom_perf_fair_scheduler.Common.Tests.{if◌then◌else◌, ltb}
use mom_perf_fair_scheduler.Common.Sort.Laws.{IsOrder}

unfoldable pub text_leb : String → String → Bool
text_leb String.[] t = true
text_leb (String.◌∷◌ c s) String.[] = false
text_leb (String.◌∷◌ c s) (String.◌∷◌ d t) =
    if ltb (code c) (code d) then true else if ltb (code d) (code c) then false else text_leb s t

-- `separator.join(texts)`
unfoldable pub join : String → List String → String
join separator [] = ""
join separator (s ∷ []) = s
join separator (s ∷ t ∷ ts) = s ++ (separator ++ join separator (t ∷ ts))

text_leb_total : (s t : String) → text_leb s t ≡ false → text_leb t s ≡ true
unfolding text_leb
text_leb_total String.[] t h = ground arith
text_leb_total (String.◌∷◌ c s) String.[] h = refl
text_leb_total (String.◌∷◌ c s) (String.◌∷◌ d t) h = ground (arith, text_leb_total s t)

text_leb_trans : (s t u : String) → text_leb s t ≡ true → text_leb t u ≡ true → text_leb s u ≡ true
unfolding text_leb
text_leb_trans String.[] t u h k = refl
text_leb_trans (String.◌∷◌ c s) String.[] u h k = ground arith
text_leb_trans (String.◌∷◌ c s) (String.◌∷◌ d t) String.[] h k = ground arith
text_leb_trans (String.◌∷◌ c s) (String.◌∷◌ d t) (String.◌∷◌ e u) h k =
    ground (arith, text_leb_trans s t u)

pub text_leb_antisym : (s t : String) → text_leb s t ≡ true → text_leb t s ≡ true → s ≡ t
unfolding text_leb
text_leb_antisym String.[] String.[] h k = refl
text_leb_antisym String.[] (String.◌∷◌ d t) h k = absurd (ground arith)
text_leb_antisym (String.◌∷◌ c s) String.[] h k = absurd (ground arith)
text_leb_antisym (String.◌∷◌ c s) (String.◌∷◌ d t) h k =
    ap₂ String.◌∷◌ (Char-path c d (ground (arith, h, k)))
      (text_leb_antisym s t (ground (arith, h, k)) (ground (arith, h, k)))

pub text-IsOrder : IsOrder text_leb
text-IsOrder = record { total = text_leb_total; trans = text_leb_trans }
