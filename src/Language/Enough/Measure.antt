-- ===== src/Language/Enough/Measure.antt =====
-- The measures of code of mom/Policy/Parser.py that bound the fuel of its evaluation.
use mom_perf_fair_scheduler.Common.{
  ℕ, suc, ◌<◌, ◌≡◌, String, Bool, true, false, not, ◌&&◌, some, arith, ltb, if◌then◌else◌, All,
  lookup,
}
use mom_perf_fair_scheduler.Language.Action.{ok, err}
use mom_perf_fair_scheduler.Language.Syntax.{Code, Codes, leaf, node, nil, cons, to_list}
use mom_perf_fair_scheduler.Language.Handlers.{handlers, def_}
use mom_perf_fair_scheduler.Language.Eval.{function_name}

abbrev larger : ℕ → ℕ → ℕ
larger a b = if ltb a b then b else a

abbrev mutual
  -- How deep the lists of the code are nested.
  pub depth : Code → ℕ
  depth (leaf token) = 0
  depth (node codes) = suc (depths codes)

  pub depths : Codes → ℕ
  depths nil = 0
  depths (cons c cs) = larger (depth c) (depths cs)

-- The name is that of `def` or `defun`.
unfoldable pub is_def : String → Bool
unfolding handlers lookup
is_def name = elim (lookup name handlers) [ some def_ ↦ true | _ ↦ false ]

-- A list that begins like these is a definition.
unfoldable pub is_definition : Codes → Bool
unfolding is_def function_name
is_definition (cons (leaf token) codes) = elim (function_name token) [
  | ok name ↦ is_def name
  | err e ↦ false
]
is_definition _ = false

abbrev mutual
  -- No list in the code is a definition.
  pub defines_none : Code → Bool
  defines_none (leaf token) = true
  defines_none (node codes) = not (is_definition codes) && define_none codes

  pub define_none : Codes → Bool
  define_none nil = true
  define_none (cons c cs) = defines_none c && define_none cs

-- The code defines no function, and the fuel is more than its depth.
abbrev pub Fits : ℕ → Code → Type 0
Fits fuel c = (defines_none c ≡ true) × (depth c < fuel)

pub Fits-All :
    (fuel : ℕ) (cs : Codes)
    → define_none cs ≡ true
    → depths cs < fuel
    → All (Fits fuel) (to_list cs)
Fits-All fuel nil h k = tt
Fits-All fuel (cons c cs) h k =
    ((ground arith, ground arith), Fits-All fuel cs (ground arith) (ground arith))

-- The members of a list that fits into one unit more.
pub Fits-members :
    (fuel : ℕ) (cs : Codes) → Fits (suc fuel) (node cs) → All (Fits fuel) (to_list cs)
Fits-members fuel cs h = Fits-All fuel cs (ground (arith, h.0)) (omega (arith, h.1))

-- The members of a list that fits.
pub Fits-inner : (fuel : ℕ) (cs : Codes) → Fits fuel (node cs) → All (Fits fuel) (to_list cs)
Fits-inner fuel cs h = Fits-All fuel cs (ground (arith, h.0)) (omega (arith, h.1))
