-- ===== src/Hypervisor/Memoize.antt =====
-- mom/HypervisorInterfaces/vdsmCommon.py: `memoize`, the cache of the answers of a function. The
-- clock and what the function answers are arguments of each call: none is an exception, which the
-- cache does not keep. The lock makes a call one step, and the key is the text of the arguments.
use mom_perf_fair_scheduler.Common.{
  String, ◌≡◌, refl, ap, ◌∙◌, Bool, true, false, Option, none, some, List, [], ◌⊎◌, ◌∷◌, arith,
  Bool-cases, Option-cases, inl, inr, Dict, lookup, insert, lookup-insert, str_eq, eq_iff,
  if◌then◌else◌,
}
use mathlib.Core.Option.{some-injective}
use mom_perf_fair_scheduler.Number.{Number, ltb_num, negate}

module _ (n : Number) (V : Type 0) where
  open n use {Num, of_ℕ, minus}

  -- `cache` and `timestamps`, which always have the same keys
  abbrev pub Cache : Type 0
  Cache = Dict (V × Num)

  -- `abs(a)`
  unfoldable pub absolute : Num → Num
  absolute a = if ltb_num n a (of_ℕ 0) then negate n a else a

  -- `abs(now - timestamps[key]) > expiration`
  unfoldable pub is_expired : Num → Num → Num → Bool
  unfolding absolute
  is_expired expiration now timestamp = ltb_num n expiration (absolute (minus now timestamp))

  abbrev pub needs_call : Num → Num → Option (V × Num) → Bool
  needs_call expiration now none = true
  needs_call expiration now (some (v, timestamp)) = is_expired expiration now timestamp

  abbrev cached_value : Option (V × Num) → Option V
  cached_value none = none
  cached_value (some (v, timestamp)) = some v

  -- A call: the result, or none where the exception of the function goes on, and the cache.
  unfoldable pub memoizer : Num → Num → String → Option V → Cache → Option V × Cache
  unfolding lookup insert is_expired
  memoizer expiration now key answer cache =
      if needs_call expiration now (lookup key cache)
      then elim answer [ none ↦ (none, cache) | some v ↦ (some v, insert key (v, now) cache) ]
      else (cached_value (lookup key cache), cache)

  -- One call: the clock, the key, and what the function would answer.
  pub record Call : Type 0 where
    pub now : Num
    pub key : String
    pub answer : Option V

  -- The cache after some calls, the latest first.
  unfoldable pub after_calls : Num → List Call → Cache
  unfolding memoizer
  after_calls expiration [] = []
  after_calls expiration (c ∷ calls) =
      (memoizer expiration c.now c.key c.answer (after_calls expiration calls)).1

  -- Some of the calls with this key got this answer at this time.
  abbrev pub Answered : String → V → Num → List Call → Type 0
  Answered key v time [] = ⊥
  Answered key v time (c ∷ calls) =
      ((c.key ≡ key) × (c.answer ≡ some v) × (c.now ≡ time)) ⊎ Answered key v time calls

  -- What a call does to an entry: the entry is the new one, or it was there before.
  lookup-memoizer :
      (expiration : Num) (c : Call) (cache : Cache) (key : String) (v : V) (time : Num)
      → lookup key (memoizer expiration c.now c.key c.answer cache).1 ≡ some (v, time)
      → ((c.key ≡ key) × (c.answer ≡ some v) × (c.now ≡ time)) ⊎ (lookup key cache ≡ some (v, time))
  unfolding memoizer
  lookup-memoizer expiration c cache key v time h =
      elim (Bool-cases (needs_call expiration c.now (lookup c.key cache))) [
        | inr e ↦ inr (rw (e, memoizer) at h)
        | inl e ↦ elim (Option-cases c.answer) [
          | inl a ↦ inr (rw (e, a, memoizer) at h)
          | inr (w, a) ↦ elim (Bool-cases (str_eq c.key key)) [
            | inr k ↦ inr (
                ground
                  (arith, k, lookup-insert c.key key (w, c.now) cache, rw (e, a, memoizer) at h))
            | inl k ↦
                let old : V × Num = (v, time) in
                let new : V × Num = (w, c.now) in
                let stored : some new ≡ some old =
                  ground (
                    arith,
                    k,
                    lookup-insert c.key key (w, c.now) cache,
                    rw (e, a, memoizer) at h,
                  ) in
                let same = some-injective _ _ stored in
                inl (
                  (eq_iff c.key key).0 k,
                  a ∙ ap (λ (x : V × Num). some (x.0)) same,
                  ap (λ (x : V × Num). x.1) same,
                )
          ]
        ]
      ]

  lookup-Answered :
      (expiration : Num) (calls : List Call) (key : String) (v : V) (time : Num)
      → lookup key (after_calls expiration calls) ≡ some (v, time)
      → Answered key v time calls
  unfolding after_calls lookup
  lookup-Answered expiration [] key v time h = absurd (ground arith)
  lookup-Answered expiration (c ∷ calls) key v time h =
      elim (lookup-memoizer expiration c (after_calls expiration calls) key v time h) [
        | inl now ↦ inl now
        | inr before ↦ inr (lookup-Answered expiration calls key v time before)
      ]

  -- A value that `memoize` returns is what the function answered for the same key, in this call or
  -- in one before whose time is not expired at the time of this call.
  pub memoizer-Answered :
      (expiration : Num) (calls : List Call) (c : Call) (v : V)
      → (memoizer expiration c.now c.key c.answer (after_calls expiration calls)).0 ≡ some v
      → (time : Num) × Answered c.key v time (c ∷ calls)
        × ((time ≡ c.now) ⊎ (is_expired expiration c.now time ≡ false))
  unfolding memoizer
  memoizer-Answered expiration calls c v h =
      let cache = after_calls expiration calls in
      elim (Option-cases (lookup c.key cache)) [
        | inl e ↦ elim (Option-cases c.answer) [
          | inl a ↦ absurd (ground (arith, rw (e, a, memoizer) at h))
          | inr (w, a) ↦ (c.now, inl (refl, a ∙ (rw (e, a, memoizer) at h), refl), inl refl)
        ]
        | inr ((w, time), e) ↦ elim (Bool-cases (is_expired expiration c.now time)) [
          | inl x ↦ elim (Option-cases c.answer) [
            | inl a ↦ absurd (ground (arith, rw (e, x, a, memoizer) at h))
            | inr (u, a) ↦ (c.now, inl (refl, a ∙ (rw (e, x, a, memoizer) at h), refl), inl refl)
          ]
          | inr x ↦
              let same : w ≡ v = some-injective w v (rw (e, x, memoizer) at h) in
              (
                time,
                inr (
                    lookup-Answered expiration calls c.key v time
                      (e ∙ ap (λ y. some (y, time)) same)),
                inr x,
              )
        ]
      ]
