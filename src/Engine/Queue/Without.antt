-- ===== src/Engine/Queue/Without.antt =====
-- Taking a request out of the list that the tree of src/dm_afs_engine.c stands for.
use artifice.Base.{
  ℕ, suc, ◌≡◌, refl, ap, arith, true, false, if◌then◌else◌, ◌==◌, List, [], ◌∷◌, ◌++◌, none, some,
  Bool-cases, inl, inr, ◌∙◌, sym,
}
use artifice.Target.Request.{MapRequest}
use artifice.Engine.Queue.{Rising}
use artifice.Engine.Queue.Order.{lookup, lookup_below, Rising-lower}

-- The list without the first request for the block.
unfoldable pub without : ℕ → List MapRequest → List MapRequest
without b [] = []
without b (r ∷ rs) = let rest = without b rs in if b == r.block then rs else r ∷ rest

pub without-append :
    (low : ℕ) (before : List MapRequest) (r : MapRequest) (after : List MapRequest)
    → Rising low r.block before
    → without r.block (before ++ (r ∷ after)) ≡ before ++ after
unfolding without Rising
without-append low [] r after rise = let t : (r.block == r.block) ≡ true = ground arith in rw t refl
without-append low (q ∷ before) r after (h, k, rise) =
    let f : (r.block == q.block) ≡ false = ground arith in
    rw f (ap (λ l. q ∷ l) (without-append (suc q.block) before r after rise))

-- A request that is found stands somewhere.
pub lookup-split :
    (b : ℕ) (rs : List MapRequest) (r : MapRequest)
    → lookup b rs ≡ some r
    → (before : List MapRequest) × (after : List MapRequest) × (rs ≡ before ++ (r ∷ after))
      × (r.block ≡ b)
unfolding lookup
lookup-split b [] r h = absurd cc
lookup-split b (q ∷ rs) r h = elim (Bool-cases (b == q.block)) [
  | inl same ↦
      let e : some q ≡ some r = sym (ap (λ t. if t then some q else lookup b rs) same) ∙ h in
      let e' : q ≡ r = cc in
      ([], rs, ap (λ k. k ∷ rs) e', ap (λ k. k.block) (sym e') ∙ ground arith)
  | inr other ↦
      let (before, after, e, k) =
        lookup-split b rs r (sym (ap (λ t. if t then some q else lookup b rs) other) ∙ h) in
      (q ∷ before, after, ap (λ l. q ∷ l) e, k)
]

pub without-Rising :
    (low high b : ℕ) (rs : List MapRequest) → Rising low high rs → Rising low high (without b rs)
unfolding without Rising
without-Rising low high b [] rise = rise
without-Rising low high b (r ∷ rs) (h, k, rise) = elim (Bool-cases (b == r.block)) [
  | inl same ↦ rw same (Rising-lower low (suc r.block) high rs (omega arith) rise)
  | inr other ↦ rw other (h, k, without-Rising (suc r.block) high b rs rise)
]

pub lookup-without :
    (low high b c : ℕ) (rs : List MapRequest)
    → Rising low high rs
    → lookup c (without b rs) ≡ (if c == b then none else lookup c rs)
unfolding without lookup Rising
lookup-without low high b c [] rise = ground arith
lookup-without low high b c (r ∷ rs) (h, k, rise) = elim (Bool-cases (b == r.block)) [
  | inl same ↦
      let gone = lookup_below (suc r.block) high r.block rs rise (omega arith) in
      let e : b ≡ r.block = ground arith in
      rw e (elim (Bool-cases (c == r.block)) [
        | inl t ↦
            let e' : c ≡ r.block = ground arith in
            let u : (r.block == r.block) ≡ true = ground arith in rw e' (rw u gone)
        | inr f ↦ let u : (r.block == r.block) ≡ true = ground arith in rw f (rw u refl)
      ])
  | inr other ↦
      let rest = lookup-without (suc r.block) high b c rs rise in rw other (rw rest (ground arith))
]
