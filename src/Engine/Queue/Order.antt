-- ===== src/Engine/Queue/Order.antt =====
-- The list of requests that the tree of src/dm_afs_engine.c stands for: looking up and inserting in it.
use artifice.Base.{
  ℕ, suc, ◌≡◌, ◌≤◌, ◌<◌, ◌≢◌, refl, ap, arith, true, false, if◌then◌else◌, ltb, ◌==◌, List, [], ◌∷◌,
  ◌++◌, Option, none, some, Bool-cases, inl, inr,
}
use artifice.Target.Request.{MapRequest}
use artifice.Engine.Queue.{Rising}

-- The first request for the block.
unfoldable pub lookup : ℕ → List MapRequest → Option MapRequest
lookup b [] = none
lookup b (r ∷ rs) = if b == r.block then some r else lookup b rs

-- The request put before the first one with a greater block.
unfoldable pub put : MapRequest → List MapRequest → List MapRequest
put e [] = e ∷ []
put e (r ∷ rs) = let rest = put e rs in if ltb e.block r.block then e ∷ (r ∷ rs) else r ∷ rest

pub Rising-split :
    (low high : ℕ) (rs : List MapRequest) (r : MapRequest) (ss : List MapRequest)
    → Rising low high (rs ++ (r ∷ ss))
    → (Rising low r.block rs) × (low ≤ r.block) × (r.block < high) × (Rising (suc r.block) high ss)
unfolding Rising
Rising-split low high [] r ss (h, k, rise) = (h, h, k, rise)
Rising-split low high (q ∷ rs) r ss (h, k, rise) =
    let (left, above, below, right) = Rising-split (suc q.block) high rs r ss rise in
    ((h, omega arith, left), omega arith, below, right)

pub Rising-append :
    (low high : ℕ) (rs : List MapRequest) (r : MapRequest) (ss : List MapRequest)
    → Rising low r.block rs
    → r.block < high
    → Rising (suc r.block) high ss
    → Rising low high (rs ++ (r ∷ ss))
unfolding Rising
Rising-append low high [] r ss left k right = (left, k, right)
Rising-append low high (q ∷ rs) r ss (h, l, left) k right =
    (h, omega arith, Rising-append (suc q.block) high rs r ss left k right)

Rising-bound : (low high : ℕ) (rs : List MapRequest) → Rising low high rs → low ≤ high
unfolding Rising
Rising-bound low high [] h = h
Rising-bound low high (r ∷ rs) (h, k, rise) = omega arith

pub Rising-lower :
    (low' low high : ℕ) (rs : List MapRequest)
    → low' ≤ low
    → Rising low high rs
    → Rising low' high rs
unfolding Rising
Rising-lower low' low high [] l h = omega arith
Rising-lower low' low high (r ∷ rs) l (h, k, rise) = (omega arith, k, rise)

not_first :
    (b : ℕ) (r : MapRequest) (rs : List MapRequest)
    → lookup b (r ∷ rs) ≡ none
    → (b ≢ r.block) × (lookup b rs ≡ none)
unfolding lookup
not_first b r rs absent = (ground arith, ground arith)

-- A block outside the bounds is not found.
pub lookup_below :
    (low high b : ℕ) (rs : List MapRequest) → Rising low high rs → b < low → lookup b rs ≡ none
unfolding Rising lookup
lookup_below low high b [] rise k = refl
lookup_below low high b (r ∷ rs) (h, l, rise) k =
    let rest = lookup_below (suc r.block) high b rs rise (omega arith) in ground (arith, rest)

pub lookup_left :
    (b : ℕ) (rs : List MapRequest) (r : MapRequest) (high : ℕ) (ss : List MapRequest)
    → b < r.block
    → Rising (suc r.block) high ss
    → lookup b (rs ++ (r ∷ ss)) ≡ lookup b rs
unfolding lookup
lookup_left b [] r high ss k rise =
    let rest = lookup_below (suc r.block) high b ss rise (omega arith) in ground (arith, rest)
lookup_left b (q ∷ rs) r high ss k rise =
    ap (λ o. if b == q.block then some q else o) (lookup_left b rs r high ss k rise)

pub lookup_right :
    (low b : ℕ) (rs : List MapRequest) (r : MapRequest) (ss : List MapRequest)
    → Rising low r.block rs
    → r.block < b
    → lookup b (rs ++ (r ∷ ss)) ≡ lookup b ss
unfolding lookup Rising
lookup_right low b [] r ss rise k = ground arith
lookup_right low b (q ∷ rs) r ss (h, l, rise) k =
    let rest = lookup_right (suc q.block) b rs r ss rise k in
    let below : q.block < r.block = Rising-bound (suc q.block) r.block rs rise in
    ground (arith, rest)

pub lookup_middle :
    (low : ℕ) (rs : List MapRequest) (r : MapRequest) (ss : List MapRequest)
    → Rising low r.block rs
    → lookup r.block (rs ++ (r ∷ ss)) ≡ some r
unfolding lookup Rising
lookup_middle low [] r ss rise = ground arith
lookup_middle low (q ∷ rs) r ss (h, l, rise) =
    let rest = lookup_middle (suc q.block) rs r ss rise in ground (arith, rest)

pub put_left :
    (e : MapRequest) (rs : List MapRequest) (r : MapRequest) (ss : List MapRequest)
    → e.block < r.block
    → put e (rs ++ (r ∷ ss)) ≡ put e rs ++ (r ∷ ss)
unfolding put
put_left e [] r ss k = let t : ltb e.block r.block ≡ true = ground arith in rw t refl
put_left e (q ∷ rs) r ss k = elim (Bool-cases (ltb e.block q.block)) [
  | inl less ↦ rw less refl
  | inr more ↦ rw more (ap (λ l. q ∷ l) (put_left e rs r ss k))
]

pub put_right :
    (low : ℕ) (e : MapRequest) (rs : List MapRequest) (r : MapRequest) (ss : List MapRequest)
    → Rising low r.block rs
    → r.block < e.block
    → put e (rs ++ (r ∷ ss)) ≡ rs ++ (r ∷ put e ss)
unfolding put Rising
put_right low e [] r ss rise k = let f : ltb e.block r.block ≡ false = ground arith in rw f refl
put_right low e (q ∷ rs) r ss (h, l, rise) k =
    let f : ltb e.block q.block ≡ false = ground arith in
    rw f (ap (λ l. q ∷ l) (put_right (suc q.block) e rs r ss rise k))

-- A request for a block that is not there: the order holds, and the lookups are as before but for it.
pub put-Rising :
    (low high : ℕ) (e : MapRequest) (rs : List MapRequest)
    → Rising low high rs
    → low ≤ e.block
    → e.block < high
    → lookup e.block rs ≡ none
    → Rising low high (put e rs)
unfolding put Rising lookup
put-Rising low high e [] rise h k absent = (h, k, omega arith)
put-Rising low high e (r ∷ rs) (a, b, rise) h k absent = elim (Bool-cases (ltb e.block r.block)) [
  | inl less ↦ rw less (h, k, (ground arith, b, rise))
  | inr more ↦
      let (other, same) = not_first e.block r rs absent in
      rw more (a, b, put-Rising (suc r.block) high e rs rise (ground arith) k same)
]

pub lookup-put :
    (b : ℕ) (e : MapRequest) (rs : List MapRequest)
    → lookup e.block rs ≡ none
    → lookup b (put e rs) ≡ (if b == e.block then some e else lookup b rs)
unfolding put lookup
lookup-put b e [] absent = refl
lookup-put b e (r ∷ rs) absent = elim (Bool-cases (ltb e.block r.block)) [
  | inl less ↦ rw less refl
  | inr more ↦
      let (other, same) = not_first e.block r rs absent in
      let rest = lookup-put b e rs same in rw more (rw rest (ground arith))
]
