-- ===== src/Workers/Resizing.antt =====
-- A resize gives the clamped size, and keeps the workers' indices apart.
use agentic_cloud_pipeline_g.Prelude.{
  ℕ, zero, suc, ◌+◌, ◌-◌, ◌≤◌, ◌<◌, ◌≡◌, refl, List, [], ◌∷◌, ◌++◌, arith, length, length-append,
  All, All-append,
}
use agentic_cloud_pipeline_g.Workers.{
  clamp_workers, resize_plan, WorkerPool, spawn, without_first, retire_one, repeat, resize,
}

-- The indices ascend, and are below the next one.
abbrev Ascends : List ℕ → ℕ → Type 0
Ascends [] bound = Unit
Ascends (i ∷ is) bound = (i < bound) × All (λ j. i < j) is × Ascends is bound

abbrev pub IsPool : WorkerPool → Type 0
IsPool p = Ascends p.workers p.next_index

Ascends-append :
    (is : List ℕ) (bound : ℕ) → Ascends is bound → Ascends (is ++ bound ∷ []) (bound + 1)
Ascends-append [] bound h = (omega arith, tt, tt)
Ascends-append (i ∷ is) bound h = (
  omega (arith, h.0),
  All-append (λ j. i < j) is (bound ∷ []) h.1 (h.0, tt),
  Ascends-append is bound h.2,
)

Ascends-without_first :
    (is : List ℕ) (bound : ℕ) → Ascends is bound → Ascends (without_first is) bound
unfolding without_first
Ascends-without_first [] bound h = tt
Ascends-without_first (i ∷ is) bound h = h.2

repeat-IsPool :
    (n : ℕ) (f : WorkerPool → WorkerPool) (p : WorkerPool)
    → ((q : WorkerPool) → IsPool q → IsPool (f q))
    → IsPool p
    → IsPool (repeat n f p)
unfolding repeat
repeat-IsPool zero f p k h = h
repeat-IsPool (suc n) f p k h = repeat-IsPool n f (f p) k (k p h)

length-spawned : (n : ℕ) (p : WorkerPool) → length (repeat n spawn p).workers ≡ length p.workers + n
unfolding repeat spawn
length-spawned zero p = omega arith
length-spawned (suc n) p =
    omega (arith, length-spawned n (spawn p), length-append p.workers (p.next_index ∷ []))

length-without_first : (is : List ℕ) → length (without_first is) ≡ length is - 1
unfolding without_first
length-without_first [] = refl
length-without_first (i ∷ is) = omega arith

length-retired :
    (n : ℕ) (p : WorkerPool) → length (repeat n retire_one p).workers ≡ length p.workers - n
unfolding repeat retire_one
length-retired zero p = omega arith
length-retired (suc n) p =
    omega (arith, length-retired n (retire_one p), length-without_first p.workers)

-- A resize of any pool reports the desired size, clamped, and leaves exactly that many workers,
-- which lies within the pool's bounds if these are in order; and the indices of the workers stay
-- ascending and are never given twice.
pub resize-IsPool :
    (desired : ℕ) (p : WorkerPool)
    → IsPool p
    → p.lo ≤ p.hi
    → let (target, q) = resize desired p in
      (target ≡ clamp_workers desired p.lo p.hi)
      × (length q.workers ≡ target)
      × (p.lo ≤ target)
      × (target ≤ p.hi)
      × IsPool q
unfolding resize resize_plan clamp_workers
resize-IsPool desired p h b =
    let t = clamp_workers desired p.lo p.hi in
    let n = t - length p.workers in
    let m = length p.workers - t in
    (
      refl,
      omega (arith, length-retired m (repeat n spawn p), length-spawned n p),
      ground (arith, b),
      ground (arith, b),
      repeat-IsPool m retire_one (repeat n spawn p)
          (λ q. Ascends-without_first q.workers q.next_index)
          (repeat-IsPool n spawn p (λ q. Ascends-append q.workers q.next_index) h),
    )
