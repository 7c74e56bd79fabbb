-- ===== src/Heap.antt =====
-- The functions of the standard library's container/heap that the dispatcher's queue calls, over
-- any implementation of heap.Interface. `none` is a run-time panic of the implementation, or the
-- model's fuel running out.
pub mod Array
pub mod Laws
pub mod Order
pub mod Up
pub mod Down
pub mod Correct
use automationfleet.Base.{
  ℕ, zero, suc, ◌+◌, ◌-◌, ◌*◌, ◌/◌, Bool, Option, none, some, ◌>>=◌, ltb, leb, ◌==◌, if◌then◌else◌,
}

-- heap.Interface: `H` is the container, `X` the type of what Push takes and Pop returns.
pub record Interface (H X : Type 0) : Type 0 where
  pub len : H → ℕ
  pub less : H → ℕ → ℕ → Option Bool
  pub swap : H → ℕ → ℕ → Option H
  pub push : X → H → H
  pub pop : H → Option (X × H)

abbrev pub parent : ℕ → ℕ
parent c = (c - 1) / 2

module _ {H X : Type 0} (I : Interface H X) where
  -- `(j - 1) / 2` rounds towards zero in Go, so at the root the parent is the root itself.
  up_loop : ℕ → H → ℕ → Option H
  up_loop zero h j = none
  up_loop (suc k) h j =
      let rise = I.swap h (parent j) j >>= λ h'. up_loop k h' (parent j) in
      let test = I.less h j (parent j) >>= λ b. if b then rise else some h in
      if parent j == j then some h else test

  unfoldable pub up : H → ℕ → Option H
  unfolding up_loop
  up h j = up_loop (suc j) h j

  -- The child to compare with: the right one if it exists and precedes the left one.
  child_of : H → ℕ → ℕ → Option ℕ
  child_of h left n =
      if ltb (left + 1) n
      then (I.less h (left + 1) left >>= λ b. some (if b then left + 1 else left))
      else some left

  down_loop : ℕ → H → ℕ → ℕ → Option H
  down_loop zero h i n = none
  down_loop (suc k) h i n =
      let step = child_of h (2 * i + 1) n >>= λ j. I.less h j i >>= λ b.
      let sink = I.swap h i j >>= λ h'. down_loop k h' j n in if b then sink else some h in
      if leb n (2 * i + 1) then some h else step

  unfoldable pub down : H → ℕ → ℕ → Option H
  unfolding down_loop child_of
  down h i n = down_loop (suc n) h i n

  -- heap.Push
  unfoldable pub push : X → H → Option H
  unfolding up
  push x h = let h' = I.push x h in up h' (I.len h' - 1)

  -- heap.Pop; the caller sees to it that the container is not empty.
  unfoldable pub pop : H → Option (X × H)
  unfolding down
  pop h = let n = I.len h - 1 in I.swap h 0 n >>= λ h'. down h' 0 n >>= λ h''. I.pop h''
