-- ===== src/Heap/Down.antt =====
-- `down` puts the root of an array in its place among the first `n` entries.
use mathlib.Core.List.Perm
use automationfleet.Base.{
  ℕ, zero, suc, ◌+◌, ◌*◌, ◌≤◌, ◌<◌, ◌≡◌, refl, ◌∙◌, Bool, List, arith, ◌⊎◌, inl, inr, Bool-cases,
  ltb, leb, length, get_or,
}
use automationfleet.Heap.{Interface, parent, child_of, down_loop, down}
use automationfleet.Heap.Array.{exchange-perm, get_or-exchange, length-exchange}
use automationfleet.Heap.Laws.{Yields, Lawful}
use automationfleet.Heap.Order.{
  Settled, DownInv, DownInv-leaf, DownInv-stop, DownInv-step, IsFirstChild,
}

module _ {H X E : Type 0} (I : Interface H X) (Good : H → Type 0) (view : H → List E)
    (entry : X → E) (d : E) (lt : E → E → Bool) (L : Lawful I Good view entry d lt) where
  child_of_first :
      (n : ℕ) (h : H) (i : ℕ)
      → n ≤ length (view h)
      → 2 * i + 1 < n
      → Yields (IsFirstChild d lt L.order n (view h) i) (child_of I h (2 * i + 1) n)
  unfolding child_of
  child_of_first n h i fits below = elim (Bool-cases (ltb (2 * i + 1 + 1) n)) [
    | inr only ↦
        let at = get_or (view h) (2 * i + 1) d in
        rw (only, child_of)
          (
            2 * i + 1,
            refl,
            record {
              child = omega arith;
              pos = omega arith;
              below = below;
              first = λ c p q e.
                  let same : c ≡ 2 * i + 1 = ground arith in
                  rw same (ground (arith, L.order.asym at at));
            },
          )
    | inl both ↦
        let either : (c : ℕ) → 0 < c → parent c ≡ i → (c ≡ 2 * i + 1) ⊎ (c ≡ 2 * i + 1 + 1) =
          λ c p e. omega arith in
        let at = λ (c : ℕ). get_or (view h) c d in
        let test = L.less-view h (2 * i + 1 + 1) (2 * i + 1) (ground arith) (omega arith) in
        elim (Bool-cases (lt (at (2 * i + 1 + 1)) (at (2 * i + 1)))) [
          | inl right ↦
              rw (both, test, right, child_of)
                (
                  2 * i + 1 + 1,
                  refl,
                  record {
                    child = omega arith;
                    pos = omega arith;
                    below = ground arith;
                    first = λ c p q e. elim (either c p e) [
                      | inl l ↦ rw l (
                          ground (
                            arith,
                            L.order.asym (at (2 * i + 1)) (at (2 * i + 1)),
                            L.order.asym (at (2 * i + 1 + 1)) (at (2 * i + 1)),
                          ))
                      | inr r ↦
                          rw r
                            (ground (arith, L.order.asym (at (2 * i + 1 + 1)) (at (2 * i + 1 + 1))))
                    ];
                  },
                )
          | inr left ↦
              rw (both, test, left, child_of)
                (
                  2 * i + 1,
                  refl,
                  record {
                    child = omega arith;
                    pos = omega arith;
                    below = ground arith;
                    first = λ c p q e. elim (either c p e) [
                      | inl l ↦ rw l (
                          ground (
                            arith,
                            L.order.asym (at (2 * i + 1)) (at (2 * i + 1)),
                            L.order.asym (at (2 * i + 1 + 1)) (at (2 * i + 1)),
                          ))
                      | inr r ↦
                          rw r
                            (ground (arith, L.order.asym (at (2 * i + 1 + 1)) (at (2 * i + 1 + 1))))
                    ];
                  },
                )
        ]
  ]

  down_loop_sifts :
      (k n : ℕ) (h : H) (i : ℕ)
      → Good h
      → n ≤ length (view h)
      → n < i + k
      → i ≤ n
      → DownInv d lt n (view h) i
      → Yields (Settled Good view d lt n (view h)) (down_loop I k h i n)
  unfolding down_loop
  down_loop_sifts zero n h i g fits f b u = absurd (omega arith)
  down_loop_sifts (suc k) n h i g fits f b u = elim (Bool-cases (leb n (2 * i + 1))) [
    | inl leaf ↦
        let heap = DownInv-leaf d lt L.order n (view h) i u (ground arith) in
        rw (leaf, down_loop) (h, refl, ((g, heap, Perm.refl _), λ c p. refl))
    | inr inner ↦
        let (j, chosen, first) = child_of_first n h i fits (ground arith) in
        let edge : parent j ≡ i = first.child in
        let pos : 0 < j = first.pos in
        let below : j < n = first.below in
        let test = L.less-view h j i (omega arith) (omega arith) in
        elim (Bool-cases (lt (get_or (view h) j d) (get_or (view h) i d))) [
          | inr stop ↦
              let heap = DownInv-stop d lt L.order n (view h) i j u first stop in
              rw (inner, chosen, test, stop, down_loop)
                (h, refl, ((g, heap, Perm.refl _), λ c p. refl))
          | inl sink ↦
              let (h', e, (w, g')) = L.swap-view h i j g (omega arith) (omega arith) in
              let moved = DownInv-step d lt L.order n (view h) i j fits u first sink in
              let size = length-exchange d (view h) i j in
              let shuffled = exchange-perm d (view h) i j (omega arith) (omega arith) in
              let at = get_or-exchange d (view h) i j (omega arith) (omega arith) in
              let (r, e', ((g'', heap, perm), kept)) =
                down_loop_sifts k n h' j g' (rw w (omega (arith, size))) (omega arith) (omega arith)
                  (rw w moved) in
              rw (inner, chosen, test, sink, e, down_loop)
                (
                  r,
                  e',
                  (
                    (g'', heap, Perm.trans perm (rw w shuffled)),
                    λ c p. kept c p ∙ rw w (ground (arith, at c)),
                  ),
                )
        ]
  ]

  -- Any array whose first `n` entries are in heap order but at the root.
  pub down_sifts :
      (n : ℕ) (h : H)
      → Good h
      → n ≤ length (view h)
      → DownInv d lt n (view h) 0
      → Yields (Settled Good view d lt n (view h)) (down I h 0 n)
  unfolding down
  down_sifts n h g fits u = down_loop_sifts (suc n) n h 0 g fits (omega arith) (omega arith) u
