-- ===== src/Heap/Up.antt =====
-- `up` puts the last entry of an array in its place.
use mathlib.Core.List.Perm
use automationfleet.Base.{
  ℕ, zero, suc, ◌<◌, ◌≡◌, refl, ◌∙◌, Bool, List, arith, ◌==◌, inl, inr, Bool-cases, length, get_or,
}
use automationfleet.Heap.{Interface, parent, up_loop, up}
use automationfleet.Heap.Array.{exchange-perm, length-exchange}
use automationfleet.Heap.Laws.{Yields, Lawful}
use automationfleet.Heap.Order.{Sifted, UpInv, UpInv-root, UpInv-stop, UpInv-step}

module _ {H X E : Type 0} (I : Interface H X) (Good : H → Type 0) (view : H → List E)
    (entry : X → E) (d : E) (lt : E → E → Bool) (L : Lawful I Good view entry d lt) where
  up_loop_sifts :
      (k n : ℕ) (h : H) (j : ℕ)
      → Good h
      → length (view h) ≡ n
      → j < k
      → j < n
      → UpInv d lt n (view h) j
      → Yields (Sifted Good view d lt n (view h)) (up_loop I k h j)
  unfolding up_loop
  up_loop_sifts zero n h j g size f b u = absurd (omega arith)
  up_loop_sifts (suc k) n h j g size f b u = elim (Bool-cases (parent j == j)) [
    | inl root ↦
        rw (root, up_loop)
          (h, refl, (g, UpInv-root d lt L.order n (view h) j (ground arith) u, Perm.refl _))
    | inr inner ↦
        let pos : 0 < j = ground arith in
        let inside : j < length (view h) = omega arith in
        let test = L.less-view h j (parent j) inside (omega arith) in
        elim (Bool-cases (lt (get_or (view h) j d) (get_or (view h) (parent j) d))) [
          | inr stop ↦
              rw (inner, test, stop, up_loop)
                (h, refl, (g, UpInv-stop d lt L.order n (view h) j u stop, Perm.refl _))
          | inl rise ↦
              let (h', e, (w, g')) = L.swap-view h (parent j) j g (omega arith) inside in
              let moved = UpInv-step d lt L.order n (view h) j (omega arith) pos b u rise in
              let shuffled = exchange-perm d (view h) (parent j) j (omega arith) inside in
              let (r, e', (g'', heap, perm)) =
                up_loop_sifts k n h' (parent j) g'
                  (rw w (length-exchange d (view h) (parent j) j ∙ size)) (omega arith)
                  (omega arith) (rw w moved) in
              rw (inner, test, rise, e, up_loop)
                (r, e', (g'', heap, Perm.trans perm (rw w shuffled)))
        ]
  ]

  pub up_sifts :
      (n : ℕ) (h : H) (j : ℕ)
      → Good h
      → length (view h) ≡ n
      → j < n
      → UpInv d lt n (view h) j
      → Yields (Sifted Good view d lt n (view h)) (up I h j)
  unfolding up
  up_sifts n h j g size b u = up_loop_sifts (suc j) n h j g size (omega arith) b u
