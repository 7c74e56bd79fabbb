-- ===== src/Heap/Correct.antt =====
-- heap.Push and heap.Pop keep the heap order; Pop takes an entry that no other one precedes.
use mathlib.Core.List.{Mem, not-mem-nil, forall_mem-cons, perm_middle, append-nil}
use mathlib.Core.List.Perm
use mathlib.Core.Bool.{Bool-set}
use automationfleet.Base.{
  ℕ, suc, ◌-◌, ◌≤◌, ◌<◌, ◌≡◌, sym, ◌∙◌, ap, Bool, false, List, [], ◌∷◌, ◌++◌, Perm, arith, length,
  get_or, length-append,
}
use automationfleet.Heap.{Interface, parent, push, pop}
use automationfleet.Heap.Array.{
  exchange, exchange-perm, get_or-exchange, length-exchange, length-perm, get_or-append,
  get_or-append_end,
}
use automationfleet.Heap.Laws.{Yields, Lawful}
use automationfleet.Heap.Order.{IsHeap, Settled, root_first}
use automationfleet.Heap.Up.{up_sifts}
use automationfleet.Heap.Down.{down_sifts}

append-perm : {A : Type 0} (v : List A) (x : A) → Perm (v ++ x ∷ []) (x ∷ v)
append-perm v x = rw (append-nil v) at (perm_middle {a = x} v [])

module _ {E : Type 0} (d : E) (lt : E → E → Bool) where
  first_of_all :
      (v : List E) (x : E)
      → ((c : ℕ) → c < length v → lt (get_or v c d) x ≡ false)
      → (e : E) → Mem e v
      → lt e x ≡ false
  first_of_all [] x h = λ e m. absurd (not-mem-nil m)
  first_of_all (y ∷ v) x h =
      (forall_mem-cons λ e. Bool-set _ _).1
        (h 0 (omega arith), first_of_all v x λ c p. h (suc c) (omega arith))

  IsHeap-prefix :
      (n : ℕ) (w r : List E) (y : E)
      → w ≡ r ++ y ∷ []
      → length r ≡ n
      → IsHeap d lt n w
      → IsHeap d lt (length r) r
  IsHeap-prefix n w r y e size heap c p q =
      let at =
        λ (k : ℕ) (b : k < length r). ap (λ u. get_or u k d) e ∙ get_or-append d r (y ∷ []) k b in
      rw (← at c q, ← at (parent c) (omega arith)) (heap c p (omega arith))

module _ {H X E : Type 0} (I : Interface H X) (Good : H → Type 0) (view : H → List E)
    (entry : X → E) (d : E) (lt : E → E → Bool) (L : Lawful I Good view entry d lt) where
  -- A good container, whole in heap order, with the entries of `v`.
  abbrev pub Ordered : List E → H → Type 0
  Ordered v h = Good h × IsHeap d lt (length (view h)) (view h) × Perm (view h) v

  pub push_correct :
      (x : X) (h : H)
      → Good h
      → IsHeap d lt (length (view h)) (view h)
      → Yields (Ordered (entry x ∷ view h)) (push I x h)
  unfolding push
  push_correct x h g heap =
      let v = view h in
      let grown = L.push-view x h in
      let size : length (view (I.push x h)) ≡ suc (length v) =
        rw (grown, length-append v (entry x ∷ [])) (omega arith) in
      let last : I.len (I.push x h) - 1 ≡ length v =
        rw (L.len-view (I.push x h), size) (omega arith) in
      let (h', e, (g', heap', perm)) =
        up_sifts I Good view entry d lt L (suc (length v)) (I.push x h) (length v)
          (L.push-Good x h g) size (omega arith)
          (rw grown (record {
            edges = λ c p q r. ground (
              arith,
              heap c,
              get_or-append d v (entry x ∷ []) c,
              get_or-append d v (entry x ∷ []) (parent c),
            );
            bridge = λ c p q r s. absurd (omega arith);
          })) in
      let same : length (view h') ≡ suc (length v) = length-perm perm ∙ size in
      rw last (h', e, (g', rw same heap', Perm.trans perm (rw grown (append-perm v (entry x)))))

  -- What Pop leaves: the rest in order, and the entry taken, which no entry precedes.
  abbrev pub Popped : H → X × H → Type 0
  Popped h (x, h') =
      Good h'
      × IsHeap d lt (length (view h')) (view h')
      × Perm (entry x ∷ view h') (view h)
      × ((e : E) → Mem e (view h) → lt e (entry x) ≡ false)

  top :
      (n : ℕ) (h h' r : H) (x : X)
      → view h' ≡ view r ++ entry x ∷ []
      → length (view r) ≡ n
      → ((c : ℕ) → n ≤ c → get_or (view h') c d ≡ get_or (exchange d (view h) 0 n) c d)
      → length (view h) ≡ suc n
      → entry x ≡ get_or (view h) 0 d
  top n h h' r x split left kept size =
      let there = get_or-append_end d (view r) (entry x) in
      let at = get_or-exchange d (view h) 0 n (omega arith) (omega arith) n in
      sym there ∙ rw (← split, left) (kept n (omega arith) ∙ ground (arith, at))

  -- The last entry of a container, when it is the root that `down` left there.
  pop_last :
      (n : ℕ) (h h' : H)
      → Settled Good view d lt n (exchange d (view h) 0 n) h'
      → length (view h) ≡ suc n
      → IsHeap d lt (length (view h)) (view h)
      → Yields (Popped h) (I.pop h')
  pop_last n h h' ((g, heap', perm), kept) size heap =
      let v = view h in
      let all = Perm.trans perm (exchange-perm d v 0 n (omega arith) (omega arith)) in
      let ((x, r), e, (split, good)) = L.pop-view h' g (omega (arith, length-perm all)) in
      let left : length (view r) ≡ n =
        omega (arith, ap length split, length-append (view r) (entry x ∷ []), length-perm all) in
      let taken : entry x ≡ get_or v 0 d = top n h h' r x split left kept size in
      (
        (x, r),
        e,
        (
          good,
          IsHeap-prefix d lt n (view h') (view r) (entry x) split left heap',
          Perm.trans (Perm.symm (append-perm (view r) (entry x))) (rw (← split) all),
          rw taken (
              first_of_all d lt v (get_or v 0 d)
                λ c p. root_first d lt L.order (length v) v (suc c) c heap (omega arith) p),
        ),
      )

  pub pop_correct :
      (h : H)
      → Good h
      → IsHeap d lt (length (view h)) (view h)
      → 0 < length (view h)
      → Yields (Popped h) (pop I h)
  unfolding pop
  pop_correct h g heap some_left =
      let v = view h in
      let n : ℕ = length v - 1 in
      let size : length v ≡ suc n = omega arith in
      let (h', e, (w, g')) = L.swap-view h 0 n g some_left (omega arith) in
      let at = get_or-exchange d v 0 n some_left (omega arith) in
      let (h'', e', settled) =
        down_sifts I Good view entry d lt L n h' g' (rw w (omega (arith, length-exchange d v 0 n)))
          (rw w (record {
            edges = λ c p q r. ground (arith, heap c, at c, at (parent c));
            bridge = λ c p q r s. absurd (omega arith);
          })) in
      rw (L.len-view h, e, e') (pop_last n h h'' (rw w at settled) size heap)
