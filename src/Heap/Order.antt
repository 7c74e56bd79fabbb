-- ===== src/Heap/Order.antt =====
-- The heap order of an array, with one place out of order while an entry moves up or down.
use automationfleet.Base.{
  ℕ, zero, suc, ◌+◌, ◌*◌, ◌≤◌, ◌<◌, ◌≡◌, ◌≢◌, Bool, true, false, List, Perm, arith, length, get_or,
}
use automationfleet.Heap.{parent}
use automationfleet.Heap.Array.{exchange, get_or-exchange}
use automationfleet.Heap.Laws.{StrictWeakOrder}

module _ {E : Type 0} (d : E) (lt : E → E → Bool) where
  -- The entry at `i` does not come after the entry at `j`.
  abbrev pub AtMost : List E → ℕ → ℕ → Type 0
  AtMost v i j = lt (get_or v j d) (get_or v i d) ≡ false

  -- The first `n` entries are in heap order.
  abbrev pub IsHeap : ℕ → List E → Type 0
  IsHeap n v = (c : ℕ) → 0 < c → c < n → AtMost v (parent c) c

  pub record UpInv (n : ℕ) (v : List E) (j : ℕ) : Type 0 where
    pub edges : (c : ℕ) → 0 < c → c < n → c ≢ j → AtMost v (parent c) c
    pub bridge : (c : ℕ) → 0 < c → c < n → parent c ≡ j → 0 < j → AtMost v (parent j) c

  pub record DownInv (n : ℕ) (v : List E) (i : ℕ) : Type 0 where
    pub edges : (c : ℕ) → 0 < c → c < n → parent c ≢ i → AtMost v (parent c) c
    pub bridge : (c : ℕ) → 0 < c → c < n → parent c ≡ i → 0 < i → AtMost v (parent i) c

module _ {H E : Type 0} (Good : H → Type 0) (view : H → List E) (d : E) (lt : E → E → Bool) where
  -- A good container in heap order up to `n`, with the entries of `v`.
  abbrev pub Sifted : ℕ → List E → H → Type 0
  Sifted n v h = Good h × IsHeap d lt n (view h) × Perm (view h) v

  -- The same, and the entries from `n` on are where they were.
  abbrev pub Settled : ℕ → List E → H → Type 0
  Settled n v h = Sifted n v h × ((c : ℕ) → n ≤ c → get_or (view h) c d ≡ get_or v c d)

module _ {E : Type 0} (d : E) (lt : E → E → Bool) (o : StrictWeakOrder E lt) (n : ℕ)
    (v : List E) where
  pub UpInv-root : (j : ℕ) → j ≡ 0 → UpInv d lt n v j → IsHeap d lt n v
  UpInv-root j z u c p q = u.edges c p q (omega arith)

  pub UpInv-stop : (j : ℕ) → UpInv d lt n v j → AtMost d lt v (parent j) j → IsHeap d lt n v
  UpInv-stop j u h c p q = ground (arith, u.edges c p q)

  -- The entry that precedes its parent changes places with it.
  pub UpInv-step :
      (j : ℕ)
      → n ≤ length v
      → 0 < j
      → j < n
      → UpInv d lt n v j
      → lt (get_or v j d) (get_or v (parent j) d) ≡ true
      → UpInv d lt n (exchange d v (parent j) j) (parent j)
  UpInv-step j fits pos below u before =
      let at = get_or-exchange d v (parent j) j (omega arith) (omega arith) in
      let entry = λ (c : ℕ). get_or v c d in
      let up = o.asym (entry j) (entry (parent j)) before in
      record {
        edges = λ c p q r. ground (
          arith,
          at c,
          at (parent c),
          up,
          u.edges c p q,
          u.bridge c p q,
          o.not_lt_trans (entry j) (entry (parent j)) (entry c) up,
        );
        bridge = λ c p q r s. ground (
          arith,
          at c,
          at (parent (parent j)),
          u.edges c p q,
          u.edges (parent j) s (omega arith),
          o.not_lt_trans (entry (parent (parent j))) (entry (parent j)) (entry c),
        );
      }

  pub DownInv-leaf : (i : ℕ) → DownInv d lt n v i → n ≤ 2 * i + 1 → IsHeap d lt n v
  DownInv-leaf i u h c p q = u.edges c p q (omega arith)

  -- `j` is the child of `i` that no other child precedes.
  pub record IsFirstChild (i j : ℕ) : Type 0 where
    pub child : parent j ≡ i
    pub pos : 0 < j
    pub below : j < n
    pub first : (c : ℕ) → 0 < c → c < n → parent c ≡ i → AtMost d lt v j c

  pub DownInv-stop :
      (i j : ℕ) → DownInv d lt n v i → IsFirstChild i j → AtMost d lt v i j → IsHeap d lt n v
  DownInv-stop i j u f h c p q =
      let entry = λ (k : ℕ). get_or v k d in
      ground (arith, u.edges c p q, f.first c p q, o.not_lt_trans (entry i) (entry j) (entry c) h)

  pub DownInv-step :
      (i j : ℕ)
      → n ≤ length v
      → DownInv d lt n v i
      → IsFirstChild i j
      → lt (get_or v j d) (get_or v i d) ≡ true
      → DownInv d lt n (exchange d v i j) j
  DownInv-step i j fits u f before =
      let edge : parent j ≡ i = f.child in
      let pos : 0 < j = f.pos in
      let below : j < n = f.below in
      let at = get_or-exchange d v i j (omega arith) (omega arith) in
      let entry = λ (k : ℕ). get_or v k d in
      record {
        edges = λ c p q r. ground (
          arith,
          at c,
          at (parent c),
          o.asym (entry j) (entry i) before,
          u.edges c p q,
          u.bridge j pos below edge,
          f.first c p q,
        );
        bridge = λ c p q r s. ground (arith, at c, at (parent j), u.edges c p q);
      }

  -- In a heap no entry precedes the root.
  pub root_first : (k : ℕ) (c : ℕ) → IsHeap d lt n v → c < k → c < n → AtMost d lt v 0 c
  root_first zero c h f p = absurd (omega arith)
  root_first (suc k) zero h f p = ground (arith, o.asym (get_or v 0 d) (get_or v 0 d))
  root_first (suc k) (suc c) h f p =
      let above = root_first k (parent (suc c)) h (omega arith) (omega arith) in
      o.not_lt_trans (get_or v 0 d) (get_or v (parent (suc c)) d) (get_or v (suc c) d) above
        (h (suc c) (omega arith) p)
