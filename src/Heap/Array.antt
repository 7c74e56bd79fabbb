-- ===== src/Heap/Array.antt =====
-- The exchange of two entries of an array, and what it keeps.
use mathlib.Core.Logic.{∥∥₁_elim}
use mathlib.Core.List.{Permᴰ}
use mathlib.Core.List.Perm
use native.Mathlib.Nat.{ℕ_set}
use automationfleet.Base.{
  ℕ, zero, suc, ◌<◌, ◌≡◌, refl, ap, ◌∙◌, List, [], ◌∷◌, ◌++◌, Perm, arith, ◌==◌, if◌then◌else◌,
  length, get_or, set, length-set,
}

module _ {A : Type 0} (d : A) where
  abbrev pub exchange : List A → ℕ → ℕ → List A
  exchange v i j = set (set v i (get_or v j d)) j (get_or v i d)

  pub get_or-set :
      (v : List A) (i c : ℕ) (x : A)
      → i < length v
      → get_or (set v i x) c d ≡ (if i == c then x else get_or v c d)
  get_or-set [] i c x h = absurd (omega arith)
  get_or-set (y ∷ v) zero zero x h = refl
  get_or-set (y ∷ v) zero (suc c) x h = ground arith
  get_or-set (y ∷ v) (suc i) zero x h = ground arith
  get_or-set (y ∷ v) (suc i) (suc c) x h = ground (arith, get_or-set v i c x)

  pub get_or-append : (v w : List A) (i : ℕ) → i < length v → get_or (v ++ w) i d ≡ get_or v i d
  get_or-append [] w i h = absurd (omega arith)
  get_or-append (x ∷ v) w zero h = refl
  get_or-append (x ∷ v) w (suc i) h = get_or-append v w i (omega arith)

  pub get_or-append_end : (v : List A) (x : A) → get_or (v ++ x ∷ []) (length v) d ≡ x
  get_or-append_end [] x = refl
  get_or-append_end (y ∷ v) x = get_or-append_end v x

  -- Overwriting an entry trades the old one for the new one.
  overwrite-perm :
      (v : List A) (i : ℕ) (x : A) → i < length v → Perm (get_or v i d ∷ set v i x) (x ∷ v)
  overwrite-perm [] i x h = absurd (omega arith)
  overwrite-perm (y ∷ v) zero x h = Perm.swap x y v
  overwrite-perm (y ∷ v) (suc i) x h =
      Perm.trans (Perm.swap y (get_or v i d) (set v i x))
        (Perm.trans (Perm.cons y (overwrite-perm v i x (omega arith))) (Perm.swap x y v))

  module _ (v : List A) (i j : ℕ) (hi : i < length v) (hj : j < length v) where
    pub get_or-exchange :
        (c : ℕ)
        → get_or (exchange v i j) c d
          ≡ (if j == c then get_or v i d else if i == c then get_or v j d else get_or v c d)
    get_or-exchange c = ground (
      arith,
      length-set v i (get_or v j d),
      get_or-set (set v i (get_or v j d)) j c (get_or v i d),
      get_or-set v i c (get_or v j d),
    )

    pub exchange-perm : Perm (exchange v i j) v
    exchange-perm =
        let w = set v i (get_or v j d) in
        let same : get_or w j d ≡ get_or v j d = ground (arith, get_or-set v i j (get_or v j d)) in
        let outer =
          overwrite-perm w j (get_or v i d) (omega (arith, length-set v i (get_or v j d))) in
        Perm.cons_inv (Perm.trans (rw same at outer) (overwrite-perm v i (get_or v j d) hi))

  pub length-exchange : (v : List A) (i j : ℕ) → length (exchange v i j) ≡ length v
  length-exchange v i j = simp length-set

module _ {A : Type 0} where
  length-Permᴰ : {v w : List A} → Permᴰ v w → length v ≡ length w
  length-Permᴰ Permᴰ.nil = refl
  length-Permᴰ (Permᴰ.cons _ p) = ap suc (length-Permᴰ p)
  length-Permᴰ (Permᴰ.swap _ _) = refl
  length-Permᴰ (Permᴰ.trans p q) = length-Permᴰ p ∙ length-Permᴰ q

  pub length-perm : {v w : List A} → Perm v w → length v ≡ length w
  length-perm p = ∥∥₁_elim p (ℕ_set _ _) length-Permᴰ
