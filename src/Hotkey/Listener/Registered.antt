-- ===== src/Hotkey/Listener/Registered.antt =====
-- Which hotkeys the listener registers, and under which ids.
use mathlib.Core.List.{Memᴰ}
use mathlib.Core.Path.{subst}
use automationfleet.Base.{
  ℕ, zero, suc, ◌+◌, ◌≡◌, refl, ◌∙◌, ap, sym, Option, none, some, List, [], ◌∷◌, ◌++◌, arith,
  Option-cases, ◌⊎◌, inl, inr, get_elem?,
}
use automationfleet.Errors.{GoError}
use automationfleet.Hotkey.{Hotkey}
use automationfleet.Hotkey.Listener.{
  HotkeyBinding, OsCall, registered, unregistered, Registry, Answers, register_all, unregister_all,
}

-- The call registers the hotkey of a binding that has a callback, under the id of its place; the
-- first place has the id `id`.
pub record Places {F : Type 0} (id : ℕ) (bs : List (HotkeyBinding F)) (c : OsCall) : Type 0 where
  pub place : ℕ
  pub binding : HotkeyBinding F
  pub callback : F
  pub call : c ≡ registered (id + place) binding.hotkey
  pub found : get_elem? bs place ≡ some binding
  pub bound : binding.on_fire ≡ some callback

-- What a loop without an error makes of the calls.
pub record IsRecorded {F : Type 0} (id : ℕ) (bs : List (HotkeyBinding F)) (r r' : Registry F)
    : Type 0 where
  pub older : (c : OsCall) → Memᴰ c r.calls → Memᴰ c r'.calls
  pub newer : (c : OsCall) → Memᴰ c r'.calls → Memᴰ c r.calls ⊎ Places id bs c
  pub all : (c : OsCall) → Places id bs c → Memᴰ c r'.calls

later :
    {F : Type 0} (id : ℕ) (b : HotkeyBinding F) (bs : List (HotkeyBinding F)) (c : OsCall)
    → Places (suc id) bs c
    → Places id (b ∷ bs) c
later id b bs c p = record {
  place = suc p.place;
  binding = p.binding;
  callback = p.callback;
  call = p.call ∙ ap (λ k. registered k p.binding.hotkey) (omega arith);
  found = p.found;
  bound = p.bound;
}

-- The first binding, or a later one.
first_or_later :
    {F : Type 0} (id : ℕ) (b : HotkeyBinding F) (bs : List (HotkeyBinding F)) (c : OsCall)
    → Places id (b ∷ bs) c
    → ((c ≡ registered id b.hotkey) × (f : F) × (b.on_fire ≡ some f)) ⊎ Places (suc id) bs c
first_or_later {F = F} id b bs c p = at p.place p.call p.found
  where
    at :
        (i : ℕ)
        → c ≡ registered (id + i) p.binding.hotkey
        → get_elem? (b ∷ bs) i ≡ some p.binding
        → ((c ≡ registered id b.hotkey) × (f : F) × (b.on_fire ≡ some f)) ⊎ Places (suc id) bs c
    at zero e g =
        let same : b ≡ p.binding = ground arith in
        inl (
          e
              ∙ ap (λ k. registered k p.binding.hotkey) (omega arith)
              ∙ ap (λ (o : HotkeyBinding F). registered id o.hotkey) (sym same),
          p.callback,
          ap (λ (o : HotkeyBinding F). o.on_fire) same ∙ p.bound,
        )
    at (suc i) e g = inr (record {
      place = i;
      binding = p.binding;
      callback = p.callback;
      call = e ∙ ap (λ k. registered k p.binding.hotkey) (omega arith);
      found = g;
      bound = p.bound;
    })

ap-IsRecorded :
    {F : Type 0} (id : ℕ) (bs : List (HotkeyBinding F)) (r : Registry F)
    {o o' : Option GoError × Registry F}
    → o ≡ o'
    → IsRecorded id bs r o.1
    → IsRecorded id bs r o'.1
ap-IsRecorded id bs r e x = rw (sym e) x

IsRecorded-skip :
    {F : Type 0} (id : ℕ) (b : HotkeyBinding F) (bs : List (HotkeyBinding F)) (r r' : Registry F)
    → b.on_fire ≡ none
    → IsRecorded (suc id) bs r r'
    → IsRecorded id (b ∷ bs) r r'
IsRecorded-skip id b bs r r' bare e = record {
  older = e.older;
  newer = λ c m. elim (e.newer c m) [ inl old ↦ inl old | inr p ↦ inr (later id b bs c p) ];
  all = λ c p. elim (first_or_later id b bs c p) [
    | inl (same, f, set) ↦ absurd (ground arith)
    | inr p' ↦ e.all c p'
  ];
}

IsRecorded-set :
    {F : Type 0} (id : ℕ) (b : HotkeyBinding F) (bs : List (HotkeyBinding F)) (r r1 r' : Registry F)
    (f : F)
    → b.on_fire ≡ some f
    → r1.calls ≡ registered id b.hotkey ∷ r.calls
    → IsRecorded (suc id) bs r1 r'
    → IsRecorded id (b ∷ bs) r r'
IsRecorded-set id b bs r r1 r' f set d e = record {
  older = λ c m. e.older c (subst (Memᴰ c) (sym d) (Memᴰ.tail m));
  newer = λ c m. elim (e.newer c m) [
    | inl old ↦ elim (subst (Memᴰ c) d old) [
      | Memᴰ.head same ↦ inr (record {
        place = 0;
        binding = b;
        callback = f;
        call = same ∙ ap (λ k. registered k b.hotkey) (omega arith);
        found = refl;
        bound = set;
      })
      | Memᴰ.tail before ↦ inl before
    ]
    | inr p ↦ inr (later id b bs c p)
  ];
  all = λ c p. elim (first_or_later id b bs c p) [
    | inl (same, g, rest) ↦ e.older c (subst (Memᴰ c) (sym d) (Memᴰ.head same))
    | inr p' ↦ e.all c p'
  ];
}

pub register_all-IsRecorded :
    {F : Type 0} (answers : Answers) (id : ℕ) (bs : List (HotkeyBinding F)) (r : Registry F)
    → (register_all answers id bs r).0 ≡ none
    → IsRecorded id bs r (register_all answers id bs r).1
unfolding register_all
register_all-IsRecorded answers id [] r e = record {
  older = λ c m. m;
  newer = λ c m. inl m;
  all = λ c p. absurd (ground (arith, p.found));
}
register_all-IsRecorded {F = F} answers id (b ∷ bs) r e = elim (Option-cases b.on_fire) [
  | inl bare ↦
      let same : register_all answers id (b ∷ bs) r ≡ register_all answers (suc id) bs r =
        rw (bare, register_all) refl in
      let rest = register_all-IsRecorded answers (suc id) bs r (ap (λ o. o.0) (sym same) ∙ e) in
      ap-IsRecorded id (b ∷ bs) r (sym same) (IsRecorded-skip id b bs r _ bare rest)
  | inr (f, set) ↦ elim (Option-cases (answers r.calls id b.hotkey)) [
    | inr (errno, bad) ↦ absurd (ground arith)
    | inl ok ↦
        let r1 : Registry F = record {
          calls = registered id b.hotkey ∷ r.calls;
          ids = r.ids ++ id ∷ [];
          dispatch = (id, f) ∷ r.dispatch;
        } in
        let same : register_all answers id (b ∷ bs) r ≡ register_all answers (suc id) bs r1 =
          rw (set, register_all) (rw (ok, register_all) refl) in
        let rest = register_all-IsRecorded answers (suc id) bs r1 (ap (λ o. o.0) (sym same) ∙ e) in
        ap-IsRecorded id (b ∷ bs) r (sym same) (IsRecorded-set id b bs r r1 _ f set refl rest)
  ]
]

-- The releases add no registration and hide none.
pub unregister_all-keeps :
    (ids : List ℕ) (calls : List OsCall) (id : ℕ) (h : Hotkey)
    → (Memᴰ (registered id h) (unregister_all ids calls) → Memᴰ (registered id h) calls)
      × (Memᴰ (registered id h) calls → Memᴰ (registered id h) (unregister_all ids calls))
unfolding unregister_all
unregister_all-keeps [] calls id h = (λ m. m, λ m. m)
unregister_all-keeps (k ∷ ids) calls id h =
    let (back, on) = unregister_all-keeps ids (unregistered k ∷ calls) id h in
    (
      λ m. elim (back m) [ Memᴰ.head e ↦ absurd (ground arith) | Memᴰ.tail before ↦ before ],
      λ m. on (Memᴰ.tail m),
    )
