-- ===== src/Hotkey/Listener/Dispatched.antt =====
-- Each hotkey calls the callback of its own binding.
use mathlib.Core.List.{Memᴰ}
use mathlib.Core.List.Memᴰ
use mathlib.Core.Path.{subst}
use automationfleet.Base.{
  ℕ, zero, suc, ◌+◌, ◌≤◌, ◌<◌, ◌≡◌, ◌↔◌, refl, ◌∙◌, ap, sym, Option, none, some, ◌>>=◌, List, [],
  ◌∷◌, ◌++◌, arith, Option-cases, inl, inr, get_elem?,
}
use automationfleet.Errors.{GoError}
use automationfleet.Hotkey.{Hotkey}
use automationfleet.Hotkey.Listener.Registered.{
  Places, register_all-IsRecorded, unregister_all-keeps,
}
use automationfleet.Hotkey.Listener.{
  HotkeyBinding, registered, Message, unregister_all, Registry, Answers, register_all, find, serve,
  hotkey, run_hotkey_multi_listener, run_hotkey_listener,
}

-- The callback of the binding at a place.
abbrev pub own_callback : {F : Type 0} → List (HotkeyBinding F) → ℕ → Option F
own_callback bs i = get_elem? bs i >>= λ b. b.on_fire

-- The ids from `id` on are free.
abbrev IsFree : {F : Type 0} → ℕ → List (ℕ × F) → Type 0
IsFree id dispatch = (k : ℕ) → id ≤ k → find k dispatch ≡ none

-- What a successful loop makes of the map of callbacks.
record IsExtended {F : Type 0} (id : ℕ) (bs : List (HotkeyBinding F)) (r r' : Registry F)
    : Type 0 where
  older : (k : ℕ) → k < id → find k r'.dispatch ≡ find k r.dispatch
  newer : (i : ℕ) → find (id + i) r'.dispatch ≡ own_callback bs i

-- The callbacks found from `id` on, by the first and the others.
newer_cases :
    {F : Type 0} (id : ℕ) (b : HotkeyBinding F) (bs : List (HotkeyBinding F))
    (dispatch : List (ℕ × F))
    → find id dispatch ≡ b.on_fire
    → ((j : ℕ) → find (suc id + j) dispatch ≡ own_callback bs j)
    → (i : ℕ) → find (id + i) dispatch ≡ own_callback (b ∷ bs) i
newer_cases id b bs dispatch first others zero = ap (λ k. find k dispatch) (omega arith) ∙ first
newer_cases id b bs dispatch first others (suc j) =
    ap (λ k. find k dispatch) (omega arith) ∙ others j

IsExtended-skip :
    {F : Type 0} (id : ℕ) (b : HotkeyBinding F) (bs : List (HotkeyBinding F)) (r r' : Registry F)
    → b.on_fire ≡ none
    → IsFree id r.dispatch
    → IsExtended (suc id) bs r r'
    → IsExtended id (b ∷ bs) r r'
IsExtended-skip id b bs r r' skipped free e = record {
  older = λ k l. e.older k (omega arith);
  newer =
      newer_cases id b bs r'.dispatch
        (e.older id (omega arith) ∙ free id (omega arith) ∙ sym skipped) e.newer;
}

IsExtended-set :
    {F : Type 0} (id : ℕ) (b : HotkeyBinding F) (bs : List (HotkeyBinding F)) (r r1 r' : Registry F)
    (f : F)
    → b.on_fire ≡ some f
    → r1.dispatch ≡ (id, f) ∷ r.dispatch
    → IsExtended (suc id) bs r1 r'
    → IsExtended id (b ∷ bs) r r'
unfolding find
IsExtended-set id b bs r r1 r' f set d e = record {
  older = λ k l. e.older k (omega arith) ∙ ap (find k) d ∙ ground arith;
  newer =
      newer_cases id b bs r'.dispatch (e.older id (omega arith) ∙ ap (find id) d ∙ ground arith)
        e.newer;
}

ap-IsExtended :
    {F : Type 0} (id : ℕ) (bs : List (HotkeyBinding F)) (r : Registry F)
    {o o' : Option GoError × Registry F}
    → o ≡ o'
    → IsExtended id bs r o.1
    → IsExtended id bs r o'.1
ap-IsExtended id bs r e x = rw (sym e) x

register_all-IsExtended :
    {F : Type 0} (answers : Answers) (id : ℕ) (bs : List (HotkeyBinding F)) (r : Registry F)
    → IsFree id r.dispatch
    → (register_all answers id bs r).0 ≡ none
    → IsExtended id bs r (register_all answers id bs r).1
unfolding register_all find
register_all-IsExtended answers id [] r free e = record {
  older = λ k l. refl;
  newer = λ i. free (id + i) (omega arith) ∙ ground arith;
}
register_all-IsExtended {F = F} answers id (b ∷ bs) r free e = elim (Option-cases b.on_fire) [
  | inl skipped ↦
      let same : register_all answers id (b ∷ bs) r ≡ register_all answers (suc id) bs r =
        rw (skipped, register_all) refl in
      let rest =
        register_all-IsExtended answers (suc id) bs r (λ k l. free k (omega arith))
          (ap (λ o. o.0) (sym same) ∙ e) in
      ap-IsExtended id (b ∷ bs) r (sym same) (IsExtended-skip id b bs r _ skipped free rest)
  | inr (f, set) ↦ elim (Option-cases (answers r.calls id b.hotkey)) [
    | inr (errno, bad) ↦ absurd (ground arith)
    | inl ok ↦
        let r1 : Registry F = record {
          calls = registered id b.hotkey ∷ r.calls;
          ids = r.ids ++ id ∷ [];
          dispatch = (id, f) ∷ r.dispatch;
        } in
        let same : register_all answers id (b ∷ bs) r ≡ register_all answers (suc id) bs r1 =
          rw (set, register_all) (rw (ok, register_all) refl) in
        let rest =
          register_all-IsExtended answers (suc id) bs r1 (λ k l. ground (arith, free k))
            (ap (λ o. o.0) (sym same) ∙ e) in
        ap-IsExtended id (b ∷ bs) r (sym same) (IsExtended-set id b bs r r1 _ f set refl rest)
  ]
]

fires :
    {F : Type 0} (dispatch : List (ℕ × F)) (id : ℕ) (o : Option F)
    → find id dispatch ≡ o
    → serve dispatch (hotkey id ∷ []) ≡ elim o [ none ↦ [] | some f ↦ f ∷ [] ]
unfolding serve
fires dispatch id none e = rw (e, serve) refl
fires dispatch id (some f) e = rw (e, serve) refl

message_fires :
    {F : Type 0} (answers : Answers) (b : HotkeyBinding F) (bs : List (HotkeyBinding F)) (i : ℕ)
    → (run_hotkey_multi_listener answers (b ∷ bs) []).err ≡ none
    → (run_hotkey_multi_listener answers (b ∷ bs) (hotkey (suc i) ∷ [])).fired
      ≡ elim (own_callback (b ∷ bs) i) [ none ↦ [] | some f ↦ f ∷ [] ]
unfolding run_hotkey_multi_listener serve find
message_fires {F = F} answers b bs i e =
    let empty : Registry F = record { calls = []; ids = []; dispatch = [] } in
    let o : Option GoError × Registry F = register_all answers 1 (b ∷ bs) empty in
    elim (Option-cases o.0) [
      | inr (failure, bad) ↦ absurd (ground arith)
      | inl ok ↦
          let own = (register_all-IsExtended answers 1 (b ∷ bs) empty (λ k l. refl) ok).newer i in
          rw (ok, run_hotkey_multi_listener)
            (fires o.1.dispatch (suc i) _ (ap (λ k. find k o.1.dispatch) (omega arith) ∙ own))
    ]

fires_own :
    {F : Type 0} (answers : Answers) (b : HotkeyBinding F) (bs : List (HotkeyBinding F)) (i : ℕ)
    (own : HotkeyBinding F) (f : F)
    → (run_hotkey_multi_listener answers (b ∷ bs) []).err ≡ none
    → get_elem? (b ∷ bs) i ≡ some own
    → own.on_fire ≡ some f
    → (run_hotkey_multi_listener answers (b ∷ bs) (hotkey (suc i) ∷ [])).fired ≡ f ∷ []
fires_own {F = F} answers b bs i own f e found set =
    let callback : own_callback (b ∷ bs) i ≡ some f =
      ap (λ (o : Option (HotkeyBinding F)). o >>= λ x. x.on_fire) found ∙ set in
    message_fires answers b bs i e ∙ ap (λ o. elim o [ none ↦ [] | some g ↦ g ∷ [] ]) callback

-- A binding with the hotkey and the callback has the place of the id; the ids begin with 1.
abbrev pub Binds : {F : Type 0} → List (HotkeyBinding F) → ℕ → Hotkey → F → Type 0
Binds bs id h f =
    (i : ℕ) × (id ≡ suc i) × (get_elem? bs i ≡ some (record { hotkey = h; on_fire = some f }))

run-calls :
    {F : Type 0} (answers : Answers) (b : HotkeyBinding F) (bs : List (HotkeyBinding F))
    (ms : List Message) (id : ℕ) (h : Hotkey)
    → (run_hotkey_multi_listener answers (b ∷ bs) []).err ≡ none
    → Memᴰ (registered id h) (run_hotkey_multi_listener answers (b ∷ bs) ms).calls
      ↔ Places 1 (b ∷ bs) (registered id h)
unfolding run_hotkey_multi_listener
run-calls {F = F} answers b bs ms id h e =
    let empty : Registry F = record { calls = []; ids = []; dispatch = [] } in
    let o : Option GoError × Registry F = register_all answers 1 (b ∷ bs) empty in
    elim (Option-cases o.0) [
      | inr (failure, bad) ↦ absurd (ground arith)
      | inl ok ↦
          let rec = register_all-IsRecorded answers 1 (b ∷ bs) empty ok in
          let (back, on) = unregister_all-keeps o.1.ids o.1.calls id h in
          let same : (run_hotkey_multi_listener answers (b ∷ bs) ms).calls
              ≡ unregister_all o.1.ids o.1.calls =
            rw (ok, run_hotkey_multi_listener) refl in
          (
            λ m. elim (rec.newer (registered id h) (back (subst (Memᴰ (registered id h)) same m))) [
              | inl old ↦ absurd (Memᴰ.not-nil old)
              | inr p ↦ p
            ],
            λ p. subst (Memᴰ (registered id h)) (sym same) (on (rec.all (registered id h) p)),
          )
    ]

-- If the listener registers its hotkeys without an error, then for every id, hotkey and callback: it
-- registers the hotkey with Windows under the id, and the message with that id calls the callback
-- and no other, exactly when a binding with that hotkey and that callback has the place of the id.
pub run_hotkey_multi_listener-dispatches :
    {F : Type 0} (answers : Answers) (b : HotkeyBinding F) (bs : List (HotkeyBinding F)) (id : ℕ)
    (h : Hotkey) (f : F)
    → (run_hotkey_multi_listener answers (b ∷ bs) []).err ≡ none
    → (Memᴰ (registered id h) (run_hotkey_multi_listener answers (b ∷ bs) (hotkey id ∷ [])).calls
        × ((run_hotkey_multi_listener answers (b ∷ bs) (hotkey id ∷ [])).fired ≡ f ∷ []))
      ↔ Binds (b ∷ bs) id h f
run_hotkey_multi_listener-dispatches answers b bs id h f e =
    let (places, is_called) = run-calls answers b bs (hotkey id ∷ []) id h e in
    (
      λ (m, fired).
          let p = places m in
          let at : id ≡ suc p.place = ground (arith, p.call) in
          let its : p.binding.hotkey ≡ h = ground (arith, p.call) in
          let own = fires_own answers b bs p.place p.binding p.callback e p.found p.bound in
          let called : p.callback ∷ [] ≡ f ∷ [] =
            sym own
            ∙ ap (λ k. (run_hotkey_multi_listener answers (b ∷ bs) (hotkey k ∷ [])).fired) (sym at)
            ∙ fired in
          let same : p.callback ≡ f = ground arith in
          let whole : p.binding ≡ record { hotkey = h; on_fire = some f } =
            ground (arith, its, p.bound, same) in
          (p.place, at, p.found ∙ ap some whole),
      λ (i, at, own). (
        is_called (record {
          place = i;
          binding = record { hotkey = h; on_fire = some f };
          callback = f;
          call = ap (λ k. registered k h) (at ∙ omega arith);
          found = own;
          bound = refl;
        }),
        ap (λ k. (run_hotkey_multi_listener answers (b ∷ bs) (hotkey k ∷ [])).fired) at
            ∙ fires_own answers b bs i (record { hotkey = h; on_fire = some f }) f e own refl,
      ),
    )

-- The listener for one hotkey calls its callback once for each press, until it is told to quit.
pub run_hotkey_listener-fires :
    {F : Type 0} (answers : Answers) (h : Hotkey) (f : F)
    → (run_hotkey_listener answers h (some f) []).err ≡ none
    → (run_hotkey_listener answers h (some f) (hotkey 1 ∷ [])).fired ≡ f ∷ []
unfolding run_hotkey_listener
run_hotkey_listener-fires answers h f e =
    fires_own answers (record { hotkey = h; on_fire = some f }) [] 0
      (record { hotkey = h; on_fire = some f }) f e refl refl
