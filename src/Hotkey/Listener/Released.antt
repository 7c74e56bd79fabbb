-- ===== src/Hotkey/Listener/Released.antt =====
-- The listener leaves no hotkey registered.
use automationfleet.Base.{
  ℕ, suc, ◌≡◌, refl, ◌∙◌, Bool, true, false, not, ◌&&◌, ◌||◌, Option, none, some, List, [], ◌∷◌,
  ◌++◌, arith, ◌==◌, Option-cases, inl, inr,
}
use automationfleet.Errors.{GoError}
use automationfleet.Hotkey.Listener.{
  HotkeyBinding, OsCall, registered, refused, unregistered, Registry, Answers, unregister_all,
  register_all, Message, run_hotkey_multi_listener,
}

-- Whether an id is registered after the calls.
unfoldable pub is_held : ℕ → List OsCall → Bool
is_held q [] = false
is_held q (registered id h ∷ calls) = id == q || is_held q calls
is_held q (refused id h ∷ calls) = is_held q calls
is_held q (unregistered id ∷ calls) = not (id == q) && is_held q calls

contains : ℕ → List ℕ → Bool
contains q [] = false
contains q (id ∷ ids) = id == q || contains q ids

contains-append :
    (q id : ℕ) (ids : List ℕ) → contains q (ids ++ id ∷ []) ≡ (contains q ids || id == q)
unfolding contains
contains-append q id [] = ground arith
contains-append q id (i ∷ ids) = ground (arith, contains-append q id ids)

is_held-unregister_all :
    (q : ℕ) (ids : List ℕ) (calls : List OsCall)
    → is_held q (unregister_all ids calls) ≡ (not (contains q ids) && is_held q calls)
unfolding is_held unregister_all contains
is_held-unregister_all q [] calls = refl
is_held-unregister_all q (id ∷ ids) calls =
    is_held-unregister_all q ids (unregistered id ∷ calls) ∙ ground arith

-- What is held is in the list of ids.
record IsListed {F : Type 0} (q : ℕ) (r : Registry F) : Type 0 where
  listed : is_held q r.calls ≡ true → contains q r.ids ≡ true

-- A refusal has released all, and without one the list is complete.
record IsReleased {F : Type 0} (q : ℕ) (o : Option GoError × Registry F) : Type 0 where
  refusal : (e : GoError) → o.0 ≡ some e → is_held q o.1.calls ≡ false
  complete : o.0 ≡ none → IsListed q o.1

register_all-IsReleased :
    {F : Type 0} (q : ℕ) (answers : Answers) (id : ℕ) (bs : List (HotkeyBinding F)) (r : Registry F)
    → IsListed q r
    → IsReleased q (register_all answers id bs r)
unfolding register_all is_held
register_all-IsReleased q answers id [] r l = record {
  refusal = λ e h. absurd (ground arith);
  complete = λ h. l;
}
register_all-IsReleased q answers id (b ∷ bs) r l = elim (Option-cases b.on_fire) [
  | inl skipped ↦ rw (skipped, register_all) (register_all-IsReleased q answers (suc id) bs r l)
  | inr (f, set) ↦ elim (Option-cases (answers r.calls id b.hotkey)) [
    | inl ok ↦
        rw (set, register_all)
          (rw (ok, register_all)
            (register_all-IsReleased q answers (suc id) bs _
              (record { listed = λ h. contains-append q id r.ids ∙ ground (arith, l.listed) })))
    | inr (errno, bad) ↦
        rw (set, register_all)
          (rw (bad, register_all)
            (record {
              refusal = λ e h.
                  is_held-unregister_all q r.ids (refused id b.hotkey ∷ r.calls)
                  ∙ ground (arith, l.listed);
              complete = λ h. absurd (ground arith);
            }))
  ]
]

-- Whatever the system answers and whatever messages arrive, no id is registered after the listener
-- has returned, be it with an error or without.
pub run_hotkey_multi_listener-releases :
    {F : Type 0} (answers : Answers) (bs : List (HotkeyBinding F)) (ms : List Message) (q : ℕ)
    → is_held q (run_hotkey_multi_listener answers bs ms).calls ≡ false
unfolding run_hotkey_multi_listener is_held
run_hotkey_multi_listener-releases answers [] ms q = refl
run_hotkey_multi_listener-releases {F = F} answers (b ∷ bs) ms q =
    let empty : Registry F = record { calls = []; ids = []; dispatch = [] } in
    let o : Option GoError × Registry F = register_all answers 1 (b ∷ bs) empty in
    let all =
      register_all-IsReleased q answers 1 (b ∷ bs) empty
        (record { listed = λ h. absurd (ground arith) }) in
    elim (Option-cases o.0) [
      | inl ok ↦
          rw (ok, run_hotkey_multi_listener)
            (is_held-unregister_all q o.1.ids o.1.calls ∙ ground (arith, (all.complete ok).listed))
      | inr (e, bad) ↦ rw (bad, run_hotkey_multi_listener) (all.refusal e bad)
    ]
