-- ===== src/Hotkey/Listener.antt =====
-- hotkey_windows.go: the listener that registers hotkeys with Windows and calls their callbacks.
-- `F` stands for callbacks. What RegisterHotKey answers is a parameter: none is success, and `some`
-- carries the system's error. The calls are kept newest first.
pub mod Released
pub mod Registered
pub mod Dispatched
use automationfleet.Base.{
  ℕ, suc, String, Bool, true, false, Option, none, some, List, [], ◌∷◌, ◌++◌, ◌==◌, if◌then◌else◌,
}
use automationfleet.Errors.{GoError, errorf, str, text}
use automationfleet.Hotkey.{Hotkey}
use automationfleet.Hotkey.Print.{to_text}

-- `on_fire` is none for a nil function.
pub record HotkeyBinding (F : Type 0) : Type 0 where
  pub hotkey : Hotkey
  pub on_fire : Option F

pub data OsCall : Type 0 where
  registered refused : ℕ → Hotkey → OsCall
  unregistered : ℕ → OsCall

-- The state of the loop over the bindings: the calls, the ids in order, and the map of callbacks.
pub record Registry (F : Type 0) : Type 0 where
  pub calls : List OsCall
  pub ids : List ℕ
  pub dispatch : List (ℕ × F)

abbrev pub Answers : Type 0
Answers = List OsCall → ℕ → Hotkey → Option String

unfoldable pub unregister_all : List ℕ → List OsCall → List OsCall
unregister_all [] calls = calls
unregister_all (id ∷ ids) calls = unregister_all ids (unregistered id ∷ calls)

-- The loop, where `id` is that of the next binding; the error is that of the first refusal, after
-- which all that was registered is released.
unfoldable pub register_all :
    {F : Type 0} → Answers → ℕ → List (HotkeyBinding F) → Registry F → Option GoError × Registry F
unfolding unregister_all
register_all answers id [] r = (none, r)
register_all answers id (b ∷ bs) r = elim b.on_fire [
  | none ↦ register_all answers (suc id) bs r
  | some f ↦ elim (answers r.calls id b.hotkey) [
    | some errno ↦ (
      some (errorf "RegisterHotKey(%s): %v" (text (to_text b.hotkey) ∷ str errno ∷ [])),
      record r { calls = unregister_all r.ids (refused id b.hotkey ∷ r.calls) },
    )
    | none ↦ register_all answers (suc id) bs (record {
      calls = registered id b.hotkey ∷ r.calls;
      ids = r.ids ++ id ∷ [];
      dispatch = (id, f) ∷ r.dispatch;
    })
  ]
]

-- What GetMessageW yields: a hotkey with its id, another message, or the end of the loop.
pub data Message : Type 0 where
  hotkey : ℕ → Message
  other quit : Message

unfoldable pub find : {F : Type 0} → ℕ → List (ℕ × F) → Option F
find id [] = none
find id ((k, f) ∷ fs) = if k == id then some f else find id fs

-- The callbacks that the message loop calls, in order.
unfoldable pub serve : {F : Type 0} → List (ℕ × F) → List Message → List F
unfolding find
serve dispatch [] = []
serve dispatch (hotkey id ∷ ms) = elim (find id dispatch) [
  | none ↦ serve dispatch ms
  | some f ↦ f ∷ serve dispatch ms
]
serve dispatch (other ∷ ms) = serve dispatch ms
serve dispatch (quit ∷ ms) = []

pub record Listened (F : Type 0) : Type 0 where
  pub err : Option GoError
  pub calls : List OsCall
  pub fired : List F

-- A whole run of the listener on a fresh thread; without bindings it only waits.
unfoldable pub run_hotkey_multi_listener :
    {F : Type 0} → Answers → List (HotkeyBinding F) → List Message → Listened F
unfolding register_all serve unregister_all
run_hotkey_multi_listener answers [] ms = record { err = none; calls = []; fired = [] }
run_hotkey_multi_listener {F = F} answers (b ∷ bs) ms =
    let empty : Registry F = record { calls = []; ids = []; dispatch = [] } in
    let (failure, r) = register_all answers 1 (b ∷ bs) empty in
    elim failure [
      | some e ↦ record { err = some e; calls = r.calls; fired = [] }
      | none ↦ record {
        err = none;
        calls = unregister_all r.ids r.calls;
        fired = serve r.dispatch ms;
      }
    ]

-- The listener for one hotkey.
unfoldable pub run_hotkey_listener :
    {F : Type 0} → Answers → Hotkey → Option F → List Message → Listened F
unfolding run_hotkey_multi_listener
run_hotkey_listener answers h on_fire ms =
    run_hotkey_multi_listener answers (record { hotkey = h; on_fire = on_fire } ∷ []) ms
