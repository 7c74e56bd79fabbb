-- ===== src/Fleet/Registry.antt =====
-- The registry of browsers: a map whose native browsers are counted.
use automationfleet.Base.{
  ℕ, ◌+◌, ◌≡◌, refl, ◌∙◌, String, Option, none, some, List, [], ◌∷◌, arith, str_eq, str_eq_iff,
  str_eq_refl, if◌then◌else◌, Option-cases, if-intro, inl, inr, ◌↔◌,
}
use automationfleet.Errors.{GoError, sentinel, err_unknown_browser}
use automationfleet.Driver
use automationfleet.Driver.{BrowserHandle, Driver, with_scale}
use automationfleet.Driver.Accepted.{validate_ok}
use automationfleet.Fleet.{
  Fleet, Schedule, lookup, remove, handle, register, unregister, reconcile_takeover, added, removed,
}
use automationfleet.Fleet.Invariant.{IsKept, reconcile_takeover-IsKept}

-- The number of the native browsers.
unfoldable pub natives : List (String × BrowserHandle) → ℕ
natives [] = 0
natives ((k, h) ∷ hs) = (if h.native then 1 else 0) + natives hs

-- Each id is registered once, with the handle that carries it.
pub data IsMap : List (String × BrowserHandle) → Type 0 where
  empty : IsMap []
  entry :
      {h : BrowserHandle} {hs : List (String × BrowserHandle)}
      → lookup h.id hs ≡ none
      → IsMap hs
      → IsMap ((h.id, h) ∷ hs)

-- The registry is a map, and the count is that of its native browsers.
pub record IsCounted (f : Fleet) : Type 0 where
  pub is_map : IsMap f.handles
  pub counted : f.native_count ≡ natives f.handles

lookup-remove :
    (id q : String) (hs : List (String × BrowserHandle))
    → lookup q (remove id hs) ≡ (if str_eq id q then none else lookup q hs)
unfolding lookup remove
lookup-remove id q [] = ground arith
lookup-remove id q ((k, h) ∷ hs) =
    ground (arith, lookup-remove id q hs, str_eq_iff k id, str_eq_iff k q, str_eq_iff id q)

remove_absent :
    (id : String) (hs : List (String × BrowserHandle)) → lookup id hs ≡ none → remove id hs ≡ hs
unfolding lookup remove
remove_absent id [] e = refl
remove_absent id ((k, h) ∷ hs) e = ground (arith, remove_absent id hs)

remove-IsMap : (id : String) {hs : List (String × BrowserHandle)} → IsMap hs → IsMap (remove id hs)
unfolding remove
remove-IsMap id empty = empty
remove-IsMap id (entry {h = h} {hs = hs} new m) =
    if-intro IsMap (str_eq h.id id) (remove-IsMap id m)
      (entry (lookup-remove id h.id hs ∙ ground arith) (remove-IsMap id m))

natives-remove :
    (id : String) {h : BrowserHandle} {hs : List (String × BrowserHandle)}
    → IsMap hs
    → lookup id hs ≡ some h
    → natives hs ≡ (if h.native then 1 else 0) + natives (remove id hs)
unfolding natives lookup remove
natives-remove id {h = h} empty e = absurd (ground arith)
natives-remove id {h = h} (entry {h = g} {hs = hs} new m) e =
    ground (arith, natives-remove id {h = h} m, str_eq_iff g.id id, remove_absent id hs)

-- Unregistering takes away its id and no other.
pub handle-unregister :
    (f : Fleet) (id q : String) (s : Schedule)
    → handle (unregister f id s).1 q ≡ (if str_eq id q then none else handle f q)
unfolding handle unregister
handle-unregister f id q s = elim (Option-cases (lookup id f.handles)) [
  | inl n ↦ ground (arith, str_eq_iff id q)
  | inr (h, o) ↦
      ground (arith, reconcile_takeover-IsKept (removed f h id) s, lookup-remove id q f.handles)
]

-- Registering an accepted handle under a new id adds it, with its scale set, and changes no other
-- entry.
pub handle-register :
    (f : Fleet) (h : BrowserHandle) (q : String) (s : Schedule)
    → (Driver.validate (some h)).0 ≡ none
    → handle f h.id ≡ none
    → ((register f (some h) s).0 ≡ none)
      × (handle (register f (some h) s).1 q
          ≡ (if str_eq h.id q then some (with_scale h) else handle f q))
unfolding handle register
handle-register f h q s v new =
    ground (arith, validate_ok h v, reconcile_takeover-IsKept (added f (with_scale h)) s)

-- A refused registration changes nothing.
pub register_refused :
    (f : Fleet) (h : Option BrowserHandle) (s : Schedule) (e : GoError)
    → (register f h s).0 ≡ some e
    → (register f h s).1 ≡ f
unfolding register
register_refused f h s e r = ground arith

pub kept-IsCounted : (f f' : Fleet) → IsKept f f' → IsCounted f → IsCounted f'
kept-IsCounted f f' k c = record {
  is_map = rw k.handles c.is_map;
  counted = k.native_count ∙ rw k.handles c.counted;
}

added-IsCounted :
    (f : Fleet) (h : BrowserHandle)
    → lookup h.id f.handles ≡ none
    → IsCounted f
    → IsCounted (added f h)
unfolding natives
added-IsCounted f h new c = record { is_map = entry new c.is_map; counted = ground arith }

removed-IsCounted :
    (f : Fleet) (h : BrowserHandle) (id : String)
    → lookup id f.handles ≡ some h
    → IsCounted f
    → IsCounted (removed f h id)
removed-IsCounted f h id o c =
    let fewer = natives-remove id {h = h} c.is_map o in
    record { is_map = remove-IsMap id c.is_map; counted = ground arith }

pub register-IsCounted :
    (f : Fleet) (h : Option BrowserHandle) (s : Schedule)
    → IsCounted f
    → IsCounted (register f h s).1
unfolding register handle
register-IsCounted f h s c = elim (Option-cases (Driver.validate h).0) [
  | inr (e, v) ↦ rw (v, register) c
  | inl v ↦ elim (Option-cases (Driver.validate h).1) [
    | inl n ↦ rw (v, register) (rw (n, register) c)
    | inr (g, o) ↦ elim (Option-cases (lookup g.id f.handles)) [
      | inr (old, known) ↦ ground arith
      | inl new ↦
          let done =
            kept-IsCounted (added f g) (reconcile_takeover (added f g) s)
              (reconcile_takeover-IsKept (added f g) s) (added-IsCounted f g new c) in
          ground arith
    ]
  ]
]

pub unregister-IsCounted :
    (f : Fleet) (id : String) (s : Schedule) → IsCounted f → IsCounted (unregister f id s).1
unfolding unregister handle
unregister-IsCounted f id s c = elim (Option-cases (lookup id f.handles)) [
  | inl n ↦ ground arith
  | inr (h, o) ↦
      let done =
        kept-IsCounted (removed f h id) (reconcile_takeover (removed f h id) s)
          (reconcile_takeover-IsKept (removed f h id) s) (removed-IsCounted f h id o c) in
      ground arith
]

-- Once an id is unregistered, an accepted handle can be registered under it again.
pub unregister-register :
    (f : Fleet) (h : BrowserHandle) (s s' : Schedule)
    → (Driver.validate (some h)).0 ≡ none
    → ((register (unregister f h.id s).1 (some h) s').0 ≡ none)
      × (handle (register (unregister f h.id s).1 (some h) s').1 h.id ≡ some (with_scale h))
unregister-register f h s s' v =
    let gone = handle-unregister f h.id h.id s in
    let (ok, found) =
      handle-register (unregister f h.id s).1 h h.id s' v (ground (arith, str_eq_refl h.id)) in
    (ok, found ∙ ground (arith, str_eq_refl h.id))

-- A browser is refused as unknown exactly when it is not registered.
pub unregister_unknown_iff :
    (f : Fleet) (id : String) (s : Schedule)
    → ((unregister f id s).0 ≡ some (sentinel err_unknown_browser)) ↔ (handle f id ≡ none)
unfolding unregister
unregister_unknown_iff f id s = ground arith
