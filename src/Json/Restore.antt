-- ===== src/Json/Restore.antt =====
-- What survives the way through JSON: the order and the number of the events, their time stamps,
-- and every event whose time is a number.
use interpol.Base.{
  ◌++◌, ◌≡◌, ◌∙◌, sym, ap, ap₂, refl, Option, some, List, [], ◌∷◌, map, All, arith, Option-cases,
  inl, inr,
}
use interpol.Types.{Usecs}
use interpol.Event.{Event, tsc}
use interpol.Json.{SerdeJson, IsSerdeJson, restore, restore_all, HasFiniteTime}

module _ (reparse : Usecs → Option Usecs) where
  -- An event that is restored keeps its time stamp.
  pub tsc-restore : (e : Event) {e' : Event} → restore reparse e ≡ some e' → tsc e' ≡ tsc e
  unfolding restore tsc
  tsc-restore (Event.init e) h = ground arith
  tsc-restore e h = ground arith

  restore_all-cons :
      (e : Event) (es : List Event) {e' : Event} {es' : List Event}
      → restore reparse e ≡ some e'
      → restore_all reparse es ≡ some es'
      → restore_all reparse (e ∷ es) ≡ some (e' ∷ es')
  unfolding restore_all
  restore_all-cons e es p q = ground arith

  -- The parts of a list that is restored.
  restore_all-cons_inv :
      (e : Event) (es : List Event) {l : List Event}
      → restore_all reparse (e ∷ es) ≡ some l
      → (e' : Event) × (es' : List Event) × (restore reparse e ≡ some e')
        × (restore_all reparse es ≡ some es')
        × (l ≡ e' ∷ es')
  unfolding restore_all
  restore_all-cons_inv e es h = elim (Option-cases (restore reparse e)) [
    | inl lost ↦ absurd (ground arith)
    | inr (e', p) ↦ elim (Option-cases (restore_all reparse es)) [
      | inl lost ↦ absurd (ground arith)
      | inr (es', q) ↦ (e', es', p, q, ground arith)
    ]
  ]

  -- Two lists are restored one after the other.
  pub restore_all-append :
      (xs ys : List Event) {a b : List Event}
      → restore_all reparse xs ≡ some a
      → restore_all reparse ys ≡ some b
      → restore_all reparse (xs ++ ys) ≡ some (a ++ b)
  unfolding restore_all
  restore_all-append [] ys h k = ground arith
  restore_all-append (x ∷ xs) ys {a} {b} h k =
      let (x', xs', p, q, e) = restore_all-cons_inv x xs h in
      restore_all-cons x (xs ++ ys) p (restore_all-append xs ys q k)
      ∙ ap (λ l. some (l ++ b)) (sym e)

  -- So do the events of a list, one for one.
  pub map-tsc-restore_all :
      (es : List Event) {es' : List Event}
      → restore_all reparse es ≡ some es'
      → map tsc es' ≡ map tsc es
  unfolding restore_all
  map-tsc-restore_all [] h = ground arith
  map-tsc-restore_all (e ∷ es) h =
      let (e', es', p, q, eq) = restore_all-cons_inv e es h in
      ap (map tsc) eq ∙ ap₂ ◌∷◌ (tsc-restore e p) (map-tsc-restore_all es q)

module _ (json : SerdeJson) (law : IsSerdeJson json) where
  restore-HasFiniteTime :
      (e : Event) → HasFiniteTime e → (e' : Event) × (restore json.reparse e ≡ some e')
  unfolding restore
  restore-HasFiniteTime (Event.init e) h =
      let (t, p, _) = law.reparse-is_finite e.time h in
      (Event.init (record e { time = t }), ground arith)
  restore-HasFiniteTime (Event.initthread e) h =
      let (t, p, _) = law.reparse-is_finite e.time h in
      (Event.initthread (record e { time = t }), ground arith)
  restore-HasFiniteTime (Event.finalize e) h =
      let (t, p, _) = law.reparse-is_finite e.time h in
      (Event.finalize (record e { time = t }), ground arith)
  restore-HasFiniteTime e h = (e, refl)

  -- Events whose times are numbers are all read back.
  pub restore_all-HasFiniteTime :
      (es : List Event)
      → All HasFiniteTime es
      → (es' : List Event) × (restore_all json.reparse es ≡ some es')
  unfolding restore_all
  restore_all-HasFiniteTime [] h = ([], refl)
  restore_all-HasFiniteTime (e ∷ es) h =
      let (e', p) = restore-HasFiniteTime e h.0 in
      let (es', q) = restore_all-HasFiniteTime es h.1 in
      (e' ∷ es', restore_all-cons json.reparse e es p q)
