-- ===== src/Aggregate/Unique.antt =====
-- Events with different time stamps have one order: whatever sorts them, the result is the same.
use native.Mathlib.Bridge.{le_prop}
use mathlib.Core.Logic.Or
use mathlib.Core.List.{Perm, Mem, mem-cons_self, eq-or-mem_of_mem-cons, not-mem-nil, Permᴰ}
use mathlib.Core.List.Perm
use mathlib.Core.Logic.{∥∥₁_elim}
use interpol.Base.{
  ◌≡◌, ◌∙◌, refl, sym, ap, ap₂, subst, ℕ, true, List, [], ◌∷◌, All, arith, is_in, IsDistinct,
  ==_iff, ◌||◌,
}
use interpol.Types.{Tsc}
use interpol.Event.{Event, tsc}
use interpol.Aggregate.{IsSorted}

abbrev pub time_stamps : List Event → List Tsc
time_stamps [] = []
time_stamps (e ∷ es) = tsc e ∷ time_stamps es

Event-IsSet : IsSet Event
Event-IsSet = hlevel

All-Mem :
    {P : Event → Type 0}
    → ((x : Event) → IsProp (P x))
    → {x : Event} (l : List Event) → All P l
    → Mem x l
    → P x
All-Mem prop [] h m = absurd (not-mem-nil m)
All-Mem {P} prop {x} (y ∷ l) (here, there) m =
    Or.elim (prop x) (eq-or-mem_of_mem-cons m) (λ e. subst P (sym e) here) (All-Mem prop l there)

is_in-time_stamps : {x : Event} (l : List Event) → Mem x l → is_in (tsc x) (time_stamps l) ≡ true
is_in-time_stamps [] m = absurd (not-mem-nil m)
is_in-time_stamps {x} (y ∷ l) m =
    Or.elim (hlevel) (eq-or-mem_of_mem-cons m)
      (λ e.
        ap (λ b. b || is_in (tsc x) (time_stamps l)) ((==_iff (tsc y) (tsc x)).1 (ap tsc (sym e))))
      (λ m'. ground (arith, is_in-time_stamps l m'))

-- Neither depends on the order.
is_in-Perm :
    {xs ys : List Event} (k : Tsc)
    → Permᴰ xs ys
    → is_in k (time_stamps xs) ≡ is_in k (time_stamps ys)
is_in-Perm k Permᴰ.nil = refl
is_in-Perm k (Permᴰ.cons e p) = cc (e, is_in-Perm k p)
is_in-Perm k (Permᴰ.swap {a} {b} {a'} {b'} e e') = ground (arith, ap tsc e, ap tsc e')
is_in-Perm k (Permᴰ.trans p q) = is_in-Perm k p ∙ is_in-Perm k q

Permᴰ-IsDistinct :
    {xs ys : List Event} → Permᴰ xs ys → IsDistinct (time_stamps xs) → IsDistinct (time_stamps ys)
Permᴰ-IsDistinct Permᴰ.nil h = tt
Permᴰ-IsDistinct (Permᴰ.cons {b = b} {l₁} e p) (fresh, h) = (
  sym (is_in-Perm (tsc b) p) ∙ ap (λ x. is_in (tsc x) (time_stamps l₁)) (sym e) ∙ fresh,
  Permᴰ-IsDistinct p h,
)
Permᴰ-IsDistinct (Permᴰ.swap {a} {b} {a'} {b'} {l} e e') (fresh, (fresh', h)) =
    (ground (arith, ap tsc e, ap tsc e'), (ground (arith, ap tsc e, ap tsc e'), h))
Permᴰ-IsDistinct (Permᴰ.trans p q) h = Permᴰ-IsDistinct q (Permᴰ-IsDistinct p h)

IsDistinct-IsProp : (l : List ℕ) → IsProp (IsDistinct l)
IsDistinct-IsProp [] = hlevel
IsDistinct-IsProp (i ∷ l) = hlevel (IsDistinct-IsProp l)

Perm-IsDistinct :
    {xs ys : List Event} → Perm xs ys → IsDistinct (time_stamps xs) → IsDistinct (time_stamps ys)
Perm-IsDistinct {ys = ys} p h =
    ∥∥₁_elim p (IsDistinct-IsProp (time_stamps ys)) (λ q. Permᴰ-IsDistinct q h)

-- The first events of two orders are the same.
head-eq :
    (x y : Event) (xs ys : List Event)
    → IsSorted tsc (x ∷ xs)
    → IsSorted tsc (y ∷ ys)
    → IsDistinct (time_stamps (x ∷ xs))
    → Perm (x ∷ xs) (y ∷ ys)
    → x ≡ y
head-eq x y xs ys first first' distinct p =
    Or.elim (Event-IsSet x y) (eq-or-mem_of_mem-cons (Perm.subset (Perm.symm p) y mem-cons_self))
      sym
      (λ m.
        Or.elim (Event-IsSet x y) (eq-or-mem_of_mem-cons (Perm.subset p x mem-cons_self)) (λ e. e)
          (λ m'. absurd (
            ground (
              arith,
              is_in-time_stamps xs m,
              All-Mem (λ e. le_prop) xs first.0 m,
              All-Mem (λ e. le_prop) ys first'.0 m',
              distinct.0,
            ))))

-- Two orders of the same events are the same, if the time stamps differ.
Perm-unique :
    (xs ys : List Event)
    → IsSorted tsc xs
    → IsSorted tsc ys
    → IsDistinct (time_stamps xs)
    → Perm xs ys
    → xs ≡ ys
Perm-unique [] ys sorted sorted' distinct p = Perm.nil-eq p
Perm-unique (x ∷ xs) [] sorted sorted' distinct p = Perm.eq-nil p
Perm-unique (x ∷ xs) (y ∷ ys) sorted sorted' distinct p =
    let e = head-eq x y xs ys sorted sorted' distinct p in
    ap₂ (λ z zs. z ∷ zs) e
      (Perm-unique xs ys sorted.1 sorted'.1 distinct.1
        (Perm.cons_inv (subst (λ z. Perm (x ∷ xs) (z ∷ ys)) (sym e) p)))

-- So whatever sorts them.
pub sorted_unique :
    (xs ys zs : List Event)
    → IsSorted tsc xs
    → IsSorted tsc ys
    → Perm xs zs
    → Perm ys zs
    → IsDistinct (time_stamps zs)
    → xs ≡ ys
sorted_unique xs ys zs sorted sorted' p q distinct =
    Perm-unique xs ys sorted sorted' (Perm-IsDistinct (Perm.symm p) distinct)
      (Perm.trans p (Perm.symm q))
