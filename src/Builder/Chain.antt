-- ===== src/Builder/Chain.antt =====
-- A builder whose setters are called once for each field of a struct builds that struct.
use interpol.Base.{
  String, List, [], ◌∷◌, Option, none, some, ok, All, ◌≡◌, refl, str_eq, if◌then◌else◌,
}
use interpol.Types.{MpiCallType}
use interpol.Event.{StructOf, box}
use interpol.Builder.{Setting, name_of, settings, DeriveBuilder, IsBuilder}

-- The last value given to a field, or the one that it had.
abbrev last_named : String → List Setting → Option Setting → Option Setting
last_named f [] old = old
last_named f (x ∷ xs) old = last_named f xs (if str_eq (name_of x) f then some x else old)

-- No struct has two fields of one name.
settings-distinct :
    (kind : MpiCallType) (s : StructOf kind)
    → All
        (λ x. last_named (name_of x) (settings (box kind s)) none ≡ some x)
        (settings (box kind s))
unfolding settings box name_of
settings-distinct MpiCallType.init s = (refl, (refl, (refl, tt)))
settings-distinct MpiCallType.initthread s = (refl, (refl, (refl, (refl, (refl, tt)))))
settings-distinct MpiCallType.finalize s = (refl, (refl, (refl, tt)))
settings-distinct MpiCallType.send s = (refl, (refl, (refl, (refl, (refl, (refl, (refl, tt)))))))
settings-distinct MpiCallType.recv s = (refl, (refl, (refl, (refl, (refl, (refl, (refl, tt)))))))
settings-distinct MpiCallType.isend s =
    (refl, (refl, (refl, (refl, (refl, (refl, (refl, (refl, tt))))))))
settings-distinct MpiCallType.irecv s =
    (refl, (refl, (refl, (refl, (refl, (refl, (refl, (refl, tt))))))))
settings-distinct MpiCallType.test s = (refl, (refl, (refl, (refl, (refl, tt)))))
settings-distinct MpiCallType.wait s = (refl, (refl, (refl, (refl, tt))))
settings-distinct MpiCallType.barrier s = (refl, (refl, (refl, (refl, tt))))
settings-distinct MpiCallType.ibarrier s = (refl, (refl, (refl, (refl, (refl, tt)))))
settings-distinct MpiCallType.ibcast s = (refl, (refl, (refl, (refl, (refl, (refl, (refl, tt)))))))
settings-distinct MpiCallType.igather s =
    (refl, (refl, (refl, (refl, (refl, (refl, (refl, (refl, tt))))))))
settings-distinct MpiCallType.ireduce s =
    (refl, (refl, (refl, (refl, (refl, (refl, (refl, (refl, tt))))))))
settings-distinct MpiCallType.iscatter s =
    (refl, (refl, (refl, (refl, (refl, (refl, (refl, (refl, tt))))))))

-- The setters called one after the other.
abbrev pub sets :
    (db : DeriveBuilder) {kind : MpiCallType} → List Setting → db.Builder kind → db.Builder kind
sets db [] b = b
sets db (x ∷ xs) b = sets db xs (db.set x b)

module _ (db : DeriveBuilder) (law : IsBuilder db) (kind : MpiCallType) where
  assigned-sets :
      (xs : List Setting) (b : db.Builder kind) (f : String)
      → db.assigned (sets db xs b) f ≡ last_named f xs (db.assigned b f)
  assigned-sets [] b f = refl
  assigned-sets (x ∷ xs) b f = rw (assigned-sets xs (db.set x b) f, law.assigned-set x b f)

  assigned-All :
      (all xs : List Setting)
      → All (λ x. last_named (name_of x) all none ≡ some x) xs
      → All (λ x. db.assigned (sets db all (db.default kind)) (name_of x) ≡ some x) xs
  assigned-All all [] h = tt
  assigned-All all (x ∷ xs) h = (
    rw (assigned-sets all (db.default kind) (name_of x), law.assigned-default kind (name_of x)) h.0,
    assigned-All all xs h.1,
  )

  -- The struct is the one whose fields were set.
  pub build-sets :
      (s : StructOf kind) → db.build (sets db (settings (box kind s)) (db.default kind)) ≡ ok s
  build-sets s =
      law.build-assigned kind _ s
        (assigned-All (settings (box kind s)) (settings (box kind s)) (settings-distinct kind s))
