-- ===== src/System/Barrier/Invariant.antt =====
-- Whatever the order of the ranks' calls, the barrier is left only when every file is complete.
use interpol.Base.{
  ==_iff, subst, text_eq_self, ◌==◌, update, ℕ, ◌<◌, ◌≡◌, ◌≢◌, ◌∙◌, sym, ap, refl, true, false,
  Option, none, some, [], Text, text_eq, text_eq→eq, Bool-cases, inl, inr, arith, if◌then◌else◌,
}
use interpol.Machine.{Directory, ret}
use interpol.System.{fresh}
use interpol.Files.{put, WriteFaults, entries, lookup, create_dir_all, open_truncated, write_text}
use interpol.Files.Laws.{lookup-put}
use interpol.Serialize.{file_name}
use interpol.Serialize.FileName.{file_name-injective}
use interpol.Call.Finalize.{IsFaultless}
use interpol.System.Barrier.{
  Pc, starting, created, opened, arrived, released, Ranks, Finalizing, Step, create, open_file,
  write, release, Reach, here, next, has_arrived,
}

-- No rank leaves the barrier alone.
pub Reach-has_arrived :
    {ranks : Ranks} {dir : Option Directory} {s : Finalizing}
    → Reach ranks dir s
    → (i j : ℕ) → i < ranks.count
    → j < ranks.count
    → s.pc i ≡ released
    → has_arrived (s.pc j) ≡ true
Reach-has_arrived here i j hi hj e = cc
Reach-has_arrived (next r (create k lt at)) i j hi hj e = ground (arith, Reach-has_arrived r i j)
Reach-has_arrived (next r (open_file k lt at)) i j hi hj e = ground (arith, Reach-has_arrived r i j)
Reach-has_arrived (next r (write k lt at)) i j hi hj e = ground (arith, Reach-has_arrived r i j)
Reach-has_arrived (next r (release k lt at all)) i j hi hj e =
    ground (arith, Reach-has_arrived r i j, all j)

-- What the file of a rank holds, if it held `old`.
abbrev expected : Pc → Text → Option Text → Option Text
expected starting t old = old
expected created t old = old
expected opened t old = some []
expected arrived t old = some t
expected released t old = some t

expected_arrived :
    (p : Pc) (t : Text) (old : Option Text) → has_arrived p ≡ true → expected p t old ≡ some t
expected_arrived arrived t old h = refl
expected_arrived released t old h = refl
expected_arrived starting t old h = cc
expected_arrived created t old h = cc
expected_arrived opened t old h = cc

abbrev pub name_of : Ranks → ℕ → Text
name_of ranks i = file_name (ranks.rank i)

-- The ranks have different numbers, and nothing fails on the disk.
pub record AreRegular (ranks : Ranks) : Type 0 where
  pub distinct : (i j : ℕ) → i < ranks.count → j < ranks.count → ranks.rank i ≡ ranks.rank j → i ≡ j
  pub faultless : (i : ℕ) → i < ranks.count → IsFaultless (ranks.faults i)

record Inv (ranks : Ranks) (dir : Option Directory) (s : Finalizing) : Type 0 where
  present : (i : ℕ) → i < ranks.count → s.pc i ≢ starting → (d : Directory) × (s.traces ≡ some d)
  own :
      (i : ℕ)
      → i < ranks.count
      → lookup (name_of ranks i) (entries s.traces)
        ≡ expected (s.pc i) (ranks.text i) (lookup (name_of ranks i) (entries dir))
  others :
      (file : Text)
      → ((i : ℕ) → i < ranks.count → text_eq (name_of ranks i) file ≡ false)
      → lookup file (entries s.traces) ≡ lookup file (entries dir)

-- The three calls, while nothing fails.
pub create-eq :
    (f : WriteFaults) (dir : Option Directory)
    → IsFaultless f
    → create_dir_all f (fresh dir) ≡ (ret tt, fresh (some (entries dir)))
unfolding create_dir_all
create-eq f none h = ground arith
create-eq f (some d) h = ground arith

pub open-eq :
    (f : WriteFaults) (name : Text) (d : Directory)
    → IsFaultless f
    → open_truncated f name (fresh (some d)) ≡ (ret tt, fresh (some (put name [] d)))
unfolding open_truncated
open-eq f name d h = ground arith

pub write-eq :
    (f : WriteFaults) (name t : Text) (d : Directory)
    → IsFaultless f
    → write_text f name t (fresh (some d)) ≡ (ret tt, fresh (some (put name t d)))
unfolding write_text
write-eq f name t d h = ground arith

module _ {ranks : Ranks} (regular : AreRegular ranks) where
  pub name_of-differ :
      (k i : ℕ)
      → k < ranks.count
      → i < ranks.count
      → k ≢ i
      → text_eq (name_of ranks k) (name_of ranks i) ≡ false
  name_of-differ k i hk hi differ =
      elim (Bool-cases (text_eq (name_of ranks k) (name_of ranks i))) [
        | inl same ↦
            absurd
              (differ (regular.distinct k i hk hi (file_name-injective _ _ (text_eq→eq _ _ same))))
        | inr other ↦ other
      ]

module _ {ranks : Ranks} (regular : AreRegular ranks) {dir : Option Directory} where
  -- Rank `k` has gone on to `p`, and only its own file may have changed.
  moved :
      {s : Finalizing}
      → Inv ranks dir s
      → (k : ℕ) → k < ranks.count
      → (p : Pc) (d : Directory)
      → ((file : Text)
          → text_eq (name_of ranks k) file ≡ false
          → lookup file d ≡ lookup file (entries s.traces))
      → lookup (name_of ranks k) d
        ≡ expected p (ranks.text k) (lookup (name_of ranks k) (entries dir))
      → Inv ranks dir (record { traces = some d; pc = update s.pc k p })
  moved {s} inv k hk p d same mine = record {
    present = λ i hi h. (d, refl);
    own = λ i hi. elim (Bool-cases (k == i)) [
      | inl e ↦
          subst
            (λ j.
              lookup (name_of ranks j) d
              ≡ expected p (ranks.text j) (lookup (name_of ranks j) (entries dir)))
            ((==_iff k i).0 e) mine
          ∙ ap
              (λ b.
                expected (if b then p else s.pc i) (ranks.text i)
                  (lookup (name_of ranks i) (entries dir)))
              (sym e)
      | inr e ↦
          same (name_of ranks i) (name_of-differ regular k i hk hi (λ q. cc ((==_iff k i).1 q)))
          ∙ inv.own i hi
          ∙ ap
              (λ b.
                expected (if b then p else s.pc i) (ranks.text i)
                  (lookup (name_of ranks i) (entries dir)))
              (sym e)
    ];
    others = λ file foreign. same file (foreign k hk) ∙ inv.others file foreign;
  }

  -- A call on the directory that has put `t` into the rank's file.
  put-Inv :
      {s : Finalizing}
      → Inv ranks dir s
      → (k : ℕ) → k < ranks.count
      → (p : Pc) (t : Text) (d : Directory) → s.traces ≡ some d
      → some t ≡ expected p (ranks.text k) (lookup (name_of ranks k) (entries dir))
      → Inv ranks dir (record { traces = some (put (name_of ranks k) t d); pc = update s.pc k p })
  put-Inv {s} inv k hk p t d e content =
      moved inv k hk p (put (name_of ranks k) t d)
        (λ file h.
          lookup-put (name_of ranks k) file t d
          ∙ ap (λ b. if b then some t else lookup file d) h
          ∙ ap (λ o. lookup file (entries o)) (sym e))
        (lookup-put (name_of ranks k) (name_of ranks k) t d
          ∙ ap (λ b. if b then some t else lookup (name_of ranks k) d)
              (text_eq_self (name_of ranks k))
          ∙ content)

  Step-Inv : {s t : Finalizing} → Inv ranks dir s → Step ranks s t → Inv ranks dir t
  Step-Inv {s} inv (create k lt at) =
      rw (create-eq (ranks.faults k) s.traces (regular.faultless k lt)) (
        moved inv k lt created (entries s.traces) (λ file h. refl)
          (inv.own k lt
            ∙ ap (λ q. expected q (ranks.text k) (lookup (name_of ranks k) (entries dir))) at))
  Step-Inv {s} inv (open_file k lt at) =
      let (d, e) = inv.present k lt (λ q. cc) in
      rw (e, open-eq (ranks.faults k) (name_of ranks k) d (regular.faultless k lt))
        (put-Inv inv k lt opened [] d e refl)
  Step-Inv {s} inv (write k lt at) =
      let (d, e) = inv.present k lt (λ q. cc) in
      rw (e, write-eq (ranks.faults k) (name_of ranks k) (ranks.text k) d (regular.faultless k lt))
        (put-Inv inv k lt arrived (ranks.text k) d e refl)
  Step-Inv {s} inv (release k lt at all) =
      let (d, e) = inv.present k lt (λ q. cc) in
      subst (λ o. Inv ranks dir (record { traces = o; pc = update s.pc k released })) (sym e)
        (moved inv k lt released d (λ file h. ap (λ o. lookup file (entries o)) (sym e))
          (ap (λ o. lookup (name_of ranks k) (entries o)) (sym e)
            ∙ inv.own k lt
            ∙ ap (λ q. expected q (ranks.text k) (lookup (name_of ranks k) (entries dir))) at))

  Reach-Inv : {s : Finalizing} → Reach ranks dir s → Inv ranks dir s
  Reach-Inv here = record {
    present = λ i hi h. absurd (h refl);
    own = λ i hi. refl;
    others = λ file foreign. refl;
  }
  Reach-Inv (next r step) = Step-Inv (Reach-Inv r) step

  -- If the ranks have different numbers and nothing fails on the disk: however the calls of the
  -- ranks on the directory are interleaved, as soon as some rank has left the barrier of
  -- `MPI_Finalize` the file of every rank holds the whole text of its vector, and every file that
  -- is no rank's is as it was at the start.
  pub Reach-complete :
      {s : Finalizing}
      → Reach ranks dir s
      → (i : ℕ) → i < ranks.count
      → s.pc i ≡ released
      → ((j : ℕ)
          → j < ranks.count
          → lookup (name_of ranks j) (entries s.traces) ≡ some (ranks.text j))
        × ((file : Text)
            → ((j : ℕ) → j < ranks.count → text_eq (name_of ranks j) file ≡ false)
            → lookup file (entries s.traces) ≡ lookup file (entries dir))
  Reach-complete {s} r i hi at =
      let inv = Reach-Inv r in
      (
        λ j hj.
            inv.own j hj
            ∙ expected_arrived (s.pc j) (ranks.text j) (lookup (name_of ranks j) (entries dir))
                (Reach-has_arrived r i j hi hj at),
        inv.others,
      )
