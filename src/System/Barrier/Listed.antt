-- ===== src/System/Barrier/Listed.antt =====
-- The files in the directory while the ranks finalize: those of before, and then those of the ranks,
-- in the order in which they were made.
use mathlib.Core.List.{append-nil}
use interpol.Base.{
  is_in, IsDistinct, is_in-snoc, IsDistinct-snoc, ◌≡◌, ◌≢◌, ◌∙◌, refl, sym, ap, subst, ℕ, ◌<◌, ◌==◌,
  ==_iff, update, Option, none, some, List, [], ◌∷◌, ◌++◌, All, All-append, arith, Bool-cases, inl,
  inr,
}
use interpol.Machine.{Directory}
use interpol.Files.{entries, lookup, put}
use interpol.Files.Laws.{put-absent}
use interpol.System.Barrier.{
  Pc, starting, created, opened, arrived, released, Ranks, Finalizing, Step, create, open_file,
  write, release, Reach, here, next,
}
use interpol.System.Barrier.Invariant.{AreRegular, name_of, create-eq, open-eq, write-eq}
use interpol.System.Barrier.Contents.{
  is_open, content, files, files_ext, files-snoc, put-append, lookup-files, put-files,
}

-- What depends on the place of a rank, after a move that does not change it.
update_keeps :
    {A : Type 0} (f : ℕ → Pc → A) (pc : ℕ → Pc) (k : ℕ) (p : Pc)
    → f k p ≡ f k (pc k)
    → (i : ℕ) → f i (update pc k p i) ≡ f i (pc i)
update_keeps f pc k p h i = elim (Bool-cases (k == i)) [
  | inl e ↦ rw e (subst (λ j. f j p ≡ f j (pc j)) ((==_iff k i).0 e) h)
  | inr e ↦ rw e refl
]

module _ {ranks : Ranks} (regular : AreRegular ranks) where
  -- The files are those of before and those of the ranks of `l`.
  pub record IsListed (dir : Option Directory) (s : Finalizing) (l : List ℕ) : Type 0 where
    pub contents : entries s.traces ≡ entries dir ++ files ranks s.pc l
    pub distinct : IsDistinct l
    pub below : All (λ i. i < ranks.count) l
    pub opened : (i : ℕ) → i < ranks.count → is_in i l ≡ is_open (s.pc i)
    pub present :
        (i : ℕ) → i < ranks.count → s.pc i ≢ starting → (d : Directory) × (s.traces ≡ some d)

  -- A step that makes no file, and does not change what is in one.
  same-IsListed :
      {dir : Option Directory} {s : Finalizing} {l : List ℕ}
      → IsListed dir s l
      → (k : ℕ) → k < ranks.count
      → (p : Pc) (d : Directory) → d ≡ entries s.traces
      → is_open p ≡ is_open (s.pc k)
      → content p (ranks.text k) ≡ content (s.pc k) (ranks.text k)
      → IsListed dir (record { traces = some d; pc = update s.pc k p }) l
  same-IsListed {dir} {s} {l} h k lt p d e open_eq content_eq = record {
    contents =
        e
        ∙ h.contents
        ∙ ap (λ r. entries dir ++ r)
            (files_ext ranks s.pc (update s.pc k p)
              (λ i. sym (update_keeps (λ i q. content q (ranks.text i)) s.pc k p content_eq i)) l);
    distinct = h.distinct;
    below = h.below;
    opened = λ i lt'. h.opened i lt' ∙ sym (update_keeps (λ i q. is_open q) s.pc k p open_eq i);
    present = λ i lt' started. (d, refl);
  }

  -- The rank `k` makes its file.
  open-IsListed :
      {dir : Option Directory} {s : Finalizing} {l : List ℕ}
      → IsListed dir s l
      → (k : ℕ) → k < ranks.count
      → s.pc k ≡ created
      → lookup (name_of ranks k) (entries dir) ≡ none
      → IsListed dir
          (record {
            traces = some (put (name_of ranks k) [] (entries s.traces));
            pc = update s.pc k opened;
          })
          (l ++ k ∷ [])
  open-IsListed {dir} {s} {l} h k lt at new = record {
    contents =
        ap (put (name_of ranks k) []) h.contents
        ∙ put-append ranks (name_of ranks k) [] (entries dir) (files ranks s.pc l) new
        ∙ ap (λ r. entries dir ++ r)
            (put-absent (name_of ranks k) [] (files ranks s.pc l)
                (lookup-files regular s.pc k lt l h.below (h.opened k lt ∙ ap is_open at))
              ∙ sym (files-snoc ranks s.pc k opened l (h.opened k lt ∙ ap is_open at)));
    distinct = IsDistinct-snoc k l h.distinct (h.opened k lt ∙ ap is_open at);
    below = All-append (λ i. i < ranks.count) l (k ∷ []) h.below (lt, tt);
    opened = λ i lt'. ground (arith, is_in-snoc i k l, h.opened i lt', at);
    present = λ i lt' started. (_, refl);
  }

  -- The rank `k` writes into its file.
  write-IsListed :
      {dir : Option Directory} {s : Finalizing} {l : List ℕ}
      → IsListed dir s l
      → (k : ℕ) → k < ranks.count
      → s.pc k ≡ opened
      → lookup (name_of ranks k) (entries dir) ≡ none
      → IsListed dir
          (record {
            traces = some (put (name_of ranks k) (ranks.text k) (entries s.traces));
            pc = update s.pc k arrived;
          })
          l
  write-IsListed {dir} {s} {l} h k lt at new = record {
    contents =
        ap (put (name_of ranks k) (ranks.text k)) h.contents
        ∙ put-append ranks (name_of ranks k) (ranks.text k) (entries dir) (files ranks s.pc l) new
        ∙ ap (λ r. entries dir ++ r)
            (put-files regular s.pc k lt arrived (ranks.text k) refl l h.below h.distinct
              (h.opened k lt ∙ ap is_open at));
    distinct = h.distinct;
    below = h.below;
    opened = λ i lt'.
        h.opened i lt'
        ∙ sym (update_keeps (λ i q. is_open q) s.pc k arrived (ap is_open (sym at)) i);
    present = λ i lt' started. (_, refl);
  }

  -- The ranks' files are all new.
  module _ {dir : Option Directory}
      (new : (i : ℕ) → i < ranks.count → lookup (name_of ranks i) (entries dir) ≡ none) where
    Step-IsListed :
        {s t : Finalizing} {l : List ℕ}
        → IsListed dir s l
        → Step ranks s t
        → (l' : List ℕ) × IsListed dir t l'
    Step-IsListed {s} {t} {l} h (create k lt at) = (
      l,
      rw (create-eq (ranks.faults k) s.traces (regular.faultless k lt)) (
          same-IsListed h k lt created (entries s.traces) refl (sym (ap is_open at))
            (sym (ap (λ q. content q (ranks.text k)) at))),
    )
    Step-IsListed {s} {t} {l} h (open_file k lt at) =
        let (d, e) = h.present k lt (λ q. cc) in
        (
          l ++ k ∷ [],
          rw (e, open-eq (ranks.faults k) (name_of ranks k) d (regular.faultless k lt))
              (subst
                (λ o.
                  IsListed dir
                    (record {
                      traces = some (put (name_of ranks k) [] (entries o));
                      pc = update s.pc k opened;
                    })
                    (l ++ k ∷ []))
                e (open-IsListed h k lt at (new k lt))),
        )
    Step-IsListed {s} {t} {l} h (write k lt at) =
        let (d, e) = h.present k lt (λ q. cc) in
        (
          l,
          rw
              (
                e,
                write-eq (ranks.faults k) (name_of ranks k) (ranks.text k) d
                    (regular.faultless k lt),
              )
              (subst
                (λ o.
                  IsListed dir
                    (record {
                      traces = some (put (name_of ranks k) (ranks.text k) (entries o));
                      pc = update s.pc k arrived;
                    })
                    l)
                e (write-IsListed h k lt at (new k lt))),
        )
    Step-IsListed {s} {t} {l} h (release k lt at all) =
        let (d, e) = h.present k lt (λ q. cc) in
        (
          l,
          subst (λ o. IsListed dir (record { traces = o; pc = update s.pc k released }) l) (sym e)
              (same-IsListed h k lt released d (sym (ap entries e)) (sym (ap is_open at))
                (sym (ap (λ q. content q (ranks.text k)) at))),
        )

    pub Reach-IsListed : {s : Finalizing} → Reach ranks dir s → (l : List ℕ) × IsListed dir s l
    Reach-IsListed here = (
      [],
      record {
        contents = sym (append-nil (entries dir));
        distinct = tt;
        below = tt;
        opened = λ i lt. refl;
        present = λ i lt started. absurd (started refl);
      },
    )
    Reach-IsListed (next r step) = let (l, h) = Reach-IsListed r in Step-IsListed h step
