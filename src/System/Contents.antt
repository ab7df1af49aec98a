-- ===== src/System/Contents.antt =====
-- The files of the directory after the finalizes of all ranks, one by one.
use interpol.Base.{
  arith, All-append, All-append_inv, ◌++◌, ◌≢◌, ◌⊎◌, inl, inr, Bool-cases, false, text_eq→eq, ◌≡◌,
  ◌∙◌, sym, ap, refl, if◌then◌else◌, Option, List, [], ◌∷◌, Text, text_eq, All,
}
use interpol.Builder.{IsBuilder}
use interpol.Json.{SerdeJson, IsSerdeJson}
use interpol.Machine.{Directory}
use interpol.Files.{entries, lookup}
use interpol.Files.Laws.{lookup-put}
use interpol.Serialize.{file_name}
use interpol.Serialize.FileName.{file_name-injective}
use interpol.Dispatch.{Crates}
use interpol.System.{Rank, rank_of, fresh, run_rank, run_ranks, rank_events}
use interpol.System.Files.{IsRegular, run_rank_lem}

-- What a file holds in the end, if it held `old`: the whole text of the last rank whose file it is.
abbrev pub contents_after : SerdeJson → List Rank → Text → Option Text → Option Text
contents_after json [] file old = old
contents_after json (r ∷ rs) file old =
    contents_after json rs file
      (if text_eq (file_name (rank_of r)) file then json.to_string (rank_events r) else old)

module _ (crates : Crates) (law : IsBuilder crates.builder) (json : IsSerdeJson crates.json) where
  lookup-run_rank :
      (r : Rank) (dir : Option Directory) (file : Text)
      → IsRegular r
      → lookup file (entries (run_rank crates r (fresh dir)).1.traces) ≡ (
          if text_eq (file_name (rank_of r)) file
          then crates.json.to_string (rank_events r)
          else lookup file (entries dir))
  lookup-run_rank r dir file h =
      let (t, ran, back, text) = run_rank_lem crates law json r dir h in
      ap (λ d. lookup file (entries d)) ran
      ∙ lookup-put (file_name (rank_of r)) file t (entries dir)
      ∙ ap (λ o. if text_eq (file_name (rank_of r)) file then o else lookup file (entries dir))
          (sym text)

  -- Given the documented behaviour of derive_builder and serde_json: after the finalizes of regular
  -- ranks, one after the other, whatever the directory held, every file holds the text of all
  -- events of the last rank whose file name it has, and if there is none what it held before.
  pub lookup-run_ranks :
      (rs : List Rank) (dir : Option Directory) (file : Text)
      → All IsRegular rs
      → lookup file (entries (run_ranks crates rs dir))
        ≡ contents_after crates.json rs file (lookup file (entries dir))
  unfolding run_ranks
  lookup-run_ranks [] dir file h = refl
  lookup-run_ranks (r ∷ rs) dir file h =
      lookup-run_ranks rs (run_rank crates r (fresh dir)).1.traces file h.1
      ∙ ap (contents_after crates.json rs file) (lookup-run_rank r dir file h.0)

  contents_after_swap :
      (before : List Rank) (r q : Rank) (after : List Rank) (file : Text) (old : Option Text)
      → text_eq (file_name (rank_of r)) file ≡ false
        ⊎ (text_eq (file_name (rank_of q)) file ≡ false)
      → contents_after crates.json (before ++ r ∷ q ∷ after) file old
        ≡ contents_after crates.json (before ++ q ∷ r ∷ after) file old
  contents_after_swap [] r q after file old (inl h) = ground arith
  contents_after_swap [] r q after file old (inr h) = ground arith
  contents_after_swap (p ∷ before) r q after file old h =
      contents_after_swap before r q after file
        (if text_eq (file_name (rank_of p)) file
          then crates.json.to_string (rank_events p)
          else old)
        h

  -- A file is of one of two ranks at most.
  one_writer :
      (r q : Rank) (file : Text)
      → rank_of r ≢ rank_of q
      → (text_eq (file_name (rank_of r)) file ≡ false)
        ⊎ (text_eq (file_name (rank_of q)) file ≡ false)
  one_writer r q file differ = elim (Bool-cases (text_eq (file_name (rank_of r)) file)) [
    | inr foreign ↦ inl foreign
    | inl mine ↦ elim (Bool-cases (text_eq (file_name (rank_of q)) file)) [
      | inr foreign ↦ inr foreign
      | inl yours ↦ absurd (
          differ (
            file_name-injective (rank_of r) (rank_of q)
              (text_eq→eq _ _ mine ∙ sym (text_eq→eq _ _ yours))))
    ]
  ]

  -- Given the documented behaviour of derive_builder and serde_json: if two regular ranks with
  -- different numbers finalize directly after each other, among any other regular ranks, then every
  -- file is the same in the end if they finalize in the other order.
  pub run_ranks_swap :
      (before : List Rank) (r q : Rank) (after : List Rank) (dir : Option Directory) (file : Text)
      → All IsRegular (before ++ r ∷ q ∷ after)
      → rank_of r ≢ rank_of q
      → lookup file (entries (run_ranks crates (before ++ r ∷ q ∷ after) dir))
        ≡ lookup file (entries (run_ranks crates (before ++ q ∷ r ∷ after) dir))
  run_ranks_swap before r q after dir file h differ =
      let (h1, h2) = All-append_inv IsRegular before (r ∷ q ∷ after) h in
      lookup-run_ranks (before ++ r ∷ q ∷ after) dir file h
      ∙ contents_after_swap before r q after file (lookup file (entries dir))
          (one_writer r q file differ)
      ∙ sym (
          lookup-run_ranks (before ++ q ∷ r ∷ after) dir file
            (All-append IsRegular before (q ∷ r ∷ after) h1 (h2.1.0, (h2.0, h2.1.1))))
