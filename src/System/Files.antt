-- ===== src/System/Files.antt =====
-- The directory after the finalizes of all ranks.
use interpol.Base.{
  suc, ◌*◌, ◌≤◌, ◌++◌, ◌≡◌, ◌≢◌, ◌∙◌, sym, ap, subst, refl, if◌then◌else◌, Option, none, some, List,
  [], ◌∷◌, Text, text_eq, text_eq→eq, arith, All, All-append_inv, length, Bool-cases, inl, inr,
}
use mathlib.Core.List.{append_assoc, append-nil}
use interpol.Types.{MpiRank, MpiCallType}
use interpol.Event.{Event}
use interpol.Builder.{IsBuilder}
use interpol.Json.{SerdeJson, IsSerdeJson, restore_all, HasFiniteTime}
use interpol.Json.Restore.{restore_all-append, restore_all-HasFiniteTime}
use interpol.Vector.{max_capacity}
use interpol.Vector.Generous.{IsGenerous}
use interpol.Machine.{Directory, >>=-eq-of_ret}
use interpol.Files.{entries, put, lookup}
use interpol.Files.Laws.{put-absent, lookup-put}
use interpol.Serialize.{file_name}
use interpol.Serialize.FileName.{file_name-injective}
use interpol.Dispatch.{Crates}
use interpol.Dispatch.Record.{event_of}
use interpol.Call.{register_mpi_call}
use interpol.Call.Outcome.{IsSound}
use interpol.Call.Run.{Step, run, events_of, Granted, run_complete}
use interpol.Call.Finalize.{IsFaultless, finalize_written}
use interpol.Aggregate.Extension.{extension-file_name}
use interpol.Aggregate.Listing.{Listing, nil, traces, Listing-append}
use interpol.System.{Rank, rank_of, fresh, run_rank, run_ranks, rank_events, all_events}

-- A rank that gets the memory it asks for, has room for its events, and writes its file.
pub record IsRegular (r : Rank) : Type 0 where
  pub granted : All Granted r.steps
  pub generous : IsGenerous r.last.env.memory
  pub faultless : IsFaultless r.last.env.files
  pub finalizes : r.last.call.kind ≡ MpiCallType.finalize
  pub room : 3 * length r.steps ≤ max_capacity

-- The ranks differ, and none of them has a file yet.
abbrev pub AreNew : List Rank → Directory → Type 0
AreNew [] d = Unit
AreNew (r ∷ rs) d =
    (lookup (file_name (rank_of r)) d ≡ none) × All (λ q. rank_of q ≢ rank_of r) rs × AreNew rs d

-- A trace file at the end of a listing.
Listing-snoc :
    {json : SerdeJson} {d : Directory} {es : List Event}
    → Listing json d es
    → (rank : MpiRank) (t : Text) (new : List Event) → json.from_str t ≡ some new
    → Listing json (d ++ (file_name rank, t) ∷ []) (es ++ new)
Listing-snoc {json} {d} {es} l rank t new e =
    let (ext, differs) = extension-file_name rank in
    subst (λ r. Listing json (d ++ (file_name rank, t) ∷ []) (es ++ r)) (append-nil new)
      (Listing-append l (traces differs ext e nil))

-- A rank's new file is no other rank's.
AreNew-put :
    (rank : MpiRank) (t : Text) (rs : List Rank) (d : Directory)
    → All (λ q. rank_of q ≢ rank) rs
    → AreNew rs d
    → AreNew rs (put (file_name rank) t d)
AreNew-put rank t [] d differ h = tt
AreNew-put rank t (r ∷ rs) d differ (absent, distinct, h) = (
  elim (Bool-cases (text_eq (file_name rank) (file_name (rank_of r)))) [
    | inl same ↦
        absurd (differ.0 (sym (file_name-injective rank (rank_of r) (text_eq→eq _ _ same))))
    | inr other_name ↦
        lookup-put (file_name rank) (file_name (rank_of r)) t d
        ∙ ap (λ b. if b then some t else lookup (file_name (rank_of r)) d) other_name
        ∙ absent
  ],
  distinct,
  AreNew-put rank t rs d differ.1 h,
)

length-events_of : (steps : List Step) → length (events_of steps) ≡ length steps
length-events_of [] = refl
length-events_of (step ∷ steps) = ap suc (length-events_of steps)

module _ (crates : Crates) (law : IsBuilder crates.builder) (json : IsSerdeJson crates.json) where
  -- A regular rank puts one file into the directory, which is read back as its events, the finalize
  -- last.
  pub run_rank_lem :
      (r : Rank) (dir : Option Directory)
      → IsRegular r
      → (t : Text) × ((run_rank crates r (fresh dir)).1.traces
          ≡ some (put (file_name (rank_of r)) t (entries dir)))
        × (crates.json.from_str t ≡ restore_all crates.json.reparse (rank_events r))
        × (crates.json.to_string (rank_events r) ≡ some t)
  unfolding run_rank
  run_rank_lem r dir h =
      let sound : IsSound (fresh dir) = record {
        valid = record { fits = omega arith; bounded = omega arith };
        clean = refl;
      } in
      let (v, ran, valid, items) =
        run_complete crates law json r.steps (fresh dir) sound h.granted (omega (arith, h.room)) in
      let ready : IsSound (record (fresh dir) { events = v }) = record {
        valid = valid;
        clean = refl;
      } in
      let (w, t, finished, all, back, ok, text) =
        finalize_written crates law json r.last.env r.last.call (record (fresh dir) { events = v })
          ready h.finalizes h.generous h.faultless
          (omega (arith, h.room, ap length items, length-events_of r.steps)) in
      (
        t,
        ap (λ m. m.1.traces)
            (>>=-eq-of_ret (run crates r.steps)
                (λ _. register_mpi_call crates r.last.env r.last.call) ran
              ∙ finished),
        back
            ∙ ap (restore_all crates.json.reparse)
                (all ∙ ap (λ l. l ++ event_of r.last.call ∷ []) items),
        ap crates.json.to_string (sym (all ∙ ap (λ l. l ++ event_of r.last.call ∷ []) items))
            ∙ text,
      )

  -- The next rank: its file is listed last, and the others are still new.
  next_rank :
      (r : Rank) (rs : List Rank) (dir : Option Directory) {old_events : List Event}
      → IsRegular r
      → Listing crates.json (entries dir) old_events
      → AreNew (r ∷ rs) (entries dir)
      → All HasFiniteTime (rank_events r)
      → (d : Directory) × (es : List Event) × ((run_rank crates r (fresh dir)).1.traces ≡ some d)
        × (restore_all crates.json.reparse (rank_events r) ≡ some es)
        × Listing crates.json d (old_events ++ es)
        × AreNew rs d
  next_rank r rs dir {old_events} h l (absent, distinct, new) finite =
      let (t, ran, back, text) = run_rank_lem r dir h in
      let (es, restored) = restore_all-HasFiniteTime crates.json json (rank_events r) finite in
      (
        put (file_name (rank_of r)) t (entries dir),
        es,
        ran,
        restored,
        subst (λ d. Listing crates.json d (old_events ++ es))
            (sym (put-absent (file_name (rank_of r)) t (entries dir) absent))
            (Listing-snoc l (rank_of r) t es (back ∙ restored)),
        AreNew-put (rank_of r) t rs (entries dir) distinct new,
      )

  run_ranks_from :
      (rs : List Rank) (d : Directory) {old_events : List Event}
      → All IsRegular rs
      → Listing crates.json d old_events
      → AreNew rs d
      → All HasFiniteTime (all_events rs)
      → (d' : Directory) × (es : List Event) × (run_ranks crates rs (some d) ≡ some d')
        × (restore_all crates.json.reparse (all_events rs) ≡ some es)
        × Listing crates.json d' (old_events ++ es)
  unfolding run_ranks restore_all
  run_ranks_from [] d h l new finite =
      (d, [], refl, refl, subst (Listing crates.json d) (sym (append-nil _)) l)
  run_ranks_from (r ∷ rs) d {old_events} h l new finite =
      let (here, there) = All-append_inv HasFiniteTime (rank_events r) (all_events rs) finite in
      let (d1, es1, ran, restored, l1, new1) = next_rank r rs (some d) h.0 l new here in
      let (d2, es2, rest, restored2, l2) = run_ranks_from rs d1 h.1 l1 new1 there in
      (
        d2,
        es1 ++ es2,
        ap (run_ranks crates rs) ran ∙ rest,
        restore_all-append crates.json.reparse (rank_events r) (all_events rs) restored restored2,
        subst (Listing crates.json d2) (append_assoc old_events es1 es2) l2,
      )

  -- Given the documented behaviour of derive_builder and serde_json: after the finalizes of regular
  -- ranks (at least one) with different numbers, no files yet and finite times, whether or not the
  -- directory was there before, it is there and readable and lists, after the events that it held,
  -- those of every rank as JSON gives them back, in the order of the ranks.
  pub run_ranks-Listing :
      (r : Rank) (rs : List Rank) (dir : Option Directory) {old_events : List Event}
      → All IsRegular (r ∷ rs)
      → Listing crates.json (entries dir) old_events
      → AreNew (r ∷ rs) (entries dir)
      → All HasFiniteTime (all_events (r ∷ rs))
      → (d : Directory) × (es : List Event) × (run_ranks crates (r ∷ rs) dir ≡ some d)
        × (restore_all crates.json.reparse (all_events (r ∷ rs)) ≡ some es)
        × Listing crates.json d (old_events ++ es)
  unfolding run_ranks
  run_ranks-Listing r rs dir {old_events} h l new finite =
      let (here, there) = All-append_inv HasFiniteTime (rank_events r) (all_events rs) finite in
      let (d1, es1, ran, restored, l1, new1) = next_rank r rs dir h.0 l new here in
      let (d2, es2, rest, restored2, l2) = run_ranks_from rs d1 h.1 l1 new1 there in
      (
        d2,
        es1 ++ es2,
        ap (run_ranks crates rs) ran ∙ rest,
        restore_all-append crates.json.reparse (rank_events r) (all_events rs) restored restored2,
        subst (Listing crates.json d2) (append_assoc old_events es1 es2) l2,
      )
