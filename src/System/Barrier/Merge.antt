-- ===== src/System/Barrier/Merge.antt =====
-- Behind the barrier: rank 0 merges what the ranks have written, in whichever order they came.
use mathlib.Core.List.{Perm}
use mathlib.Core.List.Perm
use interpol.Base.{
  IsDistinct, ◌≡◌, ◌∙◌, refl, sym, ap, subst, ℕ, zero, suc, ◌<◌, true, Option, none, some, List, [],
  ◌∷◌, ◌++◌, All, Text, arith,
}
use interpol.Event.{Event, tsc}
use interpol.Json.{SerdeJson, IsSerdeJson, restore_all, HasFiniteTime}
use interpol.Json.Restore.{restore_all-append, restore_all-HasFiniteTime}
use interpol.Machine.{Directory, Machine, Ctl, ret}
use interpol.Files.{entries, lookup}
use interpol.Call.Finalize.{IsFaultless}
use interpol.Aggregate.{result_name, Rayon, IsRayon, IsSorted, SortEnvironment, sort_all_traces}
use interpol.Aggregate.Extension.{extension-file_name}
use interpol.Aggregate.Listing.{Listing, nil, traces, IsReadable, Listing-append}
use interpol.Aggregate.Sorted.{sort_all_traces-IsSorted}
use interpol.Aggregate.Unique.{time_stamps, sorted_unique}
use mathlib.Core.Option.{some-injective}
use interpol.System.Barrier.{Pc, released, Ranks, Finalizing, Reach, has_arrived}
use interpol.System.Barrier.Order.{upto, collected, collected-Perm}
use interpol.System.Barrier.Contents.{files, content, is_open}
use interpol.System.Barrier.Listed.{Reach-IsListed}
use interpol.System.Barrier.Invariant.{AreRegular, name_of, Reach-has_arrived}

-- The texts of the ranks are those of vectors with finite times.
pub record AreLogs (json : SerdeJson) (ranks : Ranks) (logs : ℕ → List Event) : Type 0 where
  pub serialized : (i : ℕ) → i < ranks.count → json.to_string (logs i) ≡ some (ranks.text i)
  pub finite : (i : ℕ) → i < ranks.count → All HasFiniteTime (logs i)

has_arrived-is_open : (p : Pc) → has_arrived p ≡ true → is_open p ≡ true
has_arrived-is_open p h = ground arith

abbrev or_none : SerdeJson → Option Text → Option (List Event)
or_none json none = none
or_none json (some t) = json.from_str t

-- What is read of the result file after a merge.
abbrev pub read_back : SerdeJson → Ctl (Unit {0}) × Machine → Option (List Event)
read_back json r = or_none json (lookup result_name (entries r.1.traces))

read_back-eq :
    (json : SerdeJson) (m : Machine) (out : List Text) {r : Ctl (Unit {0}) × Machine}
    {c : Ctl (Unit {0})} {d : Directory} {t : Text}
    → r ≡ (c, record m { traces = some d; stdout = out })
    → lookup result_name d ≡ some t
    → read_back json r ≡ json.from_str t
read_back-eq json m out e found = ap (read_back json) e ∙ ap (or_none json) found

abbrev or_nil : {A : Type 0} → Option (List A) → List A
or_nil none = []
or_nil (some l) = l

module _ {json : SerdeJson} (law : IsSerdeJson json) {ranks : Ranks} {logs : ℕ → List Event}
    (written : AreLogs json ranks logs) where
  -- What is read of a rank's file.
  abbrev read : ℕ → List Event
  read i = or_nil (restore_all json.reparse (logs i))

  restored : (i : ℕ) → i < ranks.count → restore_all json.reparse (logs i) ≡ some (read i)
  restored i lt =
      let (es, e) = restore_all-HasFiniteTime json law (logs i) (written.finite i lt) in
      e ∙ sym (ap (λ o. some (or_nil o)) e)

  from_str-text : (i : ℕ) → i < ranks.count → json.from_str (ranks.text i) ≡ some (read i)
  from_str-text i lt =
      law.from_str-to_string (logs i) (ranks.text i) (written.serialized i lt) ∙ restored i lt

  restored_all :
      (n : ℕ)
      → ((i : ℕ) → i < n → i < ranks.count)
      → restore_all json.reparse (collected logs (upto n)) ≡ some (collected read (upto n))
  unfolding restore_all
  restored_all zero below = refl
  restored_all (suc n) below =
      restore_all-append json.reparse (logs n) (collected logs (upto n))
        (restored n (below n (omega arith))) (restored_all n (λ i lt. below i (omega arith)))

  content_arrived : (p : Pc) (t : Text) → has_arrived p ≡ true → content p t ≡ t
  content_arrived p t h = ground arith

  -- The files of ranks that have arrived.
  files-Listing :
      (pc : ℕ → Pc)
      → ((i : ℕ) → i < ranks.count → has_arrived (pc i) ≡ true)
      → (l : List ℕ) → All (λ i. i < ranks.count) l
      → Listing json (files ranks pc l) (collected read l)
  files-Listing pc all [] below = nil
  files-Listing pc all (i ∷ l) (lt, below) =
      let (ext, differs) = extension-file_name (ranks.rank i) in
      traces differs ext
        (ap json.from_str (content_arrived (pc i) (ranks.text i) (all i lt)) ∙ from_str-text i lt)
        (files-Listing pc all l below)

  -- Given the documented behaviour of serde_json and rayon: let the ranks have different numbers
  -- and no files yet, their texts be those of vectors with finite times, the directory, where there
  -- is one, hold only readable files, and no call of the operating system fail. However the
  -- finalizes of the ranks are interleaved, once a rank has left the barrier `sort_all_traces`
  -- returns, and reading the result file gives what JSON gives back of a list that is in the order
  -- of the time stamps and is a permutation of the events that the directory held before and of
  -- those of all ranks as JSON gives them back.
  pub sort_all_traces-Reach :
      (rayon : Rayon)
      → IsRayon rayon
      → (env : SortEnvironment) → AreRegular ranks
      → {dir : Option Directory} {old_events : List Event} → Listing json (entries dir) old_events
      → ((i : ℕ) → i < ranks.count → lookup (name_of ranks i) (entries dir) ≡ none)
      → {s : Finalizing} → Reach ranks dir s
      → (i : ℕ) → i < ranks.count
      → s.pc i ≡ released
      → IsReadable env.reads
      → IsFaultless env.writes
      → (m : Machine) → m.traces ≡ s.traces
      → (t : Text) × (d : Directory) × (out : List Text) × (es sorted : List Event)
        × (sort_all_traces json rayon env m ≡ (ret tt, record m { traces = some d; stdout = out }))
        × (lookup result_name d ≡ some t)
        × (json.from_str t ≡ restore_all json.reparse sorted)
        × IsSorted tsc sorted
        × Perm sorted (old_events ++ es)
        × (restore_all json.reparse (collected logs (upto ranks.count)) ≡ some es)
  sort_all_traces-Reach rayon sorts env regular {dir} {old_events} listing new {s} r i lt at reads
        writes m e =
      let (l, h) = Reach-IsListed regular new r in
      let all = λ (j : ℕ) (lt' : j < ranks.count). Reach-has_arrived r i j lt lt' at in
      let (d0, present) = h.present i lt (λ q. cc) in
      let listed : Listing json d0 (old_events ++ collected read l) =
        subst (λ d. Listing json d (old_events ++ collected read l))
          (sym h.contents ∙ ap entries present)
          (Listing-append listing (files-Listing s.pc all l h.below)) in
      let (t, d, out, sorted, returned, found, back, ordered, perm, others) =
        sort_all_traces-IsSorted json law rayon sorts env listed m (e ∙ present) reads writes in
      (
        t,
        d,
        out,
        collected read (upto ranks.count),
        sorted,
        returned,
        found,
        back,
        ordered,
        Perm.trans perm (
            Perm.append_left old_events (
              collected-Perm read ranks.count l h.distinct h.below
                (λ j lt'. h.opened j lt' ∙ has_arrived-is_open (s.pc j) (all j lt')))),
        restored_all ranks.count (λ j lt'. lt'),
      )

  -- Given the documented behaviour of serde_json and rayon: under the conditions of the merge
  -- behind the barrier (the ranks have different numbers and no files yet, their texts are those of
  -- vectors with finite times, the directory held only readable files, no call of the operating
  -- system fails), and if the time stamps of all events that are merged differ, two merges after
  -- any two interleavings of the finalizes, with any two unstable sorts and either format of the
  -- result, write files that are read as the same events in the same order.
  pub read_back_unique :
      (rayon rayon' : Rayon)
      → IsRayon rayon
      → IsRayon rayon'
      → (env env' : SortEnvironment) → AreRegular ranks
      → {dir : Option Directory} {old_events : List Event} → Listing json (entries dir) old_events
      → ((i : ℕ) → i < ranks.count → lookup (name_of ranks i) (entries dir) ≡ none)
      → (es : List Event) → restore_all json.reparse (collected logs (upto ranks.count)) ≡ some es
      → IsDistinct (time_stamps (old_events ++ es))
      → {s s' : Finalizing} → Reach ranks dir s
      → Reach ranks dir s'
      → (i i' : ℕ) → i < ranks.count
      → i' < ranks.count
      → s.pc i ≡ released
      → s'.pc i' ≡ released
      → IsReadable env.reads
      → IsReadable env'.reads
      → IsFaultless env.writes
      → IsFaultless env'.writes
      → (m m' : Machine) → m.traces ≡ s.traces
      → m'.traces ≡ s'.traces
      → read_back json (sort_all_traces json rayon env m)
        ≡ read_back json (sort_all_traces json rayon' env' m')
  read_back_unique rayon rayon' sorts sorts' env env' regular {old_events = old_events} listing new
        es restored_es distinct r r' i i' lt lt' at at' reads reads' writes writes' m m' e e' =
      let (t, d, out, es1, sorted, returned, found, back, ordered, perm, restored1) =
        sort_all_traces-Reach rayon sorts env regular listing new r i lt at reads writes m e in
      let (t', d', out', es2, sorted', returned', found', back', ordered', perm', restored2) =
        sort_all_traces-Reach rayon' sorts' env' regular listing new r' i' lt' at' reads' writes' m'
          e' in
      read_back-eq json m out returned found
      ∙ back
      ∙ ap (restore_all json.reparse) (
          sorted_unique sorted sorted' (old_events ++ es) ordered ordered'
            (subst (λ x. Perm sorted (old_events ++ x))
              (some-injective _ _ (sym restored1 ∙ restored_es)) perm)
            (subst (λ x. Perm sorted' (old_events ++ x))
              (some-injective _ _ (sym restored2 ∙ restored_es)) perm')
            distinct)
      ∙ sym back'
      ∙ sym (read_back-eq json m' out' returned' found')
