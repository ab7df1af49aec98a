-- ===== src/Aggregate/Listing.antt =====
-- What `deserialize_all_traces` reads from a directory, and what it leaves there.
use interpol.Base.{
  ◌++◌, ◌≡◌, ◌∙◌, sym, ap, true, false, none, some, List, [], ◌∷◌, Text, text_eq, text_eq_self,
  codes, subst, arith,
}
use mathlib.Core.List.{append_assoc, append-nil}
use interpol.Event.{Event}
use interpol.Json.{SerdeJson}
use interpol.Machine.{Directory, Machine, ret}
use interpol.Aggregate.Passes.{Passes, purged, deserialize_all_traces-Passes}
use interpol.Aggregate.{result_name, extension, ReadFaults, read_entries, deserialize_all_traces}

-- A directory and the events of its trace files, in the order of the listing. A result of an
-- earlier run and files of other types hold none; a file with no extension is not allowed.
pub data Listing (json : SerdeJson) : Directory → List Event → Type 0 where
  nil : Listing json [] []
  old :
      {name contents : Text} {d : Directory} {es : List Event}
      → text_eq name result_name ≡ true
      → Listing json d es
      → Listing json ((name, contents) ∷ d) es
  traces :
      {name contents : Text} {new : List Event} {d : Directory} {es : List Event}
      → text_eq name result_name ≡ false
      → extension name ≡ some (codes "json")
      → json.from_str contents ≡ some new
      → Listing json d es
      → Listing json ((name, contents) ∷ d) (new ++ es)
  other :
      {name contents ext : Text} {d : Directory} {es : List Event}
      → text_eq name result_name ≡ false
      → extension name ≡ some ext
      → text_eq ext (codes "json") ≡ false
      → Listing json d es
      → Listing json ((name, contents) ∷ d) es

-- A listing goes on with another.
pub Listing-append :
    {json : SerdeJson} {d d' : Directory} {es es' : List Event}
    → Listing json d es
    → Listing json d' es'
    → Listing json (d ++ d') (es ++ es')
Listing-append nil m = m
Listing-append (old same l) m = old same (Listing-append l m)
Listing-append {json} {d' = d'} {es' = es'}
      (traces {name} {contents} {new} {d} {es} differs ext e l) m =
    subst (Listing json ((name, contents) ∷ d ++ d')) (sym (append_assoc new es es'))
      (traces differs ext e (Listing-append l m))
Listing-append (other differs ext foreign l) m = other differs ext foreign (Listing-append l m)

-- No call of the operating system fails.
pub record IsReadable (faults : ReadFaults) : Type 0 where
  pub listed : faults.read_dir ≡ none
  pub found : (name : Text) → faults.entry name ≡ none
  pub ended : faults.after_last ≡ none
  pub removed : (name : Text) → faults.remove_file name ≡ none
  pub read : (name : Text) → faults.read_to_string name ≡ none

-- While no call fails the loop gets past every entry of a listing.
Listing→Passes :
    {json : SerdeJson} {faults : ReadFaults} {d : Directory} {es : List Event}
    → IsReadable faults
    → Listing json d es
    → Passes json faults d es
Listing→Passes fine nil = Passes.nil
Listing→Passes fine (old {name} same l) =
    Passes.old (fine.found name) same (fine.removed name) (Listing→Passes fine l)
Listing→Passes fine (traces {name} differs ext e l) =
    Passes.traces (fine.found name) differs ext (text_eq_self (codes "json")) (fine.read name) e
      (Listing→Passes fine l)
Listing→Passes fine (other {name} differs ext foreign l) =
    Passes.other (fine.found name) differs ext foreign (Listing→Passes fine l)

module _ (json : SerdeJson) (faults : ReadFaults) (fine : IsReadable faults) where
  -- From a readable directory exactly the events of its trace files are returned, in the order of
  -- the listing, and the result of an earlier run is removed.
  pub deserialize_all_traces-Listing :
      {d : Directory} {es : List Event}
      → Listing json d es
      → (s : Machine) → s.traces ≡ some d
      → deserialize_all_traces json faults s ≡ (ret es, record s { traces = some (purged d d) })
  unfolding read_entries
  deserialize_all_traces-Listing {d} {es} l s e =
      deserialize_all_traces-Passes json faults [] fine.listed (Listing→Passes fine l) s
        (e ∙ ap some (sym (append-nil d)))
      ∙ ground (arith, fine.ended, append-nil d)
